-- ===== src/Gen/Program.antt =====
-- lib/gen.c: what the vm reads of a program that was laid out.
use bhuna.Prelude.{
  ℕ, ◌+◌, ◌≡◌, ◌≤◌, ◌<◌, refl, sym, ap, ◌∙◌, true, false, Option, none, some, List, [], ◌∷◌, ◌++◌,
  if◌then◌else◌, length, ◌>>=◌, arith, All, All-mono, Option-cases, inl, inr,
}
use bhuna.Prelude.Distinct.{listed, listed-append}
use bhuna.Value.{structured, Kind}
use bhuna.Vm.{Instr}
use bhuna.Icode.{Op, jmp, jz, push_value, Iprogram, branch_of}
use bhuna.Icode.Order.{IsIncreasing, listed-All}
use bhuna.Icode.Wiring.{is_some, IsWired}
use bhuna.Icode.Optimize.{is_unset}
use bhuna.Icode.Pipeline.{IsReady}
use bhuna.Gen.{Emitted, Image, emitted, decoded, max_patches, iprogram_gen, program_of}
use bhuna.Gen.Patches.{back_patch-patched, resolve_closures-resolved}
use bhuna.Gen.Layout.{address, size_at, closure_of, IsLayable, Filed, Laid}
use bhuna.Gen.FirstRun.{gen_icodes-Laid}

-- The closures that are pushed have an entry.
abbrev pub HasEntries : Iprogram → Type 0
HasEntries ip =
    (n q : ℕ)
    → ip.code n ≡ some (push_value (structured Kind.closure q))
    → is_some (ip.entry q) ≡ true

-- The instruction that an icode stands for, where the icodes have these labels.
abbrev pub instruction : (ℕ → Instr) → (ℕ → Option ℕ) → Op → Option Instr
instruction table label op = decoded table (branch_of op >>= label) (emitted op)

decoded_same :
    (table : ℕ → Instr) (label : ℕ → Option ℕ) (word : Option ℕ) (op : Op)
    → ((t : ℕ) → branch_of op ≡ some t → word ≡ label t)
    → is_unset op ≡ false
    → decoded table word (emitted op) ≡ instruction table label op
decoded_same table label word (jmp (some t)) h u =
    ap (λ w. w >>= λ l. some (Instr.jmp l)) (h t refl)
decoded_same table label word (jz (some t)) h u = ap (λ w. w >>= λ l. some (Instr.jz l)) (h t refl)
decoded_same table label word (jmp none) h u = cc
decoded_same table label word (jz none) h u = cc
decoded_same table label word _ h u = refl

closure_of-push :
    (op : Op) (q : ℕ) → closure_of op ≡ some q → op ≡ push_value (structured Kind.closure q)
closure_of-push (push_value (structured Kind.closure p)) q h =
    ap (λ o. push_value (structured Kind.closure (elim o [ none ↦ p | some z ↦ z ]))) h
closure_of-push (push_value (structured Kind.string p)) q h = cc
closure_of-push (push_value (structured Kind.list p)) q h = cc
closure_of-push (push_value (structured Kind.error p)) q h = cc
closure_of-push (push_value (structured Kind.dict p)) q h = cc
closure_of-push (push_value _) q h = cc
closure_of-push _ q h = cc

IsReady-IsLayable : (ip : Iprogram) → IsReady ip → HasEntries ip → IsLayable ip
IsReady-IsLayable ip r h = record {
  set = λ n op e. ground (arith, r.set n);
  branches = λ n t op e b. ground (arith, r.wired.branches n t, r.wired.unreferred t);
  entries = λ n q op e c. h n q (e ∙ ap some (closure_of-push op q c));
}

-- An address is followed by that of the next icode.
pub address-next :
    (code : ℕ → Option Op) (base n n' : ℕ) (xs ys : List ℕ)
    → IsIncreasing (xs ++ n ∷ n' ∷ ys)
    → address code base (xs ++ n ∷ n' ∷ ys) n'
      ≡ address code base (xs ++ n ∷ n' ∷ ys) n + size_at code n
address-next code base n n' [] ys inc = ground (arith, inc.0.0)
address-next code base n n' (x ∷ xs) ys inc =
    let lt =
      listed-All (λ k. x < k) (xs ++ n ∷ n' ∷ ys) n inc.0
        (ground (arith, listed-append xs (n ∷ n' ∷ ys) n)) in
    let lt' =
      listed-All (λ k. x < k) (xs ++ n ∷ n' ∷ ys) n' inc.0
        (ground (arith, listed-append xs (n ∷ n' ∷ ys) n')) in
    let r = address-next code (base + size_at code x) n n' xs ys inc.1 in ground (arith, lt, lt', r)

-- The layout of a program.
pub record LaidOut (table : ℕ → Instr) (base : ℕ) (ip : Iprogram) (im : Image) : Type 0 where
  pub label :
      (n : ℕ) → listed ip.order n ≡ true → im.label n ≡ some (address ip.code base ip.order n)
  pub instr :
      (n : ℕ) (op : Op)
      → ip.code n ≡ some op
      → program_of table im (address ip.code base ip.order n) ≡ instruction table im.label op
  pub closures :
      (n q : ℕ)
      → ip.code n ≡ some (push_value (structured Kind.closure q))
      → im.closure_label q ≡ (ip.entry q >>= im.label)

All-is_some :
    (ns : List ℕ) (ip : Iprogram)
    → IsWired ip
    → ((n : ℕ) → listed ns n ≡ true → listed ip.order n ≡ true)
    → All (λ n. is_some (ip.code n) ≡ true) ns
All-is_some [] ip w f = tt
All-is_some (n ∷ ns) ip w f =
    (sym (w.allocated n) ∙ f n (ground arith), All-is_some ns ip w (λ k h. f k (ground (arith, h))))

-- What an icode of the program has for a label.
labelled :
    (ip : Iprogram) (s s' : Emitted)
    → IsWired ip
    → Laid ip ip.order s s'
    → (n : ℕ) → is_some (ip.code n) ≡ true
    → is_some (s'.label n) ≡ true
labelled ip s s' w l n h = ground (arith, l.label n, w.allocated n)

entry_labelled :
    (ip : Iprogram) (s s' : Emitted)
    → IsWired ip
    → Laid ip ip.order s s'
    → (q : ℕ) → is_some (ip.entry q) ≡ true
    → is_some (ip.entry q >>= s'.label) ≡ true
entry_labelled ip s s' w l q h = elim (Option-cases (ip.entry q)) [
  | inl e ↦ ground (arith, h)
  | inr (t, e) ↦
      ap (λ o. is_some (o >>= s'.label)) e
      ∙ labelled ip s s' w l t (ground (arith, w.entries q t, w.unreferred t))
]

-- Laying out code that is ready finishes, where the arrays have room and the closures that are pushed
-- have an entry. Every icode gets the address that the sizes of those before it make; there the vm reads
-- the instruction that it stands for, with its branch at the label of the icode that it branches to; and
-- every closure that is pushed gets the label of its entry.
pub iprogram_gen-LaidOut :
    (table : ℕ → Instr) (base : ℕ) (ip : Iprogram)
    → IsReady ip
    → HasEntries ip
    → length ip.order ≤ max_patches
    → (im : Image) × (iprogram_gen base ip ≡ some im) × LaidOut table base ip im
unfolding iprogram_gen program_of
iprogram_gen-LaidOut table base ip r h room =
    let s : Emitted = record {
      gptr = base;
      label = λ n. none;
      code = λ a. none;
      bp = [];
      k = [];
    } in
    let f : Filed ip s = record { falling = tt; under = tt; targets = tt; closures = tt } in
    let (s', run, l) =
      gen_icodes-Laid ip.order ip s r.increasing (All-is_some ip.order ip r.wired (λ n h. h))
        (IsReady-IsLayable ip r h) f (omega arith) (omega arith) in
    let (words, run₂, same) =
      back_patch-patched s'.bp s'.label (λ a. none)
        (All-mono _ (λ e. is_some (s'.label e.1) ≡ true) (λ e. labelled ip s s' r.wired l e.1) s'.bp
          l.filed.targets)
        l.filed.falling in
    let (labels, run₃, same₃) =
      resolve_closures-resolved s'.k ip.entry s'.label (λ q. none)
        (All-mono _ (λ q. is_some (ip.entry q >>= s'.label) ≡ true)
          (entry_labelled ip s s' r.wired l) s'.k l.filed.closures) in
    let im : Image = record {
      code = s'.code;
      words = words;
      label = s'.label;
      closure_label = labels;
    } in
    (
      im,
      rw (run, ◌>>=◌, run₂, run₃) refl,
      record {
        label = λ n there.
            l.label n ∙ ap (λ b. if b then some (address ip.code base ip.order n) else none) there;
        instr = λ n op e.
            let there : listed ip.order n ≡ true = r.wired.allocated n ∙ ap is_some e in
            let a = address ip.code base ip.order n in
            ap (λ o. o >>= λ op. decoded table (words (a + 1)) op) (l.code n op there e)
            ∙ decoded_same table s'.label (words (a + 1)) op
                (λ t b.
                  same (a + 1)
                  ∙ ap (λ o. elim o [ none ↦ none | some t ↦ s'.label t ])
                      (l.patches n t op there e b))
                ((IsReady-IsLayable ip r h).set n op e);
        closures = λ n q e.
            let there : listed ip.order n ≡ true = r.wired.allocated n ∙ ap is_some e in
            same₃ q
            ∙ ap (λ b. if b then ip.entry q >>= s'.label else none)
                (l.closures n q (push_value (structured Kind.closure q)) there e refl);
      },
    )
