-- ===== src/Icode/Dead.antt =====
-- lib/icode.c: dead code elimination takes out only what control cannot reach.
use bhuna.Prelude.{
  ℕ, ◌≡◌, refl, sym, ap, ◌∙◌, Bool, true, false, ◌&&◌, Option, none, some, List, [], ◌∷◌, ◌++◌,
  ◌==◌, ◌>>=◌, arith, Bool-cases, inl, inr, if◌then◌else◌, subst,
}
use bhuna.Prelude.Distinct.{listed, listed-append}
use bhuna.Memory.{update}
use bhuna.Icode.{Op, Referrer, Iprogram, remove, icode_free, unwire_branch, branch_of}
use bhuna.Icode.Order.{
  IsIncreasing, listed-remove, append_one, remove_middle, not_listed, IsIncreasing-apart,
  IsIncreasing-tail,
}
use bhuna.Icode.Wiring.{IsWired}
use bhuna.Icode.Optimize.{Keeps, Keeps-refl, Keeps-trans, icode_free-Keeps}
use bhuna.Icode.Finish.{allocated_code}
use bhuna.Icode.Passes.{ends_flow, unreferred, dead_from, iprogram_eliminate_dead_code}

-- Whether control does not go from the icode to the next one of the list.
abbrev pub stops_at : (ℕ → Option Op) → ℕ → Bool
stops_at code n = elim (code n) [ none ↦ false | some op ↦ ends_flow op ]

-- A list of icodes, and what is left of it: an icode is dropped only after one that stops, or after a
-- dropped one. The Boolean says whether one of the two came before.
pub data Pruned (stops : ℕ → Bool) : Bool → List ℕ → List ℕ → Type 0 where
  done : {b : Bool} → Pruned stops b [] []
  keep :
      {b : Bool} {n : ℕ} {ns ks : List ℕ}
      → Pruned stops (stops n) ns ks
      → Pruned stops b (n ∷ ns) (n ∷ ks)
  drop : {n : ℕ} {ns ks : List ℕ} → Pruned stops true ns ks → Pruned stops true (n ∷ ns) ks

Pruned-same :
    {f g : ℕ → Bool} {b : Bool} {ns ks : List ℕ}
    → ((n : ℕ) → listed ns n ≡ true → f n ≡ g n)
    → Pruned f b ns ks
    → Pruned g b ns ks
Pruned-same same Pruned.done = Pruned.done
Pruned-same {f} {g} same (Pruned.keep {n = n} {ns = ns} {ks = ks} p) = Pruned.keep (
    subst (λ c. Pruned g c ns ks) (same n (ground arith))
      (Pruned-same (λ k h. same k (ground (arith, h))) p))
Pruned-same same (Pruned.drop p) = Pruned.drop (Pruned-same (λ k h. same k (ground (arith, h))) p)

unreferred_none : (rs : List Referrer) → unreferred rs ≡ true → rs ≡ []
unreferred_none [] h = refl
unreferred_none (r ∷ rs) h = cc

stops_here :
    (code : ℕ → Option Op) (n : ℕ) (op : Op) → code n ≡ some op → stops_at code n ≡ ends_flow op
stops_here code n op e = ap (λ o. elim o [ none ↦ false | some op ↦ ends_flow op ]) e

dead_from-keep :
    (n : ℕ) (ns : List ℕ) (dead : Bool) (op : Op) (ip : Iprogram)
    → ip.code n ≡ some op
    → (dead && unreferred (ip.referrers n)) ≡ false
    → dead_from (n ∷ ns) dead ip ≡ dead_from ns (ends_flow op) ip
unfolding dead_from
dead_from-keep n ns dead op ip here live = rw (here, ◌>>=◌, live) refl

abbrev freed : ℕ → Iprogram → Op → Option Iprogram
freed n ip op =
    let ip' = unwire_branch n (branch_of op) ip in
    some (record ip' {
      order = remove n ip'.order;
      code = update ip'.code n none;
      referrers = update ip'.referrers n [];
    })

dead_from-drop :
    (n : ℕ) (ns : List ℕ) (dead : Bool) (op : Op) (ip ip₁ : Iprogram)
    → ip.code n ≡ some op
    → (dead && unreferred (ip.referrers n)) ≡ true
    → icode_free n ip ≡ some ip₁
    → dead_from (n ∷ ns) dead ip ≡ dead_from ns true ip₁
unfolding dead_from icode_free
dead_from-drop n ns dead op ip ip₁ here gone run =
    let free = sym (ap (λ o. o >>= freed n ip) here) ∙ run in
    rw (here, ◌>>=◌, gone) (ap (λ o. o >>= dead_from ns true) free)

freed_apart :
    (n m : ℕ) (order order₁ : List ℕ)
    → order₁ ≡ remove n order
    → listed order₁ m ≡ true
    → (n == m) ≡ false
freed_apart n m order order₁ o h = ground (arith, o, listed-remove n order m)

-- The others stay as they are.
still :
    (n m : ℕ) (code code₁ : ℕ → Option Op)
    → code₁ ≡ update code n none
    → (n == m) ≡ false
    → code₁ m ≡ code m
still n m code code₁ c ne = ap (λ f. f m) c ∙ ap (λ b. if b then none else code m) ne

pub dead_from-Pruned :
    (ns before : List ℕ) (dead : Bool) (ip : Iprogram)
    → ip.order ≡ before ++ ns
    → IsWired ip
    → IsIncreasing ip.order
    → (ip' : Iprogram) × (ks : List ℕ) × (dead_from ns dead ip ≡ some ip')
      × Keeps ip ip'
      × (ip'.order ≡ before ++ ks)
      × Pruned (stops_at ip.code) dead ns ks
      × ((n : ℕ) → listed ip'.order n ≡ true → ip'.code n ≡ ip.code n)
unfolding dead_from
dead_from-Pruned [] before dead ip e w inc =
    (ip, [], refl, Keeps-refl ip w inc, e, Pruned.done, λ n h. refl)
dead_from-Pruned (n ∷ ns) before dead ip e w inc =
    let there : listed ip.order n ≡ true =
      subst (λ l. listed l n ≡ true) (sym e) (ground (arith, listed-append before (n ∷ ns) n)) in
    let (op, here) = allocated_code n ip w there in
    elim (Bool-cases (dead && unreferred (ip.referrers n))) [
      | inr live ↦
          let e' = e ∙ sym (append_one before ns n) in
          let (ip', ks, run, k, o, p, same) =
            dead_from-Pruned ns (before ++ n ∷ []) (ends_flow op) ip e' w inc in
          (
            ip',
            n ∷ ks,
            dead_from-keep n ns dead op ip here live ∙ run,
            k,
            o ∙ append_one before ks n,
            Pruned.keep (
                subst (λ b. Pruned (stops_at ip.code) b ns ks) (sym (stops_here ip.code n op here))
                  p),
            same,
          )
      | inl gone ↦
          let bare = unreferred_none (ip.referrers n) (ground arith) in
          let (ip₁, run₁, one, o₁, c₁) = icode_free-Keeps n op ip here bare w inc in
          let up = subst IsIncreasing e inc in
          let apart = not_listed n ns (IsIncreasing-tail before (n ∷ ns) up).0 in
          let o =
            o₁
            ∙ ap (remove n) e
            ∙ remove_middle n before ns (IsIncreasing-apart before ns n up) apart in
          let (ip', ks, run, k, o', p, same) =
            dead_from-Pruned ns before true ip₁ o one.wired one.increasing in
          let was_dead : dead ≡ true = ground arith in
          (
            ip',
            ks,
            dead_from-drop n ns dead op ip ip₁ here gone run₁ ∙ run,
            Keeps-trans ip ip₁ ip' one k,
            o',
            subst (λ b. Pruned (stops_at ip.code) b (n ∷ ns) ks) (sym was_dead)
                (Pruned.drop (
                  Pruned-same
                    (λ m h.
                      ap (λ o. elim o [ none ↦ false | some op ↦ ends_flow op ])
                        (still n m ip.code ip₁.code c₁ (ground (arith, h, apart))))
                    p)),
            λ m h.
                same m h
                ∙ still n m ip.code ip₁.code c₁
                    (freed_apart n m ip.order ip₁.order o₁ (k.fewer m h)),
          )
    ]

-- Eliminating the dead code of a wired program succeeds and leaves a wired program. An icode is dropped
-- only where the one before it was dropped or does not go on to the next, so that the first icode stays,
-- and control that runs on from an icode that stays runs into the same one as before; those that stay
-- have their opcodes and operands.
pub iprogram_eliminate_dead_code-Pruned :
    (ip : Iprogram)
    → IsIncreasing ip.order
    → IsWired ip
    → (ip' : Iprogram) × (iprogram_eliminate_dead_code ip ≡ some ip')
      × IsWired ip'
      × Pruned (stops_at ip.code) false ip.order ip'.order
      × ((n : ℕ) → listed ip'.order n ≡ true → ip'.code n ≡ ip.code n)
unfolding iprogram_eliminate_dead_code
iprogram_eliminate_dead_code-Pruned ip inc w =
    let (ip', ks, run, k, o, p, same) = dead_from-Pruned ip.order [] false ip refl w inc in
    (ip', run, k.wired, subst (Pruned (stops_at ip.code) false ip.order) (sym o) p, same)
