-- ===== src/Gen/FirstRun.antt =====
-- lib/gen.c: the first run of `iprogram_gen`, which gives every icode its address.
use bhuna.Prelude.{
  ℕ, ◌+◌, ◌≡◌, ◌≤◌, refl, sym, ap, ◌∙◌, true, false, ◌==◌, Option, none, some, List, [], ◌∷◌,
  if◌then◌else◌, length, ◌>>=◌, arith, All, Bool-cases, Option-cases, inl, inr,
}
use bhuna.Prelude.Distinct.{listed}
use bhuna.Icode.{Op, Iprogram, branch_of}
use bhuna.Icode.Order.{IsIncreasing, not_listed}
use bhuna.Icode.Wiring.{is_some}
use bhuna.Gen.{Emitted, operand_size, max_patches, gen_icodes}
use bhuna.Gen.Patches.{patch_for}
use bhuna.Gen.Layout.{
  size_at, address, closure_of, after, gen_icode-after, Filed, Laid, IsLayable, jump_wide,
  after-Filed, patches_length, closures_length, patches_of-below, closures_of-kept, patches_of-here,
  closures_of-here,
}

-- The address of an icode of a longer list.
address-first :
    (code : ℕ → Option Op) (base n : ℕ) (ns : List ℕ) → address code base (n ∷ ns) n ≡ base
address-first code base n ns = ground arith

address-rest :
    (code : ℕ → Option Op) (base n m : ℕ) (op : Op) (ns : List ℕ)
    → code n ≡ some op
    → (n == m) ≡ false
    → address code base (n ∷ ns) m ≡ address code (base + 1 + operand_size op) ns m
address-rest code base n m op ns e ne =
    ap (λ b. if b then base else address code (base + size_at code n) ns m) ne
    ∙ ap (λ o. address code (base + elim o [ none ↦ 0 | some op ↦ 1 + operand_size op ]) ns m) e
    ∙ ap (λ b. address code b ns m) (omega arith)

-- An icode, then the rest.
Laid-after :
    (n : ℕ) (op : Op) (ns : List ℕ) (ip : Iprogram) (s s' : Emitted)
    → ip.code n ≡ some op
    → listed ns n ≡ false
    → Laid ip ns (after n op s) s'
    → Laid ip (n ∷ ns) s s'
Laid-after n op ns ip s s' e apart r = record {
  filed = r.filed;
  label = λ m. elim (Bool-cases (n == m)) [
    | inl at ↦ ground (arith, r.label m, apart)
    | inr ne ↦ ground (arith, r.label m, address-rest ip.code s.gptr n m op ns e ne)
  ];
  below = λ a h. r.below a (omega (arith, h)) ∙ ground arith;
  code = λ m op' h e'. elim (Bool-cases (n == m)) [
    | inl at ↦
        let same : n ≡ m = ground arith in
        let e'' = sym e ∙ ap ip.code same ∙ e' in
        ap (λ z. s'.code (address ip.code s.gptr (n ∷ ns) z)) (sym same)
        ∙ ap s'.code (address-first ip.code s.gptr n ns)
        ∙ r.below s.gptr (omega arith)
        ∙ ground (arith, e'')
    | inr ne ↦
        ap s'.code (address-rest ip.code s.gptr n m op ns e ne) ∙ r.code m op' (ground arith) e'
  ];
  patches_below = λ a h.
      r.patches_below a (omega (arith, h))
      ∙ patches_of-below op (s.gptr + 1) a s.bp (omega (arith, h));
  patches = λ m t op' h e' b. elim (Bool-cases (n == m)) [
    | inl at ↦
        let same : n ≡ m = ground arith in
        let e'' = sym e ∙ ap ip.code same ∙ e' in
        let wide = jump_wide op' t s.gptr b in
        ap (λ z. patch_for s'.bp (address ip.code s.gptr (n ∷ ns) z + 1)) (sym same)
        ∙ ap (λ z. patch_for s'.bp (z + 1)) (address-first ip.code s.gptr n ns)
        ∙ r.patches_below (s.gptr + 1) (omega arith)
        ∙ patches_of-here op (s.gptr + 1) t s.bp (ap (λ o. o >>= branch_of) e'' ∙ b)
    | inr ne ↦
        ap (λ z. patch_for s'.bp (z + 1)) (address-rest ip.code s.gptr n m op ns e ne)
        ∙ r.patches m t op' (ground arith) e' b
  ];
  closures_kept = λ q h. r.closures_kept q (closures_of-kept op s.k q h);
  closures = λ m q op' h e' b. elim (Bool-cases (n == m)) [
    | inl at ↦
        let same : n ≡ m = ground arith in
        let e'' = sym e ∙ ap ip.code same ∙ e' in
        r.closures_kept q (closures_of-here op q s.k (ap (λ o. o >>= closure_of) e'' ∙ b))
    | inr ne ↦ r.closures m q op' (ground arith) e' b
  ];
}

-- The run over the icodes finishes where the arrays have room for them.
pub gen_icodes-Laid :
    (ns : List ℕ) (ip : Iprogram) (s : Emitted)
    → IsIncreasing ns
    → All (λ n. is_some (ip.code n) ≡ true) ns
    → IsLayable ip
    → Filed ip s
    → length s.bp + length ns ≤ max_patches
    → length s.k + length ns ≤ max_patches
    → (s' : Emitted) × (gen_icodes ns ip s ≡ some s') × Laid ip ns s s'
unfolding gen_icodes
gen_icodes-Laid [] ip s inc there l f b k = (
  s,
  refl,
  record {
    filed = f;
    label = λ n. refl;
    below = λ a h. refl;
    code = λ n op h e. cc;
    patches_below = λ a h. refl;
    patches = λ n t op h e g. cc;
    closures_kept = λ q h. h;
    closures = λ n q op h e g. cc;
  },
)
gen_icodes-Laid (n ∷ ns) ip s inc there l f b k = elim (Option-cases (ip.code n)) [
  | inl e ↦ ground (arith, there.0)
  | inr (op, e) ↦
      let (s', run, r) =
        gen_icodes-Laid ns ip (after n op s) inc.1 there.1 l (after-Filed n op ip s e l f)
          (omega (arith, patches_length op (s.gptr + 1) s.bp))
          (omega (arith, closures_length op s.k)) in
      let one = gen_icode-after n op s (l.set n op e) (omega arith) (omega arith) in
      (
        s',
        rw (e, ◌>>=◌) (ap (λ o. o >>= gen_icodes ns ip) one ∙ run),
        Laid-after n op ns ip s s' e (not_listed n ns inc.0) r,
      )
]
