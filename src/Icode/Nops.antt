-- ===== src/Icode/Nops.antt =====
-- lib/icode.c: what is left when the NOPs are gone, against a description that has no referrers.
use bhuna.Prelude.{
  ℕ, ◌≡◌, refl, sym, ap, ◌∙◌, true, false, some, List, [], ◌∷◌, ◌++◌, ◌>>=◌, arith, Bool-cases,
  Option-cases, inl, inr, subst,
}
use bhuna.Prelude.Distinct.{listed, listed-append}
use bhuna.Icode.{Iprogram, remove}
use bhuna.Icode.Order.{
  IsIncreasing, IsIncreasing-remove, append_one, remove_middle, not_listed, IsIncreasing-apart,
  IsIncreasing-tail,
}
use bhuna.Icode.Wiring.{IsWired}
use bhuna.Icode.Passes.{is_nop, nops_from, iprogram_eliminate_nops}
use bhuna.Icode.Landing.{nop_at, kept, without_nops, retarget_none, ends, ends_same}
use bhuna.Icode.NopStep.{
  NopFree, eliminate_nop-IsWired, nop_at-Stepped, NopFree-skip, NopFree-step, not_nop,
}

pub nops_from-NopFree :
    (ns done : List ℕ) (ip : Iprogram)
    → ip.order ≡ done ++ ns
    → IsIncreasing (done ++ ns)
    → ends (nop_at ip.code) ns ≡ false
    → IsWired ip
    → (ip' : Iprogram) × (nops_from ns ip ≡ some ip') × NopFree ns done ip ip'
unfolding nops_from
nops_from-NopFree [] done ip e inc last w = (
  ip,
  refl,
  record { wired = w; order = e; code = λ m. ground (arith, retarget_none (ip.code m)) },
)
nops_from-NopFree (n ∷ []) done ip e inc last w = elim (Option-cases (ip.code n)) [
  | inl gone ↦ ground (arith, w.allocated n, listed-append done (n ∷ []) n)
  | inr (op, here) ↦
      let is = sym (not_nop ip.code n op here) ∙ last in
      let e' = e ∙ sym (append_one done [] n ∙ refl) in
      let (ip', run, f) =
        nops_from-NopFree [] (done ++ n ∷ []) ip e'
          (subst IsIncreasing (sym (append_one done [] n)) inc) refl w in
      (ip', rw (here, ◌>>=◌, is) run, NopFree-skip n [] done ip ip' last f)
]
nops_from-NopFree (n ∷ n' ∷ ns) done ip e inc last w = elim (Option-cases (ip.code n)) [
  | inl gone ↦ ground (arith, w.allocated n, listed-append done (n ∷ n' ∷ ns) n)
  | inr (op, here) ↦ elim (Bool-cases (is_nop op)) [
    | inr is ↦
        let (ip', run, f) =
          nops_from-NopFree (n' ∷ ns) (done ++ n ∷ []) ip (e ∙ sym (append_one done (n' ∷ ns) n))
            (subst IsIncreasing (sym (append_one done (n' ∷ ns) n)) inc) last w in
        (
          ip',
          rw (here, ◌>>=◌, is) run,
          NopFree-skip n (n' ∷ ns) done ip ip' (not_nop ip.code n op here ∙ is) f,
        )
    | inl is ↦
        let nop_n = not_nop ip.code n op here ∙ is in
        let later = IsIncreasing-tail done (n ∷ n' ∷ ns) inc in
        let apart = not_listed n (n' ∷ ns) later.0 in
        let there : listed ip.order n' ≡ true =
          subst (λ ks. listed ks n' ≡ true) (sym e)
            (ground (arith, listed-append done (n ∷ n' ∷ ns) n')) in
        let (ip₁, run₁, w₁, o₁, c₁) =
          eliminate_nop-IsWired n n' ip (λ q. ground (arith, later.0.0)) there nop_n w in
        let o : ip₁.order ≡ done ++ n' ∷ ns =
          o₁
          ∙ ap (remove n) e
          ∙ remove_middle n done (n' ∷ ns) (IsIncreasing-apart done (n' ∷ ns) n inc) apart in
        let (ip', run, f) =
          nops_from-NopFree (n' ∷ ns) done ip₁ o
            (subst IsIncreasing
              (remove_middle n done (n' ∷ ns) (IsIncreasing-apart done (n' ∷ ns) n inc) apart)
              (IsIncreasing-remove n (done ++ n ∷ n' ∷ ns) inc))
            (ends_same (nop_at ip₁.code) (nop_at ip.code) (n' ∷ ns)
                (λ k h. nop_at-Stepped n n' k ip.code ip₁.code c₁ (ground (arith, h, apart)))
              ∙ last)
            w₁ in
        (ip', rw (here, ◌>>=◌, is, run₁) run, NopFree-step n n' ns done ip ip₁ ip' nop_n apart c₁ f)
  ]
]

-- Eliminating the NOPs of a wired program whose last icode is not one succeeds. The others keep their
-- order, their opcodes and their operands, but for a branch, which goes to the first icode at or after
-- its old target that is no NOP; and the program is wired.
pub iprogram_eliminate_nops-NopFree :
    (ip : Iprogram)
    → IsIncreasing ip.order
    → ends (nop_at ip.code) ip.order ≡ false
    → IsWired ip
    → (ip' : Iprogram) × (iprogram_eliminate_nops ip ≡ some ip')
      × IsWired ip'
      × (ip'.order ≡ kept (nop_at ip.code) ip.order)
      × ((n : ℕ) → ip'.code n ≡ without_nops ip.order ip.code n)
unfolding iprogram_eliminate_nops
iprogram_eliminate_nops-NopFree ip inc last w =
    let (ip', run, f) = nops_from-NopFree ip.order [] ip refl inc last w in
    (ip', run, f.wired, f.order, f.code)
