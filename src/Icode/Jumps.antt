-- ===== src/Icode/Jumps.antt =====
-- lib/icode.c: the generator on closures, conditionals and loops.
use bhuna.Prelude.{
  ℕ, ◌≡◌, refl, ap, ◌∙◌, true, false, Option, none, some, List, [], ◌∷◌, ◌==◌, ◌>>=◌, arith,
  Bool-cases, inl, inr, if◌then◌else◌,
}
use bhuna.Ast.{Ast, closure, conditional, while_loop}
use bhuna.Icode.{Op, nop, ret, jmp, jz, Iprogram, icode_new, icode_set_branch}
use bhuna.Icode.Order.{IsIncreasing}
use bhuna.Icode.Wiring.{is_some, IsWired}
use bhuna.Icode.Generate.{emit, land, is_absent, ast_gen_r}
use bhuna.Icode.Emitted.{emit-Generated, gen_closure_head-Generated}
use bhuna.Icode.Generated.{
  Generated, Generated-refl, Generated-trans, icode_new-Generated, IsJump, land-Landed,
  icode_set_branch-Landed,
}

-- A tree on which the generator succeeds from any wired program, and what it does then.
abbrev pub Generates : Ast → Type 0
Generates a =
    (ip : Iprogram)
    → IsWired ip
    → IsIncreasing ip.order
    → (ip' : Iprogram) × (ast_gen_r a ip ≡ some ip') × Generated [] ip ip'

-- One more tree.
pub generate :
    (a : Ast) (ps : List ℕ) (ip ip₁ : Iprogram)
    → Generates a
    → Generated ps ip ip₁
    → (ip₂ : Iprogram) × (ast_gen_r a ip₁ ≡ some ip₂) × Generated ps ip ip₂ × Generated [] ip₁ ip₂
generate a ps ip ip₁ f g =
    let (ip₂, run, h) = f ip₁ g.wired g.increasing in
    (ip₂, run, Generated-trans ps ip ip₁ ip₂ g h, h)

-- A jump that is opened, code, and the NOP that the jump goes to.
jump_over :
    {op : Op} (m : ℕ) (ps : List ℕ) (ip ip₁ ip₂ : Iprogram)
    → IsJump op
    → Generated (m ∷ ps) ip ip₁
    → ip₁.code m ≡ some op
    → is_some (ip.code m) ≡ false
    → Generated [] ip₁ ip₂
    → (ip₃ : Iprogram) × (land m ip₂ ≡ some ip₃) × Generated ps ip ip₃
jump_over m ps ip ip₁ ip₂ j g here new h =
    let here₂ = h.kept m (ap is_some here) ∙ here in
    let (ip₃, run, l) =
      land-Landed m ps ip ip₂ j (Generated-trans (m ∷ ps) ip ip₁ ip₂ g h) here₂ new in
    (ip₃, run, l.generated)

pub closure-Generates :
    (t : Option ℕ) (q : ℕ) (body : Ast) → Generates body → Generates (closure t q body)
unfolding ast_gen_r
closure-Generates t q body f ip w inc =
    let (m, ip₁, run, g, here, new) = gen_closure_head-Generated q ip (Generated-refl ip w inc) in
    let (ip₂, run₂, h) = f ip₁ g.wired g.increasing in
    let (ip₃, run₃, k) =
      jump_over m [] ip ip₁ (emit ret ip₂) IsJump.always g here new
        (emit-Generated ret ip₁ ip₂ refl refl h) in
    (
      ip₃,
      ap (λ t. let (j, i₁) = t in ast_gen_r body i₁ >>= λ i₂. land j (emit ret i₂)) run
          ∙ ap (λ o. o >>= λ i₂. land m (emit ret i₂)) run₂
          ∙ run₃,
      k,
    )

-- Which of two open jumps is named first does not matter.
swap : (m n : ℕ) (ip ip' : Iprogram) → Generated (n ∷ m ∷ []) ip ip' → Generated (m ∷ n ∷ []) ip ip'
swap m n ip ip' g = record {
  wired = g.wired;
  increasing = g.increasing;
  kept = g.kept;
  set = λ k h l. ground (arith, g.set k h);
}

-- The two ways that the code of a conditional goes on after its first branch.
abbrev finish_if : Ast → ℕ → Iprogram → Option Iprogram
finish_if on_no otherwise ip₃ =
    if is_absent on_no
    then land otherwise ip₃
    else (let (around, ip₄) = icode_new (jmp none) ip₃ in
        land otherwise ip₄ >>= λ ip₅. ast_gen_r on_no ip₅ >>= λ ip₆. land around ip₆)

finish_if-Generated :
    (on_no : Ast) (m : ℕ) (ip ip₃ : Iprogram)
    → Generates on_no
    → Generated (m ∷ []) ip ip₃
    → ip₃.code m ≡ some (jz none)
    → is_some (ip.code m) ≡ false
    → (ip' : Iprogram) × (finish_if on_no m ip₃ ≡ some ip') × Generated [] ip ip'
finish_if-Generated on_no m ip ip₃ f g here new = elim (Bool-cases (is_absent on_no)) [
  | inl e ↦
      (let (ip', run, l) = land-Landed m [] ip ip₃ IsJump.if_false g here new in
        (ip', rw e run, l.generated))
  | inr e ↦
      let (n, ip₄, run₄, h₄, here₄, new₄, others₄, there₄, closed₄) =
        icode_new-Generated (jmp none) (m ∷ []) ip ip₃ refl g in
      let apart : (m == n) ≡ false = ground (arith, here, new₄) in
      let was = others₄ m (ap is_some here) ∙ here in
      let (ip₅, run₅, l₅) =
        land-Landed m (n ∷ []) ip ip₄ IsJump.if_false (swap m n ip ip₄ h₄) was new in
      let here₅ = l₅.others n apart (ap is_some here₄) ∙ here₄ in
      let (ip₆, run₆, h₆) = f ip₅ l₅.generated.wired l₅.generated.increasing in
      let (ip₇, run₇, h₇) =
        jump_over n [] ip ip₅ ip₆ IsJump.always l₅.generated here₅ (ground (arith, g.kept n, new₄))
          h₆ in
      (
        ip₇,
        rw e (
            ap (λ t. let (j, i₄) = t in land m i₄ >>= λ i₅. ast_gen_r on_no i₅ >>= λ i₆. land j i₆)
              run₄
            ∙ ap (λ o. o >>= λ i₅. ast_gen_r on_no i₅ >>= λ i₆. land n i₆) run₅
            ∙ ap (λ o. o >>= λ i₆. land n i₆) run₆
            ∙ run₇),
        h₇,
      )
]

pub conditional-Generates :
    (t : Option ℕ) (test on_yes on_no : Ast)
    → Generates test
    → Generates on_yes
    → Generates on_no
    → Generates (conditional t test on_yes on_no)
unfolding ast_gen_r
conditional-Generates t test on_yes on_no f g k ip w inc =
    let (ip₁, run₁, h₁) = f ip w inc in
    let (m, ip₂, run₂, h₂, here, new, others, there, closed) =
      icode_new-Generated (jz none) [] ip ip₁ refl h₁ in
    let (ip₃, run₃, h₃) = g ip₂ h₂.wired h₂.increasing in
    let (ip₄, run₄, h₄) =
      finish_if-Generated on_no m ip ip₃ k (Generated-trans (m ∷ []) ip ip₂ ip₃ h₂ h₃)
        (h₃.kept m (ap is_some here) ∙ here) (ground (arith, h₁.kept m, new)) in
    (
      ip₄,
      ap
            (λ o. o >>= λ i₁.
              let (j, i₂) = icode_new (jz none) i₁ in ast_gen_r on_yes i₂ >>= finish_if on_no j)
            run₁
          ∙ ap (λ t. let (j, i₂) = t in ast_gen_r on_yes i₂ >>= finish_if on_no j) run₂
          ∙ ap (λ o. o >>= finish_if on_no m) run₃
          ∙ run₄,
      h₄,
    )

-- The jump back to the top of a loop, and the NOP after it.
abbrev close_loop : ℕ → ℕ → Iprogram → Option Iprogram
close_loop out top ip₄ =
    let (again, ip₅) = icode_new (jmp none) ip₄ in
    icode_set_branch again top ip₅ >>= λ ip₆. land out ip₆

close_loop-Generated :
    (m top : ℕ) (ip ip₄ : Iprogram)
    → Generated (m ∷ []) ip ip₄
    → ip₄.code m ≡ some (jz none)
    → is_some (ip.code m) ≡ false
    → is_some (ip₄.code top) ≡ true
    → (ip' : Iprogram) × (close_loop m top ip₄ ≡ some ip') × Generated [] ip ip'
close_loop-Generated m top ip ip₄ g here new there =
    let (n, ip₅, run₅, h₅, here₅, new₅, others₅, _, _) =
      icode_new-Generated (jmp none) (m ∷ []) ip ip₄ refl g in
    let was = ap is_some (others₅ top there) ∙ there in
    let (ip₆, run₆, l₆) =
      icode_set_branch-Landed n top (m ∷ []) ip ip₅ IsJump.always h₅ here₅
        (ground (arith, g.kept n, new₅)) (h₅.wired.allocated top ∙ was) in
    let apart : (n == m) ≡ false = ground (arith, here, new₅) in
    let same = others₅ m (ap is_some here) ∙ here in
    let (ip₇, run₇, l₇) =
      land-Landed m [] ip ip₆ IsJump.if_false l₆.generated
        (l₆.others m apart (ap is_some same) ∙ same) new in
    (
      ip₇,
      ap (λ t. icode_set_branch t.0 top t.1 >>= λ i₆. land m i₆) run₅
          ∙ ap (λ o. o >>= λ i₆. land m i₆) run₆
          ∙ run₇,
      l₇.generated,
    )

pub while_loop-Generates :
    (t : Option ℕ) (test body : Ast)
    → Generates test
    → Generates body
    → Generates (while_loop t test body)
unfolding ast_gen_r
while_loop-Generates t test body f g ip w inc =
    let (top, ip₁, run₁, _, here₁, new₁, _, there₁, closed₁) =
      icode_new-Generated nop [] ip ip refl (Generated-refl ip w inc) in
    let h₁ = closed₁ refl in
    let (ip₂, run₂, h₂) = f ip₁ h₁.wired h₁.increasing in
    let g₂ = Generated-trans [] ip ip₁ ip₂ h₁ h₂ in
    let (m, ip₃, run₃, h₃, here₃, new₃, others₃, _, _) =
      icode_new-Generated (jz none) [] ip ip₂ refl g₂ in
    let (ip₄, run₄, h₄) = g ip₃ h₃.wired h₃.increasing in
    let g₄ = Generated-trans (m ∷ []) ip ip₃ ip₄ h₃ h₄ in
    let here₄ = h₄.kept m (ap is_some here₃) ∙ here₃ in
    let at₂ = ap is_some (h₂.kept top (ap is_some here₁) ∙ here₁) in
    let at₃ = ap is_some (others₃ top at₂) ∙ at₂ in
    let at₄ = ap is_some (h₄.kept top at₃) ∙ at₃ in
    let (ip₇, run₇, g₇) =
      close_loop-Generated m top ip ip₄ g₄ here₄ (ground (arith, g₂.kept m, new₃)) at₄ in
    (
      ip₇,
      ap
            (λ t. ast_gen_r test t.1 >>= λ i₂.
              let (j, i₃) = icode_new (jz none) i₂ in ast_gen_r body i₃ >>= close_loop j t.0)
            run₁
          ∙ ap
              (λ o. o >>= λ i₂.
                let (j, i₃) = icode_new (jz none) i₂ in ast_gen_r body i₃ >>= close_loop j top)
              run₂
          ∙ ap (λ t. let (j, i₃) = t in ast_gen_r body i₃ >>= close_loop j top) run₃
          ∙ ap (λ o. o >>= close_loop m top) run₄
          ∙ run₇,
      g₇,
    )
