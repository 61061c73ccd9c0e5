-- ===== src/Icode/Emitted.antt =====
-- lib/icode.c: the steps of the generator keep the program wired.
use bhuna.Prelude.{
  ℕ, ◌≡◌, refl, sym, ap, ◌∙◌, Bool, true, false, Option, none, some, List, [], ◌∷◌, ◌>>=◌, arith,
  subst, Bool-cases, Option-cases, inl, inr,
}
use bhuna.Prelude.Distinct.{listed}
use bhuna.Prelude.Int.{pos}
use bhuna.Value.{integer, structured, Kind}
use bhuna.Ast.{Entry, Ast, local, ast_count_args, ast_find_local}
use bhuna.Icode.{
  Op, nop, set_activation, push_value, pop_local, init_local, cow_local, jmp, Iprogram, icode_new,
  icode_new_builtin, builtin_op, branch_of, icode_set_closure_entry_point,
}
use bhuna.Icode.Wiring.{is_some, icode_set_closure_entry_point-IsWired}
use bhuna.Icode.Optimize.{is_unset}
use bhuna.Icode.Generate.{
  is_store, emit, push_count, gen_cow, gen_builtin, gen_assign, gen_closure_head,
}
use bhuna.Icode.Generated.{Generated, icode_new-Generated}

abbrev pub IsLocal : Ast → Type 0
IsLocal (local t index upcount) = Unit
IsLocal _ = ⊥

pub emit-Generated :
    (op : Op) (ip ip' : Iprogram)
    → branch_of op ≡ none
    → is_unset op ≡ false
    → Generated [] ip ip'
    → Generated [] ip (emit op ip')
unfolding icode_new
emit-Generated op ip ip' b s g =
    let (n, ip₁, run, opened, here, new, others, there, closed) =
      icode_new-Generated op [] ip ip' b g in
    subst (Generated [] ip) (sym (ap (λ t. t.1) run)) (closed s)

builtin_op-branch :
    (b : Entry) → (branch_of (builtin_op b) ≡ none) × (is_unset (builtin_op b) ≡ false)
builtin_op-branch b = elim (Option-cases b.index) [ inl e ↦ ground arith | inr e ↦ ground arith ]

pub gen_cow-Generated :
    (right : Ast) (b : Entry) (ip : Iprogram)
    → (is_store b ≡ true → (l : ℕ × ℕ) × (ast_find_local right ≡ some l))
    → Generated [] ip ip
    → (ip' : Iprogram) × (gen_cow right b ip ≡ some ip') × Generated [] ip ip'
unfolding gen_cow
gen_cow-Generated right b ip has g = elim (Bool-cases (is_store b)) [
  | inl e ↦
      let (l, found) = has e in
      (
        emit (cow_local l.0 l.1) ip,
        rw (gen_cow, e, found, ◌>>=◌) refl,
        emit-Generated (cow_local l.0 l.1) ip ip refl refl g,
      )
  | inr e ↦ (ip, rw (gen_cow, e) refl, g)
]

push_count-Generated :
    (arity : Option ℕ) (right : Ast) (ip ip' : Iprogram)
    → Generated [] ip ip'
    → Generated [] ip (push_count arity right ip')
push_count-Generated none right ip ip' g =
    emit-Generated (push_value (integer (pos (ast_count_args right)))) ip ip' refl refl g
push_count-Generated (some n) right ip ip' g = g

pub gen_builtin-Generated :
    (right : Ast) (b : Entry) (ip ip' : Iprogram)
    → Generated [] ip ip'
    → Generated [] ip (gen_builtin right b ip')
unfolding gen_builtin icode_new_builtin
gen_builtin-Generated right b ip ip' g =
    let (u, s) = builtin_op-branch b in
    emit-Generated (builtin_op b) ip (push_count b.builtin.arity right ip') u s
      (push_count-Generated b.builtin.arity right ip ip' g)

pub gen_assign-Generated :
    (left : Ast) (defining : Bool) (ip ip' : Iprogram)
    → IsLocal left
    → Generated [] ip ip'
    → (ip'' : Iprogram) × (gen_assign left defining ip' ≡ some ip'') × Generated [] ip ip''
unfolding gen_assign
gen_assign-Generated (local t i u) true ip ip' l g =
    (emit (init_local i u) ip', refl, emit-Generated (init_local i u) ip ip' refl refl g)
gen_assign-Generated (local t i u) false ip ip' l g =
    (emit (pop_local i u) ip', refl, emit-Generated (pop_local i u) ip ip' refl refl g)
gen_assign-Generated _ defining ip ip' l g = absurd l

entry-Generated :
    (q n : ℕ) (ps : List ℕ) (ip ip' : Iprogram)
    → listed ip'.order n ≡ true
    → Generated ps ip ip'
    → Generated ps ip (icode_set_closure_entry_point q n ip')
unfolding icode_set_closure_entry_point
entry-Generated q n ps ip ip' there g = record {
  wired = icode_set_closure_entry_point-IsWired q n ip' there g.wired;
  increasing = g.increasing;
  kept = g.kept;
  set = g.set;
}

-- The JMP around a closure's body is open.
pub gen_closure_head-Generated :
    (q : ℕ) (ip : Iprogram)
    → Generated [] ip ip
    → (m : ℕ) × (ip' : Iprogram) × (gen_closure_head q ip ≡ (m, ip'))
      × Generated (m ∷ []) ip ip'
      × (ip'.code m ≡ some (jmp none))
      × (is_some (ip.code m) ≡ false)
unfolding gen_closure_head icode_set_closure_entry_point
gen_closure_head-Generated q ip g =
    let ga =
      emit-Generated set_activation ip _ refl refl
        (emit-Generated (push_value (structured Kind.closure q)) ip ip refl refl g) in
    let (m, ip₂, run, opened, here, new, others, there, closed) =
      icode_new-Generated (jmp none) [] ip _ refl ga in
    let (n, ip₃, run₃, opened₃, here₃, new₃, others₃, there₃, closed₃) =
      icode_new-Generated nop (m ∷ []) ip ip₂ refl opened in
    (
      m,
      icode_set_closure_entry_point q n ip₃,
      ap
            (λ t.
              let (j, i₂) = t in
              let (k, i₃) = icode_new nop i₂ in (j, icode_set_closure_entry_point q k i₃))
            run
          ∙ ap (λ t. (m, icode_set_closure_entry_point q t.0 t.1)) run₃,
      entry-Generated q n (m ∷ []) ip ip₃ there₃ (closed₃ refl),
      others₃ m (ap is_some here) ∙ here,
      ground (arith, ga.kept m, new),
    )
