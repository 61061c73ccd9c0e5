-- ===== src/Icode/Generate.antt =====
-- lib/icode.c: the generator of intermediate code from a syntax tree.
use bhuna.Prelude.{ℕ, Bool, true, false, Option, none, some, ◌==◌, ◌>>=◌, if◌then◌else◌}
use bhuna.Prelude.Int.{pos}
use bhuna.Value.{integer, structured, Kind}
use bhuna.Ast.{
  Entry, Ast, absent, local, value, closure, builtin, apply, arg, routine, statement, assignment,
  conditional, while_loop, retr, ast_count_args, ast_find_local,
}
use bhuna.Icode.{
  Op, nop, halt, call, ret, set_activation, push_value, push_local, pop_local, init_local,
  cow_local, jmp, jz, Iprogram, iprogram_new, icode_new, icode_new_builtin, icode_set_branch,
  icode_set_closure_entry_point,
}

-- INDEX_BUILTIN_STORE
abbrev pub is_store : Entry → Bool
is_store b = elim b.index [ none ↦ false | some i ↦ i == 17 ]

-- An icode whose address is not used.
abbrev pub emit : Op → Iprogram → Iprogram
unfolding icode_new
emit op ip = (icode_new op ip).1

-- COW_LOCAL before a store, to the local that it changes.
unfoldable pub gen_cow : Ast → Entry → Iprogram → Option Iprogram
gen_cow right b ip =
    if is_store b
    then (ast_find_local right >>= λ (index, upcount). some (emit (cow_local index upcount) ip))
    else some ip

-- The number of arguments, where the arity is -1, then the builtin.
abbrev pub push_count : Option ℕ → Ast → Iprogram → Iprogram
push_count none right ip = emit (push_value (integer (pos (ast_count_args right)))) ip
push_count (some n) right ip = ip

unfoldable pub gen_builtin : Ast → Entry → Iprogram → Iprogram
unfolding icode_new_builtin
gen_builtin right b ip = (icode_new_builtin b (push_count b.builtin.arity right ip)).1

-- INIT_LOCAL or POP_LOCAL for the left side, which the source asserts to be a local.
unfoldable pub gen_assign : Ast → Bool → Iprogram → Option Iprogram
gen_assign (local t index upcount) true ip = some (emit (init_local index upcount) ip)
gen_assign (local t index upcount) false ip = some (emit (pop_local index upcount) ip)
gen_assign _ defining ip = none

-- A NOP at the end, with the branch of `m` set to it.
unfoldable pub land : ℕ → Iprogram → Option Iprogram
unfolding icode_new icode_set_branch
land m ip = let (n, ip') = icode_new nop ip in icode_set_branch m n ip'

-- What comes before the body of a closure; the result is the JMP around it.
unfoldable pub gen_closure_head : ℕ → Iprogram → ℕ × Iprogram
unfolding icode_new icode_set_closure_entry_point
gen_closure_head q ip =
    let ip₁ = emit set_activation (emit (push_value (structured Kind.closure q)) ip) in
    let (jump, ip₂) = icode_new (jmp none) ip₁ in
    let (top, ip₃) = icode_new nop ip₂ in (jump, icode_set_closure_entry_point q top ip₃)

abbrev pub is_absent : Ast → Bool
is_absent absent = true
is_absent _ = false

unfoldable pub ast_gen_r : Ast → Iprogram → Option Iprogram
unfolding icode_new icode_set_branch gen_cow gen_builtin gen_assign land gen_closure_head
ast_gen_r absent ip = some ip
ast_gen_r (local t index upcount) ip = some (emit (push_local index upcount) ip)
ast_gen_r (value t v) ip = some (emit (push_value v) ip)
ast_gen_r (closure t q body) ip =
    let (jump, ip₁) = gen_closure_head q ip in
    ast_gen_r body ip₁ >>= λ ip₂. land jump (emit ret ip₂)
ast_gen_r (builtin t b right) ip =
    gen_cow right b ip >>= λ ip₁. ast_gen_r right ip₁ >>= λ ip₂. some (gen_builtin right b ip₂)
ast_gen_r (apply t left right is_pure) ip =
    ast_gen_r right ip >>= λ ip₁. ast_gen_r left ip₁ >>= λ ip₂. some (emit call ip₂)
ast_gen_r (routine t body) ip = ast_gen_r body ip
ast_gen_r (arg t left right) ip = ast_gen_r left ip >>= λ ip₁. ast_gen_r right ip₁
ast_gen_r (statement t left right) ip = ast_gen_r left ip >>= λ ip₁. ast_gen_r right ip₁
ast_gen_r (assignment t left right defining) ip =
    ast_gen_r right ip >>= λ ip₁. gen_assign left defining ip₁
ast_gen_r (conditional t test on_yes on_no) ip = ast_gen_r test ip >>= λ ip₁.
    let (otherwise, ip₂) = icode_new (jz none) ip₁ in
    ast_gen_r on_yes ip₂ >>= λ ip₃.
    if is_absent on_no
    then land otherwise ip₃
    else (let (around, ip₄) = icode_new (jmp none) ip₃ in
        land otherwise ip₄ >>= λ ip₅. ast_gen_r on_no ip₅ >>= λ ip₆. land around ip₆)
ast_gen_r (while_loop t test body) ip =
    let (top, ip₁) = icode_new nop ip in
    ast_gen_r test ip₁ >>= λ ip₂.
    let (out, ip₃) = icode_new (jz none) ip₂ in
    ast_gen_r body ip₃ >>= λ ip₄.
    let (again, ip₅) = icode_new (jmp none) ip₄ in
    icode_set_branch again top ip₅ >>= λ ip₆. land out ip₆
ast_gen_r (retr t body) ip = ast_gen_r body ip >>= λ ip₁. some (emit ret ip₁)

unfoldable pub ast_gen_iprogram : Ast → Option Iprogram
unfolding iprogram_new ast_gen_r
ast_gen_iprogram a = ast_gen_r a iprogram_new >>= λ ip. some (emit halt ip)
