-- ===== src/Ast/Build.antt =====
-- lib/ast.c: the constructors of syntax trees, which infer the types as they go. `none` is a NULL pointer
-- that is followed, or spent fuel in a walk over the types.
use bhuna.Prelude.{ℕ, ◌+◌, ◌-◌, Bool, Option, none, some, if◌then◌else◌, ◌>>=◌}
use bhuna.Value.{Value, structured, Kind}
use bhuna.Symbol.{Symbol, SymbolTable}
use bhuna.Types.{
  TypeClass, void, boolean, arg, closure, TypeCells, type_new, type_unify, type_ensure_routine,
}
use bhuna.Types.Sets.{class_of, type_new_set}
use bhuna.Ast.{
  Ast, absent, local, value, builtin, apply, routine, statement, assignment, conditional,
  while_loop, retr,
}

-- The types as they are inferred: the cells, the counter of fresh variables, and the number of errors
-- that were reported.
pub record Inference : Type 0 where
  pub cells : TypeCells
  pub next_var_num : ℕ
  pub errors : ℕ

-- `a->datatype`, where `a` is not NULL.
abbrev pub datatype : Ast → Option ℕ
datatype absent = none
datatype (local t i u) = t
datatype (value t v) = t
datatype (Ast.closure t q b) = t
datatype (builtin t b r) = t
datatype (apply t l r p) = t
datatype (Ast.arg t l r) = t
datatype (routine t b) = t
datatype (statement t l r) = t
datatype (assignment t l r d) = t
datatype (conditional t c y n) = t
datatype (while_loop t c b) = t
datatype (retr t b) = t

abbrev pub with_cells : Inference → TypeCells → Inference
with_cells s f = record s { cells = f }

-- A new type at the address `p`.
abbrev pub fresh_type : ℕ → TypeClass → Inference → Inference
unfolding type_new
fresh_type p c s = with_cells s (type_new p c s.cells)

-- `type_unify_crit`, which reports a failure.
unfoldable pub type_unify_crit : ℕ → Option ℕ → Option ℕ → Inference → Option (Bool × Inference)
unfolding type_unify
type_unify_crit k m n s = type_unify k m n s.cells >>= λ (ok, f).
    some (ok, record s { cells = f; errors = if ok then s.errors else s.errors + 1 })

-- The upcount is the number of levels between the block and the symbol's table, which encloses it.
unfoldable pub ast_new_local : Option ℕ → SymbolTable → Symbol → Option Ast
ast_new_local t stab sym = sym.index >>= λ index. some (local t index (stab.level - sym.in_level))

-- `body` is the tree of the closure, where the value is one.
unfoldable pub ast_new_value : Value → (body : Ast) → Option ℕ → Ast
ast_new_value (structured Kind.closure q) body t = Ast.closure t q body
ast_new_value v body t = value t v

-- The domain and the range of a type whose representative is a closure.
abbrev pub closure_parts : TypeClass → Option (Option ℕ × Option ℕ)
closure_parts (closure d r) = some (d, r)
closure_parts _ = none

-- `a`, `b` and `p` are addresses for `type_ensure_routine`, `v` one for the type of no arguments.
abbrev pub args_type : ℕ → Ast → Inference → Option ℕ × Inference
args_type v absent s = (some v, fresh_type v void s)
args_type v args s = (datatype args, s)

unfoldable pub ast_new_apply :
    ℕ → (a b p v : ℕ) → Ast → Ast → Bool → Inference → Option (Ast × Inference)
unfolding type_ensure_routine class_of type_unify_crit
ast_new_apply k a b p v fn args is_pure s = datatype fn >>= λ t.
    type_ensure_routine k a b p t s.next_var_num s.cells >>= λ (num, f). class_of k t f >>= λ c.
    closure_parts c >>= λ (domain, range).
    let (args_t, s₁) = args_type v args (record s { cells = f; next_var_num = num }) in
    type_unify_crit k domain args_t s₁ >>= λ (ok, s₂). class_of k t s₂.cells >>= λ c'.
    closure_parts c' >>= λ (domain', range'). some (apply range' fn args is_pure, s₂)

unfoldable pub ast_new_arg : ℕ → Ast → Ast → Inference → Ast × Inference
ast_new_arg p absent right s = (absent, s)
ast_new_arg p left absent s = (Ast.arg (datatype left) left absent, s)
ast_new_arg p left right s =
    (Ast.arg (some p) left right, fresh_type p (arg (datatype left) (datatype right)) s)

unfoldable pub ast_new_routine : ℕ → Ast → Inference → Ast × Inference
ast_new_routine p absent s = (routine (some p) absent, fresh_type p void s)
ast_new_routine p body s = (routine (datatype body) body, s)

unfoldable pub ast_new_statement : Ast → Ast → Ast
ast_new_statement absent right = right
ast_new_statement left absent = left
ast_new_statement left right = statement (datatype right) left right

-- A missing right side is a syntax error that was reported.
unfoldable pub ast_new_assignment : ℕ → ℕ → Ast → Ast → Bool → Inference → Option (Ast × Inference)
unfolding type_unify_crit
ast_new_assignment k p left absent defining s = some (left, s)
ast_new_assignment k p left right defining s =
    type_unify_crit k (datatype left) (datatype right) s >>= λ (ok, s₁).
    some (assignment (some p) left right defining, fresh_type p void s₁)

-- The test is unified with a new type at `b`.
abbrev pub test_boolean : ℕ → ℕ → Ast → Inference → Option (Bool × Inference)
unfolding type_unify_crit
test_boolean k b test s = type_unify_crit k (datatype test) (some b) (fresh_type b boolean s)

-- The type of the branch that may be missing; `v` is the address for a new one.
abbrev pub branch_type : ℕ → Ast → Inference → Option ℕ × Inference
branch_type v absent s = (some v, fresh_type v void s)
branch_type v on_no s = (datatype on_no, s)

unfoldable pub ast_new_conditional :
    ℕ → (b v p : ℕ) → Ast → Ast → Ast → Inference → Option (Ast × Inference)
unfolding type_new_set
ast_new_conditional k b v p test on_yes on_no s = test_boolean k b test s >>= λ (ok, s₁).
    let (no_type, s₂) = branch_type v on_no s₁ in
    datatype on_yes >>= λ left. no_type >>= λ right.
    type_new_set k p left right s₂.cells >>= λ (t, f).
    some (conditional (some t) test on_yes on_no, with_cells s₂ f)

unfoldable pub ast_new_while_loop : ℕ → ℕ → Ast → Ast → Inference → Option (Ast × Inference)
ast_new_while_loop k b test body s = test_boolean k b test s >>= λ (ok, s₁).
    datatype body >>= λ t. some (while_loop (some t) test body, s₁)

unfoldable pub ast_new_retr : Ast → Option Ast
ast_new_retr body = datatype body >>= λ t. some (retr (some t) body)
