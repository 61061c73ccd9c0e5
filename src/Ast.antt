-- ===== src/Ast.antt =====
-- lib/ast.h, lib/ast.c: syntax trees, and what the code generator asks of them.
pub mod Build
use bhuna.Prelude.{ℕ, suc, Bool, true, false, ◌&&◌, Option, none, some}
use bhuna.Value.{Value}
use bhuna.Vm.{Builtin}

-- What the compiler reads of a `struct builtin`; a negative index is `none`.
pub record Entry : Type 0 where
  pub index : Option ℕ
  pub is_pure : Bool
  pub builtin : Builtin

-- `struct ast`, with its `datatype` first. `absent` is the NULL pointer. AST_VALUE is `closure` where
-- the value is a closure, with its address and the tree `k->ast`, and `value` elsewhere.
pub data Ast : Type 0 where
  absent : Ast
  local : (datatype : Option ℕ) (index upcount : ℕ) → Ast
  value : Option ℕ → Value → Ast
  closure : Option ℕ → ℕ → Ast → Ast
  builtin : Option ℕ → Entry → (right : Ast) → Ast
  apply : Option ℕ → (left right : Ast) (is_pure : Bool) → Ast
  arg : Option ℕ → (left right : Ast) → Ast
  routine : Option ℕ → (body : Ast) → Ast
  statement : Option ℕ → (left right : Ast) → Ast
  assignment : Option ℕ → (left right : Ast) (defining : Bool) → Ast
  conditional : Option ℕ → (test yes no : Ast) → Ast
  while_loop : Option ℕ → (test body : Ast) → Ast
  retr : Option ℕ → (body : Ast) → Ast

unfoldable pub ast_is_constant : Ast → Bool
ast_is_constant absent = true
ast_is_constant (value t v) = true
ast_is_constant (closure t q body) = true
ast_is_constant (arg t l r) = ast_is_constant l && ast_is_constant r
ast_is_constant _ = false

unfoldable pub ast_count_args : Ast → ℕ
ast_count_args (arg t l r) = suc (ast_count_args r)
ast_count_args _ = 0

-- The index and the upcount of the local; `none` is a NULL pointer, or the loop that never ends.
unfoldable pub ast_find_local : Ast → Option (ℕ × ℕ)
ast_find_local (local t index upcount) = some (index, upcount)
ast_find_local (builtin t b right) = ast_find_local right
ast_find_local (arg t l r) = ast_find_local l
ast_find_local _ = none
