-- ===== src/Symbol.antt =====
-- lib/symbol.c, lib/symbol.h: symbol tables, nested by their parents.
pub mod Lookup
pub mod Indices
use bhuna.Prelude.{
  ℕ, ◌+◌, Bool, true, false, Option, none, some, List, [], ◌∷◌, ◌==◌, if◌then◌else◌,
}
use bhuna.Value.{Value, Text}
use bhuna.Memory.Equal.{text_eq}

-- The SYM_KIND_ numbers.
pub data SymKind : Type 0 where
  anonymous command function variable : SymKind

-- `struct symbol`, as `symbol_define` makes it. A symbol has a value if it is constant and an index
-- (which the source keeps at -1 else) if it is not. Of the table it is `in`, the code reads whether it
-- has a parent, and the level.
pub record Symbol : Type 0 where
  pub token : Text
  pub kind : SymKind
  pub value : Option Value
  pub index : Option ℕ
  pub in_parent : Bool
  pub in_level : ℕ

pub record SymbolTable : Type 0 where
  pub head : List Symbol
  pub next_index : ℕ
  pub level : ℕ

-- A table with its parents, innermost first. A table is never changed once the block is left but as a
-- parent of another.
abbrev pub Scope : Type 0
Scope = List SymbolTable

unfoldable pub symbol_table_new : Scope → ℕ → Scope
symbol_table_new [] offset = record { head = []; next_index = 0; level = 0 } ∷ []
symbol_table_new (parent ∷ rest) offset =
    record { head = []; next_index = 0; level = parent.level + offset } ∷ parent ∷ rest

unfoldable pub symbol_table_root : Scope → Option SymbolTable
symbol_table_root [] = none
symbol_table_root (stab ∷ []) = some stab
symbol_table_root (stab ∷ parent ∷ rest) = symbol_table_root (parent ∷ rest)

unfoldable pub symbol_table_size : SymbolTable → ℕ
symbol_table_size stab = stab.next_index

-- The token of a new symbol, and the counter of anonymous symbols: a `%` and a number.
unfoldable pub new_token : Option Text → ℕ → Text × ℕ
new_token none anon_counter = (37 ∷ (anon_counter + 1) ∷ [], anon_counter + 1)
new_token (some token) anon_counter = (token, anon_counter)

-- The index that the defining table hands out, and the tables after it.
unfoldable pub take_index : SymbolTable → Scope → ℕ × SymbolTable × Scope
take_index stab [] = (stab.next_index, record stab { next_index = stab.next_index + 1 }, [])
take_index stab (parent ∷ rest) =
    let (i, p, r) = take_index parent rest in
    if parent.level == stab.level
    then (i, stab, p ∷ r)
    else (stab.next_index, record stab { next_index = stab.next_index + 1 }, parent ∷ rest)

abbrev pub has_parent : Scope → Bool
has_parent [] = false
has_parent (_ ∷ _) = true

abbrev pub add_symbol : Symbol → SymbolTable → SymbolTable
add_symbol sym stab = record stab { head = sym ∷ stab.head }

-- The new symbol with its token settled, and the tables with it.
unfoldable pub define : SymbolTable → Scope → Text → SymKind → Option Value → Symbol × Scope
unfolding take_index
define stab rest token kind (some v) =
    let sym : Symbol = record {
      token = token;
      kind = kind;
      value = some v;
      index = none;
      in_parent = has_parent rest;
      in_level = stab.level;
    } in
    (sym, add_symbol sym stab ∷ rest)
define stab rest token kind none =
    let (i, stab', rest') = take_index stab rest in
    let sym : Symbol = record {
      token = token;
      kind = kind;
      value = none;
      index = some i;
      in_parent = has_parent rest;
      in_level = stab.level;
    } in
    (sym, add_symbol sym stab' ∷ rest')

unfoldable pub symbol_define :
    SymbolTable → Scope → Option Text → SymKind → Option Value → ℕ → Symbol × Scope × ℕ
unfolding define new_token
symbol_define stab rest token kind v anon_counter =
    let (name, anon_counter') = new_token token anon_counter in
    let (sym, scope) = define stab rest name kind v in (sym, scope, anon_counter')

-- The loop over one table.
unfoldable pub find_symbol : Text → List Symbol → Option Symbol
find_symbol s [] = none
find_symbol s (sym ∷ next) = if text_eq s sym.token then some sym else find_symbol s next

abbrev pub or_else : Option Symbol → Option Symbol → Option Symbol
or_else (some sym) other = some sym
or_else none other = other

unfoldable pub symbol_lookup : Scope → Text → Bool → Option Symbol
unfolding find_symbol
symbol_lookup [] s global = none
symbol_lookup (stab ∷ parents) s global =
    or_else (find_symbol s stab.head) (if global then symbol_lookup parents s global else none)

unfoldable pub symbol_is_global : Symbol → Bool
symbol_is_global sym = if sym.in_parent then false else true
