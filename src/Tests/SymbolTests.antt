-- ===== src/Tests/SymbolTests.antt =====
-- lib/symbol.c at a closure's table with a block of the same level in it.
use bhuna.Prelude.{◌≡◌, refl, true, false, none, some, [], ◌∷◌, if◌then◌else◌, arith}
use bhuna.Value.{Text}
use bhuna.Memory.Equal.{text_eq}
use bhuna.Symbol.{
  variable, Symbol, SymbolTable, Scope, symbol_define, symbol_lookup, new_token, symbol_table_new,
  symbol_table_root,
}
use bhuna.Symbol.Lookup.{symbol_lookup-define}
use bhuna.Symbol.Indices.{IsIndexed, symbol_define-IsIndexed}

abbrev name : Text
name = 97 ∷ []

abbrev local_variable : Symbol
local_variable = record {
  token = name;
  kind = variable;
  value = none;
  index = some 0;
  in_parent = false;
  in_level = 0;
}

abbrev outer : SymbolTable
outer = record { head = local_variable ∷ []; next_index = 1; level = 0 }

abbrev block : SymbolTable
block = record { head = []; next_index = 0; level = 0 }

block-IsIndexed : IsIndexed block (outer ∷ [])
block-IsIndexed = record { inside = (omega arith, tt); apart = (refl, tt) }

symbol_lookup-define_example :
    symbol_lookup (symbol_define block (outer ∷ []) none variable none 4).1 name true ≡ (
      if text_eq name (new_token none 4).0
      then some (symbol_define block (outer ∷ []) none variable none 4).0
      else symbol_lookup (block ∷ outer ∷ []) name true)
symbol_lookup-define_example =
    symbol_lookup-define block (outer ∷ []) none variable none 4 name true

symbol_define-IsIndexed_example :
    (stab' : SymbolTable) × (rest' : Scope) × ((symbol_define block
        (outer ∷ [])
        (some (98 ∷ []))
        variable
        none
        4).1
      ≡ stab' ∷ rest')
    × IsIndexed stab' rest'
symbol_define-IsIndexed_example =
    symbol_define-IsIndexed block (outer ∷ []) (some (98 ∷ [])) variable none 4 block-IsIndexed

takes_next : (symbol_define block (outer ∷ []) (some (98 ∷ [])) variable none 4).0.index ≡ some 1
unfolding symbol_define
takes_next = refl

nests : symbol_table_new (outer ∷ []) 0 ≡ block ∷ outer ∷ []
unfolding symbol_table_new
nests = refl

roots : symbol_table_root (block ∷ outer ∷ []) ≡ some outer
unfolding symbol_table_root
roots = refl
