-- ===== src/Symbol/Lookup.antt =====
-- lib/symbol.c: a defined symbol is found, and hides what it should hide only.
use bhuna.Prelude.{
  ℕ, ◌≡◌, refl, Bool, Option, none, some, [], ◌∷◌, if◌then◌else◌, ◌==◌, Bool-cases, inl, inr,
}
use bhuna.Value.{Value, Text}
use bhuna.Memory.Equal.{text_eq}
use bhuna.Symbol.{
  SymKind, SymbolTable, Scope, take_index, define, new_token, symbol_define, find_symbol,
  symbol_lookup,
}

-- Taking an index changes no symbol.
find-take_index :
    (stab : SymbolTable) (rest : Scope) (s : Text) (g : Bool)
    → (find_symbol s (take_index stab rest).1.head ≡ find_symbol s stab.head)
      × (symbol_lookup (take_index stab rest).2 s g ≡ symbol_lookup rest s g)
unfolding take_index symbol_lookup
find-take_index stab [] s g = (refl, refl)
find-take_index stab (parent ∷ rest) s g = elim (Bool-cases (parent.level == stab.level)) [
  | inl same ↦ let (a, b) = find-take_index parent rest s g in rw same (refl, rw (a, b) refl)
  | inr apart ↦ rw apart (refl, refl)
]

-- After the definition of a symbol, constant or not, anonymous or not, a lookup of its token gives it, and
-- a lookup of any other gives what it gave before, with or without the enclosing scopes.
pub symbol_lookup-define :
    (stab : SymbolTable) (rest : Scope) (token : Option Text) (kind : SymKind) (v : Option Value)
    (n : ℕ) (s : Text) (g : Bool)
    → symbol_lookup (symbol_define stab rest token kind v n).1 s g ≡ (
        if text_eq s (new_token token n).0
        then some (symbol_define stab rest token kind v n).0
        else symbol_lookup (stab ∷ rest) s g)
unfolding symbol_define define symbol_lookup
symbol_lookup-define stab rest token kind (some v) n s g =
    elim (Bool-cases (text_eq s (new_token token n).0)) [
      | inl same ↦ rw same refl
      | inr apart ↦ rw apart refl
    ]
symbol_lookup-define stab rest token kind none n s g =
    let (a, b) = find-take_index stab rest s g in
    elim (Bool-cases (text_eq s (new_token token n).0)) [
      | inl same ↦ rw same refl
      | inr apart ↦ rw (apart, a, b) refl
    ]
