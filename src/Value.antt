-- ===== src/Value.antt =====
-- lib/value.h and lib/value.c: the simple part of a value, and the parts of a structured one.
use bhuna.Prelude.{ℕ, Bool, Option, List}
use bhuna.Prelude.Int.{ℤ}

-- The VALUE_ tags that have the bit VALUE_STRUCTURED.
pub data Kind : Type 0 where
  string list error closure dict : Kind

-- `struct value`. A pointer is an address; a structured value points to a `struct s_value`. A
-- `boolean` comes from C's truth values only, and an `atom` from `atom_resolve`.
pub data Value : Type 0 where
  null : Value
  integer : ℤ → Value
  boolean : Bool → Value
  atom : ℕ → Value
  builtin : ℕ → Value
  opaque : ℕ → Value
  structured : Kind → ℕ → Value

-- `struct closure` at run time: its entry point, its environment and its sizes.
pub record Closure : Type 0 where
  pub label : ℕ
  pub ar : Option ℕ
  pub arity : ℕ
  pub locals : ℕ
  pub cc : ℕ

-- Text is the list of its characters.
abbrev pub Text : Type 0
Text = List ℕ
