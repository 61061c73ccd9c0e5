-- ===== src/Tests/MemoryTests.antt =====
-- lib/value.c at concrete values.
use bhuna.Prelude.{ℕ, ◌≡◌, ◌≢◌, refl, true, false, [], ◌∷◌, none}
use bhuna.Value.{Value, Kind, null, structured}
use bhuna.Memory.{Memory, value_new_string}
use bhuna.Memory.Equal.{value_equal, value_equal_refl, value_equal_symm, value_equal_trans}

abbrev nothing : Memory
nothing = record {
  s_value = λ p. none;
  sv_head = [];
  activation = λ a. none;
  a_head = [];
  unset = λ a i. null;
  stray = λ p. [];
}

-- The same text at three addresses.
abbrev strings : Memory
strings =
    (value_new_string 3 (104 ∷ 105 ∷ [])
      ((value_new_string 2 (104 ∷ 105 ∷ []) ((value_new_string 1 (104 ∷ 105 ∷ []) nothing).1)).1)).1

abbrev string_at : ℕ → Value
string_at p = structured Kind.string p

string_ne : string_at 1 ≢ null
string_ne = λ e. cc

same_text : value_equal strings (string_at 1) (string_at 2) ≡ true
unfolding value_equal value_new_string
same_text = refl

same_text' : value_equal strings (string_at 2) (string_at 3) ≡ true
unfolding value_equal value_new_string
same_text' = refl

value_equal_refl_example : value_equal strings (string_at 1) (string_at 1) ≡ true
value_equal_refl_example = value_equal_refl strings (string_at 1) string_ne

value_equal_symm_example :
    value_equal strings (string_at 1) (string_at 2)
    ≡ value_equal strings (string_at 2) (string_at 1)
value_equal_symm_example = value_equal_symm strings (string_at 1) (string_at 2)

value_equal_trans_example : value_equal strings (string_at 1) (string_at 3) ≡ true
value_equal_trans_example =
    value_equal_trans strings (string_at 1) (string_at 2) (string_at 3) same_text same_text'

null_differs : value_equal nothing null null ≡ false
unfolding value_equal
null_differs = refl
