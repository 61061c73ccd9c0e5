-- ===== src/Tests/DictTests.antt =====
-- lib/dict.c at concrete dictionaries.
use bhuna.Prelude.{◌≡◌, refl, false, some, [], ◌∷◌, arith, none, length}
use bhuna.Prelude.Int.{pos}
use bhuna.Value.{null, integer, boolean, atom}
use bhuna.Dict.{
  Dict, KeyEquality, dict_new, dict_fetch, dict_store, dict_exists, dict_rewind, dict_size, hashpjw,
  hash_key,
}
use bhuna.Dict.Lookup.{IsValid, dict_fetch-store, dict_store-IsValid, dict_new-empty}
use bhuna.Dict.Cursor.{keys_after, walk, walk-rewind, dict_size-keys}
use bhuna.Memory.{Memory}
use bhuna.Memory.Equal.{value_keys, value_equal}

abbrev nothing : Memory
nothing = record {
  s_value = λ p. none;
  sv_head = [];
  activation = λ a. none;
  a_head = [];
  unset = λ a i. null;
  stray = λ p. [];
}

abbrev keys : KeyEquality
keys = value_keys nothing

-- Two keys in one bucket, and one in another.
abbrev three : Dict
three =
    dict_store keys
      (dict_store keys (dict_store keys dict_new (integer (pos 0)) (atom 5)) (atom 4) (atom 6))
      (boolean false) (atom 7)

dict_fetch-store_example :
    dict_fetch keys (dict_store keys dict_new (integer (pos 3)) (atom 9)) (integer (pos 3)) ≡ atom 9
unfolding dict_new value_equal
dict_fetch-store_example =
    dict_fetch-store keys dict_new (integer (pos 3)) (atom 9) (integer (pos 3)) (ground arith)

dict_store-IsValid_example : IsValid keys (dict_store keys dict_new (atom 1) null)
dict_store-IsValid_example =
    dict_store-IsValid keys dict_new (atom 1) null ((dict_new-empty keys).0)

walk-rewind_example :
    walk 4 (dict_rewind three) ≡ some (boolean false ∷ integer (pos 0) ∷ atom 4 ∷ [])
unfolding dict_store dict_new value_equal hashpjw hash_key keys_after
walk-rewind_example = walk-rewind 4 three (omega arith) (omega arith)

dict_size-keys_example : dict_size three ≡ length (keys_after 0 three.bucket)
dict_size-keys_example = dict_size-keys three

fetches_null : dict_exists keys (dict_store keys dict_new (atom 1) null) (atom 1) ≡ false
unfolding dict_exists dict_store dict_new value_equal hashpjw hash_key
fetches_null = refl

hashes : hashpjw (integer (pos 65)) 31 ≡ 12
unfolding hashpjw hash_key
hashes = refl
