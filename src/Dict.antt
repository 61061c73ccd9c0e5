-- ===== src/Dict.antt =====
-- lib/dict.c: a dictionary is a hash table of 31 chains with a cursor for iteration.
pub mod Chains
pub mod Lookup
pub mod Cursor
pub mod Dup
use bhuna.Prelude.{
  ℕ, zero, suc, ◌+◌, ◌-◌, ◌*◌, ◌/◌, ◌%◌, ◌^◌, ◌≡◌, Bool, true, false, not, Option, none, some, List,
  [], ◌∷◌, map, ltb, ◌==◌, if◌then◌else◌, length, get_or, set, replicate,
}
use bhuna.Prelude.Int.{bits, pos}
use bhuna.Value.{Value, null, integer, boolean, atom}
use Prim.Native.Nat.{bit_and, bit_xor}

-- A `struct chain` list from a node on.
abbrev pub Chain : Type 0
Chain = List (Value × Value)

-- `struct dict`; `num_buckets` is the length of `bucket`. The cursor points to a chain node. A
-- node's key and `next` never change once it is linked, so it is the list of the keys from it on.
pub record Dict : Type 0 where
  pub bucket : List Chain
  pub cursor : List Value
  pub cur_bucket : ℕ

abbrev pub num_buckets : ℕ
num_buckets = 31

unfoldable pub dict_new : Dict
dict_new = record { bucket = replicate num_buckets []; cursor = []; cur_bucket = 0 }

-- One round of the loop of `hashpjw`. A `char` is signed, and `h` is an unsigned 64-bit number.
hash_round : ℕ → ℕ → ℕ
hash_round h byte =
    let char_bits = if ltb byte 128 then byte else 2 ^ 64 - 256 + byte in
    let h₁ = (h * 16 + char_bits) % 2 ^ 64 in
    let g = bit_and h₁ 0xf0000000 in if g == 0 then h₁ else bit_xor (bit_xor h₁ (g / 2 ^ 24)) g

-- The loop over the four bytes of an `int`, lowest first.
hash_int : ℕ → ℕ
hash_int w =
    hash_round (hash_round (hash_round (hash_round 0 (w % 256)) (w / 256 % 256)) (w / 65536 % 256))
      (w / 16777216 % 256)

-- `h` at the end of `hashpjw`. For a key of another type the assertion is compiled out: src/Makefile
-- defines NDEBUG, and `h` is still 0.
unfoldable pub hash_key : Value → ℕ
unfolding hash_int hash_round
hash_key (integer i) = hash_int (bits i)
hash_key (boolean true) = hash_int 1
hash_key (boolean false) = hash_int 0
hash_key (atom a) = hash_int (bits (pos a))
hash_key _ = 0

unfoldable pub hashpjw : Value → ℕ → ℕ
hashpjw key table_size = hash_key key % table_size

-- What dictionaries ask of `value_equal`.
pub record KeyEquality : Type 0 where
  pub equal : Value → Value → Bool
  pub equal_symm : (a b : Value) → equal a b ≡ equal b a
  pub equal_trans : (a b c : Value) → equal a b ≡ true → equal b c ≡ true → equal a c ≡ true
  pub hash-equal : (a b : Value) → equal a b ≡ true → hash_key a ≡ hash_key b

-- Whether the value's tag is VALUE_NULL.
abbrev pub is_null : Value → Bool
is_null null = true
is_null _ = false

module _ (keys : KeyEquality) where
  open keys use {equal}

  -- The loop of `dict_locate`, read and written through the node it stops at.
  unfoldable pub chain_find : Value → Chain → Option Value
  chain_find key [] = none
  chain_find key ((k, v) ∷ c) = if equal key k then some v else chain_find key c

  unfoldable pub chain_assign : Value → Value → Chain → Chain
  chain_assign key value [] = []
  chain_assign key value ((k, v) ∷ c) =
      if equal key k then (k, value) ∷ c else (k, v) ∷ chain_assign key value c

  -- The bucket number, and the node's value if there is a node.
  unfoldable pub dict_locate : Dict → Value → ℕ × Option Value
  unfolding hashpjw chain_find
  dict_locate d key =
      let b_index = hashpjw key (length d.bucket) in
      (b_index, chain_find key (get_or d.bucket b_index []))

  unfoldable pub dict_fetch : Dict → Value → Value
  unfolding dict_locate
  dict_fetch d k = elim ((dict_locate d k).1) [ some v ↦ v | none ↦ null ]

  unfoldable pub dict_store : Dict → Value → Value → Dict
  unfolding dict_locate chain_assign
  dict_store d k v =
      let (i, c) = dict_locate d k in
      let chain = get_or d.bucket i [] in
      elim c [
        | none ↦ record d { bucket = set d.bucket i ((k, v) ∷ chain) }
        | some old ↦ record d { bucket = set d.bucket i (chain_assign k v chain) }
      ]

  unfoldable pub dict_exists : Dict → Value → Bool
  unfolding dict_fetch
  dict_exists d key = not (is_null (dict_fetch d key))

-- The keys from a node on.
abbrev pub keys_from : Chain → List Value
keys_from = map λ e. e.0

-- The loop of `dict_advance` over the buckets left; `left` is `num_buckets - 1 - cur_bucket`.
advance_loop : (left : ℕ) → Dict → Dict
advance_loop zero d = d
advance_loop (suc left) d =
    let on = advance_loop left (record d {
      cursor = keys_from (get_or d.bucket (d.cur_bucket + 1) []);
      cur_bucket = d.cur_bucket + 1;
    }) in
    elim d.cursor [ [] ↦ on | _ ∷ _ ↦ d ]

unfoldable pub dict_advance : Dict → Dict
unfolding advance_loop
dict_advance d = advance_loop (length d.bucket - 1 - d.cur_bucket) d

unfoldable pub dict_rewind : Dict → Dict
unfolding dict_advance
dict_rewind d =
    dict_advance (record d { cursor = keys_from (get_or d.bucket 0 []); cur_bucket = 0 })

unfoldable pub dict_eof : Dict → Bool
dict_eof d = elim d.cursor [ [] ↦ true | _ ∷ _ ↦ false ]

unfoldable pub dict_getkey : Dict → Value
dict_getkey d = elim d.cursor [ [] ↦ null | k ∷ _ ↦ k ]

unfoldable pub dict_next : Dict → Dict
unfolding dict_advance
dict_next d = dict_advance (record d { cursor = elim d.cursor [ [] ↦ [] | _ ∷ rest ↦ rest ] })

-- The two loops of `dict_size`.
size_from : ℕ → List Chain → ℕ
size_from count [] = count
size_from count (c ∷ cs) = size_from (count + length c) cs

unfoldable pub dict_size : Dict → ℕ
unfolding size_from
dict_size d = size_from 0 d.bucket
