-- ===== src/Dict/Chains.antt =====
-- lib/dict.c: lookup in one chain, and how a write to a chain changes it.
use bhuna.Prelude.{
  ℕ, ◌≡◌, refl, true, false, none, some, [], ◌∷◌, arith, if◌then◌else◌, length, All,
}
use bhuna.Value.{Value}
use bhuna.Dict.{Chain, KeyEquality, hashpjw, chain_find, chain_assign}

module _ (keys : KeyEquality) where
  open keys use {equal, equal_symm, equal_trans}

  -- No two nodes of the chain have equal keys.
  abbrev pub IsDistinct : Chain → Type 0
  IsDistinct [] = Unit
  IsDistinct ((k, v) ∷ c) = (chain_find keys k c ≡ none) × IsDistinct c

  pub equal_congr_left : (a b c : Value) → equal a b ≡ true → equal a c ≡ equal b c
  equal_congr_left a b c e = ground (arith, equal_symm a b, equal_trans a b c, equal_trans b a c)

  pub equal_congr_right : (a b c : Value) → equal b c ≡ true → equal a b ≡ equal a c
  equal_congr_right a b c e = ground (arith, equal_symm a b, equal_symm a c, equal_congr_left b c a)

  pub chain_find_congr :
      (j k : Value) (c : Chain) → equal j k ≡ true → chain_find keys j c ≡ chain_find keys k c
  unfolding chain_find
  chain_find_congr j k [] e = refl
  chain_find_congr j k ((l, v) ∷ c) e =
      ground (arith, equal_congr_left j k l, chain_find_congr j k c)

  pub chain_find-assign :
      (k v j : Value) (c : Chain) (old : Value)
      → chain_find keys k c ≡ some old
      → chain_find keys j (chain_assign keys k v c)
        ≡ (if equal j k then some v else chain_find keys j c)
  unfolding chain_find chain_assign
  chain_find-assign k v j [] old h = cc
  chain_find-assign k v j ((l, w) ∷ c) old h =
      ground (arith, chain_find-assign k v j c old, equal_congr_left j k l, equal_congr_right j k l)

  -- A write through a node keeps every key in its place.
  pub chain_find-assign_none :
      (k v j : Value) (c : Chain)
      → chain_find keys j c ≡ none
      → chain_find keys j (chain_assign keys k v c) ≡ none
  unfolding chain_find chain_assign
  chain_find-assign_none k v j [] h = refl
  chain_find-assign_none k v j ((l, w) ∷ c) h = ground (arith, chain_find-assign_none k v j c)

  pub chain_assign-IsDistinct :
      (k v : Value) (c : Chain) → IsDistinct c → IsDistinct (chain_assign keys k v c)
  unfolding chain_assign
  chain_assign-IsDistinct k v [] h = tt
  chain_assign-IsDistinct k v ((l, w) ∷ c) (h, hs) =
      elim (equal k l)
        as (λ b. IsDistinct (if b then (l, v) ∷ c else (l, w) ∷ chain_assign keys k v c)) [
          | true ↦ (h, hs)
          | false ↦ (chain_find-assign_none k v l c h, chain_assign-IsDistinct k v c hs)
        ]

  pub chain_assign-All :
      (P : Value → Type 0) (k v : Value) (c : Chain)
      → All (λ e. P e.0) c
      → All (λ e. P e.0) (chain_assign keys k v c)
  unfolding chain_assign
  chain_assign-All P k v [] h = tt
  chain_assign-All P k v ((l, w) ∷ c) (h, hs) =
      elim (equal k l)
        as (λ b. All (λ e. P e.0) (if b then (l, v) ∷ c else (l, w) ∷ chain_assign keys k v c)) [
          | true ↦ (h, hs)
          | false ↦ (h, chain_assign-All P k v c hs)
        ]

  pub length-chain_assign : (k v : Value) (c : Chain) → length (chain_assign keys k v c) ≡ length c
  unfolding chain_assign
  length-chain_assign k v [] = refl
  length-chain_assign k v ((l, w) ∷ c) = ground (arith, length-chain_assign k v c)

  pub hashpjw-equal : (j k : Value) (n : ℕ) → equal j k ≡ true → hashpjw j n ≡ hashpjw k n
  unfolding hashpjw
  hashpjw-equal j k n e = rw (keys.hash-equal j k e)
