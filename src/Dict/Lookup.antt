-- ===== src/Dict/Lookup.antt =====
-- lib/dict.c: a dictionary is a map from keys to values. Fetch, store, size and duplication.
use bhuna.Prelude.{
  ℕ, ◌<◌, ◌≡◌, refl, sym, ◌≢◌, inl, inr, false, Option, none, some, List, [], ◌∷◌, arith, subst,
  ◌==◌, ==_iff, if◌then◌else◌, Bool-cases, length, get_or, set, length-set, get_or-set_self,
  get_or-set_ne, get_or-replicate, All,
}
use bhuna.Value.{Value, null}
use bhuna.Dict.{
  Chain, Dict, num_buckets, dict_new, hashpjw, KeyEquality, chain_find, chain_assign, dict_fetch,
  dict_store,
}
use bhuna.Dict.Chains.{
  IsDistinct, chain_find-assign, chain_assign-IsDistinct, chain_assign-All, hashpjw-equal,
}

hashpjw-lt : (k : Value) (n : ℕ) → 0 < n → hashpjw k n < n
unfolding hashpjw
hashpjw-lt k n h = omega arith

module _ (keys : KeyEquality) where
  open keys use {equal}

  -- The home of a key, its chain, and what that chain holds under it.
  abbrev pub home : Dict → Value → ℕ
  home d k = hashpjw k (length d.bucket)

  abbrev pub chain_of : Dict → Value → Chain
  chain_of d k = get_or d.bucket (home d k) []

  abbrev pub entry : Dict → Value → Option Value
  entry d k = chain_find keys k (chain_of d k)

  -- The chain that `dict_store` leaves where the lookup gave `o`.
  abbrev pub store_in : Value → Value → Chain → Option Value → Chain
  store_in k v c none = (k, v) ∷ c
  store_in k v c (some _) = chain_assign keys k v c

  pub stored_chain : Dict → Value → Value → Chain
  stored_chain d k v = store_in k v (chain_of d k) (entry d k)

  pub bucket-dict_store :
      (d : Dict) (k v : Value)
      → (dict_store keys d k v).bucket ≡ set d.bucket (home d k) (stored_chain d k v)
  unfolding dict_store stored_chain
  bucket-dict_store d k v = ground arith

  chain_find-store_in :
      (k v j : Value) (c : Chain) (o : Option Value)
      → chain_find keys k c ≡ o
      → chain_find keys j (store_in k v c o) ≡ (if equal j k then some v else chain_find keys j c)
  unfolding chain_find
  chain_find-store_in k v j c none e = refl
  chain_find-store_in k v j c (some old) e = chain_find-assign keys k v j c old e

  pub chain_find-stored :
      (d : Dict) (k v j : Value)
      → chain_find keys j (stored_chain d k v)
        ≡ (if equal j k then some v else chain_find keys j (chain_of d k))
  unfolding stored_chain
  chain_find-stored d k v j = chain_find-store_in k v j (chain_of d k) (entry d k) refl

  entry-dict_store :
      (d : Dict) (k v j : Value)
      → 0 < length d.bucket
      → entry (dict_store keys d k v) j ≡ (if equal j k then some v else entry d j)
  entry-dict_store d k v j pos =
      rw (bucket-dict_store d k v, length-set)
        (elim (Bool-cases (home d j == home d k)) [
          | inl same ↦
              let e : home d j ≡ home d k = (==_iff _ _).0 same in
              rw
                (
                  e,
                  get_or-set_self d.bucket (home d k) (stored_chain d k v) [] (hashpjw-lt k _ pos),
                )
                (chain_find-stored d k v j)
          | inr apart ↦
              let ne : home d k ≢ home d j = ground arith in
              let far : equal j k ≡ false =
                ground (arith, hashpjw-equal keys j k (length d.bucket)) in
              rw (get_or-set_ne d.bucket (home d k) (home d j) (stored_chain d k v) [] ne, far) refl
        ])

  -- After a store, a fetch under an equal key gives the new value, and any other fetch is as before.
  pub dict_fetch-store :
      (d : Dict) (k v j : Value)
      → 0 < length d.bucket
      → dict_fetch keys (dict_store keys d k v) j ≡ (if equal j k then v else dict_fetch keys d j)
  unfolding dict_fetch
  dict_fetch-store d k v j pos = ground (arith, entry-dict_store d k v j pos)

  -- What a dictionary keeps: 31 buckets, each key in its home bucket, and no key twice in a chain.
  pub record IsValid (d : Dict) : Type 0 where
    pub width : length d.bucket ≡ num_buckets
    pub placed : (i : ℕ) → All (λ e. hashpjw e.0 num_buckets ≡ i) (get_or d.bucket i [])
    pub distinct : (i : ℕ) → IsDistinct keys (get_or d.bucket i [])

  store_in-placed :
      (k v : Value) (c : Chain) (o : Option Value) (i : ℕ)
      → hashpjw k num_buckets ≡ i
      → All (λ e. hashpjw e.0 num_buckets ≡ i) c
      → All (λ e. hashpjw e.0 num_buckets ≡ i) (store_in k v c o)
  store_in-placed k v c none i e h = (e, h)
  store_in-placed k v c (some _) i e h =
      chain_assign-All keys (λ l. hashpjw l num_buckets ≡ i) k v c h

  store_in-IsDistinct :
      (k v : Value) (c : Chain) (o : Option Value)
      → chain_find keys k c ≡ o
      → IsDistinct keys c
      → IsDistinct keys (store_in k v c o)
  store_in-IsDistinct k v c none e h = (e, h)
  store_in-IsDistinct k v c (some _) e h = chain_assign-IsDistinct keys k v c h

  -- A property of every bucket survives a write to one.
  every_set :
      (P : ℕ → Chain → Type 0) (bs : List Chain) (i : ℕ) (c : Chain)
      → i < length bs
      → P i c
      → ((j : ℕ) → P j (get_or bs j []))
      → (j : ℕ) → P j (get_or (set bs i c) j [])
  every_set P bs i c lt here others j = elim (Bool-cases (i == j)) [
    | inl same ↦
        let e : i ≡ j = (==_iff _ _).0 same in
        subst (λ n. P n (get_or (set bs i c) n [])) e (rw (get_or-set_self bs i c [] lt) here)
    | inr apart ↦ rw (get_or-set_ne bs i j c [] (ground arith)) (others j)
  ]

  -- A store keeps the table well formed.
  pub dict_store-IsValid : (d : Dict) (k v : Value) → IsValid d → IsValid (dict_store keys d k v)
  unfolding stored_chain
  dict_store-IsValid d k v valid =
      let at_home : home d k ≡ hashpjw k num_buckets = rw valid.width refl in
      let lt : home d k < length d.bucket = hashpjw-lt k _ (omega (arith, valid.width)) in
      record {
        width = rw (bucket-dict_store d k v, length-set) valid.width;
        placed = rw (bucket-dict_store d k v) (
            every_set (λ i c. All (λ e. hashpjw e.0 num_buckets ≡ i) c) d.bucket (home d k)
              (stored_chain d k v) lt
              (store_in-placed k v (chain_of d k) (entry d k) (home d k) (sym at_home)
                (valid.placed (home d k)))
              valid.placed);
        distinct = rw (bucket-dict_store d k v) (
            every_set (λ i c. IsDistinct keys c) d.bucket (home d k) (stored_chain d k v) lt
              (store_in-IsDistinct k v (chain_of d k) (entry d k) refl (valid.distinct (home d k)))
              valid.distinct);
      }

  -- A new dictionary is well formed and gives null under every key.
  pub dict_new-empty : IsValid dict_new × ((j : Value) → dict_fetch keys dict_new j ≡ null)
  unfolding dict_new dict_fetch chain_find
  dict_new-empty = (
    record {
      width = refl;
      placed = λ i. rw (get_or-replicate {A = Chain} num_buckets i []) tt;
      distinct = λ i. rw (get_or-replicate {A = Chain} num_buckets i []) tt;
    },
    λ j. rw (get_or-replicate {A = Chain} num_buckets (hashpjw j 31) [], dict_fetch) refl,
  )
