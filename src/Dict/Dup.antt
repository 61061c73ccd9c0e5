-- ===== src/Dict/Dup.antt =====
-- lib/dict.c: the duplication of a dictionary, on the nodes of its chains in the heap.
pub mod Links
pub mod Copy
pub mod Table
use bhuna.Prelude.{ℕ, zero, suc, ◌+◌, Option, none, some, List, [], ◌∷◌, ◌>>=◌}
use bhuna.Value.{Value}
use bhuna.Memory.{update}

-- `struct chain`, and the nodes at their addresses.
pub record Link : Type 0 where
  pub key : Value
  pub value : Value
  pub next : Option ℕ

abbrev pub Links : Type 0
Links = ℕ → Option Link

-- `if (h == NULL) h = n; else p->next = n;`: the head, and the nodes.
unfoldable pub append_link : ℕ → (h p : Option ℕ) → Links → Option (Option ℕ × Links)
append_link n none p f = some (some n, f)
append_link n (some h) p f =
    p >>= λ t. f t >>= λ r. some (some h, update f t (some (record r { next = some n })))

-- The loop from its `i`-th round on; `malloc` gives the address for the round. `none` is spent fuel, or
-- a dangling pointer.
unfoldable pub dup_from : ℕ → (ℕ → ℕ) → ℕ → (c h p : Option ℕ) → Links → Option (Option ℕ × Links)
unfolding append_link
dup_from fuel malloc i none h p f = some (h, f)
dup_from zero malloc i (some c) h p f = none
dup_from (suc fuel) malloc i (some c) h p f = f c >>= λ r.
    append_link (malloc i) h p
      (update f (malloc i) (some (record { key = r.key; value = r.value; next = none })))
    >>= λ (h', f'). f' c >>= λ r'. dup_from fuel malloc (i + 1) r'.next h' (some (malloc i)) f'

unfoldable pub chain_dup : ℕ → (ℕ → ℕ) → Option ℕ → Links → Option (Option ℕ × Links)
unfolding dup_from
chain_dup fuel malloc c f = dup_from fuel malloc 0 c none none f

-- The part of `struct dict` that a duplication copies or sets, with the heads of the chains.
pub record Buckets : Type 0 where
  pub bucket : List (Option ℕ)
  pub cursor : Option ℕ
  pub cur_bucket : ℕ

-- The loop over the buckets from the `b`-th on; `malloc b` gives the addresses for it.
unfoldable pub dup_buckets :
    ℕ → (ℕ → ℕ → ℕ) → ℕ → List (Option ℕ) → Links → Option (List (Option ℕ) × Links)
unfolding chain_dup
dup_buckets fuel malloc b [] f = some ([], f)
dup_buckets fuel malloc b (c ∷ cs) f = chain_dup fuel (malloc b) c f >>= λ (h, f').
    dup_buckets fuel malloc (b + 1) cs f' >>= λ (hs, f''). some (h ∷ hs, f'')

-- The loop goes over 31 buckets, which is what every dictionary has.
unfoldable pub dict_dup : ℕ → (ℕ → ℕ → ℕ) → Buckets → Links → Option (Buckets × Links)
unfolding dup_buckets
dict_dup fuel malloc d f = dup_buckets fuel malloc 0 d.bucket f >>= λ (hs, f').
    some (record { bucket = hs; cursor = none; cur_bucket = 0 }, f')
