-- ===== src/Dict/Dup/Links.antt =====
-- lib/dict.c: linked chains in the heap, and the addresses of new nodes.
use bhuna.Prelude.{
  ℕ, zero, suc, ◌+◌, ◌≡◌, refl, ◌∙◌, true, false, Option, none, some, List, [], ◌∷◌, ◌++◌, length,
  arith, ==_refl,
}
use bhuna.Prelude.Distinct.{listed}
use bhuna.Dict.{Chain}
use bhuna.Dict.Dup.{Link, Links}

-- From the pointer `head`, the nodes at the addresses hold the pairs of the chain, and the last one's
-- `next` is NULL.
abbrev pub Linked : Links → Option ℕ → List ℕ → Chain → Type 0
Linked f head [] [] = head ≡ none
Linked f head (x ∷ xs) ((k, v) ∷ c) =
    (head ≡ some x)
    × ((r : Link) × (f x ≡ some r) × (r.key ≡ k) × (r.value ≡ v) × Linked f r.next xs c)
Linked f head [] (e ∷ c) = ⊥
Linked f head (x ∷ xs) [] = ⊥

-- What `malloc` gives in `k` rounds from the `i`-th on.
abbrev pub allocated : (ℕ → ℕ) → ℕ → ℕ → List ℕ
allocated malloc i zero = []
allocated malloc i (suc k) = malloc i ∷ allocated malloc (i + 1) k

-- The second list has no address of the first one.
abbrev pub Apart : List ℕ → List ℕ → Type 0
Apart xs ys = (q : ℕ) → listed xs q ≡ true → listed ys q ≡ false

pub Linked-frame :
    (f g : Links) (head : Option ℕ) (xs : List ℕ) (c : Chain)
    → ((q : ℕ) → listed xs q ≡ true → g q ≡ f q)
    → Linked f head xs c
    → Linked g head xs c
Linked-frame f g head [] [] same l = l
Linked-frame f g head [] (e ∷ c) same l = l
Linked-frame f g head (x ∷ xs) [] same l = l
Linked-frame f g head (x ∷ xs) ((k, v) ∷ c) same (h, (r, e, ek, ev, l)) = (
  h,
  (
    r,
    same x (rw (==_refl x) refl) ∙ e,
    ek,
    ev,
    Linked-frame f g r.next xs c (λ q k. same q (ground arith)) l,
  ),
)

-- The buckets hold the chains, at the addresses of each.
abbrev pub Holds : Links → List (Option ℕ) → List (List ℕ) → List Chain → Type 0
Holds f [] [] [] = Unit
Holds f (h ∷ hs) (xs ∷ xss) (c ∷ cs) = Linked f h xs c × Holds f hs xss cs
Holds f _ _ _ = ⊥

-- The addresses of all the chains, one after the other, and those of their copies.
abbrev pub nodes : List (List ℕ) → List ℕ
nodes [] = []
nodes (xs ∷ xss) = xs ++ nodes xss

abbrev pub copies : (ℕ → ℕ → ℕ) → ℕ → List (List ℕ) → List (List ℕ)
copies malloc b [] = []
copies malloc b (xs ∷ xss) = allocated (malloc b) 0 (length xs) ∷ copies malloc (b + 1) xss
