-- ===== src/Dict/Dup/Table.antt =====
-- lib/dict.c: `dict_dup` copies every chain of a dictionary.
use bhuna.Prelude.{
  ℕ, ◌+◌, ◌≤◌, ◌≡◌, refl, ◌∙◌, true, false, Option, none, some, List, [], ◌∷◌, ◌>>=◌, length, arith,
}
use bhuna.Prelude.Distinct.{listed, listed-append, IsDistinct, IsDistinct-append}
use bhuna.Dict.{Chain}
use bhuna.Dict.Dup.{Links, Buckets, dup_buckets, dict_dup}
use bhuna.Dict.Dup.Links.{Linked-frame, allocated, Apart, Holds, nodes, copies}
use bhuna.Dict.Dup.Copy.{chain_dup-Copies}

Holds-frame :
    (f g : Links) (hs : List (Option ℕ)) (xss : List (List ℕ)) (cs : List Chain)
    → ((q : ℕ) → listed (nodes xss) q ≡ true → g q ≡ f q)
    → Holds f hs xss cs
    → Holds g hs xss cs
Holds-frame f g [] [] [] same h = tt
Holds-frame f g [] [] (c ∷ cs) same h = elim h [ ]
Holds-frame f g [] (xs ∷ xss) cs same h = elim h [ ]
Holds-frame f g (h ∷ hs) [] cs same h' = elim h' [ ]
Holds-frame f g (h ∷ hs) (xs ∷ xss) [] same h' = elim h' [ ]
Holds-frame f g (h ∷ hs) (xs ∷ xss) (c ∷ cs) same (l, rest) = (
  Linked-frame f g h xs c (λ q k. same q (ground (arith, listed-append xs (nodes xss) q))) l,
  Holds-frame f g hs xss cs (λ q k. same q (ground (arith, listed-append xs (nodes xss) q))) rest,
)

-- No chain is longer than the fuel.
abbrev pub AllShorter : ℕ → List (List ℕ) → Type 0
AllShorter fuel [] = Unit
AllShorter fuel (xs ∷ xss) = (length xs ≤ fuel) × AllShorter fuel xss

dup_buckets-Holds :
    (fuel : ℕ) (malloc : ℕ → ℕ → ℕ) (b : ℕ) (hs : List (Option ℕ)) (xss : List (List ℕ))
    (cs : List Chain) (f : Links)
    → AllShorter fuel xss
    → Holds f hs xss cs
    → IsDistinct (nodes (copies malloc b xss))
    → Apart (nodes xss) (nodes (copies malloc b xss))
    → (hs' : List (Option ℕ)) × (g : Links) × (dup_buckets fuel malloc b hs f ≡ some (hs', g))
      × Holds g hs' (copies malloc b xss) cs
      × ((q : ℕ) → listed (nodes (copies malloc b xss)) q ≡ false → g q ≡ f q)
unfolding dup_buckets
dup_buckets-Holds fuel malloc b [] [] [] f short h d apart = ([], f, refl, tt, λ q k. refl)
dup_buckets-Holds fuel malloc b [] [] (c ∷ cs) f short h d apart = elim h [ ]
dup_buckets-Holds fuel malloc b [] (xs ∷ xss) cs f short h d apart = elim h [ ]
dup_buckets-Holds fuel malloc b (h ∷ hs) [] cs f short h' d apart = elim h' [ ]
dup_buckets-Holds fuel malloc b (h ∷ hs) (xs ∷ xss) [] f short h' d apart = elim h' [ ]
dup_buckets-Holds fuel malloc b (h ∷ hs) (xs ∷ xss) (c ∷ cs) f (short, shorter) (l, rest) d apart =
    let ns = allocated (malloc b) 0 (length xs) in
    let others = nodes (copies malloc (b + 1) xss) in
    let (d₁, d₂, split) = IsDistinct-append ns others d in
    let (h', f', run, (l', same)) =
      chain_dup-Copies fuel (malloc b) h xs c f short l d₁ (λ q m.
        ground (arith, apart q, listed-append xs (nodes xss) q, listed-append ns others q)) in
    let (hs', g, run', held, same') =
      dup_buckets-Holds fuel malloc (b + 1) hs xss cs f' shorter
        (Holds-frame f f' hs xss cs
          (λ q m.
            same q
              (ground (arith, apart q, listed-append xs (nodes xss) q, listed-append ns others q)))
          rest)
        d₂
        (λ q m.
          ground (arith, apart q, listed-append xs (nodes xss) q, listed-append ns others q)) in
    (
      h' ∷ hs',
      g,
      rw (run, ◌>>=◌, run') refl,
      (Linked-frame f' g h' ns c (λ q m. same' q (split q m)) l', held),
      λ q m.
          same' q (ground (arith, listed-append ns others q))
          ∙ same q (ground (arith, listed-append ns others q)),
    )

-- Where `malloc` gives addresses that differ from each other and from those of the dictionary's nodes,
-- and the fuel is the length of the longest chain at least, the duplication ends. Its chains hold the
-- keys and values of the original's in their order, on the new nodes alone; its cursor is at the start;
-- and the original's nodes, and all others, are as they were, so that it holds its chains still.
pub dict_dup-Holds :
    (fuel : ℕ) (malloc : ℕ → ℕ → ℕ) (d : Buckets) (xss : List (List ℕ)) (cs : List Chain)
    (f : Links)
    → AllShorter fuel xss
    → Holds f d.bucket xss cs
    → IsDistinct (nodes (copies malloc 0 xss))
    → Apart (nodes xss) (nodes (copies malloc 0 xss))
    → (d' : Buckets) × (g : Links) × (dict_dup fuel malloc d f ≡ some (d', g))
      × Holds g d'.bucket (copies malloc 0 xss) cs
      × (d'.cursor ≡ none)
      × (d'.cur_bucket ≡ 0)
      × Holds g d.bucket xss cs
      × ((q : ℕ) → listed (nodes (copies malloc 0 xss)) q ≡ false → g q ≡ f q)
unfolding dict_dup
dict_dup-Holds fuel malloc d xss cs f short h dis apart =
    let (hs', g, run, held, same) =
      dup_buckets-Holds fuel malloc 0 d.bucket xss cs f short h dis apart in
    (
      record { bucket = hs'; cursor = none; cur_bucket = 0 },
      g,
      rw (run, ◌>>=◌) refl,
      held,
      refl,
      refl,
      Holds-frame f g d.bucket xss cs (λ q m. same q (apart q m)) h,
      same,
    )
