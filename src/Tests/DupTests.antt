-- ===== src/Tests/DupTests.antt =====
-- lib/dict.c: the duplication of a dictionary with two nodes in its first bucket.
use bhuna.Prelude.{
  ℕ, zero, suc, ◌+◌, ◌*◌, ◌≡◌, refl, false, none, some, List, [], ◌∷◌, replicate, arith,
}
use bhuna.Prelude.Distinct.{listed}
use bhuna.Value.{atom}
use bhuna.Dict.{Chain}
use bhuna.Dict.Dup.{Links, Buckets, dict_dup}
use bhuna.Dict.Dup.Links.{Holds}
use bhuna.Dict.Dup.Table.{AllShorter, dict_dup-Holds}

abbrev links : Links
links zero = some (record { key = atom 4; value = atom 6; next = some 1 })
links (suc zero) = some (record { key = atom 5; value = atom 7; next = none })
links _ = none

abbrev table : Buckets
table = record { bucket = some 0 ∷ replicate 30 none; cursor = some 1; cur_bucket = 0 }

abbrev addresses : List (List ℕ)
addresses = (0 ∷ 1 ∷ []) ∷ replicate 30 []

abbrev chains : List Chain
chains = ((atom 4, atom 6) ∷ (atom 5, atom 7) ∷ []) ∷ replicate 30 []

abbrev malloc : ℕ → ℕ → ℕ
malloc b i = 100 + 40 * b + i

empty-Holds : (n : ℕ) → Holds links (replicate n none) (replicate n []) (replicate n [])
empty-Holds zero = tt
empty-Holds (suc n) = (refl, empty-Holds n)

empty-AllShorter : (n : ℕ) → AllShorter 2 (replicate n [])
empty-AllShorter zero = tt
empty-AllShorter (suc n) = (omega arith, empty-AllShorter n)

table-Holds : Holds links table.bucket addresses chains
table-Holds = (
  (
    refl,
    (
      record { key = atom 4; value = atom 6; next = some 1 },
      refl,
      refl,
      refl,
      (refl, (record { key = atom 5; value = atom 7; next = none }, refl, refl, refl, refl)),
    ),
  ),
  empty-Holds 30,
)

dict_dup-Holds_example :
    (d : Buckets) × (g : Links) × (dict_dup 2 malloc table links ≡ some (d, g))
    × Holds g d.bucket ((100 ∷ 101 ∷ []) ∷ replicate 30 []) chains
    × (d.cursor ≡ none)
    × (d.cur_bucket ≡ 0)
    × Holds g table.bucket addresses chains
    × ((q : ℕ) → listed (100 ∷ 101 ∷ []) q ≡ false → g q ≡ links q)
dict_dup-Holds_example =
    dict_dup-Holds 2 malloc table addresses chains links (omega arith, empty-AllShorter 30)
      table-Holds (refl, (refl, tt)) (λ q m. ground arith)
