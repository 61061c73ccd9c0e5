-- ===== src/Prelude/Distinct.antt =====
-- Lists of addresses: membership as a test, and lists in which no address stands twice.
use Prim.Native.Nat.{ℕ}
use mathlib.Core.Path.{◌≡◌, refl}
use mathlib.Core.Bool.{Bool, true, false, ◌||◌}
use mathlib.Core.List.{List, [], ◌∷◌, ◌++◌}
use native.Mathlib.Omega.{arith}
use bhuna.Prelude.Tests.{◌==◌}

abbrev pub listed : List ℕ → ℕ → Bool
listed [] p = false
listed (q ∷ qs) p = q == p || listed qs p

abbrev pub IsDistinct : List ℕ → Type 0
IsDistinct [] = Unit
IsDistinct (p ∷ ps) = (listed ps p ≡ false) × IsDistinct ps

pub listed-append : (xs ys : List ℕ) (p : ℕ) → listed (xs ++ ys) p ≡ (listed xs p || listed ys p)
listed-append [] ys p = refl
listed-append (x ∷ xs) ys p = ground (arith, listed-append xs ys p)

-- In a distinct list the element between two parts is in neither, and can be taken out.
pub IsDistinct-middle :
    (xs ys : List ℕ) (p : ℕ)
    → IsDistinct (xs ++ p ∷ ys)
    → (listed xs p ≡ false) × (listed ys p ≡ false) × IsDistinct (xs ++ ys)
IsDistinct-middle [] ys p d = (refl, d.0, d.1)
IsDistinct-middle (x ∷ xs) ys p d =
    let r = IsDistinct-middle xs ys p d.1 in
    (
      ground (arith, listed-append xs (p ∷ ys) x),
      r.1,
      (ground (arith, listed-append xs (p ∷ ys) x, listed-append xs ys x), r.2),
    )

pub IsDistinct-append :
    (xs ys : List ℕ)
    → IsDistinct (xs ++ ys)
    → IsDistinct xs × IsDistinct ys × ((p : ℕ) → listed xs p ≡ true → listed ys p ≡ false)
IsDistinct-append [] ys d = (tt, d, λ p h. cc)
IsDistinct-append (x ∷ xs) ys d =
    let r = IsDistinct-append xs ys d.1 in
    (
      (ground (arith, listed-append xs ys x), r.0),
      r.1,
      λ p h. ground (arith, listed-append xs ys x, r.2 p),
    )
