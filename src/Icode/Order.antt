-- ===== src/Icode/Order.antt =====
-- lib/icode.c: the numbers of the icodes go up along the list.
use bhuna.Prelude.{
  ℕ, ◌+◌, ◌<◌, ◌≡◌, refl, ap, false, true, not, ◌&&◌, List, [], ◌∷◌, ◌++◌, ◌==◌, arith, Bool-cases,
  inl, inr, All, All-append, subst,
}
use bhuna.Prelude.Distinct.{listed, listed-append}
use bhuna.Icode.{last_number, remove}

-- The numbers of the list go up.
abbrev pub IsIncreasing : List ℕ → Type 0
IsIncreasing [] = Unit
IsIncreasing (n ∷ ns) = All (λ m. n < m) ns × IsIncreasing ns

pub listed-All {ℓ} : (P : ℕ → Type ℓ) (ns : List ℕ) (n : ℕ) → All P ns → listed ns n ≡ true → P n
listed-All P [] n a h = cc
listed-All P (m ∷ ms) n a h = elim (Bool-cases (m == n)) [
  | inl e ↦ subst P (ground arith) a.0
  | inr e ↦ listed-All P ms n a.1 (ground arith)
]

pub last_bound : (ns : List ℕ) → IsIncreasing ns → All (λ m. m < last_number ns + 1) ns
last_bound [] h = tt
last_bound (n ∷ []) h = (omega arith, tt)
last_bound (n ∷ n' ∷ ns) h = let r = last_bound (n' ∷ ns) h.1 in (omega (arith, h.0.0, r.0), r)

pub IsIncreasing-append :
    (ns : List ℕ) (n : ℕ) → IsIncreasing ns → All (λ m. m < n) ns → IsIncreasing (ns ++ n ∷ [])
IsIncreasing-append [] n h b = (tt, tt)
IsIncreasing-append (m ∷ ms) n h b =
    (All-append (λ k. m < k) ms (n ∷ []) h.0 (b.0, tt), IsIncreasing-append ms n h.1 b.1)

pub All-remove {ℓ} : (P : ℕ → Type ℓ) (n : ℕ) (ns : List ℕ) → All P ns → All P (remove n ns)
All-remove P n [] a = tt
All-remove P n (m ∷ ms) a = elim (Bool-cases (m == n)) [
  | inl e ↦ rw e (All-remove P n ms a.1)
  | inr e ↦ rw e (a.0, All-remove P n ms a.1)
]

pub IsIncreasing-remove : (n : ℕ) (ns : List ℕ) → IsIncreasing ns → IsIncreasing (remove n ns)
IsIncreasing-remove n [] h = tt
IsIncreasing-remove n (m ∷ ms) h = elim (Bool-cases (m == n)) [
  | inl e ↦ rw e (IsIncreasing-remove n ms h.1)
  | inr e ↦ rw e (All-remove (λ k. m < k) n ms h.0, IsIncreasing-remove n ms h.1)
]

pub listed-remove :
    (n : ℕ) (ns : List ℕ) (m : ℕ) → listed (remove n ns) m ≡ (listed ns m && not (n == m))
listed-remove n [] m = refl
listed-remove n (k ∷ ks) m = ground (arith, listed-remove n ks m)

pub not_listed : (n : ℕ) (ns : List ℕ) → All (λ m. n < m) ns → listed ns n ≡ false
not_listed n [] h = refl
not_listed n (m ∷ ms) h = ground (arith, not_listed n ms h.1, h.0)

pub remove_absent : (n : ℕ) (ns : List ℕ) → listed ns n ≡ false → remove n ns ≡ ns
remove_absent n [] h = refl
remove_absent n (m ∷ ms) h = ground (arith, remove_absent n ms)

pub remove_middle :
    (n : ℕ) (done ns : List ℕ)
    → listed done n ≡ false
    → listed ns n ≡ false
    → remove n (done ++ n ∷ ns) ≡ done ++ ns
remove_middle n [] ns d h = ground (arith, remove_absent n ns h)
remove_middle n (m ∷ ms) ns d h = ground (arith, remove_middle n ms ns)

pub IsIncreasing-tail : (done ns : List ℕ) → IsIncreasing (done ++ ns) → IsIncreasing ns
IsIncreasing-tail [] ns h = h
IsIncreasing-tail (m ∷ ms) ns h = IsIncreasing-tail ms ns h.1

pub IsIncreasing-apart :
    (done ns : List ℕ) (n : ℕ) → IsIncreasing (done ++ n ∷ ns) → listed done n ≡ false
IsIncreasing-apart [] ns n h = refl
IsIncreasing-apart (m ∷ ms) ns n h =
    let lt =
      listed-All (λ k. m < k) (ms ++ n ∷ ns) n h.0 (ground (arith, listed-append ms (n ∷ ns) n)) in
    ground (arith, IsIncreasing-apart ms ns n h.1)

pub append_one : (xs ys : List ℕ) (n : ℕ) → (xs ++ n ∷ []) ++ ys ≡ xs ++ n ∷ ys
append_one [] ys n = refl
append_one (x ∷ xs) ys n = ap (λ zs. x ∷ zs) (append_one xs ys n)

pub last_append : (ns : List ℕ) (n : ℕ) → last_number (ns ++ n ∷ []) ≡ n
last_append [] n = refl
last_append (m ∷ []) n = refl
last_append (m ∷ m' ∷ ms) n = last_append (m' ∷ ms) n
