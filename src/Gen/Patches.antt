-- ===== src/Gen/Patches.antt =====
-- lib/gen.c: the two arrays of `iprogram_gen` and the runs over them.
use bhuna.Prelude.{
  ℕ, ◌≡◌, ◌<◌, refl, ap, Bool, true, false, ◌==◌, Option, none, some, List, [], ◌∷◌, if◌then◌else◌,
  ◌>>=◌, arith, All, Bool-cases, Option-cases, inl, inr,
}
use bhuna.Memory.{update}
use bhuna.Icode.Wiring.{is_some}
use bhuna.Gen.{back_patch, resolve_closures}

-- The icode whose label goes to an address.
abbrev pub patch_for : List (ℕ × ℕ) → ℕ → Option ℕ
patch_for [] a = none
patch_for ((b, t) ∷ bp) a = if b == a then some t else patch_for bp a

-- The addresses go down.
abbrev pub IsFalling : List (ℕ × ℕ) → Type 0
IsFalling [] = Unit
IsFalling (e ∷ bp) = All (λ f. f.0 < e.0) bp × IsFalling bp

patch_for-above : (bp : List (ℕ × ℕ)) (a : ℕ) → All (λ f. f.0 < a) bp → patch_for bp a ≡ none
patch_for-above [] a h = refl
patch_for-above ((b, t) ∷ bp) a h = ground (arith, patch_for-above bp a h.1, h.0)

-- The word at an address when the labels are written.
abbrev pub patched : List (ℕ × ℕ) → (ℕ → Option ℕ) → (ℕ → Option ℕ) → ℕ → Option ℕ
patched bp label words a = elim (patch_for bp a) [ none ↦ words a | some t ↦ label t ]

pub back_patch-patched :
    (bp : List (ℕ × ℕ)) (label words : ℕ → Option ℕ)
    → All (λ e. is_some (label e.1) ≡ true) bp
    → IsFalling bp
    → (words' : ℕ → Option ℕ) × (back_patch bp label words ≡ some words')
      × ((a : ℕ) → words' a ≡ patched bp label words a)
unfolding back_patch
back_patch-patched [] label words h f = (words, refl, λ a. refl)
back_patch-patched ((b, t) ∷ bp) label words h f = elim (Option-cases (label t)) [
  | inl e ↦ ground (arith, h.0)
  | inr (l, e) ↦
      let (words', run, same) = back_patch-patched bp label (update words b (some l)) h.1 f.1 in
      (words', rw (e, ◌>>=◌) run, λ a. ground (arith, same a, patch_for-above bp b f.0))
]

abbrev pub has_closure : List ℕ → ℕ → Bool
has_closure [] q = false
has_closure (p ∷ k) q = if p == q then true else has_closure k q

-- Every closure of the array gets the label of the icode at its entry.
pub resolve_closures-resolved :
    (k : List ℕ) (entry label labels : ℕ → Option ℕ)
    → All (λ q. is_some (entry q >>= label) ≡ true) k
    → (labels' : ℕ → Option ℕ) × (resolve_closures k entry label labels ≡ some labels')
      × ((q : ℕ) → labels' q ≡ (if has_closure k q then entry q >>= label else labels q))
unfolding resolve_closures
resolve_closures-resolved [] entry label labels h = (labels, refl, λ q. refl)
resolve_closures-resolved (p ∷ k) entry label labels h = elim (Option-cases (entry p)) [
  | inl e ↦ ground (arith, h.0)
  | inr (t, e) ↦ elim (Option-cases (label t)) [
    | inl e' ↦ ground (arith, h.0)
    | inr (l, e') ↦
        let (labels', run, same) =
          resolve_closures-resolved k entry label (update labels p (some l)) h.1 in
        (
          labels',
          rw (e, ◌>>=◌, e') run,
          λ q. elim (Bool-cases (p == q)) [
            | inl s ↦
                (let at : p ≡ q = ground arith in
                  ground (arith, same q, ap (λ z. entry z >>= label) at))
            | inr s ↦ ground (arith, same q)
          ],
        )
  ]
]
