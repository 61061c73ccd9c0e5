-- ===== src/Process/Chain.antt =====
-- lib/process.c: a doubly linked list of processes as a list of addresses.
use bhuna.Prelude.{
  ℕ, ◌≡◌, ◌≢◌, refl, ◌∙◌, Bool, true, false, Option, none, some, List, [], ◌∷◌, ◌++◌, arith, ◌==◌,
  ==_refl, ◌>>=◌,
}
use bhuna.Prelude.Distinct.{listed, IsDistinct}
use bhuna.Memory.{update}
use bhuna.Process.{Process, Cells, set_prev}

-- From the pointer `head`, whose node has `prev` before it, the nodes of the list follow, all with the
-- flag `asleep` as given; then comes the pointer `tail`, and `last` is the node before it.
abbrev pub Segment :
    Cells → Bool → (prev head : Option ℕ) → List ℕ → (last tail : Option ℕ) → Type 0
Segment f b prev head [] last tail = (head ≡ tail) × (prev ≡ last)
Segment f b prev head (x ∷ xs) last tail =
    (head ≡ some x)
    × ((r : Process) × (f x ≡ some r)
        × (r.prev ≡ prev)
        × (r.asleep ≡ b)
        × Segment f b (some x) r.next xs last tail)

pub Segment-append :
    (f : Cells) (b : Bool) (prev head : Option ℕ) (xs ys : List ℕ) (mid p last tail : Option ℕ)
    → Segment f b prev head xs mid p
    → Segment f b mid p ys last tail
    → Segment f b prev head (xs ++ ys) last tail
Segment-append f b prev head [] ys mid p last tail s t = rw (s.0, s.1) t
Segment-append f b prev head (x ∷ xs) ys mid p last tail (h, (r, e, ep, ea, s)) t =
    (h, (r, e, ep, ea, Segment-append f b (some x) r.next xs ys mid p last tail s t))

pub Segment-split :
    (f : Cells) (b : Bool) (prev head : Option ℕ) (xs ys : List ℕ) (last tail : Option ℕ)
    → Segment f b prev head (xs ++ ys) last tail
    → (mid : Option ℕ) × (p : Option ℕ) × Segment f b prev head xs mid p
      × Segment f b mid p ys last tail
Segment-split f b prev head [] ys last tail s = (prev, head, (refl, refl), s)
Segment-split f b prev head (x ∷ xs) ys last tail (h, (r, e, ep, ea, s)) =
    let (mid, p, s₁, s₂) = Segment-split f b (some x) r.next xs ys last tail s in
    (mid, p, (h, (r, e, ep, ea, s₁)), s₂)

-- Cells that agree on the list make the same segment.
pub Segment-frame :
    (f g : Cells) (b : Bool) (prev head : Option ℕ) (xs : List ℕ) (last tail : Option ℕ)
    → ((q : ℕ) → listed xs q ≡ true → g q ≡ f q)
    → Segment f b prev head xs last tail
    → Segment g b prev head xs last tail
Segment-frame f g b prev head [] last tail same s = s
Segment-frame f g b prev head (x ∷ xs) last tail same (h, (r, e, ep, ea, s)) = (
  h,
  (
    r,
    same x (rw (==_refl x) refl) ∙ e,
    ep,
    ea,
    Segment-frame f g b (some x) r.next xs last tail (λ q k. same q (ground arith)) s,
  ),
)

last_listed :
    (f : Cells) (b : Bool) (prev head : Option ℕ) (x : ℕ) (xs : List ℕ) (q : ℕ) (tail : Option ℕ)
    → Segment f b prev head (x ∷ xs) (some q) tail
    → listed (x ∷ xs) q ≡ true
last_listed f b prev head x [] q tail (h, (r, e, ep, ea, s)) = ground arith
last_listed f b prev head x (y ∷ ys) q tail (h, (r, e, ep, ea, s)) =
    ground (arith, last_listed f b (some x) r.next y ys q tail s)

-- Writing the `next` of the last node moves the end of the segment.
pub Segment-set_next :
    (f : Cells) (b : Bool) (prev head : Option ℕ) (xs : List ℕ) (q : ℕ) (r : Process)
    (tail tail' : Option ℕ)
    → IsDistinct xs
    → prev ≢ some q
    → f q ≡ some r
    → Segment f b prev head xs (some q) tail
    → Segment (update f q (some (record r { next = tail' }))) b prev head xs (some q) tail'
Segment-set_next f b prev head [] q r tail tail' d first e s = absurd (first s.1)
Segment-set_next f b prev head (x ∷ []) q r tail tail' d first e (h, (r', e', ep, ea, s)) =
    (h, (record r { next = tail' }, ground arith, ground arith, ground arith, (refl, s.1)))
Segment-set_next f b prev head (x ∷ y ∷ ys) q r tail tail' d first e (h, (r', e', ep, ea, s)) =
    let on = last_listed f b (some x) r'.next y ys q tail s in
    let apart : (q == x) ≡ false = ground arith in
    (
      h,
      (
        r',
        rw apart e',
        ep,
        ea,
        Segment-set_next f b (some x) r'.next (y ∷ ys) q r tail tail' d.1 (ground arith) e s,
      ),
    )

-- `set_prev` at the head of a segment moves its front, and changes no cell off the list.
pub Segment-set_prev :
    (f : Cells) (b : Bool) (prev prev' head : Option ℕ) (xs : List ℕ) (last : Option ℕ)
    → IsDistinct xs
    → Segment f b prev head xs last none
    → (g : Cells) × (set_prev head prev' f ≡ some g)
      × ((last' : Option ℕ) × Segment g b prev' head xs last' none)
      × ((q : ℕ) → listed xs q ≡ false → g q ≡ f q)
unfolding set_prev
Segment-set_prev f b prev prev' head [] last d s =
    (f, rw s.0 refl, (prev', (s.0, refl)), λ q h. refl)
Segment-set_prev f b prev prev' head (x ∷ xs) last d (h, (r, e, ep, ea, s)) =
    let g = update f x (some (record r { prev = prev' })) in
    (
      g,
      rw (h, e, ◌>>=◌) refl,
      (
        last,
        (
          h,
          (
            record r { prev = prev' },
            rw (==_refl x) refl,
            refl,
            ea,
            Segment-frame f g b (some x) r.next xs last none (λ q k. ground arith) s,
          ),
        ),
      ),
      λ q k. ground arith,
    )
