-- ===== src/Process/Unlink.antt =====
-- lib/process.c: taking a process off the list that it is on, and pushing it on another.
use bhuna.Prelude.{
  ℕ, ◌≡◌, refl, sym, subst, ◌∙◌, Bool, true, false, Option, none, some, List, [], ◌∷◌, ◌++◌, arith,
  ==_refl, ◌>>=◌,
}
use mathlib.Core.Path.{subst₂}
use bhuna.Prelude.Distinct.{listed, IsDistinct, IsDistinct-middle, IsDistinct-append, listed-append}
use bhuna.Memory.{update}
use bhuna.Process.{Process, Cells, set_next, unlink_prev, unlink, push}
use bhuna.Process.Chain.{
  Segment, Segment-append, Segment-split, Segment-frame, Segment-set_next, Segment-set_prev,
}

-- The list of `head` holds the processes `xs`, in this order, each with the flag `b`.
abbrev pub IsChain : Cells → Bool → Option ℕ → List ℕ → Type 0
IsChain f b head xs = (last : Option ℕ) × Segment f b none head xs last none

pub IsChain-frame :
    (f g : Cells) (b : Bool) (head : Option ℕ) (xs : List ℕ)
    → ((q : ℕ) → listed xs q ≡ true → g q ≡ f q)
    → IsChain f b head xs
    → IsChain g b head xs
IsChain-frame f g b head xs same (last, s) =
    (last, Segment-frame f g b none head xs last none same s)

-- A segment that is not empty ends in a node.
last_cell :
    (f : Cells) (b : Bool) (prev head : Option ℕ) (x : ℕ) (xs : List ℕ) (last tail : Option ℕ)
    → Segment f b prev head (x ∷ xs) last tail
    → (q : ℕ) × (r : Process) × (last ≡ some q) × (f q ≡ some r) × (listed (x ∷ xs) q ≡ true)
last_cell f b prev head x [] last tail (h, (r, e, ep, ea, s)) =
    (x, r, sym s.1, e, rw (==_refl x) refl)
last_cell f b prev head x (y ∷ ys) last tail (h, (r, e, ep, ea, s)) =
    let (q, r', l, e', k) = last_cell f b (some x) r.next y ys last tail s in
    (q, r', l, e', ground arith)

-- A process with nothing before it is the head of its list.
pub head_of :
    (f : Cells) (b : Bool) (head : Option ℕ) (xs ys : List ℕ) (p : ℕ) (r : Process)
    → IsChain f b head (xs ++ p ∷ ys)
    → f p ≡ some r
    → r.prev ≡ none
    → head ≡ some p
head_of f b head [] ys p r (last, s) e n = s.0
head_of f b head (x ∷ xs) ys p r (last, s) e n =
    let (mid, at, before, (e₀, (r', e', ep, ea, after))) =
      Segment-split f b none head (x ∷ xs) (p ∷ ys) last none s in
    let (q, rq, l, eq, k) = last_cell f b none head x xs mid at before in ground arith

-- What the first step of unlinking does: the part before `p` now ends where `p` went on to.
abbrev Unlinks : Cells → Bool → Option ℕ → List ℕ → ℕ → Process → Type 0
Unlinks f b head xs p r =
    (g : Cells) × (h : Option ℕ) × (unlink_prev p r f head ≡ some (g, h))
    × Segment g b none h xs r.prev r.next
    × ((q : ℕ) → listed xs q ≡ false → g q ≡ f q)

unlink_after :
    (f : Cells) (b : Bool) (head : Option ℕ) (xs : List ℕ) (p q : ℕ) (r rq : Process)
    → IsDistinct xs
    → r.prev ≡ some q
    → f q ≡ some rq
    → listed xs q ≡ true
    → Segment f b none head xs r.prev (some p)
    → Unlinks f b head xs p r
unfolding unlink_prev set_next
unlink_after f b head xs p q r rq d l e k s = (
  update f q (some (record rq { next = r.next })),
  head,
  rw (l, e, ◌>>=◌) refl,
  subst (λ z. Segment (update f q (some (record rq { next = r.next }))) b none head xs z r.next)
      (sym l)
      (Segment-set_next f b none head xs q rq (some p) r.next d (cc) e
        (subst (λ z. Segment f b none head xs z (some p)) l s)),
  λ q' k'. ground arith,
)

unlink_prev_lem :
    (f : Cells) (b : Bool) (head : Option ℕ) (xs : List ℕ) (p : ℕ) (r : Process)
    → IsDistinct xs
    → Segment f b none head xs r.prev (some p)
    → Unlinks f b head xs p r
unfolding unlink_prev
unlink_prev_lem f b head [] p r d s =
    (f, r.next, rw (← s.1, s.0, ==_refl p) refl, (refl, s.1), λ q k. refl)
unlink_prev_lem f b head (x ∷ xs) p r d s =
    let (q, rq, l, e, k) = last_cell f b none head x xs r.prev (some p) s in
    unlink_after f b head (x ∷ xs) p q r rq d l e k s

-- Unlinking a process of a chain returns; the chain loses it and keeps its order, and no cell off the
-- rest of the chain changes.
pub unlink_lem :
    (f : Cells) (b : Bool) (head : Option ℕ) (xs ys : List ℕ) (p : ℕ)
    → IsDistinct (xs ++ p ∷ ys)
    → IsChain f b head (xs ++ p ∷ ys)
    → (r : Process) × (f p ≡ some r)
      × (r.asleep ≡ b)
      × ((g : Cells) × (h : Option ℕ) × (unlink p r f head ≡ some (g, h))
          × IsChain g b h (xs ++ ys)
          × ((q : ℕ) → listed (xs ++ ys) q ≡ false → g q ≡ f q))
unfolding unlink
unlink_lem f b head xs ys p d (last, s) =
    let (mid, at, before, (e₀, (r, e, ep, ea, after))) =
      Segment-split f b none head xs (p ∷ ys) last none s in
    let (off_x, off_y, rest) = IsDistinct-middle xs ys p d in
    let (dx, dy, apart) = IsDistinct-append xs ys rest in
    let before' : Segment f b none head xs r.prev (some p) =
      subst₂ (λ z w. Segment f b none head xs z w) (sym ep) e₀ before in
    let (g₁, h, e₁, s₁, same₁) = unlink_prev_lem f b head xs p r dx before' in
    let after₁ =
      Segment-frame f g₁ b (some p) r.next ys last none (λ q k. same₁ q (ground (arith, apart q)))
        after in
    let (g, e₂, (last', s₂), same₂) =
      Segment-set_prev g₁ b (some p) r.prev r.next ys last dy after₁ in
    let s₃ = Segment-frame g₁ g b none h xs r.prev r.next (λ q k. same₂ q (apart q k)) s₁ in
    (
      r,
      e,
      ea,
      (
        g,
        h,
        rw (e₁, ◌>>=◌, e₂) refl,
        (last', Segment-append g b none h xs ys r.prev r.next last' none s₃ s₂),
        λ q k.
            same₂ q (ground (arith, listed-append xs ys q))
            ∙ same₁ q (ground (arith, listed-append xs ys q)),
      ),
    )

-- Pushing a process that is not on the chain puts it first, with the new flag.
pub push_lem :
    (f : Cells) (b : Bool) (head : Option ℕ) (xs : List ℕ) (p : ℕ) (r : Process)
    → IsDistinct xs
    → listed xs p ≡ false
    → f p ≡ some r
    → IsChain f b head xs
    → (g : Cells) × (push p b f head ≡ some g)
      × IsChain g b (some p) (p ∷ xs)
      × ((q : ℕ) → listed (p ∷ xs) q ≡ false → g q ≡ f q)
      × (g p ≡ some (record r { prev = none; next = head; asleep = b }))
unfolding push
push_lem f b head xs p r d off e (last, s) =
    let r' : Process = record r { prev = none; next = head; asleep = b } in
    let f₁ = update f p (some r') in
    let s₁ = Segment-frame f f₁ b none head xs last none (λ q k. ground arith) s in
    let (g, e₂, (last', s₂), same) = Segment-set_prev f₁ b none (some p) head xs last d s₁ in
    let here : g p ≡ some r' = same p off ∙ rw (==_refl p) refl in
    (
      g,
      rw (e, ◌>>=◌) e₂,
      (last', (refl, (r', here, refl, refl, s₂))),
      λ q k. same q (ground arith) ∙ ground arith,
      here,
    )
