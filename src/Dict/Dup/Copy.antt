-- ===== src/Dict/Dup/Copy.antt =====
-- lib/dict.c: `chain_dup` copies a chain.
use bhuna.Prelude.{
  ℕ, zero, suc, ◌+◌, ◌≤◌, ◌≡◌, refl, ◌∙◌, false, Option, none, some, List, [], ◌∷◌, ◌==◌, ◌>>=◌,
  length, arith, ==_refl,
}
use bhuna.Prelude.Distinct.{listed, IsDistinct}
use bhuna.Memory.{update}
use bhuna.Dict.{Chain}
use bhuna.Dict.Dup.{Link, Links, append_link, dup_from, chain_dup}
use bhuna.Dict.Dup.Links.{Linked, Linked-frame, allocated, Apart}

-- What the loop leaves, from a round on that links to the node `t` of the copy: the rest of the copy
-- after `t`, with the rest of the nodes as they were.
abbrev Extends : Links → Links → ℕ → Link → List ℕ → Chain → Type 0
Extends f g t rt ns c =
    ((r : Link) × (g t ≡ some r) × (r.key ≡ rt.key) × (r.value ≡ rt.value) × Linked g r.next ns c)
    × ((q : ℕ) → (t == q) ≡ false → listed ns q ≡ false → g q ≡ f q)

-- The nodes after a round that copies `r` to `n`, behind `t`.
abbrev linked_on : ℕ → Link → ℕ → Link → Links → Links
linked_on n r t rt f =
    update (update f n (some (record { key = r.key; value = r.value; next = none }))) t
      (some (record rt { next = some n }))

append_link-behind :
    (n h t : ℕ) (rt : Link) (f : Links)
    → f t ≡ some rt
    → append_link n (some h) (some t) f
      ≡ some (some h, update f t (some (record rt { next = some n })))
unfolding append_link
append_link-behind n h t rt f e = rw (e, ◌>>=◌) refl

dup_from-round :
    (fuel : ℕ) (malloc : ℕ → ℕ) (i h t x : ℕ) (r rt : Link) (f : Links)
    → f x ≡ some r
    → f t ≡ some rt
    → (malloc i == t) ≡ false
    → (malloc i == x) ≡ false
    → (t == x) ≡ false
    → dup_from (suc fuel) malloc i (some x) (some h) (some t) f
      ≡ dup_from fuel malloc
          (i + 1)
          r.next
          (some h)
          (some (malloc i))
          (linked_on (malloc i) r t rt f)
unfolding dup_from
dup_from-round fuel malloc i h t x r rt f e et nt nx tx =
    let f₁ : Links =
      update f (malloc i) (some (record { key = r.key; value = r.value; next = none })) in
    let et₁ : f₁ t ≡ some rt = rw nt et in
    let e₂ : linked_on (malloc i) r t rt f x ≡ some r = rw (tx, nx) e in
    rw (e, ◌>>=◌, append_link-behind (malloc i) h t rt f₁ et₁, e₂) refl

dup_from-Extends :
    (fuel : ℕ) (malloc : ℕ → ℕ) (i : ℕ) (head : Option ℕ) (h t : ℕ) (rt : Link) (xs : List ℕ)
    (c : Chain) (f : Links)
    → length xs ≤ fuel
    → Linked f head xs c
    → f t ≡ some rt
    → rt.next ≡ none
    → listed xs t ≡ false
    → listed (allocated malloc i (length xs)) t ≡ false
    → IsDistinct (allocated malloc i (length xs))
    → Apart xs (allocated malloc i (length xs))
    → (g : Links) × (dup_from fuel malloc i head (some h) (some t) f ≡ some (some h, g))
      × Extends f g t rt (allocated malloc i (length xs)) c
unfolding dup_from
dup_from-Extends fuel malloc i head h t rt [] [] f enough l et last off off' d apart =
    (f, rw l refl, ((rt, et, refl, refl, last), λ q ne k. refl))
dup_from-Extends fuel malloc i head h t rt [] (e ∷ c) f enough l et last off off' d apart = absurd l
dup_from-Extends fuel malloc i head h t rt (x ∷ xs) [] f enough l et last off off' d apart =
    absurd l
dup_from-Extends zero malloc i head h t rt (x ∷ xs) ((k, v) ∷ c) f enough l et last off off' d
      apart =
    absurd (omega (arith, enough))
dup_from-Extends (suc fuel) malloc i head h t rt (x ∷ xs) ((k, v) ∷ c) f enough
      (hd, (r, e, ek, ev, l)) et last off off' d apart =
    let n = malloc i in
    let ns = allocated malloc (i + 1) (length xs) in
    let rn : Link = record { key = r.key; value = r.value; next = none } in
    let f' = linked_on n r t rt f in
    let nt : (n == t) ≡ false = ground arith in
    let here = apart x (rw (==_refl x) refl) in
    let nx : (n == x) ≡ false = ground arith in
    let tx : (t == x) ≡ false = ground arith in
    let (g, run, ((rn', en, kn, vn, ln), same)) =
      dup_from-Extends fuel malloc (i + 1) r.next h n rn xs c f' (omega arith)
        (Linked-frame f f' r.next xs c (λ q m. ground (arith, apart q)) l) (ground arith) refl
        (ground (arith, apart n)) d.0 d.1 (λ q m. ground (arith, apart q)) in
    (
      g,
      rw hd (dup_from-round fuel malloc i h t x r rt f e et nt nx tx ∙ run),
      (
        (
          record rt { next = some n },
          same t (ground arith) (ground arith) ∙ rw (==_refl t) refl,
          refl,
          refl,
          (refl, (rn', en, kn ∙ ek, vn ∙ ev, ln)),
        ),
        λ q ne k. same q (ground arith) (ground arith) ∙ ground arith,
      ),
    )

-- The copy of a chain: its head and its nodes, at the new addresses alone.
abbrev pub Copies : Links → Links → Option ℕ → List ℕ → Chain → Type 0
Copies f g h ns c = Linked g h ns c × ((q : ℕ) → listed ns q ≡ false → g q ≡ f q)

pub chain_dup-Copies :
    (fuel : ℕ) (malloc : ℕ → ℕ) (head : Option ℕ) (xs : List ℕ) (c : Chain) (f : Links)
    → length xs ≤ fuel
    → Linked f head xs c
    → IsDistinct (allocated malloc 0 (length xs))
    → Apart xs (allocated malloc 0 (length xs))
    → (h : Option ℕ) × (g : Links) × (chain_dup fuel malloc head f ≡ some (h, g))
      × Copies f g h (allocated malloc 0 (length xs)) c
unfolding chain_dup dup_from append_link
chain_dup-Copies fuel malloc head [] [] f enough l d apart =
    (none, f, rw l refl, (refl, λ q k. refl))
chain_dup-Copies fuel malloc head [] (e ∷ c) f enough l d apart = absurd l
chain_dup-Copies fuel malloc head (x ∷ xs) [] f enough l d apart = absurd l
chain_dup-Copies zero malloc head (x ∷ xs) ((k, v) ∷ c) f enough l d apart =
    absurd (omega (arith, enough))
chain_dup-Copies (suc fuel) malloc head (x ∷ xs) ((k, v) ∷ c) f enough (hd, (r, e, ek, ev, l)) d
      apart =
    let n = malloc 0 in
    let rn : Link = record { key = r.key; value = r.value; next = none } in
    let f' : Links = update f n (some rn) in
    let here = apart x (rw (==_refl x) refl) in
    let nx : (n == x) ≡ false = ground arith in
    let (g, run, ((rn', en, kn, vn, ln), same)) =
      dup_from-Extends fuel malloc 1 r.next n n rn xs c f' (omega arith)
        (Linked-frame f f' r.next xs c (λ q m. ground (arith, apart q)) l) (rw (==_refl n) refl)
        refl (ground (arith, apart n)) d.0 d.1 (λ q m. ground (arith, apart q)) in
    (
      some n,
      g,
      rw (hd, e, ◌>>=◌, nx) run,
      (
        (refl, (rn', en, kn ∙ ek, vn ∙ ev, ln)),
        λ q m. same q (ground arith) (ground arith) ∙ ground arith,
      ),
    )
