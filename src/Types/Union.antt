-- ===== src/Types/Union.antt =====
-- lib/type.c: a union merges two classes, and changes no other.
use bhuna.Prelude.{
  ℕ, zero, suc, ◌≡◌, ◌≢◌, inl, inr, refl, sym, subst, ◌∙◌, ap, none, some, ◌==◌, ==_refl, ==_ne,
  ==_iff, if◌then◌else◌, ◌>>=◌, Bool-cases, Option-cases, arith,
}
use bhuna.Memory.{update}
use bhuna.Types.{TypeCell, TypeCells, type_representative, is_var, type_union}

rep_root :
    (k q : ℕ) (c : TypeCell) (f : TypeCells)
    → f q ≡ some c
    → c.unifier ≡ none
    → type_representative (suc k) q f ≡ some q
unfolding type_representative
rep_root k q c f e u = rw (e, ◌>>=◌, u) refl

rep_step :
    (k q p : ℕ) (c : TypeCell) (f : TypeCells)
    → f q ≡ some c
    → c.unifier ≡ some p
    → type_representative (suc k) q f ≡ type_representative k p f
unfolding type_representative
rep_step k q p c f e u = rw (e, ◌>>=◌, u) refl

rep_lost : (k q r : ℕ) (f : TypeCells) → f q ≡ none → type_representative (suc k) q f ≢ some r
unfolding type_representative
rep_lost k q r f e h = ground arith

rep_zero : (q r : ℕ) (f : TypeCells) → type_representative 0 q f ≢ some r
unfolding type_representative
rep_zero q r f h = cc

some_eq : (a b : ℕ) → some a ≡ some b → a ≡ b
some_eq a b h = cc

-- A representative has no unifier.
pub representative_cell :
    (k q r : ℕ) (f : TypeCells)
    → type_representative k q f ≡ some r
    → (c : TypeCell) × (f r ≡ some c) × (c.unifier ≡ none)
representative_cell zero q r f h = absurd (rep_zero q r f h)
representative_cell (suc k) q r f h = elim (Option-cases (f q)) [
  | inl lost ↦ absurd (rep_lost k q r f lost h)
  | inr (c, e) ↦ elim (Option-cases c.unifier) [
    | inl root ↦ (c, ap f (sym (some_eq q r (sym (rep_root k q c f e root) ∙ h))) ∙ e, root)
    | inr (p, u) ↦ representative_cell k p r f (sym (rep_step k q p c f e u) ∙ h)
  ]
]

-- The cells after the representative `l` was linked to `w`.
abbrev linked : ℕ → ℕ → TypeCell → TypeCells → TypeCells
linked l w c f = update f l (some (record c { unifier = some w }))

-- The new representative: `w` where it was `l`.
abbrev pub moved : ℕ → ℕ → ℕ → ℕ
moved l w r = if l == r then w else r

linked-rep :
    (l w : ℕ) (c d : TypeCell) (f : TypeCells)
    → l ≢ w
    → f l ≡ some c
    → c.unifier ≡ none
    → f w ≡ some d
    → d.unifier ≡ none
    → (k q r : ℕ) → type_representative k q f ≡ some r
    → type_representative (suc k) q (linked l w c f) ≡ some (moved l w r)
linked-rep l w c d f ne el ul ew uw zero q r h = absurd (rep_zero q r f h)
linked-rep l w c d f ne el ul ew uw (suc k) q r h =
    let there : linked l w c f w ≡ some d = rw (==_ne l w ne) ew in
    let here : linked l w c f l ≡ some (record c { unifier = some w }) = rw (==_refl l) refl in
    elim (Bool-cases (l == q)) [
      | inl same ↦
          let e : l ≡ q = (==_iff l q).0 same in
          let e' : l ≡ r = e ∙ some_eq q r (sym (rep_root k q c f (ap f (sym e) ∙ el) ul) ∙ h) in
          subst (λ z. type_representative (suc (suc k)) z (linked l w c f) ≡ some (moved l w r)) e
            (rep_step (suc k) l w (record c { unifier = some w }) (linked l w c f) here refl
              ∙ rep_root k w d (linked l w c f) there uw
              ∙ subst (λ z. some w ≡ some (moved l w z)) e' (rw (==_refl l) refl))
      | inr other ↦ elim (Option-cases (f q)) [
        | inl lost ↦ absurd (rep_lost k q r f lost h)
        | inr (b, e) ↦
            let at : linked l w c f q ≡ some b = rw other e in
            elim (Option-cases b.unifier) [
              | inl root ↦
                  let e' : q ≡ r = some_eq q r (sym (rep_root k q b f e root) ∙ h) in
                  rep_root (suc k) q b (linked l w c f) at root
                  ∙ subst (λ z. some q ≡ some (moved l w z)) e' (rw other refl)
              | inr (p, u) ↦
                  rep_step (suc k) q p b (linked l w c f) at u
                  ∙ linked-rep l w c d f ne el ul ew uw k p r (sym (rep_step k q p b f e u) ∙ h)
            ]
      ]
    ]

-- The union of two types whose representatives `s` and `t` differ links one of the two, the loser, to
-- the other, the winner. The winner is `s` unless that is a variable. With one more round of fuel every
-- type whose representative was the loser now has the winner, and any other type has the one it had.
pub type_union-merges :
    (k m n s t : ℕ) (c : TypeCell) (f : TypeCells)
    → type_representative k m f ≡ some s
    → type_representative k n f ≡ some t
    → s ≢ t
    → f s ≡ some c
    → (loser winner : ℕ) × ((loser ≡ (if is_var c.tclass then s else t))
        × (winner ≡ (if is_var c.tclass then t else s)))
      × ((f' : TypeCells) × (type_union k m n f ≡ some f')
          × ((i q r : ℕ)
              → type_representative i q f ≡ some r
              → type_representative (suc i) q f' ≡ some (if loser == r then winner else r)))
unfolding type_union
type_union-merges k m n s t c f hs ht ne e =
    let (c', e', u') = representative_cell k m s f hs in
    let (d, ed, ud) = representative_cell k n t f ht in
    elim (Bool-cases (is_var c.tclass)) [
      | inl v ↦ (
        s,
        t,
        (rw v refl, rw v refl),
        (
          linked s t c' f,
          rw (hs, ◌>>=◌, ht, e, v) (ap (λ o. o >>= λ c. some (linked s t c f)) (sym e ∙ e')),
          linked-rep s t c' d f ne e' u' ed ud,
        ),
      )
      | inr v ↦ (
        t,
        s,
        (rw v refl, rw v refl),
        (
          linked t s d f,
          rw (hs, ◌>>=◌, ht, e, v, ed) refl,
          linked-rep t s d c' f (λ x. ne (sym x)) ed ud e' u',
        ),
      )
    ]
