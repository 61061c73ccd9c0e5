-- ===== src/Gc/Outcome.antt =====
-- lib/gc.c: the cells after marking from nothing and both sweeps.
use bhuna.Prelude.{
  ℕ, ◌≡◌, ◌⊎◌, refl, inl, inr, Bool, true, false, ◌&&◌, Option, none, some, List, [], ◌∷◌, arith,
  Bool-cases, if◌then◌else◌, All,
}
use bhuna.Prelude.Distinct.{listed}
use bhuna.Memory.{SValue, Activation, Memory}
use bhuna.Gc.Graph.{
  Node, node_eq, node_eq_sound, sv, ar, contains, is_marked, links, Reach, root, link, is_some,
  IsSame, clear_s_value, clear_activation,
}
use bhuna.Gc.Marks.{Marks}
use bhuna.Gc.Sweep.{swept_s_value, swept_activation, SweepsSValues, SweepsActivations}

-- The cells after a collection, by those after marking (`m₁`).
pub record Outcome (m m₁ m' : Memory) : Type 0 where
  pub s_cells :
      (q : ℕ)
      → m'.s_value q ≡ (if listed m.sv_head q then swept_s_value (m₁.s_value q) else m₁.s_value q)
  pub s_chain :
      (q : ℕ) → listed m'.sv_head q ≡ (listed m.sv_head q && is_some (swept_s_value (m₁.s_value q)))
  pub a_cells :
      (q : ℕ)
      → m'.activation q
        ≡ (if listed m.a_head q then swept_activation (m₁.activation q) else m₁.activation q)
  pub a_chain :
      (q : ℕ)
      → listed m'.a_head q ≡ (listed m.a_head q && is_some (swept_activation (m₁.activation q)))

pub is_some_clear_s :
    (o o' : Option SValue) → clear_s_value o' ≡ clear_s_value o → is_some o' ≡ is_some o
is_some_clear_s none none e = refl
is_some_clear_s none (some s) e = cc
is_some_clear_s (some s) none e = cc
is_some_clear_s (some s) (some t) e = refl

pub is_some_clear_a :
    (o o' : Option Activation) → clear_activation o' ≡ clear_activation o → is_some o' ≡ is_some o
is_some_clear_a none none e = refl
is_some_clear_a none (some s) e = cc
is_some_clear_a (some s) none e = cc
is_some_clear_a (some s) (some t) e = refl

pub Outcome-sweeps :
    (m m₁ m₂ m' : Memory)
    → IsSame m m₁
    → SweepsActivations m₁.a_head [] m₁ m₂
    → SweepsSValues m₂.sv_head [] m₂ m'
    → Outcome m m₁ m'
Outcome-sweeps m m₁ m₂ m' same w₂ w₃ = record {
  s_cells = λ q. rw (w₂.sv_head, w₂.s_value, same.sv_head) at (w₃.cells q);
  s_chain = λ q. rw (w₂.sv_head, w₂.s_value, same.sv_head) at (w₃.chain q);
  a_cells = λ q. rw (← w₃.activation, same.a_head) at (w₂.cells q);
  a_chain = λ q. rw (← w₃.a_head, same.a_head) at (w₂.chain q);
}

-- In a marking from nothing, the marked objects are those reached.
module _ {m m' : Memory} {ts : List Node} (k : Marks m m' ts)
    (fresh : (x : Node) → is_marked m x ≡ false) where
  contains-All :
      (P : Node → Type 0) (xs : List Node) (x : Node) → contains xs x ≡ true → All P xs → P x
  contains-All P [] x h w = cc
  contains-All P (y ∷ ys) x h w = elim (Bool-cases (node_eq y x)) [
    | inl same ↦ rw (← node_eq_sound y x same) w.0
    | inr other ↦ contains-All P ys x (ground arith) w.1
  ]

  Reach-marked : {x : Node} → Reach m ts x → is_marked m' x ≡ true
  Reach-marked (root {x = x} h) = contains-All (λ y. is_marked m' y ≡ true) ts x h k.hits
  Reach-marked (link {x = x} {y = y} r h) =
      contains-All (λ z. is_marked m' z ≡ true) (links m x) y h
        (k.closed x (Reach-marked r) (fresh x))

  not_Reach-marked : (x : Node) → ¬ Reach m ts x → is_marked m' x ≡ false
  not_Reach-marked x far = elim (Bool-cases (is_marked m' x)) [
    | inl near ↦ absurd (far (k.sound x near (fresh x)))
    | inr left ↦ left
  ]

-- A marked cell after marking, by its cell before.
marked_s_value :
    (m m₁ : Memory) (p : ℕ) (s : SValue) (b : Bool)
    → IsSame m m₁
    → is_marked m (sv p) ≡ false
    → m.s_value p ≡ some s
    → is_marked m₁ (sv p) ≡ b
    → (m₁.s_value p ≡ some (record s { marked = b })) × (s.marked ≡ false)
unfolding is_marked
marked_s_value m m₁ p s b same fresh e h = ground (arith, same.s_values p)

marked_activation :
    (m m₁ : Memory) (a : ℕ) (r : Activation) (b : Bool)
    → IsSame m m₁
    → is_marked m (ar a) ≡ false
    → m.activation a ≡ some r
    → is_marked m₁ (ar a) ≡ b
    → (m₁.activation a ≡ some (record r { marked = b })) × (r.marked ≡ false)
unfolding is_marked
marked_activation m m₁ a r b same fresh e h = ground (arith, same.activations a)

module _ {ts : List Node} {m m₁ m' : Memory} (k : Marks m m₁ ts) (o : Outcome m m₁ m')
    (fresh : (x : Node) → is_marked m x ≡ false) where
  pub keep_s :
      (p : ℕ) (s : SValue)
      → m.s_value p ≡ some s
      → listed m.sv_head p ≡ true
      → Reach m ts (sv p) ⊎ (s.permanent ≡ true)
      → (m'.s_value p ≡ some s) × (listed m'.sv_head p ≡ true)
  keep_s p s e on (inl r) =
      let q = marked_s_value m m₁ p s true k.same (fresh (sv p)) e (Reach-marked k fresh r) in
      ground (arith, o.s_cells p, o.s_chain p)
  keep_s p s e on (inr h) =
      let q = marked_s_value m m₁ p s (is_marked m₁ (sv p)) k.same (fresh (sv p)) e refl in
      ground (arith, o.s_cells p, o.s_chain p)

  pub free_s :
      (p : ℕ) (s : SValue)
      → m.s_value p ≡ some s
      → listed m.sv_head p ≡ true
      → ¬ Reach m ts (sv p)
      → s.permanent ≡ false
      → (m'.s_value p ≡ none) × (listed m'.sv_head p ≡ false)
  free_s p s e on far h =
      let q =
        marked_s_value m m₁ p s false k.same (fresh (sv p)) e
          (not_Reach-marked k fresh (sv p) far) in
      ground (arith, o.s_cells p, o.s_chain p)

  pub keep_a :
      (a : ℕ) (r : Activation)
      → m.activation a ≡ some r
      → listed m.a_head a ≡ true
      → Reach m ts (ar a)
      → (m'.activation a ≡ some r) × (listed m'.a_head a ≡ true)
  keep_a a r e on w =
      let q = marked_activation m m₁ a r true k.same (fresh (ar a)) e (Reach-marked k fresh w) in
      ground (arith, o.a_cells a, o.a_chain a)

  pub free_a :
      (a : ℕ) (r : Activation)
      → m.activation a ≡ some r
      → listed m.a_head a ≡ true
      → ¬ Reach m ts (ar a)
      → (m'.activation a ≡ none) × (listed m'.a_head a ≡ false)
  free_a a r e on far =
      let q =
        marked_activation m m₁ a r false k.same (fresh (ar a)) e
          (not_Reach-marked k fresh (ar a) far) in
      ground (arith, o.a_cells a, o.a_chain a)

  pub stale_a :
      (a : ℕ) (r : Activation)
      → m.activation a ≡ some r
      → listed m.a_head a ≡ false
      → Reach m ts (ar a)
      → m'.activation a ≡ some (record r { marked = true })
  stale_a a r e off w =
      let q = marked_activation m m₁ a r true k.same (fresh (ar a)) e (Reach-marked k fresh w) in
      ground (arith, o.a_cells a)
