-- ===== src/Gc/Marks.antt =====
-- lib/gc.c: what a completed marking step guarantees, and how such steps are put together.
use bhuna.Prelude.{
  ◌≡◌, refl, ◌∙◌, inl, inr, Bool, true, false, List, [], ◌∷◌, ◌++◌, arith, Bool-cases, All,
  All-append, All-mono,
}
use bhuna.Memory.{Memory}
use bhuna.Gc.Graph.{
  Node, node_eq, node_eq_sound, node_eq_refl, contains, links, is_marked, Reach, root, link, IsSame,
  IsSame-refl, links-IsSame, Grows,
}

pub contains-append_left :
    (xs ys : List Node) (x : Node) → contains xs x ≡ true → contains (xs ++ ys) x ≡ true
contains-append_left [] ys x h = cc
contains-append_left (y ∷ xs) ys x h = ground (arith, contains-append_left xs ys x)

pub contains-append_right :
    (xs ys : List Node) (x : Node) → contains ys x ≡ true → contains (xs ++ ys) x ≡ true
contains-append_right [] ys x h = h
contains-append_right (y ∷ xs) ys x h = ground (arith, contains-append_right xs ys x h)

pub Reach-mono :
    {m m' : Memory} (ts us : List Node)
    → ((x : Node) → links m x ≡ links m' x)
    → ((x : Node) → contains ts x ≡ true → Reach m' us x)
    → {x : Node} → Reach m ts x
    → Reach m' us x
Reach-mono ts us e h (root {x = x} r) = h x r
Reach-mono ts us e h (link {x = x} {y = y} r l) = link (Reach-mono ts us e h r) (rw (e x) at l)

-- From `m` to `m'` everything reachable from `ts` was marked, as far as it had no mark, and
-- nothing else.
pub record Marks (m m' : Memory) (ts : List Node) : Type 0 where
  pub same : IsSame m m'
  pub grows : Grows m m'
  pub hits : All (λ x. is_marked m' x ≡ true) ts
  pub closed :
      (x : Node)
      → is_marked m' x ≡ true
      → is_marked m x ≡ false
      → All (λ y. is_marked m' y ≡ true) (links m x)
  pub sound : (x : Node) → is_marked m' x ≡ true → is_marked m x ≡ false → Reach m ts x

pub IsSame-trans : {a b c : Memory} → IsSame a b → IsSame b c → IsSame a c
IsSame-trans f g = record {
  s_values = λ p. g.s_values p ∙ f.s_values p;
  activations = λ a. g.activations a ∙ f.activations a;
  sv_head = g.sv_head ∙ f.sv_head;
  a_head = g.a_head ∙ f.a_head;
}

contradict {ℓ} : {A : Type ℓ} (b : Bool) → b ≡ true → b ≡ false → A
contradict b t f = absurd (cc)

pub Marks-stay : (m : Memory) (ts : List Node) → All (λ x. is_marked m x ≡ true) ts → Marks m m ts
Marks-stay m ts h = record {
  same = IsSame-refl m;
  grows = λ x e. e;
  hits = h;
  closed = λ x e f. contradict (is_marked m x) e f;
  sound = λ x e f. contradict (is_marked m x) e f;
}

module _ {m₀ m₁ m₂ : Memory} {ts us : List Node} (f : Marks m₀ m₁ ts) (g : Marks m₁ m₂ us) where
  seq_closed :
      (x : Node)
      → is_marked m₂ x ≡ true
      → is_marked m₀ x ≡ false
      → All (λ y. is_marked m₂ y ≡ true) (links m₀ x)
  seq_closed x new old = elim (Bool-cases (is_marked m₁ x)) [
    | inl early ↦ All-mono _ _ g.grows (links m₀ x) (f.closed x early old)
    | inr late ↦ rw (links-IsSame f.same x) at (g.closed x new late)
  ]

  seq_sound : (x : Node) → is_marked m₂ x ≡ true → is_marked m₀ x ≡ false → Reach m₀ (ts ++ us) x
  seq_sound x new old = elim (Bool-cases (is_marked m₁ x)) [
    | inl early ↦
        Reach-mono ts (ts ++ us) (λ y. refl) (λ y h. root (contains-append_left ts us y h))
          (f.sound x early old)
    | inr late ↦
        Reach-mono us (ts ++ us) (links-IsSame f.same)
          (λ y h. root (contains-append_right ts us y h)) (g.sound x new late)
  ]

  pub Marks-append : Marks m₀ m₂ (ts ++ us)
  Marks-append = record {
    same = IsSame-trans f.same g.same;
    grows = λ x h. g.grows x (f.grows x h);
    hits = All-append _ ts us (All-mono _ _ g.grows ts f.hits) g.hits;
    closed = seq_closed;
    sound = seq_sound;
  }

-- Marking one object: only `x` changes.
pub record MarksOne (m m' : Memory) (x : Node) : Type 0 where
  pub same : IsSame m m'
  pub old : is_marked m x ≡ false
  pub new : is_marked m' x ≡ true
  pub others : (y : Node) → node_eq x y ≡ false → is_marked m' y ≡ is_marked m y

pub MarksOne-Grows : {m₀ m₁ : Memory} {x : Node} → MarksOne m₀ m₁ x → Grows m₀ m₁
MarksOne-Grows {x = x} f y h = elim (Bool-cases (node_eq x y)) [
  | inl same ↦ rw (← node_eq_sound x y same) f.new
  | inr other ↦ rw (f.others y other) h
]

module _ {m₀ m₁ m₂ : Memory} {x : Node} (f : MarksOne m₀ m₁ x) (g : Marks m₁ m₂ (links m₀ x)) where
  one_closed :
      (y : Node)
      → is_marked m₂ y ≡ true
      → is_marked m₀ y ≡ false
      → All (λ z. is_marked m₂ z ≡ true) (links m₀ y)
  one_closed y new old = elim (Bool-cases (node_eq x y)) [
    | inl same ↦ rw (← node_eq_sound x y same) g.hits
    | inr other ↦ rw (links-IsSame f.same y) at (g.closed y new (f.others y other ∙ old))
  ]

  one_sound : (y : Node) → is_marked m₂ y ≡ true → is_marked m₀ y ≡ false → Reach m₀ (x ∷ []) y
  one_sound y new old = elim (Bool-cases (node_eq x y)) [
    | inl same ↦ root (rw same refl)
    | inr other ↦
        Reach-mono (links m₀ x) (x ∷ []) (links-IsSame f.same)
          (λ z h. link (root (rw (node_eq_refl x) refl)) h) (g.sound y new (f.others y other ∙ old))
  ]

  pub Marks-one : Marks m₀ m₂ (x ∷ [])
  Marks-one = record {
    same = IsSame-trans f.same g.same;
    grows = λ y h. g.grows y (MarksOne-Grows f y h);
    hits = (g.grows x f.new, tt);
    closed = one_closed;
    sound = one_sound;
  }
