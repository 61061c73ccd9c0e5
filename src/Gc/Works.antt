-- ===== src/Gc/Works.antt =====
-- lib/gc.c: the marking functions return, given fuel for the objects left to mark, and mark what is
-- reachable.
use bhuna.Prelude.{
  ℕ, suc, ◌<◌, ◌≡◌, refl, sym, ◌∙◌, true, false, Option, none, some, List, [], ◌∷◌, ◌++◌, arith,
  ==_refl, All, All-append_left, All-append_right, All-mono, ◌>>=◌,
}
use bhuna.Value.{Value}
use bhuna.Memory.{Payload, string, list, error, closure, dict, SValue, Activation, Memory}
use bhuna.Gc.{set_s_value, set_activation, mark_all, value_mark, activation_mark}
use bhuna.Gc.Graph.{
  Node, sv, ar, node_eq, contains, ref, refs, frame, payload_links, links, is_allocated, is_marked,
  IsSame, links-IsSame, is_allocated-IsSame, is_some, clear_s_value, clear_activation,
  count_unmarked, count_unmarked_mono, count_unmarked-lt,
}
use bhuna.Gc.Marks.{Marks, Marks-stay, Marks-append, MarksOne, MarksOne-Grows, Marks-one}

-- No object points outside the allocated ones, and `all` lists every allocated object.
pub record IsReady (all : List Node) (m : Memory) : Type 0 where
  pub pointers :
      (x : Node) → is_allocated m x ≡ true → All (λ y. is_allocated m y ≡ true) (links m x)
  pub listed : (x : Node) → is_allocated m x ≡ true → contains all x ≡ true

pub IsReady-IsSame :
    {all : List Node} {m m' : Memory} → IsSame m m' → IsReady all m → IsReady all m'
IsReady-IsSame {m = m} {m' = m'} same ready = record {
  pointers = λ x h. rw (links-IsSame same x) (
      All-mono (λ y. is_allocated m y ≡ true) (λ y. is_allocated m' y ≡ true)
        (λ y k. is_allocated-IsSame same y ∙ k) (links m x)
        (ready.pointers x (sym (is_allocated-IsSame same x) ∙ h)));
  listed = λ x h. ready.listed x (sym (is_allocated-IsSame same x) ∙ h);
}

-- On a ready memory with fewer than `n` objects left to mark, `step` returns, and marks from `ts`.
unfoldable pub Works : List Node → ℕ → (Memory → Option Memory) → List Node → Type 0
Works all n step ts =
    (m : Memory)
    → IsReady all m
    → All (λ x. is_allocated m x ≡ true) ts
    → count_unmarked all m < n
    → (m' : Memory) × (step m ≡ some m') × Marks m m' ts

module _ (all : List Node) where
  pub Works-nothing : (n : ℕ) → Works all n some []
  unfolding Works
  Works-nothing n m ready h lt = (m, refl, Marks-stay m [] tt)

  pub Works-append :
      (n : ℕ) (f g : Memory → Option Memory) (ts us : List Node)
      → Works all n f ts
      → Works all n g us
      → Works all n (λ m. f m >>= g) (ts ++ us)
  unfolding Works
  Works-append n f g ts us wf wg m ready h lt =
      let (m₁, e₁, k₁) = wf m ready (All-append_left _ ts us h) lt in
      let (m₂, e₂, k₂) =
        wg m₁ (IsReady-IsSame k₁.same ready)
          (All-mono (λ y. is_allocated m y ≡ true) (λ y. is_allocated m₁ y ≡ true)
            (λ y k. is_allocated-IsSame k₁.same y ∙ k) us (All-append_right _ ts us h))
          (omega (arith, count_unmarked_mono all m m₁ k₁.grows)) in
      (m₂, rw (e₁, ◌>>=◌) e₂, Marks-append k₁ k₂)

  pub mark_all-Works :
      (n : ℕ) (mark : Value → Memory → Option Memory)
      → ((v : Value) → Works all n (mark v) (ref v))
      → (vs : List Value) → Works all n (mark_all mark vs) (refs vs)
  unfolding mark_all
  mark_all-Works n mark w [] = Works-nothing n
  mark_all-Works n mark w (v ∷ vs) =
      Works-append n (mark v) (mark_all mark vs) (ref v) (refs vs) (w v)
        (mark_all-Works n mark w vs)

  -- One object is marked, then what it links to.
  pub Works-one :
      (n : ℕ) (x : Node) (m m₁ : Memory) (step : Memory → Option Memory)
      → IsReady all m
      → is_allocated m x ≡ true
      → MarksOne m m₁ x
      → Works all n step (links m x)
      → count_unmarked all m < suc n
      → (m' : Memory) × (step m₁ ≡ some m') × Marks m m' (x ∷ [])
  unfolding Works
  Works-one n x m m₁ step ready here one w lt =
      let grows = MarksOne-Grows one in
      let (m', e, k) =
        w m₁ (IsReady-IsSame one.same ready)
          (All-mono (λ y. is_allocated m y ≡ true) (λ y. is_allocated m₁ y ≡ true)
            (λ y k. is_allocated-IsSame one.same y ∙ k) (links m x) (ready.pointers x here))
          (omega
            (arith, count_unmarked-lt all m m₁ x grows (ready.listed x here) one.old one.new)) in
      (m', e, Marks-one one k)

pub marks_s_value :
    (p : ℕ) (s : SValue) (m : Memory)
    → m.s_value p ≡ some s
    → s.marked ≡ false
    → MarksOne m (set_s_value p (some (record s { marked = true })) m) (sv p)
unfolding is_marked
marks_s_value p s m e f = record {
  same = record {
    s_values = λ q. ground arith;
    activations = λ a. refl;
    sv_head = refl;
    a_head = refl;
  };
  old = rw e f;
  new = rw (==_refl p) refl;
  others = unmoved;
}
  where
    unmoved :
        (y : Node)
        → node_eq (sv p) y ≡ false
        → is_marked (set_s_value p (some (record s { marked = true })) m) y ≡ is_marked m y
    unmoved (sv q) h = rw h refl
    unmoved (ar a) h = refl

pub marks_activation :
    (a : ℕ) (r : Activation) (m : Memory)
    → m.activation a ≡ some r
    → r.marked ≡ false
    → MarksOne m (set_activation a (some (record r { marked = true })) m) (ar a)
unfolding is_marked
marks_activation a r m e f = record {
  same = record {
    s_values = λ q. refl;
    activations = λ b. ground arith;
    sv_head = refl;
    a_head = refl;
  };
  old = rw e f;
  new = rw (==_refl a) refl;
  others = unmoved;
}
  where
    unmoved :
        (y : Node)
        → node_eq (ar a) y ≡ false
        → is_marked (set_activation a (some (record r { marked = true })) m) y ≡ is_marked m y
    unmoved (sv q) h = refl
    unmoved (ar b) h = rw h refl

-- What follows the mark of an object, by its contents.
unfoldable pub after_s_value : ℕ → SValue → Memory → Option Memory
after_s_value n s m = elim s.payload [
  | list l ↦ mark_all (value_mark n) l m
  | closure c ↦ activation_mark n c.ar m
  | _ ↦ some m
]

unfoldable pub after_activation : ℕ → Activation → Memory → Option Memory
after_activation n r m =
    activation_mark n r.caller m
    >>= activation_mark n r.enclosing
    >>= mark_all (value_mark n) r.values

pub links-s_value :
    (m : Memory) (p : ℕ) (s : SValue)
    → m.s_value p ≡ some s
    → links m (sv p) ≡ payload_links s.payload
unfolding links
links-s_value m p s e = rw e refl

pub links-activation :
    (m : Memory) (a : ℕ) (r : Activation)
    → m.activation a ≡ some r
    → links m (ar a) ≡ (frame r.caller ++ frame r.enclosing) ++ refs r.values
unfolding links
links-activation m a r e = rw e refl

cleared_s_value :
    (o : Option SValue) → is_some (clear_s_value o) ≡ true → (s : SValue) × (o ≡ some s)
cleared_s_value none h = cc
cleared_s_value (some s) h = (s, refl)

cleared_activation :
    (o : Option Activation) → is_some (clear_activation o) ≡ true → (r : Activation) × (o ≡ some r)
cleared_activation none h = cc
cleared_activation (some r) h = (r, refl)

pub allocated-s_value :
    (m : Memory) (p : ℕ) → is_allocated m (sv p) ≡ true → (s : SValue) × (m.s_value p ≡ some s)
unfolding is_allocated
allocated-s_value m p h = cleared_s_value (m.s_value p) h

pub allocated-activation :
    (m : Memory) (a : ℕ)
    → is_allocated m (ar a) ≡ true
    → (r : Activation) × (m.activation a ≡ some r)
unfolding is_allocated
allocated-activation m a h = cleared_activation (m.activation a) h

module _ (all : List Node) where
  pub after_s_value-Works :
      (n : ℕ) (s : SValue)
      → ((v : Value) → Works all n (value_mark n v) (ref v))
      → ((a : Option ℕ) → Works all n (activation_mark n a) (frame a))
      → Works all n (after_s_value n s) (payload_links s.payload)
  unfolding after_s_value
  after_s_value-Works n s wv wa = go s.payload
    where
      go :
          (x : Payload)
          → Works all n
              (λ m. elim x [
                | list l ↦ mark_all (value_mark n) l m
                | closure c ↦ activation_mark n c.ar m
                | _ ↦ some m
              ])
              (payload_links x)
      go (list l) = mark_all-Works all n (value_mark n) wv l
      go (closure c) = wa c.ar
      go (string t) = Works-nothing all n
      go (error t) = Works-nothing all n
      go (dict d) = Works-nothing all n

  pub after_activation-Works :
      (n : ℕ) (r : Activation)
      → ((v : Value) → Works all n (value_mark n v) (ref v))
      → ((a : Option ℕ) → Works all n (activation_mark n a) (frame a))
      → Works all n (after_activation n r) ((frame r.caller ++ frame r.enclosing) ++ refs r.values)
  unfolding after_activation
  after_activation-Works n r wv wa =
      Works-append all n _ _ (frame r.caller ++ frame r.enclosing) (refs r.values)
        (Works-append all n _ _ (frame r.caller) (frame r.enclosing) (wa r.caller) (wa r.enclosing))
        (mark_all-Works all n (value_mark n) wv r.values)
