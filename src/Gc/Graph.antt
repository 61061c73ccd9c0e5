-- ===== src/Gc/Graph.antt =====
-- lib/gc.c: the objects as a graph. What the marking functions follow, what they have marked, and
-- how many objects are left to mark.
use bhuna.Prelude.{
  ℕ, ◌+◌, ◌≤◌, ◌<◌, ◌≡◌, refl, Bool, true, false, ◌||◌, Option, none, some, List, [], ◌∷◌, ◌++◌,
  arith, ◌==◌, if◌then◌else◌,
}
use bhuna.Value.{Value, structured}
use bhuna.Memory.{Payload, list, closure, SValue, Activation, Memory}

pub data Node : Type 0 where
  sv : ℕ → Node
  ar : ℕ → Node

abbrev pub node_eq : Node → Node → Bool
node_eq (sv p) (sv q) = p == q
node_eq (ar a) (ar b) = a == b
node_eq _ _ = false

pub node_eq_sound : (x y : Node) → node_eq x y ≡ true → x ≡ y
node_eq_sound (sv p) (sv q) h = ground arith
node_eq_sound (ar a) (ar b) h = ground arith
node_eq_sound (sv p) (ar b) h = cc
node_eq_sound (ar a) (sv q) h = cc

pub node_eq_refl : (x : Node) → node_eq x x ≡ true
node_eq_refl (sv p) = ground arith
node_eq_refl (ar a) = ground arith

abbrev pub contains : List Node → Node → Bool
contains [] x = false
contains (y ∷ ys) x = node_eq y x || contains ys x

-- A cell without its mark.
abbrev pub clear_s_value : Option SValue → Option SValue
clear_s_value none = none
clear_s_value (some s) = some (record s { marked = false })

abbrev pub clear_activation : Option Activation → Option Activation
clear_activation none = none
clear_activation (some r) = some (record r { marked = false })

abbrev pub ref : Value → List Node
ref (structured k p) = sv p ∷ []
ref _ = []

abbrev pub refs : List Value → List Node
refs [] = []
refs (v ∷ vs) = ref v ++ refs vs

abbrev pub frame : Option ℕ → List Node
frame none = []
frame (some a) = ar a ∷ []

abbrev pub payload_links : Payload → List Node
payload_links (list l) = refs l
payload_links (closure c) = frame c.ar
payload_links _ = []

abbrev pub s_value_links : Option SValue → List Node
s_value_links none = []
s_value_links (some s) = payload_links s.payload

abbrev pub activation_links : Option Activation → List Node
activation_links none = []
activation_links (some r) = (frame r.caller ++ frame r.enclosing) ++ refs r.values

-- The objects that marking an object goes on to.
unfoldable pub links : Memory → Node → List Node
links m (sv p) = s_value_links (clear_s_value (m.s_value p))
links m (ar a) = activation_links (clear_activation (m.activation a))

abbrev pub is_some {ℓ} : {A : Type ℓ} → Option A → Bool
is_some none = false
is_some (some _) = true

unfoldable pub is_allocated : Memory → Node → Bool
is_allocated m (sv p) = is_some (clear_s_value (m.s_value p))
is_allocated m (ar a) = is_some (clear_activation (m.activation a))

abbrev pub s_value_marked : Option SValue → Bool
s_value_marked none = false
s_value_marked (some s) = s.marked

abbrev pub activation_marked : Option Activation → Bool
activation_marked none = false
activation_marked (some r) = r.marked

unfoldable pub is_marked : Memory → Node → Bool
is_marked m (sv p) = s_value_marked (m.s_value p)
is_marked m (ar a) = activation_marked (m.activation a)

-- The objects that can be reached from those of `ts`.
pub data Reach (m : Memory) (ts : List Node) : Node → Type 0 where
  root : {x : Node} → contains ts x ≡ true → Reach m ts x
  link : {x y : Node} → Reach m ts x → contains (links m x) y ≡ true → Reach m ts y

-- The two memories differ in marks only.
pub record IsSame (m m' : Memory) : Type 0 where
  pub s_values : (p : ℕ) → clear_s_value (m'.s_value p) ≡ clear_s_value (m.s_value p)
  pub activations : (a : ℕ) → clear_activation (m'.activation a) ≡ clear_activation (m.activation a)
  pub sv_head : m'.sv_head ≡ m.sv_head
  pub a_head : m'.a_head ≡ m.a_head

pub IsSame-refl : (m : Memory) → IsSame m m
IsSame-refl m = record {
  s_values = λ p. refl;
  activations = λ a. refl;
  sv_head = refl;
  a_head = refl;
}

module _ {m m' : Memory} (same : IsSame m m') where
  pub links-IsSame : (x : Node) → links m' x ≡ links m x
  unfolding links
  links-IsSame (sv p) = rw (same.s_values p) refl
  links-IsSame (ar a) = rw (same.activations a) refl

  pub is_allocated-IsSame : (x : Node) → is_allocated m' x ≡ is_allocated m x
  unfolding is_allocated
  is_allocated-IsSame (sv p) = rw (same.s_values p) refl
  is_allocated-IsSame (ar a) = rw (same.activations a) refl

-- The objects of a list that have no mark yet.
unfoldable pub count_unmarked : List Node → Memory → ℕ
count_unmarked [] m = 0
count_unmarked (x ∷ xs) m = (if is_marked m x then 0 else 1) + count_unmarked xs m

abbrev pub Grows : Memory → Memory → Type 0
Grows m m' = (x : Node) → is_marked m x ≡ true → is_marked m' x ≡ true

pub count_unmarked_mono :
    (xs : List Node) (m m' : Memory) → Grows m m' → count_unmarked xs m' ≤ count_unmarked xs m
unfolding count_unmarked
count_unmarked_mono [] m m' g = omega arith
count_unmarked_mono (x ∷ xs) m m' g = ground (arith, g x, count_unmarked_mono xs m m' g)

pub count_unmarked-lt :
    (xs : List Node) (m m' : Memory) (x : Node)
    → Grows m m'
    → contains xs x ≡ true
    → is_marked m x ≡ false
    → is_marked m' x ≡ true
    → count_unmarked xs m' < count_unmarked xs m
unfolding count_unmarked
count_unmarked-lt [] m m' x g h old new = cc
count_unmarked-lt (y ∷ ys) m m' x g h old new =
    ground
      (arith, node_eq_sound y x, g y, count_unmarked_mono ys m m' g, count_unmarked-lt ys m m' x g)
