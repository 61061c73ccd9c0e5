-- ===== src/Types/Sets.antt =====
-- lib/type.c: structural equality, what the parser asks of a type, and the types of two branches.
use bhuna.Prelude.{
  ℕ, zero, suc, Bool, true, false, ◌&&◌, ◌||◌, Option, none, some, List, [], ◌∷◌, if◌then◌else◌,
  ◌>>=◌,
}
use bhuna.Types.{
  TypeClass, void, closure, set, TypeCells, type_new, type_representative, type_union,
  type_is_known, is_var, parts, same_simple, same_tag,
}

-- `&&` between calls that read the cells.
unfoldable pub equal_all :
    (Option ℕ → Option ℕ → Option Bool) → List (Option ℕ × Option ℕ) → Option Bool
equal_all equal [] = some true
equal_all equal ((a, b) ∷ rest) =
    equal a b >>= λ same. if same then equal_all equal rest else some false

-- Two classes; two variables are equal whatever they are.
abbrev pub equal_classes : (Option ℕ → Option ℕ → Option Bool) → TypeClass → TypeClass → Option Bool
equal_classes equal c d = elim (same_tag c d) [
  | some same ↦ some same
  | none ↦ elim (parts c d) [
    | some ps ↦ equal_all equal ps
    | none ↦ some (is_var c && is_var d || same_simple c d)
  ]
]

unfoldable pub type_equal : ℕ → Option ℕ → Option ℕ → TypeCells → Option Bool
unfolding equal_all
type_equal zero a b f = none
type_equal (suc k) none none f = some true
type_equal (suc k) none (some b) f = some false
type_equal (suc k) (some a) none f = some false
type_equal (suc k) (some a) (some b) f =
    f a >>= λ c. f b >>= λ d. equal_classes (λ m n. type_equal k m n f) c.tclass d.tclass

-- The class of the representative.
unfoldable pub class_of : ℕ → ℕ → TypeCells → Option TypeClass
unfolding type_representative
class_of k t f = type_representative k t f >>= λ r. f r >>= λ c. some c.tclass

abbrev pub is_void : TypeClass → Bool
is_void void = true
is_void _ = false

abbrev pub is_routine : TypeClass → Bool
is_routine (closure d r) = true
is_routine _ = false

abbrev pub is_set : TypeClass → Bool
is_set (set l r) = true
is_set _ = false

unfoldable pub type_is_possibly_routine : ℕ → ℕ → TypeCells → Option Bool
unfolding class_of
type_is_possibly_routine k t f = class_of k t f >>= λ c. some (is_var c || is_routine c)

unfoldable pub type_is_possibly_void : ℕ → ℕ → TypeCells → Option Bool
unfolding class_of
type_is_possibly_void k t f = class_of k t f >>= λ c. some (is_var c || is_void c)

unfoldable pub type_is_void : ℕ → ℕ → TypeCells → Option Bool
unfolding class_of
type_is_void k t f = class_of k t f >>= λ c. some (is_void c)

unfoldable pub type_is_set : ℕ → ℕ → TypeCells → Option Bool
unfolding class_of
type_is_set k t f = class_of k t f >>= λ c. some (is_set c)

-- The classes of a set are searched from the left, until one is void.
abbrev pub class_contains_void : (ℕ → Option Bool) → TypeClass → Option Bool
class_contains_void contains void = some true
class_contains_void contains (set l r) =
    l >>= λ l. contains l >>= λ found. if found then some true else (r >>= λ r. contains r)
class_contains_void contains _ = some false

unfoldable pub type_set_contains_void : ℕ → ℕ → TypeCells → Option Bool
unfolding class_of
type_set_contains_void zero t f = none
type_set_contains_void (suc k) t f =
    class_of k t f >>= λ c. class_contains_void (λ u. type_set_contains_void k u f) c

-- `p` is the address for a new type. The result is the type with the cells.
unfoldable pub type_new_set : ℕ → ℕ → ℕ → ℕ → TypeCells → Option (ℕ × TypeCells)
unfolding type_representative type_equal type_is_known type_union type_new
type_new_set k p left right f = type_representative k left f >>= λ s.
    type_representative k right f >>= λ t. type_equal k (some s) (some t) f >>= λ same.
    type_is_known k left f >>= λ known_left. type_is_known k right f >>= λ known_right.
    if same
    then some (left, f)
    else if known_left && known_right
    then some (p, type_new p (set (some left) (some right)) f)
    else (type_union k left right f >>= λ g. some (left, g))
