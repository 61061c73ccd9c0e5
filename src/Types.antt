-- ===== src/Types.antt =====
-- lib/type.c, lib/type.h: types as cells with unifiers. A cell's `unifier` leads towards the
-- representative of its class; walks along it and down a type take fuel, and `none` is spent fuel or a
-- bad pointer.
pub mod Union
pub mod Sets
use bhuna.Prelude.{
  ℕ, zero, suc, ◌+◌, Bool, true, false, ◌&&◌, ◌||◌, Option, none, some, List, [], ◌∷◌, ◌==◌,
  if◌then◌else◌, ◌>>=◌,
}
use bhuna.Value.{Text}
use bhuna.Memory.{update}
use bhuna.Memory.Equal.{text_eq}

-- `tclass` with the member of the union that goes with it; a pointer to a type may be NULL.
pub data TypeClass : Type 0 where
  void integer boolean atom string error builtin : TypeClass
  list : Option ℕ → TypeClass
  closure : (domain range : Option ℕ) → TypeClass
  dict : (index contents : Option ℕ) → TypeClass
  opaque : Text → TypeClass
  var : ℕ → TypeClass
  arg : (left right : Option ℕ) → TypeClass
  set : (left right : Option ℕ) → TypeClass

pub record TypeCell : Type 0 where
  pub tclass : TypeClass
  pub unifier : Option ℕ

abbrev pub TypeCells : Type 0
TypeCells = ℕ → Option TypeCell

-- `type_new`, and the constructors that only fill it; `p` is the address that `malloc` returns.
unfoldable pub type_new : ℕ → TypeClass → TypeCells → TypeCells
type_new p c f = update f p (some (record { tclass = c; unifier = none }))

unfoldable pub type_representative : ℕ → ℕ → TypeCells → Option ℕ
type_representative zero q f = none
type_representative (suc n) q f =
    f q >>= λ c. elim c.unifier [ none ↦ some q | some p ↦ type_representative n p f ]

abbrev pub is_var : TypeClass → Bool
is_var (var n) = true
is_var _ = false

abbrev pub set_unifier : ℕ → ℕ → TypeCells → Option TypeCells
set_unifier p q f = f p >>= λ c. some (update f p (some (record c { unifier = some q })))

-- Which of two representatives is linked to which.
abbrev pub link : ℕ → TypeClass → ℕ → TypeCells → Option TypeCells
link s c t f = if is_var c then set_unifier s t f else set_unifier t s f

unfoldable pub type_union : ℕ → ℕ → ℕ → TypeCells → Option TypeCells
unfolding type_representative
type_union k m n f = type_representative k m f >>= λ s.
    type_representative k n f >>= λ t. f s >>= λ c. link s c.tclass t f

-- The members of two types of one class, in pairs; `none` is two classes, or a class without members.
abbrev pub parts : TypeClass → TypeClass → Option (List (Option ℕ × Option ℕ))
parts (list a) (list b) = some ((a, b) ∷ [])
parts (dict i a) (dict j b) = some ((i, j) ∷ (a, b) ∷ [])
parts (closure d r) (closure e s) = some ((d, e) ∷ (r, s) ∷ [])
parts (arg l r) (arg m s) = some ((l, m) ∷ (r, s) ∷ [])
parts (set l r) (set m s) = some ((l, m) ∷ (r, s) ∷ [])
parts _ _ = none

-- The classes that have neither members nor a tag.
abbrev pub same_simple : TypeClass → TypeClass → Bool
same_simple void void = true
same_simple integer integer = true
same_simple boolean boolean = true
same_simple atom atom = true
same_simple string string = true
same_simple error error = true
same_simple builtin builtin = true
same_simple _ _ = false

abbrev pub same_tag : TypeClass → TypeClass → Option Bool
same_tag (opaque a) (opaque b) = some (text_eq a b)
same_tag _ _ = none

-- `&&` between calls that change the cells.
unfoldable pub unify_all :
    (Option ℕ → Option ℕ → TypeCells → Option (Bool × TypeCells))
    → List (Option ℕ × Option ℕ)
    → TypeCells
    → Option (Bool × TypeCells)
unify_all unify [] f = some (true, f)
unify_all unify ((a, b) ∷ rest) f =
    unify a b f >>= λ (ok, g). if ok then unify_all unify rest g else some (false, g)

-- Two representatives that differ, once their classes are read.
abbrev pub unify_classes :
    (Option ℕ → Option ℕ → TypeCells → Option (Bool × TypeCells))
    → (s t : ℕ) (c d : TypeClass) → TypeCells
    → Option (Bool × TypeCells)
unify_classes unify s t c d f = elim (same_tag c d) [
  | some same ↦ some (same, f)
  | none ↦ elim (parts c d) [
    | some ps ↦ link s c t f >>= unify_all unify ps
    | none ↦
        if is_var c || is_var d
        then (link s c t f >>= λ g. some (true, g))
        else some (same_simple c d, f)
  ]
]

-- The representatives that `type_union` finds are `s` and `t` themselves.
unfoldable pub type_unify : ℕ → Option ℕ → Option ℕ → TypeCells → Option (Bool × TypeCells)
unfolding type_representative unify_all
type_unify zero m n f = none
type_unify (suc k) m n f =
    let unify = type_unify k in
    m >>= λ a. n >>= λ b. type_representative k a f >>= λ s. type_representative k b f >>= λ t.
    if s == t
    then some (true, f)
    else (f s >>= λ c. f t >>= λ d. unify_classes unify s t c.tclass d.tclass f)

unfoldable pub type_is_known : ℕ → ℕ → TypeCells → Option Bool
unfolding type_representative
type_is_known k t f =
    type_representative k t f >>= λ r. f r >>= λ c. some (if is_var c.tclass then false else true)

-- `a` and `b` are the addresses of the two fresh variables, `p` that of the closure.
unfoldable pub type_ensure_routine : ℕ → (a b p : ℕ) → ℕ → ℕ → TypeCells → Option (ℕ × TypeCells)
unfolding type_representative type_new
type_ensure_routine k a b p t next_var_num f = type_representative k t f >>= λ r. f r >>= λ c.
    if is_var c.tclass
    then (set_unifier r p (
          type_new p (closure (some a) (some b))
            (type_new b (var (next_var_num + 1)) (type_new a (var next_var_num) f)))
        >>= λ g. some (next_var_num + 2, g))
    else some (next_var_num, f)
