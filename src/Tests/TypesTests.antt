-- ===== src/Tests/TypesTests.antt =====
-- lib/type.c at a variable, a list of it, and an integer.
use bhuna.Prelude.{ℕ, suc, ◌≡◌, ◌≢◌, refl, none, some, ◌==◌, if◌then◌else◌, arith, ◌>>=◌}
use bhuna.Types.{
  var, list, integer, TypeCell, TypeCells, type_new, type_representative, type_union, type_unify,
}
use bhuna.Types.Union.{type_union-merges}

abbrev cells : TypeCells
cells = type_new 2 integer (type_new 1 (list (some 0)) (type_new 0 (var 100) (λ p. none)))

abbrev variable_cell : TypeCell
variable_cell = record { tclass = var 100; unifier = none }

rep_0 : type_representative 5 0 cells ≡ some 0
unfolding type_representative type_new
rep_0 = refl

rep_2 : type_representative 5 2 cells ≡ some 2
unfolding type_representative type_new
rep_2 = refl

abbrev the_variable : ℕ
the_variable = 0

abbrev the_integer : ℕ
the_integer = 2

differ : the_variable ≢ the_integer
differ = λ e. ground arith

cell_0 : cells 0 ≡ some variable_cell
unfolding type_new
cell_0 = refl

type_union-merges_example :
    (loser winner : ℕ) × ((loser ≡ 0) × (winner ≡ 2))
    × ((f' : TypeCells) × (type_union 5 0 2 cells ≡ some f')
        × ((i q r : ℕ)
            → type_representative i q cells ≡ some r
            → type_representative (suc i) q f' ≡ some (if loser == r then winner else r)))
type_union-merges_example =
    type_union-merges 5 0 2 0 2 variable_cell cells rep_0 rep_2 differ cell_0

unifies : (type_unify 9 (some 0) (some 2) cells >>= λ (ok, f). type_representative 9 0 f) ≡ some 2
unfolding type_unify type_new
unifies = refl
