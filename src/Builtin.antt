-- ===== src/Builtin.antt =====
-- lib/builtin.c: the built-in operations. Each reads its arguments from an activation record, and may
-- allocate a structured value at `p`. `none` is undefined behaviour: an `int` overflow, or an access
-- outside the record.
pub mod Containers
pub mod Elements
use bhuna.Prelude.{
  ℕ, zero, suc, ◌+◌, ◌-◌, ◌%◌, Bool, true, false, not, ◌&&◌, ◌||◌, Option, none, some, List, [],
  ◌∷◌, ◌==◌, if◌then◌else◌, ltb, length, get_elem?, set, ◌>>=◌,
}
use bhuna.Prelude.Int.{
  ℤ, pos, negsuc, ◌+ℤ◌, ◌-ℤ◌, ◌*ℤ◌, quot_ℤ, rem_ℤ, ltb_ℤ, leb_ℤ, eqb_ℤ, is_int, pos_part,
}
use bhuna.Value.{Value, null, integer, boolean, opaque, structured, Kind, Closure, Text}
use bhuna.Dict.{Dict, KeyEquality, dict_fetch, dict_store}
use bhuna.Memory.{
  Payload, list, closure, dict, SValue, Activation, Memory, update, value_new_error, value_new_list,
  value_new_dict, activation_get_value,
}
use bhuna.Memory.Equal.{value_keys}

-- "type mismatch", "division by zero", "modulo by zero", "out of bounds", "no such element" and
-- "number of arguments must be even", character by character.
abbrev pub type_mismatch : Text
type_mismatch = 116 ∷ 121 ∷ 112 ∷ 101 ∷ 32 ∷ 109 ∷ 105 ∷ 115 ∷ 109 ∷ 97 ∷ 116 ∷ 99 ∷ 104 ∷ []

abbrev pub division_by_zero : Text
division_by_zero =
    100 ∷ 105 ∷ 118 ∷ 105 ∷ 115 ∷ 105 ∷ 111 ∷ 110 ∷ 32 ∷ 98 ∷ 121 ∷ 32 ∷ 122 ∷ 101 ∷ 114 ∷ 111 ∷ []

abbrev pub modulo_by_zero : Text
modulo_by_zero = 109 ∷ 111 ∷ 100 ∷ 117 ∷ 108 ∷ 111 ∷ 32 ∷ 98 ∷ 121 ∷ 32 ∷ 122 ∷ 101 ∷ 114 ∷ 111 ∷ []

abbrev pub out_of_bounds : Text
out_of_bounds = 111 ∷ 117 ∷ 116 ∷ 32 ∷ 111 ∷ 102 ∷ 32 ∷ 98 ∷ 111 ∷ 117 ∷ 110 ∷ 100 ∷ 115 ∷ []

abbrev pub no_such_element : Text
no_such_element =
    110 ∷ 111 ∷ 32 ∷ 115 ∷ 117 ∷ 99 ∷ 104 ∷ 32 ∷ 101 ∷ 108 ∷ 101 ∷ 109 ∷ 101 ∷ 110 ∷ 116 ∷ []

abbrev pub must_be_even : Text
must_be_even =
    110 ∷ 117 ∷ 109 ∷ 98 ∷ 101 ∷ 114 ∷ 32 ∷ 111 ∷ 102 ∷ 32 ∷ 97 ∷ 114 ∷ 103 ∷ 117 ∷ 109 ∷ 101 ∷ 110
    ∷ 116 ∷ 115 ∷ 32 ∷ 109 ∷ 117 ∷ 115 ∷ 116 ∷ 32 ∷ 98 ∷ 101 ∷ 32 ∷ 101 ∷ 118 ∷ 101 ∷ 110 ∷ []

-- What an operation on values comes to: a value, or a new error.
pub data Answer : Type 0 where
  value : Value → Answer
  error : Text → Answer

unfoldable pub answer : ℕ → Answer → Memory → Value × Memory
answer p (value v) m = (v, m)
answer p (error e) m = value_new_error p e m

-- The `int` that C computes, if it is one.
unfoldable pub int_result : ℤ → Option Answer
int_result z = if is_int z then some (value (integer z)) else none

unfoldable pub divide : ℤ → ℤ → Option Answer
unfolding int_result
divide i j = if eqb_ℤ j (pos 0) then some (error division_by_zero) else int_result (quot_ℤ i j)

-- C defines the remainder where it defines the quotient.
unfoldable pub modulo : ℤ → ℤ → Option Answer
modulo i j =
    if eqb_ℤ j (pos 0)
    then some (error modulo_by_zero)
    else if is_int (quot_ℤ i j)
    then some (value (integer (rem_ℤ i j)))
    else none

abbrev pub test : Bool → Option Answer
test b = some (value (boolean b))

-- The checks of the tags that the operations share.
abbrev pub on_integers : (ℤ → ℤ → Option Answer) → Value → Value → Option Answer
on_integers f (integer i) (integer j) = f i j
on_integers f _ _ = some (error type_mismatch)

abbrev pub on_booleans : (Bool → Bool → Option Answer) → Value → Value → Option Answer
on_booleans f (boolean a) (boolean b) = f a b
on_booleans f _ _ = some (error type_mismatch)

-- A function of `struct builtin`: the address for a new value, the record and the heap.
abbrev pub Function : Type 0
Function = ℕ → ℕ → Memory → Option (Value × Memory)

-- Reading the two arguments, and returning.
abbrev pub binary : (Value → Value → Option Answer) → Function
binary f p ar m = activation_get_value (some ar) 0 0 m >>= λ l.
    activation_get_value (some ar) 1 0 m >>= λ r. f l r >>= λ a. some (answer p a m)

abbrev pub negate : Value → Option Answer
negate (boolean b) = test (not b)
negate _ = some (error type_mismatch)

unfoldable pub builtin_not : Function
builtin_not p ar m =
    activation_get_value (some ar) 0 0 m >>= λ q. negate q >>= λ a. some (answer p a m)

unfoldable pub builtin_and : Function
builtin_and = binary (on_booleans λ a b. test (a && b))

unfoldable pub builtin_or : Function
builtin_or = binary (on_booleans λ a b. test (a || b))

abbrev pub same : Value → Value → Option Answer
same (integer i) (integer j) = test (eqb_ℤ i j)
same (opaque p) (opaque q) = test (p == q)
same _ _ = some (error type_mismatch)

unfoldable pub builtin_equ : Function
builtin_equ = binary same

unfoldable pub builtin_neq : Function
builtin_neq = binary (on_integers λ i j. test (not (eqb_ℤ i j)))

unfoldable pub builtin_gt : Function
builtin_gt = binary (on_integers λ i j. test (ltb_ℤ j i))

unfoldable pub builtin_lt : Function
builtin_lt = binary (on_integers λ i j. test (ltb_ℤ i j))

unfoldable pub builtin_gte : Function
builtin_gte = binary (on_integers λ i j. test (leb_ℤ j i))

unfoldable pub builtin_lte : Function
builtin_lte = binary (on_integers λ i j. test (leb_ℤ i j))

unfoldable pub builtin_add : Function
builtin_add = binary (on_integers λ i j. int_result (i +ℤ j))

unfoldable pub builtin_mul : Function
builtin_mul = binary (on_integers λ i j. int_result (i *ℤ j))

unfoldable pub builtin_sub : Function
builtin_sub = binary (on_integers λ i j. int_result (i -ℤ j))

unfoldable pub builtin_div : Function
builtin_div = binary (on_integers divide)

unfoldable pub builtin_mod : Function
builtin_mod = binary (on_integers modulo)
