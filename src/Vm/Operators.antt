-- ===== src/Vm/Operators.antt =====
-- lib/vm.c: the built-in operations that `vm_run` does itself, and that they agree with lib/builtin.c.
use bhuna.Prelude.{
  ℕ, ◌≡◌, refl, Bool, not, ◌&&◌, ◌||◌, Option, none, some, ◌==◌, if◌then◌else◌, ◌>>=◌,
}
use bhuna.Prelude.Int.{ℤ, pos, ◌+ℤ◌, ◌-ℤ◌, ◌*ℤ◌, quot_ℤ, rem_ℤ, ltb_ℤ, leb_ℤ, eqb_ℤ, is_int}
use bhuna.Value.{Value, integer, boolean, opaque}
use bhuna.Memory.{Memory, activation_get_value}
use bhuna.Builtin.{
  Answer, value, error, answer, type_mismatch, division_by_zero, modulo_by_zero, Function,
  builtin_and, builtin_or, builtin_equ, builtin_neq, builtin_gt, builtin_lt, builtin_gte,
  builtin_lte, builtin_add, builtin_mul, builtin_sub, builtin_div, builtin_mod, int_result, divide,
  modulo, test, on_integers, on_booleans, same, binary,
}

-- The cases of `INDEX_BUILTIN_` with two operands.
pub data Inline : Type 0 where
  and_op or_op equ_op neq_op gt_op lt_op gte_op lte_op : Inline
  add_op mul_op sub_op div_op mod_op : Inline

abbrev mismatch : Option Answer
mismatch = some (error type_mismatch)

abbrev truth_value : Bool → Option Answer
truth_value b = some (value (boolean b))

-- `value_new_integer` of a sum, a difference, a product, a quotient or a remainder. An overflow is
-- undefined.
abbrev new_integer : ℤ → Option Answer
new_integer z = if is_int z then some (value (integer z)) else none

-- An operation on two integers, on two booleans, and on two opaque pointers.
unfoldable pub inline_integers : Inline → ℤ → ℤ → Option Answer
inline_integers and_op l r = mismatch
inline_integers or_op l r = mismatch
inline_integers equ_op l r = truth_value (eqb_ℤ l r)
inline_integers neq_op l r = truth_value (not (eqb_ℤ l r))
inline_integers gt_op l r = truth_value (ltb_ℤ r l)
inline_integers lt_op l r = truth_value (ltb_ℤ l r)
inline_integers gte_op l r = truth_value (leb_ℤ r l)
inline_integers lte_op l r = truth_value (leb_ℤ l r)
inline_integers add_op l r = new_integer (l +ℤ r)
inline_integers mul_op l r = new_integer (l *ℤ r)
inline_integers sub_op l r = new_integer (l -ℤ r)
inline_integers div_op l r =
    if eqb_ℤ r (pos 0) then some (error division_by_zero) else new_integer (quot_ℤ l r)
inline_integers mod_op l r =
    if eqb_ℤ r (pos 0)
    then some (error modulo_by_zero)
    else if is_int (quot_ℤ l r)
    then some (value (integer (rem_ℤ l r)))
    else none

unfoldable pub inline_booleans : Inline → Bool → Bool → Option Answer
inline_booleans and_op l r = truth_value (l && r)
inline_booleans or_op l r = truth_value (l || r)
inline_booleans _ l r = mismatch

unfoldable pub inline_opaques : Inline → ℕ → ℕ → Option Answer
inline_opaques equ_op l r = truth_value (l == r)
inline_opaques _ l r = mismatch

unfoldable pub inline_values : Inline → Value → Value → Option Answer
unfolding inline_integers inline_booleans inline_opaques
inline_values op (integer l) (integer r) = inline_integers op l r
inline_values op (boolean l) (boolean r) = inline_booleans op l r
inline_values op (opaque l) (opaque r) = inline_opaques op l r
inline_values op _ _ = mismatch

-- The case INDEX_BUILTIN_NOT.
unfoldable pub inline_negation : Value → Option Answer
inline_negation (boolean b) = truth_value (not b)
inline_negation _ = mismatch

-- The function that the table `builtins` has for an operation.
abbrev pub builtin_of : Inline → Function
builtin_of and_op = builtin_and
builtin_of or_op = builtin_or
builtin_of equ_op = builtin_equ
builtin_of neq_op = builtin_neq
builtin_of gt_op = builtin_gt
builtin_of lt_op = builtin_lt
builtin_of gte_op = builtin_gte
builtin_of lte_op = builtin_lte
builtin_of add_op = builtin_add
builtin_of mul_op = builtin_mul
builtin_of sub_op = builtin_sub
builtin_of div_op = builtin_div
builtin_of mod_op = builtin_mod

-- What each of them does with its arguments once they are read.
abbrev on_values : Inline → Value → Value → Option Answer
on_values and_op = on_booleans λ a b. test (a && b)
on_values or_op = on_booleans λ a b. test (a || b)
on_values equ_op = same
on_values neq_op = on_integers λ i j. test (not (eqb_ℤ i j))
on_values gt_op = on_integers λ i j. test (ltb_ℤ j i)
on_values lt_op = on_integers λ i j. test (ltb_ℤ i j)
on_values gte_op = on_integers λ i j. test (leb_ℤ j i)
on_values lte_op = on_integers λ i j. test (leb_ℤ i j)
on_values add_op = on_integers λ i j. int_result (i +ℤ j)
on_values mul_op = on_integers λ i j. int_result (i *ℤ j)
on_values sub_op = on_integers λ i j. int_result (i -ℤ j)
on_values div_op = on_integers divide
on_values mod_op = on_integers modulo

builtin_of-binary : (op : Inline) → builtin_of op ≡ binary (on_values op)
unfolding builtin_and builtin_or builtin_equ builtin_neq builtin_gt builtin_lt builtin_gte
    builtin_lte builtin_add builtin_mul builtin_sub builtin_div builtin_mod
builtin_of-binary and_op = refl
builtin_of-binary or_op = refl
builtin_of-binary equ_op = refl
builtin_of-binary neq_op = refl
builtin_of-binary gt_op = refl
builtin_of-binary lt_op = refl
builtin_of-binary gte_op = refl
builtin_of-binary lte_op = refl
builtin_of-binary add_op = refl
builtin_of-binary mul_op = refl
builtin_of-binary sub_op = refl
builtin_of-binary div_op = refl
builtin_of-binary mod_op = refl

on_values-and : (l r : Value) → on_values and_op l r ≡ inline_values and_op l r
unfolding inline_values int_result divide modulo
on_values-and (integer i) (integer j) = refl
on_values-and (boolean a) (boolean b) = refl
on_values-and (opaque q) (opaque q') = refl
on_values-and l r = refl

on_values-or : (l r : Value) → on_values or_op l r ≡ inline_values or_op l r
unfolding inline_values int_result divide modulo
on_values-or (integer i) (integer j) = refl
on_values-or (boolean a) (boolean b) = refl
on_values-or (opaque q) (opaque q') = refl
on_values-or l r = refl

on_values-equ : (l r : Value) → on_values equ_op l r ≡ inline_values equ_op l r
unfolding inline_values int_result divide modulo
on_values-equ (integer i) (integer j) = refl
on_values-equ (boolean a) (boolean b) = refl
on_values-equ (opaque q) (opaque q') = refl
on_values-equ l r = refl

on_values-neq : (l r : Value) → on_values neq_op l r ≡ inline_values neq_op l r
unfolding inline_values int_result divide modulo
on_values-neq (integer i) (integer j) = refl
on_values-neq (boolean a) (boolean b) = refl
on_values-neq (opaque q) (opaque q') = refl
on_values-neq l r = refl

on_values-gt : (l r : Value) → on_values gt_op l r ≡ inline_values gt_op l r
unfolding inline_values int_result divide modulo
on_values-gt (integer i) (integer j) = refl
on_values-gt (boolean a) (boolean b) = refl
on_values-gt (opaque q) (opaque q') = refl
on_values-gt l r = refl

on_values-lt : (l r : Value) → on_values lt_op l r ≡ inline_values lt_op l r
unfolding inline_values int_result divide modulo
on_values-lt (integer i) (integer j) = refl
on_values-lt (boolean a) (boolean b) = refl
on_values-lt (opaque q) (opaque q') = refl
on_values-lt l r = refl

on_values-gte : (l r : Value) → on_values gte_op l r ≡ inline_values gte_op l r
unfolding inline_values int_result divide modulo
on_values-gte (integer i) (integer j) = refl
on_values-gte (boolean a) (boolean b) = refl
on_values-gte (opaque q) (opaque q') = refl
on_values-gte l r = refl

on_values-lte : (l r : Value) → on_values lte_op l r ≡ inline_values lte_op l r
unfolding inline_values int_result divide modulo
on_values-lte (integer i) (integer j) = refl
on_values-lte (boolean a) (boolean b) = refl
on_values-lte (opaque q) (opaque q') = refl
on_values-lte l r = refl

on_values-add : (l r : Value) → on_values add_op l r ≡ inline_values add_op l r
unfolding inline_values int_result divide modulo
on_values-add (integer i) (integer j) = refl
on_values-add (boolean a) (boolean b) = refl
on_values-add (opaque q) (opaque q') = refl
on_values-add l r = refl

on_values-mul : (l r : Value) → on_values mul_op l r ≡ inline_values mul_op l r
unfolding inline_values int_result divide modulo
on_values-mul (integer i) (integer j) = refl
on_values-mul (boolean a) (boolean b) = refl
on_values-mul (opaque q) (opaque q') = refl
on_values-mul l r = refl

on_values-sub : (l r : Value) → on_values sub_op l r ≡ inline_values sub_op l r
unfolding inline_values int_result divide modulo
on_values-sub (integer i) (integer j) = refl
on_values-sub (boolean a) (boolean b) = refl
on_values-sub (opaque q) (opaque q') = refl
on_values-sub l r = refl

on_values-div : (l r : Value) → on_values div_op l r ≡ inline_values div_op l r
unfolding inline_values int_result divide modulo
on_values-div (integer i) (integer j) = refl
on_values-div (boolean a) (boolean b) = refl
on_values-div (opaque q) (opaque q') = refl
on_values-div l r = refl

on_values-mod : (l r : Value) → on_values mod_op l r ≡ inline_values mod_op l r
unfolding inline_values int_result divide modulo
on_values-mod (integer i) (integer j) = refl
on_values-mod (boolean a) (boolean b) = refl
on_values-mod (opaque q) (opaque q') = refl
on_values-mod l r = refl

on_values-inline : (op : Inline) (l r : Value) → on_values op l r ≡ inline_values op l r
on_values-inline and_op l r = on_values-and l r
on_values-inline or_op l r = on_values-or l r
on_values-inline equ_op l r = on_values-equ l r
on_values-inline neq_op l r = on_values-neq l r
on_values-inline gt_op l r = on_values-gt l r
on_values-inline lt_op l r = on_values-lt l r
on_values-inline gte_op l r = on_values-gte l r
on_values-inline lte_op l r = on_values-lte l r
on_values-inline add_op l r = on_values-add l r
on_values-inline mul_op l r = on_values-mul l r
on_values-inline sub_op l r = on_values-sub l r
on_values-inline div_op l r = on_values-div l r
on_values-inline mod_op l r = on_values-mod l r

-- On a record whose first two values are `l` and `r`, each of the 13 operations of the table gives
-- what the virtual machine computes from `l` and `r` in its place, errors and overflow included.
pub builtin_of-inline_values :
    (op : Inline) (p ar : ℕ) (l r : Value) (m : Memory)
    → activation_get_value (some ar) 0 0 m ≡ some l
    → activation_get_value (some ar) 1 0 m ≡ some r
    → builtin_of op p ar m ≡ (inline_values op l r >>= λ a. some (answer p a m))
builtin_of-inline_values op p ar l r m e f =
    rw (builtin_of-binary op, e, ◌>>=◌, f, on_values-inline op l r) refl
