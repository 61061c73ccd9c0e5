-- ===== src/Builtin/Containers.antt =====
-- lib/builtin.c: lists and dictionaries, and the closure whose variables are fetched by number.
use bhuna.Prelude.{
  ℕ, zero, suc, ◌+◌, ◌-◌, ◌%◌, ◌/◌, Option, none, some, List, [], ◌∷◌, ◌==◌, if◌then◌else◌, ltb,
  length, ◌>>=◌,
}
use bhuna.Prelude.Int.{ℤ, pos, leb_ℤ, pos_part}
use bhuna.Value.{Value, integer, structured, Kind, Closure}
use bhuna.Dict.{Dict, dict_fetch, dict_store}
use bhuna.Memory.{
  Payload, list, closure, dict, Memory, update, value_new_list, value_new_dict,
  activation_get_value,
}
use bhuna.Memory.Equal.{value_keys}
use bhuna.Builtin.{
  Function, Answer, value, error, answer, type_mismatch, out_of_bounds, no_such_element,
  must_be_even,
}

-- What the union of the structured value at `p` holds; `none` is a member that is not there.
abbrev list_in : Payload → Option (List Value)
list_in (list l) = some l
list_in _ = none

abbrev closure_in : Payload → Option Closure
closure_in (closure k) = some k
closure_in _ = none

abbrev dict_in : Payload → Option Dict
dict_in (dict d) = some d
dict_in _ = none

abbrev pub list_at : Memory → ℕ → Option (List Value)
list_at m p = m.s_value p >>= λ s. list_in s.payload

abbrev pub closure_at : Memory → ℕ → Option Closure
closure_at m p = m.s_value p >>= λ s. closure_in s.payload

abbrev pub dict_at : Memory → ℕ → Option Dict
dict_at m p = m.s_value p >>= λ s. dict_in s.payload

unfoldable pub put_payload : ℕ → Payload → Memory → Option Memory
put_payload p x m = m.s_value p >>= λ s.
    some (record m { s_value = update m.s_value p (some (record s { payload = x })) })

-- `value_list_append`: with `list_cons`, the new value comes first.
unfoldable pub value_list_append : ℕ → Value → Memory → Option Memory
unfolding put_payload
value_list_append p q m = list_at m p >>= λ l. put_payload p (list (q ∷ l)) m

unfoldable pub value_dict_store : ℕ → Value → Value → Memory → Option Memory
unfolding put_payload
value_dict_store p k d m =
    dict_at m p >>= λ t. put_payload p (dict (dict_store (value_keys m) t k d)) m

-- The loop of `builtin_list`, for the arguments below number `i`.
unfoldable pub list_loop : ℕ → ℕ → ℕ → Memory → Option Memory
unfolding value_list_append
list_loop p ar zero m = some m
list_loop p ar (suc i) m =
    activation_get_value (some ar) i 0 m >>= λ x. value_list_append p x m >>= list_loop p ar i

unfoldable pub builtin_list : Function
unfolding list_loop
builtin_list p ar m = m.activation ar >>= λ r.
    let (v, m₁) = value_new_list p m in list_loop p ar (length r.values) m₁ >>= λ m₂. some (v, m₂)

-- The list from the node where the loop `for (count = 1; li != NULL && count < i; count++)` stops.
unfoldable pub list_from : ℕ → List Value → List Value
list_from zero li = li
list_from (suc left) [] = []
list_from (suc left) (x ∷ li) = list_from left li

-- How often that loop steps on a list that is long enough.
abbrev pub steps_to : ℤ → ℕ
steps_to i = pos_part i - 1

unfoldable pub fetch_element : List Value → Answer
fetch_element [] = error out_of_bounds
fetch_element (x ∷ li) = value x

-- The case of a closure: the variable number `i` of its record.
unfoldable pub fetch_variable : Closure → ℤ → Memory → Option Answer
fetch_variable k i m = k.ar >>= λ a. m.activation a >>= λ r.
    if leb_ℤ (pos 1) i
    then (if ltb (pos_part i - 1) (length r.values)
        then (activation_get_value (some a) (pos_part i - 1) 0 m >>= λ v. some (value v))
        else some (error out_of_bounds))
    else some (error out_of_bounds)

unfoldable pub fetch : Value → Value → Memory → Option Answer
unfolding fetch_variable list_from fetch_element
fetch (structured Kind.closure p) (integer i) m = closure_at m p >>= λ k. fetch_variable k i m
fetch (structured Kind.dict p) r m =
    dict_at m p >>= λ d. some (value (dict_fetch (value_keys m) d r))
fetch (structured Kind.list p) (integer i) m =
    list_at m p >>= λ l. some (fetch_element (list_from (steps_to i) l))
fetch _ _ m = some (error type_mismatch)

unfoldable pub builtin_fetch : Function
unfolding fetch
builtin_fetch p ar m = activation_get_value (some ar) 0 0 m >>= λ l.
    activation_get_value (some ar) 1 0 m >>= λ r. fetch l r m >>= λ a. some (answer p a m)

-- `li->value = p` at the node where the loop stops, if there is one.
unfoldable pub store_element : ℕ → Value → List Value → Option (List Value)
store_element left p [] = none
store_element zero p (x ∷ li) = some (p ∷ li)
store_element (suc left) p (x ∷ li) = store_element left p li >>= λ li'. some (x ∷ li')

-- The answer, and the heap after the assignment.
unfoldable pub store : Value → Value → Value → Memory → Option (Answer × Memory)
unfolding store_element value_dict_store
store (structured Kind.dict q) i p m =
    value_dict_store q i p m >>= λ m'. some (value (structured Kind.dict q), m')
store (structured Kind.list q) (integer i) p m = list_at m q >>= λ l.
    elim (store_element (steps_to i) p l) [
      | none ↦ some (error no_such_element, m)
      | some l' ↦ put_payload q (list l') m >>= λ m'. some (value (structured Kind.list q), m')
    ]
store _ _ _ m = some (error type_mismatch, m)

unfoldable pub builtin_store : Function
unfolding store
builtin_store q ar m = activation_get_value (some ar) 0 0 m >>= λ d.
    activation_get_value (some ar) 1 0 m >>= λ i.
    activation_get_value (some ar) 2 0 m >>= λ p. store d i p m >>= λ t. some (answer q t.0 t.1)

-- The loop of `builtin_dict` over the arguments from number `i`, `left` pairs of them.
unfoldable pub dict_loop : ℕ → ℕ → ℕ → ℕ → Memory → Option Memory
unfolding value_dict_store
dict_loop p ar i zero m = some m
dict_loop p ar i (suc left) m = activation_get_value (some ar) i 0 m >>= λ key.
    activation_get_value (some ar) (i + 1) 0 m >>= λ val.
    value_dict_store p key val m >>= dict_loop p ar (i + 2) left

-- `e` is the address of the error, allocated after the dictionary.
unfoldable pub builtin_dict : ℕ → Function
unfolding dict_loop
builtin_dict e p ar m = m.activation ar >>= λ r.
    let (v, m₁) = value_new_dict p m in
    if length r.values % 2 == 0
    then (dict_loop p ar 0 (length r.values / 2) m₁ >>= λ m₂. some (v, m₂))
    else some (answer e (error must_be_even) m₁)
