-- ===== src/Memory.antt =====
-- lib/value.c, lib/activation.c, lib/activation.h: the heap that the virtual machine allocates in.
-- An address names a cell. `sv_head` and `a_head` are the two chains through `next` that the
-- collector sweeps; each is the list of its addresses. An activation on a vm's stack is a cell too,
-- and is on neither chain.
pub mod Equal
use bhuna.Prelude.{
  ℕ, ◌+◌, Bool, true, false, Option, none, some, List, [], ◌∷◌, ◌==◌, if◌then◌else◌, length,
  get_elem?, set, tabulate, ◌%◌, ◌^◌, ◌>>=◌, ltb, zero, suc,
}
use bhuna.Value.{Value, structured, Kind, Closure, Text}
use bhuna.Value
use bhuna.Dict.{Dict, dict_new}

-- The union of `struct s_value`.
pub data Payload : Type 0 where
  string : Text → Payload
  list : List Value → Payload
  error : Text → Payload
  closure : Closure → Payload
  dict : Dict → Payload

-- `struct s_value`: the bits ADMIN_MARKED and ADMIN_PERMANENT, and the contents.
pub record SValue : Type 0 where
  pub marked : Bool
  pub permanent : Bool
  pub payload : Payload

-- `struct activation`; its `size` is the number of its values.
pub record Activation : Type 0 where
  pub marked : Bool
  pub on_stack : Bool
  pub caller : Option ℕ
  pub enclosing : Option ℕ
  pub values : List Value

-- The heap, with the chains `sv_head` and `a_head`. `unset a i` is what was left in memory where a new
-- record at `a` has its value `i`, and `stray p` is what is read as the text of a value at `p` where
-- there is none: the model fixes neither.
pub record Memory : Type 0 where
  pub s_value : ℕ → Option SValue
  pub sv_head : List ℕ
  pub activation : ℕ → Option Activation
  pub a_head : List ℕ
  pub unset : ℕ → ℕ → Value
  pub stray : ℕ → Text

abbrev pub update {ℓ} : {A : Type ℓ} → (ℕ → A) → ℕ → A → ℕ → A
update f p v q = if p == q then v else f q

-- The values of a new record at `a`.
abbrev pub unset_values : Memory → ℕ → ℕ → List Value
unset_values m a size = tabulate (m.unset a) size

-- `s_value_new`; `p` is the address that `malloc` returns.
unfoldable pub s_value_new : ℕ → Payload → Memory → Memory
s_value_new p x m = record m {
  s_value = update m.s_value p (some (record { marked = false; permanent = false; payload = x }));
  sv_head = p ∷ m.sv_head;
}

unfoldable pub value_new_string : ℕ → Text → Memory → Value × Memory
unfolding s_value_new
value_new_string p s m = (structured Kind.string p, s_value_new p (string s) m)

unfoldable pub value_new_list : ℕ → Memory → Value × Memory
unfolding s_value_new
value_new_list p m = (structured Kind.list p, s_value_new p (list []) m)

unfoldable pub value_new_error : ℕ → Text → Memory → Value × Memory
unfolding s_value_new
value_new_error p e m = (structured Kind.error p, s_value_new p (error e) m)

unfoldable pub value_new_closure : ℕ → Closure → Memory → Value × Memory
unfolding s_value_new
value_new_closure p k m = (structured Kind.closure p, s_value_new p (closure k) m)

unfoldable pub value_new_dict : ℕ → Memory → Value × Memory
unfolding s_value_new
value_new_dict p m = (structured Kind.dict p, s_value_new p (dict dict_new) m)

-- `value_deregister`: a structured value is never collected.
unfoldable pub value_deregister : Value → Memory → Memory
value_deregister (structured k p) m = record m {
  s_value = λ q.
      if p == q
      then elim (m.s_value q) [ none ↦ none | some s ↦ some (record s { permanent = true }) ]
      else m.s_value q;
}
value_deregister _ m = m

-- `activation_new_on_heap`, which initialises none of the values. The size is an `unsigned short`.
unfoldable pub activation_new_on_heap : ℕ → ℕ → Option ℕ → Option ℕ → Memory → Memory
activation_new_on_heap p size caller enclosing m = record m {
  activation = update m.activation p (
      some (record {
        marked = false;
        on_stack = false;
        caller = caller;
        enclosing = enclosing;
        values = unset_values m p (size % 2 ^ 16);
      }));
  a_head = p ∷ m.a_head;
}

-- The walk of `activation_get_value` up the enclosing records. `none` is the failed assertion.
unfoldable pub activation_up : Option ℕ → ℕ → Memory → Option ℕ
activation_up none upcount m = none
activation_up (some a) zero m = some a
activation_up (some a) (suc upcount) m = elim (m.activation a) [
  | none ↦ none
  | some r ↦ activation_up r.enclosing upcount m
]

-- `none` is an access outside the activation records.
unfoldable pub activation_get_value : Option ℕ → ℕ → ℕ → Memory → Option Value
unfolding activation_up
activation_get_value a index upcount m =
    activation_up a upcount m >>= λ p. m.activation p >>= λ r. get_elem? r.values index

unfoldable pub activation_set_value : Option ℕ → ℕ → ℕ → Value → Memory → Option Memory
unfolding activation_up
activation_set_value a index upcount v m = activation_up a upcount m >>= λ p.
    m.activation p >>= λ r.
    if ltb index (length r.values)
    then some (record m {
      activation = update m.activation p (some (record r { values = set r.values index v }));
    })
    else none
