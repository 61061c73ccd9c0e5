-- ===== src/Builtin/Elements.antt =====
-- lib/builtin.c: what is stored in a list is fetched from it, and what a list is made of.
use bhuna.Prelude.{
  ℕ, zero, suc, ◌≤◌, ◌≡◌, ◌⊎◌, inl, inr, Option-cases, refl, sym, ◌∙◌, false, some, List, [], ◌∷◌,
  ◌++◌, ==_refl, length, get_elem?, ◌<◌, ◌>>=◌, arith, ap,
}
use bhuna.Prelude.Int.{ℤ}
use mathlib.Core.List.{append-nil}
use bhuna.Value.{Value, integer, structured, Kind}
use bhuna.Memory.{list, SValue, Activation, Memory, update, value_new_list, activation_get_value}
use bhuna.Builtin.{Answer, value, error, no_such_element}
use bhuna.Builtin.Containers.{
  list_at, fetch, store, list_from, fetch_element, store_element, steps_to, put_payload,
  value_list_append, list_loop, builtin_list,
}

store_element-fetch :
    (n : ℕ) (p : Value) (l l' : List Value)
    → store_element n p l ≡ some l'
    → fetch_element (list_from n l') ≡ value p
unfolding store_element fetch_element list_from
store_element-fetch n p [] l' e = cc
store_element-fetch zero p (x ∷ l) [] e = cc
store_element-fetch zero p (x ∷ l) (y ∷ l') e = ground arith
store_element-fetch (suc n) p (x ∷ l) [] e = ground arith
store_element-fetch (suc n) p (x ∷ l) (y ∷ l') e = ground (arith, store_element-fetch n p l l')

list_at-payload :
    (m : Memory) (q : ℕ) (s : SValue) (l : List Value)
    → m.s_value q ≡ some s
    → s.payload ≡ list l
    → list_at m q ≡ some l
list_at-payload m q s l e k = rw (e, ◌>>=◌, k) refl

list_at-put_payload :
    (m : Memory) (q : ℕ) (s : SValue) (l : List Value)
    → m.s_value q ≡ some s
    → (m' : Memory) × (put_payload q (list l) m ≡ some m')
      × (list_at m' q ≡ some l)
      × (m'.activation ≡ m.activation)
      × ((s' : SValue) × (m'.s_value q ≡ some s') × (s'.payload ≡ list l))
unfolding put_payload
list_at-put_payload m q s l e = (
  record m { s_value = update m.s_value q (some (record s { payload = list l })) },
  ap
      (λ o. o >>= λ s.
        some (record m { s_value = update m.s_value q (some (record s { payload = list l })) }))
      e,
  rw (==_refl q, ◌>>=◌) refl,
  refl,
  (record s { payload = list l }, rw (==_refl q) refl, refl),
)

-- A store to a list that answers with the list leaves it so that a fetch under the same index answers
-- the stored value, whatever the index; a store that does not answer so leaves the heap as it was.
pub fetch-store :
    (q : ℕ) (s : SValue) (l : List Value) (i : ℤ) (p : Value) (m : Memory)
    → m.s_value q ≡ some s
    → s.payload ≡ list l
    → (a : Answer) × (m' : Memory) × (store (structured Kind.list q) (integer i) p m ≡ some (a, m'))
      × (((a ≡ value (structured Kind.list q))
            × (fetch (structured Kind.list q) (integer i) m' ≡ some (value p)))
          ⊎ ((a ≡ error no_such_element) × (m' ≡ m)))
unfolding store fetch
fetch-store q s l i p m e k = elim (Option-cases (store_element (steps_to i) p l)) [
  | inl short ↦ (
    error no_such_element,
    m,
    rw (list_at-payload m q s l e k, ◌>>=◌, short) refl,
    inr (refl, refl),
  )
  | inr (l', long) ↦
      let (m', put, at, same, cell) = list_at-put_payload m q s l' e in
      (
        value (structured Kind.list q),
        m',
        rw (list_at-payload m q s l e k, ◌>>=◌, long, put) refl,
        inl (refl, rw (at, ◌>>=◌, store_element-fetch (steps_to i) p l l' long) refl),
      )
]

abbrev take : ℕ → List Value → List Value
take zero vs = []
take (suc n) [] = []
take (suc n) (v ∷ vs) = v ∷ take n vs

take-length : (vs : List Value) → take (length vs) vs ≡ vs
take-length [] = refl
take-length (v ∷ vs) = ap (λ xs. v ∷ xs) (take-length vs)

take_last :
    (n : ℕ) (vs l : List Value) (v : Value)
    → get_elem? vs n ≡ some v
    → take (suc n) vs ++ l ≡ take n vs ++ v ∷ l
take_last n [] l v e = cc
take_last zero (w ∷ vs) l v e = ground arith
take_last (suc n) (w ∷ vs) l v e = ap (λ xs. w ∷ xs) (take_last n vs l v e)

get_elem_lt : (n : ℕ) (vs : List Value) → n < length vs → (v : Value) × (get_elem? vs n ≡ some v)
get_elem_lt n [] h = absurd (omega arith)
get_elem_lt zero (v ∷ vs) h = (v, refl)
get_elem_lt (suc n) (v ∷ vs) h = get_elem_lt n vs (omega arith)

-- The loop puts the arguments below its counter before what the list holds.
list_loop_lem :
    (p ar n : ℕ) (r : Activation) (s : SValue) (l : List Value) (m : Memory)
    → m.activation ar ≡ some r
    → m.s_value p ≡ some s
    → s.payload ≡ list l
    → n ≤ length r.values
    → (m' : Memory) × (list_loop p ar n m ≡ some m')
      × (list_at m' p ≡ some (take n r.values ++ l))
      × (m'.activation ≡ m.activation)
unfolding list_loop value_list_append activation_get_value
list_loop_lem p ar zero r s l m ea es k lt = (m, refl, list_at-payload m p s l es k, refl)
list_loop_lem p ar (suc n) r s l m ea es k lt =
    let (v, ev) = get_elem_lt n r.values (omega arith) in
    let (m₁, put, at, same, (s₁, es₁, k₁)) = list_at-put_payload m p s (v ∷ l) es in
    let (m', run, at', same') =
      list_loop_lem p ar n r s₁ (v ∷ l) m₁ (rw same ea) es₁ k₁ (omega arith) in
    (
      m',
      rw (ea, ◌>>=◌, ev, list_at-payload m p s l es k, put) run,
      at' ∙ ap some (sym (take_last n r.values l v ev)),
      same' ∙ same,
    )

-- On an activation record that exists, `builtin_list` gives a list at `p` of the record's values in
-- their order, and leaves all activation records as they are.
pub builtin_list-values :
    (p ar : ℕ) (r : Activation) (m : Memory)
    → m.activation ar ≡ some r
    → (m' : Memory) × (builtin_list p ar m ≡ some (structured Kind.list p, m'))
      × (list_at m' p ≡ some r.values)
      × (m'.activation ≡ m.activation)
unfolding builtin_list value_new_list
builtin_list-values p ar r m e =
    let (m', run, at, same) =
      list_loop_lem p ar (length r.values) r
        (record { marked = false; permanent = false; payload = list [] }) [] (value_new_list p m).1
        e (rw (==_refl p) refl) refl (omega arith) in
    (
      m',
      rw (e, ◌>>=◌, run) refl,
      at ∙ ap some (append-nil (take (length r.values) r.values) ∙ take-length r.values),
      same,
    )
