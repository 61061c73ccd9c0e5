-- ===== src/Gc.antt =====
-- lib/gc.c: mark and sweep. The two marking functions call one another as deep as unmarked objects
-- hang together, so they take fuel; `none` is spent fuel or a dangling pointer.
pub mod Graph
pub mod Marks
pub mod Works
pub mod Total
pub mod Sweep
pub mod Outcome
pub mod Collect
use bhuna.Prelude.{
  ℕ, zero, suc, Bool, true, false, Option, none, some, List, [], ◌∷◌, ◌||◌, if◌then◌else◌, ◌>>=◌,
}
use bhuna.Value.{Value, structured, Closure}
use bhuna.Memory.{Payload, list, closure, SValue, Activation, Memory, update}

abbrev pub set_s_value : ℕ → Option SValue → Memory → Memory
set_s_value p s m = record m { s_value = update m.s_value p s }

abbrev pub set_activation : ℕ → Option Activation → Memory → Memory
set_activation a r m = record m { activation = update m.activation a r }

-- A loop that marks the values of a list, of a frame or of a vm's stack.
unfoldable pub mark_all : (Value → Memory → Option Memory) → List Value → Memory → Option Memory
mark_all mark [] m = some m
mark_all mark (v ∷ vs) m = mark v m >>= mark_all mark vs

unfoldable mutual
  unfolding mark_all

  pub value_mark : ℕ → Value → Memory → Option Memory
  value_mark zero v m = none
  value_mark (suc n) (structured k p) m = m.s_value p >>= λ s. elim s.marked [
    | true ↦ some m
    | false ↦
        let m₁ = set_s_value p (some (record s { marked = true })) m in
        elim s.payload [
          | list l ↦ mark_all (value_mark n) l m₁
          | closure c ↦ activation_mark n c.ar m₁
          | _ ↦ some m₁
        ]
  ]
  value_mark (suc n) _ m = some m

  pub activation_mark : ℕ → Option ℕ → Memory → Option Memory
  activation_mark zero a m = none
  activation_mark (suc n) none m = some m
  activation_mark (suc n) (some a) m = m.activation a >>= λ r. elim r.marked [
    | true ↦ some m
    | false ↦
        activation_mark n r.caller (set_activation a (some (record r { marked = true })) m)
        >>= activation_mark n r.enclosing
        >>= mark_all (value_mark n) r.values
  ]

-- What the collector reads of one process on the run list.
pub record Root : Type 0 where
  pub current_ar : Option ℕ
  pub vstack : List Value

unfoldable pub mark_roots : ℕ → List Root → Memory → Option Memory
unfolding value_mark
mark_roots n [] m = some m
mark_roots n (p ∷ ps) m =
    activation_mark n p.current_ar m >>= mark_all (value_mark n) p.vstack >>= mark_roots n ps

-- The first sweep, from `a` on, with `ta_head` gathered so far.
unfoldable pub sweep_activations : List ℕ → List ℕ → Memory → Option Memory
sweep_activations [] ta_head m = some (record m { a_head = ta_head })
sweep_activations (a ∷ rest) ta_head m = m.activation a >>= λ r. elim r.marked [
  | true ↦
      sweep_activations rest (a ∷ ta_head) (set_activation a (some (record r { marked = false })) m)
  | false ↦ sweep_activations rest ta_head (set_activation a none m)
]

unfoldable pub sweep_s_values : List ℕ → List ℕ → Memory → Option Memory
sweep_s_values [] tsv_head m = some (record m { sv_head = tsv_head })
sweep_s_values (p ∷ rest) tsv_head m = m.s_value p >>= λ s. elim (s.marked || s.permanent) [
  | true ↦ sweep_s_values rest (p ∷ tsv_head) (set_s_value p (some (record s { marked = false })) m)
  | false ↦ sweep_s_values rest tsv_head (set_s_value p none m)
]

unfoldable pub gc : ℕ → List Root → Memory → Option Memory
unfolding mark_roots sweep_activations sweep_s_values
gc n run_head m = mark_roots n run_head m >>= λ m₁.
    sweep_activations m₁.a_head [] m₁ >>= λ m₂. sweep_s_values m₂.sv_head [] m₂
