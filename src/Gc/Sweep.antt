-- ===== src/Gc/Sweep.antt =====
-- lib/gc.c: the two sweeping loops. Each visits every cell of its chain once.
use bhuna.Prelude.{
  ℕ, ◌≡◌, refl, inl, inr, true, false, ◌||◌, ◌&&◌, Option, none, some, List, [], ◌∷◌, arith,
  Bool-cases, Option-cases, if◌then◌else◌, All, ◌>>=◌,
}
use bhuna.Prelude.Distinct.{listed, IsDistinct}
use bhuna.Memory.{SValue, Activation, Memory, update}
use bhuna.Gc.{set_s_value, set_activation, sweep_activations, sweep_s_values}
use bhuna.Gc.Graph.{is_some}

-- What a sweep leaves of a cell.
abbrev pub swept_s_value : Option SValue → Option SValue
swept_s_value none = none
swept_s_value (some s) =
    if s.marked || s.permanent then some (record s { marked = false }) else none

abbrev pub swept_activation : Option Activation → Option Activation
swept_activation none = none
swept_activation (some r) = if r.marked then some (record r { marked = false }) else none

-- The chain from `l` on is swept, and the survivors are put on the new chain before `acc`.
pub record SweepsSValues (l acc : List ℕ) (m m' : Memory) : Type 0 where
  pub cells :
      (q : ℕ) → m'.s_value q ≡ (if listed l q then swept_s_value (m.s_value q) else m.s_value q)
  pub chain :
      (q : ℕ)
      → listed m'.sv_head q
        ≡ (listed acc q || (listed l q && is_some (swept_s_value (m.s_value q))))
  pub activation : m'.activation ≡ m.activation
  pub a_head : m'.a_head ≡ m.a_head

pub record SweepsActivations (l acc : List ℕ) (m m' : Memory) : Type 0 where
  pub cells :
      (q : ℕ)
      → m'.activation q ≡ (if listed l q then swept_activation (m.activation q) else m.activation q)
  pub chain :
      (q : ℕ)
      → listed m'.a_head q
        ≡ (listed acc q || (listed l q && is_some (swept_activation (m.activation q))))
  pub s_value : m'.s_value ≡ m.s_value
  pub sv_head : m'.sv_head ≡ m.sv_head

some_moved :
    {A : Type 0} (f : ℕ → Option A) (p : ℕ) (x : Option A) (l : List ℕ)
    → listed l p ≡ false
    → All (λ q. is_some (f q) ≡ true) l
    → All (λ q. is_some (update f p x q) ≡ true) l
some_moved f p x [] h k = tt
some_moved f p x (q ∷ l) h k = (ground (arith, k.0), some_moved f p x l (ground arith) k.1)

pub sweep_s_values_lem :
    (l acc : List ℕ) (m : Memory)
    → IsDistinct l
    → All (λ p. is_some (m.s_value p) ≡ true) l
    → (m' : Memory) × (sweep_s_values l acc m ≡ some m') × SweepsSValues l acc m m'
unfolding sweep_s_values
sweep_s_values_lem [] acc m d h = (
  record m { sv_head = acc },
  refl,
  record { cells = λ q. refl; chain = λ q. ground arith; activation = refl; a_head = refl },
)
sweep_s_values_lem (p ∷ l) acc m d h = elim (Option-cases (m.s_value p)) [
  | inl e ↦ cc
  | inr (s, e) ↦ elim (Bool-cases (s.marked || s.permanent)) [
    | inl kept ↦
        let m₁ = set_s_value p (some (record s { marked = false })) m in
        let (m', run, w) =
          sweep_s_values_lem l (p ∷ acc) m₁ d.1 (some_moved m.s_value p _ l d.0 h.1) in
        (
          m',
          rw (e, ◌>>=◌, kept) run,
          record {
            cells = λ q. ground (arith, w.cells q, d.0);
            chain = λ q. ground (arith, w.chain q, d.0);
            activation = w.activation;
            a_head = w.a_head;
          },
        )
    | inr dropped ↦
        let m₁ = set_s_value p none m in
        let (m', run, w) = sweep_s_values_lem l acc m₁ d.1 (some_moved m.s_value p _ l d.0 h.1) in
        (
          m',
          rw (e, ◌>>=◌, dropped) run,
          record {
            cells = λ q. ground (arith, w.cells q, d.0);
            chain = λ q. ground (arith, w.chain q, d.0);
            activation = w.activation;
            a_head = w.a_head;
          },
        )
  ]
]

pub sweep_activations_lem :
    (l acc : List ℕ) (m : Memory)
    → IsDistinct l
    → All (λ p. is_some (m.activation p) ≡ true) l
    → (m' : Memory) × (sweep_activations l acc m ≡ some m') × SweepsActivations l acc m m'
unfolding sweep_activations
sweep_activations_lem [] acc m d h = (
  record m { a_head = acc },
  refl,
  record { cells = λ q. refl; chain = λ q. ground arith; s_value = refl; sv_head = refl },
)
sweep_activations_lem (a ∷ l) acc m d h = elim (Option-cases (m.activation a)) [
  | inl e ↦ cc
  | inr (r, e) ↦ elim (Bool-cases r.marked) [
    | inl kept ↦
        let m₁ = set_activation a (some (record r { marked = false })) m in
        let (m', run, w) =
          sweep_activations_lem l (a ∷ acc) m₁ d.1 (some_moved m.activation a _ l d.0 h.1) in
        (
          m',
          rw (e, ◌>>=◌, kept) run,
          record {
            cells = λ q. ground (arith, w.cells q, d.0);
            chain = λ q. ground (arith, w.chain q, d.0);
            s_value = w.s_value;
            sv_head = w.sv_head;
          },
        )
    | inr dropped ↦
        let m₁ = set_activation a none m in
        let (m', run, w) =
          sweep_activations_lem l acc m₁ d.1 (some_moved m.activation a _ l d.0 h.1) in
        (
          m',
          rw (e, ◌>>=◌, dropped) run,
          record {
            cells = λ q. ground (arith, w.cells q, d.0);
            chain = λ q. ground (arith, w.chain q, d.0);
            s_value = w.s_value;
            sv_head = w.sv_head;
          },
        )
  ]
]
