-- ===== src/Gc/Collect.antt =====
-- lib/gc.c: a whole collection. It frees what the run list does not reach, and keeps what it reaches.
use bhuna.Prelude.{
  ℕ, suc, ◌<◌, ◌≡◌, ◌⊎◌, refl, ◌∙◌, true, false, none, some, List, [], All, All-mono, ◌>>=◌,
}
use bhuna.Prelude.Distinct.{listed, IsDistinct}
use bhuna.Memory.{SValue, Activation, Memory}
use bhuna.Gc.{Root, gc, activation_mark}
use bhuna.Gc.Graph.{Node, sv, ar, is_allocated, is_marked, Reach, is_some, count_unmarked}
use bhuna.Gc.Marks.{Marks}
use bhuna.Gc.Works.{IsReady, Works}
use bhuna.Gc.Total.{root_nodes, mark_roots-Works}
use bhuna.Gc.Sweep.{sweep_s_values_lem, sweep_activations_lem}
use bhuna.Gc.Outcome.{
  Outcome, is_some_clear_s, is_some_clear_a, Outcome-sweeps, keep_s, free_s, keep_a, free_a,
  stale_a,
}

-- What a collection starts from: sound pointers, two chains of allocated cells, and no marks.
pub record IsCollectable (all : List Node) (ps : List Root) (m : Memory) : Type 0 where
  pub ready : IsReady all m
  pub roots : All (λ x. is_allocated m x ≡ true) (root_nodes ps)
  pub unmarked : (x : Node) → is_marked m x ≡ false
  pub sv_distinct : IsDistinct m.sv_head
  pub sv_cells : All (λ p. is_some (m.s_value p) ≡ true) m.sv_head
  pub a_distinct : IsDistinct m.a_head
  pub a_cells : All (λ a. is_some (m.activation a) ≡ true) m.a_head

-- What it leaves.
pub record Collects (ps : List Root) (m m' : Memory) : Type 0 where
  -- A structured value that the run list reaches, or a permanent one, is as it was.
  pub keeps_s_value :
      (p : ℕ) (s : SValue)
      → m.s_value p ≡ some s
      → listed m.sv_head p ≡ true
      → Reach m (root_nodes ps) (sv p) ⊎ (s.permanent ≡ true)
      → (m'.s_value p ≡ some s) × (listed m'.sv_head p ≡ true)
  -- Any other on the chain is freed.
  pub frees_s_value :
      (p : ℕ) (s : SValue)
      → m.s_value p ≡ some s
      → listed m.sv_head p ≡ true
      → ¬ Reach m (root_nodes ps) (sv p)
      → s.permanent ≡ false
      → (m'.s_value p ≡ none) × (listed m'.sv_head p ≡ false)
  pub keeps_activation :
      (a : ℕ) (r : Activation)
      → m.activation a ≡ some r
      → listed m.a_head a ≡ true
      → Reach m (root_nodes ps) (ar a)
      → (m'.activation a ≡ some r) × (listed m'.a_head a ≡ true)
  pub frees_activation :
      (a : ℕ) (r : Activation)
      → m.activation a ≡ some r
      → listed m.a_head a ≡ true
      → ¬ Reach m (root_nodes ps) (ar a)
      → (m'.activation a ≡ none) × (listed m'.a_head a ≡ false)
  -- A reached activation that is not on the chain, one on a vm's stack, is left with its mark.
  pub stale_mark :
      (a : ℕ) (r : Activation)
      → m.activation a ≡ some r
      → listed m.a_head a ≡ false
      → Reach m (root_nodes ps) (ar a)
      → m'.activation a ≡ some (record r { marked = true })

gc-Outcome :
    (all : List Node) (n : ℕ) (ps : List Root) (m : Memory)
    → IsCollectable all ps m
    → count_unmarked all m < n
    → (m' : Memory) × (gc n ps m ≡ some m')
      × ((m₁ : Memory) × Marks m m₁ (root_nodes ps) × Outcome m m₁ m')
unfolding gc Works
gc-Outcome all n ps m c lt =
    let (m₁, e₁, k) = mark_roots-Works all n ps m c.ready c.roots lt in
    let (m₂, e₂, w₂) = sweep_activations_lem m₁.a_head [] m₁ (rw k.same.a_head c.a_distinct) (
      rw k.same.a_head (
        All-mono (λ a. is_some (m.activation a) ≡ true) (λ a. is_some (m₁.activation a) ≡ true)
          (λ a h. is_some_clear_a (m.activation a) (m₁.activation a) (k.same.activations a) ∙ h)
          m.a_head c.a_cells)) in
    let (m', e₃, w₃) =
      sweep_s_values_lem m₂.sv_head [] m₂ (rw (w₂.sv_head, k.same.sv_head) c.sv_distinct) (
        rw (w₂.sv_head, w₂.s_value, k.same.sv_head)
          (All-mono (λ p. is_some (m.s_value p) ≡ true) (λ p. is_some (m₁.s_value p) ≡ true)
            (λ p h. is_some_clear_s (m.s_value p) (m₁.s_value p) (k.same.s_values p) ∙ h) m.sv_head
            c.sv_cells)) in
    (m', rw (e₁, ◌>>=◌, e₂, e₃) refl, (m₁, k, Outcome-sweeps m m₁ m₂ m' k.same w₂ w₃))

-- A collection of an unmarked memory with sound pointers, and with fuel for its objects, returns. It
-- keeps what the run list reaches and what is permanent, frees the rest of both chains, and leaves
-- its mark on every reached activation that is not on the chain.
pub gc-Collects :
    (all : List Node) (n : ℕ) (ps : List Root) (m : Memory)
    → IsCollectable all ps m
    → count_unmarked all m < n
    → (m' : Memory) × (gc n ps m ≡ some m') × Collects ps m m'
gc-Collects all n ps m c lt =
    let (m', run, (m₁, k, o)) = gc-Outcome all n ps m c lt in
    (
      m',
      run,
      record {
        keeps_s_value = keep_s k o c.unmarked;
        frees_s_value = free_s k o c.unmarked;
        keeps_activation = keep_a k o c.unmarked;
        frees_activation = free_a k o c.unmarked;
        stale_mark = stale_a k o c.unmarked;
      },
    )

-- Marking from an activation that still has its mark does nothing: what it holds is not visited.
pub activation_mark-stale :
    (n a : ℕ) (r : Activation) (m : Memory)
    → m.activation a ≡ some r
    → r.marked ≡ true
    → activation_mark (suc n) (some a) m ≡ some m
unfolding activation_mark
activation_mark-stale n a r m e h = rw (e, ◌>>=◌, h) refl
