-- ===== src/Vm/Run.antt =====
-- lib/vm.c: the loop of `vm_run`, with its collections and its time slice.
use bhuna.Prelude.{
  ℕ, zero, suc, ◌+◌, ◌%◌, Bool, true, false, Option, none, some, List, [], ◌∷◌, if◌then◌else◌, ltb,
  leb, length, ◌>>=◌, ◌==◌,
}
use bhuna.Memory.{update}
use bhuna.Process.{Processes}
use bhuna.Gc.{Root, gc}
use bhuna.Vm.{World, Vm, Instr, halt}
use bhuna.Vm.Step.{Status, running, terminated, time_expired, State, vm_step}

-- The vm that runs, at the address `self`, and what it shares: the heap and the processes, the vms of
-- the other processes, and the collector's target and trigger.
pub record Machine : Type 0 where
  pub self : ℕ
  pub vm : Vm
  pub world : World
  pub vms : ℕ → Option Vm
  pub gc_target : ℕ
  pub gc_trigger : ℕ

abbrev root_of : Vm → Root
root_of vm = record { current_ar = vm.current_ar; vstack = vm.vstack }

-- The processes from the pointer on, with what the collector reads of their vms.
unfoldable pub roots_from : ℕ → Option ℕ → Processes → (ℕ → Option Vm) → Option (List Root)
roots_from n none ps vms = some []
roots_from zero (some p) ps vms = none
roots_from (suc n) (some p) ps vms = ps.cell p >>= λ r.
    vms r.vm >>= λ vm. roots_from n r.next ps vms >>= λ roots. some (root_of vm ∷ roots)

-- The collection that every 256th round may make. `v_count` is always 0, and `a_count` is the number of
-- records on the heap.
unfoldable pub collect : ℕ → Machine → Option Machine
unfolding roots_from
collect n s =
    if ltb s.gc_target (length s.world.memory.a_head)
    then (roots_from n s.world.processes.run_head s.world.processes
          (update s.vms s.self (some s.vm))
        >>= λ roots. gc n roots s.world.memory >>= λ m. some (record s {
          world = record (s.world) { memory = m };
          gc_target = length m.a_head + s.gc_trigger;
        }))
    else some s

abbrev pub is_halt : Instr → Bool
is_halt halt = true
is_halt _ = false

abbrev with_state : Machine → Status × State → Status × Machine
with_state s (st, (vm, w)) = (st, record s { vm = vm; world = w })

-- The `switch`, where the time slice has not expired.
unfoldable pub vm_switch : Instr → ℕ → Machine → Option (Status × Machine)
unfolding vm_step
vm_switch i p s = vm_step i p (s.vm, s.world) >>= λ t. some (with_state s t)

-- One round of the loop; `xcount` is the counter after its increment, `n` the collector's fuel.
unfoldable pub vm_round : ℕ → Instr → ℕ → ℕ → ℕ → Machine → Option (Status × Machine)
unfolding collect vm_switch
vm_round n i p xmax xcount s =
    if is_halt i
    then some (terminated, s)
    else if xcount % 256 == 0
    then (collect n s >>= λ s₁.
        if leb xmax xcount then some (time_expired, s₁) else vm_switch i p s₁)
    else vm_switch i p s

-- The result, or the next rounds where the loop goes on.
abbrev pub proceed : Option (Status × Machine) → Status → Machine → Option (Status × Machine)
proceed rest running s = rest
proceed rest st s = some (st, s)

-- The loop on fuel, from a value of `xcount` on. `malloc` gives the address for the round.
unfoldable pub vm_run : ℕ → ℕ → (ℕ → ℕ) → ℕ → ℕ → Machine → Option (Status × Machine)
unfolding vm_round
vm_run zero n malloc xmax xcount s = none
vm_run (suc fuel) n malloc xmax xcount s = s.vm.program s.vm.pc >>= λ i.
    vm_round n i (malloc xcount) xmax (xcount + 1) s >>= λ (st, s').
    proceed (vm_run fuel n malloc xmax (xcount + 1) s') st s'
