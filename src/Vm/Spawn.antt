-- ===== src/Vm/Spawn.antt =====
-- lib/process.c, lib/builtin.c: a closure becomes a process with a vm of its own.
use bhuna.Prelude.{ℕ, ◌+◌, Option, none, some, ◌>>=◌}
use bhuna.Value.{Closure}
use bhuna.Memory.{update, activation_new_on_heap}
use bhuna.Process.{Process, process_new}
use bhuna.Vm.{Vm, vm_new, vm_set_pc}
use bhuna.Vm.Run.{Machine}

-- What `malloc` returns for the vm, its activation stack, its first record and the process.
pub record Addresses : Type 0 where
  pub vm : ℕ
  pub astack : ℕ
  pub record_at : ℕ
  pub process : ℕ

-- The vm of a process that starts in the closure.
unfoldable pub spawned_vm : Addresses → Closure → Machine → Vm
unfolding vm_new vm_set_pc
spawned_vm at k s = record (vm_set_pc k.label (vm_new s.vm.program at.astack)) {
  current_ar = some at.record_at;
}

-- The running process is the one of `s.vm`, whose program the new vm shares.
unfoldable pub process_spawn : Addresses → Closure → Machine → Option (ℕ × Machine)
unfolding spawned_vm
process_spawn at k s = process_new at.process at.vm s.world.processes >>= λ ps. some (
  at.process,
  record s {
    vms = update s.vms at.vm (some (spawned_vm at k s));
    world = record {
      memory = activation_new_on_heap at.record_at (k.arity + k.locals) none k.ar s.world.memory;
      processes = ps;
    };
  },
)
