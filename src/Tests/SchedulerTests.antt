-- ===== src/Tests/SchedulerTests.antt =====
-- lib/process.c's scheduler at two processes on the run list, the first of which is about to halt.
use bhuna.Prelude.{ℕ, zero, suc, ◌≡◌, refl, false, Option, none, some, List, [], ◌∷◌, ◌++◌}
use bhuna.Prelude.{arith, ◌≢◌}
use bhuna.Prelude.Int.{pos}
use bhuna.Value.{null, integer, atom, opaque}
use bhuna.Memory.{Memory, update}
use bhuna.Process.{Process, Cells, Processes, process_sleep, process_send, process_awaken}
use bhuna.Process.Mail.{mail}
use bhuna.Process.Queues.{IsQueues}
use bhuna.Vm.{Vm, Instr, World}
use bhuna.Vm.Step.{Status, step_recv, vm_step}
use bhuna.Vm.Messages.{send_entry, vm_step-send}
use bhuna.Vm.Receive.{step_recv-resumes}
use bhuna.Vm.Run.{Machine, vm_run}
use bhuna.Vm.Queueing.{Grows-refl}
use bhuna.Vm.Scheduler.{timeslice, schedule}
use bhuna.Vm.Fairness.{switched, current-IsQueues, schedule-successor}

abbrev ready : ℕ → Option ℕ → Option ℕ → Process
ready n next prev = record {
  asleep = false;
  number = n;
  next = next;
  prev = prev;
  vm = n;
  msg_head = [];
}

abbrev cells : Cells
cells zero = some (ready 0 (some 1) none)
cells (suc zero) = some (ready 1 none (some 0))
cells _ = none

abbrev two : Processes
two = record {
  cell = cells;
  current_process = none;
  run_head = some 0;
  wait_head = none;
  procno = 2;
}

two-IsQueues : IsQueues two (0 ∷ 1 ∷ []) []
two-IsQueues = record {
  run_chain = (
    some 1,
    (
      refl,
      (
        ready 0 (some 1) none,
        refl,
        refl,
        refl,
        (refl, (ready 1 none (some 0), refl, refl, refl, (refl, refl))),
      ),
    ),
  );
  wait_chain = (none, (refl, refl));
  run_distinct = (refl, (refl, tt));
  wait_distinct = tt;
  apart = λ q h. refl;
}

abbrev halting : Vm
halting = record {
  program = λ a. some Instr.halt;
  pc = 0;
  vstack = [];
  cstack = [];
  astack = 0;
  astack_ptr = 0;
  current_ar = none;
}

abbrev machine : Machine
machine = record {
  self = 1;
  vm = halting;
  world = record {
    memory = record {
      s_value = λ p. none;
      sv_head = [];
      activation = λ p. none;
      a_head = [];
      unset = λ a i. null;
      stray = λ p. [];
    };
    processes = two;
  };
  vms = λ v. some halting;
  gc_target = 8;
  gc_trigger = 8;
}

abbrev begun : Machine
begun = switched 0 (ready 0 (some 1) none) halting machine

begun-halts : vm_run 1 0 (λ x. x) timeslice 0 begun ≡ some (Status.terminated, begun)
unfolding vm_run
begun-halts = refl

schedule-successor_example :
    (more : List ℕ) × (wait : List ℕ) × (s : Machine) × (schedule 1 0 (λ x. x) 0 machine
      ≡ some (some 1, s))
    × IsQueues s.world.processes ((more ++ []) ++ 1 ∷ []) wait
schedule-successor_example =
    schedule-successor 1 0 (λ x. x) 0 (ready 0 (some 1) none) halting Status.terminated machine
      begun [] (1 ∷ []) [] two-IsQueues refl refl begun-halts
      (Grows-refl begun.world.processes begun.world.processes refl)

-- The first process, about to receive.
abbrev receiving : Vm
receiving = record halting { vstack = integer (pos 5) ∷ [] }

abbrev receiving_world : World
receiving_world = record (machine.world) { processes = record two { current_process = some 0 } }

step_recv-resumes_example :
    (step_recv 7 (receiving, receiving_world) ≡ some (Status.waiting, (receiving, receiving_world)))
    × ((s₁ : Processes) × (s₂ : Processes) × (s₃ : Processes) × (process_sleep 0
            receiving_world.processes
          ≡ some s₁)
        × IsQueues s₁ (1 ∷ []) (0 ∷ [])
        × (process_send 0 (atom 8) s₁ ≡ some s₂)
        × IsQueues s₂ (0 ∷ 1 ∷ []) []
        × (step_recv 8 (
          receiving,
          record receiving_world { processes = record s₂ { current_process = some 0 } },
        )
            ≡ some (
              Status.running,
              (
                record receiving { pc = 1; vstack = atom 8 ∷ [] },
                record receiving_world { processes = s₃ },
              ),
            ))
        × IsQueues s₃ (0 ∷ 1 ∷ []) []
        × (mail s₃.cell 0 ≡ some []))
step_recv-resumes_example =
    step_recv-resumes 7 8 0 (pos 5) (atom 8) [] receiving receiving_world (ready 0 (some 1) none) []
      (1 ∷ []) [] refl (omega arith) refl refl refl
      (current-IsQueues two 0 (0 ∷ 1 ∷ []) [] two-IsQueues)

-- The first process, about to send to the second one.
abbrev sending : Vm
sending = record halting { vstack = atom 8 ∷ opaque 1 ∷ [] }

abbrev sent : Processes
sent = record two {
  cell = update cells 1 (some (record (ready 1 none (some 0)) { msg_head = atom 8 ∷ [] }));
}

sends : process_send 1 (atom 8) two ≡ some sent
unfolding process_send process_awaken
sends = refl

vm_step-send_example :
    (m : Memory) × (vm_step (Instr.builtin send_entry) 7 (sending, machine.world)
      ≡ some (
        Status.running,
        (
          record sending { pc = 1; vstack = [] },
          record (machine.world) { memory = m; processes = sent },
        ),
      ))
    × ((b : ℕ) → b ≢ 0 → m.activation b ≡ machine.world.memory.activation b)
    × (m.s_value ≡ machine.world.memory.s_value)
    × (m.sv_head ≡ [])
    × (m.a_head ≡ [])
vm_step-send_example =
    vm_step-send 7 1 (atom 8) [] sending machine.world sent refl (omega arith) sends
