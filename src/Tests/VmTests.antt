-- ===== src/Tests/VmTests.antt =====
-- lib/vm.c and lib/builtin.c at small states: a closure of one argument and one local variable, about to
-- be called from a record on the heap.
use bhuna.Prelude.{
  ℕ, zero, suc, ◌+◌, ◌<◌, ◌≡◌, ◌⊎◌, refl, true, false, Option, none, some, [], ◌∷◌, arith, ◌>>=◌,
}
use bhuna.Prelude.Int.{pos, negsuc, quot_ℤ, rem_ℤ}
use bhuna.Value.{structured, Kind, integer, null, atom, Closure}
use bhuna.Memory.{Payload, list, closure, SValue, Activation, Memory, update, activation_get_value}
use bhuna.Builtin.{Answer, value, error, answer, no_such_element, builtin_mod}
use bhuna.Process.{Process}
use bhuna.Vm.Spawn.{Addresses}
use bhuna.Builtin.Containers.{fetch, store, builtin_list, list_at}
use bhuna.Builtin.Elements.{fetch-store, builtin_list-values}
use bhuna.Vm.{World, Vm, jmp}
use bhuna.Vm.Operators.{mod_op, div_op, inline_values, builtin_of-inline_values}
use bhuna.Vm.Step.{running, time_expired, State, step_call, step_ret, step_goto}
use bhuna.Vm.Frames.{Fills}
use bhuna.Vm.Calls.{IsCallable, Enters, step_call-Enters, step_ret-Enters}
use bhuna.Vm.TailCalls.{IsTailCallable, step_goto-Fills}
use bhuna.Vm.Run.{Machine, vm_run}
use bhuna.Vm.Slices.{Rounds, Ends, vm_run-slice}

abbrev square : Closure
square = record { label = 40; ar = none; arity = 1; locals = 1; cc = 0 }

abbrev cell : Payload → Option SValue
cell x = some (record { marked = false; permanent = false; payload = x })

-- The closure at 0, a list at 1.
abbrev objects : ℕ → Option SValue
objects zero = cell (closure square)
objects (suc zero) = cell (list (atom 4 ∷ atom 5 ∷ []))
objects _ = none

abbrev main_record : Activation
main_record = record {
  marked = false;
  on_stack = false;
  caller = none;
  enclosing = none;
  values = integer (pos 7) ∷ integer (pos 2) ∷ [];
}

abbrev records : ℕ → Option Activation
records zero = some main_record
records _ = none

abbrev heap : Memory
heap = record {
  s_value = objects;
  sv_head = [];
  activation = records;
  a_head = 0 ∷ [];
  unset = λ a i. null;
  stray = λ p. [];
}

abbrev world : World
world = record {
  memory = heap;
  processes = record {
    cell = λ p. none;
    current_process = none;
    run_head = none;
    wait_head = none;
    procno = 1;
  };
}

-- A loop of one jump.
abbrev vm : Vm
vm = record {
  program = λ pc. some (jmp 10);
  pc = 10;
  vstack = structured Kind.closure 0 ∷ integer (pos 3) ∷ [];
  cstack = [];
  astack = 1000;
  astack_ptr = 0;
  current_ar = some 0;
}

vm-IsCallable : IsCallable 0 square (integer (pos 3) ∷ []) [] vm heap
vm-IsCallable = record {
  found = refl;
  uncaptured = refl;
  operands = refl;
  arity = refl;
  astack_room = omega arith;
  cstack_room = omega arith;
}

vm-IsTailCallable : IsTailCallable 0 0 square main_record (integer (pos 3) ∷ []) [] vm heap
vm-IsTailCallable = record {
  found = refl;
  operands = refl;
  arity = refl;
  current = refl;
  cell = refl;
  fits = omega arith;
}

step_call-Enters_example :
    (s : State) × (step_call 9 (vm, world) ≡ some (running, s))
    × Enters square (integer (pos 3) ∷ []) [] vm world s
step_call-Enters_example =
    step_call-Enters 9 0 square (integer (pos 3) ∷ []) [] vm world vm-IsCallable

square_call :
    (s : State) × (step_call 9 (vm, world) ≡ some (running, s))
    × Enters square (integer (pos 3) ∷ []) [] vm world s
square_call = step_call-Enters 9 0 square (integer (pos 3) ∷ []) [] vm world vm-IsCallable

-- The body's record, and the heap while it is there.
abbrev body_record : Activation
body_record = record {
  marked = false;
  on_stack = true;
  caller = some 0;
  enclosing = none;
  values = integer (pos 9) ∷ null ∷ [];
}

abbrev body_world : World
body_world = record world { memory = record heap { activation = λ a. some body_record } }

abbrev entered : State
entered = square_call.0

step_ret-Enters_example :
    step_ret (record (entered.0) { pc = 44; vstack = integer (pos 9) ∷ [] }, body_world)
    ≡ some (
      running,
      (
        record vm { pc = vm.pc + 1; vstack = integer (pos 9) ∷ [] },
        record body_world {
          memory = record (body_world.memory) {
            activation = update body_world.memory.activation 1000 none;
          };
        },
      ),
    )
step_ret-Enters_example =
    step_ret-Enters square (integer (pos 3) ∷ []) [] (integer (pos 9) ∷ []) vm world body_world
      entered 44 0 body_record square_call.2 refl refl refl refl refl

step_goto-Fills_example :
    (m' : Memory) × (step_goto 9 (vm, world)
      ≡ some (running, (record vm { pc = 40; vstack = [] }, record world { memory = m' })))
    × Fills 0 1 (integer (pos 3) ∷ []) main_record heap m'
step_goto-Fills_example =
    step_goto-Fills 9 0 0 square main_record (integer (pos 3) ∷ []) [] vm world vm-IsTailCallable

abbrev machine : Machine
machine = record {
  self = 5;
  vm = vm;
  world = world;
  vms = λ p. none;
  gc_target = 100;
  gc_trigger = 100;
}

vm_run-slice_example :
    (c : ℕ) × (s : Machine) × Rounds 8 (λ n. n) 200 0 machine c s
    × (c < 256)
    × Ends 8 (λ n. n) 200 c s (vm_run 1000 8 (λ n. n) 200 0 machine)
vm_run-slice_example =
    vm_run-slice 8 (λ n. n) 200 256 1000 0 machine (omega arith) (omega arith) refl (omega arith)

-- The loop of one jump is interrupted.
expires_at_256 : vm_run 256 8 (λ n. n) 200 0 machine ≡ some (time_expired, machine)
unfolding vm_run
expires_at_256 = refl

argument_0 : activation_get_value (some 0) 0 0 heap ≡ some (integer (pos 7))
unfolding activation_get_value
argument_0 = refl

argument_1 : activation_get_value (some 0) 1 0 heap ≡ some (integer (pos 2))
unfolding activation_get_value
argument_1 = refl

builtin_of-inline_values_example :
    builtin_mod 9 0 heap
    ≡ (inline_values mod_op (integer (pos 7)) (integer (pos 2)) >>= λ a. some (answer 9 a heap))
builtin_of-inline_values_example =
    builtin_of-inline_values mod_op 9 0 (integer (pos 7)) (integer (pos 2)) heap argument_0
      argument_1

fetch-store_example :
    (a : Answer) × (m' : Memory) × (store (structured Kind.list 1) (integer (pos 2)) null heap
      ≡ some (a, m'))
    × (((a ≡ value (structured Kind.list 1))
          × (fetch (structured Kind.list 1) (integer (pos 2)) m' ≡ some (value null)))
        ⊎ ((a ≡ error no_such_element) × (m' ≡ heap)))
fetch-store_example =
    fetch-store 1
      (record { marked = false; permanent = false; payload = list (atom 4 ∷ atom 5 ∷ []) })
      (atom 4 ∷ atom 5 ∷ []) (pos 2) null heap refl refl

builtin_list-values_example :
    (m' : Memory) × (builtin_list 9 0 heap ≡ some (structured Kind.list 9, m'))
    × (list_at m' 9 ≡ some (integer (pos 7) ∷ integer (pos 2) ∷ []))
    × (m'.activation ≡ heap.activation)
builtin_list-values_example = builtin_list-values 9 0 main_record heap refl

divides_down :
    inline_values div_op (integer (negsuc 6)) (integer (pos 2)) ≡ some (value (integer (negsuc 2)))
unfolding inline_values quot_ℤ
divides_down = refl

remains_negative :
    inline_values mod_op (integer (negsuc 6)) (integer (pos 2)) ≡ some (value (integer (negsuc 0)))
unfolding inline_values quot_ℤ rem_ℤ
remains_negative = refl

abbrev new_addresses : Addresses
new_addresses = record { vm = 20; astack = 3000; record_at = 21; process = 22 }
