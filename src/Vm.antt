-- ===== src/Vm.antt =====
-- lib/vm.c, lib/vm.h, and the activation records on a vm's stack of lib/activation.c.
pub mod Operators
pub mod Step
pub mod Frames
pub mod Calls
pub mod TailCalls
pub mod Run
pub mod Slices
pub mod Spawn
pub mod Queueing
pub mod Scheduler
pub mod Fairness
pub mod Receive
pub mod BuiltinCalls
pub mod Messages
use bhuna.Prelude.{
  ℕ, zero, suc, ◌+◌, ◌-◌, ◌*◌, Bool, true, false, Option, none, some, List, [], ◌∷◌, if◌then◌else◌,
  ltb, leb, length, set, ◌>>=◌,
}
use bhuna.Value.{Value}
use bhuna.Memory.{Activation, Memory, update, unset_values}
use bhuna.Process.{Processes}
use bhuna.Vm.Operators.{Inline}

-- What an operation changes besides the vm.
pub record World : Type 0 where
  pub memory : Memory
  pub processes : Processes

-- What the vm reads of a `struct builtin`; an arity of -1 is `none`. The function is given the address
-- for a new value, and the activation record. It reaches the heap and the processes, but no vm:
-- Spawn is none of these, but `process_spawn` of Vm/Spawn, on the whole machine.
pub record Builtin : Type 0 where
  pub arity : Option ℕ
  pub retval : Bool
  pub fn : ℕ → ℕ → World → Option (Value × World)

-- An instruction with the operands that follow its byte.
pub data Instr : Type 0 where
  halt : Instr
  inline_not : Instr
  inline : Inline → Instr
  recv : Instr
  push_value : Value → Instr
  push_zero push_one push_two : Instr
  push_local : (index upcount : ℕ) → Instr
  pop_local : (index upcount : ℕ) → Instr
  init_local : ℕ → Instr
  jmp : ℕ → Instr
  jz : ℕ → Instr
  call goto ret set_activation : Instr
  cow_local : (index upcount : ℕ) → Instr
  external : Builtin → Instr
  builtin : Builtin → Instr

-- `struct vm`. A label is an offset in the program, whose bytes are read as an instruction where one
-- begins; the stacks are lists with the top first. `astack` is the address of the activation stack,
-- and `astack_ptr` counts from it.
pub record Vm : Type 0 where
  pub program : ℕ → Option Instr
  pub pc : ℕ
  pub vstack : List Value
  pub cstack : List ℕ
  pub astack : ℕ
  pub astack_ptr : ℕ
  pub current_ar : Option ℕ

abbrev pub vstack_size : ℕ
vstack_size = 65536

abbrev pub cstack_size : ℕ
cstack_size = 8192

abbrev pub astack_size : ℕ
astack_size = 65536

-- `sizeof` of `struct value`, `struct activation`, and of a pointer, where pointers have 64 bits.
abbrev pub sizeof_value : ℕ
sizeof_value = 16

abbrev pub sizeof_activation : ℕ
sizeof_activation = 32

abbrev pub sizeof_pointer : ℕ
sizeof_pointer = 8

unfoldable pub vm_new : (ℕ → Option Instr) → ℕ → Vm
vm_new program astack = record {
  program = program;
  pc = 0;
  vstack = [];
  cstack = [];
  astack = astack;
  astack_ptr = 0;
  current_ar = none;
}

unfoldable pub vm_set_pc : ℕ → Vm → Vm
vm_set_pc pc vm = record vm { pc = pc }

-- The macros PUSH_VALUE, POP_VALUE, PUSH_PC and POP_PC. The source tests for no end of a stack; `none`
-- is an access outside of its array, which C leaves undefined.
abbrev pub do_push_value : Value → Vm → Option Vm
do_push_value v vm =
    if ltb (length vm.vstack) vstack_size then some (record vm { vstack = v ∷ vm.vstack }) else none

abbrev pub do_pop_value : Vm → Option (Value × Vm)
do_pop_value vm = elim vm.vstack [ [] ↦ none | v ∷ rest ↦ some (v, record vm { vstack = rest }) ]

abbrev pub push_pc : ℕ → Vm → Option Vm
push_pc pc vm =
    if ltb (length vm.cstack) cstack_size
    then some (record vm { cstack = pc ∷ vm.cstack })
    else none

abbrev pub pop_pc : Vm → Option (ℕ × Vm)
pop_pc vm = elim vm.cstack [ [] ↦ none | pc ∷ rest ↦ some (pc, record vm { cstack = rest }) ]

-- The bytes of a record of `size` values.
abbrev pub frame_bytes : ℕ → ℕ
frame_bytes size = sizeof_activation + sizeof_value * size

-- The record's address, and the vm and the heap with it. `none` is a record that is not all within the
-- array, for which the source has no test.
unfoldable pub activation_new_on_stack :
    ℕ → Option ℕ → Option ℕ → Vm → Memory → Option (ℕ × Vm × Memory)
activation_new_on_stack size caller enclosing vm m =
    let a = vm.astack + vm.astack_ptr in
    let r : Activation = record {
      marked = false;
      on_stack = true;
      caller = caller;
      enclosing = enclosing;
      values = unset_values m a size;
    } in
    if leb (vm.astack_ptr + frame_bytes size) astack_size
    then some (
      a,
      record vm { astack_ptr = vm.astack_ptr + frame_bytes size },
      record m { activation = update m.activation a (some r) },
    )
    else none

-- The record is not used again. `none` is a pointer that would leave the array at its lower end.
unfoldable pub activation_free_from_stack : ℕ → Vm → Memory → Option (Vm × Memory)
activation_free_from_stack a vm m = m.activation a >>= λ r.
    if leb (frame_bytes (length r.values)) vm.astack_ptr
    then some (
      record vm { astack_ptr = vm.astack_ptr - frame_bytes (length r.values) },
      record m { activation = update m.activation a none },
    )
    else none

unfoldable pub activation_initialize_value : ℕ → ℕ → Value → Memory → Option Memory
activation_initialize_value a index v m = m.activation a >>= λ r.
    if ltb index (length r.values)
    then some (record m {
      activation = update m.activation a (some (record r { values = set r.values index v }));
    })
    else none
