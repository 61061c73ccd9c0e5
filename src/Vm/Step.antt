-- ===== src/Vm/Step.antt =====
-- lib/vm.c: one round of the `switch` of `vm_run`, with the `vm->pc++` after it.
use bhuna.Prelude.{
  ℕ, zero, suc, ◌+◌, ◌-◌, Bool, true, false, Option, none, some, if◌then◌else◌, ltb, length, ◌>>=◌,
}
use bhuna.Prelude.Int.{pos, eqb_ℤ}
use bhuna.Value.{Value, integer, boolean, structured, Kind, Closure}
use bhuna.Memory.{
  closure, Activation, Memory, activation_new_on_heap, activation_get_value, activation_set_value,
}
use bhuna.Process.{process_recv}
use bhuna.Builtin.{error, answer, type_mismatch}
use bhuna.Builtin.Containers.{closure_at, put_payload}
use bhuna.Vm.Operators.{Inline, inline_values, inline_negation}
use bhuna.Vm.{
  World, Builtin, Instr, halt, inline_not, inline, recv, push_value, push_zero, push_one, push_two,
  push_local, pop_local, init_local, jmp, jz, call, goto, ret, set_activation, cow_local, external,
  builtin, Vm, sizeof_value, sizeof_pointer, do_push_value, do_pop_value, push_pc, pop_pc,
  activation_new_on_stack, activation_free_from_stack, activation_initialize_value,
}

-- Whether the loop goes on, or what `vm_run` returns.
pub data Status : Type 0 where
  running terminated returned time_expired waiting : Status

abbrev pub State : Type 0
State = Vm × World

abbrev pub Outcome : Type 0
Outcome = Option (Status × State)

-- The next instruction is at `pc`.
abbrev pub next : ℕ → Vm → World → Outcome
next pc vm w = some (running, (record vm { pc = pc }, w))

abbrev pub push_next : ℕ → Value → Vm → World → Outcome
push_next pc v vm w = do_push_value v vm >>= λ vm'. next pc vm' w

abbrev with_memory : World → Memory → World
with_memory w m = record w { memory = m }

-- `l.v.b`. A member of the union that was not stored is not modelled, but for the two `int`s.
abbrev pub v_b : Value → Option Bool
v_b (boolean b) = some b
v_b (integer i) = some (elim (eqb_ℤ i (pos 0)) [ true ↦ false | false ↦ true ])
v_b _ = none

-- `l.v.i` where it is a number of arguments.
abbrev pub v_i : Value → Option ℕ
v_i (integer (pos n)) = some n
v_i _ = none

-- `l.v.s->v.k`, with the address of the structured value.
abbrev pub v_k : Memory → Value → Option (ℕ × Closure)
v_k m (structured Kind.closure q) = closure_at m q >>= λ k. some (q, k)
v_k m _ = none

-- The operators with their operands on the stack.
unfoldable pub step_not : ℕ → State → Outcome
unfolding inline_negation
step_not p (vm, w) = do_pop_value vm >>= λ (l, vm₁). inline_negation l >>= λ a.
    let (v, m) = answer p a w.memory in push_next (vm.pc + 1) v vm₁ (with_memory w m)

unfoldable pub step_inline : Inline → ℕ → State → Outcome
unfolding inline_values
step_inline op p (vm, w) = do_pop_value vm >>= λ (r, vm₁). do_pop_value vm₁ >>= λ (l, vm₂).
    inline_values op l r >>= λ a.
    let (v, m) = answer p a w.memory in push_next (vm.pc + 1) v vm₂ (with_memory w m)

-- After `process_recv`: the message, or the argument again and a wait.
abbrev pub deliver : ℕ → Value → Option Value → Vm → World → Outcome
deliver pc l none vm w = do_push_value l vm >>= λ vm'. some (waiting, (vm', w))
deliver pc l (some r) vm w = push_next (pc + 1) r vm w

-- INDEX_BUILTIN_RECV at `pc`, with its argument popped. A process that waits will run it again.
abbrev pub receive : ℕ → ℕ → Value → Vm → World → Outcome
receive p pc (integer i) vm w = process_recv w.processes >>= λ (o, ps).
    deliver pc (integer i) o vm (record w { processes = ps })
receive p pc _ vm w =
    let (v, m) = answer p (error type_mismatch) w.memory in
    push_next (pc + 1) v vm (record w { memory = m })

unfoldable pub step_recv : ℕ → State → Outcome
step_recv p (vm, w) = do_pop_value vm >>= λ (l, vm₁). receive p vm.pc l vm₁ w

unfoldable pub step_push_local : ℕ → ℕ → State → Outcome
step_push_local index upcount (vm, w) =
    activation_get_value vm.current_ar index upcount w.memory >>= λ l.
    push_next (vm.pc + 1 + 2) l vm w

unfoldable pub step_pop_local : ℕ → ℕ → State → Outcome
step_pop_local index upcount (vm, w) = do_pop_value vm >>= λ (l, vm₁).
    activation_set_value vm.current_ar index upcount l w.memory >>= λ m.
    next (vm.pc + 1 + 2) vm₁ (with_memory w m)

unfoldable pub step_init_local : ℕ → State → Outcome
unfolding activation_initialize_value
step_init_local index (vm, w) = do_pop_value vm >>= λ (l, vm₁). vm.current_ar >>= λ a.
    activation_initialize_value a index l w.memory >>= λ m.
    next (vm.pc + 1 + 2) vm₁ (with_memory w m)

unfoldable pub step_jz : ℕ → State → Outcome
step_jz label (vm, w) = do_pop_value vm >>= λ (l, vm₁).
    v_b l >>= λ b. next (if b then vm.pc + 1 + sizeof_pointer else label) vm₁ w

-- The record for a call, on the heap or on the stack. `p` is the address that `malloc` returns.
unfoldable pub new_record : ℕ → Closure → Vm → Memory → Option (ℕ × Vm × Memory)
unfolding activation_new_on_stack
new_record p k vm m =
    if ltb 0 k.cc
    then some (p, vm, activation_new_on_heap p (k.arity + k.locals) vm.current_ar k.ar m)
    else activation_new_on_stack (k.arity + k.locals) vm.current_ar k.ar vm m

-- The loop that fills a record with the `n` arguments, the last one first.
unfoldable pub fill_record : ℕ → ℕ → Vm → Memory → Option (Vm × Memory)
unfolding activation_initialize_value
fill_record a zero vm m = some (vm, m)
fill_record a (suc i) vm m = do_pop_value vm >>= λ (r, vm₁).
    activation_initialize_value a i r m >>= λ m₁. fill_record a i vm₁ m₁

unfoldable pub step_call : ℕ → State → Outcome
unfolding new_record fill_record
step_call p (vm, w) = do_pop_value vm >>= λ (l, vm₁). v_k w.memory l >>= λ (q, k).
    new_record p k vm₁ w.memory >>= λ (a, vm₂, m₂). fill_record a k.arity vm₂ m₂ >>= λ (vm₃, m₃).
    push_pc (vm.pc + 1) (record vm₃ { current_ar = some a }) >>= λ vm₄.
    next k.label vm₄ (with_memory w m₃)

-- Leaving the current record `a`, whose contents are `r`.
unfoldable pub leave_record : ℕ → Activation → Vm → Memory → Option (Vm × Memory)
unfolding activation_free_from_stack
leave_record a r vm m = elim r.on_stack [
  | true ↦ activation_free_from_stack a vm m >>= λ (vm₁, m₁).
      some (record vm₁ { current_ar = r.caller }, m₁)
  | false ↦ some (record vm { current_ar = r.caller }, m)
]

-- INSTR_GOTO: the current record if it is large enough, or a new one in its place.
unfoldable pub goto_record : ℕ → Closure → Vm → Memory → Option (ℕ × Vm × Memory)
unfolding leave_record new_record
goto_record p k vm m = vm.current_ar >>= λ a. m.activation a >>= λ r.
    if ltb (length r.values) (k.arity + k.locals)
    then (leave_record a r vm m >>= λ (vm₁, m₁). new_record p k vm₁ m₁)
    else some (a, vm, m)

-- The loop with `activation_set_value`.
unfoldable pub set_record : ℕ → ℕ → Vm → Memory → Option (Vm × Memory)
set_record a zero vm m = some (vm, m)
set_record a (suc i) vm m = do_pop_value vm >>= λ (r, vm₁).
    activation_set_value (some a) i 0 r m >>= λ m₁. set_record a i vm₁ m₁

unfoldable pub step_goto : ℕ → State → Outcome
unfolding goto_record set_record
step_goto p (vm, w) = do_pop_value vm >>= λ (l, vm₁). v_k w.memory l >>= λ (q, k).
    goto_record p k vm₁ w.memory >>= λ (a, vm₂, m₂).
    set_record a k.arity (record vm₂ { current_ar = some a }) m₂ >>= λ (vm₃, m₃).
    next k.label vm₃ (with_memory w m₃)

-- Where the caller is NULL, `vm->pc` stays one before the address that was popped.
unfoldable pub step_ret : State → Outcome
unfolding leave_record
step_ret (vm, w) = pop_pc vm >>= λ (pc, vm₁). vm.current_ar >>= λ a. w.memory.activation a >>= λ r.
    leave_record a r vm₁ w.memory >>= λ (vm₂, m₂). elim vm₂.current_ar [
      | none ↦ some (returned, (record vm₂ { pc = pc - 1 }, with_memory w m₂))
      | some c ↦ next pc vm₂ (with_memory w m₂)
    ]

unfoldable pub step_set_activation : State → Outcome
unfolding put_payload
step_set_activation (vm, w) = do_pop_value vm >>= λ (l, vm₁). v_k w.memory l >>= λ (q, k).
    put_payload q (closure (record k { ar = vm.current_ar })) w.memory >>= λ m.
    push_next (vm.pc + 1) l vm₁ (with_memory w m)

-- The copy is made where `refcount` exceeds 1. It is 0 from `s_value_new` on, and nothing raises it.
unfoldable pub step_cow_local : ℕ → ℕ → State → Outcome
step_cow_local index upcount (vm, w) =
    activation_get_value vm.current_ar index upcount w.memory >>= λ l. elim l [
      | structured k q ↦ w.memory.s_value q >>= λ s. next (vm.pc + 1 + 2) vm w
      | _ ↦ none
    ]

-- The number of arguments, popped if the arity is -1.
abbrev pub pop_arity : Option ℕ → Vm → Option (ℕ × Vm)
pop_arity (some n) vm = some (n, vm)
pop_arity none vm = do_pop_value vm >>= λ (l, vm₁). v_i l >>= λ n. some (n, vm₁)

-- INSTR_EXTERNAL and the default case; `pc` is the instruction that follows.
unfoldable pub step_builtin : Builtin → ℕ → ℕ → State → Outcome
unfolding activation_new_on_stack fill_record activation_free_from_stack
step_builtin b pc p (vm, w) = pop_arity b.arity vm >>= λ (varity, vm₁).
    activation_new_on_stack varity vm₁.current_ar none vm₁ w.memory >>= λ (a, vm₂, m₂).
    fill_record a varity vm₂ m₂ >>= λ (vm₃, m₃). b.fn p a (with_memory w m₃) >>= λ (v, w₄).
    activation_free_from_stack a vm₃ w₄.memory >>= λ (vm₅, m₅).
    if b.retval then push_next pc v vm₅ (with_memory w₄ m₅) else next pc vm₅ (with_memory w₄ m₅)

-- The `switch`, and INSTR_HALT, which the loop tests for.
unfoldable pub vm_step : Instr → ℕ → State → Outcome
unfolding step_not step_inline step_recv step_push_local step_pop_local step_init_local step_jz
    step_call step_goto step_ret step_set_activation step_cow_local step_builtin
vm_step halt p s = some (terminated, s)
vm_step inline_not p s = step_not p s
vm_step (inline op) p s = step_inline op p s
vm_step recv p s = step_recv p s
vm_step (push_value v) p s = push_next (s.0.pc + sizeof_value + 1) v s.0 s.1
vm_step push_zero p s = push_next (s.0.pc + 1) (integer (pos 0)) s.0 s.1
vm_step push_one p s = push_next (s.0.pc + 1) (integer (pos 1)) s.0 s.1
vm_step push_two p s = push_next (s.0.pc + 1) (integer (pos 2)) s.0 s.1
vm_step (push_local index upcount) p s = step_push_local index upcount s
vm_step (pop_local index upcount) p s = step_pop_local index upcount s
vm_step (init_local index) p s = step_init_local index s
vm_step (jmp label) p s = next label s.0 s.1
vm_step (jz label) p s = step_jz label s
vm_step call p s = step_call p s
vm_step goto p s = step_goto p s
vm_step ret p s = step_ret s
vm_step set_activation p s = step_set_activation s
vm_step (cow_local index upcount) p s = step_cow_local index upcount s
vm_step (external b) p s = step_builtin b (s.0.pc + sizeof_pointer + 1) p s
vm_step (builtin b) p s = step_builtin b (s.0.pc + 1) p s
