-- ===== src/Vm/Calls.antt =====
-- lib/vm.c: a call and the return from it, and the tail call.
use bhuna.Prelude.{
  ℕ, ◌+◌, ◌-◌, ◌≤◌, ◌<◌, ◌≡◌, ◌≢◌, refl, sym, ap, subst, ◌∙◌, true, false, none, some, List, ◌∷◌,
  ◌++◌, lt→ltb, length, length-tabulate, get_elem?, ◌>>=◌, arith, ==_refl, ==_ne, leb,
}
use bhuna.Value.{Value, structured, Kind, Closure}
use bhuna.Memory.{Activation, Memory, update, unset_values}
use bhuna.Builtin.Containers.{closure_at}
use bhuna.Vm.{
  Vm, World, frame_bytes, astack_size, cstack_size, activation_new_on_stack,
  activation_free_from_stack,
}
use bhuna.Vm.Step.{running, State, step_call, step_ret, new_record, leave_record}
use bhuna.Vm.Frames.{fill_record-Fills}

-- What a call through the activation stack needs: a closure on top of its arguments, a current
-- record, and room on both stacks.
pub record IsCallable (q : ℕ) (k : Closure) (args rest : List Value) (vm : Vm) (m : Memory)
    : Type 0 where
  pub found : closure_at m q ≡ some k
  pub uncaptured : k.cc ≡ 0
  pub operands : vm.vstack ≡ structured Kind.closure q ∷ args ++ rest
  pub arity : length args ≡ k.arity
  pub astack_room : vm.astack_ptr + frame_bytes (k.arity + k.locals) ≤ astack_size
  pub cstack_room : length vm.cstack < cstack_size

-- The state in which the body of the closure starts.
pub record Enters (k : Closure) (args rest : List Value) (vm : Vm) (w : World) (s : State)
    : Type 0 where
  pub vm_is : s.0 ≡ record vm {
    pc = k.label;
    vstack = rest;
    cstack = (vm.pc + 1) ∷ vm.cstack;
    astack_ptr = vm.astack_ptr + frame_bytes (k.arity + k.locals);
    current_ar = some (vm.astack + vm.astack_ptr);
  }
  pub frame : Activation
  pub cell : s.1.memory.activation (vm.astack + vm.astack_ptr) ≡ some frame
  pub caller : frame.caller ≡ vm.current_ar
  pub enclosing : frame.enclosing ≡ k.ar
  pub on_stack : frame.on_stack ≡ true
  pub size : length frame.values ≡ k.arity + k.locals
  pub arguments :
      (i : ℕ) → i < k.arity → get_elem? frame.values (k.arity - 1 - i) ≡ get_elem? args i
  pub others :
      (b : ℕ) → b ≢ vm.astack + vm.astack_ptr → s.1.memory.activation b ≡ w.memory.activation b
  pub s_value : s.1.memory.s_value ≡ w.memory.s_value
  pub processes : s.1.processes ≡ w.processes

new_record-stack :
    (p : ℕ) (k : Closure) (vm : Vm) (m : Memory)
    → k.cc ≡ 0
    → vm.astack_ptr + frame_bytes (k.arity + k.locals) ≤ astack_size
    → new_record p k vm m
      ≡ some (
        vm.astack + vm.astack_ptr,
        record vm { astack_ptr = vm.astack_ptr + frame_bytes (k.arity + k.locals) },
        record m {
          activation = update m.activation (vm.astack + vm.astack_ptr) (
              some (record {
                marked = false;
                on_stack = true;
                caller = vm.current_ar;
                enclosing = k.ar;
                values = unset_values m (vm.astack + vm.astack_ptr) (k.arity + k.locals);
              }));
        },
      )
unfolding new_record activation_new_on_stack
new_record-stack p k vm m c h = ground arith

-- With room on both stacks, a call of a closure that no inner closure captures from, on top of its
-- arguments, pops the closure and the arguments, pushes the return address, and starts the body on a new
-- record on the activation stack that holds the arguments.
pub step_call-Enters :
    (p q : ℕ) (k : Closure) (args rest : List Value) (vm : Vm) (w : World)
    → IsCallable q k args rest vm w.memory
    → (s : State) × (step_call p (vm, w) ≡ some (running, s)) × Enters k args rest vm w s
unfolding step_call
step_call-Enters p q k args rest vm w c =
    let a = vm.astack + vm.astack_ptr in
    let vm₂ : Vm = record vm {
      vstack = args ++ rest;
      astack_ptr = vm.astack_ptr + frame_bytes (k.arity + k.locals);
    } in
    let r : Activation = record {
      marked = false;
      on_stack = true;
      caller = vm.current_ar;
      enclosing = k.ar;
      values = unset_values w.memory a (k.arity + k.locals);
    } in
    let m₂ : Memory = record w.memory { activation = update w.memory.activation a (some r) } in
    let (m₃, run, f) =
      fill_record-Fills a k.arity args rest r vm₂ m₂ (rw (==_refl a) refl) refl c.arity (
        omega (
          arith,
          length-tabulate (w.memory.unset (vm.astack + vm.astack_ptr)) (k.arity + k.locals),
        )) in
    (
      (
        record vm {
          pc = k.label;
          vstack = rest;
          cstack = (vm.pc + 1) ∷ vm.cstack;
          astack_ptr = vm.astack_ptr + frame_bytes (k.arity + k.locals);
          current_ar = some a;
        },
        record w { memory = m₃ },
      ),
      rw
          (
            c.operands,
            ◌>>=◌,
            c.found,
            new_record-stack p k (record vm { vstack = args ++ rest }) w.memory c.uncaptured
                c.astack_room,
            run,
            lt→ltb (length vm.cstack) cstack_size c.cstack_room,
          )
          refl,
      record {
        vm_is = refl;
        frame = f.filled;
        cell = f.cell;
        caller = f.caller;
        enclosing = f.enclosing;
        on_stack = f.on_stack;
        size =
            f.size
            ∙ length-tabulate (w.memory.unset (vm.astack + vm.astack_ptr)) (k.arity + k.locals);
        arguments = f.arguments;
        others = λ b ne. f.others b ne ∙ rw (==_ne a b (λ e. ne (sym e))) refl;
        s_value = f.s_value;
        processes = refl;
      },
    )

-- The heap without the record at `a`.
abbrev without : ℕ → World → World
without a w = record w {
  memory = record (w.memory) { activation = update w.memory.activation a none };
}

leave_record-stack :
    (a : ℕ) (r : Activation) (vm : Vm) (m : Memory)
    → m.activation a ≡ some r
    → r.on_stack ≡ true
    → frame_bytes (length r.values) ≤ vm.astack_ptr
    → leave_record a r vm m
      ≡ some (
        record vm {
          astack_ptr = vm.astack_ptr - frame_bytes (length r.values);
          current_ar = r.caller;
        },
        record m { activation = update m.activation a none },
      )
unfolding leave_record activation_free_from_stack
leave_record-stack a r vm m e o h =
    let le_true : leb (frame_bytes (length r.values)) vm.astack_ptr ≡ true = ground arith in
    rw (o, e, ◌>>=◌, le_true) refl

ret_lem :
    (k : Closure) (ys : List Value) (vm : Vm) (w₁ : World) (pc c : ℕ) (r : Activation)
    → vm.current_ar ≡ some c
    → w₁.memory.activation (vm.astack + vm.astack_ptr) ≡ some r
    → r.caller ≡ some c
    → r.on_stack ≡ true
    → length r.values ≡ k.arity + k.locals
    → step_ret (
      record vm {
        pc = pc;
        vstack = ys;
        cstack = (vm.pc + 1) ∷ vm.cstack;
        astack_ptr = vm.astack_ptr + frame_bytes (k.arity + k.locals);
        current_ar = some (vm.astack + vm.astack_ptr);
      },
      w₁,
    )
      ≡ some (
        running,
        (record vm { pc = vm.pc + 1; vstack = ys }, without (vm.astack + vm.astack_ptr) w₁),
      )
unfolding step_ret
ret_lem k ys vm w₁ pc c r cur e caller on size =
    let vm₁ : Vm = record vm {
      pc = pc;
      vstack = ys;
      astack_ptr = vm.astack_ptr + frame_bytes (k.arity + k.locals);
      current_ar = some (vm.astack + vm.astack_ptr);
    } in
    let back : vm.astack_ptr + frame_bytes (k.arity + k.locals) - frame_bytes (k.arity + k.locals)
        ≡ vm.astack_ptr =
      omega arith in
    let room : frame_bytes (length r.values) ≤ vm.astack_ptr + frame_bytes (k.arity + k.locals) =
      rw size (omega arith) in
    rw
      (
        e,
        ◌>>=◌,
        leave_record-stack (vm.astack + vm.astack_ptr) r vm₁ w₁.memory e on room,
        caller,
        size,
        back,
        cur,
      )
      (ap
        (λ z. some (
          running,
          (
            record vm { pc = vm.pc + 1; vstack = ys; current_ar = z },
            without (vm.astack + vm.astack_ptr) w₁,
          ),
        ))
        caller)

-- A return undoes a call through the activation stack that was made from a current record. From the
-- state that the call led to, after the body has changed the value stack, the program counter and the
-- heap, but for the header of its own record, the return goes to the instruction after the call, gives
-- the record's bytes back and makes the caller's record current again, so that of the vm only the value
-- stack is what the body left.
pub step_ret-Enters :
    (k : Closure) (args rest ys : List Value) (vm : Vm) (w w₁ : World) (s : State) (pc c : ℕ)
    (r : Activation)
    → Enters k args rest vm w s
    → vm.current_ar ≡ some c
    → w₁.memory.activation (vm.astack + vm.astack_ptr) ≡ some r
    → r.caller ≡ some c
    → r.on_stack ≡ true
    → length r.values ≡ k.arity + k.locals
    → step_ret (record (s.0) { pc = pc; vstack = ys }, w₁)
      ≡ some (
        running,
        (record vm { pc = vm.pc + 1; vstack = ys }, without (vm.astack + vm.astack_ptr) w₁),
      )
step_ret-Enters k args rest ys vm w w₁ s pc c r enters cur e caller on size =
    subst
      (λ z.
        step_ret (record z { pc = pc; vstack = ys }, w₁)
        ≡ some (
          running,
          (record vm { pc = vm.pc + 1; vstack = ys }, without (vm.astack + vm.astack_ptr) w₁),
        ))
      (sym enters.vm_is) (ret_lem k ys vm w₁ pc c r cur e caller on size)
