-- ===== src/Vm/BuiltinCalls.antt =====
-- lib/vm.c: the call of a builtin, with a record for its arguments.
use bhuna.Prelude.{
  ℕ, ◌+◌, ◌-◌, ◌≤◌, ◌≡◌, refl, true, false, none, some, List, ◌++◌, ◌>>=◌, leb, length,
  length-tabulate, arith, ==_refl, if◌then◌else◌,
}
use bhuna.Value.{Value}
use bhuna.Memory.{Activation, Memory, update, unset_values}
use bhuna.Vm.{
  World, Builtin, Vm, frame_bytes, astack_size, activation_new_on_stack, activation_free_from_stack,
}
use bhuna.Vm.Step.{Outcome, next, push_next, step_builtin}
use bhuna.Vm.Frames.{Fills, fill_record-Fills}

-- The record for the arguments, before they are stored.
abbrev pub blank : ℕ → Vm → Memory → Activation
blank n vm m = record {
  marked = false;
  on_stack = true;
  caller = vm.current_ar;
  enclosing = none;
  values = unset_values m (vm.astack + vm.astack_ptr) n;
}

-- The heap with that record.
abbrev pub with_blank : ℕ → Vm → Memory → Memory
with_blank n vm m = record m {
  activation = update m.activation (vm.astack + vm.astack_ptr) (some (blank n vm m));
}

-- The state after a call of a builtin that gave `v` and left the world `w`.
abbrev pub answered : Builtin → ℕ → Value → List Value → Vm → World → Outcome
answered b pc v rest vm w =
    let w' : World = record w {
      memory = record (w.memory) {
        activation = update w.memory.activation (vm.astack + vm.astack_ptr) none;
      };
    } in
    if b.retval
    then push_next pc v (record vm { vstack = rest }) w'
    else next pc (record vm { vstack = rest }) w'

new_blank :
    (n : ℕ) (vm : Vm) (m : Memory)
    → vm.astack_ptr + frame_bytes n ≤ astack_size
    → activation_new_on_stack n vm.current_ar none vm m
      ≡ some (
        vm.astack + vm.astack_ptr,
        record vm { astack_ptr = vm.astack_ptr + frame_bytes n },
        with_blank n vm m,
      )
unfolding activation_new_on_stack
new_blank n vm m h = ground arith

freed :
    (n : ℕ) (rest : List Value) (vm : Vm) (m : Memory) (r : Activation)
    → m.activation (vm.astack + vm.astack_ptr) ≡ some r
    → length r.values ≡ n
    → activation_free_from_stack
        (vm.astack + vm.astack_ptr)
        (record vm { vstack = rest; astack_ptr = vm.astack_ptr + frame_bytes n })
        m
      ≡ some (
        record vm { vstack = rest },
        record m { activation = update m.activation (vm.astack + vm.astack_ptr) none },
      )
unfolding activation_free_from_stack
freed n rest vm m r e size =
    let back : vm.astack_ptr + frame_bytes n - frame_bytes n ≡ vm.astack_ptr = omega arith in
    let room : leb (frame_bytes n) (vm.astack_ptr + frame_bytes n) ≡ true = ground arith in
    rw (e, ◌>>=◌, size, room, back) refl

-- The call of a builtin of `n` arguments, which are on top of the value stack, the last one first, with
-- room for their record. There is a heap in which that record holds them, the first one at index 0, and
-- which is else as before. Where the builtin, in that heap, gives a value and leaves the record at its
-- size, the arguments are gone from the stack, the record's bytes are given back, the value is pushed
-- if the builtin has one, and the vm goes on at `pc`.
pub step_builtin-answered :
    (b : Builtin) (n pc p : ℕ) (args rest : List Value) (vm : Vm) (w : World)
    → b.arity ≡ some n
    → vm.vstack ≡ args ++ rest
    → length args ≡ n
    → vm.astack_ptr + frame_bytes n ≤ astack_size
    → (m : Memory) × Fills
        (vm.astack + vm.astack_ptr)
        n
        args
        (blank n vm w.memory)
        (with_blank n vm w.memory)
        m
      × ((v : Value) (w' : World) (r : Activation)
          → b.fn p (vm.astack + vm.astack_ptr) (record w { memory = m }) ≡ some (v, w')
          → w'.memory.activation (vm.astack + vm.astack_ptr) ≡ some r
          → length r.values ≡ n
          → step_builtin b pc p (vm, w) ≡ answered b pc v rest vm w')
unfolding step_builtin
step_builtin-answered b n pc p args rest vm w ar stack size room =
    let a = vm.astack + vm.astack_ptr in
    let vm₂ : Vm = record vm { astack_ptr = vm.astack_ptr + frame_bytes n } in
    let (m, run, f) =
      fill_record-Fills a n args rest (blank n vm w.memory) vm₂ (with_blank n vm w.memory)
        (rw (==_refl a) refl) stack size (omega (arith, length-tabulate (w.memory.unset a) n)) in
    (
      m,
      f,
      λ v w' r called kept same.
          rw
            (
              ar,
              ◌>>=◌,
              new_blank n vm w.memory room,
              run,
              called,
              freed n rest vm w'.memory r kept same,
            )
            refl,
    )
