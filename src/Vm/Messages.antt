-- ===== src/Vm/Messages.antt =====
-- lib/builtin.c: the builtins on processes as the vm calls them.
use bhuna.Prelude.{
  ℕ, ◌+◌, ◌≤◌, ◌≡◌, ◌≢◌, refl, sym, ◌∙◌, true, false, Option, none, some, List, [], ◌∷◌, ◌>>=◌,
  length, length-tabulate, get_elem?, arith, ==_ne,
}
use bhuna.Value.{Value, null, integer, opaque}
use bhuna.Memory.{Activation, Memory, update, activation_get_value}
use bhuna.Process.{Processes, process_send, process_recv}
use bhuna.Builtin.{error, answer, type_mismatch}
use bhuna.Vm.{World, Builtin, builtin, Vm, frame_bytes, astack_size}
use bhuna.Vm.Step.{running, vm_step}
use bhuna.Vm.BuiltinCalls.{step_builtin-answered}

-- The result where the argument has another tag; `p` is the address for the error.
abbrev mismatch : ℕ → World → Option (Value × World)
mismatch p w =
    let (v, m) = answer p (error type_mismatch) w.memory in some (v, record w { memory = m })

unfoldable pub send_to : ℕ → Value → Value → World → Option (Value × World)
send_to p (opaque q) mv w =
    process_send q mv w.processes >>= λ ps. some (null, record w { processes = ps })
send_to p _ mv w = mismatch p w

unfoldable pub builtin_send : ℕ → ℕ → World → Option (Value × World)
unfolding send_to
builtin_send p a w = activation_get_value (some a) 0 0 w.memory >>= λ pv.
    activation_get_value (some a) 1 0 w.memory >>= λ mv. send_to p pv mv w

-- Null where there is no message: `rv` is set beforehand.
abbrev message_or_null : Option Value → Value
message_or_null none = null
message_or_null (some v) = v

unfoldable pub recv_with : ℕ → Value → World → Option (Value × World)
recv_with p (integer i) w =
    process_recv w.processes >>= λ (o, ps). some (message_or_null o, record w { processes = ps })
recv_with p _ w = mismatch p w

unfoldable pub builtin_recv : ℕ → ℕ → World → Option (Value × World)
unfolding recv_with
builtin_recv p a w = activation_get_value (some a) 0 0 w.memory >>= λ tv. recv_with p tv w

unfoldable pub builtin_self : ℕ → ℕ → World → Option (Value × World)
builtin_self p a w = w.processes.current_process >>= λ q. some (opaque q, w)

-- Their rows of the table `builtins`.
abbrev pub send_entry : Builtin
send_entry = record { arity = some 2; retval = false; fn = builtin_send }

abbrev pub recv_entry : Builtin
recv_entry = record { arity = some 1; retval = true; fn = builtin_recv }

abbrev pub self_entry : Builtin
self_entry = record { arity = some 0; retval = true; fn = builtin_self }

argument :
    (a i : ℕ) (r : Activation) (m : Memory) (v : Value)
    → m.activation a ≡ some r
    → get_elem? r.values i ≡ some v
    → activation_get_value (some a) i 0 m ≡ some v
unfolding activation_get_value
argument a i r m v e h = rw (e, ◌>>=◌) h

builtin_send-sends :
    (p a q : ℕ) (v : Value) (w : World) (ps : Processes)
    → activation_get_value (some a) 0 0 w.memory ≡ some (opaque q)
    → activation_get_value (some a) 1 0 w.memory ≡ some v
    → process_send q v w.processes ≡ some ps
    → builtin_send p a w ≡ some (null, record w { processes = ps })
unfolding builtin_send
builtin_send-sends p a q v w ps first second sent = rw (first, ◌>>=◌, second, sent) refl

-- The instruction for Send, with the message on top of the receiver on the value stack and room for
-- their record: where the send is defined, both are gone from the stack, nothing is pushed, the processes
-- are those after `process_send`, the vm is else as before at the next instruction, and so is the heap
-- outside of the record that was used.
pub vm_step-send :
    (p q : ℕ) (v : Value) (rest : List Value) (vm : Vm) (w : World) (ps : Processes)
    → vm.vstack ≡ v ∷ opaque q ∷ rest
    → vm.astack_ptr + frame_bytes 2 ≤ astack_size
    → process_send q v w.processes ≡ some ps
    → (m : Memory) × (vm_step (builtin send_entry) p (vm, w)
        ≡ some (
          running,
          (record vm { pc = vm.pc + 1; vstack = rest }, record w { memory = m; processes = ps }),
        ))
      × ((b : ℕ) → b ≢ vm.astack + vm.astack_ptr → m.activation b ≡ w.memory.activation b)
      × (m.s_value ≡ w.memory.s_value)
      × (m.sv_head ≡ w.memory.sv_head)
      × (m.a_head ≡ w.memory.a_head)
unfolding vm_step
vm_step-send p q v rest vm w ps stack room sent =
    let a = vm.astack + vm.astack_ptr in
    let (m, f, run) =
      step_builtin-answered send_entry 2 (vm.pc + 1) p (v ∷ opaque q ∷ []) rest vm w refl stack refl
        room in
    let size : length f.filled.values ≡ 2 = f.size ∙ length-tabulate (w.memory.unset a) 2 in
    let first = argument a 0 f.filled m (opaque q) f.cell (f.arguments 1 (omega arith)) in
    let second = argument a 1 f.filled m v f.cell (f.arguments 0 (omega arith)) in
    (
      record m { activation = update m.activation a none },
      run null (record w { memory = m; processes = ps }) f.filled
          (builtin_send-sends p a q v (record w { memory = m }) ps first second sent) f.cell size,
      λ b ne.
          rw (==_ne a b (λ e. ne (sym e))) (f.others b ne ∙ rw (==_ne a b (λ e. ne (sym e))) refl),
      f.s_value,
      f.sv_head,
      f.a_head,
    )
