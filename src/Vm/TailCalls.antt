-- ===== src/Vm/TailCalls.antt =====
-- lib/vm.c: the tail call, INSTR_GOTO, into a record that is large enough.
use bhuna.Prelude.{
  ℕ, ◌+◌, ◌≤◌, ◌≡◌, refl, sym, ap, false, some, List, ◌∷◌, ◌++◌, ltb, length, ◌>>=◌, arith,
}
use bhuna.Value.{Value, structured, Kind, Closure}
use bhuna.Memory.{Activation, Memory}
use bhuna.Builtin.Containers.{closure_at}
use bhuna.Vm.{Vm, World}
use bhuna.Vm.Step.{running, step_goto, goto_record}
use bhuna.Vm.Frames.{Fills, fill_record-Fills, set_record-fill_record}

-- A closure on top of its arguments, and a current record with room for its variables.
pub record IsTailCallable (q a : ℕ) (k : Closure) (r : Activation) (args rest : List Value)
    (vm : Vm) (m : Memory) : Type 0 where
  pub found : closure_at m q ≡ some k
  pub operands : vm.vstack ≡ structured Kind.closure q ∷ args ++ rest
  pub arity : length args ≡ k.arity
  pub current : vm.current_ar ≡ some a
  pub cell : m.activation a ≡ some r
  pub fits : k.arity + k.locals ≤ length r.values

goto_record-fits :
    (p a : ℕ) (k : Closure) (r : Activation) (vm : Vm) (m : Memory)
    → vm.current_ar ≡ some a
    → m.activation a ≡ some r
    → k.arity + k.locals ≤ length r.values
    → goto_record p k vm m ≡ some (a, vm, m)
unfolding goto_record
goto_record-fits p a k r vm m cur e h =
    let big : ltb (length r.values) (k.arity + k.locals) ≡ false = ground arith in
    simp (cur, ◌>>=◌, e, big) refl

-- A tail call into a record that is large enough takes constant space: no stack but that of values
-- changes, nothing is allocated, and of the heap only the arguments in the current record change, which
-- keeps its enclosing record.
pub step_goto-Fills :
    (p q a : ℕ) (k : Closure) (r : Activation) (args rest : List Value) (vm : Vm) (w : World)
    → IsTailCallable q a k r args rest vm w.memory
    → (m' : Memory) × (step_goto p (vm, w)
        ≡ some (running, (record vm { pc = k.label; vstack = rest }, record w { memory = m' })))
      × Fills a k.arity args r w.memory m'
unfolding step_goto
step_goto-Fills p q a k r args rest vm w c =
    let vm₁ : Vm = record vm { vstack = args ++ rest; current_ar = some a } in
    let (m', run, f) =
      fill_record-Fills a k.arity args rest r vm₁ w.memory c.cell refl c.arity
        (omega (arith, c.fits)) in
    (
      m',
      rw
          (
            c.operands,
            ◌>>=◌,
            c.found,
            goto_record-fits p a k r (record vm { vstack = args ++ rest }) w.memory c.current c.cell
                c.fits,
            set_record-fill_record a k.arity vm₁ w.memory,
            run,
          )
          (ap
            (λ z. some (
              running,
              (record vm { pc = k.label; vstack = rest; current_ar = z }, record w { memory = m' }),
            ))
            (sym c.current)),
      f,
    )
