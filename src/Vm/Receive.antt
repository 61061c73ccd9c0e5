-- ===== src/Vm/Receive.antt =====
-- lib/vm.c, lib/process.c: a process that waits for a message, from one run of INDEX_BUILTIN_RECV to
-- the next.
use bhuna.Prelude.{
  ℕ, ◌+◌, ◌<◌, ◌≡◌, refl, ap, subst, ◌∙◌, none, some, List, [], ◌∷◌, ◌++◌, ◌>>=◌, length, lt→ltb,
  Option-cases, inl, inr,
}
use bhuna.Prelude.Int.{ℤ}
use bhuna.Value.{Value, integer}
use bhuna.Process.{
  Process, Cells, Processes, take_message, process_recv, process_sleep, process_send,
}
use bhuna.Process.Queues.{IsQueues, process_sleep-IsQueues}
use bhuna.Process.Mail.{mail, Ensures, Keeps, process_sleep-Keeps}
use bhuna.Process.Mailbox.{process_recv-first, process_send-sleeping}
use bhuna.Vm.{Vm, World, vstack_size}
use bhuna.Vm.Step.{running, waiting, step_recv}
use bhuna.Vm.Fairness.{current-IsQueues}

process_recv-empty :
    (s : Processes) (p : ℕ) (r : Process)
    → s.current_process ≡ some p
    → s.cell p ≡ some r
    → r.msg_head ≡ []
    → process_recv s ≡ some (none, s)
unfolding process_recv take_message
process_recv-empty s p r cur e empty = rw (cur, ◌>>=◌, e, empty) refl

-- The process whose messages are known.
mail-cell :
    (f : Cells) (p : ℕ) (vs : List Value)
    → mail f p ≡ some vs
    → (r : Process) × (f p ≡ some r) × (r.msg_head ≡ vs)
mail-cell f p vs e = elim (Option-cases (f p)) [
  | inl lost ↦ let e' : none ≡ some vs = rw (lost, ◌>>=◌) at e in cc
  | inr (r, k) ↦ let e' : some r.msg_head ≡ some vs = rw (k, ◌>>=◌) at e in (r, k, cc)
]

step_recv-none :
    (n : ℕ) (i : ℤ) (rest : List Value) (vm : Vm) (w : World)
    → vm.vstack ≡ integer i ∷ rest
    → length rest < vstack_size
    → process_recv w.processes ≡ some (none, w.processes)
    → step_recv n (vm, w) ≡ some (waiting, (vm, w))
unfolding step_recv
step_recv-none n i rest vm w stack room got =
    rw (stack, ◌>>=◌, got, lt→ltb (length rest) vstack_size room) refl

step_recv-some :
    (n : ℕ) (i : ℤ) (v : Value) (rest : List Value) (vm : Vm) (w : World) (s : Processes)
    → vm.vstack ≡ integer i ∷ rest
    → length rest < vstack_size
    → process_recv w.processes ≡ some (some v, s)
    → step_recv n (vm, w)
      ≡ some
          (running, (record vm { pc = vm.pc + 1; vstack = v ∷ rest }, record w { processes = s }))
unfolding step_recv
step_recv-some n i v rest vm w s stack room got =
    rw (stack, ◌>>=◌, got, lt→ltb (length rest) vstack_size room) refl

-- A process on the run list that receives with an empty mailbox waits, with its vm, its argument
-- included, and all else as it was. Put to sleep it leaves the run list for the wait list; a message
-- sent to it then brings it to the front of the run list; and once it is the current process again, the
-- same instruction gives it that message in the argument's place and goes on to the next one, with the
-- mailbox empty and the lists kept.
pub step_recv-resumes :
    (n n' p : ℕ) (i : ℤ) (v : Value) (rest : List Value) (vm : Vm) (w : World) (r : Process)
    (xs ys wait : List ℕ)
    → vm.vstack ≡ integer i ∷ rest
    → length rest < vstack_size
    → w.processes.current_process ≡ some p
    → w.processes.cell p ≡ some r
    → r.msg_head ≡ []
    → IsQueues w.processes (xs ++ p ∷ ys) wait
    → (step_recv n (vm, w) ≡ some (waiting, (vm, w)))
      × ((s₁ : Processes) × (s₂ : Processes) × (s₃ : Processes) × (process_sleep p w.processes
            ≡ some s₁)
          × IsQueues s₁ (xs ++ ys) (p ∷ wait)
          × (process_send p v s₁ ≡ some s₂)
          × IsQueues s₂ (p ∷ (xs ++ ys)) wait
          × (step_recv n' (vm, record w { processes = record s₂ { current_process = some p } })
              ≡ some (
                running,
                (record vm { pc = vm.pc + 1; vstack = v ∷ rest }, record w { processes = s₃ }),
              ))
          × IsQueues s₃ (p ∷ (xs ++ ys)) wait
          × (mail s₃.cell p ≡ some []))
step_recv-resumes n n' p i v rest vm w r xs ys wait stack room cur e empty q =
    let (s₁, slept, q₁) = process_sleep-IsQueues w.processes xs ys wait p q in
    let kept : Keeps w.processes s₁ =
      subst (Ensures (Keeps w.processes)) slept (process_sleep-Keeps p w.processes) in
    let (r₁, e₁, empty₁) = mail-cell s₁.cell p [] (kept.0 p ∙ rw (e, ◌>>=◌, empty) refl) in
    let (s₂, sent, q₂, got, others, cur₂) =
      process_send-sleeping s₁ (xs ++ ys) [] wait p r₁ v e₁ q₁ in
    let (r₂, e₂, one) = mail-cell s₂.cell p (v ∷ r₁.msg_head) got in
    let (s₃, received, q₃, e₃, cur₃) =
      process_recv-first (record s₂ { current_process = some p }) (p ∷ (xs ++ ys)) wait p r₂ v []
        refl (e₂ ∙ ap (λ z. some (record r₂ { msg_head = z })) (one ∙ ap (λ z. v ∷ z) empty₁))
        (current-IsQueues s₂ p (p ∷ (xs ++ ys)) wait q₂) in
    (
      step_recv-none n i rest vm w stack room (process_recv-empty w.processes p r cur e empty),
      (
        s₁,
        s₂,
        s₃,
        slept,
        q₁,
        sent,
        q₂,
        step_recv-some n' i v rest vm
            (record w { processes = record s₂ { current_process = some p } }) s₃ stack room
            received,
        q₃,
        rw (e₃, ◌>>=◌) refl,
      ),
    )
