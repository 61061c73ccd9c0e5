-- ===== src/Vm/Scheduler.antt =====
-- lib/process.c: the scheduler, over the machine.
use bhuna.Prelude.{
  ℕ, zero, suc, ◌≡◌, refl, Bool, true, false, Option, none, some, List, [], ◌∷◌, ◌++◌, ◌>>=◌,
}
use bhuna.Memory.{update}
use bhuna.Process.{Processes, process_free, process_sleep}
use bhuna.Process.Queues.{IsQueues, process_sleep-IsQueues}
use bhuna.Process.Lifetime.{process_free-IsQueues}
use bhuna.Vm.Step.{Status, running, terminated, returned, time_expired, waiting}
use bhuna.Vm.Run.{Machine, vm_run}

-- TIMESLICE
abbrev pub timeslice : ℕ
timeslice = 2048

-- The machine with the process `p` as `current_process`, about to run its vm.
unfoldable pub switch_to : ℕ → Machine → Option Machine
switch_to p s = s.world.processes.cell p >>= λ r.
    let vms = update s.vms s.self (some s.vm) in
    vms r.vm >>= λ vm. some (record s {
      self = r.vm;
      vm = vm;
      vms = vms;
      world = record (s.world) {
        processes = record (s.world.processes) { current_process = some p };
      };
    })

-- The `switch` on what `vm_run` returned.
unfoldable pub after_run : Status → ℕ → Processes → Option Processes
unfolding process_free process_sleep
after_run terminated p ps = process_free p ps
after_run returned p ps = process_free p ps
after_run waiting p ps = process_sleep p ps
after_run time_expired p ps = some ps
after_run running p ps = some ps

-- The process that follows, which was read before, or the head of the run list.
abbrev pub following : Option ℕ → Processes → Option ℕ
following (some q) ps = some q
following none ps = ps.run_head

-- The end of a slice: the processes after the `switch`, and the next process to run.
unfoldable pub end_slice : Option ℕ → ℕ → Status × Machine → Option (Option ℕ × Machine)
unfolding after_run
end_slice next p (st, s₂) = after_run st p s₂.world.processes >>= λ ps.
    some (following next ps, record s₂ { world = record (s₂.world) { processes = ps } })

-- One round of the loop: a time slice of the process `p`. The result has the next process to run.
unfoldable pub schedule : ℕ → ℕ → (ℕ → ℕ) → ℕ → Machine → Option (Option ℕ × Machine)
unfolding switch_to vm_run end_slice
schedule fuel n malloc p s = s.world.processes.cell p >>= λ r.
    switch_to p s >>= λ s₁. vm_run fuel n malloc timeslice 0 s₁ >>= λ t. end_slice r.next p t

-- The loop, for `rounds` slices at most; `malloc` gives the addresses for each of them.
unfoldable pub schedule_from : ℕ → ℕ → ℕ → (ℕ → ℕ → ℕ) → Option ℕ → Machine → Option Machine
unfolding schedule
schedule_from rounds fuel n malloc none s = some s
schedule_from zero fuel n malloc (some p) s = none
schedule_from (suc rounds) fuel n malloc (some p) s =
    schedule fuel n (malloc rounds) p s >>= λ (o, s'). schedule_from rounds fuel n malloc o s'

unfoldable pub process_scheduler : ℕ → ℕ → ℕ → (ℕ → ℕ → ℕ) → Machine → Option Machine
unfolding schedule_from
process_scheduler rounds fuel n malloc s =
    schedule_from rounds fuel n malloc s.world.processes.run_head s

-- Whether the process keeps its place on the run list.
abbrev pub stays : Status → Bool
stays time_expired = true
stays running = true
stays st = false

-- The run list and the next process after a slice of `p`, which had `xs` before it and `ys` after it.
abbrev pub run_after : Status → List ℕ → ℕ → List ℕ → List ℕ
run_after time_expired xs p ys = xs ++ p ∷ ys
run_after running xs p ys = xs ++ p ∷ ys
run_after st xs p ys = xs ++ ys

abbrev pub first : List ℕ → Option ℕ
first [] = none
first (q ∷ qs) = some q

pub after_run-IsQueues :
    (st : Status) (xs ys wait : List ℕ) (p : ℕ) (ps : Processes)
    → IsQueues ps (xs ++ p ∷ ys) wait
    → (ps' : Processes) × (wait' : List ℕ) × (after_run st p ps ≡ some ps')
      × IsQueues ps' (run_after st xs p ys) wait'
unfolding after_run
after_run-IsQueues terminated xs ys wait p ps q =
    let (ps', run, q', gone) = process_free-IsQueues ps xs ys wait p q in (ps', wait, run, q')
after_run-IsQueues returned xs ys wait p ps q =
    let (ps', run, q', gone) = process_free-IsQueues ps xs ys wait p q in (ps', wait, run, q')
after_run-IsQueues waiting xs ys wait p ps q =
    let (ps', run, q') = process_sleep-IsQueues ps xs ys wait p q in (ps', p ∷ wait, run, q')
after_run-IsQueues time_expired xs ys wait p ps q = (ps, wait, refl, q)
after_run-IsQueues running xs ys wait p ps q = (ps, wait, refl, q)
