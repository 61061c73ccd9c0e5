-- ===== src/Vm/Fairness.antt =====
-- lib/process.c: what a slice of the scheduler does to the run list, and which process comes next.
use bhuna.Prelude.{
  ℕ, ◌≡◌, sym, ap, ◌∙◌, Bool, false, Option, none, some, List, [], ◌∷◌, ◌++◌, ◌>>=◌, subst, arith,
}
use bhuna.Memory.{update}
use bhuna.Process.{Process, Processes, Cells}
use bhuna.Process.Chain.{Segment, Segment-split}
use bhuna.Process.Unlink.{IsChain}
use bhuna.Process.Queues.{IsQueues}
use bhuna.Vm.{Vm}
use bhuna.Vm.Step.{Status}
use bhuna.Vm.Run.{Machine, vm_run}
use bhuna.Vm.Queueing.{Grows, append_assoc}
use bhuna.Vm.Scheduler.{
  timeslice, switch_to, after_run, following, end_slice, schedule, run_after, first,
  after_run-IsQueues,
}

first_of :
    (f : Cells) (b : Bool) (prev head : Option ℕ) (xs : List ℕ) (last : Option ℕ)
    → Segment f b prev head xs last none
    → head ≡ first xs
first_of f b prev head [] last s = s.0
first_of f b prev head (x ∷ xs) last s = s.0

-- The pointer of a process to the next one of its list.
next_of :
    (f : Cells) (b : Bool) (head : Option ℕ) (xs ys : List ℕ) (p : ℕ)
    → IsChain f b head (xs ++ p ∷ ys)
    → (r : Process) × (f p ≡ some r) × (r.next ≡ first ys)
next_of f b head xs ys p (last, s) =
    let (mid, at, before, (e, (r, e', ep, ea, after))) =
      Segment-split f b none head xs (p ∷ ys) last none s in
    (r, e', first_of f b (some p) r.next ys last after)

-- The machine when the slice of `p` begins.
abbrev pub switched : ℕ → Process → Vm → Machine → Machine
switched p r vm s = record s {
  self = r.vm;
  vm = vm;
  vms = update s.vms s.self (some s.vm);
  world = record (s.world) { processes = record (s.world.processes) { current_process = some p } };
}

switch_to-switched :
    (p : ℕ) (r : Process) (vm : Vm) (s : Machine)
    → s.world.processes.cell p ≡ some r
    → update s.vms s.self (some s.vm) r.vm ≡ some vm
    → switch_to p s ≡ some (switched p r vm s)
unfolding switch_to
switch_to-switched p r vm s e v = rw (e, ◌>>=◌) (ap (λ o. o >>= λ vm. some (switched p r vm s)) v)

pub current-IsQueues :
    (ps : Processes) (p : ℕ) (run wait : List ℕ)
    → IsQueues ps run wait
    → IsQueues (record ps { current_process = some p }) run wait
current-IsQueues ps p run wait q = record {
  run_chain = q.run_chain;
  wait_chain = q.wait_chain;
  run_distinct = q.run_distinct;
  wait_distinct = q.wait_distinct;
  apart = q.apart;
}

-- The process after `p`, or the first one of the run list.
abbrev pub successor : List ℕ → List ℕ → Option ℕ
successor [] run = first run
successor (y ∷ ys) run = some y

following-successor :
    (o : Option ℕ) (ys run : List ℕ) (ps : Processes)
    → o ≡ first ys
    → ps.run_head ≡ first run
    → following o ps ≡ successor ys run
following-successor o [] run ps e h = ap (λ o. following o ps) e ∙ h
following-successor o (y ∷ ys) run ps e h = ap (λ o. following o ps) e

schedule_run :
    (fuel n : ℕ) (malloc : ℕ → ℕ) (p : ℕ) (r : Process) (s₁ s : Machine) (t : Status × Machine)
    → s.world.processes.cell p ≡ some r
    → switch_to p s ≡ some s₁
    → vm_run fuel n malloc timeslice 0 s₁ ≡ some t
    → schedule fuel n malloc p s ≡ end_slice r.next p t
unfolding schedule
schedule_run fuel n malloc p r s₁ s t e to ran =
    ap
      (λ o. o >>= λ r.
        switch_to p s >>= λ s₁. vm_run fuel n malloc timeslice 0 s₁ >>= λ t. end_slice r.next p t)
      e
    ∙ ap (λ o. o >>= λ s₁. vm_run fuel n malloc timeslice 0 s₁ >>= λ t. end_slice r.next p t) to
    ∙ ap (λ o. o >>= λ t. end_slice r.next p t) ran

end_slice-following :
    (next : Option ℕ) (p : ℕ) (st : Status) (s₂ : Machine) (ps : Processes)
    → after_run st p s₂.world.processes ≡ some ps
    → end_slice next p (st, s₂)
      ≡ some (following next ps, record s₂ { world = record (s₂.world) { processes = ps } })
unfolding end_slice
end_slice-following next p st s₂ ps e =
    ap
      (λ o. o >>= λ ps.
        some (following next ps, record s₂ { world = record (s₂.world) { processes = ps } }))
      e

-- A slice of the process `p` on the run list, whose vm runs to an end with the status `st` and only adds
-- to the run list: the scheduler goes on. The process leaves the run list if it terminated, returned or
-- waits, and keeps its place if its time expired; the processes before it and after it stay in their
-- order, behind those that were added. The next to run is the one that came after it, or the first of
-- the run list after the last one; there is none only where the run list is empty.
pub schedule-successor :
    (fuel n : ℕ) (malloc : ℕ → ℕ) (p : ℕ) (r : Process) (vm : Vm) (st : Status) (s s₂ : Machine)
    (xs ys wait : List ℕ)
    → IsQueues s.world.processes (xs ++ p ∷ ys) wait
    → s.world.processes.cell p ≡ some r
    → update s.vms s.self (some s.vm) r.vm ≡ some vm
    → vm_run fuel n malloc timeslice 0 (switched p r vm s) ≡ some (st, s₂)
    → Grows (switched p r vm s).world.processes s₂.world.processes
    → (more : List ℕ) × (wait' : List ℕ) × (s' : Machine) × (schedule fuel n malloc p s
        ≡ some (successor ys (run_after st (more ++ xs) p ys), s'))
      × IsQueues s'.world.processes (run_after st (more ++ xs) p ys) wait'
schedule-successor fuel n malloc p r vm st s s₂ xs ys wait q e v ran grows =
    let (more, wait₂, q₂) =
      grows (xs ++ p ∷ ys) wait (current-IsQueues s.world.processes p (xs ++ p ∷ ys) wait q) in
    let q₂' =
      subst (λ l. IsQueues s₂.world.processes l wait₂) (sym (append_assoc more xs (p ∷ ys))) q₂ in
    let (ps, wait', end, q₃) =
      after_run-IsQueues st (more ++ xs) ys wait₂ p s₂.world.processes q₂' in
    let (r', e', nx) =
      next_of s.world.processes.cell false s.world.processes.run_head xs ys p q.run_chain in
    let same : r.next ≡ r'.next = ground arith in
    let (last, chain) = q₃.run_chain in
    let h = first_of ps.cell false none ps.run_head (run_after st (more ++ xs) p ys) last chain in
    (
      more,
      wait',
      record s₂ { world = record (s₂.world) { processes = ps } },
      schedule_run fuel n malloc p r (switched p r vm s) s (st, s₂) e
            (switch_to-switched p r vm s e v) ran
          ∙ end_slice-following r.next p st s₂ ps end
          ∙ ap (λ o. some (o, record s₂ { world = record (s₂.world) { processes = ps } }))
              (following-successor r.next ys (run_after st (more ++ xs) p ys) ps (same ∙ nx) h),
      q₃,
    )
