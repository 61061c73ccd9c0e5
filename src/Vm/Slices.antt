-- ===== src/Vm/Slices.antt =====
-- lib/vm.c: how a run of `vm_run` ends.
use bhuna.Prelude.{
  ℕ, zero, suc, ◌+◌, ◌≤◌, ◌<◌, ◌%◌, ◌≡◌, ◌≢◌, ◌⊎◌, inl, inr, refl, ◌∙◌, ap, true, false, Option,
  none, some, leb, ◌>>=◌, arith, ◌==◌, leb→le, Bool-cases, Option-cases,
}
use bhuna.Vm.{Instr, halt}
use bhuna.Vm.Step.{Status, running, terminated, returned, time_expired, waiting}
use bhuna.Vm.Run.{Machine, is_halt, collect, vm_switch, vm_round, proceed, vm_run}

module _ (n : ℕ) (malloc : ℕ → ℕ) (xmax : ℕ) where
  -- From the counter and the machine, rounds that go on lead to the other ones.
  pub data Rounds : ℕ → Machine → ℕ → Machine → Type 0 where
    start : {c : ℕ} {s : Machine} → Rounds c s c s
    round :
        {c c' : ℕ} {s s₁ s' : Machine} (i : Instr)
        → s.vm.program s.vm.pc ≡ some i
        → vm_round n i (malloc c) xmax (c + 1) s ≡ some (running, s₁)
        → Rounds (c + 1) s₁ c' s'
        → Rounds c s c' s'

  -- What the last round, with the counter at `c` before it, makes the result of the run: the program
  -- has no instruction there, or its collection or its instruction is undefined; it halts; it is the
  -- 256th after the last collection, the time slice is over, and a collection precedes the return; or
  -- its instruction ends the run, after a collection where one is due.
  pub data Ends (c : ℕ) (s : Machine) : Option (Status × Machine) → Type 0 where
    off_program : s.vm.program s.vm.pc ≡ none → Ends c s none
    undefined :
        (i : Instr)
        → s.vm.program s.vm.pc ≡ some i
        → vm_round n i (malloc c) xmax (c + 1) s ≡ none
        → Ends c s none
    halts : s.vm.program s.vm.pc ≡ some halt → Ends c s (some (terminated, s))
    expires :
        (i : Instr) (s' : Machine)
        → s.vm.program s.vm.pc ≡ some i
        → is_halt i ≡ false
        → (c + 1) % 256 ≡ 0
        → xmax ≤ c + 1
        → collect n s ≡ some s'
        → Ends c s (some (time_expired, s'))
    leaves :
        (i : Instr) (s₁ s' : Machine) (st : Status)
        → s.vm.program s.vm.pc ≡ some i
        → is_halt i ≡ false
        → (((c + 1) % 256 ≢ 0) × (s₁ ≡ s))
          ⊎ (((c + 1) % 256 ≡ 0) × (c + 1 < xmax) × (collect n s ≡ some s₁))
        → vm_switch i (malloc c) s₁ ≡ some (st, s')
        → st ≢ running
        → Ends c s (some (st, s'))

  -- A round goes on, which it does not where a slice is over, or it ends the run.
  abbrev Outcomes : ℕ → Machine → Instr → Type 0
  Outcomes c s i =
      ((s₁ : Machine) × (vm_round n i (malloc c) xmax (c + 1) s ≡ some (running, s₁))
        × ((c + 1) % 256 ≡ 0 → c + 1 < xmax))
      ⊎ (Ends c s (vm_round n i (malloc c) xmax (c + 1) s)
          × ((f : Machine → Option (Status × Machine))
              → (vm_round n i (malloc c) xmax (c + 1) s >>= λ (st, s'). proceed (f s') st s')
                ≡ vm_round n i (malloc c) xmax (c + 1) s))

  switched_cases :
      (c : ℕ) (s s₁ : Machine) (i : Instr) (o : Option (Status × Machine))
      → s.vm.program s.vm.pc ≡ some i
      → is_halt i ≡ false
      → (((c + 1) % 256 ≢ 0) × (s₁ ≡ s))
        ⊎ (((c + 1) % 256 ≡ 0) × (c + 1 < xmax) × (collect n s ≡ some s₁))
      → ((c + 1) % 256 ≡ 0 → c + 1 < xmax)
      → vm_switch i (malloc c) s₁ ≡ o
      → vm_round n i (malloc c) xmax (c + 1) s ≡ o
      → Outcomes c s i
  switched_cases c s s₁ i none fetched go collected early e r =
      inr (rw r (undefined i fetched r), λ f. rw r refl)
  switched_cases c s s₁ i (some (running, s')) fetched go collected early e r = inl (s', r, early)
  switched_cases c s s₁ i (some (terminated, s')) fetched go collected early e r =
      inr (rw r (leaves i s₁ s' terminated fetched go collected e (λ h. cc)), λ f. rw r refl)
  switched_cases c s s₁ i (some (returned, s')) fetched go collected early e r =
      inr (rw r (leaves i s₁ s' returned fetched go collected e (λ h. cc)), λ f. rw r refl)
  switched_cases c s s₁ i (some (time_expired, s')) fetched go collected early e r =
      inr (rw r (leaves i s₁ s' time_expired fetched go collected e (λ h. cc)), λ f. rw r refl)
  switched_cases c s s₁ i (some (waiting, s')) fetched go collected early e r =
      inr (rw r (leaves i s₁ s' waiting fetched go collected e (λ h. cc)), λ f. rw r refl)

  is_halt-halt : (i : Instr) → is_halt i ≡ true → i ≡ halt
  is_halt-halt halt e = refl
  is_halt-halt _ e = cc

  round_cases : (c : ℕ) (s : Machine) (i : Instr) → s.vm.program s.vm.pc ≡ some i → Outcomes c s i
  unfolding vm_round
  round_cases c s i fetched = elim (Bool-cases (is_halt i)) [
    | inl stop ↦ inr (rw stop (halts (fetched ∙ ap some (is_halt-halt i stop))), λ f. rw stop refl)
    | inr go ↦ elim (Bool-cases ((c + 1) % 256 == 0)) [
      | inr now ↦
          switched_cases c s s i (vm_switch i (malloc c) s) fetched go (inl (ground arith, refl))
            (λ h. ground arith) refl (rw (go, now) refl)
      | inl now ↦ elim (Option-cases (collect n s)) [
        | inl lost ↦
            let r : vm_round n i (malloc c) xmax (c + 1) s ≡ none = rw (go, now, lost) refl in
            inr (rw r (undefined i fetched r), λ f. rw r refl)
        | inr (s₁, e) ↦ elim (Bool-cases (leb xmax (c + 1))) [
          | inl late ↦
              let r : vm_round n i (malloc c) xmax (c + 1) s ≡ some (time_expired, s₁) =
                rw (go, now, e, late) refl in
              inr (
                rw r (expires i s₁ fetched go (ground arith) (leb→le xmax (c + 1) late) e),
                λ f. rw r refl,
              )
          | inr early ↦
              switched_cases c s s₁ i (vm_switch i (malloc c) s₁) fetched go
                (inr (ground arith, ground arith, e)) (λ h. ground arith) refl
                (rw (go, now, e, early) refl)
        ]
      ]
    ]
  ]

  one_more : (c r : ℕ) → c + 1 + r ≡ c + suc r
  one_more c r = omega arith

  some_more :
      (r c : ℕ)
      → (c + suc r) % 256 ≡ 0
      → xmax ≤ c + suc r
      → ((c + 1) % 256 ≡ 0 → c + 1 < xmax)
      → 0 < r
  some_more zero c whole late early = absurd (omega (arith, early whole))
  some_more (suc r) c whole late early = omega arith

  -- A run gives up control. From the counter `c`, where `rounds` is not 0 and `c + rounds` is a multiple
  -- of 256 that is at least `xmax`, with any fuel of no less than `rounds`, there are fewer than `rounds`
  -- rounds that go on, and the next one ends the run in one of the ways of `Ends`: no run is without a
  -- result for want of fuel, and a slice that is over returns VM_TIME_EXPIRED, after a collection.
  pub vm_run-slice :
      (rounds fuel c : ℕ) (s : Machine)
      → 0 < rounds
      → rounds ≤ fuel
      → (c + rounds) % 256 ≡ 0
      → xmax ≤ c + rounds
      → (c' : ℕ) × (s' : Machine) × Rounds c s c' s'
        × (c' < c + rounds)
        × Ends c' s' (vm_run fuel n malloc xmax c s)
  unfolding vm_run
  vm_run-slice zero fuel c s some_left enough whole late = absurd (omega arith)
  vm_run-slice (suc r) zero c s some_left enough whole late = absurd (omega arith)
  vm_run-slice (suc r) (suc fuel) c s some_left enough whole late =
      elim (Option-cases (s.vm.program s.vm.pc)) [
        | inl off ↦ (c, s, start, omega arith, rw off (off_program off))
        | inr (i, fetched) ↦ elim (round_cases c s i fetched) [
          | inr (ends, ended) ↦ (
            c,
            s,
            start,
            omega arith,
            rw (fetched, ◌>>=◌, ended (vm_run fuel n malloc xmax (c + 1))) ends,
          )
          | inl (s₁, r₁, early) ↦
              let (c', s', rounds, less, ends) =
                vm_run-slice r fuel (c + 1) s₁ (some_more r c whole late early) (omega arith)
                  (rw (one_more c r) whole) (omega arith) in
              (c', s', round i fetched r₁ rounds, omega arith, rw (fetched, ◌>>=◌, r₁) ends)
        ]
      ]
