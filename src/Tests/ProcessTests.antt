-- ===== src/Tests/ProcessTests.antt =====
-- lib/process.c at three processes, of which the last sleeps.
use bhuna.Prelude.{
  ℕ, zero, suc, ◌≡◌, ◌≢◌, refl, Bool, true, false, Option, none, some, [], ◌∷◌, arith,
}
use bhuna.Value.{atom}
use bhuna.Process.{
  Process, Cells, Processes, process_new, process_free, process_sleep, process_awaken, process_send,
  process_recv,
}
use bhuna.Process.Mail.{mail}
use bhuna.Process.Queues.{IsQueues, process_sleep-IsQueues, process_awaken-IsQueues}
use bhuna.Process.Lifetime.{process_new-IsQueues, process_free-IsQueues}
use bhuna.Process.Mailbox.{process_send-sleeping, process_send-running, process_recv-send}

abbrev process : Bool → ℕ → Option ℕ → Option ℕ → Process
process asleep n next prev = record {
  asleep = asleep;
  number = n;
  next = next;
  prev = prev;
  vm = n;
  msg_head = [];
}

abbrev cells : Cells
cells zero = some (process false 1 (some 1) none)
cells (suc zero) = some (process false 2 none (some 0))
cells (suc (suc zero)) = some (process true 3 none none)
cells _ = none

abbrev three : Processes
three = record {
  cell = cells;
  current_process = some 0;
  run_head = some 0;
  wait_head = some 2;
  procno = 4;
}

three-IsQueues : IsQueues three (0 ∷ 1 ∷ []) (2 ∷ [])
three-IsQueues = record {
  run_chain = (
    some 1,
    (
      refl,
      (
        process false 1 (some 1) none,
        refl,
        refl,
        refl,
        (refl, (process false 2 none (some 0), refl, refl, refl, (refl, refl))),
      ),
    ),
  );
  wait_chain = (some 2, (refl, (process true 3 none none, refl, refl, refl, (refl, refl))));
  run_distinct = (refl, (refl, tt));
  wait_distinct = (refl, tt);
  apart = λ q h. ground arith;
}

process_sleep-IsQueues_example :
    (s' : Processes) × (process_sleep 1 three ≡ some s') × IsQueues s' (0 ∷ []) (1 ∷ 2 ∷ [])
process_sleep-IsQueues_example = process_sleep-IsQueues three (0 ∷ []) [] (2 ∷ []) 1 three-IsQueues

process_awaken-IsQueues_example :
    (s' : Processes) × (process_awaken 2 three ≡ some s') × IsQueues s' (2 ∷ 0 ∷ 1 ∷ []) []
process_awaken-IsQueues_example = process_awaken-IsQueues three (0 ∷ 1 ∷ []) [] [] 2 three-IsQueues

process_new-IsQueues_example :
    (s' : Processes) × (process_new 3 7 three ≡ some s')
    × IsQueues s' (3 ∷ 0 ∷ 1 ∷ []) (2 ∷ [])
    × (s'.procno ≡ 5)
    × ((r : Process) × (s'.cell 3 ≡ some r) × (r.number ≡ 4) × (r.vm ≡ 7) × (r.msg_head ≡ []))
process_new-IsQueues_example =
    process_new-IsQueues three (0 ∷ 1 ∷ []) (2 ∷ []) 3 7 three-IsQueues refl refl

process_free-IsQueues_example :
    (s' : Processes) × (process_free 1 three ≡ some s')
    × IsQueues s' (0 ∷ []) (2 ∷ [])
    × (s'.cell 1 ≡ none)
process_free-IsQueues_example = process_free-IsQueues three (0 ∷ []) [] (2 ∷ []) 1 three-IsQueues

process_send-sleeping_example :
    (s' : Processes) × (process_send 2 (atom 8) three ≡ some s')
    × IsQueues s' (2 ∷ 0 ∷ 1 ∷ []) []
    × (mail s'.cell 2 ≡ some (atom 8 ∷ []))
    × ((q : ℕ) → q ≢ 2 → mail s'.cell q ≡ mail three.cell q)
    × (s'.current_process ≡ some 0)
process_send-sleeping_example =
    process_send-sleeping three (0 ∷ 1 ∷ []) [] [] 2 (process true 3 none none) (atom 8) refl
      three-IsQueues

process_send-running_example :
    (s' : Processes) × (process_send 1 (atom 8) three ≡ some s')
    × IsQueues s' (0 ∷ 1 ∷ []) (2 ∷ [])
    × (s'.cell 1 ≡ some (record (process false 2 none (some 0)) { msg_head = atom 8 ∷ [] }))
    × (s'.current_process ≡ some 0)
    × ((q : ℕ) → q ≢ 1 → s'.cell q ≡ three.cell q)
process_send-running_example =
    process_send-running three (0 ∷ 1 ∷ []) (2 ∷ []) 1 (process false 2 none (some 0)) (atom 8) refl
      refl three-IsQueues

process_recv-send_example :
    (s₁ : Processes) × (s₂ : Processes) × (s₃ : Processes) × (s₄ : Processes) × (process_send 0
        (atom 8)
        three
      ≡ some s₁)
    × (process_send 0 (atom 9) s₁ ≡ some s₂)
    × (process_recv s₂ ≡ some (some (atom 9), s₃))
    × (process_recv s₃ ≡ some (some (atom 8), s₄))
    × (s₄.cell 0 ≡ some (process false 1 (some 1) none))
    × IsQueues s₄ (0 ∷ 1 ∷ []) (2 ∷ [])
process_recv-send_example =
    process_recv-send three (0 ∷ 1 ∷ []) (2 ∷ []) 0 (process false 1 (some 1) none) (atom 8)
      (atom 9) refl refl refl three-IsQueues
