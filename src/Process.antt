-- ===== src/Process.antt =====
-- lib/process.c, lib/process.h: lightweight processes on two doubly linked lists, with mailboxes.
pub mod Chain
pub mod Unlink
pub mod Queues
pub mod Lifetime
pub mod Mail
pub mod Mailbox
use bhuna.Prelude.{
  ℕ, ◌+◌, Bool, true, false, Option, none, some, List, [], ◌∷◌, ◌==◌, if◌then◌else◌, ◌>>=◌,
}
use bhuna.Value.{Value}
use bhuna.Memory.{update}

-- `struct process`. Its messages are its own, so the mailbox is the list of their payloads.
pub record Process : Type 0 where
  pub asleep : Bool
  pub number : ℕ
  pub next : Option ℕ
  pub prev : Option ℕ
  pub vm : ℕ
  pub msg_head : List Value

abbrev pub Cells : Type 0
Cells = ℕ → Option Process

-- The file's variables, and the processes at their addresses. An `Option` result is `none` where the
-- source would follow a dangling pointer.
pub record Processes : Type 0 where
  pub cell : Cells
  pub current_process : Option ℕ
  pub run_head : Option ℕ
  pub wait_head : Option ℕ
  pub procno : ℕ

-- `if (q != NULL) q->prev = v;` and `q->next = v;`
unfoldable pub set_prev : Option ℕ → Option ℕ → Cells → Option Cells
set_prev none v f = some f
set_prev (some q) v f = f q >>= λ r. some (update f q (some (record r { prev = v })))

unfoldable pub set_next : ℕ → Option ℕ → Cells → Option Cells
set_next q v f = f q >>= λ r. some (update f q (some (record r { next = v })))

abbrev pub is_head : ℕ → Option ℕ → Bool
is_head p none = false
is_head p (some q) = p == q

-- `p` is the address that `malloc` returns.
unfoldable pub process_new : ℕ → ℕ → Processes → Option Processes
unfolding set_prev
process_new p vm s =
    let r : Process = record {
      asleep = false;
      number = s.procno;
      next = s.run_head;
      prev = none;
      vm = vm;
      msg_head = [];
    } in
    set_prev s.run_head (some p) (update s.cell p (some r)) >>= λ f.
    some (record s { cell = f; run_head = some p; procno = s.procno + 1 })

-- `process_free`: the first unlinking step, with the two heads, then the rest.
unfoldable pub free_prev :
    ℕ → Process → Cells → Option ℕ → Option ℕ → Option (Cells × Option ℕ × Option ℕ)
unfolding set_next
free_prev p r f run_head wait_head = elim r.prev [
  | some q ↦ set_next q r.next f >>= λ g. some (g, run_head, wait_head)
  | none ↦ some (
      if is_head p run_head
      then (f, r.next, wait_head)
      else if is_head p wait_head
      then (f, run_head, r.next)
      else (f, run_head, wait_head))
]

unfoldable pub process_free : ℕ → Processes → Option Processes
unfolding free_prev set_prev
process_free p s = s.cell p >>= λ r. free_prev p r s.cell s.run_head s.wait_head >>= λ t.
    set_prev r.next r.prev t.0 >>= λ f.
    some (record s { cell = update f p none; run_head = t.1; wait_head = t.2 })

-- `process_sleep` and `process_awaken`: taking `p` off the list of which `head` is the head.
unfoldable pub unlink_prev : ℕ → Process → Cells → Option ℕ → Option (Cells × Option ℕ)
unfolding set_next
unlink_prev p r f head = elim r.prev [
  | some q ↦ set_next q r.next f >>= λ g. some (g, head)
  | none ↦ some (f, if is_head p head then r.next else head)
]

unfoldable pub unlink : ℕ → Process → Cells → Option ℕ → Option (Cells × Option ℕ)
unfolding unlink_prev set_prev
unlink p r f head =
    unlink_prev p r f head >>= λ t. set_prev r.next r.prev t.0 >>= λ g. some (g, t.1)

-- Putting it on the list of `head`.
unfoldable pub push : ℕ → Bool → Cells → Option ℕ → Option Cells
unfolding set_prev
push p asleep f head = f p >>= λ r.
    set_prev head (some p)
      (update f p (some (record r { prev = none; next = head; asleep = asleep })))

unfoldable pub process_sleep : ℕ → Processes → Option Processes
unfolding unlink push
process_sleep p s = s.cell p >>= λ r.
    if r.asleep
    then some s
    else (unlink p r s.cell s.run_head >>= λ t. push p true t.0 s.wait_head >>= λ f.
        some (record s { cell = f; run_head = t.1; wait_head = some p }))

unfoldable pub process_awaken : ℕ → Processes → Option Processes
unfolding unlink push
process_awaken p s = s.cell p >>= λ r.
    if r.asleep
    then (unlink p r s.cell s.wait_head >>= λ t. push p false t.0 s.run_head >>= λ f.
        some (record s { cell = f; wait_head = t.1; run_head = some p }))
    else some s

unfoldable pub process_send : ℕ → Value → Processes → Option Processes
process_send p v s = s.cell p >>= λ r.
    process_awaken p
      (record s { cell = update s.cell p (some (record r { msg_head = v ∷ r.msg_head })) })

-- `process_recv`: the first message of the process `p`, and its removal.
unfoldable pub take_message : ℕ → Process → Processes → Option Value × Processes
take_message p r s = elim r.msg_head [
  | [] ↦ (none, s)
  | v ∷ rest ↦ (some v, record s { cell = update s.cell p (some (record r { msg_head = rest })) })
]

-- The result and the new state; `none` inside is the return value 0.
unfoldable pub process_recv : Processes → Option (Option Value × Processes)
process_recv s = s.current_process >>= λ p. s.cell p >>= λ r. some (take_message p r s)
