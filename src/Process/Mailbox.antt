-- ===== src/Process/Mailbox.antt =====
-- lib/process.c: sending wakes the receiver; messages come out last in, first out.
use bhuna.Prelude.{
  ℕ, ◌≡◌, ◌≢◌, refl, sym, subst, ==_ne, ap, ◌∙◌, Bool, true, false, Option, none, some, List, [],
  ◌∷◌, ◌++◌, arith, ◌==◌, ==_refl, ◌>>=◌, inl, inr, Bool-cases,
}
use bhuna.Value.{Value}
use bhuna.Memory.{update}
use bhuna.Process.{
  Process, Cells, Processes, process_awaken, process_send, take_message, process_recv,
}
use bhuna.Process.Chain.{Segment}
use bhuna.Process.Queues.{IsQueues, process_awaken-IsQueues}
use bhuna.Process.Mail.{mail, Ensures, Keeps, process_awaken-Keeps}

-- Writing a mailbox leaves the lists as they are.
Segment-mail :
    (f : Cells) (b : Bool) (prev head : Option ℕ) (xs : List ℕ) (last tail : Option ℕ) (p : ℕ)
    (r : Process) (vs : List Value)
    → f p ≡ some r
    → Segment f b prev head xs last tail
    → Segment (update f p (some (record r { msg_head = vs }))) b prev head xs last tail
Segment-mail f b prev head [] last tail p r vs e s = s
Segment-mail f b prev head (x ∷ xs) last tail p r vs e (h, (r', e', ep, ea, s)) =
    elim (Bool-cases (p == x)) [
      | inl same ↦
          let k : r' ≡ r = ground arith in
          (
            h,
            (
              record r { msg_head = vs },
              rw same refl,
              rw k at ep,
              rw k at ea,
              rw k at (Segment-mail f b (some x) r'.next xs last tail p r vs e s),
            ),
          )
      | inr other ↦
          (h, (r', rw other e', ep, ea, Segment-mail f b (some x) r'.next xs last tail p r vs e s))
    ]

pub IsQueues-mail :
    (s : Processes) (run wait : List ℕ) (p : ℕ) (r : Process) (vs : List Value)
    → s.cell p ≡ some r
    → IsQueues s run wait
    → IsQueues (record s { cell = update s.cell p (some (record r { msg_head = vs })) }) run wait
IsQueues-mail s run wait p r vs e v =
    let (l, c) = v.run_chain in
    let (l', c') = v.wait_chain in
    record {
      run_chain = (l, Segment-mail s.cell false none s.run_head run l none p r vs e c);
      wait_chain = (l', Segment-mail s.cell true none s.wait_head wait l' none p r vs e c');
      run_distinct = v.run_distinct;
      wait_distinct = v.wait_distinct;
      apart = v.apart;
    }

-- Storing the message, then awakening.
process_send-awaken :
    (s : Processes) (p : ℕ) (r : Process) (m : Value)
    → s.cell p ≡ some r
    → process_send p m s
      ≡ process_awaken p
          (record s { cell = update s.cell p (some (record r { msg_head = m ∷ r.msg_head })) })
unfolding process_send
process_send-awaken s p r m e =
    ap
      (λ o. o >>= λ r.
        process_awaken p
          (record s { cell = update s.cell p (some (record r { msg_head = m ∷ r.msg_head })) }))
      e

process_awaken-running :
    (s : Processes) (p : ℕ) (r : Process)
    → s.cell p ≡ some r
    → r.asleep ≡ false
    → process_awaken p s ≡ some s
unfolding process_awaken
process_awaken-running s p r e awake = rw (e, ◌>>=◌, awake) refl

-- A send to a sleeping process moves it to the front of the run list, with the message first in its
-- mailbox; the other mailboxes and the current process stay.
pub process_send-sleeping :
    (s : Processes) (run xs ys : List ℕ) (p : ℕ) (r : Process) (m : Value)
    → s.cell p ≡ some r
    → IsQueues s run (xs ++ p ∷ ys)
    → (s' : Processes) × (process_send p m s ≡ some s')
      × IsQueues s' (p ∷ run) (xs ++ ys)
      × (mail s'.cell p ≡ some (m ∷ r.msg_head))
      × ((q : ℕ) → q ≢ p → mail s'.cell q ≡ mail s.cell q)
      × (s'.current_process ≡ s.current_process)
process_send-sleeping s run xs ys p r m e v =
    let s₁ : Processes = record s {
      cell = update s.cell p (some (record r { msg_head = m ∷ r.msg_head }));
    } in
    let (s', run', w) =
      process_awaken-IsQueues
        (record s { cell = update s.cell p (some (record r { msg_head = m ∷ r.msg_head })) }) run xs
        ys p (IsQueues-mail s run (xs ++ p ∷ ys) p r (m ∷ r.msg_head) e v) in
    let kept : Keeps s₁ s' = subst (Ensures (Keeps s₁)) run' (process_awaken-Keeps p s₁) in
    (
      s',
      process_send-awaken s p r m e ∙ run',
      w,
      kept.0 p ∙ rw (==_refl p) refl,
      λ q ne. kept.0 q ∙ rw (==_ne p q (λ h. ne (sym h))) refl,
      kept.1,
    )

-- A send to a running process only adds to its mailbox, and to no other one.
pub process_send-running :
    (s : Processes) (run wait : List ℕ) (p : ℕ) (r : Process) (m : Value)
    → s.cell p ≡ some r
    → r.asleep ≡ false
    → IsQueues s run wait
    → (s' : Processes) × (process_send p m s ≡ some s')
      × IsQueues s' run wait
      × (s'.cell p ≡ some (record r { msg_head = m ∷ r.msg_head }))
      × (s'.current_process ≡ s.current_process)
      × ((q : ℕ) → q ≢ p → s'.cell q ≡ s.cell q)
process_send-running s run wait p r m e awake v =
    let here : update s.cell p (some (record r { msg_head = m ∷ r.msg_head })) p
        ≡ some (record r { msg_head = m ∷ r.msg_head }) =
      rw (==_refl p) refl in
    (
      record s { cell = update s.cell p (some (record r { msg_head = m ∷ r.msg_head })) },
      process_send-awaken s p r m e
          ∙ process_awaken-running
              (record s { cell = update s.cell p (some (record r { msg_head = m ∷ r.msg_head })) })
              p (record r { msg_head = m ∷ r.msg_head }) here awake,
      IsQueues-mail s run wait p r (m ∷ r.msg_head) e v,
      here,
      refl,
      λ q ne. rw (==_ne p q (λ h. ne (sym h))) refl,
    )

-- Receiving takes the first message of the mailbox.
pub process_recv-first :
    (s : Processes) (run wait : List ℕ) (p : ℕ) (r : Process) (m : Value) (rest : List Value)
    → s.current_process ≡ some p
    → s.cell p ≡ some (record r { msg_head = m ∷ rest })
    → IsQueues s run wait
    → (s' : Processes) × (process_recv s ≡ some (some m, s'))
      × IsQueues s' run wait
      × (s'.cell p ≡ some (record r { msg_head = rest }))
      × (s'.current_process ≡ some p)
unfolding process_recv take_message
process_recv-first s run wait p r m rest cur e v = (
  record s { cell = update s.cell p (some (record r { msg_head = rest })) },
  ap (λ o. o >>= λ p. s.cell p >>= λ r. some (take_message p r s)) cur
      ∙ ap (λ o. o >>= λ q. some (take_message p q s)) e,
  IsQueues-mail s run wait p (record r { msg_head = m ∷ rest }) rest e v,
  rw (==_refl p) refl,
  cur,
)

-- The mailbox is a stack: after sends of `a` and then `b` to the running process that receives, it
-- gets `b` first and then `a`; its cell is then as before, and so are the two lists.
pub process_recv-send :
    (s : Processes) (run wait : List ℕ) (p : ℕ) (r : Process) (a b : Value)
    → s.cell p ≡ some r
    → r.asleep ≡ false
    → s.current_process ≡ some p
    → IsQueues s run wait
    → (s₁ : Processes) × (s₂ : Processes) × (s₃ : Processes) × (s₄ : Processes) × (process_send p a
          s
        ≡ some s₁)
      × (process_send p b s₁ ≡ some s₂)
      × (process_recv s₂ ≡ some (some b, s₃))
      × (process_recv s₃ ≡ some (some a, s₄))
      × (s₄.cell p ≡ some r)
      × IsQueues s₄ run wait
process_recv-send s run wait p r a b e awake cur v =
    let (s₁, e₁, v₁, c₁, k₁, o₁) = process_send-running s run wait p r a e awake v in
    let (s₂, e₂, v₂, c₂, k₂, o₂) =
      process_send-running s₁ run wait p (record r { msg_head = a ∷ r.msg_head }) b c₁ awake v₁ in
    let (s₃, e₃, v₃, c₃, k₃) =
      process_recv-first s₂ run wait p r b (a ∷ r.msg_head) (k₂ ∙ k₁ ∙ cur) c₂ v₂ in
    let (s₄, e₄, v₄, c₄, k₄) = process_recv-first s₃ run wait p r a r.msg_head k₃ c₃ v₃ in
    (s₁, s₂, s₃, s₄, e₁, e₂, e₃, e₄, c₄, v₄)
