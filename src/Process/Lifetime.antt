-- ===== src/Process/Lifetime.antt =====
-- lib/process.c: creating a process and freeing one.
use bhuna.Prelude.{
  ℕ, ◌≡◌, inl, inr, Option-cases, refl, ◌∙◌, true, false, Option, none, some, List, [], ◌∷◌, ◌++◌,
  arith, ==_refl, ◌>>=◌, ◌+◌,
}
use bhuna.Prelude.Distinct.{listed, IsDistinct-middle, listed-append}
use bhuna.Memory.{update}
use bhuna.Process.{Process, Cells, Processes, unlink, process_new, process_free}
use bhuna.Process.Chain.{Segment-frame, Segment-set_prev}
use bhuna.Process.Unlink.{IsChain-frame, unlink_lem, head_of}
use bhuna.Process.Queues.{IsQueues}

-- A new process, at an address on neither list, comes first on the run list with the next number, the
-- given vm and an empty mailbox.
pub process_new-IsQueues :
    (s : Processes) (run wait : List ℕ) (p vm : ℕ)
    → IsQueues s run wait
    → listed run p ≡ false
    → listed wait p ≡ false
    → (s' : Processes) × (process_new p vm s ≡ some s')
      × IsQueues s' (p ∷ run) wait
      × (s'.procno ≡ s.procno + 1)
      × ((r : Process) × (s'.cell p ≡ some r)
          × (r.number ≡ s.procno)
          × (r.vm ≡ vm)
          × (r.msg_head ≡ []))
unfolding process_new
process_new-IsQueues s run wait p vm v off off_w =
    let r : Process = record {
      asleep = false;
      number = s.procno;
      next = s.run_head;
      prev = none;
      vm = vm;
      msg_head = [];
    } in
    let f = update s.cell p (some r) in
    let (last, c) = v.run_chain in
    let c₁ = Segment-frame s.cell f false none s.run_head run last none (λ q k. ground arith) c in
    let (g, e, (last', c₂), same) =
      Segment-set_prev f false none (some p) s.run_head run last v.run_distinct c₁ in
    let here : g p ≡ some r = same p off ∙ rw (==_refl p) refl in
    (
      record s { cell = g; run_head = some p; procno = s.procno + 1 },
      rw (e, ◌>>=◌) refl,
      record {
        run_chain = (last', (refl, (r, here, refl, refl, c₂)));
        wait_chain =
            IsChain-frame s.cell g true s.wait_head wait
              (λ q k. same q (ground (arith, v.apart q)) ∙ ground arith) v.wait_chain;
        run_distinct = (off, v.run_distinct);
        wait_distinct = v.wait_distinct;
        apart = λ q k. ground (arith, v.apart q);
      },
      refl,
      (r, here, refl, refl, refl),
    )

-- On the run list freeing unlinks the process as sleeping does.
process_free-unlink :
    (s : Processes) (p : ℕ) (r : Process) (g : Cells) (h : Option ℕ)
    → s.cell p ≡ some r
    → (r.prev ≡ none → s.run_head ≡ some p)
    → unlink p r s.cell s.run_head ≡ some (g, h)
    → process_free p s ≡ some (record s { cell = update g p none; run_head = h })
unfolding process_free unlink
process_free-unlink s p r g h e first u = elim (Option-cases r.prev) [
  | inl n ↦ let head = first n in ground arith
  | inr (q, n) ↦ ground arith
]

-- Freeing a running process takes it off the run list and gives its cell back.
pub process_free-IsQueues :
    (s : Processes) (xs ys wait : List ℕ) (p : ℕ)
    → IsQueues s (xs ++ p ∷ ys) wait
    → (s' : Processes) × (process_free p s ≡ some s')
      × IsQueues s' (xs ++ ys) wait
      × (s'.cell p ≡ none)
process_free-IsQueues s xs ys wait p v =
    let (r, e, ea, (g, h, u, c, same)) =
      unlink_lem s.cell false s.run_head xs ys p v.run_distinct v.run_chain in
    let (off_x, off_y, rest) = IsDistinct-middle xs ys p v.run_distinct in
    let off : listed (xs ++ ys) p ≡ false = ground (arith, listed-append xs ys p) in
    let off_w = v.apart p (ground (arith, listed-append xs (p ∷ ys) p)) in
    let away = λ (q : ℕ) (k : listed (xs ++ ys) q ≡ true).
      v.apart q (ground (arith, listed-append xs (p ∷ ys) q, listed-append xs ys q)) in
    (
      record s { cell = update g p none; run_head = h },
      process_free-unlink s p r g h e (head_of s.cell false s.run_head xs ys p r v.run_chain e) u,
      record {
        run_chain = IsChain-frame g (update g p none) false h (xs ++ ys) (λ q k. ground arith) c;
        wait_chain =
            IsChain-frame s.cell (update g p none) true s.wait_head wait
              (λ q k. ground (arith, away q, same q)) v.wait_chain;
        run_distinct = rest;
        wait_distinct = v.wait_distinct;
        apart = away;
      },
      rw (==_refl p) refl,
    )
