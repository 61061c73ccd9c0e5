-- ===== src/Process/Queues.antt =====
-- lib/process.c: every process is on one of the two lists, and the operations move it between them.
use bhuna.Prelude.{
  ℕ, ◌≡◌, refl, ◌∙◌, Bool, true, false, Option, none, some, List, ◌∷◌, ◌++◌, arith, ◌>>=◌,
}
use bhuna.Prelude.Distinct.{listed, IsDistinct, IsDistinct-middle, listed-append}
use bhuna.Process.{Process, Cells, Processes, unlink, push, process_sleep, process_awaken}
use bhuna.Process.Unlink.{IsChain, IsChain-frame, unlink_lem, push_lem}

-- The run list is `run`, the wait list is `wait`, and no process is on them twice.
pub record IsQueues (s : Processes) (run wait : List ℕ) : Type 0 where
  pub run_chain : IsChain s.cell false s.run_head run
  pub wait_chain : IsChain s.cell true s.wait_head wait
  pub run_distinct : IsDistinct run
  pub wait_distinct : IsDistinct wait
  pub apart : (q : ℕ) → listed run q ≡ true → listed wait q ≡ false

-- What moving `p` from one list to the other needs: apart lists, and `p` in the middle of one.
move_apart :
    (xs ys wait : List ℕ) (p : ℕ)
    → ((q : ℕ) → listed (xs ++ p ∷ ys) q ≡ true → listed wait q ≡ false)
    → (listed wait p ≡ false) × ((q : ℕ) → listed (xs ++ ys) q ≡ true → listed wait q ≡ false)
move_apart xs ys wait p apart = (
  apart p (ground (arith, listed-append xs (p ∷ ys) p)),
  λ q h. apart q (ground (arith, listed-append xs (p ∷ ys) q, listed-append xs ys q)),
)

-- Unlinking `p` from one list and pushing it on the other.
move_lem :
    (f : Cells) (b b' : Bool) (head head' : Option ℕ) (xs ys others : List ℕ) (p : ℕ)
    → IsDistinct (xs ++ p ∷ ys)
    → IsDistinct others
    → ((q : ℕ) → listed (xs ++ p ∷ ys) q ≡ true → listed others q ≡ false)
    → IsChain f b head (xs ++ p ∷ ys)
    → IsChain f b' head' others
    → (r : Process) × (f p ≡ some r)
      × (r.asleep ≡ b)
      × ((g : Cells) × (h : Option ℕ) × (g' : Cells) × (unlink p r f head ≡ some (g, h))
          × (push p b' g head' ≡ some g')
          × IsChain g' b h (xs ++ ys)
          × IsChain g' b' (some p) (p ∷ others)
          × (g' p ≡ some (record r { prev = none; next = head'; asleep = b' })))
move_lem f b b' head head' xs ys others p d d' away c c' =
    let (r, e, ea, (g, h, e₁, c₁, same₁)) = unlink_lem f b head xs ys p d c in
    let (off_x, off_y, rest) = IsDistinct-middle xs ys p d in
    let (off_o, apart) = move_apart xs ys others p away in
    let off : listed (xs ++ ys) p ≡ false = ground (arith, listed-append xs ys p) in
    let o₁ = IsChain-frame f g b' head' others (λ q k. same₁ q (ground (arith, apart q))) c' in
    let (g', e₂, c₂, same₂, here) = push_lem g b' head' others p r d' off_o (same₁ p off ∙ e) o₁ in
    (
      r,
      e,
      ea,
      (
        g,
        h,
        g',
        e₁,
        e₂,
        IsChain-frame g g' b h (xs ++ ys) (λ q k. same₂ q (ground (arith, apart q k, off))) c₁,
        c₂,
        here,
      ),
    )

-- What a moved process leaves: two distinct lists, still apart.
moved_apart :
    (xs ys others : List ℕ) (p : ℕ)
    → IsDistinct (xs ++ p ∷ ys)
    → ((q : ℕ) → listed (xs ++ p ∷ ys) q ≡ true → listed others q ≡ false)
    → (q : ℕ) → listed (xs ++ ys) q ≡ true
    → listed (p ∷ others) q ≡ false
moved_apart xs ys others p d away q k =
    let m = IsDistinct-middle xs ys p d in
    ground (arith, listed-append xs ys q, listed-append xs (p ∷ ys) q, away q, m.0, m.1)

-- Putting a running process to sleep takes it off the run list, keeps the order of the others, and puts
-- it first on the wait list.
pub process_sleep-IsQueues :
    (s : Processes) (xs ys wait : List ℕ) (p : ℕ)
    → IsQueues s (xs ++ p ∷ ys) wait
    → (s' : Processes) × (process_sleep p s ≡ some s') × IsQueues s' (xs ++ ys) (p ∷ wait)
unfolding process_sleep
process_sleep-IsQueues s xs ys wait p v =
    let (r, e, ea, (g, h, g', e₁, e₂, c₁, c₂, here)) =
      move_lem s.cell false true s.run_head s.wait_head xs ys wait p v.run_distinct v.wait_distinct
        v.apart v.run_chain v.wait_chain in
    (
      record s { cell = g'; run_head = h; wait_head = some p },
      rw (e, ◌>>=◌, ea, e₁, e₂) refl,
      record {
        run_chain = c₁;
        wait_chain = c₂;
        run_distinct = (IsDistinct-middle xs ys p v.run_distinct).2;
        wait_distinct = ((move_apart xs ys wait p v.apart).0, v.wait_distinct);
        apart = moved_apart xs ys wait p v.run_distinct v.apart;
      },
    )

swap_apart :
    (run wait : List ℕ)
    → ((q : ℕ) → listed run q ≡ true → listed wait q ≡ false)
    → (q : ℕ) → listed wait q ≡ true
    → listed run q ≡ false
swap_apart run wait apart q h = ground (arith, apart q)

-- Awakening a waiting process takes it off the wait list and puts it first on the run list.
pub process_awaken-IsQueues :
    (s : Processes) (run xs ys : List ℕ) (p : ℕ)
    → IsQueues s run (xs ++ p ∷ ys)
    → (s' : Processes) × (process_awaken p s ≡ some s') × IsQueues s' (p ∷ run) (xs ++ ys)
unfolding process_awaken
process_awaken-IsQueues s run xs ys p v =
    let away = swap_apart run (xs ++ p ∷ ys) v.apart in
    let (r, e, ea, (g, h, g', e₁, e₂, c₁, c₂, here)) =
      move_lem s.cell true false s.wait_head s.run_head xs ys run p v.wait_distinct v.run_distinct
        away v.wait_chain v.run_chain in
    (
      record s { cell = g'; wait_head = h; run_head = some p },
      rw (e, ◌>>=◌, ea, e₁, e₂) refl,
      record {
        run_chain = c₂;
        wait_chain = c₁;
        run_distinct = ((move_apart xs ys run p away).0, v.run_distinct);
        wait_distinct = (IsDistinct-middle xs ys p v.wait_distinct).2;
        apart = swap_apart (xs ++ ys) (p ∷ run) (moved_apart xs ys run p v.wait_distinct away);
      },
    )
