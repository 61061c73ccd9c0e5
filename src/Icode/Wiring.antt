-- ===== src/Icode/Wiring.antt =====
-- lib/icode.c: the referrers of an icode are what branches to it, whatever the operations change.
use bhuna.Prelude.{
  ℕ, ◌+◌, ◌≡◌, refl, Bool, true, false, ◌||◌, ◌&&◌, not, Option, none, some, List, [], ◌∷◌, ◌==◌,
  ◌>>=◌, arith,
}
use bhuna.Prelude.Distinct.{listed, listed-append}
use bhuna.Memory.{update}
use bhuna.Icode.{
  Op, icode, closure, Referrer, Iprogram, is_icode, is_closure, branch_of, with_branch, last_number,
  without, icode_new, icode_set_branch, icode_set_closure_entry_point,
}

abbrev pub is_some {ℓ} : {A : Type ℓ} → Option A → Bool
is_some none = false
is_some (some a) = true

abbrev pub goes_to : Option ℕ → ℕ → Bool
goes_to none n = false
goes_to (some t) n = t == n

-- Whether the icode `m` branches to `n`.
abbrev pub branches_to : Iprogram → ℕ → ℕ → Bool
branches_to ip m n = elim (ip.code m) [ none ↦ false | some op ↦ goes_to (branch_of op) n ]

abbrev pub lists_icode : List Referrer → ℕ → Bool
lists_icode [] m = false
lists_icode (r ∷ rs) m = is_icode m r || lists_icode rs m

abbrev pub lists_closure : List Referrer → ℕ → Bool
lists_closure [] q = false
lists_closure (r ∷ rs) q = is_closure q r || lists_closure rs q

-- `m` branches to `n` where, and only where, `n` has `m` among its referrers, so that every branch
-- goes to an icode of the program; where a closure's code starts at `n`, the closure is a referrer of
-- `n`; and the icodes of the list are those that there are.
pub record IsWired (ip : Iprogram) : Type 0 where
  pub branches : (m n : ℕ) → branches_to ip m n ≡ lists_icode (ip.referrers n) m
  pub entries : (q n : ℕ) → goes_to (ip.entry q) n ≡ true → lists_closure (ip.referrers n) q ≡ true
  pub allocated : (n : ℕ) → listed ip.order n ≡ is_some (ip.code n)
  pub unreferred : (n : ℕ) → is_some (ip.code n) ≡ false → ip.referrers n ≡ []

-- A new icode without a branch.
pub icode_new-IsWired :
    (op : Op) (ip : Iprogram)
    → branch_of op ≡ none
    → listed ip.order (last_number ip.order + 1) ≡ false
    → IsWired ip
    → IsWired (icode_new op ip).1
unfolding icode_new
icode_new-IsWired op ip unset fresh w =
    let gone = w.unreferred (last_number ip.order + 1) in
    let there = w.allocated (last_number ip.order + 1) in
    record {
      branches = λ m n. ground (arith, w.branches m n, gone, there);
      entries = λ q n h. ground (arith, w.entries q n, gone, there);
      allocated = λ n.
          ground (arith, w.allocated n, listed-append ip.order ((last_number ip.order + 1) ∷ []) n);
      unreferred = λ n h. ground (arith, w.unreferred n);
    }

-- Setting the branch of a jump that has none.
pub icode_set_branch-IsWired :
    (m n : ℕ) (op : Op) (ip : Iprogram)
    → ip.code m ≡ some op
    → branch_of op ≡ none
    → branch_of (with_branch op n) ≡ some n
    → listed ip.order n ≡ true
    → IsWired ip
    → (ip' : Iprogram) × (icode_set_branch m n ip ≡ some ip')
      × IsWired ip'
      × (ip'.order ≡ ip.order)
      × ((k : ℕ) → ip'.code k ≡ update ip.code m (some (with_branch op n)) k)
unfolding icode_set_branch
icode_set_branch-IsWired m n op ip e unset jump there w = (
  record ip {
    code = update ip.code m (some (with_branch op n));
    referrers = update ip.referrers n (icode m ∷ ip.referrers n);
  },
  rw (e, ◌>>=◌) refl,
  record {
    branches = λ k l. ground (arith, w.branches k l);
    entries = λ q k h. ground (arith, w.entries q k);
    allocated = λ k. ground (arith, w.allocated k);
    unreferred = λ k h. ground (arith, w.unreferred k, w.allocated n);
  },
  refl,
  λ k. refl,
)

pub icode_set_closure_entry_point-IsWired :
    (q n : ℕ) (ip : Iprogram)
    → listed ip.order n ≡ true
    → IsWired ip
    → IsWired (icode_set_closure_entry_point q n ip)
unfolding icode_set_closure_entry_point
icode_set_closure_entry_point-IsWired q n ip there w = record {
  branches = λ k l. ground (arith, w.branches k l);
  entries = λ p k h. ground (arith, w.entries p k);
  allocated = λ k. ground (arith, w.allocated k);
  unreferred = λ k h. ground (arith, w.unreferred k, w.allocated n);
}

pub without_icode :
    (m : ℕ) (rs : List Referrer) (k : ℕ)
    → lists_icode (without m rs) k ≡ (lists_icode rs k && not (m == k))
without_icode m [] k = refl
without_icode m (icode n ∷ rs) k = ground (arith, without_icode m rs k)
without_icode m (closure q ∷ rs) k = ground (arith, without_icode m rs k)

pub without_closure :
    (m : ℕ) (rs : List Referrer) (q : ℕ) → lists_closure (without m rs) q ≡ lists_closure rs q
without_closure m [] q = refl
without_closure m (icode n ∷ rs) q = ground (arith, without_closure m rs q)
without_closure m (closure p ∷ rs) q = ground (arith, without_closure m rs q)
