-- ===== src/Icode/Rewire.antt =====
-- lib/icode.c: what `referrers_rewire` and `icode_free` do to the wiring.
use bhuna.Prelude.{
  ℕ, ◌≡◌, ◌≢◌, refl, true, false, ◌||◌, Option, none, some, List, [], ◌∷◌, ◌==◌, ◌>>=◌, arith,
  Bool-cases, Option-cases, inl, inr, if◌then◌else◌, ==_ne,
}
use bhuna.Prelude.Distinct.{listed}
use bhuna.Memory.{update}
use bhuna.Prelude.{ap, sym, ◌∙◌}
use bhuna.Icode.{
  Op, jmp, jz, icode, closure, Referrer, Iprogram, branch_of, with_branch, remove, without,
  rewire_all, referrers_rewire, icode_free, referrer_unwire,
}
use bhuna.Icode.Order.{listed-remove}
use bhuna.Icode.Wiring.{
  is_some, goes_to, branches_to, lists_icode, lists_closure, IsWired, without_icode,
  without_closure,
}

abbrev pub redirect : ℕ → Option Op → Option Op
redirect to none = none
redirect to (some op) = some (with_branch op to)

-- The icodes among the referrers branch to `to` now, the closures among them begin there, and all of
-- them are referrers of it.
pub record Rewired (rs : List Referrer) (to : ℕ) (ip ip' : Iprogram) : Type 0 where
  pub order : ip'.order ≡ ip.order
  pub code :
      (m : ℕ) → ip'.code m ≡ (if lists_icode rs m then redirect to (ip.code m) else ip.code m)
  pub entry : (q : ℕ) → ip'.entry q ≡ (if lists_closure rs q then some to else ip.entry q)
  pub icodes :
      (m : ℕ)
      → lists_icode (ip'.referrers to) m ≡ (lists_icode rs m || lists_icode (ip.referrers to) m)
  pub closures :
      (q : ℕ)
      → lists_closure (ip'.referrers to) q
        ≡ (lists_closure rs q || lists_closure (ip.referrers to) q)
  pub others : (n : ℕ) → (to == n) ≡ false → ip'.referrers n ≡ ip.referrers n

redirect_again : (to : ℕ) (op : Op) → with_branch (with_branch op to) to ≡ with_branch op to
redirect_again to (jmp o) = refl
redirect_again to (jz o) = refl
redirect_again to _ = refl

redirect_twice : (to : ℕ) (o : Option Op) → redirect to (redirect to o) ≡ redirect to o
redirect_twice to none = refl
redirect_twice to (some op) = ap some (redirect_again to op)

is_some-redirect : (to : ℕ) (o : Option Op) → is_some (redirect to o) ≡ is_some o
is_some-redirect to none = refl
is_some-redirect to (some op) = refl

pub rewire_all-Rewired :
    (rs : List Referrer) (to : ℕ) (ip : Iprogram)
    → ((m : ℕ) → lists_icode rs m ≡ true → is_some (ip.code m) ≡ true)
    → (ip' : Iprogram) × (rewire_all rs to ip ≡ some ip') × Rewired rs to ip ip'
unfolding rewire_all
rewire_all-Rewired [] to ip there = (
  ip,
  refl,
  record {
    order = refl;
    code = λ m. refl;
    entry = λ q. refl;
    icodes = λ m. refl;
    closures = λ q. refl;
    others = λ n h. refl;
  },
)
rewire_all-Rewired (icode m ∷ rs) to ip there = elim (Option-cases (ip.code m)) [
  | inl e ↦ ground (arith, there m)
  | inr (op, e) ↦
      let ip₁ = record ip {
        code = update ip.code m (some (with_branch op to));
        referrers = update ip.referrers to (icode m ∷ ip.referrers to);
      } in
      let (ip', run, r) = rewire_all-Rewired rs to ip₁ (λ k h. ground (arith, there k)) in
      (
        ip',
        rw (e, ◌>>=◌) run,
        record {
          order = r.order;
          code = λ k. ground (arith, r.code k, redirect_again to op);
          entry = r.entry;
          icodes = λ k. ground (arith, r.icodes k);
          closures = λ q. ground (arith, r.closures q);
          others = λ n h. ground (arith, r.others n h);
        },
      )
]
rewire_all-Rewired (closure q ∷ rs) to ip there =
    let ip₁ = record ip {
      entry = update ip.entry q (some to);
      referrers = update ip.referrers to (closure q ∷ ip.referrers to);
    } in
    let (ip', run, r) = rewire_all-Rewired rs to ip₁ (λ k h. ground (arith, there k)) in
    (
      ip',
      run,
      record {
        order = r.order;
        code = r.code;
        entry = λ p. ground (arith, r.entry p);
        icodes = λ k. ground (arith, r.icodes k);
        closures = λ p. ground (arith, r.closures p);
        others = λ n h. ground (arith, r.others n h);
      },
    )

branches_redirect :
    (to m n : ℕ) (o : Option Op)
    → elim o [ none ↦ false | some op ↦ goes_to (branch_of op) n ] ≡ true
    → (k : ℕ)
    → elim (redirect to o) [ none ↦ false | some op ↦ goes_to (branch_of op) k ] ≡ (to == k)
branches_redirect to m n none h k = cc
branches_redirect to m n (some (jmp o)) h k = refl
branches_redirect to m n (some (jz o)) h k = refl
branches_redirect to m n (some _) h k = cc

Rewired-branches :
    (from to : ℕ) (ip ip' : Iprogram)
    → IsWired ip
    → Rewired (ip.referrers from) to ip ip'
    → (m n : ℕ)
    → branches_to ip' m n ≡ (if branches_to ip m from then to == n else branches_to ip m n)
Rewired-branches from to ip ip' w r m n = elim (Bool-cases (branches_to ip m from)) [
  | inl h ↦
      let listed_m = w.branches m from in
      let e : ip'.code m ≡ redirect to (ip.code m) = ground (arith, r.code m) in
      rw h (
        ap (λ o. elim o [ none ↦ false | some op ↦ goes_to (branch_of op) n ]) e
        ∙ branches_redirect to m from (ip.code m) h n)
  | inr h ↦ let listed_m = w.branches m from in ground (arith, r.code m)
]

Rewired-IsWired :
    (from to : ℕ) (ip ip' : Iprogram)
    → (to == from) ≡ false
    → listed ip.order to ≡ true
    → IsWired ip
    → Rewired (ip.referrers from) to ip ip'
    → IsWired (record ip' { referrers = update ip'.referrers from [] })
Rewired-IsWired from to ip ip' ne there w r = record {
  branches = λ m n. ground (
    arith,
    Rewired-branches from to ip ip' w r m n,
    w.branches m n,
    w.branches m from,
    r.icodes m,
    r.others n,
  );
  entries =
      λ q n h. ground (arith, r.entry q, r.closures q, w.entries q n, w.entries q from, r.others n);
  allocated =
      λ n. ground (arith, r.order, r.code n, is_some-redirect to (ip.code n), w.allocated n);
  unreferred = λ n h. ground (
    arith,
    r.others n,
    r.code n,
    is_some-redirect to (ip.code n),
    w.unreferred n,
    w.allocated n,
    w.allocated to,
  );
}

-- Rewiring an icode to another one of the program leaves it without referrers; the branches that went
-- to it go to the other one.
pub referrers_rewire-IsWired :
    (from to : ℕ) (ip : Iprogram)
    → from ≢ to
    → listed ip.order to ≡ true
    → IsWired ip
    → (ip' : Iprogram) × (referrers_rewire from to ip ≡ some ip')
      × IsWired ip'
      × (ip'.order ≡ ip.order)
      × (ip'.referrers from ≡ [])
      × ((m : ℕ)
          → ip'.code m ≡ (if branches_to ip m from then redirect to (ip.code m) else ip.code m))
      × ((q : ℕ)
          → ip'.entry q ≡ (if lists_closure (ip.referrers from) q then some to else ip.entry q))
unfolding referrers_rewire
referrers_rewire-IsWired from to ip apart there w =
    let (ip', run, r) =
      rewire_all-Rewired (ip.referrers from) to ip (λ m h. ground (arith, w.branches m from)) in
    let ne = ==_ne to from (λ e. apart (sym e)) in
    (
      record ip' { referrers = update ip'.referrers from [] },
      rw (run, ◌>>=◌) refl,
      Rewired-IsWired from to ip ip' ne there w r,
      r.order,
      ground arith,
      λ m. ground (arith, r.code m, w.branches m from),
      r.entry,
    )

-- Freeing an icode that nothing branches to, and that is no closure's entry, takes it off the list and
-- leaves the others as they are.
pub icode_free-IsWired :
    (n : ℕ) (op : Op) (ip : Iprogram)
    → ip.code n ≡ some op
    → ip.referrers n ≡ []
    → IsWired ip
    → (ip' : Iprogram) × (icode_free n ip ≡ some ip')
      × IsWired ip'
      × (ip'.order ≡ remove n ip.order)
      × (ip'.code ≡ update ip.code n none)
      × (ip'.entry ≡ ip.entry)
      × ((m : ℕ) (q : ℕ) → lists_closure (ip'.referrers m) q ≡ lists_closure (ip.referrers m) q)
unfolding icode_free referrer_unwire
icode_free-IsWired n op ip e bare w = elim (Option-cases (branch_of op)) [
  | inl u ↦ (
    record ip {
      order = remove n ip.order;
      code = update ip.code n none;
      referrers = update ip.referrers n [];
    },
    rw (e, ◌>>=◌, u) refl,
    record {
      branches = λ m k. ground (arith, w.branches m k, bare);
      entries = λ q k h. ground (arith, w.entries q k, bare);
      allocated = λ k. ground (arith, w.allocated k, listed-remove n ip.order k);
      unreferred = λ k h. ground (arith, w.unreferred k);
    },
    refl,
    refl,
    refl,
    λ m q. ground (arith, bare),
  )
  | inr (t, u) ↦
      let rs = without n (ip.referrers t) in
      (
        record ip {
          order = remove n ip.order;
          code = update ip.code n none;
          referrers = update (update ip.referrers t rs) n [];
        },
        rw (e, ◌>>=◌, u) refl,
        record {
          branches =
              λ m k. ground (arith, w.branches m k, bare, without_icode n (ip.referrers t) m);
          entries =
              λ q k h. ground (arith, w.entries q k, bare, without_closure n (ip.referrers t) q);
          allocated = λ k. ground (arith, w.allocated k, listed-remove n ip.order k);
          unreferred = λ k h. ground (arith, w.unreferred k, w.unreferred t);
        },
        refl,
        refl,
        refl,
        λ m q. ground (arith, bare, without_closure n (ip.referrers t) q),
      )
]
