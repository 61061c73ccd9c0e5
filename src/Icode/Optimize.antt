-- ===== src/Icode/Optimize.antt =====
-- lib/icode.c: what the changes that the optimisations make keep of a program.
use bhuna.Prelude.{
  ℕ, ◌≡◌, refl, sym, ap, ◌∙◌, Bool, true, false, Option, none, some, [], ◌==◌, arith, Bool-cases,
  inl, inr, if◌then◌else◌, subst,
}
use bhuna.Value.{null, integer, boolean, atom}
use bhuna.Prelude.Distinct.{listed}
use bhuna.Memory.{update}
use bhuna.Icode.{
  Op, ret, push_value, jmp, jz, Iprogram, branch_of, remove, referrer_unwire, icode_free,
}
use bhuna.Icode.Order.{IsIncreasing, IsIncreasing-remove, listed-remove}
use bhuna.Icode.Wiring.{IsWired, without_icode, without_closure}
use bhuna.Icode.Rewire.{icode_free-IsWired}
use bhuna.Icode.Landing.{nop_at}
use bhuna.Icode.Passes.{is_nop, set_code, small_op, useless_at}

-- A jump whose branch was never set.
abbrev pub is_unset : Op → Bool
is_unset (jmp none) = true
is_unset (jz none) = true
is_unset op = false

abbrev pub unset_at : (ℕ → Option Op) → ℕ → Bool
unset_at code n = elim (code n) [ none ↦ false | some op ↦ is_unset op ]

-- What a pass keeps: the wiring and the order; it adds no icode, no NOP and no unset jump.
pub record Keeps (ip ip' : Iprogram) : Type 0 where
  pub wired : IsWired ip'
  pub increasing : IsIncreasing ip'.order
  pub fewer : (n : ℕ) → listed ip'.order n ≡ true → listed ip.order n ≡ true
  pub nops : (n : ℕ) → nop_at ip'.code n ≡ true → nop_at ip.code n ≡ true
  pub unset : (n : ℕ) → unset_at ip'.code n ≡ true → unset_at ip.code n ≡ true

pub Keeps-refl : (ip : Iprogram) → IsWired ip → IsIncreasing ip.order → Keeps ip ip
Keeps-refl ip w inc = record {
  wired = w;
  increasing = inc;
  fewer = λ n h. h;
  nops = λ n h. h;
  unset = λ n h. h;
}

pub Keeps-trans : (ip ip₁ ip₂ : Iprogram) → Keeps ip ip₁ → Keeps ip₁ ip₂ → Keeps ip ip₂
Keeps-trans ip ip₁ ip₂ a b = record {
  wired = b.wired;
  increasing = b.increasing;
  fewer = λ n h. a.fewer n (b.fewer n h);
  nops = λ n h. a.nops n (b.nops n h);
  unset = λ n h. a.unset n (b.unset n h);
}

-- A test of the icodes after a write: of one that fails it, and of one that is tested as before.
update-false :
    (g : Option Op → Bool) (code : ℕ → Option Op) (n m : ℕ) (o : Option Op)
    → g o ≡ false
    → g (update code n o m) ≡ true
    → g (code m) ≡ true
update-false g code n m o fails h = elim (Bool-cases (n == m)) [
  | inl e ↦ (let f = ap (λ b. g (if b then o else code m)) e ∙ fails in ground (arith, f, h))
  | inr e ↦ sym (ap (λ b. g (if b then o else code m)) e) ∙ h
]

update_same :
    (g : Option Op → Bool) (code : ℕ → Option Op) (n m : ℕ) (o : Option Op)
    → g o ≡ g (code n)
    → g (update code n o m) ≡ true
    → g (code m) ≡ true
update_same g code n m o same h = elim (Bool-cases (n == m)) [
  | inl e ↦
      let at : n ≡ m = ground arith in
      ap (λ k. g (code k)) (sym at) ∙ sym same ∙ sym (ap (λ b. g (if b then o else code m)) e) ∙ h
  | inr e ↦ sym (ap (λ b. g (if b then o else code m)) e) ∙ h
]

abbrev nop_in : Option Op → Bool
nop_in o = elim o [ none ↦ false | some op ↦ is_nop op ]

abbrev pub unset_in : Option Op → Bool
unset_in o = elim o [ none ↦ false | some op ↦ is_unset op ]

-- Another opcode with the same branch.
pub set_code-Keeps :
    (n : ℕ) (op op' : Op) (ip : Iprogram)
    → ip.code n ≡ some op
    → branch_of op' ≡ branch_of op
    → is_nop op' ≡ is_nop op
    → is_unset op' ≡ is_unset op
    → IsWired ip
    → IsIncreasing ip.order
    → Keeps ip (set_code n op' ip)
set_code-Keeps n op op' ip e same real set w inc = record {
  wired = record {
    branches = λ m k. ground (arith, w.branches m k);
    entries = w.entries;
    allocated = λ m. ground (arith, w.allocated m);
    unreferred = λ m h. ground (arith, w.unreferred m);
  };
  increasing = inc;
  fewer = λ m h. h;
  nops = λ m h. update_same nop_in ip.code n m (some op') (real ∙ sym (ap nop_in e)) h;
  unset = λ m h. update_same unset_in ip.code n m (some op') (set ∙ sym (ap unset_in e)) h;
}

pub small_op-same :
    (op : Op)
    → (branch_of (small_op op) ≡ branch_of op)
      × (is_nop (small_op op) ≡ is_nop op)
      × (is_unset (small_op op) ≡ is_unset op)
small_op-same (push_value (integer i)) = ground arith
small_op-same (push_value null) = (refl, refl, refl)
small_op-same (push_value (boolean b)) = (refl, refl, refl)
small_op-same (push_value (atom b)) = (refl, refl, refl)
small_op-same (push_value _) = (refl, refl, refl)
small_op-same _ = (refl, refl, refl)

-- A jump to a RET becomes one.
pub useless_at-Keeps :
    (n t : ℕ) (ip : Iprogram)
    → ip.code n ≡ some (jmp (some t))
    → IsWired ip
    → IsIncreasing ip.order
    → Keeps ip (useless_at n (some t) ip)
unfolding useless_at referrer_unwire
useless_at-Keeps n t ip e w inc = record {
  wired = record {
    branches = λ m k. ground (arith, w.branches m k, without_icode n (ip.referrers t) m);
    entries = λ q k h. ground (arith, w.entries q k, without_closure n (ip.referrers t) q);
    allocated = λ m. ground (arith, w.allocated m);
    unreferred = λ m h. ground (arith, w.unreferred m);
  };
  increasing = inc;
  fewer = λ m h. h;
  nops = λ m h. update-false nop_in ip.code n m (some ret) refl h;
  unset = λ m h. update-false unset_in ip.code n m (some ret) refl h;
}

-- Freeing an icode without referrers.
pub icode_free-Keeps :
    (n : ℕ) (op : Op) (ip : Iprogram)
    → ip.code n ≡ some op
    → ip.referrers n ≡ []
    → IsWired ip
    → IsIncreasing ip.order
    → (ip' : Iprogram) × (icode_free n ip ≡ some ip')
      × Keeps ip ip'
      × (ip'.order ≡ remove n ip.order)
      × (ip'.code ≡ update ip.code n none)
icode_free-Keeps n op ip e bare w inc =
    let (ip', run, w', o, c, e', k') = icode_free-IsWired n op ip e bare w in
    (
      ip',
      run,
      record {
        wired = w';
        increasing = subst IsIncreasing (sym o) (IsIncreasing-remove n ip.order inc);
        fewer = λ m h. ground (arith, o, listed-remove n ip.order m);
        nops =
            λ m h. update-false nop_in ip.code n m none refl (sym (ap (λ f. nop_in (f m)) c) ∙ h);
        unset = λ m h.
            update-false unset_in ip.code n m none refl (sym (ap (λ f. unset_in (f m)) c) ∙ h);
      },
      o,
      c,
    )
