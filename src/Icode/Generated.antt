-- ===== src/Icode/Generated.antt =====
-- lib/icode.c: the generator keeps the program wired and leaves no jump without a branch.
use bhuna.Prelude.{
  ℕ, ◌+◌, ◌≡◌, refl, sym, ap, ◌∙◌, Bool, true, false, not, Option, none, some, List, [], ◌∷◌, ◌==◌,
  arith, Bool-cases, inl, inr, ◌<◌, subst, ==_refl,
}
use bhuna.Prelude.Distinct.{listed, listed-append}
use bhuna.Memory.{update}
use bhuna.Icode.{
  Op, nop, jmp, jz, Iprogram, branch_of, with_branch, last_number, icode_new, icode_set_branch,
}
use bhuna.Icode.Order.{IsIncreasing, IsIncreasing-append, last_bound, listed-All}
use bhuna.Icode.Wiring.{is_some, IsWired, icode_new-IsWired, icode_set_branch-IsWired}
use bhuna.Icode.Optimize.{is_unset}
use bhuna.Icode.Generate.{land}

-- Whether there is no such icode, or one whose branch is set if it is a jump.
abbrev pub is_set : Option Op → Bool
is_set none = true
is_set (some op) = not (is_unset op)

-- What the generator does to a program: it adds icodes, which are set but for those in `ps`.
pub record Generated (ps : List ℕ) (ip ip' : Iprogram) : Type 0 where
  pub wired : IsWired ip'
  pub increasing : IsIncreasing ip'.order
  pub kept : (n : ℕ) → is_some (ip.code n) ≡ true → ip'.code n ≡ ip.code n
  pub set : (n : ℕ) → is_some (ip.code n) ≡ false → listed ps n ≡ false → is_set (ip'.code n) ≡ true

pub Generated-refl : (ip : Iprogram) → IsWired ip → IsIncreasing ip.order → Generated [] ip ip
Generated-refl ip w inc = record {
  wired = w;
  increasing = inc;
  kept = λ n h. refl;
  set = λ n h l. ground arith;
}

pub Generated-trans :
    (ps : List ℕ) (ip ip₁ ip₂ : Iprogram)
    → Generated ps ip ip₁
    → Generated [] ip₁ ip₂
    → Generated ps ip ip₂
Generated-trans ps ip ip₁ ip₂ a b = record {
  wired = b.wired;
  increasing = b.increasing;
  kept = λ n h. ground (arith, a.kept n, b.kept n);
  set = λ n h l. ground (arith, a.set n, b.set n, b.kept n);
}

-- The number of a new icode is not one of the program's.
fresh : (ns : List ℕ) → IsIncreasing ns → listed ns (last_number ns + 1) ≡ false
fresh ns inc = elim (Bool-cases (listed ns (last_number ns + 1))) [
  | inl h ↦
      (let b =
          listed-All (λ m. m < last_number ns + 1) ns (last_number ns + 1) (last_bound ns inc) h in
        absurd (omega arith))
  | inr h ↦ h
]

-- A new icode, whose branch is set later if it is a jump.
pub icode_new-Generated :
    (op : Op) (ps : List ℕ) (ip ip' : Iprogram)
    → branch_of op ≡ none
    → Generated ps ip ip'
    → (n : ℕ) × (ip₁ : Iprogram) × (icode_new op ip' ≡ (n, ip₁))
      × Generated (n ∷ ps) ip ip₁
      × (ip₁.code n ≡ some op)
      × (is_some (ip'.code n) ≡ false)
      × ((m : ℕ) → is_some (ip'.code m) ≡ true → ip₁.code m ≡ ip'.code m)
      × (listed ip₁.order n ≡ true)
      × (is_unset op ≡ false → Generated ps ip ip₁)
unfolding icode_new
icode_new-Generated op ps ip ip' unset g =
    let n = last_number ip'.order + 1 in
    let new = fresh ip'.order g.increasing in
    let there = g.wired.allocated n in
    let w = icode_new-IsWired op ip' unset new g.wired in
    let inc = IsIncreasing-append ip'.order n g.increasing (last_bound ip'.order g.increasing) in
    let absent : is_some (ip'.code n) ≡ false = sym there ∙ new in
    (
      n,
      (icode_new op ip').1,
      refl,
      record {
        wired = w;
        increasing = inc;
        kept = λ m h. ground (arith, g.kept m, absent);
        set = λ m h l. ground (arith, g.set m h);
      },
      rw (==_refl n) refl,
      absent,
      λ m h. ground (arith, absent),
      ground (arith, listed-append ip'.order (n ∷ []) n),
      λ s. record {
        wired = w;
        increasing = inc;
        kept = λ m h. ground (arith, g.kept m, absent);
        set = λ m h l. ground (arith, g.set m h l);
      },
    )

-- A jump whose branch is not set yet.
pub data IsJump : Op → Type 0 where
  always : IsJump (jmp none)
  if_false : IsJump (jz none)

IsJump-branch :
    {op : Op} (n : ℕ)
    → IsJump op
    → (branch_of op ≡ none)
      × (branch_of (with_branch op n) ≡ some n)
      × (is_unset (with_branch op n) ≡ false)
IsJump-branch n IsJump.always = (refl, refl, refl)
IsJump-branch n IsJump.if_false = (refl, refl, refl)

-- The result of setting a jump's branch: the others stay.
pub record Landed (m : ℕ) (ps : List ℕ) (ip ip' ip'' : Iprogram) : Type 0 where
  pub generated : Generated ps ip ip''
  pub others : (k : ℕ) → (m == k) ≡ false → is_some (ip'.code k) ≡ true → ip''.code k ≡ ip'.code k

landed :
    (op : Op) (m n : ℕ) (ps : List ℕ) (ip ip' ip'' : Iprogram)
    → is_unset (with_branch op n) ≡ false
    → Generated (m ∷ ps) ip ip'
    → is_some (ip.code m) ≡ false
    → IsWired ip''
    → ip''.order ≡ ip'.order
    → ((k : ℕ) → ip''.code k ≡ update ip'.code m (some (with_branch op n)) k)
    → Landed m ps ip ip' ip''
landed op m n ps ip ip' ip'' b g new w o c = record {
  generated = record {
    wired = w;
    increasing = subst IsIncreasing (sym o) g.increasing;
    kept = λ k h. ground (arith, c k, g.kept k);
    set = λ k h l. ground (arith, c k, b, g.set k h);
  };
  others = λ k h a. ground (arith, c k);
}

pub icode_set_branch-Landed :
    {op : Op} (m n : ℕ) (ps : List ℕ) (ip ip' : Iprogram)
    → IsJump op
    → Generated (m ∷ ps) ip ip'
    → ip'.code m ≡ some op
    → is_some (ip.code m) ≡ false
    → listed ip'.order n ≡ true
    → (ip'' : Iprogram) × (icode_set_branch m n ip' ≡ some ip'') × Landed m ps ip ip' ip''
unfolding icode_set_branch
icode_set_branch-Landed {op} m n ps ip ip' j g here new there =
    let (b₀, b₁, b₂) = IsJump-branch n j in
    let (ip'', run, w, o, c) = icode_set_branch-IsWired m n op ip' here b₀ b₁ there g.wired in
    (ip'', run, landed op m n ps ip ip' ip'' b₂ g new w o c)

-- A NOP at the end, where the jump `m` goes.
pub land-Landed :
    {op : Op} (m : ℕ) (ps : List ℕ) (ip ip' : Iprogram)
    → IsJump op
    → Generated (m ∷ ps) ip ip'
    → ip'.code m ≡ some op
    → is_some (ip.code m) ≡ false
    → (ip'' : Iprogram) × (land m ip' ≡ some ip'') × Landed m ps ip ip' ip''
unfolding land
land-Landed {op} m ps ip ip' j g here new =
    let (n, ip₁, run, opened, here_n, new_n, others, there, closed) =
      icode_new-Generated nop (m ∷ ps) ip ip' refl g in
    let was : is_some (ip'.code m) ≡ true = ap is_some here in
    let (ip₂, run₂, l) =
      icode_set_branch-Landed m n ps ip ip₁ j (closed refl) (others m was ∙ here) new there in
    (
      ip₂,
      ap (λ t. icode_set_branch m t.0 t.1) run ∙ run₂,
      record {
        generated = l.generated;
        others = λ k h a. l.others k h (ap is_some (others k a) ∙ a) ∙ others k a;
      },
    )
