-- ===== src/Icode/NopStep.antt =====
-- lib/icode.c: what the elimination of one NOP changes.
use bhuna.Prelude.{
  ℕ, ◌≡◌, ◌≢◌, sym, ap, ◌∙◌, true, false, ◌&&◌, Option, none, some, List, [], ◌∷◌, ◌++◌, ◌==◌,
  ◌>>=◌, arith, Bool-cases, Option-cases, inl, inr, if◌then◌else◌, subst,
}
use bhuna.Prelude.Distinct.{listed}
use bhuna.Memory.{update}
use bhuna.Icode.{Op, Iprogram, branch_of, with_branch, remove}
use bhuna.Icode.Order.{append_one}
use bhuna.Icode.Wiring.{goes_to, IsWired}
use bhuna.Icode.Rewire.{redirect, referrers_rewire-IsWired, icode_free-IsWired}
use bhuna.Icode.Passes.{is_nop, eliminate_nop}
use bhuna.Icode.Landing.{
  nop_at, landing, kept, retarget, map_option, without_nops, landing_same, retarget_step,
  is_nop-with_branch, retarget_same, landing_skip, kept_same,
}

-- What the elimination of the NOPs of `ns` makes of a program.
pub record NopFree (ns done : List ℕ) (ip ip' : Iprogram) : Type 0 where
  pub wired : IsWired ip'
  pub order : ip'.order ≡ done ++ kept (nop_at ip.code) ns
  pub code : (m : ℕ) → ip'.code m ≡ without_nops ns ip.code m

-- The code after one step.
abbrev pub Stepped : ℕ → ℕ → (ℕ → Option Op) → (ℕ → Option Op) → Type 0
Stepped n n' code code' =
    (m : ℕ)
    → code' m ≡ (
        if n == m
        then none
        else map_option (λ op. if goes_to (branch_of op) n then with_branch op n' else op) (code m))

pub stepped :
    (n n' m : ℕ) (code code₁ code₂ : ℕ → Option Op)
    → code₁ m ≡ (
        if elim (code m) [ none ↦ false | some op ↦ goes_to (branch_of op) n ]
        then redirect n' (code m)
        else code m)
    → code₂ m ≡ update code₁ n none m
    → code₂ m ≡ (
        if n == m
        then none
        else map_option (λ op. if goes_to (branch_of op) n then with_branch op n' else op) (code m))
stepped n n' m code code₁ code₂ c₁ c₂ = elim (Option-cases (code m)) [
  | inl e ↦ ground arith
  | inr (op, e) ↦ ground arith
]

-- One NOP: it is rewired to the next icode and freed.
pub eliminate_nop-IsWired :
    (n n' : ℕ) (ip : Iprogram)
    → n ≢ n'
    → listed ip.order n' ≡ true
    → nop_at ip.code n ≡ true
    → IsWired ip
    → (ip' : Iprogram) × (eliminate_nop n (some n') ip ≡ some ip')
      × IsWired ip'
      × (ip'.order ≡ remove n ip.order)
      × Stepped n n' ip.code ip'.code
unfolding eliminate_nop
eliminate_nop-IsWired n n' ip apart there is w =
    let (ip₁, run, w₁, o₁, bare, c₁, e₁) = referrers_rewire-IsWired n n' ip apart there w in
    elim (Option-cases (ip₁.code n)) [
      | inl gone ↦ ground (arith, w.allocated n, w₁.allocated n)
      | inr (op, here) ↦
          let (ip₂, run₂, w₂, o₂, c₂, e₂, k₂) = icode_free-IsWired n op ip₁ here bare w₁ in
          (
            ip₂,
            rw (run, ◌>>=◌) run₂,
            w₂,
            o₂ ∙ ap (remove n) o₁,
            λ m. stepped n n' m ip.code (ip₁.code) ip₂.code (c₁ m) (ap (λ f. f m) c₂),
          )
    ]

pub nop_at-Stepped :
    (n n' k : ℕ) (code code' : ℕ → Option Op)
    → Stepped n n' code code'
    → (n == k) ≡ false
    → nop_at code' k ≡ nop_at code k
nop_at-Stepped n n' k code code' c ne = elim (Option-cases (code k)) [
  | inl e ↦ ground (arith, c k)
  | inr (op, e) ↦ ground (arith, c k, is_nop-with_branch op n')
]

-- The NOPs of the rest make of it what they made of the code before, with `n` among them.
pub without_nops_step :
    (n n' m : ℕ) (ns : List ℕ) (code code' : ℕ → Option Op)
    → nop_at code n ≡ true
    → listed (n' ∷ ns) n ≡ false
    → Stepped n n' code code'
    → without_nops (n' ∷ ns) code' m ≡ without_nops (n ∷ n' ∷ ns) code m
without_nops_step n n' m ns code code' is apart c =
    let step = λ (t : ℕ).
      (landing_same (nop_at code) (nop_at code') (n' ∷ ns) (if n == t then n' else t)
        (λ k h. sym (nop_at-Stepped n n' k code code' c (ground (arith, h, apart))))) in
    let onward : (t : ℕ)
        → landing (nop_at code) (n ∷ n' ∷ ns) t
          ≡ landing (nop_at code') (n' ∷ ns) (if n == t then n' else t) =
      λ t. ap (λ b. landing (nop_at code) (n' ∷ ns) (if b && n == t then n' else t)) is ∙ step t in
    elim (Bool-cases (n == m)) [
      | inl same ↦ ground (arith, c m)
      | inr ne ↦ elim (Option-cases (code m)) [
        | inl e ↦ ground (arith, c m)
        | inr (op, e) ↦
            let r =
              retarget_step (landing (nop_at code') (n' ∷ ns)) (landing (nop_at code) (n ∷ n' ∷ ns))
                n n' op onward in
            let op' = if goes_to (branch_of op) n then with_branch op n' else op in
            let e' : code' m ≡ some op' = ground (arith, c m) in
            let q : listed (n' ∷ ns) m ≡ listed (n ∷ n' ∷ ns) m = ground arith in
            let moved =
              ap (map_option (retarget (landing (nop_at code') (n' ∷ ns)))) e'
              ∙ ap some r
              ∙ sym (ap (map_option (retarget (landing (nop_at code) (n ∷ n' ∷ ns)))) e) in
            λ i. if nop_at-Stepped n n' m code code' c ne i && q i then none else moved i
      ]
    ]

pub skipped :
    (n m : ℕ) (ns : List ℕ) (code : ℕ → Option Op)
    → nop_at code n ≡ false
    → without_nops ns code m ≡ without_nops (n ∷ ns) code m
skipped n m ns code is =
    let q : (nop_at code m && listed ns m) ≡ (nop_at code m && listed (n ∷ ns) m) =
      elim (Bool-cases (n == m)) [
        | inl e ↦
            (let here : nop_at code m ≡ false =
                subst (λ k. nop_at code k ≡ false) (ground arith) is in
              ground arith)
        | inr e ↦ ground arith
      ] in
    let r = retarget_same _ _ (code m) (λ t. landing_skip (nop_at code) n ns t is) in
    λ i. if q i then none else r i

-- Where the first icode is no NOP, it is one of those done.
pub NopFree-skip :
    (n : ℕ) (ns done : List ℕ) (ip ip' : Iprogram)
    → nop_at ip.code n ≡ false
    → NopFree ns (done ++ n ∷ []) ip ip'
    → NopFree (n ∷ ns) done ip ip'
NopFree-skip n ns done ip ip' is f = record {
  wired = f.wired;
  order =
      f.order
      ∙ append_one done (kept (nop_at ip.code) ns) n
      ∙ ap (λ b. done ++ (if b then kept (nop_at ip.code) ns else n ∷ kept (nop_at ip.code) ns))
          (sym is);
  code = λ m. f.code m ∙ skipped n m ns ip.code is;
}

-- Where the first one is a NOP, it went on to the next.
pub NopFree-step :
    (n n' : ℕ) (ns done : List ℕ) (ip ip₁ ip' : Iprogram)
    → nop_at ip.code n ≡ true
    → listed (n' ∷ ns) n ≡ false
    → Stepped n n' ip.code ip₁.code
    → NopFree (n' ∷ ns) done ip₁ ip'
    → NopFree (n ∷ n' ∷ ns) done ip ip'
NopFree-step n n' ns done ip ip₁ ip' is apart c f = record {
  wired = f.wired;
  order =
      f.order
      ∙ ap (λ ks. done ++ ks)
          (kept_same (nop_at ip₁.code) (nop_at ip.code) (n' ∷ ns)
              (λ k h. nop_at-Stepped n n' k ip.code ip₁.code c (ground (arith, h, apart)))
            ∙ ap
                (λ b.
                  if b
                  then kept (nop_at ip.code) (n' ∷ ns)
                  else n ∷ kept (nop_at ip.code) (n' ∷ ns))
                (sym is));
  code = λ m. f.code m ∙ without_nops_step n n' m ns ip.code ip₁.code is apart c;
}

pub not_nop :
    (code : ℕ → Option Op) (n : ℕ) (op : Op) → code n ≡ some op → nop_at code n ≡ is_nop op
not_nop code n op e = ap (λ o. elim o [ none ↦ false | some op ↦ is_nop op ]) e
