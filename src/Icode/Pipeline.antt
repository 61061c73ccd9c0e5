-- ===== src/Icode/Pipeline.antt =====
-- lib/icode.c, driver/main.c: the generator and the passes after it, from a tree to code that can be
-- laid out.
use bhuna.Prelude.{
  ℕ, ◌≡◌, ◌<◌, refl, sym, ap, ◌∙◌, Bool, true, false, none, some, List, [], ◌∷◌, ◌>>=◌, arith,
  Bool-cases, Option-cases, inl, inr, subst, All,
}
use bhuna.Prelude.Distinct.{listed}
use bhuna.Ast.{Ast}
use bhuna.Icode.{Op, jmp, jz, Iprogram, last_number}
use bhuna.Icode.Order.{IsIncreasing}
use bhuna.Icode.Wiring.{IsWired}
use bhuna.Icode.Optimize.{is_unset, Keeps, Keeps-trans}
use bhuna.Icode.Landing.{nop_at, kept, ends, retarget, landing, without_nops}
use bhuna.Icode.Nops.{iprogram_eliminate_nops-NopFree}
use bhuna.Icode.Passes.{
  is_nop, iprogram_eliminate_useless_jumps, iprogram_optimize_tail_calls,
  iprogram_optimize_push_small_ints, iprogram_eliminate_dead_code, optimize,
}
use bhuna.Icode.Finish.{
  AllSet, AllSet-Keeps, small_ints_from-Keeps, useless_jumps_from-Keeps, tail_calls_from-Keeps,
}
use bhuna.Icode.Dead.{dead_from-Pruned}
use bhuna.Icode.Generate.{ast_gen_iprogram}
use bhuna.Icode.Generated.{is_set}
use bhuna.Icode.Complete.{IsGenerable, ast_gen_iprogram-IsWired}

-- Code that can be laid out: wired, in order, with every jump set, and without a NOP.
pub record IsReady (ip : Iprogram) : Type 0 where
  pub wired : IsWired ip
  pub increasing : IsIncreasing ip.order
  pub set : AllSet ip
  pub no_nops : (n : ℕ) → nop_at ip.code n ≡ false

IsReady-Keeps : (ip ip' : Iprogram) → IsReady ip → Keeps ip ip' → IsReady ip'
IsReady-Keeps ip ip' r k = record {
  wired = k.wired;
  increasing = k.increasing;
  set = AllSet-Keeps ip ip' r.set k;
  no_nops = λ n. ground (arith, r.no_nops n, k.nops n);
}

ends-last : (skip : ℕ → Bool) (ns : List ℕ) → skip (last_number ns) ≡ false → ends skip ns ≡ false
ends-last skip [] h = refl
ends-last skip (n ∷ []) h = h
ends-last skip (n ∷ n' ∷ ns) h = ends-last skip (n' ∷ ns) h

All-kept : (P : ℕ → Type 0) (skip : ℕ → Bool) (ns : List ℕ) → All P ns → All P (kept skip ns)
All-kept P skip [] a = tt
All-kept P skip (n ∷ ns) a = elim (Bool-cases (skip n)) [
  | inl e ↦ rw e (All-kept P skip ns a.1)
  | inr e ↦ rw e (a.0, All-kept P skip ns a.1)
]

IsIncreasing-kept : (skip : ℕ → Bool) (ns : List ℕ) → IsIncreasing ns → IsIncreasing (kept skip ns)
IsIncreasing-kept skip [] a = tt
IsIncreasing-kept skip (n ∷ ns) a = elim (Bool-cases (skip n)) [
  | inl e ↦ rw e (IsIncreasing-kept skip ns a.1)
  | inr e ↦ rw e (All-kept (λ m. n < m) skip ns a.0, IsIncreasing-kept skip ns a.1)
]

All-listed : (ns : List ℕ) → All (λ n. listed ns n ≡ true) ns
All-listed ns = within ns ns (λ n h. h)
  where
    within :
        (ns ms : List ℕ)
        → ((n : ℕ) → listed ns n ≡ true → listed ms n ≡ true)
        → All (λ n. listed ms n ≡ true) ns
    within [] ms f = tt
    within (n ∷ ns) ms f = (f n (ground arith), within ns ms (λ k h. f k (ground (arith, h))))

retarget-same :
    (f : ℕ → ℕ) (op : Op)
    → (is_nop (retarget f op) ≡ is_nop op) × (is_unset (retarget f op) ≡ is_unset op)
retarget-same f (jmp none) = (refl, refl)
retarget-same f (jmp (some t)) = (refl, refl)
retarget-same f (jz none) = (refl, refl)
retarget-same f (jz (some t)) = (refl, refl)
retarget-same f _ = (refl, refl)

-- The program that `iprogram_eliminate_nops` leaves.
nops-IsReady :
    (ip ip' : Iprogram)
    → IsWired ip
    → IsIncreasing ip.order
    → AllSet ip
    → IsWired ip'
    → ip'.order ≡ kept (nop_at ip.code) ip.order
    → ((n : ℕ) → ip'.code n ≡ without_nops ip.order ip.code n)
    → IsReady ip'
nops-IsReady ip ip' w inc set w' o c = record {
  wired = w';
  increasing = subst IsIncreasing (sym o) (IsIncreasing-kept (nop_at ip.code) ip.order inc);
  set = λ n. elim (Option-cases (ip.code n)) [
    | inl e ↦ ground (arith, c n)
    | inr (op, e) ↦ ground (arith, c n, set n, retarget-same (landing (nop_at ip.code) ip.order) op)
  ];
  no_nops = λ n. elim (Option-cases (ip.code n)) [
    | inl e ↦ ground (arith, c n)
    | inr (op, e) ↦
        ground (arith, c n, w.allocated n, retarget-same (landing (nop_at ip.code) ip.order) op)
  ];
}

-- The passes finish on a wired program whose jumps are set and whose last icode is no NOP: no assertion
-- fails, and no dangling pointer is followed. What they leave is wired and in order, its jumps are set,
-- and there is no NOP in it.
pub optimize-IsReady :
    (ip : Iprogram)
    → IsWired ip
    → IsIncreasing ip.order
    → AllSet ip
    → nop_at ip.code (last_number ip.order) ≡ false
    → (ip' : Iprogram) × (optimize ip ≡ some ip') × IsReady ip'
unfolding optimize iprogram_eliminate_useless_jumps iprogram_optimize_tail_calls
    iprogram_optimize_push_small_ints iprogram_eliminate_dead_code
optimize-IsReady ip w inc set last =
    let (ip₁, run₁, w₁, o₁, c₁) =
      iprogram_eliminate_nops-NopFree ip inc (ends-last (nop_at ip.code) ip.order last) w in
    let r₁ = nops-IsReady ip ip₁ w inc set w₁ o₁ c₁ in
    let (ip₂, run₂, k₂) =
      useless_jumps_from-Keeps ip₁.order ip₁ (All-listed ip₁.order) r₁.wired r₁.increasing r₁.set in
    let (ip₃, run₃, k₃) =
      tail_calls_from-Keeps ip₂.order none ip₂ (All-listed ip₂.order) k₂.increasing k₂.wired
        k₂.increasing in
    let (ip₄, run₄, k₄) =
      small_ints_from-Keeps ip₃.order ip₃ (All-listed ip₃.order) k₃.wired k₃.increasing in
    let (ip₅, ks, run₅, k₅, _, _, _) =
      dead_from-Pruned ip₄.order [] false ip₄ refl k₄.wired k₄.increasing in
    (
      ip₅,
      ap
            (λ o. o >>= λ i₁. iprogram_eliminate_useless_jumps i₁ >>= λ i₂.
              iprogram_optimize_tail_calls i₂ >>= λ i₃.
              iprogram_optimize_push_small_ints i₃ >>= λ i₄. iprogram_eliminate_dead_code i₄)
            run₁
          ∙ ap
              (λ o. o >>= λ i₂. iprogram_optimize_tail_calls i₂ >>= λ i₃.
                iprogram_optimize_push_small_ints i₃ >>= λ i₄. iprogram_eliminate_dead_code i₄)
              run₂
          ∙ ap
              (λ o. o >>= λ i₃.
                iprogram_optimize_push_small_ints i₃ >>= λ i₄. iprogram_eliminate_dead_code i₄)
              run₃
          ∙ ap (λ o. o >>= λ i₄. iprogram_eliminate_dead_code i₄) run₄
          ∙ run₅,
      IsReady-Keeps ip₁ ip₅ r₁
          (Keeps-trans ip₁ ip₂ ip₅ k₂ (Keeps-trans ip₂ ip₃ ip₅ k₃ (Keeps-trans ip₃ ip₄ ip₅ k₄ k₅))),
    )

is_set-AllSet : (ip : Iprogram) → ((n : ℕ) → is_set (ip.code n) ≡ true) → AllSet ip
is_set-AllSet ip h n = elim (Option-cases (ip.code n)) [
  | inl e ↦ ground arith
  | inr (op, e) ↦ ground (arith, h n)
]

-- From a tree whose assignments and stores name a local, the generator and the passes make code that is
-- wired and in order, with every jump set and without a NOP.
pub compile-IsReady :
    (a : Ast)
    → IsGenerable a
    → (ip' : Iprogram) × ((ast_gen_iprogram a >>= optimize) ≡ some ip') × IsReady ip'
compile-IsReady a h =
    let (ip, n, run, w, inc, set, last, here) = ast_gen_iprogram-IsWired a h in
    let stop : nop_at ip.code (last_number ip.order) ≡ false =
      subst (λ k. nop_at ip.code k ≡ false) (sym last) (ground (arith, here)) in
    let (ip', run', r) = optimize-IsReady ip w inc (is_set-AllSet ip set) stop in
    (ip', ap (λ o. o >>= optimize) run ∙ run', r)
