-- ===== src/Gen/Layout.antt =====
-- lib/gen.c: the state of the first run of `iprogram_gen`, and what an icode adds to it.
use bhuna.Prelude.{
  ℕ, suc, ◌+◌, ◌≡◌, ◌<◌, ◌≤◌, refl, ap, ◌∙◌, true, false, ◌==◌, Option, none, some, List, [], ◌∷◌,
  if◌then◌else◌, length, ◌>>=◌, arith, All, All-mono, lt→ltb,
}
use bhuna.Prelude.Distinct.{listed}
use bhuna.Value.{structured, Kind}
use bhuna.Memory.{update}
use bhuna.Icode.{Op, push_value, jmp, jz, Iprogram, branch_of}
use bhuna.Icode.Wiring.{is_some}
use bhuna.Icode.Optimize.{is_unset}
use bhuna.Gen.{Emitted, operand_size, emitted, max_patches, add_patch, add_closure, gen_icode}
use bhuna.Gen.Patches.{patch_for, IsFalling, has_closure}

-- The bytes of an icode, and its address where the list begins at `base`.
abbrev pub size_at : (ℕ → Option Op) → ℕ → ℕ
size_at code n = elim (code n) [ none ↦ 0 | some op ↦ 1 + operand_size op ]

abbrev pub address : (ℕ → Option Op) → ℕ → List ℕ → ℕ → ℕ
address code base [] n = base
address code base (m ∷ ms) n = if m == n then base else address code (base + size_at code m) ms n

abbrev pub patches_of : Op → ℕ → List (ℕ × ℕ) → List (ℕ × ℕ)
patches_of op a bp = elim (branch_of op) [ none ↦ bp | some t ↦ (a, t) ∷ bp ]

-- The closure that an icode pushes.
abbrev pub closure_of : Op → Option ℕ
closure_of (push_value (structured Kind.closure q)) = some q
closure_of _ = none

abbrev pub closures_of : Op → List ℕ → List ℕ
closures_of op k = elim (closure_of op) [ none ↦ k | some q ↦ q ∷ k ]

pub add_patch-patches_of :
    (op : Op) (a : ℕ) (bp : List (ℕ × ℕ))
    → is_unset op ≡ false
    → length bp < max_patches
    → add_patch op a bp ≡ some (patches_of op a bp)
add_patch-patches_of (jmp (some t)) a bp s h = rw (lt→ltb (length bp) max_patches h) refl
add_patch-patches_of (jz (some t)) a bp s h = rw (lt→ltb (length bp) max_patches h) refl
add_patch-patches_of (jmp none) a bp s h = cc
add_patch-patches_of (jz none) a bp s h = cc
add_patch-patches_of _ a bp s h = refl

pub add_closure-closures_of :
    (op : Op) (k : List ℕ) → length k < max_patches → add_closure op k ≡ some (closures_of op k)
add_closure-closures_of (push_value (structured Kind.closure q)) k h =
    rw (lt→ltb (length k) max_patches h) refl
add_closure-closures_of (push_value (structured Kind.string q)) k h = refl
add_closure-closures_of (push_value (structured Kind.list q)) k h = refl
add_closure-closures_of (push_value (structured Kind.error q)) k h = refl
add_closure-closures_of (push_value (structured Kind.dict q)) k h = refl
add_closure-closures_of (push_value _) k h = refl
add_closure-closures_of _ k h = refl

-- The state after an icode.
abbrev pub after : ℕ → Op → Emitted → Emitted
after n op s = record {
  gptr = s.gptr + 1 + operand_size op;
  label = update s.label n (some s.gptr);
  code = update s.code s.gptr (some (emitted op));
  bp = patches_of op (s.gptr + 1) s.bp;
  k = closures_of op s.k;
}

pub gen_icode-after :
    (n : ℕ) (op : Op) (s : Emitted)
    → is_unset op ≡ false
    → length s.bp < max_patches
    → length s.k < max_patches
    → gen_icode n op s ≡ some (after n op s)
unfolding gen_icode
gen_icode-after n op s u b k =
    rw (add_patch-patches_of op (s.gptr + 1) s.bp u b, ◌>>=◌, add_closure-closures_of op s.k k) refl

-- The arrays: their addresses are below `gptr` and go down, the icodes named are in the program, and the
-- closures have an entry in it.
pub record Filed (ip : Iprogram) (s : Emitted) : Type 0 where
  pub falling : IsFalling s.bp
  pub under : All (λ e. e.0 < s.gptr) s.bp
  pub targets : All (λ e. is_some (ip.code e.1) ≡ true) s.bp
  pub closures : All (λ q. is_some (ip.entry q) ≡ true) s.k

-- What the run over `ns` adds.
pub record Laid (ip : Iprogram) (ns : List ℕ) (s s' : Emitted) : Type 0 where
  pub filed : Filed ip s'
  pub label :
      (n : ℕ) → s'.label n ≡ (if listed ns n then some (address ip.code s.gptr ns n) else s.label n)
  pub below : (a : ℕ) → a < s.gptr → s'.code a ≡ s.code a
  pub code :
      (n : ℕ) (op : Op)
      → listed ns n ≡ true
      → ip.code n ≡ some op
      → s'.code (address ip.code s.gptr ns n) ≡ some (emitted op)
  pub patches_below : (a : ℕ) → a ≤ s.gptr → patch_for s'.bp a ≡ patch_for s.bp a
  pub patches :
      (n t : ℕ) (op : Op)
      → listed ns n ≡ true
      → ip.code n ≡ some op
      → branch_of op ≡ some t
      → patch_for s'.bp (address ip.code s.gptr ns n + 1) ≡ some t
  pub closures_kept : (q : ℕ) → has_closure s.k q ≡ true → has_closure s'.k q ≡ true
  pub closures :
      (n q : ℕ) (op : Op)
      → listed ns n ≡ true
      → ip.code n ≡ some op
      → closure_of op ≡ some q
      → has_closure s'.k q ≡ true

-- What the icodes have to be.
pub record IsLayable (ip : Iprogram) : Type 0 where
  pub set : (n : ℕ) (op : Op) → ip.code n ≡ some op → is_unset op ≡ false
  pub branches :
      (n t : ℕ) (op : Op) → ip.code n ≡ some op → branch_of op ≡ some t → is_some (ip.code t) ≡ true
  pub entries :
      (n q : ℕ) (op : Op)
      → ip.code n ≡ some op
      → closure_of op ≡ some q
      → is_some (ip.entry q) ≡ true

pub under_more :
    (g g' : ℕ) (bp : List (ℕ × ℕ)) → g ≤ g' → All (λ e. e.0 < g) bp → All (λ e. e.0 < g') bp
under_more g g' bp le h = All-mono (λ e. e.0 < g) (λ e. e.0 < g') (λ e lt. omega arith) bp h

-- What holds of an array, and of it with one entry more, holds of what an icode makes of it.
pub one_more :
    {A : Type 0} (P : List A → Type 0) (o : Option ℕ) (f : ℕ → A) (es : List A)
    → P es
    → ((t : ℕ) → o ≡ some t → P (f t ∷ es))
    → P (elim o [ none ↦ es | some t ↦ f t ∷ es ])
one_more P none f es h g = h
one_more P (some t) f es h g = g t refl

pub jump_wide : (op : Op) (t g : ℕ) → branch_of op ≡ some t → g + 1 < g + 1 + operand_size op
jump_wide (jmp o) t g b = omega arith
jump_wide (jz o) t g b = omega arith
jump_wide _ t g b = cc

pub after-Filed :
    (n : ℕ) (op : Op) (ip : Iprogram) (s : Emitted)
    → ip.code n ≡ some op
    → IsLayable ip
    → Filed ip s
    → Filed ip (after n op s)
after-Filed n op ip s e l f =
    let g' = s.gptr + 1 + operand_size op in
    let entry : ℕ → ℕ × ℕ = λ t. (s.gptr + 1, t) in
    record {
      falling =
          one_more IsFalling (branch_of op) entry s.bp f.falling
            (λ t b. (under_more s.gptr (s.gptr + 1) s.bp (omega arith) f.under, f.falling));
      under =
          one_more (All (λ e. e.0 < g')) (branch_of op) entry s.bp
            (under_more s.gptr g' s.bp (omega arith) f.under)
            (λ t b. (jump_wide op t s.gptr b, under_more s.gptr g' s.bp (omega arith) f.under));
      targets =
          one_more (All (λ e. is_some (ip.code e.1) ≡ true)) (branch_of op) entry s.bp f.targets
            (λ t b. (l.branches n t op e b, f.targets));
      closures =
          one_more (All (λ q. is_some (ip.entry q) ≡ true)) (closure_of op) (λ q. q) s.k f.closures
            (λ q b. (l.entries n q op e b, f.closures));
    }

pub patches_length :
    (op : Op) (a : ℕ) (bp : List (ℕ × ℕ)) → length (patches_of op a bp) ≤ suc (length bp)
patches_length op a bp =
    one_more (λ es. length es ≤ suc (length bp)) (branch_of op) (λ t. (a, t)) bp (omega arith)
      (λ t b. omega arith)

pub closures_length : (op : Op) (k : List ℕ) → length (closures_of op k) ≤ suc (length k)
closures_length op k =
    one_more (λ es. length es ≤ suc (length k)) (closure_of op) (λ q. q) k (omega arith)
      (λ q b. omega arith)

pub patches_of-below :
    (op : Op) (a b : ℕ) (bp : List (ℕ × ℕ))
    → b < a
    → patch_for (patches_of op a bp) b ≡ patch_for bp b
patches_of-below op a b bp h =
    one_more (λ es. patch_for es b ≡ patch_for bp b) (branch_of op) (λ t. (a, t)) bp refl
      (λ t e. ground arith)

pub closures_of-kept :
    (op : Op) (k : List ℕ) (q : ℕ)
    → has_closure k q ≡ true
    → has_closure (closures_of op k) q ≡ true
closures_of-kept op k q h =
    one_more (λ es. has_closure es q ≡ true) (closure_of op) (λ q. q) k h (λ q e. ground arith)

pub patches_of-here :
    (op : Op) (a t : ℕ) (bp : List (ℕ × ℕ))
    → branch_of op ≡ some t
    → patch_for (patches_of op a bp) a ≡ some t
patches_of-here op a t bp b =
    ap (λ o. patch_for (elim o [ none ↦ bp | some t ↦ (a, t) ∷ bp ]) a) b ∙ ground arith

pub closures_of-here :
    (op : Op) (q : ℕ) (k : List ℕ)
    → closure_of op ≡ some q
    → has_closure (closures_of op k) q ≡ true
closures_of-here op q k b =
    ap (λ o. has_closure (elim o [ none ↦ k | some p ↦ p ∷ k ]) q) b ∙ ground arith
