-- ===== src/Icode/Landing.antt =====
-- lib/icode.c: where control goes on when NOPs are skipped, without any referrers.
use bhuna.Prelude.{
  ℕ, ◌≡◌, refl, sym, ap, ◌∙◌, Bool, true, false, ◌&&◌, Option, none, some, List, [], ◌∷◌, ◌==◌,
  arith, if◌then◌else◌,
}
use bhuna.Prelude.Distinct.{listed}
use bhuna.Icode.{Op, nop, jmp, jz, branch_of, with_branch}
use bhuna.Icode.Wiring.{goes_to}
use bhuna.Icode.Passes.{is_nop}

-- Whether the icode is a NOP.
abbrev pub nop_at : (ℕ → Option Op) → ℕ → Bool
nop_at code n = elim (code n) [ none ↦ false | some op ↦ is_nop op ]

-- The first icode at or after `t` that is no NOP: going down the list, a NOP hands on to the next.
abbrev pub landing : (ℕ → Bool) → List ℕ → ℕ → ℕ
landing skip [] t = t
landing skip (n ∷ ns) t =
    landing skip ns (elim ns [ [] ↦ t | n' ∷ rest ↦ if skip n && n == t then n' else t ])

-- The icodes that are no NOPs.
abbrev pub kept : (ℕ → Bool) → List ℕ → List ℕ
kept skip [] = []
kept skip (n ∷ ns) = if skip n then kept skip ns else n ∷ kept skip ns

-- An operand with its branch moved by `f`.
abbrev pub retarget : (ℕ → ℕ) → Op → Op
retarget f (jmp (some t)) = jmp (some (f t))
retarget f (jz (some t)) = jz (some (f t))
retarget f op = op

abbrev pub map_option {ℓ κ} : {A : Type ℓ} {B : Type κ} → (A → B) → Option A → Option B
map_option f none = none
map_option f (some a) = some (f a)

-- The icode `m` after the NOPs of `ns` are gone.
abbrev pub without_nops : List ℕ → (ℕ → Option Op) → ℕ → Option Op
without_nops ns code m =
    if nop_at code m && listed ns m
    then none
    else map_option (retarget (landing (nop_at code) ns)) (code m)

pub landing_same :
    (f g : ℕ → Bool) (ns : List ℕ) (t : ℕ)
    → ((n : ℕ) → listed ns n ≡ true → f n ≡ g n)
    → landing f ns t ≡ landing g ns t
landing_same f g [] t same = refl
landing_same f g (n ∷ []) t same = refl
landing_same f g (n ∷ n' ∷ ns) t same =
    ap (λ b. landing f (n' ∷ ns) (if b && n == t then n' else t)) (same n (ground arith))
    ∙ landing_same f g (n' ∷ ns) _ (λ k h. same k (ground (arith, h)))

-- Moving the branches to `n` on to `n'` first.
pub retarget_step :
    (f g : ℕ → ℕ) (n n' : ℕ) (op : Op)
    → ((t : ℕ) → g t ≡ f (if n == t then n' else t))
    → retarget f (if goes_to (branch_of op) n then with_branch op n' else op) ≡ retarget g op
retarget_step f g n n' (jmp none) h = refl
retarget_step f g n n' (jz none) h = refl
retarget_step f g n n' (jmp (some t)) h = ground (arith, h t)
retarget_step f g n n' (jz (some t)) h = ground (arith, h t)
retarget_step f g n n' _ h = refl

pub is_nop-with_branch : (op : Op) (t : ℕ) → is_nop (with_branch op t) ≡ is_nop op
is_nop-with_branch nop t = refl
is_nop-with_branch _ t = refl

pub retarget_same :
    (f g : ℕ → ℕ) (o : Option Op)
    → ((t : ℕ) → f t ≡ g t)
    → map_option (retarget f) o ≡ map_option (retarget g) o
retarget_same f g o h = ap (λ k. map_option (retarget k) o) (λ i t. h t i)

pub landing_skip :
    (skip : ℕ → Bool) (n : ℕ) (ns : List ℕ) (t : ℕ)
    → skip n ≡ false
    → landing skip ns t ≡ landing skip (n ∷ ns) t
landing_skip skip n [] t h = refl
landing_skip skip n (n' ∷ ns) t h =
    ap (λ b. landing skip (n' ∷ ns) (if b && n == t then n' else t)) (sym h)

pub retarget_id : (f : ℕ → ℕ) (op : Op) → ((t : ℕ) → f t ≡ t) → retarget f op ≡ op
retarget_id f (jmp (some t)) h = rw (h t) refl
retarget_id f (jz (some t)) h = rw (h t) refl
retarget_id f (jmp none) h = refl
retarget_id f (jz none) h = refl
retarget_id f _ h = refl

pub retarget_none : (o : Option Op) → o ≡ map_option (retarget (λ t. t)) o
retarget_none none = refl
retarget_none (some op) = ap some (sym (retarget_id (λ t. t) op (λ t. refl)))

pub kept_same :
    (f g : ℕ → Bool) (ns : List ℕ)
    → ((n : ℕ) → listed ns n ≡ true → f n ≡ g n)
    → kept f ns ≡ kept g ns
kept_same f g [] same = refl
kept_same f g (n ∷ ns) same =
    let p = same n (ground arith) in
    let r = kept_same f g ns (λ k h. same k (ground (arith, h))) in
    λ i. if p i then r i else n ∷ r i

-- Whether the last icode is a NOP.
abbrev pub ends : (ℕ → Bool) → List ℕ → Bool
ends skip [] = false
ends skip (n ∷ []) = skip n
ends skip (n ∷ n' ∷ ns) = ends skip (n' ∷ ns)

pub ends_same :
    (f g : ℕ → Bool) (ns : List ℕ)
    → ((n : ℕ) → listed ns n ≡ true → f n ≡ g n)
    → ends f ns ≡ ends g ns
ends_same f g [] same = refl
ends_same f g (n ∷ []) same = same n (ground arith)
ends_same f g (n ∷ n' ∷ ns) same = ends_same f g (n' ∷ ns) (λ k h. same k (ground (arith, h)))

pub ends_tail :
    (skip : ℕ → Bool) (n : ℕ) (ns : List ℕ) → ends skip (n ∷ ns) ≡ false → ends skip ns ≡ false
ends_tail skip n [] h = refl
ends_tail skip n (m ∷ ms) h = h
