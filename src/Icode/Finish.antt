-- ===== src/Icode/Finish.antt =====
-- lib/icode.c: each optimisation finishes, and keeps the program wired.
use bhuna.Prelude.{
  ℕ, ◌≡◌, refl, sym, ap, ◌∙◌, true, false, Option, none, some, List, [], ◌∷◌, ◌⊎◌, ◌==◌, ◌>>=◌,
  arith, Bool-cases, Option-cases, inl, inr, All, ◌<◌,
}
use bhuna.Prelude.Distinct.{listed}
use bhuna.Icode.{Op, call, goto, ret, jmp, Iprogram}
use bhuna.Icode.Order.{IsIncreasing, listed-remove}
use bhuna.Icode.Wiring.{IsWired}
use bhuna.Icode.Optimize.{
  is_unset, unset_at, unset_in, Keeps, Keeps-refl, Keeps-trans, set_code-Keeps, small_op-same,
  useless_at-Keeps, icode_free-Keeps,
}
use bhuna.Icode.Passes.{
  is_ret, set_code, tail_call, tail_call_at, tail_calls_from, small_op, small_ints_from,
  useless_target, useless_at, useless_jumps_from,
}

visit_rest :
    (n : ℕ) (ns : List ℕ) (order order' : List ℕ)
    → ((m : ℕ) → (n == m) ≡ false → listed order m ≡ true → listed order' m ≡ true)
    → All (λ m. listed order m ≡ true) ns
    → All (λ m. n < m) ns
    → All (λ m. listed order' m ≡ true) ns
visit_rest n [] order order' f a b = tt
visit_rest n (m ∷ ms) order order' f a b =
    (f m (ground (arith, b.0)) a.0, visit_rest n ms order order' f a.1 b.1)

pub allocated_code :
    (n : ℕ) (ip : Iprogram)
    → IsWired ip
    → listed ip.order n ≡ true
    → (op : Op) × (ip.code n ≡ some op)
allocated_code n ip w h = elim (Option-cases (ip.code n)) [
  | inl e ↦ ground (arith, w.allocated n)
  | inr r ↦ r
]

pub small_ints_from-Keeps :
    (ns : List ℕ) (ip : Iprogram)
    → All (λ n. listed ip.order n ≡ true) ns
    → IsWired ip
    → IsIncreasing ip.order
    → (ip' : Iprogram) × (small_ints_from ns ip ≡ some ip') × Keeps ip ip'
unfolding small_ints_from
small_ints_from-Keeps [] ip a w inc = (ip, refl, Keeps-refl ip w inc)
small_ints_from-Keeps (n ∷ ns) ip a w inc =
    let (op, e) = allocated_code n ip w a.0 in
    let (b, k, u) = small_op-same op in
    let one = set_code-Keeps n op (small_op op) ip e b k u w inc in
    let (ip', run, rest) =
      small_ints_from-Keeps ns (set_code n (small_op op) ip) a.1 one.wired inc in
    (ip', rw (e, ◌>>=◌) run, Keeps-trans ip (set_code n (small_op op) ip) ip' one rest)

-- Where no jump is unset.
abbrev pub AllSet : Iprogram → Type 0
AllSet ip = (n : ℕ) → unset_at ip.code n ≡ false

pub AllSet-Keeps : (ip ip' : Iprogram) → AllSet ip → Keeps ip ip' → AllSet ip'
AllSet-Keeps ip ip' s k n = ground (arith, s n, k.unset n)

-- The branch of a jump that is set is in the program.
useless_target-cases :
    (n : ℕ) (op : Op) (ip : Iprogram)
    → ip.code n ≡ some op
    → IsWired ip
    → is_unset op ≡ false
    → (useless_target op ip ≡ some none)
      ⊎ ((t : ℕ) × (op ≡ jmp (some t)) × (useless_target op ip ≡ some (some t)))
useless_target-cases n (jmp none) ip e w set = ground arith
useless_target-cases n (jmp (some t)) ip e w set = elim (Option-cases (ip.code t)) [
  | inl gone ↦ ground (arith, w.branches n t, w.unreferred t)
  | inr (op, here) ↦ elim (Bool-cases (is_ret op)) [
    | inl is ↦ inr (t, refl, rw (here, ◌>>=◌, is) refl)
    | inr is ↦ inl (rw (here, ◌>>=◌, is) refl)
  ]
]
useless_target-cases n _ ip e w set = inl refl

pub useless_jumps_from-Keeps :
    (ns : List ℕ) (ip : Iprogram)
    → All (λ n. listed ip.order n ≡ true) ns
    → IsWired ip
    → IsIncreasing ip.order
    → AllSet ip
    → (ip' : Iprogram) × (useless_jumps_from ns ip ≡ some ip') × Keeps ip ip'
unfolding useless_jumps_from useless_at
useless_jumps_from-Keeps [] ip a w inc set = (ip, refl, Keeps-refl ip w inc)
useless_jumps_from-Keeps (n ∷ ns) ip a w inc set =
    let (op, e) = allocated_code n ip w a.0 in
    elim (useless_target-cases n op ip e w (sym (ap unset_in e) ∙ set n)) [
      | inl kept_t ↦
          let (ip', run, k) = useless_jumps_from-Keeps ns ip a.1 w inc set in
          (ip', rw (e, ◌>>=◌, kept_t) run, k)
      | inr (t, is, yes_t) ↦
          let one = useless_at-Keeps n t ip (e ∙ ap some is) w inc in
          let ip₁ = useless_at n (some t) ip in
          let (ip', run, k) =
            useless_jumps_from-Keeps ns ip₁ a.1 one.wired one.increasing
              (AllSet-Keeps ip ip₁ set one) in
          (ip', rw (e, ◌>>=◌, yes_t) run, Keeps-trans ip ip₁ ip' one k)
    ]

-- The tail call that was found is a CALL of the program, and another icode than the RET.
tail_call-cases :
    (n : ℕ) (op : Op) (prev : Option ℕ) (ip : Iprogram)
    → (tail_call op n prev ip ≡ none)
      ⊎ ((m : ℕ) × (tail_call op n prev ip ≡ some m)
          × (ip.code m ≡ some call)
          × (op ≡ ret)
          × (ip.referrers n ≡ []))
tail_call-cases n op none ip = ground arith
tail_call-cases n op (some m) ip = elim (Option-cases (ip.code m)) [
  | inl e ↦ ground arith
  | inr (op', e) ↦ ground arith
]

tail_call_at-Keeps :
    (n : ℕ) (op : Op) (prev : Option ℕ) (ip : Iprogram)
    → ip.code n ≡ some op
    → IsWired ip
    → IsIncreasing ip.order
    → (prev' : Option ℕ) × (ip' : Iprogram) × (tail_call_at n op prev ip ≡ some (prev', ip'))
      × Keeps ip ip'
      × ((m : ℕ) → (n == m) ≡ false → listed ip.order m ≡ true → listed ip'.order m ≡ true)
unfolding tail_call_at
tail_call_at-Keeps n op prev ip e w inc = elim (tail_call-cases n op prev ip) [
  | inl miss ↦ (some n, ip, rw (tail_call_at, miss) refl, Keeps-refl ip w inc, λ m h k. k)
  | inr (m, hit, there, is, bare) ↦
      let one = set_code-Keeps m call goto ip there refl refl refl w inc in
      let ip₁ = set_code m goto ip in
      let apart : (m == n) ≡ false = ground arith in
      let here : ip₁.code n ≡ some op = ground arith in
      let (ip', run, k, o, c) = icode_free-Keeps n op ip₁ here bare one.wired inc in
      (
        some m,
        ip',
        rw (tail_call_at, hit, run, ◌>>=◌) refl,
        Keeps-trans ip ip₁ ip' one k,
        λ j h l. ground (arith, o, listed-remove n ip.order j),
      )
]

pub tail_calls_from-Keeps :
    (ns : List ℕ) (prev : Option ℕ) (ip : Iprogram)
    → All (λ n. listed ip.order n ≡ true) ns
    → IsIncreasing ns
    → IsWired ip
    → IsIncreasing ip.order
    → (ip' : Iprogram) × (tail_calls_from ns prev ip ≡ some ip') × Keeps ip ip'
unfolding tail_calls_from
tail_calls_from-Keeps [] prev ip a up w inc = (ip, refl, Keeps-refl ip w inc)
tail_calls_from-Keeps (n ∷ ns) prev ip a up w inc =
    let (op, e) = allocated_code n ip w a.0 in
    let (prev', ip₁, run₁, one, others) = tail_call_at-Keeps n op prev ip e w inc in
    let (ip', run, k) =
      tail_calls_from-Keeps ns prev' ip₁ (visit_rest n ns ip.order ip₁.order others a.1 up.0) up.1
        one.wired one.increasing in
    (ip', rw (e, ◌>>=◌, run₁, ◌>>=◌) run, Keeps-trans ip ip₁ ip' one k)
