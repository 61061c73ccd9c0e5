-- ===== src/Vm/Frames.antt =====
-- lib/vm.c: the loops that fill an activation record from the stack.
use bhuna.Prelude.{
  ℕ, zero, suc, ◌-◌, ◌≤◌, ◌<◌, ◌≡◌, ◌≢◌, refl, sym, ap, ◌∙◌, Option, none, some, List, [], ◌∷◌,
  ◌++◌, lt→ltb, length, length-set, get_elem?, set, get_elem?-set_self, get_elem?-set_ne, ◌>>=◌,
  arith, ==_refl, ==_ne,
}
use bhuna.Value.{Value}
use bhuna.Memory.{Activation, Memory, update, activation_set_value}
use bhuna.Vm.{Vm, do_pop_value, activation_initialize_value}
use bhuna.Vm.Step.{fill_record, set_record}

-- The heap after a record was filled with the `n` values `xs` from the stack, last one first.
pub record Fills (a n : ℕ) (xs : List Value) (r : Activation) (m m' : Memory) : Type 0 where
  pub filled : Activation
  pub cell : m'.activation a ≡ some filled
  pub caller : filled.caller ≡ r.caller
  pub enclosing : filled.enclosing ≡ r.enclosing
  pub on_stack : filled.on_stack ≡ r.on_stack
  pub size : length filled.values ≡ length r.values
  pub arguments : (i : ℕ) → i < n → get_elem? filled.values (n - 1 - i) ≡ get_elem? xs i
  pub above : (j : ℕ) → n ≤ j → get_elem? filled.values j ≡ get_elem? r.values j
  pub others : (b : ℕ) → b ≢ a → m'.activation b ≡ m.activation b
  pub s_value : m'.s_value ≡ m.s_value
  pub sv_head : m'.sv_head ≡ m.sv_head
  pub a_head : m'.a_head ≡ m.a_head

fills_arguments :
    (n : ℕ) (x : Value) (xs vs ws : List Value)
    → suc n ≤ length vs
    → ((i : ℕ) → i < n → get_elem? ws (n - 1 - i) ≡ get_elem? xs i)
    → ((j : ℕ) → n ≤ j → get_elem? ws j ≡ get_elem? (set vs n x) j)
    → (i : ℕ) → i < suc n
    → get_elem? ws (suc n - 1 - i) ≡ get_elem? (x ∷ xs) i
fills_arguments n x xs vs ws h args above zero lt =
    let e : suc n - 1 - 0 ≡ n = omega arith in
    rw e (above n (omega arith) ∙ get_elem?-set_self vs n x (omega arith))
fills_arguments n x xs vs ws h args above (suc i) lt =
    let e : suc n - 1 - suc i ≡ n - 1 - i = omega arith in rw e (args i (omega arith))

-- One round of the loop, then the rest.
Fills-step :
    (a n : ℕ) (x : Value) (xs : List Value) (r : Activation) (m m' : Memory)
    → suc n ≤ length r.values
    → Fills a n xs
        (record r { values = set r.values n x })
        (record m {
          activation = update m.activation a (some (record r { values = set r.values n x }));
        })
        m'
    → Fills a (suc n) (x ∷ xs) r m m'
Fills-step a n x xs r m m' h f = record {
  filled = f.filled;
  cell = f.cell;
  caller = f.caller;
  enclosing = f.enclosing;
  on_stack = f.on_stack;
  size = f.size ∙ length-set r.values n x;
  arguments = λ i lt. fills_arguments n x xs r.values f.filled.values h f.arguments f.above i lt;
  above = λ j le. f.above j (omega arith) ∙ get_elem?-set_ne r.values n j x (omega arith);
  others = λ b ne. f.others b ne ∙ rw (==_ne a b (λ e. ne (sym e))) refl;
  s_value = f.s_value;
  sv_head = f.sv_head;
  a_head = f.a_head;
}

pub fill_record-Fills :
    (a n : ℕ) (xs rest : List Value) (r : Activation) (vm : Vm) (m : Memory)
    → m.activation a ≡ some r
    → vm.vstack ≡ xs ++ rest
    → length xs ≡ n
    → n ≤ length r.values
    → (m' : Memory) × (fill_record a n vm m ≡ some (record vm { vstack = rest }, m'))
      × Fills a n xs r m m'
unfolding fill_record activation_initialize_value
fill_record-Fills a zero [] rest r vm m e v l h = (
  m,
  ap (λ z. some (record vm { vstack = z }, m)) v,
  record {
    filled = r;
    cell = e;
    caller = refl;
    enclosing = refl;
    on_stack = refl;
    size = refl;
    arguments = λ i lt. absurd (omega arith);
    above = λ j le. refl;
    others = λ b ne. refl;
    s_value = refl;
    sv_head = refl;
    a_head = refl;
  },
)
fill_record-Fills a zero (x ∷ xs) rest r vm m e v l h = absurd (omega arith)
fill_record-Fills a (suc n) [] rest r vm m e v l h = absurd (omega arith)
fill_record-Fills a (suc n) (x ∷ xs) rest r vm m e v l h =
    let r₁ : Activation = record r { values = set r.values n x } in
    let m₁ : Memory = record m { activation = update m.activation a (some r₁) } in
    let (m', run, f) =
      fill_record-Fills a n xs rest r₁ (record vm { vstack = xs ++ rest }) m₁ (rw (==_refl a) refl)
        refl (omega arith) (omega (arith, length-set r.values n x)) in
    (m', rw (v, ◌>>=◌, e, lt→ltb n (length r.values) h) run, Fills-step a n x xs r m m' h f)

-- For a record at hand, `activation_set_value` with no step up is `activation_initialize_value`, so that
-- the two loops are one.
activation_set_value-here :
    (a i : ℕ) (v : Value) (m : Memory)
    → activation_set_value (some a) i 0 v m ≡ activation_initialize_value a i v m
unfolding activation_set_value activation_initialize_value
activation_set_value-here a i v m = refl

set_record_then :
    (a n : ℕ) (vm : Vm) (o : Option Memory)
    → ((m₁ : Memory) → set_record a n vm m₁ ≡ fill_record a n vm m₁)
    → (o >>= set_record a n vm) ≡ (o >>= fill_record a n vm)
set_record_then a n vm none same = refl
set_record_then a n vm (some m₁) same = same m₁

set_record_bind :
    (a n : ℕ) (o : Option (Value × Vm)) (m : Memory)
    → ((vm₁ : Vm) (m₁ : Memory) → set_record a n vm₁ m₁ ≡ fill_record a n vm₁ m₁)
    → (o >>= λ (r, vm₁). activation_set_value (some a) n 0 r m >>= λ m₁. set_record a n vm₁ m₁)
      ≡ (o >>= λ (r, vm₁). activation_initialize_value a n r m >>= λ m₁. fill_record a n vm₁ m₁)
set_record_bind a n none m same = refl
set_record_bind a n (some (r, vm₁)) m same =
    rw (activation_set_value-here a n r m)
      (set_record_then a n vm₁ (activation_initialize_value a n r m) (same vm₁))

pub set_record-fill_record :
    (a n : ℕ) (vm : Vm) (m : Memory) → set_record a n vm m ≡ fill_record a n vm m
unfolding set_record fill_record
set_record-fill_record a zero vm m = refl
set_record-fill_record a (suc n) vm m =
    set_record_bind a n (do_pop_value vm) m (λ vm₁ m₁. set_record-fill_record a n vm₁ m₁)
