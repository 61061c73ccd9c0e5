-- ===== src/Icode/Passes.antt =====
-- lib/icode.c: the optimisations. Each loop visits the icodes of the list; it frees none but the one that
-- it visits, so that the visited numbers are those of the list at the start.
use bhuna.Prelude.{
  ℕ, Bool, true, false, ◌&&◌, ◌||◌, Option, none, some, List, [], ◌∷◌, if◌then◌else◌, ◌>>=◌,
}
use bhuna.Prelude.Int.{pos, eqb_ℤ}
use bhuna.Value.{Value, integer}
use bhuna.Memory.{update}
use bhuna.Icode.{
  Op, nop, halt, push_zero, push_one, push_two, call, goto, ret, push_value, jmp, Referrer,
  Iprogram, referrer_unwire, referrers_rewire, icode_free,
}

abbrev pub is_nop : Op → Bool
is_nop nop = true
is_nop _ = false

abbrev pub is_call : Op → Bool
is_call call = true
is_call _ = false

abbrev pub is_ret : Op → Bool
is_ret ret = true
is_ret _ = false

abbrev pub head : List ℕ → Option ℕ
head [] = none
head (n ∷ ns) = some n

abbrev pub set_code : ℕ → Op → Iprogram → Iprogram
set_code n op ip = record ip { code = update ip.code n (some op) }

-- `none` is a failed assertion, or a dangling pointer.
unfoldable pub eliminate_nop : ℕ → Option ℕ → Iprogram → Option Iprogram
unfolding referrers_rewire icode_free
eliminate_nop n next ip = next >>= λ to. referrers_rewire n to ip >>= λ ip'. icode_free n ip'

unfoldable pub nops_from : List ℕ → Iprogram → Option Iprogram
unfolding eliminate_nop
nops_from [] ip = some ip
nops_from (n ∷ ns) ip = ip.code n >>= λ op.
    (if is_nop op then eliminate_nop n (head ns) ip else some ip) >>= λ ip'. nops_from ns ip'

unfoldable pub iprogram_eliminate_nops : Iprogram → Option Iprogram
unfolding nops_from
iprogram_eliminate_nops ip = nops_from ip.order ip

abbrev pub ends_flow : Op → Bool
ends_flow (jmp o) = true
ends_flow ret = true
ends_flow goto = true
ends_flow halt = true
ends_flow _ = false

abbrev pub unreferred : List Referrer → Bool
unreferred [] = true
unreferred (r ∷ rs) = false

-- The opcode that the source reads after `icode_free` is the one that the icode had.
unfoldable pub dead_from : List ℕ → Bool → Iprogram → Option Iprogram
unfolding icode_free
dead_from [] dead ip = some ip
dead_from (n ∷ ns) dead ip = ip.code n >>= λ op.
    let dead' = dead && unreferred (ip.referrers n) in
    (if dead' then icode_free n ip else some ip) >>= λ ip'. dead_from ns (dead' || ends_flow op) ip'

unfoldable pub iprogram_eliminate_dead_code : Iprogram → Option Iprogram
unfolding dead_from
iprogram_eliminate_dead_code ip = dead_from ip.order false ip

-- `ic->prev` where it is a CALL.
abbrev pub call_before : Option ℕ → Iprogram → Option ℕ
call_before none ip = none
call_before (some m) ip = elim (ip.code m) [
  | none ↦ none
  | some op ↦ if is_call op then some m else none
]

abbrev pub tail_call : Op → ℕ → Option ℕ → Iprogram → Option ℕ
tail_call op n prev ip =
    if is_ret op && unreferred (ip.referrers n) then call_before prev ip else none

-- Also the icode that comes before the next one.
unfoldable pub tail_call_at : ℕ → Op → Option ℕ → Iprogram → Option (Option ℕ × Iprogram)
unfolding icode_free
tail_call_at n op prev ip = elim (tail_call op n prev ip) [
  | none ↦ some (some n, ip)
  | some m ↦ icode_free n (set_code m goto ip) >>= λ ip'. some (some m, ip')
]

unfoldable pub tail_calls_from : List ℕ → Option ℕ → Iprogram → Option Iprogram
unfolding tail_call_at
tail_calls_from [] prev ip = some ip
tail_calls_from (n ∷ ns) prev ip =
    ip.code n >>= λ op. tail_call_at n op prev ip >>= λ (prev', ip'). tail_calls_from ns prev' ip'

unfoldable pub iprogram_optimize_tail_calls : Iprogram → Option Iprogram
unfolding tail_calls_from
iprogram_optimize_tail_calls ip = tail_calls_from ip.order none ip

abbrev pub small_value : Value → Op
small_value (integer i) =
    if eqb_ℤ i (pos 0)
    then push_zero
    else if eqb_ℤ i (pos 1)
    then push_one
    else if eqb_ℤ i (pos 2)
    then push_two
    else push_value (integer i)
small_value v = push_value v

abbrev pub small_op : Op → Op
small_op (push_value v) = small_value v
small_op op = op

unfoldable pub small_ints_from : List ℕ → Iprogram → Option Iprogram
small_ints_from [] ip = some ip
small_ints_from (n ∷ ns) ip = ip.code n >>= λ op. small_ints_from ns (set_code n (small_op op) ip)

unfoldable pub iprogram_optimize_push_small_ints : Iprogram → Option Iprogram
unfolding small_ints_from
iprogram_optimize_push_small_ints ip = small_ints_from ip.order ip

-- A JMP whose branch is a RET.
abbrev pub useless_target : Op → Iprogram → Option (Option ℕ)
useless_target (jmp none) ip = none
useless_target (jmp (some t)) ip = ip.code t >>= λ op. some (if is_ret op then some t else none)
useless_target _ ip = some none

unfoldable pub useless_at : ℕ → Option ℕ → Iprogram → Iprogram
unfolding referrer_unwire
useless_at n none ip = ip
useless_at n (some t) ip = set_code n ret (referrer_unwire n t ip)

unfoldable pub useless_jumps_from : List ℕ → Iprogram → Option Iprogram
unfolding useless_at
useless_jumps_from [] ip = some ip
useless_jumps_from (n ∷ ns) ip =
    ip.code n >>= λ op. useless_target op ip >>= λ o. useless_jumps_from ns (useless_at n o ip)

unfoldable pub iprogram_eliminate_useless_jumps : Iprogram → Option Iprogram
unfolding useless_jumps_from
iprogram_eliminate_useless_jumps ip = useless_jumps_from ip.order ip

-- The passes that `main` runs, in its order.
unfoldable pub optimize : Iprogram → Option Iprogram
unfolding iprogram_eliminate_nops iprogram_eliminate_useless_jumps iprogram_optimize_tail_calls
    iprogram_optimize_push_small_ints iprogram_eliminate_dead_code
optimize ip = iprogram_eliminate_nops ip >>= λ ip₁. iprogram_eliminate_useless_jumps ip₁ >>= λ ip₂.
    iprogram_optimize_tail_calls ip₂ >>= λ ip₃.
    iprogram_optimize_push_small_ints ip₃ >>= λ ip₄. iprogram_eliminate_dead_code ip₄
