-- ===== src/Icode.antt =====
-- lib/icode.h, lib/icode.c: intermediate code, a doubly linked list of instructions that branch to one
-- another and keep account of what branches to them.
pub mod Passes
pub mod Order
pub mod Wiring
pub mod Rewire
pub mod Landing
pub mod NopStep
pub mod Nops
pub mod Optimize
pub mod Finish
pub mod Dead
pub mod Generated
pub mod Emitted
pub mod Jumps
pub mod Complete
pub mod Pipeline
pub mod Generate
use bhuna.Prelude.{
  ℕ, zero, suc, ◌+◌, Bool, true, false, not, ◌&&◌, ◌||◌, Option, none, some, List, [], ◌∷◌, ◌++◌,
  ◌==◌, if◌then◌else◌, ◌>>=◌,
}
use bhuna.Value.{Value}
use bhuna.Memory.{update}
use bhuna.Vm.{Builtin}
use bhuna.Ast.{Entry}

-- An opcode with the member of the operand's union that goes with it. A branch is `none` until
-- `icode_set_branch`. `builtin` is an opcode below 128, the index of a builtin.
pub data Op : Type 0 where
  nop halt push_zero push_one push_two call goto ret set_activation : Op
  push_value : Value → Op
  push_local : (index upcount : ℕ) → Op
  pop_local : (index upcount : ℕ) → Op
  init_local : (index upcount : ℕ) → Op
  cow_local : (index upcount : ℕ) → Op
  jmp : Option ℕ → Op
  jz : Option ℕ → Op
  external : Builtin → Op
  builtin : ℕ → Op

-- `struct icomefrom`.
pub data Referrer : Type 0 where
  icode : ℕ → Referrer
  closure : ℕ → Referrer

abbrev pub is_icode : ℕ → Referrer → Bool
is_icode m (icode n) = n == m
is_icode m (closure q) = false

abbrev pub is_closure : ℕ → Referrer → Bool
is_closure p (icode n) = false
is_closure p (closure q) = q == p

-- `struct iprogram` and the icodes of its list, in their order. An icode is its `number`, which
-- `icode_new` makes one more than the last one's and nothing changes. `code` is `none` where there is no
-- icode, or none any more; `entry` is the field `icode` of the closures.
pub record Iprogram : Type 0 where
  pub order : List ℕ
  pub code : ℕ → Option Op
  pub referrers : ℕ → List Referrer
  pub entry : ℕ → Option ℕ

-- No closure has an entry point yet, as `closure_new` leaves them.
unfoldable pub iprogram_new : Iprogram
iprogram_new = record { order = []; code = λ n. none; referrers = λ n. []; entry = λ q. none }

-- The number of the tail, or 0.
abbrev pub last_number : List ℕ → ℕ
last_number [] = 0
last_number (n ∷ []) = n
last_number (n ∷ n' ∷ ns) = last_number (n' ∷ ns)

unfoldable pub icode_new : Op → Iprogram → ℕ × Iprogram
icode_new op ip =
    let n = last_number ip.order + 1 in
    (
      n,
      record ip {
        order = ip.order ++ n ∷ [];
        code = update ip.code n (some op);
        referrers = update ip.referrers n [];
      },
    )

-- `icode_new_local` and `icode_new_value` are `icode_new` with an operand; so is the builtin's.
abbrev pub builtin_op : Entry → Op
builtin_op b = elim b.index [ none ↦ external b.builtin | some i ↦ builtin i ]

unfoldable pub icode_new_builtin : Entry → Iprogram → ℕ × Iprogram
unfolding icode_new
icode_new_builtin b ip = icode_new (builtin_op b) ip

-- `ic->operand.branch = branch`
abbrev pub with_branch : Op → ℕ → Op
with_branch (jmp o) n = jmp (some n)
with_branch (jz o) n = jz (some n)
with_branch op n = op

unfoldable pub icode_set_branch : ℕ → ℕ → Iprogram → Option Iprogram
icode_set_branch m n ip = ip.code m >>= λ op. some (record ip {
  code = update ip.code m (some (with_branch op n));
  referrers = update ip.referrers n (icode m ∷ ip.referrers n);
})

unfoldable pub icode_set_closure_entry_point : ℕ → ℕ → Iprogram → Iprogram
icode_set_closure_entry_point q n ip = record ip {
  entry = update ip.entry q (some n);
  referrers = update ip.referrers n (closure q ∷ ip.referrers n);
}

abbrev pub without : ℕ → List Referrer → List Referrer
without m [] = []
without m (r ∷ rs) = if is_icode m r then without m rs else r ∷ without m rs

unfoldable pub referrer_unwire : ℕ → ℕ → Iprogram → Iprogram
referrer_unwire m n ip = record ip {
  referrers = update ip.referrers n (without m (ip.referrers n));
}

-- The loop of `referrers_rewire` over the list of referrers of the icode that is left.
unfoldable pub rewire_all : List Referrer → ℕ → Iprogram → Option Iprogram
rewire_all [] to ip = some ip
rewire_all (icode m ∷ rs) to ip = ip.code m >>= λ op. rewire_all rs to (record ip {
  code = update ip.code m (some (with_branch op to));
  referrers = update ip.referrers to (icode m ∷ ip.referrers to);
})
rewire_all (closure q ∷ rs) to ip = rewire_all rs to (record ip {
  entry = update ip.entry q (some to);
  referrers = update ip.referrers to (closure q ∷ ip.referrers to);
})

unfoldable pub referrers_rewire : ℕ → ℕ → Iprogram → Option Iprogram
unfolding rewire_all
referrers_rewire from to ip = rewire_all (ip.referrers from) to ip >>= λ ip'.
    some (record ip' { referrers = update ip'.referrers from [] })

-- The icode that an opcode branches to, if it is a jump whose branch is set.
abbrev pub branch_of : Op → Option ℕ
branch_of (jmp o) = o
branch_of (jz o) = o
branch_of _ = none

abbrev pub remove : ℕ → List ℕ → List ℕ
remove n [] = []
remove n (m ∷ ms) = if m == n then remove n ms else m ∷ remove n ms

abbrev pub unwire_branch : ℕ → Option ℕ → Iprogram → Iprogram
unwire_branch n none ip = ip
unwire_branch n (some t) ip = referrer_unwire n t ip

-- `icode_free` of an icode of the program: its own branch is unwired, and it leaves the list.
unfoldable pub icode_free : ℕ → Iprogram → Option Iprogram
unfolding referrer_unwire
icode_free n ip = ip.code n >>= λ op.
    let ip' = unwire_branch n (branch_of op) ip in
    some (record ip' {
      order = remove n ip'.order;
      code = update ip'.code n none;
      referrers = update ip'.referrers n [];
    })
