-- ===== src/Gen.antt =====
-- lib/gen.c: laying the intermediate code out in the vm's program.
pub mod Patches
pub mod Layout
pub mod FirstRun
pub mod Program
pub mod SmallInts
use bhuna.Prelude.{
  ℕ, suc, ◌+◌, ◌%◌, ◌^◌, Bool, true, false, Option, none, some, List, [], ◌∷◌, if◌then◌else◌, ltb,
  length, ◌>>=◌,
}
use bhuna.Value.{Value, structured, Kind}
use bhuna.Memory.{update}
use bhuna.Vm.{Instr, sizeof_value, sizeof_pointer}
use bhuna.Vm
use bhuna.Icode.{
  Op, nop, halt, push_zero, push_one, push_two, call, goto, ret, set_activation, push_value,
  push_local, pop_local, init_local, cow_local, jmp, jz, external, builtin, Iprogram,
}

-- The state of the first run: `gptr`, the `label` fields of the icodes, what was emitted at the
-- addresses, and the arrays `bp` and `k`, with the last entry first.
pub record Emitted : Type 0 where
  pub gptr : ℕ
  pub label : ℕ → Option ℕ
  pub code : ℕ → Option Op
  pub bp : List (ℕ × ℕ)
  pub k : List ℕ

-- The bytes after the opcode.
abbrev pub operand_size : Op → ℕ
operand_size (push_value v) = sizeof_value
operand_size (push_local i u) = 2
operand_size (pop_local i u) = 2
operand_size (cow_local i u) = 2
operand_size (init_local i u) = 2
operand_size (jmp o) = sizeof_pointer
operand_size (jz o) = sizeof_pointer
operand_size (external b) = sizeof_pointer
operand_size op = 0

-- What is emitted: an index and an upcount become an `unsigned char`.
abbrev pub emitted : Op → Op
emitted (push_local i u) = push_local (i % 2 ^ 8) (u % 2 ^ 8)
emitted (pop_local i u) = pop_local (i % 2 ^ 8) (u % 2 ^ 8)
emitted (cow_local i u) = cow_local (i % 2 ^ 8) (u % 2 ^ 8)
emitted (init_local i u) = init_local (i % 2 ^ 8) (u % 2 ^ 8)
emitted op = op

-- The elements of `bp` and of `k`.
abbrev pub max_patches : ℕ
max_patches = 2048

abbrev pub push_entry {ℓ} : {A : Type ℓ} → A → List A → Option (List A)
push_entry e es = if ltb (length es) max_patches then some (e ∷ es) else none

-- What an icode adds to the two arrays; `none` is an entry past the end, or an operand that was never set.
abbrev pub add_patch : Op → ℕ → List (ℕ × ℕ) → Option (List (ℕ × ℕ))
add_patch (jmp (some t)) a bp = push_entry (a, t) bp
add_patch (jz (some t)) a bp = push_entry (a, t) bp
add_patch (jmp none) a bp = none
add_patch (jz none) a bp = none
add_patch op a bp = some bp

abbrev pub add_closure : Op → List ℕ → Option (List ℕ)
add_closure (push_value (structured Kind.closure q)) k = push_entry q k
add_closure op k = some k

unfoldable pub gen_icode : ℕ → Op → Emitted → Option Emitted
gen_icode n op s = add_patch op (s.gptr + 1) s.bp >>= λ bp. add_closure op s.k >>= λ k.
    some (record {
      gptr = s.gptr + 1 + operand_size op;
      label = update s.label n (some s.gptr);
      code = update s.code s.gptr (some (emitted op));
      bp = bp;
      k = k;
    })

unfoldable pub gen_icodes : List ℕ → Iprogram → Emitted → Option Emitted
unfolding gen_icode
gen_icodes [] ip s = some s
gen_icodes (n ∷ ns) ip s = ip.code n >>= λ op. gen_icode n op s >>= λ s'. gen_icodes ns ip s'

-- The label of an icode, written at an address; `none` is a label that was never set.
unfoldable pub back_patch : List (ℕ × ℕ) → (ℕ → Option ℕ) → (ℕ → Option ℕ) → Option (ℕ → Option ℕ)
back_patch [] label words = some words
back_patch ((a, t) ∷ bp) label words =
    label t >>= λ l. back_patch bp label (update words a (some l))

-- The `label` fields of the closures.
unfoldable pub resolve_closures :
    List ℕ → (ℕ → Option ℕ) → (ℕ → Option ℕ) → (ℕ → Option ℕ) → Option (ℕ → Option ℕ)
resolve_closures [] entry label labels = some labels
resolve_closures (q ∷ k) entry label labels =
    entry q >>= λ t. label t >>= λ l. resolve_closures k entry label (update labels q (some l))

-- The program in memory: what was emitted, and the labels that were written over the operands of the
-- jumps; and the labels of the icodes and of the closures.
pub record Image : Type 0 where
  pub code : ℕ → Option Op
  pub words : ℕ → Option ℕ
  pub label : ℕ → Option ℕ
  pub closure_label : ℕ → Option ℕ

-- The program begins at `given_prog`.
unfoldable pub iprogram_gen : ℕ → Iprogram → Option Image
unfolding gen_icodes back_patch resolve_closures
iprogram_gen given_prog ip =
    gen_icodes ip.order ip
      (record { gptr = given_prog; label = λ n. none; code = λ a. none; bp = []; k = [] })
    >>= λ s. back_patch s.bp s.label (λ a. none) >>= λ words.
        resolve_closures s.k ip.entry s.label (λ q. none) >>= λ labels.
        some (record { code = s.code; words = words; label = s.label; closure_label = labels })

-- The instruction that an opcode with its operand is to the vm, where `word` is the branch. `table` is
-- what the vm's `switch` does for the opcodes below 128, which are the indices of the builtins.
abbrev pub decoded : (ℕ → Instr) → Option ℕ → Op → Option Instr
decoded table word nop = none
decoded table word halt = some Instr.halt
decoded table word push_zero = some Instr.push_zero
decoded table word push_one = some Instr.push_one
decoded table word push_two = some Instr.push_two
decoded table word call = some Instr.call
decoded table word goto = some Instr.goto
decoded table word ret = some Instr.ret
decoded table word set_activation = some Instr.set_activation
decoded table word (push_value v) = some (Instr.push_value v)
decoded table word (push_local i u) = some (Instr.push_local i u)
decoded table word (pop_local i u) = some (Instr.pop_local i u)
decoded table word (init_local i u) = some (Instr.init_local i)
decoded table word (cow_local i u) = some (Instr.cow_local i u)
decoded table word (jmp o) = word >>= λ l. some (Instr.jmp l)
decoded table word (jz o) = word >>= λ l. some (Instr.jz l)
decoded table word (external b) = some (Instr.external b)
decoded table word (builtin i) = some (table i)

-- What the vm reads at an address.
unfoldable pub program_of : (ℕ → Instr) → Image → ℕ → Option Instr
program_of table im a = im.code a >>= λ op. decoded table (im.words (a + 1)) op
