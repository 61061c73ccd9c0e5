-- ===== src/Gen/SmallInts.antt =====
-- lib/icode.c, lib/gen.c, lib/vm.c: the short instructions for the small integers.
use bhuna.Prelude.{
  ℕ, ◌+◌, ◌≡◌, refl, sym, ap, true, false, Option, some, Bool, subst, if◌then◌else◌, arith,
}
use bhuna.Prelude.Int.{ℤ, pos, eqb_ℤ, eqb_ℤ-sound}
use bhuna.Value.{Value, null, integer, boolean, atom, opaque, structured}
use bhuna.Vm.{Instr}
use bhuna.Vm.Step.{State, push_next, vm_step}
use bhuna.Icode.{Op, push_zero, push_one, push_two, push_value}
use bhuna.Icode.Passes.{small_op}
use bhuna.Gen.{operand_size, emitted, decoded}

-- What an optimised push does where it stands for the value.
abbrev Pushes : Value → Op → Type 0
Pushes v op =
    (table : ℕ → Instr) (word : Option ℕ) (p : ℕ) (s : State)
    → (i : Instr) × (decoded table word (emitted op) ≡ some i)
      × (vm_step i p s ≡ push_next (s.0.pc + (1 + operand_size op)) v s.0 s.1)

if_Pushes :
    (v : Value) (b : Bool) (x y : Op)
    → (b ≡ true → Pushes v x)
    → (b ≡ false → Pushes v y)
    → Pushes v (if b then x else y)
if_Pushes v true x y f g = f refl
if_Pushes v false x y f g = g refl

push_Pushes : (v : Value) → Pushes v (push_value v)
unfolding vm_step
push_Pushes v table word p s =
    (Instr.push_value v, refl, ap (λ c. push_next c v s.0 s.1) (omega arith))

-- A short push where the integer is the one that it pushes.
short_Pushes :
    (z c : ℤ) (op : Op) → eqb_ℤ z c ≡ true → Pushes (integer c) op → Pushes (integer z) op
short_Pushes z c op e h = subst (λ y. Pushes (integer y) op) (sym (eqb_ℤ-sound z c e)) h

zero_Pushes : Pushes (integer (pos 0)) push_zero
unfolding vm_step
zero_Pushes table word p s = (Instr.push_zero, refl, refl)

one_Pushes : Pushes (integer (pos 1)) push_one
unfolding vm_step
one_Pushes table word p s = (Instr.push_one, refl, refl)

two_Pushes : Pushes (integer (pos 2)) push_two
unfolding vm_step
two_Pushes table word p s = (Instr.push_two, refl, refl)

-- The vm runs what the pass makes of a PUSH_VALUE as the push of that value, and goes on at the address
-- after its bytes.
pub small_op-push :
    (v : Value) (table : ℕ → Instr) (word : Option ℕ) (p : ℕ) (s : State)
    → (i : Instr) × (decoded table word (emitted (small_op (push_value v))) ≡ some i)
      × (vm_step i p s
          ≡ push_next (s.0.pc + (1 + operand_size (small_op (push_value v)))) v s.0 s.1)
small_op-push (integer z) =
    if_Pushes (integer z) (eqb_ℤ z (pos 0)) push_zero _
      (λ e. short_Pushes z (pos 0) push_zero e zero_Pushes)
      (λ e₀.
        if_Pushes (integer z) (eqb_ℤ z (pos 1)) push_one _
          (λ e. short_Pushes z (pos 1) push_one e one_Pushes)
          (λ e₁.
            if_Pushes (integer z) (eqb_ℤ z (pos 2)) push_two _
              (λ e. short_Pushes z (pos 2) push_two e two_Pushes) (λ e₂. push_Pushes (integer z))))
small_op-push null = push_Pushes null
small_op-push (boolean b) = push_Pushes (boolean b)
small_op-push (atom a) = push_Pushes (atom a)
small_op-push (Value.builtin b) = push_Pushes (Value.builtin b)
small_op-push (opaque a) = push_Pushes (opaque a)
small_op-push (structured k q) = push_Pushes (structured k q)
