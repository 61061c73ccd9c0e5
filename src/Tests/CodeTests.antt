-- ===== src/Tests/CodeTests.antt =====
-- lib/icode.c and lib/gen.c on small programs.
use bhuna.Prelude.{ℕ, ◌≡◌, refl, true, false, none, some, [], ◌∷◌, arith, ◌>>=◌}
use bhuna.Prelude.Int.{pos}
use bhuna.Value.{integer, null}
use bhuna.Memory.{update}
use bhuna.Ast.{Ast}
use bhuna.Vm.{Instr}
use bhuna.Icode.{Op, nop, halt, jmp, ret, push_value, Referrer, Iprogram}
use bhuna.Icode.Order.{IsIncreasing}
use bhuna.Icode.Wiring.{IsWired}
use bhuna.Icode.Landing.{kept, nop_at, without_nops}
use bhuna.Icode.Nops.{iprogram_eliminate_nops-NopFree}
use bhuna.Icode.Passes.{optimize, iprogram_eliminate_nops, iprogram_eliminate_dead_code}
use bhuna.Icode.Dead.{Pruned, stops_at, iprogram_eliminate_dead_code-Pruned}
use bhuna.Icode.Generate.{ast_gen_iprogram}
use bhuna.Icode.Complete.{ast_gen_iprogram-IsWired}
use bhuna.Icode.Pipeline.{IsReady, compile-IsReady}
use bhuna.Gen.{Image, iprogram_gen, decoded, emitted}
use bhuna.Prelude.Distinct.{listed}
use bhuna.Icode.Generated.{is_set}
use bhuna.Icode.{branch_of, last_number}
use bhuna.Icode.Passes.{small_op}
use bhuna.Vm.Step.{State, push_next, vm_step}
use bhuna.Gen.SmallInts.{small_op-push}
use bhuna.Gen.Program.{HasEntries, LaidOut, iprogram_gen-LaidOut}

-- `while x { if y { return 1 } else { x = ^ 2 } }`, with the closure at 7.
abbrev looping : Ast
looping = Ast.while_loop none (Ast.local none 0 0) (
    Ast.conditional none (Ast.local none 1 0) (Ast.retr none (Ast.value none (integer (pos 1)))) (
      Ast.assignment none (Ast.local none 0 0)
        (Ast.closure none 7 (Ast.value none (integer (pos 2)))) false))

-- The NOPs are gone, and so is the JMP after the RET.
looping_order :
    ((ast_gen_iprogram looping >>= optimize) >>= λ ip. some ip.order)
    ≡ some (2 ∷ 3 ∷ 4 ∷ 5 ∷ 6 ∷ 7 ∷ 10 ∷ 11 ∷ 12 ∷ 14 ∷ 15 ∷ 17 ∷ 19 ∷ 21 ∷ [])
unfolding ast_gen_iprogram optimize
looping_order = refl

compile-IsReady_example :
    (ip : Iprogram) × ((ast_gen_iprogram looping >>= optimize) ≡ some ip) × IsReady ip
compile-IsReady_example = compile-IsReady looping (tt, (tt, tt, (tt, tt)))

ast_gen_iprogram-IsWired_example :
    (ip : Iprogram) × (n : ℕ) × (ast_gen_iprogram looping ≡ some ip)
    × IsWired ip
    × IsIncreasing ip.order
    × ((m : ℕ) → is_set (ip.code m) ≡ true)
    × (last_number ip.order ≡ n)
    × (ip.code n ≡ some halt)
ast_gen_iprogram-IsWired_example = ast_gen_iprogram-IsWired looping (tt, (tt, tt, (tt, tt)))

-- A JMP over one icode to a HALT.
abbrev over : Op → Iprogram
over op = record {
  order = 1 ∷ 2 ∷ 3 ∷ [];
  code = update (update (update (λ n. none) 1 (some (jmp (some 3)))) 2 (some op)) 3 (some halt);
  referrers = update (λ n. []) 3 (Referrer.icode 1 ∷ []);
  entry = λ q. none;
}

over-IsWired : (op : Op) → branch_of op ≡ none → IsWired (over op)
over-IsWired op u = record {
  branches = λ m n. ground arith;
  entries = λ q n h. ground arith;
  allocated = λ n. ground arith;
  unreferred = λ n h. ground arith;
}

over-IsIncreasing : IsIncreasing (1 ∷ 2 ∷ 3 ∷ [])
over-IsIncreasing = ((omega arith, (omega arith, tt)), ((omega arith, tt), (tt, tt)))

iprogram_eliminate_nops-NopFree_example :
    (ip : Iprogram) × (iprogram_eliminate_nops (over nop) ≡ some ip)
    × IsWired ip
    × (ip.order ≡ kept (nop_at (over nop).code) (1 ∷ 2 ∷ 3 ∷ []))
    × ((n : ℕ) → ip.code n ≡ without_nops (1 ∷ 2 ∷ 3 ∷ []) (over nop).code n)
iprogram_eliminate_nops-NopFree_example =
    iprogram_eliminate_nops-NopFree (over nop) over-IsIncreasing refl (over-IsWired nop refl)

iprogram_eliminate_dead_code-Pruned_example :
    (ip : Iprogram) × (iprogram_eliminate_dead_code (over ret) ≡ some ip)
    × IsWired ip
    × Pruned (stops_at (over ret).code) false (1 ∷ 2 ∷ 3 ∷ []) ip.order
    × ((n : ℕ) → listed ip.order n ≡ true → ip.code n ≡ (over ret).code n)
iprogram_eliminate_dead_code-Pruned_example =
    iprogram_eliminate_dead_code-Pruned (over ret) over-IsIncreasing (over-IsWired ret refl)

over-IsReady : IsReady (over ret)
over-IsReady = record {
  wired = over-IsWired ret refl;
  increasing = over-IsIncreasing;
  set = λ n. ground arith;
  no_nops = λ n. ground arith;
}

over-HasEntries : HasEntries (over ret)
over-HasEntries n q e = ground arith

iprogram_gen-LaidOut_example :
    (im : Image) × (iprogram_gen 0 (over ret) ≡ some im) × LaidOut Instr.jmp 0 (over ret) im
iprogram_gen-LaidOut_example =
    iprogram_gen-LaidOut Instr.jmp 0 (over ret) over-IsReady over-HasEntries (omega arith)

abbrev start : State
start = (
  record {
    program = λ a. none;
    pc = 4;
    vstack = [];
    cstack = [];
    astack = 0;
    astack_ptr = 0;
    current_ar = none;
  },
  record {
    memory = record {
      s_value = λ p. none;
      sv_head = [];
      activation = λ p. none;
      a_head = [];
      unset = λ a i. null;
      stray = λ p. [];
    };
    processes = record {
      cell = λ p. none;
      current_process = none;
      run_head = none;
      wait_head = none;
      procno = 1;
    };
  },
)

small_op-push_example :
    (i : Instr) × (decoded Instr.jmp none (emitted (small_op (push_value (integer (pos 2)))))
      ≡ some i)
    × (vm_step i 9 start ≡ push_next 5 (integer (pos 2)) start.0 start.1)
small_op-push_example = small_op-push (integer (pos 2)) Instr.jmp none 9 start
