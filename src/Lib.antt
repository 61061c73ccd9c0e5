-- ===== src/Lib.antt =====
-- Bhuna is a small language with a parser, a type checker, a compiler to byte code, a stack machine
-- with lightweight processes, and a mark-and-sweep collector. This library models its run-time system
-- in src/lib, and of the compiler the symbol tables, the types and the code generator.
--
-- Value, Memory: src/lib/value.c, value.h, closure.h, activation.c and activation.h. Objects are
-- cells at addresses; malloc's result is an argument of the functions that allocate, and the chains
-- `sv_head` and `a_head` are lists of addresses. Memory/Equal is `value_equal`.
--
-- Dict: src/lib/dict.c. 31 chains of pairs, and the cursor. The keys' equality is the interface
-- `KeyEquality`, which Memory/Equal fills with `value_equal`. Dict/Dup is the duplication, on the nodes of
-- the chains at their addresses; fuel for the longest chain is enough.
--
-- Gc: src/lib/gc.c. Marking takes fuel; one more than the number of unmarked objects is enough,
-- since each level of the calls marks one. `none` is spent fuel or a dangling pointer.
--
-- Process: src/lib/process.c. The run list and the wait list through `prev` and `next`, and the
-- mailboxes.
--
-- Buffer: src/lib/buffer.c. The bytes are a function of the offset. The doubling of the size takes fuel,
-- for which the new length and one more are enough.
--
-- Builtin: src/lib/builtin.c. Operators and containers, each on an activation record of arguments.
--
-- Vm: src/lib/vm.c, vm.h, and the activation stack of activation.c. Vm/Operators holds the operators
-- that the machine does itself, Vm/Step one round of the switch of `vm_run`, Vm/Run its loop, Vm/Slices how it ends,
-- Vm/Spawn the start of a process, and Vm/Scheduler `process_scheduler` of process.c. Vm/Queueing is
-- about the run list as it grows, Vm/Fairness about the scheduler's next process,
-- Vm/Receive about waiting for a message, and
-- Vm/Messages has the builtins on processes, which the vm calls as Vm/BuiltinCalls says.
-- The program is a function from offsets to decoded instructions; pointers have 64 bits. The loop takes
-- fuel; the rounds to the end of the time slice are enough. The scheduler's loop takes a number of
-- slices, since a program may run for ever.
--
-- Ast: src/lib/ast.h and ast.c. NULL is a tree of its own. Ast/Build has the constructors, with the types
-- that they infer.
--
-- Icode: src/lib/icode.c. An icode is its number; the fields of the icodes are functions of it, and the
-- list is the list of numbers. Icode/Generate is `ast_gen_r`, Icode/Passes the optimisations. Wiring,
-- Rewire, Generated, Emitted, Jumps and Complete are about branches and referrers, Order about the
-- numbers, Landing, NopStep, Nops, Optimize, Finish, Dead and Pipeline about the passes.
--
-- Gen: `iprogram_gen` of src/lib/gen.c, from the icodes to the program of Vm. Its first run is in
-- Gen/Layout and Gen/FirstRun, the runs over its two arrays in Gen/Patches, and what the vm reads then
-- in Gen/Program. Gen/SmallInts is about the short pushes. The arrays have 2048 entries.
--
-- Symbol: src/lib/symbol.c. A table with its parents is a list of tables, innermost first.
--
-- Types: src/lib/type.c. Types are cells with unifiers. A walk to a representative takes fuel for the
-- cells on its way. Types/Sets has equality, the predicates and the types of two branches.
--
-- Prelude: tests, lists, integers and lists without repetition. Tests: the theorems at concrete
-- inputs.
--
-- A pointer is an `Option` of an address. `none` as the result of an operation is behaviour that C
-- leaves undefined, as an access through a dangling pointer, outside of a stack, or an overflow of an
-- `int`, or a failed assertion; the assertion in `hashpjw` alone is taken as src/Makefile builds it, with
-- NDEBUG. What C reads from memory that was not written is a field of Memory that the model leaves open.
--
-- Not modelled: builtins that change a vm, since a builtin acts on the heap and the processes
-- (`process_spawn` acts on the whole machine); the rest of the compiler (scanner, parser, constant folding); the pool
-- allocator, which no build compiles; the debug output; malloc running out of memory; and the functions
-- that only give storage back.
pub mod Ast
pub mod Buffer
pub mod Builtin
pub mod Dict
pub mod Gc
pub mod Gen
pub mod Icode
pub mod Memory
pub mod Prelude
pub mod Process
pub mod Symbol
pub mod Tests
pub mod Types
pub mod Value
pub mod Vm
