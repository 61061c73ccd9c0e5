-- ===== src/Tests.antt =====
-- The theorems at concrete inputs, and small runs of the operations.
mod BufferTests
mod CodeTests
mod DictTests
mod DupTests
mod MemoryTests
mod GcTests
mod ProcessTests
mod SchedulerTests
mod VmTests
mod SymbolTests
mod TypesTests
