-- ===== src/Tests/GcTests.antt =====
-- lib/gc.c at a small heap: a list that holds a string, an error that nothing holds, an activation on
-- the heap, and one on a stack that encloses in it.
use bhuna.Prelude.{
  ℕ, zero, suc, ◌≡◌, refl, true, false, Option, none, some, List, [], ◌∷◌, arith, All,
}
use bhuna.Prelude.Int.{pos}
use bhuna.Value.{structured, Kind, integer, null}
use bhuna.Memory.{Payload, string, list, error, SValue, Activation, Memory}
use bhuna.Gc.{Root, gc}
use bhuna.Gc.Graph.{Node, sv, ar, is_marked, is_allocated, contains, links, count_unmarked}
use bhuna.Gc.Collect.{IsCollectable, Collects, gc-Collects}

abbrev object : Payload → SValue
object x = record { marked = false; permanent = false; payload = x }

abbrev objects : ℕ → Option SValue
objects zero = some (object (list (structured Kind.string 1 ∷ [])))
objects (suc zero) = some (object (string (65 ∷ [])))
objects (suc (suc zero)) = some (object (error (66 ∷ [])))
objects _ = none

abbrev frames : ℕ → Option Activation
frames zero = some (record {
  marked = false;
  on_stack = false;
  caller = none;
  enclosing = none;
  values = structured Kind.list 0 ∷ integer (pos 1) ∷ [];
})
frames (suc zero) =
    some
      (record { marked = false; on_stack = true; caller = some 0; enclosing = some 0; values = [] })
frames _ = none

abbrev heap : Memory
heap = record {
  s_value = objects;
  sv_head = 2 ∷ 1 ∷ 0 ∷ [];
  activation = frames;
  a_head = 0 ∷ [];
  unset = λ a i. null;
  stray = λ p. [];
}

abbrev run_list : List Root
run_list = record { current_ar = some 1; vstack = integer (pos 3) ∷ [] } ∷ []

abbrev nodes : List Node
nodes = sv 0 ∷ sv 1 ∷ sv 2 ∷ ar 0 ∷ ar 1 ∷ []

heap_pointers :
    (x : Node) → is_allocated heap x ≡ true → All (λ y. is_allocated heap y ≡ true) (links heap x)
unfolding is_allocated links
heap_pointers (sv zero) h = (refl, tt)
heap_pointers (sv (suc zero)) h = tt
heap_pointers (sv (suc (suc zero))) h = tt
heap_pointers (sv (suc (suc (suc p)))) h = tt
heap_pointers (ar zero) h = (refl, tt)
heap_pointers (ar (suc zero)) h = (refl, (refl, tt))
heap_pointers (ar (suc (suc a))) h = tt

heap_listed : (x : Node) → is_allocated heap x ≡ true → contains nodes x ≡ true
unfolding is_allocated
heap_listed (sv zero) h = refl
heap_listed (sv (suc zero)) h = refl
heap_listed (sv (suc (suc zero))) h = refl
heap_listed (sv (suc (suc (suc p)))) h = cc
heap_listed (ar zero) h = refl
heap_listed (ar (suc zero)) h = refl
heap_listed (ar (suc (suc a))) h = cc

heap_unmarked : (x : Node) → is_marked heap x ≡ false
unfolding is_marked
heap_unmarked (sv zero) = refl
heap_unmarked (sv (suc zero)) = refl
heap_unmarked (sv (suc (suc zero))) = refl
heap_unmarked (sv (suc (suc (suc p)))) = refl
heap_unmarked (ar zero) = refl
heap_unmarked (ar (suc zero)) = refl
heap_unmarked (ar (suc (suc a))) = refl

heap-IsCollectable : IsCollectable nodes run_list heap
unfolding is_allocated
heap-IsCollectable = record {
  ready = record { pointers = heap_pointers; listed = heap_listed };
  roots = (refl, tt);
  unmarked = heap_unmarked;
  sv_distinct = (refl, (refl, (refl, tt)));
  sv_cells = (refl, (refl, (refl, tt)));
  a_distinct = (refl, tt);
  a_cells = (refl, tt);
}

gc-Collects_example : (m' : Memory) × (gc 6 run_list heap ≡ some m') × Collects run_list heap m'
unfolding count_unmarked is_marked
gc-Collects_example = gc-Collects nodes 6 run_list heap heap-IsCollectable (omega arith)
