-- ===== src/Symbol/Indices.antt =====
-- lib/symbol.c: the indices of the variables that one activation record holds.
use bhuna.Prelude.{
  ℕ, ◌+◌, ◌<◌, ◌≡◌, refl, sym, ap, ◌∙◌, true, false, Option, none, some, List, [], ◌∷◌, ◌++◌,
  if◌then◌else◌, ◌==◌, Bool-cases, inl, inr, arith, All, All-mono,
}
use mathlib.Core.Path.{subst₂}
use bhuna.Prelude.Distinct.{listed, IsDistinct}
use bhuna.Value.{Value, Text}
use bhuna.Symbol.{
  SymKind, Symbol, SymbolTable, Scope, take_index, define, symbol_define, add_symbol,
}

abbrev head_indices : List Symbol → List ℕ
head_indices [] = []
head_indices (s ∷ next) = elim s.index [ none ↦ head_indices next | some i ↦ i ∷ head_indices next ]

-- The indices of the tables that share one activation record, from a table on to the first that has no
-- parent of its level, and how many indices that one has given out: the size of the record.
abbrev pub run_indices : SymbolTable → Scope → List ℕ
run_indices stab [] = head_indices stab.head
run_indices stab (parent ∷ rest) =
    let more = run_indices parent rest in
    if parent.level == stab.level then head_indices stab.head ++ more else head_indices stab.head

abbrev pub run_size : SymbolTable → Scope → ℕ
run_size stab [] = stab.next_index
run_size stab (parent ∷ rest) =
    let size = run_size parent rest in if parent.level == stab.level then size else stab.next_index

-- Each variable has a place of its own in the record.
pub record IsIndexed (stab : SymbolTable) (rest : Scope) : Type 0 where
  pub inside : All (λ i. i < run_size stab rest) (run_indices stab rest)
  pub apart : IsDistinct (run_indices stab rest)

run_after :
    (stab parent p : SymbolTable) (rest r : Scope)
    → p.level ≡ parent.level
    → run_size p r ≡ run_size parent rest + 1
    → run_indices p r ≡ run_indices parent rest
    → (parent.level == stab.level) ≡ true
    → (run_size stab (p ∷ r) ≡ run_size parent rest + 1)
      × (run_indices stab (p ∷ r) ≡ head_indices stab.head ++ run_indices parent rest)
run_after stab parent p rest r d b c same =
    let same' : (p.level == stab.level) ≡ true = ap (λ z. z == stab.level) d ∙ same in
    (rw same' b, rw same' (ap (λ z. head_indices stab.head ++ z) c))

take_index_lem :
    (stab : SymbolTable) (rest : Scope)
    → ((take_index stab rest).0 ≡ run_size stab rest)
      × (run_size (take_index stab rest).1 (take_index stab rest).2 ≡ run_size stab rest + 1)
      × (run_indices (take_index stab rest).1 (take_index stab rest).2 ≡ run_indices stab rest)
      × ((take_index stab rest).1.level ≡ stab.level)
unfolding take_index
take_index_lem stab [] = (refl, refl, refl, refl)
take_index_lem stab (parent ∷ rest) =
    let (a, b, c, d) = take_index_lem parent rest in
    elim (Bool-cases (parent.level == stab.level)) [
      | inl same ↦
          let (b', c') =
            run_after stab parent (take_index parent rest).1 rest (take_index parent rest).2 d b c
              same in
          rw same (a, b', c', refl)
      | inr other ↦ rw (other, other) (refl, refl, refl, refl)
    ]

run_indices-add_symbol :
    (s : Symbol) (stab : SymbolTable) (rest : Scope) (i : ℕ)
    → s.index ≡ some i
    → (run_indices (add_symbol s stab) rest ≡ i ∷ run_indices stab rest)
      × (run_size (add_symbol s stab) rest ≡ run_size stab rest)
run_indices-add_symbol s stab [] i e = (rw e refl, refl)
run_indices-add_symbol s stab (parent ∷ rest) i e = elim (Bool-cases (parent.level == stab.level)) [
  | inl same ↦ rw (same, e) (refl, refl)
  | inr other ↦ rw (other, e) (refl, refl)
]

run_indices-add_constant :
    (s : Symbol) (stab : SymbolTable) (rest : Scope)
    → s.index ≡ none
    → (run_indices (add_symbol s stab) rest ≡ run_indices stab rest)
      × (run_size (add_symbol s stab) rest ≡ run_size stab rest)
run_indices-add_constant s stab [] e = (rw e refl, refl)
run_indices-add_constant s stab (parent ∷ rest) e = elim (Bool-cases (parent.level == stab.level)) [
  | inl same ↦ rw (same, e) (refl, refl)
  | inr other ↦ rw (other, e) (refl, refl)
]

-- A number that all others are below is not among them.
fresh : (n : ℕ) (xs : List ℕ) → All (λ i. i < n) xs → listed xs n ≡ false
fresh n [] h = refl
fresh n (x ∷ xs) h = ground (arith, fresh n xs h.1)

IsIndexed-add :
    (s : Symbol) (stab stab' : SymbolTable) (rest rest' : Scope)
    → s.index ≡ some (run_size stab rest)
    → run_size stab' rest' ≡ run_size stab rest + 1
    → run_indices stab' rest' ≡ run_indices stab rest
    → IsIndexed stab rest
    → IsIndexed (add_symbol s stab') rest'
IsIndexed-add s stab stab' rest rest' e size same v =
    let (a, b) = run_indices-add_symbol s stab' rest' (run_size stab rest) e in
    record {
      inside =
          subst₂ (λ z is. All (λ i. i < z) is) (sym (b ∙ size))
            (sym (a ∙ ap (λ is. run_size stab rest ∷ is) same))
            (
              omega arith,
              All-mono (λ i. i < run_size stab rest) (λ i. i < run_size stab rest + 1)
                  (λ i h. omega arith) (run_indices stab rest) v.inside,
            );
      apart = rw (a, same) (fresh (run_size stab rest) (run_indices stab rest) v.inside, v.apart);
    }

-- A definition, constant or not, keeps every variable of an activation record at an index of its own,
-- below the record's size.
pub symbol_define-IsIndexed :
    (stab : SymbolTable) (rest : Scope) (token : Option Text) (kind : SymKind) (v : Option Value)
    (n : ℕ)
    → IsIndexed stab rest
    → (stab' : SymbolTable) × (rest' : Scope) × ((symbol_define stab rest token kind v n).1
        ≡ stab' ∷ rest')
      × IsIndexed stab' rest'
unfolding symbol_define define
symbol_define-IsIndexed stab rest token kind (some x) n v =
    let new = (symbol_define stab rest token kind (some x) n).0 in
    let (a, b) = run_indices-add_constant new stab rest refl in
    (
      add_symbol new stab,
      rest,
      refl,
      record {
        inside = subst₂ (λ z is. All (λ i. i < z) is) (sym b) (sym a) v.inside;
        apart = rw a v.apart;
      },
    )
symbol_define-IsIndexed stab rest token kind none n v =
    let new = (symbol_define stab rest token kind none n).0 in
    let (a, b, c, d) = take_index_lem stab rest in
    (
      add_symbol new (take_index stab rest).1,
      (take_index stab rest).2,
      refl,
      IsIndexed-add new stab (take_index stab rest).1 rest (take_index stab rest).2 (rw a refl) b c
          v,
    )
