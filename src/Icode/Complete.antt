-- ===== src/Icode/Complete.antt =====
-- lib/icode.c: the generator finishes on every tree that the parser makes, and the code is complete.
use bhuna.Prelude.{ℕ, ◌+◌, ◌≡◌, refl, sym, ap, ◌∙◌, true, some, [], ◌>>=◌}
use bhuna.Ast.{
  Ast, absent, local, value, closure, builtin, apply, arg, routine, statement, assignment,
  conditional, while_loop, retr, ast_find_local,
}
use bhuna.Icode.{
  halt, call, ret, push_value, push_local, last_number, Iprogram, iprogram_new, icode_new,
}
use bhuna.Icode.Order.{IsIncreasing, last_append}
use bhuna.Icode.Wiring.{IsWired}
use bhuna.Icode.Generate.{is_store, emit, gen_builtin, gen_assign, ast_gen_r, ast_gen_iprogram}
use bhuna.Icode.Jumps.{
  Generates, generate, closure-Generates, conditional-Generates, while_loop-Generates,
}
use bhuna.Icode.Emitted.{
  IsLocal, emit-Generated, gen_cow-Generated, gen_builtin-Generated, gen_assign-Generated,
}
use bhuna.Icode.Generated.{is_set, Generated, Generated-refl, icode_new-Generated}

-- What the generator asserts, or takes for granted: an assignment has a local on the left, and a store
-- has one first in its arguments.
abbrev pub IsGenerable : Ast → Type 0
IsGenerable absent = Unit
IsGenerable (local t index upcount) = Unit
IsGenerable (value t v) = Unit
IsGenerable (closure t q body) = IsGenerable body
IsGenerable (builtin t b right) =
    (is_store b ≡ true → (l : ℕ × ℕ) × (ast_find_local right ≡ some l)) × IsGenerable right
IsGenerable (apply t left right is_pure) = IsGenerable left × IsGenerable right
IsGenerable (arg t left right) = IsGenerable left × IsGenerable right
IsGenerable (routine t body) = IsGenerable body
IsGenerable (statement t left right) = IsGenerable left × IsGenerable right
IsGenerable (assignment t left right defining) = IsLocal left × IsGenerable right
IsGenerable (conditional t test on_yes on_no) =
    IsGenerable test × IsGenerable on_yes × IsGenerable on_no
IsGenerable (while_loop t test body) = IsGenerable test × IsGenerable body
IsGenerable (retr t body) = IsGenerable body

-- A chain of two trees, and one of a tree and an icode.
pair-Generates :
    (a b : Ast) (ip : Iprogram)
    → Generates a
    → Generates b
    → IsWired ip
    → IsIncreasing ip.order
    → (ip' : Iprogram) × ((ast_gen_r a ip >>= λ ip₁. ast_gen_r b ip₁) ≡ some ip')
      × Generated [] ip ip'
pair-Generates a b ip f g w inc =
    let (ip₁, run₁, h₁) = f ip w inc in
    let (ip₂, run₂, h₂, _) = generate b [] ip ip₁ g h₁ in
    (ip₂, ap (λ o. o >>= ast_gen_r b) run₁ ∙ run₂, h₂)

pub ast_gen_r-Generated : (a : Ast) → IsGenerable a → Generates a
unfolding ast_gen_r
ast_gen_r-Generated absent h ip w inc = (ip, refl, Generated-refl ip w inc)
ast_gen_r-Generated (local t i u) h ip w inc = (
  emit (push_local i u) ip,
  refl,
  emit-Generated (push_local i u) ip ip refl refl (Generated-refl ip w inc),
)
ast_gen_r-Generated (value t v) h ip w inc = (
  emit (push_value v) ip,
  refl,
  emit-Generated (push_value v) ip ip refl refl (Generated-refl ip w inc),
)
ast_gen_r-Generated (closure t q body) h ip w inc =
    closure-Generates t q body (ast_gen_r-Generated body h) ip w inc
ast_gen_r-Generated (builtin t b right) h ip w inc =
    let (ip₁, run₁, g₁) = gen_cow-Generated right b ip h.0 (Generated-refl ip w inc) in
    let (ip₂, run₂, g₂, _) = generate right [] ip ip₁ (ast_gen_r-Generated right h.1) g₁ in
    (
      gen_builtin right b ip₂,
      ap (λ o. o >>= λ i₁. ast_gen_r right i₁ >>= λ i₂. some (gen_builtin right b i₂)) run₁
          ∙ ap (λ o. o >>= λ i₂. some (gen_builtin right b i₂)) run₂,
      gen_builtin-Generated right b ip ip₂ g₂,
    )
ast_gen_r-Generated (apply t left right is_pure) h ip w inc =
    let (ip₁, run₁, g₁) = ast_gen_r-Generated right h.1 ip w inc in
    let (ip₂, run₂, g₂, _) = generate left [] ip ip₁ (ast_gen_r-Generated left h.0) g₁ in
    (
      emit call ip₂,
      ap (λ o. o >>= λ i₁. ast_gen_r left i₁ >>= λ i₂. some (emit call i₂)) run₁
          ∙ ap (λ o. o >>= λ i₂. some (emit call i₂)) run₂,
      emit-Generated call ip ip₂ refl refl g₂,
    )
ast_gen_r-Generated (routine t body) h ip w inc = ast_gen_r-Generated body h ip w inc
ast_gen_r-Generated (arg t left right) h ip w inc =
    pair-Generates left right ip (ast_gen_r-Generated left h.0) (ast_gen_r-Generated right h.1) w
      inc
ast_gen_r-Generated (statement t left right) h ip w inc =
    pair-Generates left right ip (ast_gen_r-Generated left h.0) (ast_gen_r-Generated right h.1) w
      inc
ast_gen_r-Generated (assignment t left right defining) h ip w inc =
    let (ip₁, run₁, g₁) = ast_gen_r-Generated right h.1 ip w inc in
    let (ip₂, run₂, g₂) = gen_assign-Generated left defining ip ip₁ h.0 g₁ in
    (ip₂, ap (λ o. o >>= gen_assign left defining) run₁ ∙ run₂, g₂)
ast_gen_r-Generated (conditional t test on_yes on_no) h ip w inc =
    conditional-Generates t test on_yes on_no (ast_gen_r-Generated test h.0)
      (ast_gen_r-Generated on_yes h.1) (ast_gen_r-Generated on_no h.2) ip w inc
ast_gen_r-Generated (while_loop t test body) h ip w inc =
    while_loop-Generates t test body (ast_gen_r-Generated test h.0) (ast_gen_r-Generated body h.1)
      ip w inc
ast_gen_r-Generated (retr t body) h ip w inc =
    let (ip₁, run₁, g₁) = ast_gen_r-Generated body h ip w inc in
    (
      emit ret ip₁,
      ap (λ o. o >>= λ i₁. some (emit ret i₁)) run₁,
      emit-Generated ret ip ip₁ refl refl g₁,
    )

-- A program of no icodes is wired.
iprogram_new-IsWired : IsWired iprogram_new
unfolding iprogram_new
iprogram_new-IsWired = record {
  branches = λ m n. refl;
  entries = λ q n h. h;
  allocated = λ n. refl;
  unreferred = λ n h. refl;
}

-- The generator finishes on every tree whose assignments and stores name a local. Its program is wired,
-- its numbers go up, every jump has a branch, and the last icode is a HALT.
pub ast_gen_iprogram-IsWired :
    (a : Ast)
    → IsGenerable a
    → (ip : Iprogram) × (n : ℕ) × (ast_gen_iprogram a ≡ some ip)
      × IsWired ip
      × IsIncreasing ip.order
      × ((m : ℕ) → is_set (ip.code m) ≡ true)
      × (last_number ip.order ≡ n)
      × (ip.code n ≡ some halt)
unfolding ast_gen_iprogram iprogram_new icode_new
ast_gen_iprogram-IsWired a h =
    let (ip₁, run₁, g₁) = ast_gen_r-Generated a h iprogram_new iprogram_new-IsWired tt in
    let (n, ip₂, run₂, opened, here, new, others, there, closed) =
      icode_new-Generated halt [] iprogram_new ip₁ refl g₁ in
    let g₂ = closed refl in
    (
      ip₂,
      n,
      ap (λ o. o >>= λ i. some (emit halt i)) run₁ ∙ ap (λ t. some t.1) run₂,
      g₂.wired,
      g₂.increasing,
      λ m. g₂.set m refl refl,
      ap (λ t. last_number t.1.order) (sym run₂)
          ∙ last_append ip₁.order (last_number ip₁.order + 1)
          ∙ ap (λ t. t.0) run₂,
      here,
    )
