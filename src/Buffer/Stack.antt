-- ===== src/Buffer/Stack.antt =====
-- lib/buffer.c: a buffer as a stack of bytes under the cursor.
use bhuna.Prelude.{
  ℕ, suc, ◌+◌, ◌-◌, ◌%◌, ◌≡◌, ◌≤◌, ◌<◌, refl, ap, ◌∙◌, true, Option, none, some, List, [], ◌∷◌,
  if◌then◌else◌, ltb, leb, length, get_or, arith, Bool-cases, inl, inr, ◌⊎◌,
}
use bhuna.Buffer.{
  Buffer, word, copied, memcpy_to, buffer_ensure_size, buffer_push, read_bytes, buffer_pop,
}

read_same :
    (f : ℕ → ℕ) (at : ℕ) (src : List ℕ)
    → ((i : ℕ) → i < length src → f (at + i) ≡ get_or src i 0)
    → read_bytes f at (length src) ≡ src
read_same f at [] h = refl
read_same f at (x ∷ xs) h =
    let first : f at ≡ x = ap f (omega arith) ∙ h 0 (omega arith) in
    let rest = read_same f (at + 1) xs (λ i k. ap f (omega arith) ∙ h (suc i) (omega arith)) in
    λ i. first i ∷ rest i

-- What a push leaves.
abbrev pushed : List ℕ → ℕ → Buffer → Buffer
pushed src size e = record e { size = size; buf = copied e.buf e.pos src; pos = e.pos + length src }

buffer_push-pushed :
    (src : List ℕ) (e : Buffer)
    → (size : ℕ) × (buffer_push src e ≡ some (pushed src size e)) × (e.pos + length src ≤ size)
unfolding buffer_push buffer_ensure_size memcpy_to
buffer_push-pushed src e = elim (Bool-cases (leb (e.pos + length src) e.size)) [
  | inl room ↦ (e.size, ground arith, ground arith)
  | inr full ↦ (e.pos + length src, ground arith, omega arith)
]

-- The pop once its position is known.
abbrev pop_at : ℕ → ℕ → Buffer → Option (Option (List ℕ) × Buffer)
pop_at pos n e =
    if ltb 0 pos
    then (if leb (pos + n) e.size
        then some (some (read_bytes e.buf pos n), record e { pos = pos })
        else none)
    else some (none, e)

buffer_pop-pop_at :
    (pos n : ℕ) (e : Buffer) → (e.pos + word - n) % word ≡ pos → buffer_pop n e ≡ pop_at pos n e
unfolding buffer_pop
buffer_pop-pop_at pos n e h = ap (λ k. pop_at k n e) h

pop_at-inside :
    (pos n : ℕ) (e : Buffer) (bytes : List ℕ)
    → 0 < pos
    → pos + n ≤ e.size
    → read_bytes e.buf pos n ≡ bytes
    → pop_at pos n e ≡ some (some bytes, record e { pos = pos })
pop_at-inside pos n e bytes inside room h =
    let a : ltb 0 pos ≡ true = ground arith in
    let b : leb (pos + n) e.size ≡ true = ground arith in
    λ i.
      if a i
      then (if b i then some (some (h i), record e { pos = pos }) else none)
      else some (none, e)

pop_at-start : (pos n : ℕ) (e : Buffer) → pos ≡ 0 → pop_at pos n e ≡ some (none, e)
pop_at-start pos n e h = ground arith

-- Popping as many bytes as were pushed gives them back and restores the cursor, but for a push at the
-- beginning of the buffer: there the pop is refused, and changes nothing.
pub buffer_pop-push :
    (src : List ℕ) (e : Buffer)
    → e.pos + length src < word
    → (e' : Buffer) × (buffer_push src e ≡ some e')
      × (((e.pos ≡ 0) × (buffer_pop (length src) e' ≡ some (none, e')))
          ⊎ ((0 < e.pos)
              × (buffer_pop (length src) e' ≡ some (some src, record e' { pos = e.pos }))))
buffer_pop-push src e small =
    let (size, run, room) = buffer_push-pushed src e in
    let back : (e.pos + length src + word - length src) % word ≡ e.pos = omega arith in
    (
      pushed src size e,
      run,
      elim (Bool-cases (ltb 0 e.pos)) [
        | inl inside ↦ inr (
          ground arith,
          buffer_pop-pop_at e.pos (length src) (pushed src size e) back
              ∙ pop_at-inside e.pos (length src) (pushed src size e) src (ground arith) room
                  (read_same (copied e.buf e.pos src) e.pos src (λ i h. ground arith)),
        )
        | inr start ↦ inl (
          ground arith,
          buffer_pop-pop_at e.pos (length src) (pushed src size e) back
              ∙ pop_at-start e.pos (length src) (pushed src size e) (ground arith),
        )
      ],
    )
