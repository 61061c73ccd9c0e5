-- ===== src/Buffer/Append.antt =====
-- lib/buffer.c: appending finds room and keeps the contents.
use bhuna.Prelude.{
  ℕ, zero, suc, ◌+◌, ◌*◌, ◌%◌, ◌^◌, ◌≡◌, ◌≤◌, ◌<◌, refl, ap, ◌∙◌, true, false, some, List, ◌==◌,
  if◌then◌else◌, ltb, length, get_or, ◌>>=◌, arith, Bool-cases, inl, inr,
}
use bhuna.Buffer.{Buffer, word, copied, memcpy_to, terminate, grow, buffer_append}

grow-stop : (fuel need size : ℕ) → ltb size need ≡ false → grow (suc fuel) need size ≡ some size
unfolding grow
grow-stop fuel need size h = ground arith

grow-double :
    (fuel need size : ℕ)
    → ltb size need ≡ true
    → size * 2 < word
    → grow (suc fuel) need size ≡ grow fuel need (size * 2)
unfolding grow
grow-double fuel need size h small =
    ap (λ b. if b then grow fuel need (size * 2 % word) else some size) h
    ∙ ap (grow fuel need) (omega arith)

-- The doubling ends with room for the need.
pub grow-room :
    (fuel need size : ℕ)
    → 0 < size
    → need ≤ size + fuel
    → need ≤ 2 ^ 63
    → (size' : ℕ) × (grow (suc fuel) need size ≡ some size') × (need ≤ size') × (size ≤ size')
grow-room zero need size pos enough small =
    (size, grow-stop 0 need size (ground arith), omega arith, omega arith)
grow-room (suc fuel) need size pos enough small = elim (Bool-cases (ltb size need)) [
  | inl more ↦
      let lt : size < need = ground arith in
      let (size', run, room, big) =
        grow-room fuel need (size * 2) (omega arith) (omega arith) small in
      (size', grow-double (suc fuel) need size more (omega arith) ∙ run, room, omega arith)
  | inr done ↦ (size, grow-stop (suc fuel) need size done, ground arith, omega arith)
]

memcpy_to-copied :
    (at : ℕ) (src : List ℕ) (e : Buffer)
    → at + length src ≤ e.size
    → memcpy_to at src e ≡ some (record e { buf = copied e.buf at src })
unfolding memcpy_to
memcpy_to-copied at src e h = ground arith

terminate_inside :
    (e : Buffer)
    → e.len < e.size
    → terminate e ≡ some (record e { buf = λ i. if e.len == i then 0 else e.buf i })
unfolding terminate
terminate_inside e h = ground arith

-- What an append leaves: the old bytes, the new ones after them, and a NUL.
pub record Appended (src : List ℕ) (e e' : Buffer) : Type 0 where
  pub len : e'.len ≡ e.len + length src
  pub room : e'.len < e'.size
  pub old : (i : ℕ) → i < e.len → e'.buf i ≡ e.buf i
  pub new : (i : ℕ) → i < length src → e'.buf (e.len + i) ≡ get_or src i 0
  pub nul : e'.buf e'.len ≡ 0
  pub pos : e'.pos ≡ e.pos

appended : List ℕ → ℕ → Buffer → Buffer
appended src size e = record e {
  size = size;
  len = e.len + length src;
  buf = λ i. if (e.len + length src) == i then 0 else copied e.buf e.len src i;
}

-- Appending to a buffer whose size is not 0, where the new length is below half of what a `size_t` holds,
-- finishes: as many rounds of the doubling as the new length, and one more, are enough. The old bytes
-- stay, the new ones follow, a NUL ends them, all of it is within the size, and the cursor stays.
pub buffer_append-Appended :
    (fuel : ℕ) (src : List ℕ) (e : Buffer)
    → 0 < e.size
    → e.len + (length src + 1) ≤ 2 ^ 63
    → e.len + length src ≤ fuel
    → (e' : Buffer) × (buffer_append (suc fuel) src e ≡ some e') × Appended src e e'
unfolding buffer_append appended
buffer_append-Appended fuel src e some_size small enough =
    let need = e.len + (length src + 1) in
    let whole : need % word ≡ need = omega arith in
    let (size, run, room, big) = grow-room fuel need e.size some_size (omega arith) small in
    let e₁ : Buffer = record e { size = size } in
    let e₂ : Buffer = record e { size = size; buf = copied e.buf e.len src } in
    let e₃ : Buffer = record e {
      size = size;
      buf = copied e.buf e.len src;
      len = e.len + length src;
    } in
    let fits : (e.len + length src) % word ≡ e.len + length src = omega arith in
    (
      appended src size e,
      ap
            (λ k. grow (suc fuel) k e.size >>= λ size.
              memcpy_to e.len src (record e { size = size }) >>= λ e'.
              terminate (record e' { len = (e.len + length src) % word }))
            whole
          ∙ ap
              (λ o. o >>= λ size. memcpy_to e.len src (record e { size = size }) >>= λ e'.
                terminate (record e' { len = (e.len + length src) % word }))
              run
          ∙ ap (λ o. o >>= λ e'. terminate (record e' { len = (e.len + length src) % word }))
              (memcpy_to-copied e.len src e₁ (omega arith))
          ∙ ap (λ l. terminate (record e₂ { len = l })) fits
          ∙ terminate_inside e₃ (omega arith),
      record {
        len = refl;
        room = omega arith;
        old = λ i h. ground arith;
        new = λ i h. ground arith;
        nul = ground arith;
        pos = refl;
      },
    )
