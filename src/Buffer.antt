-- ===== src/Buffer.antt =====
-- lib/buffer.h, lib/buffer.c: extensible buffers with a cursor. Sizes are `size_t` of 64 bits. `none` is an
-- access past the end of the allocation, or spent fuel.
pub mod Append
pub mod Stack
use bhuna.Prelude.{
  ℕ, zero, suc, ◌+◌, ◌-◌, ◌*◌, ◌%◌, ◌^◌, Bool, true, false, ◌&&◌, Option, none, some, List, [], ◌∷◌,
  ◌==◌, if◌then◌else◌, ltb, leb, length, get_or, ◌>>=◌,
}

-- The bytes at the offsets below `size` are the allocation; those from `size` on are what a `realloc`
-- would find there.
pub record Buffer : Type 0 where
  pub buf : ℕ → ℕ
  pub len : ℕ
  pub size : ℕ
  pub pos : ℕ

abbrev pub word : ℕ
word = 2 ^ 64

-- `fill` is what `malloc` leaves in the allocation.
unfoldable pub buffer_new : (ℕ → ℕ) → ℕ → Option Buffer
buffer_new fill size =
    if ltb 0 size
    then some (record { buf = λ i. if 0 == i then 0 else fill i; len = 0; size = size; pos = 0 })
    else none

-- `memcpy` into the allocation.
abbrev pub copied : (ℕ → ℕ) → ℕ → List ℕ → ℕ → ℕ
copied buf at src i = if leb at i && ltb i (at + length src) then get_or src (i - at) 0 else buf i

unfoldable pub memcpy_to : ℕ → List ℕ → Buffer → Option Buffer
memcpy_to at src e =
    if leb (at + length src) e.size then some (record e { buf = copied e.buf at src }) else none

-- `e->buf[e->len] = '\0'`
unfoldable pub terminate : Buffer → Option Buffer
terminate e =
    if ltb e.len e.size
    then some (record e { buf = λ i. if e.len == i then 0 else e.buf i })
    else none

unfoldable pub buffer_ensure_size : ℕ → Buffer → Buffer
buffer_ensure_size size e = if leb size e.size then e else record e { size = size }

-- The loop that doubles the size.
unfoldable pub grow : ℕ → ℕ → ℕ → Option ℕ
grow zero need size = none
grow (suc fuel) need size =
    let rest = grow fuel need (size * 2 % word) in if ltb size need then rest else some size

unfoldable pub buffer_set : ℕ → List ℕ → Buffer → Option Buffer
unfolding grow memcpy_to terminate
buffer_set fuel src e = grow fuel ((length src + 1) % word) e.size >>= λ size.
    memcpy_to 0 src (record e { size = size }) >>= λ e'. terminate (record e' { len = length src })

unfoldable pub buffer_append : ℕ → List ℕ → Buffer → Option Buffer
unfolding grow memcpy_to terminate
buffer_append fuel src e = grow fuel ((e.len + (length src + 1)) % word) e.size >>= λ size.
    memcpy_to e.len src (record e { size = size }) >>= λ e'.
    terminate (record e' { len = (e.len + length src) % word })

-- The result is the return value with the buffer.
unfoldable pub buffer_seek : ℕ → Buffer → Bool × Buffer
buffer_seek pos e = if leb pos e.size then (true, record e { pos = pos }) else (false, e)

unfoldable pub buffer_eof : Buffer → Bool
buffer_eof e = leb e.size e.pos

unfoldable pub buffer_peek_char : Buffer → Option ℕ
buffer_peek_char e = if ltb e.pos e.size then some (e.buf e.pos) else none

unfoldable pub buffer_scan_char : Buffer → Option (ℕ × Buffer)
unfolding buffer_peek_char
buffer_scan_char e = buffer_peek_char e >>= λ c. some (c, record e { pos = e.pos + 1 })

-- The loop, at positions that fit an `int`: where it stops, or nothing if a byte differs. The string ends at its NUL.
unfoldable pub compare_from : Buffer → List ℕ → ℕ → Option ℕ
compare_from e [] pos = some pos
compare_from e (c ∷ s) pos =
    let rest = compare_from e s (pos + 1) in
    if ltb pos e.size then (if e.buf pos == c then rest else none) else some pos

unfoldable pub buffer_compare : List ℕ → Buffer → ℕ
unfolding compare_from
buffer_compare s e = elim (compare_from e s e.pos) [
  | none ↦ 0
  | some pos ↦ if leb pos e.size then pos else 0
]

unfoldable pub buffer_expect : List ℕ → Buffer → Bool × Buffer
unfolding buffer_compare
buffer_expect s e =
    let pos = buffer_compare s e in if ltb 0 pos then (true, record e { pos = pos }) else (false, e)

unfoldable pub buffer_push : List ℕ → Buffer → Option Buffer
unfolding buffer_ensure_size memcpy_to
buffer_push src e = memcpy_to e.pos src (buffer_ensure_size (e.pos + length src) e) >>= λ e'.
    some (record e' { pos = e.pos + length src })

abbrev pub read_bytes : (ℕ → ℕ) → ℕ → ℕ → List ℕ
read_bytes buf at zero = []
read_bytes buf at (suc n) = buf at ∷ read_bytes buf (at + 1) n

-- The bytes popped, if the return value is 1. The difference is one of `size_t`, which wraps around.
unfoldable pub buffer_pop : ℕ → Buffer → Option (Option (List ℕ) × Buffer)
buffer_pop n e =
    let pos = (e.pos + word - n) % word in
    if ltb 0 pos
    then (if leb (pos + n) e.size
        then some (some (read_bytes e.buf pos n), record e { pos = pos })
        else none)
    else some (none, e)
