-- ===== src/Tests/BufferTests.antt =====
-- lib/buffer.c at a buffer of two bytes.
use bhuna.Prelude.{◌≡◌, ◌<◌, ◌⊎◌, none, some, [], ◌∷◌, arith}
use bhuna.Buffer.{Buffer, buffer_append, buffer_push, buffer_pop}
use bhuna.Buffer.Append.{Appended, buffer_append-Appended}
use bhuna.Buffer.Stack.{buffer_pop-push}

abbrev letters : Buffer
letters = record { buf = λ i. 97; len = 1; size = 2; pos = 1 }

buffer_append-Appended_example :
    (e : Buffer) × (buffer_append 5 (98 ∷ 99 ∷ 100 ∷ []) letters ≡ some e)
    × Appended (98 ∷ 99 ∷ 100 ∷ []) letters e
buffer_append-Appended_example =
    buffer_append-Appended 4 (98 ∷ 99 ∷ 100 ∷ []) letters (omega arith) (omega arith) (omega arith)

buffer_pop-push_example :
    (e : Buffer) × (buffer_push (98 ∷ 99 ∷ []) letters ≡ some e)
    × (((letters.pos ≡ 0) × (buffer_pop 2 e ≡ some (none, e)))
        ⊎ ((0 < letters.pos)
            × (buffer_pop 2 e ≡ some (some (98 ∷ 99 ∷ []), record e { pos = letters.pos }))))
buffer_pop-push_example = buffer_pop-push (98 ∷ 99 ∷ []) letters (omega arith)
