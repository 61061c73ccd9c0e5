-- ===== src/Dict/Cursor.antt =====
-- lib/dict.c: the cursor. A loop from `dict_rewind` by `dict_next` to `dict_eof` meets each key once.
use bhuna.Prelude.{
  ℕ, zero, suc, ◌+◌, ◌-◌, ◌≤◌, ◌<◌, ◌≡◌, refl, sym, ap, ◌∙◌, Option, none, some, List, [], ◌∷◌,
  ◌++◌, arith, if◌then◌else◌, ◌>>=◌, length, get_or, length-append,
}
use native.Mathlib.Numerals.{add-one}
use bhuna.Value.{Value}
use bhuna.Dict.{
  Chain, Dict, keys_from, advance_loop, dict_advance, dict_rewind, dict_eof, dict_getkey, dict_next,
  size_from, dict_size,
}

-- The keys of the chains from number `i` on, in the order of the table.
unfoldable pub keys_after : ℕ → List Chain → List Value
keys_after zero [] = []
keys_after zero (c ∷ cs) = keys_from c ++ keys_after zero cs
keys_after (suc i) [] = []
keys_after (suc i) (c ∷ cs) = keys_after i cs

-- What the cursor has yet to meet.
abbrev pub remaining : Dict → List Value
remaining d = d.cursor ++ keys_after (suc d.cur_bucket) d.bucket

-- The loop that a client of the cursor writes: read a key, move on, until the end.
pub walk : ℕ → Dict → Option (List Value)
walk zero d = none
walk (suc fuel) d =
    let rest = walk fuel (dict_next d) in
    if dict_eof d then some [] else (rest >>= λ ks. some (dict_getkey d ∷ ks))

keys_after-step :
    (i : ℕ) (cs : List Chain)
    → i < length cs
    → keys_after i cs ≡ keys_from (get_or cs i []) ++ keys_after (suc i) cs
unfolding keys_after
keys_after-step zero [] h = elim h [ ]
keys_after-step zero (c ∷ cs) h = refl
keys_after-step (suc i) [] h = elim h [ ]
keys_after-step (suc i) (c ∷ cs) h = keys_after-step i cs (omega arith)

keys_after-end : (i : ℕ) (cs : List Chain) → length cs ≤ i → keys_after i cs ≡ []
unfolding keys_after
keys_after-end zero [] h = refl
keys_after-end zero (c ∷ cs) h = absurd (omega arith)
keys_after-end (suc i) [] h = refl
keys_after-end (suc i) (c ∷ cs) h = keys_after-end i cs (omega arith)

-- The cursor stands at a node, or nothing is left.
record IsSettled (d : Dict) : Type 0 where
  inside : d.cur_bucket < length d.bucket
  settled : d.cursor ≡ [] → remaining d ≡ []

-- What `dict_advance` does: the cursor settles, and what is left stays the same.
record Advances (d d' : Dict) : Type 0 where
  same : d'.bucket ≡ d.bucket
  left : remaining d' ≡ remaining d
  settles : IsSettled d'

abbrev at : List Chain → List Value → ℕ → Dict
at b c i = record { bucket = b; cursor = c; cur_bucket = i }

advance_loop_lem :
    (n : ℕ) (b : List Chain) (c : List Value) (i : ℕ)
    → i + 1 + n ≡ length b
    → Advances (at b c i) (advance_loop n (at b c i))
unfolding advance_loop
advance_loop_lem zero b [] i h = record {
  same = refl;
  left = refl;
  settles = record { inside = omega arith; settled = λ _. keys_after-end (suc i) b (omega arith) };
}
advance_loop_lem zero b (k ∷ ks) i h = record {
  same = refl;
  left = refl;
  settles = record { inside = omega arith; settled = λ e. cc };
}
advance_loop_lem (suc n) b [] i h =
    let r = advance_loop_lem n b (keys_from (get_or b (i + 1) [])) (i + 1) (omega arith) in
    record {
      same = r.same;
      left = r.left ∙ sym (keys_after-step (i + 1) b (omega arith)) ∙ rw add-one refl;
      settles = r.settles;
    }
advance_loop_lem (suc n) b (k ∷ ks) i h = record {
  same = refl;
  left = refl;
  settles = record { inside = omega arith; settled = λ e. cc };
}

dict_advance_lem : (d : Dict) → d.cur_bucket < length d.bucket → Advances d (dict_advance d)
unfolding dict_advance
dict_advance_lem d h =
    advance_loop_lem (length d.bucket - 1 - d.cur_bucket) d.bucket d.cursor d.cur_bucket
      (omega arith)

-- From a settled cursor the loop reads what is left, in order, and ends.
walk-remaining :
    (fuel : ℕ) (b : List Chain) (c : List Value) (i : ℕ)
    → IsSettled (at b c i)
    → length (remaining (at b c i)) < fuel
    → walk fuel (at b c i) ≡ some (remaining (at b c i))
unfolding walk dict_eof dict_getkey dict_next
walk-remaining zero b c i s h = elim h [ ]
walk-remaining (suc fuel) b [] i s h = rw (s.settled refl) refl
walk-remaining (suc fuel) b (k ∷ ks) i s h =
    let r = dict_advance_lem (at b ks i) s.inside in
    let d = dict_advance (at b ks i) in
    rw (walk-remaining fuel d.bucket d.cursor d.cur_bucket r.settles (rw r.left (omega arith)))
      (rw r.left refl)

-- Rewinding and walking to the end meets the keys of the table, bucket after bucket, each node once.
pub walk-rewind :
    (fuel : ℕ) (d : Dict)
    → 0 < length d.bucket
    → length (keys_after 0 d.bucket) < fuel
    → walk fuel (dict_rewind d) ≡ some (keys_after 0 d.bucket)
unfolding dict_rewind
walk-rewind fuel d pos h =
    let start = at d.bucket (keys_from (get_or d.bucket 0 [])) 0 in
    let r = dict_advance_lem start pos in
    let e = dict_advance start in
    let whole : remaining e ≡ keys_after 0 d.bucket =
      r.left ∙ sym (keys_after-step 0 d.bucket pos) in
    walk-remaining fuel e.bucket e.cursor e.cur_bucket r.settles (rw whole h) ∙ rw whole refl

length-keys_from : (c : Chain) → length (keys_from c) ≡ length c
length-keys_from [] = refl
length-keys_from (e ∷ c) = ap suc (length-keys_from c)

size_from-keys : (n : ℕ) (cs : List Chain) → size_from n cs ≡ n + length (keys_after 0 cs)
unfolding size_from keys_after
size_from-keys n [] = omega arith
size_from-keys n (c ∷ cs) = omega (
  arith,
  size_from-keys (n + length c) cs,
  length-append (keys_from c) (keys_after 0 cs),
  length-keys_from c,
)

-- `dict_size` counts the keys that the cursor meets.
pub dict_size-keys : (d : Dict) → dict_size d ≡ length (keys_after 0 d.bucket)
unfolding dict_size
dict_size-keys d = omega (arith, size_from-keys 0 d.bucket)
