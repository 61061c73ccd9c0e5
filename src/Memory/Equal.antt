-- ===== src/Memory/Equal.antt =====
-- lib/value.c: `value_equal`, and that it is an equality of dictionary keys.
use bhuna.Prelude.{ℕ, ◌≡◌, ◌≢◌, refl, ap, Bool, true, false, ◌&&◌, none, some, [], ◌∷◌, arith, ◌==◌}
use bhuna.Prelude.Int.{eqb_ℤ, eqb_ℤ-sound, eqb_ℤ-refl}
use bhuna.Value.{Value, null, integer, boolean, atom, builtin, opaque, structured, Kind, Text}
use bhuna.Dict.{KeyEquality, hash_key}
use bhuna.Memory.{Payload, string, error, Memory}

abbrev pub bool_eq : Bool → Bool → Bool
bool_eq true b = b
bool_eq false true = false
bool_eq false false = true

-- `wcscmp(s, t) == 0`, and `strcmp` likewise.
unfoldable pub text_eq : Text → Text → Bool
text_eq [] [] = true
text_eq [] (d ∷ t) = false
text_eq (c ∷ s) [] = false
text_eq (c ∷ s) (d ∷ t) = c == d && text_eq s t

-- The text that a string or an error points to; elsewhere, what a stray pointer reads.
abbrev payload_text : Text → Payload → Text
payload_text stray (string s) = s
payload_text stray (error e) = e
payload_text stray _ = stray

abbrev text_at : Memory → ℕ → Text
text_at m p = elim (m.s_value p) [ none ↦ m.stray p | some s ↦ payload_text (m.stray p) s.payload ]

-- The `switch` for two structured values of one kind. The closure and the dictionary of a structured
-- value are its own, so that they are the same if the addresses are. Two lists are always equal.
unfoldable pub structured_equal : Memory → Kind → ℕ → ℕ → Bool
unfolding text_eq
structured_equal m Kind.string p q = text_eq (text_at m p) (text_at m q)
structured_equal m Kind.list p q = true
structured_equal m Kind.error p q = text_eq (text_at m p) (text_at m q)
structured_equal m Kind.closure p q = p == q
structured_equal m Kind.dict p q = p == q

abbrev pub kind_eq : Kind → Kind → Bool
kind_eq Kind.string Kind.string = true
kind_eq Kind.list Kind.list = true
kind_eq Kind.error Kind.error = true
kind_eq Kind.closure Kind.closure = true
kind_eq Kind.dict Kind.dict = true
kind_eq _ _ = false

-- Two nulls fall out of the `switch`, and are not equal.
unfoldable pub value_equal : Memory → Value → Value → Bool
unfolding structured_equal
value_equal m (integer i) (integer j) = eqb_ℤ i j
value_equal m (boolean b) (boolean c) = bool_eq b c
value_equal m (atom a) (atom b) = a == b
value_equal m (builtin p) (builtin q) = p == q
value_equal m (opaque p) (opaque q) = p == q
value_equal m (structured k p) (structured l q) = kind_eq k l && structured_equal m k p q
value_equal m _ _ = false

text_eq_refl : (s : Text) → text_eq s s ≡ true
unfolding text_eq
text_eq_refl [] = refl
text_eq_refl (c ∷ s) = ground (arith, text_eq_refl s)

text_eq_sound : (s t : Text) → text_eq s t ≡ true → s ≡ t
unfolding text_eq
text_eq_sound [] [] h = refl
text_eq_sound [] (d ∷ t) h = cc
text_eq_sound (c ∷ s) [] h = cc
text_eq_sound (c ∷ s) (d ∷ t) h = ground (arith, text_eq_sound s t)

text_eq_symm : (s t : Text) → text_eq s t ≡ text_eq t s
unfolding text_eq
text_eq_symm [] [] = refl
text_eq_symm [] (d ∷ t) = refl
text_eq_symm (c ∷ s) [] = refl
text_eq_symm (c ∷ s) (d ∷ t) = ground (arith, text_eq_symm s t)

kind_eq_sound : (k l : Kind) → kind_eq k l ≡ true → k ≡ l
kind_eq_sound k l h = ground arith

structured_equal_refl : (m : Memory) (k : Kind) (p : ℕ) → structured_equal m k p p ≡ true
unfolding structured_equal
structured_equal_refl m Kind.string p = text_eq_refl (text_at m p)
structured_equal_refl m Kind.error p = text_eq_refl (text_at m p)
structured_equal_refl m k p = ground arith

structured_equal_symm :
    (m : Memory) (k : Kind) (p q : ℕ) → structured_equal m k p q ≡ structured_equal m k q p
unfolding structured_equal
structured_equal_symm m Kind.string p q = text_eq_symm (text_at m p) (text_at m q)
structured_equal_symm m Kind.error p q = text_eq_symm (text_at m p) (text_at m q)
structured_equal_symm m k p q = ground arith

structured_equal_trans :
    (m : Memory) (k : Kind) (p q r : ℕ)
    → structured_equal m k p q ≡ true
    → structured_equal m k q r ≡ true
    → structured_equal m k p r ≡ true
unfolding structured_equal
structured_equal_trans m Kind.string p q r h i = rw (text_eq_sound (text_at m p) (text_at m q) h) i
structured_equal_trans m Kind.error p q r h i = rw (text_eq_sound (text_at m p) (text_at m q) h) i
structured_equal_trans m k p q r h i = ground arith

-- A value other than null is equal to itself.
pub value_equal_refl : (m : Memory) (v : Value) → v ≢ null → value_equal m v v ≡ true
unfolding value_equal
value_equal_refl m null h = absurd (h refl)
value_equal_refl m (integer i) h = eqb_ℤ-refl i
value_equal_refl m (structured k p) h = ground (arith, structured_equal_refl m k p)
value_equal_refl m v h = ground arith

-- `value_equal` is symmetric on all values.
pub value_equal_symm : (m : Memory) (a b : Value) → value_equal m a b ≡ value_equal m b a
unfolding value_equal
value_equal_symm m (integer i) (integer j) = ground arith
value_equal_symm m (boolean b) (boolean c) = ground arith
value_equal_symm m (atom a) (atom b) = ground arith
value_equal_symm m (builtin p) (builtin q) = ground arith
value_equal_symm m (opaque p) (opaque q) = ground arith
value_equal_symm m (structured k p) (structured l q) =
    ground (arith, kind_eq_sound k l, kind_eq_sound l k, structured_equal_symm m k p q)
value_equal_symm m null null = refl
value_equal_symm m _ _ = refl

-- Of values without contents of their own, the equal ones are the same.
abbrev IsSimple : Value → Type 0
IsSimple (structured k p) = ⊥
IsSimple _ = Unit

value_equal_sound : (m : Memory) (a b : Value) → IsSimple a → value_equal m a b ≡ true → a ≡ b
unfolding value_equal
value_equal_sound m (integer i) (integer j) w h = ap integer (eqb_ℤ-sound i j h)
value_equal_sound m (boolean b) (boolean c) w h = ground arith
value_equal_sound m (atom a) (atom b) w h = ground arith
value_equal_sound m (builtin p) (builtin q) w h = ground arith
value_equal_sound m (opaque p) (opaque q) w h = ground arith
value_equal_sound m (structured k p) (structured l q) w h = absurd w
value_equal_sound m _ _ w h = cc

structured_trans :
    (m : Memory) (k l n : Kind) (p q r : ℕ)
    → (kind_eq k l && structured_equal m k p q) ≡ true
    → (kind_eq l n && structured_equal m l q r) ≡ true
    → (kind_eq k n && structured_equal m k p r) ≡ true
structured_trans m k l n p q r h i =
    ground (arith, kind_eq_sound k l, kind_eq_sound l n, structured_equal_trans m k p q r)

-- If a value equals a second, and that one a third, then the first equals the third.
pub value_equal_trans :
    (m : Memory) (a b c : Value)
    → value_equal m a b ≡ true
    → value_equal m b c ≡ true
    → value_equal m a c ≡ true
unfolding value_equal
value_equal_trans m (structured k p) (structured l q) (structured n r) h i =
    structured_trans m k l n p q r h i
value_equal_trans m (structured k p) (structured l q) _ h i = cc
value_equal_trans m (structured k p) _ c h i = cc
value_equal_trans m null b c h i = cc
value_equal_trans m a b c h i = rw (value_equal_sound m a b tt h) i

hash-structured :
    (m : Memory) (k : Kind) (p : ℕ) (b : Value)
    → value_equal m (structured k p) b ≡ true
    → hash_key (structured k p) ≡ hash_key b
unfolding value_equal hash_key
hash-structured m k p (structured l q) h = refl
hash-structured m k p _ h = cc

-- Values that `value_equal` takes for one have one hash, so that equal keys share a bucket.
pub hash-value_equal :
    (m : Memory) (a b : Value) → value_equal m a b ≡ true → hash_key a ≡ hash_key b
hash-value_equal m (structured k p) b h = hash-structured m k p b h
hash-value_equal m (integer i) b h = ap hash_key (value_equal_sound m (integer i) b tt h)
hash-value_equal m a b h = ap hash_key (value_equal_sound m a b tt h)

-- What dictionaries ask of `value_equal` holds.
abbrev pub value_keys : Memory → KeyEquality
value_keys m = record {
  equal = value_equal m;
  equal_symm = value_equal_symm m;
  equal_trans = value_equal_trans m;
  hash-equal = hash-value_equal m;
}
