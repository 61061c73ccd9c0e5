-- ===== src/Process/Mail.antt =====
-- lib/process.c: moving a process between the lists leaves every mailbox as it is.
use bhuna.Prelude.{
  ℕ, ◌≡◌, refl, subst, ◌∙◌, Bool, true, false, Option, none, some, List, ◌==◌, ◌>>=◌, if◌then◌else◌,
  Bool-cases, inl, inr, ==_iff,
}
use bhuna.Value.{Value}
use bhuna.Memory.{update}
use bhuna.Process.{
  Process, Cells, Processes, set_prev, set_next, is_head, unlink_prev, unlink, push, process_sleep,
  process_awaken,
}

-- The messages of the process at the address, if there is one.
abbrev pub mail : Cells → ℕ → Option (List Value)
mail f q = f q >>= λ r. some r.msg_head

abbrev pub SameMail : Cells → Cells → Type 0
SameMail f g = (q : ℕ) → mail g q ≡ mail f q

-- A result, if there is one, satisfies `P`.
abbrev pub Ensures : {A : Type 0} → (A → Type 0) → Option A → Type 0
Ensures P none = Unit
Ensures P (some a) = P a

-- What a chain ensures by what its two steps do.
chain-Ensures :
    {A B : Type 0} (Q : A → Type 0) (P : B → Type 0) (o : Option A) (f : A → Option B)
    → Ensures Q o
    → ((a : A) → o ≡ some a → Q a → Ensures P (f a))
    → Ensures P (o >>= f)
chain-Ensures Q P none f q h = tt
chain-Ensures Q P (some a) f q h = h a refl q

found :
    {A B : Type 0} (P : B → Type 0) (o : Option A) (f : A → Option B)
    → ((a : A) → o ≡ some a → Ensures P (f a))
    → Ensures P (o >>= f)
found P none f h = tt
found P (some a) f h = h a refl

update-SameMail :
    (f : Cells) (p : ℕ) (r r' : Process)
    → f p ≡ some r
    → r'.msg_head ≡ r.msg_head
    → SameMail f (update f p (some r'))
update-SameMail f p r r' e same q = elim (Bool-cases (p == q)) [
  | inl here ↦
      let at : f q ≡ some r = subst (λ z. f z ≡ some r) ((==_iff p q).0 here) e in
      rw (here, at, ◌>>=◌, same) refl
  | inr other ↦ rw other refl
]

set_prev-SameMail : (o v : Option ℕ) (f : Cells) → Ensures (SameMail f) (set_prev o v f)
unfolding set_prev
set_prev-SameMail none v f = λ q. refl
set_prev-SameMail (some p) v f =
    found (SameMail f) (f p) _ λ r e. update-SameMail f p r (record r { prev = v }) e refl

set_next-SameMail : (p : ℕ) (v : Option ℕ) (f : Cells) → Ensures (SameMail f) (set_next p v f)
unfolding set_next
set_next-SameMail p v f =
    found (SameMail f) (f p) _ λ r e. update-SameMail f p r (record r { next = v }) e refl

abbrev SameMail₀ : Cells → Cells × Option ℕ → Type 0
SameMail₀ f t = SameMail f t.0

unlink_prev-SameMail :
    (p : ℕ) (r : Process) (f : Cells) (head : Option ℕ)
    → Ensures (SameMail₀ f) (unlink_prev p r f head)
unfolding unlink_prev
unlink_prev-SameMail p r f head = before r.prev
  where
    before :
        (o : Option ℕ)
        → Ensures {A = Cells × Option ℕ} (SameMail₀ f) (elim o [
          | some q ↦ set_next q r.next f >>= λ g. some (g, head)
          | none ↦ some (f, if is_head p head then r.next else head)
        ])
    before none = λ q. refl
    before (some q) =
        chain-Ensures (SameMail f) (SameMail₀ f) (set_next q r.next f) _
          (set_next-SameMail q r.next f) λ g e same. same

unlink-SameMail :
    (p : ℕ) (r : Process) (f : Cells) (head : Option ℕ) → Ensures (SameMail₀ f) (unlink p r f head)
unfolding unlink
unlink-SameMail p r f head =
    chain-Ensures (SameMail₀ f) (SameMail₀ f) (unlink_prev p r f head) _
      (unlink_prev-SameMail p r f head)
      λ t e same.
        chain-Ensures (SameMail t.0) (SameMail₀ f) (set_prev r.next r.prev t.0) _
          (set_prev-SameMail r.next r.prev t.0) λ g e' same' q. same' q ∙ same q

push-SameMail :
    (p : ℕ) (asleep : Bool) (f : Cells) (head : Option ℕ)
    → Ensures (SameMail f) (push p asleep f head)
unfolding push
push-SameMail p asleep f head = found (SameMail f) (f p) _ λ r e.
    let r' : Process = record r { prev = none; next = head; asleep = asleep } in
    moved r r' e (set_prev head (some p) (update f p (some r')))
      (set_prev-SameMail head (some p) (update f p (some r'))) refl
  where
    moved :
        (r r' : Process)
        → f p ≡ some r
        → (o : Option Cells) → Ensures (SameMail (update f p (some r'))) o
        → r'.msg_head ≡ r.msg_head
        → Ensures (SameMail f) o
    moved r r' e none same k = tt
    moved r r' e (some g) same k = λ q. same q ∙ update-SameMail f p r r' e k q

abbrev pub Keeps : Processes → Processes → Type 0
Keeps s s' = SameMail s.cell s'.cell × (s'.current_process ≡ s.current_process)

pub process_sleep-Keeps : (p : ℕ) (s : Processes) → Ensures (Keeps s) (process_sleep p s)
unfolding process_sleep
process_sleep-Keeps p s = found (Keeps s) (s.cell p) _ λ r e. elim (Bool-cases r.asleep) [
  | inl asleep ↦ rw asleep ((λ q. refl), refl)
  | inr awake ↦ rw awake (
      chain-Ensures (SameMail₀ s.cell) (Keeps s) (unlink p r s.cell s.run_head) _
        (unlink-SameMail p r s.cell s.run_head)
        λ t e₁ same.
          chain-Ensures (SameMail t.0) (Keeps s) (push p true t.0 s.wait_head) _
            (push-SameMail p true t.0 s.wait_head) λ f e₂ same'. ((λ q. same' q ∙ same q), refl))
]

pub process_awaken-Keeps : (p : ℕ) (s : Processes) → Ensures (Keeps s) (process_awaken p s)
unfolding process_awaken
process_awaken-Keeps p s = found (Keeps s) (s.cell p) _ λ r e. elim (Bool-cases r.asleep) [
  | inl asleep ↦ rw asleep (
      chain-Ensures (SameMail₀ s.cell) (Keeps s) (unlink p r s.cell s.wait_head) _
        (unlink-SameMail p r s.cell s.wait_head)
        λ t e₁ same.
          chain-Ensures (SameMail t.0) (Keeps s) (push p false t.0 s.run_head) _
            (push-SameMail p false t.0 s.run_head) λ f e₂ same'. ((λ q. same' q ∙ same q), refl))
  | inr awake ↦ rw awake ((λ q. refl), refl)
]
