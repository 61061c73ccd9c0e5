-- ===== src/Vm/Queueing.antt =====
-- lib/process.c: the run list as it grows while a process runs.
use bhuna.Prelude.{ℕ, ◌≡◌, refl, sym, ap, List, [], ◌∷◌, ◌++◌, subst}
use bhuna.Process.{Processes}
use bhuna.Process.Queues.{IsQueues}

-- Whatever the lists were, the run list has only grown at its head.
abbrev pub Grows : Processes → Processes → Type 0
Grows ps ps' =
    (run wait : List ℕ)
    → IsQueues ps run wait
    → (more : List ℕ) × (wait' : List ℕ) × IsQueues ps' (more ++ run) wait'

pub Grows-refl : (ps ps' : Processes) → ps' ≡ ps → Grows ps ps'
Grows-refl ps ps' e run wait q = ([], wait, subst (λ s. IsQueues s run wait) (sym e) q)

pub append_assoc : (xs ys zs : List ℕ) → (xs ++ ys) ++ zs ≡ xs ++ (ys ++ zs)
append_assoc [] ys zs = refl
append_assoc (x ∷ xs) ys zs = ap (λ l. x ∷ l) (append_assoc xs ys zs)
