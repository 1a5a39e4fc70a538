-- ===== src/Unpack/Rules.antt =====
-- Reasoning about runs of the receiver: a condition on the state wherever a run ends, and one on the
-- result where it returns. A run that meets it neither aborts nor reads beyond a string.
use qubes_linux_utils.Prelude.{◌≡◌, refl, Bool, true, false, Option, Bytes}
use qubes_linux_utils.Prelude.Int.{ℤ}
use qubes_linux_utils.Unpack.Process.{
  State, Outcome, done, exits, dies, aborts, faults, blocks, overruns, M, after, require,
}

abbrev pub Ends : {A : Type 0} → (State → Type 0) → (A → State → Type 0) → Outcome A → Type 0
Ends I Q (done a s) = I s × Q a s
Ends I Q (exits code name s) = I s
Ends I Q (dies s) = I s
Ends I Q (aborts s) = ⊥
Ends I Q (faults s) = ⊥
Ends I Q (blocks s) = I s
Ends I Q (overruns s) = I s

pub Ends-after :
    {A B : Type 0} (I : State → Type 0) (Q : A → State → Type 0) (P : B → State → Type 0)
    (o : Outcome A) (f : A → M B)
    → Ends I Q o
    → ((a : A) (s : State) → I s → Q a s → Ends I P (f a s))
    → Ends I P (after o f)
Ends-after I Q P (done a s) f h k = k a s h.0 h.1
Ends-after I Q P (exits code name s) f h k = h
Ends-after I Q P (dies s) f h k = h
Ends-after I Q P (aborts s) f h k = h
Ends-after I Q P (faults s) f h k = h
Ends-after I Q P (blocks s) f h k = h
Ends-after I Q P (overruns s) f h k = h

-- A check that passed.
pub Ends-require :
    (I : State → Type 0) (b : Bool) (code : ℤ) (name : Option Bytes) (s : State)
    → I s
    → Ends I (λ _ _. b ≡ true) (require b code name s)
Ends-require I true code name s h = (h, refl)
Ends-require I false code name s h = h
