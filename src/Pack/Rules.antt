-- ===== src/Pack/Rules.antt =====
-- Reasoning about runs of the sender: conditions on a run that returns, on the message of one that
-- reports an error, and on one that exits. The last two look at the state there too.
use qubes_linux_utils.Pack.Process.{
  State, Message, Outcome, done, reports, exits, blocks, overruns, M, after,
}

abbrev pub Ends :
    {A : Type 0}
    → (A → State → Type 0)
    → (Message → State → Type 0)
    → (State → Type 0)
    → Outcome A
    → Type 0
Ends Returns Reports Exits (done a s) = Returns a s
Ends Returns Reports Exits (reports message s) = Reports message s
Ends Returns Reports Exits (exits s) = Exits s
Ends Returns Reports Exits (blocks s) = Unit {0}
Ends Returns Reports Exits (overruns s) = Unit {0}

pub Ends-after :
    {A B : Type 0} (First : A → State → Type 0) (Returns : B → State → Type 0)
    (Reports : Message → State → Type 0) (Exits : State → Type 0) (o : Outcome A) (f : A → M B)
    → Ends First Reports Exits o
    → ((a : A) (s : State) → First a s → Ends Returns Reports Exits (f a s))
    → Ends Returns Reports Exits (after o f)
Ends-after First Returns Reports Exits (done a s) f h k = k a s h
Ends-after First Returns Reports Exits (reports message s) f h k = h
Ends-after First Returns Reports Exits (exits s) f h k = h
Ends-after First Returns Reports Exits (blocks s) f h k = tt
Ends-after First Returns Reports Exits (overruns s) f h k = tt

-- No condition.
abbrev pub Any : Message → State → Type 0
Any message s = Unit {0}

abbrev pub Anywhere : State → Type 0
Anywhere s = Unit {0}

-- A condition on what is returned follows from a stronger one, whatever is known of the other ends.
pub Ends-weaken :
    {A : Type 0} (First Returns : A → State → Type 0) (Reports : Message → State → Type 0)
    (Exits : State → Type 0) (o : Outcome A)
    → Ends First Reports Exits o
    → ((a : A) (s : State) → First a s → Returns a s)
    → Ends Returns Any Anywhere o
Ends-weaken First Returns Reports Exits (done a s) h k = k a s h
Ends-weaken First Returns Reports Exits (reports message s) h k = tt
Ends-weaken First Returns Reports Exits (exits s) h k = tt
Ends-weaken First Returns Reports Exits (blocks s) h k = tt
Ends-weaken First Returns Reports Exits (overruns s) h k = tt
