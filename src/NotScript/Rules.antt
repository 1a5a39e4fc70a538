-- ===== src/NotScript/Rules.antt =====
-- Reasoning about runs of not-script: a condition on the calls wherever a run ends, and one on the
-- result where it returns.
use qubes_linux_utils.Prelude.{
  ◌≡◌, refl, Bool, true, false, Option, none, some, List, if◌then◌else◌,
}
use qubes_linux_utils.NotScript.Process.{
  Call, Result, ok, failed, Outcome, done, dies, aborts, out_of_fuel, M, after, require, or_die,
}
use qubes_linux_utils.NotScript.Remove.{or_bad}

abbrev pub Ends :
    {A : Type 0} → (List Call → Type 0) → (A → List Call → Type 0) → Outcome A → Type 0
Ends I Q (done a s) = I s × Q a s
Ends I Q (dies s) = I s
Ends I Q (aborts s) = I s
Ends I Q (out_of_fuel s) = I s

module _ {A B : Type 0} (I : List Call → Type 0) (Q : B → List Call → Type 0) where
  pub Ends-after :
      (P : A → List Call → Type 0) (o : Outcome A) (f : A → M B)
      → Ends I P o
      → ((a : A) (s : List Call) → I s → P a s → Ends I Q (f a s))
      → Ends I Q (after o f)
  Ends-after P (done a s) f h k = k a s h.0 h.1
  Ends-after P (dies s) f h k = h
  Ends-after P (aborts s) f h k = h
  Ends-after P (out_of_fuel s) f h k = h

  -- A call that must succeed.
  pub Ends-or_die :
      (r : Result A) (s : List Call) (f : A → M B)
      → I s
      → ((a : A) → r ≡ ok a → Ends I Q (f a s))
      → Ends I Q (after (or_die r s) f)
  Ends-or_die (ok a) s f h k = k a refl
  Ends-or_die (failed errno) s f h k = h

  -- A value that must be well formed.
  pub Ends-or_bad :
      (o : Option A) (s : List Call) (f : A → M B)
      → I s
      → ((a : A) → o ≡ some a → Ends I Q (f a s))
      → Ends I Q (after (or_bad o s) f)
  Ends-or_bad none s f h k = h
  Ends-or_bad (some a) s f h k = k a refl

module _ {B : Type 0} (I : List Call → Type 0) (Q : B → List Call → Type 0) where
  pub Ends-require :
      (b : Bool) (s : List Call) (f : Unit {0} → M B)
      → I s
      → (b ≡ true → Ends I Q (f tt s))
      → Ends I Q (after (require b s) f)
  Ends-require true s f h k = k refl
  Ends-require false s f h k = h

  pub Ends-if :
      (b : Bool) (m k : M B) (s : List Call)
      → (b ≡ true → Ends I Q (m s))
      → (b ≡ false → Ends I Q (k s))
      → Ends I Q ((if b then m else k) s)
  Ends-if true m k s p q = p refl
  Ends-if false m k s p q = q refl

  pub Ends-weaken :
      (P : B → List Call → Type 0) (o : Outcome B)
      → Ends I P o
      → ((b : B) (s : List Call) → P b s → Q b s)
      → Ends I Q o
  Ends-weaken P (done b s) h k = (h.0, k b s h.1)
  Ends-weaken P (dies s) h k = h
  Ends-weaken P (aborts s) h k = h
  Ends-weaken P (out_of_fuel s) h k = h
