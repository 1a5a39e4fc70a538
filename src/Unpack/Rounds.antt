-- ===== src/Unpack/Rounds.antt =====
-- What runs of qrexec-lib/unpack.c leave of the calls of `read` that are to come.
pub mod Entries
pub mod Enough
use qubes_linux_utils.Prelude.{
  ℕ, zero, suc, ◌+◌, ◌-◌, ◌≤◌, ◌<◌, ◌≡◌, refl, Bool, true, false, inl, inr, Option, none, some,
  List, [], ◌∷◌, ◌++◌, Bytes, length, ◌==◌, ltb, Bool-cases, if◌then◌else◌, arith,
}
use qubes_linux_utils.Prelude.Int.{ℤ}
use qubes_linux_utils.IoAll.{
  Read, got, read_failed, Write, eintr, ReadAll, read_done, read_error, read_waiting, read_overrun,
  read_all, WriteAll, write_done, write_error, write_waiting, write_overrun, write_all,
}
use qubes_linux_utils.IoAll.Progress.{Fewer, Fewer-more, read_all-Fewer}
use qubes_linux_utils.CopyFile.{
  CopyFile, copied, copy_waiting, copy_overrun, count_for, accumulate, after_write, copy_loop,
  copy_file,
}
use qubes_linux_utils.Unpack.Process.{
  State, Outcome, done, exits, dies, aborts, faults, blocks, overruns, M, after, ◌>>=◌, ◌>>◌,
  return, require, with_crc, read_all_with_crc,
}

-- A run that returns has left at most this many calls.
abbrev pub Leaves : {A : Type 0} → ℕ → Outcome A → Type 0
Leaves n (done a s) = length s.reads ≤ n
Leaves n (exits code name s) = Unit
Leaves n (dies s) = Unit
Leaves n (aborts s) = Unit
Leaves n (faults s) = Unit
Leaves n (blocks s) = Unit
Leaves n (overruns s) = Unit

-- No call is ever given back.
abbrev pub Uses : {A : Type 0} → M A → Type 0
Uses m = (s : State) → Leaves (length s.reads) (m s)

pub Leaves-after :
    {A B : Type 0} (n : ℕ) (o : Outcome A) (f : A → M B)
    → Leaves n o
    → ((a : A) (s : State) → length s.reads ≤ n → Leaves n (f a s))
    → Leaves n (after o f)
Leaves-after n (done a s) f h k = k a s h
Leaves-after n (exits code name s) f h k = tt
Leaves-after n (dies s) f h k = tt
Leaves-after n (aborts s) f h k = tt
Leaves-after n (faults s) f h k = tt
Leaves-after n (blocks s) f h k = tt
Leaves-after n (overruns s) f h k = tt

pub Leaves-more : {A : Type 0} (m n : ℕ) (o : Outcome A) → m ≤ n → Leaves m o → Leaves n o
Leaves-more m n (done a s) h k = omega arith
Leaves-more m n (exits code name s) h k = tt
Leaves-more m n (dies s) h k = tt
Leaves-more m n (aborts s) h k = tt
Leaves-more m n (faults s) h k = tt
Leaves-more m n (blocks s) h k = tt
Leaves-more m n (overruns s) h k = tt

pub Uses-bind :
    {A B : Type 0} (m : M A) (f : A → M B) → Uses m → ((a : A) → Uses (f a)) → Uses (m >>= f)
Uses-bind m f p q s =
    Leaves-after (length s.reads) (m s) f (p s)
      (λ a t h. Leaves-more (length t.reads) (length s.reads) (f a t) h (q a t))

pub Uses-then : {B : Type 0} (m : M (Unit {0})) (k : M B) → Uses m → Uses k → Uses (m >> k)
Uses-then m k p q = Uses-bind m (λ _. k) p (λ _. q)

pub Uses-return : {A : Type 0} (a : A) → Uses (return a)
Uses-return a s = omega arith

pub Uses-if : {A : Type 0} (b : Bool) (m k : M A) → Uses m → Uses k → Uses (if b then m else k)
Uses-if true m k p q = p
Uses-if false m k p q = q

pub Uses-require : (b : Bool) (code : ℤ) (name : Option Bytes) → Uses (require b code name)
Uses-require true code name s = omega arith
Uses-require false code name s = tt

with_crc-Leaves : (n : ℕ) (r : ReadAll) (s : State) → Fewer (suc n) r → Leaves n (with_crc r s)
unfolding with_crc
with_crc-Leaves n (read_done bytes reads) s h = omega arith
with_crc-Leaves n (read_error errno reads) s h = omega arith
with_crc-Leaves n read_waiting s h = tt
with_crc-Leaves n read_overrun s h = tt

pub read_all_with_crc-Uses : (size : ℕ) → Uses (read_all_with_crc size)
unfolding read_all_with_crc read_all
read_all_with_crc-Uses zero s =
    with_crc-Leaves (length s.reads) (read_done [] s.reads) s (omega arith)
read_all_with_crc-Uses (suc size) s =
    with_crc-Leaves (length s.reads) (read_all (suc size) s.reads) s (
      Fewer-more (length s.reads) (suc (length s.reads)) _ (omega arith)
        (read_all-Fewer size s.reads))

-- A run that returns has left fewer calls than this.
abbrev pub Drops : {A : Type 0} → ℕ → Outcome A → Type 0
Drops n (done a s) = length s.reads < n
Drops n (exits code name s) = Unit
Drops n (dies s) = Unit
Drops n (aborts s) = Unit
Drops n (faults s) = Unit
Drops n (blocks s) = Unit
Drops n (overruns s) = Unit

with_crc-Drops : (n : ℕ) (r : ReadAll) (s : State) → Fewer n r → Drops n (with_crc r s)
unfolding with_crc
with_crc-Drops n (read_done bytes reads) s h = omega arith
with_crc-Drops n (read_error errno reads) s h = omega arith
with_crc-Drops n read_waiting s h = tt
with_crc-Drops n read_overrun s h = tt

-- A read of some bytes uses a call.
pub read_all_with_crc-Drops :
    (size : ℕ) (s : State) → Drops (length s.reads) (read_all_with_crc (suc size) s)
unfolding read_all_with_crc
read_all_with_crc-Drops size s =
    with_crc-Drops (length s.reads) (read_all (suc size) s.reads) s (read_all-Fewer size s.reads)
