-- ===== src/IoAll/Progress.antt =====
-- How many of the calls of `read` the loop of qrexec-lib/ioall.c uses.
use qubes_linux_utils.Prelude.{
  ℕ, suc, ◌-◌, ◌≤◌, ◌<◌, Bool, true, false, List, [], ◌∷◌, ◌++◌, Bytes, length, ◌==◌, ltb,
  if◌then◌else◌, arith,
}
use qubes_linux_utils.IoAll.{
  Read, got, read_failed, eintr, ReadAll, read_done, read_error, read_waiting, read_overrun,
  read_loop, read_all,
}

-- A read that returns has used at least one call.
abbrev pub Fewer : ℕ → ReadAll → Type 0
Fewer n (read_done bytes reads) = length reads < n
Fewer n (read_error errno reads) = length reads < n
Fewer n read_waiting = Unit
Fewer n read_overrun = Unit

pub Fewer-more : (m n : ℕ) (r : ReadAll) → m ≤ n → Fewer m r → Fewer n r
Fewer-more m n (read_done bytes reads) h k = omega arith
Fewer-more m n (read_error errno reads) h k = omega arith
Fewer-more m n read_waiting h k = tt
Fewer-more m n read_overrun h k = tt

Fewer-if : (n : ℕ) (b : Bool) (x y : ReadAll) → Fewer n x → Fewer n y → Fewer n (if b then x else y)
Fewer-if n true x y h k = h
Fewer-if n false x y h k = k

read_loop-Fewer :
    (buf : Bytes) (left : ℕ) (events : List Read)
    → Fewer (length events) (read_loop buf left events)
unfolding read_loop
read_loop-Fewer buf left [] = tt
read_loop-Fewer buf left (read_failed errno ∷ events) =
    let n = length events in
    let again = Fewer-more n (suc n) _ (omega arith) (read_loop-Fewer buf left events) in
    Fewer-if (suc n) (errno == eintr) (read_loop buf left events) (read_error errno events) again
      (omega arith)
read_loop-Fewer buf left (got [] ∷ events) = omega arith
read_loop-Fewer buf left (got (b ∷ bs) ∷ events) =
    let n = length events in
    let more =
      Fewer-more n (suc n) _ (omega arith)
        (read_loop-Fewer (buf ++ b ∷ bs) (left - length (b ∷ bs)) events) in
    Fewer-if (suc n) (ltb left (length (b ∷ bs))) read_overrun _ tt (
      Fewer-if (suc n) (left == length (b ∷ bs)) (read_done (buf ++ b ∷ bs) events) _ (omega arith)
        more)

pub read_all-Fewer :
    (size : ℕ) (events : List Read) → Fewer (length events) (read_all (suc size) events)
unfolding read_all
read_all-Fewer size events = read_loop-Fewer [] (suc size) events
