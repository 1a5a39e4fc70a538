-- ===== src/IoAll.antt =====
-- qrexec-lib/ioall.c: `write_all` and `read_all`. What successive calls of `read` and
-- `write` return is given as a list of events, in order; a function that needs one more event is
-- blocked in its call, `waiting`. Each loop makes one call for each event.
pub mod Laws
pub mod Progress
pub mod CopyAll
pub mod Parts
use qubes_linux_utils.Prelude.{
  ℕ, zero, suc, ◌+◌, ◌-◌, Bool, true, false, Option, none, some, List, [], ◌∷◌, ◌++◌, Bytes, length,
  take, drop, ◌==◌, ltb, if◌then◌else◌,
}

-- What `read` returns: some bytes, none of them at the end of the file, or -1 with `errno`.
pub data Read : Type 0 where
  got : Bytes → Read
  read_failed : ℕ → Read

-- What `write` returns: a count, or -1 with `errno`.
pub data Write : Type 0 where
  wrote : ℕ → Write
  write_failed : ℕ → Write

abbrev pub eintr : ℕ
eintr = 4

-- What `read_all` leaves: 1 with the bytes in the buffer, 0 with `errno`, the events that are left
-- over in both; blocked in `read`; or a `read` that returned more than it was asked for.
pub data ReadAll : Type 0 where
  read_done : Bytes → List Read → ReadAll
  read_error : ℕ → List Read → ReadAll
  read_waiting read_overrun : ReadAll

-- The loop, with the bytes got so far and the number that is still wanted, which is not 0.
-- EOF sets `errno` to 0.
pub read_loop : Bytes → ℕ → List Read → ReadAll
read_loop buf left [] = read_waiting
read_loop buf left (read_failed errno ∷ events) =
    let again = read_loop buf left events in
    if errno == eintr then again else read_error errno events
read_loop buf left (got [] ∷ events) = read_error 0 events
read_loop buf left (got (b ∷ bs) ∷ events) =
    let more = read_loop (buf ++ b ∷ bs) (left - length (b ∷ bs)) events in
    if ltb left (length (b ∷ bs))
    then read_overrun
    else if left == length (b ∷ bs)
    then read_done (buf ++ b ∷ bs) events
    else more

unfoldable pub read_all : ℕ → List Read → ReadAll
unfolding read_loop
read_all zero events = read_done [] events
read_all (suc n) events = read_loop [] (suc n) events

-- What `write_all` leaves: 1 with what the calls have written, or 0 with that and with the `errno` of
-- the last call, none if that call wrote nothing and failed not; or blocked in `write`.
pub data WriteAll : Type 0 where
  write_done : Bytes → List Write → WriteAll
  write_error : Option ℕ → Bytes → List Write → WriteAll
  write_waiting write_overrun : WriteAll

-- The loop, with what is written so far and what is left to write, which is not empty.
pub write_loop : Bytes → Bytes → List Write → WriteAll
write_loop written left [] = write_waiting
write_loop written left (write_failed errno ∷ events) =
    let again = write_loop written left events in
    if errno == eintr then again else write_error (some errno) written events
write_loop written left (wrote zero ∷ events) = write_error none written events
write_loop written left (wrote (suc k) ∷ events) =
    let more = write_loop (written ++ take (suc k) left) (drop (suc k) left) events in
    if ltb (length left) (suc k)
    then write_overrun
    else if length left == suc k
    then write_done (written ++ take (suc k) left) events
    else more

unfoldable pub write_all : Bytes → List Write → WriteAll
unfolding write_loop
write_all [] events = write_done [] events
write_all (b ∷ bs) events = write_loop [] (b ∷ bs) events
