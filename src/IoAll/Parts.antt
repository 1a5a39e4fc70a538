-- ===== src/IoAll/Parts.antt =====
-- The loops of qrexec-lib/ioall.c, wherever they end: `read_all` leaves the later calls of `read`, and
-- `write_all` has written the first bytes.
use qubes_linux_utils.Prelude.{
  suc, ◌-◌, ◌≡◌, refl, sym, ap, ◌∙◌, Bool, true, false, List, [], ◌∷◌, ◌++◌, append_assoc, Bytes,
  length, take, drop, take-append-drop, ◌==◌, ltb, if◌then◌else◌, ℕ, zero,
}
use qubes_linux_utils.IoAll.{
  Read, got, read_failed, eintr, ReadAll, read_done, read_error, read_waiting, read_overrun,
  read_loop, read_all, Write, wrote, write_failed, WriteAll, write_done, write_error, write_waiting,
  write_overrun, write_loop, write_all,
}

-- Some calls, and these behind them.
abbrev pub Behind : List Read → List Read → Type 0
Behind events rest = (past : List Read) × (events ≡ past ++ rest)

pub Behind-refl : (events : List Read) → Behind events events
Behind-refl events = ([], refl)

pub Behind-trans :
    (events mid rest : List Read) → Behind events mid → Behind mid rest → Behind events rest
Behind-trans events mid rest (p, e) (q, f) =
    (p ++ q, e ∙ ap (λ (r : List Read). p ++ r) f ∙ sym (append_assoc p q rest))

Behind-later : (e : Read) (events rest : List Read) → Behind events rest → Behind (e ∷ events) rest
Behind-later e events rest (p, f) = (e ∷ p, ap (λ (r : List Read). e ∷ r) f)

abbrev pub LeavesBehind : List Read → ReadAll → Type 0
LeavesBehind events (read_done bytes reads) = Behind events reads
LeavesBehind events (read_error errno reads) = Behind events reads
LeavesBehind events read_waiting = Unit
LeavesBehind events read_overrun = Unit

LeavesBehind-later :
    (e : Read) (events : List Read) (r : ReadAll)
    → LeavesBehind events r
    → LeavesBehind (e ∷ events) r
LeavesBehind-later e events (read_done bytes reads) h = Behind-later e events reads h
LeavesBehind-later e events (read_error errno reads) h = Behind-later e events reads h
LeavesBehind-later e events read_waiting h = tt
LeavesBehind-later e events read_overrun h = tt

LeavesBehind-if :
    (events : List Read) (b : Bool) (x y : ReadAll)
    → LeavesBehind events x
    → LeavesBehind events y
    → LeavesBehind events (if b then x else y)
LeavesBehind-if events true x y h k = h
LeavesBehind-if events false x y h k = k

read_loop-LeavesBehind :
    (buf : Bytes) (left : ℕ) (events : List Read) → LeavesBehind events (read_loop buf left events)
unfolding read_loop
read_loop-LeavesBehind buf left [] = tt
read_loop-LeavesBehind buf left (read_failed errno ∷ events) =
    LeavesBehind-if (read_failed errno ∷ events) (errno == eintr) (read_loop buf left events)
      (read_error errno events)
      (LeavesBehind-later (read_failed errno) events _ (read_loop-LeavesBehind buf left events))
      (Behind-later (read_failed errno) events events (Behind-refl events))
read_loop-LeavesBehind buf left (got [] ∷ events) =
    Behind-later (got []) events events (Behind-refl events)
read_loop-LeavesBehind buf left (got (b ∷ bs) ∷ events) =
    let here : Read = got (b ∷ bs) in
    LeavesBehind-if (here ∷ events) (ltb left (length (b ∷ bs))) read_overrun _ tt (
      LeavesBehind-if (here ∷ events) (left == length (b ∷ bs)) (read_done (buf ++ b ∷ bs) events) _
        (Behind-later here events events (Behind-refl events))
        (LeavesBehind-later here events _
          (read_loop-LeavesBehind (buf ++ b ∷ bs) (left - length (b ∷ bs)) events)))

pub read_all-LeavesBehind :
    (size : ℕ) (events : List Read) → LeavesBehind events (read_all size events)
unfolding read_all
read_all-LeavesBehind zero events = Behind-refl events
read_all-LeavesBehind (suc n) events = read_loop-LeavesBehind [] (suc n) events

-- The first bytes of these.
abbrev pub Begins : Bytes → Bytes → Type 0
Begins whole out = (rest : Bytes) × (whole ≡ out ++ rest)

abbrev pub WritesFirst : Bytes → WriteAll → Type 0
WritesFirst whole (write_done out writes) = Begins whole out
WritesFirst whole (write_error errno out writes) = Begins whole out
WritesFirst whole write_waiting = Unit
WritesFirst whole write_overrun = Unit

WritesFirst-if :
    (whole : Bytes) (b : Bool) (x y : WriteAll)
    → WritesFirst whole x
    → WritesFirst whole y
    → WritesFirst whole (if b then x else y)
WritesFirst-if whole true x y h k = h
WritesFirst-if whole false x y h k = k

-- One call writes a piece of what is left.
moved_piece :
    (written left : Bytes) (k : ℕ) → written ++ left ≡ (written ++ take k left) ++ drop k left
moved_piece written left k =
    ap (λ (r : Bytes). written ++ r) (sym (take-append-drop k left))
    ∙ sym (append_assoc written (take k left) (drop k left))

write_loop-WritesFirst :
    (whole written left : Bytes) (events : List Write)
    → whole ≡ written ++ left
    → WritesFirst whole (write_loop written left events)
unfolding write_loop
write_loop-WritesFirst whole written left [] h = tt
write_loop-WritesFirst whole written left (write_failed errno ∷ events) h =
    WritesFirst-if whole (errno == eintr) (write_loop written left events) _
      (write_loop-WritesFirst whole written left events h) (left, h)
write_loop-WritesFirst whole written left (wrote zero ∷ events) h = (left, h)
write_loop-WritesFirst whole written left (wrote (suc k) ∷ events) h =
    let piece = h ∙ moved_piece written left (suc k) in
    WritesFirst-if whole (ltb (length left) (suc k)) write_overrun _ tt (
      WritesFirst-if whole (length left == suc k) (write_done (written ++ take (suc k) left) events)
        _ (drop (suc k) left, piece)
        (write_loop-WritesFirst whole (written ++ take (suc k) left) (drop (suc k) left) events
          piece))

pub write_all-WritesFirst :
    (whole : Bytes) (events : List Write) → WritesFirst whole (write_all whole events)
unfolding write_all
write_all-WritesFirst [] events = ([], refl)
write_all-WritesFirst (b ∷ bs) events = write_loop-WritesFirst (b ∷ bs) [] (b ∷ bs) events refl
