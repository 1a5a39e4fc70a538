-- ===== src/Meminfo.antt =====
-- qmemman/meminfo-writer.c: the reading of the two files in `update`, the part of `parse` behind the
-- loop over the lines, and `send_to_qmemman`. The numbers of /proc/meminfo are not negative.
pub mod Steady
pub mod Reports
use qubes_linux_utils.Prelude.{
  ℕ, suc, ◌+◌, ◌-◌, ◌*◌, ◌/◌, Bool, true, false, not, ◌&&◌, ◌||◌, Option, none, some, List, [], ◌∷◌,
  ◌++◌, Bytes, ◌==◌, ltb, if◌then◌else◌,
}
use qubes_linux_utils.IoAll.{Read, got, read_failed}
use qubes_linux_utils.Unpack.Process.{c_string}
use qubes_linux_utils.NotScript.Device.{same_bytes}

-- What the loop of `update` ends with: the two buffers, and the events that are left over; `exit(1)` of
-- a `pread` that failed; or one more `pread` to come.
pub data Reading : Type 0 where
  stable : Bytes → Bytes → List Read → Reading
  exits waiting : Reading

-- Half a round, with the last reading of the domain's size; in the other half the two buffers for it
-- change places.
unfoldable pub stable_loop : Bytes → List Read → Reading
unfolding c_string same_bytes
stable_loop current [] = waiting
stable_loop current (read_failed errno ∷ events) = exits
stable_loop current (got info ∷ []) = waiting
stable_loop current (got info ∷ (read_failed errno ∷ events)) = exits
stable_loop current (got info ∷ (got next ∷ events)) =
    let again = stable_loop (c_string next) events in
    if same_bytes current (c_string next)
    then stable (c_string info) (c_string next) events
    else again

unfoldable pub read_stable : List Read → Reading
unfolding stable_loop
read_stable [] = waiting
read_stable (read_failed errno ∷ events) = exits
read_stable (got current ∷ events) = stable_loop (c_string current) events

-- The six numbers that `parse` looks for.
pub record Numbers : Type 0 where
  pub mem_total : ℕ
  pub mem_free : ℕ
  pub buffers : ℕ
  pub cached : ℕ
  pub swap_total : ℕ
  pub swap_free : ℕ

-- The static variables: the program's settings and what was used at the last report.
pub record State : Type 0 where
  pub prev_used_mem : ℕ
  pub prev_used_swap : ℕ

-- `struct UsedMem`, `none` for NULL.
pub record UsedMem : Type 0 where
  pub mem : Option ℕ
  pub swap : Option ℕ

-- `a - b` and its test for being at least 0.
abbrev pub minus : ℕ → ℕ → Option ℕ
minus a b = if ltb a b then none else some (a - b)

abbrev pub distance : ℕ → ℕ → ℕ
distance a b = if ltb a b then b - a else a - b

-- `MemTotal` is the domain's size, unless that is 0.
abbrev pub total_for : ℕ → Numbers → ℕ
total_for dom_total n = if dom_total == 0 then n.mem_total else dom_total

unfoldable pub used_mem : ℕ → Numbers → Option ℕ
used_mem dom_total n =
    minus (total_for dom_total n + n.swap_total) (n.buffers + n.cached + n.mem_free + n.swap_free)

unfoldable pub used_swap : Numbers → Option ℕ
used_swap n = minus n.swap_total n.swap_free

-- The change is large; or there was no report yet; or little memory is left and more is used, by half
-- as large a change.
unfoldable pub mem_changed : ℕ → ℕ → ℕ → ℕ → Bool
mem_changed threshold prev total used =
    ltb threshold (distance used prev)
    || prev == 0
    || (ltb prev used
        && ltb ((total + 12) / 13) (used / 10)
        && ltb (threshold / 2) (distance used prev))

unfoldable pub swap_changed : ℕ → ℕ → ℕ → Bool
swap_changed threshold prev used = ltb threshold (distance used prev) || prev == 0

unfoldable pub report_mem : ℕ → ℕ → ℕ → Option ℕ → Option ℕ
unfolding mem_changed
report_mem threshold prev total none = none
report_mem threshold prev total (some used) =
    if mem_changed threshold prev total used then some used else none

-- `prev_used_swap` is not set here.
unfoldable pub report_swap : ℕ → ℕ → Option ℕ → Option ℕ
unfolding swap_changed
report_swap threshold prev none = none
report_swap threshold prev (some used) =
    if swap_changed threshold prev used then some used else none

abbrev pub kept : Option ℕ → ℕ → ℕ
kept none prev = prev
kept (some used) prev = used

-- `parse` behind its loop, with one threshold for memory and swap, as `main` sets them.
unfoldable pub parse_numbers : ℕ → ℕ → Numbers → State → UsedMem × State
unfolding report_mem report_swap used_mem used_swap
parse_numbers threshold dom_total n s =
    let mem = report_mem threshold s.prev_used_mem (total_for dom_total n) (used_mem dom_total n) in
    (
      record { mem = mem; swap = report_swap threshold s.prev_used_swap (used_swap n) },
      record s { prev_used_mem = kept mem s.prev_used_mem },
    )

-- The two keys in XenStore, `none` before the first write.
pub record Store : Type 0 where
  pub meminfo : Option ℕ
  pub swapinfo : Option ℕ

abbrev pub or_old : Option ℕ → Option ℕ → Option ℕ
or_old none old = old
or_old (some new) old = some new

-- The writes succeed; a failed one ends the program.
unfoldable pub send_to_qmemman : UsedMem → Store → Store
send_to_qmemman used store = record {
  meminfo = or_old used.mem store.meminfo;
  swapinfo = or_old used.swap store.swapinfo;
}

-- One `update` behind its readings.
unfoldable pub update : ℕ → ℕ × Numbers → State × Store → State × Store
unfolding parse_numbers send_to_qmemman
update threshold (dom_total, n) (s, store) =
    let (used, s') = parse_numbers threshold dom_total n s in (s', send_to_qmemman used store)

-- The loop of `main`, for any number of rounds.
unfoldable pub updates : ℕ → List (ℕ × Numbers) → State × Store → State × Store
unfolding update
updates threshold [] state = state
updates threshold (reading ∷ readings) state =
    updates threshold readings (update threshold reading state)

abbrev pub initial : State × Store
initial =
    (record { prev_used_mem = 0; prev_used_swap = 0 }, record { meminfo = none; swapinfo = none })
