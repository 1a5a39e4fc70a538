-- ===== src/NotScript/Remove.antt =====
-- not-script/not-script.c: `remove_device`.

pub mod Order
use qubes_linux_utils.Prelude.{
  ℕ, Bool, not, ◌&&◌, ◌||◌, Option, none, some, List, Bytes, ◌==◌, if◌then◌else◌,
}
use qubes_linux_utils.NotScript.Hex.{parse_diskseq, parse_physical_device}
use qubes_linux_utils.NotScript.Process.{
  Key, physical_device, physical_device_path, diskseq, params, Call, xs_read, xs_rm, open_control,
  open_loop, clear_loop, file_status, get_diskseq, close_file, Status, Result, ok, failed, Reply, M,
  ◌>>=◌, ◌>>◌, return, require, or_die, done, dies,
}
use qubes_linux_utils.NotScript.Device.{ebusy, ask, same_bytes}

-- LOOP_MAJOR of linux/major.h
abbrev pub loop_major : ℕ
loop_major = 7

abbrev pub or_bad : {A : Type 0} → Option A → M A
or_bad none s = dies s
or_bad (some a) s = done a s

-- LOOP_CLR_FD may fail with EBUSY.
unfoldable pub or_busy : Result ℕ → M (Unit {0})
or_busy (ok n) = return tt
or_busy (failed errno) = require (errno == ebusy)

module _ (system : List Call → (c : Call) → Reply c) where
  -- A value that is read, removed, and only then looked at.
  unfoldable pub take_value : Key → M Bytes
  unfolding ask
  take_value key = do
    value ← ask system (xs_read key) >>= or_die
    _ ← ask system (xs_rm key) >>= or_die
    return value

  -- Behind the check that this program has made the loop device.
  unfoldable pub detach_loop : ℕ → ℕ → ℕ → M (Unit {0})
  unfolding ask or_busy
  detach_loop major minor expected = do
    control ← ask system open_control >>= or_die
    device ← ask system (open_loop minor Bool.false) >>= or_die
    st ← ask system (file_status device) >>= or_die
    require (st.major == major && st.minor == minor)
    actual ← ask system (get_diskseq device) >>= or_die
    require (expected == actual)
    cleared ← ask system (clear_loop device)
    or_busy cleared
    _ ← ask system (close_file device) >>= or_die
    _ ← ask system (close_file control) >>= or_die
    return tt

  -- "Check if the device was created by us": then the path differs from the parameters.
  unfoldable pub remove_loop : ℕ → ℕ → ℕ → M (Unit {0})
  unfolding ask detach_loop same_bytes
  remove_loop major minor expected = do
    path ← ask system (xs_read physical_device_path) >>= or_die
    given ← ask system (xs_read params) >>= or_die
    if same_bytes path given then return tt else detach_loop major minor expected

  unfoldable pub remove_device : M (Unit {0})
  unfolding take_value remove_loop
  remove_device = do
    physdev ← take_value physical_device
    (major, minor) ← or_bad (parse_physical_device physdev)
    diskseq_str ← take_value diskseq
    expected ← or_bad (parse_diskseq diskseq_str)
    if not (major == loop_major) then return tt else remove_loop major minor expected
