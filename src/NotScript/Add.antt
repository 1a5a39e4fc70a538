-- ===== src/NotScript/Add.antt =====
-- not-script/not-script.c: `get_opened`, and `main` for "add".
pub mod Published
use qubes_linux_utils.Prelude.{
  ℕ, zero, suc, ◌+◌, ◌/◌, ◌%◌, Bool, true, false, not, ◌&&◌, ◌||◌, Option, none, some, List, [],
  ◌∷◌, ◌++◌, Bytes, length, ◌==◌, ltb, if◌then◌else◌,
}
use qubes_linux_utils.NotScript.Hex.{print_hex, print_physical_device}
use qubes_linux_utils.NotScript.Process.{
  Key, physical_device, physical_device_path, diskseq, opened, params, mode, Call, xs_read,
  xs_watch, xs_write, transaction_start, transaction_end, xs_read_watch, open_path, Status, Result,
  ok, failed, Reply, M, ◌>>=◌, ◌>>◌, return, require, or_die, done, dies, aborts, out_of_fuel,
}
use qubes_linux_utils.NotScript.Device.{enoent, eagain, ask, same_bytes, has_byte, process_blk_dev}
use qubes_linux_utils.NotScript.Remove.{loop_major}

-- `%u`: 10 digits are enough for 32 bits.
unfoldable pub decimal_digits : ℕ → ℕ → Bytes
decimal_digits zero n = []
decimal_digits (suc fuel) n =
    let more = decimal_digits fuel (n / 10) in
    if ltb n 10 then (b'0' + n) ∷ [] else more ++ ((b'0' + n % 10) ∷ [])

-- "/dev/loop"
abbrev pub dev_loop : Bytes
dev_loop = b'/' ∷ b'd' ∷ b'e' ∷ b'v' ∷ b'/' ∷ b'l' ∷ b'o' ∷ b'o' ∷ b'p' ∷ []

-- An entry must be missing, or the character that is expected.
unfoldable pub check_opened : ℕ → Result Bytes → M Bool
unfolding same_bytes
check_opened expected (ok value) = do require (same_bytes value (expected ∷ [])); return true
check_opened expected (failed errno) = do require (errno == enoent); return false

-- "mode": a missing entry is read-only.
unfoldable pub check_mode : Result Bytes → M Bool
unfolding same_bytes
check_mode (failed errno) = do require (errno == enoent); return false
check_mode (ok rw) =
    if same_bytes rw (b'r' ∷ [])
    then return false
    else if same_bytes rw (b'w' ∷ [])
    then return true
    else dies

-- `data[0] != '/'`
unfoldable pub is_absolute : Bytes → Bool
is_absolute [] = false
is_absolute (c ∷ cs) = c == b'/'

-- `physdev_path`: a loop device has its own name.
unfoldable pub device_path : Bytes → Status → Bytes
unfolding decimal_digits
device_path path st =
    if st.major == loop_major then dev_loop ++ decimal_digits 10 st.minor else path

-- The end of a transaction: EAGAIN asks for one more.
unfoldable pub after_transaction : Result ℕ → M (Unit {0}) → M (Unit {0})
after_transaction (ok n) again = return tt
after_transaction (failed errno) again = if errno == eagain then again else dies

-- The value "1" ends the wait, "0" does not.
unfoldable pub after_opened : Bytes → M (Unit {0}) → M (Unit {0})
unfolding same_bytes
after_opened value again =
    if same_bytes value (b'1' ∷ [])
    then return tt
    else if same_bytes value (b'0' ∷ [])
    then again
    else dies

module _ (system : List Call → (c : Call) → Reply c) where
  unfoldable pub get_opened : ℕ → M Bool
  unfolding ask check_opened
  get_opened expected = do value ← ask system (xs_read opened); check_opened expected value

  -- The three values of one transaction.
  unfoldable pub write_values : Bytes → Bytes → Bytes → M (Unit {0})
  unfolding ask
  write_values phys_dev path seq = do
    _ ← ask system (xs_write physical_device phys_dev) >>= or_die
    _ ← ask system (xs_write physical_device_path path) >>= or_die
    _ ← ask system (xs_write diskseq seq) >>= or_die
    return tt

  -- The loop over transactions; the fuel is not part of the source.
  unfoldable pub publish : ℕ → Bytes → Bytes → Bytes → M (Unit {0})
  unfolding ask write_values after_transaction
  publish zero phys_dev path seq = out_of_fuel
  publish (suc fuel) phys_dev path seq = do
    _ ← ask system transaction_start >>= or_die
    write_values phys_dev path seq
    ended ← ask system transaction_end
    after_transaction ended (publish fuel phys_dev path seq)

  -- The loop over the triggers of the watch; the fuel is not part of the source.
  unfoldable pub wait_opened : ℕ → M (Unit {0})
  unfolding ask after_opened
  wait_opened zero = out_of_fuel
  wait_opened (suc fuel) = do
    _ ← ask system xs_read_watch >>= or_die
    value ← ask system (xs_read opened) >>= or_die
    after_opened value (wait_opened fuel)

  -- With `autoclear`.
  unfoldable pub when : Bool → M (Unit {0}) → M (Unit {0})
  when wanted step = if wanted then step else return tt

  unfoldable pub watch_opened : M (Unit {0})
  unfolding ask
  watch_opened = do _ ← ask system (xs_watch opened) >>= or_die; return tt

  -- Behind `process_blk_dev`: the buffers of 18, 17 and 20 bytes, and the two loops.
  unfoldable pub announce : ℕ → Bool → Bytes → Status → ℕ → M (Unit {0})
  unfolding publish wait_opened when watch_opened device_path print_hex print_physical_device
  announce fuel autoclear path st seq =
      let phys_dev = print_physical_device st.major st.minor in
      let hex_diskseq = print_hex seq in
      do
        require (not (ltb (length phys_dev) 3) && ltb (length phys_dev) 18)
        require (not (ltb (length hex_diskseq) 1) && ltb (length hex_diskseq) 17)
        when autoclear watch_opened
        publish fuel phys_dev (device_path path st) hex_diskseq
        when autoclear (wait_opened fuel)

  -- `main` for "add"; `experimental` says that QUBES_EXPERIMENTAL_XENSTORE_UAPI is set.
  unfoldable pub add_device : ℕ → Bool → M (Unit {0})
  unfolding ask get_opened check_mode is_absolute has_byte process_blk_dev announce
  add_device fuel experimental = do
    autoclear ← if experimental then get_opened b'0' else return false
    path ← ask system (xs_read params) >>= or_die
    require (not (has_byte 0 path))
    require (is_absolute path)
    rw ← ask system (xs_read mode)
    writable ← check_mode rw
    fd ← ask system (open_path path writable) >>= or_die
    (st, seq) ← process_blk_dev system fd path writable autoclear
    announce fuel autoclear path st seq
