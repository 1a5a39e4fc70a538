-- ===== src/NotScript/Device.antt =====
-- not-script/not-script.c: `setup_loop` and `process_blk_dev`.
pub mod Bounds
use qubes_linux_utils.Prelude.{
  ℕ, zero, suc, ◌+◌, bit_and, Bool, true, false, not, ◌&&◌, ◌||◌, List, [], ◌∷◌, ◌++◌, Bytes,
  length, drop, ◌==◌, if◌then◌else◌,
}
use qubes_linux_utils.NotScript.Process.{
  Call, open_lock, lock_file, open_control, get_free, add_loop, open_loop, configure_loop,
  open_dm_name, read_bytes, file_status, get_diskseq, close_file, replace_file, Status, Result, ok,
  failed, Reply, M, ◌>>=◌, ◌>>◌, return, require, or_die, done, dies, aborts,
}

-- Error numbers of Linux.
abbrev pub enoent : ℕ
enoent = 2

abbrev pub enxio : ℕ
enxio = 6

abbrev pub eagain : ℕ
eagain = 11

abbrev pub ebusy : ℕ
ebusy = 16

abbrev pub retry_limit : ℕ
retry_limit = 5

-- The errors after which another loop device is tried.
abbrev pub may_reopen : ℕ → Bool
may_reopen errno = errno == eagain || errno == ebusy || errno == enxio || errno == enoent

abbrev pub may_reconfigure : ℕ → Bool
may_reconfigure errno = errno == ebusy || errno == enxio

-- `strncmp(prefix, s, ...) == 0` and `strcmp`
unfoldable pub starts_with : Bytes → Bytes → Bool
starts_with [] s = true
starts_with (p ∷ ps) [] = false
starts_with (p ∷ ps) (c ∷ cs) = p == c && starts_with ps cs

unfoldable pub same_bytes : Bytes → Bytes → Bool
same_bytes [] [] = true
same_bytes [] (d ∷ ds) = false
same_bytes (c ∷ cs) [] = false
same_bytes (c ∷ cs) (d ∷ ds) = c == d && same_bytes cs ds

unfoldable pub has_byte : ℕ → Bytes → Bool
has_byte b [] = false
has_byte b (c ∷ cs) = c == b || has_byte b cs

-- "/dev/mapper/"
abbrev pub dev_mapper : Bytes
dev_mapper = b'/' ∷ b'd' ∷ b'e' ∷ b'v' ∷ b'/' ∷ b'm' ∷ b'a' ∷ b'p' ∷ b'p' ∷ b'e' ∷ b'r' ∷ b'/' ∷ []

-- "control"
abbrev pub dm_control_node : Bytes
dm_control_node = b'c' ∷ b'o' ∷ b'n' ∷ b't' ∷ b'r' ∷ b'o' ∷ b'l' ∷ []

unfoldable pub forbidden_name : Bytes → Bool
unfolding same_bytes has_byte
forbidden_name name =
    same_bytes name dm_control_node
    || same_bytes name (b'.' ∷ [])
    || same_bytes name (b'.' ∷ b'.' ∷ [])
    || has_byte b'/' name

abbrev pub is_blk : ℕ → Bool
is_blk mode = bit_and mode 0o170000 == 0o060000

abbrev pub is_reg : ℕ → Bool
is_reg mode = bit_and mode 0o170000 == 0o100000

-- `if (close(dev_file)) abort();`
abbrev pub or_abort : Result ℕ → M (Unit {0})
or_abort (ok n) s = done tt s
or_abort (failed errno) s = aborts s

module _ (system : List Call → (c : Call) → Reply c) where
  unfoldable pub ask : (c : Call) → M (Reply c)
  ask c s = done (system s c) (c ∷ s)

  -- What LOOP_CONFIGURE leaves; `last` is `retry_count >= retry_limit`, and `next` the next round. Any
  -- other result than 0 and -1 is for `abort`.
  unfoldable pub after_configure : ℕ → ℕ → Bool → Result ℕ → M ℕ → M ℕ
  unfolding ask
  after_configure lock device last (ok zero) next = do _ ← ask (close_file lock); return device
  after_configure lock device last (ok (suc n)) next = aborts
  after_configure lock device last (failed errno) next =
      let again = (ask (close_file device) >>= or_abort) >> next in
      if not (may_reconfigure errno) || last then dies else again

  -- What the opening of /dev/loopN leaves.
  unfoldable pub after_open : ℕ → ℕ → Bool → Bool → Bool → Result ℕ → M ℕ → M ℕ
  unfolding ask after_configure
  after_open lock fd writable autoclear last (failed errno) next =
      if not (may_reopen errno) || last then dies else next
  after_open lock fd writable autoclear last (ok device) next = do
    configured ← ask (configure_loop device fd writable autoclear)
    after_configure lock device last configured next

  -- One round: LOOP_CTL_GET_FREE the first time, LOOP_CTL_ADD later.
  unfoldable pub loop_round : ℕ → ℕ → ℕ → Bool → Bool → Bool → Bool → M ℕ → M ℕ
  unfolding ask after_open
  loop_round ctrl lock fd writable autoclear first last next = do
    number ← (if first then ask (get_free ctrl) else ask (add_loop ctrl)) >>= or_die
    device ← ask (open_loop number writable)
    after_open lock fd writable autoclear last device next

  -- The rounds, with `retry_limit - retry_count`; in the last one, an error ends the program.
  unfoldable pub loop_rounds : ℕ → ℕ → ℕ → ℕ → Bool → Bool → Bool → M ℕ
  unfolding loop_round
  loop_rounds zero ctrl lock fd writable autoclear first =
      loop_round ctrl lock fd writable autoclear first true dies
  loop_rounds (suc left) ctrl lock fd writable autoclear first =
      loop_round ctrl lock fd writable autoclear first false
        (loop_rounds left ctrl lock fd writable autoclear false)

  -- The lock is held until a device is set up.
  unfoldable pub setup_loop : ℕ → ℕ → Bool → Bool → M ℕ
  unfolding ask loop_rounds
  setup_loop ctrl fd writable autoclear = do
    lock ← ask open_lock >>= or_die
    _ ← ask (lock_file lock) >>= or_die
    loop_rounds retry_limit ctrl lock fd writable autoclear true

  -- The name of a device-mapper device must be the one that the kernel gives.
  unfoldable pub check_mapper : Bytes → Status → M (Unit {0})
  unfolding ask forbidden_name same_bytes
  check_mapper name st = do
    require (not (forbidden_name name))
    sysfs ← ask (open_dm_name st.major st.minor) >>= or_die
    bytes ← ask (read_bytes sysfs (length name + 2)) >>= or_die
    require (same_bytes bytes (name ++ (b'\n' ∷ [])))
    _ ← ask (close_file sysfs) >>= or_die
    return tt

  -- A regular file gets a loop device, which takes the place of its descriptor.
  unfoldable pub attach_loop : ℕ → Bool → Bool → M Status
  unfolding ask setup_loop
  attach_loop fd writable autoclear = do
    ctrl ← ask open_control >>= or_die
    device ← setup_loop ctrl fd writable autoclear
    _ ← ask (replace_file device fd) >>= or_die
    _ ← ask (close_file device) >>= or_die
    _ ← ask (close_file ctrl) >>= or_die
    ask (file_status fd) >>= or_die

  unfoldable pub device_status : ℕ → Bytes → Bool → Bool → Status → M Status
  unfolding check_mapper attach_loop starts_with
  device_status fd path writable autoclear st =
      if is_blk st.st_mode
      then (if starts_with dev_mapper path
          then check_mapper (drop 12 path) st >> return st
          else return st)
      else if is_reg st.st_mode
      then attach_loop fd writable autoclear
      else dies

  -- The device's number and its `diskseq`.
  unfoldable pub process_blk_dev : ℕ → Bytes → Bool → Bool → M (Status × ℕ)
  unfolding ask device_status
  process_blk_dev fd path writable autoclear = do
    st ← ask (file_status fd) >>= or_die
    device ← device_status fd path writable autoclear st
    seq ← ask (get_diskseq fd) >>= or_die
    return (device, seq)
