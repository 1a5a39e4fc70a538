-- ===== src/Unpack/Process.antt =====
-- The process that qrexec-lib/unpack.c runs in: its static variables, the kernel it calls, and the
-- ways a call can end. What the kernel answers is a parameter, a function of all calls made so far.
use qubes_linux_utils.Prelude.{
  ℕ, Bool, true, false, Option, none, some, List, [], ◌∷◌, Bytes, ◌==◌, if◌then◌else◌,
}
use qubes_linux_utils.Prelude.Int.{ℤ, pos}
use qubes_linux_utils.IoAll.{
  Read, Write, ReadAll, read_done, read_error, read_waiting, read_overrun, read_all,
}
use qubes_linux_utils.Crc32.{compute_buf}

-- A directory descriptor: AT_FDCWD, or one that was opened.
pub data Dir : Type 0 where
  cwd : Dir
  opened : ℕ → Dir

-- The system calls that name files or change them.
pub data Call : Type 0 where
  open_directory : Dir → Bytes → Call
  open_tmpfile : Dir → Call
  create_file : Dir → Bytes → Call
  make_directory : Dir → Bytes → Call
  reopen_directory : Dir → Bytes → Call
  file_status : ℕ → Call
  make_link : ℕ → Dir → Bytes → Call
  make_symlink : Bytes → Dir → Bytes → Call
  change_mode : ℕ → ℕ → Call
  change_times : ℕ → ℕ → ℕ → ℕ → ℕ → Call
  wait_for_space : ℕ → ℕ → Call
  sync_directory : Call

-- A result that is not negative, or -1 with `errno`.
pub data Answer : Type 0 where
  answered : ℕ → Answer
  failed : ℕ → Answer

-- The static variables that the loop changes, `errno`, what is still to come from the calls of `read`
-- and `write`, and the calls made, the latest first.
pub record State : Type 0 where
  pub total_bytes : ℕ
  pub total_files : ℕ
  pub crc32_sum : ℕ
  pub use_tmpfile : Bool
  pub namebuf : Bytes
  pub errno : ℕ
  pub reads : List Read
  pub writes : List Write
  pub history : List Call

-- What does not change: the limits, 0 for none, and the descriptor of /proc/PID/fd.
pub record Options : Type 0 where
  pub bytes_limit : ℕ
  pub files_limit : ℕ
  pub wait_for_space_margin : ℕ

-- A return; `do_exit` with its code and the name that it reports; `errx(1)`; `abort`; a read beyond
-- a string; a call of `read` or `write` that does not come back; and one that moved more bytes than
-- it was asked to.
pub data Outcome (A : Type 0) : Type 0 where
  done : A → State → Outcome A
  exits : ℤ → Option Bytes → State → Outcome A
  dies : State → Outcome A
  aborts : State → Outcome A
  faults : State → Outcome A
  blocks : State → Outcome A
  overruns : State → Outcome A

abbrev pub M : Type 0 → Type 0
M A = State → Outcome A

infixl 5 ◌>>=◌ ◌>>◌
abbrev pub after : {A B : Type 0} → Outcome A → (A → M B) → Outcome B
after (done a s) f = f a s
after (exits code name s) f = exits code name s
after (dies s) f = dies s
after (aborts s) f = aborts s
after (faults s) f = faults s
after (blocks s) f = blocks s
after (overruns s) f = overruns s

abbrev pub ◌>>=◌ : {A B : Type 0} → M A → (A → M B) → M B
◌>>=◌ m f s = after (m s) f

abbrev pub ◌>>◌ : {B : Type 0} → M (Unit {0}) → M B → M B
◌>>◌ m k s = after (m s) (λ _. k)

abbrev pub return : {A : Type 0} → A → M A
return a s = done a s

abbrev pub do_exit : {A : Type 0} → ℤ → Option Bytes → M A
do_exit code name s = exits code name s

-- `if (!ok) do_exit(code, name)`
abbrev pub require : Bool → ℤ → Option Bytes → M (Unit {0})
require true code name s = done tt s
require false code name s = exits code name s

-- The string at the start of a buffer that holds these bytes and a NUL behind them.
unfoldable pub c_string : Bytes → Bytes
c_string [] = []
c_string (c ∷ cs) = if c == 0 then [] else c ∷ c_string cs

-- What a call that must succeed gives: `do_exit(errno, name)` if it failed.
unfoldable pub or_exit : Bytes → Answer → M ℕ
or_exit name (answered n) = return n
or_exit name (failed errno) = do_exit (pos errno) (some name)

module _ (kernel : List Call → Call → Answer) where
  -- One system call.
  unfoldable pub call : Call → M Answer
  call c s = done (kernel s.history c) (record s { history = c ∷ s.history })

  unfoldable pub must : Call → Bytes → M ℕ
  unfolding call or_exit
  must c name = do answer ← call c; or_exit name answer

-- `read_all_with_crc(0, ...)`: true with the bytes, false with `errno`.
unfoldable pub with_crc : ReadAll → M (Option Bytes)
with_crc (read_done bytes reads) s =
    done (some bytes) (record s { reads = reads; crc32_sum = compute_buf s.crc32_sum bytes })
with_crc (read_error errno reads) s = done none (record s { reads = reads; errno = errno })
with_crc read_waiting s = blocks s
with_crc read_overrun s = overruns s

unfoldable pub read_all_with_crc : ℕ → M (Option Bytes)
unfolding with_crc
read_all_with_crc size s = with_crc (read_all size s.reads) s
