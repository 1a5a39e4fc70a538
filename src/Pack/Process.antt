-- ===== src/Pack/Process.antt =====
-- The process that qrexec-lib/pack.c runs in: its static variables, the calls on its standard input
-- and output, and the ways a call can end.
use qubes_linux_utils.Prelude.{
  ℕ, Bool, true, false, not, ◌&&◌, ◌||◌, List, [], ◌∷◌, ◌++◌, Bytes, ◌==◌, if◌then◌else◌,
}
use qubes_linux_utils.IoAll.{
  Read, got, read_failed, eintr, Write, ReadAll, read_done, read_error, read_waiting, read_overrun,
  read_all, WriteAll, write_done, write_error, write_waiting, write_overrun, write_all,
}
use qubes_linux_utils.Crc32.{compute_buf}
use qubes_linux_utils.CopyFile.{CopyStatus}

-- `crc32_sum` and `ignore_quota_error`, whether standard input blocks, what is still to come from the
-- calls on it and on standard output, and what has been written there.
pub record State : Type 0 where
  pub crc32_sum : ℕ
  pub ignore_quota_error : Bool
  pub blocking : Bool
  pub reads : List Read
  pub writes : List Write
  pub sent : Bytes

-- What `call_error_handler` is called with: one for each format. The Boolean is the prefix
-- "; Last file: ", which is empty if the receiver named no file.
pub data Message : Type 0 where
  already_exists forbidden_character unverified_link : Bytes → Message
  corrupted_data : Bool → Bytes → Message
  copy_failed : ℕ → Bool → Bytes → Message
  checksum_mismatch : Message
  cannot_open cannot_read_link cannot_stat cannot_open_directory : Bytes → Message
  cannot_copy : Bytes → CopyStatus → Message

-- A return; `call_error_handler`, which exits with 1; `exit(1)` with nothing said; a call that does not
-- come back; and one that moved more bytes than it was asked to.
pub data Outcome (A : Type 0) : Type 0 where
  done : A → State → Outcome A
  reports : Message → State → Outcome A
  exits : State → Outcome A
  blocks : State → Outcome A
  overruns : State → Outcome A

abbrev pub M : Type 0 → Type 0
M A = State → Outcome A

infixl 5 ◌>>=◌ ◌>>◌
abbrev pub after : {A B : Type 0} → Outcome A → (A → M B) → Outcome B
after (done a s) f = f a s
after (reports message s) f = reports message s
after (exits s) f = exits s
after (blocks s) f = blocks s
after (overruns s) f = overruns s

abbrev pub ◌>>=◌ : {A B : Type 0} → M A → (A → M B) → M B
◌>>=◌ m f s = after (m s) f

abbrev pub ◌>>◌ : {B : Type 0} → M (Unit {0}) → M B → M B
◌>>◌ m k s = after (m s) (λ _. k)

abbrev pub return : {A : Type 0} → A → M A
return a s = done a s

abbrev pub call_error_handler : {A : Type 0} → Message → M A
call_error_handler message s = reports message s

abbrev pub exit_1 : {A : Type 0} → M A
exit_1 s = exits s

-- `set_block(0)` and `set_nonblock(0)`
abbrev pub set_blocking : Bool → M (Unit {0})
set_blocking value s = done tt (record s { blocking = value })

-- What `read_all(0, ...)` leaves: the bytes, or `errno`, which is 0 at the end of the file.
pub data Received : Type 0 where
  received : Bytes → Received
  not_received : ℕ → Received

unfoldable pub after_read : ReadAll → M Received
after_read (read_done bytes reads) s = done (received bytes) (record s { reads = reads })
after_read (read_error errno reads) s = done (not_received errno) (record s { reads = reads })
after_read read_waiting s = blocks s
after_read read_overrun s = overruns s

-- Whether a call brings bytes before one fails; then `read_all` makes the descriptor block.
unfoldable pub brings_bytes : List Read → Bool
brings_bytes [] = false
brings_bytes (got [] ∷ events) = false
brings_bytes (got (b ∷ bs) ∷ events) = true
brings_bytes (read_failed errno ∷ events) =
    let again = brings_bytes events in if errno == eintr then again else false

unfoldable pub receive : ℕ → M Received
unfolding after_read brings_bytes
receive size s =
    after_read (read_all size s.reads)
      (record s { blocking = s.blocking || not (size == 0) && brings_bytes s.reads })

-- `write_all(1, ...)`: whether all of it was written.
unfoldable pub after_write : WriteAll → M Bool
after_write (write_done bytes writes) s =
    done true (record s { writes = writes; sent = s.sent ++ bytes })
after_write (write_error errno bytes writes) s =
    done false (record s { writes = writes; sent = s.sent ++ bytes })
after_write write_waiting s = blocks s
after_write write_overrun s = overruns s

-- The checksum counts the bytes before they are written.
unfoldable pub write_all_with_crc : Bytes → M Bool
unfolding after_write
write_all_with_crc bytes s =
    after_write (write_all bytes s.writes) (record s { crc32_sum = compute_buf s.crc32_sum bytes })
