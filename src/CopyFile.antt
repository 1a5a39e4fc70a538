-- ===== src/CopyFile.antt =====
-- qrexec-lib/copy-file.c: `copy_file`, from the events of its calls of `read` and of `write_all`'s
-- calls of `write`. The progress callback only shows a number, and is left out.
pub mod Laws
pub mod Progress
use qubes_linux_utils.Prelude.{
  ℕ, zero, suc, ◌+◌, ◌-◌, min, Bool, true, false, Option, none, some, List, [], ◌∷◌, ◌++◌, Bytes,
  length, ◌==◌, ltb, if◌then◌else◌,
}
use qubes_linux_utils.Crc32.{compute_buf}
use qubes_linux_utils.IoAll.{
  Read, got, read_failed, Write, WriteAll, write_done, write_error, write_waiting, write_overrun,
  write_all,
}

-- COPY_FILE_OK and the others; a write error with the `errno` that the last call of `write` set.
pub data CopyStatus : Type 0 where
  copy_file_ok copy_file_read_eof copy_file_read_error : CopyStatus
  copy_file_write_error : Option ℕ → CopyStatus

-- A return, with all that was written, `*crc32`, and the events that are left over; blocked in a
-- call; or a call that moved more than it was asked to.
pub data CopyFile : Type 0 where
  copied : CopyStatus → Bytes → ℕ → List Read → List Write → CopyFile
  copy_waiting copy_overrun : CopyFile

-- `sizeof(buf)`
abbrev pub buf_size : ℕ
buf_size = 4096

-- `count`
abbrev pub count_for : ℕ → ℕ
count_for left = if ltb buf_size left then buf_size else left

-- `if (crc32) *crc32 = ...`; the flag says that the pointer is not NULL.
abbrev pub accumulate : Bool → ℕ → Bytes → ℕ
accumulate wanted crc bytes = if wanted then compute_buf crc bytes else crc

-- What is left of a round once `write_all` has returned; `again` is the next round.
pub after_write : Bytes → ℕ → List Read → WriteAll → (Bytes → List Write → CopyFile) → CopyFile
after_write out crc reads (write_done bytes writes) again = again (out ++ bytes) writes
after_write out crc reads (write_error errno bytes writes) again =
    copied (copy_file_write_error errno) (out ++ bytes) crc reads writes
after_write out crc reads write_waiting again = copy_waiting
after_write out crc reads write_overrun again = copy_overrun

-- The loop, with what has been written so far and how much of `size` is left.
pub copy_loop : Bool → Bytes → ℕ → ℕ → List Read → List Write → CopyFile
unfolding after_write
copy_loop wanted out crc zero reads writes = copied copy_file_ok out crc reads writes
copy_loop wanted out crc (suc left) [] writes = copy_waiting
copy_loop wanted out crc (suc left) (read_failed errno ∷ reads) writes =
    copied copy_file_read_error out crc reads writes
copy_loop wanted out crc (suc left) (got [] ∷ reads) writes =
    copied copy_file_read_eof out crc reads writes
copy_loop wanted out crc (suc left) (got (b ∷ bs) ∷ reads) writes =
    let crc' = accumulate wanted crc (b ∷ bs) in
    if ltb (count_for (suc left)) (length (b ∷ bs))
    then copy_overrun
    else after_write out crc' reads (write_all (b ∷ bs) writes)
        (λ out' writes'. copy_loop wanted out' crc' (suc left - length (b ∷ bs)) reads writes')

-- A `size` of 0 or less copies nothing.
unfoldable pub copy_file : ℕ → Bool → ℕ → List Read → List Write → CopyFile
unfolding copy_loop
copy_file size wanted crc reads writes = copy_loop wanted [] crc size reads writes
