-- ===== src/Unpack/Status.antt =====
-- qrexec-lib/unpack.c: `send_status_and_crc`, as the bytes that it writes, and `do_unpack`.
pub mod Answered
use qubes_linux_utils.Prelude.{
  ℕ, suc, ◌+◌, ◌-◌, ◌%◌, ◌^◌, Bool, Option, none, some, List, [], ◌++◌, Bytes, length, replicate,
  take,
}
use qubes_linux_utils.Prelude.Int.{ℤ, pos, negsuc}
use qubes_linux_utils.Unpack.Process.{
  Call, Answer, State, Options, Outcome, M, done, exits, dies, aborts, faults, blocks, overruns,
}
use qubes_linux_utils.Unpack.Transfer.{do_unpack_ext}
use qubes_linux_utils.Pack.Send.{to_little_endian}

-- An `int` stored in `uint32_t error_code`.
unfoldable pub uint32_of : ℤ → ℕ
uint32_of (pos n) = n % 2 ^ 32
uint32_of (negsuc n) = 2 ^ 32 - 1 - n % 2 ^ 32

-- `struct result_header`
unfoldable pub result_header : ℤ → ℕ → Bytes
unfolding uint32_of to_little_endian
result_header code crc =
    to_little_endian 4 (uint32_of code) ++ (replicate 4 0 ++ to_little_endian 8 crc)

-- `struct result_header_ext`
unfoldable pub result_header_ext : Bytes → Bytes
unfolding to_little_endian
result_header_ext name = to_little_endian 4 (length name % 2 ^ 32)

-- The three writes; a NULL name is left out.
unfoldable pub send_status_and_crc : ℤ → ℕ → Option Bytes → Bytes
unfolding result_header result_header_ext
send_status_and_crc code crc none = result_header code crc
send_status_and_crc code crc (some name) =
    result_header code crc ++ (result_header_ext name ++ take (length name % 2 ^ 32) name)

-- What a run reports to the sender: at its end, or from `do_exit`.
unfoldable pub reported : Outcome ℕ → Option Bytes
unfolding send_status_and_crc
reported (done errno s) = some (send_status_and_crc (pos errno) s.crc32_sum (some s.namebuf))
reported (exits code name s) = some (send_status_and_crc code s.crc32_sum name)
reported (dies s) = none
reported (aborts s) = none
reported (faults s) = none
reported (blocks s) = none
reported (overruns s) = none

-- COPY_ALLOW_DIRECTORIES | COPY_ALLOW_SYMLINKS
unfoldable pub do_unpack : (List Call → Call → Answer) → ℕ → Options → M ℕ
do_unpack kernel fuel options = do_unpack_ext kernel fuel options 3
