-- ===== src/Tests/Transfer.antt =====
-- Runs of the checksum, of the loops of qrexec-lib/ioall.c and qrexec-lib/copy-file.c, and of a whole
-- transfer.
use qubes_linux_utils.Prelude.{
  ℕ, ◌≡◌, refl, ◌↔◌, bit_xor, true, Option, none, some, List, [], ◌∷◌, ◌++◌, Bytes, All, replicate,
  arith, ◌<◌, ◌^◌,
}
use qubes_linux_utils.Crc32.{compute_buf}
use qubes_linux_utils.Crc32.Laws.{compute_buf-append, compute_buf-lt}
use qubes_linux_utils.Crc32.Bitwise.{message, compute_buf-message}
use qubes_linux_utils.IoAll.{
  Read, got, read_failed, Write, wrote, write_failed, eintr, read_done, write_done, read_all,
  write_all,
}
use qubes_linux_utils.IoAll.Laws.{HasRead, read_all_iff, write_all-written}
use qubes_linux_utils.IoAll.CopyAll.{all_copied, copy_fd_all, ReadsToEnd, copy_fd_all-ReadsToEnd}
use qubes_linux_utils.CopyFile.{copied, copy_file_ok, copy_file}
use qubes_linux_utils.CopyFile.Laws.{HasCopied, copy_file-HasCopied}
use qubes_linux_utils.Unpack.Process.{
  Dir, cwd, Call, create_file, open_tmpfile, Answer, answered, failed, State, Options, Outcome,
  done, exits, dies, aborts, faults, blocks, overruns,
}
use qubes_linux_utils.Unpack.Transfer.{unpack_loop, do_unpack_ext}
use qubes_linux_utils.Unpack.Rounds.Enough.{Receives, unpack_loop-Receives}
use qubes_linux_utils.Unpack.Rules.{Ends}
use qubes_linux_utils.Unpack.Safety.{Safe, Any}
use qubes_linux_utils.Unpack.Safety.Run.{do_unpack_ext-Safe}

-- "123456789"
abbrev digits_1_9 : Bytes
digits_1_9 = b'1' ∷ b'2' ∷ b'3' ∷ b'4' ∷ b'5' ∷ b'6' ∷ b'7' ∷ b'8' ∷ b'9' ∷ []

-- The check value of CRC-32.
check_value : compute_buf 0 digits_1_9 ≡ 0xcbf43926
unfolding compute_buf
check_value = refl

digits_are_bytes : All (λ c. c < 256) digits_1_9
digits_are_bytes = ground arith

compute_buf-message_example :
    compute_buf 0 digits_1_9 ≡ bit_xor (message (bit_xor 0 0xffff_ffff) digits_1_9) 0xffff_ffff
compute_buf-message_example = compute_buf-message 0 digits_1_9 digits_are_bytes

compute_buf-append_example :
    compute_buf 0 (digits_1_9 ++ digits_1_9) ≡ compute_buf (compute_buf 0 digits_1_9) digits_1_9
compute_buf-append_example = compute_buf-append 0 digits_1_9 digits_1_9

compute_buf-lt_example : compute_buf 7 digits_1_9 < 2 ^ 32
compute_buf-lt_example = compute_buf-lt 7 digits_1_9 (omega arith)

-- Three bytes in two pieces, with an interruption.
abbrev two_pieces : List Read
two_pieces = got (1 ∷ 2 ∷ []) ∷ read_failed eintr ∷ got (3 ∷ []) ∷ []

read_in_pieces : read_all 3 two_pieces ≡ read_done (1 ∷ 2 ∷ 3 ∷ []) []
unfolding read_all
read_in_pieces = refl

read_all_iff_example :
    (read_all 3 two_pieces ≡ read_done (1 ∷ 2 ∷ 3 ∷ []) [])
    ↔ HasRead 3 two_pieces (1 ∷ 2 ∷ 3 ∷ []) []
read_all_iff_example = read_all_iff 2 two_pieces (1 ∷ 2 ∷ 3 ∷ []) []

abbrev two_writes : List Write
two_writes = wrote 1 ∷ write_failed eintr ∷ wrote 2 ∷ []

written_in_pieces : write_all (1 ∷ 2 ∷ 3 ∷ []) two_writes ≡ write_done (1 ∷ 2 ∷ 3 ∷ []) []
unfolding write_all
written_in_pieces = refl

write_all-written_example : Path Bytes (1 ∷ 2 ∷ 3 ∷ []) (1 ∷ 2 ∷ 3 ∷ [])
write_all-written_example =
    write_all-written (1 ∷ 2 ∷ 3 ∷ []) two_writes (1 ∷ 2 ∷ 3 ∷ []) [] written_in_pieces

copied_in_pieces :
    copy_file 2 true 0 (got (1 ∷ []) ∷ got (2 ∷ []) ∷ []) (wrote 1 ∷ wrote 1 ∷ [])
    ≡ copied copy_file_ok (1 ∷ 2 ∷ []) (compute_buf (compute_buf 0 (1 ∷ [])) (2 ∷ [])) [] []
unfolding copy_file write_all
copied_in_pieces = refl

copy_file-HasCopied_example :
    HasCopied 2 0 (1 ∷ 2 ∷ []) (compute_buf (compute_buf 0 (1 ∷ [])) (2 ∷ [])) []
copy_file-HasCopied_example =
    copy_file-HasCopied 2 0 (got (1 ∷ []) ∷ got (2 ∷ []) ∷ []) (wrote 1 ∷ wrote 1 ∷ []) (1 ∷ 2 ∷ [])
      (compute_buf (compute_buf 0 (1 ∷ [])) (2 ∷ [])) [] [] copied_in_pieces

-- A file "a" of one byte, with mode 0644, and the end marker.
abbrev one_file : List Read
one_file =
    got (2 ∷ 0 ∷ 0 ∷ 0 ∷ 0xA4 ∷ 0x81 ∷ 0 ∷ 0 ∷ 1 ∷ replicate 23 0)
    ∷ got (b'a' ∷ 0 ∷ [])
    ∷ got (42 ∷ [])
    ∷ got (replicate 32 0)
    ∷ []

abbrev start : State
start = record {
  total_bytes = 0;
  total_files = 0;
  crc32_sum = 0;
  use_tmpfile = true;
  namebuf = [];
  errno = 0;
  reads = one_file;
  writes = wrote 1 ∷ [];
  history = [];
}

abbrev no_limits : Options
no_limits = record { bytes_limit = 0; files_limit = 0; wait_for_space_margin = 0 }

-- A kernel that gives every call the descriptor 3, but has no O_TMPFILE.
abbrev kernel : List Call → Call → Answer
kernel history (open_tmpfile dir) = failed 95
kernel history _ = answered 3

-- What `do_unpack_ext` returns, and how many files it counted.
abbrev outcome : Outcome ℕ → Option (ℕ × ℕ)
outcome (done n s) = some (n, s.total_files)
outcome _ = none

file_received : outcome (do_unpack_ext kernel 2 no_limits 0 start) ≡ some (0, 1)
unfolding do_unpack_ext qubes_linux_utils.Unpack.Process.read_all_with_crc read_all
    qubes_linux_utils.Unpack.Header.decode_header
    qubes_linux_utils.Unpack.Entry.process_one_file_reg
    qubes_linux_utils.Pure.Validate.validate_file_name_v2 qubes_linux_utils.Pure.Path.validate_path
    qubes_linux_utils.Unpack.Process.c_string qubes_linux_utils.Pure.Path.has_flag
    qubes_linux_utils.Unpack.Walk.opendir_safe qubes_linux_utils.Pure.Path.Components.split
    qubes_linux_utils.Unpack.Process.call qubes_linux_utils.Unpack.Process.must
    qubes_linux_utils.Unpack.Entry.within_quota copy_file write_all
    qubes_linux_utils.Unpack.Entry.fix_times_and_perms
file_received = refl

do_unpack_ext-Safe_example : Ends Safe Any (do_unpack_ext kernel 2 no_limits 0 start)
do_unpack_ext-Safe_example = do_unpack_ext-Safe kernel 2 no_limits 0 start tt

unpack_loop-Receives_example :
    Receives kernel no_limits 0 start (unpack_loop kernel 8 no_limits 0 start)
unpack_loop-Receives_example = unpack_loop-Receives kernel 8 no_limits 0 start (omega arith)

-- The same two pieces and the end of the file, written in three calls.
abbrev whole_file : List Read
whole_file = got (1 ∷ 2 ∷ []) ∷ read_failed eintr ∷ got (3 ∷ []) ∷ got [] ∷ []

abbrev three_writes : List Write
three_writes = wrote 1 ∷ wrote 1 ∷ wrote 1 ∷ []

copied_whole : copy_fd_all [] whole_file three_writes ≡ all_copied (1 ∷ 2 ∷ 3 ∷ []) []
unfolding copy_fd_all write_all
copied_whole = refl

copy_fd_all-ReadsToEnd_example : ReadsToEnd whole_file (1 ∷ 2 ∷ 3 ∷ []) []
copy_fd_all-ReadsToEnd_example =
    copy_fd_all-ReadsToEnd whole_file three_writes (1 ∷ 2 ∷ 3 ∷ []) [] copied_whole
