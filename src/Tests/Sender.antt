-- ===== src/Tests/Sender.antt =====
-- Runs of qrexec-lib/pack.c.
use qubes_linux_utils.Prelude.{
  length, ◌≡◌, refl, true, false, none, some, List, [], ◌∷◌, ◌++◌, Bytes, replicate, arith,
}
use qubes_linux_utils.IoAll.{Read, got, read_failed, Write, wrote}
use qubes_linux_utils.Unpack.Header.{FileHeader, decode_header}
use qubes_linux_utils.Pack.Process.{State, Outcome, done, reports, already_exists, ◌>>◌}
use qubes_linux_utils.Pack.Result.{eagain, sanitize_remote_filename, check_result, wait_for_result}
use qubes_linux_utils.Pack.Result.Laws.{Returned, Reported, Exited, wait_for_result-Judged}
use qubes_linux_utils.Pack.Send.{
  Stat, Node, node, last, encode_header, to_little_endian, send_paths,
  notify_end_and_wait_for_result,
}
use qubes_linux_utils.Prelude.Int.{pos}
use qubes_linux_utils.IoAll.Laws.{Delivers}
use qubes_linux_utils.Unpack.Status.{
  uint32_of, result_header, result_header_ext, send_status_and_crc,
}
use qubes_linux_utils.Unpack.Status.Answered.{Moved, send_status_and_crc-Answered}
use qubes_linux_utils.Pack.Rules.{Ends, Any, Anywhere}
use qubes_linux_utils.Pack.Frame.{Stream}
use qubes_linux_utils.Pack.Sums.{Summed}
use qubes_linux_utils.Pack.Sums.Whole.{
  Walkable, AllPaths, Confirmed, send_paths-Summed, transfer-Confirmed,
}

-- The receiver answers EEXIST, with the name a"b.
abbrev refused : State
refused = record {
  crc32_sum = 0;
  ignore_quota_error = false;
  blocking = false;
  reads =
      got (17 ∷ replicate 15 0) ∷ (got (3 ∷ 0 ∷ 0 ∷ 0 ∷ []) ∷ (got (b'a' ∷ b'"' ∷ b'b' ∷ []) ∷ []));
  writes = [];
  sent = [];
}

refused_reported :
    wait_for_result refused
    ≡ reports
        (already_exists (b'a' ∷ b'_' ∷ b'b' ∷ []))
        (record refused { blocking = true; reads = [] })
unfolding wait_for_result qubes_linux_utils.Pack.Process.receive qubes_linux_utils.IoAll.read_all
    qubes_linux_utils.Unpack.Header.little_endian
    qubes_linux_utils.Pack.Result.sanitize_remote_filename qubes_linux_utils.Unpack.Process.c_string
refused_reported = refl

wait_for_result-Judged_example :
    Ends (Returned refused) (Reported refused) (Exited refused) (wait_for_result refused)
wait_for_result-Judged_example = wait_for_result-Judged refused

abbrev sample_header : FileHeader
sample_header = record {
  namelen = 2;
  mode = 0o100644;
  filelen = 3;
  atime = 1;
  atime_nsec = 2;
  mtime = 3;
  mtime_nsec = 4;
}

-- A file "f" of three bytes.
abbrev sample_stat : Stat
sample_stat = record {
  st_mode = 0o100644;
  st_size = 3;
  atime_sec = 1;
  atime_nsec = 2;
  mtime_sec = 3;
  mtime_nsec = 4;
}

abbrev file_f : Node
file_f = node (some sample_stat) (some (got (1 ∷ 2 ∷ 3 ∷ []) ∷ [])) none last

abbrev one_path : List (Bytes × Node)
one_path = (b'f' ∷ [], file_f) ∷ []

-- No answer behind the file, and at the end that all is well, with the checksum.
abbrev start : State
start = record {
  crc32_sum = 0;
  ignore_quota_error = false;
  blocking = false;
  reads =
      read_failed eagain
      ∷ (got (replicate 8 0 ++ (85 ∷ 107 ∷ 196 ∷ 69 ∷ replicate 4 0)) ∷ (got [] ∷ []));
  writes = wrote 32 ∷ (wrote 2 ∷ (wrote 3 ∷ (wrote 32 ∷ [])));
  sent = [];
}

one_path-Sized : AllPaths one_path
unfolding Walkable
one_path-Sized =
    ((record { path_size = omega arith; mode = omega arith; size = omega arith }, tt), tt)

send_paths-Summed_example :
    Ends (λ a s'. Summed Stream start s') Any Anywhere (send_paths one_path false start)
send_paths-Summed_example = send_paths-Summed one_path false start one_path-Sized

-- The whole transfer returns.
abbrev returned : Outcome (Unit {0}) → Bytes
returned (done a s) = s.sent
returned other = []

transfer_returned :
    returned ((send_paths one_path false >> notify_end_and_wait_for_result) start)
    ≡ encode_header sample_header ++ (b'f' ∷ 0 ∷ 1 ∷ 2 ∷ 3 ∷ replicate 32 0)
unfolding encode_header send_paths qubes_linux_utils.Pack.Process.write_all_with_crc
    qubes_linux_utils.IoAll.write_all qubes_linux_utils.CopyFile.copy_file wait_for_result
    qubes_linux_utils.Pack.Process.receive qubes_linux_utils.IoAll.read_all
    notify_end_and_wait_for_result qubes_linux_utils.Unpack.Header.little_endian
    qubes_linux_utils.Crc32.compute_buf
transfer_returned = refl

transfer-Confirmed_example :
    Ends
      (λ a s'. (stream : Bytes) × Stream stream × Confirmed start stream s')
      Any
      Anywhere
      ((send_paths one_path false >> notify_end_and_wait_for_result) start)
transfer-Confirmed_example = transfer-Confirmed one_path false start one_path-Sized

-- The receiver's answer to a name that exists, "ab", in three pieces.
abbrev answer_events : List Read
answer_events =
    got (result_header (pos 17) 5)
    ∷ (got (result_header_ext (b'a' ∷ b'b' ∷ [])) ∷ (got (b'a' ∷ b'b' ∷ []) ∷ []))

abbrev asking : State
asking = record refused { reads = answer_events }

header_piece : Delivers (got (result_header (pos 17) 5) ∷ []) (result_header (pos 17) 5)
unfolding result_header to_little_endian
header_piece = Delivers.last (omega arith)

ext_piece :
    Delivers
      (got (result_header_ext (b'a' ∷ b'b' ∷ [])) ∷ [])
      (result_header_ext (b'a' ∷ b'b' ∷ []))
unfolding result_header_ext to_little_endian
ext_piece = Delivers.last (omega arith)

answer_cut :
    send_status_and_crc (pos 17) 5 (some (b'a' ∷ b'b' ∷ []))
    ≡ result_header (pos 17) 5 ++ (result_header_ext (b'a' ∷ b'b' ∷ []) ++ (b'a' ∷ b'b' ∷ []))
unfolding send_status_and_crc
answer_cut = refl

header_length : length (result_header (pos 17) 5) ≡ 16
unfolding result_header to_little_endian
header_length = refl

ext_length : length (result_header_ext (b'a' ∷ b'b' ∷ [])) ≡ 4
unfolding result_header_ext to_little_endian
ext_length = refl

send_status_and_crc-Answered_example :
    (v : State) × Moved asking v []
    × (wait_for_result asking
        ≡ check_result (uint32_of (pos 17)) 5 true (sanitize_remote_filename (b'a' ∷ b'b' ∷ [])) v)
send_status_and_crc-Answered_example =
    send_status_and_crc-Answered (pos 17) 5 b'a' (b'b' ∷ []) (result_header (pos 17) 5)
      (result_header_ext (b'a' ∷ b'b' ∷ [])) (b'a' ∷ b'b' ∷ [])
      (got (result_header (pos 17) 5) ∷ []) (got (result_header_ext (b'a' ∷ b'b' ∷ [])) ∷ [])
      (got (b'a' ∷ b'b' ∷ []) ∷ []) [] asking (omega arith) (omega arith)
      (omega arith, (omega arith, tt)) answer_cut header_length ext_length header_piece ext_piece
      (Delivers.last (omega arith)) refl
