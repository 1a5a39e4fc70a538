-- ===== src/Pack/Result.antt =====
-- qrexec-lib/pack.c: `sanitize_remote_filename` and `wait_for_result`.

pub mod Laws
use qubes_linux_utils.Prelude.{
  ℕ, min, Bool, true, false, not, ◌||◌, Option, none, some, List, [], ◌∷◌, map, Bytes, ◌==◌, ltb,
  if◌then◌else◌,
}
use qubes_linux_utils.Unpack.Header.{field_at}
use qubes_linux_utils.Unpack.Process.{c_string}
use qubes_linux_utils.Unpack.Entry.{eexist, einval, edquot, max_path_length}
use qubes_linux_utils.Pack.Process.{
  Message, already_exists, forbidden_character, unverified_link, corrupted_data, copy_failed,
  checksum_mismatch, State, M, ◌>>=◌, ◌>>◌, return, call_error_handler, exit_1, done, reports,
  Received, received, not_received, receive,
}

-- Error numbers of Linux.
abbrev pub eagain : ℕ
eagain = 11

abbrev pub enolink : ℕ
enolink = 67

abbrev pub eilseq : ℕ
eilseq = 84

-- One byte. A `char` from 0x80 on is negative, and so less than a space, where `char` has a sign, and
-- more than a tilde where it has none.
unfoldable pub sanitize_char : ℕ → ℕ
sanitize_char c = if ltb c b' ' || ltb b'~' c || c == b'"' then b'_' else c

unfoldable pub sanitize_remote_filename : Bytes → Bytes
unfolding sanitize_char
sanitize_remote_filename [] = []
sanitize_remote_filename (c ∷ cs) = sanitize_char c ∷ sanitize_remote_filename cs

-- `hdr_ext.last_namelen`, at most MAX_PATH_LENGTH; 0 if there is no second header.
unfoldable pub last_namelen : Received → ℕ
last_namelen (received bytes) = min (field_at 0 4 bytes) max_path_length
last_namelen (not_received errno) = 0

-- The name of the last file, with whether its length is above 0.
unfoldable pub last_filename : ℕ → Received → Bool × Bytes
last_filename size (received bytes) = (not (size == 0), sanitize_remote_filename (c_string bytes))
last_filename size (not_received errno) = (false, [])

-- The `switch`, for an error code that is not 0.
unfoldable pub error_message : ℕ → Bool → Bytes → Message
error_message code prefixed name =
    if code == eexist
    then already_exists name
    else if code == einval
    then corrupted_data prefixed name
    else if code == eilseq
    then forbidden_character name
    else if code == enolink
    then unverified_link name
    else copy_failed code prefixed name

-- What follows the reads: the error code, and the checksum.
unfoldable pub check_result : ℕ → ℕ → Bool → Bytes → M (Unit {0})
unfolding error_message
check_result code crc prefixed name s =
    if code == 0
    then (if crc == s.crc32_sum then done tt s else reports checksum_mismatch s)
    else if code == edquot
    then (if s.ignore_quota_error then done tt s else reports (error_message code prefixed name) s)
    else reports (error_message code prefixed name) s

-- Behind the first header.
unfoldable pub after_result : Received → M (Unit {0})
unfolding last_namelen last_filename check_result
after_result (not_received errno) = if errno == eagain then return tt else exit_1
after_result (received hdr) = do
  ext ← receive 4
  filename ← receive (last_namelen ext)
  let last = last_filename (last_namelen ext) filename
  check_result (field_at 0 4 hdr) (field_at 8 8 hdr) last.0 last.1

unfoldable pub wait_for_result : M (Unit {0})
unfolding after_result
wait_for_result = do hdr ← receive 16; after_result hdr
