-- ===== src/Pack/Send.antt =====
-- qrexec-lib/pack.c: what is sent, `write_headers`, `single_file_processor`, `do_fs_walk`,
-- `notify_end_and_wait_for_result` and `qfile_pack_init`. The calls on one path are made at most
-- once, so that what they give is a tree: `Node`.
use qubes_linux_utils.Prelude.{
  ℕ, zero, suc, ◌+◌, ◌/◌, ◌%◌, ◌^◌, Bool, true, false, ◌&&◌, Option, none, some, List, [], ◌∷◌,
  ◌++◌, Bytes, length, take, replicate, ◌==◌, if◌then◌else◌,
}
use qubes_linux_utils.IoAll.{Read}
use qubes_linux_utils.CopyFile.{
  copy_file_ok, copy_file_read_eof, copy_file_read_error, copy_file_write_error, CopyFile, copied,
  copy_waiting, copy_overrun, copy_file,
}
use qubes_linux_utils.Unpack.Header.{FileHeader, is_reg, is_lnk, is_dir}
use qubes_linux_utils.Pack.Process.{
  cannot_open, cannot_read_link, cannot_stat, cannot_open_directory, cannot_copy, M, ◌>>=◌, ◌>>◌,
  return, call_error_handler, exit_1, set_blocking, done, blocks, overruns, write_all_with_crc,
}
use qubes_linux_utils.Pack.Result.{wait_for_result}

-- A number as a machine stores it that puts the lowest byte first.
unfoldable pub to_little_endian : ℕ → ℕ → Bytes
to_little_endian zero n = []
to_little_endian (suc size) n = n % 256 ∷ to_little_endian size (n / 256)

-- `struct file_header` in memory.
unfoldable pub encode_header : FileHeader → Bytes
unfolding to_little_endian
encode_header hdr =
    to_little_endian 4 hdr.namelen
    ++ (to_little_endian 4 hdr.mode
        ++ (to_little_endian 8 hdr.filelen
            ++ (to_little_endian 4 hdr.atime
                ++ (to_little_endian 4 hdr.atime_nsec
                    ++ (to_little_endian 4 hdr.mtime ++ to_little_endian 4 hdr.mtime_nsec)))))

-- The fields of `struct stat` that the sender uses.
pub record Stat : Type 0 where
  pub st_mode : ℕ
  pub st_size : ℕ
  pub atime_sec : ℕ
  pub atime_nsec : ℕ
  pub mtime_sec : ℕ
  pub mtime_nsec : ℕ

-- What the calls on a path give, `none` for a failure: `lstat`; `open` with what `read` then gives;
-- `readlink`; and the entries of the directory, `unreadable` if `opendir` fails.
mutual
  pub data Node : Type 0 where
    node : Option Stat → Option (List Read) → Option Bytes → Entries → Node

  pub data Entries : Type 0 where
    unreadable last : Entries
    entry : Bytes → Node → Entries → Entries

-- The writer has given up: what the receiver says, and `exit(1)`.
unfoldable pub write_failure : {A : Type 0} → M A
write_failure = do set_blocking true; wait_for_result; exit_1

unfoldable pub must_write : Bool → M (Unit {0})
unfolding write_failure
must_write true = return tt
must_write false = write_failure

unfoldable pub write_whole : Bytes → M (Unit {0})
unfolding must_write
write_whole bytes = do whole ← write_all_with_crc bytes; must_write whole

-- The header, and as many bytes of the name with its NUL as the header says.
unfoldable pub write_headers : FileHeader → Bytes → M (Unit {0})
unfolding encode_header write_whole
write_headers hdr name = write_whole (encode_header hdr) >> write_whole (take hdr.namelen name)

-- The end of `copy_file(1, ...)`, whatever is left of the file.
unfoldable pub after_copy : Bytes → CopyFile → M (Unit {0})
unfolding write_failure
after_copy name (copied copy_file_ok out crc file writes) s =
    done tt (record s { crc32_sum = crc; writes = writes; sent = s.sent ++ out })
after_copy name (copied (copy_file_write_error errno) out crc file writes) s =
    write_failure (record s { crc32_sum = crc; writes = writes; sent = s.sent ++ out })
after_copy name (copied copy_file_read_eof out crc file writes) s =
    call_error_handler (cannot_copy name copy_file_read_eof)
      (record s { crc32_sum = crc; writes = writes; sent = s.sent ++ out })
after_copy name (copied copy_file_read_error out crc file writes) s =
    call_error_handler (cannot_copy name copy_file_read_error)
      (record s { crc32_sum = crc; writes = writes; sent = s.sent ++ out })
after_copy name copy_waiting s = blocks s
after_copy name copy_overrun s = overruns s

unfoldable pub copy_data : Bytes → ℕ → List Read → M (Unit {0})
unfolding after_copy
copy_data name filelen file s = after_copy name (copy_file filelen true s.crc32_sum file s.writes) s

-- The header of a path, with this `filelen`.
unfoldable pub header_for : Bytes → Stat → ℕ → FileHeader
header_for filename st filelen = record {
  namelen = (length filename + 1) % 2 ^ 32;
  mode = st.st_mode;
  filelen = filelen;
  atime = st.atime_sec % 2 ^ 32;
  atime_nsec = st.atime_nsec % 2 ^ 32;
  mtime = st.mtime_sec % 2 ^ 32;
  mtime_nsec = st.mtime_nsec % 2 ^ 32;
}

-- `filename` as an array, with its NUL.
abbrev pub with_nul : Bytes → Bytes
with_nul filename = filename ++ 0 ∷ []

unfoldable pub send_file : Bytes → Stat → Option (List Read) → M (Unit {0})
unfolding write_headers header_for copy_data
send_file filename st none = call_error_handler (cannot_open filename)
send_file filename st (some file) = do
  write_headers (header_for filename st st.st_size) (with_nul filename)
  copy_data filename st.st_size file

-- `readlink` must give `st_size` bytes; it has room for one more.
unfoldable pub send_link : Bytes → Stat → Option Bytes → M (Unit {0})
unfolding write_headers header_for write_whole
send_link filename st none = call_error_handler (cannot_read_link filename)
send_link filename st (some target) =
    if length target == st.st_size
    then write_headers (header_for filename st st.st_size) (with_nul filename) >> write_whole target
    else call_error_handler (cannot_read_link filename)

unfoldable pub send_content : Bytes → Stat → Option (List Read) → Option Bytes → M (Unit {0})
unfolding send_file send_link write_headers header_for
send_content filename st file target =
    if is_reg st.st_mode
    then send_file filename st file
    else if is_dir st.st_mode
    then write_headers (header_for filename st 0) (with_nul filename)
    else if is_lnk st.st_mode
    then send_link filename st target
    else return tt

-- Behind each path, whatever its type, the receiver may have reported an error.
unfoldable pub single_file_processor :
    Bytes → Stat → Option (List Read) → Option Bytes → M (Unit {0})
unfolding send_content
single_file_processor filename st file target = do
  send_content filename st file target
  wait_for_result

-- "." and ".."
unfoldable pub is_dot : Bytes → Bool
is_dot [] = false
is_dot (c ∷ []) = c == b'.'
is_dot (c ∷ d ∷ []) = c == b'.' && d == b'.'
is_dot (c ∷ d ∷ e ∷ cs) = false

unfoldable mutual
  unfolding single_file_processor is_dot

  pub do_fs_walk : Node → Bytes → Bool → M (Unit {0})
  do_fs_walk (node none file target entries) path ignore_symlinks =
      call_error_handler (cannot_stat path)
  do_fs_walk (node (some st) file target entries) path ignore_symlinks =
      let inside = walk_entries entries path ignore_symlinks in
      let again = inside >> single_file_processor path st file target in
      if is_lnk st.st_mode && ignore_symlinks
      then return tt
      else (single_file_processor path st file target
          >> (if is_dir st.st_mode then again else return tt))

  -- The loop over a directory.
  pub walk_entries : Entries → Bytes → Bool → M (Unit {0})
  walk_entries unreadable path ignore_symlinks = call_error_handler (cannot_open_directory path)
  walk_entries last path ignore_symlinks = return tt
  walk_entries (entry name child rest) path ignore_symlinks =
      let here = do_fs_walk child (path ++ (b'/' ∷ name)) ignore_symlinks in
      let others = walk_entries rest path ignore_symlinks in
      if is_dot name then others else here >> others

-- The end marker is a header of zeros; whether it could be written is not looked at.
unfoldable pub notify_end_and_wait_for_result : M (Unit {0})
notify_end_and_wait_for_result = do
  _ ← write_all_with_crc (replicate 32 0)
  set_blocking true
  wait_for_result

unfoldable pub qfile_pack_init : M (Unit {0})
qfile_pack_init s =
    done tt (record s { crc32_sum = 0; ignore_quota_error = false; blocking = false })

unfoldable pub set_ignore_quota_error : Bool → M (Unit {0})
set_ignore_quota_error value s = done tt (record s { ignore_quota_error = value })

-- The walks of one transfer, one for each path in order; the programs that call `do_fs_walk` so are
-- outside of this repository.
unfoldable pub send_paths : List (Bytes × Node) → Bool → M (Unit {0})
unfolding do_fs_walk
send_paths [] ignore_symlinks = return tt
send_paths ((path, tree) ∷ rest) ignore_symlinks =
    do_fs_walk tree path ignore_symlinks >> send_paths rest ignore_symlinks
