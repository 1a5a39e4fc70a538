-- ===== src/Unpack/Entry.antt =====
-- qrexec-lib/unpack.c: `fix_times_and_perms`, and `process_one_file_reg`, `_dir` and `_link`.
use qubes_linux_utils.Prelude.{
  ℕ, suc, ◌+◌, ◌-◌, ◌%◌, ◌^◌, bit_and, Bool, true, false, not, ◌&&◌, ◌||◌, Option, none, some, List,
  Bytes, ◌==◌, ltb, if◌then◌else◌,
}
use mathlib.Core.Option
use qubes_linux_utils.Prelude.Int.{ℤ, pos, negsuc, neg}
use qubes_linux_utils.Pure.Validate.{validate_file_name_v2, validate_symbolic_link_v2, is_zero}
use qubes_linux_utils.CopyFile.{
  copy_file_ok, copy_file_read_eof, copy_file_read_error, copy_file_write_error, CopyFile, copied,
  copy_waiting, copy_overrun, copy_file,
}
use qubes_linux_utils.Unpack.Header.{FileHeader, is_lnk}
use qubes_linux_utils.Unpack.Process.{
  Dir, Call, open_tmpfile, create_file, make_directory, reopen_directory, file_status, make_link,
  make_symlink, change_mode, change_times, wait_for_space, Answer, answered, failed, State, Options,
  M, ◌>>=◌, ◌>>◌, return, do_exit, require, call, must, done, dies, faults, blocks, overruns,
  c_string, read_all_with_crc,
}
use qubes_linux_utils.Unpack.Walk.{opendir_safe}

abbrev pub legal_eof : ℕ
legal_eof = 31415926

-- Error numbers of Linux.
abbrev pub enoent : ℕ
enoent = 2

abbrev pub eexist : ℕ
eexist = 17

abbrev pub einval : ℕ
einval = 22

abbrev pub enametoolong : ℕ
enametoolong = 36

abbrev pub eopnotsupp : ℕ
eopnotsupp = 95

abbrev pub eremoteio : ℕ
eremoteio = 121

abbrev pub edquot : ℕ
edquot = 122

abbrev pub max_path_length : ℕ
max_path_length = 16384

-- `-x`
abbrev pub negated : ℤ → ℤ
negated (pos n) = neg n
negated (negsuc n) = pos (suc n)

-- The result of a validator; a read beyond a string would be a fault.
unfoldable pub validated : Option ℤ → M ℤ
validated none = faults
validated (some r) = return r

abbrev pub get : {A : Type 0} → (State → A) → M A
get f s = done (f s) s

-- `total_bytes += n`, an `unsigned long long`.
unfoldable pub add_bytes : ℕ → M (Unit {0})
add_bytes n s = done tt (record s { total_bytes = (s.total_bytes + n) % 2 ^ 64 })

-- `validate_utime_nsec`: `errx(1)` on what is no part of a second.
unfoldable pub validate_utime_nsec : ℕ → M ℕ
validate_utime_nsec nsec = if ltb 999999999 nsec then dies else return nsec

-- The answer of `openat` with O_TMPFILE. Only an old kernel or file system turns `use_tmpfile` off.
unfoldable pub tmpfile_answer : Bytes → Answer → M (Option ℕ)
tmpfile_answer name (answered fd) = return (some fd)
tmpfile_answer name (failed errno) =
    if errno == enoent || errno == eopnotsupp
    then (λ s. done none (record s { use_tmpfile = false }))
    else do_exit (pos errno) (some name)

-- The end of `copy_file`, on the state before it.
unfoldable pub after_copy : Bytes → CopyFile → M (Unit {0})
after_copy name (copied copy_file_ok out crc reads writes) s =
    done tt (record s { crc32_sum = crc; reads = reads; writes = writes })
after_copy name (copied copy_file_read_eof out crc reads writes) s =
    do_exit (pos legal_eof) (some name)
      (record s { crc32_sum = crc; reads = reads; writes = writes })
after_copy name (copied copy_file_read_error out crc reads writes) s =
    do_exit (pos legal_eof) (some name)
      (record s { crc32_sum = crc; reads = reads; writes = writes })
after_copy name (copied (copy_file_write_error errno) out crc reads writes) s =
    do_exit (pos (Option.get_or errno s.errno)) (some name)
      (record s { crc32_sum = crc; reads = reads; writes = writes })
after_copy name copy_waiting s = blocks s
after_copy name copy_overrun s = overruns s

unfoldable pub copy_data : Bytes → ℕ → M (Unit {0})
unfolding after_copy
copy_data name filelen s = after_copy name (copy_file filelen true s.crc32_sum s.reads s.writes) s

-- The two tests of `process_one_file_reg` on the size: LLONG_MAX, the limit for one file, and the
-- limit for what all files take.
unfoldable pub within_quota : ℕ → ℕ → ℕ → Bool
within_quota limit total filelen =
    not (ltb (2 ^ 63 - 1) filelen || not (limit == 0) && ltb limit filelen)
    && not (not (limit == 0) && ltb (limit - filelen) total)

module _ (kernel : List Call → Call → Answer) where
  -- "Do not change the mode of symbolic links"
  unfoldable pub change_permissions : ℕ → FileHeader → Bytes → M (Unit {0})
  change_permissions fd hdr name =
      if is_lnk hdr.mode
      then return tt
      else (do _ ← must kernel (change_mode fd (bit_and hdr.mode 0o7777)) name; return tt)

  -- Both time stamps are validated before the calls.
  unfoldable pub fix_times_and_perms : ℕ → FileHeader → Bytes → M (Unit {0})
  unfolding validate_utime_nsec change_permissions
  fix_times_and_perms fd hdr name = do
    atime_nsec ← validate_utime_nsec hdr.atime_nsec
    mtime_nsec ← validate_utime_nsec hdr.mtime_nsec
    change_permissions fd hdr name
    _ ← must kernel (change_times fd hdr.atime atime_nsec hdr.mtime mtime_nsec) name
    return tt

  -- `if (use_tmpfile)`, before the file is written: a file without a name.
  unfoldable pub try_tmpfile : Bool → Dir → Bytes → M (Option ℕ)
  unfolding tmpfile_answer
  try_tmpfile wanted dir name =
      if wanted
      then (do answer ← call kernel (open_tmpfile dir); tmpfile_answer name answer)
      else return none

  -- `if (fdout < 0)`: a file that must not exist, not accessible until it is complete.
  unfoldable pub open_output : Option ℕ → Dir → Bytes → Bytes → M ℕ
  open_output (some fd) dir segment name = return fd
  open_output none dir segment name = must kernel (create_file dir segment) name

  -- `if (opt_wait_for_space_margin)`; `wait_for_space` polls, and its result is not used.
  unfoldable pub maybe_wait : ℕ → ℕ → ℕ → M (Unit {0})
  maybe_wait margin fd filelen =
      if margin == 0
      then return tt
      else (do _ ← call kernel (wait_for_space fd ((filelen + margin) % 2 ^ 64)); return tt)

  -- `if (use_tmpfile)`, behind the data: the file gets its name.
  unfoldable pub maybe_link : Bool → ℕ → Dir → Bytes → Bytes → M (Unit {0})
  maybe_link wanted fd dir segment name =
      if wanted then (do _ ← must kernel (make_link fd dir segment) name; return tt) else return tt

  unfoldable pub process_one_file_reg : Options → FileHeader → Bytes → ℕ → M (Unit {0})
  unfolding validated try_tmpfile open_output maybe_wait maybe_link add_bytes copy_data
  process_one_file_reg options hdr name flags = do
    ret ← validated (validate_file_name_v2 name flags)
    require (is_zero ret) (negated ret) (some name)
    (dir, segment) ← opendir_safe kernel name
    wanted ← get (λ s. s.use_tmpfile)
    tmpfile ← try_tmpfile wanted dir name
    fd ← open_output tmpfile dir segment name
    total ← get (λ s. s.total_bytes)
    require (within_quota options.bytes_limit total hdr.filelen) (pos edquot) (some name)
    maybe_wait options.wait_for_space_margin fd hdr.filelen
    add_bytes hdr.filelen
    copy_data name hdr.filelen
    linked ← get (λ s. s.use_tmpfile)
    maybe_link linked fd dir segment name
    fix_times_and_perms fd hdr name

  -- Where `mkdirat` fails: the second time that a directory is sent. The exit code of a name that is
  -- refused is the negative result itself, as in the source.
  unfoldable pub after_mkdir : FileHeader → Bytes → Dir → Bytes → Answer → M (Unit {0})
  unfolding add_bytes
  after_mkdir hdr name dir segment (answered n) = return tt
  after_mkdir hdr name dir segment (failed errno) = do
    require (errno == eexist) (pos errno) (some name)
    fd ← must kernel (reopen_directory dir segment) name
    size ← must kernel (file_status fd) name
    add_bytes size
    fix_times_and_perms fd hdr name

  unfoldable pub process_one_file_dir : Options → FileHeader → Bytes → ℕ → M (Unit {0})
  unfolding validated after_mkdir
  process_one_file_dir options hdr name flags = do
    rc ← validated (validate_file_name_v2 name flags)
    require (is_zero rc) rc (some name)
    (dir, segment) ← opendir_safe kernel name
    answer ← call kernel (make_directory dir segment)
    after_mkdir hdr name dir segment answer

  -- The link's target, or the exit of a read that failed.
  unfoldable pub received : Option Bytes → Option Bytes → M Bytes
  received name none = do_exit (pos legal_eof) name
  received name (some bytes) = return (c_string bytes)

  -- Behind the limits of `process_one_file_link`: the target is read and validated, and the link made.
  unfoldable pub receive_link : FileHeader → Bytes → ℕ → M (Unit {0})
  unfolding validated received
  receive_link hdr name flags = do
    bytes ← read_all_with_crc hdr.filelen
    content ← received (some name) bytes
    rc ← validated (validate_symbolic_link_v2 name content flags)
    require (is_zero rc) (negated rc) (some content)
    (dir, segment) ← opendir_safe kernel name
    _ ← must kernel (make_symlink content dir segment) name
    return tt

  unfoldable pub process_one_file_link : Options → FileHeader → Bytes → ℕ → M (Unit {0})
  unfolding add_bytes receive_link
  process_one_file_link options hdr name flags = do
    require (not (ltb (max_path_length - 1) hdr.filelen)) (pos enametoolong) (some name)
    add_bytes hdr.filelen
    total ← get (λ s. s.total_bytes)
    require (options.bytes_limit == 0 || not (ltb options.bytes_limit total)) (pos edquot)
        (some name)
    receive_link hdr name flags
