-- ===== src/Unpack/Rounds/Entries.antt =====
-- The handlers of qrexec-lib/unpack.c give no call of `read` back.
use qubes_linux_utils.Prelude.{
  ℕ, ◌+◌, ◌-◌, Bool, true, not, ◌||◌, Option, none, some, List, [], ◌∷◌, Bytes, length, bit_and,
  ◌%◌, ◌^◌, ◌==◌, ltb, arith,
}
use qubes_linux_utils.Prelude.Int.{ℤ, pos}
use qubes_linux_utils.Pure.Validate.{validate_file_name_v2, validate_symbolic_link_v2, is_zero}
use qubes_linux_utils.Pure.Path.Components.{split}
use qubes_linux_utils.CopyFile.{
  CopyFile, copy_file_ok, copy_file_read_eof, copy_file_read_error, copy_file_write_error, copied,
  copy_waiting, copy_overrun,
}
use qubes_linux_utils.CopyFile.Progress.{Consumes, copy_file-Consumes}
use qubes_linux_utils.Unpack.Header.{FileHeader, is_lnk}
use qubes_linux_utils.Unpack.Process.{
  Dir, cwd, opened, Call, open_directory, open_tmpfile, create_file, make_directory,
  reopen_directory, file_status, make_link, make_symlink, change_mode, change_times, wait_for_space,
  Answer, answered, failed, State, Options, ◌>>=◌, return, do_exit, require, or_exit, call, must,
  dies, aborts, read_all_with_crc,
}
use qubes_linux_utils.Unpack.Walk.{is_forbidden, open_segments, opendir_safe}
use qubes_linux_utils.Unpack.Entry.{
  enoent, eexist, eopnotsupp, enametoolong, edquot, max_path_length, negated, validated, get,
  add_bytes, validate_utime_nsec, tmpfile_answer, after_copy, copy_data, within_quota,
  change_permissions, fix_times_and_perms, try_tmpfile, open_output, maybe_wait, maybe_link,
  process_one_file_reg, after_mkdir, process_one_file_dir, received, receive_link,
  process_one_file_link,
}
use qubes_linux_utils.Unpack.Rounds.{
  Leaves, Uses, Uses-bind, Uses-then, Uses-return, Uses-if, Uses-require, read_all_with_crc-Uses,
}

pub validated-Uses : (r : Option ℤ) → Uses (validated r)
unfolding validated
validated-Uses none s = tt
validated-Uses (some r) s = omega arith

add_bytes-Uses : (n : ℕ) → Uses (add_bytes n)
unfolding add_bytes
add_bytes-Uses n s = omega arith

validate_utime_nsec-Uses : (nsec : ℕ) → Uses (validate_utime_nsec nsec)
unfolding validate_utime_nsec
validate_utime_nsec-Uses nsec =
    Uses-if (ltb 999999999 nsec) dies (return nsec) (λ s. tt) (Uses-return nsec)

tmpfile_answer-Uses : (name : Bytes) (answer : Answer) → Uses (tmpfile_answer name answer)
unfolding tmpfile_answer
tmpfile_answer-Uses name (answered fd) = Uses-return (some fd)
tmpfile_answer-Uses name (failed errno) =
    Uses-if {A = Option ℕ} (errno == enoent || errno == eopnotsupp) _
      (do_exit (pos errno) (some name)) (λ s. omega arith) (λ s. tt)

after_copy-Leaves :
    (name : Bytes) (c : CopyFile) (s : State)
    → Consumes (length s.reads) c
    → Leaves (length s.reads) (after_copy name c s)
unfolding after_copy
after_copy-Leaves name (copied copy_file_ok out crc reads writes) s h = h
after_copy-Leaves name (copied copy_file_read_eof out crc reads writes) s h = tt
after_copy-Leaves name (copied copy_file_read_error out crc reads writes) s h = tt
after_copy-Leaves name (copied (copy_file_write_error errno) out crc reads writes) s h = tt
after_copy-Leaves name copy_waiting s h = tt
after_copy-Leaves name copy_overrun s h = tt

copy_data-Uses : (name : Bytes) (filelen : ℕ) → Uses (copy_data name filelen)
unfolding copy_data
copy_data-Uses name filelen s =
    after_copy-Leaves name _ s (copy_file-Consumes filelen true s.crc32_sum s.reads s.writes)

get-Uses : {A : Type 0} (f : State → A) → Uses (get f)
get-Uses f s = omega arith

module _ (kernel : List Call → Call → Answer) where
  pub call-Uses : (c : Call) → Uses (call kernel c)
  unfolding call
  call-Uses c s = omega arith

  or_exit-Uses : (name : Bytes) (a : Answer) → Uses (or_exit name a)
  unfolding or_exit
  or_exit-Uses name (answered n) s = omega arith
  or_exit-Uses name (failed errno) s = tt

  must-Uses : (c : Call) (name : Bytes) → Uses (must kernel c name)
  unfolding must
  must-Uses c name = Uses-bind (call kernel c) (or_exit name) (call-Uses c) (or_exit-Uses name)

  -- A call whose result is not used.
  must_do-Uses :
      (c : Call) (name : Bytes) → Uses (must kernel c name >>= (λ n. return {A = Unit {0}} tt))
  must_do-Uses c name =
      Uses-bind (must kernel c name) (λ n. return tt) (must-Uses c name) (λ n. Uses-return tt)

  open_segments-Uses :
      (segments : List Bytes) (dir : Dir) → Uses (open_segments kernel dir segments)
  unfolding open_segments
  open_segments-Uses [] dir = λ s. tt
  open_segments-Uses (segment ∷ []) dir = Uses-return {A = Dir × Bytes} (dir, segment)
  open_segments-Uses (segment ∷ (next ∷ rest)) dir =
      Uses-if (is_forbidden segment) aborts _ (λ s. tt)
        (Uses-bind (must kernel (open_directory dir segment) segment) _
          (must-Uses (open_directory dir segment) segment)
          (λ fd. open_segments-Uses (next ∷ rest) (opened fd)))

  opendir_safe-Uses : (path : Bytes) → Uses (opendir_safe kernel path)
  unfolding opendir_safe
  opendir_safe-Uses path = open_segments-Uses (split path) cwd

  change_permissions-Uses :
      (fd : ℕ) (hdr : FileHeader) (name : Bytes) → Uses (change_permissions kernel fd hdr name)
  unfolding change_permissions
  change_permissions-Uses fd hdr name =
      Uses-if (is_lnk hdr.mode) (return tt) _ (Uses-return tt)
        (must_do-Uses (change_mode fd (bit_and hdr.mode 0o7777)) name)

  fix_times_and_perms-Uses :
      (fd : ℕ) (hdr : FileHeader) (name : Bytes) → Uses (fix_times_and_perms kernel fd hdr name)
  unfolding fix_times_and_perms
  fix_times_and_perms-Uses fd hdr name =
      Uses-bind (validate_utime_nsec hdr.atime_nsec) _ (validate_utime_nsec-Uses hdr.atime_nsec)
        (λ a.
          Uses-bind (validate_utime_nsec hdr.mtime_nsec) _ (validate_utime_nsec-Uses hdr.mtime_nsec)
            (λ m.
              Uses-then (change_permissions kernel fd hdr name) _
                (change_permissions-Uses fd hdr name)
                (must_do-Uses (change_times fd hdr.atime a hdr.mtime m) name)))

  try_tmpfile-Uses :
      (wanted : Bool) (dir : Dir) (name : Bytes) → Uses (try_tmpfile kernel wanted dir name)
  unfolding try_tmpfile
  try_tmpfile-Uses wanted dir name =
      Uses-if {A = Option ℕ} wanted _ (return none)
        (Uses-bind (call kernel (open_tmpfile dir)) (tmpfile_answer name)
          (call-Uses (open_tmpfile dir)) (tmpfile_answer-Uses name))
        (Uses-return {A = Option ℕ} none)

  open_output-Uses :
      (tmpfile : Option ℕ) (dir : Dir) (segment name : Bytes)
      → Uses (open_output kernel tmpfile dir segment name)
  unfolding open_output
  open_output-Uses (some fd) dir segment name = Uses-return fd
  open_output-Uses none dir segment name = must-Uses (create_file dir segment) name

  maybe_wait-Uses : (margin fd filelen : ℕ) → Uses (maybe_wait kernel margin fd filelen)
  unfolding maybe_wait
  maybe_wait-Uses margin fd filelen = Uses-if (margin == 0) (return tt) _ (Uses-return tt) (
      Uses-bind (call kernel (wait_for_space fd ((filelen + margin) % 2 ^ 64))) (λ a. return tt)
        (call-Uses (wait_for_space fd ((filelen + margin) % 2 ^ 64))) (λ a. Uses-return tt))

  maybe_link-Uses :
      (wanted : Bool) (fd : ℕ) (dir : Dir) (segment name : Bytes)
      → Uses (maybe_link kernel wanted fd dir segment name)
  unfolding maybe_link
  maybe_link-Uses wanted fd dir segment name =
      Uses-if wanted _ (return tt) (must_do-Uses (make_link fd dir segment) name) (Uses-return tt)

  -- The file's data, behind the opening of the output.
  pub process_one_file_reg-Uses :
      (options : Options) (hdr : FileHeader) (name : Bytes) (flags : ℕ)
      → Uses (process_one_file_reg kernel options hdr name flags)
  unfolding process_one_file_reg
  process_one_file_reg-Uses options hdr name flags =
      Uses-bind (validated (validate_file_name_v2 name flags)) _ (validated-Uses _) (λ ret.
        Uses-then (require (is_zero ret) (negated ret) (some name)) _ (Uses-require _ _ _) (
          Uses-bind (opendir_safe kernel name) _ (opendir_safe-Uses name) (λ (dir, segment).
            Uses-bind (get (λ s. s.use_tmpfile)) _ (get-Uses (λ s. s.use_tmpfile)) (λ wanted.
              Uses-bind (try_tmpfile kernel wanted dir name) _ (try_tmpfile-Uses wanted dir name)
                (λ tmpfile.
                  Uses-bind (open_output kernel tmpfile dir segment name) _
                    (open_output-Uses tmpfile dir segment name)
                    (λ fd.
                      Uses-bind (get (λ s. s.total_bytes)) _ (get-Uses (λ s. s.total_bytes))
                        (λ total.
                          Uses-then
                            (require (within_quota options.bytes_limit total hdr.filelen)
                              (pos edquot) (some name))
                            _ (Uses-require _ _ _)
                            (Uses-then
                              (maybe_wait kernel options.wait_for_space_margin fd hdr.filelen) _
                              (maybe_wait-Uses options.wait_for_space_margin fd hdr.filelen)
                              (Uses-then (add_bytes hdr.filelen) _ (add_bytes-Uses hdr.filelen) (
                                Uses-then (copy_data name hdr.filelen) _
                                  (copy_data-Uses name hdr.filelen)
                                  (Uses-bind (get (λ s. s.use_tmpfile)) _
                                    (get-Uses (λ s. s.use_tmpfile))
                                    (λ linked.
                                      Uses-then (maybe_link kernel linked fd dir segment name) _
                                        (maybe_link-Uses linked fd dir segment name)
                                        (fix_times_and_perms-Uses fd hdr name)))))))))))))

  after_mkdir-Uses :
      (hdr : FileHeader) (name : Bytes) (dir : Dir) (segment : Bytes) (a : Answer)
      → Uses (after_mkdir kernel hdr name dir segment a)
  unfolding after_mkdir
  after_mkdir-Uses hdr name dir segment (answered n) = Uses-return tt
  after_mkdir-Uses hdr name dir segment (failed errno) =
      Uses-then (require (errno == eexist) (pos errno) (some name)) _ (Uses-require _ _ _) (
        Uses-bind (must kernel (reopen_directory dir segment) name) _
          (must-Uses (reopen_directory dir segment) name)
          (λ fd.
            Uses-bind (must kernel (file_status fd) name) _ (must-Uses (file_status fd) name)
              (λ size.
                Uses-then (add_bytes size) _ (add_bytes-Uses size)
                  (fix_times_and_perms-Uses fd hdr name))))

  pub process_one_file_dir-Uses :
      (options : Options) (hdr : FileHeader) (name : Bytes) (flags : ℕ)
      → Uses (process_one_file_dir kernel options hdr name flags)
  unfolding process_one_file_dir
  process_one_file_dir-Uses options hdr name flags =
      Uses-bind (validated (validate_file_name_v2 name flags)) _ (validated-Uses _) (λ rc.
        Uses-then (require (is_zero rc) rc (some name)) _ (Uses-require _ _ _) (
          Uses-bind (opendir_safe kernel name) _ (opendir_safe-Uses name) (λ (dir, segment).
            Uses-bind (call kernel (make_directory dir segment)) _
              (call-Uses (make_directory dir segment)) (after_mkdir-Uses hdr name dir segment))))

  received-Uses : (name : Option Bytes) (bytes : Option Bytes) → Uses (received kernel name bytes)
  unfolding received
  received-Uses name none s = tt
  received-Uses name (some bytes) s = omega arith

  receive_link-Uses :
      (hdr : FileHeader) (name : Bytes) (flags : ℕ) → Uses (receive_link kernel hdr name flags)
  unfolding receive_link
  receive_link-Uses hdr name flags =
      Uses-bind (read_all_with_crc hdr.filelen) _ (read_all_with_crc-Uses hdr.filelen) (λ bytes.
        Uses-bind (received kernel (some name) bytes) _ (received-Uses (some name) bytes)
          (λ content.
            Uses-bind (validated (validate_symbolic_link_v2 name content flags)) _
              (validated-Uses _)
              (λ rc.
                Uses-then (require (is_zero rc) (negated rc) (some content)) _ (Uses-require _ _ _)
                  (Uses-bind (opendir_safe kernel name) _ (opendir_safe-Uses name)
                    (λ (dir, segment). must_do-Uses (make_symlink content dir segment) name)))))

  pub process_one_file_link-Uses :
      (options : Options) (hdr : FileHeader) (name : Bytes) (flags : ℕ)
      → Uses (process_one_file_link kernel options hdr name flags)
  unfolding process_one_file_link
  process_one_file_link-Uses options hdr name flags =
      Uses-then
        (require (not (ltb (max_path_length - 1) hdr.filelen)) (pos enametoolong) (some name)) _
        (Uses-require _ _ _)
        (Uses-then (add_bytes hdr.filelen) _ (add_bytes-Uses hdr.filelen) (
          Uses-bind (get (λ s. s.total_bytes)) _ (get-Uses (λ s. s.total_bytes)) (λ total.
            Uses-then
              (require (options.bytes_limit == 0 || not (ltb options.bytes_limit total))
                (pos edquot) (some name))
              _ (Uses-require _ _ _) (receive_link-Uses hdr name flags))))
