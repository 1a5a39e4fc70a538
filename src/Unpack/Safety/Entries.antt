-- ===== src/Unpack/Safety/Entries.antt =====
-- The handlers of the three kinds of entries in qrexec-lib/unpack.c, against the rules for the calls
-- that name a file.
use qubes_linux_utils.Prelude.{
  ℕ, zero, suc, ◌-◌, ◌≡◌, refl, inl, inr, Bool, true, false, not, ◌||◌, Option, none, some, List,
  Bytes, All, ◌==◌, ltb, Bool-cases, arith, bit_and,
}
use qubes_linux_utils.Prelude.Int.{ℤ, pos, negsuc, is_pos}
use qubes_linux_utils.IoAll.{read_done, read_error, read_waiting, read_overrun, read_all}
use qubes_linux_utils.Pure.Path.Components.{split}
use qubes_linux_utils.Pure.Path.Round.{NoNul}
use qubes_linux_utils.Pure.Path.Trailing.{IsSegment}
use qubes_linux_utils.Pure.Path.{has_flag, allow_unsafe_symlinks}
use qubes_linux_utils.Pure.Path.Safety.{validate_path-total}
use qubes_linux_utils.Pure.Validate.{flag_check, check_target, validate_symbolic_link_v2, is_zero}
use qubes_linux_utils.Pure.Validate.Laws.{validate_symbolic_link_v2-total}
use qubes_linux_utils.CopyFile.{
  CopyFile, copied, copy_waiting, copy_overrun, copy_file_ok, copy_file_read_eof,
  copy_file_read_error, copy_file_write_error, copy_file,
}
use qubes_linux_utils.Unpack.Header.{FileHeader, is_lnk}
use qubes_linux_utils.Unpack.Process.{
  Dir, Call, open_tmpfile, create_file, make_directory, reopen_directory, file_status, make_link,
  make_symlink, change_mode, change_times, Answer, answered, failed, State, Options, call, require,
  with_crc, read_all_with_crc,
}
use qubes_linux_utils.Unpack.Entry
use qubes_linux_utils.Unpack.Entry.{
  validated, add_bytes, validate_utime_nsec, tmpfile_answer, after_copy, copy_data, within_quota,
  change_permissions, fix_times_and_perms, try_tmpfile, open_output, maybe_wait, maybe_link,
  process_one_file_reg, after_mkdir, process_one_file_dir, received, receive_link,
  process_one_file_link,
}
use qubes_linux_utils.Unpack.Rules.{Ends, Ends-after, Ends-require}
use qubes_linux_utils.Unpack.Safety.{
  Safe, Any, Strict, Valid, Found, validated-Valid, path-Valid, c_string-NoNul, call-Safe,
  must-Safe, opendir_safe-Safe,
}

-- Steps that make no call.
validate_utime_nsec-Safe : (n : ℕ) (s : State) → Safe s → Ends Safe Any (validate_utime_nsec n s)
unfolding validate_utime_nsec
validate_utime_nsec-Safe n s h = elim (Bool-cases (ltb 999999999 n)) [
  | inl e ↦ rw e h
  | inr e ↦ rw e (h, tt)
]

add_bytes-Safe : (n : ℕ) (s : State) → Safe s → Ends Safe Any (add_bytes n s)
unfolding add_bytes
add_bytes-Safe n s h = (h, tt)

after_copy-Safe :
    (name : Bytes) (c : CopyFile) (s : State) → Safe s → Ends Safe Any (after_copy name c s)
unfolding after_copy
after_copy-Safe name (copied copy_file_ok out crc reads writes) s h = (h, tt)
after_copy-Safe name (copied copy_file_read_eof out crc reads writes) s h = h
after_copy-Safe name (copied copy_file_read_error out crc reads writes) s h = h
after_copy-Safe name (copied (copy_file_write_error errno) out crc reads writes) s h = h
after_copy-Safe name copy_waiting s h = h
after_copy-Safe name copy_overrun s h = h

copy_data-Safe : (name : Bytes) (n : ℕ) (s : State) → Safe s → Ends Safe Any (copy_data name n s)
unfolding copy_data
copy_data-Safe name n s h = after_copy-Safe name (copy_file n true s.crc32_sum s.reads s.writes) s h

pub read_all_with_crc-Safe : (n : ℕ) (s : State) → Safe s → Ends Safe Any (read_all_with_crc n s)
unfolding read_all_with_crc with_crc
read_all_with_crc-Safe n s h = elim (read_all n s.reads) as (λ r. Ends Safe Any (with_crc r s)) [
  | read_done bytes reads ↦ (h, tt)
  | read_error errno reads ↦ (h, tt)
  | read_waiting ↦ h
  | read_overrun ↦ h
]

require-Safe :
    (b : Bool) (code : ℤ) (name : Option Bytes) (s : State)
    → Safe s
    → Ends Safe (λ _ _. b ≡ true) (require b code name s)
require-Safe b code name s h = Ends-require Safe b code name s h

-- A link that the validator takes has a name that it would take for a file.
check_target-path :
    (target : Bytes) (flags : ℕ) (r z : ℤ)
    → check_target target flags r ≡ some z
    → is_zero z ≡ true
    → is_pos r ≡ true
unfolding check_target
check_target-path target flags (pos zero) z h e =
    elim (Bool-cases (has_flag flags allow_unsafe_symlinks)) [
      | inl k ↦ absurd (ground arith)
      | inr k ↦ absurd (ground arith)
    ]
check_target-path target flags (pos (suc n)) z h e = refl
check_target-path target flags (negsuc n) z h e = absurd (ground arith)

link-path :
    (name target : Bytes) (flags : ℕ) (z : ℤ)
    → NoNul name
    → Strict flags
    → validate_symbolic_link_v2 name target flags ≡ some z
    → is_zero z ≡ true
    → All IsSegment (split name)
unfolding validate_symbolic_link_v2
link-path name target flags z clean strict e k =
    let (r, f) = validate_path-total name 0 flags clean in
    elim (Bool-cases (flag_check flags)) [
      | inr bad ↦ absurd (ground (arith, f))
      | inl good ↦
          let g : check_target target flags r ≡ some z = rw (good, f) at e in
          path-Valid name flags r clean strict f (check_target-path target flags r z g k)
    ]

link-Valid :
    (name target : Bytes) (flags : ℕ) (s : State)
    → NoNul name
    → NoNul target
    → Strict flags
    → Safe s
    → Ends Safe (Valid name) (validated (validate_symbolic_link_v2 name target flags) s)
unfolding validated
link-Valid name target flags s clean clean' strict h =
    let (z, e) = validate_symbolic_link_v2-total name target flags clean clean' in
    rw e (h, (λ k. link-path name target flags z clean strict e k))

module _ (kernel : List Call → Call → Answer) where
  change_permissions-Safe :
      (fd : ℕ) (hdr : FileHeader) (name : Bytes) (s : State)
      → Safe s
      → Ends Safe Any (change_permissions kernel fd hdr name s)
  unfolding change_permissions
  change_permissions-Safe fd hdr name s h = elim (Bool-cases (is_lnk hdr.mode)) [
    | inl e ↦ rw e (h, tt)
    | inr e ↦ rw e (
        Ends-after Safe Any Any _ _
          (must-Safe kernel (change_mode fd (bit_and hdr.mode 0o7777)) name s tt h)
          (λ r s' h' _. (h', tt)))
  ]

  fix_times_and_perms-Safe :
      (fd : ℕ) (hdr : FileHeader) (name : Bytes) (s : State)
      → Safe s
      → Ends Safe Any (fix_times_and_perms kernel fd hdr name s)
  unfolding fix_times_and_perms
  fix_times_and_perms-Safe fd hdr name s h =
      Ends-after Safe Any Any _ _ (validate_utime_nsec-Safe hdr.atime_nsec s h) (λ a s₁ h₁ _.
        Ends-after Safe Any Any _ _ (validate_utime_nsec-Safe hdr.mtime_nsec s₁ h₁) (λ m s₂ h₂ _.
          Ends-after Safe Any Any _ _ (change_permissions-Safe fd hdr name s₂ h₂) (λ _ s₃ h₃ _.
            Ends-after Safe Any Any _ _
              (must-Safe kernel (change_times fd hdr.atime a hdr.mtime m) name s₃ tt h₃)
              (λ r s₄ h₄ _. (h₄, tt)))))

  tmpfile_answer-Safe :
      (name : Bytes) (a : Answer) (s : State) → Safe s → Ends Safe Any (tmpfile_answer name a s)
  unfolding tmpfile_answer
  tmpfile_answer-Safe name (answered fd) s h = (h, tt)
  tmpfile_answer-Safe name (failed e) s h =
      elim (Bool-cases (e == Entry.enoent || e == Entry.eopnotsupp)) [
        | inl k ↦ rw k (h, tt)
        | inr k ↦ rw k h
      ]

  try_tmpfile-Safe :
      (wanted : Bool) (dir : Dir) (name : Bytes) (s : State)
      → Safe s
      → Ends Safe Any (try_tmpfile kernel wanted dir name s)
  unfolding try_tmpfile
  try_tmpfile-Safe true dir name s h =
      Ends-after Safe Any Any _ _ (call-Safe kernel (open_tmpfile dir) s tt h)
        (λ a s' h' _. tmpfile_answer-Safe name a s' h')
  try_tmpfile-Safe false dir name s h = (h, tt)

  open_output-Safe :
      (tmpfile : Option ℕ) (dir : Dir) (segment name : Bytes) (s : State)
      → IsSegment segment
      → Safe s
      → Ends Safe Any (open_output kernel tmpfile dir segment name s)
  unfolding open_output
  open_output-Safe (some fd) dir segment name s g h = (h, tt)
  open_output-Safe none dir segment name s g h =
      must-Safe kernel (create_file dir segment) name s g h

  maybe_wait-Safe :
      (margin fd filelen : ℕ) (s : State)
      → Safe s
      → Ends Safe Any (maybe_wait kernel margin fd filelen s)
  unfolding maybe_wait call
  maybe_wait-Safe margin fd filelen s h = elim (Bool-cases (margin == 0)) [
    | inl e ↦ rw e (h, tt)
    | inr e ↦ rw e ((tt, h), tt)
  ]

  maybe_link-Safe :
      (wanted : Bool) (fd : ℕ) (dir : Dir) (segment name : Bytes) (s : State)
      → IsSegment segment
      → Safe s
      → Ends Safe Any (maybe_link kernel wanted fd dir segment name s)
  unfolding maybe_link
  maybe_link-Safe true fd dir segment name s g h =
      Ends-after Safe Any Any _ _ (must-Safe kernel (make_link fd dir segment) name s g h)
        (λ r s' h' _. (h', tt))
  maybe_link-Safe false fd dir segment name s g h = (h, tt)

  pub process_one_file_reg-Safe :
      (options : Options) (hdr : FileHeader) (name : Bytes) (flags : ℕ) (s : State)
      → NoNul name
      → Strict flags
      → Safe s
      → Ends Safe Any (process_one_file_reg kernel options hdr name flags s)
  unfolding process_one_file_reg
  process_one_file_reg-Safe options hdr name flags s clean strict h =
      Ends-after Safe (Valid name) Any _ _ (validated-Valid name flags s clean strict h)
        (λ ret s₁ h₁ v.
          Ends-after Safe _ Any _ _ (require-Safe (is_zero ret) _ (some name) s₁ h₁) (λ _ s₂ h₂ z.
            Ends-after Safe (Found kernel) Any _ _ (opendir_safe-Safe kernel name s₂ (v z) h₂)
              (λ found s₃ h₃ g.
                Ends-after Safe Any Any _ _ (try_tmpfile-Safe s₃.use_tmpfile found.0 name s₃ h₃)
                  (λ tmpfile s₄ h₄ _.
                    Ends-after Safe Any Any _ _
                      (open_output-Safe tmpfile found.0 found.1 name s₄ g h₄)
                      (λ fd s₅ h₅ _.
                        Ends-after Safe _ Any _ _
                          (require-Safe
                            (within_quota options.bytes_limit s₅.total_bytes hdr.filelen) _
                            (some name) s₅ h₅)
                          (λ _ s₆ h₆ _.
                            Ends-after Safe Any Any _ _
                              (maybe_wait-Safe options.wait_for_space_margin fd hdr.filelen s₆ h₆)
                              (λ _ s₇ h₇ _.
                                Ends-after {A = Unit {0}} {B = Unit {0}} Safe Any Any
                                  (add_bytes hdr.filelen s₇) _ (add_bytes-Safe hdr.filelen s₇ h₇)
                                  (λ _ s₈ h₈ _.
                                    Ends-after Safe Any Any _ _
                                      (copy_data-Safe name hdr.filelen s₈ h₈)
                                      (λ _ s₉ h₉ _.
                                        Ends-after Safe Any Any _ _
                                          (maybe_link-Safe s₉.use_tmpfile fd found.0 found.1 name s₉
                                            g h₉)
                                          (λ _ t k _.
                                            fix_times_and_perms-Safe fd hdr name t k))))))))))

  after_mkdir-Safe :
      (hdr : FileHeader) (name : Bytes) (dir : Dir) (segment : Bytes) (a : Answer) (s : State)
      → IsSegment segment
      → Safe s
      → Ends Safe Any (after_mkdir kernel hdr name dir segment a s)
  unfolding after_mkdir
  after_mkdir-Safe hdr name dir segment (answered n) s g h = (h, tt)
  after_mkdir-Safe hdr name dir segment (failed e) s g h =
      Ends-after Safe _ Any _ _ (require-Safe (e == Entry.eexist) (pos e) (some name) s h)
        (λ _ s₁ h₁ _.
          Ends-after Safe Any Any _ _ (must-Safe kernel (reopen_directory dir segment) name s₁ g h₁)
            (λ fd s₂ h₂ _.
              Ends-after Safe Any Any _ _ (must-Safe kernel (file_status fd) name s₂ tt h₂)
                (λ size s₃ h₃ _.
                  Ends-after {A = Unit {0}} {B = Unit {0}} Safe Any Any (add_bytes size s₃) _
                    (add_bytes-Safe size s₃ h₃)
                    (λ _ s₄ h₄ _. fix_times_and_perms-Safe fd hdr name s₄ h₄))))

  pub process_one_file_dir-Safe :
      (options : Options) (hdr : FileHeader) (name : Bytes) (flags : ℕ) (s : State)
      → NoNul name
      → Strict flags
      → Safe s
      → Ends Safe Any (process_one_file_dir kernel options hdr name flags s)
  unfolding process_one_file_dir
  process_one_file_dir-Safe options hdr name flags s clean strict h =
      Ends-after Safe (Valid name) Any _ _ (validated-Valid name flags s clean strict h)
        (λ rc s₁ h₁ v.
          Ends-after Safe _ Any _ _ (require-Safe (is_zero rc) rc (some name) s₁ h₁) (λ _ s₂ h₂ z.
            Ends-after Safe (Found kernel) Any _ _ (opendir_safe-Safe kernel name s₂ (v z) h₂)
              (λ found s₃ h₃ g.
                Ends-after Safe Any Any _ _
                  (call-Safe kernel (make_directory found.0 found.1) s₃ g h₃)
                  (λ a s₄ h₄ _. after_mkdir-Safe hdr name found.0 found.1 a s₄ g h₄))))

  -- The target of a link is what was received, up to its NUL.
  received-Safe :
      (name : Option Bytes) (bytes : Option Bytes) (s : State)
      → Safe s
      → Ends Safe (λ content _. NoNul content) (received kernel name bytes s)
  unfolding received
  received-Safe name none s h = h
  received-Safe name (some bytes) s h = (h, c_string-NoNul bytes)

  receive_link-Safe :
      (hdr : FileHeader) (name : Bytes) (flags : ℕ) (s : State)
      → NoNul name
      → Strict flags
      → Safe s
      → Ends Safe Any (receive_link kernel hdr name flags s)
  unfolding receive_link
  receive_link-Safe hdr name flags s clean strict h =
      Ends-after Safe Any Any _ _ (read_all_with_crc-Safe hdr.filelen s h) (λ bytes s₁ h₁ _.
        Ends-after Safe (λ content _. NoNul content) Any _ _ (received-Safe (some name) bytes s₁ h₁)
          (λ content s₂ h₂ clean'.
            Ends-after Safe (Valid name) Any _ _
              (link-Valid name content flags s₂ clean clean' strict h₂)
              (λ rc s₃ h₃ v.
                Ends-after Safe _ Any _ _ (require-Safe (is_zero rc) _ (some content) s₃ h₃)
                  (λ _ s₄ h₄ z.
                    Ends-after Safe (Found kernel) Any _ _
                      (opendir_safe-Safe kernel name s₄ (v z) h₄)
                      (λ found s₅ h₅ g.
                        Ends-after Safe Any Any _ _
                          (must-Safe kernel (make_symlink content found.0 found.1) name s₅ g h₅)
                          (λ r s₆ h₆ _. (h₆, tt)))))))

  pub process_one_file_link-Safe :
      (options : Options) (hdr : FileHeader) (name : Bytes) (flags : ℕ) (s : State)
      → NoNul name
      → Strict flags
      → Safe s
      → Ends Safe Any (process_one_file_link kernel options hdr name flags s)
  unfolding process_one_file_link
  process_one_file_link-Safe options hdr name flags s clean strict h =
      Ends-after {A = Unit {0}} {B = Unit {0}} Safe
        (λ _ _. not (ltb (Entry.max_path_length - 1) hdr.filelen) ≡ true) Any _ _
        (require-Safe (not (ltb (Entry.max_path_length - 1) hdr.filelen)) (pos Entry.enametoolong)
          (some name) s h)
        (λ _ s₁ h₁ _.
          Ends-after {A = Unit {0}} {B = Unit {0}} Safe Any Any (add_bytes hdr.filelen s₁) _
            (add_bytes-Safe hdr.filelen s₁ h₁)
            (λ _ s₂ h₂ _.
              Ends-after {A = Unit {0}} {B = Unit {0}} Safe
                (λ _ _.
                  options.bytes_limit == 0 || not (ltb options.bytes_limit s₂.total_bytes) ≡ true)
                Any _ _
                (require-Safe
                  (options.bytes_limit == 0 || not (ltb options.bytes_limit s₂.total_bytes))
                  (pos Entry.edquot) (some name) s₂ h₂)
                (λ _ s₃ h₃ _. receive_link-Safe hdr name flags s₃ clean strict h₃)))
