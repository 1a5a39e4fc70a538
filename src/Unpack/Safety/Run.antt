-- ===== src/Unpack/Safety/Run.antt =====
-- A whole run of `do_unpack_ext` in qrexec-lib/unpack.c, for every stream and every kernel.
use qubes_linux_utils.Prelude.{
  ℕ, zero, suc, ◌+◌, ◌%◌, ◌^◌, ◌||◌, ◌-◌, inl, inr, not, ◌&&◌, Option, none, some, List, Bytes,
  ◌==◌, ltb, Bool-cases,
}
use qubes_linux_utils.Pure.Path.Round.{NoNul}
use qubes_linux_utils.Unpack.Header.{FileHeader, header_size, decode_header, is_reg, is_lnk, is_dir}
use qubes_linux_utils.Unpack.Process.{
  Call, sync_directory, Answer, answered, failed, State, Options, M,
}
use qubes_linux_utils.Unpack.Entry
use qubes_linux_utils.Unpack.Transfer.{
  copy_allow_symlinks, copy_allow_directories, validate_flags, allows, store_name, Ending,
  marker_seen, cut_short, out_of_fuel, unpack_next, reset, end_errno, after_sync, process_by_type,
  process_one_file, count_file, process_entry, unpack_loop, sync, do_unpack_ext,
}
use qubes_linux_utils.Unpack.Rules.{Ends, Ends-after, Ends-require}
use qubes_linux_utils.Unpack.Safety.{Safe, Any, validate_flags-Strict, c_string-NoNul, call-Safe}
use qubes_linux_utils.Unpack.Safety.Entries.{
  read_all_with_crc-Safe, process_one_file_reg-Safe, process_one_file_link-Safe,
  process_one_file_dir-Safe,
}

store_name-Safe :
    (bytes : Option Bytes) (s : State)
    → Safe s
    → Ends Safe (λ name _. NoNul name) (store_name bytes s)
unfolding store_name
store_name-Safe none s h = h
store_name-Safe (some bytes) s h = (h, c_string-NoNul bytes)

end_errno-Safe : (ending : Ending) (s : State) → Safe s → Ends Safe Any (end_errno ending s)
unfolding end_errno
end_errno-Safe marker_seen s h = (h, tt)
end_errno-Safe cut_short s h = (h, tt)
end_errno-Safe out_of_fuel s h = (h, tt)

after_sync-Safe : (a : Answer) (s : State) → Safe s → Ends Safe Any (after_sync a s)
unfolding after_sync
after_sync-Safe (answered n) s h = (h, tt)
after_sync-Safe (failed e) s h = (h, tt)

unpack_next-Safe :
    (bytes : Option Bytes) (next : FileHeader → M Ending) (s : State)
    → ((hdr : FileHeader) → Ends Safe Any (next hdr s))
    → Safe s
    → Ends Safe Any (unpack_next bytes next s)
unfolding unpack_next
unpack_next-Safe none next s k h = (h, tt)
unpack_next-Safe (some bytes) next s k h = elim (Bool-cases ((decode_header bytes).namelen == 0)) [
  | inl e ↦ rw e (h, tt)
  | inr e ↦ rw e (k (decode_header bytes))
]

module _ (kernel : List Call → Call → Answer) where
  process_by_type-Safe :
      (options : Options) (flags : ℕ) (hdr : FileHeader) (name : Bytes) (s : State)
      → NoNul name
      → Safe s
      → Ends Safe Any (process_by_type kernel options flags hdr name s)
  unfolding process_by_type
  process_by_type-Safe options flags hdr name s clean h =
      let strict = validate_flags-Strict flags in
      elim (Bool-cases (is_reg hdr.mode)) [
        | inl e ↦ rw e (
            process_one_file_reg-Safe kernel options hdr name (validate_flags flags) s clean strict
              h)
        | inr e ↦ elim (Bool-cases (is_lnk hdr.mode && allows flags copy_allow_symlinks)) [
          | inl f ↦
              rw (e, f)
                (process_one_file_link-Safe kernel options hdr name (validate_flags flags) s clean
                  strict h)
          | inr f ↦ elim (Bool-cases (is_dir hdr.mode && allows flags copy_allow_directories)) [
            | inl g ↦
                rw (e, f, g)
                  (process_one_file_dir-Safe kernel options hdr name (validate_flags flags) s clean
                    strict h)
            | inr g ↦ rw (e, f, g) h
          ]
        ]
      ]

  count_file-Safe :
      (options : Options) (s : State) → Safe s → Ends Safe Any (count_file kernel options s)
  unfolding count_file
  count_file-Safe options s h =
      elim (Bool-cases (
        options.files_limit == 0 || not (ltb options.files_limit ((s.total_files + 1) % 2 ^ 64)))) [
          | inl e ↦ rw e (h, tt)
          | inr e ↦ rw e h
        ]

  process_entry-Safe :
      (options : Options) (flags : ℕ) (hdr : FileHeader) (s : State)
      → Safe s
      → Ends Safe Any (process_entry kernel options flags hdr s)
  unfolding process_entry process_one_file
  process_entry-Safe options flags hdr s h =
      Ends-after {A = Unit {0}} {B = Unit {0}} Safe Any Any (count_file kernel options s) _
        (count_file-Safe options s h)
        (λ _ s₁ h₁ _.
          Ends-after Safe _ Any _ _
            (Ends-require Safe (not (ltb (Entry.max_path_length - 1) hdr.namelen)) _ _ s₁ h₁)
            (λ _ s₂ h₂ _.
              Ends-after Safe Any Any _ _ (read_all_with_crc-Safe hdr.namelen s₂ h₂)
                (λ bytes s₃ h₃ _.
                  Ends-after Safe (λ name _. NoNul name) Any _ _ (store_name-Safe bytes s₃ h₃)
                    (λ name s₄ h₄ clean. process_by_type-Safe options flags hdr name s₄ clean h₄))))

  unpack_loop-Safe :
      (fuel : ℕ) (options : Options) (flags : ℕ) (s : State)
      → Safe s
      → Ends Safe Any (unpack_loop kernel fuel options flags s)
  unfolding unpack_loop
  unpack_loop-Safe zero options flags s h = (h, tt)
  unpack_loop-Safe (suc fuel) options flags s h =
      Ends-after Safe Any Any _ _ (read_all_with_crc-Safe header_size s h) (λ bytes s₁ h₁ _.
        unpack_next-Safe bytes _ s₁
          (λ hdr.
            Ends-after {A = Unit {0}} Safe Any Any (process_entry kernel options flags hdr s₁) _
              (process_entry-Safe options flags hdr s₁ h₁)
              (λ _ s₂ h₂ _. unpack_loop-Safe fuel options flags s₂ h₂))
          h₁)

  sync-Safe : (s : State) → Safe s → Ends Safe Any (sync kernel s)
  unfolding sync
  sync-Safe s h =
      Ends-after Safe Any Any _ _ (call-Safe kernel sync_directory s tt h)
        (λ a s' h' _. after_sync-Safe a s' h')

  reset-Safe : (s : State) → Safe s → Ends Safe Any (reset s)
  unfolding reset
  reset-Safe s h = (h, tt)

  -- Whatever the sender sends, whatever the kernel answers and however many rounds the loop takes,
  -- a transfer that begins after calls with safe names only does not reach the `abort` of
  -- `opendir_safe` nor read beyond a string, and at every point where it can end, each path segment
  -- that it has handed to the kernel to open, create or link is a name: not "", "." or "..".
  pub do_unpack_ext-Safe :
      (fuel : ℕ) (options : Options) (flags : ℕ) (s : State)
      → Safe s
      → Ends Safe Any (do_unpack_ext kernel fuel options flags s)
  unfolding do_unpack_ext
  do_unpack_ext-Safe fuel options flags s h =
      Ends-after {A = Unit {0}} {B = ℕ} Safe Any Any (reset s) _ (reset-Safe s h) (λ _ s₁ h₁ _.
        Ends-after {B = ℕ} Safe Any Any _ _ (unpack_loop-Safe fuel options flags s₁ h₁)
          (λ ending s₂ h₂ _.
            Ends-after {A = Unit {0}} {B = ℕ} Safe Any Any (end_errno ending s₂) _
              (end_errno-Safe ending s₂ h₂)
              (λ _ s₃ h₃ _.
                Ends-after {A = Unit {0}} {B = ℕ} Safe Any Any (sync kernel s₃)
                  (λ _. Entry.get (λ t. t.errno)) (sync-Safe s₃ h₃) (λ _ s₄ h₄ _. (h₄, tt)))))
