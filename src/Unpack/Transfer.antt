-- ===== src/Unpack/Transfer.antt =====
-- qrexec-lib/unpack.c: `process_one_file` and `do_unpack_ext`.
use qubes_linux_utils.Prelude.{
  ℕ, zero, suc, ◌+◌, ◌-◌, ◌/◌, ◌%◌, ◌^◌, bit_and, Bool, not, ◌&&◌, ◌||◌, Option, none, some, List,
  Bytes, ◌==◌, ltb, if◌then◌else◌,
}
use qubes_linux_utils.Prelude.Int.{pos}
use qubes_linux_utils.Unpack.Header.{FileHeader, header_size, decode_header, is_reg, is_lnk, is_dir}
use qubes_linux_utils.Unpack.Process.{
  Call, sync_directory, Answer, answered, failed, Options, M, ◌>>=◌, ◌>>◌, return, do_exit, require,
  call, done, c_string, read_all_with_crc,
}
use qubes_linux_utils.Unpack.Entry.{
  legal_eof, einval, enametoolong, eremoteio, edquot, max_path_length, get, process_one_file_reg,
  process_one_file_dir, process_one_file_link,
}

-- enum copy_flags
abbrev pub copy_allow_symlinks : ℕ
copy_allow_symlinks = 1

abbrev pub copy_allow_directories : ℕ
copy_allow_directories = 2

-- The flags of the validators: `((uint32_t)flags >> 2)` cut to the three that a transfer may set.
abbrev pub validate_flags : ℕ → ℕ
validate_flags flags = bit_and (flags % 2 ^ 32 / 2 ^ 2) 7

abbrev pub allows : ℕ → ℕ → Bool
allows flags flag = not (bit_and flags flag == 0)

-- The name buffer that `read_all_with_crc` has filled, with the NUL behind it.
unfoldable pub store_name : Option Bytes → M Bytes
store_name none = do_exit (pos legal_eof) none
store_name (some bytes) = λ s. done (c_string bytes) (record s { namebuf = c_string bytes })

-- How the loop is left: with the end marker seen, or not; the fuel is not part of the source.
pub data Ending : Type 0 where
  marker_seen cut_short out_of_fuel : Ending

-- The loop behind the header: the end marker is a header with no name.
unfoldable pub unpack_next : Option Bytes → (FileHeader → M Ending) → M Ending
unpack_next none next = return cut_short
unpack_next (some bytes) next =
    let more = next (decode_header bytes) in
    if (decode_header bytes).namelen == 0
    then (λ s. done marker_seen (record s { errno = 0 }))
    else more

-- `total_bytes = total_files = 0; crc32_sum = 0;`
unfoldable pub reset : M (Unit {0})
reset s = done tt (record s { total_bytes = 0; total_files = 0; crc32_sum = 0 })

-- `if (!end_of_transfer_marker_seen && !errno) errno = EREMOTEIO;`
unfoldable pub end_errno : Ending → M (Unit {0})
end_errno marker_seen s = done tt s
end_errno _ s = done tt (record s { errno = if s.errno == 0 then eremoteio else s.errno })

unfoldable pub after_sync : Answer → M (Unit {0})
after_sync (answered n) s = done tt s
after_sync (failed errno) s = done tt (record s { errno = errno })

module _ (kernel : List Call → Call → Answer) where
  -- The choice by the type of the entry.
  unfoldable pub process_by_type : Options → ℕ → FileHeader → Bytes → M (Unit {0})
  process_by_type options flags hdr name =
      if is_reg hdr.mode
      then process_one_file_reg kernel options hdr name (validate_flags flags)
      else if is_lnk hdr.mode && allows flags copy_allow_symlinks
      then process_one_file_link kernel options hdr name (validate_flags flags)
      else if is_dir hdr.mode && allows flags copy_allow_directories
      then process_one_file_dir kernel options hdr name (validate_flags flags)
      else do_exit (pos einval) (some name)

  unfoldable pub process_one_file : Options → ℕ → FileHeader → M (Unit {0})
  unfolding store_name process_by_type
  process_one_file options flags hdr = do
    require (not (ltb (max_path_length - 1) hdr.namelen)) (pos enametoolong) none
    bytes ← read_all_with_crc hdr.namelen
    name ← store_name bytes
    process_by_type options flags hdr name

  -- One more entry: `total_files++` and the limit.
  unfoldable pub count_file : Options → M (Unit {0})
  count_file options s =
      let s' = record s { total_files = (s.total_files + 1) % 2 ^ 64 } in
      require (options.files_limit == 0 || not (ltb options.files_limit s'.total_files))
        (pos edquot) (some s'.namebuf) s'

  -- One entry, whose header is not the end marker.
  unfoldable pub process_entry : Options → ℕ → FileHeader → M (Unit {0})
  unfolding count_file process_one_file
  process_entry options flags hdr = do count_file options; process_one_file options flags hdr

  -- The `while` loop. `errno` is 0 when the end marker is seen.
  unfoldable pub unpack_loop : ℕ → Options → ℕ → M Ending
  unfolding process_entry
  unpack_loop zero options flags = return out_of_fuel
  unpack_loop (suc fuel) options flags = do
    bytes ← read_all_with_crc header_size
    unpack_next bytes (λ hdr. process_entry options flags hdr >> unpack_loop fuel options flags)

  -- `open(".")`, `syncfs` and `close`, as one call: `errno` is what it was unless one of them fails.
  unfoldable pub sync : M (Unit {0})
  sync = do answer ← call kernel sync_directory; after_sync answer

  -- The whole transfer; the result is what `do_unpack_ext` returns.
  unfoldable pub do_unpack_ext : ℕ → Options → ℕ → M ℕ
  unfolding unpack_loop unpack_next reset end_errno sync after_sync
  do_unpack_ext fuel options flags = do
    reset
    ending ← unpack_loop fuel options flags
    end_errno ending
    sync
    get (λ s. s.errno)
