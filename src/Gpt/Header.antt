-- ===== src/Gpt/Header.antt =====
-- gptfixer/gpt.c: `check_gpt_header`. zlib's `crc32(0, ...)` is a parameter.
pub mod Laws
use qubes_linux_utils.Prelude.{
  ℕ, ◌+◌, ◌-◌, ◌*◌, ◌^◌, Bool, true, false, not, ◌&&◌, ◌||◌, Option, none, some, List, [], ◌∷◌,
  Bytes, ◌==◌, ltb, if◌then◌else◌,
}
use qubes_linux_utils.Pure.QubeName.{same}
use qubes_linux_utils.Gpt.Disk.{
  Run, done, exits, asserts, assert, demand, ◌>>=◌, ◌>>◌, GptHeader, header_bytes, sizeof_header,
  sizeof_entry, exit_unsupported, exit_truncated,
}
use qubes_linux_utils.Gpt.Sector.{uint64, gpt_partition_table_bytes}

-- "EFI PART"
abbrev pub efi_part : Bytes
efi_part = b'E' ∷ b'F' ∷ b'I' ∷ b' ' ∷ b'P' ∷ b'A' ∷ b'R' ∷ b'T' ∷ []

module _ (crc32 : Bytes → ℕ) where
  -- The checks of the header alone up to the entry size, in their order; `true` is no `return 0`.
  pub well_formed : GptHeader → ℕ → Bool
  unfolding header_bytes same
  well_formed header sector_size =
      same header.signature efi_part
      && header.revision == 0x00010000
      && header.header_crc32 == crc32 (header_bytes (record header { header_crc32 = 0 }))
      && not (ltb header.header_size sizeof_header)
      && not (ltb sector_size header.header_size)
      && not (ltb header.size_of_partition_entry sizeof_entry)
      && not (ltb sector_size header.size_of_partition_entry)

-- `FirstUsableLBA` and `LastUsableLBA`.
pub has_space : GptHeader → Bool
has_space header =
    not (ltb header.first_usable_lba 3) && not (ltb header.last_usable_lba header.first_usable_lba)

-- `sector_offset != 1`: a backup table ends at its header.
pub backup_space : GptHeader → Option ℕ
backup_space header =
    if not (header.alternate_lba == 1)
      || not (ltb header.last_usable_lba header.partition_entry_lba)
      || not (ltb header.partition_entry_lba header.my_lba)
    then none
    else some (header.my_lba - header.partition_entry_lba)

-- A primary table lies between its header and the first usable sector.
pub primary_space : GptHeader → ℕ → Run (Option ℕ)
primary_space header sectors =
    if not (header.partition_entry_lba == 2)
      || not (ltb header.last_usable_lba header.alternate_lba)
    then done none
    else if not (ltb header.alternate_lba sectors)
    then exits exit_truncated
    else done (some (header.first_usable_lba - header.partition_entry_lba))

-- `partition_table_usable_space`, or `return 0`.
pub table_space : GptHeader → ℕ → ℕ → Run (Option ℕ)
unfolding backup_space primary_space
table_space header sector_offset sectors =
    if sector_offset == 1 then primary_space header sectors else done (backup_space header)

-- The code behind: the number of entries, and the size of the table.
pub check_table : GptHeader → ℕ → Option ℕ → Run ℕ
unfolding gpt_partition_table_bytes
check_table header sector_size none = done 0
check_table header sector_size (some space) =
    if ltb header.number_of_partition_entries 1
    then done 0
    else if ltb (uint64 (space * sector_size)) (gpt_partition_table_bytes header)
    then done 0
    else if ltb (2 ^ 20) (gpt_partition_table_bytes header)
    then exits exit_unsupported
    else done (gpt_partition_table_bytes header)

-- 0 for a header that is refused, else the size of the partition table. The warnings are left out:
-- one of them, that `MyLBA` is not `sector_offset`, has no `return` behind it.
unfoldable pub check_gpt_header : (Bytes → ℕ) → GptHeader → ℕ → ℕ → ℕ → Run ℕ
unfolding well_formed has_space table_space check_table
check_gpt_header crc32 header sector_offset sector_size sectors = do
  assert (not (ltb sectors 6))
  assert (ltb sector_offset sectors)
  if not (well_formed crc32 header sector_size) then done 0 else (do
    demand (not (ltb sizeof_entry header.size_of_partition_entry)) exit_unsupported
    if not (has_space header) then done 0 else (do
      space ← table_space header sector_offset sectors
      check_table header sector_size space))
