-- ===== src/Gpt/Adjust.antt =====
-- gptfixer/gpt.c: `gpt_adjust_sectors` and `fixup_gpt`, which write a table for another sector size.

pub mod Laws
pub mod Kept
use qubes_linux_utils.Prelude.{
  ℕ, ◌+◌, ◌-◌, ◌*◌, ◌/◌, ◌%◌, ◌^◌, Bool, true, false, not, ◌&&◌, ◌||◌, List, [], ◌∷◌, Bytes, take,
  ◌==◌, ltb, if◌then◌else◌,
}
use qubes_linux_utils.Gpt.Disk.{
  Run, done, exits, assert, demand, ◌>>=◌, ◌>>◌, GptHeader, GptPartitionEntry, Gpt, header_bytes,
  entries_bytes, unused_entry, exit_constraint,
}
use qubes_linux_utils.Gpt.Sector.{
  uint64, valid_sector_size, round_to_next_sector, gpt_partition_table_required_bytes,
  gpt_partition_table_bytes, start_byte_offset, end_byte_offset,
}
use qubes_linux_utils.Gpt.Header.{efi_part}

-- The C macros, and not the library's functions of these names, which are equal to them.
abbrev pub smaller : ℕ → ℕ → ℕ
smaller a b = if ltb b a then b else a

abbrev pub larger : ℕ → ℕ → ℕ
larger a b = if ltb b a then a else b

-- `first_start_byte_offset` and `last_end_byte_offset`.
pub record Extent : Type 0 where
  pub first_start : ℕ
  pub last_end : ℕ

-- The body of the loop over the used entries.
unfoldable pub visit : ℕ → ℕ → GptPartitionEntry → Extent → Run Extent
visit old_size new_size entry extent = if unused_entry entry then done extent else (do
  demand (start_byte_offset old_size entry % new_size == 0) exit_constraint
  demand (end_byte_offset old_size entry % new_size == 0) exit_constraint
  done (record {
    first_start = smaller extent.first_start (start_byte_offset old_size entry);
    last_end = larger extent.last_end (end_byte_offset old_size entry);
  }))

unfoldable pub scan : ℕ → ℕ → List GptPartitionEntry → Extent → Run Extent
unfolding visit
scan old_size new_size [] extent = done extent
scan old_size new_size (entry ∷ entries) extent = do
  extent' ← visit old_size new_size entry extent
  scan old_size new_size entries extent'

-- The body of the loop that copies the entries.
unfoldable pub move_entry : ℕ → ℕ → GptPartitionEntry → GptPartitionEntry
move_entry old_size new_size entry = if unused_entry entry then entry else record entry {
  starting_lba = start_byte_offset old_size entry / new_size;
  ending_lba = uint64 (end_byte_offset old_size entry / new_size + (2 ^ 64 - 1));
}

unfoldable pub move_entries : ℕ → ℕ → List GptPartitionEntry → List GptPartitionEntry
unfolding move_entry
move_entries old_size new_size [] = []
move_entries old_size new_size (entry ∷ entries) =
    move_entry old_size new_size entry ∷ move_entries old_size new_size entries

module _ (crc32 : Bytes → ℕ) where
  -- `fixup_gpt`: the checksum of the entries, then that of the header. The padding behind the entries
  -- is the writer's, `padded`.
  unfoldable pub fixup_gpt : Gpt → Gpt
  unfolding entries_bytes header_bytes
  fixup_gpt gpt =
      let header = record gpt.header {
        partition_entry_array_crc32 =
            crc32 (take (gpt_partition_table_bytes gpt.header) (entries_bytes gpt.entries));
      } in
      record gpt { header = record header { header_crc32 = crc32 (header_bytes header) } }

-- The number of entries that the new table can hold, once the extent of the partitions is known and
-- leaves room for the entries in use. `size` is that of the disk in bytes.
unfoldable pub room_for_entries : Gpt → ℕ → ℕ → Extent → Run ℕ
room_for_entries gpt sector_size size extent = do
  assert (ltb extent.first_start extent.last_end)
  partition_table_bytes ← gpt_partition_table_required_bytes gpt.header sector_size gpt.used_entries
  assert (not (ltb size extent.last_end))
  demand (not (ltb (size - extent.last_end) (partition_table_bytes + sector_size))) exit_constraint
  demand (not (ltb extent.first_start (partition_table_bytes + 2 * sector_size))) exit_constraint
  let available =
      smaller ((size - sector_size) - extent.last_end) (extent.first_start - 2 * sector_size)
  let max_partition_entries = available / gpt.header.size_of_partition_entry
  assert (not (ltb max_partition_entries gpt.used_entries))
  done (smaller max_partition_entries gpt.header.number_of_partition_entries)

-- The new header, its checksums 0, for a table of so many entries and bytes.
unfoldable pub new_header : Gpt → ℕ → ℕ → ℕ → ℕ → ℕ → Run GptHeader
new_header gpt sector_offset sector_size sectors new_entries table_bytes = do
  let primary = sector_offset == 1
  let first_usable_byte =
      larger (uint64 (gpt.header.first_usable_lba * gpt.sector_size))
        (table_bytes + 2 * sector_size)
  let first_unusable_byte =
      smaller (uint64 (uint64 (gpt.header.last_usable_lba + 1) * gpt.sector_size))
        (uint64 (sector_size * sectors) - (table_bytes + sector_size))
  rounded ← round_to_next_sector first_usable_byte sector_size
  done (record {
    signature = efi_part;
    revision = gpt.header.revision;
    header_size = gpt.header.header_size;
    header_crc32 = 0;
    reserved = 0;
    my_lba = sector_offset;
    alternate_lba = if primary then sectors - 1 else 1;
    first_usable_lba = rounded / sector_size;
    last_usable_lba = uint64 (first_unusable_byte / sector_size + (2 ^ 64 - 1));
    disk_guid = gpt.header.disk_guid;
    partition_entry_lba = if primary then 2 else sectors - 1 - table_bytes / sector_size;
    number_of_partition_entries = new_entries;
    size_of_partition_entry = gpt.header.size_of_partition_entry;
    partition_entry_array_crc32 = 0;
  })

-- The new table, and `*allocated`.
unfoldable pub gpt_adjust_sectors : (Bytes → ℕ) → ℕ → ℕ → ℕ → Gpt → Run (Gpt × ℕ)
unfolding scan room_for_entries new_header move_entries fixup_gpt
gpt_adjust_sectors crc32 sector_offset sector_size sectors gpt = do
  assert (not (ltb sectors 6))
  assert (valid_sector_size gpt.sector_size)
  assert (valid_sector_size sector_size)
  assert (sector_offset == 1 || sector_offset == sectors - 1)
  extent ←
      scan gpt.sector_size sector_size (take gpt.used_entries gpt.entries)
        (record { first_start = 2 ^ 64 - 1; last_end = 0 })
  new_entries ← room_for_entries gpt sector_size (uint64 (sector_size * sectors)) extent
  table_bytes ← gpt_partition_table_required_bytes gpt.header sector_size new_entries
  header ← new_header gpt sector_offset sector_size sectors new_entries table_bytes
  done (
    fixup_gpt crc32 (record {
      header = header;
      used_entries = new_entries;
      entries = move_entries gpt.sector_size sector_size (take new_entries gpt.entries);
      sector_size = 0;
    }),
    table_bytes,
  )
