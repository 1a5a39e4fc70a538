-- ===== src/Gpt/Reader.antt =====
-- gptfixer/gpt.c: `read_and_check_gpt`. The disk is a parameter: what `pread` returns for a length and
-- an offset, none for -1. An allocation that fails is left out.
pub mod Laws
use qubes_linux_utils.Prelude.{
  ℕ, suc, ◌+◌, ◌*◌, Bool, true, false, not, ◌&&◌, ◌||◌, Option, none, some, List, [], ◌∷◌, Bytes,
  length, take, ◌==◌, ltb, if◌then◌else◌,
}
use qubes_linux_utils.Gpt.Disk.{
  Run, done, exits, demand, ◌>>=◌, ◌>>◌, GptHeader, GptPartitionEntry, Gpt, decode_header,
  decode_entries, unused_entry, exit_io, exit_unsupported,
}
use qubes_linux_utils.Gpt.Sector.{uint64, round_to_next_sector}
use qubes_linux_utils.Gpt.Header.{check_gpt_header}

-- The loop over the used entries, at index `i`: none for `goto fail`, else `used_entries`.
unfoldable pub last_used : GptHeader → ℕ → ℕ → List GptPartitionEntry → Option ℕ
unfolding unused_entry
last_used header i used [] = some used
last_used header i used (entry ∷ entries) =
    let over = last_used header (i + 1) used entries in
    let more = last_used header (i + 1) (i + 1) entries in
    if unused_entry entry
    then over
    else if ltb entry.starting_lba header.first_usable_lba
    then none
    else if ltb header.last_usable_lba entry.ending_lba
    then none
    else more

-- The end: a table without a used entry is not supported.
unfoldable pub with_used : GptHeader → List GptPartitionEntry → ℕ → Option ℕ → Run (Option Gpt)
with_used header entries sector_size none = done none
with_used header entries sector_size (some used) = do
  demand (not (used == 0)) exit_unsupported
  done (
      some (record {
        header = header;
        used_entries = used;
        entries = entries;
        sector_size = sector_size;
      }))

-- The bytes of a read that must be complete.
unfoldable pub full_read : ℕ → ℕ → Option Bytes → Run Bytes
full_read status n none = exits status
full_read status n (some bytes) = if length bytes == n then done bytes else exits exit_io

module _ (crc32 : Bytes → ℕ) (pread : ℕ → ℕ → Option Bytes) where
  -- The code behind `check_gpt_header`. If this read returns -1 the exit status is EXIT_SUCCESS.
  unfoldable pub read_entries : GptHeader → ℕ → ℕ → Run (Option Gpt)
  unfolding last_used with_used full_read
  read_entries header partition_table_bytes sector_size = do
    needed ← round_to_next_sector partition_table_bytes sector_size
    bytes ← full_read 0 needed (pread needed (uint64 (sector_size * header.partition_entry_lba)))
    if not (header.partition_entry_array_crc32 == crc32 (take partition_table_bytes bytes))
        then done none
        else (let entries = decode_entries header.number_of_partition_entries bytes in
            with_used header entries sector_size (last_used header 0 0 entries))

  unfoldable pub read_and_check_gpt : ℕ → ℕ → ℕ → Run (Option Gpt)
  unfolding read_entries
  read_and_check_gpt sector_offset sector_size sectors =
      if not (ltb sector_offset sectors)
      then done none
      else if not (sector_offset == 1) && ltb sector_offset 5
      then done none
      else (do
        sector ←
            full_read exit_io sector_size (pread sector_size (uint64 (sector_offset * sector_size)))
        partition_table_bytes ←
            check_gpt_header crc32 (decode_header sector) sector_offset sector_size sectors
        if partition_table_bytes == 0
            then done none
            else read_entries (decode_header sector) partition_table_bytes sector_size)
