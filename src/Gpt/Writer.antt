-- ===== src/Gpt/Writer.antt =====
-- gptfixer/gpt.c: `create_new_gpt`, as the writes that it makes, in order.
use qubes_linux_utils.Prelude.{
  ℕ, ◌-◌, ◌*◌, not, List, [], ◌∷◌, ◌++◌, Bytes, length, take, replicate, ◌==◌, if◌then◌else◌,
}
use qubes_linux_utils.Gpt.Disk.{Run, done, assert, ◌>>=◌, ◌>>◌, Gpt, header_bytes, entries_bytes}
use qubes_linux_utils.Gpt.Sector.{uint64}
use qubes_linux_utils.Gpt.Header.{check_gpt_header}
use qubes_linux_utils.Gpt.Adjust.{gpt_adjust_sectors}

-- `pwrite64` of some bytes at an offset; each must be complete, or the process exits with EXIT_IO.
pub record Pwrite : Type 0 where
  pub data_written : Bytes
  pub offset : ℕ

abbrev pub big_size : ℕ
big_size = 4096

-- The bytes, and zeros up to a size.
pub padded : ℕ → Bytes → Bytes
padded size bytes = bytes ++ replicate (size - length bytes) 0

-- What is written before the table: zeros over the end of the disk, or the protective MBR and zeros
-- over the header for the other sector size.
pub prepare : ℕ → ℕ → ℕ → Gpt → Bytes → Run (List Pwrite)
prepare sector_to_write sectors sector_size gpt mbr =
    if sector_to_write == sectors - 1
    then done (
        record {
          data_written = replicate big_size 0;
          offset = uint64 (sector_size * sectors) - big_size;
        }
        ∷ [])
    else if sector_size == big_size
    then (do
      assert (gpt.sector_size == 512)
      done (record { data_written = take sector_size mbr; offset = 0 } ∷ []))
    else (do
      assert (sector_size == 512)
      assert (gpt.sector_size == big_size)
      done (
          record { data_written = take sector_size mbr; offset = 0 }
          ∷ record { data_written = replicate 512 0; offset = 512 }
          ∷ record { data_written = replicate big_size 0; offset = big_size }
          ∷ []))

-- The entries first, the header that refers to them last. The assertion on `check_gpt_header` is that
-- the new header is accepted.
unfoldable pub create_new_gpt : (Bytes → ℕ) → ℕ → ℕ → ℕ → Gpt → Bytes → Run (List Pwrite)
unfolding prepare padded gpt_adjust_sectors check_gpt_header
create_new_gpt crc32 sector_to_write sectors sector_size gpt mbr = do
  (new_gpt, to_write) ← gpt_adjust_sectors crc32 sector_to_write sector_size sectors gpt
  checked ← check_gpt_header crc32 new_gpt.header sector_to_write sector_size sectors
  assert (not (checked == 0))
  assert (not (to_write == 0))
  before ← prepare sector_to_write sectors sector_size gpt mbr
  done (
      before
      ++ record {
        data_written = padded to_write (entries_bytes new_gpt.entries);
        offset = uint64 (new_gpt.header.partition_entry_lba * sector_size);
      }
        ∷ record {
          data_written = padded sector_size (header_bytes new_gpt.header);
          offset = uint64 (new_gpt.header.my_lba * sector_size);
        }
        ∷ [])
