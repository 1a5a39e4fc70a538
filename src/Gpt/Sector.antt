-- ===== src/Gpt/Sector.antt =====
-- gptfixer/gpt.c: sizes in bytes and in sectors, with the wrap-around of `uint64_t` and of `uint32_t`.
use qubes_linux_utils.Prelude.{ℕ, ◌+◌, ◌-◌, ◌*◌, ◌%◌, ◌^◌, bit_and, Bool, not, ◌&&◌, ◌==◌, ltb}
use qubes_linux_utils.Gpt.Disk.{Run, done, assert, ◌>>◌, GptHeader, GptPartitionEntry}

abbrev pub uint64 : ℕ → ℕ
uint64 n = n % 2 ^ 64

unfoldable pub gpt_partition_table_bytes : GptHeader → ℕ
gpt_partition_table_bytes gpt =
    uint64 (gpt.number_of_partition_entries * gpt.size_of_partition_entry)

unfoldable pub valid_sector_size : ℕ → Bool
valid_sector_size sector_size =
    not (ltb sector_size 512) && bit_and sector_size (sector_size - 1) == 0

-- `~(uint64_t)(sector_size - 1)` is 2^64 - sector_size for a size that is not 0.
unfoldable pub round_to_next_sector : ℕ → ℕ → Run ℕ
round_to_next_sector value sector_size = do
  assert (valid_sector_size sector_size)
  assert (ltb (value + (sector_size - 1)) (2 ^ 64))
  done (bit_and (value + (sector_size - 1)) (2 ^ 64 - sector_size))

-- On the entry size of the header.
unfoldable pub gpt_partition_table_required_bytes : GptHeader → ℕ → ℕ → Run ℕ
gpt_partition_table_required_bytes header sector_size entries = do
  assert (valid_sector_size sector_size)
  round_to_next_sector (uint64 (header.size_of_partition_entry * entries)) sector_size

-- `StartingLBA * sector_size` and `(EndingLBA + 1) * sector_size`: where a partition begins, and the
-- first byte behind it.
abbrev pub start_byte_offset : ℕ → GptPartitionEntry → ℕ
start_byte_offset sector_size entry = uint64 (entry.starting_lba * sector_size)

abbrev pub end_byte_offset : ℕ → GptPartitionEntry → ℕ
end_byte_offset sector_size entry = uint64 (uint64 (entry.ending_lba + 1) * sector_size)
