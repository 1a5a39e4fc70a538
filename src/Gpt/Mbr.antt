-- ===== src/Gpt/Mbr.antt =====
-- gptfixer/gpt.c: `check_mbr`, on the 512 bytes of the protective MBR.
use qubes_linux_utils.Prelude.{
  ℕ, ◌+◌, ◌-◌, ◌^◌, Bool, ◌&&◌, ◌||◌, ◌++◌, Bytes, get_or, take, drop, ◌==◌, ltb, if◌then◌else◌,
}
use qubes_linux_utils.Unpack.Header.{field_at}
use qubes_linux_utils.Gpt.Disk.{
  Run, done, demand, ◌>>◌, stored, all_zero, exit_not_partitioned, exit_unsupported,
  exit_invalid_gpt,
}

-- Where `struct Mbr` has the partition records, of 16 bytes each, and its signature.
abbrev pub record_offset : ℕ
record_offset = 446

abbrev pub size_offset : ℕ
size_offset = 458

abbrev pub signature_offset : ℕ
signature_offset = 510

-- `expected_size_in_lba`; the subtraction on `uint64_t` wraps for a device without sectors.
pub expected_size_in_lba : ℕ → ℕ
expected_size_in_lba size_in_sectors =
    if size_in_sectors == 0 || ltb (2 ^ 32 - 1) (size_in_sectors - 1)
    then 2 ^ 32 - 1
    else size_in_sectors - 1

-- The MBR with the size of its first record set.
pub set_size : Bytes → ℕ → Bytes
unfolding stored
set_size mbr size = take size_offset mbr ++ stored 4 size ++ drop (size_offset + 4) mbr

-- The MBR as it is left, with the size of its record corrected.
unfoldable pub check_mbr : Bytes → ℕ → Bool → Run Bytes
unfolding expected_size_in_lba set_size
check_mbr mbr size_in_sectors skip_bpb_check = do
  demand (get_or mbr signature_offset 0 == 0x55 && get_or mbr (signature_offset + 1) 0 == 0xAA)
      exit_not_partitioned
  demand (get_or mbr (record_offset + 4) 0 == 0xEE) exit_unsupported
  demand (all_zero (take 48 (drop (record_offset + 16) mbr))) exit_unsupported
  demand (field_at (record_offset + 8) 4 mbr == 1) exit_invalid_gpt
  demand (skip_bpb_check || all_zero (take 11 (drop 3 mbr))) exit_unsupported
  if field_at size_offset 4 mbr == expected_size_in_lba size_in_sectors
      then done mbr
      else done (set_size mbr (expected_size_in_lba size_in_sectors))
