-- ===== src/Tests/Gpt.antt =====
-- Runs of the reader and of the converter of gptfixer/gpt.c on a disk with one partition.
use qubes_linux_utils.Prelude.{
  ℕ, ◌≡◌, refl, Option, some, List, [], ◌∷◌, ◌++◌, Bytes, length, ◌==◌, take, replicate, arith,
  if◌then◌else◌,
}
use qubes_linux_utils.Crc32.{compute_buf}
use qubes_linux_utils.Gpt.Disk.{
  Run, done, exits, asserts, GptHeader, GptPartitionEntry, Gpt, header_bytes, entries_bytes,
  decode_header, decode_entry, decode_entries,
}
use qubes_linux_utils.Gpt.Header.{efi_part, check_gpt_header}
use qubes_linux_utils.Gpt.Header.Laws.{Accepts, check_gpt_header-Accepts}
use qubes_linux_utils.Gpt.Reader.{read_and_check_gpt}
use qubes_linux_utils.Gpt.Reader.Laws.{IsTable, read_and_check_gpt-IsTable}
use qubes_linux_utils.Gpt.Adjust.{gpt_adjust_sectors}
use qubes_linux_utils.Gpt.Adjust.Laws.{SamePlaces}
use qubes_linux_utils.Gpt.Adjust.Kept.{gpt_adjust_sectors-SamePlaces}

-- zlib's `crc32(0, ...)` and `Crc32_ComputeBuf(0, ...)` are the same function.
abbrev crc : Bytes → ℕ
crc = compute_buf 0

-- Bytes 12288 to 16383.
abbrev partition : GptPartitionEntry
partition = record {
  partition_type_guid = replicate 16 1;
  unique_partition_guid = replicate 16 2;
  starting_lba = 24;
  ending_lba = 31;
  attributes = 0;
  partition_name = replicate 72 0;
}

abbrev nothing : GptPartitionEntry
nothing = record {
  partition_type_guid = replicate 16 0;
  unique_partition_guid = replicate 16 0;
  starting_lba = 0;
  ending_lba = 0;
  attributes = 0;
  partition_name = replicate 72 0;
}

abbrev four_entries : List GptPartitionEntry
four_entries = partition ∷ nothing ∷ nothing ∷ nothing ∷ []

-- Of a disk with 64 sectors of 512 bytes, the checksums still to be filled in.
abbrev unsigned : GptHeader
unsigned = record {
  signature = efi_part;
  revision = 0x00010000;
  header_size = 92;
  header_crc32 = 0;
  reserved = 0;
  my_lba = 1;
  alternate_lba = 63;
  first_usable_lba = 3;
  last_usable_lba = 60;
  disk_guid = replicate 16 3;
  partition_entry_lba = 2;
  number_of_partition_entries = 4;
  size_of_partition_entry = 128;
  partition_entry_array_crc32 = 0;
}

abbrev signed : GptHeader
signed = record unsigned { header_crc32 = 5532617; partition_entry_array_crc32 = 1673282992 }

abbrev header_sector : Bytes
header_sector =
    efi_part
    ++ (0 ∷ 0 ∷ 1 ∷ 0 ∷ [])
    ++ (92 ∷ 0 ∷ 0 ∷ 0 ∷ [])
    ++ (201 ∷ 107 ∷ 84 ∷ 0 ∷ [])
    ++ replicate 4 0
    ++ (1 ∷ replicate 7 0)
    ++ (63 ∷ replicate 7 0)
    ++ (3 ∷ replicate 7 0)
    ++ (60 ∷ replicate 7 0)
    ++ replicate 16 3
    ++ (2 ∷ replicate 7 0)
    ++ (4 ∷ 0 ∷ 0 ∷ 0 ∷ [])
    ++ (128 ∷ 0 ∷ 0 ∷ 0 ∷ [])
    ++ (176 ∷ 69 ∷ 188 ∷ 99 ∷ [])
    ++ replicate 420 0

abbrev entry_sector : Bytes
entry_sector =
    replicate 16 1
    ++ replicate 16 2
    ++ (24 ∷ replicate 7 0)
    ++ (31 ∷ replicate 7 0)
    ++ replicate 80 0
    ++ replicate 384 0

-- `pread` on the disk.
abbrev disk : ℕ → ℕ → Option Bytes
disk length offset =
    if offset == 512
    then some (take length header_sector)
    else if offset == 1024
    then some (take length entry_sector)
    else some []

abbrev read_table : Gpt
read_table = record { header = signed; used_entries = 1; entries = four_entries; sector_size = 512 }

header_accepted : check_gpt_header crc signed 1 512 64 ≡ done 512
unfolding check_gpt_header compute_buf
header_accepted = refl

check_gpt_header-Accepts_example : Accepts crc signed 1 512 64 512
check_gpt_header-Accepts_example = check_gpt_header-Accepts crc signed 1 512 64 511 header_accepted

table_read : read_and_check_gpt crc disk 1 512 64 ≡ done (some read_table)
unfolding read_and_check_gpt check_gpt_header decode_header compute_buf
    qubes_linux_utils.Gpt.Sector.round_to_next_sector qubes_linux_utils.Gpt.Sector.valid_sector_size
    decode_entries
table_read = refl

read_and_check_gpt-IsTable_example : IsTable crc disk 1 512 64 read_table
read_and_check_gpt-IsTable_example =
    read_and_check_gpt-IsTable crc disk 1 512 64 read_table table_read

-- The conversion does not depend on what the checksum is: this one is cheap.
abbrev byte_count : Bytes → ℕ
byte_count = length

-- The same partition in sectors of 4096 bytes.
abbrev partition_4096 : GptPartitionEntry
partition_4096 = record partition { starting_lba = 3; ending_lba = 3 }

abbrev table_4096 : Gpt
table_4096 = record {
  header = record unsigned {
    header_crc32 = 92;
    partition_entry_array_crc32 = 512;
    alternate_lba = 7;
    last_usable_lba = 5;
  };
  used_entries = 4;
  entries = partition_4096 ∷ nothing ∷ nothing ∷ nothing ∷ [];
  sector_size = 0;
}

converted : gpt_adjust_sectors byte_count 1 4096 8 read_table ≡ done (table_4096, 4096)
unfolding gpt_adjust_sectors qubes_linux_utils.Gpt.Sector.valid_sector_size
    qubes_linux_utils.Gpt.Disk.unused_entry
    qubes_linux_utils.Gpt.Sector.gpt_partition_table_required_bytes
    qubes_linux_utils.Gpt.Sector.round_to_next_sector header_bytes entries_bytes
    qubes_linux_utils.Gpt.Sector.gpt_partition_table_bytes
converted = refl

gpt_adjust_sectors-SamePlaces_example :
    SamePlaces 512 4096 (take 1 four_entries) (take 1 table_4096.entries)
gpt_adjust_sectors-SamePlaces_example =
    gpt_adjust_sectors-SamePlaces byte_count 1 4096 8 read_table table_4096 4096 (omega arith)
      converted
