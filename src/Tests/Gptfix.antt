-- ===== src/Tests/Gptfix.antt =====
-- Runs of `main` of gptfixer/gpt.c on a disk whose table is for sectors of 512 bytes.
use qubes_linux_utils.Prelude.{
  ℕ, ◌/◌, ◌≡◌, refl, false, Option, some, List, [], ◌∷◌, ◌++◌, Bytes, length, ◌==◌, take, replicate,
  if◌then◌else◌,
}
use qubes_linux_utils.Gpt.Disk.{Run, done, exits, asserts, Gpt}
use qubes_linux_utils.Gpt.Header.{efi_part}
use qubes_linux_utils.Gpt.Writer.{Pwrite}
use qubes_linux_utils.Gpt.Main.{mode_check, mode_fix, Action, unchanged, rewrite, gptfix}
use qubes_linux_utils.Gpt.Main.Laws.{Supported, Careful, gptfix-Careful}

-- The result does not depend on what the checksum is: this one is cheap.
abbrev byte_count : Bytes → ℕ
byte_count = length

-- A protective MBR.
abbrev mbr : Bytes
mbr =
    replicate 446 0
    ++ ((0 ∷ 0 ∷ 2 ∷ 0 ∷ 0xEE ∷ 0 ∷ 0 ∷ 0 ∷ 1 ∷ 0 ∷ 0 ∷ 0 ∷ 63 ∷ 0 ∷ 0 ∷ 0 ∷ [])
        ++ (replicate 48 0 ++ (0x55 ∷ 0xAA ∷ [])))

abbrev header_sector : Bytes
header_sector =
    efi_part
    ++ (0 ∷ 0 ∷ 1 ∷ 0 ∷ [])
    ++ (92 ∷ 0 ∷ 0 ∷ 0 ∷ [])
    ++ (92 ∷ 0 ∷ 0 ∷ 0 ∷ [])
    ++ replicate 4 0
    ++ (1 ∷ replicate 7 0)
    ++ (63 ∷ replicate 7 0)
    ++ (3 ∷ replicate 7 0)
    ++ (60 ∷ replicate 7 0)
    ++ replicate 16 3
    ++ (2 ∷ replicate 7 0)
    ++ (4 ∷ 0 ∷ 0 ∷ 0 ∷ [])
    ++ (128 ∷ 0 ∷ 0 ∷ 0 ∷ [])
    ++ (0 ∷ 2 ∷ 0 ∷ 0 ∷ [])
    ++ replicate 420 0

-- One partition, of the bytes 12288 to 16383.
abbrev entry_sector : Bytes
entry_sector =
    replicate 16 1
    ++ replicate 16 2
    ++ (24 ∷ replicate 7 0)
    ++ (31 ∷ replicate 7 0)
    ++ replicate 80 0
    ++ replicate 384 0

-- `pread` on a disk of 32768 bytes, which are zero behind the table.
abbrev disk : ℕ → ℕ → Option Bytes
disk length offset =
    if offset == 0
    then some (take length (mbr ++ (header_sector ++ (entry_sector ++ replicate 4096 0))))
    else if offset == 512
    then some (take length header_sector)
    else if offset == 1024
    then some (take length entry_sector)
    else some (replicate length 0)

-- What a run does, nothing to be written where it ends early.
abbrev action_of : Run Action → List Pwrite × Run (List Pwrite)
action_of (done (rewrite first second)) = (first, second)
action_of (done (unchanged gpt)) = ([], done [])
action_of (exits status) = ([], exits status)
action_of asserts = ([], asserts)

abbrev status_of : Run Action → ℕ
status_of (done action) = 0
status_of (exits status) = status
status_of asserts = 134

abbrev offsets : List Pwrite → List ℕ
offsets [] = []
offsets (w ∷ ws) = w.offset ∷ offsets ws

abbrev run_offsets : Run (List Pwrite) → List ℕ
run_offsets (done ws) = offsets ws
run_offsets (exits status) = []
run_offsets asserts = []

-- The device has sectors of 4096 bytes: "check" says that the table needs to be fixed.
needs_fix : status_of (gptfix byte_count disk mode_check false 4096 32768) ≡ 7
unfolding gptfix qubes_linux_utils.Gpt.Sector.valid_sector_size qubes_linux_utils.Gpt.Disk.all_zero
    qubes_linux_utils.Unpack.Header.little_endian qubes_linux_utils.Gpt.Reader.read_and_check_gpt
    qubes_linux_utils.Gpt.Header.check_gpt_header qubes_linux_utils.Gpt.Disk.decode_header
    qubes_linux_utils.Gpt.Sector.round_to_next_sector qubes_linux_utils.Gpt.Disk.decode_entries
needs_fix = refl

-- "fix" writes the backup table first, and the MBR, over the old header, with the primary one.
backup_first :
    offsets (action_of (gptfix byte_count disk mode_fix false 4096 32768)).0
    ≡ 28672 ∷ 24576 ∷ 28672 ∷ []
unfolding gptfix qubes_linux_utils.Gpt.Sector.valid_sector_size qubes_linux_utils.Gpt.Disk.all_zero
    qubes_linux_utils.Unpack.Header.little_endian qubes_linux_utils.Gpt.Reader.read_and_check_gpt
    qubes_linux_utils.Gpt.Header.check_gpt_header qubes_linux_utils.Gpt.Disk.decode_header
    qubes_linux_utils.Gpt.Sector.round_to_next_sector qubes_linux_utils.Gpt.Disk.decode_entries
    qubes_linux_utils.Gpt.Writer.create_new_gpt
    qubes_linux_utils.Gpt.Sector.gpt_partition_table_required_bytes
backup_first = refl

primary_last :
    run_offsets (action_of (gptfix byte_count disk mode_fix false 4096 32768)).1
    ≡ 0 ∷ 8192 ∷ 4096 ∷ []
unfolding gptfix qubes_linux_utils.Gpt.Sector.valid_sector_size qubes_linux_utils.Gpt.Disk.all_zero
    qubes_linux_utils.Unpack.Header.little_endian qubes_linux_utils.Gpt.Reader.read_and_check_gpt
    qubes_linux_utils.Gpt.Header.check_gpt_header qubes_linux_utils.Gpt.Disk.decode_header
    qubes_linux_utils.Gpt.Sector.round_to_next_sector qubes_linux_utils.Gpt.Disk.decode_entries
    qubes_linux_utils.Gpt.Writer.create_new_gpt
    qubes_linux_utils.Gpt.Sector.gpt_partition_table_required_bytes
primary_last = refl

abbrev fixing : Run Action
fixing = gptfix byte_count disk mode_fix false 4096 32768

fixed_disk : fixing ≡ done (rewrite (action_of fixing).0 (action_of fixing).1)
unfolding gptfix qubes_linux_utils.Gpt.Sector.valid_sector_size qubes_linux_utils.Gpt.Disk.all_zero
    qubes_linux_utils.Unpack.Header.little_endian qubes_linux_utils.Gpt.Reader.read_and_check_gpt
    qubes_linux_utils.Gpt.Header.check_gpt_header qubes_linux_utils.Gpt.Disk.decode_header
    qubes_linux_utils.Gpt.Sector.round_to_next_sector qubes_linux_utils.Gpt.Disk.decode_entries
    qubes_linux_utils.Gpt.Writer.create_new_gpt
    qubes_linux_utils.Gpt.Sector.gpt_partition_table_required_bytes
fixed_disk = refl

gptfix-Careful_example :
    Supported 4096
    × Careful byte_count disk mode_fix 4096
        (32768 / 4096)
        (rewrite (action_of fixing).0 (action_of fixing).1)
gptfix-Careful_example =
    gptfix-Careful byte_count disk mode_fix false 4096 32768
      (rewrite (action_of fixing).0 (action_of fixing).1) fixed_disk
