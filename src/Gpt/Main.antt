-- ===== src/Gpt/Main.antt =====
-- gptfixer/gpt.c: `main`, from the device's sector size and size on. The disk is a parameter, as it is
-- before the first write; nothing is read behind that.
pub mod Laws
use qubes_linux_utils.Prelude.{
  ℕ, ◌+◌, ◌-◌, ◌*◌, ◌/◌, ◌%◌, ◌^◌, Bool, true, false, not, ◌||◌, Option, none, some, List, [], ◌∷◌,
  ◌++◌, Bytes, take, replicate, ◌==◌, ltb, if◌then◌else◌,
}
use qubes_linux_utils.Gpt.Disk.{
  Run, done, exits, demand, ◌>>=◌, ◌>>◌, Gpt, exit_unsupported, exit_invalid_gpt, exit_io,
}
use qubes_linux_utils.Gpt.Mbr.{check_mbr}
use qubes_linux_utils.Gpt.Reader.{full_read, read_and_check_gpt}
use qubes_linux_utils.Gpt.Writer.{Pwrite, create_new_gpt}

pub data Mode : Type 0 where
  mode_check mode_fix : Mode

-- What is done to the disk: nothing, with the table that fits its sectors; or the writes of one new
-- table, and then what comes of the second one: its writes, or the end of the program.
pub data Action : Type 0 where
  unchanged : Gpt → Action
  rewrite : List Pwrite → Run (List Pwrite) → Action

abbrev pub exit_needs_fix : ℕ
exit_needs_fix = 7

-- The other sector size, and how many of these sectors the device has.
abbrev pub other_size : ℕ → ℕ
other_size sector_size = if sector_size == 4096 then 512 else 4096

abbrev pub other_sectors : ℕ → ℕ → ℕ
other_sectors sector_size sectors = if sector_size == 4096 then sectors * 8 else sectors / 8

-- `used_primary ? a : b`
abbrev pub place : Bool → ℕ → ℕ → ℕ
place used_primary a b = if used_primary then a else b

-- What is found: the table, with whether it is the primary one.
unfoldable pub as_backup : Option Gpt → Option (Gpt × Bool)
as_backup none = none
as_backup (some gpt) = some (gpt, false)

module _ (crc32 : Bytes → ℕ) (pread : ℕ → ℕ → Option Bytes) where
  unfoldable pub or_backup : Option Gpt → ℕ → ℕ → Run (Option (Gpt × Bool))
  unfolding as_backup
  or_backup (some gpt) sector_size sectors = done (some (gpt, true))
  or_backup none sector_size sectors = do
    gpt ← read_and_check_gpt crc32 pread (sectors - 1) sector_size sectors
    done (as_backup gpt)

  -- The primary table, or else the backup.
  unfoldable pub find_table : ℕ → ℕ → Run (Option (Gpt × Bool))
  unfolding or_backup
  find_table sector_size sectors = do
    gpt ← read_and_check_gpt crc32 pread 1 sector_size sectors
    or_backup gpt sector_size sectors

  -- "always start by overwriting the GPT we did *not* use"
  unfoldable pub fix_tables : Gpt → Bool → ℕ → ℕ → Bytes → Run Action
  fix_tables gpt used_primary sectors sector_size mbr = do
    first ← create_new_gpt crc32 (place used_primary (sectors - 1) 1) sectors sector_size gpt mbr
    done (
        rewrite first
          (create_new_gpt crc32 (place used_primary 1 (sectors - 1)) sectors sector_size gpt mbr))

  -- A table for the other sector size.
  unfoldable pub after_old : Mode → Option (Gpt × Bool) → ℕ → ℕ → Bytes → Run Action
  unfolding fix_tables
  after_old mode none sectors sector_size mbr = exits exit_invalid_gpt
  after_old mode_check (some (gpt, used_primary)) sectors sector_size mbr = exits exit_needs_fix
  after_old mode_fix (some (gpt, used_primary)) sectors sector_size mbr =
      fix_tables gpt used_primary sectors sector_size mbr

  unfoldable pub after_new : Mode → Option (Gpt × Bool) → ℕ → ℕ → Bytes → Run Action
  unfolding find_table after_old
  after_new mode (some (gpt, used_primary)) sectors sector_size mbr = done (unchanged gpt)
  after_new mode none sectors sector_size mbr = do
    demand (sectors * sector_size % 4096 == 0) exit_unsupported
    old ← find_table (other_size sector_size) (other_sectors sector_size sectors)
    after_old mode old sectors sector_size mbr

  -- The buffer behind the protective MBR is zero.
  unfoldable pub gptfix : Mode → Bool → ℕ → ℕ → Run Action
  unfolding find_table after_new full_read check_mbr
  gptfix mode skip_bpb_check sector_size size = do
    demand (sector_size == 512 || sector_size == 4096) exit_unsupported
    demand (ltb size (2 ^ 63)) exit_unsupported
    demand (size % sector_size == 0) exit_unsupported
    demand (not (ltb (size / sector_size) 6)) exit_unsupported
    buffer ← full_read exit_io sector_size (pread sector_size 0)
    mbr ← check_mbr (take 512 buffer) (size / sector_size) skip_bpb_check
    found ← find_table sector_size (size / sector_size)
    after_new mode found (size / sector_size) sector_size (mbr ++ replicate (sector_size - 512) 0)
