-- ===== src/Gpt/Main/Laws.antt =====
-- What `main` of gptfixer/gpt.c does to a disk.
use qubes_linux_utils.Prelude.{
  ℕ, ◌-◌, ◌*◌, ◌/◌, ◌%◌, ◌≡◌, ◌⊎◌, refl, ap, ◌∙◌, subst, Bool, true, false, not, ◌||◌, Option, none,
  some, List, ◌++◌, Bytes, take, replicate, ◌==◌, ltb, ◌^◌, arith,
}
use qubes_linux_utils.Gpt.Disk.{Run, done, Gpt, exit_unsupported, exit_io}
use qubes_linux_utils.Gpt.Mbr.{check_mbr}
use qubes_linux_utils.Gpt.Reader.{full_read, read_and_check_gpt}
use qubes_linux_utils.Gpt.Reader.Laws.{IsTable, read_and_check_gpt-IsTable}
use qubes_linux_utils.Gpt.Adjust.Kept.{bind-done, demand-done}
use qubes_linux_utils.Gpt.Writer.{Pwrite, create_new_gpt}
use qubes_linux_utils.Gpt.Main.{
  Mode, mode_check, mode_fix, Action, unchanged, rewrite, other_size, other_sectors, place,
  as_backup, or_backup, find_table, fix_tables, after_old, after_new, gptfix,
}

-- The sector sizes that are not refused.
abbrev pub Supported : ℕ → Type 0
Supported sector_size = (sector_size ≡ 512) ⊎ (sector_size ≡ 4096)

supported : (n : ℕ) → (n == 512 || n == 4096) ≡ true → Supported n
supported n h = ground arith

module _ (crc32 : Bytes → ℕ) (pread : ℕ → ℕ → Option Bytes) where
  -- Neither table is valid for this sector size.
  abbrev pub NoTable : ℕ → ℕ → Type 0
  NoTable sector_size sectors =
      (read_and_check_gpt crc32 pread 1 sector_size sectors ≡ done none)
      × (read_and_check_gpt crc32 pread (sectors - 1) sector_size sectors ≡ done none)

  -- A valid table: the primary one, or the backup where the primary one is not valid.
  pub data Found (sector_size sectors : ℕ) (gpt : Gpt) : Bool → Type 0 where
    primary : IsTable crc32 pread 1 sector_size sectors gpt → Found sector_size sectors gpt true
    backup :
        read_and_check_gpt crc32 pread 1 sector_size sectors ≡ done none
        → IsTable crc32 pread (sectors - 1) sector_size sectors gpt
        → Found sector_size sectors gpt false

  -- The place of the table that was not used, and of the one that was.
  abbrev pub other_place : Bool → ℕ → ℕ
  other_place true sectors = sectors - 1
  other_place false sectors = 1

  abbrev pub own_place : Bool → ℕ → ℕ
  own_place true sectors = 1
  own_place false sectors = sectors - 1

  -- Each action, with what it needs: a table for the sectors of the device, which then stays; or fixing,
  -- with no such table and one for the other sector size, from which
  -- the new tables are made: the first complete one in the place of the table that is not the source,
  -- and only then one in the source's place, which may still end the program.
  pub data Careful (mode : Mode) (sector_size sectors : ℕ) : Action → Type 0 where
    kept :
        {gpt : Gpt} (used_primary : Bool)
        → Found sector_size sectors gpt used_primary
        → Careful mode sector_size sectors (unchanged gpt)
    fixed :
        {first : List Pwrite} {second : Run (List Pwrite)} (gpt : Gpt) (used_primary : Bool)
        (mbr : Bytes)
        → mode ≡ mode_fix
        → NoTable sector_size sectors
        → Found (other_size sector_size) (other_sectors sector_size sectors) gpt used_primary
        → create_new_gpt crc32 (other_place used_primary sectors) sectors sector_size gpt mbr
          ≡ done first
        → create_new_gpt crc32 (own_place used_primary sectors) sectors sector_size gpt mbr ≡ second
        → Careful mode sector_size sectors (rewrite first second)

  -- What `find_table` has found.
  abbrev Finds : ℕ → ℕ → Option (Gpt × Bool) → Type 0
  Finds sector_size sectors none = NoTable sector_size sectors
  Finds sector_size sectors (some (gpt, used_primary)) = Found sector_size sectors gpt used_primary

  as_backup-Finds :
      (found : Option Gpt) (sector_size sectors : ℕ)
      → read_and_check_gpt crc32 pread 1 sector_size sectors ≡ done none
      → read_and_check_gpt crc32 pread (sectors - 1) sector_size sectors ≡ done found
      → Finds sector_size sectors (as_backup found)
  unfolding as_backup
  as_backup-Finds none sector_size sectors e f = (e, f)
  as_backup-Finds (some gpt) sector_size sectors e f =
      backup e (read_and_check_gpt-IsTable crc32 pread (sectors - 1) sector_size sectors gpt f)

  other_place_is :
      (used_primary : Bool) (sectors : ℕ)
      → other_place used_primary sectors ≡ place used_primary (sectors - 1) 1
  other_place_is true sectors = refl
  other_place_is false sectors = refl

  own_place_is :
      (used_primary : Bool) (sectors : ℕ)
      → own_place used_primary sectors ≡ place used_primary 1 (sectors - 1)
  own_place_is true sectors = refl
  own_place_is false sectors = refl

  or_backup-Finds :
      (primary_table : Option Gpt) (sector_size sectors : ℕ) (r : Option (Gpt × Bool))
      → read_and_check_gpt crc32 pread 1 sector_size sectors ≡ done primary_table
      → or_backup crc32 pread primary_table sector_size sectors ≡ done r
      → Finds sector_size sectors r
  unfolding or_backup
  or_backup-Finds (some gpt) sector_size sectors r e h =
      let same : some (gpt, true) ≡ r = cc in
      subst (λ v. Finds sector_size sectors v) same
        (primary (read_and_check_gpt-IsTable crc32 pread 1 sector_size sectors gpt e))
  or_backup-Finds none sector_size sectors r e h =
      let (found, f, g) =
        bind-done (read_and_check_gpt crc32 pread (sectors - 1) sector_size sectors) _ r h in
      let same : as_backup found ≡ r = cc in
      subst (λ v. Finds sector_size sectors v) same (as_backup-Finds found sector_size sectors e f)

  find_table-Finds :
      (sector_size sectors : ℕ) (r : Option (Gpt × Bool))
      → find_table crc32 pread sector_size sectors ≡ done r
      → Finds sector_size sectors r
  unfolding find_table
  find_table-Finds sector_size sectors r h =
      let (found, e, f) = bind-done (read_and_check_gpt crc32 pread 1 sector_size sectors) _ r h in
      or_backup-Finds found sector_size sectors r e f

  fix_tables-Careful :
      (gpt : Gpt) (used_primary : Bool) (sectors sector_size : ℕ) (mbr : Bytes) (action : Action)
      → NoTable sector_size sectors
      → Found (other_size sector_size) (other_sectors sector_size sectors) gpt used_primary
      → fix_tables crc32 pread gpt used_primary sectors sector_size mbr ≡ done action
      → Careful mode_fix sector_size sectors action
  unfolding fix_tables
  fix_tables-Careful gpt used_primary sectors sector_size mbr action none_new found h =
      let (first, e, f) =
        bind-done
          (create_new_gpt crc32 (place used_primary (sectors - 1) 1) sectors sector_size gpt mbr) _
          action h in
      let second =
        create_new_gpt crc32 (place used_primary 1 (sectors - 1)) sectors sector_size gpt mbr in
      let same : rewrite first second ≡ action = cc in
      subst (λ a. Careful mode_fix sector_size sectors a) same
        (fixed gpt used_primary mbr refl none_new found
          (ap (λ n. create_new_gpt crc32 n sectors sector_size gpt mbr)
              (other_place_is used_primary sectors)
            ∙ e)
          (ap (λ n. create_new_gpt crc32 n sectors sector_size gpt mbr)
            (own_place_is used_primary sectors)))

  after_old-Careful :
      (mode : Mode) (old : Option (Gpt × Bool)) (sectors sector_size : ℕ) (mbr : Bytes)
      (action : Action)
      → NoTable sector_size sectors
      → Finds (other_size sector_size) (other_sectors sector_size sectors) old
      → after_old crc32 pread mode old sectors sector_size mbr ≡ done action
      → Careful mode sector_size sectors action
  unfolding after_old
  after_old-Careful mode none sectors sector_size mbr action n f h = cc
  after_old-Careful mode_check (some (gpt, used)) sectors sector_size mbr action n f h = cc
  after_old-Careful mode_fix (some (gpt, used)) sectors sector_size mbr action n f h =
      fix_tables-Careful gpt used sectors sector_size mbr action n f h

  after_new-Careful :
      (mode : Mode) (found : Option (Gpt × Bool)) (sectors sector_size : ℕ) (mbr : Bytes)
      (action : Action)
      → Finds sector_size sectors found
      → after_new crc32 pread mode found sectors sector_size mbr ≡ done action
      → Careful mode sector_size sectors action
  unfolding after_new
  after_new-Careful mode (some (gpt, used)) sectors sector_size mbr action f h =
      let same : unchanged gpt ≡ action = cc in
      subst (λ a. Careful mode sector_size sectors a) same (kept used f)
  after_new-Careful mode none sectors sector_size mbr action f h =
      let (c, g) = demand-done (sectors * sector_size % 4096 == 0) exit_unsupported _ action h in
      let (old, e, k) =
        bind-done
          (find_table crc32 pread (other_size sector_size) (other_sectors sector_size sectors)) _
          action g in
      after_old-Careful mode old sectors sector_size mbr action f
        (find_table-Finds (other_size sector_size) (other_sectors sector_size sectors) old e) k

  -- Where `main` gets as far as to the writing, or to its end with nothing to write, whatever the disk
  -- gives: the sectors have 512 or 4096 bytes; and the device has a valid table for its
  -- sector size, and nothing is written; or the mode is to fix, the device has no such table, and a
  -- valid table for the other sector size is the source of the new tables. The first one, complete, is
  -- written in the place of the table that is not the source; what becomes of the second, in the place
  -- of the source, is known only behind that.
  pub gptfix-Careful :
      (mode : Mode) (skip_bpb_check : Bool) (sector_size size : ℕ) (action : Action)
      → gptfix crc32 pread mode skip_bpb_check sector_size size ≡ done action
      → Supported sector_size × Careful mode sector_size (size / sector_size) action
  unfolding gptfix
  gptfix-Careful mode skip_bpb_check sector_size size action h =
      let (valid, h₁) =
        demand-done (sector_size == 512 || sector_size == 4096) exit_unsupported _ action h in
      let (_, h₂) = demand-done (ltb size (2 ^ 63)) exit_unsupported _ action h₁ in
      let (_, h₃) = demand-done (size % sector_size == 0) exit_unsupported _ action h₂ in
      let (_, h₄) = demand-done (not (ltb (size / sector_size) 6)) exit_unsupported _ action h₃ in
      let (buffer, _, h₅) =
        bind-done (full_read exit_io sector_size (pread sector_size 0)) _ action h₄ in
      let (mbr, _, h₆) =
        bind-done (check_mbr (take 512 buffer) (size / sector_size) skip_bpb_check) _ action h₅ in
      let (found, e, h₇) =
        bind-done (find_table crc32 pread sector_size (size / sector_size)) _ action h₆ in
      (
        supported sector_size valid,
        after_new-Careful mode found (size / sector_size) sector_size
            (mbr ++ replicate (sector_size - 512) 0) action
            (find_table-Finds sector_size (size / sector_size) found e) h₇,
      )
