-- ===== src/Gpt/Header/Laws.antt =====
-- The headers that `check_gpt_header` of gptfixer/gpt.c accepts.
use qubes_linux_utils.Prelude.{
  ℕ, suc, ◌-◌, ◌*◌, ◌^◌, ◌<◌, ◌≤◌, ◌≡◌, refl, ◌⊎◌, inl, inr, true, false, Option, none, some, [],
  ◌∷◌, Bytes, ◌==◌, Bool-cases, arith,
}
use qubes_linux_utils.Gpt.Disk.{done, exits, asserts, GptHeader, header_bytes}
use qubes_linux_utils.Gpt.Sector.{uint64, gpt_partition_table_bytes}
use qubes_linux_utils.Pure.QubeName.Laws.{same_iff}
use qubes_linux_utils.Gpt.Header.{
  efi_part, well_formed, has_space, backup_space, primary_space, table_space, check_table,
  check_gpt_header,
}

-- The primary table lies behind its header in sector 1, before the usable sectors, and the backup
-- header behind them on the disk.
abbrev pub PrimaryPlace : GptHeader → ℕ → ℕ → ℕ → ℕ → Type 0
PrimaryPlace h sector_offset sector_size sectors bytes =
    (sector_offset ≡ 1)
    × (h.partition_entry_lba ≡ 2)
    × (h.last_usable_lba < h.alternate_lba)
    × (h.alternate_lba < sectors)
    × (bytes ≤ uint64 ((h.first_usable_lba - 2) * sector_size))

-- A backup table lies behind the usable sectors, before the header that it belongs to.
abbrev pub BackupPlace : GptHeader → ℕ → ℕ → ℕ → Type 0
BackupPlace h sector_offset sector_size bytes =
    ((sector_offset == 1) ≡ false)
    × (h.alternate_lba ≡ 1)
    × (h.last_usable_lba < h.partition_entry_lba)
    × (h.partition_entry_lba < h.my_lba)
    × (bytes ≤ uint64 ((h.my_lba - h.partition_entry_lba) * sector_size))

-- A header for the primary table or for a backup, whose table takes `bytes` bytes.
pub record Accepts (crc32 : Bytes → ℕ) (h : GptHeader) (sector_offset sector_size sectors bytes : ℕ)
    : Type 0 where
  pub signature : h.signature ≡ b'E' ∷ b'F' ∷ b'I' ∷ b' ' ∷ b'P' ∷ b'A' ∷ b'R' ∷ b'T' ∷ []
  pub revision : h.revision ≡ 0x10000
  pub header_size : (92 ≤ h.header_size) × (h.header_size ≤ sector_size)
  pub checksum : h.header_crc32 ≡ crc32 (header_bytes (record h { header_crc32 = 0 }))
  pub entry_size : h.size_of_partition_entry ≡ 128
  pub usable : (3 ≤ h.first_usable_lba) × (h.first_usable_lba ≤ h.last_usable_lba)
  pub entries : 1 ≤ h.number_of_partition_entries
  pub table : bytes ≡ uint64 (h.number_of_partition_entries * 128)
  pub limit : bytes ≤ 2 ^ 20
  pub place :
      (PrimaryPlace h sector_offset sector_size sectors bytes)
      ⊎ (BackupPlace h sector_offset sector_size bytes)

well_formed-facts :
    (crc32 : Bytes → ℕ) (h : GptHeader) (sector_size : ℕ)
    → well_formed crc32 h sector_size ≡ true
    → (h.signature ≡ efi_part)
      × (h.revision ≡ 0x10000)
      × ((92 ≤ h.header_size) × (h.header_size ≤ sector_size))
      × (h.header_crc32 ≡ crc32 (header_bytes (record h { header_crc32 = 0 })))
      × (128 ≤ h.size_of_partition_entry)
unfolding well_formed
well_formed-facts crc32 h sector_size e = (
  (same_iff h.signature efi_part).0 (ground arith),
  ground arith,
  (ground arith, ground arith),
  ground arith,
  ground arith,
)

check_table-facts :
    (h : GptHeader) (sector_size n : ℕ) (space : Option ℕ)
    → check_table h sector_size space ≡ done (suc n)
    → (k : ℕ) × (space ≡ some k)
      × (1 ≤ h.number_of_partition_entries)
      × (suc n ≡ gpt_partition_table_bytes h)
      × (suc n ≤ 2 ^ 20)
      × (suc n ≤ uint64 (k * sector_size))
unfolding check_table
check_table-facts h sector_size n none e = absurd (ground arith)
check_table-facts h sector_size n (some k) e =
    (k, refl, ground arith, ground arith, ground arith, ground arith)

-- The `sector_offset` of a primary table.
primary-facts :
    (h : GptHeader) (sectors k : ℕ)
    → primary_space h sectors ≡ done (some k)
    → (h.partition_entry_lba ≡ 2)
      × (h.last_usable_lba < h.alternate_lba)
      × (h.alternate_lba < sectors)
      × (k ≡ h.first_usable_lba - 2)
unfolding primary_space
primary-facts h sectors k e = (ground arith, ground arith, ground arith, ground arith)

backup-facts :
    (h : GptHeader) (k : ℕ)
    → backup_space h ≡ some k
    → (h.alternate_lba ≡ 1)
      × (h.last_usable_lba < h.partition_entry_lba)
      × (h.partition_entry_lba < h.my_lba)
      × (k ≡ h.my_lba - h.partition_entry_lba)
unfolding backup_space
backup-facts h k e = (ground arith, ground arith, ground arith, ground arith)

-- The check goes on to the table once everything before it holds.
abbrev Reaches : (Bytes → ℕ) → GptHeader → ℕ → ℕ → ℕ → ℕ → Type 0
Reaches crc32 h sector_offset sector_size sectors n =
    (well_formed crc32 h sector_size ≡ true)
    × (h.size_of_partition_entry ≤ 128)
    × (3 ≤ h.first_usable_lba)
    × (h.first_usable_lba ≤ h.last_usable_lba)
    × (space : Option ℕ) × (table_space h sector_offset sectors ≡ done space)
    × (check_table h sector_size space ≡ done (suc n))

check-Reaches :
    (crc32 : Bytes → ℕ) (h : GptHeader) (sector_offset sector_size sectors n : ℕ)
    → check_gpt_header crc32 h sector_offset sector_size sectors ≡ done (suc n)
    → Reaches crc32 h sector_offset sector_size sectors n
unfolding check_gpt_header has_space
check-Reaches crc32 h sector_offset sector_size sectors n e =
    elim (table_space h sector_offset sectors)
        as (λ r.
          table_space h sector_offset sectors ≡ r
          → Reaches crc32 h sector_offset sector_size sectors n) [
            | done space ↦ λ f. (
              ground (arith, f),
              ground (arith, f),
              ground (arith, f),
              ground (arith, f),
              space,
              f,
              ground (arith, f),
            )
            | exits status ↦ λ f. absurd (ground (arith, f))
            | asserts ↦ λ f. absurd (ground (arith, f))
          ]
      refl

-- `check_gpt_header` returns a size other than 0 only for a header with the signature, the revision
-- 1.0, a size from 92 bytes to a sector's, a right checksum, entries of 128 bytes, at least one of them and at most 1 MiB in all, whose usable sectors lie behind the
-- primary table, or before the backup one, and whose table fits in the sectors kept for it.
pub check_gpt_header-Accepts :
    (crc32 : Bytes → ℕ) (h : GptHeader) (sector_offset sector_size sectors n : ℕ)
    → check_gpt_header crc32 h sector_offset sector_size sectors ≡ done (suc n)
    → Accepts crc32 h sector_offset sector_size sectors (suc n)
unfolding table_space gpt_partition_table_bytes
check_gpt_header-Accepts crc32 h sector_offset sector_size sectors n e =
    let (well, small, first, last, space, at, table) =
      check-Reaches crc32 h sector_offset sector_size sectors n e in
    let (k, is_k, entries, bytes, limit, fits) = check_table-facts h sector_size n space table in
    let (signature, revision, header_size, checksum, large) =
      well_formed-facts crc32 h sector_size well in
    let size : h.size_of_partition_entry ≡ 128 = omega arith in
    record {
      signature = signature;
      revision = revision;
      header_size = header_size;
      checksum = checksum;
      entry_size = size;
      usable = (first, last);
      entries = entries;
      table = rw size at bytes;
      limit = limit;
      place = elim (Bool-cases (sector_offset == 1)) [
        | inl e ↦
            let (entry, over, inside, space_is) =
              primary-facts h sectors k (ground (arith, at, is_k)) in
            inl (ground arith, entry, over, inside, rw (← space_is) fits)
        | inr e ↦
            let (alternate, over, before, space_is) = backup-facts h k (ground (arith, at, is_k)) in
            inr (e, alternate, over, before, rw (← space_is) fits)
      ];
    }
