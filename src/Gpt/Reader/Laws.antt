-- ===== src/Gpt/Reader/Laws.antt =====
-- The tables that `read_and_check_gpt` of gptfixer/gpt.c returns.
use qubes_linux_utils.Prelude.{
  ℕ, zero, suc, ◌+◌, ◌*◌, ◌≤◌, ◌≡◌, refl, ◌⊎◌, inl, inr, true, Option, none, some, List, [], ◌∷◌,
  Bytes, All, length, take, Bool-cases, arith, subst,
}
use qubes_linux_utils.Gpt.Disk.{
  done, exits, asserts, GptHeader, GptPartitionEntry, Gpt, decode_header, decode_entries,
  unused_entry,
}
use qubes_linux_utils.Gpt.Sector.{uint64, round_to_next_sector}
use qubes_linux_utils.Gpt.Header.{check_gpt_header}
use qubes_linux_utils.Gpt.Header.Laws.{Accepts, check_gpt_header-Accepts}
use qubes_linux_utils.Gpt.Reader.{last_used, with_used, full_read, read_entries, read_and_check_gpt}

-- An entry is unused, or begins at the first usable sector or behind it, and ends at the last one or
-- before it. That it does not end before it begins is not checked.
abbrev pub InRange : GptHeader → GptPartitionEntry → Type 0
InRange header p =
    (unused_entry p ≡ true)
    ⊎ ((header.first_usable_lba ≤ p.starting_lba) × (p.ending_lba ≤ header.last_usable_lba))

last_used-InRange :
    (header : GptHeader) (i used n : ℕ) (ps : List GptPartitionEntry)
    → last_used header i used ps ≡ some n
    → All (InRange header) ps
unfolding last_used
last_used-InRange header i used n [] h = tt
last_used-InRange header i used n (p ∷ ps) h = elim (Bool-cases (unused_entry p)) [
  | inl e ↦ (inl e, last_used-InRange header (i + 1) used n ps (rw e at h))
  | inr e ↦ (
    inr (ground arith, ground arith),
    last_used-InRange header (i + 1) (i + 1) n ps (ground arith),
  )
]

last_used-le :
    (header : GptHeader) (i used n : ℕ) (ps : List GptPartitionEntry)
    → last_used header i used ps ≡ some n
    → used ≤ i
    → n ≤ i + length ps
unfolding last_used
last_used-le header i used n [] h k = ground arith
last_used-le header i used n (p ∷ ps) h k = elim (Bool-cases (unused_entry p)) [
  | inl e ↦ omega (arith, last_used-le header (i + 1) used n ps (rw e at h) (omega arith))
  | inr e ↦ omega (arith, last_used-le header (i + 1) (i + 1) n ps (ground arith) (omega arith))
]

-- Where the header and the entries stand on the disk.
pub record Stored (crc32 : Bytes → ℕ) (pread : ℕ → ℕ → Option Bytes)
    (sector_offset sector_size bytes : ℕ) (header : GptHeader) (entries : List GptPartitionEntry)
    : Type 0 where
  pub sector : Bytes
  pub sector_read : pread sector_size (uint64 (sector_offset * sector_size)) ≡ some sector
  pub header_is : header ≡ decode_header sector
  pub needed : ℕ
  pub array : Bytes
  pub array_read : pread needed (uint64 (sector_size * header.partition_entry_lba)) ≡ some array
  pub entries_are : entries ≡ decode_entries header.number_of_partition_entries array
  pub entries_checksum : header.partition_entry_array_crc32 ≡ crc32 (take bytes array)

-- A table for these sectors.
pub record IsTable (crc32 : Bytes → ℕ) (pread : ℕ → ℕ → Option Bytes)
    (sector_offset sector_size sectors : ℕ) (gpt : Gpt) : Type 0 where
  pub bytes : ℕ
  pub accepted : Accepts crc32 gpt.header sector_offset sector_size sectors bytes
  pub stored : Stored crc32 pread sector_offset sector_size bytes gpt.header gpt.entries
  pub size : gpt.sector_size ≡ sector_size
  pub some_used : 1 ≤ gpt.used_entries
  pub used_fit : gpt.used_entries ≤ length gpt.entries
  pub in_range : All (InRange gpt.header) gpt.entries

full_read-some :
    (status n : ℕ) (read : Option Bytes) (bytes : Bytes)
    → full_read status n read ≡ done bytes
    → read ≡ some bytes
unfolding full_read
full_read-some status n none bytes h = absurd (ground arith)
full_read-some status n (some b) bytes h = ground arith

with_used-IsTable :
    (crc32 : Bytes → ℕ) (pread : ℕ → ℕ → Option Bytes) (header : GptHeader)
    (sector_offset sector_size sectors bytes : ℕ) (ps : List GptPartitionEntry) (r : Option ℕ)
    (gpt : Gpt)
    → Accepts crc32 header sector_offset sector_size sectors bytes
    → Stored crc32 pread sector_offset sector_size bytes header ps
    → last_used header 0 0 ps ≡ r
    → with_used header ps sector_size r ≡ done (some gpt)
    → IsTable crc32 pread sector_offset sector_size sectors gpt
unfolding with_used
with_used-IsTable crc32 pread header sector_offset sector_size sectors bytes ps none gpt a d e h =
    absurd (ground arith)
with_used-IsTable crc32 pread header sector_offset sector_size sectors bytes ps (some zero) gpt a d
      e h =
    absurd (ground arith)
with_used-IsTable crc32 pread header sector_offset sector_size sectors bytes ps (some (suc n)) gpt a
      d e h =
    let same : record {
      header = header;
      used_entries = suc n;
      entries = ps;
      sector_size = sector_size;
    }
        ≡ gpt =
      ground arith in
    subst (λ (g : Gpt). IsTable crc32 pread sector_offset sector_size sectors g) same
      (record {
        bytes = bytes;
        accepted = a;
        stored = d;
        size = refl;
        some_used = omega arith;
        used_fit = omega (arith, last_used-le header 0 0 (suc n) ps e (omega arith));
        in_range = last_used-InRange header 0 0 (suc n) ps e;
      })

module _ (crc32 : Bytes → ℕ) (pread : ℕ → ℕ → Option Bytes) where
  read_entries-IsTable :
      (header : GptHeader) (sector_offset sector_size sectors bytes : ℕ) (gpt : Gpt)
      → Accepts crc32 header sector_offset sector_size sectors bytes
      → (sector : Bytes) → pread sector_size (uint64 (sector_offset * sector_size)) ≡ some sector
      → header ≡ decode_header sector
      → read_entries crc32 pread header bytes sector_size ≡ done (some gpt)
      → IsTable crc32 pread sector_offset sector_size sectors gpt
  unfolding read_entries
  read_entries-IsTable header sector_offset sector_size sectors bytes gpt a sector d is h =
      elim (round_to_next_sector bytes sector_size)
          as (λ r.
            round_to_next_sector bytes sector_size ≡ r
            → IsTable crc32 pread sector_offset sector_size sectors gpt) [
              | exits status ↦ λ e. absurd (ground (arith, e))
              | asserts ↦ λ e. absurd (ground (arith, e))
              | done needed ↦ λ e.
                  elim (full_read 0 needed
                        (pread needed (uint64 (sector_size * header.partition_entry_lba))))
                      as (λ r.
                        full_read 0 needed
                            (pread needed (uint64 (sector_size * header.partition_entry_lba)))
                          ≡ r
                        → IsTable crc32 pread sector_offset sector_size sectors gpt) [
                          | exits status ↦ λ f. absurd (ground (arith, e, f))
                          | asserts ↦ λ f. absurd (ground (arith, e, f))
                          | done array ↦ λ f.
                              with_used-IsTable crc32 pread header sector_offset sector_size sectors
                                bytes (decode_entries header.number_of_partition_entries array) _
                                gpt a
                                (record {
                                  sector = sector;
                                  sector_read = d;
                                  header_is = is;
                                  needed = needed;
                                  array = array;
                                  array_read = full_read-some 0 needed _ array f;
                                  entries_are = refl;
                                  entries_checksum = ground (arith, e, f);
                                })
                                refl (ground (arith, e, f))
                        ]
                    refl
            ]
        refl

  -- A table that `read_and_check_gpt` returns stands on the disk: its header is that of the sector
  -- asked for, with the signature, revision, size, checksum and places that Accepts lists, its entries
  -- are those that the header points to, with the checksum in the header. It counts at least
  -- one entry as used and no more than there are; and each entry in use begins at the first usable sector or
  -- behind it and ends at the last one or before it.
  pub read_and_check_gpt-IsTable :
      (sector_offset sector_size sectors : ℕ) (gpt : Gpt)
      → read_and_check_gpt crc32 pread sector_offset sector_size sectors ≡ done (some gpt)
      → IsTable crc32 pread sector_offset sector_size sectors gpt
  unfolding read_and_check_gpt
  read_and_check_gpt-IsTable sector_offset sector_size sectors gpt h =
      elim (full_read 2 sector_size (pread sector_size (uint64 (sector_offset * sector_size))))
          as (λ r.
            full_read 2 sector_size (pread sector_size (uint64 (sector_offset * sector_size))) ≡ r
            → IsTable crc32 pread sector_offset sector_size sectors gpt) [
              | exits status ↦ λ e. absurd (ground (arith, e))
              | asserts ↦ λ e. absurd (ground (arith, e))
              | done sector ↦ λ e.
                  elim (check_gpt_header crc32 (decode_header sector) sector_offset sector_size
                        sectors)
                      as (λ r.
                        check_gpt_header crc32 (decode_header sector) sector_offset sector_size
                            sectors
                          ≡ r
                        → IsTable crc32 pread sector_offset sector_size sectors gpt) [
                          | exits status ↦ λ f. absurd (ground (arith, e, f))
                          | asserts ↦ λ f. absurd (ground (arith, e, f))
                          | done zero ↦ λ f. absurd (ground (arith, e, f))
                          | done (suc n) ↦ λ f.
                              read_entries-IsTable (decode_header sector) sector_offset sector_size
                                sectors (suc n) gpt
                                (check_gpt_header-Accepts crc32 (decode_header sector) sector_offset
                                  sector_size sectors n f)
                                sector (full_read-some 2 sector_size _ sector e) refl
                                (ground (arith, e, f))
                        ]
                    refl
            ]
        refl
