-- ===== src/Gpt/Adjust/Laws.antt =====
-- The place of a partition on the disk, in bytes, before and after a table is written for another
-- sector size by gptfixer/gpt.c.
use qubes_linux_utils.Prelude.{
  ℕ, ◌+◌, ◌-◌, ◌*◌, ◌/◌, ◌%◌, ◌^◌, ◌<◌, ◌≤◌, ◌≡◌, refl, ◌⊎◌, inl, inr, true, false, List, [], ◌∷◌,
  All, Bool-cases, arith,
}
use native.Mathlib.Omega.{div_any}
use qubes_linux_utils.Gpt.Disk.{done, exits, asserts, GptPartitionEntry, unused_entry}
use qubes_linux_utils.Gpt.Sector.{uint64, start_byte_offset, end_byte_offset}
use qubes_linux_utils.Gpt.Adjust.{Extent, visit, scan, move_entry, move_entries}

-- An entry that can be expressed in sectors of this size.
abbrev pub Aligned : ℕ → ℕ → GptPartitionEntry → Type 0
Aligned old_size new_size p =
    (unused_entry p ≡ false)
    → (start_byte_offset old_size p % new_size ≡ 0) × (end_byte_offset old_size p % new_size ≡ 0)

-- All but the place: the GUIDs, the attributes and the name.
abbrev pub SameData : GptPartitionEntry → GptPartitionEntry → Type 0
SameData p q = q ≡ record p { starting_lba = q.starting_lba; ending_lba = q.ending_lba }

-- An entry in use has a place in bytes, the same in both tables, and the same data otherwise; one that
-- is not is as it was.
abbrev pub SamePlace : ℕ → ℕ → GptPartitionEntry → GptPartitionEntry → Type 0
SamePlace old_size new_size p q =
    ((unused_entry p ≡ true) × (q ≡ p))
    ⊎ ((start_byte_offset new_size q ≡ start_byte_offset old_size p)
        × (end_byte_offset new_size q ≡ end_byte_offset old_size p)
        × SameData p q)

visit-Aligned :
    (old_size new_size : ℕ) (p : GptPartitionEntry) (x y : Extent)
    → visit old_size new_size p x ≡ done y
    → Aligned old_size new_size p
unfolding visit
visit-Aligned old_size new_size p x y h used = (ground arith, ground arith)

divided : (b n : ℕ) → 0 < n → b % n ≡ 0 → b / n * n ≡ b
divided b n above h = omega (arith, div_any b n)

-- `uint64 b / n - 1 + 1` with the wrap-around of a division that gives 0.
around : (b n : ℕ) → uint64 (uint64 (uint64 b / n + (2 ^ 64 - 1)) + 1) ≡ uint64 b / n
around b n =
    let small : uint64 b / n ≤ uint64 b = omega (arith, div_any (uint64 b) n) in omega arith

move_entry-SamePlace :
    (old_size new_size : ℕ) (p : GptPartitionEntry)
    → 0 < new_size
    → Aligned old_size new_size p
    → SamePlace old_size new_size p (move_entry old_size new_size p)
unfolding move_entry
move_entry-SamePlace old_size new_size p above a = elim (Bool-cases (unused_entry p)) [
  | inl e ↦ inl (e, rw e refl)
  | inr e ↦
      let start = divided (start_byte_offset old_size p) new_size above (a e).0 in
      let stop = divided (end_byte_offset old_size p) new_size above (a e).1 in
      inr (
        rw e (rw start (omega arith)),
        rw (e, around (uint64 (p.ending_lba + 1) * old_size) new_size, stop) (omega arith),
        rw e refl,
      )
]

scan-Aligned :
    (old_size new_size : ℕ) (ps : List GptPartitionEntry) (x y : Extent)
    → scan old_size new_size ps x ≡ done y
    → All (Aligned old_size new_size) ps
unfolding scan
scan-Aligned old_size new_size [] x y h = tt
scan-Aligned old_size new_size (p ∷ ps) x y h =
    elim (visit old_size new_size p x)
        as (λ r. visit old_size new_size p x ≡ r → All (Aligned old_size new_size) (p ∷ ps)) [
          | done z ↦ λ e. (
            visit-Aligned old_size new_size p x z e,
            scan-Aligned old_size new_size ps z y (ground (arith, e)),
          )
          | exits status ↦ λ e. absurd (ground (arith, e))
          | asserts ↦ λ e. absurd (ground (arith, e))
        ]
      refl

-- Entry by entry.
abbrev pub SamePlaces : ℕ → ℕ → List GptPartitionEntry → List GptPartitionEntry → Type 0
SamePlaces old_size new_size [] [] = Unit {0}
SamePlaces old_size new_size (p ∷ ps) (q ∷ qs) =
    SamePlace old_size new_size p q × SamePlaces old_size new_size ps qs
SamePlaces old_size new_size _ _ = ⊥

moved :
    (old_size new_size : ℕ) (ps : List GptPartitionEntry)
    → 0 < new_size
    → All (Aligned old_size new_size) ps
    → SamePlaces old_size new_size ps (move_entries old_size new_size ps)
unfolding move_entries
moved old_size new_size [] above a = tt
moved old_size new_size (p ∷ ps) above a =
    (move_entry-SamePlace old_size new_size p above a.0, moved old_size new_size ps above a.1)

-- When the loop over the entries in use finds each of them expressible in sectors of the new size, the
-- loop that copies them gives every entry in use, in order, the same first byte, the same byte
-- behind its end and the same data otherwise, and leaves an unused entry as it is.
pub scan-SamePlaces :
    (old_size new_size : ℕ) (ps : List GptPartitionEntry) (x y : Extent)
    → 0 < new_size
    → scan old_size new_size ps x ≡ done y
    → SamePlaces old_size new_size ps (move_entries old_size new_size ps)
scan-SamePlaces old_size new_size ps x y above h =
    moved old_size new_size ps above (scan-Aligned old_size new_size ps x y h)
