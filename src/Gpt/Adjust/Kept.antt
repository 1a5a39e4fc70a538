-- ===== src/Gpt/Adjust/Kept.antt =====
-- `gpt_adjust_sectors` of gptfixer/gpt.c as a whole: the table that it returns, against the one that
-- it was given.
use qubes_linux_utils.Prelude.{
  ℕ, zero, suc, ◌+◌, ◌-◌, ◌*◌, ◌^◌, ◌<◌, ◌≤◌, ◌≡◌, refl, inl, inr, Bool, true, false, not, ◌||◌,
  List, [], ◌∷◌, Bytes, take, ◌==◌, ltb, Bool-cases, arith,
}
use qubes_linux_utils.Gpt.Disk.{
  Run, done, exits, asserts, assert, demand, ◌>>=◌, ◌>>◌, GptPartitionEntry, Gpt,
}
use qubes_linux_utils.Gpt.Sector.{uint64, valid_sector_size, gpt_partition_table_required_bytes}
use qubes_linux_utils.Gpt.Adjust.{
  Extent, scan, smaller, move_entries, fixup_gpt, room_for_entries, new_header, gpt_adjust_sectors,
}
use qubes_linux_utils.Gpt.Adjust.Laws.{SamePlaces, scan-SamePlaces}

-- A sequence that returns has returned from its first step.
pub bind-done :
    {A B : Type 0} (r : Run A) (f : A → Run B) (b : B)
    → (r >>= f) ≡ done b
    → (a : A) × (r ≡ done a) × (f a ≡ done b)
bind-done (done a) f b h = (a, refl, h)
bind-done (exits status) f b h = absurd (ground arith)
bind-done asserts f b h = absurd (ground arith)

pub assert-done :
    {B : Type 0} (c : Bool) (k : Run B) (b : B)
    → (assert c >> k) ≡ done b
    → (c ≡ true) × (k ≡ done b)
assert-done true k b h = (refl, h)
assert-done false k b h = absurd (ground arith)

pub demand-done :
    {B : Type 0} (c : Bool) (status : ℕ) (k : Run B) (b : B)
    → (demand c status >> k) ≡ done b
    → (c ≡ true) × (k ≡ done b)
demand-done true status k b h = (refl, h)
demand-done false status k b h = absurd (ground arith)

take-move_entries :
    (old_size new_size k n : ℕ) (ps : List GptPartitionEntry)
    → k ≤ n
    → take k (move_entries old_size new_size (take n ps))
      ≡ move_entries old_size new_size (take k ps)
unfolding move_entries
take-move_entries old_size new_size zero n ps h = refl
take-move_entries old_size new_size (suc k) zero ps h = absurd (omega arith)
take-move_entries old_size new_size (suc k) (suc n) [] h = refl
take-move_entries old_size new_size (suc k) (suc n) (p ∷ ps) h =
    rw (take-move_entries old_size new_size k n ps (omega arith)) refl

room-fits :
    (used most number n : ℕ)
    → used ≤ number
    → (assert (not (ltb most used)) >> done (smaller most number)) ≡ done n
    → used ≤ n
room-fits used most number n fits h = elim (Bool-cases (ltb most used)) [
  | inl e ↦ absurd (ground arith)
  | inr e ↦ elim (Bool-cases (ltb number most)) [ inl f ↦ ground arith | inr f ↦ ground arith ]
]

-- The new table has room for the entries in use.
room-le :
    (gpt : Gpt) (sector_size size : ℕ) (extent : Extent) (n : ℕ)
    → gpt.used_entries ≤ gpt.header.number_of_partition_entries
    → room_for_entries gpt sector_size size extent ≡ done n
    → gpt.used_entries ≤ n
unfolding room_for_entries
room-le gpt sector_size size extent n fits h =
    let (_, h₁) = assert-done (ltb extent.first_start extent.last_end) _ n h in
    let (bytes, _, h₂) =
      bind-done (gpt_partition_table_required_bytes gpt.header sector_size gpt.used_entries) _ n
        h₁ in
    let (_, h₃) = assert-done (not (ltb size extent.last_end)) _ n h₂ in
    let (_, h₄) = demand-done (not (ltb (size - extent.last_end) (bytes + sector_size))) _ _ n h₃ in
    let (_, h₅) = demand-done (not (ltb extent.first_start (bytes + 2 * sector_size))) _ _ n h₄ in
    room-fits gpt.used_entries _ gpt.header.number_of_partition_entries n fits h₅

-- The size of a sector that passed its test.
valid-pos : (n : ℕ) → valid_sector_size n ≡ true → 0 < n
unfolding valid_sector_size
valid-pos n h = ground arith

-- When `gpt_adjust_sectors` returns a table, the entries that were in use stand in it, in the same
-- order, each with the same first byte and the same byte behind its end as before, and with its GUIDs,
-- its attributes and its name; it needs that the given table counts no more entries as used than its
-- header has.
pub gpt_adjust_sectors-SamePlaces :
    (crc32 : Bytes → ℕ) (sector_offset sector_size sectors : ℕ) (gpt new_gpt : Gpt) (allocated : ℕ)
    → gpt.used_entries ≤ gpt.header.number_of_partition_entries
    → gpt_adjust_sectors crc32 sector_offset sector_size sectors gpt ≡ done (new_gpt, allocated)
    → SamePlaces gpt.sector_size sector_size
        (take gpt.used_entries gpt.entries)
        (take gpt.used_entries new_gpt.entries)
unfolding gpt_adjust_sectors fixup_gpt
gpt_adjust_sectors-SamePlaces crc32 sector_offset sector_size sectors gpt new_gpt allocated fits h =
    let result : Gpt × ℕ = (new_gpt, allocated) in
    let (_, h₁) = assert-done (not (ltb sectors 6)) _ result h in
    let (_, h₂) = assert-done (valid_sector_size gpt.sector_size) _ result h₁ in
    let (valid, h₃) = assert-done (valid_sector_size sector_size) _ result h₂ in
    let (_, h₄) = assert-done (sector_offset == 1 || sector_offset == sectors - 1) _ result h₃ in
    let (extent, scanned, h₅) =
      bind-done
        (scan gpt.sector_size sector_size (take gpt.used_entries gpt.entries)
          (record { first_start = 2 ^ 64 - 1; last_end = 0 }))
        _ result h₄ in
    let (n, room, h₆) =
      bind-done (room_for_entries gpt sector_size (uint64 (sector_size * sectors)) extent) _ result
        h₅ in
    let (bytes, _, h₇) =
      bind-done (gpt_partition_table_required_bytes gpt.header sector_size n) _ result h₆ in
    let (header, _, h₈) =
      bind-done (new_header gpt sector_offset sector_size sectors n bytes) _ result h₇ in
    let entries : move_entries gpt.sector_size sector_size (take n gpt.entries) ≡ new_gpt.entries =
      ground (arith, h₈) in
    let kept =
      take-move_entries gpt.sector_size sector_size gpt.used_entries n gpt.entries
        (room-le gpt sector_size (uint64 (sector_size * sectors)) extent n fits room) in
    rw (← entries, kept)
      (scan-SamePlaces gpt.sector_size sector_size (take gpt.used_entries gpt.entries) _ extent
        (valid-pos sector_size valid) scanned)
