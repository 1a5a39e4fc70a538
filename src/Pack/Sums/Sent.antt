-- ===== src/Pack/Sums/Sent.antt =====
-- What qrexec-lib/pack.c writes for one path.
use qubes_linux_utils.Prelude.{
  ℕ, ◌≡◌, refl, ap, Bool, true, false, List, ◌++◌, Bytes, length, take, arith,
}
use qubes_linux_utils.Crc32.{compute_buf}
use qubes_linux_utils.IoAll.{
  Read, WriteAll, write_done, write_error, write_waiting, write_overrun, write_all,
}
use qubes_linux_utils.IoAll.Laws.{write_all-written}
use qubes_linux_utils.IoAll.Parts.{Behind-refl, Begins, WritesFirst, write_all-WritesFirst}
use qubes_linux_utils.CopyFile.{
  CopyFile, copied, copy_file_ok, copy_file_read_eof, copy_file_read_error, copy_file_write_error,
  copy_waiting, copy_overrun, copy_file,
}
use qubes_linux_utils.CopyFile.Laws.{copy_file-HasCopied}
use qubes_linux_utils.Unpack.Header.{FileHeader}
use qubes_linux_utils.Pack.Process.{State, Outcome, exit_1, after_write, write_all_with_crc}
use qubes_linux_utils.Pack.Result.{wait_for_result}
use qubes_linux_utils.Pack.Send.{
  encode_header, write_failure, must_write, write_whole, write_headers, after_copy, copy_data,
}
use qubes_linux_utils.Pack.Rules.{Ends, Ends-after, Ends-weaken, Any, Anywhere}
use qubes_linux_utils.Pack.Sums.{Summed, Empty, Sums, Sums-then, wait_for_result-Sums}

-- A failed write never returns.
abbrev Never : {A : Type 0} → A → State → Type 0
Never a s = ⊥

write_failure-Never : (A : Type 0) (s : State) → Ends Never Any Anywhere (write_failure {A = A} s)
unfolding write_failure
write_failure-Never A s =
    let s' = record s { blocking = true } in
    Ends-after {B = A} (λ a t. Unit {0}) Never Any Anywhere (wait_for_result s') (λ _. exit_1)
      (Ends-weaken (λ a u. Summed Empty s' u) (λ a t. Unit {0}) Any Anywhere _
        (wait_for_result-Sums s') (λ a u h. tt))
      (λ a t h. tt)

Never-Sums :
    {A : Type 0} (P : Bytes → Type 0) (s : State) (o : Outcome A)
    → Ends Never Any Anywhere o
    → Ends (λ a u. Summed P s u) Any Anywhere o
Never-Sums P s o h = Ends-weaken Never (λ a u. Summed P s u) Any Anywhere o h (λ a u k. absurd k)

-- Just these bytes.
abbrev pub Exactly : Bytes → Bytes → Type 0
Exactly w bytes = bytes ≡ w

-- A write that was complete, and one that was not.
write-Sums :
    (w : Bytes) (s : State)
    → Ends (λ whole u. whole ≡ true → Summed (Exactly w) s u) Any Anywhere (write_all_with_crc w s)
unfolding write_all_with_crc after_write
write-Sums w s =
    let at_once = λ (o : WriteAll).
      Ends (λ whole u. whole ≡ true → Summed (Exactly w) s u) Any Anywhere
        (after_write o (record s { crc32_sum = compute_buf s.crc32_sum w })) in
    elim (write_all w s.writes) as (λ o. write_all w s.writes ≡ o → at_once o) [
      | write_done out writes ↦ λ e h. record {
        bytes = w;
        kind = refl;
        written = ap (λ (v : Bytes). s.sent ++ v) (write_all-written w s.writes out writes e);
        summed = refl;
        quota = refl;
        later = Behind-refl s.reads;
      }
      | write_error errno out writes ↦ λ e h. absurd (ground arith)
      | write_waiting ↦ λ e. tt
      | write_overrun ↦ λ e. tt
    ]
      refl

-- A write whose result is not looked at: the first bytes were written, and the checksum counts all.
pub record Counted (w : Bytes) (s u : State) : Type 0 where
  pub part : Bytes
  pub begins : Begins w part
  pub written : u.sent ≡ s.sent ++ part
  pub summed : u.crc32_sum ≡ compute_buf s.crc32_sum w
  pub quota : u.ignore_quota_error ≡ s.ignore_quota_error
  pub unread : u.reads ≡ s.reads

pub write-Counted :
    (w : Bytes) (s : State) → Ends (λ whole u. Counted w s u) Any Anywhere (write_all_with_crc w s)
unfolding write_all_with_crc after_write
write-Counted w s =
    elim (write_all w s.writes)
        as (λ o.
          WritesFirst w o
          → Ends (λ whole u. Counted w s u) Any Anywhere
              (after_write o (record s { crc32_sum = compute_buf s.crc32_sum w }))) [
                | write_done out writes ↦ λ h. record {
                  part = out;
                  begins = h;
                  written = refl;
                  summed = refl;
                  quota = refl;
                  unread = refl;
                }
                | write_error errno out writes ↦ λ h. record {
                  part = out;
                  begins = h;
                  written = refl;
                  summed = refl;
                  quota = refl;
                  unread = refl;
                }
                | write_waiting ↦ λ h. tt
                | write_overrun ↦ λ h. tt
              ]
      (write_all-WritesFirst w s.writes)

pub write_whole-Sums : (w : Bytes) → Sums (Exactly w) (write_whole w)
unfolding write_whole must_write
write_whole-Sums w s =
    Ends-after (λ whole u. whole ≡ true → Summed (Exactly w) s u) (λ a u. Summed (Exactly w) s u)
      Any Anywhere (write_all_with_crc w s) must_write (write-Sums w s) after_whole
  where
    after_whole :
        (whole : Bool) (t : State)
        → (whole ≡ true → Summed (Exactly w) s t)
        → Ends (λ a u. Summed (Exactly w) s u) Any Anywhere (must_write whole t)
    after_whole true t h = h refl
    after_whole false t h =
        Never-Sums (Exactly w) s (write_failure t) (write_failure-Never (Unit {0}) t)

pub write_headers-Sums :
    (hdr : FileHeader) (name : Bytes)
    → Sums (Exactly (encode_header hdr ++ take hdr.namelen name)) (write_headers hdr name)
unfolding write_headers
write_headers-Sums hdr name =
    Sums-then (Exactly (encode_header hdr)) (Exactly (take hdr.namelen name)) _
      (write_whole (encode_header hdr)) (write_whole (take hdr.namelen name))
      (λ a b p q. rw (p, q) refl) (write_whole-Sums (encode_header hdr))
      (write_whole-Sums (take hdr.namelen name))

-- So many bytes.
abbrev pub Long : ℕ → Bytes → Type 0
Long n bytes = length bytes ≡ n

-- `copy_file` with the checksum of the transfer.
pub copy_data-Sums :
    (name : Bytes) (filelen : ℕ) (file : List Read)
    → Sums (Long filelen) (copy_data name filelen file)
unfolding copy_data after_copy
copy_data-Sums name filelen file s =
    let at_once = λ (o : CopyFile).
      Ends (λ a u. Summed (Long filelen) s u) Any Anywhere (after_copy name o s) in
    elim (copy_file filelen true s.crc32_sum file s.writes)
        as (λ o. copy_file filelen true s.crc32_sum file s.writes ≡ o → at_once o) [
          | copied copy_file_ok out crc reads writes ↦ λ e.
              let c =
                copy_file-HasCopied filelen s.crc32_sum file s.writes out crc reads writes e in
              record {
                bytes = c.file;
                kind = c.size_is;
                written = ap (λ (v : Bytes). s.sent ++ v) c.written;
                summed = c.checked;
                quota = refl;
                later = Behind-refl s.reads;
              }
          | copied (copy_file_write_error errno) out crc reads writes ↦ λ e.
              Never-Sums (Long filelen) s _ (
                write_failure-Never (Unit {0})
                  (record s { crc32_sum = crc; writes = writes; sent = s.sent ++ out }))
          | copied copy_file_read_eof out crc reads writes ↦ λ e. tt
          | copied copy_file_read_error out crc reads writes ↦ λ e. tt
          | copy_waiting ↦ λ e. tt
          | copy_overrun ↦ λ e. tt
        ]
      refl
