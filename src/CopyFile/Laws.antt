-- ===== src/CopyFile/Laws.antt =====
-- `copy_file` (qrexec-lib/copy-file.c) on success.
use qubes_linux_utils.Prelude.{
  ℕ, zero, suc, ◌-◌, ◌≤◌, ◌≡◌, refl, sym, ◌∙◌, subst, true, List, [], ◌∷◌, ◌++◌, append-nil,
  append_assoc, Bytes, length, length-append, ltb, Bool-cases, inl, inr, arith,
}
use qubes_linux_utils.Crc32.{compute_buf}
use qubes_linux_utils.Crc32.Laws.{compute_buf-append, compute_buf-nil}
use qubes_linux_utils.IoAll.{
  Read, got, read_failed, Write, WriteAll, write_done, write_error, write_waiting, write_overrun,
  write_all,
}
use qubes_linux_utils.IoAll.Laws.{write_all-written}
use qubes_linux_utils.CopyFile.{
  CopyFile, copied, copy_file_ok, count_for, after_write, copy_loop, copy_file,
}

-- The bytes of the file, all of them written, and the checksum brought up to date.
pub record HasCopied (size crc : ℕ) (out : Bytes) (crc' : ℕ) (start : Bytes) : Type 0 where
  pub file : Bytes
  pub written : out ≡ start ++ file
  pub size_is : length file ≡ size
  pub checked : crc' ≡ compute_buf crc file

-- A round that went on.
HasCopied-piece :
    {left crc : ℕ} {out : Bytes} {crc' : ℕ} (start piece : Bytes)
    → length piece ≤ left
    → HasCopied (left - length piece) (compute_buf crc piece) out crc' (start ++ piece)
    → HasCopied left crc out crc' start
HasCopied-piece {crc} start piece fits c = record {
  file = piece ++ c.file;
  written = c.written ∙ append_assoc start piece c.file;
  size_is = omega (arith, length-append piece c.file, c.size_is);
  checked = c.checked ∙ sym (compute_buf-append crc piece c.file);
}

-- Only a complete `write_all` goes on.
after_write-copied :
    (out : Bytes) (crc : ℕ) (reads : List Read) (w : WriteAll)
    (again : Bytes → List Write → CopyFile) (all : Bytes) (crc' : ℕ) (reads' : List Read)
    (writes' : List Write)
    → after_write out crc reads w again ≡ copied copy_file_ok all crc' reads' writes'
    → (bytes : Bytes) × (writes : List Write) × (w ≡ write_done bytes writes)
      × (again (out ++ bytes) writes ≡ copied copy_file_ok all crc' reads' writes')
unfolding after_write
after_write-copied out crc reads (write_done bytes writes) again all crc' reads' writes' h =
    (bytes, writes, refl, h)
after_write-copied out crc reads (write_error errno bytes writes) again all crc' reads' writes' h =
    absurd (ground arith)
after_write-copied out crc reads write_waiting again all crc' reads' writes' h =
    absurd (ground arith)
after_write-copied out crc reads write_overrun again all crc' reads' writes' h =
    absurd (ground arith)

copy_loop-HasCopied :
    (start : Bytes) (crc left : ℕ) (reads : List Read) (writes : List Write) (out : Bytes)
    (crc' : ℕ) (reads' : List Read) (writes' : List Write)
    → copy_loop true start crc left reads writes ≡ copied copy_file_ok out crc' reads' writes'
    → HasCopied left crc out crc' start
unfolding copy_loop
copy_loop-HasCopied start crc zero reads writes out crc' reads' writes' h = record {
  file = [];
  written = ground (arith, append-nil start);
  size_is = refl;
  checked = ground (arith, compute_buf-nil crc);
}
copy_loop-HasCopied start crc (suc left) [] writes out crc' reads' writes' h = absurd (ground arith)
copy_loop-HasCopied start crc (suc left) (read_failed e ∷ reads) writes out crc' reads' writes' h =
    absurd (ground arith)
copy_loop-HasCopied start crc (suc left) (got [] ∷ reads) writes out crc' reads' writes' h =
    absurd (ground arith)
copy_loop-HasCopied start crc (suc left) (got (b ∷ bs) ∷ reads) writes out crc' reads' writes' h =
    elim (Bool-cases (ltb (count_for (suc left)) (length (b ∷ bs)))) [
      | inl e ↦ absurd (ground arith)
      | inr e ↦
          let crc₁ = compute_buf crc (b ∷ bs) in
          let (bytes, writes₁, f, g) =
            after_write-copied start crc₁ reads (write_all (b ∷ bs) writes)
              (λ out' writes'. copy_loop true out' crc₁ (suc left - length (b ∷ bs)) reads writes')
              out crc' reads' writes' (ground arith) in
          let whole : bytes ≡ b ∷ bs = write_all-written (b ∷ bs) writes bytes writes₁ f in
          HasCopied-piece start (b ∷ bs) (ground arith) (
            subst (λ (t : Bytes). HasCopied (suc left - length (b ∷ bs)) crc₁ out crc' (start ++ t))
              whole
              (copy_loop-HasCopied (start ++ bytes) crc₁ (suc left - length (b ∷ bs)) reads writes₁
                out crc' reads' writes' g))
    ]

-- When `copy_file`, with a checksum to keep, returns COPY_FILE_OK, it has written exactly as many
-- bytes as the file has, and the checksum is that of the transfer so far with the bytes written
-- added.
pub copy_file-HasCopied :
    (size crc : ℕ) (reads : List Read) (writes : List Write) (out : Bytes) (crc' : ℕ)
    (reads' : List Read) (writes' : List Write)
    → copy_file size true crc reads writes ≡ copied copy_file_ok out crc' reads' writes'
    → HasCopied size crc out crc' []
unfolding copy_file
copy_file-HasCopied size crc reads writes out crc' reads' writes' h =
    copy_loop-HasCopied [] crc size reads writes out crc' reads' writes' h
