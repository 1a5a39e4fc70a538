-- ===== src/IoAll/CopyAll.antt =====
-- qrexec-lib/ioall.c: `copy_fd_all`, from the events of its calls of `read` and of `write_all`'s calls
-- of `write`.
use qubes_linux_utils.Prelude.{
  ℕ, ◌≤◌, ◌≡◌, refl, ap, sym, subst, ◌∙◌, inl, inr, List, [], ◌∷◌, ◌++◌, append-nil, append_assoc,
  Bytes, length, ◌==◌, ==_iff, ltb, Bool-cases, if◌then◌else◌, arith,
}
use qubes_linux_utils.IoAll.{
  Read, got, read_failed, Write, eintr, WriteAll, write_done, write_error, write_waiting,
  write_overrun, write_all,
}
use qubes_linux_utils.IoAll.Laws.{write_all-written}

-- What it leaves: 1 or 0, with what was written and the events of `read` that are left over; blocked in
-- a call; or a call that moved more than it was asked to.
pub data CopyAll : Type 0 where
  all_copied copy_failed : Bytes → List Read → CopyAll
  all_waiting all_overrun : CopyAll

-- Behind `write_all`; `again` is the next round.
pub after_write : Bytes → List Read → WriteAll → (Bytes → List Write → CopyAll) → CopyAll
after_write out reads (write_done bytes writes) again = again (out ++ bytes) writes
after_write out reads (write_error errno bytes writes) again = copy_failed (out ++ bytes) reads
after_write out reads write_waiting again = all_waiting
after_write out reads write_overrun again = all_overrun

-- The loop, with what has been written so far; the buffer has 4096 bytes.
unfoldable pub copy_fd_all : Bytes → List Read → List Write → CopyAll
unfolding after_write
copy_fd_all out [] writes = all_waiting
copy_fd_all out (read_failed errno ∷ reads) writes =
    let again = copy_fd_all out reads writes in
    if errno == eintr then again else copy_failed out reads
copy_fd_all out (got [] ∷ reads) writes = all_copied out reads
copy_fd_all out (got (b ∷ bs) ∷ reads) writes =
    if ltb 4096 (length (b ∷ bs))
    then all_overrun
    else after_write out reads (write_all (b ∷ bs) writes)
        (λ out' writes'. copy_fd_all out' reads writes')

-- The calls of `read` up to the end of the file, and all that they bring.
pub data ReadsToEnd : List Read → Bytes → List Read → Type 0 where
  ended : {rest : List Read} → ReadsToEnd (got [] ∷ rest) [] rest
  interrupted :
      {events rest : List Read} {bytes : Bytes}
      → ReadsToEnd events bytes rest
      → ReadsToEnd (read_failed eintr ∷ events) bytes rest
  piece_of :
      {piece bytes : Bytes} {events rest : List Read}
      → length piece ≤ 4096
      → ReadsToEnd events bytes rest
      → ReadsToEnd (got piece ∷ events) (piece ++ bytes) rest

-- What was written behind `start`.
abbrev Copied : Bytes → List Read → Bytes → List Read → Type 0
Copied start events out rest =
    (bytes : Bytes) × ReadsToEnd events bytes rest × (out ≡ start ++ bytes)

after_write-done :
    (out : Bytes) (reads : List Read) (w : WriteAll) (again : Bytes → List Write → CopyAll)
    (all : Bytes) (rest : List Read)
    → after_write out reads w again ≡ all_copied all rest
    → (bytes : Bytes) × (writes : List Write) × (w ≡ write_done bytes writes)
      × (again (out ++ bytes) writes ≡ all_copied all rest)
unfolding after_write
after_write-done out reads (write_done bytes writes) again all rest h = (bytes, writes, refl, h)
after_write-done out reads (write_error errno bytes writes) again all rest h = cc
after_write-done out reads write_waiting again all rest h = cc
after_write-done out reads write_overrun again all rest h = cc

Copied-piece :
    (out piece bytes all : Bytes) (events rest : List Read)
    → bytes ≡ piece
    → length piece ≤ 4096
    → Copied (out ++ bytes) events all rest
    → Copied out (got piece ∷ events) all rest
Copied-piece out piece bytes all events rest e h (more, r, f) = (
  piece ++ more,
  piece_of h r,
  f ∙ ap (λ (w : Bytes). out ++ w ++ more) e ∙ append_assoc out piece more,
)

Copied-interrupted :
    (out all : Bytes) (errno : ℕ) (events rest : List Read)
    → errno ≡ eintr
    → Copied out events all rest
    → Copied out (read_failed errno ∷ events) all rest
Copied-interrupted out all errno events rest e (bytes, r, f) = rw e (bytes, interrupted r, f)

Copied-end :
    (out all : Bytes) (events rest : List Read)
    → out ≡ all
    → events ≡ rest
    → Copied out (got [] ∷ events) all rest
Copied-end out all events rest e f = rw (sym f) ([], ended, sym e ∙ sym (append-nil out))

copy_loop-Copied :
    (out : Bytes) (reads : List Read) (writes : List Write) (all : Bytes) (rest : List Read)
    → copy_fd_all out reads writes ≡ all_copied all rest
    → Copied out reads all rest
unfolding copy_fd_all
copy_loop-Copied out [] writes all rest h = cc
copy_loop-Copied out (read_failed errno ∷ reads) writes all rest h =
    elim (Bool-cases (errno == eintr)) [
      | inl e ↦
          Copied-interrupted out all errno reads rest ((==_iff errno eintr).0 e)
            (copy_loop-Copied out reads writes all rest (ground arith))
      | inr e ↦ absurd (ground arith)
    ]
copy_loop-Copied out (got [] ∷ reads) writes all rest h =
    let e : out ≡ all = cc in let f : reads ≡ rest = cc in Copied-end out all reads rest e f
copy_loop-Copied out (got (b ∷ bs) ∷ reads) writes all rest h =
    elim (Bool-cases (ltb 4096 (length (b ∷ bs)))) [
      | inl e ↦ absurd (ground arith)
      | inr e ↦
          let (bytes, writes', f, g) =
            after_write-done out reads (write_all (b ∷ bs) writes)
              (λ out' writes'. copy_fd_all out' reads writes') all rest (ground arith) in
          Copied-piece out (b ∷ bs) bytes all reads rest
            (write_all-written (b ∷ bs) writes bytes writes' f) (ground arith)
            (copy_loop-Copied (out ++ bytes) reads writes' all rest g)
    ]

-- When `copy_fd_all` returns 1, then what it wrote is all that its calls of `read` brought, in order, up
-- to the first that returned 0, each at most 4096 bytes and the interrupted ones passed over; the
-- events behind that call are left.
pub copy_fd_all-ReadsToEnd :
    (reads : List Read) (writes : List Write) (all : Bytes) (rest : List Read)
    → copy_fd_all [] reads writes ≡ all_copied all rest
    → ReadsToEnd reads all rest
copy_fd_all-ReadsToEnd reads writes all rest h =
    let (bytes, r, e) = copy_loop-Copied [] reads writes all rest h in
    subst (λ w. ReadsToEnd reads w rest) (sym e) r
