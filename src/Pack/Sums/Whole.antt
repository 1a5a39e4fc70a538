-- ===== src/Pack/Sums/Whole.antt =====
-- What qrexec-lib/pack.c writes in a walk over files, and in a whole transfer.
use qubes_linux_utils.Prelude.{
  ◌≡◌, ap, sym, subst, ◌∙◌, append_assoc, Bool, true, ◌&&◌, none, some, List, [], ◌∷◌, ◌++◌, Bytes,
  replicate,
}
use qubes_linux_utils.IoAll.Parts.{Behind, Begins}
use qubes_linux_utils.Crc32.{compute_buf}
use qubes_linux_utils.Crc32.Laws.{compute_buf-append}
use qubes_linux_utils.Unpack.Header.{header_size, is_dir, is_lnk}
use qubes_linux_utils.Pack.Process.{State, ◌>>◌, return, write_all_with_crc}
use qubes_linux_utils.Pack.Send.{
  Node, node, Entries, unreadable, last, entry, single_file_processor, do_fs_walk, walk_entries,
  is_dot, send_paths, notify_end_and_wait_for_result,
}
use qubes_linux_utils.Pack.Result.{wait_for_result}
use qubes_linux_utils.Pack.Result.Laws.{
  Answer, Accepts, Returned, Reported, Exited, wait_for_result-Judged,
}
use qubes_linux_utils.Pack.Rules.{Ends, Ends-weaken, Ends-after, Any, Anywhere}
use qubes_linux_utils.Pack.Frame.{Stream, Stream-append}
use qubes_linux_utils.Pack.Sums.{Summed, Sums, Sums-then, Sums-if}
use qubes_linux_utils.Pack.Sums.Sent.{Counted, write-Counted}
use qubes_linux_utils.Pack.Sums.Framed.{Sized, return-Stream, single_file_processor-Sums}

-- All paths of a walk have lengths that the header can hold.
unfoldable mutual
  pub Walkable : Node → Bytes → Type 0
  Walkable (node none file target entries) path = Unit
  Walkable (node (some st) file target entries) path = Sized path st × AllWalkable entries path

  pub AllWalkable : Entries → Bytes → Type 0
  AllWalkable unreadable path = Unit
  AllWalkable last path = Unit
  AllWalkable (entry name child rest) path =
      Walkable child (path ++ (b'/' ∷ name)) × AllWalkable rest path

mutual
  unfolding do_fs_walk walk_entries Walkable AllWalkable

  do_fs_walk-Sums :
      (tree : Node) (path : Bytes) (ignore_symlinks : Bool)
      → Walkable tree path
      → Sums Stream (do_fs_walk tree path ignore_symlinks)
  do_fs_walk-Sums (node none file target entries) path ignore_symlinks h = λ s. tt
  do_fs_walk-Sums (node (some st) file target entries) path ignore_symlinks h =
      let one = single_file_processor-Sums path st file target h.0 in
      let again =
        Sums-then Stream Stream Stream (walk_entries entries path ignore_symlinks)
          (single_file_processor path st file target) Stream-append
          (walk_entries-Sums entries path ignore_symlinks h.1) one in
      Sums-if Stream (is_lnk st.st_mode && ignore_symlinks) (return tt) _ (λ e. return-Stream)
        (λ e.
          Sums-then Stream Stream Stream (single_file_processor path st file target) _ Stream-append
            one
            (Sums-if Stream (is_dir st.st_mode) _ (return tt) (λ f. again) (λ f. return-Stream)))

  walk_entries-Sums :
      (entries : Entries) (path : Bytes) (ignore_symlinks : Bool)
      → AllWalkable entries path
      → Sums Stream (walk_entries entries path ignore_symlinks)
  walk_entries-Sums unreadable path ignore_symlinks h = λ s. tt
  walk_entries-Sums last path ignore_symlinks h = return-Stream
  walk_entries-Sums (entry name child rest) path ignore_symlinks h =
      let here = do_fs_walk-Sums child (path ++ (b'/' ∷ name)) ignore_symlinks h.0 in
      let others = walk_entries-Sums rest path ignore_symlinks h.1 in
      Sums-if Stream (is_dot name) (walk_entries rest path ignore_symlinks) _ (λ e. others)
        (λ e.
          Sums-then Stream Stream Stream (do_fs_walk child (path ++ (b'/' ∷ name)) ignore_symlinks)
            (walk_entries rest path ignore_symlinks) Stream-append here others)

abbrev pub AllPaths : List (Bytes × Node) → Type 0
AllPaths [] = Unit
AllPaths ((path, tree) ∷ rest) = Walkable tree path × AllPaths rest

send_paths-Sums :
    (paths : List (Bytes × Node)) (ignore_symlinks : Bool)
    → AllPaths paths
    → Sums Stream (send_paths paths ignore_symlinks)
unfolding send_paths
send_paths-Sums [] ignore_symlinks h = return-Stream
send_paths-Sums ((path, tree) ∷ rest) ignore_symlinks h =
    Sums-then Stream Stream Stream (do_fs_walk tree path ignore_symlinks)
      (send_paths rest ignore_symlinks) Stream-append
      (do_fs_walk-Sums tree path ignore_symlinks h.0) (send_paths-Sums rest ignore_symlinks h.1)

-- Wherever the walk over any number of paths returns, whatever the calls on them gave, if the lengths
-- of paths and files and the modes fit the header's fields: standard output has got a sequence of
-- entries, each with as long a name and body as its header says and none the end marker, and the
-- checksum is that from before with just these bytes added. The flag for quota errors stays, and the
-- reads that are left are the last ones of those before.
pub send_paths-Summed :
    (paths : List (Bytes × Node)) (ignore_symlinks : Bool) (s : State)
    → AllPaths paths
    → Ends (λ a s'. Summed Stream s s') Any Anywhere (send_paths paths ignore_symlinks s)
send_paths-Summed paths ignore_symlinks s h = send_paths-Sums paths ignore_symlinks h s

-- A header of zeros.
abbrev pub end_marker : Bytes
end_marker = replicate header_size 0

-- What is known when a transfer from `s` that wrote these entries has returned at `s'`: the state in
-- which the answer was read, where the entries and the first bytes of the end marker had been written,
-- all of them counted in the checksum, and only calls of `read` before the answer's had been made; the
-- answer, which is accepted; and the end, which differs from that state by later calls of `read`.
pub record Confirmed (s : State) (stream : Bytes) (s' : State) : Type 0 where
  pub at_answer : State
  pub marker : Bytes
  pub marker_begins : Begins end_marker marker
  pub sent : at_answer.sent ≡ s.sent ++ (stream ++ marker)
  pub summed : at_answer.crc32_sum ≡ compute_buf s.crc32_sum (stream ++ end_marker)
  pub quota : at_answer.ignore_quota_error ≡ s.ignore_quota_error
  pub reads : Behind s.reads at_answer.reads
  pub answer : Answer at_answer
  pub accepted : Accepts at_answer answer
  pub end_sent : s'.sent ≡ at_answer.sent
  pub end_summed : s'.crc32_sum ≡ at_answer.crc32_sum
  pub end_reads : Behind at_answer.reads s'.reads

notify_end-Confirmed :
    (s t : State) (k : Summed Stream s t)
    → Ends (λ a s'. Confirmed s k.bytes s') Any Anywhere (notify_end_and_wait_for_result t)
unfolding notify_end_and_wait_for_result
notify_end-Confirmed s t k =
    let answered = λ (u : State). record u { blocking = true } in
    Ends-after (λ whole u. Counted end_marker t u) (λ a s'. Confirmed s k.bytes s') Any Anywhere
      (write_all_with_crc end_marker t) (λ whole u. wait_for_result (answered u))
      (write-Counted end_marker t)
      (λ whole u c.
        Ends-weaken (Returned (answered u)) (λ a s'. Confirmed s k.bytes s') (Reported (answered u))
          (Exited (answered u)) (wait_for_result (answered u)) (wait_for_result-Judged (answered u))
          (λ a s' (answer, accepted, crc, sent, quota, later). record {
            at_answer = answered u;
            marker = c.part;
            marker_begins = c.begins;
            sent =
                c.written
                ∙ ap (λ (b : Bytes). b ++ c.part) k.written
                ∙ append_assoc s.sent k.bytes c.part;
            summed =
                c.summed
                ∙ ap (λ n. compute_buf n end_marker) k.summed
                ∙ sym (compute_buf-append s.crc32_sum k.bytes end_marker);
            quota = c.quota ∙ k.quota;
            reads = subst (λ r. Behind s.reads r) (sym c.unread) k.later;
            answer = answer;
            accepted = accepted;
            end_sent = sent;
            end_summed = crc;
            end_reads = later;
          }))

-- A transfer of any paths and the end marker, where it returns, if the lengths of paths and files and
-- the modes fit the header's fields: what stands on standard output behind
-- what was there is a sequence of entries and the first bytes of the end marker; the checksum at the
-- end is that from before with the sequence and the whole end marker added. To the end marker, by the
-- calls of `read` that the walk had left, the receiver gave no answer yet, or one that the sender
-- accepts: error code 0 with this checksum, or EDQUOT where that is to be ignored.
pub transfer-Confirmed :
    (paths : List (Bytes × Node)) (ignore_symlinks : Bool) (s : State)
    → AllPaths paths
    → Ends
        (λ a s'. (stream : Bytes) × Stream stream × Confirmed s stream s')
        Any
        Anywhere
        ((send_paths paths ignore_symlinks >> notify_end_and_wait_for_result) s)
transfer-Confirmed paths ignore_symlinks s h =
    Ends-after (λ a t. Summed Stream s t)
      (λ a s'. (stream : Bytes) × Stream stream × Confirmed s stream s') Any Anywhere
      (send_paths paths ignore_symlinks s) (λ _. notify_end_and_wait_for_result)
      (send_paths-Summed paths ignore_symlinks s h)
      (λ a t k.
        Ends-weaken (λ b u. Confirmed s k.bytes u)
          (λ b u. (stream : Bytes) × Stream stream × Confirmed s stream u) Any Anywhere
          (notify_end_and_wait_for_result t) (notify_end-Confirmed s t k)
          (λ b u c. (k.bytes, k.kind, c)))
