-- ===== src/Unpack/Rounds/Enough.antt =====
-- The loop of `do_unpack_ext` in qrexec-lib/unpack.c, against the entries that it receives, in any
-- number.
use qubes_linux_utils.Prelude.{
  ℕ, zero, suc, ◌+◌, ◌-◌, ◌%◌, ◌^◌, ◌≤◌, ◌<◌, ◌≡◌, ◌≢◌, refl, ap, ◌∙◌, inl, inr, ==_iff, Bool-cases,
  not, ◌&&◌, Option, none, some, List, Bytes, length, ◌==◌, ltb, arith,
}
use qubes_linux_utils.Prelude.Int.{ℤ, pos}
use qubes_linux_utils.Unpack.Header.{FileHeader, header_size, decode_header, is_reg, is_lnk, is_dir}
use qubes_linux_utils.Unpack.Process.{
  Call, Answer, State, Options, Outcome, M, do_exit, require, done, exits, dies, aborts, faults,
  blocks, overruns, after, read_all_with_crc,
}
use qubes_linux_utils.Unpack.Entry.{einval, enametoolong, max_path_length}
use qubes_linux_utils.Unpack.Transfer.{
  copy_allow_symlinks, copy_allow_directories, validate_flags, allows, store_name, Ending,
  marker_seen, cut_short, unpack_next, process_by_type, process_one_file, count_file, process_entry,
  unpack_loop,
}
use qubes_linux_utils.Unpack.Rounds.{
  Leaves, Drops, Uses, Uses-bind, Uses-then, Uses-if, Uses-require, read_all_with_crc-Uses,
  read_all_with_crc-Drops,
}
use qubes_linux_utils.Unpack.Rounds.Entries.{
  process_one_file_reg-Uses, process_one_file_dir-Uses, process_one_file_link-Uses,
}

store_name-Uses : (bytes : Option Bytes) → Uses (store_name bytes)
unfolding store_name
store_name-Uses none s = tt
store_name-Uses (some bytes) s = omega arith

-- A step that does not return, and the same end of a longer run.
pub data Stopped {A B : Type 0} : Outcome A → Outcome B → Type 0 where
  exited :
      {code : ℤ} {name : Option Bytes} {s : State} → Stopped (exits code name s) (exits code name s)
  died : {s : State} → Stopped (dies s) (dies s)
  aborted : {s : State} → Stopped (aborts s) (aborts s)
  faulted : {s : State} → Stopped (faults s) (faults s)
  blocked : {s : State} → Stopped (blocks s) (blocks s)
  overrun : {s : State} → Stopped (overruns s) (overruns s)

module _ (kernel : List Call → Call → Answer) where
  -- The entries that a receiver takes from its stream, without a bound on their number: from a state,
  -- with this outcome. A header that is not the end marker has its entry handled before the next one
  -- is read; the end marker ends the transfer, with `errno` 0; a header that cannot be read cuts it
  -- short; and where reading a header or handling an entry does not return, nothing follows.
  pub data Receives (options : Options) (flags : ℕ) : State → Outcome Ending → Type 0 where
    at_marker :
        {s t : State} (bytes : Bytes)
        → read_all_with_crc header_size s ≡ done (some bytes) t
        → (decode_header bytes).namelen ≡ 0
        → Receives options flags s (done marker_seen (record t { errno = 0 }))
    at_end :
        {s t : State}
        → read_all_with_crc header_size s ≡ done none t
        → Receives options flags s (done cut_short t)
    in_header :
        {s : State} {o : Outcome (Option Bytes)} {r : Outcome Ending}
        → read_all_with_crc header_size s ≡ o
        → Stopped o r
        → Receives options flags s r
    in_entry :
        {s t : State} {o : Outcome (Unit {0})} {r : Outcome Ending} (bytes : Bytes)
        → read_all_with_crc header_size s ≡ done (some bytes) t
        → (decode_header bytes).namelen ≢ 0
        → process_entry kernel options flags (decode_header bytes) t ≡ o
        → Stopped o r
        → Receives options flags s r
    one_entry :
        {s t u : State} {r : Outcome Ending} (bytes : Bytes)
        → read_all_with_crc header_size s ≡ done (some bytes) t
        → (decode_header bytes).namelen ≢ 0
        → process_entry kernel options flags (decode_header bytes) t ≡ done tt u
        → Receives options flags u r
        → Receives options flags s r

  -- The header is read, which uses a call of `read` where it returns.
  header-Receives :
      (options : Options) (flags n : ℕ) (s : State) (o : Outcome (Option Bytes))
      (f : Option Bytes → M Ending)
      → read_all_with_crc header_size s ≡ o
      → Drops n o
      → ((bytes : Option Bytes) (t : State)
          → o ≡ done bytes t
          → length t.reads < n
          → Receives options flags s (f bytes t))
      → Receives options flags s (after o f)
  header-Receives options flags n s (done bytes t) f e h k = k bytes t refl h
  header-Receives options flags n s (exits code name t) f e h k = in_header e exited
  header-Receives options flags n s (dies t) f e h k = in_header e died
  header-Receives options flags n s (aborts t) f e h k = in_header e aborted
  header-Receives options flags n s (faults t) f e h k = in_header e faulted
  header-Receives options flags n s (blocks t) f e h k = in_header e blocked
  header-Receives options flags n s (overruns t) f e h k = in_header e overrun

  entry-Receives :
      (options : Options) (flags n : ℕ) (s t : State) (bytes : Bytes) (o : Outcome (Unit {0}))
      (f : Unit {0} → M Ending)
      → read_all_with_crc header_size s ≡ done (some bytes) t
      → (decode_header bytes).namelen ≢ 0
      → process_entry kernel options flags (decode_header bytes) t ≡ o
      → Leaves n o
      → ((u : State) → length u.reads ≤ n → Receives options flags u (f tt u))
      → Receives options flags s (after o f)
  entry-Receives options flags n s t bytes (done a u) f e z p h k = one_entry bytes e z p (k u h)
  entry-Receives options flags n s t bytes (exits code name u) f e z p h k =
      in_entry bytes e z p exited
  entry-Receives options flags n s t bytes (dies u) f e z p h k = in_entry bytes e z p died
  entry-Receives options flags n s t bytes (aborts u) f e z p h k = in_entry bytes e z p aborted
  entry-Receives options flags n s t bytes (faults u) f e z p h k = in_entry bytes e z p faulted
  entry-Receives options flags n s t bytes (blocks u) f e z p h k = in_entry bytes e z p blocked
  entry-Receives options flags n s t bytes (overruns u) f e z p h k = in_entry bytes e z p overrun

  unpack_next-Receives :
      (options : Options) (flags : ℕ) (s t : State) (bytes : Option Bytes)
      (next : FileHeader → M Ending)
      → read_all_with_crc header_size s ≡ done bytes t
      → ((b : Bytes)
          → bytes ≡ some b
          → (decode_header b).namelen ≢ 0
          → Receives options flags s (next (decode_header b) t))
      → Receives options flags s (unpack_next bytes next t)
  unfolding unpack_next
  unpack_next-Receives options flags s t none next e k = at_end e
  unpack_next-Receives options flags s t (some bytes) next e k =
      elim (Bool-cases ((decode_header bytes).namelen == 0)) [
        | inl z ↦ rw z (at_marker bytes e ((==_iff (decode_header bytes).namelen 0).0 z))
        | inr z ↦ rw z (k bytes refl (λ f. cc ((==_iff (decode_header bytes).namelen 0).1 f)))
      ]

  process_by_type-Uses :
      (options : Options) (flags : ℕ) (hdr : FileHeader) (name : Bytes)
      → Uses (process_by_type kernel options flags hdr name)
  unfolding process_by_type
  process_by_type-Uses options flags hdr name =
      Uses-if (is_reg hdr.mode) _ _
        (process_one_file_reg-Uses kernel options hdr name (validate_flags flags))
        (Uses-if (is_lnk hdr.mode && allows flags copy_allow_symlinks) _ _
          (process_one_file_link-Uses kernel options hdr name (validate_flags flags))
          (Uses-if (is_dir hdr.mode && allows flags copy_allow_directories) _
            (do_exit {A = Unit {0}} (pos einval) (some name))
            (process_one_file_dir-Uses kernel options hdr name (validate_flags flags)) (λ s. tt)))

  process_one_file-Uses :
      (options : Options) (flags : ℕ) (hdr : FileHeader)
      → Uses (process_one_file kernel options flags hdr)
  unfolding process_one_file
  process_one_file-Uses options flags hdr =
      Uses-then (require (not (ltb (max_path_length - 1) hdr.namelen)) (pos enametoolong) none) _
        (Uses-require _ _ _)
        (Uses-bind (read_all_with_crc hdr.namelen) _ (read_all_with_crc-Uses hdr.namelen) (λ bytes.
          Uses-bind (store_name bytes) _ (store_name-Uses bytes)
            (process_by_type-Uses options flags hdr)))

  count_file-Uses : (options : Options) → Uses (count_file kernel options)
  unfolding count_file
  count_file-Uses options s =
      Uses-require _ _ _ (record s { total_files = (s.total_files + 1) % 2 ^ 64 })

  process_entry-Uses :
      (options : Options) (flags : ℕ) (hdr : FileHeader)
      → Uses (process_entry kernel options flags hdr)
  unfolding process_entry
  process_entry-Uses options flags hdr =
      Uses-then (count_file kernel options) (process_one_file kernel options flags hdr)
        (count_file-Uses options) (process_one_file-Uses options flags hdr)

  -- The loop over the entries, for any stream and any kernel, with more rounds than there are calls of
  -- `read` to come, has the outcome of an unbounded receiver: entry after entry is handled, up to the
  -- end marker, up to a header that could not be read, or up to a header or an entry that does not
  -- return; which of these it was is what the loop returns, or how it ends. The bound on the rounds is
  -- never reached.
  pub unpack_loop-Receives :
      (fuel : ℕ) (options : Options) (flags : ℕ) (s : State)
      → length s.reads < fuel
      → Receives options flags s (unpack_loop kernel fuel options flags s)
  unfolding unpack_loop
  unpack_loop-Receives zero options flags s h = absurd (omega arith)
  unpack_loop-Receives (suc fuel) options flags s h =
      header-Receives options flags (length s.reads) s (read_all_with_crc header_size s) _ refl
        (read_all_with_crc-Drops 31 s)
        (λ bytes t e k. unpack_next-Receives options flags s t bytes _ e (λ b f z.
          entry-Receives options flags (length t.reads) s t b
            (process_entry kernel options flags (decode_header b) t)
            (λ _. unpack_loop kernel fuel options flags) (e ∙ ap (λ o. done o t) f) z refl
            (process_entry-Uses options flags (decode_header b) t)
            (λ u l. unpack_loop-Receives fuel options flags u (omega arith))))
