-- ===== src/Pack/Result/Laws.antt =====
-- `wait_for_result` of qrexec-lib/pack.c, by what the receiver has answered.
use qubes_linux_utils.Prelude.{
  ℕ, ◌≡◌, ◌≢◌, refl, ap, sym, ◌∙◌, inl, inr, ◌⊎◌, Bool, true, false, not, ◌&&◌, ◌||◌, List, [], ◌∷◌,
  All, Bytes, ◌==◌, ==_iff, within, Bool-cases, arith,
}
use qubes_linux_utils.IoAll.{Read, read_done, read_error, read_waiting, read_overrun, read_all}
use qubes_linux_utils.IoAll.Parts.{Behind, Behind-trans, LeavesBehind, read_all-LeavesBehind}
use qubes_linux_utils.Unpack.Header.{field_at}
use qubes_linux_utils.Unpack.Process.{c_string}
use qubes_linux_utils.Pack.Process.{
  Message, already_exists, forbidden_character, unverified_link, corrupted_data, copy_failed,
  checksum_mismatch, State, Outcome, after, Received, received, not_received, receive, brings_bytes,
  after_read,
}
use qubes_linux_utils.Pack.Result.{
  eagain, sanitize_char, sanitize_remote_filename, last_namelen, last_filename, error_message,
  check_result, after_result, wait_for_result,
}
use qubes_linux_utils.Pack.Rules.{Ends, Ends-after}

-- A name that can be shown between quotes.
abbrev pub Quotable : Bytes → Type 0
Quotable = All (λ c. (within 0x20 0x7E c ≡ true) × (c ≢ b'"'))

sanitize_char-shown :
    (c : ℕ) → (within 0x20 0x7E (sanitize_char c) ≡ true) × (sanitize_char c ≢ b'"')
unfolding sanitize_char
sanitize_char-shown c = ground arith

sanitize_remote_filename-Quotable : (name : Bytes) → Quotable (sanitize_remote_filename name)
unfolding sanitize_remote_filename
sanitize_remote_filename-Quotable [] = tt
sanitize_remote_filename-Quotable (c ∷ cs) =
    (sanitize_char-shown c, sanitize_remote_filename-Quotable cs)

last_filename-Quotable : (size : ℕ) (r : Received) → Quotable (last_filename size r).1
unfolding last_filename
last_filename-Quotable size (received bytes) = sanitize_remote_filename-Quotable (c_string bytes)
last_filename-Quotable size (not_received errno) = tt

-- The message for an error code, with a name that can be shown: EEXIST, EINVAL, EILSEQ, ENOLINK, and
-- any other code, which the message then carries.
pub data Explains : ℕ → Message → Type 0 where
  exists : {name : Bytes} → Quotable name → Explains 17 (already_exists name)
  corrupted :
      {prefixed : Bool} {name : Bytes} → Quotable name → Explains 22 (corrupted_data prefixed name)
  forbidden : {name : Bytes} → Quotable name → Explains 84 (forbidden_character name)
  unverified : {name : Bytes} → Quotable name → Explains 67 (unverified_link name)
  other :
      {code : ℕ} {prefixed : Bool} {name : Bytes}
      → code ≢ 17
      → code ≢ 22
      → code ≢ 84
      → code ≢ 67
      → Quotable name
      → Explains code (copy_failed code prefixed name)

error_message-Explains :
    (code : ℕ) (prefixed : Bool) (name : Bytes)
    → Quotable name
    → Explains code (error_message code prefixed name)
unfolding error_message
error_message-Explains code prefixed name q = elim (Bool-cases (code == 17)) [
  | inl e ↦ rw (e, (==_iff code 17).0 e) (exists q)
  | inr a ↦ elim (Bool-cases (code == 22)) [
    | inl e ↦ rw (a, e, (==_iff code 22).0 e) (corrupted q)
    | inr b ↦ elim (Bool-cases (code == 84)) [
      | inl e ↦ rw (a, b, e, (==_iff code 84).0 e) (forbidden q)
      | inr c ↦ elim (Bool-cases (code == 67)) [
        | inl e ↦ rw (a, b, c, e, (==_iff code 67).0 e) (unverified q)
        | inr d ↦
            rw (a, b, c, d) (other (ground arith) (ground arith) (ground arith) (ground arith) q)
      ]
    ]
  ]
]

-- What the receiver's first header says, from the calls that bring it.
pub data Answer (s : State) : Type 0 where
  silent : {rest : List Read} → read_all 16 s.reads ≡ read_error eagain rest → Answer s
  said :
      (code crc : ℕ) {header : Bytes} {rest : List Read}
      → read_all 16 s.reads ≡ read_done header rest
      → code ≡ field_at 0 4 header
      → crc ≡ field_at 8 8 header
      → Answer s

-- A return is right: nothing was answered yet; the answer is no error, with the sender's checksum; or
-- it is EDQUOT, which is to be ignored.
abbrev pub Accepts : (s : State) → Answer s → Type 0
Accepts s (silent h) = Unit
Accepts s (said code crc h e f) =
    ((code ≡ 0) × (crc ≡ s.crc32_sum)) ⊎ ((code ≡ 122) × (s.ignore_quota_error ≡ true))

-- A report is right: it explains an error code, or says that the checksums differ where they do.
abbrev pub Refuses : (s : State) → Message → Answer s → Type 0
Refuses s message (silent h) = ⊥
Refuses s message (said code crc h e f) =
    ((code ≢ 0) × Explains code message × (code ≡ 122 → s.ignore_quota_error ≡ false))
    ⊎ ((code ≡ 0) × (crc ≢ s.crc32_sum) × (message ≡ checksum_mismatch))

-- What reading does not touch.
record Same (s u : State) : Type 0 where
  crc : u.crc32_sum ≡ s.crc32_sum
  quota : u.ignore_quota_error ≡ s.ignore_quota_error
  sent : u.sent ≡ s.sent
  later : Behind s.reads u.reads

abbrev pub Returned : (s : State) → Unit {0} → State → Type 0
Returned s a s' =
    (w : Answer s) × Accepts s w
    × (s'.crc32_sum ≡ s.crc32_sum)
    × (s'.sent ≡ s.sent)
    × (s'.ignore_quota_error ≡ s.ignore_quota_error)
    × Behind s.reads s'.reads

abbrev pub Reported : (s : State) → Message → State → Type 0
Reported s message s' = (w : Answer s) × Refuses s message w

abbrev pub Exited : (s : State) → State → Type 0
Exited s s' =
    (errno : ℕ) × (rest : List Read) × (read_all 16 s.reads ≡ read_error errno rest)
    × (errno ≢ eagain)

-- What can follow the first header.
abbrev Judged : (s : State) → Outcome (Unit {0}) → Type 0
Judged s o = Ends (Returned s) (Reported s) (Exited s) o

receive-Same :
    (s u : State) (size : ℕ)
    → Same s u
    → Ends (λ (r : Received) t. Same s t) (Reported s) (Exited s) (receive size u)
unfolding receive after_read brings_bytes
receive-Same s u size h =
    elim (read_all size u.reads)
        as (λ r.
          LeavesBehind u.reads r
          → Ends (λ (a : Received) t. Same s t) (Reported s) (Exited s)
              (after_read r
                (record u { blocking = u.blocking || not (size == 0) && brings_bytes u.reads }))) [
                  | read_done bytes reads ↦ λ l. record {
                    crc = h.crc;
                    quota = h.quota;
                    sent = h.sent;
                    later = Behind-trans s.reads u.reads reads h.later l;
                  }
                  | read_error errno reads ↦ λ l. record {
                    crc = h.crc;
                    quota = h.quota;
                    sent = h.sent;
                    later = Behind-trans s.reads u.reads reads h.later l;
                  }
                  | read_waiting ↦ λ l. tt
                  | read_overrun ↦ λ l. tt
                ]
      (read_all-LeavesBehind size u.reads)

check_result-Judged :
    (s u : State) (hdr : Bytes) (rest : List Read) (prefixed : Bool) (name : Bytes)
    → read_all 16 s.reads ≡ read_done hdr rest
    → Same s u
    → Quotable name
    → Judged s (check_result (field_at 0 4 hdr) (field_at 8 8 hdr) prefixed name u)
unfolding check_result
check_result-Judged s u hdr rest prefixed name r h q =
    let code = field_at 0 4 hdr in
    let crc = field_at 8 8 hdr in
    let w : Answer s = said code crc r refl refl in
    let why = error_message-Explains code prefixed name q in
    elim (Bool-cases (code == 0)) [
      | inl e ↦ elim (Bool-cases (crc == u.crc32_sum)) [
        | inl f ↦
            simp (e, f)
              (
                w,
                inl ((==_iff code 0).0 e, (==_iff crc u.crc32_sum).0 f ∙ h.crc),
                h.crc,
                h.sent,
                h.quota,
                h.later,
              )
        | inr f ↦ simp (e, f) (w, inr ((==_iff code 0).0 e, ground (arith, h.crc), refl))
      ]
      | inr e ↦ elim (Bool-cases (code == 122)) [
        | inl g ↦ elim (Bool-cases u.ignore_quota_error) [
          | inl f ↦
              simp (e, g, f)
                (
                  w,
                  inr ((==_iff code 122).0 g, sym h.quota ∙ f),
                  h.crc,
                  h.sent,
                  sym f ∙ h.quota,
                  h.later,
                )
          | inr f ↦ simp (e, g, f) (w, inl (ground arith, why, (λ k. sym h.quota ∙ f)))
        ]
        | inr g ↦ simp (e, g) (w, inl (ground arith, why, (λ k. absurd (ground (arith, k)))))
      ]
    ]

said-Judged :
    (s u : State) (hdr : Bytes) (rest : List Read)
    → read_all 16 s.reads ≡ read_done hdr rest
    → Same s u
    → Judged s (after_result (received hdr) u)
unfolding after_result
said-Judged s u hdr rest r h =
    Ends-after (λ ext t. Same s t) (Returned s) (Reported s) (Exited s) (receive 4 u) _
      (receive-Same s u 4 h)
      (λ ext t k.
        Ends-after (λ filename v. Same s v) (Returned s) (Reported s) (Exited s)
          (receive (last_namelen ext) t) _ (receive-Same s t (last_namelen ext) k)
          (λ filename v l.
            check_result-Judged s v hdr rest _ _ r l
              (last_filename-Quotable (last_namelen ext) filename)))

silent-Judged :
    (s u : State) (errno : ℕ) (rest : List Read)
    → read_all 16 s.reads ≡ read_error errno rest
    → Same s u
    → Judged s (after_result (not_received errno) u)
unfolding after_result
silent-Judged s u errno rest r h = elim (Bool-cases (errno == eagain)) [
  | inl e ↦ rw e (
    silent (r ∙ ap (λ n. read_error n rest) ((==_iff errno eagain).0 e)),
    tt,
    h.crc,
    h.sent,
    h.quota,
    h.later,
  )
  | inr e ↦ rw e (errno, rest, r, ground arith)
]

-- Whatever the receiver answers: `wait_for_result` returns only where there is no answer yet, where
-- the error code is 0 and the checksum the sender's, or where the code is EDQUOT and that is to be
-- ignored, with the checksum, what was written and the flag as they
-- were, and the later reads left. It reports an error only for a code
-- that is not 0, for EDQUOT only if that is not ignored, in words that fit the code and with a file
-- name of printable ASCII without a quote, or, for code 0, where the checksums differ. It exits with
-- nothing said only where the read fails with another error than EAGAIN, or at the end of the file.
pub wait_for_result-Judged :
    (s : State) → Ends (Returned s) (Reported s) (Exited s) (wait_for_result s)
unfolding wait_for_result receive after_read brings_bytes
wait_for_result-Judged s =
    elim (read_all 16 s.reads)
        as (λ r.
          read_all 16 s.reads ≡ r
          → LeavesBehind s.reads r
          → Judged s (
              after (after_read r (record s { blocking = s.blocking || brings_bytes s.reads }))
                after_result)) [
                  | read_done hdr rest ↦ λ e l.
                      said-Judged s _ hdr rest e
                        (record { crc = refl; quota = refl; sent = refl; later = l })
                  | read_error errno rest ↦ λ e l.
                      silent-Judged s _ errno rest e
                        (record { crc = refl; quota = refl; sent = refl; later = l })
                  | read_waiting ↦ λ e l. tt
                  | read_overrun ↦ λ e l. tt
                ]
      refl (read_all-LeavesBehind 16 s.reads)
