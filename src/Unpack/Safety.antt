-- ===== src/Unpack/Safety.antt =====
-- The calls that name a file, in qrexec-lib/unpack.c: which segments of a path they may hand to the
-- kernel, and the lemmas that the handlers share.
pub mod Entries
pub mod Run
use qubes_linux_utils.Prelude.{
  ℕ, zero, suc, ◌+◌, ◌/◌, ◌%◌, ◌^◌, ◌<◌, ◌≤◌, ◌≡◌, refl, ap, ◌⊎◌, inl, inr, Bool, true, false, not,
  ◌&&◌, ◌||◌, Option, none, some, List, [], ◌∷◌, Bytes, All, ◌==◌, ltb, Bool-cases, Option-cases,
  if◌then◌else◌, arith, bit_and,
}
use qubes_linux_utils.Prelude.Bits.{bit_and_mask}
use qubes_linux_utils.Prelude.Int.{ℤ, pos, negsuc, neg, is_pos}
use qubes_linux_utils.Pure.Path.{
  has_flag, allow_non_canonical_paths, allow_trailing_slash, validate_path,
}
use qubes_linux_utils.Pure.Path.Components.{split, onto, is_skipped, is_dotdot}
use qubes_linux_utils.Pure.Path.Round.{NoNul}
use qubes_linux_utils.Pure.Path.Safety.{validate_path-total}
use qubes_linux_utils.Pure.Path.Trailing.{IsSegment, validate_path-IsSegment}
use qubes_linux_utils.Pure.Validate.{flag_check, validate_file_name_v2, is_zero}
use qubes_linux_utils.Unpack.Process.{
  Dir, cwd, opened, Call, open_directory, open_tmpfile, create_file, make_directory,
  reopen_directory, file_status, make_link, make_symlink, change_mode, change_times, wait_for_space,
  sync_directory, Answer, answered, failed, State, Outcome, M, after, done, exits, return, call,
  must, or_exit, c_string,
}
use qubes_linux_utils.Unpack.Walk.{is_forbidden, open_segments, opendir_safe}
use qubes_linux_utils.Unpack.Entry.{validated}
use qubes_linux_utils.Unpack.Transfer.{validate_flags}
use qubes_linux_utils.Unpack.Rules.{Ends, Ends-after}

-- The segment that a call hands to the kernel is a name.
abbrev pub NamesSegment : Call → Type 0
NamesSegment (open_directory dir w) = IsSegment w
NamesSegment (create_file dir w) = IsSegment w
NamesSegment (make_directory dir w) = IsSegment w
NamesSegment (reopen_directory dir w) = IsSegment w
NamesSegment (make_link fd dir w) = IsSegment w
NamesSegment (make_symlink target dir w) = IsSegment w
NamesSegment _ = Unit {0}

abbrev pub Safe : State → Type 0
Safe s = All NamesSegment s.history

abbrev pub Any : {A : Type 0} → A → State → Type 0
Any a s = Unit {0}

pub c_string-NoNul : (bytes : Bytes) → NoNul (c_string bytes)
unfolding c_string
c_string-NoNul [] = tt
c_string-NoNul (c ∷ cs) = elim (Bool-cases (c == 0)) [
  | inl e ↦ rw e tt
  | inr e ↦ rw e (ground arith, c_string-NoNul cs)
]

-- Flags that allow neither a non-canonical path nor a trailing slash.
abbrev pub Strict : ℕ → Type 0
Strict flags =
    (has_flag flags allow_non_canonical_paths ≡ false)
    × (has_flag flags allow_trailing_slash ≡ false)

below_8-Strict : (flags : ℕ) → flags < 8 → Strict flags
unfolding has_flag
below_8-Strict zero h = (refl, refl)
below_8-Strict (suc zero) h = (refl, refl)
below_8-Strict (suc (suc zero)) h = (refl, refl)
below_8-Strict (suc (suc (suc zero))) h = (refl, refl)
below_8-Strict (suc (suc (suc (suc zero)))) h = (refl, refl)
below_8-Strict (suc (suc (suc (suc (suc zero))))) h = (refl, refl)
below_8-Strict (suc (suc (suc (suc (suc (suc zero)))))) h = (refl, refl)
below_8-Strict (suc (suc (suc (suc (suc (suc (suc zero))))))) h = (refl, refl)
below_8-Strict (suc (suc (suc (suc (suc (suc (suc (suc n)))))))) h = absurd (omega arith)

pub validate_flags-Strict : (flags : ℕ) → Strict (validate_flags flags)
validate_flags-Strict flags =
    below_8-Strict (validate_flags flags)
      (omega (arith, bit_and_mask 3 (flags % 2 ^ 32 / 2 ^ 2) 7 refl))

IsSegment-allowed : (w : Bytes) → IsSegment w → is_forbidden w ≡ false
unfolding is_forbidden
IsSegment-allowed [] h = ground arith
IsSegment-allowed (c ∷ []) h = ground arith
IsSegment-allowed (c ∷ d ∷ []) h = ground arith
IsSegment-allowed (c ∷ d ∷ e ∷ cs) h = refl

split-cons : (path : Bytes) → (w : Bytes) × (ws : List Bytes) × (split path ≡ w ∷ ws)
unfolding split onto
split-cons [] = ([], [], refl)
split-cons (c ∷ cs) =
    let (w, ws, e) = split-cons cs in
    elim (Bool-cases (c == b'/')) [
      | inl k ↦ ([], split cs, rw k refl)
      | inr k ↦ (c ∷ w, ws, rw (k, e) refl)
    ]

-- A name that the validator takes, given flags of a transfer.
abbrev pub Valid : Bytes → ℤ → State → Type 0
Valid name ret s = is_zero ret ≡ true → All IsSegment (split name)

pub path-Valid :
    (name : Bytes) (flags : ℕ) (r : ℤ)
    → NoNul name
    → Strict flags
    → validate_path name 0 flags ≡ some r
    → is_pos r ≡ true
    → All IsSegment (split name)
path-Valid name flags (pos m) clean strict e h =
    validate_path-IsSegment name flags m clean strict.0 strict.1 e
path-Valid name flags (negsuc m) clean strict e h = absurd (ground arith)

pub validated-Valid :
    (name : Bytes) (flags : ℕ) (s : State)
    → NoNul name
    → Strict flags
    → Safe s
    → Ends Safe (Valid name) (validated (validate_file_name_v2 name flags) s)
unfolding validated validate_file_name_v2
validated-Valid name flags s clean strict h =
    let (r, e) = validate_path-total name 0 flags clean in
    elim (Bool-cases (flag_check flags)) [
      | inr bad ↦ rw bad (h, (λ z. absurd (ground arith)))
      | inl good ↦ elim (Bool-cases (is_pos r)) [
        | inl p ↦ rw (good, e, p) (h, (λ z. path-Valid name flags r clean strict e p))
        | inr p ↦ rw (good, e, p) (h, (λ z. absurd (ground arith)))
      ]
    ]

module _ (kernel : List Call → Call → Answer) where
  pub call-Safe : (c : Call) (s : State) → NamesSegment c → Safe s → Ends Safe Any (call kernel c s)
  unfolding call
  call-Safe c s n h = ((n, h), tt)

  pub must-Safe :
      (c : Call) (who : Bytes) (s : State)
      → NamesSegment c
      → Safe s
      → Ends Safe Any (must kernel c who s)
  unfolding must call or_exit
  must-Safe c who s n h =
      elim (kernel s.history c)
        as (λ a. Ends Safe Any (or_exit who a (record s { history = c ∷ s.history }))) [
          | answered fd ↦ ((n, h), tt)
          | failed errno ↦ (n, h)
        ]

  abbrev pub Found : Dir × Bytes → State → Type 0
  Found r s = IsSegment r.1

  open_segments-Safe :
      (dir : Dir) (w : Bytes) (ws : List Bytes) (s : State)
      → All IsSegment (w ∷ ws)
      → Safe s
      → Ends Safe Found (open_segments kernel dir (w ∷ ws) s)
  unfolding open_segments
  open_segments-Safe dir w [] s a h = (h, a.0)
  open_segments-Safe dir w (next ∷ rest) s a h = rw (IsSegment-allowed w a.0) (
      Ends-after Safe Any Found _ _ (must-Safe (open_directory dir w) w s a.0 h)
        (λ fd s' h' _. open_segments-Safe (opened fd) next rest s' a.1 h'))

  pub opendir_safe-Safe :
      (path : Bytes) (s : State)
      → All IsSegment (split path)
      → Safe s
      → Ends Safe Found (opendir_safe kernel path s)
  unfolding opendir_safe
  opendir_safe-Safe path s a h =
      let (w, ws, e) = split-cons path in rw e (open_segments-Safe cwd w ws s (rw e at a) h)
