-- ===== src/Pure/Validate/Laws.antt =====
-- The validators of qrexec-lib/unicode.c, against where a file name or a link leads.
use qubes_linux_utils.Prelude.{
  ℕ, zero, suc, ◌+◌, ◌-◌, ◌≤◌, ◌<◌, ◌≡◌, refl, Bool, true, false, some, [], ◌∷◌, Bytes, length, All,
  Bool-cases, Option-cases, inl, inr, arith, bit_or, ltb, if◌then◌else◌,
}
use qubes_linux_utils.Prelude.Int.{ℤ, pos, negsuc, neg, is_neg, is_pos, pos_part}
use qubes_linux_utils.Pure.Path.{
  has_flag, allow_non_canonical_paths, allow_unsafe_symlinks, allow_trailing_slash, validate_path,
  enolink, eilseq, einval,
}
use qubes_linux_utils.Pure.Path.Components.{split, is_dotdot, Counts}
use qubes_linux_utils.Pure.Path.Resolve.{
  Stack, outermost, StaysIn, LeadsTo, Counts-no_dotdot, Counts-StaysIn, Counts-LeadsTo,
}
use qubes_linux_utils.Pure.Path.Round.{NoNul}
use qubes_linux_utils.Pure.Path.Safety.{validate_path-total}
use qubes_linux_utils.Pure.Path.Sound.{is_absolute, validate_path-Counts, validate_path-relative}
use qubes_linux_utils.Pure.Validate.{
  flag_check, symlink_flags, check_target, validate_file_name_v2, validate_symbolic_link_v2,
}

-- A name that an unpacker may create: relative, without "..", with at least one real component, and,
-- unless the flags say otherwise, written without "." and empty components.
pub record IsSafeName (flags : ℕ) (file_name : Bytes) : Type 0 where
  pub relative : is_absolute file_name ≡ false
  pub no_dotdot : All (λ w. is_dotdot w ≡ false) (split file_name)
  pub names : ℕ
  pub counted : Counts (has_flag flags allow_non_canonical_paths) 0 (split file_name) (suc names)

positive : (m : ℕ) → is_pos (pos m) ≡ true → (n : ℕ) × (m ≡ suc n)
positive zero h = absurd (ground arith)
positive (suc n) h = (n, refl)

path-IsSafeName :
    (flags m : ℕ) (file_name : Bytes)
    → NoNul file_name
    → is_pos (pos m) ≡ true
    → validate_path file_name 0 flags ≡ some (pos m)
    → IsSafeName flags file_name
path-IsSafeName flags m file_name clean p h =
    let (n, e) = positive m p in
    let counts = validate_path-Counts file_name 0 flags m clean h in
    record {
      relative = validate_path-relative file_name 0 flags m h;
      no_dotdot = Counts-no_dotdot counts;
      names = n;
      counted = rw (← e) counts;
    }

-- On a string without NUL, `qubes_pure_validate_file_name_v2` returns 0 only for a relative path
-- with no ".." and at least one component that is a name; and, without the flag for non-canonical
-- paths, none but a last empty component is "" or ".".
pub validate_file_name_v2-IsSafeName :
    (file_name : Bytes) (flags : ℕ)
    → NoNul file_name
    → validate_file_name_v2 file_name flags ≡ some (pos 0)
    → IsSafeName flags file_name
unfolding validate_file_name_v2
validate_file_name_v2-IsSafeName file_name flags clean h =
    let (r, e) = validate_path-total file_name 0 flags clean in
    elim r as (λ r. validate_path file_name 0 flags ≡ some r → IsSafeName flags file_name) [
      | pos m ↦ λ e. path-IsSafeName flags m file_name clean (ground (arith, e)) e
      | negsuc m ↦ λ e. absurd (ground (arith, e))
    ]
      e

-- The link, when it is looked up in the directory where the unpacker works, stands in `parent`, and
-- its target, followed from there, stays at each step in `top`, the entry of the working directory
-- that holds the link.
pub record IsContained (file_name target : Bytes) : Type 0 where
  pub link : Bytes
  pub parent : Stack
  pub top : Bytes
  pub found : LeadsTo (link ∷ parent) [] (split file_name)
  pub held_by : outermost (link ∷ parent) ≡ some top
  pub relative : is_absolute target ≡ false
  pub stays : StaysIn top parent (split target)

outermost-exists : (st : Stack) → 0 < length st → (top : Bytes) × (outermost st ≡ some top)
outermost-exists [] h = absurd (omega arith)
outermost-exists (d ∷ []) h = (d, refl)
outermost-exists (d ∷ e ∷ st) h = outermost-exists (e ∷ st) (omega arith)

-- A name of at least two components and a target that the name's depth allows.
contained :
    {lax lax' : Bool} {k : ℕ} (depth : ℕ) (file_name target : Bytes)
    → Counts lax 0 (split file_name) depth
    → 2 ≤ depth
    → Counts lax' (depth - 2) (split target) k
    → is_absolute target ≡ false
    → IsContained file_name target
contained depth file_name target c deep t rel = build (Counts-LeadsTo [] c)
  where
    build :
        (last : Stack) × LeadsTo last [] (split file_name) × (length last ≡ 0 + depth)
        → IsContained file_name target
    build ([], walk, e) = absurd (omega arith)
    build (link ∷ [], walk, e) = absurd (omega arith)
    build (link ∷ d ∷ parent, walk, e) =
        let (top, o) = outermost-exists (d ∷ parent) (omega arith) in
        record {
          link = link;
          parent = d ∷ parent;
          top = top;
          found = walk;
          held_by = o;
          relative = rel;
          stays = Counts-StaysIn top (d ∷ parent) t (omega arith) o;
        }

-- What `check_target` accepts of a depth.
check_target-zero :
    (target : Bytes) (flags m : ℕ)
    → has_flag flags allow_unsafe_symlinks ≡ false
    → check_target target flags (pos m) ≡ some (pos 0)
    → (2 ≤ m)
      × ((z : ℤ) × (validate_path target (m - 2) (bit_or (symlink_flags flags) allow_trailing_slash)
            ≡ some z)
          × (is_neg z ≡ false))
unfolding check_target
check_target-zero target flags m safe h = elim (Bool-cases (ltb m 2)) [
  | inl e ↦ absurd (ground arith)
  | inr e ↦
      elim (Option-cases
        (validate_path target (m - 2) (bit_or (symlink_flags flags) allow_trailing_slash))) [
          | inl f ↦ absurd (ground (arith, f))
          | inr (z, f) ↦ (ground arith, (z, f, ground (arith, f)))
        ]
]

check_target-total :
    (target : Bytes) (flags : ℕ) (d z : ℤ)
    → validate_path target (pos_part d - 2) (bit_or (symlink_flags flags) allow_trailing_slash)
      ≡ some z
    → (r : ℤ) × (check_target target flags d ≡ some r)
unfolding check_target
check_target-total target flags d z f = (
  if is_neg d
      then neg eilseq
      else if has_flag flags allow_unsafe_symlinks
      then (if is_pos d then pos 0 else neg enolink)
      else if ltb (pos_part d) 2
      then neg enolink
      else if is_neg z
      then z
      else pos 0,
  ground (arith, f),
)

target-IsContained :
    (file_name target : Bytes) (flags m : ℕ)
    → NoNul file_name
    → NoNul target
    → has_flag flags allow_unsafe_symlinks ≡ false
    → validate_path file_name 0 flags ≡ some (pos m)
    → check_target target flags (pos m) ≡ some (pos 0)
    → IsContained file_name target
target-IsContained file_name target flags m clean clean' safe e h =
    let (deep, (z, f, sign)) = check_target-zero target flags m safe h in
    let flags' = bit_or (symlink_flags flags) allow_trailing_slash in
    elim z
        as (λ z.
          validate_path target (m - 2) flags' ≡ some z
          → is_neg z ≡ false
          → IsContained file_name target) [
            | pos k ↦ λ f sign.
                contained m file_name target (validate_path-Counts file_name 0 flags m clean e) deep
                  (validate_path-Counts target (m - 2) flags' k clean' f)
                  (validate_path-relative target (m - 2) flags' k f)
            | negsuc k ↦ λ f sign. absurd (ground arith)
          ]
      f sign

-- On strings without NUL, and unless the caller asks for unsafe links,
-- `qubes_pure_validate_symbolic_link_v2` returns 0 only for a link whose target is relative and,
-- followed from the directory of the link, stays at each step in the entry of the working directory
-- that holds the link.
pub validate_symbolic_link_v2-IsContained :
    (file_name target : Bytes) (flags : ℕ)
    → NoNul file_name
    → NoNul target
    → has_flag flags allow_unsafe_symlinks ≡ false
    → validate_symbolic_link_v2 file_name target flags ≡ some (pos 0)
    → IsContained file_name target
unfolding validate_symbolic_link_v2
validate_symbolic_link_v2-IsContained file_name target flags clean clean' safe h =
    let (r, e) = validate_path-total file_name 0 flags clean in
    elim r as (λ r. validate_path file_name 0 flags ≡ some r → IsContained file_name target) [
      | pos m ↦
          λ e. target-IsContained file_name target flags m clean clean' safe e (ground (arith, e))
      | negsuc m ↦ λ e. absurd (ground (arith, e))
    ]
      e

-- The validator of links returns on every pair of strings that hold no NUL, whatever the flags.
pub validate_symbolic_link_v2-total :
    (file_name target : Bytes) (flags : ℕ)
    → NoNul file_name
    → NoNul target
    → (r : ℤ) × (validate_symbolic_link_v2 file_name target flags ≡ some r)
unfolding validate_symbolic_link_v2
validate_symbolic_link_v2-total file_name target flags clean clean' =
    let (d, e) = validate_path-total file_name 0 flags clean in
    let (z, f) =
      validate_path-total target (pos_part d - 2)
        (bit_or (symlink_flags flags) allow_trailing_slash) clean' in
    elim (Bool-cases (flag_check flags)) [
      | inr bad ↦ (neg einval, rw bad)
      | inl good ↦ rw (good, e) (check_target-total target flags d z f)
    ]
