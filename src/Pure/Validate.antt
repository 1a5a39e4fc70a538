-- ===== src/Pure/Validate.antt =====
-- qrexec-lib/unicode.c: the validators of file names and of symbolic links. A result is what the C
-- function returns, `none` a read beyond the NUL of an argument.
pub mod Laws
use qubes_linux_utils.Prelude.{
  ℕ, ◌-◌, ◌^◌, bit_and, bit_or, Bool, true, false, not, Option, none, some, Bytes, ◌>>=◌, ◌==◌, ltb,
  if◌then◌else◌,
}
use qubes_linux_utils.Prelude.Int.{ℤ, pos, negsuc, neg, is_neg, is_pos, pos_part}
use qubes_linux_utils.Pure.Path.{
  allow_unsafe_symlinks, allow_non_canonical_symlinks, allow_non_canonical_paths,
  allow_trailing_slash, has_flag, einval, enolink, eilseq, validate_path,
}

-- The union of the five flags.
abbrev pub allowed_flags : ℕ
allowed_flags = 31

-- `(flags & ~allowed) == 0` on a `uint32_t`.
unfoldable pub flag_check : ℕ → Bool
flag_check flags = bit_and flags (2 ^ 32 - 1 - allowed_flags) == 0

unfoldable pub validate_file_name_v2 : Bytes → ℕ → Option ℤ
unfolding flag_check
validate_file_name_v2 name flags =
    if not (flag_check flags)
    then some (neg einval)
    else (do res ← validate_path name 0 flags; some (if is_pos res then pos 0 else neg eilseq))

-- `x == 0` of a result.
abbrev pub is_zero : ℤ → Bool
is_zero (pos n) = n == 0
is_zero (negsuc n) = false

unfoldable pub validate_file_name : Bytes → Option Bool
unfolding validate_file_name_v2
validate_file_name name = do
  res ← validate_file_name_v2 name allow_trailing_slash
  some (is_zero res)

-- `flags` behind its update.
abbrev pub symlink_flags : ℕ → ℕ
symlink_flags flags =
    if has_flag flags allow_non_canonical_symlinks
    then bit_or flags allow_non_canonical_paths
    else flags

-- The code behind `depth = validate_path(untrusted_name, 0, flags)`.
unfoldable pub check_target : Bytes → ℕ → ℤ → Option ℤ
check_target target flags depth =
    if is_neg depth
    then some (neg eilseq)
    else if has_flag flags allow_unsafe_symlinks
    then some (if is_pos depth then pos 0 else neg enolink)
    else if ltb (pos_part depth) 2
    then some (neg enolink)
    else (do
      res ←
          validate_path target (pos_part depth - 2)
            (bit_or (symlink_flags flags) allow_trailing_slash)
      some (if is_neg res then res else pos 0))

unfoldable pub validate_symbolic_link_v2 : Bytes → Bytes → ℕ → Option ℤ
unfolding flag_check check_target
validate_symbolic_link_v2 name target flags =
    if not (flag_check flags)
    then some (neg einval)
    else (do depth ← validate_path name 0 flags; check_target target flags depth)

unfoldable pub validate_symbolic_link : Bytes → Bytes → Option Bool
unfolding validate_symbolic_link_v2
validate_symbolic_link name target = do
  res ← validate_symbolic_link_v2 name target allow_trailing_slash
  some (is_zero res)
