-- ===== src/Pure/Path.antt =====
-- qrexec-lib/unicode.c: `validate_path`, and the flags of qrexec-lib/pure.h.
pub mod Components
pub mod Round
pub mod Safety
pub mod Sound
pub mod Resolve
pub mod Trailing
use qubes_linux_utils.Prelude.{
  ℕ, zero, suc, ◌+◌, ◌-◌, bit_and, Bool, true, false, not, ◌&&◌, ◌||◌, Option, none, some, [], ◌∷◌,
  Bytes, peek, ◌>>=◌, ◌==◌, ltb, within, if◌then◌else◌,
}
use qubes_linux_utils.Prelude.Int.{ℤ, pos, neg}
use qubes_linux_utils.Pure.Utf8.{validate_utf8_char_safe_for_display}

-- enum QubesFilenameValidationFlags
abbrev pub allow_unsafe_characters : ℕ
allow_unsafe_characters = 1

abbrev pub allow_non_canonical_symlinks : ℕ
allow_non_canonical_symlinks = 2

abbrev pub allow_unsafe_symlinks : ℕ
allow_unsafe_symlinks = 4

abbrev pub allow_non_canonical_paths : ℕ
allow_non_canonical_paths = 8

abbrev pub allow_trailing_slash : ℕ
allow_trailing_slash = 16

-- `(flags & flag) != 0`
unfoldable pub has_flag : ℕ → ℕ → Bool
has_flag flags flag = not (bit_and flags flag == 0)

-- The error numbers of Linux that the library returns, negated.
abbrev pub einval : ℕ
einval = 22

abbrev pub enolink : ℕ
enolink = 67

abbrev pub eilseq : ℕ
eilseq = 84

-- What the `switch` at the start of a path component decides.
pub data Component : Type 0 where
  continued dotdot name refused : Component

-- `.`, with the bytes behind it; `none` is a read beyond the terminating NUL.
pub dot_component : Bool → Bytes → Option Component
dot_component allow_non_canonical rest = do
  next ← peek rest 0
  if next == 0 || next == b'/'
      then some (if allow_non_canonical then continued else refused)
      else if next == b'.'
      then (do after ← peek rest 1; some (if after == 0 || after == b'/' then dotdot else name))
      else some name

pub start_component : Bool → ℕ → Bytes → Option Component
unfolding dot_component
start_component allow_non_canonical c rest =
    if c == b'/'
    then some (if allow_non_canonical then continued else refused)
    else if c == b'.'
    then dot_component allow_non_canonical rest
    else some name

-- One round of the loop: `advance allowed n skip` goes on with these values of
-- `allowed_leading_dotdot` and `non_dotdot_components`, after `skip` more bytes than the one at hand.
pub data Step : Type 0 where
  advance : ℕ → ℕ → ℕ → Step
  stop : ℕ → Step

-- The check of the character at hand, `c`, behind the `switch`.
pub character : ℕ → ℕ → Bytes → ℕ → ℕ → Option Step
character flags c rest allowed n =
    if within 0x20 0x7E c || has_flag flags allow_unsafe_characters
    then some (advance allowed n 0)
    else (do
      utf8_ret ← validate_utf8_char_safe_for_display (c ∷ rest)
      some (if ltb 0 utf8_ret then advance allowed n (utf8_ret - 1) else stop eilseq))

pub by_component : ℕ → ℕ → Bytes → ℕ → ℕ → Component → Option Step
unfolding character
by_component flags c rest allowed n continued = some (advance allowed n 0)
by_component flags c rest allowed n dotdot =
    some (if ltb allowed 1 then stop enolink else advance (allowed - 1) n 1)
by_component flags c rest allowed n name = character flags c rest 0 (n + 1)
by_component flags c rest allowed n refused = some (stop eilseq)

-- `i == 0 || untrusted_name[i - 1] == '/'`; the byte before is `none` at the start.
abbrev pub at_start : Option ℕ → Bool
at_start none = true
at_start (some c) = c == b'/'

pub step : ℕ → Option ℕ → ℕ → Bytes → ℕ → ℕ → Option Step
unfolding start_component by_component character
step flags before c rest allowed n =
    if at_start before
    then (do
      component ← start_component (has_flag flags allow_non_canonical_paths) c rest
      by_component flags c rest allowed n component)
    else character flags c rest allowed n

-- Behind the loop, at the NUL.
pub finish : ℕ → Option ℕ → ℕ → ℤ
finish flags none n = neg eilseq
finish flags (some last) n =
    if not (has_flag flags allow_trailing_slash) && last == b'/' then neg eilseq else pos n

-- The `for` loop at the byte behind `before`, with `skip` bytes to pass by first.
pub loop : ℕ → Option ℕ → ℕ → ℕ → ℕ → Bytes → Option ℤ
unfolding step finish
loop flags before allowed n zero [] = some (finish flags before n)
loop flags before allowed n (suc skip) [] = none
loop flags before allowed n (suc skip) (c ∷ rest) = loop flags (some c) allowed n skip rest
loop flags before allowed n zero (c ∷ rest) = elim (step flags before c rest allowed n) [
  | none ↦ none
  | some (advance allowed' n' skip) ↦ loop flags (some c) allowed' n' skip rest
  | some (stop errno) ↦ some (neg errno)
]

unfoldable pub validate_path : Bytes → ℕ → ℕ → Option ℤ
unfolding loop
validate_path [] allowed flags =
    some (if has_flag flags allow_non_canonical_paths then pos 0 else neg enolink)
validate_path (c ∷ rest) allowed flags =
    if c == b'/' then some (neg enolink) else loop flags none allowed 0 0 (c ∷ rest)
