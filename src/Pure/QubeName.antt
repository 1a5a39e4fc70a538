-- ===== src/Pure/QubeName.antt =====
-- qrexec-lib/qube-name.c: which names a qube may have. A slice is the list of its bytes.
pub mod Laws
use qubes_linux_utils.Prelude.{
  ℕ, ◌-◌, Bool, true, false, not, ◌&&◌, ◌||◌, [], ◌∷◌, Bytes, length, drop, ◌==◌, ltb, within,
  if◌then◌else◌,
}

pub data QubeNameValidationError : Type 0 where
  ok empty too_long invalid_first_character invalid_subsequent_character reserved :
      QubeNameValidationError

-- `memcmp(x, y, n) == 0` for two byte strings of one length.
unfoldable pub same : Bytes → Bytes → Bool
same [] [] = true
same (x ∷ xs) (y ∷ ys) = x == y && same xs ys
same _ _ = false

abbrev pub min_qube_name_len : ℕ
min_qube_name_len = 1

abbrev pub max_qube_name_len : ℕ
max_qube_name_len = 31

-- "-dm", "none", "default", "Domain-0"
abbrev pub dm_suffix : Bytes
dm_suffix = b'-' ∷ b'd' ∷ b'm' ∷ []

abbrev pub none_name : Bytes
none_name = b'n' ∷ b'o' ∷ b'n' ∷ b'e' ∷ []

abbrev pub default_name : Bytes
default_name = b'd' ∷ b'e' ∷ b'f' ∷ b'a' ∷ b'u' ∷ b'l' ∷ b't' ∷ []

abbrev pub domain_0_name : Bytes
domain_0_name = b'D' ∷ b'o' ∷ b'm' ∷ b'a' ∷ b'i' ∷ b'n' ∷ b'-' ∷ b'0' ∷ []

-- The labels of the first `switch`, and of the one in the loop.
abbrev pub first_ok : ℕ → Bool
first_ok c = within b'a' b'z' c || within b'A' b'Z' c

abbrev pub other_ok : ℕ → Bool
other_ok c =
    within b'a' b'z' c
    || within b'A' b'Z' c
    || within b'0' b'9' c
    || c == b'_'
    || c == b'.'
    || c == b'-'

-- The loop over the characters behind the first.
pub others_ok : Bytes → Bool
others_ok [] = true
others_ok (c ∷ cs) = other_ok c && others_ok cs

-- `switch (length)`
pub by_length : Bytes → QubeNameValidationError
unfolding same
by_length name =
    if length name == 4
    then (if same name none_name then reserved else ok)
    else if length name == 7
    then (if same name default_name then reserved else ok)
    else if length name == 8
    then (if same name domain_0_name then reserved else ok)
    else ok

-- From the `switch` on `pointer[0]` on; a slice is not empty there.
pub by_characters : Bytes → QubeNameValidationError
unfolding others_ok by_length
by_characters [] = empty
by_characters (c ∷ cs) =
    if not (first_ok c)
    then invalid_first_character
    else if not (others_ok cs)
    then invalid_subsequent_character
    else if ltb (length (c ∷ cs)) 4
    then ok
    else if same (drop (length (c ∷ cs) - 3) (c ∷ cs)) dm_suffix
    then reserved
    else by_length (c ∷ cs)

unfoldable pub is_valid_qube_name : Bytes → QubeNameValidationError
unfolding by_characters
is_valid_qube_name name =
    if ltb (length name) min_qube_name_len
    then empty
    else if ltb max_qube_name_len (length name)
    then too_long
    else by_characters name
