-- ===== src/NotScript/Hex.antt =====
-- not-script/not-script.c: `strict_strtoul_hex`, the numbers that `snprintf` writes with `%lx` and
-- `%llx`, and the values of physical-device and diskseq. libxenstore puts a NUL behind a value.
pub mod RoundTrip
use qubes_linux_utils.Prelude.{
  ℕ, zero, suc, ◌+◌, ◌-◌, ◌*◌, ◌/◌, ◌%◌, ◌^◌, Bool, true, false, ◌||◌, Option, none, some, List, [],
  ◌∷◌, ◌++◌, Bytes, peek, ◌>>=◌, ◌==◌, ltb, within, if◌then◌else◌,
}

-- '1'...'9', 'a'...'f' and 'A'...'F'
unfoldable pub nonzero_digit : ℕ → Bool
nonzero_digit c = within b'1' b'9' c || within b'a' b'f' c || within b'A' b'F' c

unfoldable pub digit_value : ℕ → ℕ
digit_value c =
    if within b'0' b'9' c then c - b'0' else if within b'a' b'f' c then c - 87 else c - 55

-- `strtoull(p, endp, 16)` from a digit other than 0: the number, which may be more than
-- ULLONG_MAX, and where `*endp` points.
unfoldable pub scan_hex : ℕ → Bytes → ℕ × Bytes
unfolding nonzero_digit digit_value
scan_hex value [] = (value, [])
scan_hex value (c ∷ cs) =
    let rest = scan_hex (value * 16 + digit_value c) cs in
    if c == b'0' || nonzero_digit c then rest else (value, c ∷ cs)

-- The number, where it may be at most `max`, which is below 2^64.
unfoldable pub in_range : ℕ → ℕ × Bytes → Option (ℕ × Bytes)
in_range max (value, rest) = if ltb max value then none else some (value, rest)

-- `**endp == expected`
unfoldable pub followed_by : ℕ → ℕ × Bytes → Option (ℕ × Bytes)
followed_by expected (value, []) = if expected == 0 then some (value, []) else none
followed_by expected (value, c ∷ cs) = if c == expected then some (value, c ∷ cs) else none

-- The number, and what stands at `*endp`; no leading zero, no sign, no space and no "0x".
unfoldable pub strict_strtoul_hex : Bytes → ℕ → ℕ → Option (ℕ × Bytes)
unfolding scan_hex in_range followed_by nonzero_digit
strict_strtoul_hex [] expected max = none
strict_strtoul_hex (c ∷ cs) expected max =
    if c == b'0'
    then followed_by expected (0, cs)
    else if nonzero_digit c
    then (do found ← in_range max (scan_hex 0 (c ∷ cs)); followed_by expected found)
    else none

-- The test that `endp` is where the value ends.
unfoldable pub ends_here : ℕ × Bytes → Option ℕ
ends_here (value, []) = some value
ends_here (value, c ∷ cs) = none

-- "diskseq" in `remove_device`.
unfoldable pub parse_diskseq : Bytes → Option ℕ
unfolding strict_strtoul_hex ends_here
parse_diskseq diskseq_str = do
  found ← strict_strtoul_hex diskseq_str 0 (2 ^ 64 - 1)
  ends_here found

-- From `physdev_end + 1`.
unfoldable pub parse_minor : ℕ × Bytes → Option (ℕ × ℕ)
unfolding strict_strtoul_hex ends_here
parse_minor (major, []) = none
parse_minor (major, c ∷ rest) = do
  found ← strict_strtoul_hex rest 0 (2 ^ 32 - 1)
  minor ← ends_here found
  some (major, minor)

-- "physical-device" in `remove_device`.
unfoldable pub parse_physical_device : Bytes → Option (ℕ × ℕ)
unfolding strict_strtoul_hex parse_minor
parse_physical_device physdev = do
  found ← strict_strtoul_hex physdev b':' (2 ^ 32 - 1)
  parse_minor found

abbrev pub hex_digit : ℕ → ℕ
hex_digit d = if ltb d 10 then b'0' + d else 87 + d

-- The digits of a number below 16 ^ fuel.
unfoldable pub hex_digits : ℕ → ℕ → Bytes
hex_digits zero n = []
hex_digits (suc fuel) n =
    let more = hex_digits fuel (n / 16) in
    if ltb n 16 then hex_digit n ∷ [] else more ++ (hex_digit (n % 16) ∷ [])

-- `%llx`: 16 digits are enough for 64 bits.
unfoldable pub print_hex : ℕ → Bytes
unfolding hex_digits
print_hex n = hex_digits 16 n

-- `%lx:%lx`
unfoldable pub print_physical_device : ℕ → ℕ → Bytes
unfolding print_hex
print_physical_device major minor = print_hex major ++ (b':' ∷ print_hex minor)
