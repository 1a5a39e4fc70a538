-- ===== src/Pure/Utf8.antt =====
-- qrexec-lib/unicode.c: one UTF-8 character, `validate_utf8_char_and_return_len` and its caller
-- `validate_utf8_char_safe_for_display`, and `qubes_pure_code_point_safe_for_display`.
pub mod Encoding
pub mod Decode
pub mod Table
pub mod Laws
use qubes_linux_utils.Prelude.{
  ℕ, zero, suc, ◌+◌, ◌*◌, ◌%◌, ◌^◌, bit_and, bit_or, Bool, true, false, ◌||◌, Option, none, some,
  List, [], ◌∷◌, Bytes, peek, ◌>>=◌, ◌==◌, within, if◌then◌else◌,
}
use qubes_linux_utils.Prelude.Int.{ℤ, pos, negsuc, neg, is_pos, pos_part}
use qubes_linux_utils.Pure.Allowlist.{allowlist}

-- The `case lo ... hi:` labels in front of `return true`.
pub in_ranges : List (ℕ × ℕ) → ℕ → Bool
in_ranges [] c = false
in_ranges ((lo, hi) ∷ ranges) c = within lo hi c || in_ranges ranges c

unfoldable pub code_point_safe_for_display : ℕ → Bool
unfolding in_ranges allowlist
code_point_safe_for_display code_point = in_ranges allowlist code_point

-- The locals when the `switch` on the first byte is left by `break`: `consumed` is how far
-- `untrusted_c` has moved.
pub record Lead : Type 0 where
  pub tails_count : ℕ
  pub total_size : ℕ
  pub code_point : ℕ
  pub consumed : ℕ

-- `case 0xE0:`, on the second byte.
lead_e0 : Option ℕ → Option (Option Lead)
lead_e0 second = do
  c ← second
  if within 0xA0 0xBF c
      then some (
          some
            (record { tails_count = 1; total_size = 3; code_point = bit_and c 0x3F; consumed = 1 }))
      else some none

-- `case 0xF0:`, on the second byte.
lead_f0 : Option ℕ → Option (Option Lead)
lead_f0 second = do
  c ← second
  if within 0x90 0xBF c
      then some (
          some
            (record { tails_count = 2; total_size = 4; code_point = bit_and c 0x3F; consumed = 1 }))
      else some none

-- The `switch`. `some none` is its `return -1`; `none` is a read beyond the terminating NUL.
pub lead : Bytes → Option (Option Lead)
unfolding lead_e0 lead_f0
lead s = do
  c ← peek s 0
  if within 0xC2 0xDF c
      then some (
          some
            (record { tails_count = 1; total_size = 2; code_point = bit_and c 0x1F; consumed = 0 }))
      else if c == 0xE0
      then lead_e0 (peek s 1)
      else if within 0xE1 0xEF c
      then some (
          some
            (record { tails_count = 2; total_size = 3; code_point = bit_and c 0xF; consumed = 0 }))
      else if c == 0xF0
      then lead_f0 (peek s 1)
      else if within 0xF1 0xF4 c
      then some (
          some
            (record { tails_count = 3; total_size = 4; code_point = bit_and c 0x7; consumed = 0 }))
      else some none

-- `code_point << 6 | (*untrusted_c & 0x3F)`, a `uint32_t`.
unfoldable pub push_tail : ℕ → ℕ → ℕ
push_tail code_point c = bit_or (code_point * 2 ^ 6 % 2 ^ 32) (bit_and c 0x3F)

-- The `while` loop; `some none` is its `return -1`.
pub tails : Bytes → ℕ → ℕ → ℕ → Option (Option ℕ)
tails s zero consumed code_point = some (some code_point)
tails s (suc tails_count) consumed code_point = do
  c ← peek s (consumed + 1)
  let rest = tails s tails_count (consumed + 1) (push_tail code_point c)
  if within 0x80 0xBF c then rest else some none

-- The `return` behind the loop.
pub sized : ℕ → Option ℕ → ℤ
sized total_size none = negsuc 0
sized total_size (some code_point) =
    if code_point_safe_for_display code_point then pos total_size else neg total_size

-- What follows the `switch`.
pub after_lead : Bytes → Option Lead → Option ℤ
unfolding tails sized
after_lead s none = some (negsuc 0)
after_lead s (some l) = do
  code_point ← tails s l.tails_count l.consumed l.code_point
  some (sized l.total_size code_point)

unfoldable pub validate_utf8_char_and_return_len : Bytes → Option ℤ
unfolding lead after_lead
validate_utf8_char_and_return_len s = do l ← lead s; after_lead s l

-- 0 for what is invalid.
unfoldable pub validate_utf8_char_safe_for_display : Bytes → Option ℕ
unfolding validate_utf8_char_and_return_len
validate_utf8_char_safe_for_display s = do
  result ← validate_utf8_char_and_return_len s
  some (if is_pos result then pos_part result else 0)
