-- ===== src/Pure/Display.antt =====
-- qrexec-lib/unicode.c: `qubes_pure_string_safe_for_display` and
-- `qubes_pure_sanitize_string_safe_for_display`. `none` is a read beyond the NUL.
pub mod Text
pub mod Checked
pub mod Sanitized
pub mod Kept
use qubes_linux_utils.Prelude.{
  ℕ, zero, suc, ◌+◌, ◌-◌, Bool, true, false, not, Option, none, some, [], ◌∷◌, ◌++◌, Bytes, length,
  take, ◌>>=◌, ◌==◌, ltb, within, if◌then◌else◌,
}
use qubes_linux_utils.Prelude.Int.{ℤ, pos, negsuc}
use qubes_linux_utils.Pure.Utf8.{
  validate_utf8_char_and_return_len, validate_utf8_char_safe_for_display,
}

-- What the check of a whole string gives; `assert` fails for a line length that is not 0.
pub data Verdict : Type 0 where
  safe unsafe aborted : Verdict

-- The bytes of a safe character at the start of what is left, 0 for one that is not safe.
pub char_length : Bytes → Option ℕ
char_length [] = validate_utf8_char_safe_for_display []
char_length (c ∷ cs) =
    if within 0x20 0x7E c then some 1 else validate_utf8_char_safe_for_display (c ∷ cs)

-- `while (untrusted_str[i])`, behind `skip` more bytes.
pub display_loop : ℕ → Bytes → Option Verdict
unfolding char_length
display_loop (suc skip) [] = none
display_loop (suc skip) (c ∷ cs) = display_loop skip cs
display_loop zero [] = some safe
display_loop zero (c ∷ cs) = elim (char_length (c ∷ cs)) [
  | none ↦ none
  | some zero ↦ some unsafe
  | some (suc skip) ↦ display_loop skip cs
]

-- The first round of the `do` loop is made on an empty string too.
unfoldable pub string_safe_for_display : Bytes → ℕ → Option Verdict
unfolding display_loop char_length
string_safe_for_display [] line_length =
    if not (line_length == 0)
    then some aborted
    else (do n ← char_length []; if n == 0 then some unsafe else none)
string_safe_for_display (c ∷ cs) line_length =
    if not (line_length == 0) then some aborted else display_loop zero (c ∷ cs)

abbrev prepend : Bytes → Option Bytes → Option Bytes
prepend bytes none = none
prepend bytes (some rest) = some (bytes ++ rest)

-- The loop of the sanitizer, behind `skip` more bytes and with `room` for
-- `max_text_line_length - j` more: what it writes. A result of 0, which the decoder does not give,
-- would leave the loop where it is; it is no result here.
pub sanitize_loop : ℕ → Bytes → ℕ → Option Bytes
sanitize_loop (suc skip) [] room = none
sanitize_loop (suc skip) (c ∷ cs) room = sanitize_loop skip cs room
sanitize_loop zero [] room = some []
sanitize_loop zero (c ∷ cs) zero = some []
sanitize_loop zero (c ∷ cs) (suc room) =
    let ascii = prepend (c ∷ []) (sanitize_loop zero cs room) in
    let other = elim (validate_utf8_char_and_return_len (c ∷ cs)) as (λ r. Option Bytes) [
      | none ↦ none
      | some (negsuc skip) ↦ prepend (b'_' ∷ []) (sanitize_loop skip cs room)
      | some (pos zero) ↦ none
      | some (pos (suc skip)) ↦ elim (ltb (suc skip) (suc room)) [
        | false ↦ some []
        | true ↦ prepend (take (suc skip) (c ∷ cs)) (sanitize_loop skip cs (room - skip))
      ]
    ] in
    if within 0x20 0x7E c then ascii else other

-- The returned size, and what stands in the buffer `result` up to it.
unfoldable pub sanitize_string_safe_for_display : Bytes → ℕ → Option (ℕ × Bytes)
unfolding sanitize_loop
sanitize_string_safe_for_display str max_line_length =
    if max_line_length == 0 then some (0, []) else (do
      text ← sanitize_loop zero str (max_line_length - 1)
      some (length text + 1, text ++ 0 ∷ []))
