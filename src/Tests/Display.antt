-- ===== src/Tests/Display.antt =====
-- Runs of the two functions of qrexec-lib/unicode.c on whole strings.
use qubes_linux_utils.Prelude.{◌≡◌, refl, ◌↔◌, some, [], ◌∷◌, Bytes, arith}
use qubes_linux_utils.Pure.Display.{
  safe, unsafe, string_safe_for_display, sanitize_string_safe_for_display,
}
use qubes_linux_utils.Pure.Display.Text.{DisplayText}
use qubes_linux_utils.Pure.Display.Checked.{string_safe_for_display_iff}
use qubes_linux_utils.Pure.Display.Sanitized.{
  Terminated, sanitize_string_safe_for_display-Terminated,
}
use qubes_linux_utils.Pure.Display.Kept.{sanitize_string_safe_for_display-keeps}

-- "aé"
abbrev word : Bytes
word = b'a' ∷ 0xC3 ∷ 0xA9 ∷ []

word_safe : string_safe_for_display word 0 ≡ some safe
unfolding string_safe_for_display qubes_linux_utils.Pure.Utf8.validate_utf8_char_safe_for_display
    qubes_linux_utils.Pure.Utf8.code_point_safe_for_display qubes_linux_utils.Pure.Utf8.push_tail
word_safe = refl

bell_unsafe : string_safe_for_display (b'a' ∷ 7 ∷ []) 0 ≡ some unsafe
unfolding string_safe_for_display qubes_linux_utils.Pure.Utf8.validate_utf8_char_safe_for_display
bell_unsafe = refl

empty_unsafe : string_safe_for_display [] 0 ≡ some unsafe
unfolding string_safe_for_display qubes_linux_utils.Pure.Utf8.validate_utf8_char_safe_for_display
empty_unsafe = refl

bell_replaced :
    sanitize_string_safe_for_display (b'a' ∷ 7 ∷ b'b' ∷ []) 10
    ≡ some (4, b'a' ∷ b'_' ∷ b'b' ∷ 0 ∷ [])
unfolding sanitize_string_safe_for_display
    qubes_linux_utils.Pure.Utf8.validate_utf8_char_and_return_len
bell_replaced = refl

-- A buffer of 4 bytes has room for the word and its NUL, and the last character is dropped.
exact_fit : sanitize_string_safe_for_display word 4 ≡ some (2, b'a' ∷ 0 ∷ [])
unfolding sanitize_string_safe_for_display
    qubes_linux_utils.Pure.Utf8.validate_utf8_char_and_return_len
    qubes_linux_utils.Pure.Utf8.code_point_safe_for_display qubes_linux_utils.Pure.Utf8.push_tail
exact_fit = refl

string_safe_for_display_iff_example :
    (string_safe_for_display word 0 ≡ some safe) ↔ DisplayText word
string_safe_for_display_iff_example = string_safe_for_display_iff b'a' (0xC3 ∷ 0xA9 ∷ [])

sanitize_string_safe_for_display-Terminated_example :
    Terminated (sanitize_string_safe_for_display (b'a' ∷ 7 ∷ b'b' ∷ []) 3) 3
sanitize_string_safe_for_display-Terminated_example =
    sanitize_string_safe_for_display-Terminated (b'a' ∷ 7 ∷ b'b' ∷ []) 3 (omega arith)

word_is_text : DisplayText word
word_is_text = string_safe_for_display_iff_example.0 word_safe

sanitize_string_safe_for_display-keeps_example :
    sanitize_string_safe_for_display word 5 ≡ some (4, b'a' ∷ 0xC3 ∷ 0xA9 ∷ 0 ∷ [])
sanitize_string_safe_for_display-keeps_example =
    sanitize_string_safe_for_display-keeps word 5 word_is_text (omega arith)
