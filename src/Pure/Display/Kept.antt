-- ===== src/Pure/Display/Kept.antt =====
-- Text that is safe to show, given to `qubes_pure_sanitize_string_safe_for_display` of
-- qrexec-lib/unicode.c.
use qubes_linux_utils.Prelude.{
  ℕ, zero, suc, ◌+◌, ◌-◌, ◌≤◌, ◌<◌, ◌≡◌, refl, ap, sym, ◌∙◌, true, none, some, [], ◌∷◌, ◌++◌, Bytes,
  length, length-append, length-drop, drop, ltb, arith,
}
use qubes_linux_utils.Prelude.Int.{pos, negsuc}
use qubes_linux_utils.Pure.Utf8.{
  code_point_safe_for_display, validate_utf8_char_and_return_len,
  validate_utf8_char_safe_for_display,
}
use qubes_linux_utils.Pure.Utf8.Encoding.{encode}
use qubes_linux_utils.Pure.Utf8.Laws.{StartsSafe, safe_for_display_iff, length-encode}
use qubes_linux_utils.Pure.Display.{sanitize_loop, sanitize_string_safe_for_display}
use qubes_linux_utils.Pure.Display.Text.{DisplayText, nothing, ascii, character}
use qubes_linux_utils.Pure.Display.Checked.{tail_of, encode-first, positive_length}
use qubes_linux_utils.Pure.Display.Sanitized.{
  loop-accepted, loop-ascii, StartsSafe-take, returned_text,
}

loop-skip :
    (n : ℕ) (xs rest : Bytes) (room : ℕ)
    → length xs ≡ n
    → sanitize_loop n (xs ++ rest) room ≡ sanitize_loop 0 rest room
unfolding sanitize_loop
loop-skip zero [] rest room e = refl
loop-skip zero (x ∷ xs) rest room e = absurd (omega arith)
loop-skip (suc n) [] rest room e = absurd (omega arith)
loop-skip (suc n) (x ∷ xs) rest room e = loop-skip n xs rest room (omega arith)

-- A safe character for which there is room is kept.
StartsSafe-accepted_by :
    (s : Bytes) (n : ℕ)
    → validate_utf8_char_safe_for_display s ≡ some (suc n)
    → validate_utf8_char_and_return_len s ≡ some (pos (suc n))
unfolding validate_utf8_char_safe_for_display
StartsSafe-accepted_by s n e =
    elim (validate_utf8_char_and_return_len s)
        as (λ r. validate_utf8_char_and_return_len s ≡ r → r ≡ some (pos (suc n))) [
          | none ↦ λ k. absurd (ground (arith, k))
          | some (negsuc m) ↦ λ k. absurd (ground (arith, k))
          | some (pos m) ↦ λ k. ground (arith, k)
        ]
      refl

loop-character :
    (p c room : ℕ) (cs rest : Bytes)
    → 0x80 ≤ p
    → code_point_safe_for_display p ≡ true
    → c ∷ cs ≡ encode p ++ rest
    → length (c ∷ cs) < suc room
    → sanitize_loop 0 rest (suc room - length (encode p)) ≡ some rest
    → sanitize_loop 0 (c ∷ cs) (suc room) ≡ some (c ∷ cs)
loop-character p c room cs rest high ok same fits later =
    let (n, size) = positive_length p in
    let from : StartsSafe (c ∷ cs) (suc n) = record {
      code_point = p;
      rest = rest;
      bytes = same;
      high = high;
      safe = ok;
      size = size;
    } in
    let e = StartsSafe-accepted_by (c ∷ cs) n ((safe_for_display_iff (c ∷ cs) n).1 from) in
    let whole : length (c ∷ cs) ≡ length (encode p) + length rest =
      ap length same ∙ length-append (encode p) rest in
    let less : ltb (suc n) (suc room) ≡ true = ground (arith, size, whole) in
    let tail = tail_of c cs rest n (encode p) same size in
    let skipped =
      loop-skip n (drop 1 (encode p)) rest (room - n)
        (omega (arith, size, length-drop 1 (encode p))) in
    let left : suc room - length (encode p) ≡ room - n = omega (arith, size) in
    let kept : sanitize_loop n cs (room - n) ≡ some rest =
      ap (λ w. sanitize_loop n w (room - n)) tail ∙ skipped ∙ rw (← left) later in
    rw (loop-accepted c n room cs (encode-first p c cs rest high same) e, less, kept)
      (ap some (ap (λ w. w ++ rest) (StartsSafe-take (c ∷ cs) (suc n) from) ∙ sym same))

loop-DisplayText :
    {s : Bytes} (room : ℕ) → DisplayText s → length s < room → sanitize_loop 0 s room ≡ some s
unfolding sanitize_loop
loop-DisplayText room nothing h = refl
loop-DisplayText zero t h = absurd (omega arith)
loop-DisplayText (suc room) (ascii {c = c} {s = s} e t) h =
    rw (loop-ascii c room s e, loop-DisplayText room t (omega arith)) refl
loop-DisplayText room (character {s = []} {rest = rest} p high ok same t) h = refl
loop-DisplayText (suc room) (character {s = c ∷ cs} {rest = rest} p high ok same t) h =
    loop-character p c room cs rest high ok same h (
      loop-DisplayText (suc room - length (encode p)) t
        (omega (arith, ap length same, length-append (encode p) rest, length-encode p)))

-- Text that is safe to show comes back as it is, with its NUL, if the buffer has two bytes more than
-- the text.
pub sanitize_string_safe_for_display-keeps :
    (str : Bytes) (max_line_length : ℕ)
    → DisplayText str
    → length str + 1 < max_line_length
    → sanitize_string_safe_for_display str max_line_length ≡ some (length str + 1, str ++ 0 ∷ [])
sanitize_string_safe_for_display-keeps str max_line_length t h =
    returned_text str str max_line_length (omega arith)
      (loop-DisplayText (max_line_length - 1) t (omega arith))
