-- ===== src/Pure/Display/Sanitized.antt =====
-- `qubes_pure_sanitize_string_safe_for_display` of qrexec-lib/unicode.c, against the text that is safe
-- to show.
use qubes_linux_utils.Prelude.{
  ℕ, zero, suc, ◌+◌, ◌-◌, ◌≤◌, ◌<◌, ◌≡◌, refl, ap, sym, ◌∙◌, subst, inl, inr, true, false, Option,
  some, [], ◌∷◌, ◌++◌, Bytes, length, length-append, length-take, take, ltb, within, Bool-cases,
  if◌then◌else◌, arith,
}
use qubes_linux_utils.Prelude.Int.{ℤ, pos, negsuc}
use qubes_linux_utils.Pure.Utf8.{
  validate_utf8_char_and_return_len, validate_utf8_char_safe_for_display,
}
use qubes_linux_utils.Pure.Utf8.Encoding.{encode}
use qubes_linux_utils.Pure.Utf8.Laws.{StartsSafe, safe_for_display_iff, Steps, Steps-exists}
use qubes_linux_utils.Pure.Display.{prepend, sanitize_loop, sanitize_string_safe_for_display}
use qubes_linux_utils.Pure.Display.Text.{DisplayText, nothing, ascii, character, take-append}

-- What the loop writes: text that is safe to show, and no more than there is room for.
pub record Sanitized (r : Option Bytes) (room : ℕ) : Type 0 where
  pub text : Bytes
  pub written : r ≡ some text
  pub short : length text ≤ room
  pub shown : DisplayText text

-- A length above 0 from the decoder is that of the encoding of a safe code point.
accepted_StartsSafe :
    (s : Bytes) (n : ℕ)
    → validate_utf8_char_and_return_len s ≡ some (pos (suc n))
    → StartsSafe s (suc n)
unfolding validate_utf8_char_safe_for_display
accepted_StartsSafe s n e = (safe_for_display_iff s n).0 (rw e refl)

pub StartsSafe-take : (s : Bytes) (n : ℕ) (t : StartsSafe s n) → take n s ≡ encode t.code_point
StartsSafe-take s n t =
    ap (take n) t.bytes ∙ rw (← t.size) (take-append (encode t.code_point) t.rest)

Sanitized-ascii :
    (c : ℕ) (r : Option Bytes) (room : ℕ)
    → within 0x20 0x7E c ≡ true
    → Sanitized r room
    → Sanitized (prepend (c ∷ []) r) (suc room)
Sanitized-ascii c r room e t = record {
  text = c ∷ t.text;
  written = rw (t.written) refl;
  short = omega (arith, t.short);
  shown = ascii e t.shown;
}

Sanitized-character :
    (s : Bytes) (n : ℕ) (r : Option Bytes) (left room : ℕ)
    → StartsSafe s n
    → left + n ≤ room
    → Sanitized r left
    → Sanitized (prepend (take n s) r) room
Sanitized-character s n r left room c fits t = record {
  text = take n s ++ t.text;
  written = rw (t.written) refl;
  short = omega (arith, t.short, length-append (take n s) t.text, length-take n s);
  shown =
      character c.code_point c.high c.safe (ap (λ w. w ++ t.text) (StartsSafe-take s n c)) t.shown;
}

-- The case of a result of the decoder.
loop-refused :
    (c n room : ℕ) (cs : Bytes)
    → within 0x20 0x7E c ≡ false
    → validate_utf8_char_and_return_len (c ∷ cs) ≡ some (negsuc n)
    → sanitize_loop 0 (c ∷ cs) (suc room) ≡ prepend (b'_' ∷ []) (sanitize_loop n cs room)
unfolding sanitize_loop
loop-refused c n room cs a e = rw (a, e) refl

pub loop-accepted :
    (c n room : ℕ) (cs : Bytes)
    → within 0x20 0x7E c ≡ false
    → validate_utf8_char_and_return_len (c ∷ cs) ≡ some (pos (suc n))
    → sanitize_loop 0 (c ∷ cs) (suc room) ≡ (
        if ltb (suc n) (suc room)
        then prepend (take (suc n) (c ∷ cs)) (sanitize_loop n cs (room - n))
        else some [])
unfolding sanitize_loop
loop-accepted c n room cs a e = rw (a, e) (ground arith)

pub loop-ascii :
    (c room : ℕ) (cs : Bytes)
    → within 0x20 0x7E c ≡ true
    → sanitize_loop 0 (c ∷ cs) (suc room) ≡ prepend (c ∷ []) (sanitize_loop 0 cs room)
unfolding sanitize_loop
loop-ascii c room cs a = rw a refl

nothing-Sanitized : (room : ℕ) → Sanitized (some []) room
nothing-Sanitized room = record { text = []; written = refl; short = omega arith; shown = nothing }

-- What is left of the string is at least what the decoder has read.
inside_cons : (c n : ℕ) (cs : Bytes) (r : ℤ) → Steps (c ∷ cs) r → r ≡ negsuc n → n ≤ length cs
inside_cons c n cs r t e = elim t.inside [
  | inl k ↦ absurd (omega (arith, ap length k))
  | inr k ↦ ground (arith, k)
]

inside_cons_pos :
    (c n : ℕ) (cs : Bytes) (r : ℤ) → Steps (c ∷ cs) r → r ≡ pos (suc n) → n ≤ length cs
inside_cons_pos c n cs r t e = elim t.inside [
  | inl k ↦ absurd (omega (arith, ap length k))
  | inr k ↦ ground (arith, k)
]

-- One round, where the rest of the string is sanitized.
Sanitized-round :
    (c room : ℕ) (cs : Bytes) (r : ℤ)
    → within 0x20 0x7E c ≡ false
    → Steps (c ∷ cs) r
    → ((n room : ℕ) → n ≤ length cs → Sanitized (sanitize_loop n cs room) room)
    → Sanitized (sanitize_loop 0 (c ∷ cs) (suc room)) (suc room)
Sanitized-round c room cs (negsuc n) a t rest =
    rw (loop-refused c n room cs a t.returns)
      (Sanitized-ascii b'_' _ room refl (rest n room (inside_cons c n cs _ t refl)))
Sanitized-round c room cs (pos zero) a t rest = absurd (omega (arith, t.forward))
Sanitized-round c room cs (pos (suc n)) a t rest =
    let from = accepted_StartsSafe (c ∷ cs) n t.returns in
    let later = rest n (room - n) (inside_cons_pos c n cs _ t refl) in
    elim (Bool-cases (ltb (suc n) (suc room))) [
      | inl f ↦
          rw (loop-accepted c n room cs a t.returns, f)
            (Sanitized-character (c ∷ cs) (suc n) _ (room - n) (suc room) from (ground arith) later)
      | inr f ↦ rw (loop-accepted c n room cs a t.returns, f) (nothing-Sanitized (suc room))
    ]

loop-Sanitized :
    (skip : ℕ) (s : Bytes) (room : ℕ) → skip ≤ length s → Sanitized (sanitize_loop skip s room) room
unfolding sanitize_loop
loop-Sanitized (suc skip) [] room h = absurd (omega arith)
loop-Sanitized (suc skip) (c ∷ cs) room h = loop-Sanitized skip cs room (omega arith)
loop-Sanitized zero [] room h = nothing-Sanitized room
loop-Sanitized zero (c ∷ cs) zero h = nothing-Sanitized zero
loop-Sanitized zero (c ∷ cs) (suc room) h = elim (Bool-cases (within 0x20 0x7E c)) [
  | inl a ↦
      subst (λ r. Sanitized r (suc room)) (sym (loop-ascii c room cs a))
        (Sanitized-ascii c _ room a (loop-Sanitized zero cs room (omega arith)))
  | inr a ↦
      let (r, t) = Steps-exists (c ∷ cs) in
      Sanitized-round c room cs r a t (λ n m k. loop-Sanitized n cs m k)
]

-- The buffer that the caller gets: text that is safe to show, with its NUL inside the buffer.
pub record Terminated (r : Option (ℕ × Bytes)) (max_line_length : ℕ) : Type 0 where
  pub text : Bytes
  pub returned : r ≡ some (length text + 1, text ++ 0 ∷ [])
  pub inside : length text + 1 ≤ max_line_length
  pub shown : DisplayText text

pub returned_text :
    (str text : Bytes) (max_line_length : ℕ)
    → 0 < max_line_length
    → sanitize_loop 0 str (max_line_length - 1) ≡ some text
    → sanitize_string_safe_for_display str max_line_length ≡ some (length text + 1, text ++ 0 ∷ [])
unfolding sanitize_string_safe_for_display
returned_text str text max_line_length h e = ground arith

-- On every string and for every buffer that is not empty, the sanitizer returns: the buffer holds
-- text that is safe to show and behind it a NUL, and the returned size is that of both and at most
-- that of the buffer.
pub sanitize_string_safe_for_display-Terminated :
    (str : Bytes) (max_line_length : ℕ)
    → 0 < max_line_length
    → Terminated (sanitize_string_safe_for_display str max_line_length) max_line_length
sanitize_string_safe_for_display-Terminated str max_line_length h =
    let t = loop-Sanitized 0 str (max_line_length - 1) (omega arith) in
    record {
      text = t.text;
      returned = returned_text str t.text max_line_length h t.written;
      inside = omega (arith, t.short);
      shown = t.shown;
    }
