-- ===== src/Pure/Display/Checked.antt =====
-- `qubes_pure_string_safe_for_display` of qrexec-lib/unicode.c, against the text that is safe to show.
use qubes_linux_utils.Prelude.{
  ℕ, zero, suc, ◌-◌, ◌≤◌, ◌≡◌, refl, ap, ◌∙◌, inl, inr, ◌↔◌, true, false, none, some, [], ◌∷◌, ◌++◌,
  Bytes, length, length-append, length-drop, drop, ltb, within, Bool-cases, arith,
}
use qubes_linux_utils.Pure.Utf8.{code_point_safe_for_display}
use qubes_linux_utils.Pure.Utf8.Encoding.{encode}
use qubes_linux_utils.Pure.Utf8.Laws.{safe_for_display_iff, length-encode}
use qubes_linux_utils.Pure.Display.{safe, char_length, display_loop, string_safe_for_display}
use qubes_linux_utils.Pure.Display.Text.{DisplayText, nothing, ascii, character, drop-append}

-- A character at the start of a string, and the text behind it.
starts-DisplayText :
    (c : ℕ) (cs : Bytes) (n : ℕ)
    → char_length (c ∷ cs) ≡ some (suc n)
    → DisplayText (drop n cs)
    → DisplayText (c ∷ cs)
unfolding char_length
starts-DisplayText c cs n h t = elim (Bool-cases (within 0x20 0x7E c)) [
  | inl e ↦ let one : n ≡ 0 = ground arith in ascii e (rw one at t)
  | inr e ↦
      let s = (safe_for_display_iff (c ∷ cs) n).0 (rw e at h) in
      let rest : drop n cs ≡ s.rest =
        ap (drop (suc n)) s.bytes ∙ rw (← s.size) (drop-append (encode s.code_point) s.rest) in
      character s.code_point s.high s.safe s.bytes (rw rest at t)
]

display_loop-DisplayText :
    (skip : ℕ) (s : Bytes) → display_loop skip s ≡ some safe → DisplayText (drop skip s)
unfolding display_loop
display_loop-DisplayText (suc skip) [] h = absurd (ground arith)
display_loop-DisplayText (suc skip) (c ∷ cs) h = display_loop-DisplayText skip cs h
display_loop-DisplayText zero [] h = nothing
display_loop-DisplayText zero (c ∷ cs) h =
    elim (char_length (c ∷ cs)) as (λ r. char_length (c ∷ cs) ≡ r → DisplayText (c ∷ cs)) [
      | none ↦ λ e. absurd (ground (arith, e))
      | some zero ↦ λ e. absurd (ground (arith, e))
      | some (suc n) ↦
          λ e. starts-DisplayText c cs n e (display_loop-DisplayText n cs (ground (arith, e)))
    ]
      refl

display_loop-append :
    (xs rest : Bytes) → display_loop (length xs) (xs ++ rest) ≡ display_loop 0 rest
unfolding display_loop
display_loop-append [] rest = refl
display_loop-append (x ∷ xs) rest = display_loop-append xs rest

-- The encoding of a code point does not begin with an ASCII character.
pub encode-first :
    (p c : ℕ) (cs rest : Bytes) → 0x80 ≤ p → c ∷ cs ≡ encode p ++ rest → within 0x20 0x7E c ≡ false
encode-first p c cs rest h e = elim (Bool-cases (ltb p 0x800)) [
  | inl k ↦ ground (arith, rw k at e)
  | inr k ↦ elim (Bool-cases (ltb p 0x10000)) [
    | inl f ↦ ground (arith, rw (k, f) at e)
    | inr f ↦ ground (arith, rw (k, f) at e)
  ]
]

pub positive_length : (p : ℕ) → (n : ℕ) × (length (encode p) ≡ suc n)
positive_length p = (length (encode p) - 1, omega (arith, length-encode p))

pub char_length-ascii :
    (c : ℕ) (cs : Bytes) → within 0x20 0x7E c ≡ true → char_length (c ∷ cs) ≡ some 1
unfolding char_length
char_length-ascii c cs e = rw e refl

pub tail_of :
    (c : ℕ) (cs rest : Bytes) (n : ℕ) (w : Bytes)
    → c ∷ cs ≡ w ++ rest
    → length w ≡ suc n
    → cs ≡ drop 1 w ++ rest
tail_of c cs rest n [] e size = absurd (omega arith)
tail_of c cs rest n (x ∷ w) e size = ap (drop 1) e

pub char_length-character :
    (p c : ℕ) (cs rest : Bytes)
    → 0x80 ≤ p
    → code_point_safe_for_display p ≡ true
    → c ∷ cs ≡ encode p ++ rest
    → (n : ℕ) × (char_length (c ∷ cs) ≡ some (suc n)) × (length (encode p) ≡ suc n)
unfolding char_length
char_length-character p c cs rest high ok same =
    let (n, size) = positive_length p in
    (
      n,
      rw (encode-first p c cs rest high same) (
          (safe_for_display_iff (c ∷ cs) n).1 (record {
            code_point = p;
            rest = rest;
            bytes = same;
            high = high;
            safe = ok;
            size = size;
          })),
      size,
    )

display_loop-step :
    (c n : ℕ) (cs : Bytes)
    → char_length (c ∷ cs) ≡ some (suc n)
    → display_loop 0 (c ∷ cs) ≡ display_loop n cs
unfolding display_loop
display_loop-step c n cs e = rw (e, display_loop) refl

display_loop-skip :
    (n : ℕ) (xs rest : Bytes) → length xs ≡ n → display_loop n (xs ++ rest) ≡ display_loop 0 rest
display_loop-skip n xs rest e = rw (← e) (display_loop-append xs rest)

DisplayText-loop : {s : Bytes} → DisplayText s → display_loop 0 s ≡ some safe
unfolding display_loop
DisplayText-loop nothing = refl
DisplayText-loop (ascii {c = c} {s = s} e t) =
    display_loop-step c 0 s (char_length-ascii c s e) ∙ DisplayText-loop t
DisplayText-loop (character {s = []} {rest = rest} p high ok same t) =
    absurd (omega (arith, ap length same, length-append (encode p) rest, length-encode p))
DisplayText-loop (character {s = c ∷ cs} {rest = rest} p high ok same t) =
    let (n, e, size) = char_length-character p c cs rest high ok same in
    display_loop-step c n cs e
    ∙ ap (display_loop n) (tail_of c cs rest n (encode p) same size)
    ∙ display_loop-skip n (drop 1 (encode p)) rest (omega (arith, length-drop 1 (encode p)))
    ∙ DisplayText-loop t

-- `qubes_pure_string_safe_for_display`, with line length 0, says true of a string that is not empty
-- exactly when it is text that is safe to show: printable ASCII and UTF-8 encodings of code points
-- above U+007F that the table calls safe, to its end.
pub string_safe_for_display_iff :
    (c : ℕ) (cs : Bytes) → (string_safe_for_display (c ∷ cs) 0 ≡ some safe) ↔ DisplayText (c ∷ cs)
unfolding string_safe_for_display
string_safe_for_display_iff c cs = (display_loop-DisplayText 0 (c ∷ cs), DisplayText-loop)
