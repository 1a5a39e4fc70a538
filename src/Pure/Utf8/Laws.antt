-- ===== src/Pure/Utf8/Laws.antt =====
-- The decoder of qrexec-lib/unicode.c against RFC 3629.
use qubes_linux_utils.Prelude.{
  ℕ, suc, ◌≤◌, ◌≡◌, refl, ap, ◌⊎◌, inl, inr, true, some, [], ◌∷◌, ◌++◌, Bytes, length,
  length-append, ◌↔◌, Bool-cases, arith, ltb, if◌then◌else◌, ◌∙◌,
}
use qubes_linux_utils.Prelude.Int.{ℤ, pos, negsuc}
use qubes_linux_utils.Pure.Utf8.{
  code_point_safe_for_display, sized, validate_utf8_char_and_return_len,
  validate_utf8_char_safe_for_display,
}
use qubes_linux_utils.Pure.Utf8.Encoding.{encode, IsScalar}
use qubes_linux_utils.Pure.Utf8.Decode.{
  Refused, Decoded, decode_cases, two, three, four, two-code_point, three-code_point,
  four-code_point,
}
use qubes_linux_utils.Pure.Utf8.Table.{safe_for_display-IsDisplayable}

-- `s` begins with the UTF-8 encoding, of `n` bytes, of a code point above U+007F that is safe.
pub record StartsSafe (s : Bytes) (n : ℕ) : Type 0 where
  pub code_point : ℕ
  pub rest : Bytes
  pub bytes : s ≡ encode code_point ++ rest
  pub high : 0x80 ≤ code_point
  pub safe : code_point_safe_for_display code_point ≡ true
  pub size : length (encode code_point) ≡ n

-- The decoder reads an encoding back, whatever follows it.
decode-encode :
    (c : ℕ) (rest : Bytes)
    → 0x80 ≤ c
    → IsScalar c
    → (d : Decoded (encode c ++ rest)) × (d.code_point ≡ c)
decode-encode c rest h s = elim (Bool-cases (ltb c 0x800)) [
  | inl e ↦ rw e (
    two _ _ rest (ground arith) (ground arith),
    two-code_point _ _ rest (ground arith) (ground arith) ∙ ground arith,
  )
  | inr e ↦ elim (Bool-cases (ltb c 0x10000)) [
    | inl k ↦
        rw (e, k)
          (
            three _ _ _ rest (ground arith) (ground arith) (ground arith) (λ z. ground arith),
            three-code_point _ _ _ rest (ground arith) (ground arith) (ground arith)
                  (λ z. ground arith)
                ∙ ground arith,
          )
    | inr k ↦
        rw (e, k)
          (
            four _ _ _ _ rest (ground arith) (ground arith) (ground arith) (ground arith)
                (λ z. ground arith),
            four-code_point _ _ _ _ rest (ground arith) (ground arith) (ground arith) (ground arith)
                  (λ z. ground arith)
                ∙ ground arith,
          )
  ]
]

pub length-encode : (c : ℕ) → (2 ≤ length (encode c)) × (length (encode c) ≤ 4)
length-encode c = ground arith

-- The caller's result on a decoded string.
pub safe_result :
    {s : Bytes} (d : Decoded s)
    → validate_utf8_char_safe_for_display s
      ≡ some (if code_point_safe_for_display d.code_point then d.size else 0)
unfolding validate_utf8_char_safe_for_display sized
safe_result d = ground (arith, d.result, length-encode d.code_point)

safe-Refused : (s : Bytes) → Refused s → validate_utf8_char_safe_for_display s ≡ some 0
unfolding validate_utf8_char_safe_for_display
safe-Refused s r = ground arith

Decoded-StartsSafe :
    {s : Bytes} (n : ℕ) (d : Decoded s)
    → validate_utf8_char_safe_for_display s ≡ some (suc n)
    → StartsSafe s (suc n)
Decoded-StartsSafe n d e = record {
  code_point = d.code_point;
  rest = d.rest;
  bytes = d.bytes;
  high = d.high;
  safe = ground (arith, safe_result d);
  size = ground (arith, safe_result d, d.size_is);
}

StartsSafe-accepted :
    (s : Bytes) (n : ℕ) → StartsSafe s n → validate_utf8_char_safe_for_display s ≡ some n
StartsSafe-accepted s n t =
    let (d, same) =
      decode-encode t.code_point t.rest t.high
        (safe_for_display-IsDisplayable t.code_point t.safe).scalar in
    rw t.bytes (ground (arith, safe_result d, d.size_is, t.size, t.safe, same))

-- The decoder accepts a string, with a length, exactly when the string begins with the UTF-8
-- encoding, of that length, of a code point above U+007F that the table calls safe.
pub safe_for_display_iff :
    (s : Bytes) (n : ℕ)
    → (validate_utf8_char_safe_for_display s ≡ some (suc n)) ↔ StartsSafe s (suc n)
safe_for_display_iff s n = (
  (λ e. elim (decode_cases s) [
    | inl r ↦ absurd (ground (arith, safe-Refused s r))
    | inr d ↦ Decoded-StartsSafe n d e
  ]),
  StartsSafe-accepted s (suc n),
)

-- How far the caller moves on, whatever the sign of the result.
abbrev pub step_size : ℤ → ℕ
step_size (pos n) = n
step_size (negsuc n) = suc n

-- What a call has read is part of the string: it faults on none, and on a string that is not empty
-- its result, up to the sign, is at least one byte and at most the bytes that are left.
pub record Steps (s : Bytes) (r : ℤ) : Type 0 where
  pub returns : validate_utf8_char_and_return_len s ≡ some r
  pub forward : 1 ≤ step_size r
  pub inside : (s ≡ []) ⊎ (step_size r ≤ length s)

empty_or_longer : (s : Bytes) → (s ≡ []) ⊎ (1 ≤ length s)
empty_or_longer [] = inl refl
empty_or_longer (c ∷ cs) = inr (omega arith)

Decoded-fits : {s : Bytes} (d : Decoded s) → d.size ≤ length s
Decoded-fits d =
    omega (arith, ap length d.bytes, length-append (encode d.code_point) d.rest, d.size_is)

-- On every string, the decoder of one character returns, with a result that is not 0; unless the
-- string is empty, the result, up to its sign, is at most the number of bytes that are left.
pub Steps-exists : (s : Bytes) → (r : ℤ) × Steps s r
unfolding sized
Steps-exists s = elim (decode_cases s) [
  | inl r ↦ (negsuc 0, record { returns = r; forward = omega arith; inside = empty_or_longer s })
  | inr d ↦ (
    sized d.size (some d.code_point),
    record {
      returns = d.result;
      forward = ground (arith, length-encode d.code_point, d.size_is);
      inside = inr (ground (arith, Decoded-fits d, length-encode d.code_point, d.size_is));
    },
  )
]

pub safe_for_display-total :
    (s : Bytes) → (n : ℕ) × (validate_utf8_char_safe_for_display s ≡ some n)
safe_for_display-total s = elim (decode_cases s) [
  | inl r ↦ (0, safe-Refused s r)
  | inr d ↦ (_, safe_result d)
]
