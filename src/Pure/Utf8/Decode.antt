-- ===== src/Pure/Utf8/Decode.antt =====
-- What the decoder of qrexec-lib/unicode.c does with any string: it refuses it after one byte, or
-- its first bytes are the UTF-8 encoding of a number and the table decides.
use qubes_linux_utils.Prelude.{
  ℕ, ◌+◌, ◌*◌, ◌%◌, ◌^◌, ◌≤◌, ◌<◌, ◌≡◌, refl, ◌⊎◌, inl, inr, Bool, true, false, some, [], ◌∷◌, ◌++◌,
  Bytes, length, within, ◌==◌, ltb, Bool-cases, arith, ◌&&◌, not,
}
use qubes_linux_utils.Prelude.Int.{negsuc}
use qubes_linux_utils.Prelude.Bits.{bit_and_mask, bit_or_fields}
use qubes_linux_utils.Pure.Utf8.{push_tail, sized, validate_utf8_char_and_return_len}
use qubes_linux_utils.Pure.Utf8.Encoding.{encode}

abbrev pub Refused : Bytes → Type 0
Refused s = validate_utf8_char_and_return_len s ≡ some (negsuc 0)

-- `s` starts with the encoding of a number, on which the result is the table's.
pub record Decoded (s : Bytes) : Type 0 where
  pub code_point : ℕ
  pub size : ℕ
  pub rest : Bytes
  pub bytes : s ≡ encode code_point ++ rest
  pub high : 0x80 ≤ code_point
  pub size_is : length (encode code_point) ≡ size
  pub result : validate_utf8_char_and_return_len s ≡ some (sized size (some code_point))

push_tail_lem : (q c : ℕ) → q < 2 ^ 16 → push_tail q c ≡ q * 64 + c % 64
unfolding push_tail
push_tail_lem q c h =
    let fits : q * 2 ^ 6 % 2 ^ 32 ≡ q * 2 ^ 6 = omega arith in
    rw (fits, bit_and_mask 6 c 0x3F refl, bit_or_fields 6 q (c % 64) (omega arith)) refl

-- The same for the code point of the first byte, two bytes on.
push_two : (q b c : ℕ) → q < 2 ^ 10 → push_tail (push_tail q b) c ≡ (q * 64 + b % 64) * 64 + c % 64
push_two q b c h = rw (push_tail_lem q b (omega arith)) (push_tail_lem _ c (omega arith))

push_three :
    (q b c d : ℕ)
    → q < 8
    → push_tail (push_tail (push_tail q b) c) d ≡ ((q * 64 + b % 64) * 64 + c % 64) * 64 + d % 64
push_three q b c d h = rw (push_two q b c (omega arith)) (push_tail_lem _ d (omega arith))

-- How `encode` reads back the bytes that the decoder took apart.
encode_two :
    (a b : ℕ)
    → within 0xC2 0xDF a ≡ true
    → within 0x80 0xBF b ≡ true
    → encode (a % 32 * 64 + b % 64) ≡ a ∷ b ∷ []
encode_two a b ha hb = ground arith

encode_three :
    (a b c : ℕ)
    → within 0xE0 0xEF a ≡ true
    → within 0x80 0xBF b ≡ true
    → within 0x80 0xBF c ≡ true
    → (a ≡ 0xE0 → 0xA0 ≤ b)
    → encode ((a % 16 * 64 + b % 64) * 64 + c % 64) ≡ a ∷ b ∷ c ∷ []
encode_three a b c ha hb hc short = ground arith

encode_four :
    (a b c d : ℕ)
    → within 0xF0 0xF4 a ≡ true
    → within 0x80 0xBF b ≡ true
    → within 0x80 0xBF c ≡ true
    → within 0x80 0xBF d ≡ true
    → (a ≡ 0xF0 → 0x90 ≤ b)
    → encode (((a % 8 * 64 + b % 64) * 64 + c % 64) * 64 + d % 64) ≡ a ∷ b ∷ c ∷ d ∷ []
encode_four a b c d ha hb hc hd short = ground arith

pub two :
    (a b : ℕ) (cs : Bytes)
    → within 0xC2 0xDF a ≡ true
    → within 0x80 0xBF b ≡ true
    → Decoded (a ∷ b ∷ cs)
unfolding validate_utf8_char_and_return_len
two a b cs ha hb = record {
  code_point = a % 32 * 64 + b % 64;
  size = 2;
  rest = cs;
  bytes = rw (encode_two a b ha hb);
  high = ground arith;
  size_is = rw (encode_two a b ha hb);
  result = ground (arith, bit_and_mask 5 a 0x1F refl, push_tail_lem (a % 32) b (omega arith));
}

pub three :
    (a b c : ℕ) (cs : Bytes)
    → within 0xE0 0xEF a ≡ true
    → within 0x80 0xBF b ≡ true
    → within 0x80 0xBF c ≡ true
    → (a ≡ 0xE0 → 0xA0 ≤ b)
    → Decoded (a ∷ b ∷ c ∷ cs)
unfolding validate_utf8_char_and_return_len
three a b c cs ha hb hc short = record {
  code_point = (a % 16 * 64 + b % 64) * 64 + c % 64;
  size = 3;
  rest = cs;
  bytes = rw (encode_three a b c ha hb hc short);
  high = ground arith;
  size_is = rw (encode_three a b c ha hb hc short);
  result = elim (Bool-cases (a == 0xE0)) [
    | inl e ↦ ground (arith, bit_and_mask 6 b 0x3F refl, push_tail_lem (b % 64) c (omega arith))
    | inr e ↦ ground (arith, bit_and_mask 4 a 0xF refl, push_two (a % 16) b c (omega arith))
  ];
}

pub four :
    (a b c d : ℕ) (cs : Bytes)
    → within 0xF0 0xF4 a ≡ true
    → within 0x80 0xBF b ≡ true
    → within 0x80 0xBF c ≡ true
    → within 0x80 0xBF d ≡ true
    → (a ≡ 0xF0 → 0x90 ≤ b)
    → Decoded (a ∷ b ∷ c ∷ d ∷ cs)
unfolding validate_utf8_char_and_return_len
four a b c d cs ha hb hc hd short = record {
  code_point = ((a % 8 * 64 + b % 64) * 64 + c % 64) * 64 + d % 64;
  size = 4;
  rest = cs;
  bytes = rw (encode_four a b c d ha hb hc hd short);
  high = ground arith;
  size_is = rw (encode_four a b c d ha hb hc hd short);
  result = elim (Bool-cases (a == 0xF0)) [
    | inl e ↦ ground (arith, bit_and_mask 6 b 0x3F refl, push_two (b % 64) c d (omega arith))
    | inr e ↦ ground (arith, bit_and_mask 3 a 0x7 refl, push_three (a % 8) b c d (omega arith))
  ];
}

-- The code point that each form gives.
pub two-code_point :
    (a b : ℕ) (cs : Bytes) (ha : within 0xC2 0xDF a ≡ true) (hb : within 0x80 0xBF b ≡ true)
    → (two a b cs ha hb).code_point ≡ a % 32 * 64 + b % 64
unfolding two
two-code_point a b cs ha hb = refl

pub three-code_point :
    (a b c : ℕ) (cs : Bytes) (ha : within 0xE0 0xEF a ≡ true) (hb : within 0x80 0xBF b ≡ true)
    (hc : within 0x80 0xBF c ≡ true) (short : a ≡ 0xE0 → 0xA0 ≤ b)
    → (three a b c cs ha hb hc short).code_point ≡ (a % 16 * 64 + b % 64) * 64 + c % 64
unfolding three
three-code_point a b c cs ha hb hc short = refl

pub four-code_point :
    (a b c d : ℕ) (cs : Bytes) (ha : within 0xF0 0xF4 a ≡ true) (hb : within 0x80 0xBF b ≡ true)
    (hc : within 0x80 0xBF c ≡ true) (hd : within 0x80 0xBF d ≡ true) (short : a ≡ 0xF0 → 0x90 ≤ b)
    → (four a b c d cs ha hb hc hd short).code_point
      ≡ ((a % 8 * 64 + b % 64) * 64 + c % 64) * 64 + d % 64
unfolding four
four-code_point a b c d cs ha hb hc hd short = refl

-- The second byte that `case 0xE0:` and `case 0xF0:` ask for.
abbrev second_ok : ℕ → ℕ → Bool
second_ok a b = within 0x80 0xBF b && not (a == 0xE0 && ltb b 0xA0) && not (a == 0xF0 && ltb b 0x90)

Refused-lead : (a : ℕ) (cs : Bytes) → within 0xC2 0xF4 a ≡ false → Refused (a ∷ cs)
unfolding validate_utf8_char_and_return_len
Refused-lead a cs h = ground arith

Refused-second : (a b : ℕ) (cs : Bytes) → second_ok a b ≡ false → Refused (a ∷ b ∷ cs)
unfolding validate_utf8_char_and_return_len
Refused-second a b cs h = ground arith

-- The third and fourth bytes, where the first asks for them.
Refused-third :
    (a b c : ℕ) (cs : Bytes)
    → within 0xE0 0xF4 a ≡ true
    → within 0x80 0xBF c ≡ false
    → Refused (a ∷ b ∷ c ∷ cs)
unfolding validate_utf8_char_and_return_len
Refused-third a b c cs h t = ground arith

Refused-fourth :
    (a b c d : ℕ) (cs : Bytes)
    → within 0xF0 0xF4 a ≡ true
    → within 0x80 0xBF d ≡ false
    → Refused (a ∷ b ∷ c ∷ d ∷ cs)
unfolding validate_utf8_char_and_return_len
Refused-fourth a b c d cs h t = ground arith

-- A string that ends early: the NUL is no tail.
Refused-one : (a : ℕ) → Refused (a ∷ [])
unfolding validate_utf8_char_and_return_len
Refused-one a = ground arith

Refused-two : (a b : ℕ) → within 0xE0 0xF4 a ≡ true → Refused (a ∷ b ∷ [])
unfolding validate_utf8_char_and_return_len
Refused-two a b h = ground arith

Refused-three : (a b c : ℕ) → within 0xF0 0xF4 a ≡ true → Refused (a ∷ b ∷ c ∷ [])
unfolding validate_utf8_char_and_return_len
Refused-three a b c h = ground arith

from_fourth :
    (a b c : ℕ) (cs : Bytes)
    → within 0xF0 0xF4 a ≡ true
    → second_ok a b ≡ true
    → within 0x80 0xBF c ≡ true
    → Refused (a ∷ b ∷ c ∷ cs) ⊎ Decoded (a ∷ b ∷ c ∷ cs)
from_fourth a b c [] h s t = inl (Refused-three a b c h)
from_fourth a b c (d ∷ cs) h s t = elim (Bool-cases (within 0x80 0xBF d)) [
  | inr e ↦ inl (Refused-fourth a b c d cs h e)
  | inl e ↦ inr (four a b c d cs h (ground arith) t e (λ z. ground arith))
]

from_third :
    (a b : ℕ) (cs : Bytes)
    → within 0xE0 0xF4 a ≡ true
    → second_ok a b ≡ true
    → Refused (a ∷ b ∷ cs) ⊎ Decoded (a ∷ b ∷ cs)
from_third a b [] h s = inl (Refused-two a b h)
from_third a b (c ∷ cs) h s = elim (Bool-cases (within 0x80 0xBF c)) [
  | inr e ↦ inl (Refused-third a b c cs h e)
  | inl e ↦ elim (Bool-cases (within 0xE0 0xEF a)) [
    | inl k ↦ inr (three a b c cs k (ground arith) e (λ z. ground arith))
    | inr k ↦ from_fourth a b c cs (ground arith) s e
  ]
]

from_second :
    (a b : ℕ) (cs : Bytes)
    → within 0xC2 0xF4 a ≡ true
    → second_ok a b ≡ true
    → Refused (a ∷ b ∷ cs) ⊎ Decoded (a ∷ b ∷ cs)
from_second a b cs h s = elim (Bool-cases (within 0xC2 0xDF a)) [
  | inl k ↦ inr (two a b cs k (ground arith))
  | inr k ↦ from_third a b cs (ground arith) s
]

-- Every string: -1, or the encoding of a number and the table's verdict on it.
pub decode_cases : (s : Bytes) → Refused s ⊎ Decoded s
unfolding validate_utf8_char_and_return_len
decode_cases [] = inl (ground arith)
decode_cases (a ∷ []) = inl (Refused-one a)
decode_cases (a ∷ b ∷ cs) = elim (Bool-cases (within 0xC2 0xF4 a)) [
  | inr e ↦ inl (Refused-lead a (b ∷ cs) e)
  | inl h ↦ elim (Bool-cases (second_ok a b)) [
    | inr e ↦ inl (Refused-second a b cs e)
    | inl s ↦ from_second a b cs h s
  ]
]
