-- ===== src/NotScript/Hex/RoundTrip.antt =====
-- The numbers that not-script/not-script.c writes to XenStore, read back when the device is removed.
use qubes_linux_utils.Prelude.{
  ℕ, zero, suc, ◌+◌, ◌-◌, ◌*◌, ◌/◌, ◌%◌, ◌^◌, ◌<◌, ◌≤◌, ◌≡◌, ◌≢◌, refl, ap, sym, ◌∙◌, inl, inr,
  true, false, ◌||◌, some, [], ◌∷◌, ◌++◌, append_assoc, append-nil, Bytes, ◌>>=◌, ◌==◌, ltb,
  Bool-cases, arith,
}
use qubes_linux_utils.NotScript.Hex.{
  nonzero_digit, digit_value, scan_hex, in_range, followed_by, strict_strtoul_hex, ends_here,
  parse_diskseq, parse_minor, parse_physical_device, hex_digit, hex_digits, print_hex,
  print_physical_device,
}

-- So many digits are enough.
abbrev Digits : ℕ → ℕ → Type 0
Digits zero n = n ≡ 0
Digits (suc fuel) n = Digits fuel (n / 16)

hex_digit-read :
    (d : ℕ)
    → d < 16
    → ((hex_digit d == b'0' || nonzero_digit (hex_digit d)) ≡ true)
      × (digit_value (hex_digit d) ≡ d)
unfolding nonzero_digit digit_value
hex_digit-read d h = ground arith

scan_hex-digit :
    (value d after : ℕ) (rest : Bytes)
    → d < 16
    → value * 16 + d ≡ after
    → scan_hex value (hex_digit d ∷ rest) ≡ scan_hex after rest
unfolding scan_hex
scan_hex-digit value d after rest h k =
    let (e, f) = hex_digit-read d h in rw (e, f) (ap (λ (v : ℕ). scan_hex v rest) k)

scan_hex-Digits :
    (fuel n : ℕ) (rest : Bytes)
    → Digits fuel n
    → scan_hex 0 (hex_digits fuel n ++ rest) ≡ scan_hex n rest
unfolding hex_digits
scan_hex-Digits zero n rest h = rw h refl
scan_hex-Digits (suc fuel) n rest h = elim (Bool-cases (ltb n 16)) [
  | inl e ↦ rw e (scan_hex-digit 0 n n rest (ground arith) (omega arith))
  | inr e ↦
      rw (e, append_assoc (hex_digits fuel (n / 16)) (hex_digit (n % 16) ∷ []) rest)
        (scan_hex-Digits fuel (n / 16) (hex_digit (n % 16) ∷ rest) h
          ∙ scan_hex-digit (n / 16) (n % 16) n rest (omega arith) (omega arith))
]

-- A number that is not 0 begins with a digit that is not 0.
record Begins (s : Bytes) : Type 0 where
  first : ℕ
  others : Bytes
  parts : s ≡ first ∷ others
  nonzero : nonzero_digit first ≡ true

nonzero_digit-zero : (c : ℕ) → nonzero_digit c ≡ true → (c == b'0') ≡ false
unfolding nonzero_digit
nonzero_digit-zero c h = ground arith

hex_digits-Begins : (fuel n : ℕ) → Digits fuel n → n ≢ 0 → Begins (hex_digits fuel n)
unfolding hex_digits nonzero_digit
hex_digits-Begins zero n h k = absurd (k h)
hex_digits-Begins (suc fuel) n h k = elim (Bool-cases (ltb n 16)) [
  | inl e ↦ rw e (record { first = hex_digit n; others = []; parts = refl; nonzero = ground arith })
  | inr e ↦
      let b = hex_digits-Begins fuel (n / 16) h (ground arith) in
      rw (e, b.parts) (record { first = b.first; others = _; parts = refl; nonzero = b.nonzero })
]

strict_nonzero :
    (c expected max : ℕ) (cs : Bytes)
    → nonzero_digit c ≡ true
    → strict_strtoul_hex (c ∷ cs) expected max
      ≡ (do found ← in_range max (scan_hex 0 (c ∷ cs)); followed_by expected found)
unfolding strict_strtoul_hex
strict_nonzero c expected max cs h = rw (nonzero_digit-zero c h, h) refl

in_range_lem :
    (max value : ℕ) (rest : Bytes) → value ≤ max → in_range max (value, rest) ≡ some (value, rest)
unfolding in_range
in_range_lem max value rest h = let over : ltb max value ≡ false = ground arith in rw over refl

-- What is expected behind a number is there, and is no digit.
record Stops (expected : ℕ) (rest : Bytes) : Type 0 where
  number : (value : ℕ) → scan_hex value rest ≡ (value, rest)
  follows : (value : ℕ) → followed_by expected (value, rest) ≡ some (value, rest)

strict-Digits :
    (fuel n expected max : ℕ) (rest : Bytes)
    → Digits fuel n
    → n ≢ 0
    → n ≤ max
    → Stops expected rest
    → strict_strtoul_hex (hex_digits fuel n ++ rest) expected max ≡ some (n, rest)
strict-Digits fuel n expected max rest h k l stops =
    let b = hex_digits-Begins fuel n h k in
    let same : hex_digits fuel n ++ rest ≡ b.first ∷ (b.others ++ rest) =
      ap (λ (w : Bytes). w ++ rest) b.parts in
    let value : scan_hex 0 (b.first ∷ (b.others ++ rest)) ≡ (n, rest) =
      ap (scan_hex 0) (sym same) ∙ scan_hex-Digits fuel n rest h ∙ stops.number n in
    rw
      (
        same,
        strict_nonzero b.first expected max (b.others ++ rest) b.nonzero,
        value,
        in_range_lem max n rest l,
      )
      (stops.follows n)

print_hex-zero : (rest : Bytes) → print_hex 0 ++ rest ≡ b'0' ∷ rest
unfolding print_hex hex_digits
print_hex-zero rest = refl

strict_zero :
    (expected max : ℕ) (rest : Bytes)
    → strict_strtoul_hex (b'0' ∷ rest) expected max ≡ followed_by expected (0, rest)
unfolding strict_strtoul_hex
strict_zero expected max rest = refl

print_hex_lem : (n : ℕ) → print_hex n ≡ hex_digits 16 n
unfolding print_hex
print_hex_lem n = refl

strict_strtoul_hex-print_hex :
    (n expected max : ℕ) (rest : Bytes)
    → n < 2 ^ 64
    → n ≤ max
    → Stops expected rest
    → strict_strtoul_hex (print_hex n ++ rest) expected max ≡ some (n, rest)
strict_strtoul_hex-print_hex n expected max rest h k stops = elim (Bool-cases (n == 0)) [
  | inl e ↦
      let zero : n ≡ 0 = ground arith in
      rw (zero, print_hex-zero rest, strict_zero expected max rest) (stops.follows 0)
  | inr e ↦
      rw (print_hex_lem n)
        (strict-Digits 16 n expected max rest (omega arith) (ground arith) k stops)
]

end_Stops : Stops 0 []
unfolding scan_hex followed_by
end_Stops = record { number = λ value. refl; follows = λ value. refl }

colon_Stops : (rest : Bytes) → Stops b':' (b':' ∷ rest)
unfolding scan_hex followed_by nonzero_digit
colon_Stops rest = record { number = λ value. refl; follows = λ value. refl }

-- A diskseq of 64 bits, as the program writes it, is read back.
pub parse_diskseq-print_hex : (n : ℕ) → n < 2 ^ 64 → parse_diskseq (print_hex n) ≡ some n
unfolding parse_diskseq ends_here
parse_diskseq-print_hex n h =
    let read = strict_strtoul_hex-print_hex n 0 (2 ^ 64 - 1) [] h (omega arith) end_Stops in
    rw (sym (append-nil (print_hex n)), read) refl

-- The value that is written for a device is read back as its major and minor number, for all numbers
-- of 32 bits.
pub parse_physical_device-print :
    (major minor : ℕ)
    → major < 2 ^ 32
    → minor < 2 ^ 32
    → parse_physical_device (print_physical_device major minor) ≡ some (major, minor)
unfolding parse_physical_device print_physical_device parse_minor ends_here
parse_physical_device-print major minor h k =
    let first =
      strict_strtoul_hex-print_hex major b':' (2 ^ 32 - 1) (b':' ∷ print_hex minor) (omega arith)
        (omega arith) (colon_Stops (print_hex minor)) in
    let second =
      strict_strtoul_hex-print_hex minor 0 (2 ^ 32 - 1) [] (omega arith) (omega arith) end_Stops in
    rw (first, sym (append-nil (print_hex minor)), second) refl
