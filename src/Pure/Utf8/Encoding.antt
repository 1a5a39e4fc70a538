-- ===== src/Pure/Utf8/Encoding.antt =====
-- UTF-8 as RFC 3629 defines it, without the code: the bytes of a code point from U+0080 on, and
-- which numbers are scalar values. Each byte is written with the arithmetic of the standard's table.
use qubes_linux_utils.Prelude.{ℕ, ◌+◌, ◌/◌, ◌%◌, ◌<◌, ◌≤◌, ◌⊎◌, Bytes, [], ◌∷◌, if◌then◌else◌, ltb}

-- The bytes of a code point above U+007F.
abbrev pub encode : ℕ → Bytes
encode c =
    if ltb c 0x800
    then (0xC0 + c / 64) ∷ (0x80 + c % 64) ∷ []
    else if ltb c 0x10000
    then (0xE0 + c / 4096) ∷ (0x80 + c / 64 % 64) ∷ (0x80 + c % 64) ∷ []
    else (0xF0 + c / 262144) ∷ (0x80 + c / 4096 % 64) ∷ (0x80 + c / 64 % 64) ∷ (0x80 + c % 64) ∷ []

-- A code point that is no surrogate.
abbrev pub IsScalar : ℕ → Type 0
IsScalar c = (c < 0xD800) ⊎ ((0xE000 ≤ c) × (c < 0x110000))
