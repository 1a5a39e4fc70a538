-- ===== src/Pure/Utf8/Table.antt =====
-- What the allowlist table of qrexec-lib/unicode-allowlist-table.c keeps out, checked range by range.
use qubes_linux_utils.Prelude.{
  ℕ, ◌<◌, ◌≡◌, refl, ◌⊎◌, inl, inr, Bool, true, List, [], ◌∷◌, ◌&&◌, ◌||◌, ltb, within, Bool-cases,
  arith,
}
use qubes_linux_utils.Pure.Allowlist.{allowlist}
use qubes_linux_utils.Pure.Utf8.{in_ranges, code_point_safe_for_display}
use qubes_linux_utils.Pure.Utf8.Encoding.{IsScalar}

-- What must not be shown, block by block.
abbrev pub never_shown : List (ℕ × ℕ)
never_shown =
    -- the controls of ASCII; DEL, the upper controls and the no-break space; the soft hyphen
    (0, 0x1F)
    ∷ (0x7F, 0xA0)
    ∷ (0xAD, 0xAD)
    -- the combining grapheme joiner, the Arabic letter mark, the Mongolian selectors and separator
    ∷ (0x34F, 0x34F)
    ∷ (0x61C, 0x61C)
    ∷ (0x180B, 0x180E)
    -- spaces, zero-width characters and direction marks
    ∷ (0x2000, 0x200F)
    -- line and paragraph separator, embeddings, overrides and the narrow no-break space
    ∷ (0x2028, 0x202F)
    -- the mathematical space, word joiner, invisible operators, isolates and old format controls
    ∷ (0x205F, 0x206F)
    -- the ideographic space; surrogates and private use; the variation selectors
    ∷ (0x3000, 0x3000)
    ∷ (0xD800, 0xF8FF)
    ∷ (0xFE00, 0xFE0F)
    -- the byte order mark; the interlinear marks, replacement characters and noncharacters at U+FFF0
    ∷ (0xFEFF, 0xFEFF)
    ∷ (0xFFF0, 0xFFFF)
    -- tags, further selectors and private use, and what is no code point
    ∷ (0xE0000, 0xFFFFFFFF)
    ∷ []

-- Outside of all these ranges.
abbrev pub Clear : List (ℕ × ℕ) → ℕ → Type 0
Clear [] c = Unit {0}
Clear ((a, b) ∷ ranges) c = ((c < a) ⊎ (b < c)) × Clear ranges c

clear_range : ℕ → ℕ → List (ℕ × ℕ) → Bool
clear_range lo hi [] = true
clear_range lo hi ((a, b) ∷ ranges) = (ltb hi a || ltb b lo) && clear_range lo hi ranges

all_clear : List (ℕ × ℕ) → Bool
unfolding clear_range
all_clear [] = true
all_clear ((lo, hi) ∷ ranges) = clear_range lo hi never_shown && ltb hi 0xE0000 && all_clear ranges

-- A code point of none of these blocks, that UTF-8 can encode.
pub record IsDisplayable (c : ℕ) : Type 0 where
  pub clear : Clear never_shown c
  pub scalar : IsScalar c

clear_range-Clear :
    (lo hi c : ℕ) (ranges : List (ℕ × ℕ))
    → within lo hi c ≡ true
    → clear_range lo hi ranges ≡ true
    → Clear ranges c
unfolding clear_range
clear_range-Clear lo hi c [] k h = tt
clear_range-Clear lo hi c ((a, b) ∷ ranges) k h =
    (ground arith, clear_range-Clear lo hi c ranges k (ground arith))

surrogates_clear :
    (lo hi : ℕ) → clear_range lo hi never_shown ≡ true → (hi < 0xD800) ⊎ (0xF8FF < lo)
unfolding clear_range
surrogates_clear lo hi h = ground arith

range-IsDisplayable :
    (lo hi c : ℕ)
    → clear_range lo hi never_shown ≡ true
    → hi < 0xE0000
    → within lo hi c ≡ true
    → IsDisplayable c
range-IsDisplayable lo hi c h l k = record {
  clear = clear_range-Clear lo hi c never_shown k h;
  scalar = elim (surrogates_clear lo hi h) [
    | inl e ↦ ground (arith, e)
    | inr e ↦ ground (arith, e)
  ];
}

in_ranges-IsDisplayable :
    (ranges : List (ℕ × ℕ)) (c : ℕ)
    → all_clear ranges ≡ true
    → in_ranges ranges c ≡ true
    → IsDisplayable c
unfolding in_ranges all_clear
in_ranges-IsDisplayable [] c h k = absurd (ground arith)
in_ranges-IsDisplayable ((lo, hi) ∷ ranges) c h k = elim (Bool-cases (within lo hi c)) [
  | inl e ↦ range-IsDisplayable lo hi c (ground arith) (ground arith) e
  | inr e ↦ in_ranges-IsDisplayable ranges c (ground arith) (ground arith)
]

allowlist_clear : all_clear allowlist ≡ true
unfolding all_clear clear_range allowlist
allowlist_clear = refl

-- A code point that the table calls safe is a Unicode scalar value outside of the blocks that
-- `never_shown` lists: controls, the spaces and zero-width characters at U+2000, the marks, overrides
-- and isolates that reorder text, the invisible operators, selectors, tags, the byte order mark and
-- private use.
pub safe_for_display-IsDisplayable :
    (c : ℕ) → code_point_safe_for_display c ≡ true → IsDisplayable c
unfolding code_point_safe_for_display
safe_for_display-IsDisplayable c h = in_ranges-IsDisplayable allowlist c allowlist_clear h
