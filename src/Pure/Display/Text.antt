-- ===== src/Pure/Display/Text.antt =====
-- Text that is safe to show, without the code: printable ASCII and the UTF-8 encodings of code points
-- that the table calls safe.
use qubes_linux_utils.Prelude.{
  ℕ, ◌≤◌, ◌≡◌, refl, ap, true, [], ◌∷◌, ◌++◌, Bytes, length, take, drop, within,
}
use qubes_linux_utils.Pure.Utf8.{code_point_safe_for_display}
use qubes_linux_utils.Pure.Utf8.Encoding.{encode}

pub data DisplayText : Bytes → Type 0 where
  nothing : DisplayText []
  ascii : {c : ℕ} {s : Bytes} → within 0x20 0x7E c ≡ true → DisplayText s → DisplayText (c ∷ s)
  character :
      {s rest : Bytes} (p : ℕ)
      → 0x80 ≤ p
      → code_point_safe_for_display p ≡ true
      → s ≡ encode p ++ rest
      → DisplayText rest
      → DisplayText s

pub drop-append : (xs ys : Bytes) → drop (length xs) (xs ++ ys) ≡ ys
drop-append [] ys = refl
drop-append (x ∷ xs) ys = drop-append xs ys

pub take-append : (xs ys : Bytes) → take (length xs) (xs ++ ys) ≡ xs
take-append [] ys = refl
take-append (x ∷ xs) ys = ap (◌∷◌ x) (take-append xs ys)
