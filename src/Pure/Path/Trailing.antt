-- ===== src/Pure/Path/Trailing.antt =====
-- `validate_path` of qrexec-lib/unicode.c without the flag for a trailing slash, and the last component
-- of a path.
use qubes_linux_utils.Prelude.{
  ℕ, zero, suc, ◌≡◌, refl, ◌⊎◌, inl, inr, Bool, true, false, Option, none, some, List, [], ◌∷◌,
  Bytes, All, ◌==◌, Bool-cases, arith,
}
use qubes_linux_utils.Prelude.Int.{pos}
use qubes_linux_utils.Pure.Path.{
  has_flag, allow_trailing_slash, at_start, advance, stop, step, finish, loop, validate_path,
  allow_non_canonical_paths,
}
use qubes_linux_utils.Pure.Path.Components.{
  split, onto, Counts, end, trailing, skipped, name, is_skipped, is_dotdot,
}
use qubes_linux_utils.Pure.Path.Round.{NoNul, step-total, step-stop}
use qubes_linux_utils.Pure.Path.Sound.{validate_path-Counts}

-- A component that enters something: not "", "." or "..".
abbrev pub IsSegment : Bytes → Type 0
IsSegment w = (is_skipped w ≡ false) × (is_dotdot w ≡ false)

-- The byte in front of the NUL.
abbrev last_byte : Option ℕ → Bytes → Option ℕ
last_byte before [] = before
last_byte before (c ∷ cs) = last_byte (some c) cs

finish-last :
    (flags : ℕ) (before : Option ℕ) (n m : ℕ)
    → has_flag flags allow_trailing_slash ≡ false
    → finish flags before n ≡ pos m
    → at_start before ≡ false
unfolding finish
finish-last flags none n m strict h = absurd (ground arith)
finish-last flags (some c) n m strict h = ground arith

loop-last :
    (flags : ℕ) (before : Option ℕ) (allowed n skip m : ℕ) (rest : Bytes)
    → NoNul rest
    → has_flag flags allow_trailing_slash ≡ false
    → loop flags before allowed n skip rest ≡ some (pos m)
    → at_start (last_byte before rest) ≡ false
unfolding loop
loop-last flags before allowed n zero m [] clean strict h =
    finish-last flags before n m strict (ground arith)
loop-last flags before allowed n (suc skip) m [] clean strict h = absurd (ground arith)
loop-last flags before allowed n (suc skip) m (c ∷ rest) clean strict h =
    loop-last flags (some c) allowed n skip m rest clean.1 strict h
loop-last flags before allowed n zero m (c ∷ rest) clean strict h =
    let (r, e) = step-total flags before c rest allowed n clean.1 in
    elim r
        as (λ r.
          step flags before c rest allowed n ≡ some r
          → at_start (last_byte (some c) rest) ≡ false) [
            | stop errno ↦
                λ e. absurd (ground (arith, step-stop flags before c rest allowed n errno e))
            | advance a' n' skip ↦
                λ e. loop-last flags (some c) a' n' skip m rest clean.1 strict (ground (arith, e))
          ]
      e

-- The last component holds something.
abbrev filled : List Bytes → Bool
filled [] = false
filled ([] ∷ []) = false
filled ((x ∷ w) ∷ []) = true
filled (w ∷ v ∷ ws) = filled (v ∷ ws)

filled-onto : (c : ℕ) (ws : List Bytes) → filled ws ≡ true → filled (onto c ws) ≡ true
unfolding onto
filled-onto c [] h = refl
filled-onto c (w ∷ []) h = refl
filled-onto c (w ∷ v ∷ ws) h = h

filled-nil : (ws : List Bytes) → filled ws ≡ true → filled ([] ∷ ws) ≡ true
filled-nil [] h = absurd (ground arith)
filled-nil (w ∷ ws) h = h

filled-split :
    (c : ℕ) (cs : Bytes) → at_start (last_byte (some c) cs) ≡ false → filled (split (c ∷ cs)) ≡ true
unfolding split
filled-split c [] h = rw h refl
filled-split c (d ∷ ds) h = elim (Bool-cases (c == b'/')) [
  | inl e ↦ rw e (filled-nil (split (d ∷ ds)) (filled-split d ds h))
  | inr e ↦ rw e (filled-onto c (split (d ∷ ds)) (filled-split d ds h))
]

filled-rest :
    (w : Bytes) (ws : List Bytes)
    → (filled (w ∷ ws) ≡ true) ⊎ (w ∷ ws ≡ [])
    → (filled ws ≡ true) ⊎ (ws ≡ [])
filled-rest w [] h = inr refl
filled-rest w (v ∷ ws) (inl h) = inl (ground arith)
filled-rest w (v ∷ ws) (inr h) = absurd (ground arith)

Counts-IsSegment :
    {ws : List Bytes} {n : ℕ}
    → Counts false 0 ws n
    → (filled ws ≡ true) ⊎ (ws ≡ [])
    → All IsSegment ws
Counts-IsSegment end f = tt
Counts-IsSegment trailing f = absurd (ground arith)
Counts-IsSegment (skipped s lax t) f = absurd (ground arith)
Counts-IsSegment (name {w} {ws} s d t) f = ((s, d), Counts-IsSegment t (filled-rest w ws f))

-- On a string without NUL, with no ".." allowed and neither the flag for non-canonical paths nor
-- that for a trailing slash, a path that `validate_path` accepts consists of names only: no
-- component is "", "." or "..".
pub validate_path-IsSegment :
    (path : Bytes) (flags m : ℕ)
    → NoNul path
    → has_flag flags allow_non_canonical_paths ≡ false
    → has_flag flags allow_trailing_slash ≡ false
    → validate_path path 0 flags ≡ some (pos m)
    → All IsSegment (split path)
unfolding validate_path
validate_path-IsSegment [] flags m clean strict no_slash h = absurd (ground arith)
validate_path-IsSegment (c ∷ rest) flags m clean strict no_slash h =
    let counts = validate_path-Counts (c ∷ rest) 0 flags m clean h in
    let tail = loop-last flags none 0 0 0 m (c ∷ rest) clean no_slash (ground arith) in
    Counts-IsSegment (rw strict at counts) (inl (filled-split c rest tail))
