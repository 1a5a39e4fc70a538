-- ===== src/Pure/Path/Sound.antt =====
-- The count that `validate_path` of qrexec-lib/unicode.c returns, against the components of the path.
use qubes_linux_utils.Prelude.{
  ℕ, zero, suc, ◌+◌, ◌≡◌, refl, ◌⊎◌, inl, inr, Bool, true, false, ◌&&◌, Option, none, some, [], ◌∷◌,
  Bytes, List, ◌==◌, ==_iff, Bool-cases, if◌then◌else◌, arith,
}
use qubes_linux_utils.Prelude.Int.{pos}
use qubes_linux_utils.Pure.Path.{
  has_flag, allow_non_canonical_paths, at_start, advance, stop, step, finish, loop, validate_path,
}
use qubes_linux_utils.Pure.Path.Components.{
  split, onto, tail, split_slash, split_other, head_or_nil, Counts, end, trailing, skipped, up,
  name, is_skipped, is_dotdot, onto-eq,
}
use qubes_linux_utils.Pure.Path.Round.{
  NoNul, no_slash, ends, dots, Round, inside, stays, rises, enters, step-Round, step-total,
  step-stop,
}

-- The components that begin behind the byte `before`.
abbrev pending : Option ℕ → Bytes → List Bytes
pending before rest = if at_start before then split rest else tail (split rest)

-- A byte of a component begins no component.
tail_other :
    (c : ℕ) (rest : Bytes) → (c == b'/') ≡ false → tail (split (c ∷ rest)) ≡ tail (split rest)
tail_other c rest h = rw (split_other c rest h)

-- The components behind one more byte.
pending_inside :
    (before : Option ℕ) (c : ℕ) (rest : Bytes)
    → at_start before ≡ false
    → pending before (c ∷ rest) ≡ pending (some c) rest
pending_inside before c rest mid = elim (Bool-cases (c == b'/')) [
  | inl e ↦ let slash = (==_iff c b'/').0 e in rw (mid, e, slash, split_slash rest) refl
  | inr e ↦ rw (mid, e) (tail_other c rest e)
]

-- A component that begins with this byte, and is not "." or "..".
is_name_component :
    (c : ℕ) (rest : Bytes)
    → (c == b'.' && dots rest) ≡ false
    → (is_skipped (c ∷ head_or_nil (split rest)) ≡ false)
      × (is_dotdot (c ∷ head_or_nil (split rest)) ≡ false)
unfolding split onto
is_name_component c [] h = ground arith
is_name_component c (d ∷ []) h = ground arith
is_name_component c (d ∷ e ∷ r) h = elim (Bool-cases (d == b'/')) [
  | inl k ↦ ground arith
  | inr k ↦ elim (Bool-cases (e == b'/')) [
    | inl f ↦ ground (arith, onto-eq d (split (e ∷ r)))
    | inr f ↦ ground (arith, onto-eq e (split r))
  ]
]

-- "." or "..", at the end of a component.
split-ends : (rest : Bytes) → ends rest ≡ true → head_or_nil (split rest) ≡ []
unfolding split
split-ends [] h = refl
split-ends (c ∷ cs) h = rw h

two_dots :
    (c : ℕ) (rest after : Bytes)
    → (c == b'.') ≡ true
    → rest ≡ b'.' ∷ after
    → ends after ≡ true
    → is_dotdot (c ∷ head_or_nil (split rest)) ≡ true
two_dots c rest after dot is last =
    rw (is, split_other b'.' after refl, split-ends after last) (ground arith)

-- The components from the one that the round is in.
Round-Counts :
    {lax : Bool} {before : Option ℕ} {c : ℕ} {rest : Bytes} {a n a' n' skip : ℕ} (m k : ℕ)
    → Round lax before c rest a n a' n' skip
    → Counts lax a' (pending (some c) rest) k
    → m ≡ n' + k
    → (j : ℕ) × Counts lax a (pending before (c ∷ rest)) j × (m ≡ n + j)
Round-Counts {before} {c} {rest} m k (inside mid ea en _ _ _) t e =
    (k, rw (pending_inside before c rest mid, ← ea) t, omega arith)
Round-Counts {c} {rest} m k (stays start lax (inl slash) ea en _) t e =
    let is = (==_iff c b'/').0 slash in
    (
      k,
      rw start (rw (is, split_slash rest) (skipped refl lax (rw (← ea) (rw slash at t)))),
      omega arith,
    )
Round-Counts {c} {rest} m k (stays start lax (inr (dot, last)) ea en _) t e =
    let sf : (c == b'/') ≡ false = ground arith in
    let alone : is_skipped (c ∷ head_or_nil (split rest)) ≡ true = rw (split-ends rest last) dot in
    (k, rw (start, split_other c rest sf) (skipped alone lax (rw (← ea) (rw sf at t))), omega arith)
Round-Counts {c} {rest} m k (rises {after} start dot is last ea en _) t e =
    let sf : (c == b'/') ≡ false = ground arith in
    (
      k,
      rw (start, split_other c rest sf, ea) (up (two_dots c rest after dot is last) (rw sf at t)),
      omega arith,
    )
Round-Counts {c} {rest} m k (enters start ea en slash long _ _) t e =
    let (one, two) = is_name_component c rest long in
    (
      suc k,
      rw (start, split_other c rest slash) (name one two (rw ea at (rw slash at t))),
      omega arith,
    )

-- A round's tails are the next rounds' bytes to pass by.
Round-parts :
    {lax : Bool} {before : Option ℕ} {c : ℕ} {rest : Bytes} {a n a' n' skip : ℕ}
    → Round lax before c rest a n a' n' skip
    → (no_slash skip rest ≡ true) × ((skip ≡ 0) ⊎ ((c == b'/') ≡ false))
Round-parts {c} (inside _ _ _ h _ z) = elim (Bool-cases (c == b'/')) [
  | inl e ↦ (h, inl (z e))
  | inr e ↦ (h, inr e)
]
Round-parts (stays _ _ _ _ _ e) = (rw e refl, inl e)
Round-parts (rises _ dot is _ _ _ e) = (rw (e, is) refl, inr (ground arith))
Round-parts (enters _ _ _ slash _ h _) = (h, inr slash)

finish-pos : (flags : ℕ) (before : Option ℕ) (n m : ℕ) → finish flags before n ≡ pos m → m ≡ n
unfolding finish
finish-pos flags none n m h = absurd (ground arith)
finish-pos flags (some c) n m h = ground arith

pending_nil : (lax : Bool) (a : ℕ) (before : Option ℕ) → Counts lax a (pending before []) 0
unfolding split
pending_nil lax a before = elim (Bool-cases (at_start before)) [
  | inl e ↦ rw e trailing
  | inr e ↦ rw e end
]

loop-Counts :
    (flags : ℕ) (before : Option ℕ) (allowed n skip m : ℕ) (rest : Bytes)
    → NoNul rest
    → no_slash skip rest ≡ true
    → (skip ≡ 0) ⊎ (at_start before ≡ false)
    → loop flags before allowed n skip rest ≡ some (pos m)
    → (k : ℕ) × Counts (has_flag flags allow_non_canonical_paths) allowed (pending before rest) k
      × (m ≡ n + k)
unfolding loop
loop-Counts flags before allowed n zero m [] clean free mid h =
    (0, pending_nil _ allowed before, omega (arith, finish-pos flags before n m (ground arith)))
loop-Counts flags before allowed n (suc skip) m [] clean free mid h = absurd (ground arith)
loop-Counts flags before allowed n (suc skip) m (c ∷ rest) clean free mid h =
    let mid_now : at_start before ≡ false = ground arith in
    let sf : (c == b'/') ≡ false = ground arith in
    rw (pending_inside before c rest mid_now)
      (loop-Counts flags (some c) allowed n skip m rest clean.1 (ground arith) (inr sf) h)
loop-Counts flags before allowed n zero m (c ∷ rest) clean free mid h =
    let (r, e) = step-total flags before c rest allowed n clean.1 in
    elim r
        as (λ r.
          step flags before c rest allowed n ≡ some r
          → (k : ℕ) × Counts (has_flag flags allow_non_canonical_paths) allowed
              (pending before (c ∷ rest)) k
            × (m ≡ n + k)) [
              | stop errno ↦
                  λ e. absurd (ground (arith, step-stop flags before c rest allowed n errno e))
              | advance a' n' skip ↦ λ e.
                  let round = step-Round flags before c rest allowed n a' n' skip clean.1 e in
                  let (free', mid') = Round-parts round in
                  let (k, t, f) =
                    loop-Counts flags (some c) a' n' skip m rest clean.1 free' mid'
                      (ground (arith, e)) in
                  Round-Counts m k round t f
            ]
      e

-- When `validate_path` accepts a string without NUL, its result is the number of names among the
-- components of the path: at most `allowed` ".." stand before them, none behind, and without the
-- flag for non-canonical paths no component but a last empty one is "" or ".".
pub validate_path-Counts :
    (name : Bytes) (allowed flags m : ℕ)
    → NoNul name
    → validate_path name allowed flags ≡ some (pos m)
    → Counts (has_flag flags allow_non_canonical_paths) allowed (split name) m
unfolding validate_path split
validate_path-Counts [] allowed flags m clean h =
    let none_counted : m ≡ 0 = ground arith in rw none_counted trailing
validate_path-Counts (c ∷ rest) allowed flags m clean h =
    let (k, t, e) =
      loop-Counts flags none allowed 0 0 m (c ∷ rest) clean refl (inl refl) (ground arith) in
    let same : m ≡ k = omega arith in rw same t

-- A path that is followed from the root directory.
abbrev pub is_absolute : Bytes → Bool
is_absolute [] = false
is_absolute (c ∷ cs) = c == b'/'

pub validate_path-relative :
    (name : Bytes) (allowed flags m : ℕ)
    → validate_path name allowed flags ≡ some (pos m)
    → is_absolute name ≡ false
unfolding validate_path
validate_path-relative [] allowed flags m h = refl
validate_path-relative (c ∷ rest) allowed flags m h = ground arith
