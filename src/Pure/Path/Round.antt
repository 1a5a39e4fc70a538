-- ===== src/Pure/Path/Round.antt =====
-- What one round of the loop of `validate_path` can do, case by case.
use qubes_linux_utils.Prelude.{
  ℕ, zero, suc, ◌+◌, ◌-◌, ◌≤◌, ◌<◌, ◌≡◌, refl, ◌⊎◌, inl, inr, Bool, true, false, not, ◌&&◌, ◌||◌,
  Option, some, [], ◌∷◌, Bytes, length, ◌==◌, ltb, within, if◌then◌else◌, Bool-cases, Option-cases,
  arith, All,
}
use qubes_linux_utils.Pure.Utf8.{validate_utf8_char_safe_for_display}
use qubes_linux_utils.Pure.Utf8.Laws.{StartsSafe, safe_for_display-total, safe_for_display_iff}
use qubes_linux_utils.Pure.Path.{
  has_flag, allow_unsafe_characters, allow_non_canonical_paths, Component, continued, dotdot, name,
  refused, start_component, character, by_component, Step, eilseq, enolink, dot_component, advance,
  stop, at_start, step,
}

-- The first `k` bytes are no slashes.
abbrev pub no_slash : ℕ → Bytes → Bool
no_slash zero s = true
no_slash (suc k) [] = true
no_slash (suc k) (c ∷ cs) = not (c == b'/') && no_slash k cs

-- The tails of a character are no slashes.
utf8-no_slash :
    (c k : ℕ) (rest : Bytes)
    → StartsSafe (c ∷ rest) (suc k)
    → ((c == b'/') ≡ false) × (no_slash k rest ≡ true) × (k ≤ length rest)
utf8-no_slash c k rest s = elim (Bool-cases (ltb s.code_point 0x800)) [
  | inl e ↦ ground (arith, s.bytes, s.size)
  | inr e ↦ elim (Bool-cases (ltb s.code_point 0x10000)) [
    | inl f ↦ ground (arith, s.bytes, s.size)
    | inr f ↦ ground (arith, s.bytes, s.size)
  ]
]

-- A string that a NUL may end holds none.
abbrev pub NoNul : Bytes → Type 0
NoNul = All (λ c. 0 < c)

-- A component ends here.
abbrev pub ends : Bytes → Bool
ends [] = true
ends (c ∷ cs) = c == b'/'

-- The component that began with a "." before these bytes is "." or "..".
abbrev pub dots : Bytes → Bool
dots [] = true
dots (d ∷ ds) = d == b'/' || d == b'.' && ends ds

-- The four ways to go on.
pub data Round (lax : Bool) (before : Option ℕ) (c : ℕ) (rest : Bytes)
    (allowed n allowed' n' skip : ℕ) : Type 0 where
  inside :
      at_start before ≡ false
      → allowed' ≡ allowed
      → n' ≡ n
      → no_slash skip rest ≡ true
      → skip ≤ length rest
      → ((c == b'/') ≡ true → skip ≡ 0)
      → Round lax before c rest allowed n allowed' n' skip
  stays :
      at_start before ≡ true
      → lax ≡ true
      → ((c == b'/') ≡ true) ⊎ (((c == b'.') ≡ true) × (ends rest ≡ true))
      → allowed' ≡ allowed
      → n' ≡ n
      → skip ≡ 0
      → Round lax before c rest allowed n allowed' n' skip
  rises :
      {after : Bytes}
      → at_start before ≡ true
      → (c == b'.') ≡ true
      → rest ≡ b'.' ∷ after
      → ends after ≡ true
      → allowed ≡ suc allowed'
      → n' ≡ n
      → skip ≡ 1
      → Round lax before c rest allowed n allowed' n' skip
  enters :
      at_start before ≡ true
      → allowed' ≡ 0
      → n' ≡ n + 1
      → (c == b'/') ≡ false
      → (c == b'.' && dots rest) ≡ false
      → no_slash skip rest ≡ true
      → skip ≤ length rest
      → Round lax before c rest allowed n allowed' n' skip

module _ (flags c : ℕ) (rest : Bytes) where
  character-total : (allowed n : ℕ) → (r : Step) × (character flags c rest allowed n ≡ some r)
  unfolding character
  character-total allowed n =
      let (k, e) = safe_for_display-total (c ∷ rest) in
      elim (Bool-cases (within 0x20 0x7E c || has_flag flags allow_unsafe_characters)) [
        | inl h ↦ (advance allowed n 0, rw h)
        | inr h ↦ (if ltb 0 k then advance allowed n (k - 1) else stop eilseq, rw (h, e))
      ]

  utf8-advance :
      (k : ℕ)
      → validate_utf8_char_safe_for_display (c ∷ rest) ≡ some k
      → 0 < k
      → ((c == b'/') ≡ false) × (no_slash (k - 1) rest ≡ true) × (k - 1 ≤ length rest)
  utf8-advance zero e h = absurd (omega arith)
  utf8-advance (suc k) e h =
      let same : suc k - 1 ≡ k = omega arith in
      rw same (utf8-no_slash c k rest ((safe_for_display_iff (c ∷ rest) k).0 e))

  character-advance :
      (allowed n allowed' n' skip : ℕ)
      → character flags c rest allowed n ≡ some (advance allowed' n' skip)
      → (allowed' ≡ allowed)
        × (n' ≡ n)
        × (no_slash skip rest ≡ true)
        × (skip ≤ length rest)
        × ((c == b'/') ≡ true → skip ≡ 0)
  unfolding character
  character-advance allowed n allowed' n' skip h =
      let (k, e) = safe_for_display-total (c ∷ rest) in ground (arith, e, utf8-advance k e)

-- What the code finds out about a component that begins with ".".
dot_component_is :
    (lax : Bool) (rest : Bytes)
    → NoNul rest
    → ((dot_component lax rest ≡ some (if lax then continued else refused)) × (ends rest ≡ true))
      ⊎ ((after : Bytes) × (dot_component lax rest ≡ some dotdot)
          × (rest ≡ b'.' ∷ after)
          × (ends after ≡ true))
      ⊎ ((dot_component lax rest ≡ some name) × (dots rest ≡ false))
unfolding dot_component
dot_component_is lax [] h = inl (refl, refl)
dot_component_is lax (d ∷ []) h = elim (Bool-cases (d == b'/')) [
  | inl e ↦ inl (ground arith, e)
  | inr e ↦ elim (Bool-cases (d == b'.')) [
    | inl f ↦ inr (inl ([], ground arith, ground arith, refl))
    | inr f ↦ inr (inr (ground arith, ground arith))
  ]
]
dot_component_is lax (d ∷ e ∷ r) h = elim (Bool-cases (d == b'/')) [
  | inl k ↦ inl (ground arith, k)
  | inr k ↦ elim (Bool-cases (d == b'.')) [
    | inr f ↦ inr (inr (ground arith, ground arith))
    | inl f ↦ elim (Bool-cases (e == b'/')) [
      | inl g ↦ inr (inl (e ∷ r, ground arith, ground arith, g))
      | inr g ↦ inr (inr (ground arith, ground arith))
    ]
  ]
]

module _ (flags c : ℕ) (rest : Bytes) (allowed n allowed' n' skip : ℕ) (before : Option ℕ)
    (start : at_start before ≡ true) where
  abbrev Goes : Type 0
  Goes = Round (has_flag flags allow_non_canonical_paths) before c rest allowed n allowed' n' skip

  round_name :
      (c == b'/') ≡ false
      → (c == b'.' && dots rest) ≡ false
      → by_component flags c rest allowed n name ≡ some (advance allowed' n' skip)
      → Goes
  unfolding by_component
  round_name slash dot h =
      let (a, b, d, e, _) = character-advance flags c rest 0 (n + 1) allowed' n' skip h in
      enters start a b slash dot d e

  round_dot :
      NoNul rest
      → (c == b'.') ≡ true
      → (c == b'/') ≡ false
      → step flags before c rest allowed n ≡ some (advance allowed' n' skip)
      → Goes
  unfolding step
  round_dot clean dot slash h =
      elim (dot_component_is (has_flag flags allow_non_canonical_paths) rest clean) [
        | inl (e, stop_here) ↦
            stays start (ground (arith, e)) (inr (dot, stop_here)) (ground (arith, e))
              (ground (arith, e)) (ground (arith, e))
        | inr (inl (after, e, is, stop_here)) ↦
            rises start dot is stop_here (ground (arith, e)) (ground (arith, e)) (ground (arith, e))
        | inr (inr (e, long)) ↦ round_name slash (ground arith) (ground (arith, e))
      ]

start_component-total :
    (lax : Bool) (c : ℕ) (rest : Bytes)
    → NoNul rest
    → (k : Component) × (start_component lax c rest ≡ some k)
unfolding start_component
start_component-total lax c rest clean = elim (Bool-cases (c == b'/')) [
  | inl e ↦ (if lax then continued else refused, rw e)
  | inr e ↦ elim (Bool-cases (c == b'.')) [
    | inr f ↦ (name, rw (e, f))
    | inl f ↦ elim (dot_component_is lax rest clean) [
      | inl (g, _) ↦ (if lax then continued else refused, rw (e, f, g))
      | inr (inl (after, g, _, _)) ↦ (dotdot, rw (e, f, g))
      | inr (inr (g, _)) ↦ (name, rw (e, f, g))
    ]
  ]
]

by_component-total :
    (flags c : ℕ) (rest : Bytes) (allowed n : ℕ) (k : Component)
    → (r : Step) × (by_component flags c rest allowed n k ≡ some r)
unfolding by_component
by_component-total flags c rest allowed n continued = (advance allowed n 0, refl)
by_component-total flags c rest allowed n dotdot =
    (if ltb allowed 1 then stop enolink else advance (allowed - 1) n 1, refl)
by_component-total flags c rest allowed n name = character-total flags c rest 0 (n + 1)
by_component-total flags c rest allowed n refused = (stop eilseq, refl)

-- A round that goes on does so in one of the four ways.
pub step-Round :
    (flags : ℕ) (before : Option ℕ) (c : ℕ) (rest : Bytes) (allowed n allowed' n' skip : ℕ)
    → NoNul rest
    → step flags before c rest allowed n ≡ some (advance allowed' n' skip)
    → Round (has_flag flags allow_non_canonical_paths) before c rest allowed n allowed' n' skip
unfolding step
step-Round flags before c rest allowed n allowed' n' skip clean h =
    elim (Bool-cases (at_start before)) [
      | inr mid ↦
          let (p, q, r, s, t) =
            character-advance flags c rest allowed n allowed' n' skip (ground arith) in
          inside mid p q r s t
      | inl start ↦ elim (Bool-cases (c == b'/')) [
        | inl e ↦ stays start (ground arith) (inl e) (ground arith) (ground arith) (ground arith)
        | inr e ↦ elim (Bool-cases (c == b'.')) [
          | inl f ↦ round_dot flags c rest allowed n allowed' n' skip before start clean f e h
          | inr f ↦
              round_name flags c rest allowed n allowed' n' skip before start e (ground arith)
                (ground arith)
        ]
      ]
    ]

-- No round reads beyond the terminating NUL.
pub step-total :
    (flags : ℕ) (before : Option ℕ) (c : ℕ) (rest : Bytes) (allowed n : ℕ)
    → NoNul rest
    → (r : Step) × (step flags before c rest allowed n ≡ some r)
unfolding step
step-total flags before c rest allowed n clean = elim (Bool-cases (at_start before)) [
  | inr mid ↦ rw mid (character-total flags c rest allowed n)
  | inl start ↦
      let (k, e) = start_component-total (has_flag flags allow_non_canonical_paths) c rest clean in
      let (r, f) = by_component-total flags c rest allowed n k in (r, rw (start, e) f)
]

by_component-stop :
    (flags c : ℕ) (rest : Bytes) (allowed n errno : ℕ) (k : Component)
    → by_component flags c rest allowed n k ≡ some (stop errno)
    → 0 < errno
unfolding by_component
by_component-stop flags c rest allowed n errno continued h = absurd (ground arith)
by_component-stop flags c rest allowed n errno dotdot h = ground arith
by_component-stop flags c rest allowed n errno name h = ground arith
by_component-stop flags c rest allowed n errno refused h = ground arith

-- A round that stops gives an error number.
pub step-stop :
    (flags : ℕ) (before : Option ℕ) (c : ℕ) (rest : Bytes) (allowed n errno : ℕ)
    → step flags before c rest allowed n ≡ some (stop errno)
    → 0 < errno
unfolding step
step-stop flags before c rest allowed n errno h = elim (Bool-cases (at_start before)) [
  | inr mid ↦ ground arith
  | inl start ↦
      elim (Option-cases (start_component (has_flag flags allow_non_canonical_paths) c rest)) [
        | inl e ↦ absurd (ground arith)
        | inr (k, e) ↦ by_component-stop flags c rest allowed n errno k (ground arith)
      ]
]
