-- ===== src/Pure/Path/Safety.antt =====
-- The reads of `validate_path` of qrexec-lib/unicode.c, against the NUL that ends its argument.
use qubes_linux_utils.Prelude.{
  ℕ, zero, suc, ◌≤◌, ◌≡◌, refl, ap, inl, inr, Bool, Option, none, some, [], ◌∷◌, Bytes, length,
  ◌==◌, Bool-cases, if◌then◌else◌, arith,
}
use qubes_linux_utils.Prelude.Int.{ℤ, pos, neg}
use qubes_linux_utils.Pure.Path.{
  has_flag, allow_non_canonical_paths, advance, stop, step, finish, loop, validate_path, enolink,
}
use qubes_linux_utils.Pure.Path.Round.{
  NoNul, Round, inside, stays, rises, enters, step-Round, step-total,
}

-- What a round passes by is there.
Round-skip :
    {lax : Bool} {before : Option ℕ} {c : ℕ} {rest : Bytes} {a n a' n' skip : ℕ}
    → Round lax before c rest a n a' n' skip
    → skip ≤ length rest
Round-skip (inside _ _ _ _ h _) = h
Round-skip (stays _ _ _ _ _ h) = omega arith
Round-skip (rises _ _ is _ _ _ h) = omega (arith, ap length is)
Round-skip (enters _ _ _ _ _ _ h) = h

loop-total :
    (flags : ℕ) (before : Option ℕ) (allowed n skip : ℕ) (rest : Bytes)
    → skip ≤ length rest
    → NoNul rest
    → (r : ℤ) × (loop flags before allowed n skip rest ≡ some r)
unfolding loop
loop-total flags before allowed n zero [] fits clean = (finish flags before n, refl)
loop-total flags before allowed n (suc skip) [] fits clean = absurd (omega arith)
loop-total flags before allowed n (suc skip) (c ∷ rest) fits clean =
    loop-total flags (some c) allowed n skip rest (omega arith) clean.1
loop-total flags before allowed n zero (c ∷ rest) fits clean =
    let (r, e) = step-total flags before c rest allowed n clean.1 in
    elim r
        as (λ r.
          step flags before c rest allowed n ≡ some r
          → (z : ℤ) × (loop flags before allowed n zero (c ∷ rest) ≡ some z)) [
            | stop errno ↦ λ e. (neg errno, rw (e, loop))
            | advance a' n' skip ↦ λ e.
                let fits =
                  Round-skip (step-Round flags before c rest allowed n a' n' skip clean.1 e) in
                let (z, f) = loop-total flags (some c) a' n' skip rest fits clean.1 in
                (z, rw (e, loop) f)
          ]
      e

-- On a string that its terminating NUL alone ends, whatever the flags, `validate_path` returns: it
-- reads no byte beyond the NUL.
pub validate_path-total :
    (name : Bytes) (allowed flags : ℕ)
    → NoNul name
    → (r : ℤ) × (validate_path name allowed flags ≡ some r)
unfolding validate_path
validate_path-total [] allowed flags clean =
    (if has_flag flags allow_non_canonical_paths then pos 0 else neg enolink, refl)
validate_path-total (c ∷ rest) allowed flags clean = elim (Bool-cases (c == b'/')) [
  | inl e ↦ (neg enolink, rw e)
  | inr e ↦
      let (r, f) = loop-total flags none allowed 0 0 (c ∷ rest) (omega arith) clean in
      (r, rw (e, f))
]
