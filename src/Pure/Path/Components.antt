-- ===== src/Pure/Path/Components.antt =====
-- Paths as lists of components, without the code: how a path splits at its slashes, and where a
-- walk along it leads.
use qubes_linux_utils.Prelude.{
  ℕ, suc, ◌≡◌, Bool, true, false, ◌&&◌, List, [], ◌∷◌, Bytes, ◌==◌, if◌then◌else◌, refl,
}

-- `split "a/b/" = "a", "b", ""`
unfoldable pub onto : ℕ → List Bytes → List Bytes
onto c [] = (c ∷ []) ∷ []
onto c (w ∷ ws) = (c ∷ w) ∷ ws

unfoldable pub split : Bytes → List Bytes
unfolding onto
split [] = [] ∷ []
split (c ∷ cs) = if c == b'/' then [] ∷ split cs else onto c (split cs)

-- "" and "." stay where they are.
abbrev pub is_skipped : Bytes → Bool
is_skipped [] = true
is_skipped (c ∷ []) = c == b'.'
is_skipped (c ∷ d ∷ cs) = false

abbrev pub is_dotdot : Bytes → Bool
is_dotdot (c ∷ d ∷ []) = c == b'.' && d == b'.'
is_dotdot _ = false

-- `Counts lax allowed ws n`: the components `ws` hold `n` names, at most `allowed` ".." stand before
-- them and none behind a name, and, unless `lax`, none is "" or "." but for a last "".
pub data Counts (lax : Bool) : ℕ → List Bytes → ℕ → Type 0 where
  end : {a : ℕ} → Counts lax a [] 0
  trailing : {a : ℕ} → Counts lax a ([] ∷ []) 0
  skipped :
      {a : ℕ} {w : Bytes} {ws : List Bytes} {n : ℕ}
      → is_skipped w ≡ true
      → lax ≡ true
      → Counts lax a ws n
      → Counts lax a (w ∷ ws) n
  up :
      {a : ℕ} {w : Bytes} {ws : List Bytes} {n : ℕ}
      → is_dotdot w ≡ true
      → Counts lax a ws n
      → Counts lax (suc a) (w ∷ ws) n
  name :
      {a : ℕ} {w : Bytes} {ws : List Bytes} {n : ℕ}
      → is_skipped w ≡ false
      → is_dotdot w ≡ false
      → Counts lax 0 ws n
      → Counts lax a (w ∷ ws) (suc n)

abbrev pub tail : List Bytes → List Bytes
tail [] = []
tail (w ∷ ws) = ws

-- The components that are still to come, where the byte before is known.
abbrev pub head_or_nil : List Bytes → Bytes
head_or_nil [] = []
head_or_nil (w ∷ ws) = w

pub tail-onto : (c : ℕ) (ws : List Bytes) → tail (onto c ws) ≡ tail ws
unfolding onto
tail-onto c [] = refl
tail-onto c (w ∷ ws) = refl

pub onto-eq : (c : ℕ) (ws : List Bytes) → onto c ws ≡ (c ∷ head_or_nil ws) ∷ tail ws
unfolding onto
onto-eq c [] = refl
onto-eq c (w ∷ ws) = refl

pub split_slash : (cs : Bytes) → split (b'/' ∷ cs) ≡ [] ∷ split cs
unfolding split
split_slash cs = refl

pub split_other :
    (c : ℕ) (cs : Bytes)
    → (c == b'/') ≡ false
    → split (c ∷ cs) ≡ (c ∷ head_or_nil (split cs)) ∷ tail (split cs)
unfolding split
split_other c cs h = rw h (onto-eq c (split cs))
