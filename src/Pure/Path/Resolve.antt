-- ===== src/Pure/Path/Resolve.antt =====
-- Where a path leads, without the code: a walk over its components that keeps the directories it has
-- entered, the last one first. A link's target is followed this way from the link's directory.
use qubes_linux_utils.Prelude.{
  ℕ, ◌+◌, ◌<◌, ◌≡◌, refl, Bool, true, false, Option, none, some, List, [], ◌∷◌, Bytes, length,
  if◌then◌else◌, arith, All,
}
use qubes_linux_utils.Pure.Path.Components.{
  is_skipped, is_dotdot, Counts, end, trailing, skipped, up, name,
}

abbrev pub Stack : Type 0
Stack = List Bytes

-- ".." in no directory at all leads out.
abbrev pub pop : Stack → Option Stack
pop [] = none
pop (d ∷ st) = some st

-- One component.
pub enter : Stack → Bytes → Option Stack
enter st w = if is_skipped w then some st else if is_dotdot w then pop st else some (w ∷ st)

-- The directory in which the walk began, at the top of the tree: the last of the stack.
abbrev pub outermost : Stack → Option Bytes
outermost [] = none
outermost (d ∷ []) = some d
outermost (d ∷ e ∷ st) = outermost (e ∷ st)

-- A walk over these components, each step of it inside the directory `top`.
pub data StaysIn (top : Bytes) : Stack → List Bytes → Type 0 where
  arrived : {st : Stack} → outermost st ≡ some top → StaysIn top st []
  goes :
      {st st' : Stack} {w : Bytes} {ws : List Bytes}
      → outermost st ≡ some top
      → enter st w ≡ some st'
      → StaysIn top st' ws
      → StaysIn top st (w ∷ ws)

-- The walk ends with this stack.
pub data LeadsTo (last : Stack) : Stack → List Bytes → Type 0 where
  there : {st : Stack} → st ≡ last → LeadsTo last st []
  on :
      {st st' : Stack} {w : Bytes} {ws : List Bytes}
      → enter st w ≡ some st'
      → LeadsTo last st' ws
      → LeadsTo last st (w ∷ ws)

outermost-cons :
    (w : Bytes) (st : Stack) (top : Bytes) → outermost st ≡ some top → outermost (w ∷ st) ≡ some top
outermost-cons w [] top h = absurd (ground arith)
outermost-cons w (d ∷ st) top h = h

dotdot-not-skipped : (w : Bytes) → is_dotdot w ≡ true → is_skipped w ≡ false
dotdot-not-skipped [] h = absurd (ground arith)
dotdot-not-skipped (c ∷ []) h = absurd (ground arith)
dotdot-not-skipped (c ∷ d ∷ cs) h = refl

skipped-not-dotdot : (w : Bytes) → is_skipped w ≡ true → is_dotdot w ≡ false
skipped-not-dotdot [] h = refl
skipped-not-dotdot (c ∷ []) h = refl
skipped-not-dotdot (c ∷ d ∷ cs) h = absurd (ground arith)

-- Where no ".." is allowed there is none.
pub Counts-no_dotdot :
    {lax : Bool} {ws : List Bytes} {n : ℕ} → Counts lax 0 ws n → All (λ w. is_dotdot w ≡ false) ws
Counts-no_dotdot end = tt
Counts-no_dotdot trailing = (refl, tt)
Counts-no_dotdot (skipped {w} s _ t) = (skipped-not-dotdot w s, Counts-no_dotdot t)
Counts-no_dotdot (name s d t) = (d, Counts-no_dotdot t)

-- Where fewer ".." are allowed than directories were entered, the walk stays in the outermost.
pub Counts-StaysIn :
    {lax : Bool} {a : ℕ} {ws : List Bytes} {n : ℕ} (top : Bytes) (st : Stack)
    → Counts lax a ws n
    → a < length st
    → outermost st ≡ some top
    → StaysIn top st ws
unfolding enter
Counts-StaysIn top st end h o = arrived o
Counts-StaysIn top st trailing h o = goes o refl (arrived o)
Counts-StaysIn top st (skipped s _ t) h o = goes o (rw s) (Counts-StaysIn top st t h o)
Counts-StaysIn top [] (up d t) h o = absurd (omega arith)
Counts-StaysIn top (x ∷ []) (up d t) h o = absurd (omega arith)
Counts-StaysIn top (x ∷ y ∷ st) (up {w} d t) h o =
    goes o (rw (dotdot-not-skipped w d, d)) (Counts-StaysIn top (y ∷ st) t (omega arith) o)
Counts-StaysIn top st (name {w} s d t) h o =
    goes o (rw (s, d)) (Counts-StaysIn top (w ∷ st) t (omega arith) (outermost-cons w st top o))

-- Without ".." a path leads to as many directories as it has names, on top of what was there.
pub Counts-LeadsTo :
    {lax : Bool} {ws : List Bytes} {n : ℕ} (st : Stack)
    → Counts lax 0 ws n
    → (last : Stack) × LeadsTo last st ws × (length last ≡ length st + n)
unfolding enter
Counts-LeadsTo st end = (st, there refl, omega arith)
Counts-LeadsTo st trailing = (st, on refl (there refl), omega arith)
Counts-LeadsTo st (skipped s _ t) =
    let (last, walk, e) = Counts-LeadsTo st t in (last, on (rw s) walk, e)
Counts-LeadsTo st (name {w} s d t) =
    let (last, walk, e) = Counts-LeadsTo (w ∷ st) t in (last, on (rw (s, d)) walk, omega arith)
