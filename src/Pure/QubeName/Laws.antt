-- ===== src/Pure/QubeName/Laws.antt =====
-- The rules of qrexec-lib/pure.h for the name of a qube, against the checks of qrexec-lib/qube-name.c.
use qubes_linux_utils.Prelude.{
  ℕ, ◌-◌, ◌≤◌, ◌<◌, ◌≡◌, ◌≢◌, ◌↔◌, refl, ap, sym, ◌∙◌, true, false, [], ◌∷◌, ◌++◌, Bytes, length,
  drop, take, take-append-drop, length-append, All, Bool-cases, inl, inr, arith, ◌⊎◌,
}
use qubes_linux_utils.Pure.QubeName.{
  ok, same, dm_suffix, none_name, default_name, domain_0_name, first_ok, other_ok, others_ok,
  by_length, by_characters, is_valid_qube_name,
}

-- The classes of characters, by their ASCII codes: [A-Za-z], and [A-Za-z0-9_.-].
abbrev pub IsLetter : ℕ → Type 0
IsLetter c = ((65 ≤ c) × (c ≤ 90)) ⊎ ((97 ≤ c) × (c ≤ 122))

abbrev pub IsDigit : ℕ → Type 0
IsDigit c = (48 ≤ c) × (c ≤ 57)

abbrev pub IsNameCharacter : ℕ → Type 0
IsNameCharacter c = IsLetter c ⊎ (IsDigit c ⊎ ((c ≡ 95) ⊎ ((c ≡ 46) ⊎ (c ≡ 45))))

-- The first byte is a letter.
abbrev pub BeginsWithLetter : Bytes → Type 0
BeginsWithLetter [] = ⊥
BeginsWithLetter (c ∷ cs) = IsLetter c

-- "-dm", "none", "default" and "Domain-0" in ASCII.
abbrev pub stubdomain_ending : Bytes
stubdomain_ending = 45 ∷ 100 ∷ 109 ∷ []

abbrev pub reserved_none : Bytes
reserved_none = 110 ∷ 111 ∷ 110 ∷ 101 ∷ []

abbrev pub reserved_default : Bytes
reserved_default = 100 ∷ 101 ∷ 102 ∷ 97 ∷ 117 ∷ 108 ∷ 116 ∷ []

abbrev pub reserved_dom0 : Bytes
reserved_dom0 = 68 ∷ 111 ∷ 109 ∷ 97 ∷ 105 ∷ 110 ∷ 45 ∷ 48 ∷ []

-- The rules as pure.h lists them.
pub record IsQubeName (qube : Bytes) : Type 0 where
  pub long_enough : 1 ≤ length qube
  pub short_enough : length qube ≤ 31
  pub characters : All IsNameCharacter qube
  pub letter : BeginsWithLetter qube
  pub no_stubdomain : (stem : Bytes) → qube ≢ stem ++ stubdomain_ending
  pub not_none : qube ≢ reserved_none
  pub not_default : qube ≢ reserved_default
  pub not_dom0 : qube ≢ reserved_dom0

pub same_iff : (xs ys : Bytes) → (same xs ys ≡ true) ↔ (xs ≡ ys)
unfolding same
same_iff [] [] = ground arith
same_iff [] (y ∷ ys) = ground arith
same_iff (x ∷ xs) [] = ground arith
same_iff (x ∷ xs) (y ∷ ys) = ground (arith, same_iff xs ys)

first_ok_iff : (c : ℕ) → (first_ok c ≡ true) ↔ IsLetter c
first_ok_iff c = (λ h. ground arith, λ h. ground arith)

other_ok_iff : (c : ℕ) → (other_ok c ≡ true) ↔ IsNameCharacter c
other_ok_iff c = (λ h. ground arith, λ h. ground arith)

others_ok_iff : (cs : Bytes) → (others_ok cs ≡ true) ↔ All IsNameCharacter cs
unfolding others_ok
others_ok_iff [] = (λ _. tt, λ _. refl)
others_ok_iff (c ∷ cs) = (
  λ h. ((other_ok_iff c).0 (ground arith), (others_ok_iff cs).0 (ground arith)),
  λ h. ground (arith, (other_ok_iff c).1 h.0, (others_ok_iff cs).1 h.1),
)

-- A string ends in "-dm" exactly when its last three bytes are "-dm".
drop-append : (xs ys : Bytes) → drop (length xs) (xs ++ ys) ≡ ys
drop-append [] ys = refl
drop-append (x ∷ xs) ys = drop-append xs ys

suffix_iff :
    (qube : Bytes)
    → (drop (length qube - 3) qube ≡ dm_suffix) ↔ ((stem : Bytes) × (qube ≡ stem ++ dm_suffix))
suffix_iff qube = (
  (λ e. (
    take (length qube - 3) qube,
    sym (take-append-drop (length qube - 3) qube)
        ∙ ap (λ (t : Bytes). take (length qube - 3) qube ++ t) e,
  )),
  (λ (stem, e).
      let tail : length (stem ++ dm_suffix) - 3 ≡ length stem =
        omega (arith, length-append stem dm_suffix) in
      rw (e, tail) (drop-append stem dm_suffix)),
)

by_length-ok :
    (qube : Bytes)
    → (by_length qube ≡ ok) ↔ ((qube ≢ none_name) × (qube ≢ default_name) × (qube ≢ domain_0_name))
unfolding by_length same
by_length-ok qube = (
  (λ h. ((λ e. cc (rw e at h)), (λ e. cc (rw e at h)), (λ e. cc (rw e at h)))),
  (λ (a, b, c).
      ground
        (arith, same_iff qube none_name, same_iff qube default_name, same_iff qube domain_0_name)),
)

-- A name of three bytes or less that begins with a letter is none of the reserved ones.
short-stem :
    (c : ℕ) (cs stem : Bytes) → first_ok c ≡ true → length (c ∷ cs) < 4 → c ∷ cs ≢ stem ++ dm_suffix
short-stem c cs [] f l e = ground arith
short-stem c cs (s ∷ stem) f l e = omega (arith, ap length e, length-append stem dm_suffix)

short_other : (qube other : Bytes) → length qube < 4 → 4 ≤ length other → qube ≢ other
short_other qube other l m e = omega (arith, ap length e)

-- What `by_characters` accepts, for names of four bytes and more, and for shorter ones.
module _ (c : ℕ) (cs : Bytes) where
  by_characters-ok :
      by_characters (c ∷ cs) ≡ ok
      → (first_ok c ≡ true)
        × (others_ok cs ≡ true)
        × ((length (c ∷ cs) < 4)
            ⊎ ((same (drop (length (c ∷ cs) - 3) (c ∷ cs)) dm_suffix ≡ false)
                × (by_length (c ∷ cs) ≡ ok)))
  unfolding by_characters
  by_characters-ok h = ground arith

  accepted-IsQubeName : length (c ∷ cs) ≤ 31 → by_characters (c ∷ cs) ≡ ok → IsQubeName (c ∷ cs)
  accepted-IsQubeName fits h =
      let (f, o, rest) = by_characters-ok h in
      elim rest [
        | inl short ↦ record {
          long_enough = omega arith;
          short_enough = fits;
          characters = (inl ((first_ok_iff c).0 f), (others_ok_iff cs).0 o);
          letter = (first_ok_iff c).0 f;
          no_stubdomain = λ stem. short-stem c cs stem f short;
          not_none = short_other (c ∷ cs) none_name short (omega arith);
          not_default = short_other (c ∷ cs) default_name short (omega arith);
          not_dom0 = short_other (c ∷ cs) domain_0_name short (omega arith);
        }
        | inr (no_dm, len) ↦ record {
          long_enough = omega arith;
          short_enough = fits;
          characters = (inl ((first_ok_iff c).0 f), (others_ok_iff cs).0 o);
          letter = (first_ok_iff c).0 f;
          no_stubdomain = λ stem e. cc (
              (same_iff (drop (length (c ∷ cs) - 3) (c ∷ cs)) dm_suffix).1
                ((suffix_iff (c ∷ cs)).1 (stem, e)));
          not_none = ((by_length-ok (c ∷ cs)).0 len).0;
          not_default = ((by_length-ok (c ∷ cs)).0 len).1;
          not_dom0 = ((by_length-ok (c ∷ cs)).0 len).2;
        }
      ]

  IsQubeName-accepted : IsQubeName (c ∷ cs) → by_characters (c ∷ cs) ≡ ok
  unfolding by_characters
  IsQubeName-accepted q =
      let len : by_length (c ∷ cs) ≡ ok =
        (by_length-ok (c ∷ cs)).1 (q.not_none, q.not_default, q.not_dom0) in
      elim (Bool-cases (same (drop (length (c ∷ cs) - 3) (c ∷ cs)) dm_suffix)) [
        | inl e ↦
            let (stem, f) = (suffix_iff (c ∷ cs)).0 ((same_iff _ dm_suffix).0 e) in
            absurd (q.no_stubdomain stem f)
        | inr e ↦
            ground (arith, len, (others_ok_iff cs).1 q.characters.1, (first_ok_iff c).1 q.letter)
      ]

-- `qubes_pure_is_valid_qube_name` accepts exactly the names that follow the rules of pure.h: 1 to 31
-- characters of [A-Za-z0-9_.-], a letter first, no "-dm" at the end, and not one of the three
-- reserved names.
pub is_valid_qube_name_iff : (qube : Bytes) → (is_valid_qube_name qube ≡ ok) ↔ IsQubeName qube
unfolding is_valid_qube_name
is_valid_qube_name_iff [] =
    ((λ h. absurd (ground arith)), (λ q. absurd (omega (arith, q.long_enough))))
is_valid_qube_name_iff (c ∷ cs) = (
  (λ h. accepted-IsQubeName c cs (ground arith) (ground arith)),
  (λ q. ground (arith, IsQubeName-accepted c cs q, q.short_enough)),
)
