-- ===== src/Python/Pattern.antt =====
-- `str.startswith`, `in` on texts, and what a regular expression of disjoint classes is built from.
use pound_drever_hall.Common.{
  ℕ, Bool, true, false, ◌||◌, Option, none, some, [], ◌∷◌, Text, ◌&&◌, leb, ◌==◌, if◌then◌else◌,
}

module _ {A B : Type 0} where
  infixl 5 ◌>>=◌
  abbrev pub ◌>>=◌ : Option A → (A → Option B) → Option B
  ◌>>=◌ none next = none
  ◌>>=◌ (some a) next = next a

-- What stands behind the prefix `w`.
unfoldable pub after_prefix : Text → Text → Option Text
after_prefix [] s = some s
after_prefix (c ∷ w) [] = none
after_prefix (c ∷ w) (d ∷ s) = if d == c then after_prefix w s else none

-- `s.startswith(w)`
abbrev pub starts_with : Text → Text → Bool
starts_with w s = elim (after_prefix w s) [ none ↦ false | some _ ↦ true ]

-- `w in s`
unfoldable pub contains_text : Text → Text → Bool
contains_text w [] = starts_with w []
contains_text w (c ∷ s) = starts_with w (c ∷ s) || contains_text w s

-- The class [0-9]
abbrev pub is_digit : ℕ → Bool
is_digit c = leb b'0' c && leb c b'9'

-- The longest run of a class at the start, and what stands behind it.
unfoldable pub span : (ℕ → Bool) → Text → Text × Text
span test [] = ([], [])
span test (c ∷ s) = let (run, rest) = span test s in if test c then (c ∷ run, rest) else ([], c ∷ s)

-- A class with `+`
abbrev pub run : (ℕ → Bool) → Text → Option (Text × Text)
run test s = nonempty (span test s)
  where
    nonempty : Text × Text → Option (Text × Text)
    nonempty ([], rest) = none
    nonempty (c ∷ s, rest) = some (c ∷ s, rest)

-- A class with `*`, of which only the rest is used
abbrev pub skip : (ℕ → Bool) → Text → Text
skip test s = (span test s).1
