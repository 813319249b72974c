-- ===== src/Python/Str.antt =====
-- `str.strip`, `str.splitlines`, `in` and `str.partition`, over code points.
use pound_drever_hall.Common.{
  ℕ, ◌≡◌, ◌≢◌, refl, ap, ◌∙◌, Bool, true, false, ◌||◌, ◌&&◌, List, [], ◌∷◌, ◌++◌, Text, leb, ◌==◌,
  if◌then◌else◌, arith, All,
}

-- `str.isspace` on one character.
unfoldable pub is_space : ℕ → Bool
is_space c =
    (leb 9 c && leb c 13)
    || (leb 28 c && leb c 32)
    || c == 0x85
    || c == 0xa0
    || c == 0x1680
    || (leb 0x2000 c && leb c 0x200a)
    || c == 0x2028
    || c == 0x2029
    || c == 0x202f
    || c == 0x205f
    || c == 0x3000

-- The line boundaries of `str.splitlines`.
unfoldable pub is_break : ℕ → Bool
is_break c =
    (leb 10 c && leb c 13) || (leb 28 c && leb c 30) || c == 0x85 || c == 0x2028 || c == 0x2029

unfoldable pub lstrip : Text → Text
lstrip [] = []
lstrip (c ∷ s) = if is_space c then lstrip s else c ∷ s

-- A character stays if it is no space or if something stays behind it.
abbrev keep : ℕ → Text → Text
keep c [] = if is_space c then [] else c ∷ []
keep c (d ∷ s) = c ∷ d ∷ s

unfoldable pub rstrip : Text → Text
rstrip [] = []
rstrip (c ∷ s) = keep c (rstrip s)

unfoldable pub strip : Text → Text
strip s = rstrip (lstrip s)

abbrev starts_lf : Text → Bool
starts_lf [] = false
starts_lf (c ∷ s) = c == 10

abbrev prepend : ℕ → List Text → List Text
prepend c [] = (c ∷ []) ∷ []
prepend c (line ∷ lines) = (c ∷ line) ∷ lines

-- "\r\n" is one boundary, and a boundary at the end starts no new line.
lines_at : (ℕ → Bool) → Text → List Text
lines_at breaks [] = []
lines_at breaks (c ∷ s) =
    let rest = lines_at breaks s in
    if c == 13 && starts_lf s then rest else if breaks c then [] ∷ rest else prepend c rest

unfoldable pub splitlines : Text → List Text
unfolding lines_at
splitlines = lines_at is_break

-- The lines of a file that is read as text, each without its end.
unfoldable pub file_lines : Text → List Text
unfolding lines_at
file_lines = lines_at λ c. c == 10 || c == 13

unfoldable pub contains : ℕ → Text → Bool
contains c [] = false
contains c (d ∷ s) = d == c || contains c s

-- What stands before the first `c` and after it.
unfoldable pub partition : ℕ → Text → Text × Text
partition c [] = ([], [])
partition c (d ∷ s) =
    let (before, after) = partition c s in if d == c then ([], s) else (d ∷ before, after)

-- A text that `strip` and `splitlines` leave whole.
abbrev pub IsPlain : Text → Type 0
IsPlain = All λ c. is_space c ≡ false

pub lstrip-plain_append : (s t : Text) → s ≢ [] → IsPlain s → lstrip (s ++ t) ≡ s ++ t
unfolding lstrip
lstrip-plain_append [] t h p = absurd (h refl)
lstrip-plain_append (c ∷ s) t h p = ground arith

lstrip-plain : (s : Text) → IsPlain s → lstrip s ≡ s
unfolding lstrip
lstrip-plain [] p = refl
lstrip-plain (c ∷ s) p = ground arith

pub rstrip-append : (s t : Text) → rstrip t ≢ [] → rstrip (s ++ t) ≡ s ++ rstrip t
unfolding rstrip
rstrip-append [] t h = refl
rstrip-append (c ∷ s) t h = rw (rstrip-append s t h) (keep_front s)
  where
    keep_any : (u : Text) → u ≢ [] → keep c u ≡ c ∷ u
    keep_any [] n = absurd (n refl)
    keep_any (d ∷ u) n = refl

    keep_front : (s : Text) → keep c (s ++ rstrip t) ≡ c ∷ (s ++ rstrip t)
    keep_front [] = keep_any (rstrip t) h
    keep_front (d ∷ s) = refl

-- A text whose first character is no space keeps it.
pub strip-cons : (d : ℕ) (s : Text) → is_space d ≡ false → (t : Text) × (strip (d ∷ s) ≡ d ∷ t)
unfolding strip lstrip rstrip
strip-cons d s h = rw h (keeps (rstrip s))
  where
    keeps : (u : Text) → (t : Text) × (keep d u ≡ d ∷ t)
    keeps [] = ([], rw h)
    keeps (c ∷ u) = (c ∷ u, refl)

pub rstrip-space : (s : Text) (c : ℕ) → is_space c ≡ true → rstrip (s ++ (c ∷ [])) ≡ rstrip s
unfolding rstrip
rstrip-space [] c h = rw h
rstrip-space (d ∷ s) c h = rw (rstrip-space s c h)

pub rstrip-plain : (s : Text) → IsPlain s → rstrip s ≡ s
unfolding rstrip
rstrip-plain [] p = refl
rstrip-plain (c ∷ []) p = ground arith
rstrip-plain (c ∷ d ∷ s) (p, ps) = rw (rstrip-plain (d ∷ s) ps)

pub strip-plain : (s : Text) → IsPlain s → strip s ≡ s
unfolding strip
strip-plain s p = rw (lstrip-plain s p) (rstrip-plain s p)

-- A plain character is no line boundary.
plain_char :
    (c : ℕ) → is_space c ≡ false → ((c == 13) ≡ false) × ((c == 10) ≡ false) × (is_break c ≡ false)
unfolding is_space is_break
plain_char c h = ground arith

splitlines-char :
    (c : ℕ) (s : Text) → is_space c ≡ false → splitlines (c ∷ s) ≡ prepend c (splitlines s)
unfolding splitlines
splitlines-char c s h = rw ((plain_char c h).0, (plain_char c h).2)

-- A plain line ends at the line feed behind it.
pub splitlines-line : (s t : Text) → IsPlain s → splitlines (s ++ (10 ∷ t)) ≡ s ∷ splitlines t
unfolding splitlines is_break
splitlines-line [] t p = refl
splitlines-line (c ∷ s) t (p, ps) =
    splitlines-char c (s ++ (10 ∷ t)) p ∙ rw (splitlines-line s t ps)

file_lines-char :
    (c : ℕ) (s : Text) → is_space c ≡ false → file_lines (c ∷ s) ≡ prepend c (file_lines s)
unfolding file_lines
file_lines-char c s h = rw ((plain_char c h).0, (plain_char c h).1)

-- Lines of a file end at the line feeds.
pub file_lines-line : (s t : Text) → IsPlain s → file_lines (s ++ (10 ∷ t)) ≡ s ∷ file_lines t
unfolding file_lines
file_lines-line [] t p = refl
file_lines-line (c ∷ s) t (p, ps) =
    file_lines-char c (s ++ (10 ∷ t)) p ∙ ap (prepend c) (file_lines-line s t ps)

pub splitlines-last : (s : Text) → s ≢ [] → IsPlain s → splitlines s ≡ s ∷ []
unfolding splitlines
splitlines-last [] h p = absurd (h refl)
splitlines-last (c ∷ []) h (p, ps) = splitlines-char c [] p
splitlines-last (c ∷ d ∷ s) h (p, ps) =
    splitlines-char c (d ∷ s) p ∙ rw (splitlines-last (d ∷ s) (λ e. cc) ps)

pub partition-first :
    (c : ℕ) (s t : Text) → contains c s ≡ false → partition c (s ++ (c ∷ t)) ≡ (s, t)
unfolding contains partition
partition-first c [] t h = ground arith
partition-first c (d ∷ s) t h = ground (arith, partition-first c s t)

pub contains-middle : (c : ℕ) (s t : Text) → contains c (s ++ (c ∷ t)) ≡ true
unfolding contains
contains-middle c [] t = ground arith
contains-middle c (d ∷ s) t = ground (arith, contains-middle c s t)
