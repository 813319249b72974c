-- ===== src/Scripts/Trace/Line.antt =====
-- sim/linewidth/process_spa.py: the regular expression of a line of the trace.
pub mod Laws
use pound_drever_hall.Common.{
  ℕ, Bool, ◌||◌, ◌&&◌, Option, none, some, [], ◌∷◌, Text, codes, leb, ◌==◌,
}
use pound_drever_hall.Python.Str.{is_space}
use pound_drever_hall.Python.Pattern.{is_digit, ◌>>=◌, after_prefix, run, skip}

-- The class [-+0-9.Ee]
abbrev pub is_number_char : ℕ → Bool
is_number_char c = c == b'-' || c == b'+' || is_digit c || c == b'.' || c == b'E' || c == b'e'

-- P_LINE_RE at the start of a text, with its second and third group. What may follow a class is
-- not in the class, so a match takes the longest runs.
unfoldable pub p_line : Text → Option (Text × Text)
p_line s = do
  s₁ ← after_prefix (codes "P_") s
  (idx_str, s₂) ← run is_digit s₁
  s₃ ← after_prefix (codes "=") (skip is_space s₂)
  (power_str, s₄) ← run is_number_char (skip is_space s₃)
  s₅ ← after_prefix (codes ",") (skip is_space s₄)
  (freq_str, s₆) ← run is_number_char (skip is_space s₅)
  _ ← after_prefix (codes "MHz") (skip is_space s₆)
  some (power_str, freq_str)

-- P_LINE_RE.search(line)
unfoldable pub search : Text → Option (Text × Text)
search [] = none
search (c ∷ s) =
    let rest = search s in elim (p_line (c ∷ s)) [ none ↦ rest | some groups ↦ some groups ]
