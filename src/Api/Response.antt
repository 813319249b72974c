-- ===== src/Api/Response.antt =====
-- client/pdh_api/api.py: `_parse_response`. A response is a dict from keys to numbers or texts.
pub mod Laws
use pound_drever_hall.Common.{
  ℕ, Bool, true, false, Option, none, some, List, [], ◌∷◌, Text, codes, text_eq, if◌then◌else◌,
}
use pound_drever_hall.Common.Int.{ℤ, pos, negsuc, eq_ℤ}
use pound_drever_hall.Python.Str.{strip, splitlines, contains, partition}
use pound_drever_hall.Python.Number.{int_of, show_int}
use pound_drever_hall.Python.Float.{Float}

pub data Value (F : Type 0) : Type 0 where
  int : ℤ → Value F
  float : F → Value F
  str : Text → Value F

abbrev pub Response : Type 0 → Type 0
Response F = List (Text × Value F)

module _ {F : Type 0} where
  -- `r[k] = v`, in insertion order.
  unfoldable pub insert : Text → Value F → Response F → Response F
  insert k v [] = (k, v) ∷ []
  insert k v ((j, w) ∷ r) = if text_eq j k then (j, v) ∷ r else (j, w) ∷ insert k v r

  unfoldable pub lookup : Text → Response F → Option (Value F)
  lookup k [] = none
  lookup k ((j, w) ∷ r) = if text_eq j k then some w else lookup k r

  -- `r.get(k, default)`
  unfoldable pub get : Response F → Text → Value F → Value F
  unfolding lookup
  get r k default = elim (lookup k r) [ none ↦ default | some v ↦ v ]

module _ {F : Type 0} ⦃fl : Float F⦄ where
  -- `int(val)`, or else `float(val)`, or else the text.
  unfoldable pub coerce : Text → Value F
  coerce val = elim (int_of val) [
    | some n ↦ int n
    | none ↦ elim (fl.parse val) [ some x ↦ float x | none ↦ str val ]
  ]

  -- One round of the loop. A line with no colon is passed over.
  unfoldable pub read_line : Text → Response F → Response F
  read_line line result =
      let (key, val) = partition b':' line in
      if contains b':' line then insert (strip key) (coerce (strip val)) result else result

  unfoldable pub read_lines : List Text → Response F → Response F
  read_lines [] result = result
  read_lines (line ∷ lines) result = read_lines lines (read_line line result)

  unfoldable pub parse_response : Text → Response F
  parse_response text = read_lines (splitlines (strip text)) []

  -- `v == 0`, as the comparison of a status with 0 is made.
  unfoldable pub is_zero : Value F → Bool
  is_zero (int n) = eq_ℤ n (pos 0)
  is_zero (float x) = fl.eq x (fl.of_int (pos 0))
  is_zero (str s) = false

  -- f"{v}"
  unfoldable pub show_value : Value F → Text
  show_value (int n) = show_int n
  show_value (float x) = fl.repr x
  show_value (str s) = s
