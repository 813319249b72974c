-- ===== src/Api/Commands/Line.antt =====
-- client/pdh_api/api.py: the text of a command and the defaults of a result.
use pound_drever_hall.Common.{List, [], ◌∷◌, ◌++◌, map, Text, codes}
use pound_drever_hall.Common.Int.{ℤ, pos, negsuc}
use pound_drever_hall.Python.Number.{show_int}
use pound_drever_hall.Python.Float.{Float}
use pound_drever_hall.Api.Response.{Value, int, float, Response, get}

-- `",".join(words)`
abbrev pub join : List Text → Text
join [] = []
join (w ∷ []) = w
join (w ∷ v ∷ words) = w ++ (b',' ∷ join (v ∷ words))

-- "CMD:name" and what follows it.
abbrev pub command : Text → Text → Text
command name rest = codes "CMD:" ++ (name ++ (codes "\n" ++ rest))

abbrev pub ints : List ℤ → Text
ints ns = codes "U:" ++ (join (map show_int ns) ++ codes "\n")

module _ {F : Type 0} ⦃fl : Float F⦄ where
  abbrev pub floats : List F → Text
  floats xs = codes "F:" ++ (join (map fl.repr xs) ++ codes "\n")

  -- `r.get("status", -1)`, `r.get(key, 0)` and `r.get(key, float("nan"))`
  abbrev pub status_of : Response F → Value F
  status_of r = get r (codes "status") (int (negsuc 0))

  abbrev pub code_of : Response F → Text → Value F
  code_of r key = get r key (int (pos 0))

  abbrev pub float_of : Response F → Text → Value F
  float_of r key = get r key (float fl.nan)
