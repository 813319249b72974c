-- ===== src/Api/Types/Enum.antt =====
-- What the code uses of `IntEnum`.
use pound_drever_hall.Common.{
  ℕ, Option, none, some, List, [], ◌∷◌, Text, text_eq, ◌==◌, if◌then◌else◌,
}
use pound_drever_hall.Common.Int.{ℤ, pos, negsuc}

-- What `IntEnum` gives each of them: the members in order, their names and their values.
pub record IntEnum (E : Type 0) : Type 0 where
  pub members : List E
  pub value : E → ℕ
  pub name : E → Text

abbrev pub with_value : {E : Type 0} → (E → ℕ) → ℕ → List E → Option E
with_value value n [] = none
with_value value n (e ∷ es) =
    let rest = with_value value n es in if value e == n then some e else rest

-- `E(n)`, where `none` is the `ValueError`.
abbrev pub of_value : {E : Type 0} ⦃i : IntEnum E⦄ → ℤ → Option E
of_value ⦃i⦄ (pos n) = with_value i.value n i.members
of_value (negsuc n) = none

-- `int(e)`
abbrev pub int : {E : Type 0} ⦃i : IntEnum E⦄ → E → ℤ
int ⦃i⦄ e = pos (i.value e)

abbrev named : {E : Type 0} → (E → Text) → Text → List E → Option E
named name s [] = none
named name s (e ∷ es) = let rest = named name s es in if text_eq (name e) s then some e else rest

-- `E[name]`, where `none` is the `KeyError`.
unfoldable pub with_name : {E : Type 0} ⦃i : IntEnum E⦄ → Text → Option E
with_name ⦃i⦄ s = named i.name s i.members
