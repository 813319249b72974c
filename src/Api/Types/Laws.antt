-- ===== src/Api/Types/Laws.antt =====
-- The enumerations and their values determine one another.
use pound_drever_hall.Common.{
  ℕ, ◌≡◌, refl, ap, inl, inr, some, List, [], ◌∷◌, Bool-cases, ==_iff, ◌==◌,
}
use mathlib.Core.Option.{some-injective}
use pound_drever_hall.Common.Int.{ℤ, pos, negsuc}
use pound_drever_hall.Api.Types.Enum.{IntEnum, with_value, of_value, int}
use pound_drever_hall.Api.Types.Frames.{FrameCode, frame_code_enum}
use pound_drever_hall.Api.Types.Selectors.{
  FirInputSel, DacSel, DacDatSel, PidDatSel, DemodRefSel, DemodInSel, CsSel, fir_input_sel_enum,
  dac_sel_enum, dac_dat_sel_enum, pid_dat_sel_enum, demod_ref_sel_enum, demod_in_sel_enum,
  cs_sel_enum,
}

with_value-eq_some :
    {E : Type 0} (value : E → ℕ) (n : ℕ) (es : List E) {e : E}
    → with_value value n es ≡ some e
    → value e ≡ n
with_value-eq_some value n [] h = cc
with_value-eq_some value n (e ∷ es) h = elim (Bool-cases (value e == n)) [
  | inl same ↦ rw (← some-injective _ _ (rw same at h)) ((==_iff _ _).0 same)
  | inr other ↦ with_value-eq_some value n es (rw other at h)
]

-- A member found by its value has that value.
pub int-of_value : {E : Type 0} ⦃i : IntEnum E⦄ (n : ℤ) {e : E} → of_value n ≡ some e → int e ≡ n
int-of_value ⦃i⦄ (pos n) h = ap pos (with_value-eq_some i.value n i.members h)
int-of_value (negsuc n) h = cc

-- Every member is found by its value.
abbrev IsFound : (E : Type 0) ⦃i : IntEnum E⦄ → Type 0
IsFound E = (e : E) → of_value (int e) ≡ some e

-- Every member of a frame code and of the seven selectors is found by its own value.
members-IsFound :
    IsFound FrameCode
    × IsFound FirInputSel
    × IsFound DacSel
    × IsFound DacDatSel
    × IsFound PidDatSel
    × IsFound DemodRefSel
    × IsFound DemodInSel
    × IsFound CsSel
members-IsFound = (
  elim [ FrameCode.adc_data_in ↦ refl | _ ↦ refl ],
  elim [ FirInputSel.adc1 ↦ refl | _ ↦ refl ],
  elim [ DacSel.dac_1 ↦ refl | _ ↦ refl ],
  elim [ DacDatSel.register ↦ refl | _ ↦ refl ],
  elim [ PidDatSel.i_feed ↦ refl | _ ↦ refl ],
  elim [ DemodRefSel.nco1 ↦ refl | _ ↦ refl ],
  elim [ DemodInSel.nco1 ↦ refl | _ ↦ refl ],
  elim [ CsSel.adc_a ↦ refl | _ ↦ refl ],
)
