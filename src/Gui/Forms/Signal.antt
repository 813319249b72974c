-- ===== src/Gui/Forms/Signal.antt =====
-- client/gui.py: `_NCOPanel`, `_RotationPanel`, `_DemodPanel` and `_FIRPanel`.
pub mod Laws
use pound_drever_hall.Common.{ℕ, Bool, false, ◌||◌, Text, List, codes}
use pound_drever_hall.Common.Int.{ℤ, pos, negsuc}
use pound_drever_hall.Python.Result.{Result, ok, err, value_error, math_domain, empty_max}
use pound_drever_hall.Python.Float.{Float}
use pound_drever_hall.Fir.Design.{sample_rate, design_lowpass}
use pound_drever_hall.Api.Types
use pound_drever_hall.Api.Types.{
  DemodRefSel, DemodInSel, FirInputSel, demod_ref_sel_enum, demod_in_sel_enum, fir_input_sel_enum,
}
use pound_drever_hall.Gui.Check.{
  Message, caught, escaped, frequency_range, phase_range, alpha_not_integer, alpha_range,
  invalid_corner, corner_range, Call, set_nco, set_rotation, config_demod, set_fir_coeffs, Check,
  accepted, refused, ◌>>=◌, ◌>>◌, require, forbid, int_or, within, float_or, float_field, whole,
  between, flag,
}

pub record NcoForm : Type 0 where
  pub freq_var : Text
  pub shift_var : Text
  pub en_var : Bool

abbrev initial_nco : NcoForm
initial_nco = record { freq_var = codes "2000000"; shift_var = codes "0"; en_var = false }

pub record DemodForm : Type 0 where
  pub ref_sel : DemodRefSel
  pub in_sel : DemodInSel
  pub alpha_var : Text

abbrev pub initial_demod : DemodForm
initial_demod = record {
  ref_sel = DemodRefSel.nco1;
  in_sel = DemodInSel.nco2;
  alpha_var = codes "8";
}

pub record FirForm : Type 0 where
  pub input_sel : FirInputSel
  pub corner_var : Text
  pub window_var : Text

abbrev pub initial_fir : FirForm
initial_fir = record {
  input_sel = FirInputSel.adc1;
  corner_var = codes "5000000";
  window_var = codes "hann";
}

abbrev pub fir_ntaps : ℕ
fir_ntaps = 32

module _ {F : Type 0} ⦃fl : Float F⦄ where
  -- FS / 2
  abbrev pub half_rate : F
  half_rate = fl.quotient sample_rate (whole 2)

  pub on_apply_nco : NcoForm → Check F (Call F)
  on_apply_nco form = do
    freq ← float_field form.freq_var
    shift ← float_field form.shift_var
    forbid (fl.le freq (whole 0) || fl.lt half_rate freq) frequency_range
    require (between (fl.of_int (negsuc 179)) (whole 180) shift) phase_range
    accepted (set_nco freq shift (flag form.en_var))

  -- The angle is the text of the entry: any number is accepted.
  unfoldable pub on_apply_rotation : Text → Check F (Call F)
  on_apply_rotation angle_var = do theta ← float_field angle_var; accepted (set_rotation theta)

  pub on_apply_demod : DemodForm → Check F (Call F)
  on_apply_demod form = do
    alpha ← int_or alpha_not_integer form.alpha_var
    require (within (pos 0) (pos 15) alpha) alpha_range
    accepted (config_demod (Types.int form.ref_sel) (Types.int form.in_sel) alpha)

  -- A `ValueError` of the design is shown.
  abbrev designed : Result (List F) → Check F (List F)
  designed (ok coeffs) = accepted coeffs
  designed (err (value_error m)) = refused (caught (value_error m))
  designed (err math_domain) = refused (caught math_domain)
  designed (err empty_max) = refused (caught empty_max)
  designed (err e) = refused (escaped e)

  unfoldable pub on_apply_fir : FirForm → Check F (Call F)
  on_apply_fir form = do
    corner ← float_or (invalid_corner form.corner_var) form.corner_var
    forbid (fl.le corner (whole 0) || fl.le half_rate corner) corner_range
    coeffs ← designed (design_lowpass fir_ntaps corner form.window_var)
    accepted (set_fir_coeffs coeffs (Types.int form.input_sel))
