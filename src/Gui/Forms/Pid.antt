-- ===== src/Gui/Forms/Pid.antt =====
-- client/gui.py: `_PIDPanel`.
pub mod Laws
use pound_drever_hall.Common.{
  Bool, true, false, none, some, List, [], ◌∷◌, ◌++◌, Text, codes, if◌then◌else◌,
}
use pound_drever_hall.Common.Int.{ℤ, pos, ltb_ℤ}
use pound_drever_hall.Python.Str.{contains}
use pound_drever_hall.Python.Number.{int_of}
use pound_drever_hall.Python.Float.{Float}
use pound_drever_hall.Api.Response.{Value, int, float, str}
use pound_drever_hall.Api.Commands.{PidParams}
use pound_drever_hall.Gui.Check.{
  Message, coefficient_range, dec_range, pid_alpha_range, satwidth_range, gain_range, bias_range,
  egain_range, invalid_metrics_decimation, metrics_decimation_below_one, Call, set_pid,
  control_metrics, Check, accepted, refused, dropped, ◌>>=◌, ◌>>◌, require, forbid, int_or,
  int_field, within, float_field, whole, from_to, is_unit, flag,
}

-- `_vars`, by key, with the check box and the entry for the metrics.
pub record PidForm : Type 0 where
  pub kp : Text
  pub ki : Text
  pub kd : Text
  pub sp : Text
  pub dec : Text
  pub alpha : Text
  pub sat : Text
  pub gain : Text
  pub bias : Text
  pub egain : Text
  pub en_var : Bool
  pub metrics_dec_var : Text

abbrev pub initial_pid : PidForm
initial_pid = record {
  kp = codes "0.5";
  ki = codes "0.0";
  kd = codes "0.0";
  sp = codes "0.0";
  dec = codes "100";
  alpha = codes "4";
  sat = codes "31";
  gain = codes "1.0";
  bias = codes "0.0";
  egain = codes "1.0";
  en_var = false;
  metrics_dec_var = codes "1";
}

module _ {F : Type 0} ⦃fl : Float F⦄ where
  -- The range [-32.0, 32.0).
  abbrev pub is_gain : F → Bool
  is_gain = from_to (fl.neg (whole 32)) (whole 32)

  -- The range [-1.0, 1.0).
  abbrev pub is_coefficient : F → Bool
  is_coefficient = from_to (fl.neg (whole 1)) (whole 1)

  -- The entries as numbers.
  unfoldable pub read_params : PidForm → Check F (PidParams F)
  read_params form = do
    kp ← float_field form.kp
    ki ← float_field form.ki
    kd ← float_field form.kd
    sp ← float_field form.sp
    dec ← int_field form.dec
    alpha ← int_field form.alpha
    sat ← int_field form.sat
    gain ← float_field form.gain
    bias ← float_field form.bias
    egain ← float_field form.egain
    accepted record {
      kp = kp;
      kd = kd;
      ki = ki;
      sp = sp;
      dec = dec;
      alpha = alpha;
      sat = sat;
      en = flag form.en_var;
      gain = gain;
      bias = bias;
      egain = egain;
    }

  -- The ranges, in the order in which they are checked.
  unfoldable pub check_params : PidParams F → Check F (Unit {0})
  check_params p = do
    require (is_coefficient p.kp) (coefficient_range (codes "kp") p.kp)
    require (is_coefficient p.ki) (coefficient_range (codes "ki") p.ki)
    require (is_coefficient p.kd) (coefficient_range (codes "kd") p.kd)
    require (is_coefficient p.sp) (coefficient_range (codes "sp") p.sp)
    require (within (pos 1) (pos 16383) p.dec) (dec_range p.dec)
    require (within (pos 0) (pos 15) p.alpha) (pid_alpha_range p.alpha)
    require (within (pos 15) (pos 31) p.sat) (satwidth_range p.sat)
    require (is_gain p.gain) (gain_range p.gain)
    require (is_unit p.bias) (bias_range p.bias)
    require (is_gain p.egain) (egain_range p.egain)

  unfoldable pub on_apply_pid : PidForm → Check F (Call F)
  on_apply_pid form = do p ← read_params form; check_params p; accepted (set_pid p)

  -- float(raw) if "." in raw else int(raw), or the text where that raises.
  unfoldable pub shown_param : Text → Value F
  shown_param raw =
      if contains b'.' raw
      then elim (fl.parse raw) [ some x ↦ float x | none ↦ str raw ]
      else elim (int_of raw) [ some n ↦ int n | none ↦ str raw ]

  unfoldable pub shown_params : PidForm → List (Text × Value F)
  shown_params form =
      (codes "kp", shown_param form.kp)
      ∷ (codes "ki", shown_param form.ki)
      ∷ (codes "kd", shown_param form.kd)
      ∷ (codes "sp", shown_param form.sp)
      ∷ (codes "dec", shown_param form.dec)
      ∷ (codes "alpha", shown_param form.alpha)
      ∷ (codes "sat", shown_param form.sat)
      ∷ (codes "gain", shown_param form.gain)
      ∷ (codes "bias", shown_param form.bias)
      ∷ (codes "egain", shown_param form.egain)
      ∷ (codes "en", int (flag form.en_var))
      ∷ []

  -- The question that is asked if the metrics are sampled faster than the controller runs. The
  -- check is skipped if the entry for the decimation is no number.
  abbrev confirm : Text → ℤ → Bool → Check F (Unit {0})
  confirm pid_dec dec proceed = elim (int_of pid_dec) [
    | none ↦ accepted tt
    | some d ↦ if ltb_ℤ dec d then (if proceed then accepted tt else dropped) else accepted tt
  ]

  -- `_on_metrics`, with the answer to the question.
  unfoldable pub on_metrics : PidForm → Bool → Check F (Call F)
  on_metrics form proceed = do
    dec ← int_or (invalid_metrics_decimation form.metrics_dec_var) form.metrics_dec_var
    forbid (ltb_ℤ dec (pos 1)) metrics_decimation_below_one
    confirm form.dec dec proceed
    accepted (control_metrics dec (shown_params form))
