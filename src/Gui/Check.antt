-- ===== src/Gui/Check.antt =====
-- client/gui.py: what a handler does first. It reads its fields and either refuses, with a message
-- for the status bar, or goes on to a call of the API.
use pound_drever_hall.Common.{ℕ, Bool, true, false, none, some, List, Text, ◌&&◌, ◌≡◌, refl}
use pound_drever_hall.Common.Int.{ℤ, pos, leb_ℤ}
use pound_drever_hall.Python.Result.{Error, bad_literal}
use pound_drever_hall.Python.Number.{int_of}
use pound_drever_hall.Python.Float.{Float}
use pound_drever_hall.Api.Response.{Value}
use pound_drever_hall.Api.Commands.{PidParams}

-- The messages of the refusals, with the values that they show.
pub data Message (F : Type 0) : Type 0 where
  -- `str(e)` of an exception that was caught
  caught : Error → Message F
  -- an exception that the handler does not catch
  escaped : Error → Message F
  invalid_dac invalid_led invalid_corner invalid_decimation invalid_metrics_decimation :
      Text → Message F
  dac_range : F → Message F
  led_range dec_range pid_alpha_range satwidth_range : ℤ → Message F
  frequency_range phase_range corner_range : Message F
  alpha_not_integer alpha_range : Message F
  coefficient_range : Text → F → Message F
  gain_range bias_range egain_range : F → Message F
  decimation_below_one metrics_decimation_below_one : Message F
  unknown_frame_code : Text → Message F
  voltage_range points_range negative_delay peak_points_below_one : Message F
  band_order no_channel : Message F
  period_not_integer period_below_100 : Message F

-- The calls that handlers run in the background.
pub data Call (F : Type 0) : Type 0 where
  reset_fpga get_adc : Call F
  set_dac : F → ℤ → Call F
  set_led : ℤ → Call F
  config_io : ℤ → ℤ → ℤ → Call F
  set_nco : F → F → ℤ → Call F
  set_rotation : F → Call F
  config_demod : ℤ → ℤ → ℤ → Call F
  set_fir_coeffs : List F → ℤ → Call F
  set_pid : PidParams F → Call F
  control_metrics : ℤ → List (Text × Value F) → Call F
  get_frame : ℤ → ℤ → Call F
  sweep_ramp : F → F → ℤ → ℤ → ℤ → ℤ → Call F
  psd : ℤ → ℤ → Call F

pub data Check (F : Type 0) (A : Type 0) : Type 0 where
  accepted : A → Check F A
  refused : Message F → Check F A
  -- a question was answered by no
  dropped : Check F A

module _ {F : Type 0} where
  infixl 5 ◌>>=◌ ◌>>◌
  abbrev pub ◌>>=◌ : {A B : Type 0} → Check F A → (A → Check F B) → Check F B
  accepted a >>= f = f a
  refused m >>= f = refused m
  dropped >>= f = dropped

  abbrev pub ◌>>◌ : {B : Type 0} → Check F (Unit {0}) → Check F B → Check F B
  m >> k = m >>= λ _. k

  -- A handler that goes on has gone on at each of its steps.
  pub >>=-eq-accepted :
      {A B : Type 0} (m : Check F A) (f : A → Check F B) {b : B}
      → (m >>= f) ≡ accepted b
      → (a : A) × (m ≡ accepted a) × (f a ≡ accepted b)
  >>=-eq-accepted (accepted a) f h = (a, refl, h)
  >>=-eq-accepted (refused m) f h = cc
  >>=-eq-accepted dropped f h = cc

  pub accepted-injective :
      {A : Type 0} {a b : A} → ◌≡◌ {A = Check F A} (accepted a) (accepted b) → a ≡ b
  accepted-injective h = cc

  -- `if not test: self.err(message); return`
  abbrev pub require : Bool → Message F → Check F (Unit {0})
  require true m = accepted tt
  require false m = refused m

  -- `if test: self.err(message); return`
  abbrev pub forbid : Bool → Message F → Check F (Unit {0})
  forbid true m = refused m
  forbid false m = accepted tt

  -- `int(text)`, with the message where it raises
  abbrev pub int_or : Message F → Text → Check F ℤ
  int_or m s = elim (int_of s) [ none ↦ refused m | some n ↦ accepted n ]

  -- `int(text)` where the exception itself is shown
  abbrev pub int_field : Text → Check F ℤ
  int_field s = int_or (caught (bad_literal s)) s

-- `lo <= n <= hi`
abbrev pub within : ℤ → ℤ → ℤ → Bool
within lo hi n = leb_ℤ lo n && leb_ℤ n hi

module _ {F : Type 0} ⦃fl : Float F⦄ where
  abbrev pub float_or : Message F → Text → Check F F
  float_or m s = elim (fl.parse s) [ none ↦ refused m | some x ↦ accepted x ]

  abbrev pub float_field : Text → Check F F
  float_field s = float_or (caught (bad_literal s)) s

  abbrev pub whole : ℕ → F
  whole n = fl.of_int (pos n)

  -- `lo <= x <= hi` and `lo <= x < hi`
  abbrev pub between : F → F → F → Bool
  between lo hi x = fl.le lo x && fl.le x hi

  abbrev pub from_to : F → F → F → Bool
  from_to lo hi x = fl.le lo x && fl.lt x hi

  -- The range [-1.0, 1.0].
  abbrev pub is_unit : F → Bool
  is_unit = between (fl.neg (whole 1)) (whole 1)

-- `int(var.get())` of a check box
abbrev pub flag : Bool → ℤ
flag true = pos 1
flag false = pos 0
