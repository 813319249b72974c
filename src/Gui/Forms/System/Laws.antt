-- ===== src/Gui/Forms/System/Laws.antt =====
-- client/gui.py: which values the system panel lets through.
use pound_drever_hall.Common.{ℕ, ◌≡◌, ◌↔◌, ◌≤◌, true, some, Text, arith}
use pound_drever_hall.Common.Int.{pos}
use pound_drever_hall.Python.Str.{strip}
use pound_drever_hall.Python.Number.{int_base0}
use pound_drever_hall.Python.Float.{Float, HasNan}
use pound_drever_hall.Api.Types
use pound_drever_hall.Api.Types.{DacSel, dac_sel_enum}
use pound_drever_hall.Gui.Check.{
  accepted, refused, Call, set_dac, set_led, dac_range, is_unit, whole,
}
use pound_drever_hall.Gui.Forms.System.{SystemForm, dac_call, on_set_led}

module _ {F : Type 0} ⦃fl : Float F⦄ where
  -- A DAC is set exactly if the entry is a number in [-1, 1], and to that number.
  dac_call-accepted_iff :
      (var : Text) (sel : DacSel) (c : Call F)
      → (dac_call var sel ≡ accepted c)
        ↔ ((v : F) × (fl.parse var ≡ some v) × (is_unit v ≡ true) × (c ≡ set_dac v (Types.int sel)))
  unfolding dac_call
  dac_call-accepted_iff var sel c = (λ h. ground arith, λ (v, e, u, made). ground arith)

  -- Where no comparison with NaN holds, an entry that reads as NaN is refused for a DAC.
  pub dac_call-nan :
      (nan : HasNan fl) (var : Text) (sel : DacSel)
      → fl.parse var ≡ some fl.nan
      → dac_call var sel ≡ refused (dac_range fl.nan)
  unfolding dac_call
  dac_call-nan nan var sel h = ground (arith, nan.le-nan (fl.neg (whole 1)))

  -- The LEDs are set exactly if the entry, without the space around it, is an integer literal, in
  -- any of Python's bases, of a byte, and to that byte.
  pub on_set_led-accepted_iff :
      (form : SystemForm) (c : Call F)
      → (on_set_led form ≡ accepted c) ↔ (
          (n : ℕ) × (int_base0 (strip form.led_var) ≡ some (pos n))
          × (n ≤ 255)
          × (c ≡ set_led (pos n)))
  unfolding on_set_led
  on_set_led-accepted_iff form c = (λ h. ground arith, λ (n, e, u, made). ground arith)
