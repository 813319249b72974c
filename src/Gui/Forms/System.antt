-- ===== src/Gui/Forms/System.antt =====
-- client/gui.py: `_SystemPanel` and `_IORoutingPanel`.
pub mod Laws
use pound_drever_hall.Common.{Bool, true, false, ◌||◌, Option, none, some, [], Text, codes}
use pound_drever_hall.Common.Int.{ℤ, pos}
use pound_drever_hall.Python.Str.{strip}
use pound_drever_hall.Python.Number.{int_base0}
use pound_drever_hall.Python.Float.{Float}
use pound_drever_hall.Api.Types
use pound_drever_hall.Api.Types.{
  DacSel, DacDatSel, PidDatSel, of_value, dac_sel_enum, dac_dat_sel_enum, pid_dat_sel_enum,
}
use pound_drever_hall.Gui.Check.{
  Message, invalid_dac, dac_range, invalid_led, led_range, Call, reset_fpga, get_adc, set_dac,
  set_led, config_io, Check, accepted, refused, dropped, ◌>>=◌, ◌>>◌, require, within, float_or,
  is_unit,
}

-- The entries of the system panel.
pub record SystemForm : Type 0 where
  pub dac1_var : Text
  pub dac2_var : Text
  pub led_var : Text

abbrev pub initial_system : SystemForm
initial_system = record { dac1_var = codes "0.0"; dac2_var = codes "0.0"; led_var = codes "0" }

module _ {F : Type 0} ⦃fl : Float F⦄ where
  -- `_on_reset`: nothing happens unless the question is answered by yes.
  unfoldable pub on_reset : Bool → Check F (Call F)
  on_reset confirmed = elim confirmed [ true ↦ accepted reset_fpga | false ↦ dropped ]

  unfoldable pub on_read_adc : Check F (Call F)
  on_read_adc = accepted get_adc

  -- `_dac_call`
  pub dac_call : Text → DacSel → Check F (Call F)
  dac_call var sel = do
    v ← float_or (invalid_dac var) var
    require (is_unit v) (dac_range v)
    accepted (set_dac v (Types.int sel))

  unfoldable pub on_set_dac1 : SystemForm → Check F (Call F)
  on_set_dac1 form = dac_call form.dac1_var DacSel.dac_1

  unfoldable pub on_set_dac2 : SystemForm → Check F (Call F)
  on_set_dac2 form = dac_call form.dac2_var DacSel.dac_2

  -- `int(raw, 0)`
  abbrev led_value : Text → Check F ℤ
  led_value raw = elim (int_base0 raw) [ none ↦ refused (invalid_led raw) | some v ↦ accepted v ]

  pub on_set_led : SystemForm → Check F (Call F)
  on_set_led form = do
    v ← led_value (strip form.led_var)
    require (within (pos 0) (pos 255) v) (led_range v)
    accepted (set_led v)

-- The choices of the routing panel.
pub record RoutingForm : Type 0 where
  pub dac1_sel : DacDatSel
  pub dac2_sel : DacDatSel
  pub pid_sel : PidDatSel

abbrev pub initial_routing : RoutingForm
initial_routing = record {
  dac1_sel = DacDatSel.register;
  dac2_sel = DacDatSel.register;
  pid_sel = PidDatSel.i_feed;
}

unfoldable pub on_apply_routing : {F : Type 0} → RoutingForm → Check F (Call F)
on_apply_routing form =
    accepted
      (config_io (Types.int form.dac1_sel) (Types.int form.dac2_sel) (Types.int form.pid_sel))
