-- ===== src/Gui/Forms/Capture.antt =====
-- client/gui.py: `_FrameCapturePanel`, `_SweepRampPanel` and `_PSDPanel`.
pub mod Laws
use pound_drever_hall.Common.{
  Bool, true, false, not, ◌&&◌, Option, none, some, List, [], ◌∷◌, Text, codes, text_eq,
  if◌then◌else◌,
}
use pound_drever_hall.Common.Int.{ℤ, pos, ltb_ℤ, ◌+ℤ◌}
use pound_drever_hall.Python.Float.{Float}
use pound_drever_hall.Fir.Design.{sample_rate}
use pound_drever_hall.Api.Types
use pound_drever_hall.Api.Types.{FrameCode, DacSel, frame_code_enum, dac_sel_enum, with_name}
use pound_drever_hall.Gui.Check.{
  Message, invalid_decimation, decimation_below_one, unknown_frame_code, voltage_range,
  points_range, negative_delay, band_order, no_channel, Call, get_frame, sweep_ramp, psd, Check,
  accepted, refused, ◌>>=◌, ◌>>◌, require, forbid, int_or, int_field, within, float_field, whole,
  is_unit, flag,
}

pub record FrameForm : Type 0 where
  pub fc_var : Text
  pub dec_var : Text

abbrev pub initial_frame : FrameForm
initial_frame = record { fc_var = codes "ADC_DATA_IN"; dec_var = codes "1" }

pub record SweepForm : Type 0 where
  pub dac_sel : DacSel
  pub v0_var : Text
  pub v1_var : Text
  pub pts_var : Text
  pub delay_var : Text
  pub demod_mode : Bool
  pub plot_adc_a : Bool
  pub plot_adc_b : Bool
  pub plot_i : Bool
  pub plot_q : Bool

abbrev pub initial_sweep : SweepForm
initial_sweep = record {
  dac_sel = DacSel.dac_1;
  v0_var = codes "-1.0";
  v1_var = codes "1.0";
  pts_var = codes "1000";
  delay_var = codes "0";
  demod_mode = false;
  plot_adc_a = true;
  plot_adc_b = true;
  plot_i = true;
  plot_q = true;
}

pub data PsdMode : Type 0 where
  adc pid : PsdMode

pub record PsdForm : Type 0 where
  pub psd_mode : PsdMode
  pub plot_adc_a : Bool
  pub plot_adc_b : Bool
  pub plot_i : Bool
  pub plot_q : Bool
  pub plot_pid_in : Bool
  pub plot_err : Bool
  pub plot_pid_out : Bool
  pub dec_var : Text
  pub fstart_var : Text
  pub fstop_var : Text

abbrev pub initial_psd : PsdForm
initial_psd = record {
  psd_mode = adc;
  plot_adc_a = true;
  plot_adc_b = true;
  plot_i = true;
  plot_q = true;
  plot_pid_in = true;
  plot_err = true;
  plot_pid_out = true;
  dec_var = codes "1";
  fstart_var = codes "0";
  fstop_var = codes "5000000";
}

-- The columns whose boxes are ticked.
unfoldable pub chosen : List (Text × Bool) → List Text
chosen [] = []
chosen ((col, on) ∷ rest) = if on then col ∷ chosen rest else chosen rest

-- A call with the columns that its result is plotted by.
pub record Plotted (F : Type 0) : Type 0 where
  pub call : Call F
  pub active_cols : List Text

unfoldable pub sweep_cols : SweepForm → List Text
sweep_cols form = elim form.demod_mode [
  | true ↦ codes "demod_lpf" ∷ []
  | false ↦ chosen (
      (codes "adc_a", form.plot_adc_a)
      ∷ (codes "adc_b", form.plot_adc_b)
      ∷ (codes "i_feed", form.plot_i)
      ∷ (codes "q_feed", form.plot_q)
      ∷ [])
]

unfoldable pub psd_cols : PsdForm → FrameCode × List Text
psd_cols form = elim form.psd_mode [
  | adc ↦ (
    FrameCode.adc_data_in,
    chosen (
        (codes "adc_a", form.plot_adc_a)
        ∷ (codes "adc_b", form.plot_adc_b)
        ∷ (codes "i_feed", form.plot_i)
        ∷ (codes "q_feed", form.plot_q)
        ∷ []),
  )
  | pid ↦ (
    FrameCode.pid_io,
    chosen (
        (codes "pid_in", form.plot_pid_in)
        ∷ (codes "err", form.plot_err)
        ∷ (codes "pid_out", form.plot_pid_out)
        ∷ []),
  )
]

abbrev pub is_empty : List Text → Bool
is_empty [] = true
is_empty (_ ∷ _) = false

module _ {F : Type 0} ⦃fl : Float F⦄ where
  abbrev pub frame_code_or : Text → Check F FrameCode
  frame_code_or s = elim (with_name {E = FrameCode} s) [
    | none ↦ refused (unknown_frame_code s)
    | some fc ↦ accepted fc
  ]

  -- `_on_capture`
  pub on_capture : FrameForm → Check F (Call F)
  on_capture form = do
    dec ← int_or (invalid_decimation form.dec_var) form.dec_var
    forbid (ltb_ℤ dec (pos 1)) decimation_below_one
    fc ← frame_code_or form.fc_var
    accepted (get_frame dec (Types.int fc))

  -- The checks that every sweep makes.
  unfoldable pub check_ramp : F → F → ℤ → ℤ → Check F (Unit {0})
  check_ramp v0 v1 pts delay = do
    require (is_unit v0 && is_unit v1) voltage_range
    require (within (pos 2) (pos 16384) pts) points_range
    forbid (ltb_ℤ delay (pos 0)) negative_delay

  -- `_SweepRampPanel._on_run`
  unfoldable pub on_run_sweep : SweepForm → Check F (Plotted F)
  on_run_sweep form = do
    v0 ← float_field form.v0_var
    v1 ← float_field form.v1_var
    pts ← int_field form.pts_var
    delay ← int_field form.delay_var
    check_ramp v0 v1 pts delay
    accepted record {
      call = sweep_ramp v0 v1 pts (Types.int form.dac_sel) delay (flag form.demod_mode);
      active_cols = sweep_cols form;
    }

  unfoldable pub check_psd : PsdForm → ℤ → F → F → Check F (Unit {0})
  check_psd form dec fstart fstop = do
    forbid (ltb_ℤ dec (pos 1)) decimation_below_one
    require (fl.le (whole 0) fstart && fl.lt fstart fstop) band_order
    forbid (is_empty (psd_cols form).1) no_channel

  -- `_PSDPanel._on_run`
  unfoldable pub on_run_psd : PsdForm → Check F (Plotted F)
  on_run_psd form = do
    dec ← int_field form.dec_var
    fstart ← float_field form.fstart_var
    fstop ← float_field form.fstop_var
    check_psd form dec fstart fstop
    accepted
        record { call = psd dec (Types.int (psd_cols form).0); active_cols = (psd_cols form).1 }

  -- Whether the band goes past FPGA_FS / (2 * dec), of which the status bar warns.
  unfoldable pub exceeds_nyquist : F → ℤ → Bool
  exceeds_nyquist fstop dec = fl.lt (fl.quotient sample_rate (fl.of_int (dec +ℤ dec))) fstop
