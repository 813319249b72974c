-- ===== src/Gui/Autolock/Sequence.antt =====
-- client/gui.py: `_on_autolock` and `_autolock_bg`, from the sweep to the controller.
use pound_drever_hall.Common.{ℕ, Option, none, some, Text, codes, text_eq, if◌then◌else◌}
use pound_drever_hall.Common.Int.{ℤ, pos, ltb_ℤ}
use pound_drever_hall.Python.Result.{Error, value_error, bad_literal, key_error, Result, ok, err}
use pound_drever_hall.Python.Result
use pound_drever_hall.Python.Number.{int_of}
use pound_drever_hall.Python.Float.{Float}
use pound_drever_hall.Api.Types
use pound_drever_hall.Api.Types.{
  DacSel, DacDatSel, PidDatSel, dac_sel_enum, dac_dat_sel_enum, pid_dat_sel_enum, sweep_columns,
}
use pound_drever_hall.Api.Transport.{lift, Outside, Api, ◌>>=◌, return}
use pound_drever_hall.Api.Results.{SweepRampResult}
use pound_drever_hall.Api.Commands.{
  PidParams, api_config_io, api_set_pid, api_sweep_ramp, default_remote_dir,
}
use pound_drever_hall.Gui.Check
use pound_drever_hall.Gui.Check.{
  Check, accepted, forbid, float_field, int_field, peak_points_below_one, whole,
}
use pound_drever_hall.Gui.Forms.Pid.{PidForm}
use pound_drever_hall.Gui.Forms.System.{RoutingForm}
use pound_drever_hall.Gui.Forms.Capture.{check_ramp}
use pound_drever_hall.Gui.Persist.{LockForm, LockParams, read_lock_params}
use pound_drever_hall.Api.Arrays.{label_index, or_raise, column}
use pound_drever_hall.Gui.Autolock.Search.{Numpy, LockPoint, locate}

-- `_CHAN_TO_PID_SEL`
abbrev pub chan_to_pid_sel : Text → Option PidDatSel
chan_to_pid_sel chan =
    if text_eq chan (codes "adc_a")
    then some PidDatSel.adc_a
    else if text_eq chan (codes "adc_b")
    then some PidDatSel.adc_b
    else if text_eq chan (codes "i_feed")
    then some PidDatSel.i_feed
    else if text_eq chan (codes "q_feed")
    then some PidDatSel.q_feed
    else none

pub record LockResult (F : Type 0) : Type 0 where
  pub sweep : SweepRampResult F
  pub chan : Text
  pub point : LockPoint F
  pub pid_sel : PidDatSel

-- `SWEEP_COLUMNS.index(chan)`
abbrev pub column_index : Text → Result ℕ
column_index chan = label_index chan sweep_columns

abbrev pub int_at : Text → Result ℤ
int_at s = or_raise (bad_literal s) (int_of s)

module _ {F : Type 0} ⦃fl : Float F⦄ where
  -- `_on_autolock`
  unfoldable pub on_autolock : LockForm → Check F (LockParams F)
  on_autolock form = Check.◌>>=◌ (read_lock_params form) λ p.
      Check.◌>>=◌ (check_ramp p.v0 p.v1 p.pts p.delay)
        λ _. Check.◌>>=◌ (forbid (ltb_ℤ p.peak_pts (pos 1)) peak_points_below_one) λ _. accepted p

  abbrev pub float_at : Text → Result F
  float_at s = or_raise (bad_literal s) (fl.parse s)

  -- The controller's entries, but for those that the lock sets itself.
  unfoldable pub lock_pid_params : PidForm → LockPoint F → Result (PidParams F)
  lock_pid_params form point = Result.◌>>=◌ (float_at form.kp) λ kp.
      Result.◌>>=◌ (float_at form.ki) λ ki. Result.◌>>=◌ (float_at form.kd) λ kd.
        Result.◌>>=◌ (int_at form.dec) λ dec. Result.◌>>=◌ (int_at form.alpha) λ alpha.
          Result.◌>>=◌ (int_at form.sat) λ sat. Result.◌>>=◌ (float_at form.gain) λ gain.
            ok record {
              kp = kp;
              kd = kd;
              ki = ki;
              sp = whole 0;
              dec = dec;
              alpha = alpha;
              sat = sat;
              en = pos 1;
              gain = gain;
              bias = point.lock_point;
              egain = point.egain;
            }

  module _ (np : Numpy F) where
    -- Steps 2 to 5 of `_autolock_bg`, on what the sweep has returned.
    unfoldable pub search_sweep : LockParams F → SweepRampResult F → Result (LockPoint F)
    search_sweep p r = Result.◌>>=◌ (column_index p.chan) λ col_idx.
        Result.◌>>=◌ (column col_idx r.samples)
          λ sig. Result.◌>>=◌ (column 0 r.samples) λ dac_v. locate np sig dac_v p.peak_pts

  module _ (out : Outside F) where
    abbrev pub lock_sweep : LockParams F → Api (SweepRampResult F)
    lock_sweep p =
        api_sweep_ramp out p.v0 p.v1 p.pts (Types.int DacSel.dac_1) p.delay (pos 0)
          default_remote_dir

    -- Steps 6 and 7: the routing is configured first, and the controller's entries are read then.
    unfoldable pub engage : Text → RoutingForm → PidForm → LockPoint F → Api PidDatSel
    engage chan routing pid point = do
      pid_sel ← lift (or_raise (key_error chan) (chan_to_pid_sel chan))
      _ ←
          api_config_io out (Types.int DacDatSel.pid) (Types.int routing.dac2_sel)
            (Types.int pid_sel)
      params ← lift (lock_pid_params pid point)
      _ ← api_set_pid out params
      return pid_sel

  module _ (out : Outside F) (np : Numpy F) where
    -- `_autolock_bg`
    unfoldable pub autolock_bg : LockParams F → RoutingForm → PidForm → Api (LockResult F)
    autolock_bg p routing pid = do
      r ← lock_sweep out p
      point ← lift (search_sweep np p r)
      pid_sel ← engage out p.chan routing pid point
      return record { sweep = r; chan = p.chan; point = point; pid_sel = pid_sel }
