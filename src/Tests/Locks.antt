-- ===== src/Tests/Locks.antt =====
-- Runs of the theorems on the lock of client/gui.py.
use pound_drever_hall.Common.{
  ℕ, ◌≡◌, refl, ◌↔◌, inl, inr, true, Option, none, some, List, [], ◌∷◌, map, codes, arith, length,
}
use pound_drever_hall.Common.Int.{pos, negsuc, ◌≤ℤ◌}
use pound_drever_hall.Python.Result.{ok, err, bad_literal}
use pound_drever_hall.Python.Str.{
  strip, lstrip, rstrip, is_space, is_break, splitlines, contains, partition,
}
use pound_drever_hall.Python.Number.{int_of, scan, show_int, digits}
use pound_drever_hall.Api.Response.{
  int, insert, lookup, get, coerce, read_line, read_lines, parse_response, is_zero,
}
use pound_drever_hall.Api.Transport.{
  World, execute_cmd, ssh_fetch_csv, load_csv, check_status, api_cmd,
}
use pound_drever_hall.Api.Transport.Laws.{Sent}
use pound_drever_hall.Api.Types
use pound_drever_hall.Api.Types.{DacDatSel, PidDatSel, dac_dat_sel_enum, pid_dat_sel_enum}
use pound_drever_hall.Api.Commands.{
  api_config_io, api_set_pid, api_sweep_ramp, fetch, config_io_command,
}
use pound_drever_hall.Gui.Check.{accepted, refused, points_range}
use pound_drever_hall.Gui.Forms.Pid.{PidForm, initial_pid}
use pound_drever_hall.Gui.Forms.System.{initial_routing}
use pound_drever_hall.Gui.Forms.Capture.Laws.{IsRamp}
use pound_drever_hall.Gui.Persist
use pound_drever_hall.Gui.Persist.{
  Persist, LockForm, LockParams, initial_lock, initial_persist, read_lock_params, check_period,
  on_persist_toggle, persist_tick, start_lock, lock_done,
}
use pound_drever_hall.Gui.Persist.Laws.{
  IsOneChain, IsExclusive, Step, Reach, PatientReach, patient_run-IsOneChain, Reach-IsExclusive,
  restart-two_ticks,
}
use pound_drever_hall.Api.Arrays.{column}
use pound_drever_hall.Gui.Autolock.{
  Numpy, LockPoint, LockResult, on_autolock, engage, autolock_bg, locate, lock_pid_params, slice,
  search_sweep, check_slope, steepest, search_between, window_min,
}
use pound_drever_hall.Gui.Autolock.Laws.{on_autolock-accepted_iff, persist_tick-unchecked}
use pound_drever_hall.Gui.Autolock.Wire.{Locked, autolock_bg-Locked, engage-bad_entry}
use pound_drever_hall.Tests.Numbers.{Real, real_float}
use pound_drever_hall.Tests.Server.{server, start, two_rows}

-- The first index, the second one, and a slope of 10 everywhere.
abbrev first : List Real → Option ℕ
first [] = none
first (_ ∷ _) = some 0

abbrev last : List Real → Option ℕ
last [] = none
last (_ ∷ xs) = some (length xs)

abbrev numpy : Numpy Real
numpy = record { argmax = first; argmin = last; gradient = λ sig dac. map (λ _. some (pos 10)) sig }

abbrev lock_params : LockParams Real
lock_params = record {
  v0 = some (negsuc 0);
  v1 = some (pos 1);
  pts = pos 2;
  delay = pos 0;
  peak_pts = pos 1;
  chan = codes "i_feed";
}

abbrev point : LockPoint Real
point = record { lock_point = some (negsuc 0); slope = some (pos 10); egain = some (pos 10) }

abbrev simple_lock : LockForm
simple_lock = record initial_lock { v0_var = codes "-1"; v1_var = codes "1" }

on_autolock-accepted_iff_example : (on_autolock simple_lock ≡ accepted lock_params) ↔ (
    (read_lock_params simple_lock ≡ accepted lock_params)
    × IsRamp lock_params.v0 lock_params.v1 lock_params.pts lock_params.delay
    × (pos 1 ≤ℤ lock_params.peak_pts))
on_autolock-accepted_iff_example = on_autolock-accepted_iff simple_lock lock_params

abbrev one_point : LockForm
one_point = record simple_lock { pts_var = codes "1" }

abbrev one_point_params : LockParams Real
one_point_params = record lock_params { pts = pos 1; peak_pts = pos 200 }

one_point_read : read_lock_params one_point ≡ accepted one_point_params
unfolding read_lock_params int_of strip lstrip rstrip scan is_space
one_point_read = refl

abbrev idle : Persist Real
idle = record initial_persist { persist_running = true; shown = Persist.running }

persist_tick-unchecked_example :
    (on_autolock {F = Real} one_point ≡ refused points_range)
    × ((persist_tick one_point idle).in_flight ≡ one_point_params ∷ [])
persist_tick-unchecked_example =
    persist_tick-unchecked one_point idle one_point_params refl refl one_point_read refl refl refl

-- A mode that runs, with its lock in flight.
abbrev busy_mode : Persist Real
busy_mode = record idle { persist_busy = true; in_flight = lock_params ∷ [] }

busy_mode-IsOneChain : IsOneChain busy_mode
busy_mode-IsOneChain = record {
  exclusive = refl;
  owned = inl refl;
  one = λ e. refl;
  quiet = λ e. refl;
}

legal_period : check_period {F = Real} simple_lock ≡ accepted (pos 1000)
unfolding check_period int_of strip lstrip rstrip scan is_space
legal_period = refl

restart-two_ticks_example :
    length
      (lock_done
        (on_persist_toggle simple_lock (on_persist_toggle simple_lock busy_mode))).timers.pending
    ≡ 2
restart-two_ticks_example =
    restart-two_ticks simple_lock busy_mode (pos 1000) busy_mode-IsOneChain refl refl legal_period

abbrev started : Persist Real
started = on_persist_toggle simple_lock initial_persist

patient_run-IsOneChain_example : IsOneChain (lock_done started)
unfolding on_persist_toggle check_period read_lock_params persist_tick start_lock lock_done int_of
    strip lstrip rstrip scan is_space
patient_run-IsOneChain_example = patient_run-IsOneChain (
    PatientReach.next
      (PatientReach.next PatientReach.here (Step.toggle simple_lock initial_persist) (inr refl))
      (Step.done started (omega arith)) tt)

Reach-IsExclusive_example : IsExclusive (on_persist_toggle simple_lock started)
Reach-IsExclusive_example = Reach-IsExclusive {p = initial_persist} refl (
    Reach.next (Reach.next Reach.here (Step.toggle simple_lock initial_persist))
      (Step.toggle simple_lock started))

abbrev simple_pid : PidForm
simple_pid = record initial_pid { kp = codes "0"; ki = codes "0"; kd = codes "0"; gain = codes "1" }

abbrev after_lock : World
after_lock = (autolock_bg server numpy lock_params initial_routing simple_pid start).1

abbrev lock_result : LockResult Real
lock_result = record {
  sweep = record {
    status = int (pos 0);
    num_points_cb = int (pos 0);
    samples = two_rows;
    columns = Types.sweep_columns;
  };
  chan = codes "i_feed";
  point = point;
  pid_sel = PidDatSel.i_feed;
}

lock_run :
    autolock_bg server numpy lock_params initial_routing simple_pid start
    ≡ (ok lock_result, after_lock)
unfolding autolock_bg search_sweep engage lock_pid_params column locate window_min search_between
    steepest check_slope slice api_sweep_ramp api_config_io api_set_pid fetch api_cmd check_status
    execute_cmd ssh_fetch_csv load_csv parse_response read_lines read_line insert lookup get coerce
    is_zero splitlines contains partition int_of strip lstrip rstrip scan is_space is_break show_int
    digits
lock_run = refl

autolock_bg-Locked_example :
    Locked server numpy lock_params initial_routing simple_pid start lock_result after_lock
autolock_bg-Locked_example =
    autolock_bg-Locked server numpy lock_params initial_routing simple_pid start lock_run

abbrev bad_pid : PidForm
bad_pid = record simple_pid { kp = codes "x" }

abbrev after_routing : World
after_routing = (api_config_io server (pos 1) (pos 0) (pos 0) start).1

routed : api_config_io server (pos 1) (pos 0) (pos 0) start ≡ (
  ok (record {
    status = int (pos 0);
    dac1_dat_sel_cb = int (pos 0);
    dac2_dat_sel_cb = int (pos 0);
    pid_dat_sel_cb = int (pos 0);
  }),
  after_routing,
)
unfolding api_config_io api_cmd check_status execute_cmd parse_response read_lines read_line insert
    lookup get coerce is_zero splitlines contains partition int_of strip lstrip rstrip scan is_space
    is_break show_int digits
routed = refl

bad_entry : lock_pid_params bad_pid point ≡ err (bad_literal (codes "x"))
unfolding lock_pid_params int_of strip lstrip rstrip scan is_space
bad_entry = refl

engage-bad_entry_example :
    (engage server (codes "i_feed") initial_routing bad_pid point start
      ≡ (err (bad_literal (codes "x")), after_routing))
    × Sent start (config_io_command (pos 1) (pos 0) (pos 0)) after_routing
engage-bad_entry_example =
    engage-bad_entry server (codes "i_feed") initial_routing bad_pid point start after_routing
      PidDatSel.i_feed _ (bad_literal (codes "x")) refl routed bad_entry
