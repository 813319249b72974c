-- ===== src/Gui/Persist.antt =====
-- client/gui.py: the persistent mode of `_AutolockPanel`, which locks again and again. The ticks are
-- timers of the event loop, and each lock runs in a thread of its own.
pub mod Laws
use pound_drever_hall.Common.{
  ℕ, Bool, true, false, Option, none, some, List, [], ◌∷◌, drop, Text, codes, if◌then◌else◌,
}
use pound_drever_hall.Common.Int.{ℤ, pos, ltb_ℤ}
use pound_drever_hall.Python.Number.{int_of}
use pound_drever_hall.Python.Float.{Float}
use pound_drever_hall.Gui.Check.{
  Message, period_not_integer, period_below_100, Check, accepted, refused, dropped, ◌>>=◌, ◌>>◌,
  int_or, int_field, float_field, forbid,
}
use pound_drever_hall.Gui.Window.{Timers, after, after_cancel, cancel_any}

-- The label of the persistent mode and that of its button go with its state.
pub data Shown : Type 0 where
  stopped running stopped_invalid_params : Shown

-- The entries that a tick reads.
pub record LockForm : Type 0 where
  pub v0_var : Text
  pub v1_var : Text
  pub pts_var : Text
  pub delay_var : Text
  pub peak_pts_var : Text
  pub chan_var : Text
  pub persist_ms_var : Text

abbrev pub initial_lock : LockForm
initial_lock = record {
  v0_var = codes "-1.0";
  v1_var = codes "1.0";
  pts_var = codes "1000";
  delay_var = codes "0";
  peak_pts_var = codes "200";
  chan_var = codes "i_feed";
  persist_ms_var = codes "1000";
}

pub record LockParams (F : Type 0) : Type 0 where
  pub v0 : F
  pub v1 : F
  pub pts : ℤ
  pub delay : ℤ
  pub peak_pts : ℤ
  pub chan : Text

-- `_persist_running`, `_persist_busy` and `_persist_after_id`, the timers of the ticks, and the locks
-- that ticks have started and that are not finished.
pub record Persist (F : Type 0) : Type 0 where
  pub persist_running : Bool
  pub persist_busy : Bool
  pub persist_after_id : Option ℕ
  pub shown : Shown
  pub timers : Timers
  pub in_flight : List (LockParams F)

abbrev pub initial_persist : {F : Type 0} → Persist F
initial_persist = record {
  persist_running = false;
  persist_busy = false;
  persist_after_id = none;
  shown = stopped;
  timers = record { pending = []; next_id = 0 };
  in_flight = [];
}

-- `self._persist_after_id = self.after(ms, self._persist_tick)`
pub schedule : {F : Type 0} → Persist F → Persist F
schedule p =
    let (id, timers) = after p.timers in record p { persist_after_id = some id; timers = timers }

-- `int(self._persist_ms_var.get())`, at least 100
unfoldable pub check_period : {F : Type 0} → LockForm → Check F ℤ
check_period form = do
  ms ← int_or period_not_integer form.persist_ms_var
  forbid (ltb_ℤ ms (pos 100)) period_below_100
  accepted ms

module _ {F : Type 0} ⦃fl : Float F⦄ where
  -- The entries as numbers; a tick makes no other check.
  unfoldable pub read_lock_params : LockForm → Check F (LockParams F)
  read_lock_params form = do
    v0 ← float_field form.v0_var
    v1 ← float_field form.v1_var
    pts ← int_field form.pts_var
    delay ← int_field form.delay_var
    peak_pts ← int_field form.peak_pts_var
    accepted record {
      v0 = v0;
      v1 = v1;
      pts = pts;
      delay = delay;
      peak_pts = peak_pts;
      chan = form.chan_var;
    }

  -- What a tick does when no lock is in flight.
  unfoldable pub start_lock : Check F (LockParams F) → Persist F → Persist F
  start_lock (accepted params) p = record p {
    persist_busy = true;
    in_flight = params ∷ p.in_flight;
  }
  start_lock (refused m) p = record p { persist_running = false; shown = stopped_invalid_params }
  start_lock dropped p = p

  -- `_persist_tick`
  unfoldable pub persist_tick : LockForm → Persist F → Persist F
  persist_tick form p =
      if p.persist_running
      then if p.persist_busy then schedule p else start_lock (read_lock_params form) p
      else p

  -- The event loop takes a tick that is due and runs it.
  pub fire_tick : ℕ → LockForm → Persist F → Persist F
  fire_tick id form p = persist_tick form (record p { timers = after_cancel id p.timers })

  abbrev start : Check F ℤ → LockForm → Persist F → Persist F
  start (accepted ms) form p =
      persist_tick form (record p { persist_running = true; shown = running })
  start _ form p = p

  abbrev stop : Persist F → Persist F
  stop p = record p {
    persist_running = false;
    persist_after_id = none;
    shown = stopped;
    timers = cancel_any p.persist_after_id p.timers;
  }

  -- `_on_persist_toggle`
  unfoldable pub on_persist_toggle : LockForm → Persist F → Persist F
  on_persist_toggle form p = if p.persist_running then stop p else start (check_period form) form p

-- The end of a lock, the same for `on_ok` and `on_err`.
unfoldable pub lock_done : {F : Type 0} → Persist F → Persist F
lock_done p =
    let q = record p { persist_busy = false; in_flight = drop 1 p.in_flight } in
    if q.persist_running then schedule q else q
