-- ===== src/Gui/Autolock/Wire.antt =====
-- client/gui.py: what a lock sends.
use pound_drever_hall.Common.{ℕ, arith, ◌≡◌, refl, ap, subst, ◌∙◌, some, List, Text}
use pound_drever_hall.Common.Int.{pos}
use pound_drever_hall.Python.Result
use pound_drever_hall.Python.Result.{Error, Result, ok, err, bad_literal, key_error, value_error}
use pound_drever_hall.Python.Float.{Float}
use pound_drever_hall.Api.Types
use pound_drever_hall.Api.Types.{
  DacSel, DacDatSel, PidDatSel, dac_sel_enum, dac_dat_sel_enum, pid_dat_sel_enum, sweep_columns,
}
use pound_drever_hall.Api.Transport.{lift, World, Outside, Api, ◌>>=◌, return}
use pound_drever_hall.Api.Transport.Laws.{ok-injective, Sent, >>=-at-ok, >>=-eq-ok, >>=-eq-return}
use pound_drever_hall.Api.Commands.Captures.Laws.{api_sweep_ramp-ok}
use pound_drever_hall.Api.Commands.Registers.Laws.{api_config_io-Sent, api_set_pid-Sent}
use pound_drever_hall.Api.Results.{SweepRampResult, ConfigIoResult}
use pound_drever_hall.Api.Commands.{
  PidParams, api_config_io, api_set_pid, default_remote_dir, sweep_command, config_io_command,
  set_pid_command,
}
use pound_drever_hall.Gui.Check.{whole}
use pound_drever_hall.Gui.Forms.Pid.{PidForm}
use pound_drever_hall.Gui.Forms.System.{RoutingForm}
use pound_drever_hall.Gui.Persist.{LockParams}
use pound_drever_hall.Api.Arrays.{or_raise, or_raise-ok, column}
use pound_drever_hall.Gui.Autolock.Search.{Numpy, LockPoint, locate}
use pound_drever_hall.Gui.Autolock.Laws.{IsSound, locate-IsSound}
use pound_drever_hall.Gui.Autolock.Sequence.{
  LockResult, chan_to_pid_sel, lock_pid_params, column_index, search_sweep, lock_sweep, engage,
  autolock_bg,
}

-- A step that may raise changes nothing.
lift-eq-ok :
    {A B : Type 0} (r : Result A) (f : A → Api B) (w : World) {b : B} {w' : World}
    → (lift r >>= f) w ≡ (ok b, w')
    → (a : A) × (r ≡ ok a) × (f a w ≡ (ok b, w'))
lift-eq-ok (ok a) f w h = (a, refl, h)
lift-eq-ok (err e) f w h = cc

-- What holds of a value and a world holds of what `return` gives there.
return-subst :
    {A : Type 0} (P : A → World → Type 0) (a : A) (u : World) {b : A} {w : World}
    → return a u ≡ (ok b, w)
    → P a u
    → P b w
return-subst P a u h x =
    let value = ok-injective (ap (λ p. p.0) h) in
    let world = ap (λ p. p.1) h in subst (P _) world (subst (λ a. P a u) value x)

module _ {F : Type 0} ⦃fl : Float F⦄ where
  abbrev lock_sweep_command : LockParams F → Text
  lock_sweep_command p = sweep_command p.v0 p.v1 p.pts (Types.int DacSel.dac_1) p.delay (pos 0)

module _ {F : Type 0} ⦃fl : Float F⦄ where
  -- The parameters engage the controller at the lock point.
  pub record IsEngaged (point : LockPoint F) (params : PidParams F) : Type 0 where
    pub on : params.en ≡ pos 1
    pub no_setpoint : params.sp ≡ whole 0
    pub biased : params.bias ≡ point.lock_point
    pub scaled : params.egain ≡ point.egain

  lock_pid_params-IsEngaged :
      (pid : PidForm) (point : LockPoint F) {params : PidParams F}
      → lock_pid_params pid point ≡ ok params
      → IsEngaged point params
  unfolding lock_pid_params
  lock_pid_params-IsEngaged pid point h = record {
    on = ground arith;
    no_setpoint = ground arith;
    biased = ground arith;
    scaled = ground arith;
  }

module _ {F : Type 0} ⦃fl : Float F⦄ (np : Numpy F) where
  search_sweep-IsSound :
      (p : LockParams F) (r : SweepRampResult F) {point : LockPoint F}
      → search_sweep np p r ≡ ok point
      → (j : ℕ) × (sig : List F) × (dac_v : List F) × (column_index p.chan ≡ ok j)
        × (column j r.samples ≡ ok sig)
        × (column 0 r.samples ≡ ok dac_v)
        × IsSound np sig dac_v p.peak_pts point
  unfolding search_sweep
  search_sweep-IsSound p r h =
      let (j, c, h1) =
        Result.>>=-eq-ok (column_index p.chan)
          (λ j.
            Result.◌>>=◌ (column j r.samples)
              λ sig. Result.◌>>=◌ (column 0 r.samples) λ dac_v. locate np sig dac_v p.peak_pts)
          h in
      let (sig, s, h2) =
        Result.>>=-eq-ok (column j r.samples)
          (λ sig. Result.◌>>=◌ (column 0 r.samples) λ dac_v. locate np sig dac_v p.peak_pts) h1 in
      let (dac_v, e, h3) =
        Result.>>=-eq-ok (column 0 r.samples) (λ dac_v. locate np sig dac_v p.peak_pts) h2 in
      (j, sig, dac_v, c, s, e, locate-IsSound np sig dac_v p.peak_pts h3)

module _ {F : Type 0} ⦃fl : Float F⦄ (out : Outside F) where
  pub engage-ok :
      (chan : Text) (routing : RoutingForm) (pid : PidForm) (point : LockPoint F) (w : World)
      {sel : PidDatSel} {w' : World}
      → engage out chan routing pid point w ≡ (ok sel, w')
      → (v : World) × (params : PidParams F) × (chan_to_pid_sel chan ≡ some sel)
        × (lock_pid_params pid point ≡ ok params)
        × Sent w
            (config_io_command
              (Types.int DacDatSel.pid)
              (Types.int routing.dac2_sel)
              (Types.int sel))
            v
        × Sent v (set_pid_command params) w'
  unfolding engage
  engage-ok chan routing pid point w h =
      let io : PidDatSel → Api (ConfigIoResult F) = λ s.
        api_config_io out (Types.int DacDatSel.pid) (Types.int routing.dac2_sel) (Types.int s) in
      let rest : PidDatSel → Api PidDatSel = λ s.
        lift (lock_pid_params pid point) >>= λ params. api_set_pid out params >>= λ _. return s in
      let (s, chosen, h1) =
        lift-eq-ok (or_raise (key_error chan) (chan_to_pid_sel chan)) (λ s. io s >>= λ _. rest s) w
          h in
      let (_, v, routed, h2) = >>=-eq-ok (io s) (λ _. rest s) w h1 in
      let (params, read, h3) =
        lift-eq-ok (lock_pid_params pid point) (λ params. api_set_pid out params >>= λ _. return s)
          v h2 in
      let (_, set, same) = >>=-eq-return (api_set_pid out params) s v h3 in
      (
        v,
        params,
        or_raise-ok _ _ chosen ∙ ap some same,
        read,
        rw (← same) (api_config_io-Sent out _ _ _ w routed).0,
        (api_set_pid-Sent out params v set).0,
      )

  -- The routing goes out before the controller's entries are read: where an entry is no number, the
  -- lock fails with the routing changed and the controller as it was.
  pub engage-bad_entry :
      (chan : Text) (routing : RoutingForm) (pid : PidForm) (point : LockPoint F) (w v : World)
      (sel : PidDatSel) (io : ConfigIoResult F) (e : Error)
      → chan_to_pid_sel chan ≡ some sel
      → api_config_io out (Types.int DacDatSel.pid) (Types.int routing.dac2_sel) (Types.int sel) w
        ≡ (ok io, v)
      → lock_pid_params pid point ≡ err e
      → (engage out chan routing pid point w ≡ (err e, v))
        × Sent w
            (config_io_command
              (Types.int DacDatSel.pid)
              (Types.int routing.dac2_sel)
              (Types.int sel))
            v
  unfolding engage
  engage-bad_entry chan routing pid point w v sel io e selected routed bad =
      let rest : Api PidDatSel =
        lift (lock_pid_params pid point) >>= λ params. api_set_pid out params >>= λ _. return sel in
      let io_call =
        api_config_io out (Types.int DacDatSel.pid) (Types.int routing.dac2_sel) (Types.int sel) in
      let stops : rest v ≡ (err e, v) = rw bad refl in
      (
        rw selected (>>=-at-ok io_call (λ _. rest) w routed ∙ stops),
        (api_config_io-Sent out _ _ _ w routed).0,
      )

module _ {F : Type 0} ⦃fl : Float F⦄ (out : Outside F) (np : Numpy F) where
  -- What a lock that returns has sent.
  pub record Locked (p : LockParams F) (routing : RoutingForm) (pid : PidForm) (w : World)
      (r : LockResult F) (w' : World) : Type 0 where
    pub swept : World
    pub routed : World
    pub params : PidParams F
    pub dac_v : List F
    pub signal : ℕ
    pub sig : List F
    pub channel : column_index p.chan ≡ ok signal
    pub signals : column signal (r.sweep).samples ≡ ok sig
    pub columns : column 0 (r.sweep).samples ≡ ok dac_v
    pub sound : IsSound np sig dac_v p.peak_pts r.point
    pub selected : chan_to_pid_sel p.chan ≡ some r.pid_sel
    pub entries : lock_pid_params pid r.point ≡ ok params
    pub engaged : IsEngaged r.point params
    pub sends_sweep : Sent w (lock_sweep_command p) swept
    pub sends_routing :
        Sent swept
          (config_io_command
            (Types.int DacDatSel.pid)
            (Types.int routing.dac2_sel)
            (Types.int r.pid_sel))
          routed
    pub sends_pid : Sent routed (set_pid_command params) w'

  -- A lock that returns has sent exactly three commands to the server: the sweep of the entries, the
  -- routing of DAC 1 to the controller and of the chosen channel to its input, and the parameters of
  -- the controller, which enable it with setpoint 0, with the lock point as its bias and with the
  -- gain that the search found. The lock point is a voltage of the sweep: that of the steepest slope of
  -- the column of the channel between its maximum and the minimum in the window around it. The slope
  -- there is not below 1e-9 in magnitude, and the gain is 100 over the slope and not 32 or more in
  -- magnitude.
  pub autolock_bg-Locked :
      (p : LockParams F) (routing : RoutingForm) (pid : PidForm) (w : World) {r : LockResult F}
      {w' : World}
      → autolock_bg out np p routing pid w ≡ (ok r, w')
      → Locked p routing pid w r w'
  unfolding autolock_bg
  autolock_bg-Locked p routing pid w {r} {w'} h =
      let done : SweepRampResult F → LockPoint F → PidDatSel → LockResult F =
        λ sweep point s. record { sweep = sweep; chan = p.chan; point = point; pid_sel = s } in
      let last : SweepRampResult F → LockPoint F → Api (LockResult F) =
        λ sweep point. engage out p.chan routing pid point >>= λ s. return (done sweep point s) in
      let (sweep, v, ran, h1) =
        >>=-eq-ok (lock_sweep out p) (λ sweep. lift (search_sweep np p sweep) >>= last sweep) w h in
      let (point, found, h2) = lift-eq-ok (search_sweep np p sweep) (last sweep) v h1 in
      let (s, u, engaged, h3) =
        >>=-eq-ok (engage out p.chan routing pid point) (λ s. return (done sweep point s)) v h2 in
      let (routed, params, selected, entries, io, set) =
        engage-ok out p.chan routing pid point v engaged in
      let (signal, sig, dac_v, channel, signals, columns, sound) =
        search_sweep-IsSound np p sweep found in
      let locked : Locked p routing pid w (done sweep point s) u = record {
        swept = v;
        routed = routed;
        params = params;
        dac_v = dac_v;
        signal = signal;
        sig = sig;
        channel = channel;
        signals = signals;
        columns = columns;
        sound = sound;
        selected = selected;
        entries = entries;
        engaged = lock_pid_params-IsEngaged pid point entries;
        sends_sweep =
            (api_sweep_ramp-ok out p.v0 p.v1 p.pts _ p.delay (pos 0) default_remote_dir w ran).0;
        sends_routing = io;
        sends_pid = set;
      } in
      return-subst (Locked p routing pid w) (done sweep point s) u h3 locked
