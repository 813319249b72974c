-- ===== src/Gui/Autolock/Laws.antt =====
-- client/gui.py: what a lock sends, and what it refuses.
use pound_drever_hall.Common.{
  leb, length, suc, map, ◌≤◌, min, max, ◌≡◌, refl, ap, subst, ◌↔◌, sym, ◌∙◌, inl, inr, true, false,
  some, List, ◌∷◌, ℕ, ◌+◌, drop, get_elem?, get_elem?-drop, get_elem?-take, Bool-cases, arith,
}
use pound_drever_hall.Common.Int.{ℤ, pos, ◌≤ℤ◌, ltb_ℤ}
use pound_drever_hall.Python.Result
use pound_drever_hall.Python.Result.{Error, Result, ok, err, >>=-eq-ok}
use pound_drever_hall.Python.Float.{Float}
use pound_drever_hall.Api.Types.{dac_sel_enum, dac_dat_sel_enum, pid_dat_sel_enum}
use pound_drever_hall.Gui.Check
use pound_drever_hall.Gui.Check.{
  Check, accepted, refused, >>=-eq-accepted, accepted-injective, forbid, is_unit, points_range,
  peak_points_below_one, whole,
}
use pound_drever_hall.Gui.Forms.Capture.{check_ramp}
use pound_drever_hall.Gui.Forms.Capture.Laws.{IsRamp, check_ramp-IsRamp, IsRamp-check_ramp}
use pound_drever_hall.Gui.Persist.{
  LockForm, LockParams, Persist, read_lock_params, start_lock, persist_tick,
}
use pound_drever_hall.Gui.Autolock.Sequence.{on_autolock}
use pound_drever_hall.Api.Arrays.{at, index_or, or_raise-ok}
use pound_drever_hall.Gui.Autolock.Search.{
  Numpy, LockPoint, slice, check_slope, slope_at, steepest_index, steepest, search_between,
  window_min, locate,
}

-- An element of a slice is an element of the list.
get_elem?-slice :
    {A : Type 0} (lo : ℕ) (hi : ℤ) (xs : List A) (i : ℕ) {x : A}
    → get_elem? (slice lo hi xs) i ≡ some x
    → get_elem? xs (lo + i) ≡ some x
unfolding slice
get_elem?-slice lo hi xs i h = sym (get_elem?-drop lo i xs) ∙ get_elem?-take _ i (drop lo xs) h

module _ {F : Type 0} ⦃fl : Float F⦄ (np : Numpy F) where
  -- A point of a segment whose slope is that of the segment there, and is the steepest.
  pub record IsSteepest (sig dac : List F) (point : LockPoint F) : Type 0 where
    pub index : ℕ
    pub steepest : np.argmax (map fl.abs (np.gradient sig dac)) ≡ some index
    pub voltage : get_elem? dac index ≡ some point.lock_point
    pub slope : get_elem? (np.gradient sig dac) index ≡ some point.slope
    pub long : 2 ≤ length sig

  -- A lock point: the steepest between the maximum of the signal and the minimum in the window around
  -- it, at a voltage of the sweep; the slope there is not tiny, and the gain that it asks for is not
  -- 32 or more.
  pub record IsSound (sig dac_v : List F) (peak_pts : ℤ) (point : LockPoint F) : Type 0 where
    pub max_idx : ℕ
    pub min_idx : ℕ
    pub top : np.argmax sig ≡ some max_idx
    pub bottom : window_min np sig max_idx peak_pts ≡ ok min_idx
    pub between :
        let lo = min max_idx min_idx in
        let hi = pos (suc (max max_idx min_idx)) in
        IsSteepest (slice lo hi sig) (slice lo hi dac_v) point
    pub swept : (k : ℕ) × (get_elem? dac_v k ≡ some point.lock_point)
    pub egain_of : point.egain ≡ fl.quotient (whole 100) point.slope
    pub steep : fl.lt (fl.abs point.slope) (fl.decimal 1 9) ≡ false
    pub bounded : fl.le (whole 32) (fl.abs point.egain) ≡ false

  -- What the checks of the slope let through.
  record IsChecked (v slope : F) (point : LockPoint F) : Type 0 where
    pub at_point : v ≡ point.lock_point
    pub at_slope : slope ≡ point.slope
    pub egain_of : point.egain ≡ fl.quotient (whole 100) point.slope
    pub steep : fl.lt (fl.abs point.slope) (fl.decimal 1 9) ≡ false
    pub bounded : fl.le (whole 32) (fl.abs point.egain) ≡ false

  check_slope-IsChecked :
      (v slope : F) {point : LockPoint F} → check_slope v slope ≡ ok point → IsChecked v slope point
  unfolding check_slope
  check_slope-IsChecked v slope h = record {
    at_point = ground arith;
    at_slope = ground arith;
    egain_of = ground arith;
    steep = ground arith;
    bounded = ground arith;
  }

  steepest-IsSteepest :
      (sig dac : List F) {point : LockPoint F}
      → steepest np sig dac ≡ ok point
      → IsSteepest sig dac point × IsChecked point.lock_point point.slope point
  unfolding steepest
  steepest-IsSteepest sig dac {point} h = elim (Bool-cases (leb 2 (length sig))) [
    | inr short ↦ cc (rw short at h)
    | inl long ↦
        let g = rw long at h in
        let (i, top, h1) = >>=-eq-ok (steepest_index np sig dac) (slope_at np sig dac) g in
        let (v, e, h2) =
          >>=-eq-ok (at dac i) (λ v. Result.◌>>=◌ (at (np.gradient sig dac) i) (check_slope v))
            h1 in
        let (slope, e', h3) = >>=-eq-ok (at (np.gradient sig dac) i) (check_slope v) h2 in
        let c = check_slope-IsChecked v slope h3 in
        (
          record {
            index = i;
            steepest = or_raise-ok _ _ top;
            voltage = or_raise-ok _ _ e ∙ ap some c.at_point;
            slope = or_raise-ok _ _ e' ∙ ap some c.at_slope;
            long = ground arith;
          },
          record {
            at_point = refl;
            at_slope = refl;
            egain_of = c.egain_of;
            steep = c.steep;
            bounded = c.bounded;
          },
        )
  ]

  -- A lock point that the search finds is the steepest point between the maximum of the signal and
  -- the minimum in its window, and passes the checks.
  pub locate-IsSound :
      (sig dac : List F) (peak_pts : ℤ) {point : LockPoint F}
      → locate np sig dac peak_pts ≡ ok point
      → IsSound sig dac peak_pts point
  unfolding locate search_between
  locate-IsSound sig dac peak_pts {point} h =
      let (i, top, h1) =
        >>=-eq-ok (index_or (np.argmax sig))
          (λ i. Result.◌>>=◌ (window_min np sig i peak_pts) (search_between np sig dac i)) h in
      let (j, bottom, h2) =
        >>=-eq-ok (window_min np sig i peak_pts) (search_between np sig dac i) h1 in
      let lo = min i j in
      let hi = pos (suc (max i j)) in
      let found : steepest np (slice lo hi sig) (slice lo hi dac) ≡ ok point = ground arith in
      let (best, checked) = steepest-IsSteepest (slice lo hi sig) (slice lo hi dac) found in
      record {
        max_idx = i;
        min_idx = j;
        top = or_raise-ok _ _ top;
        bottom = bottom;
        between = best;
        swept = (lo + best.index, get_elem?-slice lo hi dac best.index best.voltage);
        egain_of = checked.egain_of;
        steep = checked.steep;
        bounded = checked.bounded;
      }

module _ {F : Type 0} ⦃fl : Float F⦄ where
  wide_peak :
      (n : ℤ) → forbid {F = F} (ltb_ℤ n (pos 1)) peak_points_below_one ≡ accepted tt → pos 1 ≤ℤ n
  wide_peak n h = ground arith

  -- The button starts a lock exactly if the entries are numbers, the sweep they describe is legal and
  -- the window around the peak is at least one point wide.
  pub on_autolock-accepted_iff :
      (form : LockForm) (p : LockParams F)
      → (on_autolock form ≡ accepted p) ↔ (
          (read_lock_params form ≡ accepted p)
          × IsRamp p.v0 p.v1 p.pts p.delay
          × (pos 1 ≤ℤ p.peak_pts))
  unfolding on_autolock
  on_autolock-accepted_iff form p = (
    λ h.
        let wide : LockParams F → Check F (LockParams F) = λ p.
          Check.◌>>=◌ (forbid (ltb_ℤ p.peak_pts (pos 1)) peak_points_below_one) λ _. accepted p in
        let (q, read, h1) =
          >>=-eq-accepted (read_lock_params form)
            (λ p. Check.◌>>=◌ (check_ramp p.v0 p.v1 p.pts p.delay) λ _. wide p) h in
        let (_, ramp, h2) = >>=-eq-accepted (check_ramp q.v0 q.v1 q.pts q.delay) (λ _. wide q) h1 in
        let (_, peak, h3) =
          >>=-eq-accepted (forbid (ltb_ℤ q.peak_pts (pos 1)) peak_points_below_one)
            (λ _. accepted q) h2 in
        let same = accepted-injective h3 in
        (
          read ∙ ap accepted same,
          subst (λ p. IsRamp p.v0 p.v1 p.pts p.delay) same
              (check_ramp-IsRamp q.v0 q.v1 q.pts q.delay ramp),
          subst (λ p. pos 1 ≤ℤ p.peak_pts) same (wide_peak q.peak_pts peak),
        ),
    λ (read, ramp, peak). rw (read, IsRamp-check_ramp p.v0 p.v1 p.pts p.delay ramp) (ground arith),
  )

  -- For entries that are numbers, with voltages in range but one point only, the button refuses to
  -- start a lock, and a tick of the persistent mode, running with no lock in flight, starts one.
  pub persist_tick-unchecked :
      (form : LockForm) (p : Persist F) (params : LockParams F)
      → p.persist_running ≡ true
      → p.persist_busy ≡ false
      → read_lock_params form ≡ accepted params
      → is_unit params.v0 ≡ true
      → is_unit params.v1 ≡ true
      → params.pts ≡ pos 1
      → (on_autolock {F = F} form ≡ refused points_range)
        × ((persist_tick form p).in_flight ≡ params ∷ p.in_flight)
  unfolding persist_tick start_lock on_autolock check_ramp
  persist_tick-unchecked form p params run idle read u0 u1 one =
      (rw (read, u0, u1, one) refl, rw (run, idle, read) refl)
