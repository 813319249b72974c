-- ===== src/Api/Analysis/LockPoint.antt =====
-- client/pdh_api/api.py: `compute_lockpoint`.
pub mod Laws
use pound_drever_hall.Common.{
  ℕ, ◌+◌, ◌/◌, min, max, Bool, true, false, List, [], ◌∷◌, map, Text, codes, text_eq, if◌then◌else◌,
  length,
}
use pound_drever_hall.Common.Int.{ℤ, pos_part}
use pound_drever_hall.Python.Result.{Result, ok, err, value_error, ◌>>=◌}
use pound_drever_hall.Python.Float.{Float}
use pound_drever_hall.Fir.Design.{num}
use pound_drever_hall.Api.Transport.{Array}
use pound_drever_hall.Api.Arrays.{column, at, index_or, or_raise}
use pound_drever_hall.Api.Results.{LockPointResult}
use pound_drever_hall.Api.Analysis.Numeric.{Numeric}

-- An operation on the elements of two arrays of one length.
abbrev pub zip_with : {F : Type 0} → (F → F → F) → List F → List F → List F
zip_with f (x ∷ xs) (y ∷ ys) = f x y ∷ zip_with f xs ys
zip_with f _ _ = []

module _ {F : Type 0} ⦃fl : Float F⦄ (np : Numeric F) where
  -- np.sqrt(i_feed**2 + q_feed**2) * np.sign(sign_basis)
  unfoldable pub golden_signal : List F → List F → List F → List F
  golden_signal i_feed q_feed sign_basis =
      zip_with fl.mul (zip_with (λ i q. np.sqrt (fl.add (fl.mul i i) (fl.mul q q))) i_feed q_feed)
        (map np.sign sign_basis)

  -- max(1, min(window, len(slope_mag)))
  abbrev pub window_size : ℤ → List F → ℕ
  window_size window slope_mag = max 1 (min (pos_part window) (length slope_mag))

  abbrev pub slope_magnitude : List F → List F → List F
  slope_magnitude golden dac_v = map fl.abs (zip_with np.ratio (np.diff golden) (np.diff dac_v))

  -- The voltage in the middle of the window with the greatest average.
  abbrev pub peak_voltage : List F → ℕ → List F → Result F
  peak_voltage dac_v w smoothed = index_or (np.argmax smoothed) >>= λ k. at dac_v (k + w / 2)

  -- The voltage in the middle of the window in which the signal is steepest.
  unfoldable pub steepest_voltage : List F → List F → ℤ → Result F
  steepest_voltage golden dac_v window =
      let slope_mag = slope_magnitude golden dac_v in
      let w = window_size window slope_mag in
      or_raise (value_error (codes "v cannot be empty")) (np.moving_average w slope_mag)
      >>= peak_voltage dac_v w

  -- The signal, turned round where its maximum is on the wrong side of its minimum.
  unfoldable pub oriented : Bool → List F → List F → Result (List F)
  oriented invert_delta dac_v golden = do
    ix_max ← index_or (np.argmax golden)
    ix_min ← index_or (np.argmin golden)
    v_max ← at dac_v ix_max
    v_min ← at dac_v ix_min
    let delta = fl.sub v_max v_min
    let should_flip = if invert_delta then fl.lt (num 0) delta else fl.lt delta (num 0)
    ok (if should_flip then map fl.neg golden else golden)

  abbrev pub lock_result : (i_feed q_feed golden : List F) → F → LockPointResult F
  lock_result i_feed q_feed golden lock_point = record {
    golden = golden;
    optimal_angle_deg = np.angle_deg (np.dot q_feed golden) (np.dot i_feed golden);
    lock_point = lock_point;
  }

  abbrev pub lockpoint_of :
      Text → Bool → ℤ → (dac_v i_feed q_feed : List F) → Result (LockPointResult F)
  lockpoint_of sign_sel invert_delta window dac_v i_feed q_feed = do
    let sign_basis = if text_eq sign_sel (codes "I") then i_feed else q_feed
    golden ← oriented invert_delta dac_v (golden_signal i_feed q_feed sign_basis)
    lock_point ← steepest_voltage golden dac_v window
    ok (lock_result i_feed q_feed golden lock_point)

  unfoldable pub compute_lockpoint : Array F → Text → Bool → ℤ → Result (LockPointResult F)
  compute_lockpoint samples sign_sel invert_delta window = do
    dac_v ← column 0 samples
    i_feed ← column 3 samples
    q_feed ← column 4 samples
    lockpoint_of sign_sel invert_delta window dac_v i_feed q_feed
