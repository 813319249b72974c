-- ===== src/Gui/Autolock/Search.antt =====
-- client/gui.py: how `_autolock_bg` finds the lock point in the columns of a sweep.
use pound_drever_hall.Common.{
  ℕ, suc, ◌+◌, ◌-◌, min, max, not, Option, List, map, codes, leb, if◌then◌else◌, length, take, drop,
}
use pound_drever_hall.Common.Int.{ℤ, pos, negsuc, pos_part, ltb_ℤ, ◌+ℤ◌, ◌-ℤ◌}
use pound_drever_hall.Python.Result.{value_error, Result, ok, err, guard, ◌>>=◌, ◌>>◌}
use pound_drever_hall.Python.Float.{Float}
use pound_drever_hall.Api.Arrays.{at, index_or}
use pound_drever_hall.Gui.Check.{whole}

-- What the search takes from numpy. `argmax` and `argmin` raise at an empty array.
pub record Numpy (F : Type 0) : Type 0 where
  pub argmax : List F → Option ℕ
  pub argmin : List F → Option ℕ
  pub gradient : List F → List F → List F

-- xs[lo:hi], where a negative `hi` counts from the end
abbrev stop_index : ℕ → ℤ → ℕ
stop_index n (pos hi) = min hi n
stop_index n (negsuc hi) = n - suc hi

unfoldable pub slice : {A : Type 0} → ℕ → ℤ → List A → List A
slice lo hi xs = take (stop_index (length xs) hi - lo) (drop lo xs)

pub record LockPoint (F : Type 0) : Type 0 where
  pub lock_point : F
  pub slope : F
  pub egain : F

module _ {F : Type 0} ⦃fl : Float F⦄ where
  abbrev tiny : F
  tiny = fl.decimal 1 9

  -- The checks of the slope, and the gain that it asks for.
  unfoldable pub check_slope : F → F → Result (LockPoint F)
  check_slope lock_point slope =
      let egain = fl.quotient (whole 100) slope in
      if fl.lt (fl.abs slope) tiny
      then err (value_error (codes "Slope is zero — no dispersive feature found"))
      else if fl.le (whole 32) (fl.abs egain)
      then err (value_error (codes "100/slope is outside egain range [-32, 32)"))
      else ok record { lock_point = lock_point; slope = slope; egain = egain }

module _ {F : Type 0} ⦃fl : Float F⦄ (np : Numpy F) where
  -- The index of the minimum in the window of `peak_pts` around the maximum.
  unfoldable pub window_min : List F → ℕ → ℤ → Result ℕ
  window_min sig max_idx peak_pts =
      let lo = pos_part (pos max_idx -ℤ peak_pts) in
      let end = pos (suc max_idx) +ℤ peak_pts in
      let hi = if ltb_ℤ end (pos (length sig)) then end else pos (length sig) in
      index_or (np.argmin (slice lo hi sig)) >>= λ k. ok (lo + k)

  -- The slope at an index of a segment.
  abbrev pub slope_at : List F → List F → ℕ → Result (LockPoint F)
  slope_at seg_sig seg_dac i = do
    lock_point ← at seg_dac i
    slope ← at (np.gradient seg_sig seg_dac) i
    check_slope lock_point slope

  abbrev pub steepest_index : List F → List F → Result ℕ
  steepest_index seg_sig seg_dac = index_or (np.argmax (map fl.abs (np.gradient seg_sig seg_dac)))

  -- The steepest point of a segment.
  unfoldable pub steepest : List F → List F → Result (LockPoint F)
  steepest seg_sig seg_dac = do
    guard (leb 2 (length seg_sig))
        (value_error (codes "Feature segment too short to compute slope"))
    i ← steepest_index seg_sig seg_dac
    slope_at seg_sig seg_dac i

  -- The search between the extremes, if they are at different voltages.
  unfoldable pub search_between : List F → List F → ℕ → ℕ → Result (LockPoint F)
  search_between sig dac_v max_idx min_idx = do
    v_max ← at dac_v max_idx
    v_min ← at dac_v min_idx
    guard (not (fl.lt (fl.abs (fl.sub v_max v_min)) tiny))
        (value_error (codes "Max and min are at the same DAC voltage"))
    let lo = min max_idx min_idx
    let hi = pos (suc (max max_idx min_idx))
    steepest (slice lo hi sig) (slice lo hi dac_v)

  -- Steps 3 to 5 of `_autolock_bg`.
  unfoldable pub locate : List F → List F → ℤ → Result (LockPoint F)
  locate sig dac_v peak_pts = do
    max_idx ← index_or (np.argmax sig)
    min_idx ← window_min sig max_idx peak_pts
    search_between sig dac_v max_idx min_idx
