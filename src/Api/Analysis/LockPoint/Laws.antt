-- ===== src/Api/Analysis/LockPoint/Laws.antt =====
-- The lock point exists for every sweep of at least two points, and is a voltage of the sweep.
use pound_drever_hall.Common.{
  ℕ, ◌+◌, ◌-◌, ◌/◌, ◌≤◌, ◌<◌, ◌≡◌, refl, sym, ◌∙◌, Bool, true, false, some, List, [], ◌∷◌, map,
  Text, codes, text_eq, if◌then◌else◌, arith, length, length-map, get_elem?,
}
use pound_drever_hall.Common.Int.{ℤ}
use pound_drever_hall.Python.Result.{ok, >>=-at-ok}
use pound_drever_hall.Python.Float.{Float}
use pound_drever_hall.Fir.Design.{num}
use pound_drever_hall.Api.Transport.{matrix}
use pound_drever_hall.Api.Arrays.{column, or_raise, IsTable, column-total, at-total}
use pound_drever_hall.Api.Results.{LockPointResult}
use pound_drever_hall.Api.Analysis.Numeric.{Numeric, IsNumeric}
use pound_drever_hall.Api.Analysis.LockPoint.{
  zip_with, golden_signal, window_size, slope_magnitude, steepest_voltage, oriented, lock_result,
  peak_voltage, compute_lockpoint,
}

module _ {F : Type 0} where
  length-zip_with :
      (f : F → F → F) (xs ys : List F)
      → length xs ≡ length ys
      → length (zip_with f xs ys) ≡ length xs
  length-zip_with f [] ys h = refl
  length-zip_with f (x ∷ xs) [] h = absurd (omega arith)
  length-zip_with f (x ∷ xs) (y ∷ ys) h = omega (arith, length-zip_with f xs ys)

  length-if :
      (b : Bool) (xs ys : List F) {n : ℕ}
      → length xs ≡ n
      → length ys ≡ n
      → length (if b then xs else ys) ≡ n
  length-if true xs ys h k = h
  length-if false xs ys h k = k

module _ {F : Type 0} ⦃fl : Float F⦄ (np : Numeric F) (laws : IsNumeric np) where
  length-golden_signal :
      (i_feed q_feed sign_basis : List F)
      → length i_feed ≡ length q_feed
      → length i_feed ≡ length sign_basis
      → length (golden_signal np i_feed q_feed sign_basis) ≡ length i_feed
  unfolding golden_signal
  length-golden_signal i_feed q_feed sign_basis h k =
      let amplitude =
        length-zip_with (λ i q. np.sqrt (fl.add (fl.mul i i) (fl.mul q q))) i_feed q_feed h in
      length-zip_with fl.mul _ (map np.sign sign_basis)
        (amplitude ∙ k ∙ sym (length-map np.sign sign_basis))
      ∙ amplitude

  oriented-total :
      (invert_delta : Bool) (dac_v golden : List F)
      → 0 < length golden
      → length dac_v ≡ length golden
      → (g : List F) × (oriented np invert_delta dac_v golden ≡ ok g) × (length g ≡ length golden)
  unfolding oriented
  oriented-total invert_delta dac_v golden h k =
      let (ix_max, top, max_in) = laws.argmax-lt golden h in
      let (ix_min, bottom, min_in) = laws.argmin-lt golden h in
      let (v_max, here, _) = at-total dac_v ix_max (omega arith) in
      let (v_min, there, _) = at-total dac_v ix_min (omega arith) in
      let delta = fl.sub v_max v_min in
      let flip = if invert_delta then fl.lt (num 0) delta else fl.lt delta (num 0) in
      (
        (if flip then map fl.neg golden else golden),
        rw (top, bottom, here, there),
        length-if flip (map fl.neg golden) golden (length-map fl.neg golden) refl,
      )

  length-slope_magnitude :
      (golden dac_v : List F)
      → length golden ≡ length dac_v
      → length (slope_magnitude np golden dac_v) ≡ length dac_v - 1
  length-slope_magnitude golden dac_v h =
      length-map fl.abs (zip_with np.ratio (np.diff golden) (np.diff dac_v))
      ∙ length-zip_with np.ratio (np.diff golden) (np.diff dac_v)
          (omega (arith, laws.length-diff golden, laws.length-diff dac_v))
      ∙ omega (arith, laws.length-diff golden)

  -- The middle of a window lies in the sweep.
  peak_voltage-total :
      (dac_v : List F) (w : ℕ) (smoothed : List F)
      → 0 < length smoothed
      → length smoothed + w ≤ length dac_v
      → (i : ℕ) × (v : F) × (peak_voltage np dac_v w smoothed ≡ ok v) × (get_elem? dac_v i ≡ some v)
  peak_voltage-total dac_v w smoothed h k =
      let (j, peak, inside) = laws.argmax-lt smoothed h in
      let (v, read, found) = at-total dac_v (j + w / 2) (omega arith) in
      (j + w / 2, v, rw (peak, read), found)

  window_size-bounds :
      (window : ℤ) (slope_mag : List F)
      → 0 < length slope_mag
      → (0 < window_size np window slope_mag) × (window_size np window slope_mag ≤ length slope_mag)
  window_size-bounds window slope_mag h = omega arith

  steepest_voltage-total :
      (golden dac_v : List F) (window : ℤ)
      → 2 ≤ length dac_v
      → length golden ≡ length dac_v
      → (i : ℕ) × (v : F) × (steepest_voltage np golden dac_v window ≡ ok v)
        × (get_elem? dac_v i ≡ some v)
  unfolding steepest_voltage
  steepest_voltage-total golden dac_v window h k =
      let slope_mag = slope_magnitude np golden dac_v in
      let w = window_size np window slope_mag in
      let size = length-slope_magnitude golden dac_v k in
      let (low, high) = window_size-bounds window slope_mag (rw size (omega arith)) in
      let (smoothed, e, count) = laws.length-moving_average w slope_mag low high in
      let (i, v, read, found) =
        peak_voltage-total dac_v w smoothed (rw count (omega arith))
          (rw (count, size) (omega (arith, rw size at high))) in
      (i, v, >>=-at-ok (peak_voltage np dac_v w) (rw (or_raise, e)) read, found)

  -- For a sweep that is a table of at least five columns and at least two rows, the search returns,
  -- whatever the window and the orientation: the lock point is one of the voltages of the sweep,
  -- and the golden signal has a value for each of them. What numpy promises of indices and
  -- lengths is a hypothesis.
  pub compute_lockpoint-total :
      (n : ℕ) (rows : List (List F)) (sign_sel : Text) (invert_delta : Bool) (window : ℤ)
      → 5 ≤ n
      → 2 ≤ length rows
      → IsTable n rows
      → (r : LockPointResult F) × (dac_v : List F) × (i : ℕ) × (compute_lockpoint np
            (matrix n rows)
            sign_sel
            invert_delta
            window
          ≡ ok r)
        × (column 0 (matrix n rows) ≡ ok dac_v)
        × (get_elem? dac_v i ≡ some r.lock_point)
        × (length r.golden ≡ length dac_v)
  unfolding compute_lockpoint
  compute_lockpoint-total n rows sign_sel invert_delta window h k p =
      let (dac_v, c₀, n₀) = column-total n 0 rows (omega arith) p in
      let (i_feed, c₃, n₃) = column-total n 3 rows (omega arith) p in
      let (q_feed, c₄, n₄) = column-total n 4 rows (omega arith) p in
      let sign_basis = if text_eq sign_sel (codes "I") then i_feed else q_feed in
      let golden = golden_signal np i_feed q_feed sign_basis in
      let basis : length sign_basis ≡ length rows = length-if _ i_feed q_feed n₃ n₄ in
      let size : length golden ≡ length rows =
        length-golden_signal i_feed q_feed sign_basis (n₃ ∙ sym n₄) (n₃ ∙ sym basis) ∙ n₃ in
      let (g, turned, same) =
        oriented-total invert_delta dac_v golden (omega arith) (omega arith) in
      let (i, v, steep, found) =
        steepest_voltage-total g dac_v window (omega arith) (omega arith) in
      (
        lock_result np i_feed q_feed g v,
        dac_v,
        i,
        rw (c₀, c₃, c₄, turned, steep),
        c₀,
        found,
        omega arith,
      )
