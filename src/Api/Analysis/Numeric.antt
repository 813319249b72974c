-- ===== src/Api/Analysis/Numeric.antt =====
-- What the analysis takes from numpy: a parameter, with the laws that proofs use as hypotheses.
use pound_drever_hall.Common.{ℕ, ◌+◌, ◌-◌, ◌≤◌, ◌<◌, ◌≡◌, Option, none, some, List, [], length}

-- A function that may raise at an empty array gives an option.
pub record Numeric (F : Type 0) : Type 0 where
  pub argmax : List F → Option ℕ
  pub argmin : List F → Option ℕ
  pub greatest : List F → Option F
  pub least : List F → Option F
  pub sqrt : F → F
  pub sign : F → F
  -- an element of a quotient of arrays, which never raises
  pub ratio : F → F → F
  -- np.degrees(np.arctan2(y, x))
  pub angle_deg : F → F → F
  pub dot : List F → List F → F
  pub diff : List F → List F
  -- np.convolve(xs, np.ones(w) / w, mode="valid")
  pub moving_average : ℕ → List F → Option (List F)
  pub mean : List F → F
  pub std : List F → F
  pub percentile : ℕ → List F → Option F
  -- np.correlate(xs, ys, mode="full")
  pub correlate : List F → List F → Option (List F)
  -- np.abs(np.fft.rfft(xs)), and np.fft.rfftfreq
  pub rfft_abs : List F → Option (List F)
  pub rfftfreq : ℕ → F → List F

-- The index of an extreme is an index of the array; `diff` has one element less, and an average over
-- at most as many elements as there are has one for each place of the window.
pub record IsNumeric {F : Type 0} (np : Numeric F) : Type 0 where
  pub argmax-lt :
      (xs : List F) → 0 < length xs → (i : ℕ) × (np.argmax xs ≡ some i) × (i < length xs)
  pub argmin-lt :
      (xs : List F) → 0 < length xs → (i : ℕ) × (np.argmin xs ≡ some i) × (i < length xs)
  pub length-diff : (xs : List F) → length (np.diff xs) ≡ length xs - 1
  pub length-moving_average :
      (w : ℕ) (xs : List F)
      → 0 < w
      → w ≤ length xs
      → (ys : List F) × (np.moving_average w xs ≡ some ys) × (length ys ≡ length xs - w + 1)
  pub greatest-nil : np.greatest [] ≡ none
