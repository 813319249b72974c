-- ===== src/Tests/Analysis.antt =====
-- A small numpy to run the analysis with, and runs of its theorems: an average is the first element
-- of its window, a mean the first element of all, and transforms change nothing.
use pound_drever_hall.Common.{
  ℕ, suc, ◌+◌, ◌-◌, ◌≤◌, ◌<◌, ◌≡◌, refl, Bool, true, Option, none, some, List, [], ◌∷◌, map, codes,
  if◌then◌else◌, arith, length, take, length-take, get_elem?,
}
use pound_drever_hall.Common.Int.{ℤ, pos, negsuc}
use pound_drever_hall.Python.Result.{ok}
use pound_drever_hall.Api.Transport.{matrix}
use pound_drever_hall.Api.Arrays.{column}
use pound_drever_hall.Api.Results.{LockPointResult, ControlMetricsResult}
use pound_drever_hall.Api.Analysis.Numeric.{Numeric, IsNumeric}
use pound_drever_hall.Api.Analysis.LockPoint.{compute_lockpoint}
use pound_drever_hall.Api.Analysis.LockPoint.Laws.{compute_lockpoint-total}
use pound_drever_hall.Python.Str.{
  is_space, is_break, strip, lstrip, rstrip, splitlines, contains, partition,
}
use pound_drever_hall.Python.Number.{int_of, scan, show_int, digits}
use pound_drever_hall.Api.Types.{FrameCode}
use pound_drever_hall.Api.Response.{
  insert, lookup, get, coerce, read_line, read_lines, parse_response, is_zero,
}
use pound_drever_hall.Api.Transport.{
  World, Outside, execute_cmd, ssh_fetch_csv, load_csv, check_status, api_cmd,
}
use pound_drever_hall.Api.Transport.Laws.{Sent}
use pound_drever_hall.Api.Commands.{api_get_frame, fetch, frame_command}
use pound_drever_hall.Api.Analysis.Spectrum.{spectrum, spectra, effective_rate}
use pound_drever_hall.Api.Analysis.Metrics.{
  settled_from, last_fifth, first_fifth, band_flags, time_of, settling_time, overshoot,
  cross_correlation, metrics_of, api_control_metrics,
}
use pound_drever_hall.Api.Analysis.Metrics.Laws.{settling_index, api_control_metrics-ok}
use pound_drever_hall.Tests.Numbers.{Real, real_float}
use pound_drever_hall.Tests.Server.{server, start}

-- The index of the first greatest element, after the best so far at `k` and `i` elements.
abbrev best : (Real → Real → Bool) → Real → ℕ → ℕ → List Real → ℕ
best better m k i [] = k
best better m k i (x ∷ xs) =
    if better m x then best better x i (suc i) xs else best better m k (suc i) xs

abbrev index_of_best : (Real → Real → Bool) → List Real → Option ℕ
index_of_best better [] = none
index_of_best better (x ∷ xs) = some (best better x 0 1 xs)

abbrev first_of : List Real → Option Real
first_of [] = none
first_of (x ∷ xs) = get_elem? (x ∷ xs) (best real_float.lt x 0 1 xs)

abbrev differences : List Real → List Real
differences [] = []
differences (x ∷ []) = []
differences (x ∷ y ∷ xs) = real_float.sub y x ∷ differences (y ∷ xs)

abbrev mean_of : List Real → Real
mean_of [] = none
mean_of (x ∷ xs) = x

abbrev pub numeric : Numeric Real
numeric = record {
  argmax = index_of_best real_float.lt;
  argmin = index_of_best (λ a b. real_float.lt b a);
  greatest = first_of;
  least = first_of;
  sqrt = λ x. x;
  sign = λ x. some (pos 1);
  ratio = real_float.quotient;
  angle_deg = λ y x. y;
  dot = λ xs ys. real_float.sum xs;
  diff = differences;
  moving_average = λ w xs. some (take (length xs - w + 1) xs);
  mean = mean_of;
  std = λ xs. some (pos 1);
  percentile = λ n xs. first_of xs;
  correlate = λ xs ys. some xs;
  rfft_abs = λ xs. some xs;
  rfftfreq = λ n d. [];
}

best-lt :
    (better : Real → Real → Bool) (m : Real) (k i : ℕ) (xs : List Real)
    → k < i
    → best better m k i xs < i + length xs
best-lt better m k i [] h = omega arith
best-lt better m k i (x ∷ xs) h =
    ground (arith, best-lt better x i (suc i) xs, best-lt better m k (suc i) xs)

index_of_best-lt :
    (better : Real → Real → Bool) (xs : List Real)
    → 0 < length xs
    → (i : ℕ) × (index_of_best better xs ≡ some i) × (i < length xs)
index_of_best-lt better [] h = absurd (omega arith)
index_of_best-lt better (x ∷ xs) h =
    (best better x 0 1 xs, refl, omega (arith, best-lt better x 0 1 xs (omega arith)))

length-differences : (xs : List Real) → length (differences xs) ≡ length xs - 1
length-differences [] = refl
length-differences (x ∷ []) = refl
length-differences (x ∷ y ∷ xs) = omega (arith, length-differences (y ∷ xs))

numeric-IsNumeric : IsNumeric numeric
numeric-IsNumeric = record {
  argmax-lt = index_of_best-lt real_float.lt;
  argmin-lt = index_of_best-lt (λ a b. real_float.lt b a);
  length-diff = length-differences;
  length-moving_average = λ w xs p q. (_, refl, omega (arith, length-take (length xs - w + 1) xs));
  greatest-nil = refl;
}

-- Three points, with the extremes of the signal at the first and the last.
abbrev sweep_row : ℤ → ℤ → List Real
sweep_row v i = some v ∷ some (pos 0) ∷ some (pos 0) ∷ some i ∷ some (pos 1) ∷ []

abbrev three_points : List (List Real)
three_points =
    sweep_row (negsuc 0) (pos 2) ∷ sweep_row (pos 0) (pos 5) ∷ sweep_row (pos 1) (pos 9) ∷ []

compute_lockpoint-total_example :
    (r : LockPointResult Real) × (dac_v : List Real) × (i : ℕ) × (compute_lockpoint numeric
        (matrix 5 three_points)
        (codes "I")
        true
        (pos 10)
      ≡ ok r)
    × (column 0 (matrix 5 three_points) ≡ ok dac_v)
    × (get_elem? dac_v i ≡ some r.lock_point)
    × (length r.golden ≡ length dac_v)
compute_lockpoint-total_example =
    compute_lockpoint-total numeric numeric-IsNumeric 5 three_points (codes "I") true (pos 10)
      (omega arith) (omega arith) (refl, (refl, (refl, tt)))

abbrev io_row : ℤ → List Real
io_row e = some (pos 1) ∷ some e ∷ some (pos 2) ∷ []

-- The error is 9 at first and then 0.
abbrev five_rows : List (List Real)
five_rows = io_row (pos 9) ∷ io_row (pos 0) ∷ io_row (pos 0) ∷ io_row (pos 0) ∷ io_row (pos 0) ∷ []

abbrev controller : Outside Real
controller = record server { loadtxt = λ text. ok (matrix 3 five_rows) }

abbrev after_metrics : World
after_metrics = (api_control_metrics numeric controller (pos 1) [] start).1

metrics_run :
    (m : ControlMetricsResult Real) × (api_control_metrics numeric controller (pos 1) [] start
      ≡ (ok m, after_metrics))
unfolding api_control_metrics metrics_of spectra spectrum settling_time settled_from overshoot
    first_fifth last_fifth cross_correlation column api_get_frame fetch ssh_fetch_csv load_csv
    api_cmd check_status execute_cmd parse_response read_lines read_line insert lookup get coerce
    is_zero splitlines contains partition int_of strip lstrip rstrip scan is_space is_break show_int
    digits
metrics_run = (_, refl)

api_control_metrics-ok_example :
    let m = metrics_run.0 in
    (n_cols : ℕ) × (rows : List (List Real)) × (errs : List Real) × (peak_abs : Real) × Sent start
      (frame_command (pos 1) FrameCode.pid_io)
      after_metrics
    × (m.raw_data ≡ matrix n_cols rows)
    × (5 ≤ length rows)
    × (effective_rate numeric (pos 1) ≡ ok m.fs)
    × (column 1 m.raw_data ≡ ok errs)
    × (numeric.greatest (map real_float.abs errs) ≡ some peak_abs)
    × (time_of numeric m.fs
          (settling_index (band_flags numeric errs (numeric.mean (last_fifth errs)) peak_abs))
        ≡ ok m.settling_time)
api_control_metrics-ok_example =
    api_control_metrics-ok numeric controller (pos 1) [] start refl metrics_run.1
