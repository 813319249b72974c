-- ===== src/Api/Analysis/Metrics.antt =====
-- client/pdh_api/api.py: `api_control_metrics`.
pub mod Laws
use pound_drever_hall.Common.{
  ℕ, zero, suc, ◌+◌, ◌-◌, ◌*◌, ◌/◌, Bool, true, false, ◌&&◌, Option, none, some, List, [], ◌∷◌, map,
  Text, codes, ◌==◌, if◌then◌else◌, length, take, drop,
}
use pound_drever_hall.Common.Int.{ℤ, pos, sub_ℕ, ◌+ℤ◌}
use pound_drever_hall.Python.Result
use pound_drever_hall.Python.Result.{Result, ok, err, value_error, ◌>>=◌}
use pound_drever_hall.Python.Float.{Float}
use pound_drever_hall.Fir.Design.{num, divide}
use pound_drever_hall.Api.Types
use pound_drever_hall.Api.Types.{FrameCode, frame_code_enum, frame_columns}
use pound_drever_hall.Api.Response.{Value}
use pound_drever_hall.Api.Transport
use pound_drever_hall.Api.Transport.{lift, Outside, Api, Array, vector, matrix}
use pound_drever_hall.Api.Arrays.{column, at, index_or, or_raise}
use pound_drever_hall.Api.Results.{FrameResult, ControlMetricsResult}
use pound_drever_hall.Api.Commands.{api_get_frame, default_remote_dir}
use pound_drever_hall.Api.Analysis.Numeric.{Numeric}
use pound_drever_hall.Api.Analysis.Spectrum.{spectra, bins, effective_rate}

-- np.all(in_band)
abbrev pub all_true : List Bool → Bool
all_true [] = true
all_true (b ∷ bs) = b && all_true bs

-- The loop over `i` that breaks where all samples from `i` on are in the band.
unfoldable pub settled_from : ℕ → List Bool → Option ℕ
settled_from i [] = none
settled_from i (b ∷ bs) =
    let rest = settled_from (suc i) bs in if all_true (b ∷ bs) then some i else rest

-- err[-(N // 5):], which is the whole array where N // 5 is 0
unfoldable pub last_fifth : {F : Type 0} → List F → List F
last_fifth xs = let k = length xs / 5 in if k == 0 then xs else drop (length xs - k) xs

-- err[:N // 5]
unfoldable pub first_fifth : {F : Type 0} → List F → List F
first_fifth xs = take (length xs / 5) xs

-- np.arange(-(N - 1), N)
abbrev lags_from : ℤ → ℕ → List ℤ
lags_from k zero = []
lags_from k (suc n) = k ∷ lags_from (k +ℤ pos 1) n

module _ {F : Type 0} ⦃fl : Float F⦄ (np : Numeric F) where
  -- `np.max` and `np.min`, which raise at an empty array
  abbrev pub extreme : Option F → Result F
  extreme =
      or_raise (value_error (codes "zero-size array to reduction operation which has no identity"))

  abbrev rms : List F → F
  rms xs = np.sqrt (np.mean (map (λ x. fl.mul x x) xs))

  -- |err - steady| <= band, where band is 5 % of the peak or else 1
  abbrev pub band_flags : List F → F → F → List Bool
  band_flags errs steady peak_abs =
      let band = if fl.lt (num 0) peak_abs then fl.mul (fl.decimal 5 2) peak_abs else num 1 in
      map (λ e. fl.le (fl.abs (fl.sub e steady)) band) errs

  abbrev pub time_of : F → Option ℕ → Result F
  time_of fs none = ok fl.nan
  time_of fs (some i) = divide (num i) fs

  unfoldable pub settling_time : F → List F → Result F
  settling_time fs errs = do
    peak_abs ← extreme (np.greatest (map fl.abs errs))
    time_of fs (settled_from 0 (band_flags errs (np.mean (last_fifth errs)) peak_abs))

  unfoldable pub overshoot : List F → Result F
  overshoot errs = do
    let transient = first_fifth errs
    hi ← extreme (np.greatest transient)
    lo ← extreme (np.least transient)
    let peak_range = fl.sub hi lo
    let over = fl.quotient (fl.sub hi (np.mean (last_fifth errs))) peak_range
    ok (if fl.lt (num 0) peak_range then fl.mul over (num 100) else num 0)

  abbrev zeros : ℕ → List F
  zeros zero = []
  zeros (suc n) = num 0 ∷ zeros n

  abbrev centred : List F → List F
  centred xs = map (λ x. fl.sub x (np.mean xs)) xs

  abbrev scaled : F → List F → Result (List F)
  scaled norm ccf = ok (map (λ v. np.ratio v norm) ccf)

  -- The correlation of output and error, scaled to [-1, 1].
  unfoldable pub cross_correlation : List F → List F → Result (List F)
  cross_correlation pid_out errs =
      let n = length errs in
      let denom = fl.mul (np.std (centred pid_out)) (np.std (centred errs)) in
      if fl.lt (num 0) denom
      then or_raise (value_error (codes "v cannot be empty"))
          (np.correlate (centred errs) (centred pid_out))
        >>= scaled (fl.mul denom (num n))
      else ok (zeros (2 * n - 1))

  abbrev pub lags : F → ℕ → List F
  lags fs n = map (λ k. np.ratio (fl.of_int k) fs) (lags_from (sub_ℕ 1 n) (2 * n - 1))

  -- What is computed of the output and its correlation with the error, and the result.
  abbrev pub report :
      F
      → ℤ
      → List (Text × Value F)
      → Array F
      → (freqs : List F) (psds : List (List F)) (errs pid_out : List F) (settling over : F)
      → Result (ControlMetricsResult F)
  report fs decimation pid_params samples freqs psds errs pid_out settling over = do
    ctrl_max ← extreme (np.greatest (map fl.abs pid_out))
    ctrl_p95 ← extreme (np.percentile 95 (map fl.abs pid_out))
    ccf ← cross_correlation pid_out errs
    peak ← index_or (np.argmin ccf)
    ccf_peak ← at ccf peak
    ccf_peak_lag ← at (lags fs (length errs)) peak
    ok record {
      raw_data = samples;
      columns = frame_columns FrameCode.pid_io;
      fs = fs;
      decimation = decimation;
      freqs = freqs;
      spectra = psds;
      rms_error = rms errs;
      settling_time = settling;
      overshoot = over;
      ctrl_rms = rms pid_out;
      ctrl_max = ctrl_max;
      ctrl_p95 = ctrl_p95;
      ctrl_slew_rms = rms (np.diff pid_out);
      ccf_lags = lags fs (length errs);
      ccf = ccf;
      ccf_peak = ccf_peak;
      ccf_peak_lag = ccf_peak_lag;
      pid_params = pid_params;
    }

  -- What is computed of a capture of `n_cols` columns.
  unfoldable pub metrics_of :
      F → ℤ → List (Text × Value F) → ℕ → List (List F) → Result (ControlMetricsResult F)
  metrics_of fs decimation pid_params n_cols rows = do
    let samples = matrix n_cols rows
    psds ← spectra np fs (length rows) samples 0 n_cols
    freqs ← bins np fs (length rows)
    errs ← column 1 samples
    pid_out ← column 2 samples
    settling ← settling_time fs errs
    over ← overshoot errs
    report fs decimation pid_params samples freqs psds errs pid_out settling over

  -- `N, n_cols = data.shape` raises for an array of one dimension.
  abbrev pub metrics_from :
      F → ℤ → List (Text × Value F) → Array F → Result (ControlMetricsResult F)
  metrics_from fs decimation pid_params (vector xs) =
      err (value_error (codes "not enough values to unpack (expected 2, got 1)"))
  metrics_from fs decimation pid_params (matrix n_cols rows) =
      metrics_of fs decimation pid_params n_cols rows

  unfoldable pub api_control_metrics :
      Outside F → ℤ → List (Text × Value F) → Api (ControlMetricsResult F)
  api_control_metrics out decimation pid_params =
      Transport.◌>>=◌ (api_get_frame out decimation (Types.int FrameCode.pid_io) default_remote_dir)
        λ r.
          lift
            (effective_rate np decimation >>= λ fs. metrics_from fs decimation pid_params r.samples)
