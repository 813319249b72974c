-- ===== src/Api/Analysis/Spectrum.antt =====
-- client/pdh_api/api.py: `api_psd`, and the spectra that `api_control_metrics` computes too.
use pound_drever_hall.Common.{
  ℕ, zero, suc, ◌+◌, ◌-◌, ◌*◌, Bool, ◌&&◌, none, some, List, [], ◌∷◌, map, Text, codes, ◌==◌,
  if◌then◌else◌, length,
}
use pound_drever_hall.Common.Int.{ℤ}
use pound_drever_hall.Python.Number.{show_int}
use pound_drever_hall.Python.Result
use pound_drever_hall.Python.Result.{Result, ok, err, value_error}
use pound_drever_hall.Python.Float.{Float}
use pound_drever_hall.Fir.Design.{num, divide, sample_rate}
use pound_drever_hall.Api.Types.{FrameCode, of_value, frame_code_enum, frame_columns}
use pound_drever_hall.Api.Response.{is_zero}
use pound_drever_hall.Api.Transport.{lift, Outside, Api, ◌>>=◌, Array, vector, matrix}
use pound_drever_hall.Api.Arrays.{column, or_raise}
use pound_drever_hall.Api.Results.{FrameResult, PsdResult}
use pound_drever_hall.Api.Commands.{api_get_frame, default_remote_dir}
use pound_drever_hall.Api.Analysis.Numeric.{Numeric}

module _ {F : Type 0} ⦃fl : Float F⦄ (np : Numeric F) where
  -- The one-sided spectrum of a channel with its mean taken off.
  unfoldable pub spectrum : F → ℕ → List F → Result (List F)
  spectrum fs n xs =
      let x = map (λ v. fl.sub v (np.mean xs)) xs in
      Result.◌>>=◌ (or_raise (value_error (codes "v cannot be empty")) (np.correlate x x)) λ acf.
        Result.◌>>=◌
          (or_raise (value_error (codes "Invalid number of FFT data points")) (np.rfft_abs acf))
          λ s. ok (map (λ v. np.ratio v (fl.mul fs (num n))) s)

  -- Channels `i` up to `i + left - 1`.
  unfoldable pub spectra : F → ℕ → Array F → ℕ → ℕ → Result (List (List F))
  spectra fs n samples i zero = ok []
  spectra fs n samples i (suc left) = Result.◌>>=◌ (column i samples) λ xs.
      Result.◌>>=◌ (spectrum fs n xs)
        λ s. Result.◌>>=◌ (spectra fs n samples (i + 1) left) λ rest. ok (s ∷ rest)

  -- np.fft.rfftfreq(2 * N - 1, d=1.0 / fs)
  abbrev pub bins : F → ℕ → Result (List F)
  bins fs n = Result.◌>>=◌ (divide (num 1) fs) λ d. ok (np.rfftfreq (2 * n - 1) d)

  abbrev with_bins : F → ℕ → List (List F) → Result (List F × List (List F))
  with_bins fs n psds = Result.◌>>=◌ (bins fs n) λ freqs. ok (freqs, psds)

  -- The frequencies and spectra, where the capture has the columns of its frame code.
  unfoldable pub psd_of : F → ℕ → Bool → Array F → Result (List F × List (List F))
  psd_of fs n_cols good (vector xs) = ok ([], [])
  psd_of fs n_cols good (matrix k rows) =
      let n = length rows in
      if good && k == n_cols
      then Result.◌>>=◌ (spectra fs n (matrix k rows) 0 n_cols) (with_bins fs n)
      else ok ([], [])

  -- FPGA_FS / decimation
  abbrev pub effective_rate : ℤ → Result F
  effective_rate decimation = divide sample_rate (fl.of_int decimation)

  abbrev channels : ℤ → Result (List Text)
  channels frame_code = elim (of_value {E = FrameCode} frame_code) [
    | none ↦ err (value_error (show_int frame_code))
    | some fc ↦ ok (frame_columns fc)
  ]

  -- What is computed from a capture.
  unfoldable pub psd_from : ℤ → ℤ → FrameResult F → Result (PsdResult F)
  psd_from decimation frame_code r = Result.◌>>=◌ (effective_rate decimation) λ fs.
      Result.◌>>=◌ (channels frame_code) λ cols.
        Result.◌>>=◌ (psd_of fs (length cols) (is_zero r.status) r.samples) λ (freqs, psds).
          ok record {
            status = r.status;
            freqs = freqs;
            spectra = psds;
            fs = fs;
            columns = cols;
            raw_data = r.samples;
          }

  unfoldable pub api_psd : Outside F → ℤ → ℤ → Api (PsdResult F)
  api_psd out decimation frame_code =
      api_get_frame out decimation frame_code default_remote_dir >>= λ r.
      lift (psd_from decimation frame_code r)
