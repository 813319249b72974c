-- ===== src/Api/Analysis/Metrics/Laws.antt =====
-- The settling time, the captures that are long enough, and the whole call.
use mathlib.Core.Path.{subst}
use pound_drever_hall.Common.{
  ℕ, suc, ◌+◌, ◌-◌, ◌/◌, ◌≤◌, ◌<◌, ◌≡◌, refl, ap, sym, ◌∙◌, Bool, ◌&&◌, Option, none, some, List,
  [], ◌∷◌, map, Text, ◌==◌, if◌then◌else◌, arith, length, dec_lt,
}
use pound_drever_hall.Common.Int.{ℤ}
use pound_drever_hall.Python.Result.{ok, ◌>>=◌, >>=-eq-ok}
use pound_drever_hall.Python.Float.{Float}
use pound_drever_hall.Api.Types
use pound_drever_hall.Api.Types.{FrameCode, frame_code_enum}
use pound_drever_hall.Api.Response.{Value}
use pound_drever_hall.Api.Transport.{lift, World, Outside, Array, vector, matrix}
use pound_drever_hall.Api.Transport.Laws as Transport
use pound_drever_hall.Api.Transport.Laws.{Sent, ok-injective}
use pound_drever_hall.Api.Commands.{api_get_frame, default_remote_dir, frame_command}
use pound_drever_hall.Api.Commands.Captures.Laws.{api_get_frame-ok}
use pound_drever_hall.Api.Arrays.{column, column-length, at, index_or, or_raise-ok}
use pound_drever_hall.Api.Results.{ControlMetricsResult}
use pound_drever_hall.Api.Analysis.Numeric.{Numeric}
use pound_drever_hall.Api.Analysis.Spectrum.{spectra, bins, effective_rate}
use pound_drever_hall.Api.Analysis.Metrics.{
  all_true, settled_from, extreme, settling_time, overshoot, cross_correlation, lags, report,
  metrics_of, first_fifth, last_fifth, band_flags, time_of, metrics_from, api_control_metrics,
}

-- One pass from the end: how many samples at the end are in the band.
abbrev pub in_band_at_end : List Bool → ℕ
in_band_at_end [] = 0
in_band_at_end (b ∷ bs) = let n = in_band_at_end bs in if b && n == length bs then suc n else n

in_band_at_end-le : (bs : List Bool) → in_band_at_end bs ≤ length bs
in_band_at_end-le [] = omega arith
in_band_at_end-le (b ∷ bs) = ground (arith, in_band_at_end-le bs)

-- All samples are in the band if as many are at the end as there are.
all_true-count : (bs : List Bool) → all_true bs ≡ (in_band_at_end bs == length bs)
all_true-count [] = refl
all_true-count (b ∷ bs) = ground (arith, all_true-count bs, in_band_at_end-le bs)

-- The index from which on all samples are in the band, counted from the end.
abbrev pub settling_index : List Bool → Option ℕ
settling_index bs = let n = in_band_at_end bs in if n == 0 then none else some (length bs - n)

settled_from-count :
    (i : ℕ) (bs : List Bool)
    → settled_from i bs
      ≡ (if in_band_at_end bs == 0 then none else some (i + (length bs - in_band_at_end bs)))
unfolding settled_from
settled_from-count i [] = refl
settled_from-count i (b ∷ bs) =
    ground (arith, settled_from-count (suc i) bs, all_true-count bs, in_band_at_end-le bs)

-- The loop, which looks at all the rest for each sample, finds what one pass from the end counts:
-- the first sample from which on all are in the band, and none exactly if the last is not.
pub settled_from-settling_index : (bs : List Bool) → settled_from 0 bs ≡ settling_index bs
settled_from-settling_index bs = settled_from-count 0 bs ∙ ground arith

-- Fewer than five samples have an empty first fifth.
first_fifth-nil : {F : Type 0} (xs : List F) → length xs < 5 → first_fifth xs ≡ []
unfolding first_fifth
first_fifth-nil xs h = let e : length xs / 5 ≡ 0 = omega arith in rw e

module _ {F : Type 0} ⦃fl : Float F⦄ (np : Numeric F) where
  -- A report has the capture, the rate and the settling time that it is made with.
  report-ok :
      (fs : F) (decimation : ℤ) (pid_params : List (Text × Value F)) (samples : Array F)
      (freqs : List F) (psds : List (List F)) (errs pid_out : List F) (settling over : F)
      {m : ControlMetricsResult F}
      → report np fs decimation pid_params samples freqs psds errs pid_out settling over ≡ ok m
      → (m.raw_data ≡ samples) × (m.fs ≡ fs) × (m.settling_time ≡ settling)
  report-ok fs decimation pid_params samples freqs psds errs pid_out settling over {m} h =
      let (ctrl_max, _, h₁) = >>=-eq-ok (extreme np (np.greatest (map fl.abs pid_out))) _ h in
      let (ctrl_p95, _, h₂) = >>=-eq-ok (extreme np (np.percentile 95 (map fl.abs pid_out))) _ h₁ in
      let (ccf, _, h₃) = >>=-eq-ok (cross_correlation np pid_out errs) _ h₂ in
      let (peak, _, h₄) = >>=-eq-ok (index_or (np.argmin ccf)) _ h₃ in
      let (_, _, h₅) = >>=-eq-ok (at ccf peak) _ h₄ in
      let (_, _, h₆) = >>=-eq-ok (at (lags np fs (length errs)) peak) _ h₅ in
      let e = ok-injective h₆ in
      (
        sym (ap (λ (m : ControlMetricsResult F). m.raw_data) e),
        sym (ap (λ (m : ControlMetricsResult F). m.fs) e),
        sym (ap (λ (m : ControlMetricsResult F). m.settling_time) e),
      )

  -- The error column that the settling time and the transient are taken from.
  metrics_of-ok :
      (fs : F) (decimation : ℤ) (pid_params : List (Text × Value F)) (n_cols : ℕ)
      (rows : List (List F)) {m : ControlMetricsResult F}
      → metrics_of np fs decimation pid_params n_cols rows ≡ ok m
      → (errs : List F) × (over : F) × (column 1 (matrix n_cols rows) ≡ ok errs)
        × (settling_time np fs errs ≡ ok m.settling_time)
        × (overshoot np errs ≡ ok over)
        × (m.raw_data ≡ matrix n_cols rows)
        × (m.fs ≡ fs)
  unfolding metrics_of
  metrics_of-ok fs decimation pid_params n_cols rows {m} h =
      let samples = matrix n_cols rows in
      let (psds, _, h₁) = >>=-eq-ok (spectra np fs (length rows) samples 0 n_cols) _ h in
      let (freqs, _, h₂) = >>=-eq-ok (bins np fs (length rows)) _ h₁ in
      let (errs, read, h₃) = >>=-eq-ok (column 1 samples) _ h₂ in
      let (pid_out, _, h₄) = >>=-eq-ok (column 2 samples) _ h₃ in
      let (settling, settled, h₅) = >>=-eq-ok (settling_time np fs errs) _ h₄ in
      let (over, shot, h₆) = >>=-eq-ok (overshoot np errs) _ h₅ in
      let (raw, rate, time) =
        report-ok fs decimation pid_params samples freqs psds errs pid_out settling over h₆ in
      (errs, over, read, settled ∙ ap ok (sym time), shot, raw, rate)

  -- The transient is looked at for a capture that has one.
  overshoot-long :
      (errs : List F) {over : F}
      → np.greatest [] ≡ none
      → overshoot np errs ≡ ok over
      → 5 ≤ length errs
  unfolding overshoot
  overshoot-long errs laws h = elim (dec_lt (length errs) 5) [
    | yes short ↦
        let (hi, top, _) = >>=-eq-ok (extreme np (np.greatest (first_fifth errs))) _ h in
        let none_ok : extreme np none ≡ ok hi = rw (first_fifth-nil errs short, laws) at top in cc
    | no long ↦ omega arith
  ]

  settling_time-settling_index :
      (fs : F) (errs : List F) {t : F}
      → settling_time np fs errs ≡ ok t
      → (peak_abs : F) × (np.greatest (map fl.abs errs) ≡ some peak_abs)
        × (time_of np fs (settling_index (band_flags np errs (np.mean (last_fifth errs)) peak_abs))
            ≡ ok t)
  unfolding settling_time
  settling_time-settling_index fs errs h =
      let (peak_abs, top, e) = >>=-eq-ok (extreme np (np.greatest (map fl.abs errs))) _ h in
      (peak_abs, or_raise-ok _ _ top, ap (time_of np fs) (sym (settled_from-settling_index _)) ∙ e)

  -- Metrics that are returned are those of a capture of the controller's input and output: the
  -- command for it has been sent once, to the server that the globals name, and the array that it
  -- gave has two dimensions and at least five rows. Its rate is that of the decimation, and its settling
  -- time is the first sample, as a time, from which on the error stays in the band, or NaN if the
  -- last sample is out of the band. That numpy has no maximum of an empty array is a hypothesis.
  pub api_control_metrics-ok :
      (out : Outside F) (decimation : ℤ) (pid_params : List (Text × Value F)) (w : World)
      {m : ControlMetricsResult F} {w' : World}
      → np.greatest [] ≡ none
      → api_control_metrics np out decimation pid_params w ≡ (ok m, w')
      → (n_cols : ℕ) × (rows : List (List F)) × (errs : List F) × (peak_abs : F) × Sent w
          (frame_command decimation FrameCode.pid_io)
          w'
        × (m.raw_data ≡ matrix n_cols rows)
        × (5 ≤ length rows)
        × (effective_rate np decimation ≡ ok m.fs)
        × (column 1 m.raw_data ≡ ok errs)
        × (np.greatest (map fl.abs errs) ≡ some peak_abs)
        × (time_of np m.fs
              (settling_index (band_flags np errs (np.mean (last_fifth errs)) peak_abs))
            ≡ ok m.settling_time)
  unfolding api_control_metrics
  api_control_metrics-ok out decimation pid_params w {m} {w'} laws h =
      let (r, v, got, computed) =
        Transport.>>=-eq-ok
          (api_get_frame out decimation (Types.int FrameCode.pid_io) default_remote_dir)
          (λ r. lift (
            effective_rate np decimation >>= λ fs.
            metrics_from np fs decimation pid_params r.samples))
          w h in
      let (fc, known, _, sent) = api_get_frame-ok out decimation _ default_remote_dir w got in
      let e : FrameCode.pid_io ≡ fc = cc in
      let there : v ≡ w' = ap (λ p. p.1) computed in
      let (fs, rate, from) = >>=-eq-ok (effective_rate np decimation) _ (ap (λ p. p.0) computed) in
      let (n_cols, rows, made) = is_matrix fs r.samples from in
      let (errs, over, read, settled, shot, raw, same) =
        metrics_of-ok fs decimation pid_params n_cols rows made in
      let (peak_abs, top, time) = settling_time-settling_index fs errs settled in
      (
        n_cols,
        rows,
        errs,
        peak_abs,
        subst (λ u. Sent w (frame_command decimation FrameCode.pid_io) u) there
            (subst (λ c. Sent w (frame_command decimation c) v) (sym e) sent),
        raw,
        omega (arith, column-length n_cols 1 rows read, overshoot-long errs laws shot),
        rate ∙ ap ok (sym same),
        ap (column 1) raw ∙ read,
        top,
        ap
              (λ f.
                time_of np f
                  (settling_index (band_flags np errs (np.mean (last_fifth errs)) peak_abs)))
              same
            ∙ time,
      )
    where
      is_matrix :
          (fs : F) (samples : Array F)
          → metrics_from np fs decimation pid_params samples ≡ ok m
          → (n_cols : ℕ) × (rows : List (List F)) × (metrics_of np fs decimation pid_params n_cols
                rows
              ≡ ok m)
      is_matrix fs (vector xs) e = cc
      is_matrix fs (matrix n rows) e = (n, rows, e)
