-- ===== src/Tests/Metrics.antt =====
-- A run of the theorem on the figure of the control metrics.
use pound_drever_hall.Common.{◌≡◌, refl, true, some, List, [], ◌∷◌, map, codes, length, All}
use pound_drever_hall.Common.Int.{pos}
use pound_drever_hall.Python.Result.{ok}
use pound_drever_hall.Api.Transport.{matrix}
use pound_drever_hall.Api.Response.{int}
use pound_drever_hall.Api.Arrays.{IsTable}
use pound_drever_hall.Api.Types.{FrameCode, frame_columns}
use pound_drever_hall.Api.Results.{ControlMetricsResult}
use pound_drever_hall.Gui.Figures.Metrics.{Sums, MetricsFigure, metrics_figure}
use pound_drever_hall.Gui.Figures.Metrics.Laws.{is_some, metrics_figure-total}
use pound_drever_hall.Tests.Numbers.{Real, real_float, show_real}
use pound_drever_hall.Tests.Analysis.{numeric}

abbrev sums : Sums Real
sums = record { sum = real_float.sum; trapezoid = λ ys xs. real_float.sum ys; general = show_real }

abbrev two : List Real
two = some (pos 3) ∷ some (pos 4) ∷ []

abbrev measured : ControlMetricsResult Real
measured = record {
  raw_data = matrix 3 [];
  columns = frame_columns FrameCode.pid_io;
  fs = some (pos 4000);
  decimation = pos 100;
  freqs = some (pos 0) ∷ some (pos 2000) ∷ [];
  spectra = two ∷ two ∷ two ∷ [];
  rms_error = some (pos 2);
  settling_time = real_float.nan;
  overshoot = some (pos 1);
  ctrl_rms = some (pos 5);
  ctrl_max = some (pos 9);
  ctrl_p95 = some (pos 8);
  ctrl_slew_rms = some (pos 1);
  ccf_lags = some (pos 0) ∷ [];
  ccf = some (pos 1) ∷ [];
  ccf_peak = some (pos 1);
  ccf_peak_lag = some (pos 0);
  pid_params = (codes "kp", int (pos 5)) ∷ (codes "en", int (pos 1)) ∷ [];
}

metrics_figure-total_example :
    (fig : MetricsFigure Real) × (rows : List (List Real)) × (metrics_figure numeric sums
        (codes "12:00:00")
        measured
        true
      ≡ ok fig)
    × (map (λ p. p.curve.label) fig.panels ≡ measured.columns)
    × All (λ p. is_some p.mass ≡ true) fig.panels
    × ((fig.extra_csv).numbers ≡ matrix 4 rows)
    × (length rows ≡ length measured.freqs)
    × IsTable 4 rows
metrics_figure-total_example =
    metrics_figure-total numeric sums (codes "12:00:00") measured true refl refl
      (refl, (refl, (refl, tt)))
