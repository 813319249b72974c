-- ===== src/Gui/Figures/Metrics.antt =====
-- client/gui.py: `_show_metrics_figure`, up to what it draws and what its menu exports.
pub mod Laws
use pound_drever_hall.Common.{
  ℕ, zero, suc, ◌-◌, Bool, true, false, Option, none, some, List, [], ◌∷◌, ◌++◌, map, Text, codes,
  ◌==◌, if◌then◌else◌, length, take,
}
use pound_drever_hall.Common.Int.{ℤ, pos, eq_ℤ}
use pound_drever_hall.Python.Number.{show_int}
use pound_drever_hall.Python.Result.{Result, ok, err, value_error, ◌>>=◌}
use pound_drever_hall.Python.Float.{Float}
use pound_drever_hall.Api.Transport.{Array, matrix}
use pound_drever_hall.Api.Arrays.{at}
use pound_drever_hall.Api.Response.{Value, int, float, str, get, show_value}
use pound_drever_hall.Api.Results.{ControlMetricsResult}
use pound_drever_hall.Api.Analysis.Numeric.{Numeric}
use pound_drever_hall.Gui.Check.{whole}
use pound_drever_hall.Gui.Figures.{
  Curve, Table, csv_table, column_stack, controller_params, json_metrics,
}

-- What numpy adds up here, and f"{x:.3g}".
pub record Sums (F : Type 0) : Type 0 where
  pub sum : List F → F
  pub trapezoid : List F → List F → F
  pub general : F → Text

-- One spectrum over kHz, the end of its axis, the mark of its centre of mass and its mass.
pub record SpectrumPanel (F : Type 0) : Type 0 where
  pub curve : Curve F
  pub right : F
  pub centre : F
  pub mass : Option Text

pub record MetricsFigure (F : Type 0) : Type 0 where
  pub title : Text
  pub panels : List (SpectrumPanel F)
  pub ccf : Curve F
  pub info : List Text
  pub csv : Table F
  pub extra_csv : Table F
  pub params : List (Text × Value F)
  pub metrics : List (Text × Option F)
  pub decimation : ℤ
  pub sample_rate : F

abbrev pub spaces : ℕ → Text
spaces zero = []
spaces (suc n) = 32 ∷ spaces n

-- f"{s:<n}"
unfoldable pub left : ℕ → Text → Text
left n s = s ++ spaces (n - length s)

abbrev pub dashes : ℕ → Text
dashes zero = []
dashes (suc n) = b'-' ∷ dashes n

abbrev show_bool : Bool → Text
show_bool true = codes "True"
show_bool false = codes "False"

-- Two fields of 20 characters, and the metric.
unfoldable pub info_line : Text × Text × Text → Text
info_line (a, b, metric) = left 20 a ++ (left 20 b ++ metric)

module _ {F : Type 0} ⦃fl : Float F⦄ where
  -- Element by element, where an array of one element goes with each of the other.
  abbrev pub zipped : List F → List F → List F
  zipped (x ∷ xs) (y ∷ ys) = fl.mul x y ∷ zipped xs ys
  zipped _ _ = []

  unfoldable pub products : List F → List F → Result (List F)
  products (x ∷ []) ys = ok (map (fl.mul x) ys)
  products xs (y ∷ []) = ok (map (λ x. fl.mul x y) xs)
  products xs ys =
      if length xs == length ys
      then ok (zipped xs ys)
      else err (value_error (codes "operands could not be broadcast together"))

  -- `bool(v)`
  abbrev truth : Value F → Bool
  truth (int n) = if eq_ℤ n (pos 0) then false else true
  truth (float x) = if fl.eq x (whole 0) then false else true
  truth (str []) = false
  truth (str (c ∷ s)) = true

  -- "Kp = " + str(p.get("kp", "?"))
  abbrev parameter : List (Text × Value F) → Text → Text → Text
  parameter p label key = label ++ (codes " = " ++ show_value (get p key (str (codes "?"))))

  abbrev enabled : List (Text × Value F) → Text
  enabled p = codes "En = " ++ show_bool (truth (get p (codes "en") (int (pos 0))))

  abbrev millis : F → F
  millis x = fl.mul x (whole 1000)

  -- A settling time that is not a number has no text.
  abbrev settling_text : F → Text
  settling_text t = if fl.eq t t then fl.fixed 3 (millis t) ++ codes " ms" else codes "N/A"

  -- The lines of the box below the head: two parameters or none, then a metric.
  unfoldable pub info_rows : ControlMetricsResult F → List (Text × Text × Text)
  info_rows r =
      let p = r.pid_params in
      (
        parameter p (codes "Kp") (codes "kp"),
        parameter p (codes "Ki") (codes "ki"),
        codes "RMS Error     = " ++ (fl.fixed 2 r.rms_error ++ codes " cts"),
      )
      ∷ (
        parameter p (codes "Kd") (codes "kd"),
        parameter p (codes "SP") (codes "sp"),
        codes "Settling Time = " ++ settling_text r.settling_time,
      )
      ∷ (
        parameter p (codes "Dec") (codes "dec"),
        parameter p (codes "α") (codes "alpha"),
        codes "Overshoot     = " ++ (fl.fixed 2 r.overshoot ++ codes " %"),
      )
      ∷ (
        parameter p (codes "Sat") (codes "sat"),
        parameter p (codes "Gain") (codes "gain"),
        codes "Ctrl RMS      = " ++ (fl.fixed 1 r.ctrl_rms ++ codes " cts"),
      )
      ∷ (
        parameter p (codes "Bias") (codes "bias"),
        enabled p,
        codes "Ctrl Max      = " ++ (fl.fixed 1 r.ctrl_max ++ codes " cts"),
      )
      ∷ ([], [], codes "Ctrl P95      = " ++ (fl.fixed 1 r.ctrl_p95 ++ codes " cts"))
      ∷ ([], [], codes "Ctrl Slew RMS = " ++ (fl.fixed 2 r.ctrl_slew_rms ++ codes " cts/smp"))
      ∷ (
        [],
        [],
        codes "CCF Peak      = " ++ (fl.fixed 3 r.ccf_peak ++ codes " (correction quality)"),
      )
      ∷ ([], [], codes "CCF Peak Lag  = " ++ (fl.fixed 3 (millis r.ccf_peak_lag) ++ codes " ms"))
      ∷ []

  abbrev pub info_lines : ControlMetricsResult F → List Text
  info_lines r =
      (left 40 (codes "Controller Parameters") ++ codes "Metrics")
      ∷ dashes 70
      ∷ map info_line (info_rows r)

  module _ (np : Numeric F) (sums : Sums F) where
    abbrev pub in_khz : ControlMetricsResult F → List F
    in_khz r = map (λ f. np.ratio f (whole 1000)) r.freqs

    -- The axis of a column, with the elements of its spectrum and their products with the frequencies.
    abbrev pub drawn : ControlMetricsResult F → Bool → Text → List F → List F → SpectrumPanel F
    drawn r show_mass col ys weighted = record {
      curve = record { label = col; xs = some (in_khz r); ys = ys };
      right = np.ratio r.fs (whole 2000);
      centre = np.ratio (sums.sum weighted) (sums.sum ys);
      mass =
          if show_mass
          then some (codes "mass = " ++ (sums.general (sums.trapezoid ys r.freqs) ++ codes " cts²"))
          else none;
    }

    -- The column is `psd[:, i]`.
    unfoldable pub spectrum_panel :
        ControlMetricsResult F → Bool → ℕ → Text → Result (SpectrumPanel F)
    spectrum_panel r show_mass i col = at r.spectra i >>= λ ys.
        products (in_khz r) ys >>= λ weighted. ok (drawn r show_mass col ys weighted)

    unfoldable pub panels_from :
        ControlMetricsResult F → Bool → ℕ → List Text → Result (List (SpectrumPanel F))
    panels_from r show_mass i [] = ok []
    panels_from r show_mass i (col ∷ cols) = spectrum_panel r show_mass i col >>= λ p.
        panels_from r show_mass (suc i) cols >>= λ ps. ok (p ∷ ps)

    -- `ts` is the time of day, and `rows` the second file.
    abbrev pub with_panels :
        Text → ControlMetricsResult F → List (SpectrumPanel F) → List (List F) → MetricsFigure F
    with_panels ts r panels rows = record {
      title =
          codes "Control Metrics  dec="
          ++ (show_int r.decimation
              ++ (codes "  fs="
                  ++ (fl.fixed 3 (np.ratio r.fs (whole 1000000)) ++ (codes " MHz  " ++ ts))));
      panels = panels;
      ccf = record {
        label =
            codes "peak="
            ++ (fl.fixed 3 r.ccf_peak
                ++ (codes "  lag=" ++ (fl.fixed 3 (millis r.ccf_peak_lag) ++ codes " ms")));
        xs = some (map millis r.ccf_lags);
        ys = r.ccf;
      };
      info = info_lines r;
      csv = csv_table r.columns r.raw_data;
      extra_csv =
          csv_table (codes "freq_hz" ∷ map (λ c. c ++ codes "_psd") r.columns) (matrix 4 rows);
      params = controller_params r;
      metrics = json_metrics r;
      decimation = r.decimation;
      sample_rate = r.fs;
    }

    -- The figure has three axes for spectra.
    unfoldable pub metrics_figure : Text → ControlMetricsResult F → Bool → Result (MetricsFigure F)
    metrics_figure ts r show_mass = panels_from r show_mass 0 (take 3 r.columns) >>= λ panels.
        at r.spectra 0 >>= λ s0. at r.spectra 1 >>= λ s1. at r.spectra 2 >>= λ s2.
        column_stack r.freqs (s0 ∷ s1 ∷ s2 ∷ []) >>= λ rows. ok (with_panels ts r panels rows)
