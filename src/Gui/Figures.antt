-- ===== src/Gui/Figures.antt =====
-- client/gui.py: the data of the figures and what their export menu writes. The drawing is left out.
pub mod Laws
pub mod Spectrum
pub mod Metrics
use pound_drever_hall.Common.{
  ℕ, zero, suc, ◌+◌, ◌*◌, not, ◌&&◌, Bool, true, false, Option, none, some, List, [], ◌∷◌, ◌++◌,
  map, Text, codes, ltb, if◌then◌else◌, length, get_elem?,
}
use pound_drever_hall.Common.Int.{pos}
use pound_drever_hall.Python.Number.{show_int}
use pound_drever_hall.Python.Result.{Error, Result, ok, err, value_error, index_error, guard, ◌>>=◌}
use pound_drever_hall.Python.Float.{Float}
use pound_drever_hall.Api.Transport.{Array, vector, matrix}
use pound_drever_hall.Api.Arrays.{column, at, label_index}
use pound_drever_hall.Api.Response.{Value, int, float, str}
use pound_drever_hall.Api.Results.{FrameResult, SweepRampResult, PsdResult, ControlMetricsResult}
use pound_drever_hall.Api.Analysis.Numeric.{Numeric}
use pound_drever_hall.Api.Commands.{join}
use pound_drever_hall.Api.Types.{sweep_columns}
use pound_drever_hall.Gui.Check.{whole}
use pound_drever_hall.Gui.Forms.Capture.{is_empty}

-- A plot of `ys` over `xs`, where `none` counts the samples.
pub record Curve (F : Type 0) : Type 0 where
  pub label : Text
  pub xs : Option (List F)
  pub ys : List F

-- A file of the export menu: the header and the numbers.
pub record Table (F : Type 0) : Type 0 where
  pub header : Text
  pub numbers : Array F

pub record Figure (F : Type 0) : Type 0 where
  pub curves : List (Curve F)
  pub csv : Table F
  pub extra_csv : Option (Table F)

abbrev pub all_cols : List Text
all_cols = codes "adc_a" ∷ codes "adc_b" ∷ codes "i_feed" ∷ codes "q_feed" ∷ []

abbrev pub name_at : List Text → ℕ → Text
name_at cols i = elim (get_elem? cols i) [ some col ↦ col | none ↦ codes "col" ++ show_int (pos i) ]

abbrev first_name : List Text → Text
first_name [] = codes "data"
first_name (col ∷ cols) = col

abbrev panels : List Text → ℕ
panels [] = 1
panels (col ∷ cols) = suc (length cols)

-- plt.subplots(n, 1), which wants a positive number of rows
abbrev pub subplots : List Text → Result (Unit {0})
subplots cols =
    guard (not (is_empty cols)) (value_error (codes "Number of rows must be a positive integer"))

abbrev unequal : Error
unequal = value_error (codes "all the input array dimensions must match exactly")

module _ {F : Type 0} where
  abbrev pub csv_table : List Text → Array F → Table F
  csv_table cols numbers = record { header = join cols; numbers = numbers }

  -- The column of an array that has a label.
  unfoldable pub curve : List Text → Array F → List F → Text → Result (Curve F)
  curve cols samples x col = label_index col cols >>= λ i.
      column i samples >>= λ ys. ok record { label = col; xs = some x; ys = ys }

  unfoldable pub curves_of : List Text → Array F → List F → List Text → Result (List (Curve F))
  curves_of cols samples x [] = ok []
  curves_of cols samples x (col ∷ rest) =
      curve cols samples x col >>= λ c. curves_of cols samples x rest >>= λ cs. ok (c ∷ cs)

  -- data.size
  abbrev pub size : Array F → ℕ
  size (vector xs) = length xs
  size (matrix n rows) = n * length rows

  -- `_SweepRampPanel._plot_sweep`
  unfoldable pub plot_sweep : SweepRampResult F → List Text → Result (Figure F)
  plot_sweep r active_cols = column 0 r.samples >>= λ x. subplots active_cols >>= λ _.
      curves_of r.columns r.samples x active_cols >>= λ cs.
      ok record { curves = cs; csv = csv_table r.columns r.samples; extra_csv = none }

  -- The figure that the answer of a sweep opens, if any.
  unfoldable pub show_sweep : SweepRampResult F → List Text → Result (Option (Figure F))
  show_sweep r active_cols =
      if not (is_empty active_cols) && ltb 0 (size r.samples)
      then plot_sweep r active_cols >>= (λ fig. ok (some fig))
      else ok none

  -- `_plot_autolock`
  unfoldable pub plot_autolock : SweepRampResult F → Result (Figure F)
  plot_autolock r = column 0 r.samples >>= λ x.
      curves_of sweep_columns r.samples x all_cols >>= λ cs.
      ok record { curves = cs; csv = csv_table sweep_columns r.samples; extra_csv = none }

  -- The panels `i` up to `i + left - 1` of a frame, of which those without a column stay empty.
  unfoldable pub frame_curves : List Text → Array F → ℕ → ℕ → Result (List (Curve F))
  frame_curves cols samples i zero = ok []
  frame_curves cols (matrix n rows) i (suc left) =
      let rest = frame_curves cols (matrix n rows) (i + 1) left in
      if ltb i n
      then column i (matrix n rows)
        >>= (λ ys. rest >>= (λ cs. ok (record { label = name_at cols i; xs = none; ys = ys } ∷ cs)))
      else rest
  frame_curves cols (vector xs) i (suc left) =
      let rest = frame_curves cols (vector xs) (i + 1) left in
      if ltb 0 i
      then rest
      else rest >>= λ cs. ok (record { label = first_name cols; xs = none; ys = xs } ∷ cs)

  -- data.reshape(-1, 1) of a vector
  abbrev pub as_table : Array F → Array F
  as_table (vector xs) = matrix 1 (map (λ x. x ∷ []) xs)
  as_table (matrix n rows) = matrix n rows

  -- `_FrameCapturePanel._plot_frame`
  unfoldable pub plot_frame : FrameResult F → Result (Figure F)
  plot_frame r = frame_curves r.columns r.samples 0 (panels r.columns) >>= λ cs.
      ok record { curves = cs; csv = csv_table r.columns (as_table r.samples); extra_csv = none }

  -- xs[mask]
  unfoldable pub select : List Bool → List F → Result (List F)
  select [] [] = ok []
  select (b ∷ bs) (x ∷ xs) = select bs xs >>= λ ys. ok (if b then x ∷ ys else ys)
  select [] (x ∷ xs) = err index_error
  select (b ∷ bs) [] = err index_error

  unfoldable pub put_column : List F → List (List F) → Result (List (List F))
  put_column [] [] = ok []
  put_column (x ∷ xs) (row ∷ rows) = put_column xs rows >>= λ rest. ok ((x ∷ row) ∷ rest)
  put_column [] (row ∷ rows) = err unequal
  put_column (x ∷ xs) [] = err unequal

  -- np.column_stack([first] + rest)
  unfoldable pub column_stack : List F → List (List F) → Result (List (List F))
  column_stack first [] = ok (map (λ x. x ∷ []) first)
  column_stack first (second ∷ rest) = column_stack second rest >>= λ rows. put_column first rows

  -- The columns of the active labels, cut to a band.
  unfoldable pub band_columns : List Bool → PsdResult F → List Text → Result (List (List F))
  band_columns mask r [] = ok []
  band_columns mask r (col ∷ rest) = label_index col r.columns >>= λ i. at r.spectra i >>= λ s.
      select mask s >>= λ ys. band_columns mask r rest >>= λ cs. ok (ys ∷ cs)

  abbrev over : List F → List Text → List (List F) → List (Curve F)
  over x (col ∷ cols) (ys ∷ rest) = record { label = col; xs = some x; ys = ys } ∷ over x cols rest
  over x _ _ = []

module _ {F : Type 0} ⦃fl : Float F⦄ where
  abbrev pub band : F → F → List F → List Bool
  band fstart fstop = map λ f. fl.le fstart f && fl.le f fstop

  -- `_PSDPanel._plot_psd`, without the mark of the centre of mass and the text of the mass that
  -- stand on each axis
  unfoldable pub plot_psd : Numeric F → PsdResult F → List Text → F → F → Result (Figure F)
  plot_psd np r active_cols fstart fstop =
      let mask = band fstart fstop r.freqs in
      select mask r.freqs >>= λ freqs. subplots active_cols >>= λ _.
      band_columns mask r active_cols >>= λ cs. column_stack freqs cs >>= λ rows. ok record {
        curves = over (map (λ f. np.ratio f (whole 1000)) freqs) active_cols cs;
        csv = csv_table (codes "freq_hz" ∷ active_cols) (matrix (suc (length active_cols)) rows);
        extra_csv = some (csv_table r.columns r.raw_data);
      }

  -- `_safe`: a NaN becomes null.
  unfoldable pub safe : F → Option F
  safe v = if fl.eq v v then some v else none

  -- float(v) where `v` is a number
  abbrev as_float : Text × Value F → Text × Value F
  as_float (name, int n) = (name, float (fl.of_int n))
  as_float (name, float x) = (name, float x)
  as_float (name, str s) = (name, str s)

  -- The parameters and the metrics of the file that `_show_metrics_figure` exports.
  unfoldable pub controller_params : ControlMetricsResult F → List (Text × Value F)
  controller_params r = map as_float r.pid_params

  unfoldable pub json_metrics : ControlMetricsResult F → List (Text × Option F)
  json_metrics r =
      (codes "rms_error_cts", safe r.rms_error)
      ∷ (codes "settling_time_s", safe r.settling_time)
      ∷ (codes "overshoot_pct", safe r.overshoot)
      ∷ (codes "ctrl_rms_cts", safe r.ctrl_rms)
      ∷ (codes "ctrl_max_cts", safe r.ctrl_max)
      ∷ (codes "ctrl_p95_cts", safe r.ctrl_p95)
      ∷ (codes "ctrl_slew_rms_cts_per_sample", safe r.ctrl_slew_rms)
      ∷ []
