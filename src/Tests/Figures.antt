-- ===== src/Tests/Figures.antt =====
-- Runs of the theorems on figures.
use pound_drever_hall.Common.{◌≡◌, refl, false, some, List, [], ◌∷◌, map, codes, length, All, suc}
use pound_drever_hall.Common.Int.{pos, negsuc}
use pound_drever_hall.Python.Str.{
  is_space, is_break, strip, lstrip, rstrip, splitlines, contains, partition,
}
use pound_drever_hall.Python.Number.{int_of, scan, show_int, digits}
use pound_drever_hall.Python.Result.{ok}
use pound_drever_hall.Api.Response.{
  int, insert, lookup, get, coerce, read_line, read_lines, parse_response, is_zero,
}
use pound_drever_hall.Api.Transport.{
  World, execute_cmd, ssh_fetch_csv, load_csv, check_status, api_cmd, vector, matrix,
}
use pound_drever_hall.Api.Arrays.{column, IsTable}
use pound_drever_hall.Api.Types.{frame_columns}
use pound_drever_hall.Api.Results.{SweepRampResult, PsdResult}
use pound_drever_hall.Api.Commands.{api_sweep_ramp, fetch}
use pound_drever_hall.Gui.Forms.Capture.{
  is_empty, SweepForm, initial_sweep, sweep_cols, initial_psd, psd_cols, chosen,
}
use pound_drever_hall.Gui.Figures.{Figure, show_sweep, plot_psd, band}
use pound_drever_hall.Gui.Figures.Laws.{IsCurve, show_sweep-ok}
use pound_drever_hall.Gui.Figures.Spectrum.{count, plot_psd-total}
use pound_drever_hall.Tests.Numbers.{Real, real_float}
use pound_drever_hall.Tests.Server.{server, start, two_rows}
use pound_drever_hall.Tests.Analysis.{numeric}

-- Two of the boxes are ticked.
abbrev two_boxes : SweepForm
two_boxes = record initial_sweep { plot_adc_a = false; plot_i = false }

abbrev swept : World
swept =
    (api_sweep_ramp server (some (negsuc 0)) (some (pos 1)) (pos 2) (pos 0) (pos 0) (pos 0)
      (codes "sw/build") start).1

sweep_returned :
    (r : SweepRampResult Real) × (api_sweep_ramp server
        (some (negsuc 0))
        (some (pos 1))
        (pos 2)
        (pos 0)
        (pos 0)
        (pos 0)
        (codes "sw/build")
        start
      ≡ (ok r, swept))
    × (r.samples ≡ two_rows)
unfolding api_sweep_ramp fetch ssh_fetch_csv load_csv api_cmd check_status execute_cmd
    parse_response read_lines read_line insert lookup get coerce is_zero splitlines contains
    partition int_of strip lstrip rstrip scan is_space is_break show_int digits
sweep_returned = (_, refl, refl)

ticked : is_empty (sweep_cols two_boxes) ≡ false
unfolding sweep_cols chosen
ticked = refl

show_sweep-ok_example :
    let r = sweep_returned.0 in
    (x : List Real) × (fig : Figure Real) × (column 0 r.samples ≡ ok x)
    × (show_sweep r (sweep_cols two_boxes) ≡ ok (some fig))
    × (map (λ c. c.label) fig.curves ≡ sweep_cols two_boxes)
    × All (IsCurve r.columns r.samples x) fig.curves
show_sweep-ok_example =
    show_sweep-ok server two_boxes (some (negsuc 0)) (some (pos 1)) (pos 2) (pos 0) (pos 0)
      (codes "sw/build") start
      (some (negsuc 0) ∷ some (pos 1) ∷ some (pos 1) ∷ some (pos 50) ∷ some (pos 0) ∷ [])
      ((some (pos 1) ∷ some (pos 1) ∷ some (pos 1) ∷ some (pos 20) ∷ some (pos 0) ∷ []) ∷ [])
      sweep_returned.1 ticked sweep_returned.2 (refl, (refl, tt))

abbrev three_bins : List Real
three_bins = some (pos 0) ∷ some (pos 10) ∷ some (pos 20) ∷ []

abbrev flat : List Real
flat = some (pos 1) ∷ some (pos 1) ∷ some (pos 1) ∷ []

abbrev four_spectra : PsdResult Real
four_spectra = record {
  status = int (pos 0);
  freqs = three_bins;
  spectra = flat ∷ flat ∷ flat ∷ flat ∷ [];
  fs = some (pos 40);
  columns = codes "adc_a" ∷ codes "adc_b" ∷ codes "i_feed" ∷ codes "q_feed" ∷ [];
  raw_data = vector [];
}

some_channel : is_empty (psd_cols initial_psd).1 ≡ false
unfolding psd_cols chosen
some_channel = refl

adc_columns : four_spectra.columns ≡ frame_columns (psd_cols initial_psd).0
unfolding psd_cols
adc_columns = refl

plot_psd-total_example :
    let active = (psd_cols initial_psd).1 in
    (fig : Figure Real) × (rows : List (List Real)) × (plot_psd numeric four_spectra active
        (some (pos 5))
        (some (pos 20))
      ≡ ok fig)
    × (map (λ c. c.label) fig.curves ≡ active)
    × ((fig.csv).numbers ≡ matrix (suc (length active)) rows)
    × (length rows ≡ count (band (some (pos 5)) (some (pos 20)) three_bins))
    × IsTable (suc (length active)) rows
plot_psd-total_example =
    plot_psd-total numeric four_spectra initial_psd (some (pos 5)) (some (pos 20)) some_channel
      adc_columns refl (refl, (refl, (refl, (refl, tt))))
