-- ===== src/Gui/Figures/Metrics/Laws.antt =====
-- The figure of the control metrics: what it shows and what it exports.
use pound_drever_hall.Common.{
  ℕ, suc, ◌+◌, ◌≤◌, ◌≡◌, refl, Bool, true, false, Option, none, some, List, [], ◌∷◌, map, Text,
  length, take, length-map, ◌∙◌, sym, if◌then◌else◌, ◌<◌, All, arith, ==_iff,
}
use pound_drever_hall.Python.Result.{ok}
use pound_drever_hall.Python.Float.{Float}
use pound_drever_hall.Api.Transport.{matrix}
use pound_drever_hall.Api.Arrays.{IsTable}
use pound_drever_hall.Api.Results.{ControlMetricsResult}
use pound_drever_hall.Api.Analysis.Numeric.{Numeric}
use pound_drever_hall.Api.Types.{FrameCode, frame_columns}
use pound_drever_hall.Gui.Check.{whole}
use pound_drever_hall.Gui.Figures.Spectrum.{column_stack-total, element-total}
use pound_drever_hall.Gui.Figures.Metrics.{
  Sums, SpectrumPanel, MetricsFigure, products, zipped, drawn, with_panels, spectrum_panel,
  panels_from, metrics_figure,
}

abbrev pub is_some : {A : Type 0} → Option A → Bool
is_some none = false
is_some (some x) = true

mass-shown : {A : Type 0} (x : A) (b : Bool) → is_some (if b then some x else none) ≡ b
mass-shown x true = refl
mass-shown x false = refl

module _ {F : Type 0} ⦃fl : Float F⦄ where
  products-total :
      (xs ys : List F) → length xs ≡ length ys → (zs : List F) × (products xs ys ≡ ok zs)
  unfolding products
  products-total [] [] h = ([], refl)
  products-total [] (y ∷ ys) h = absurd (omega (arith, h))
  products-total (x ∷ []) ys h = (_, refl)
  products-total (x ∷ x' ∷ xs) [] h = absurd (omega (arith, h))
  products-total (x ∷ x' ∷ xs) (y ∷ []) h = absurd (omega (arith, h))
  products-total (x ∷ x' ∷ xs) (y ∷ y' ∷ ys) h =
      let same = (==_iff (length (x ∷ x' ∷ xs)) (length (y ∷ y' ∷ ys))).1 h in
      (zipped (x ∷ x' ∷ xs) (y ∷ y' ∷ ys), rw same refl)

  module _ (np : Numeric F) (sums : Sums F) where
    spectrum_panel-total :
        (r : ControlMetricsResult F) (show_mass : Bool) (i : ℕ) (col : Text)
        → i < length r.spectra
        → IsTable (length r.freqs) r.spectra
        → (p : SpectrumPanel F) × (spectrum_panel np sums r show_mass i col ≡ ok p)
          × (p.curve.label ≡ col)
          × (is_some p.mass ≡ show_mass)
    unfolding spectrum_panel
    spectrum_panel-total r show_mass i col inside shape =
        let (ys, e, size) = element-total (length r.freqs) i r.spectra inside shape in
        let (zs, product) =
          products-total (map (λ f. np.ratio f (whole 1000)) r.freqs) ys
            (length-map _ r.freqs ∙ sym size) in
        (drawn np sums r show_mass col ys zs, rw (e, product) refl, refl, mass-shown _ show_mass)

    panels_from-total :
        (r : ControlMetricsResult F) (show_mass : Bool) (i : ℕ) (cols : List Text)
        → i + length cols ≤ length r.spectra
        → IsTable (length r.freqs) r.spectra
        → (ps : List (SpectrumPanel F)) × (panels_from np sums r show_mass i cols ≡ ok ps)
          × (map (λ p. p.curve.label) ps ≡ cols)
          × All (λ p. is_some p.mass ≡ show_mass) ps
    unfolding panels_from
    panels_from-total r show_mass i [] h shape = ([], refl, refl, tt)
    panels_from-total r show_mass i (col ∷ cols) h shape =
        let (p, e, label, mass) = spectrum_panel-total r show_mass i col (omega (arith, h)) shape in
        let (ps, es, labels, masses) =
          panels_from-total r show_mass (suc i) cols (omega (arith, h)) shape in
        (p ∷ ps, rw (e, es) refl, rw (label, labels) refl, (mass, masses))

    -- The figure of metrics with the three columns of a frame of the controller, three spectra,
    -- and a number for each frequency in each, is always drawn: it has a panel for each column, in
    -- their order, with the mass on all of them or on none as the box says; and the second file has a
    -- row of four numbers for each frequency.
    pub metrics_figure-total :
        (ts : Text) (r : ControlMetricsResult F) (show_mass : Bool)
        → r.columns ≡ frame_columns FrameCode.pid_io
        → length r.spectra ≡ 3
        → IsTable (length r.freqs) r.spectra
        → (fig : MetricsFigure F) × (rows : List (List F)) × (metrics_figure np sums ts r show_mass
            ≡ ok fig)
          × (map (λ p. p.curve.label) fig.panels ≡ r.columns)
          × All (λ p. is_some p.mass ≡ show_mass) fig.panels
          × ((fig.extra_csv).numbers ≡ matrix 4 rows)
          × (length rows ≡ length r.freqs)
          × IsTable 4 rows
    unfolding metrics_figure
    metrics_figure-total ts r show_mass names three shape =
        let n = length r.freqs in
        let three_names : take 3 r.columns ≡ r.columns = rw names refl in
        let (ps, e, labels, masses) =
          panels_from-total r show_mass 0 r.columns (rw names (omega (arith, three))) shape in
        let (s0, at0, size0) = element-total n 0 r.spectra (omega (arith, three)) shape in
        let (s1, at1, size1) = element-total n 1 r.spectra (omega (arith, three)) shape in
        let (s2, at2, size2) = element-total n 2 r.spectra (omega (arith, three)) shape in
        let (rows, stacked, n_rows, table) =
          column_stack-total n r.freqs (s0 ∷ s1 ∷ s2 ∷ []) refl (size0, (size1, (size2, tt))) in
        (
          with_panels np sums ts r ps rows,
          rows,
          rw (three_names, e, at0, at1, at2, stacked) refl,
          labels,
          masses,
          refl,
          n_rows,
          table,
        )
