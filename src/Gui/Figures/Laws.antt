-- ===== src/Gui/Figures/Laws.antt =====
-- What the figures show.
use pound_drever_hall.Common.{
  ◌≡◌, subst, sym, refl, ap, ◌<◌, Bool, true, false, none, some, List, [], ◌∷◌, map, Text, length,
  All, arith, ℕ, zero, suc, ◌+◌, ◌≤◌, Bool-cases, inl, inr, ◌*◌, ltb, lt→ltb,
}
use pound_drever_hall.Common.Int.{ℤ}
use pound_drever_hall.Python.Result.{ok}
use pound_drever_hall.Python.Float.{Float}
use pound_drever_hall.Api.Transport.{Outside, World, Array, matrix}
use pound_drever_hall.Api.Arrays.{index_of, column, IsTable, column-total}
use pound_drever_hall.Api.Results.{SweepRampResult}
use pound_drever_hall.Api.Commands.{api_sweep_ramp, columns_of}
use pound_drever_hall.Api.Commands.Captures.Laws.{api_sweep_ramp-ok}
use pound_drever_hall.Api.Types.{sweep_columns}
use pound_drever_hall.Gui.Check.{flag}
use pound_drever_hall.Gui.Forms.Capture.{SweepForm, is_empty, chosen, sweep_cols}
use pound_drever_hall.Gui.Figures.{
  Curve, Figure, curve, curves_of, frame_curves, name_at, all_cols, plot_autolock, safe, plot_sweep,
  show_sweep, size, csv_table,
}

-- A label stands among the columns.
abbrev pub IsColumn : List Text → Text → Type 0
IsColumn cols col = (i : ℕ) × (index_of col cols ≡ some i) × (i < length cols)

pub chosen-IsColumn :
    (cols : List Text) (boxes : List (Text × Bool))
    → All (λ b. IsColumn cols b.0) boxes
    → All (IsColumn cols) (chosen boxes)
unfolding chosen
chosen-IsColumn cols [] p = tt
chosen-IsColumn cols ((col, true) ∷ rest) (p, ps) = (p, chosen-IsColumn cols rest ps)
chosen-IsColumn cols ((col, false) ∷ rest) (p, ps) = chosen-IsColumn cols rest ps

-- The labels that a sweep is plotted by are columns of its mode.
sweep_cols-IsColumn :
    (form : SweepForm) → All (IsColumn (columns_of (flag form.demod_mode))) (sweep_cols form)
unfolding sweep_cols
sweep_cols-IsColumn form = by_mode form.demod_mode
  where
    by_mode :
        (mode : Bool)
        → All (IsColumn (columns_of (flag mode))) (sweep_cols (record form { demod_mode = mode }))
    by_mode true = ((1, refl, omega arith), tt)
    by_mode false = chosen-IsColumn (columns_of (flag false)) _ (
      (1, refl, omega arith),
      ((2, refl, omega arith), ((3, refl, omega arith), ((4, refl, omega arith), tt))),
    )

all_cols-IsColumn : All (IsColumn sweep_columns) all_cols
all_cols-IsColumn = (
  (1, refl, omega arith),
  ((2, refl, omega arith), ((3, refl, omega arith), ((4, refl, omega arith), tt))),
)

columns_of-positive : (mode : Bool) → 0 < length (columns_of (flag mode))
columns_of-positive true = omega arith
columns_of-positive false = omega arith

columns_of-filled : (mode : Bool) (n : ℕ) → ltb 0 (length (columns_of (flag mode)) * suc n) ≡ true
columns_of-filled true n = lt→ltb 0 (2 * suc n) (omega arith)
columns_of-filled false n = lt→ltb 0 (5 * suc n) (omega arith)

module _ {F : Type 0} where
  -- A curve of a table is the column of its label over `x`.
  abbrev pub IsCurve : List Text → Array F → List F → Curve F → Type 0
  IsCurve cols samples x c =
      (i : ℕ) × (index_of c.label cols ≡ some i) × (column i samples ≡ ok c.ys) × (c.xs ≡ some x)

  curves_of-total :
      (cols : List Text) (rows : List (List F)) (x : List F) (active : List Text)
      → IsTable (length cols) rows
      → All (IsColumn cols) active
      → (cs : List (Curve F)) × (curves_of cols (matrix (length cols) rows) x active ≡ ok cs)
        × (map (λ c. c.label) cs ≡ active)
        × All (IsCurve cols (matrix (length cols) rows) x) cs
  unfolding curves_of curve
  curves_of-total cols rows x [] h p = ([], refl, refl, tt)
  curves_of-total cols rows x (col ∷ active) h ((i, found, inside), ps) =
      let (ys, e, _) = column-total (length cols) i rows inside h in
      let (cs, rest, labels, shown) = curves_of-total cols rows x active h ps in
      (
        record { label = col; xs = some x; ys = ys } ∷ cs,
        rw (found, e, rest),
        ap (λ l. col ∷ l) labels,
        ((i, found, e, refl), shown),
      )

  plot_sweep-total :
      (r : SweepRampResult F) (form : SweepForm) (rows : List (List F))
      → is_empty (sweep_cols form) ≡ false
      → r.columns ≡ columns_of (flag form.demod_mode)
      → r.samples ≡ matrix (length (columns_of (flag form.demod_mode))) rows
      → IsTable (length (columns_of (flag form.demod_mode))) rows
      → (x : List F) × (fig : Figure F) × (column 0 r.samples ≡ ok x)
        × (plot_sweep r (sweep_cols form) ≡ ok fig)
        × (map (λ c. c.label) fig.curves ≡ sweep_cols form)
        × All (IsCurve r.columns r.samples x) fig.curves
  unfolding plot_sweep
  plot_sweep-total r form rows some_box cols shape h =
      let names = columns_of (flag form.demod_mode) in
      let (x, e, _) = column-total (length names) 0 rows (columns_of-positive form.demod_mode) h in
      let (cs, drawn, labels, shown) =
        curves_of-total names rows x (sweep_cols form) h (sweep_cols-IsColumn form) in
      (
        x,
        record { curves = cs; csv = csv_table r.columns r.samples; extra_csv = none },
        rw (shape, e),
        rw (shape, e, some_box, cols, drawn),
        labels,
        rw (shape, cols) shown,
      )

  -- The figure of a lock shows the four channels of its sweep.
  plot_autolock-total :
      (r : SweepRampResult F) (rows : List (List F))
      → r.samples ≡ matrix (length sweep_columns) rows
      → IsTable (length sweep_columns) rows
      → (fig : Figure F) × (plot_autolock r ≡ ok fig) × (map (λ c. c.label) fig.curves ≡ all_cols)
  unfolding plot_autolock
  plot_autolock-total r rows shape h =
      let (x, e, _) = column-total 5 0 rows (omega arith) h in
      let (cs, drawn, labels, _) =
        curves_of-total sweep_columns rows x all_cols h all_cols-IsColumn in
      (
        record { curves = cs; csv = csv_table sweep_columns r.samples; extra_csv = none },
        rw (shape, e, drawn),
        labels,
      )

  -- A frame whose columns are those of its table has a curve for each.
  frame_curves-total :
      (cols : List Text) (n : ℕ) (rows : List (List F)) (i left : ℕ)
      → i + left ≤ n
      → IsTable n rows
      → (cs : List (Curve F)) × (frame_curves cols (matrix n rows) i left ≡ ok cs)
        × (length cs ≡ left)
  unfolding frame_curves
  frame_curves-total cols n rows i zero h p = ([], refl, refl)
  frame_curves-total cols n rows i (suc left) h p =
      let (ys, e, _) = column-total n i rows (omega (arith, h)) p in
      let (cs, rest, size) = frame_curves-total cols n rows (i + 1) left (omega (arith, h)) p in
      (
        record { label = name_at cols i; xs = none; ys = ys } ∷ cs,
        rw (lt→ltb i n (omega (arith, h)), e, rest),
        ap suc size,
      )

module _ {F : Type 0} ⦃fl : Float F⦄ (out : Outside F) where
  -- A sweep that has returned at least one row, each with the columns of its mode, opens a figure if
  -- a box is ticked or the mode is that of the demodulated signal: the figure has one curve for each
  -- ticked channel, or one of the demodulated signal, in their order, and each is the column of its
  -- label over the voltages.
  pub show_sweep-ok :
      (form : SweepForm) (v0 v1 : F) (pts sel delay : ℤ) (dir : Text) (w : World)
      {r : SweepRampResult F} {w' : World} (row : List F) (rows : List (List F))
      → api_sweep_ramp out v0 v1 pts sel delay (flag form.demod_mode) dir w ≡ (ok r, w')
      → is_empty (sweep_cols form) ≡ false
      → r.samples ≡ matrix (length (columns_of (flag form.demod_mode))) (row ∷ rows)
      → IsTable (length (columns_of (flag form.demod_mode))) (row ∷ rows)
      → (x : List F) × (fig : Figure F) × (column 0 r.samples ≡ ok x)
        × (show_sweep r (sweep_cols form) ≡ ok (some fig))
        × (map (λ c. c.label) fig.curves ≡ sweep_cols form)
        × All (IsCurve r.columns r.samples x) fig.curves
  unfolding show_sweep
  show_sweep-ok form v0 v1 pts sel delay dir w {r} row rows call some_box shape h =
      let (sent, cols) =
        api_sweep_ramp-ok out v0 v1 pts sel delay (flag form.demod_mode) dir w call in
      let (x, fig, e, drawn, labels, shown) =
        plot_sweep-total r form (row ∷ rows) some_box cols shape h in
      let filled : ltb 0 (size r.samples) ≡ true =
        rw (shape, columns_of-filled form.demod_mode (length rows)) in
      (x, fig, e, rw (some_box, filled, drawn), labels, shown)

module _ {F : Type 0} ⦃fl : Float F⦄ where
  -- A number that is exported is a number, the one that was computed.
  safe-IsNumber : (v : F) {x : F} → safe v ≡ some x → (fl.eq x x ≡ true) × (x ≡ v)
  unfolding safe
  safe-IsNumber v {x} h = elim (Bool-cases (fl.eq v v)) [
    | inl number ↦
        let e : some v ≡ some x = rw number at h in
        let same : v ≡ x = cc in (subst (λ y. fl.eq y y ≡ true) same number, sym same)
    | inr other ↦ let e : none ≡ some x = rw other at h in cc
  ]
