-- ===== src/Gui/Figures/Spectrum.antt =====
-- The figure of a PSD: every channel that can be ticked has a spectrum, and the band cuts all alike.
use pound_drever_hall.Common.{
  ℕ, zero, suc, ◌≡◌, refl, ap, ◌∙◌, Bool, true, false, some, List, [], ◌∷◌, map, Text, codes,
  if◌then◌else◌, length, length-map, All, arith, ◌<◌,
}
use pound_drever_hall.Python.Result.{ok}
use pound_drever_hall.Python.Float.{Float}
use pound_drever_hall.Api.Transport.{matrix}
use pound_drever_hall.Api.Arrays.{at, IsTable}
use pound_drever_hall.Api.Results.{PsdResult}
use pound_drever_hall.Api.Analysis.Numeric.{Numeric}
use pound_drever_hall.Api.Types.{FrameCode, frame_columns}
use pound_drever_hall.Gui.Check.{whole}
use pound_drever_hall.Gui.Forms.Capture.{PsdMode, adc, pid, PsdForm, psd_cols, is_empty}
use pound_drever_hall.Gui.Figures.{
  Figure, select, put_column, column_stack, band_columns, band, over, plot_psd, csv_table,
}
use pound_drever_hall.Gui.Figures.Laws.{IsColumn, chosen-IsColumn}

-- How many elements a mask keeps.
abbrev pub count : List Bool → ℕ
count [] = 0
count (b ∷ bs) = if b then suc (count bs) else count bs

module _ {F : Type 0} where
  select-total :
      (mask : List Bool) (xs : List F)
      → length mask ≡ length xs
      → (ys : List F) × (select mask xs ≡ ok ys) × (length ys ≡ count mask)
  unfolding select
  select-total [] [] h = ([], refl, refl)
  select-total [] (x ∷ xs) h = absurd (omega (arith, h))
  select-total (b ∷ bs) [] h = absurd (omega (arith, h))
  select-total (true ∷ bs) (x ∷ xs) h =
      let (ys, e, size) = select-total bs xs (omega (arith, h)) in
      (x ∷ ys, rw e, omega (arith, size))
  select-total (false ∷ bs) (x ∷ xs) h =
      let (ys, e, size) = select-total bs xs (omega (arith, h)) in (ys, rw e, size)

  put_column-total :
      (k : ℕ) (xs : List F) (rows : List (List F))
      → length xs ≡ length rows
      → IsTable k rows
      → (out : List (List F)) × (put_column xs rows ≡ ok out)
        × (length out ≡ length xs)
        × IsTable (suc k) out
  unfolding put_column
  put_column-total k [] [] h p = ([], refl, refl, tt)
  put_column-total k [] (row ∷ rows) h p = absurd (omega (arith, h))
  put_column-total k (x ∷ xs) [] h p = absurd (omega (arith, h))
  put_column-total k (x ∷ xs) (row ∷ rows) h (p, ps) =
      let (out, e, size, table) = put_column-total k xs rows (omega (arith, h)) ps in
      ((x ∷ row) ∷ out, rw e, omega (arith, size), (ap suc p, table))

  single-IsTable :
      (xs : List F) → (length (map (λ x. x ∷ []) xs) ≡ length xs) × IsTable 1 (map (λ x. x ∷ []) xs)
  single-IsTable [] = (refl, tt)
  single-IsTable (x ∷ xs) = let (size, p) = single-IsTable xs in (ap suc size, (refl, p))

  -- Columns of one length make a table of that many rows.
  pub column_stack-total :
      (n : ℕ) (first : List F) (rest : List (List F))
      → length first ≡ n
      → IsTable n rest
      → (rows : List (List F)) × (column_stack first rest ≡ ok rows)
        × (length rows ≡ n)
        × IsTable (suc (length rest)) rows
  unfolding column_stack
  column_stack-total n first [] h p =
      let (size, p) = single-IsTable first in (map (λ x. x ∷ []) first, refl, size ∙ h, p)
  column_stack-total n first (second ∷ rest) h (p, ps) =
      let (rows, e, size, p) = column_stack-total n second rest p ps in
      let (out, e', size', p') =
        put_column-total (suc (length rest)) first rows (omega (arith, h, size)) p in
      (out, rw (e, e'), size' ∙ h, p')

  pub element-total :
      (n i : ℕ) (spectra : List (List F))
      → i < length spectra
      → IsTable n spectra
      → (s : List F) × (at spectra i ≡ ok s) × (length s ≡ n)
  element-total n i [] h p = absurd (omega (arith, h))
  element-total n zero (s ∷ spectra) h (p, ps) = (s, refl, p)
  element-total n (suc i) (s ∷ spectra) h (p, ps) = element-total n i spectra (omega (arith, h)) ps

  -- The spectra of labels that stand among the columns, cut by a mask.
  band_columns-total :
      (mask : List Bool) (r : PsdResult F) (active : List Text)
      → length r.spectra ≡ length r.columns
      → IsTable (length mask) r.spectra
      → All (IsColumn r.columns) active
      → (cs : List (List F)) × (band_columns mask r active ≡ ok cs)
        × (length cs ≡ length active)
        × IsTable (count mask) cs
  unfolding band_columns
  band_columns-total mask r [] h p q = ([], refl, refl, tt)
  band_columns-total mask r (col ∷ active) h p ((i, found, inside), qs) =
      let (s, e, size) = element-total (length mask) i r.spectra (omega (arith, h, inside)) p in
      let (ys, cut, kept) = select-total mask s (omega (arith, size)) in
      let (cs, rest, sizes, shape) = band_columns-total mask r active h p qs in
      (ys ∷ cs, rw (found, e, cut, rest), ap suc sizes, (kept, shape))

  over-labels :
      (x : List F) (active : List Text) (cs : List (List F))
      → length cs ≡ length active
      → map (λ c. c.label) (over x active cs) ≡ active
  over-labels x [] [] h = refl
  over-labels x [] (ys ∷ cs) h = absurd (omega (arith, h))
  over-labels x (col ∷ active) [] h = absurd (omega (arith, h))
  over-labels x (col ∷ active) (ys ∷ cs) h =
      ap (λ l. col ∷ l) (over-labels x active cs (omega (arith, h)))

psd_cols-IsColumn :
    (form : PsdForm) → All (IsColumn (frame_columns (psd_cols form).0)) (psd_cols form).1
unfolding psd_cols
psd_cols-IsColumn form = by_mode form.psd_mode
  where
    by_mode :
        (mode : PsdMode)
        → let form' = record form { psd_mode = mode } in
          All (IsColumn (frame_columns (psd_cols form').0)) (psd_cols form').1
    by_mode adc = chosen-IsColumn (frame_columns FrameCode.adc_data_in) _ (
      (0, refl, omega arith),
      ((1, refl, omega arith), ((2, refl, omega arith), ((3, refl, omega arith), tt))),
    )
    by_mode pid =
        chosen-IsColumn (frame_columns FrameCode.pid_io) _
          ((0, refl, omega arith), ((1, refl, omega arith), ((2, refl, omega arith), tt)))

module _ {F : Type 0} ⦃fl : Float F⦄ (np : Numeric F) where
  -- The figure of a PSD with one spectrum for each column of the frame code of the panel, each with
  -- as many elements as there are frequencies, is drawn if a box is ticked, whatever the
  -- band: it has one curve for each ticked channel, in their order, and its file has a row for each
  -- frequency in the band, with the frequency and one number for each curve.
  pub plot_psd-total :
      (r : PsdResult F) (form : PsdForm) (fstart fstop : F)
      → is_empty (psd_cols form).1 ≡ false
      → r.columns ≡ frame_columns (psd_cols form).0
      → length r.spectra ≡ length r.columns
      → IsTable (length r.freqs) r.spectra
      → let active = (psd_cols form).1 in
        (fig : Figure F) × (rows : List (List F)) × (plot_psd np r active fstart fstop ≡ ok fig)
        × (map (λ c. c.label) fig.curves ≡ active)
        × ((fig.csv).numbers ≡ matrix (suc (length active)) rows)
        × (length rows ≡ count (band fstart fstop r.freqs))
        × IsTable (suc (length active)) rows
  unfolding plot_psd
  plot_psd-total r form fstart fstop some_box names sizes shape =
      let active = (psd_cols form).1 in
      let mask = band fstart fstop r.freqs in
      let same : length mask ≡ length r.freqs = length-map _ r.freqs in
      let (freqs, cut, kept) = select-total mask r.freqs same in
      let (cs, e, n_cs, cols) =
        band_columns-total mask r active sizes (rw same shape)
          (rw names (psd_cols-IsColumn form)) in
      let (rows, stacked, n_rows, p) = column_stack-total (count mask) freqs cs kept cols in
      (
        record {
          curves = over (map (λ f. np.ratio f (whole 1000)) freqs) active cs;
          csv = csv_table (codes "freq_hz" ∷ active) (matrix (suc (length active)) rows);
          extra_csv = some (csv_table r.columns r.raw_data);
        },
        rows,
        rw (cut, some_box, e, stacked),
        over-labels _ active cs n_cs,
        refl,
        n_rows,
        rw (← n_cs) p,
      )
