-- ===== src/Scripts/FirCoeffs.antt =====
-- test_resources/gen_fir_coeffs.py: a low-pass filter of gain 1 at frequency 0, as a file.
pub mod Laws
use pound_drever_hall.Common.{
  ℕ, zero, suc, ◌+◌, Bool, true, false, ◌||◌, Option, none, some, List, [], ◌∷◌, ◌++◌, map, Text,
  codes, text_eq, if◌then◌else◌,
}
use pound_drever_hall.Common.Int.{sub_ℕ}
use pound_drever_hall.Python.Result.{
  Error, Result, ok, err, value_error, system_exit, guard, ◌>>=◌, ◌>>◌,
}
use pound_drever_hall.Python.Float.{Float}
use pound_drever_hall.Fir.Design.{num, divide, math, cosine, max_abs}

module _ {F : Type 0} ⦃fl : Float F⦄ where
  unfoldable pub hamming : ℕ → ℕ → Result F
  hamming n N = do c ← cosine 2 n N; ok (fl.sub (fl.decimal 54 2) (fl.mul (fl.decimal 46 2) c))

  unfoldable pub hann : ℕ → ℕ → Result F
  hann n N = do c ← cosine 2 n N; ok (fl.mul (fl.decimal 5 1) (fl.sub (num 1) c))

  unfoldable pub rectangular : ℕ → ℕ → Result F
  rectangular n N = ok (num 1)

  -- WINDOWS.get(window)
  unfoldable pub window_of : Text → Option (ℕ → ℕ → Result F)
  window_of window =
      if text_eq window (codes "hamming")
      then some hamming
      else if text_eq window (codes "hann")
      then some hann
      else if text_eq window (codes "rectangular")
      then some rectangular
      else none

  -- The ideal tap at the distance `shift` from the centre.
  abbrev ideal : F → F → Result F
  ideal cutoff shift =
      if fl.eq shift (num 0)
      then ok cutoff
      else math (fl.sin (fl.mul (fl.mul fl.pi cutoff) shift)) >>= λ s. divide s (fl.mul fl.pi shift)

  abbrev tap : (ℕ → ℕ → Result F) → F → F → ℕ → ℕ → Result F
  tap win_fn cutoff centre ntaps n = do
    h ← ideal cutoff (fl.sub (num n) centre)
    w ← win_fn n ntaps
    ok (fl.mul h w)

  -- Taps `n` up to `n + left - 1`.
  unfoldable pub taps : (ℕ → ℕ → Result F) → F → F → ℕ → ℕ → ℕ → Result (List F)
  taps win_fn cutoff centre ntaps n zero = ok []
  taps win_fn cutoff centre ntaps n (suc left) = tap win_fn cutoff centre ntaps n >>= λ c.
      taps win_fn cutoff centre ntaps (n + 1) left >>= λ cs. ok (c ∷ cs)

  -- [c / dc_gain for c in coeffs]
  unfoldable pub divide_all : F → List F → Result (List F)
  divide_all dc_gain [] = ok []
  divide_all dc_gain (c ∷ cs) =
      divide c dc_gain >>= λ d. divide_all dc_gain cs >>= λ ds. ok (d ∷ ds)

-- The coefficients, and whether the warning has been printed.
pub record Designed (F : Type 0) : Type 0 where
  pub coeffs : List F
  pub warned : Bool

module _ {F : Type 0} ⦃fl : Float F⦄ where
  abbrev pub design_with : (ℕ → ℕ → Result F) → ℕ → F → F → Result (Designed F)
  design_with win_fn ntaps fc fs = do
    cutoff ← divide (fl.mul (num 2) fc) fs
    centre ← divide (fl.of_int (sub_ℕ ntaps 1)) (num 2)
    raw ← taps win_fn cutoff centre ntaps 0 ntaps
    coeffs ← divide_all (fl.sum raw) raw
    m ← max_abs coeffs
    ok record { coeffs = coeffs; warned = fl.le (num 1) m }

  -- The design with the window that is found.
  abbrev pub design_by : Text → Option (ℕ → ℕ → Result F) → ℕ → F → F → Result (Designed F)
  design_by window none ntaps fc fs = err (
      value_error (
        codes "Unknown window '"
        ++ (window ++ codes "'. Choose from: ['hamming', 'hann', 'rectangular']")))
  design_by window (some win_fn) ntaps fc fs = design_with win_fn ntaps fc fs

  unfoldable pub design_lowpass_fir : ℕ → F → F → Text → Result (Designed F)
  design_lowpass_fir ntaps fc fs window = design_by window (window_of window) ntaps fc fs

  -- A line of ten decimals for each coefficient.
  unfoldable pub coeff_text : List F → Text
  coeff_text [] = []
  coeff_text (c ∷ cs) = fl.fixed 10 c ++ (10 ∷ coeff_text cs)

  -- `parser.error` where the corner is not between 0 and half the sample rate.
  unfoldable pub check_corner : F → F → Result (Unit {0})
  check_corner half fc =
      if fl.le fc (num 0) || fl.le half fc
      then err (
          system_exit (codes "fc must be in (0, fs/2) = (0, " ++ (fl.fixed 0 half ++ codes " Hz)")))
      else ok tt

  -- What `main` writes to the output file.
  unfoldable pub write_coeffs : ℕ → F → F → Text → Result Text
  write_coeffs ntaps fc fs window = do
    half ← divide fs (num 2)
    check_corner half fc
    designed ← design_lowpass_fir ntaps fc fs window
    ok (coeff_text designed.coeffs)
