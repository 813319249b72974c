-- ===== src/Fir/Design.antt =====
-- client/pdh_api/fir_design.py, and its copy in core/hw/sim/run_fir_freq.py: windowed-sinc filters.
pub mod Laws
use pound_drever_hall.Common.{
  ℕ, zero, suc, ◌+◌, ◌-◌, ◌==◌, Bool, Option, none, some, List, [], ◌∷◌, map, Text, codes, text_eq,
  if◌then◌else◌, arith,
}
use pound_drever_hall.Common.Int.{ℤ, pos, sub_ℕ}
use pound_drever_hall.Python.Result.{
  Error, value_error, zero_division, math_domain, empty_max, system_exit, Result, ok, err, ◌>>=◌,
}
use pound_drever_hall.Python.Float.{Float}

module _ {F : Type 0} ⦃fl : Float F⦄ where
  abbrev pub num : ℕ → F
  num n = fl.of_int (pos n)

  -- `x / y`
  abbrev pub divide : F → F → Result F
  divide x y = if fl.eq y (num 0) then err zero_division else ok (fl.quotient x y)

  abbrev pub math : Option F → Result F
  math none = err math_domain
  math (some x) = ok x

  -- FS
  abbrev pub sample_rate : F
  sample_rate = num 125_000_000

  -- math.cos(k * math.pi * n / (ntaps - 1))
  abbrev pub cosine : ℕ → ℕ → ℕ → Result F
  cosine k n ntaps = do
    angle ← divide (fl.mul (fl.mul (num k) fl.pi) (num n)) (fl.of_int (sub_ℕ ntaps 1))
    math (fl.cos angle)

  unfoldable pub hann : ℕ → ℕ → Result F
  hann n ntaps = do c ← cosine 2 n ntaps; ok (fl.mul (fl.decimal 5 1) (fl.sub (num 1) c))

  unfoldable pub hamming : ℕ → ℕ → Result F
  hamming n ntaps = do
    c ← cosine 2 n ntaps
    ok (fl.sub (fl.decimal 54 2) (fl.mul (fl.decimal 46 2) c))

  unfoldable pub blackman : ℕ → ℕ → Result F
  blackman n ntaps = do
    c ← cosine 2 n ntaps
    d ← cosine 4 n ntaps
    ok (fl.add (fl.sub (fl.decimal 42 2) (fl.mul (fl.decimal 50 2) c)) (fl.mul (fl.decimal 8 2) d))

  -- The weight of tap `n`; a window of another name is rectangular.
  unfoldable pub window_weight : Text → ℕ → ℕ → Result F
  window_weight window n ntaps =
      if text_eq window (codes "hann")
      then hann n ntaps
      else if text_eq window (codes "hamming")
      then hamming n ntaps
      else if text_eq window (codes "blackman")
      then blackman n ntaps
      else ok (num 1)

  -- math.sin(wc * x) / (math.pi * x)
  abbrev sine_over : F → F → Result F
  sine_over wc x = do s ← math (fl.sin (fl.mul wc x)); divide s (fl.mul fl.pi x)

  -- The ideal kernel at the distance `x` from the centre.
  unfoldable pub sinc : F → F → Result F
  sinc wc x = if fl.lt (fl.abs x) (fl.decimal 1 10) then divide wc fl.pi else sine_over wc x

  abbrev tap : Text → F → F → ℕ → ℕ → Result F
  tap window wc nc ntaps n = do
    h ← sinc wc (fl.sub (num n) nc)
    w ← window_weight window n ntaps
    ok (fl.mul h w)

  -- Taps `n` up to `n + left - 1`.
  unfoldable pub taps : Text → F → F → ℕ → ℕ → ℕ → Result (List F)
  taps window wc nc ntaps n zero = ok []
  taps window wc nc ntaps n (suc left) =
      tap window wc nc ntaps n >>= λ c. taps window wc nc ntaps (n + 1) left >>= λ cs. ok (c ∷ cs)

  -- `max` of what is left, from the greatest so far.
  abbrev greatest : F → List F → F
  greatest m [] = m
  greatest m (x ∷ xs) = greatest (if fl.lt m x then x else m) xs

  -- max(abs(c) for c in coeffs)
  abbrev pub max_abs : List F → Result F
  max_abs [] = err empty_max
  max_abs (c ∷ cs) = ok (greatest (fl.abs c) (map fl.abs cs))

  -- The design with the exception that a coefficient out of range raises.
  unfoldable pub design_or : Error → ℕ → F → Text → Result (List F)
  design_or too_large ntaps corner_hz window = do
    wc ← divide (fl.mul (fl.mul (num 2) fl.pi) corner_hz) sample_rate
    nc ← divide (fl.of_int (sub_ℕ ntaps 1)) (num 2)
    coeffs ← taps window wc nc ntaps 0 ntaps
    m ← max_abs coeffs
    if fl.le (num 1) m then err too_large else ok coeffs

  unfoldable pub design_lowpass : ℕ → F → Text → Result (List F)
  design_lowpass = design_or (
      value_error (
        codes
          "Coefficient magnitude >= 1 — exceeds Q15 range. Reduce corner frequency or change window."))

  -- `_design_lowpass` of the simulation script, which exits instead.
  unfoldable pub design_for_sim : ℕ → F → Text → Result (List F)
  design_for_sim = design_or (
      system_exit
        (codes "Error: coefficient magnitude ≥ 1 — exceeds Q15 range. Reduce corner frequency."))
