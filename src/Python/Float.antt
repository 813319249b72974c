-- ===== src/Python/Float.antt =====
-- Python's `float`: a type with the operations that the code applies to it, and the laws of
-- IEEE 754 comparison that proofs use as hypotheses.
use pound_drever_hall.Common.{ℕ, ◌≡◌, Bool, false, Option, List, Text}
use pound_drever_hall.Common.Int.{ℤ}

pub record Float (F : Type 0) : Type 0 where
  pub nan : F
  pub pi : F
  -- `float(n)`, and the literal m * 10 ^ -e
  pub of_int : ℤ → F
  pub decimal : ℕ → ℕ → F
  pub neg : F → F
  pub abs : F → F
  pub add : F → F → F
  pub sub : F → F → F
  pub mul : F → F → F
  -- the quotient where the divisor is not zero, at which Python raises
  pub quotient : F → F → F
  -- `math.sin` and `math.cos`, which raise a `ValueError` at an infinity
  pub sin : F → Option F
  pub cos : F → Option F
  -- `math.log10`, which raises a `ValueError` where the argument is not positive, and `math.isfinite`
  pub log10 : F → Option F
  pub is_finite : F → Bool
  -- `sum(xs)`
  pub sum : List F → F
  -- `round(x)`, which raises at an infinity and at NaN
  pub round : F → Option ℤ
  pub lt : F → F → Bool
  pub le : F → F → Bool
  pub eq : F → F → Bool
  -- `float(s)`, where `none` is the `ValueError`
  pub parse : Text → Option F
  -- `str(x)` and f"{x:.nf}"
  pub repr : F → Text
  pub fixed : ℕ → F → Text

-- No comparison with NaN holds, and `abs`, `neg` and a quotient pass NaN on.
pub record HasNan {F : Type 0} (fl : Float F) : Type 0 where
  pub lt-nan : (x : F) → fl.lt x fl.nan ≡ false
  pub nan-lt : (x : F) → fl.lt fl.nan x ≡ false
  pub le-nan : (x : F) → fl.le x fl.nan ≡ false
  pub nan-le : (x : F) → fl.le fl.nan x ≡ false
  pub eq-nan : (x : F) → fl.eq fl.nan x ≡ false
  pub abs-nan : fl.abs fl.nan ≡ fl.nan
  pub quotient-nan : (x : F) → fl.quotient x fl.nan ≡ fl.nan
