-- ===== src/Fir/Design/Laws.antt =====
-- How many coefficients a design has, how large they are, and when it fails.
use mathlib.Core.Path.{subst}
use pound_drever_hall.Common.{
  ℕ, zero, suc, ◌+◌, ◌≡◌, ap, sym, ◌∙◌, inl, inr, true, false, List, [], ◌∷◌, map, Text,
  if◌then◌else◌, arith, length, All, Bool-cases,
}
use pound_drever_hall.Python.Result.{Error, ok, err, >>=-eq-ok}
use pound_drever_hall.Python.Float.{Float}
use pound_drever_hall.Fir.Design.{
  num, sample_rate, divide, tap, greatest, max_abs, taps, design_or, design_lowpass,
}

-- The order of the numbers, away from NaN, which is the value that is not `<=` itself.
pub record IsOrdered {F : Type 0} (fl : Float F) : Type 0 where
  pub le_trans : (x y z : F) → fl.le x y ≡ true → fl.le y z ≡ true → fl.le x z ≡ true
  pub not-lt→le :
      (x y : F) → fl.le x x ≡ true → fl.le y y ≡ true → fl.lt x y ≡ false → fl.le y x ≡ true
  pub lt→le : (x y : F) → fl.lt x y ≡ true → fl.le x y ≡ true
  pub le-false→lt :
      (x y : F) → fl.le x x ≡ true → fl.le y y ≡ true → fl.le x y ≡ false → fl.lt y x ≡ true

module _ {F : Type 0} ⦃fl : Float F⦄ where
  abbrev pub IsNumber : F → Type 0
  IsNumber x = fl.le x x ≡ true

  taps-length :
      (window : Text) (wc nc : F) (ntaps n left : ℕ) {cs : List F}
      → taps window wc nc ntaps n left ≡ ok cs
      → length cs ≡ left
  unfolding taps
  taps-length window wc nc ntaps n zero {cs} h = let e : [] ≡ cs = cc in ap length (sym e)
  taps-length window wc nc ntaps n (suc left) {cs} h =
      let (c, _, after) = >>=-eq-ok (tap window wc nc ntaps n) _ h in
      let (rest, made, built) = >>=-eq-ok (taps window wc nc ntaps (n + 1) left) _ after in
      let e : (c ∷ rest) ≡ cs = cc in
      ap length (sym e) ∙ ap suc (taps-length window wc nc ntaps (n + 1) left made)

  -- What a design that returns has computed on the way.
  design_or-ok :
      (too_large : Error) (ntaps : ℕ) (corner_hz : F) (window : Text) {cs : List F}
      → design_or too_large ntaps corner_hz window ≡ ok cs
      → (wc : F) × (nc : F) × (m : F) × (taps window wc nc ntaps 0 ntaps ≡ ok cs)
        × (max_abs cs ≡ ok m)
        × (fl.le (num 1) m ≡ false)
  unfolding design_or
  design_or-ok too_large ntaps corner_hz window {cs} h =
      let (wc, _, h₁) = >>=-eq-ok (divide _ sample_rate) _ h in
      let (nc, _, h₂) = >>=-eq-ok (divide _ (num 2)) _ h₁ in
      let (coeffs, made, h₃) = >>=-eq-ok (taps window wc nc ntaps 0 ntaps) _ h₂ in
      let (m, top, h₄) = >>=-eq-ok (max_abs coeffs) _ h₃ in
      let (same, small) = kept m coeffs h₄ in (wc, nc, m, rw same at made, rw same at top, small)
    where
      kept :
          (m : F) (coeffs : List F)
          → (if fl.le (num 1) m then err too_large else ok coeffs) ≡ ok cs
          → (coeffs ≡ cs) × (fl.le (num 1) m ≡ false)
      kept m coeffs e = ground arith

  -- A design that returns has as many coefficients as it has taps.
  pub design_lowpass-length :
      (ntaps : ℕ) (corner_hz : F) (window : Text) {cs : List F}
      → design_lowpass ntaps corner_hz window ≡ ok cs
      → length cs ≡ ntaps
  unfolding design_lowpass
  design_lowpass-length ntaps corner_hz window h =
      let (wc, nc, _, made, _, _) = design_or-ok _ ntaps corner_hz window h in
      taps-length window wc nc ntaps 0 ntaps made

  module _ (laws : IsOrdered fl) (one : IsNumber (num 1)) where
    open laws use {le_trans, not-lt→le, lt→le, le-false→lt}

    larger :
        (m x : F)
        → IsNumber m
        → IsNumber x
        → let t = if fl.lt m x then x else m in IsNumber t × (fl.le m t ≡ true) × (fl.le x t ≡ true)
    larger m x h k = ground (arith, lt→le m x, not-lt→le m x)

    greatest-bounds :
        (m : F) (xs : List F)
        → IsNumber m
        → All IsNumber xs
        → (fl.le m (greatest m xs) ≡ true) × All (λ x. fl.le x (greatest m xs) ≡ true) xs
    greatest-bounds m [] h hs = (h, tt)
    greatest-bounds m (x ∷ xs) h (k, ks) =
        let t = if fl.lt m x then x else m in
        let (num_t, mt, xt) = larger m x h k in
        let (up, rest) = greatest-bounds t xs num_t ks in
        (le_trans m t _ mt up, (le_trans x t _ xt up, rest))

    -- A number below a bound that 1 is not below is itself below 1.
    below_one :
        (m x : F) → IsNumber x → fl.le x m ≡ true → fl.le (num 1) m ≡ false → fl.lt x (num 1) ≡ true
    below_one m x k h small = elim (Bool-cases (fl.le (num 1) x)) [
      | inl large ↦ cc (le_trans (num 1) x m large h)
      | inr less ↦ le-false→lt (num 1) x one k less
    ]

    All-below_one :
        (m : F) (cs : List F)
        → All IsNumber (map fl.abs cs)
        → All (λ x. fl.le x m ≡ true) (map fl.abs cs)
        → fl.le (num 1) m ≡ false
        → All (λ c. fl.lt (fl.abs c) (num 1) ≡ true) cs
    All-below_one m [] k h small = tt
    All-below_one m (c ∷ cs) (k, ks) (h, hs) small =
        (below_one m (fl.abs c) k h small, All-below_one m cs ks hs small)

    max_abs-bounds :
        (cs : List F) {m : F}
        → All IsNumber (map fl.abs cs)
        → max_abs cs ≡ ok m
        → All (λ x. fl.le x m ≡ true) (map fl.abs cs)
    max_abs-bounds [] k h = cc
    max_abs-bounds (c ∷ cs) {m} (k, ks) h =
        let e : greatest (fl.abs c) (map fl.abs cs) ≡ m = cc in
        subst (λ t. All (λ x. fl.le x t ≡ true) (map fl.abs (c ∷ cs))) e
          (greatest-bounds (fl.abs c) (map fl.abs cs) k ks)

    -- Every coefficient of a design that returns is less than 1 in magnitude, if none is NaN and
    -- numbers that are not NaN are ordered.
    pub design_lowpass-below_one :
        (ntaps : ℕ) (corner_hz : F) (window : Text) {cs : List F}
        → design_lowpass ntaps corner_hz window ≡ ok cs
        → All IsNumber (map fl.abs cs)
        → All (λ c. fl.lt (fl.abs c) (num 1) ≡ true) cs
    unfolding design_lowpass
    design_lowpass-below_one ntaps corner_hz window {cs} h k =
        let (_, _, m, _, top, small) = design_or-ok _ ntaps corner_hz window h in
        All-below_one m cs k (max_abs-bounds cs k top) small
