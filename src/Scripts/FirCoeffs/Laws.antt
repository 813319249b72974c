-- ===== src/Scripts/FirCoeffs/Laws.antt =====
-- The file of coefficients is what the client loads.
use pound_drever_hall.Common.{
  ℕ, zero, suc, ◌+◌, ◌≡◌, ◌≢◌, refl, ap, sym, ◌∙◌, Option, none, some, List, [], ◌∷◌, map, Text,
  length,
}
use pound_drever_hall.Common.Int.{sub_ℕ}
use pound_drever_hall.Python.Str.{IsPlain, strip-plain, file_lines, file_lines-line}
use pound_drever_hall.Python.Result.{Result, ok, >>=-eq-ok, ◌>>=◌}
use pound_drever_hall.Python.Float.{Float}
use pound_drever_hall.Fir.Design.{num, divide, max_abs}
use pound_drever_hall.Api.Commands.{read_float, read_coeff, read_coeffs}
use pound_drever_hall.Scripts.FirCoeffs.{
  window_of, tap, taps, divide_all, design_with, design_by, check_corner, design_lowpass_fir,
  coeff_text, write_coeffs, Designed,
}

-- A print of ten decimals is a text with no space in it, which `float` reads as the number rounded
-- to ten decimals.
pub record PrintsFixed {F : Type 0} (fl : Float F) : Type 0 where
  pub rounded : F → F
  pub fixed-IsPlain : (x : F) → IsPlain (fl.fixed 10 x)
  pub fixed-ne-nil : (x : F) → fl.fixed 10 x ≢ []
  pub parse-fixed : (x : F) → fl.parse (fl.fixed 10 x) ≡ some (rounded x)

module _ {F : Type 0} ⦃fl : Float F⦄ where
  taps-length :
      (win_fn : ℕ → ℕ → Result F) (cutoff centre : F) (ntaps n left : ℕ) {cs : List F}
      → taps win_fn cutoff centre ntaps n left ≡ ok cs
      → length cs ≡ left
  unfolding taps
  taps-length win_fn cutoff centre ntaps n zero {cs} h = let e : [] ≡ cs = cc in ap length (sym e)
  taps-length win_fn cutoff centre ntaps n (suc left) {cs} h =
      let (c, _, after) = >>=-eq-ok (tap win_fn cutoff centre ntaps n) _ h in
      let (rest, made, built) = >>=-eq-ok (taps win_fn cutoff centre ntaps (n + 1) left) _ after in
      let e : (c ∷ rest) ≡ cs = cc in
      ap length (sym e) ∙ ap suc (taps-length win_fn cutoff centre ntaps (n + 1) left made)

  divide_all-length :
      (dc_gain : F) (cs : List F) {ds : List F}
      → divide_all dc_gain cs ≡ ok ds
      → length ds ≡ length cs
  unfolding divide_all
  divide_all-length dc_gain [] {ds} h = let e : [] ≡ ds = cc in ap length (sym e)
  divide_all-length dc_gain (c ∷ cs) {ds} h =
      let (d, _, after) = >>=-eq-ok (divide c dc_gain) _ h in
      let (rest, made, _) = >>=-eq-ok (divide_all dc_gain cs) _ after in
      let e : (d ∷ rest) ≡ ds = cc in ap length (sym e) ∙ ap suc (divide_all-length dc_gain cs made)

  design_with-length :
      (win_fn : ℕ → ℕ → Result F) (ntaps : ℕ) (fc fs : F) {designed : Designed F}
      → design_with win_fn ntaps fc fs ≡ ok designed
      → length designed.coeffs ≡ ntaps
  design_with-length win_fn ntaps fc fs {designed} h =
      let (cutoff, _, h₁) = >>=-eq-ok (divide (fl.mul (num 2) fc) fs) _ h in
      let (centre, _, h₂) = >>=-eq-ok (divide (fl.of_int (sub_ℕ ntaps 1)) (num 2)) _ h₁ in
      let (raw, made, h₃) = >>=-eq-ok (taps win_fn cutoff centre ntaps 0 ntaps) _ h₂ in
      let (coeffs, scaled, h₄) = >>=-eq-ok (divide_all (fl.sum raw) raw) _ h₃ in
      let (m, _, h₅) = >>=-eq-ok (max_abs coeffs) _ h₄ in
      let e : record { coeffs = coeffs; warned = fl.le (num 1) m } ≡ designed = cc in
      ap (λ (d : Designed F). length d.coeffs) (sym e)
      ∙ divide_all-length _ raw scaled
      ∙ taps-length win_fn cutoff centre ntaps 0 ntaps made

  -- A filter that is designed has as many coefficients as it has taps.
  pub design_lowpass_fir-length :
      (ntaps : ℕ) (fc fs : F) (window : Text) {designed : Designed F}
      → design_lowpass_fir ntaps fc fs window ≡ ok designed
      → length designed.coeffs ≡ ntaps
  unfolding design_lowpass_fir
  design_lowpass_fir-length ntaps fc fs window h = known (window_of window) h
    where
      known :
          (w : Option (ℕ → ℕ → Result F)) {designed : Designed F}
          → design_by window w ntaps fc fs ≡ ok designed
          → length designed.coeffs ≡ ntaps
      known none h = cc
      known (some win_fn) h = design_with-length win_fn ntaps fc fs h

  read_coeff-number :
      (s : Text) {x : F} (rest : Result (List F))
      → s ≢ []
      → fl.parse s ≡ some x
      → read_coeff s rest ≡ (rest >>= λ xs. ok (x ∷ xs))
  read_coeff-number [] rest n h = absurd (n refl)
  read_coeff-number (c ∷ s) rest n h = rw (read_coeff, read_float, h)

  module _ (laws : PrintsFixed fl) where
    read_coeffs-coeff_text :
        (cs : List F) → read_coeffs (file_lines (coeff_text cs)) ≡ ok (map laws.rounded cs)
    unfolding read_coeffs coeff_text file_lines
    read_coeffs-coeff_text [] = refl
    read_coeffs-coeff_text (c ∷ cs) = rw (
      file_lines-line (fl.fixed 10 c) (coeff_text cs) (laws.fixed-IsPlain c),
      read_coeffs,
      strip-plain (fl.fixed 10 c) (laws.fixed-IsPlain c),
      read_coeff-number (fl.fixed 10 c) (read_coeffs (file_lines (coeff_text cs)))
          (laws.fixed-ne-nil c) (laws.parse-fixed c),
      read_coeffs-coeff_text cs,
    )

    -- The file that the script writes is loaded by the client as the coefficients of the design,
    -- one for each tap, each rounded to ten decimals, if prints of ten decimals are read back so.
    pub write_coeffs-read_coeffs :
        (ntaps : ℕ) (fc fs : F) (window : Text) {content : Text}
        → write_coeffs ntaps fc fs window ≡ ok content
        → (designed : Designed F) × (design_lowpass_fir ntaps fc fs window ≡ ok designed)
          × (length designed.coeffs ≡ ntaps)
          × (read_coeffs (file_lines content) ≡ ok (map laws.rounded designed.coeffs))
    unfolding write_coeffs
    write_coeffs-read_coeffs ntaps fc fs window {content} h =
        let (half, _, h₁) = >>=-eq-ok (divide fs (num 2)) _ h in
        let (_, _, h₂) = >>=-eq-ok (check_corner half fc) _ h₁ in
        let (designed, made, h₃) = >>=-eq-ok (design_lowpass_fir ntaps fc fs window) _ h₂ in
        let e : coeff_text designed.coeffs ≡ content = cc in
        (
          designed,
          made,
          design_lowpass_fir-length ntaps fc fs window made,
          rw (← e) (read_coeffs-coeff_text designed.coeffs),
        )
