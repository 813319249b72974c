-- ===== src/Gui/Forms/Signal/Laws.antt =====
-- client/gui.py: which values the signal panels let through.
use pound_drever_hall.Common.{ℕ, ◌≡◌, sym, ◌↔◌, ◌≤◌, true, false, some, List, ◌||◌, arith, length}
use pound_drever_hall.Common.Int.{pos, negsuc}
use pound_drever_hall.Python.Result.{Result, ok, err}
use pound_drever_hall.Python.Number.{int_of}
use pound_drever_hall.Python.Float.{Float, HasNan}
use pound_drever_hall.Fir.Design.{design_lowpass}
use pound_drever_hall.Fir.Design.Laws.{design_lowpass-length}
use pound_drever_hall.Api.Types
use pound_drever_hall.Api.Types.{
  DemodRefSel, DemodInSel, FirInputSel, demod_ref_sel_enum, demod_in_sel_enum, fir_input_sel_enum,
}
use pound_drever_hall.Gui.Check.{
  Check, accepted, ◌>>=◌, >>=-eq-accepted, accepted-injective, Call, set_nco, config_demod,
  set_fir_coeffs, between, whole, flag, forbid, float_or, invalid_corner, corner_range,
}
use pound_drever_hall.Gui.Forms.Signal.{
  NcoForm, DemodForm, FirForm, on_apply_nco, on_apply_demod, on_apply_fir, designed, half_rate,
  fir_ntaps,
}

module _ {F : Type 0} ⦃fl : Float F⦄ where
  -- The oscillator is set exactly if both entries are numbers, the frequency is neither at most 0
  -- nor above half the sample rate, and the phase lies in [-180, 180].
  pub on_apply_nco-accepted_iff :
      (form : NcoForm) (c : Call F)
      → (on_apply_nco form ≡ accepted c) ↔ (
          (freq : F) × (shift : F) × (fl.parse form.freq_var ≡ some freq)
          × (fl.parse form.shift_var ≡ some shift)
          × (fl.le freq (whole 0) ≡ false)
          × (fl.lt half_rate freq ≡ false)
          × (between (fl.of_int (negsuc 179)) (whole 180) shift ≡ true)
          × (c ≡ set_nco freq shift (flag form.en_var)))
  unfolding on_apply_nco
  on_apply_nco-accepted_iff form c =
      (λ h. ground arith, λ (f, s, e1, e2, a, b, d, made). ground arith)

  -- Where no comparison with NaN holds, NaN passes for a frequency, if the phase is a number in its
  -- range.
  pub on_apply_nco-nan :
      (nan : HasNan fl) (form : NcoForm) (shift : F)
      → fl.parse form.freq_var ≡ some fl.nan
      → fl.parse form.shift_var ≡ some shift
      → between (fl.of_int (negsuc 179)) (whole 180) shift ≡ true
      → on_apply_nco form ≡ accepted (set_nco fl.nan shift (flag form.en_var))
  unfolding on_apply_nco
  on_apply_nco-nan nan form shift e1 e2 h =
      ground (arith, nan.nan-le (whole 0), nan.lt-nan half_rate)

  -- The demodulator is configured exactly if the smoothing is an integer from 0 to 15.
  pub on_apply_demod-accepted_iff :
      (form : DemodForm) (c : Call F)
      → (on_apply_demod form ≡ accepted c) ↔ (
          (n : ℕ) × (int_of form.alpha_var ≡ some (pos n))
          × (n ≤ 15)
          × (c ≡ config_demod (Types.int form.ref_sel) (Types.int form.in_sel) (pos n)))
  unfolding on_apply_demod
  on_apply_demod-accepted_iff form c = (λ h. ground arith, λ (n, e, u, made). ground arith)

  designed-accepted : (r : Result (List F)) {cs : List F} → designed r ≡ accepted cs → r ≡ ok cs
  designed-accepted (ok coeffs) h = ground arith
  designed-accepted (err e) h = ground arith

  -- A filter that is loaded has 32 coefficients, those of the design for the entries, and its corner
  -- is neither at most 0 nor at least half the sample rate.
  pub on_apply_fir-accepted :
      (form : FirForm) (c : Call F)
      → on_apply_fir form ≡ accepted c
      → (corner : F) × (cs : List F) × (fl.parse form.corner_var ≡ some corner)
        × (fl.le corner (whole 0) ≡ false)
        × (fl.le half_rate corner ≡ false)
        × (design_lowpass fir_ntaps corner form.window_var ≡ ok cs)
        × (length cs ≡ fir_ntaps)
        × (c ≡ set_fir_coeffs cs (Types.int form.input_sel))
  unfolding on_apply_fir
  on_apply_fir-accepted form c h =
      let load : List F → Check F (Call F) =
        λ cs. accepted (set_fir_coeffs cs (Types.int form.input_sel)) in
      let make : F → Check F (Call F) =
        λ corner. designed (design_lowpass fir_ntaps corner form.window_var) >>= load in
      let check : F → Check F (Unit {0}) =
        λ corner. forbid (fl.le corner (whole 0) || fl.le half_rate corner) corner_range in
      let (corner, e, h1) =
        >>=-eq-accepted (float_or (invalid_corner form.corner_var) form.corner_var)
          (λ corner. check corner >>= λ _. make corner) h in
      let (_, inside, h2) = >>=-eq-accepted (check corner) (λ _. make corner) h1 in
      let (cs, d, made) =
        >>=-eq-accepted (designed (design_lowpass fir_ntaps corner form.window_var)) load h2 in
      let found = designed-accepted (design_lowpass fir_ntaps corner form.window_var) d in
      (
        corner,
        cs,
        ground arith,
        ground arith,
        ground arith,
        found,
        design_lowpass-length fir_ntaps corner form.window_var found,
        sym (accepted-injective made),
      )
