-- ===== src/Board/Guards/Laws.antt =====
-- What the panels let through is run by the board and passes its handlers, but for two inputs of the
-- filter.
use pound_drever_hall.Common.{
  ◌≡◌, refl, sym, ap, true, false, All, subst, ◌⊎◌, inl, inr, ◌↔◌, none, some, List, [], ◌∷◌, map,
  codes, arith,
}
use pound_drever_hall.Common.Int.{pos_part}
use pound_drever_hall.Python.Float.{Float}
use pound_drever_hall.Api.Types.FirInputSel.{adc1, adc2, i_feed, q_feed, iq_demod_out, iq_demod_lpf}
use pound_drever_hall.Api.Types.{
  FirInputSel, fir_input_sel_enum, dac_dat_sel_enum, pid_dat_sel_enum, demod_ref_sel_enum,
  demod_in_sel_enum, dac_sel_enum,
}
use pound_drever_hall.Gui.Check.{accepted-injective, Call, accepted, is_unit}
use pound_drever_hall.Gui.Forms.System.{SystemForm, RoutingForm, on_set_led, on_apply_routing}
use pound_drever_hall.Gui.Forms.System.Laws.{on_set_led-accepted_iff}
use pound_drever_hall.Gui.Forms.Signal.{DemodForm, FirForm, fir_ntaps, on_apply_demod, on_apply_fir}
use pound_drever_hall.Gui.Forms.Signal.Laws.{on_apply_demod-accepted_iff, on_apply_fir-accepted}
use pound_drever_hall.Gui.Forms.Pid.{PidForm, on_apply_pid}
use pound_drever_hall.Gui.Forms.Pid.Laws.{on_apply_pid-accepted_iff}
use pound_drever_hall.Gui.Forms.Capture.{SweepForm, Plotted, on_run_sweep}
use pound_drever_hall.Gui.Forms.Capture.Laws.{on_run_sweep-accepted}
use pound_drever_hall.Fir.Design.{num}
use pound_drever_hall.Fir.Design.Laws.{IsOrdered, IsNumber, design_lowpass-below_one}
use pound_drever_hall.Board.Context.{CLib}
use pound_drever_hall.Board.Context.Commands.{Prints}
use pound_drever_hall.Board.Dispatch.{Runs}
use pound_drever_hall.Board.Calls.{name_of, floats_of, uints_of, packet_text}
use pound_drever_hall.Board.Calls.Runs.{Fits, call-Runs}
use pound_drever_hall.Board.Guards.Bounds.{
  Rounds, uint32-pos_part, unit-beyond_one, unit-any_beyond, led_args-ok, io_args-ok, demod_args-ok,
  pid_args-ok, ramp_args-ok, dac_dat_value-le, pid_dat_value-le, demod_ref_value-le,
  demod_in_value-le,
}
use pound_drever_hall.Board.Guards.{CFloat, any_beyond, guarded, handler_args}

-- A call that a panel with integers makes.
pub data Made {F : Type 0} ⦃fl : Float F⦄ : Call F → Type 0 where
  by_led : (form : SystemForm) {c : Call F} → on_set_led form ≡ accepted c → Made c
  by_routing : (form : RoutingForm) {c : Call F} → on_apply_routing form ≡ accepted c → Made c
  by_demod : (form : DemodForm) {c : Call F} → on_apply_demod form ≡ accepted c → Made c
  by_pid : (form : PidForm) {c : Call F} → on_apply_pid form ≡ accepted c → Made c
  by_sweep : (form : SweepForm) {p : Plotted F} → on_run_sweep form ≡ accepted p → Made p.call

module _ {F G : Type 0} ⦃fl : Float F⦄ (cf : CFloat G) {narrow : F → G}
    (rounds : Rounds fl cf narrow) where
  -- The handler goes on with the integers of a call as they are.
  abbrev GoesOn : Call F → Type 0
  GoesOn call =
      guarded cf (name_of call) (map narrow (floats_of call)) (map pos_part (uints_of call))
      ≡ some (map pos_part (uints_of call))

  Made-GoesOn : (call : Call F) → Made call → GoesOn call
  unfolding on_apply_routing
  Made-GoesOn call (by_led form h) =
      let (n, _, small, made) = (on_set_led-accepted_iff form call).0 h in
      subst GoesOn (sym made) (led_args-ok cf [] n small)
  Made-GoesOn call (by_routing form h) = subst GoesOn (accepted-injective h) (
      io_args-ok cf [] _ _ _ (dac_dat_value-le form.dac1_sel) (dac_dat_value-le form.dac2_sel)
        (pid_dat_value-le form.pid_sel))
  Made-GoesOn call (by_demod form h) =
      let (n, _, small, made) = (on_apply_demod-accepted_iff form call).0 h in
      subst GoesOn (sym made) (
        demod_args-ok cf [] _ _ n (demod_ref_value-le form.ref_sel) (demod_in_value-le form.in_sel)
          small)
  Made-GoesOn call (by_pid form h) =
      let (p, _, legal, made) = (on_apply_pid-accepted_iff form call).0 h in
      subst GoesOn (sym made)
        (pid_args-ok cf _ p.dec p.alpha p.sat p.en legal.dec.1 legal.alpha.1 legal.sat.1)
  Made-GoesOn call (by_sweep form {p} h) =
      let (v0, v1, pts, _, ramp, made) = on_run_sweep-accepted form p h in
      subst GoesOn (sym made) (
        ramp_args-ok cf (narrow v0) (narrow v1) pts _ (unit-beyond_one cf rounds v0 ramp.v0_unit)
          (unit-beyond_one cf rounds v1 ramp.v1_unit) ramp.points.0 ramp.points.1)

  module _ (c : CLib G) (prints : Prints fl c narrow) where
    -- The board runs the command of a call, and its handler goes on with the integers as they are.
    pub record Passes (call : Call F) : Type 0 where
      pub runs :
          Runs c
            (packet_text call)
            (name_of call)
            (map narrow (floats_of call))
            (map pos_part (uints_of call))
      pub goes_on :
          handler_args cf
            (name_of call)
            (map narrow (floats_of call))
            (map pos_part (uints_of call))
          ≡ some (map pos_part (uints_of call))

    -- The LEDs, the routing, the demodulator, the controller and the sweep: a call that one of these
    -- panels makes, whose text fits the buffers of the board and whose integers fit 32 bits, is run by
    -- the board, and its handler refuses none of its integers nor its voltages and goes on with the
    -- integers as they are. That rounding to a `float` keeps the order, and 1 and -1, is a
    -- hypothesis.
    pub Made-Passes : (call : Call F) → Made call → Fits call → Passes call
    Made-Passes call made fits = record {
      runs = call-Runs c prints call fits;
      goes_on =
          let us = map pos_part (uints_of call) in
          subst (λ vs. guarded cf (name_of call) (map narrow (floats_of call)) vs ≡ some us)
            (sym (uint32-pos_part (uints_of call) fits.uints)) (Made-GoesOn call made);
    }

module _ {G : Type 0} (cf : CFloat G) where
  fir_args-none_iff :
      (vs : List G) (s : FirInputSel)
      → any_beyond cf vs ≡ false
      → (handler_args cf (codes "set_fir") vs (fir_input_sel_enum.value s ∷ []) ≡ none)
        ↔ ((s ≡ FirInputSel.iq_demod_out) ⊎ (s ≡ FirInputSel.iq_demod_lpf))
  unfolding guarded
  fir_args-none_iff vs adc1 k = rw k (λ h. cc, λ h. ground arith)
  fir_args-none_iff vs adc2 k = rw k (λ h. cc, λ h. ground arith)
  fir_args-none_iff vs i_feed k = rw k (λ h. cc, λ h. ground arith)
  fir_args-none_iff vs q_feed k = rw k (λ h. cc, λ h. ground arith)
  fir_args-none_iff vs iq_demod_out k = (λ h. inl refl, λ h. refl)
  fir_args-none_iff vs iq_demod_lpf k = (λ h. inr refl, λ h. refl)

module _ {F G : Type 0} ⦃fl : Float F⦄ (cf : CFloat G) {narrow : F → G}
    (rounds : Rounds fl cf narrow) (ordered : IsOrdered fl) (one : fl.le (num 1) (num 1) ≡ true)
    (unit : (x : F) → fl.lt (fl.abs x) (num 1) ≡ true → is_unit x ≡ true) where
  All-unit :
      (cs : List F) → All (λ x. fl.lt (fl.abs x) (num 1) ≡ true) cs → All (λ x. is_unit x ≡ true) cs
  All-unit [] h = tt
  All-unit (c ∷ cs) (h, hs) = (unit c h, All-unit cs hs)

  -- A filter that the panel loads, of whose coefficients none is NaN, is refused by its handler on
  -- the board, for its input or for a coefficient, exactly if its input is one of the two demodulated
  -- signals, although the panel offers both. The order of the numbers, and that rounding to a `float`
  -- keeps it with 1 and -1, are hypotheses.
  pub fir_call-refused_iff :
      (form : FirForm) (call : Call F)
      → on_apply_fir form ≡ accepted call
      → All IsNumber (map fl.abs (floats_of call))
      → (handler_args cf (name_of call) (map narrow (floats_of call)) (map pos_part (uints_of call))
          ≡ none)
        ↔ ((form.input_sel ≡ FirInputSel.iq_demod_out)
            ⊎ (form.input_sel ≡ FirInputSel.iq_demod_lpf))
  fir_call-refused_iff form call h numbers =
      let (corner, cs, _, _, _, design, _, made) = on_apply_fir-accepted form call h in
      let coeffs : floats_of call ≡ cs = ap floats_of made in
      let real : All IsNumber (map fl.abs cs) =
        subst (λ xs. All IsNumber (map fl.abs xs)) coeffs numbers in
      let small =
        design_lowpass-below_one ordered one fir_ntaps corner form.window_var design real in
      let kept = unit-any_beyond cf rounds cs (All-unit cs small) in
      subst
        (λ c.
          (handler_args cf (name_of c) (map narrow (floats_of c)) (map pos_part (uints_of c))
            ≡ none)
          ↔ ((form.input_sel ≡ FirInputSel.iq_demod_out)
              ⊎ (form.input_sel ≡ FirInputSel.iq_demod_lpf)))
        (sym made) (fir_args-none_iff cf (map narrow cs) form.input_sel kept)
