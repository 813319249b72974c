-- ===== src/Gui/Forms/Capture/Laws.antt =====
-- client/gui.py: which captures, sweeps and spectra the panels ask for.
use pound_drever_hall.Common.{◌≡◌, ap, sym, ◌↔◌, true, false, some, arith}
use pound_drever_hall.Common.Int.{ℤ, pos, ltb_ℤ, ◌≤ℤ◌}
use pound_drever_hall.Python.Number.{int_of}
use pound_drever_hall.Python.Float.{Float}
use pound_drever_hall.Api.Types
use pound_drever_hall.Api.Types.{FrameCode, frame_code_enum, dac_sel_enum, with_name}
use pound_drever_hall.Gui.Check.{
  Check, accepted, ◌>>=◌, >>=-eq-accepted, accepted-injective, Call, get_frame, sweep_ramp, flag,
  psd, is_unit, whole, int_or, invalid_decimation, forbid, int_field, float_field,
  decimation_below_one,
}
use pound_drever_hall.Gui.Forms.Capture.{
  FrameForm, SweepForm, PsdForm, Plotted, sweep_cols, on_run_sweep, on_capture, check_ramp,
  on_run_psd, psd_cols, check_psd, is_empty, frame_code_or,
}

module _ {F : Type 0} ⦃fl : Float F⦄ where
  -- What a sweep must satisfy.
  pub record IsRamp (v0 v1 : F) (pts delay : ℤ) : Type 0 where
    pub v0_unit : is_unit v0 ≡ true
    pub v1_unit : is_unit v1 ≡ true
    pub points : pos 2 ≤ℤ pts × pts ≤ℤ pos 16384
    pub waits : pos 0 ≤ℤ delay

  pub check_ramp-IsRamp :
      (v0 v1 : F) (pts delay : ℤ)
      → check_ramp v0 v1 pts delay ≡ accepted tt
      → IsRamp v0 v1 pts delay
  unfolding check_ramp
  check_ramp-IsRamp v0 v1 pts delay h = record {
    v0_unit = ground arith;
    v1_unit = ground arith;
    points = ground arith;
    waits = ground arith;
  }

  pub IsRamp-check_ramp :
      (v0 v1 : F) (pts delay : ℤ)
      → IsRamp v0 v1 pts delay
      → check_ramp v0 v1 pts delay ≡ accepted tt
  unfolding check_ramp
  IsRamp-check_ramp v0 v1 pts delay r = ground arith

  -- A sweep that is asked for is one that the checks let through.
  pub on_run_sweep-accepted :
      (form : SweepForm) (p : Plotted F)
      → on_run_sweep form ≡ accepted p
      → (v0 : F) × (v1 : F) × (pts : ℤ) × (delay : ℤ) × IsRamp v0 v1 pts delay
        × (p.call ≡ sweep_ramp v0 v1 pts (Types.int form.dac_sel) delay (flag form.demod_mode))
  unfolding on_run_sweep
  on_run_sweep-accepted form p h =
      let ask : F → F → ℤ → ℤ → Check F (Plotted F) = λ v0 v1 pts delay. accepted record {
        call = sweep_ramp v0 v1 pts (Types.int form.dac_sel) delay (flag form.demod_mode);
        active_cols = sweep_cols form;
      } in
      let rest : F → F → ℤ → ℤ → Check F (Plotted F) =
        λ v0 v1 pts delay. check_ramp v0 v1 pts delay >>= λ _. ask v0 v1 pts delay in
      let (v0, _, h1) =
        >>=-eq-accepted (float_field form.v0_var)
          (λ v0. float_field form.v1_var >>= λ v1.
            int_field form.pts_var >>= λ pts. int_field form.delay_var >>= rest v0 v1 pts)
          h in
      let (v1, _, h2) =
        >>=-eq-accepted (float_field form.v1_var)
          (λ v1. int_field form.pts_var >>= λ pts. int_field form.delay_var >>= rest v0 v1 pts)
          h1 in
      let (pts, _, h3) =
        >>=-eq-accepted (int_field form.pts_var)
          (λ pts. int_field form.delay_var >>= rest v0 v1 pts) h2 in
      let (delay, _, h4) = >>=-eq-accepted (int_field form.delay_var) (rest v0 v1 pts) h3 in
      let (_, checked, asked) =
        >>=-eq-accepted (check_ramp v0 v1 pts delay) (λ _. ask v0 v1 pts delay) h4 in
      (
        v0,
        v1,
        pts,
        delay,
        check_ramp-IsRamp v0 v1 pts delay checked,
        ap (λ (q : Plotted F). q.call) (sym (accepted-injective asked)),
      )

  -- A frame is captured exactly if the decimation is an integer of at least 1 and the code is the
  -- name of a frame code; the code that is sent is the value of that member.
  on_capture-accepted_iff :
      (form : FrameForm) (c : Call F)
      → (on_capture form ≡ accepted c) ↔ (
          (dec : ℤ) × (fc : FrameCode) × (int_of form.dec_var ≡ some dec)
          × (pos 1 ≤ℤ dec)
          × (with_name {E = FrameCode} form.fc_var ≡ some fc)
          × (c ≡ get_frame dec (Types.int fc)))
  unfolding on_capture
  on_capture-accepted_iff form c =
      let go : ℤ → Check F (Call F) =
        λ dec. frame_code_or form.fc_var >>= λ fc. accepted (get_frame dec (Types.int fc)) in
      (
        λ h.
            let (dec, e, h1) =
              >>=-eq-accepted (int_or (invalid_decimation form.dec_var) form.dec_var)
                (λ dec. forbid (ltb_ℤ dec (pos 1)) decimation_below_one >>= λ _. go dec) h in
            let (_, large, h2) =
              >>=-eq-accepted (forbid (ltb_ℤ dec (pos 1)) decimation_below_one) (λ _. go dec) h1 in
            let (fc, named, made) =
              >>=-eq-accepted (frame_code_or form.fc_var)
                (λ fc. accepted (get_frame dec (Types.int fc))) h2 in
            (dec, fc, ground arith, ground arith, ground arith, sym (accepted-injective made)),
        λ (dec, fc, e, l, n, made). ground arith,
      )

  -- What a spectrum must satisfy.
  pub record IsBand (form : PsdForm) (dec : ℤ) (fstart fstop : F) : Type 0 where
    pub decimated : pos 1 ≤ℤ dec
    pub from_zero : fl.le (whole 0) fstart ≡ true
    pub in_order : fl.lt fstart fstop ≡ true
    pub some_channel : is_empty (psd_cols form).1 ≡ false

  check_psd-IsBand :
      (form : PsdForm) (dec : ℤ) (fstart fstop : F)
      → check_psd form dec fstart fstop ≡ accepted tt
      → IsBand form dec fstart fstop
  unfolding check_psd
  check_psd-IsBand form dec fstart fstop h = record {
    decimated = ground arith;
    from_zero = ground arith;
    in_order = ground arith;
    some_channel = ground arith;
  }

  -- A spectrum that is asked for has a decimation of at least 1, a band with 0 <= start < stop, and
  -- at least one channel to plot; it is taken with the frame code of the mode.
  pub on_run_psd-accepted :
      (form : PsdForm) (p : Plotted F)
      → on_run_psd form ≡ accepted p
      → (dec : ℤ) × (fstart : F) × (fstop : F) × (int_of form.dec_var ≡ some dec)
        × (fl.parse form.fstart_var ≡ some fstart)
        × (fl.parse form.fstop_var ≡ some fstop)
        × IsBand form dec fstart fstop
        × (p.active_cols ≡ (psd_cols form).1)
        × (p.call ≡ psd dec (Types.int (psd_cols form).0))
  unfolding on_run_psd
  on_run_psd-accepted form p h =
      let ask : ℤ → Check F (Plotted F) = λ dec.
        accepted record {
          call = psd dec (Types.int (psd_cols form).0);
          active_cols = (psd_cols form).1;
        } in
      let rest : ℤ → F → F → Check F (Plotted F) =
        λ dec fstart fstop. check_psd form dec fstart fstop >>= λ _. ask dec in
      let (dec, e1, h1) =
        >>=-eq-accepted (int_field form.dec_var)
          (λ dec. float_field form.fstart_var >>= λ fstart.
            float_field form.fstop_var >>= rest dec fstart)
          h in
      let (fstart, e2, h2) =
        >>=-eq-accepted (float_field form.fstart_var)
          (λ fstart. float_field form.fstop_var >>= rest dec fstart) h1 in
      let (fstop, e3, h3) = >>=-eq-accepted (float_field form.fstop_var) (rest dec fstart) h2 in
      let (_, checked, asked) =
        >>=-eq-accepted (check_psd form dec fstart fstop) (λ _. ask dec) h3 in
      let made = accepted-injective asked in
      let band = check_psd-IsBand form dec fstart fstop checked in
      (
        dec,
        fstart,
        fstop,
        ground arith,
        ground arith,
        ground arith,
        band,
        ap (λ q. q.active_cols) (sym made),
        ap (λ q. q.call) (sym made),
      )
