-- ===== src/Gui/Forms/Pid/Laws.antt =====
-- client/gui.py: which parameters the controller's panel lets through.
use pound_drever_hall.Common.{◌≡◌, refl, sym, ◌↔◌, true, arith}
use pound_drever_hall.Common.Int.{pos, ◌≤ℤ◌}
use pound_drever_hall.Python.Float.{Float}
use pound_drever_hall.Api.Commands.{PidParams}
use pound_drever_hall.Gui.Check.{
  Check, ◌>>=◌, >>=-eq-accepted, accepted-injective, accepted, Call, set_pid, is_unit,
}
use pound_drever_hall.Gui.Forms.Pid.{
  PidForm, read_params, check_params, on_apply_pid, is_coefficient, is_gain,
}

module _ {F : Type 0} ⦃fl : Float F⦄ where
  -- The ranges that the labels of the entries state.
  pub record IsLegal (p : PidParams F) : Type 0 where
    pub kp : is_coefficient p.kp ≡ true
    pub ki : is_coefficient p.ki ≡ true
    pub kd : is_coefficient p.kd ≡ true
    pub sp : is_coefficient p.sp ≡ true
    pub dec : pos 1 ≤ℤ p.dec × p.dec ≤ℤ pos 16383
    pub alpha : pos 0 ≤ℤ p.alpha × p.alpha ≤ℤ pos 15
    pub sat : pos 15 ≤ℤ p.sat × p.sat ≤ℤ pos 31
    pub gain : is_gain p.gain ≡ true
    pub bias : is_unit p.bias ≡ true
    pub egain : is_gain p.egain ≡ true

  check_params-IsLegal : (p : PidParams F) → check_params p ≡ accepted tt → IsLegal p
  unfolding check_params
  check_params-IsLegal p h = record {
    kp = ground arith;
    ki = ground arith;
    kd = ground arith;
    sp = ground arith;
    dec = ground arith;
    alpha = ground arith;
    sat = ground arith;
    gain = ground arith;
    bias = ground arith;
    egain = ground arith;
  }

  IsLegal-check_params : (p : PidParams F) → IsLegal p → check_params p ≡ accepted tt
  unfolding check_params
  IsLegal-check_params p l = ground arith

  -- The panel calls the API exactly when every entry is a number and lies in the range on its label,
  -- and the call has those numbers.
  pub on_apply_pid-accepted_iff :
      (form : PidForm) (c : Call F)
      → (on_apply_pid form ≡ accepted c)
        ↔ ((p : PidParams F) × (read_params form ≡ accepted p) × IsLegal p × (c ≡ set_pid p))
  unfolding on_apply_pid
  on_apply_pid-accepted_iff form c =
      let call : PidParams F → Check F (Call F) =
        λ p. check_params p >>= λ _. accepted (set_pid p) in
      (
        λ h.
            let (p, e, h1) = >>=-eq-accepted (read_params form) call h in
            let (_, checked, h2) =
              >>=-eq-accepted (check_params p) (λ _. accepted (set_pid p)) h1 in
            (p, e, check_params-IsLegal p checked, sym (accepted-injective h2)),
        λ (p, e, l, made). rw (e, IsLegal-check_params p l, made) refl,
      )
