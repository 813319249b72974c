-- ===== src/Gui/Answers/Laws.antt =====
-- Which answers give the button back.
use pound_drever_hall.Common.{ℕ, ◌≡◌, refl, ◌↔◌, true, Option, Text, arith}
use pound_drever_hall.Python.Result.{Result, ok, err, >>=-eq-ok, >>=-at-ok}
use pound_drever_hall.Python.Float.{Float}
use pound_drever_hall.Api.Types.{DacDatSel, PidDatSel, dac_dat_sel_enum, pid_dat_sel_enum}
use pound_drever_hall.Api.Results.{ConfigIoResult}
use pound_drever_hall.Gui.Check.{Call, accepted}
use pound_drever_hall.Gui.Panel.{busy, unbusy}
use pound_drever_hall.Gui.Request.{Session, Request, click, answered, show}
use pound_drever_hall.Gui.Answers.{member_of, routing_text, finish, routing_answered}

module _ {F : Type 0} ⦃fl : Float F⦄ where
  -- The button of a request is given back exactly if the text of its answer can be made.
  finish-normal_iff :
      (btn : ℕ) (label busy_label : Text) (call : Call F) (outcome : Option (Result (Unit {0})))
      (shown : Result Text) (fb : Text) (s : Session F)
      → let t = click btn label busy_label (accepted call) s in
        let r : Request F = record { btn = btn; label = label; call = call; outcome = outcome } in
        (((finish r shown (fb, t)).1.panel.buttons btn).normal ≡ true)
        ↔ ((text : Text) × (shown ≡ ok text))
  unfolding click answered show busy unbusy
  finish-normal_iff btn label busy_label call outcome (err e) fb s = (λ h. ground arith, λ h. cc)
  finish-normal_iff btn label busy_label call outcome (ok text) fb s =
      (λ h. (text, refl), λ h. ground arith)

  routing_text-ok_iff :
      (res : ConfigIoResult F)
      → ((text : Text) × (routing_text res ≡ ok text)) ↔ (
          (d1 : DacDatSel) × (d2 : DacDatSel) × (pid : PidDatSel) × (member_of res.dac1_dat_sel_cb
            ≡ ok d1)
          × (member_of res.dac2_dat_sel_cb ≡ ok d2)
          × (member_of res.pid_dat_sel_cb ≡ ok pid))
  unfolding routing_text
  routing_text-ok_iff res = (
    λ (text, h).
        let (d1, e₁, h₁) = >>=-eq-ok (member_of res.dac1_dat_sel_cb) _ h in
        let (d2, e₂, h₂) = >>=-eq-ok (member_of res.dac2_dat_sel_cb) _ h₁ in
        let (pid, e₃, _) = >>=-eq-ok (member_of res.pid_dat_sel_cb) _ h₂ in
        (d1, d2, pid, e₁, e₂, e₃),
    λ (d1, d2, pid, e₁, e₂, e₃). (_, >>=-at-ok _ e₁ (>>=-at-ok _ e₂ (>>=-at-ok _ e₃ refl))),
  )

  -- A request of the routing panel whose call has returned gives its button back exactly if each of
  -- the three echoes is the value of a member of its selector; otherwise the exception of the
  -- text leaves the callback, and the button stays frozen.
  pub routing_answered-normal_iff :
      (btn : ℕ) (label busy_label : Text) (call : Call F) (outcome : Option (Result (Unit {0})))
      (res : ConfigIoResult F) (fb : Text) (s : Session F)
      → let t = click btn label busy_label (accepted call) s in
        let r : Request F = record { btn = btn; label = label; call = call; outcome = outcome } in
        (((routing_answered r res (fb, t)).1.panel.buttons btn).normal ≡ true) ↔ (
          (d1 : DacDatSel) × (d2 : DacDatSel) × (pid : PidDatSel) × (member_of res.dac1_dat_sel_cb
            ≡ ok d1)
          × (member_of res.dac2_dat_sel_cb ≡ ok d2)
          × (member_of res.pid_dat_sel_cb ≡ ok pid))
  unfolding routing_answered
  routing_answered-normal_iff btn label busy_label call outcome res fb s =
      let button = finish-normal_iff btn label busy_label call outcome (routing_text res) fb s in
      let text = routing_text-ok_iff res in (λ h. text.0 (button.0 h), λ h. button.1 (text.1 h))
