-- ===== src/Gui/Calls/Laws.antt =====
-- What a click sends, from the entries of a panel to the wire.
use pound_drever_hall.Common.{ℕ, ◌≡◌, subst, [], ◌∷◌, ◌++◌, Text}
use pound_drever_hall.Python.Result.{ok}
use pound_drever_hall.Python.Float.{Float}
use pound_drever_hall.Api.Transport.{World, Outside}
use pound_drever_hall.Api.Transport.Laws.{Sent, >>=-eq-return}
use pound_drever_hall.Api.Commands.{PidParams, api_set_pid, set_pid_command}
use pound_drever_hall.Api.Commands.Registers.Laws.{api_set_pid-Sent}
use pound_drever_hall.Api.Analysis.Numeric.{Numeric}
use pound_drever_hall.Gui.Check.{Call, accepted, set_pid}
use pound_drever_hall.Gui.Forms.Pid.{PidForm, read_params, on_apply_pid}
use pound_drever_hall.Gui.Forms.Pid.Laws.{IsLegal, on_apply_pid-accepted_iff}
use pound_drever_hall.Gui.Window.{connection_params}
use pound_drever_hall.Gui.Request.{Session, click, update_connection}
use pound_drever_hall.Gui.Calls.{call_api}

module _ {F : Type 0} ⦃fl : Float F⦄ (out : Outside F) (np : Numeric F) where
  call_pid-Sent :
      (p : PidParams F) (w : World) {w' : World}
      → call_api out np (set_pid p) w ≡ (ok tt, w')
      → Sent w (set_pid_command p) w'
  unfolding call_api
  call_pid-Sent p w h =
      let (r, set, _) = >>=-eq-return (api_set_pid out p) tt w h in (api_set_pid-Sent out p w set).0

  -- From the entries to the wire: where a click on the PID panel makes a request and the call of its
  -- thread, the next thing to run, returns, the entries are numbers in the ranges on their labels, and
  -- one command more has been sent, with those numbers, to the address in the connection entries.
  pub pid_click-Sent :
      (form : PidForm) (c : Call F) (btn : ℕ) (label busy_label : Text) (s : Session F) {w' : World}
      → on_apply_pid form ≡ accepted c
      → call_api out np c (click btn label busy_label (on_apply_pid form) s).world ≡ (ok tt, w')
      → (p : PidParams F) × (read_params form ≡ accepted p)
        × IsLegal p
        × (w'.sent
            ≡ s.world.sent
              ++ (record {
                ip = (connection_params s.settings).0;
                port = (connection_params s.settings).1;
                payload = set_pid_command p;
              }
                  ∷ []))
  unfolding click update_connection
  pid_click-Sent form c btn label busy_label s {w'} accepts runs =
      let (p, read, legal, made) = (on_apply_pid-accepted_iff form c).0 accepts in
      let address = update_connection (connection_params s.settings) s.world in
      let clicked : call_api out np c address ≡ (ok tt, w') =
        subst (λ k. call_api out np c (click btn label busy_label k s).world ≡ (ok tt, w')) accepts
          runs in
      let sent =
        call_pid-Sent p address
          (subst (λ c. call_api out np c address ≡ (ok tt, w')) made clicked) in
      (p, read, legal, sent.0)
