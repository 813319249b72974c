-- ===== src/Board/Calls.antt =====
-- client/gui.py, client/pdh_api/api.py and core/sw/server.c: what the calls of the panels put on the
-- wire, and what the board runs for each.
pub mod Runs
use mathlib.Core.List.{append-nil}
use pound_drever_hall.Common.{
  ℕ, ◌≤◌, ◌≡◌, ◌≢◌, refl, ap, ◌∙◌, sym, subst, true, some, List, [], ◌∷◌, ◌++◌, map, Text, codes,
  length, All, arith,
}
use pound_drever_hall.Common.Int.{ℤ, pos, pos_part}
use pound_drever_hall.Python.Result.{Result, ok}
use pound_drever_hall.Python.Float.{Float}
use pound_drever_hall.Api.Types
use pound_drever_hall.Api.Types.{FrameCode, frame_code_enum}
use pound_drever_hall.Api.Types.Laws.{int-of_value}
use pound_drever_hall.Api.Response.{Value, Response}
use pound_drever_hall.Api.Transport.{lift, World, Outside, Api, ◌>>=◌, return, execute_cmd, api_cmd}
use pound_drever_hall.Api.Transport.Laws.{
  Sent, register_call, register_call-ok, >>=-eq-ok, >>=-eq-return,
}
use pound_drever_hall.Api.Results.{
  ResetResult, SetLedResult, AdcResult, SetDacResult, SetRotResult, SetNcoResult, ConfigIoResult,
  ConfigDemodResult, SetPidResult, SetFirResult, FrameResult, ControlMetricsResult, PsdResult,
}
use pound_drever_hall.Api.Commands.{
  command, floats, ints, radians, api_reset_fpga, api_get_adc, api_set_dac, api_set_led,
  api_config_io, api_set_nco, api_set_rotation, api_config_demod, api_set_fir_coeffs,
  send_fir_coeffs, api_set_pid, api_get_frame, api_sweep_ramp, default_remote_dir, frame_command,
}
use pound_drever_hall.Api.Commands.Captures.Laws.{api_sweep_ramp-ok, api_get_frame-ok}
use pound_drever_hall.Api.Analysis.Numeric.{Numeric}
use pound_drever_hall.Gui.Check.{
  Call, reset_fpga, get_adc, set_dac, set_led, config_io, set_nco, set_rotation, config_demod,
  set_fir_coeffs, set_pid, control_metrics, get_frame, sweep_ramp, psd,
}
use pound_drever_hall.Api.Analysis.Spectrum.{api_psd}
use pound_drever_hall.Api.Analysis.Metrics.{api_control_metrics}
use pound_drever_hall.Gui.Calls.{call_api}
use pound_drever_hall.Board.Context.Commands.{float_part, uint_part}

module _ {F : Type 0} ⦃fl : Float F⦄ where
  -- The name of a call's command on the board, and its numbers.
  abbrev pub name_of : Call F → Text
  name_of reset_fpga = codes "reset_fpga"
  name_of get_adc = codes "get_adc"
  name_of (set_dac v sel) = codes "set_dac"
  name_of (set_led v) = codes "set_led"
  name_of (config_io d1 d2 pid) = codes "config_io"
  name_of (set_nco freq shift en) = codes "set_nco"
  name_of (set_rotation theta) = codes "set_rotation"
  name_of (config_demod ref in_sel alpha) = codes "config_demod"
  name_of (set_fir_coeffs coeffs sel) = codes "set_fir"
  name_of (set_pid p) = codes "set_pid"
  name_of (control_metrics dec params) = codes "get_frame"
  name_of (get_frame dec fc) = codes "get_frame"
  name_of (sweep_ramp v0 v1 pts sel delay mode) = codes "sweep_ramp"
  name_of (psd dec fc) = codes "get_frame"

  abbrev pub floats_of : Call F → List F
  floats_of (set_dac v sel) = v ∷ []
  floats_of (set_nco freq shift en) = freq ∷ shift ∷ []
  floats_of (set_rotation theta) = radians theta ∷ []
  floats_of (set_fir_coeffs coeffs sel) = coeffs
  floats_of (set_pid p) = p.kp ∷ p.kd ∷ p.ki ∷ p.sp ∷ p.gain ∷ p.bias ∷ p.egain ∷ []
  floats_of (sweep_ramp v0 v1 pts sel delay mode) = v0 ∷ v1 ∷ []
  floats_of _ = []

  abbrev pub uints_of : Call F → List ℤ
  uints_of (set_dac v sel) = sel ∷ []
  uints_of (set_led v) = v ∷ []
  uints_of (config_io d1 d2 pid) = d1 ∷ d2 ∷ pid ∷ []
  uints_of (set_nco freq shift en) = en ∷ []
  uints_of (config_demod ref in_sel alpha) = ref ∷ in_sel ∷ alpha ∷ []
  uints_of (set_fir_coeffs coeffs sel) = sel ∷ []
  uints_of (set_pid p) = p.dec ∷ p.alpha ∷ p.sat ∷ p.en ∷ []
  uints_of (control_metrics dec params) = dec ∷ Types.int FrameCode.pid_io ∷ []
  uints_of (get_frame dec fc) = dec ∷ fc ∷ []
  uints_of (sweep_ramp v0 v1 pts sel delay mode) = pts ∷ sel ∷ delay ∷ mode ∷ []
  uints_of (psd dec fc) = dec ∷ fc ∷ []
  uints_of _ = []

  abbrev pub arguments : Call F → Text
  arguments call = float_part (floats_of call) ++ uint_part (uints_of call)

  -- The text of its packet.
  abbrev pub packet_text : Call F → Text
  packet_text call = command (name_of call) (arguments call)

  -- A filter that is loaded has a coefficient.
  abbrev pub HasCoeffs : Call F → Type 0
  HasCoeffs (set_fir_coeffs [] sel) = ⊥
  HasCoeffs _ = Unit

module _ {F : Type 0} ⦃fl : Float F⦄ (out : Outside F) (np : Numeric F) where
  register-Sent :
      {R : Type 0} (name : Text) (status : R → Value F) (cmd : Text) (build : Response F → R)
      (w : World) {w' : World}
      → (api_cmd name (λ x. some (status x)) (register_call name status out cmd build) >>= λ _.
            return tt)
          w
        ≡ (ok tt, w')
      → Sent w cmd w'
  register-Sent name status cmd build w h =
      let (x, set, _) =
        >>=-eq-return
          (api_cmd name (λ x. some (status x)) (register_call name status out cmd build)) tt w h in
      let (_, e, _) = register_call-ok name status out cmd build w set in
      (ap (λ x. x.sent) e, ap (λ x. x.server_ip) e, ap (λ x. x.server_port) e)

  frame-Sent :
      (dec fc : ℤ) (w : World) {r : FrameResult F} {w' : World}
      → api_get_frame out dec fc default_remote_dir w ≡ (ok r, w')
      → Sent w (command (codes "get_frame") (ints (dec ∷ fc ∷ []))) w'
  frame-Sent dec fc w {r} {w'} h =
      let (code, found, _, sent) = api_get_frame-ok out dec fc default_remote_dir w h in
      subst (λ k. Sent w (command (codes "get_frame") (ints (dec ∷ k ∷ []))) w')
        (int-of_value fc found) sent

  -- What follows a computation in a call does not touch the world.
  lift-world :
      {A B : Type 0} (m : Api A) (f : A → Result B) (w : World) {b : B} {w' : World}
      → (m >>= λ a. lift (f a)) w ≡ (ok b, w')
      → (a : A) × (m w ≡ (ok a, w'))
  lift-world m f w {b} {w'} h =
      let (a, v, got, rest) = >>=-eq-ok m (λ a. lift (f a)) w h in
      let end : v ≡ w' = ap (λ p. p.1) rest in (a, got ∙ (λ i. (ok a, end i)))

  metrics-Sent :
      (dec : ℤ) (params : List (Text × Value F)) (w : World) {r : ControlMetricsResult F}
      {w' : World}
      → api_control_metrics np out dec params w ≡ (ok r, w')
      → Sent w (command (codes "get_frame") (ints (dec ∷ Types.int FrameCode.pid_io ∷ []))) w'
  unfolding api_control_metrics
  metrics-Sent dec params w h =
      frame-Sent dec (Types.int FrameCode.pid_io) w
        (lift-world (api_get_frame out dec (Types.int FrameCode.pid_io) default_remote_dir) _ w h).1

  psd-Sent :
      (dec fc : ℤ) (w : World) {r : PsdResult F} {w' : World}
      → api_psd np out dec fc w ≡ (ok r, w')
      → Sent w (command (codes "get_frame") (ints (dec ∷ fc ∷ []))) w'
  unfolding api_psd
  psd-Sent dec fc w h =
      frame-Sent dec fc w (lift-world (api_get_frame out dec fc default_remote_dir) _ w h).1

  -- A call of a panel that returns has put exactly one packet on the wire.
  pub call_api-Sent :
      (call : Call F) (w : World) {w' : World}
      → HasCoeffs call
      → call_api out np call w ≡ (ok tt, w')
      → Sent w (packet_text call) w'
  unfolding call_api api_reset_fpga api_get_adc api_set_dac api_set_led api_config_io api_set_nco
      api_set_rotation api_config_demod api_set_fir_coeffs send_fir_coeffs api_set_pid
  call_api-Sent reset_fpga w n h =
      register-Sent (codes "api_reset_fpga") (λ (r : ResetResult F). r.status) _ _ w h
  call_api-Sent get_adc w n h =
      register-Sent (codes "api_get_adc") (λ (r : AdcResult F). r.status) _ _ w h
  call_api-Sent (set_dac v sel) w n h =
      register-Sent (codes "api_set_dac") (λ (r : SetDacResult F). r.status) _ _ w h
  call_api-Sent (set_led v) w n h =
      register-Sent (codes "api_set_led") (λ (r : SetLedResult F). r.status) _ _ w h
  call_api-Sent (config_io d1 d2 pid) w n h =
      register-Sent (codes "api_config_io") (λ (r : ConfigIoResult F). r.status) _ _ w h
  call_api-Sent (set_nco freq shift en) w n h =
      register-Sent (codes "api_set_nco") (λ (r : SetNcoResult F). r.status) _ _ w h
  call_api-Sent (config_demod ref in_sel alpha) w n h =
      register-Sent (codes "api_config_demod") (λ (r : ConfigDemodResult F). r.status) _ _ w h
  call_api-Sent (set_pid p) w n h =
      register-Sent (codes "api_set_pid") (λ (r : SetPidResult F). r.status) _ _ w h
  call_api-Sent (set_fir_coeffs (x ∷ xs) sel) w n h =
      register-Sent (codes "api_set_fir_coeffs") (λ (r : SetFirResult F). r.status) _ _ w h
  call_api-Sent (set_fir_coeffs [] sel) w n h = absurd n
  call_api-Sent (set_rotation theta) w {w'} n h =
      subst (λ l. Sent w (command (codes "set_rotation") l) w')
        (sym (append-nil (floats (radians theta ∷ []))))
        (register-Sent (codes "api_set_rotation") (λ (r : SetRotResult F). r.status) _ _ w h)
  call_api-Sent (control_metrics dec params) w n h =
      let (_, set, _) = >>=-eq-return (api_control_metrics np out dec params) tt w h in
      metrics-Sent dec params w set
  call_api-Sent (get_frame dec fc) w n h =
      let (_, set, _) = >>=-eq-return (api_get_frame out dec fc default_remote_dir) tt w h in
      frame-Sent dec fc w set
  call_api-Sent (psd dec fc) w n h =
      let (_, set, _) = >>=-eq-return (api_psd np out dec fc) tt w h in psd-Sent dec fc w set
  call_api-Sent (sweep_ramp v0 v1 pts sel delay mode) w n h =
      let (_, set, _) =
        >>=-eq-return (api_sweep_ramp out v0 v1 pts sel delay mode default_remote_dir) tt w h in
      (api_sweep_ramp-ok out v0 v1 pts sel delay mode default_remote_dir w set).0
