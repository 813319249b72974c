-- ===== src/Api/Commands/Registers/Laws.antt =====
-- What the register commands send.
use pound_drever_hall.Common.{◌≡◌, ap, true, codes}
use pound_drever_hall.Common.Int.{ℤ}
use pound_drever_hall.Python.Result.{ok}
use pound_drever_hall.Python.Float.{Float}
use pound_drever_hall.Api.Response.{is_zero}
use pound_drever_hall.Api.Transport.{World, Outside}
use pound_drever_hall.Api.Transport.Laws.{Sent, register_call-ok}
use pound_drever_hall.Api.Results.{ConfigIoResult, SetPidResult}
use pound_drever_hall.Api.Commands.Registers.{
  PidParams, api_config_io, api_set_pid, config_io_command, set_pid_command,
}

module _ {F : Type 0} ⦃fl : Float F⦄ (out : Outside F) where
  -- A routing that returns has sent its command once, and its status is zero.
  pub api_config_io-Sent :
      (a b c : ℤ) (w : World) {r : ConfigIoResult F} {w' : World}
      → api_config_io out a b c w ≡ (ok r, w')
      → Sent w (config_io_command a b c) w' × (is_zero r.status ≡ true)
  unfolding api_config_io
  api_config_io-Sent a b c w {r} {w'} h =
      let (zero, e, _) =
        register_call-ok (codes "api_config_io") (λ (r : ConfigIoResult F). r.status) out
          (config_io_command a b c) _ w h in
      ((ap (λ x. x.sent) e, ap (λ x. x.server_ip) e, ap (λ x. x.server_port) e), zero)

  -- A call that sets the controller's parameters and returns has sent the command with these
  -- parameters once, to the server that the globals name, and the status it returns is zero.
  pub api_set_pid-Sent :
      (p : PidParams F) (w : World) {r : SetPidResult F} {w' : World}
      → api_set_pid out p w ≡ (ok r, w')
      → Sent w (set_pid_command p) w' × (is_zero r.status ≡ true)
  unfolding api_set_pid
  api_set_pid-Sent p w {r} {w'} h =
      let (zero, e, _) =
        register_call-ok (codes "api_set_pid") (λ (r : SetPidResult F). r.status) out
          (set_pid_command p) _ w h in
      ((ap (λ x. x.sent) e, ap (λ x. x.server_ip) e, ap (λ x. x.server_port) e), zero)
