-- ===== src/Gui/Calls/Address.antt =====
-- No call of a panel changes the address of the server, and all that it sends goes to it.
use pound_drever_hall.Common.{Option, none, some, Text, if◌then◌else◌}
use pound_drever_hall.Common.Int.{ℤ}
use pound_drever_hall.Python.Float.{Float}
use pound_drever_hall.Api.Types.{FrameCode, of_value, frame_code_enum}
use pound_drever_hall.Api.Response.{Value, Response, is_zero}
use pound_drever_hall.Api.Transport.{Outside, Api, Array, ◌>>=◌, return, execute_cmd, api_cmd}
use pound_drever_hall.Api.Transport.Laws.{register_call}
use pound_drever_hall.Api.Transport.Address.{
  Keeps, Extends-same, Keeps-lift, Keeps-return, Keeps-raise, >>=-Keeps, if-Keeps, map-Keeps,
  execute_cmd-Keeps, api_cmd-Keeps,
}
use pound_drever_hall.Api.Commands.{
  api_reset_fpga, api_get_adc, api_set_dac, api_set_led, api_config_io, api_set_nco,
  api_set_rotation, api_config_demod, api_set_fir_coeffs, send_fir_coeffs, api_set_pid,
  api_get_frame, api_sweep_ramp, fetch, capture_known, default_remote_dir, status_of,
}
use pound_drever_hall.Api.Commands.Captures.Laws.{fetch-SameWire}
use pound_drever_hall.Api.Analysis.Numeric.{Numeric}
use pound_drever_hall.Api.Analysis.Spectrum.{api_psd}
use pound_drever_hall.Api.Analysis.Metrics.{api_control_metrics}
use pound_drever_hall.Gui.Check.{Call, control_metrics, get_frame, sweep_ramp, psd}
use pound_drever_hall.Gui.Calls.{call_api}

module _ {F : Type 0} ⦃fl : Float F⦄ (out : Outside F) where
  fetch-Keeps : (remote name : Text) → Keeps (fetch out remote name)
  fetch-Keeps remote name = record {
    extends = λ w.
        let (sent, ip, port) = fetch-SameWire out remote name w in Extends-same w _ sent ip port;
  }

  register-Keeps :
      {R : Type 0} (name : Text) (status : R → Value F) (cmd : Text) (build : Response F → R)
      → Keeps (api_cmd name (λ x. some (status x)) (register_call name status out cmd build))
  register-Keeps name status cmd build =
      api_cmd-Keeps name (λ x. some (status x)) (register_call name status out cmd build)
        (map-Keeps (execute_cmd out cmd) build (execute_cmd-Keeps out cmd))

  -- A command, and the file that it has logged.
  capture-Keeps :
      {R : Type 0} (cmd remote name : Text) (empty : Array F) (build : Response F → Array F → R)
      → Keeps (
          execute_cmd out cmd >>= λ r.
          (if is_zero (status_of r) then fetch out remote name else return empty) >>= λ samples.
          return (build r samples))
  capture-Keeps {R} cmd remote name empty build =
      let fetched : Response F → Api (Array F) =
        λ r. if is_zero (status_of r) then fetch out remote name else return empty in
      >>=-Keeps (execute_cmd out cmd) (λ r. fetched r >>= λ samples. return (build r samples))
        (execute_cmd-Keeps out cmd)
        (λ r. map-Keeps (fetched r) (build r) (
          if-Keeps (is_zero (status_of r)) (fetch out remote name) (return empty)
            (fetch-Keeps remote name) (Keeps-return empty)))

  known-Keeps :
      (dec fc : ℤ) (dir : Text) (o : Option FrameCode) → Keeps (capture_known out dec fc dir o)
  known-Keeps dec fc dir none = Keeps-raise _ _
  known-Keeps dec fc dir (some code) = capture-Keeps _ _ _ _ _

  frame-Keeps : (dec fc : ℤ) → Keeps (api_get_frame out dec fc default_remote_dir)
  unfolding api_get_frame
  frame-Keeps dec fc = api_cmd-Keeps _ _ _ (known-Keeps dec fc default_remote_dir (of_value fc))

  sweep-Keeps :
      (v0 v1 : F) (pts sel delay mode : ℤ)
      → Keeps (api_sweep_ramp out v0 v1 pts sel delay mode default_remote_dir)
  unfolding api_sweep_ramp
  sweep-Keeps v0 v1 pts sel delay mode = api_cmd-Keeps _ _ _ (capture-Keeps _ _ _ _ _)

  done-Keeps : {R : Type 0} (call : Api R) → Keeps call → Keeps (call >>= λ _. return tt)
  done-Keeps call keeps = map-Keeps call (λ _. tt) keeps

  pub call_api-Keeps : (np : Numeric F) (call : Call F) → Keeps (call_api out np call)
  unfolding call_api api_reset_fpga api_get_adc api_set_dac api_set_led api_config_io api_set_nco
      api_set_rotation api_config_demod api_set_fir_coeffs send_fir_coeffs api_set_pid api_psd
      api_control_metrics
  call_api-Keeps np (get_frame dec fc) = done-Keeps _ (frame-Keeps dec fc)
  call_api-Keeps np (sweep_ramp v0 v1 pts sel delay mode) =
      done-Keeps _ (sweep-Keeps v0 v1 pts sel delay mode)
  call_api-Keeps np (psd dec fc) =
      done-Keeps _ (>>=-Keeps _ _ (frame-Keeps dec fc) (λ r. Keeps-lift _))
  call_api-Keeps np (control_metrics dec params) =
      done-Keeps _ (>>=-Keeps _ _ (frame-Keeps dec _) (λ r. Keeps-lift _))
  call_api-Keeps np _ = done-Keeps _ (register-Keeps _ _ _ _)
