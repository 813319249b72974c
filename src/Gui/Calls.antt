-- ===== src/Gui/Calls.antt =====
-- client/gui.py: which function of the API each request of a panel runs in its thread. What numpy
-- computes is a parameter.
pub mod Laws
pub mod Address
use pound_drever_hall.Common.{codes}
use pound_drever_hall.Common.Int.{ℤ, pos}
use pound_drever_hall.Python.Result.{Result}
use pound_drever_hall.Python.Float.{Float}
use pound_drever_hall.Api.Types
use pound_drever_hall.Api.Types.{FrameCode, frame_code_enum}
use pound_drever_hall.Api.Transport.{World, Outside, Api, ◌>>=◌, return, Array}
use pound_drever_hall.Api.Results.{FrameResult}
use pound_drever_hall.Api.Commands.{
  api_reset_fpga, api_get_adc, api_set_dac, api_set_led, api_config_io, api_set_nco,
  api_set_rotation, api_config_demod, api_set_fir_coeffs, api_set_pid, api_get_frame,
  api_sweep_ramp, default_remote_dir,
}
use pound_drever_hall.Api.Analysis.Numeric.{Numeric}
use pound_drever_hall.Api.Analysis.Spectrum.{api_psd}
use pound_drever_hall.Api.Analysis.Metrics.{api_control_metrics}
use pound_drever_hall.Gui.Check.{
  Call, reset_fpga, get_adc, set_dac, set_led, config_io, set_nco, set_rotation, config_demod,
  set_fir_coeffs, set_pid, control_metrics, get_frame, sweep_ramp, psd,
}

module _ {F : Type 0} ⦃fl : Float F⦄ (out : Outside F) (np : Numeric F) where
  -- A result, of which the panel shows some fields.
  abbrev done : {R : Type 0} → Api R → Api (Unit {0})
  done call = call >>= λ _. return tt

  unfoldable pub call_api : Call F → Api (Unit {0})
  call_api reset_fpga = done (api_reset_fpga out)
  call_api get_adc = done (api_get_adc out)
  call_api (set_dac v sel) = done (api_set_dac out v sel)
  call_api (set_led v) = done (api_set_led out v)
  call_api (config_io d1 d2 pid) = done (api_config_io out d1 d2 pid)
  call_api (set_nco freq shift en) = done (api_set_nco out freq shift en)
  call_api (set_rotation theta) = done (api_set_rotation out theta)
  call_api (config_demod ref in_sel alpha) = done (api_config_demod out ref in_sel alpha)
  call_api (set_fir_coeffs coeffs sel) = done (api_set_fir_coeffs out coeffs sel)
  call_api (set_pid p) = done (api_set_pid out p)
  call_api (control_metrics dec params) = done (api_control_metrics np out dec params)
  call_api (get_frame dec fc) = done (api_get_frame out dec fc default_remote_dir)
  call_api (sweep_ramp v0 v1 pts sel delay mode) =
      done (api_sweep_ramp out v0 v1 pts sel delay mode default_remote_dir)
  call_api (psd dec fc) = done (api_psd np out dec fc)
