-- ===== src/Api/Commands/Captures.antt =====
-- client/pdh_api/api.py: `api_get_frame` and `api_sweep_ramp`, which fetch what the server has logged.
pub mod Laws
pub mod Race
use pound_drever_hall.Common.{
  ℕ, ◌+◌, Bool, ◌&&◌, Option, none, some, [], ◌∷◌, ◌++◌, map, Text, codes, leb, if◌then◌else◌,
  length, List,
}
use pound_drever_hall.Common.Int.{ℤ, pos, eq_ℤ}
use pound_drever_hall.Python.Number.{show_int}
use pound_drever_hall.Python.Result.{value_error}
use pound_drever_hall.Python.Float.{Float}
use pound_drever_hall.Api.Types
use pound_drever_hall.Api.Types.{
  FrameCode, of_value, frame_code_enum, frame_code_name, frame_columns, sweep_columns,
  sweep_demod_columns,
}
use pound_drever_hall.Api.Response.{Response, is_zero}
use pound_drever_hall.Api.Transport.{
  World, Outside, Api, ◌>>=◌, return, raise, execute_cmd, ssh_fetch_csv, load_csv, api_cmd, Array,
  vector, matrix,
}
use pound_drever_hall.Api.Results.{FrameResult, SweepRampResult}
use pound_drever_hall.Api.Commands.Line.{command, ints, floats, status_of, code_of}

-- `str.lower` on ASCII
abbrev lower : Text → Text
lower = map λ c. if leb b'A' c && leb c b'Z' then c + 32 else c

abbrev pub default_remote_dir : Text
default_remote_dir = codes "sw/build"

abbrev pub frame_command : ℤ → FrameCode → Text
frame_command decimation fc = command (codes "get_frame") (ints (decimation ∷ Types.int fc ∷ []))

-- Any mode but 0 asks for the demodulated signal alone.
abbrev pub columns_of : ℤ → List Text
columns_of demod_mode = if eq_ℤ demod_mode (pos 0) then sweep_columns else sweep_demod_columns

module _ {F : Type 0} ⦃fl : Float F⦄ where
  abbrev pub sweep_command : F → F → ℤ → ℤ → ℤ → ℤ → Text
  sweep_command v0 v1 num_points dac_sel write_delay_us demod_mode =
      command (codes "sweep_ramp")
        (floats (v0 ∷ v1 ∷ []) ++ ints (num_points ∷ dac_sel ∷ write_delay_us ∷ demod_mode ∷ []))

module _ {F : Type 0} ⦃fl : Float F⦄ (out : Outside F) where
  unfoldable pub fetch : Text → Text → Api (Array F)
  fetch remote_path local_name = do
    path ← ssh_fetch_csv out remote_path local_name
    load_csv out path

  -- What follows the command of a frame: the file is fetched only if the capture succeeded.
  abbrev pub capture_rest : FrameCode → Text → Response F → Api (FrameResult F)
  capture_rest fc remote_dir r = do
    samples ←
        if is_zero (status_of r)
        then fetch (remote_dir ++ codes "/dma_log.csv")
            (codes "dma_" ++ (lower (frame_code_name fc) ++ codes ".csv"))
        else return (vector [])
    return record {
      status = status_of r;
      dma_engaged = code_of r (codes "DMA_ENGAGED_CB");
      decimation_cb = code_of r (codes "DECIMATION_CODE_CB");
      frame_code_cb = code_of r (codes "FRAME_CODE_CB");
      samples = samples;
      columns = frame_columns fc;
    }

  abbrev capture : ℤ → FrameCode → Text → Api (FrameResult F)
  capture decimation fc remote_dir =
      execute_cmd out (frame_command decimation fc) >>= capture_rest fc remote_dir

  -- `FrameCode(int(frame_code))`, which raises where no member has that value, is the first step.
  abbrev pub capture_known : ℤ → ℤ → Text → Option FrameCode → Api (FrameResult F)
  capture_known decimation frame_code remote_dir none =
      raise (value_error (show_int frame_code ++ codes " is not a valid FrameCode"))
  capture_known decimation frame_code remote_dir (some fc) = capture decimation fc remote_dir

  abbrev pub api_get_frame_call : ℤ → ℤ → Text → Api (FrameResult F)
  api_get_frame_call decimation frame_code remote_dir =
      capture_known decimation frame_code remote_dir (of_value frame_code)

  unfoldable pub api_get_frame : ℤ → ℤ → Text → Api (FrameResult F)
  api_get_frame decimation frame_code remote_dir =
      api_cmd (codes "api_get_frame") (λ (r : FrameResult F). some r.status)
        (api_get_frame_call decimation frame_code remote_dir)

  abbrev pub api_sweep_ramp_call : F → F → ℤ → ℤ → ℤ → ℤ → Text → Api (SweepRampResult F)
  api_sweep_ramp_call v0 v1 num_points dac_sel write_delay_us demod_mode remote_dir = do
    r ← execute_cmd out (sweep_command v0 v1 num_points dac_sel write_delay_us demod_mode)
    samples ←
        if is_zero (status_of r)
        then fetch (remote_dir ++ codes "/sweep_log.csv") (codes "sweep_log.csv")
        else return (matrix (length (columns_of demod_mode)) [])
    return record {
      status = status_of r;
      num_points_cb = code_of r (codes "NUM_POINTS_CB");
      samples = samples;
      columns = columns_of demod_mode;
    }

  unfoldable pub api_sweep_ramp : F → F → ℤ → ℤ → ℤ → ℤ → Text → Api (SweepRampResult F)
  api_sweep_ramp v0 v1 num_points dac_sel write_delay_us demod_mode remote_dir =
      api_cmd (codes "api_sweep_ramp") (λ (r : SweepRampResult F). some r.status)
        (api_sweep_ramp_call v0 v1 num_points dac_sel write_delay_us demod_mode remote_dir)
