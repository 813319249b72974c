-- ===== src/Api/Types/Frames.antt =====
-- client/pdh_api/types.py: `FrameCode`.
use pound_drever_hall.Common.{ℕ, [], ◌∷◌, Text, codes}
use pound_drever_hall.Api.Types.Enum.{IntEnum}

pub data FrameCode : Type 0 where
  adc_data_in pid_err_taps io_sum_err osc_inspect osc_addr_check : FrameCode
  loopback fir_io pid_io capture_demod : FrameCode

abbrev frame_code_value : FrameCode → ℕ
frame_code_value adc_data_in = 0b0000
frame_code_value pid_err_taps = 0b0001
frame_code_value io_sum_err = 0b0010
frame_code_value osc_inspect = 0b0011
frame_code_value osc_addr_check = 0b0100
frame_code_value loopback = 0b0101
frame_code_value fir_io = 0b0110
frame_code_value pid_io = 0b0111
frame_code_value capture_demod = 0b1000

abbrev pub frame_code_name : FrameCode → Text
frame_code_name adc_data_in = codes "ADC_DATA_IN"
frame_code_name pid_err_taps = codes "PID_ERR_TAPS"
frame_code_name io_sum_err = codes "IO_SUM_ERR"
frame_code_name osc_inspect = codes "OSC_INSPECT"
frame_code_name osc_addr_check = codes "OSC_ADDR_CHECK"
frame_code_name loopback = codes "LOOPBACK"
frame_code_name fir_io = codes "FIR_IO"
frame_code_name pid_io = codes "PID_IO"
frame_code_name capture_demod = codes "CAPTURE_DEMOD"

instance abbrev pub frame_code_enum : IntEnum FrameCode
frame_code_enum = record {
  members =
      adc_data_in ∷ pid_err_taps ∷ io_sum_err ∷ osc_inspect ∷ osc_addr_check ∷ loopback ∷ fir_io
      ∷ pid_io ∷ capture_demod ∷ [];
  value = frame_code_value;
  name = frame_code_name;
}
