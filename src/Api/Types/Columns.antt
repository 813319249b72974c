-- ===== src/Api/Types/Columns.antt =====
-- client/pdh_api/types.py: the column labels, in the order of the CSV files.
use pound_drever_hall.Common.{List, [], ◌∷◌, Text, codes}
use pound_drever_hall.Api.Types.Frames.{
  FrameCode, adc_data_in, pid_err_taps, io_sum_err, osc_inspect, osc_addr_check, loopback, fir_io,
  pid_io, capture_demod,
}

-- `FRAME_COLUMNS`, which has a key for every frame code.
abbrev pub frame_columns : FrameCode → List Text
frame_columns adc_data_in = codes "adc_a" ∷ codes "adc_b" ∷ codes "i_feed" ∷ codes "q_feed" ∷ []
frame_columns pid_err_taps = codes "err" ∷ codes "perr" ∷ codes "derr" ∷ codes "ierr" ∷ []
frame_columns io_sum_err = codes "err" ∷ codes "pid_out" ∷ codes "sum_err" ∷ []
frame_columns osc_inspect =
    codes "nco_out1" ∷ codes "nco_out2" ∷ codes "nco_feed1" ∷ codes "nco_feed2" ∷ []
frame_columns osc_addr_check = codes "phi1" ∷ codes "phi2" ∷ codes "addr1" ∷ codes "addr2" ∷ []
frame_columns loopback = codes "dac1_feed" ∷ codes "dac2_feed" ∷ codes "adc_a" ∷ codes "adc_b" ∷ []
frame_columns fir_io = codes "fir_in" ∷ codes "fir_out" ∷ []
frame_columns pid_io = codes "pid_in" ∷ codes "err" ∷ codes "pid_out" ∷ []
frame_columns capture_demod =
    codes "demod_in" ∷ codes "demod_ref" ∷ codes "demod_out" ∷ codes "demod_lpf" ∷ []

abbrev pub sweep_columns : List Text
sweep_columns = codes "dac_v" ∷ codes "adc_a" ∷ codes "adc_b" ∷ codes "i_feed" ∷ codes "q_feed" ∷ []

abbrev pub sweep_demod_columns : List Text
sweep_demod_columns = codes "dac_v" ∷ codes "demod_lpf" ∷ []
