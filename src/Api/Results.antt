-- ===== src/Api/Results.antt =====
-- client/pdh_api/types.py: the result classes. A field holds whatever the response has under its
-- key, a number or a text, or the default of the command.
use pound_drever_hall.Common.{List, Text}
use pound_drever_hall.Common.Int.{ℤ}
use pound_drever_hall.Api.Response.{Value}
use pound_drever_hall.Api.Transport.{Array}

pub record ResetResult (F : Type 0) : Type 0 where
  pub status : Value F
  pub rst_raw_cb : Value F

pub record SetLedResult (F : Type 0) : Type 0 where
  pub status : Value F
  pub led_code_cb : Value F
  pub cmd_cb : Value F

pub record AdcResult (F : Type 0) : Type 0 where
  pub status : Value F
  pub in1_code : Value F
  pub in2_code : Value F
  pub in1_v : Value F
  pub in2_v : Value F

pub record SetDacResult (F : Type 0) : Type 0 where
  pub status : Value F
  pub dac1_code_cb : Value F
  pub dac2_code_cb : Value F

pub record CheckSignedResult (F : Type 0) : Type 0 where
  pub status : Value F
  pub reg_sel_cb : Value F
  pub reg_value_cb : Value F

pub record SetRotResult (F : Type 0) : Type 0 where
  pub status : Value F
  pub cos_cb : Value F
  pub sin_cb : Value F
  pub i_feed_cb : Value F
  pub q_feed_cb : Value F

pub record SetPidResult (F : Type 0) : Type 0 where
  pub status : Value F
  pub kp_cb : Value F
  pub kd_cb : Value F
  pub ki_cb : Value F
  pub dec_cb : Value F
  pub sp_cb : Value F
  pub alpha_cb : Value F
  pub sat_cb : Value F
  pub en_cb : Value F
  pub gain_cb : Value F
  pub bias_cb : Value F
  pub egain_cb : Value F

pub record SetNcoResult (F : Type 0) : Type 0 where
  pub status : Value F
  pub stride_cb : Value F
  pub shift_cb : Value F
  pub sub_cb : Value F
  pub inv_cb : Value F
  pub en_cb : Value F
  pub registered_freq : Value F
  pub registered_freq_error : Value F
  pub registered_phase_shift : Value F
  pub registered_shift_error : Value F

pub record ConfigIoResult (F : Type 0) : Type 0 where
  pub status : Value F
  pub dac1_dat_sel_cb : Value F
  pub dac2_dat_sel_cb : Value F
  pub pid_dat_sel_cb : Value F

pub record ConfigDemodResult (F : Type 0) : Type 0 where
  pub status : Value F
  pub ref_sel_cb : Value F
  pub in_sel_cb : Value F
  pub lpf_alpha_cb : Value F

pub record FrameResult (F : Type 0) : Type 0 where
  pub status : Value F
  pub dma_engaged : Value F
  pub decimation_cb : Value F
  pub frame_code_cb : Value F
  pub samples : Array F
  pub columns : List Text

pub record SweepRampResult (F : Type 0) : Type 0 where
  pub status : Value F
  pub num_points_cb : Value F
  pub samples : Array F
  pub columns : List Text

pub record SetFirResult (F : Type 0) : Type 0 where
  pub status : Value F
  pub input_sel_cb : Value F
  pub mem_wen_en_cb : Value F
  pub mem_wen_dis_cb : Value F
  pub chain_wen_cb : Value F

pub record LockPointResult (F : Type 0) : Type 0 where
  pub golden : List F
  pub optimal_angle_deg : F
  pub lock_point : F

-- The columns of the spectra stand as lists.
pub record PsdResult (F : Type 0) : Type 0 where
  pub status : Value F
  pub freqs : List F
  pub spectra : List (List F)
  pub fs : F
  pub columns : List Text
  pub raw_data : Array F

pub record ControlMetricsResult (F : Type 0) : Type 0 where
  pub raw_data : Array F
  pub columns : List Text
  pub fs : F
  pub decimation : ℤ
  pub freqs : List F
  pub spectra : List (List F)
  pub rms_error : F
  pub settling_time : F
  pub overshoot : F
  pub ctrl_rms : F
  pub ctrl_max : F
  pub ctrl_p95 : F
  pub ctrl_slew_rms : F
  pub ccf_lags : List F
  pub ccf : List F
  pub ccf_peak : F
  pub ccf_peak_lag : F
  pub pid_params : List (Text × Value F)
