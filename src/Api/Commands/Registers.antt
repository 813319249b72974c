-- ===== src/Api/Commands/Registers.antt =====
-- client/pdh_api/api.py: the commands that set and read registers. Each is its body under the
-- decorator; a selector is passed as the `int` that is sent.
pub mod Laws
use pound_drever_hall.Common.{some, [], ◌∷◌, ◌++◌, Text, codes, List}
use pound_drever_hall.Common.Int.{ℤ, pos}
use pound_drever_hall.Python.Float.{Float}
use pound_drever_hall.Api.Response.{Value, int, float, Response, get}
use pound_drever_hall.Api.Transport.{World, Outside, Api, ◌>>=◌, return, execute_cmd, api_cmd}
use pound_drever_hall.Api.Results.{
  ResetResult, SetLedResult, AdcResult, SetDacResult, CheckSignedResult, SetRotResult, SetPidResult,
  SetNcoResult, ConfigIoResult, ConfigDemodResult,
}
use pound_drever_hall.Api.Commands.Line.{command, ints, floats, status_of, code_of, float_of}

-- The arguments of `api_set_pid`.
pub record PidParams (F : Type 0) : Type 0 where
  pub kp : F
  pub kd : F
  pub ki : F
  pub sp : F
  pub dec : ℤ
  pub alpha : ℤ
  pub sat : ℤ
  pub en : ℤ
  pub gain : F
  pub bias : F
  pub egain : F

abbrev pub config_io_command : ℤ → ℤ → ℤ → Text
config_io_command dac1_dat_sel dac2_dat_sel pid_dat_sel =
    command (codes "config_io") (ints (dac1_dat_sel ∷ dac2_dat_sel ∷ pid_dat_sel ∷ []))

abbrev pub set_pid_command : {F : Type 0} ⦃fl : Float F⦄ → PidParams F → Text
set_pid_command p = command (codes "set_pid") (
    floats (p.kp ∷ p.kd ∷ p.ki ∷ p.sp ∷ p.gain ∷ p.bias ∷ p.egain ∷ [])
    ++ ints (p.dec ∷ p.alpha ∷ p.sat ∷ p.en ∷ []))

module _ {F : Type 0} ⦃fl : Float F⦄ where
  -- math.pi * theta_deg / 180.0
  abbrev pub radians : F → F
  radians theta_deg = fl.quotient (fl.mul fl.pi theta_deg) (fl.of_int (pos 180))

module _ {F : Type 0} ⦃fl : Float F⦄ (out : Outside F) where
  abbrev api_reset_fpga_call : Api (ResetResult F)
  api_reset_fpga_call = do
    r ← execute_cmd out (command (codes "reset_fpga") [])
    return record { status = status_of r; rst_raw_cb = code_of r (codes "RST_RAW_CB") }

  unfoldable pub api_reset_fpga : Api (ResetResult F)
  api_reset_fpga =
      api_cmd (codes "api_reset_fpga") (λ (r : ResetResult F). some r.status) (api_reset_fpga_call)

  abbrev api_set_led_call : ℤ → Api (SetLedResult F)
  api_set_led_call value = do
    r ← execute_cmd out (command (codes "set_led") (ints (value ∷ [])))
    return record {
      status = status_of r;
      led_code_cb = code_of r (codes "LED_CODE_CB");
      cmd_cb = code_of r (codes "CMD_CB");
    }

  unfoldable pub api_set_led : ℤ → Api (SetLedResult F)
  api_set_led value =
      api_cmd (codes "api_set_led") (λ (r : SetLedResult F). some r.status) (api_set_led_call value)

  abbrev api_get_adc_call : Api (AdcResult F)
  api_get_adc_call = do
    r ← execute_cmd out (command (codes "get_adc") [])
    return record {
      status = status_of r;
      in1_code = code_of r (codes "IN1");
      in2_code = code_of r (codes "IN2");
      in1_v = float_of r (codes "IN1_V");
      in2_v = float_of r (codes "IN2_V");
    }

  unfoldable pub api_get_adc : Api (AdcResult F)
  api_get_adc =
      api_cmd (codes "api_get_adc") (λ (r : AdcResult F). some r.status) (api_get_adc_call)

  abbrev api_set_dac_call : F → ℤ → Api (SetDacResult F)
  api_set_dac_call value dac_sel = do
    r ← execute_cmd out (command (codes "set_dac") (floats (value ∷ []) ++ ints (dac_sel ∷ [])))
    return record {
      status = status_of r;
      dac1_code_cb = code_of r (codes "DAC1_CODE_CB");
      dac2_code_cb = code_of r (codes "DAC2_CODE_CB");
    }

  unfoldable pub api_set_dac : F → ℤ → Api (SetDacResult F)
  api_set_dac value dac_sel =
      api_cmd (codes "api_set_dac") (λ (r : SetDacResult F). some r.status)
        (api_set_dac_call value dac_sel)

  abbrev api_check_signed_call : ℤ → Api (CheckSignedResult F)
  api_check_signed_call reg_sel = do
    r ← execute_cmd out (command (codes "check_signed") (ints (reg_sel ∷ [])))
    return record {
      status = status_of r;
      reg_sel_cb = code_of r (codes "REG_SEL_CB");
      reg_value_cb = code_of r (codes "REG_VALUE_CB");
    }

  unfoldable pub api_check_signed : ℤ → Api (CheckSignedResult F)
  api_check_signed reg_sel =
      api_cmd (codes "api_check_signed") (λ (r : CheckSignedResult F). some r.status)
        (api_check_signed_call reg_sel)

  abbrev api_set_rotation_call : F → Api (SetRotResult F)
  api_set_rotation_call theta_deg = do
    r ← execute_cmd out (command (codes "set_rotation") (floats (radians theta_deg ∷ [])))
    return record {
      status = status_of r;
      cos_cb = float_of r (codes "COS_CB");
      sin_cb = float_of r (codes "SIN_CB");
      i_feed_cb = float_of r (codes "I_FEED_CB");
      q_feed_cb = float_of r (codes "Q_FEED_CB");
    }

  unfoldable pub api_set_rotation : F → Api (SetRotResult F)
  api_set_rotation theta_deg =
      api_cmd (codes "api_set_rotation") (λ (r : SetRotResult F). some r.status)
        (api_set_rotation_call theta_deg)

  abbrev api_set_nco_call : F → F → ℤ → Api (SetNcoResult F)
  api_set_nco_call freq shift_deg en = do
    r ←
        execute_cmd out
          (command (codes "set_nco") (floats (freq ∷ shift_deg ∷ []) ++ ints (en ∷ [])))
    return record {
      status = status_of r;
      stride_cb = code_of r (codes "STRIDE_CB");
      shift_cb = code_of r (codes "SHIFT_CB");
      sub_cb = code_of r (codes "SUB_CB");
      inv_cb = code_of r (codes "INV_CB");
      en_cb = code_of r (codes "EN_CB");
      registered_freq = float_of r (codes "REGISTERED_FREQ");
      registered_freq_error = float_of r (codes "REGISTERED_FREQ_ERROR");
      registered_phase_shift = float_of r (codes "REGISTERED_PHASE_SHIFT");
      registered_shift_error = float_of r (codes "REGISTERED_SHIFT_ERROR");
    }

  unfoldable pub api_set_nco : F → F → ℤ → Api (SetNcoResult F)
  api_set_nco freq shift_deg en =
      api_cmd (codes "api_set_nco") (λ (r : SetNcoResult F). some r.status)
        (api_set_nco_call freq shift_deg en)

  abbrev api_set_pid_call : PidParams F → Api (SetPidResult F)
  api_set_pid_call p = do
    r ← execute_cmd out (set_pid_command p)
    return record {
      status = status_of r;
      kp_cb = float_of r (codes "KP_CB");
      kd_cb = float_of r (codes "KD_CB");
      ki_cb = float_of r (codes "KI_CB");
      dec_cb = code_of r (codes "DEC_CB");
      sp_cb = float_of r (codes "SP_CB");
      alpha_cb = code_of r (codes "ALPHA_CB");
      sat_cb = code_of r (codes "SAT_CB");
      en_cb = code_of r (codes "EN_CB");
      gain_cb = float_of r (codes "GAIN_CB");
      bias_cb = float_of r (codes "BIAS_CB");
      egain_cb = float_of r (codes "EGAIN_CB");
    }

  unfoldable pub api_set_pid : PidParams F → Api (SetPidResult F)
  api_set_pid p =
      api_cmd (codes "api_set_pid") (λ (r : SetPidResult F). some r.status) (api_set_pid_call p)

  abbrev api_config_io_call : ℤ → ℤ → ℤ → Api (ConfigIoResult F)
  api_config_io_call dac1_dat_sel dac2_dat_sel pid_dat_sel = do
    r ← execute_cmd out (config_io_command dac1_dat_sel dac2_dat_sel pid_dat_sel)
    return record {
      status = status_of r;
      dac1_dat_sel_cb = code_of r (codes "DAC1_DAT_SEL_CB");
      dac2_dat_sel_cb = code_of r (codes "DAC2_DAT_SEL_CB");
      pid_dat_sel_cb = code_of r (codes "PID_DAT_SEL_CB");
    }

  unfoldable pub api_config_io : ℤ → ℤ → ℤ → Api (ConfigIoResult F)
  api_config_io dac1_dat_sel dac2_dat_sel pid_dat_sel =
      api_cmd (codes "api_config_io") (λ (r : ConfigIoResult F). some r.status)
        (api_config_io_call dac1_dat_sel dac2_dat_sel pid_dat_sel)

  abbrev api_config_demod_call : ℤ → ℤ → ℤ → Api (ConfigDemodResult F)
  api_config_demod_call ref_sel in_sel lpf_alpha = do
    r ← execute_cmd out (command (codes "config_demod") (ints (ref_sel ∷ in_sel ∷ lpf_alpha ∷ [])))
    return record {
      status = status_of r;
      ref_sel_cb = code_of r (codes "REF_SEL_CB");
      in_sel_cb = code_of r (codes "IN_SEL_CB");
      lpf_alpha_cb = code_of r (codes "LPF_ALPHA_CB");
    }

  unfoldable pub api_config_demod : ℤ → ℤ → ℤ → Api (ConfigDemodResult F)
  api_config_demod ref_sel in_sel lpf_alpha =
      api_cmd (codes "api_config_demod") (λ (r : ConfigDemodResult F). some r.status)
        (api_config_demod_call ref_sel in_sel lpf_alpha)
