-- ===== src/Api/Types/Selectors.antt =====
-- client/pdh_api/types.py: the selectors.
use pound_drever_hall.Common.{ℕ, [], ◌∷◌, Text, codes}
use pound_drever_hall.Api.Types.Enum.{IntEnum}

pub data FirInputSel : Type 0 where
  adc1 adc2 i_feed q_feed iq_demod_out iq_demod_lpf : FirInputSel

pub data DacSel : Type 0 where
  dac_1 dac_2 : DacSel

pub data DacDatSel : Type 0 where
  register pid nco_1 nco_2 : DacDatSel

pub data PidDatSel : Type 0 where
  i_feed q_feed adc_a adc_b fir_out iq_demod_out iq_demod_lpf : PidDatSel

pub data DemodRefSel : Type 0 where
  nco1 nco2 : DemodRefSel

pub data DemodInSel : Type 0 where
  nco1 nco2 adc_a adc_b i_feed q_feed fir_out : DemodInSel

pub data CsSel : Type 0 where
  adc_a adc_b i_feed q_feed demod_lpf io : CsSel

abbrev fir_input_sel_value : FirInputSel → ℕ
fir_input_sel_value adc1 = 0b000
fir_input_sel_value adc2 = 0b001
fir_input_sel_value FirInputSel.i_feed = 0b010
fir_input_sel_value FirInputSel.q_feed = 0b011
fir_input_sel_value FirInputSel.iq_demod_out = 0b100
fir_input_sel_value FirInputSel.iq_demod_lpf = 0b101

abbrev fir_input_sel_name : FirInputSel → Text
fir_input_sel_name adc1 = codes "ADC1"
fir_input_sel_name adc2 = codes "ADC2"
fir_input_sel_name FirInputSel.i_feed = codes "I_FEED"
fir_input_sel_name FirInputSel.q_feed = codes "Q_FEED"
fir_input_sel_name FirInputSel.iq_demod_out = codes "IQ_DEMOD_OUT"
fir_input_sel_name FirInputSel.iq_demod_lpf = codes "IQ_DEMOD_LPF"

instance abbrev pub fir_input_sel_enum : IntEnum FirInputSel
fir_input_sel_enum = record {
  members =
      adc1 ∷ adc2 ∷ FirInputSel.i_feed ∷ FirInputSel.q_feed ∷ FirInputSel.iq_demod_out
      ∷ FirInputSel.iq_demod_lpf ∷ [];
  value = fir_input_sel_value;
  name = fir_input_sel_name;
}

abbrev dac_sel_value : DacSel → ℕ
dac_sel_value dac_1 = 0
dac_sel_value dac_2 = 1

abbrev dac_sel_name : DacSel → Text
dac_sel_name dac_1 = codes "DAC_1"
dac_sel_name dac_2 = codes "DAC_2"

instance abbrev pub dac_sel_enum : IntEnum DacSel
dac_sel_enum = record { members = dac_1 ∷ dac_2 ∷ []; value = dac_sel_value; name = dac_sel_name }

abbrev dac_dat_sel_value : DacDatSel → ℕ
dac_dat_sel_value register = 0b000
dac_dat_sel_value pid = 0b001
dac_dat_sel_value nco_1 = 0b010
dac_dat_sel_value nco_2 = 0b011

abbrev dac_dat_sel_name : DacDatSel → Text
dac_dat_sel_name register = codes "REGISTER"
dac_dat_sel_name pid = codes "PID"
dac_dat_sel_name nco_1 = codes "NCO_1"
dac_dat_sel_name nco_2 = codes "NCO_2"

instance abbrev pub dac_dat_sel_enum : IntEnum DacDatSel
dac_dat_sel_enum = record {
  members = register ∷ pid ∷ nco_1 ∷ nco_2 ∷ [];
  value = dac_dat_sel_value;
  name = dac_dat_sel_name;
}

abbrev pid_dat_sel_value : PidDatSel → ℕ
pid_dat_sel_value PidDatSel.i_feed = 0b000
pid_dat_sel_value PidDatSel.q_feed = 0b001
pid_dat_sel_value PidDatSel.adc_a = 0b010
pid_dat_sel_value PidDatSel.adc_b = 0b011
pid_dat_sel_value PidDatSel.fir_out = 0b100
pid_dat_sel_value PidDatSel.iq_demod_out = 0b101
pid_dat_sel_value PidDatSel.iq_demod_lpf = 0b110

abbrev pid_dat_sel_name : PidDatSel → Text
pid_dat_sel_name PidDatSel.i_feed = codes "I_FEED"
pid_dat_sel_name PidDatSel.q_feed = codes "Q_FEED"
pid_dat_sel_name PidDatSel.adc_a = codes "ADC_A"
pid_dat_sel_name PidDatSel.adc_b = codes "ADC_B"
pid_dat_sel_name PidDatSel.fir_out = codes "FIR_OUT"
pid_dat_sel_name PidDatSel.iq_demod_out = codes "IQ_DEMOD_OUT"
pid_dat_sel_name PidDatSel.iq_demod_lpf = codes "IQ_DEMOD_LPF"

instance abbrev pub pid_dat_sel_enum : IntEnum PidDatSel
pid_dat_sel_enum = record {
  members =
      PidDatSel.i_feed ∷ PidDatSel.q_feed ∷ PidDatSel.adc_a ∷ PidDatSel.adc_b ∷ PidDatSel.fir_out
      ∷ PidDatSel.iq_demod_out ∷ PidDatSel.iq_demod_lpf ∷ [];
  value = pid_dat_sel_value;
  name = pid_dat_sel_name;
}

abbrev demod_ref_sel_value : DemodRefSel → ℕ
demod_ref_sel_value DemodRefSel.nco1 = 0
demod_ref_sel_value DemodRefSel.nco2 = 1

abbrev demod_ref_sel_name : DemodRefSel → Text
demod_ref_sel_name DemodRefSel.nco1 = codes "NCO1"
demod_ref_sel_name DemodRefSel.nco2 = codes "NCO2"

instance abbrev pub demod_ref_sel_enum : IntEnum DemodRefSel
demod_ref_sel_enum = record {
  members = DemodRefSel.nco1 ∷ DemodRefSel.nco2 ∷ [];
  value = demod_ref_sel_value;
  name = demod_ref_sel_name;
}

abbrev demod_in_sel_value : DemodInSel → ℕ
demod_in_sel_value DemodInSel.nco1 = 0b000
demod_in_sel_value DemodInSel.nco2 = 0b001
demod_in_sel_value DemodInSel.adc_a = 0b010
demod_in_sel_value DemodInSel.adc_b = 0b011
demod_in_sel_value DemodInSel.i_feed = 0b100
demod_in_sel_value DemodInSel.q_feed = 0b101
demod_in_sel_value DemodInSel.fir_out = 0b110

abbrev demod_in_sel_name : DemodInSel → Text
demod_in_sel_name DemodInSel.nco1 = codes "NCO1"
demod_in_sel_name DemodInSel.nco2 = codes "NCO2"
demod_in_sel_name DemodInSel.adc_a = codes "ADC_A"
demod_in_sel_name DemodInSel.adc_b = codes "ADC_B"
demod_in_sel_name DemodInSel.i_feed = codes "I_FEED"
demod_in_sel_name DemodInSel.q_feed = codes "Q_FEED"
demod_in_sel_name DemodInSel.fir_out = codes "FIR_OUT"

instance abbrev pub demod_in_sel_enum : IntEnum DemodInSel
demod_in_sel_enum = record {
  members =
      DemodInSel.nco1 ∷ DemodInSel.nco2 ∷ DemodInSel.adc_a ∷ DemodInSel.adc_b ∷ DemodInSel.i_feed
      ∷ DemodInSel.q_feed ∷ DemodInSel.fir_out ∷ [];
  value = demod_in_sel_value;
  name = demod_in_sel_name;
}

abbrev cs_sel_value : CsSel → ℕ
cs_sel_value CsSel.adc_a = 0b00000
cs_sel_value CsSel.adc_b = 0b00001
cs_sel_value CsSel.i_feed = 0b00110
cs_sel_value CsSel.q_feed = 0b00111
cs_sel_value CsSel.demod_lpf = 0b01001
cs_sel_value CsSel.io = 0b10000

abbrev cs_sel_name : CsSel → Text
cs_sel_name CsSel.adc_a = codes "ADC_A"
cs_sel_name CsSel.adc_b = codes "ADC_B"
cs_sel_name CsSel.i_feed = codes "I_FEED"
cs_sel_name CsSel.q_feed = codes "Q_FEED"
cs_sel_name CsSel.demod_lpf = codes "DEMOD_LPF"
cs_sel_name CsSel.io = codes "IO"

instance abbrev pub cs_sel_enum : IntEnum CsSel
cs_sel_enum = record {
  members =
      CsSel.adc_a ∷ CsSel.adc_b ∷ CsSel.i_feed ∷ CsSel.q_feed ∷ CsSel.demod_lpf ∷ CsSel.io ∷ [];
  value = cs_sel_value;
  name = cs_sel_name;
}
