-- ===== src/Tuner/Gains.antt =====
-- The gain, mode and bias values of include/fcd_tuner.h.
use libfcd.Base.{ℕ}

-- `FCD_TUNER_LNA_GAIN_ENUM`.
pub data LnaGain : Type 0 where
  n5_0db n2_5db p0_0db p2_5db p5_0db p7_5db : LnaGain
  p10_0db p12_5db p15_0db p17_5db p20_0db p25_0db : LnaGain
  p30_0db : LnaGain

abbrev pub lna_gain_code : LnaGain → ℕ
lna_gain_code LnaGain.n5_0db = 0
lna_gain_code LnaGain.n2_5db = 1
lna_gain_code LnaGain.p0_0db = 4
lna_gain_code LnaGain.p2_5db = 5
lna_gain_code LnaGain.p5_0db = 6
lna_gain_code LnaGain.p7_5db = 7
lna_gain_code LnaGain.p10_0db = 8
lna_gain_code LnaGain.p12_5db = 9
lna_gain_code LnaGain.p15_0db = 10
lna_gain_code LnaGain.p17_5db = 11
lna_gain_code LnaGain.p20_0db = 12
lna_gain_code LnaGain.p25_0db = 13
lna_gain_code LnaGain.p30_0db = 14

-- `FCD_TUNER_LNA_ENHANCE_ENUM`.
pub data LnaEnhance : Type 0 where
  off level_0 level_1 level_2 level_3 : LnaEnhance

abbrev pub lna_enhance_code : LnaEnhance → ℕ
lna_enhance_code LnaEnhance.off = 0
lna_enhance_code LnaEnhance.level_0 = 1
lna_enhance_code LnaEnhance.level_1 = 3
lna_enhance_code LnaEnhance.level_2 = 5
lna_enhance_code LnaEnhance.level_3 = 7

-- `FCD_TUNER_MIXER_GAIN_ENUM`.
pub data MixerGain : Type 0 where
  p4_0db p12_0db : MixerGain

abbrev pub mixer_gain_code : MixerGain → ℕ
mixer_gain_code MixerGain.p4_0db = 0
mixer_gain_code MixerGain.p12_0db = 1

-- `FCD_TUNER_BIAS_CURRENT_ENUM`.
pub data BiasCurrent : Type 0 where
  lband current_1 current_2 vuband : BiasCurrent

abbrev pub bias_current_code : BiasCurrent → ℕ
bias_current_code BiasCurrent.lband = 0
bias_current_code BiasCurrent.current_1 = 1
bias_current_code BiasCurrent.current_2 = 2
bias_current_code BiasCurrent.vuband = 3

-- `FCD_TUNER_IF_GAIN1_ENUM`.
pub data IfGain1 : Type 0 where
  n3_0db p6_0db : IfGain1

abbrev pub if_gain1_code : IfGain1 → ℕ
if_gain1_code IfGain1.n3_0db = 0
if_gain1_code IfGain1.p6_0db = 1

-- `FCD_TUNER_IF_GAIN_MODE_ENUM`.
pub data IfGainMode : Type 0 where
  linearity sensitivity : IfGainMode

abbrev pub if_gain_mode_code : IfGainMode → ℕ
if_gain_mode_code IfGainMode.linearity = 0
if_gain_mode_code IfGainMode.sensitivity = 1

-- `FCD_TUNER_IF_GAIN2_ENUM`.
pub data IfGain2 : Type 0 where
  p0_0db p3_0db p6_0db p9_0db : IfGain2

abbrev pub if_gain2_code : IfGain2 → ℕ
if_gain2_code IfGain2.p0_0db = 0
if_gain2_code IfGain2.p3_0db = 1
if_gain2_code IfGain2.p6_0db = 2
if_gain2_code IfGain2.p9_0db = 3

-- `FCD_TUNER_IF_GAIN3_ENUM`.
pub data IfGain3 : Type 0 where
  p0_0db p3_0db p6_0db p9_0db : IfGain3

abbrev pub if_gain3_code : IfGain3 → ℕ
if_gain3_code IfGain3.p0_0db = 0
if_gain3_code IfGain3.p3_0db = 1
if_gain3_code IfGain3.p6_0db = 2
if_gain3_code IfGain3.p9_0db = 3

-- `FCD_TUNER_IF_GAIN4_ENUM`.
pub data IfGain4 : Type 0 where
  p0_0db p1_0db p2_0db : IfGain4

abbrev pub if_gain4_code : IfGain4 → ℕ
if_gain4_code IfGain4.p0_0db = 0
if_gain4_code IfGain4.p1_0db = 1
if_gain4_code IfGain4.p2_0db = 2

-- `FCD_TUNER_IF_GAIN5_ENUM`.
pub data IfGain5 : Type 0 where
  p3_0db p6_0db p9_0db p12_0db p15_0db : IfGain5

abbrev pub if_gain5_code : IfGain5 → ℕ
if_gain5_code IfGain5.p3_0db = 0
if_gain5_code IfGain5.p6_0db = 1
if_gain5_code IfGain5.p9_0db = 2
if_gain5_code IfGain5.p12_0db = 3
if_gain5_code IfGain5.p15_0db = 4

-- `FCD_TUNER_IF_GAIN6_ENUM`.
pub data IfGain6 : Type 0 where
  p3_0db p6_0db p9_0db p12_0db p15_0db : IfGain6

abbrev pub if_gain6_code : IfGain6 → ℕ
if_gain6_code IfGain6.p3_0db = 0
if_gain6_code IfGain6.p6_0db = 1
if_gain6_code IfGain6.p9_0db = 2
if_gain6_code IfGain6.p12_0db = 3
if_gain6_code IfGain6.p15_0db = 4
