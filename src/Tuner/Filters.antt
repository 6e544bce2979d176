-- ===== src/Tuner/Filters.antt =====
-- The filter values of include/fcd_tuner.h, less the RF filters.
use libfcd.Base.{ℕ}

-- `FCD_TUNER_MIXER_FILTER_ENUM`.
pub data MixerFilter : Type 0 where
  f27_0mhz f4_6mhz f4_2mhz f3_8mhz f3_4mhz f3_0mhz : MixerFilter
  f2_7mhz f2_3mhz f1_9mhz : MixerFilter

abbrev pub mixer_filter_code : MixerFilter → ℕ
mixer_filter_code MixerFilter.f27_0mhz = 0
mixer_filter_code MixerFilter.f4_6mhz = 8
mixer_filter_code MixerFilter.f4_2mhz = 9
mixer_filter_code MixerFilter.f3_8mhz = 10
mixer_filter_code MixerFilter.f3_4mhz = 11
mixer_filter_code MixerFilter.f3_0mhz = 12
mixer_filter_code MixerFilter.f2_7mhz = 13
mixer_filter_code MixerFilter.f2_3mhz = 14
mixer_filter_code MixerFilter.f1_9mhz = 15

-- `FCD_TUNER_IF_RC_FILTER_ENUM`.
pub data IfRcFilter : Type 0 where
  f21_4mhz f21_0mhz f17_6mhz f14_7mhz f12_4mhz f10_6mhz : IfRcFilter
  f9_0mhz f7_7mhz f6_4mhz f5_3mhz f4_4mhz f3_4mhz : IfRcFilter
  f2_6mhz f1_8mhz f1_2mhz f1_0mhz : IfRcFilter

abbrev pub if_rc_filter_code : IfRcFilter → ℕ
if_rc_filter_code IfRcFilter.f21_4mhz = 0
if_rc_filter_code IfRcFilter.f21_0mhz = 1
if_rc_filter_code IfRcFilter.f17_6mhz = 2
if_rc_filter_code IfRcFilter.f14_7mhz = 3
if_rc_filter_code IfRcFilter.f12_4mhz = 4
if_rc_filter_code IfRcFilter.f10_6mhz = 5
if_rc_filter_code IfRcFilter.f9_0mhz = 6
if_rc_filter_code IfRcFilter.f7_7mhz = 7
if_rc_filter_code IfRcFilter.f6_4mhz = 8
if_rc_filter_code IfRcFilter.f5_3mhz = 9
if_rc_filter_code IfRcFilter.f4_4mhz = 10
if_rc_filter_code IfRcFilter.f3_4mhz = 11
if_rc_filter_code IfRcFilter.f2_6mhz = 12
if_rc_filter_code IfRcFilter.f1_8mhz = 13
if_rc_filter_code IfRcFilter.f1_2mhz = 14
if_rc_filter_code IfRcFilter.f1_0mhz = 15

-- `FCD_TUNER_IF_FILTER_ENUM`.
pub data IfFilter : Type 0 where
  f5_50mhz f5_30mhz f5_00mhz f4_80mhz f4_60mhz f4_40mhz : IfFilter
  f4_30mhz f4_10mhz f3_90mhz f3_80mhz f3_70mhz f3_60mhz : IfFilter
  f3_40mhz f3_30mhz f3_20mhz f3_10mhz f3_00mhz f2_95mhz : IfFilter
  f2_90mhz f2_80mhz f2_75mhz f2_70mhz f2_60mhz f2_55mhz : IfFilter
  f2_50mhz f2_45mhz f2_40mhz f2_30mhz f2_28mhz f2_24mhz : IfFilter
  f2_20mhz f2_15mhz : IfFilter

abbrev pub if_filter_code : IfFilter → ℕ
if_filter_code IfFilter.f5_50mhz = 0
if_filter_code IfFilter.f5_30mhz = 1
if_filter_code IfFilter.f5_00mhz = 2
if_filter_code IfFilter.f4_80mhz = 3
if_filter_code IfFilter.f4_60mhz = 4
if_filter_code IfFilter.f4_40mhz = 5
if_filter_code IfFilter.f4_30mhz = 6
if_filter_code IfFilter.f4_10mhz = 7
if_filter_code IfFilter.f3_90mhz = 8
if_filter_code IfFilter.f3_80mhz = 9
if_filter_code IfFilter.f3_70mhz = 10
if_filter_code IfFilter.f3_60mhz = 11
if_filter_code IfFilter.f3_40mhz = 12
if_filter_code IfFilter.f3_30mhz = 13
if_filter_code IfFilter.f3_20mhz = 14
if_filter_code IfFilter.f3_10mhz = 15
if_filter_code IfFilter.f3_00mhz = 16
if_filter_code IfFilter.f2_95mhz = 17
if_filter_code IfFilter.f2_90mhz = 18
if_filter_code IfFilter.f2_80mhz = 19
if_filter_code IfFilter.f2_75mhz = 20
if_filter_code IfFilter.f2_70mhz = 21
if_filter_code IfFilter.f2_60mhz = 22
if_filter_code IfFilter.f2_55mhz = 23
if_filter_code IfFilter.f2_50mhz = 24
if_filter_code IfFilter.f2_45mhz = 25
if_filter_code IfFilter.f2_40mhz = 26
if_filter_code IfFilter.f2_30mhz = 27
if_filter_code IfFilter.f2_28mhz = 28
if_filter_code IfFilter.f2_24mhz = 29
if_filter_code IfFilter.f2_20mhz = 30
if_filter_code IfFilter.f2_15mhz = 31
