-- ===== src/Command.antt =====
-- The command bytes of lib/fcd_cmd.h, the USB ids and `FCD_VALUE_ENUM` of include/fcd.h.
pub mod Bytes
use libfcd.Base.{ℕ, zero, suc, ◌+◌, List, [], ◌∷◌}

abbrev pub usb_vid : ℕ
usb_vid = 0x04d8

abbrev pub usb_pid : ℕ
usb_pid = 0xfb56

abbrev pub cmd_query : ℕ
cmd_query = 1

-- Bootloader commands.
abbrev pub cmd_reset_application : ℕ
cmd_reset_application = 8

abbrev pub cmd_erase_application : ℕ
cmd_erase_application = 24

abbrev pub cmd_set_byte_addr : ℕ
cmd_set_byte_addr = 25

abbrev pub cmd_get_byte_addr_range : ℕ
cmd_get_byte_addr_range = 26

abbrev pub cmd_write_block : ℕ
cmd_write_block = 27

abbrev pub cmd_read_block : ℕ
cmd_read_block = 28

-- Application commands.
abbrev pub cmd_set_frequency : ℕ
cmd_set_frequency = 100

abbrev pub cmd_set_frequency_hz : ℕ
cmd_set_frequency_hz = 101

abbrev pub cmd_get_frequency_hz : ℕ
cmd_get_frequency_hz = 102

abbrev pub cmd_get_if_rssi : ℕ
cmd_get_if_rssi = 104

abbrev pub cmd_get_pll_lock : ℕ
cmd_get_pll_lock = 105

abbrev pub cmd_set_dc_corr : ℕ
cmd_set_dc_corr = 106

abbrev pub cmd_get_dc_corr : ℕ
cmd_get_dc_corr = 107

abbrev pub cmd_set_iq_corr : ℕ
cmd_set_iq_corr = 108

abbrev pub cmd_get_iq_corr : ℕ
cmd_get_iq_corr = 109

abbrev pub cmd_set_value_offset : ℕ
cmd_set_value_offset = 110

abbrev pub cmd_get_value_offset : ℕ
cmd_get_value_offset = 150

abbrev pub cmd_i2c_send_byte : ℕ
cmd_i2c_send_byte = 200

abbrev pub cmd_i2c_receive_byte : ℕ
cmd_i2c_receive_byte = 201

abbrev pub cmd_reset_bootloader : ℕ
cmd_reset_bootloader = 255

-- `FCD_VALUE_ENUM`. A caller may pass any number as an identifier, so the functions take a number.
pub data ValueId : Type 0 where
  lna_gain lna_enhance band rf_filter mixer_gain bias_current mixer_filter if_gain1 : ValueId
  if_gain_mode if_rc_filter if_gain2 if_gain3 if_filter if_gain4 if_gain5 if_gain6 : ValueId
  bias_tee undefined : ValueId

abbrev pub value_id : ValueId → ℕ
value_id ValueId.lna_gain = 0
value_id ValueId.lna_enhance = 1
value_id ValueId.band = 2
value_id ValueId.rf_filter = 3
value_id ValueId.mixer_gain = 4
value_id ValueId.bias_current = 5
value_id ValueId.mixer_filter = 6
value_id ValueId.if_gain1 = 7
value_id ValueId.if_gain_mode = 8
value_id ValueId.if_rc_filter = 9
value_id ValueId.if_gain2 = 10
value_id ValueId.if_gain3 = 11
value_id ValueId.if_filter = 12
value_id ValueId.if_gain4 = 13
value_id ValueId.if_gain5 = 14
value_id ValueId.if_gain6 = 15
value_id ValueId.bias_tee = 16
value_id ValueId.undefined = 17

-- The commands that stand by themselves.
abbrev pub fixed_commands : List ℕ
fixed_commands =
    cmd_query ∷ cmd_reset_application ∷ cmd_erase_application ∷ cmd_set_byte_addr
    ∷ cmd_get_byte_addr_range ∷ cmd_write_block ∷ cmd_read_block ∷ cmd_set_frequency
    ∷ cmd_set_frequency_hz ∷ cmd_get_frequency_hz ∷ cmd_get_if_rssi ∷ cmd_get_pll_lock
    ∷ cmd_set_dc_corr ∷ cmd_get_dc_corr ∷ cmd_set_iq_corr ∷ cmd_get_iq_corr ∷ cmd_i2c_send_byte
    ∷ cmd_i2c_receive_byte ∷ cmd_reset_bootloader ∷ []
