-- ===== src/Transport.antt =====
-- crates/daphne-sc-core/src/transport.rs: the request message types and the route of each.
pub mod Codes
use daphne_sc.Prelude.{ℕ, List, [], ◌∷◌, first_arm, Result, ok_or}

pub data MessageTypeV2 : Type 0 where
  configure_clks_req : MessageTypeV2
  configure_fe_req : MessageTypeV2
  write_afe_reg_req : MessageTypeV2
  write_afe_vgain_req : MessageTypeV2
  write_afe_bias_set_req : MessageTypeV2
  write_trim_all_ch_req : MessageTypeV2
  write_trim_all_afe_req : MessageTypeV2
  write_trim_ch_req : MessageTypeV2
  write_offset_all_ch_req : MessageTypeV2
  write_offset_all_afe_req : MessageTypeV2
  write_offset_ch_req : MessageTypeV2
  write_vbias_control_req : MessageTypeV2
  read_afe_reg_req : MessageTypeV2
  read_afe_vgain_req : MessageTypeV2
  read_afe_bias_set_req : MessageTypeV2
  read_trim_all_ch_req : MessageTypeV2
  read_trim_all_afe_req : MessageTypeV2
  read_trim_ch_req : MessageTypeV2
  read_offset_all_ch_req : MessageTypeV2
  read_offset_all_afe_req : MessageTypeV2
  read_offset_ch_req : MessageTypeV2
  read_vbias_control_req : MessageTypeV2
  read_current_monitor_req : MessageTypeV2
  read_bias_voltage_monitor_req : MessageTypeV2
  set_afe_reset_req : MessageTypeV2
  do_afe_reset_req : MessageTypeV2
  set_afe_power_state_req : MessageTypeV2
  write_afe_attenuation_req : MessageTypeV2
  dump_spybuffer_req : MessageTypeV2
  align_afe_req : MessageTypeV2
  write_afe_function_req : MessageTypeV2
  do_software_trigger_req : MessageTypeV2
  dump_spybuffer_chunk_req : MessageTypeV2
  read_test_reg_req : MessageTypeV2
  read_trigger_counters_req : MessageTypeV2
  read_general_info_req : MessageTypeV2
  read_slow_control_status_req : MessageTypeV2

-- The discriminants, `message_type as u32`.
unfoldable pub code : MessageTypeV2 → ℕ
code configure_clks_req = 200
code configure_fe_req = 202
code write_afe_reg_req = 204
code write_afe_vgain_req = 206
code write_afe_bias_set_req = 208
code write_trim_all_ch_req = 210
code write_trim_all_afe_req = 212
code write_trim_ch_req = 214
code write_offset_all_ch_req = 216
code write_offset_all_afe_req = 218
code write_offset_ch_req = 220
code write_vbias_control_req = 222
code read_afe_reg_req = 224
code read_afe_vgain_req = 226
code read_afe_bias_set_req = 228
code read_trim_all_ch_req = 230
code read_trim_all_afe_req = 232
code read_trim_ch_req = 234
code read_offset_all_ch_req = 236
code read_offset_all_afe_req = 238
code read_offset_ch_req = 240
code read_vbias_control_req = 242
code read_current_monitor_req = 244
code read_bias_voltage_monitor_req = 246
code set_afe_reset_req = 248
code do_afe_reset_req = 250
code set_afe_power_state_req = 252
code write_afe_attenuation_req = 254
code dump_spybuffer_req = 256
code align_afe_req = 258
code write_afe_function_req = 260
code do_software_trigger_req = 262
code dump_spybuffer_chunk_req = 300
code read_test_reg_req = 304
code read_trigger_counters_req = 320
code read_general_info_req = 322
code read_slow_control_status_req = 1000

-- The arms of `TryFrom<u32>`; any other number is the error `()`.
abbrev pub arms : List (ℕ × MessageTypeV2)
arms =
    (200, configure_clks_req)
    ∷ (202, configure_fe_req)
    ∷ (204, write_afe_reg_req)
    ∷ (206, write_afe_vgain_req)
    ∷ (208, write_afe_bias_set_req)
    ∷ (210, write_trim_all_ch_req)
    ∷ (212, write_trim_all_afe_req)
    ∷ (214, write_trim_ch_req)
    ∷ (216, write_offset_all_ch_req)
    ∷ (218, write_offset_all_afe_req)
    ∷ (220, write_offset_ch_req)
    ∷ (222, write_vbias_control_req)
    ∷ (224, read_afe_reg_req)
    ∷ (226, read_afe_vgain_req)
    ∷ (228, read_afe_bias_set_req)
    ∷ (230, read_trim_all_ch_req)
    ∷ (232, read_trim_all_afe_req)
    ∷ (234, read_trim_ch_req)
    ∷ (236, read_offset_all_ch_req)
    ∷ (238, read_offset_all_afe_req)
    ∷ (240, read_offset_ch_req)
    ∷ (242, read_vbias_control_req)
    ∷ (244, read_current_monitor_req)
    ∷ (246, read_bias_voltage_monitor_req)
    ∷ (248, set_afe_reset_req)
    ∷ (250, do_afe_reset_req)
    ∷ (252, set_afe_power_state_req)
    ∷ (254, write_afe_attenuation_req)
    ∷ (256, dump_spybuffer_req)
    ∷ (258, align_afe_req)
    ∷ (260, write_afe_function_req)
    ∷ (262, do_software_trigger_req)
    ∷ (300, dump_spybuffer_chunk_req)
    ∷ (304, read_test_reg_req)
    ∷ (320, read_trigger_counters_req)
    ∷ (322, read_general_info_req)
    ∷ (1000, read_slow_control_status_req)
    ∷ []

unfoldable pub try_from : ℕ → Result (Unit {0}) MessageTypeV2
try_from value = ok_or (first_arm value arms) tt

pub data CommandRoute : Type 0 where
  rpu_afe linux_status linux_fpga unsupported : CommandRoute

unfoldable pub route_message_type : MessageTypeV2 → CommandRoute
route_message_type configure_fe_req = rpu_afe
route_message_type write_afe_reg_req = rpu_afe
route_message_type write_afe_vgain_req = rpu_afe
route_message_type write_afe_bias_set_req = rpu_afe
route_message_type write_trim_all_ch_req = rpu_afe
route_message_type write_trim_all_afe_req = rpu_afe
route_message_type write_trim_ch_req = rpu_afe
route_message_type write_offset_all_ch_req = rpu_afe
route_message_type write_offset_all_afe_req = rpu_afe
route_message_type write_offset_ch_req = rpu_afe
route_message_type write_vbias_control_req = rpu_afe
route_message_type read_afe_reg_req = rpu_afe
route_message_type read_afe_vgain_req = rpu_afe
route_message_type read_afe_bias_set_req = rpu_afe
route_message_type read_trim_all_ch_req = rpu_afe
route_message_type read_trim_all_afe_req = rpu_afe
route_message_type read_trim_ch_req = rpu_afe
route_message_type read_offset_all_ch_req = rpu_afe
route_message_type read_offset_all_afe_req = rpu_afe
route_message_type read_offset_ch_req = rpu_afe
route_message_type read_vbias_control_req = rpu_afe
route_message_type set_afe_reset_req = rpu_afe
route_message_type do_afe_reset_req = rpu_afe
route_message_type set_afe_power_state_req = rpu_afe
route_message_type write_afe_attenuation_req = rpu_afe
route_message_type align_afe_req = rpu_afe
route_message_type write_afe_function_req = rpu_afe
route_message_type read_current_monitor_req = linux_status
route_message_type read_bias_voltage_monitor_req = linux_status
route_message_type read_general_info_req = linux_status
route_message_type read_slow_control_status_req = linux_status
route_message_type configure_clks_req = linux_fpga
route_message_type dump_spybuffer_req = linux_fpga
route_message_type dump_spybuffer_chunk_req = linux_fpga
route_message_type do_software_trigger_req = linux_fpga
route_message_type read_trigger_counters_req = linux_fpga
route_message_type read_test_reg_req = linux_fpga
