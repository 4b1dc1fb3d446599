-- ===== src/Protocol/Avrcp/Constants.antt =====
-- The constants and the statuses of protocol/include/ldac_native/avrcp.h and
-- protocol/src/avrcp.c.
use native_ldac_xm5_windows.Prelude.{Enum, ℕ}

pub data AvrcpStatus : Type 0 where
  avrcp_ok avrcp_invalid_argument avrcp_truncated avrcp_unsupported_fragment : AvrcpStatus
  avrcp_protocol_error avrcp_no_space avrcp_unexpected_response : AvrcpStatus

-- The numbers of the statuses, without their sign.
instance abbrev pub avrcp_status_enum : Enum AvrcpStatus
avrcp_status_enum = record {
  value = elim [
    | avrcp_ok ↦ 0
    | avrcp_invalid_argument ↦ 1
    | avrcp_truncated ↦ 2
    | avrcp_unsupported_fragment ↦ 3
    | avrcp_protocol_error ↦ 4
    | avrcp_no_space ↦ 5
    | avrcp_unexpected_response ↦ 6
  ];
}

abbrev pub avrcp_profile_id : ℕ
avrcp_profile_id = 0x110E

abbrev pub avrcp_company_id_bluetooth_sig : ℕ
avrcp_company_id_bluetooth_sig = 0x1958

abbrev pub avrcp_opcode_vendor_dependent : ℕ
avrcp_opcode_vendor_dependent = 0

abbrev pub avrcp_opcode_pass_through : ℕ
avrcp_opcode_pass_through = 0x7C

abbrev pub ctype_control : ℕ
ctype_control = 0

abbrev pub ctype_status : ℕ
ctype_status = 1

abbrev pub ctype_notify : ℕ
ctype_notify = 3

abbrev pub response_not_implemented : ℕ
response_not_implemented = 8

abbrev pub response_accepted : ℕ
response_accepted = 9

abbrev pub response_rejected : ℕ
response_rejected = 0x0A

abbrev pub response_stable : ℕ
response_stable = 0x0C

abbrev pub response_changed : ℕ
response_changed = 0x0D

abbrev pub response_interim : ℕ
response_interim = 0x0F

abbrev pub pdu_get_capabilities : ℕ
pdu_get_capabilities = 0x10

abbrev pub pdu_get_play_status : ℕ
pdu_get_play_status = 0x20

abbrev pub pdu_register_notification : ℕ
pdu_register_notification = 0x31

abbrev pub pdu_set_absolute_volume : ℕ
pdu_set_absolute_volume = 0x50

abbrev pub capability_events_supported : ℕ
capability_events_supported = 3

abbrev pub event_playback_status_changed : ℕ
event_playback_status_changed = 1

abbrev pub event_track_changed : ℕ
event_track_changed = 2

abbrev pub event_volume_changed : ℕ
event_volume_changed = 0x0D

abbrev pub playback_status_stopped : ℕ
playback_status_stopped = 0

abbrev pub playback_status_playing : ℕ
playback_status_playing = 1

abbrev pub playback_status_paused : ℕ
playback_status_paused = 2

abbrev pub operation_volume_up : ℕ
operation_volume_up = 0x41

abbrev pub operation_volume_down : ℕ
operation_volume_down = 0x42

abbrev pub operation_mute : ℕ
operation_mute = 0x43

abbrev pub operation_play : ℕ
operation_play = 0x44

abbrev pub operation_stop : ℕ
operation_stop = 0x45

abbrev pub operation_pause : ℕ
operation_pause = 0x46

abbrev pub operation_forward : ℕ
operation_forward = 0x4B

abbrev pub operation_backward : ℕ
operation_backward = 0x4C

abbrev pub avrcp_max_control_packet : ℕ
avrcp_max_control_packet = 64

abbrev pub avctp_packet_single : ℕ
avctp_packet_single = 0

abbrev pub panel_subunit_type : ℕ
panel_subunit_type = 9

abbrev pub panel_subunit_id : ℕ
panel_subunit_id = 0
