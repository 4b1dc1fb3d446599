-- ===== src/Protocol/Source/State.antt =====
-- The state and the actions of the source of protocol/include/ldac_native/avdtp.h.
use native_ldac_xm5_windows.Prelude.{Enum, ℕ, Bool, List, []}
use native_ldac_xm5_windows.Protocol.Codec.{LdacCapabilities, LdacConfiguration}

pub data SourceState : Type 0 where
  source_idle discover_sent capabilities_sent configuration_sent open_sent : SourceState
  waiting_for_media_channel source_open start_sent source_streaming : SourceState
  suspend_sent close_sent source_closed source_failed : SourceState

instance abbrev pub source_state_enum : Enum SourceState
source_state_enum = record {
  value = elim [
    | source_idle ↦ 0
    | discover_sent ↦ 1
    | capabilities_sent ↦ 2
    | configuration_sent ↦ 3
    | open_sent ↦ 4
    | waiting_for_media_channel ↦ 5
    | source_open ↦ 6
    | start_sent ↦ 7
    | source_streaming ↦ 8
    | suspend_sent ↦ 9
    | close_sent ↦ 10
    | source_closed ↦ 11
    | source_failed ↦ 12
  ];
}

pub data ActionKind : Type 0 where
  no_avdtp_action send_signaling open_media_channel session_open stream_ready : ActionKind
  stream_suspended session_closed action_error : ActionKind

instance abbrev pub action_kind_enum : Enum ActionKind
action_kind_enum = record {
  value = elim [
    | no_avdtp_action ↦ 0
    | send_signaling ↦ 1
    | open_media_channel ↦ 2
    | session_open ↦ 3
    | stream_ready ↦ 4
    | stream_suspended ↦ 5
    | session_closed ↦ 6
    | action_error ↦ 7
  ];
}

pub record AvdtpAction : Type 0 where
  pub kind : ActionKind
  pub packet : List ℕ
  pub error_code : ℕ

-- `remote_seids` holds the `remote_seid_count` seids of the last discovery; what stands behind them
-- in the array is never read.
pub record AvdtpSource : Type 0 where
  pub state : SourceState
  pub local_capabilities : LdacCapabilities
  pub remote_capabilities : LdacCapabilities
  pub configuration : LdacConfiguration
  pub preferred_sample_rate_hz : ℕ
  pub local_seid : ℕ
  pub remote_seid : ℕ
  pub remote_seids : List ℕ
  pub remote_seid_index : ℕ
  pub next_transaction_label : ℕ
  pub pending_transaction_label : ℕ
  pub pending_signal_id : ℕ
  pub used_legacy_capabilities : Bool

abbrev pub SourceStep : Type 0
SourceStep = AvdtpSource × AvdtpAction

abbrev pub error_bad_packet : ℕ
error_bad_packet = 0x100

abbrev pub error_unexpected_response : ℕ
error_unexpected_response = 0x101

abbrev pub error_no_audio_sink : ℕ
error_no_audio_sink = 0x102

abbrev pub error_ldac_not_supported : ℕ
error_ldac_not_supported = 0x103

abbrev pub error_no_common_configuration : ℕ
error_no_common_configuration = 0x104

abbrev pub error_media_channel_state : ℕ
error_media_channel_state = 0x105

abbrev pub make_action : ActionKind → AvdtpAction
make_action kind = record { kind = kind; packet = []; error_code = 0 }
