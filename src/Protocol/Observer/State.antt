-- ===== src/Protocol/Observer/State.antt =====
-- The state, the events and the results of the observer of protocol/include/ldac_native/avrcp.h.
use native_ldac_xm5_windows.Prelude.{
  ◌==◌, if◌then◌else◌, Enum, u8, ℕ, ◌+◌, ◌%◌, Bool, false, ◌&&◌, ◌||◌, List, [],
}
use native_ldac_xm5_windows.Protocol.Avrcp.{
  AvrcpStatus, avrcp_ok, playback_status_stopped, playback_status_playing, playback_status_paused,
}

pub data ObserverState : Type 0 where
  observer_idle wait_capabilities wait_volume_interim : ObserverState
  observing unsupported observer_failed : ObserverState

instance abbrev pub observer_state_enum : Enum ObserverState
observer_state_enum = record {
  value = elim [
    | observer_idle ↦ 0
    | wait_capabilities ↦ 1
    | wait_volume_interim ↦ 2
    | observing ↦ 3
    | unsupported ↦ 4
    | observer_failed ↦ 5
  ];
}

pub data ObserverEventKind : Type 0 where
  no_event volume_capability volume_changed pass_through_event : ObserverEventKind
  vendor_command write_response protocol_error : ObserverEventKind

pub record ObserverEvent : Type 0 where
  pub kind : ObserverEventKind
  pub volume_supported : Bool
  pub absolute_volume : ℕ
  pub operation_id : ℕ
  pub released : Bool
  pub response_code : ℕ
  pub pdu_id : ℕ
  pub parameter_bytes : List ℕ
  pub error_stage : ℕ
  pub error_code : AvrcpStatus
  pub raw_prefix : List ℕ
  pub raw_total_size : ℕ

-- An event that is zeroed. The sizes `parameter_size` and `raw_prefix_size` are the lengths of
-- their lists.
abbrev pub empty_event : ObserverEvent
empty_event = record {
  kind = no_event;
  volume_supported = false;
  absolute_volume = 0;
  operation_id = 0;
  released = false;
  response_code = 0;
  pdu_id = 0;
  parameter_bytes = [];
  error_stage = 0;
  error_code = avrcp_ok;
  raw_prefix = [];
  raw_total_size = 0;
}

pub record ObserverResult : Type 0 where
  pub packet : List ℕ
  pub event : ObserverEvent

abbrev pub make_result : ObserverResult
make_result = record { packet = []; event = empty_event }

-- A flag that the code keeps in a byte is a `Bool`: it is only set to 0 and 1.
pub record AvrcpObserver : Type 0 where
  pub state : ObserverState
  pub next_transaction_label : ℕ
  pub pending_transaction_label : ℕ
  pub pending_pdu_id : ℕ
  pub write_label : ℕ
  pub write_pdu_id : ℕ
  pub write_active : Bool
  pub volume_supported : Bool
  pub last_absolute_volume : ℕ
  pub last_absolute_volume_valid : Bool
  pub playback_status : ℕ
  pub playback_status_valid : Bool
  pub playback_notification_label : ℕ
  pub playback_notification_active : Bool
  pub playback_notification_pending : Bool

abbrev pub ObserverStep : Type 0
ObserverStep = AvrcpObserver × ObserverResult

abbrev pub observer_init : AvrcpObserver
observer_init = record {
  state = observer_idle;
  next_transaction_label = 0;
  pending_transaction_label = 0;
  pending_pdu_id = 0;
  write_label = 0;
  write_pdu_id = 0;
  write_active = false;
  volume_supported = false;
  last_absolute_volume = 0;
  last_absolute_volume_valid = false;
  playback_status = 0;
  playback_status_valid = false;
  playback_notification_label = 0;
  playback_notification_active = false;
  playback_notification_pending = false;
}

abbrev pub is_valid_playback_status : ℕ → Bool
is_valid_playback_status status =
    status == playback_status_stopped
    || status == playback_status_playing
    || status == playback_status_paused

abbrev pub current_playback_status : AvrcpObserver → ℕ
current_playback_status o =
    if o.playback_status_valid && is_valid_playback_status o.playback_status
    then o.playback_status
    else playback_status_stopped

-- The next label, behind the one that is taken.
abbrev pub following_label : ℕ → ℕ
following_label label = u8 (label + 1) % 16
