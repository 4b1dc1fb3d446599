-- ===== src/Volume.antt =====
-- The session part of agent/avrcp_absolute_volume_state.h and its .cpp: the scales of the two
-- sides and the reducer that keeps the headset at the Windows volume. A mask of actions is a
-- record with one Boolean for each declared bit.
pub mod Scale
pub mod Session
pub mod Exchange
pub mod Gate
mod Tests
use native_ldac_xm5_windows.Prelude.{
  ltb, ◌==◌, if◌then◌else◌, Enum, ◌is◌, u8, ℕ, ◌+◌, ◌*◌, ◌/◌, min, Bool, true, false, not, ◌&&◌,
  ◌||◌,
}
use native_ldac_xm5_windows.Generation.{is_newer_generation}

pub data VolumeSupport : Type 0 where
  unknown unsupported supported : VolumeSupport

pub data Xm5VolumeEvent : Type 0 where
  command_response remote_notification : Xm5VolumeEvent

instance abbrev pub support_enum : Enum VolumeSupport
support_enum = record { value = elim [ unknown ↦ 0 | unsupported ↦ 1 | supported ↦ 2 ] }

instance abbrev pub xm5_event_enum : Enum Xm5VolumeEvent
xm5_event_enum = record { value = elim [ command_response ↦ 0 | remote_notification ↦ 1 ] }

pub record WindowsVolume : Type 0 where
  pub percent : ℕ
  pub muted : Bool

-- The decision, with the mask `actions` spread over its two bits.
pub record VolumeDecision : Type 0 where
  pub set_windows_endpoint : Bool
  pub send_xm5_absolute_volume : Bool
  pub windows_volume : WindowsVolume
  pub xm5_absolute_volume : ℕ

abbrev pub silent_volume : WindowsVolume
silent_volume = record { percent = 0; muted = true }

abbrev pub no_decision : VolumeDecision
no_decision = record {
  set_windows_endpoint = false;
  send_xm5_absolute_volume = false;
  windows_volume = silent_volume;
  xm5_absolute_volume = 0;
}

-- `decision.actions != 0u`.
abbrev pub has_actions : VolumeDecision → Bool
has_actions d = d.set_windows_endpoint || d.send_xm5_absolute_volume

pub record VolumeState : Type 0 where
  pub generation : ℕ
  pub session_active : Bool
  pub support : VolumeSupport
  pub windows_volume_known : Bool
  pub windows_volume : WindowsVolume
  pub first_session_sync_complete : Bool
  pub outbound_echo_pending : Bool
  pub last_xm5_volume_sent : ℕ
  pub inbound_volume_seen : Bool
  pub last_xm5_volume_received : ℕ
  pub windows_update_pending : Bool
  pub pending_xm5_volume : ℕ

abbrev pub initial_volume_state : VolumeState
initial_volume_state = record {
  generation = 0;
  session_active = false;
  support = unknown;
  windows_volume_known = false;
  windows_volume = silent_volume;
  first_session_sync_complete = false;
  outbound_echo_pending = false;
  last_xm5_volume_sent = 0;
  inbound_volume_seen = false;
  last_xm5_volume_received = 0;
  windows_update_pending = false;
  pending_xm5_volume = 0;
}

pub clamp_windows_volume : WindowsVolume → WindowsVolume
clamp_windows_volume v = record v { percent = u8 (min v.percent 100) }

pub windows_percent_to_xm5_absolute_volume : ℕ → ℕ
windows_percent_to_xm5_absolute_volume windows_percent =
    u8 ((min windows_percent 100 * 127 + 50) / 100)

pub xm5_absolute_volume_to_windows_percent : ℕ → ℕ
xm5_absolute_volume_to_windows_percent xm5_absolute_volume =
    u8 ((min xm5_absolute_volume 127 * 100 + 63) / 127)

pub project_windows_volume_to_xm5 : WindowsVolume → ℕ
project_windows_volume_to_xm5 v =
    if v.muted || v.percent == 0 then 0 else windows_percent_to_xm5_absolute_volume v.percent

pub is_current_session : VolumeState → ℕ → Bool
is_current_session s generation =
    not (generation == 0) && s.session_active && generation == s.generation

pub send_authoritative_windows_volume : VolumeState → VolumeState × VolumeDecision
send_authoritative_windows_volume s =
    let projected = project_windows_volume_to_xm5 s.windows_volume in
    if not s.windows_volume_known || not (s.support is supported) then (s, no_decision) else (
      record s {
        first_session_sync_complete = true;
        outbound_echo_pending = true;
        last_xm5_volume_sent = projected;
      },
      record no_decision { send_xm5_absolute_volume = true; xm5_absolute_volume = projected },
    )

unfoldable pub begin_volume_session :
    VolumeState → ℕ → VolumeSupport → WindowsVolume → VolumeState × VolumeDecision
unfolding send_authoritative_windows_volume clamp_windows_volume
begin_volume_session s generation support observed =
    if not (is_newer_generation generation s.generation)
    then (s, no_decision)
    else send_authoritative_windows_volume (record initial_volume_state {
      generation = generation;
      session_active = true;
      support = support;
      windows_volume_known = true;
      windows_volume = clamp_windows_volume observed;
    })

pub set_volume_support : VolumeState → ℕ → VolumeSupport → VolumeState × VolumeDecision
unfolding send_authoritative_windows_volume is_current_session
set_volume_support s generation support =
    let t = record s { support = support } in
    if not (is_current_session s generation)
    then (s, no_decision)
    else if not (support is supported)
    then (
      record t {
        first_session_sync_complete = false;
        outbound_echo_pending = false;
        windows_update_pending = false;
      },
      no_decision,
    )
    else if not s.first_session_sync_complete
    then send_authoritative_windows_volume t
    else (t, no_decision)

pub observe_windows_endpoint_volume : VolumeState → ℕ → WindowsVolume → VolumeState × VolumeDecision
unfolding send_authoritative_windows_volume is_current_session clamp_windows_volume
observe_windows_endpoint_volume s generation observed =
    let t = record s {
      windows_volume_known = true;
      windows_volume = clamp_windows_volume observed;
    } in
    let projected = project_windows_volume_to_xm5 t.windows_volume in
    if not (is_current_session s generation)
    then (s, no_decision)
    else if s.windows_update_pending
    then if projected == s.pending_xm5_volume
      then (
        record t {
          windows_update_pending = false;
          last_xm5_volume_sent = projected;
          outbound_echo_pending = false;
        },
        no_decision,
      )
      else send_authoritative_windows_volume (record t { windows_update_pending = false })
    else if not (s.support is supported)
    then (t, no_decision)
    else if s.first_session_sync_complete && s.last_xm5_volume_sent == projected
    then (t, no_decision)
    else send_authoritative_windows_volume t

-- The remote notification, after the guards that it shares with the response.
observe_remote_notification : VolumeState → ℕ → VolumeState × VolumeDecision
observe_remote_notification s value =
    let t = record s {
      inbound_volume_seen = true;
      last_xm5_volume_received = value;
      outbound_echo_pending = false;
    } in
    if s.inbound_volume_seen && value == s.last_xm5_volume_received
    then (s, no_decision)
    else if s.windows_volume_known && project_windows_volume_to_xm5 s.windows_volume == value
    then (t, no_decision)
    else (
      record t { windows_update_pending = true; pending_xm5_volume = value },
      record no_decision {
        set_windows_endpoint = true;
        windows_volume = record {
          percent = xm5_absolute_volume_to_windows_percent value;
          muted = value == 0;
        };
      },
    )

unfoldable pub observe_xm5_absolute_volume :
    VolumeState → ℕ → ℕ → Xm5VolumeEvent → VolumeState × VolumeDecision
unfolding observe_remote_notification is_current_session
observe_xm5_absolute_volume s generation xm5_absolute_volume event =
    let value = u8 xm5_absolute_volume in
    if not (is_current_session s generation)
      || not (s.support is supported)
      || ltb 127 xm5_absolute_volume
    then (s, no_decision)
    else if event is command_response
    then (
      if s.outbound_echo_pending && value == s.last_xm5_volume_sent
          then record s { outbound_echo_pending = false }
          else s,
      no_decision,
    )
    else observe_remote_notification s value

pub end_volume_session : VolumeState → ℕ → VolumeState
unfolding is_current_session
end_volume_session s generation = if not (is_current_session s generation) then s else record s {
  session_active = false;
  support = unknown;
  outbound_echo_pending = false;
  windows_update_pending = false;
  inbound_volume_seen = false;
}
