-- ===== src/Mapper.antt =====
-- agent/v1_avrcp_action_mapper.h and .cpp: the control mapper, which runs the pass-through gate and
-- the volume gate of one link side by side and turns their decisions into Windows actions. The mask
-- of actions is a record with one Boolean for each declared bit.
mod State
mod Actions
pub mod Link
pub mod Quiet
pub mod Agreement
pub mod Routing
pub mod VolumeSync
mod Tests
unfoldable pub use Actions.*
unfoldable pub use State.*
use native_ldac_xm5_windows.Prelude.{
  ◌==◌, if◌then◌else◌, ◌is◌, ℕ, ◌%◌, Bool, true, false, not, ◌&&◌, ◌||◌,
}
use native_ldac_xm5_windows.MediaSession.{
  Playback, playback_enum, MediaSnapshot, evaluate_eligibility,
}
use native_ldac_xm5_windows.Volume.{
  unsupported, supported, Xm5VolumeEvent, support_enum, xm5_event_enum, WindowsVolume, VolumeState,
  xm5_absolute_volume_to_windows_percent,
}
use native_ldac_xm5_windows.Volume.Gate
use native_ldac_xm5_windows.Volume.Gate.{synchronize, gate_mode_enum, GateState}
use native_ldac_xm5_windows.PassThrough
use native_ldac_xm5_windows.PassThrough.{
  route_to_current_media_session, route_mode_enum, observe_pass_through_event, operation_enum,
  key_state_enum, make_pass_through_event,
}

pub avrcp_begin_acl_generation : MapperState → ℕ → MapperStep
unfolding snapshot clear_link
avrcp_begin_acl_generation s acl_generation =
    let t = record s {
      pass_through = (PassThrough.begin_acl_generation s.pass_through acl_generation).0;
      absolute_volume = (Gate.begin_acl_generation s.absolute_volume acl_generation).0;
    } in
    let u =
      clear_link (record t { acl_generation = acl_generation; acl_generation_current = true }) in
    if not (t.pass_through.acl_generation == acl_generation)
      || not t.pass_through.acl_generation_current
      || not (t.absolute_volume.acl_generation == acl_generation)
      || not t.absolute_volume.acl_generation_current
    then (t, no_action_set)
    else (u, snapshot u)

pub avrcp_end_acl_generation : MapperState → ℕ → MapperStep
unfolding is_current_generation snapshot clear_link
avrcp_end_acl_generation s acl_generation =
    let t = clear_link (record s {
      pass_through = (PassThrough.end_acl_generation s.pass_through acl_generation).0;
      absolute_volume = (Gate.end_acl_generation s.absolute_volume acl_generation).0;
      acl_generation_current = false;
    }) in
    if not (is_current_generation s acl_generation) then (s, no_action_set) else (t, snapshot t)

pub avrcp_set_control_mode : MapperState → ℕ → Bool → Bool → MapperStep
unfolding is_current_generation snapshot
avrcp_set_control_mode s acl_generation volume_sync media_routing =
    let t = record s {
      pass_through =
          (PassThrough.set_gate_mode s.pass_through acl_generation
            (if media_routing then route_to_current_media_session else PassThrough.observe_only)).0;
      absolute_volume =
          (Gate.set_gate_mode s.absolute_volume acl_generation
            (if volume_sync then synchronize else Gate.observe_only)).0;
      volume_sync_enabled = volume_sync;
      media_routing_enabled = media_routing;
      playback_status_sync_required =
          s.playback_status_sync_required || not s.media_routing_enabled && media_routing;
    } in
    if not (is_current_generation s acl_generation) then (s, no_action_set) else (t, snapshot t)

pub avrcp_acquire_owner_lease : MapperState → ℕ → ℕ → MapperStep
unfolding is_current_generation snapshot
avrcp_acquire_owner_lease s acl_generation owner_lease =
    let t = record s {
      pass_through = (PassThrough.acquire_owner_lease s.pass_through acl_generation owner_lease).0;
      absolute_volume = (Gate.acquire_owner_lease s.absolute_volume acl_generation owner_lease).0;
    } in
    let u = record t { owner_lease = owner_lease; playback_status_sync_required = true } in
    if not (is_current_generation s acl_generation) || owner_lease == 0
    then (s, no_action_set)
    else if not (t.pass_through.owner_lease == owner_lease)
        || not (t.absolute_volume.owner_lease == owner_lease)
    then (t, no_action_set)
    else (u, snapshot u)

playback_of : Playback → PlaybackState
playback_of p =
    if p is Playback.playing
    then PlaybackState.playing
    else if p is Playback.paused
    then PlaybackState.paused
    else PlaybackState.stopped

pub avrcp_set_media_session_snapshot : MapperState → MediaSnapshot → MapperStep
unfolding is_current_generation snapshot playback_of
avrcp_set_media_session_snapshot s m =
    let next = playback_of m.playback in
    let pc_changed = not s.pc_playback_valid || not (s.pc_playback is next) in
    let t = record s {
      media_eligibility = evaluate_eligibility m;
      pc_playback = next;
      pc_playback_valid = true;
      playback = next;
    } in
    let needs_sync =
      s.media_routing_enabled
      && not (s.owner_lease == 0)
      && (s.playback_status_sync_required
          || pc_changed
          || not s.playback_status_valid
          || not (s.last_playback_status is next)) in
    if not (is_current_generation s m.acl_generation)
    then (s, no_action_set)
    else if needs_sync
    then (
      record t {
        last_playback_status = next;
        playback_status_valid = true;
        playback_status_sync_required = false;
      },
      record (snapshot t) {
        notify_playback_status = true;
        playback_after = next;
        playback_changed = true;
      },
    )
    else (t, snapshot t)

pub avrcp_revoke_owner_lease : MapperState → ℕ → ℕ → MapperStep
unfolding is_current_generation snapshot
avrcp_revoke_owner_lease s acl_generation owner_lease =
    let t = record s {
      pass_through = (PassThrough.revoke_owner_lease s.pass_through acl_generation owner_lease).0;
      absolute_volume = (Gate.revoke_owner_lease s.absolute_volume acl_generation owner_lease).0;
      owner_lease = 0;
    } in
    if not (is_current_generation s acl_generation)
      || owner_lease == 0
      || not (s.owner_lease == owner_lease)
    then (s, no_action_set)
    else (t, snapshot t)

-- The tail that two of the volume observations share.
after_volume : MapperState → Gate.GateStep → MapperStep
unfolding snapshot filter_headset_preferred_push
after_volume s (gate, decision) =
    let t = record s { absolute_volume = gate } in
    (t, filter_headset_preferred_push t (merge_volume_actions (snapshot t) decision))

pub avrcp_observe_volume_capability : MapperState → ℕ → Bool → MapperStep
unfolding is_current_generation after_volume
avrcp_observe_volume_capability s acl_generation is_supported =
    if not (is_current_generation s acl_generation)
    then (s, no_action_set)
    else after_volume s (
        Gate.observe_capability s.absolute_volume acl_generation
          (if is_supported then supported else unsupported))

pub avrcp_observe_windows_volume : MapperState → ℕ → WindowsVolume → MapperStep
unfolding is_current_generation after_volume
avrcp_observe_windows_volume s acl_generation observed =
    if not (is_current_generation s acl_generation)
    then (s, no_action_set)
    else after_volume s
        (Gate.observe_windows_through_gate s.absolute_volume acl_generation observed)

-- The first headset volume under the headset's preference: it becomes the value that was last sent.
adopt_headset_volume : MapperState → ℕ → MapperState
adopt_headset_volume s absolute_volume = record s {
  xm5_volume_seen = true;
  absolute_volume = record gate {
    reducer = record reducer {
      last_xm5_volume_sent = absolute_volume % 128;
      outbound_echo_pending = false;
    };
  };
}
  where
    gate : GateState
    gate = s.absolute_volume

    reducer : VolumeState
    reducer = gate.reducer

-- The Windows volume that is asked for then, if the gate has not asked for one.
adopt_action : MapperState → ActionSet → ℕ → ActionSet
adopt_action s a absolute_volume =
    let gate = s.absolute_volume in
    let percent = xm5_absolute_volume_to_windows_percent absolute_volume in
    let muted = absolute_volume == 0 in
    let matches_last =
      gate.windows_volume_observed
      && gate.last_windows_volume.percent == percent
      && same gate.last_windows_volume.muted muted in
    if not (s.owner_lease == 0)
      && gate.mode is synchronize
      && not a.set_windows_volume
      && not matches_last
    then record a {
      set_windows_volume = true;
      windows_volume = record { percent = percent; muted = muted };
    }
    else a

pub avrcp_observe_xm5_absolute_volume : MapperState → ℕ → ℕ → Xm5VolumeEvent → MapperStep
unfolding is_current_generation snapshot filter_headset_preferred_push adopt_headset_volume
    adopt_action
avrcp_observe_xm5_absolute_volume s acl_generation absolute_volume event =
    let (gate, decision) =
      Gate.observe_xm5_through_gate s.absolute_volume acl_generation absolute_volume event in
    let t = record s { absolute_volume = gate } in
    let a = merge_volume_actions (snapshot t) decision in
    let u = adopt_headset_volume t absolute_volume in
    if not (is_current_generation s acl_generation)
    then (s, no_action_set)
    else if t.headset_preferred && not t.xm5_volume_seen
    then (u, adopt_action u (filter_headset_preferred_push u a) absolute_volume)
    else (t, a)

pub avrcp_observe_pass_through : MapperState → ℕ → ℕ → Bool → MapperStep
unfolding is_current_generation snapshot update_playback_state
avrcp_observe_pass_through s acl_generation operation_id is_released =
    let (gate, decision) =
      observe_pass_through_event s.pass_through acl_generation
        (make_pass_through_event operation_id is_released) in
    let t = record s { pass_through = gate } in
    let a = merge_pass_through_actions s.media_eligibility (snapshot t) decision in
    if not (is_current_generation s acl_generation)
    then (s, no_action_set)
    else (update_playback_state t a, a)
