-- ===== src/Mapper/State.antt =====
-- The state of agent/v1_avrcp_action_mapper.h, and what the operations of the .cpp share.
use native_ldac_xm5_windows.Prelude.{◌==◌, if◌then◌else◌, ℕ, Bool, true, false, not, ◌&&◌, ◌||◌}
use native_ldac_xm5_windows.MediaSession.{Eligibility, no_eligibility}
use native_ldac_xm5_windows.Volume.Gate.{GateState, initial_gate_state}
use native_ldac_xm5_windows.PassThrough.{PassThroughState, initial_pass_through_state}
use native_ldac_xm5_windows.Mapper.Actions.{PlaybackState, ActionSet, no_action_set}

pub record MapperState : Type 0 where
  pub acl_generation : ℕ
  pub acl_generation_current : Bool
  pub owner_lease : ℕ
  pub volume_sync_enabled : Bool
  pub media_routing_enabled : Bool
  pub media_eligibility : Eligibility
  pub headset_preferred : Bool
  pub xm5_volume_seen : Bool
  pub playback : PlaybackState
  pub pc_playback : PlaybackState
  pub pc_playback_valid : Bool
  pub playback_status_sync_required : Bool
  pub last_playback_status : PlaybackState
  pub playback_status_valid : Bool
  pub pass_through : PassThroughState
  pub absolute_volume : GateState

-- The default member initialisers.
abbrev pub initial_mapper : MapperState
initial_mapper = record {
  acl_generation = 0;
  acl_generation_current = false;
  owner_lease = 0;
  volume_sync_enabled = false;
  media_routing_enabled = false;
  media_eligibility = no_eligibility;
  headset_preferred = false;
  xm5_volume_seen = false;
  playback = PlaybackState.stopped;
  pc_playback = PlaybackState.stopped;
  pc_playback_valid = false;
  playback_status_sync_required = false;
  last_playback_status = PlaybackState.stopped;
  playback_status_valid = false;
  pass_through = initial_pass_through_state;
  absolute_volume = initial_gate_state;
}

abbrev pub MapperStep : Type 0
MapperStep = MapperState × ActionSet

unfoldable pub is_current_generation : MapperState → ℕ → Bool
is_current_generation s generation =
    not (generation == 0) && s.acl_generation_current && s.acl_generation == generation

unfoldable pub snapshot : MapperState → ActionSet
snapshot s = record no_action_set {
  acl_generation = s.acl_generation;
  authorized_current = s.acl_generation_current && not (s.owner_lease == 0);
}

unfoldable pub update_playback_state : MapperState → ActionSet → MapperState
update_playback_state s a =
    if a.playback_changed
    then if a.notify_playback_status
      then record s {
        playback = a.playback_after;
        last_playback_status = a.playback_after;
        playback_status_valid = true;
      }
      else record s { playback = a.playback_after }
    else if a.media_play
    then record s { playback = PlaybackState.playing }
    else if a.media_pause
    then record s { playback = PlaybackState.paused }
    else if a.media_stop
    then record s { playback = PlaybackState.stopped }
    else s

unfoldable pub filter_headset_preferred_push : MapperState → ActionSet → ActionSet
filter_headset_preferred_push s a =
    if not s.headset_preferred || s.xm5_volume_seen then a else record a { send_xm5_volume = false }

-- The fields that a new link and the end of a link clear alike.
unfoldable pub clear_link : MapperState → MapperState
clear_link s = record s {
  owner_lease = 0;
  volume_sync_enabled = false;
  media_routing_enabled = false;
  media_eligibility = no_eligibility;
  xm5_volume_seen = false;
  playback = PlaybackState.stopped;
  pc_playback = PlaybackState.stopped;
  pc_playback_valid = false;
  playback_status_sync_required = false;
  last_playback_status = PlaybackState.stopped;
  playback_status_valid = false;
}
