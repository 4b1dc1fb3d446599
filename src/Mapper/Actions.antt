-- ===== src/Mapper/Actions.antt =====
-- The action set of agent/v1_avrcp_action_mapper.h, and how the decisions of the two gates are
-- merged into it.
use native_ldac_xm5_windows.Prelude.{if◌then◌else◌, Enum, ℕ, Bool, true, false, not, ◌&&◌, ◌||◌}
use native_ldac_xm5_windows.MediaSession.{Eligibility}
use native_ldac_xm5_windows.Volume.{WindowsVolume, silent_volume}
use native_ldac_xm5_windows.Volume.Gate.{GateDecision}
use native_ldac_xm5_windows.PassThrough.{PassThroughActions, PassThroughDecision}

pub data PlaybackState : Type 0 where
  stopped playing paused : PlaybackState

instance abbrev pub playback_state_enum : Enum PlaybackState
playback_state_enum = record {
  value = elim [ PlaybackState.stopped ↦ 0 | PlaybackState.playing ↦ 1 | PlaybackState.paused ↦ 2 ];
}

-- The bits of `V1AvrcpAction` and the fields beside the mask.
pub record ActionSet : Type 0 where
  pub set_windows_volume : Bool
  pub step_volume_up : Bool
  pub step_volume_down : Bool
  pub toggle_mute : Bool
  pub media_play : Bool
  pub media_pause : Bool
  pub media_play_pause : Bool
  pub media_stop : Bool
  pub media_next_track : Bool
  pub media_previous_track : Bool
  pub send_xm5_volume : Bool
  pub notify_playback_status : Bool
  pub acl_generation : ℕ
  pub authorized_current : Bool
  pub event_observed : Bool
  pub windows_volume : WindowsVolume
  pub xm5_absolute_volume : ℕ
  pub playback_after : PlaybackState
  pub playback_changed : Bool

abbrev pub no_action_set : ActionSet
no_action_set = record {
  set_windows_volume = false;
  step_volume_up = false;
  step_volume_down = false;
  toggle_mute = false;
  media_play = false;
  media_pause = false;
  media_play_pause = false;
  media_stop = false;
  media_next_track = false;
  media_previous_track = false;
  send_xm5_volume = false;
  notify_playback_status = false;
  acl_generation = 0;
  authorized_current = false;
  event_observed = false;
  windows_volume = silent_volume;
  xm5_absolute_volume = 0;
  playback_after = PlaybackState.stopped;
  playback_changed = false;
}

-- The `==` of two flags.
abbrev pub same : Bool → Bool → Bool
same true b = b
same false b = not b

merge_play : Eligibility → ActionSet → Bool → ActionSet
merge_play e a play_requested =
    if e.pause_eligible && play_requested
    then record a {
      media_play_pause = true;
      playback_after = PlaybackState.paused;
      playback_changed = true;
    }
    else if e.play_eligible && play_requested
    then record a {
      media_play = true;
      playback_after = PlaybackState.playing;
      playback_changed = true;
    }
    else a

merge_pause : Eligibility → ActionSet → Bool → ActionSet
merge_pause e a pause_requested =
    if e.play_eligible && pause_requested
    then record a {
      media_play_pause = true;
      playback_after = PlaybackState.playing;
      playback_changed = true;
    }
    else if e.pause_eligible && pause_requested
    then record a {
      media_pause = true;
      playback_after = PlaybackState.paused;
      playback_changed = true;
    }
    else a

merge_stop : Eligibility → ActionSet → Bool → ActionSet
merge_stop e a stop_requested =
    if e.session_present && stop_requested
    then record a {
      media_stop = true;
      playback_after = PlaybackState.stopped;
      playback_changed = true;
    }
    else a

merge_tracks : Eligibility → ActionSet → PassThroughActions → ActionSet
merge_tracks e a p = record a {
  media_next_track = a.media_next_track || e.next_eligible && p.next_track;
  media_previous_track = a.media_previous_track || e.previous_eligible && p.previous_track;
}

merge_volume_keys : ActionSet → PassThroughDecision → ActionSet
merge_volume_keys a d = record a {
  event_observed = a.event_observed || d.event_observed;
  step_volume_up = a.step_volume_up || d.actions.step_volume_up;
  step_volume_down = a.step_volume_down || d.actions.step_volume_down;
  toggle_mute = a.toggle_mute || d.actions.toggle_mute;
}

unfoldable pub merge_pass_through_actions :
    Eligibility → ActionSet → PassThroughDecision → ActionSet
unfolding merge_play merge_pause merge_stop merge_tracks merge_volume_keys
merge_pass_through_actions e a d =
    let a₁ = merge_volume_keys a d in
    let a₂ = merge_play e a₁ d.actions.action_play in
    let a₃ = merge_pause e a₂ d.actions.action_pause in
    let a₄ = merge_stop e a₃ d.actions.action_stop in merge_tracks e a₄ d.actions

unfoldable pub merge_volume_actions : ActionSet → GateDecision → ActionSet
merge_volume_actions a d =
    let b =
      if d.volume.set_windows_endpoint
      then record a { set_windows_volume = true; windows_volume = d.volume.windows_volume }
      else a in
    if d.volume.send_xm5_absolute_volume
    then record b { send_xm5_volume = true; xm5_absolute_volume = d.volume.xm5_absolute_volume }
    else b
