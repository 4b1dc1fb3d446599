-- ===== src/Mapper/Tests.antt =====
-- Runs of agent/v1_avrcp_action_mapper.cpp at concrete states.
use native_ldac_xm5_windows.Prelude.{◌≡◌, refl, true, false, arith}
use native_ldac_xm5_windows.MediaSession.{Playback, MediaSnapshot, evaluate_eligibility}
use native_ldac_xm5_windows.Volume.{supported, clamp_windows_volume, project_windows_volume_to_xm5}
use native_ldac_xm5_windows.Volume.Gate.{
  synchronize, GateState, initial_gate_state, gate_can_synchronize,
}
use native_ldac_xm5_windows.PassThrough
use native_ldac_xm5_windows.PassThrough.{
  route_to_current_media_session, PassThroughState, initial_pass_through_state,
  make_pass_through_event,
}
use native_ldac_xm5_windows.PassThrough.Invariant.{Acts}
use native_ldac_xm5_windows.Mapper.{
  avrcp_set_control_mode, avrcp_observe_pass_through, MapperState, initial_mapper,
}
use native_ldac_xm5_windows.Mapper.Agreement.{Inv, revokes, answer, mapper_call-Inv}
use native_ldac_xm5_windows.Mapper.Routing.{
  quiet, wanted_for_play, wanted_for_pause, gesture_follows_session,
}
use native_ldac_xm5_windows.Mapper.VolumeSync.{mode_start_drops_first_volume}

abbrev paused_media : MediaSnapshot
paused_media = record {
  acl_generation = 1;
  playback = Playback.paused;
  play_enabled = true;
  pause_enabled = true;
  next_enabled = true;
  previous_enabled = true;
}

abbrev routing_gate : PassThroughState
routing_gate = record initial_pass_through_state {
  acl_generation = 1;
  acl_generation_current = true;
  owner_lease = 9;
  authorization_epoch = 3;
  mode = route_to_current_media_session;
}

-- A gate that waits for synchronization to be switched on.
abbrev observing_gate : GateState
observing_gate = record initial_gate_state {
  acl_generation = 1;
  acl_generation_current = true;
  owner_lease = 9;
  authorization_epoch = 1;
  observed_support = supported;
  windows_volume_observed = true;
  last_windows_volume = record { percent = 50; muted = false };
}

abbrev mapped : MapperState
mapped = record initial_mapper {
  acl_generation = 1;
  acl_generation_current = true;
  owner_lease = 9;
  media_routing_enabled = true;
  media_eligibility = evaluate_eligibility paused_media;
  pass_through = routing_gate;
  absolute_volume = observing_gate;
}

abbrev unleased : MapperState
unleased = record mapped {
  owner_lease = 0;
  pass_through = record routing_gate { owner_lease = 0 };
  absolute_volume = record observing_gate { owner_lease = 0 };
}

abbrev preferring : MapperState
preferring = record mapped {
  headset_preferred = true;
  absolute_volume = record observing_gate { mode = synchronize };
}

mapped-Inv : Inv mapped
mapped-Inv = ground arith

unleased-Inv : Inv unleased
unleased-Inv = ground arith

mapper_call-Inv_example : Inv (answer mapped (revokes 1 9)).0
mapper_call-Inv_example = mapper_call-Inv mapped (revokes 1 9) mapped-Inv

play_Acts : Acts routing_gate 1 (make_pass_through_event 0x44 false)
unfolding PassThrough.is_current_generation make_pass_through_event
play_Acts = ground arith

pause_Acts : Acts routing_gate 1 (make_pass_through_event 0x46 false)
unfolding PassThrough.is_current_generation make_pass_through_event
pause_Acts = ground arith

gesture_follows_session_example :
    ((avrcp_observe_pass_through mapped 1 0x44 false).1
      ≡ wanted_for_play Playback.paused true true (quiet mapped))
    × ((avrcp_observe_pass_through mapped 1 0x46 false).1
        ≡ wanted_for_pause Playback.paused true true (quiet mapped))
gesture_follows_session_example =
    gesture_follows_session mapped paused_media 1 refl refl refl refl play_Acts pause_Acts

mode_start_drops_first_volume_example :
    let (t, a) = avrcp_set_control_mode mapped 1 true true in
    (a.send_xm5_volume ≡ false)
    × (t.absolute_volume.reducer.session_active ≡ true)
    × (t.absolute_volume.reducer.first_session_sync_complete ≡ true)
    × (t.absolute_volume.reducer.last_xm5_volume_sent
        ≡ project_windows_volume_to_xm5
            (clamp_windows_volume mapped.absolute_volume.last_windows_volume))
unfolding gate_can_synchronize
mode_start_drops_first_volume_example =
    mode_start_drops_first_volume mapped 1 true mapped-Inv refl refl (λ e. omega arith) refl refl
