-- ===== src/Executor/Tests.antt =====
-- Replays of agent/v1_avrcp_action_executor.cpp with a sink that stores the volume it is asked for.
use native_ldac_xm5_windows.Prelude.{
  if◌then◌else◌, ◌≡◌, true, false, Option, none, some, List, [], ◌∷◌,
}
use native_ldac_xm5_windows.MediaSession.{Playback}
use native_ldac_xm5_windows.Volume.{command_response, remote_notification, WindowsVolume}
use native_ldac_xm5_windows.Mapper.{ActionSet, no_action_set}
use native_ldac_xm5_windows.Executor.{
  dispatch_authorized_actions, run_replay, Sink, ReplayOptions, generation_started,
  volume_capability, absolute_volume, ObservedEvent, event_of, fresh_feed,
}
use native_ldac_xm5_windows.Executor.Dispatch.{dispatch_settles}
use native_ldac_xm5_windows.Executor.Authorized.{watching, AllAuthorized, run_replay-AllAuthorized}

abbrev half : WindowsVolume
half = record { percent = 50; muted = false }

-- The endpoint takes the volume that it is given, and answers with it.
abbrev endpoint : Sink WindowsVolume
endpoint = record {
  handle = λ a w. (true, if a.set_windows_volume then a.windows_volume else w);
  query_windows_volume = λ w. (some w, w);
}

abbrev options : ReplayOptions
options = record {
  acl_generation = 1;
  owner_lease = 1;
  volume_sync = true;
  media_routing = true;
  headset_preferred = true;
  initial_windows_volume = half;
  media_session = record {
    acl_generation = 0;
    playback = Playback.paused;
    play_enabled = true;
    pause_enabled = true;
    next_enabled = false;
    previous_enabled = false;
  };
}

-- A generation that begins, a line that is no event, and a headset that supports the volume and
-- then reports two.
abbrev log : List (Option ObservedEvent)
log =
    some (event_of generation_started 1)
    ∷ none
    ∷ some (record {
      kind = volume_capability;
      generation = 1;
      flags = 0;
      value = 1;
      volume_event = remote_notification;
    })
    ∷ some (record {
      kind = absolute_volume;
      generation = 1;
      flags = 0;
      value = 80;
      volume_event = command_response;
    })
    ∷ some (record {
      kind = absolute_volume;
      generation = 1;
      flags = 0x10;
      value = 100;
      volume_event = remote_notification;
    })
    ∷ []

abbrev louder : ActionSet
louder = record no_action_set {
  set_windows_volume = true;
  authorized_current = true;
  acl_generation = 1;
  windows_volume = record { percent = 79; muted = false };
}

dispatch_settles_example :
    dispatch_authorized_actions endpoint 5 louder (fresh_feed half)
    ≡ dispatch_authorized_actions endpoint 2 louder (fresh_feed half)
dispatch_settles_example = dispatch_settles endpoint 3 louder (fresh_feed half)

run_replay-AllAuthorized_example :
    AllAuthorized (run_replay (watching endpoint) options log ([], half)).1.world.0
run_replay-AllAuthorized_example = run_replay-AllAuthorized endpoint options log half
