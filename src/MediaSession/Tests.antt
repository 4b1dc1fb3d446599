-- ===== src/MediaSession/Tests.antt =====
-- Runs of agent/v1_media_session_eligibility.cpp and agent/v1_avrcp_bootstrap_play.cpp.
use native_ldac_xm5_windows.Prelude.{true, false, List, [], ◌∷◌}
use native_ldac_xm5_windows.MediaSession.{
  Playback, MediaSnapshot, BootstrapState, initial_bootstrap,
}
use native_ldac_xm5_windows.MediaSession.Bootstrap.{BootstrapCall, resets, gestures, reconciles}

abbrev paused_session : MediaSnapshot
paused_session = record {
  acl_generation = 2;
  playback = Playback.paused;
  play_enabled = true;
  pause_enabled = true;
  next_enabled = true;
  previous_enabled = false;
}

abbrev linked : BootstrapState
linked = record initial_bootstrap { acl_generation = 2 }

abbrev waiting : BootstrapState
waiting = record linked { pending = true; deadline_ms = 1200; scheduled_count = 1 }

abbrev gesture_calls : List BootstrapCall
gesture_calls = resets 2 ∷ gestures paused_session true 1000 ∷ reconciles paused_session 1200 ∷ []
