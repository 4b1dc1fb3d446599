-- ===== src/Executor/State.antt =====
-- The sink, the options, the counters and the events of agent/v1_avrcp_action_executor.h.
use native_ldac_xm5_windows.Prelude.{ℕ, Bool, ◌||◌, Option}
use native_ldac_xm5_windows.MediaSession.{MediaSnapshot}
use native_ldac_xm5_windows.Volume.{Xm5VolumeEvent, remote_notification, WindowsVolume}
use native_ldac_xm5_windows.Mapper.{ActionSet, MapperState, initial_mapper}

-- What receives the actions. `W` is the state of the world that it works on.
pub record Sink (W : Type 0) : Type 0 where
  pub handle : ActionSet → W → Bool × W
  pub query_windows_volume : W → Option WindowsVolume × W

pub record ReplayOptions : Type 0 where
  pub acl_generation : ℕ
  pub owner_lease : ℕ
  pub volume_sync : Bool
  pub media_routing : Bool
  pub headset_preferred : Bool
  pub initial_windows_volume : WindowsVolume
  pub media_session : MediaSnapshot

-- 64-bit counters.
pub record ReplayStats : Type 0 where
  pub lines : ℕ
  pub recognized_events : ℕ
  pub ignored_lines : ℕ
  pub action_sets : ℕ
  pub sink_accepted : ℕ
  pub generation_ended : ℕ
  pub errors : ℕ

abbrev pub no_stats : ReplayStats
no_stats = record {
  lines = 0;
  recognized_events = 0;
  ignored_lines = 0;
  action_sets = 0;
  sink_accepted = 0;
  generation_ended = 0;
  errors = 0;
}

pub data EventKind : Type 0 where
  generation_started generation_finished volume_capability absolute_volume : EventKind
  pass_through set_absolute_volume_command : EventKind

pub record ObservedEvent : Type 0 where
  pub kind : EventKind
  pub generation : ℕ
  pub flags : ℕ
  pub value : ℕ
  pub volume_event : Xm5VolumeEvent

-- An event with the default member initialisers beside its kind and its generation.
abbrev pub event_of : EventKind → ℕ → ObservedEvent
event_of kind generation = record {
  kind = kind;
  generation = generation;
  flags = 0;
  value = 0;
  volume_event = remote_notification;
}

-- The mapper, the counters and the world that a call changes.
pub record Feed (W : Type 0) : Type 0 where
  pub mapper : MapperState
  pub stats : ReplayStats
  pub world : W

abbrev pub fresh_feed : {W : Type 0} → W → Feed W
fresh_feed w = record { mapper = initial_mapper; stats = no_stats; world = w }

-- The mask of the actions is not empty.
unfoldable pub has_any_action : ActionSet → Bool
has_any_action a =
    a.set_windows_volume || a.step_volume_up || a.step_volume_down || a.toggle_mute || a.media_play
    || a.media_pause || a.media_play_pause || a.media_stop || a.media_next_track
    || a.media_previous_track || a.send_xm5_volume || a.notify_playback_status
