-- ===== src/Lifecycle/State.antt =====
-- The types of agent/v1_lifecycle.h.
use native_ldac_xm5_windows.Prelude.{Enum, ◌is◌, ℕ, Bool, false, ◌||◌}

pub data PhysicalPresence : Type 0 where
  absent present : PhysicalPresence

pub data RenderDemand : Type 0 where
  idle running : RenderDemand

pub data EngineLease : Type 0 where
  absent starting ready : EngineLease

pub data MediaSession : Type 0 where
  stopped opening streaming stopping faulted : MediaSession

instance abbrev pub presence_enum : Enum PhysicalPresence
presence_enum = record {
  value = elim [ PhysicalPresence.absent ↦ 0 | PhysicalPresence.present ↦ 1 ];
}

instance abbrev pub render_enum : Enum RenderDemand
render_enum = record { value = elim [ idle ↦ 0 | running ↦ 1 ] }

instance abbrev pub lease_enum : Enum EngineLease
lease_enum = record {
  value = elim [ EngineLease.absent ↦ 0 | EngineLease.starting ↦ 1 | EngineLease.ready ↦ 2 ];
}

instance abbrev pub media_enum : Enum MediaSession
media_enum = record {
  value = elim [ stopped ↦ 0 | opening ↦ 1 | streaming ↦ 2 | stopping ↦ 3 | faulted ↦ 4 ];
}

pub data LifecycleEvent : Type 0 where
  acl_connected acl_disconnected render_started render_stopped : LifecycleEvent
  hfp_suspend_ldac hfp_resume_ldac engine_ready engine_exited : LifecycleEvent
  transport_open_suppressed media_started media_stopped : LifecycleEvent
  transport_retryable_failure transport_retry_due : LifecycleEvent
  media_failed watcher_lease_expired : LifecycleEvent

-- The bits of `V1LifecycleAction`.
pub record LifecycleActions : Type 0 where
  pub publish_endpoint_present : Bool
  pub publish_endpoint_absent : Bool
  pub start_engine : Bool
  pub stop_engine : Bool
  pub open_transport : Bool
  pub graceful_stop_transport : Bool
  pub cancel_transport : Bool
  pub fail_mute : Bool
  pub schedule_transport_retry : Bool

-- `V1ActionNone`.
abbrev pub action_none : LifecycleActions
action_none = record {
  publish_endpoint_present = false;
  publish_endpoint_absent = false;
  start_engine = false;
  stop_engine = false;
  open_transport = false;
  graceful_stop_transport = false;
  cancel_transport = false;
  fail_mute = false;
  schedule_transport_retry = false;
}

abbrev pub maximum_transport_open_attempts : ℕ
maximum_transport_open_attempts = 3

abbrev pub maximum_pcm_transport_open_attempts : ℕ
maximum_pcm_transport_open_attempts = 4

pub record LifecycleState : Type 0 where
  pub physical_presence : PhysicalPresence
  pub render_demand : RenderDemand
  pub engine_lease : EngineLease
  pub media_session : MediaSession
  pub acl_generation : ℕ
  pub open_attempts_for_generation : ℕ
  pub maximum_open_attempts : ℕ
  pub tolerate_pretransport_render_gaps : Bool
  pub allow_multiple_media_sessions : Bool
  pub hfp_suspended : Bool
  pub completed_media_sessions_for_generation : ℕ

-- The default member initialisers.
abbrev pub initial_lifecycle : LifecycleState
initial_lifecycle = record {
  physical_presence = PhysicalPresence.absent;
  render_demand = idle;
  engine_lease = EngineLease.absent;
  media_session = stopped;
  acl_generation = 0;
  open_attempts_for_generation = 0;
  maximum_open_attempts = maximum_transport_open_attempts;
  tolerate_pretransport_render_gaps = false;
  allow_multiple_media_sessions = false;
  hfp_suspended = false;
  completed_media_sessions_for_generation = 0;
}

abbrev pub LifecycleStep : Type 0
LifecycleStep = LifecycleState × LifecycleActions

-- Opening, Streaming or Stopping: the test that four of the cases share.
abbrev pub is_engaged : MediaSession → Bool
is_engaged m = m is opening || m is streaming || m is stopping
