-- ===== src/Lifecycle/Engine.antt =====
-- The cases of agent/v1_lifecycle.cpp for the engine, the transport and the media session.
use native_ldac_xm5_windows.Prelude.{
  ltb, leb, ◌==◌, if◌then◌else◌, ◌is◌, u32_max, ◌+◌, Bool, true, not, ◌&&◌, ◌||◌,
}
use native_ldac_xm5_windows.Lifecycle.State.{
  PhysicalPresence, running, EngineLease, starting, ready, stopped, opening, streaming, stopping,
  faulted, presence_enum, render_enum, lease_enum, media_enum, action_none, LifecycleState,
  LifecycleStep, is_engaged,
}

-- The guard under which `EngineReady` turns the engine away.
refuses_engine : LifecycleState → Bool
refuses_engine s =
    not (s.physical_presence is PhysicalPresence.present)
    || s.hfp_suspended
    || not (s.render_demand is running) && not s.tolerate_pretransport_render_gaps
    || not (s.engine_lease is starting)
    || leb s.maximum_open_attempts s.open_attempts_for_generation

unfoldable pub on_engine_ready : LifecycleState → LifecycleStep
unfolding refuses_engine
on_engine_ready s =
    if s.engine_lease is ready && not (s.open_attempts_for_generation == 0)
    then (s, action_none)
    else if refuses_engine s
    then (record s { engine_lease = EngineLease.absent }, record action_none { stop_engine = true })
    else (
      record s {
        engine_lease = ready;
        media_session = opening;
        open_attempts_for_generation = s.open_attempts_for_generation + 1;
      },
      record action_none { open_transport = true },
    )

unfoldable pub on_engine_exited : LifecycleState → LifecycleStep
on_engine_exited s =
    let t = record s { engine_lease = EngineLease.absent } in
    if is_engaged s.media_session
    then (
      record t { media_session = faulted },
      record action_none { fail_mute = true; cancel_transport = true },
    )
    else (t, action_none)

unfoldable pub on_transport_open_suppressed : LifecycleState → LifecycleStep
on_transport_open_suppressed s =
    (if s.media_session is opening then record s { media_session = stopped } else s, action_none)

unfoldable pub on_media_started : LifecycleState → LifecycleStep
on_media_started s = (
  if s.physical_presence is PhysicalPresence.present
        && not s.hfp_suspended
        && s.render_demand is running
        && s.engine_lease is ready
        && s.media_session is opening
      then record s { media_session = streaming }
      else s,
  action_none,
)

unfoldable pub on_media_stopped : LifecycleState → LifecycleStep
on_media_stopped s = (
  record s {
    completed_media_sessions_for_generation =
        if s.allow_multiple_media_sessions
          && (s.media_session is streaming || s.media_session is stopping)
          && not (s.completed_media_sessions_for_generation == u32_max)
        then s.completed_media_sessions_for_generation + 1
        else s.completed_media_sessions_for_generation;
    media_session = stopped;
    engine_lease = EngineLease.absent;
  },
  action_none,
)

unfoldable pub on_transport_retryable_failure : LifecycleState → LifecycleStep
on_transport_retryable_failure s =
    let a = record action_none { fail_mute = true; cancel_transport = true; stop_engine = true } in
    let t = record s { engine_lease = EngineLease.absent } in
    if s.physical_presence is PhysicalPresence.present
      && s.render_demand is running
      && s.media_session is opening
      && ltb s.open_attempts_for_generation s.maximum_open_attempts
    then (record t { media_session = stopped }, record a { schedule_transport_retry = true })
    else (record t { media_session = faulted }, a)

unfoldable pub on_transport_retry_due : LifecycleState → LifecycleStep
on_transport_retry_due s =
    if s.physical_presence is PhysicalPresence.present
      && s.render_demand is running
      && s.engine_lease is EngineLease.absent
      && s.media_session is stopped
      && not (s.open_attempts_for_generation == 0)
      && ltb s.open_attempts_for_generation s.maximum_open_attempts
    then (record s { engine_lease = starting }, record action_none { start_engine = true })
    else (s, action_none)

unfoldable pub on_media_failed : LifecycleState → LifecycleStep
on_media_failed s = (
  record s { engine_lease = EngineLease.absent; media_session = faulted },
  record action_none {
    fail_mute = true;
    cancel_transport = not (s.media_session is stopped);
    stop_engine = not (s.engine_lease is EngineLease.absent);
  },
)
