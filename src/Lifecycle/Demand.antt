-- ===== src/Lifecycle/Demand.antt =====
-- The cases of agent/v1_lifecycle.cpp for the link, for the render demand and for HFP.
use native_ldac_xm5_windows.Prelude.{
  ◌==◌, if◌then◌else◌, ◌is◌, u64_max, ℕ, ◌+◌, true, false, not, ◌&&◌, ◌||◌,
}
use native_ldac_xm5_windows.Lifecycle.State.{
  PhysicalPresence, idle, running, EngineLease, starting, stopped, opening, streaming, stopping,
  faulted, presence_enum, render_enum, lease_enum, media_enum, LifecycleActions, action_none,
  LifecycleState, LifecycleStep, is_engaged,
}

disconnect_actions : LifecycleState → LifecycleActions
disconnect_actions s = record action_none {
  fail_mute = true;
  publish_endpoint_absent = true;
  cancel_transport = is_engaged s.media_session;
  stop_engine = not (s.engine_lease is EngineLease.absent);
}

reset_disconnected_state : LifecycleState → LifecycleState
reset_disconnected_state s = record s {
  physical_presence = PhysicalPresence.absent;
  render_demand = idle;
  engine_lease = EngineLease.absent;
  media_session = stopped;
  open_attempts_for_generation = 0;
  completed_media_sessions_for_generation = 0;
  hfp_suspended = false;
}

unfoldable pub on_acl_connected : LifecycleState → LifecycleStep
on_acl_connected s = if s.physical_presence is PhysicalPresence.present then (s, action_none) else (
  record s {
    physical_presence = PhysicalPresence.present;
    render_demand = idle;
    engine_lease = EngineLease.absent;
    media_session = stopped;
    open_attempts_for_generation = 0;
    completed_media_sessions_for_generation = 0;
    hfp_suspended = false;
    acl_generation = if s.acl_generation == u64_max then 1 else s.acl_generation + 1;
  },
  record action_none { publish_endpoint_present = true },
)

unfoldable pub on_acl_disconnected : LifecycleState → LifecycleStep
unfolding disconnect_actions reset_disconnected_state
on_acl_disconnected s = (reset_disconnected_state s, disconnect_actions s)

-- The attempts after a render edge: a fresh edge opens a new series of attempts.
attempts_after_edge : LifecycleState → ℕ
attempts_after_edge s =
    if s.render_demand is idle
      && s.allow_multiple_media_sessions
      && s.physical_presence is PhysicalPresence.present
      && s.engine_lease is EngineLease.absent
      && s.media_session is stopped
      && not (s.open_attempts_for_generation == 0)
    then 0
    else s.open_attempts_for_generation

-- What follows the edge in the same case, with the demand and the attempts as they stand there.
start_if_due : LifecycleState → LifecycleStep
start_if_due s =
    if s.physical_presence is PhysicalPresence.present
      && s.engine_lease is EngineLease.absent
      && s.open_attempts_for_generation == 0
    then (record s { engine_lease = starting }, record action_none { start_engine = true })
    else (s, action_none)

unfoldable pub on_render_started : LifecycleState → LifecycleStep
unfolding attempts_after_edge start_if_due
on_render_started s =
    if s.hfp_suspended
    then (record s { render_demand = running }, action_none)
    else start_if_due
        (record s { render_demand = running; open_attempts_for_generation = attempts_after_edge s })

-- The graceful stop of a present link, and the cancellation of an absent one.
stop_transport : LifecycleState → LifecycleActions → LifecycleActions
stop_transport s a =
    if s.physical_presence is PhysicalPresence.present
    then record a { graceful_stop_transport = true }
    else record a { cancel_transport = true }

stop_engine_if_leased : LifecycleState → LifecycleActions
stop_engine_if_leased s = record action_none {
  stop_engine = not (s.engine_lease is EngineLease.absent);
}

unfoldable pub on_render_stopped : LifecycleState → LifecycleStep
unfolding stop_transport stop_engine_if_leased
on_render_stopped s =
    let t = record s { render_demand = idle } in
    if s.tolerate_pretransport_render_gaps
      && not (s.media_session is streaming)
      && not (s.media_session is stopping)
      && not (s.media_session is faulted)
      && not (s.engine_lease is EngineLease.absent)
    then (t, action_none)
    else if s.media_session is opening || s.media_session is streaming
    then (record t { media_session = stopping }, stop_transport s (stop_engine_if_leased s))
    else if s.media_session is faulted && not s.allow_multiple_media_sessions
    then (record t { media_session = stopped }, stop_engine_if_leased s)
    else (t, stop_engine_if_leased s)

unfoldable pub on_hfp_suspend : LifecycleState → LifecycleStep
unfolding stop_transport stop_engine_if_leased
on_hfp_suspend s =
    let t = record s { hfp_suspended = true } in
    if is_engaged s.media_session
    then (record t { media_session = stopping }, stop_transport s (stop_engine_if_leased s))
    else (t, stop_engine_if_leased s)

unfoldable pub on_hfp_resume : LifecycleState → LifecycleStep
on_hfp_resume s =
    let t = record s { hfp_suspended = false } in
    if not s.hfp_suspended
    then (s, action_none)
    else if s.physical_presence is PhysicalPresence.present
        && s.render_demand is running
        && s.engine_lease is EngineLease.absent
        && s.media_session is stopped
    then (
      record t { open_attempts_for_generation = 0; engine_lease = starting },
      record action_none { start_engine = true },
    )
    else (t, action_none)
