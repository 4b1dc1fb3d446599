-- ===== src/Lifecycle/Effects.antt =====
-- What the actions of one step of agent/v1_lifecycle.cpp tell, and what they leave behind.
use native_ldac_xm5_windows.Prelude.{◌is◌, ◌+◌, ◌≤◌, ◌<◌, ◌≡◌, ◌≢◌, ◌⊎◌, true, false, not, arith}
use native_ldac_xm5_windows.Lifecycle.{
  get_transport_retry_delay_ms, get_pcm_transport_retry_delay_ms, reduce_lifecycle,
  PhysicalPresence, running, EngineLease, starting, stopped, opening, streaming, presence_enum,
  render_enum, lease_enum, media_enum, LifecycleEvent, acl_disconnected, hfp_suspend_ldac,
  hfp_resume_ldac, engine_ready, engine_exited, transport_open_suppressed, media_stopped,
  transport_retry_due, watcher_lease_expired, action_none, LifecycleState, is_engaged,
}
use native_ldac_xm5_windows.Lifecycle.Invariant.{Inv}

-- A step whose actions open the transport is `EngineReady`, on a present link that is not
-- suspended, with an engine that is starting and an attempt left. It uses one attempt and leaves
-- the session opening.
open_transport_guarded :
    (s : LifecycleState) (e : LifecycleEvent)
    → (reduce_lifecycle s e).1.open_transport ≡ true
    → (e ≡ engine_ready)
      × (s.physical_presence ≡ PhysicalPresence.present)
      × (s.hfp_suspended ≡ false)
      × (s.engine_lease ≡ starting)
      × (s.open_attempts_for_generation < s.maximum_open_attempts)
      × ((reduce_lifecycle s e).0.media_session ≡ opening)
      × ((reduce_lifecycle s e).0.open_attempts_for_generation ≡ s.open_attempts_for_generation + 1)
unfolding reduce_lifecycle
open_transport_guarded s e h = ground arith

-- A step whose actions start the engine finds a present link with render demand and no engine, and
-- leaves the engine starting: it is never started twice.
start_engine_guarded :
    (s : LifecycleState) (e : LifecycleEvent)
    → (reduce_lifecycle s e).1.start_engine ≡ true
    → (s.physical_presence ≡ PhysicalPresence.present)
      × (s.engine_lease ≡ EngineLease.absent)
      × ((reduce_lifecycle s e).0.render_demand ≡ running)
      × ((reduce_lifecycle s e).0.engine_lease ≡ starting)
unfolding reduce_lifecycle
start_engine_guarded s e h = ground arith

-- In a state within the invariant, a step that ends an engine lease asks for the engine to be
-- stopped, unless the event itself says that the engine or the session has ended.
lease_end_stops :
    (s : LifecycleState) (e : LifecycleEvent)
    → Inv s
    → s.engine_lease ≢ EngineLease.absent
    → (reduce_lifecycle s e).0.engine_lease ≡ EngineLease.absent
    → ((reduce_lifecycle s e).1.stop_engine ≡ true) ⊎ (e ≡ engine_exited) ⊎ (e ≡ media_stopped)
unfolding reduce_lifecycle
lease_end_stops s e v h k = ground arith

-- In a state within the invariant, a step that takes a session out of Opening, Streaming and
-- Stopping cancels the transport, unless the event says that it was not opened or has stopped.
engaged_end_cancels :
    (s : LifecycleState) (e : LifecycleEvent)
    → Inv s
    → is_engaged s.media_session ≡ true
    → is_engaged (reduce_lifecycle s e).0.media_session ≡ false
    → ((reduce_lifecycle s e).1.cancel_transport ≡ true)
      ⊎ (e ≡ transport_open_suppressed)
      ⊎ (e ≡ media_stopped)
unfolding reduce_lifecycle
engaged_end_cancels s e v h k = ground arith

-- While HFP has the link and keeps it, a step opens no transport and brings no session to
-- Streaming, and it starts the engine only for a retry that falls due.
pub suspended_holds_back :
    (s : LifecycleState) (e : LifecycleEvent)
    → Inv s
    → s.hfp_suspended ≡ true
    → (reduce_lifecycle s e).0.hfp_suspended ≡ true
    → ((reduce_lifecycle s e).1.open_transport ≡ false)
      × ((reduce_lifecycle s e).0.media_session ≢ streaming)
      × (((reduce_lifecycle s e).1.start_engine ≡ false) ⊎ (e ≡ transport_retry_due))
unfolding reduce_lifecycle
suspended_holds_back s e v h k = ground arith

-- A retry that a failure schedules has a positive delay by both tables, where at most four attempts
-- are allowed; and if it falls due next, it starts the engine.
scheduled_retry_starts :
    (s : LifecycleState) (e : LifecycleEvent)
    → Inv s
    → s.maximum_open_attempts ≤ 4
    → (reduce_lifecycle s e).1.schedule_transport_retry ≡ true
    → let t = (reduce_lifecycle s e).0 in
      (0 < get_transport_retry_delay_ms t.open_attempts_for_generation)
      × (0 < get_pcm_transport_retry_delay_ms t.open_attempts_for_generation)
      × ((reduce_lifecycle t transport_retry_due).1.start_engine ≡ true)
unfolding reduce_lifecycle get_transport_retry_delay_ms get_pcm_transport_retry_delay_ms
scheduled_retry_starts s e v h k = ground arith

-- A lost link, by either event, mutes, withdraws the endpoint, cancels an engaged transport and
-- stops a leased engine, does nothing else, and leaves a state with nothing in flight.
disconnect_tears_down :
    (s : LifecycleState) (e : LifecycleEvent)
    → (e ≡ acl_disconnected) ⊎ (e ≡ watcher_lease_expired)
    → let (t, a) = reduce_lifecycle s e in
      (a ≡ record action_none {
        fail_mute = true;
        publish_endpoint_absent = true;
        cancel_transport = is_engaged s.media_session;
        stop_engine = not (s.engine_lease is EngineLease.absent);
      })
      × (t.physical_presence ≡ PhysicalPresence.absent)
      × (t.engine_lease ≡ EngineLease.absent)
      × (t.media_session ≡ stopped)
      × (t.acl_generation ≡ s.acl_generation)
unfolding reduce_lifecycle
disconnect_tears_down s e h = ground arith

-- What the two HFP events leave.
pub hfp_suspend_leaves :
    (s : LifecycleState)
    → let t = (reduce_lifecycle s hfp_suspend_ldac).0 in
      (t.hfp_suspended ≡ true) × (t.media_session ≢ opening) × (t.media_session ≢ streaming)
unfolding reduce_lifecycle
hfp_suspend_leaves s = ground arith

pub hfp_resume_leaves :
    (s : LifecycleState)
    → let t = (reduce_lifecycle s hfp_resume_ldac).0 in
      (t.hfp_suspended ≡ false) × (t.media_session ≡ s.media_session)
unfolding reduce_lifecycle
hfp_resume_leaves s = ground arith
