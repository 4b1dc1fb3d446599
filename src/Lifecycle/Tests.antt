-- ===== src/Lifecycle/Tests.antt =====
-- Runs of the reducer of agent/v1_lifecycle.cpp at concrete states.
use native_ldac_xm5_windows.Prelude.{
  ◌+◌, ◌≤◌, ◌<◌, ◌≡◌, refl, ◌≢◌, ◌⊎◌, true, false, List, [], ◌∷◌, arith,
}
use native_ldac_xm5_windows.Lifecycle.{
  reduce_lifecycle, PhysicalPresence, running, starting, ready, opening, streaming, stopping,
  LifecycleEvent, acl_connected, render_started, render_stopped, engine_ready, media_started,
  transport_retryable_failure, transport_retry_due, LifecycleState, initial_lifecycle,
}
use native_ldac_xm5_windows.Lifecycle.Invariant.{Inv, reduce-Inv}
use native_ldac_xm5_windows.Lifecycle.Effects.{suspended_holds_back}
use native_ldac_xm5_windows.Lifecycle.Traces.{run, count_opens, streaming_sound, opens_bounded}

abbrev connected : LifecycleState
connected = record initial_lifecycle {
  physical_presence = PhysicalPresence.present;
  acl_generation = 1;
}

abbrev awaiting_engine : LifecycleState
awaiting_engine = record connected { render_demand = running; engine_lease = starting }

abbrev opening_session : LifecycleState
opening_session = record awaiting_engine {
  engine_lease = ready;
  media_session = opening;
  open_attempts_for_generation = 1;
}

abbrev live : LifecycleState
live = record opening_session { media_session = streaming }

abbrev suspended : LifecycleState
suspended = record live { media_session = stopping; hfp_suspended = true }

abbrev between_retries : LifecycleState
between_retries = record connected {
  render_demand = running;
  open_attempts_for_generation = 1;
  hfp_suspended = true;
}

connected_streams : run connected (render_started ∷ engine_ready ∷ media_started ∷ []) ≡ live
unfolding run reduce_lifecycle
connected_streams = refl

-- A retry that falls due starts the engine also while HFP holds the link.
retry_while_suspended : (reduce_lifecycle between_retries transport_retry_due).1.start_engine ≡ true
unfolding reduce_lifecycle
retry_while_suspended = refl

live-Inv : Inv live
live-Inv = ground arith

suspended-Inv : Inv suspended
suspended-Inv = ground arith

opening-Inv : Inv opening_session
opening-Inv = ground arith

connected-Inv : Inv connected
connected-Inv = ground arith

reduce-Inv_example : Inv (reduce_lifecycle live render_stopped).0
reduce-Inv_example = reduce-Inv live render_stopped live-Inv

suspended_holds_back_example :
    ((reduce_lifecycle suspended render_started).1.open_transport ≡ false)
    × ((reduce_lifecycle suspended render_started).0.media_session ≢ streaming)
    × (((reduce_lifecycle suspended render_started).1.start_engine ≡ false)
        ⊎ (render_started ≡ transport_retry_due))
unfolding reduce_lifecycle
suspended_holds_back_example = suspended_holds_back suspended render_started suspended-Inv refl refl

abbrev first_session : List LifecycleEvent
first_session = acl_connected ∷ render_started ∷ engine_ready ∷ media_started ∷ []

abbrev one_session : LifecycleState
one_session = record initial_lifecycle {
  maximum_open_attempts = 2;
  tolerate_pretransport_render_gaps = true;
  allow_multiple_media_sessions = false;
}

streaming_sound_example :
    let s = run one_session first_session in
    (s.physical_presence ≡ PhysicalPresence.present)
    × (s.render_demand ≡ running)
    × (s.engine_lease ≡ ready)
    × (s.hfp_suspended ≡ false)
    × (0 < s.open_attempts_for_generation)
    × (s.open_attempts_for_generation ≤ s.maximum_open_attempts)
unfolding run reduce_lifecycle
streaming_sound_example = streaming_sound 2 true false first_session refl

opens_bounded_example :
    connected.open_attempts_for_generation
      + count_opens connected (
          render_started ∷ engine_ready ∷ transport_retryable_failure ∷ transport_retry_due
          ∷ engine_ready ∷ [])
    ≤ connected.maximum_open_attempts
opens_bounded_example =
    opens_bounded connected
      (render_started ∷ engine_ready ∷ transport_retryable_failure ∷ transport_retry_due
        ∷ engine_ready ∷ [])
      connected-Inv refl (refl, (refl, (refl, (refl, (refl, tt)))))
