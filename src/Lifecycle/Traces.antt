-- ===== src/Lifecycle/Traces.antt =====
-- Histories of events of agent/v1_lifecycle.cpp, one after the other as the agent feeds them.
use native_ldac_xm5_windows.Prelude.{
  if◌then◌else◌, ℕ, ◌+◌, ◌≤◌, ◌<◌, ◌≡◌, Bool, true, false, List, [], ◌∷◌, arith,
}
use native_ldac_xm5_windows.Lifecycle.{
  reduce_lifecycle, PhysicalPresence, running, EngineLease, ready, opening, streaming,
  LifecycleEvent, acl_connected, acl_disconnected, render_started, hfp_suspend_ldac,
  hfp_resume_ldac, engine_ready, media_started, media_stopped, watcher_lease_expired,
  LifecycleActions, LifecycleState, initial_lifecycle,
}
use native_ldac_xm5_windows.Lifecycle.Invariant.{Inv, initial_options-Inv, reduce-Inv}

-- The state after a history.
unfoldable pub run : LifecycleState → List LifecycleEvent → LifecycleState
run s [] = s
run s (e ∷ es) = run (reduce_lifecycle s e).0 es

abbrev pub opens : LifecycleActions → ℕ
opens a = if a.open_transport then 1 else 0

-- How many times a history opens the transport.
pub count_opens : LifecycleState → List LifecycleEvent → ℕ
count_opens s [] = 0
count_opens s (e ∷ es) = opens (reduce_lifecycle s e).1 + count_opens (reduce_lifecycle s e).0 es

-- The events that begin no new link, and do not take the link back from HFP.
abbrev pub keeps_series : LifecycleEvent → Bool
keeps_series acl_connected = false
keeps_series acl_disconnected = false
keeps_series watcher_lease_expired = false
keeps_series hfp_resume_ldac = false
keeps_series _ = true

abbrev pub AllKeepSeries : List LifecycleEvent → Type 0
AllKeepSeries [] = Unit {0}
AllKeepSeries (e ∷ es) = (keeps_series e ≡ true) × AllKeepSeries es

-- The invariant holds after any history that starts within it.
pub run-Inv : (s : LifecycleState) (es : List LifecycleEvent) → Inv s → Inv (run s es)
unfolding run
run-Inv s [] h = h
run-Inv s (e ∷ es) h = run-Inv (reduce_lifecycle s e).0 es (reduce-Inv s e h)

-- A fresh state with a limit on the attempts and a setting of the two options.
abbrev pub configured : ℕ → Bool → Bool → LifecycleState
configured limit tolerate multiple = record initial_lifecycle {
  maximum_open_attempts = limit;
  tolerate_pretransport_render_gaps = tolerate;
  allow_multiple_media_sessions = multiple;
}

-- After any history that starts from a fresh state with any limit on the attempts and either
-- setting of the two options, a session that streams has a present link, render demand, a ready
-- engine, no HFP suspension, and between one and the limit of attempts used.
pub streaming_sound :
    (limit : ℕ) (tolerate multiple : Bool) (es : List LifecycleEvent)
    → (run (configured limit tolerate multiple) es).media_session ≡ streaming
    → let s = run (configured limit tolerate multiple) es in
      (s.physical_presence ≡ PhysicalPresence.present)
      × (s.render_demand ≡ running)
      × (s.engine_lease ≡ ready)
      × (s.hfp_suspended ≡ false)
      × (0 < s.open_attempts_for_generation)
      × (s.open_attempts_for_generation ≤ s.maximum_open_attempts)
streaming_sound limit tolerate multiple es h = ground (
  arith,
  run-Inv (configured limit tolerate multiple) es (initial_options-Inv limit tolerate multiple),
)

-- One event of a series pays for the transport that it opens with an attempt.
series-step :
    (s : LifecycleState) (e : LifecycleEvent)
    → s.allow_multiple_media_sessions ≡ false
    → keeps_series e ≡ true
    → ((reduce_lifecycle s e).0.open_attempts_for_generation
        ≡ s.open_attempts_for_generation + opens (reduce_lifecycle s e).1)
      × ((reduce_lifecycle s e).0.maximum_open_attempts ≡ s.maximum_open_attempts)
      × ((reduce_lifecycle s e).0.allow_multiple_media_sessions ≡ false)
unfolding reduce_lifecycle
series-step s e m k = ground arith

run-attempts :
    (s : LifecycleState) (es : List LifecycleEvent)
    → s.allow_multiple_media_sessions ≡ false
    → AllKeepSeries es
    → ((run s es).open_attempts_for_generation ≡ s.open_attempts_for_generation + count_opens s es)
      × ((run s es).maximum_open_attempts ≡ s.maximum_open_attempts)
unfolding run count_opens
run-attempts s [] m k = omega arith
run-attempts s (e ∷ es) m k =
    let (paid, limit, multiple) = series-step s e m k.0 in
    let rest = run-attempts (reduce_lifecycle s e).0 es multiple k.1 in ground arith

-- On one link, with no return from HFP and only one media session allowed, no history opens the
-- transport more often than the attempts that are left.
pub opens_bounded :
    (s : LifecycleState) (es : List LifecycleEvent)
    → Inv s
    → s.allow_multiple_media_sessions ≡ false
    → AllKeepSeries es
    → s.open_attempts_for_generation + count_opens s es ≤ s.maximum_open_attempts
opens_bounded s es v m k = ground (arith, run-Inv s es v, run-attempts s es m k)

-- A present link with no engine and an attempt series not yet begun reaches Streaming by render
-- demand, a ready engine and a started session, where HFP has not suspended it.
start_streams :
    (s : LifecycleState)
    → s.physical_presence ≡ PhysicalPresence.present
    → s.engine_lease ≡ EngineLease.absent
    → s.open_attempts_for_generation ≡ 0
    → 0 < s.maximum_open_attempts
    → s.hfp_suspended ≡ false
    → (run s (render_started ∷ engine_ready ∷ media_started ∷ [])).media_session ≡ streaming
unfolding run reduce_lifecycle
start_streams s p l a m h = ground arith

-- A streaming session that HFP takes over is stopped gracefully, and once it has stopped, the link
-- given back with demand still running starts the engine anew, with no attempt counted.
hfp_round_trip :
    (s : LifecycleState)
    → Inv s
    → s.media_session ≡ streaming
    → let t = run s (hfp_suspend_ldac ∷ media_stopped ∷ []) in
      ((reduce_lifecycle s hfp_suspend_ldac).1.graceful_stop_transport ≡ true)
      × ((reduce_lifecycle t hfp_resume_ldac).1.start_engine ≡ true)
      × ((reduce_lifecycle t hfp_resume_ldac).0.open_attempts_for_generation ≡ 0)
      × ((run t (hfp_resume_ldac ∷ engine_ready ∷ [])).media_session ≡ opening)
unfolding run reduce_lifecycle
hfp_round_trip s v h = ground arith
