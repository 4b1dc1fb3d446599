-- ===== src/Lifecycle/Invariant.antt =====
-- What holds of the lifecycle between two events of agent/v1_lifecycle.cpp.
use native_ldac_xm5_windows.Prelude.{
  u64_max, u32_max, ℕ, ◌≤◌, ◌<◌, ◌≡◌, ◌≢◌, Bool, true, false, arith,
}
use native_ldac_xm5_windows.Lifecycle.{
  is_engaged, reduce_lifecycle, PhysicalPresence, running, EngineLease, ready, opening, streaming,
  LifecycleEvent, LifecycleState, initial_lifecycle,
}

pub record Inv (s : LifecycleState) : Type 0 where
  pub attempts_bounded : s.open_attempts_for_generation ≤ s.maximum_open_attempts
  pub leased_present :
      s.engine_lease ≢ EngineLease.absent → s.physical_presence ≡ PhysicalPresence.present
  pub ready_attempted : s.engine_lease ≡ ready → 0 < s.open_attempts_for_generation
  pub engaged_ready : is_engaged s.media_session ≡ true → s.engine_lease ≡ ready
  pub opening_unsuspended : s.media_session ≡ opening → s.hfp_suspended ≡ false
  pub streaming_unsuspended : s.media_session ≡ streaming → s.hfp_suspended ≡ false
  pub streaming_running : s.media_session ≡ streaming → s.render_demand ≡ running
  pub generation_set : s.physical_presence ≡ PhysicalPresence.present → 0 < s.acl_generation
  pub generation_fits : s.acl_generation ≤ u64_max
  pub completed_fits : s.completed_media_sessions_for_generation ≤ u32_max

-- A fresh state, with any limit on the attempts and either setting of the two options.
pub initial_options-Inv :
    (limit : ℕ) (tolerate multiple : Bool)
    → Inv (record initial_lifecycle {
      maximum_open_attempts = limit;
      tolerate_pretransport_render_gaps = tolerate;
      allow_multiple_media_sessions = multiple;
    })
initial_options-Inv limit tolerate multiple = ground arith

-- Every event keeps the invariant: the attempts stay within their limit, only a present link has an
-- engine, a ready engine has used an attempt, a session that opens, streams or stops has a ready
-- engine, one that opens or streams is not suspended, one that streams has render demand, and the
-- generation and the count of sessions fit their words.
pub reduce-Inv : (s : LifecycleState) (e : LifecycleEvent) → Inv s → Inv (reduce_lifecycle s e).0
unfolding reduce_lifecycle
reduce-Inv s e h = ground arith
