-- ===== src/OpenStability/Tests.antt =====
-- Runs of agent/v1_transport_open_stability.cpp.
use native_ldac_xm5_windows.Prelude.{ℕ, ◌+◌, ◌≤◌, ◌≡◌, refl, ◌⊎◌, Bool, true, false, [], ◌∷◌, arith}
use native_ldac_xm5_windows.OpenStability.{StabilityGate, empty_gate, observe_open_stability}
use native_ldac_xm5_windows.OpenStability.Stable.{Sample, observe, run, ready_means_stable}

abbrev armed : StabilityGate
armed = record empty_gate {
  required_ms = 500;
  acl_generation = 1;
  render_epoch = 7;
  running_since_ms = 100;
  pending = true;
  observing_running = true;
}

abbrev sample : ℕ → Bool → ℕ → Sample
sample now running epoch = record {
  generation = 1;
  render_running = running;
  epoch = epoch;
  now = now;
}

-- A gap at 200, a new epoch from 300, and 500 ms of it at 800.
ready_means_stable_example :
    (((sample 200 false 7).render_running ≡ true)
      × ((sample 200 false 7).epoch ≡ (sample 800 true 8).epoch))
    ⊎ ((sample 200 false 7).now + armed.required_ms ≤ (sample 800 true 8).now)
unfolding run observe observe_open_stability
ready_means_stable_example =
    ready_means_stable armed (sample 200 false 7) (sample 300 true 8 ∷ sample 600 true 8 ∷ [])
      (sample 800 true 8) (omega arith) refl
