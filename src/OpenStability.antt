-- ===== src/OpenStability.antt =====
-- agent/v1_transport_open_stability.h and .cpp: rendering must run without a gap for a given time
-- before the transport is opened.
pub mod Stable
mod Tests
use native_ldac_xm5_windows.Prelude.{ltb, ◌==◌, if◌then◌else◌, ℕ, ◌-◌, Bool, true, false, not, ◌||◌}

pub data Observation : Type 0 where
  nothing reset ready cancelled : Observation

pub record StabilityGate : Type 0 where
  pub required_ms : ℕ
  pub acl_generation : ℕ
  pub render_epoch : ℕ
  pub running_since_ms : ℕ
  pub pending : Bool
  pub observing_running : Bool

abbrev pub empty_gate : StabilityGate
empty_gate = record {
  required_ms = 0;
  acl_generation = 0;
  render_epoch = 0;
  running_since_ms = 0;
  pending = false;
  observing_running = false;
}

pub cancel_open_stability : StabilityGate → StabilityGate
cancel_open_stability g = record empty_gate { required_ms = g.required_ms }

pub arm_open_stability : ℕ → ℕ → Bool → ℕ → ℕ → StabilityGate
arm_open_stability required_ms acl_generation render_running render_epoch now_ms =
    let armed = record empty_gate {
      required_ms = required_ms;
      acl_generation = acl_generation;
      pending = true;
    } in
    if render_running
    then record armed {
      render_epoch = render_epoch;
      running_since_ms = now_ms;
      observing_running = true;
    }
    else armed

-- `now_ms - running_since_ms` stands behind the test that it does not wrap.
pub observe_open_stability : StabilityGate → ℕ → Bool → ℕ → ℕ → StabilityGate × Observation
unfolding cancel_open_stability
observe_open_stability g acl_generation render_running render_epoch now_ms =
    if not g.pending
    then (g, nothing)
    else if not (acl_generation == g.acl_generation)
    then (cancel_open_stability g, cancelled)
    else if not render_running
    then if not g.observing_running
      then (g, nothing)
      else (record g { observing_running = false; render_epoch = 0; running_since_ms = 0 }, reset)
    else if not g.observing_running
    then (
      record g { observing_running = true; render_epoch = render_epoch; running_since_ms = now_ms },
      nothing,
    )
    else if not (render_epoch == g.render_epoch) || ltb now_ms g.running_since_ms
    then (record g { render_epoch = render_epoch; running_since_ms = now_ms }, reset)
    else if ltb (now_ms - g.running_since_ms) g.required_ms
    then (g, nothing)
    else (record g { pending = false; observing_running = false }, ready)
