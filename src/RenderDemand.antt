-- ===== src/RenderDemand.antt =====
-- agent/v1_render_demand_tracker.h and .cpp: two equal samples in a row turn the render demand.
pub mod Debounce
mod Tests
use native_ldac_xm5_windows.Prelude.{ltb, ◌==◌, if◌then◌else◌, ℕ, ◌+◌, ◌%◌, Bool, false, not, ◌||◌}

pub data DemandTransition : Type 0 where
  unchanged started stopped : DemandTransition

pub record DemandTracker : Type 0 where
  pub stable_running : Bool
  pub candidate_running : Bool
  pub candidate_samples : ℕ

-- The default members, which a reset restores.
abbrev pub reset_tracker : DemandTracker
reset_tracker = record { stable_running = false; candidate_running = false; candidate_samples = 0 }

abbrev pub confirmation_samples : ℕ
confirmation_samples = 2

-- `stream_active == tracker->stable_running` on two Booleans.
abbrev same : Bool → Bool → Bool
same a b = if a then b else not b

-- `candidate_samples` is an `unsigned int`.
pub observe_render_demand : DemandTracker → Bool → DemandTracker × DemandTransition
observe_render_demand t stream_active =
    let samples = (t.candidate_samples + 1) % 4294967296 in
    if same stream_active t.stable_running
    then (record t { candidate_running = stream_active; candidate_samples = 0 }, unchanged)
    else if t.candidate_samples == 0 || not (same t.candidate_running stream_active)
    then (record t { candidate_running = stream_active; candidate_samples = 1 }, unchanged)
    else if ltb samples confirmation_samples
    then (record t { candidate_samples = samples }, unchanged)
    else (
      record t { stable_running = stream_active; candidate_samples = 0 },
      if stream_active then started else stopped,
    )
