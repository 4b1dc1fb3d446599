-- ===== src/Hfp/Tests.antt =====
-- Runs of agent/v1_hfp_switch_state.cpp at concrete states.
use native_ldac_xm5_windows.Generation.{is_newer_generation}
use native_ldac_xm5_windows.Hfp.Commands.{commanded, lifecycle_follows_switch}
use native_ldac_xm5_windows.Lifecycle.{
  PhysicalPresence, running, EngineLease, opening, streaming, LifecycleState, initial_lifecycle,
}
use native_ldac_xm5_windows.Hfp.Shadow.{
  ShadowInput, ShadowState, step_hfp_shadow, unsure_monitor_quiet,
}
use native_ldac_xm5_windows.Prelude.{
  bit, ◌+◌, ◌≡◌, refl, ◌≢◌, ◌⊎◌, inl, inr, true, false, [], ◌∷◌, arith,
}
use native_ldac_xm5_windows.Hfp.{
  ldac_available, hfp_active, release_delay, HfpSwitchInput, HfpSwitchState, enter_generation,
  step_capture, step_release, taken_up, step_current, step_hfp_switch,
}
use native_ldac_xm5_windows.Hfp.Invariant.{Inv}
use native_ldac_xm5_windows.Hfp.Protocol.{run, entries, exits, output_balanced, Ends}

abbrev in_call_state : HfpSwitchState
in_call_state = record {
  phase = hfp_active;
  acl_generation = 4;
  release_deadline_ms = 0;
  hfp_output_active = true;
}

abbrev hung_up : HfpSwitchInput
hung_up = record {
  acl_generation = 4;
  now_ms = 10000;
  physical_connected = true;
  capture_active = false;
  ldac_path_active = false;
  render_demand = true;
}

abbrev settled_input : HfpSwitchInput
settled_input = record hung_up { now_ms = 12000 }

abbrev delay_state : HfpSwitchState
delay_state = record in_call_state { phase = release_delay; release_deadline_ms = 12000 }

abbrev stale_input : HfpSwitchInput
stale_input = record hung_up { acl_generation = 3 }

hang_up_delays : (step_hfp_switch in_call_state hung_up).0 ≡ delay_state
unfolding step_hfp_switch is_newer_generation step_current step_release taken_up enter_generation
hang_up_delays = refl

in_call-Inv : Inv in_call_state
in_call-Inv = ground arith

output_balanced_example :
    bit in_call_state.hfp_output_active + entries in_call_state (hung_up ∷ settled_input ∷ [])
    ≡ bit (run in_call_state (hung_up ∷ settled_input ∷ [])).hfp_output_active
      + exits in_call_state (hung_up ∷ settled_input ∷ [])
output_balanced_example = output_balanced in_call_state (hung_up ∷ settled_input ∷ [])

call-Ends : Ends in_call_state hung_up settled_input
call-Ends = ground arith

-- A call comes in while LDAC streams.
abbrev ringing : HfpSwitchInput
ringing = record hung_up { capture_active = true; ldac_path_active = true }

abbrev idle_state : HfpSwitchState
idle_state = record in_call_state { phase = ldac_available; hfp_output_active = false }

abbrev playing_lifecycle : LifecycleState
playing_lifecycle = record initial_lifecycle {
  physical_presence = PhysicalPresence.present;
  render_demand = running;
  engine_lease = EngineLease.ready;
  media_session = streaming;
  maximum_open_attempts = 2;
}

lifecycle_follows_switch_example :
    let d = (step_hfp_switch idle_state ringing).1 in
    let t = commanded playing_lifecycle idle_state ringing 4 in
    (t.hfp_suspended ≡ d.actions.stop_ldac)
    × (((d.actions.stop_ldac ≡ true) × (t.media_session ≢ opening) × (t.media_session ≢ streaming))
        ⊎ ((d.actions.stop_ldac ≡ false) × (t.media_session ≡ playing_lifecycle.media_session)))
unfolding step_hfp_switch step_current step_capture taken_up enter_generation
lifecycle_follows_switch_example =
    lifecycle_follows_switch playing_lifecycle idle_state ringing (inl refl)

-- The monitor has lost its endpoint while the capture is still reported.
abbrev unsure_input : ShadowInput
unsure_input = record {
  capture = record { endpoint_matched = false; capture_active = true; sequence = 9 };
  acl_generation = 4;
  now_ms = 10000;
  monitor_ready = true;
  physical_connected = true;
  ldac_path_active = true;
  render_demand = true;
}

abbrev shadow_in_call : ShadowState
shadow_in_call = record { switch_state = in_call_state; capture_sequence = 8 }

unsure_monitor_quiet_example :
    let (t, d) = step_hfp_shadow shadow_in_call unsure_input in
    (d.switch_decision.actions.stop_ldac ≡ false)
    × (d.switch_decision.actions.enter_hfp_output ≡ false)
    × ((d.switch_decision.stale ≡ true) ⊎ (t.switch_state.phase ≢ hfp_active))
unsure_monitor_quiet_example = unsure_monitor_quiet shadow_in_call unsure_input (inr refl)
