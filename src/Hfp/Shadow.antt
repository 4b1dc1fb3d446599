-- ===== src/Hfp/Shadow.antt =====
-- agent/v1_hfp_shadow_state.h and .cpp: what the monitor of agent/v1_hfp_capture_monitor.h sees is
-- made the input of the switch.
use native_ldac_xm5_windows.Prelude.{◌==◌, ℕ, ◌≡◌, ◌≢◌, ◌⊎◌, Bool, true, false, not, ◌&&◌, arith}
use native_ldac_xm5_windows.Hfp.{
  hfp_active, HfpSwitchInput, HfpSwitchActions, HfpSwitchDecision, HfpSwitchState, snapshot,
  enter_generation, step_release, taken_up, step_current, step_hfp_switch,
}

-- The fields of `V1HfpCaptureSnapshot` that the shadow state reads.
pub record CaptureSnapshot : Type 0 where
  pub endpoint_matched : Bool
  pub capture_active : Bool
  pub sequence : ℕ

pub record ShadowInput : Type 0 where
  pub capture : CaptureSnapshot
  pub acl_generation : ℕ
  pub now_ms : ℕ
  pub monitor_ready : Bool
  pub physical_connected : Bool
  pub ldac_path_active : Bool
  pub render_demand : Bool

pub record ShadowDecision : Type 0 where
  pub switch_decision : HfpSwitchDecision
  pub snapshot_changed : Bool
  pub monitor_ready : Bool
  pub endpoint_matched : Bool
  pub capture_active : Bool
  pub capture_sequence : ℕ

pub record ShadowState : Type 0 where
  pub switch_state : HfpSwitchState
  pub capture_sequence : ℕ

abbrev pub switch_input : ShadowInput → HfpSwitchInput
switch_input i = record {
  acl_generation = i.acl_generation;
  now_ms = i.now_ms;
  physical_connected = i.physical_connected;
  capture_active = i.monitor_ready && i.capture.endpoint_matched && i.capture.capture_active;
  ldac_path_active = i.ldac_path_active;
  render_demand = i.render_demand;
}

pub step_hfp_shadow : ShadowState → ShadowInput → ShadowState × ShadowDecision
step_hfp_shadow s i =
    let (switched, decision) = step_hfp_switch s.switch_state (switch_input i) in
    (
      record { switch_state = switched; capture_sequence = i.capture.sequence },
      record {
        switch_decision = decision;
        snapshot_changed = not (i.capture.sequence == s.capture_sequence);
        monitor_ready = i.monitor_ready;
        endpoint_matched = i.monitor_ready && i.capture.endpoint_matched;
        capture_active = (switch_input i).capture_active;
        capture_sequence = i.capture.sequence;
      },
    )

-- Without a capture the parts of the switch's step neither stop LDAC nor enter the HFP output, and
-- leave no call standing.
release_quiet :
    (s : HfpSwitchState) (i : HfpSwitchInput) (a : HfpSwitchActions)
    → let (t, d) = step_release s i a in
      (d.actions.stop_ldac ≡ a.stop_ldac)
      × (d.actions.enter_hfp_output ≡ a.enter_hfp_output)
      × (t.phase ≢ hfp_active)
unfolding step_release
release_quiet s i a = ground arith

current_quiet :
    (s : HfpSwitchState) (a : HfpSwitchActions) (i : HfpSwitchInput)
    → i.capture_active ≡ false
    → let (t, d) = step_current (s, a) i in
      (d.actions.stop_ldac ≡ a.stop_ldac)
      × (d.actions.enter_hfp_output ≡ a.enter_hfp_output)
      × (t.phase ≢ hfp_active)
unfolding step_current
current_quiet s a i c = ground (arith, release_quiet (taken_up s) i a)

entered_quiet :
    (s : HfpSwitchState) (i : HfpSwitchInput)
    → ((enter_generation s i).1.stop_ldac ≡ false)
      × ((enter_generation s i).1.enter_hfp_output ≡ false)
unfolding enter_generation
entered_quiet s i = ground arith

no_capture_quiet :
    (s : HfpSwitchState) (i : HfpSwitchInput)
    → i.capture_active ≡ false
    → let (t, d) = step_hfp_switch s i in
      (d.actions.stop_ldac ≡ false)
      × (d.actions.enter_hfp_output ≡ false)
      × ((d.stale ≡ true) ⊎ (t.phase ≢ hfp_active))
unfolding step_hfp_switch snapshot
no_capture_quiet s i c =
    let (t, a) = enter_generation s i in ground (arith, entered_quiet s i, current_quiet t a i c)

-- While the monitor is not ready or its endpoint is not the headset's, no step of the shadow state
-- stops LDAC or enters the HFP output, whatever capture is reported, and after a step that is not
-- stale no call stands.
pub unsure_monitor_quiet :
    (s : ShadowState) (i : ShadowInput)
    → (i.monitor_ready ≡ false) ⊎ (i.capture.endpoint_matched ≡ false)
    → let (t, d) = step_hfp_shadow s i in
      (d.switch_decision.actions.stop_ldac ≡ false)
      × (d.switch_decision.actions.enter_hfp_output ≡ false)
      × ((d.switch_decision.stale ≡ true) ⊎ (t.switch_state.phase ≢ hfp_active))
unfolding step_hfp_shadow
unsure_monitor_quiet s i u = no_capture_quiet s.switch_state (switch_input i) (ground (arith, u))
