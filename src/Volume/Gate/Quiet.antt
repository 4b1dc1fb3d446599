-- ===== src/Volume/Gate/Quiet.antt =====
-- A volume that comes from Windows is never sent back to it: agent/avrcp_absolute_volume_state.cpp
-- and the gate around it.
use native_ldac_xm5_windows.Prelude.{if_rule, ℕ, ◌≡◌, refl, true, false, not, ◌||◌, arith}
use native_ldac_xm5_windows.Volume.{
  WindowsVolume, VolumeState, VolumeDecision, VolumeSupport, supported, clamp_windows_volume,
  send_authoritative_windows_volume, begin_volume_session, observe_windows_endpoint_volume,
}
use native_ldac_xm5_windows.Volume.Gate.{
  GateState, GateStep, gate_can_synchronize, is_current_acl_generation, activate_gate_if_authorized,
  authorize_gate_decision, with_reducer, reset_gate_reducer, observe_windows_through_gate,
}

send_quiet :
    (s : VolumeState) → (send_authoritative_windows_volume s).1.set_windows_endpoint ≡ false
unfolding send_authoritative_windows_volume
send_quiet s = ground arith

begin_quiet :
    (s : VolumeState) (g : ℕ) (claim : VolumeSupport) (v : WindowsVolume)
    → (begin_volume_session s g claim v).1.set_windows_endpoint ≡ false
unfolding begin_volume_session
begin_quiet s g claim v = ground arith

endpoint_quiet :
    (s : VolumeState) (g : ℕ) (v : WindowsVolume)
    → (observe_windows_endpoint_volume s g v).1.set_windows_endpoint ≡ false
unfolding observe_windows_endpoint_volume
endpoint_quiet s g v = ground arith

reducer_quiet :
    (s : GateState) (x : VolumeState × VolumeDecision)
    → x.1.set_windows_endpoint ≡ false
    → (with_reducer s x).1.volume.set_windows_endpoint ≡ false
unfolding with_reducer authorize_gate_decision
reducer_quiet s x h = ground (arith, h)

activate_quiet :
    (s : GateState) → (activate_gate_if_authorized s).1.volume.set_windows_endpoint ≡ false
unfolding activate_gate_if_authorized
activate_quiet s =
    let r = reset_gate_reducer s in
    let x = begin_volume_session r.reducer s.acl_generation supported s.last_windows_volume in
    if_rule (λ (y : GateStep). y.1.volume.set_windows_endpoint ≡ false)
      (not (gate_can_synchronize s) || s.reducer.session_active) _ _ (λ e. refl)
      (λ e.
        reducer_quiet r x (begin_quiet r.reducer s.acl_generation supported s.last_windows_volume))

pub gate_quiet :
    (s : GateState) (g : ℕ) (v : WindowsVolume)
    → (observe_windows_through_gate s g v).1.volume.set_windows_endpoint ≡ false
unfolding observe_windows_through_gate
gate_quiet s g v =
    let t = record s {
      windows_volume_observed = true;
      last_windows_volume = clamp_windows_volume v;
    } in
    if_rule (λ (y : GateStep). y.1.volume.set_windows_endpoint ≡ false)
      (not (is_current_acl_generation s g)) _ _ (λ e. refl)
      (λ e.
        if_rule (λ (y : GateStep). y.1.volume.set_windows_endpoint ≡ false)
          (not (gate_can_synchronize t)) _ _ (λ e1. refl)
          (λ e1.
            if_rule (λ (y : GateStep). y.1.volume.set_windows_endpoint ≡ false)
              (not s.reducer.session_active) _ _ (λ e2. activate_quiet t)
              (λ e2.
                reducer_quiet t (observe_windows_endpoint_volume t.reducer g t.last_windows_volume)
                  (endpoint_quiet t.reducer g t.last_windows_volume))))
