-- ===== src/Volume/Gate/Invariant.antt =====
-- What holds of the gate of agent/avrcp_absolute_volume_state.cpp between two calls, and what a
-- decision that it lets through may rely on.
use native_ldac_xm5_windows.Generation.{is_newer_generation, next_nonzero}
use native_ldac_xm5_windows.Prelude.{u64_max, u8, ℕ, ◌≤◌, ◌≡◌, ◌≢◌, true, arith}
use native_ldac_xm5_windows.Volume.{
  VolumeSupport, supported, Xm5VolumeEvent, WindowsVolume, VolumeDecision, has_actions, VolumeState,
  initial_volume_state, clamp_windows_volume, is_current_session, begin_volume_session,
  observe_windows_endpoint_volume, observe_xm5_absolute_volume,
}
use native_ldac_xm5_windows.Volume.Gate.{
  GateMode, GateState, GateStep, gate_can_synchronize, reset_gate_reducer,
  invalidate_gate_authorization, authorize_gate_decision, with_reducer, activate_gate_if_authorized,
  begin_acl_generation, set_gate_mode, acquire_owner_lease, revoke_owner_lease, observe_capability,
  observe_windows_through_gate, observe_xm5_through_gate, end_acl_generation,
  is_gate_decision_current,
}

-- A session of the reducer stands behind an open gate, for its link and with its Windows volume.
pub record Inv (s : GateState) : Type 0 where
  pub open_gate : s.reducer.session_active ≡ true → gate_can_synchronize s ≡ true
  pub same_generation : s.reducer.session_active ≡ true → s.reducer.generation ≡ s.acl_generation
  pub same_volume :
      s.reducer.session_active ≡ true → s.reducer.windows_volume ≡ s.last_windows_volume
  pub capable : s.reducer.session_active ≡ true → s.reducer.support ≡ supported
  pub known : s.reducer.session_active ≡ true → s.reducer.windows_volume_known ≡ true
  pub clamped : s.last_windows_volume.percent ≤ 100
  pub epoch_fits : s.authorization_epoch ≤ u64_max

pub data GateCall : Type 0 where
  begins_acl ends_acl : ℕ → GateCall
  sets_mode : ℕ → GateMode → GateCall
  acquires revokes : ℕ → ℕ → GateCall
  observes_capability : ℕ → VolumeSupport → GateCall
  observes_windows : ℕ → WindowsVolume → GateCall
  observes_xm5 : ℕ → ℕ → Xm5VolumeEvent → GateCall

unfoldable pub answer : GateState → GateCall → GateStep
answer s (begins_acl g) = begin_acl_generation s g
answer s (ends_acl g) = end_acl_generation s g
answer s (sets_mode g mode) = set_gate_mode s g mode
answer s (acquires g l) = acquire_owner_lease s g l
answer s (revokes g l) = revoke_owner_lease s g l
answer s (observes_capability g claim) = observe_capability s g claim
answer s (observes_windows g v) = observe_windows_through_gate s g v
answer s (observes_xm5 g v e) = observe_xm5_through_gate s g v e

-- The reducer's two observations, as the gate sees them.
windows_observed :
    (s : VolumeState) (g : ℕ) (w : WindowsVolume)
    → s.windows_volume_known ≡ true
    → s.support ≡ supported
    → is_current_session s g ≡ true
    → let t = (observe_windows_endpoint_volume s g w).0 in
      (t.session_active ≡ true)
      × (t.generation ≡ s.generation)
      × (t.support ≡ supported)
      × (t.windows_volume_known ≡ true)
      × (t.windows_volume ≡ clamp_windows_volume w)
unfolding observe_windows_endpoint_volume
windows_observed s g w k p c = ground arith

xm5_observed :
    (s : VolumeState) (g v : ℕ) (e : Xm5VolumeEvent)
    → let t = (observe_xm5_absolute_volume s g v e).0 in
      (t.session_active ≡ s.session_active)
      × (t.generation ≡ s.generation)
      × (t.support ≡ s.support)
      × (t.windows_volume_known ≡ s.windows_volume_known)
      × (t.windows_volume ≡ s.windows_volume)
unfolding observe_xm5_absolute_volume
xm5_observed s g v e = ground arith

session_begun :
    (g : ℕ) (w : WindowsVolume)
    → g ≢ 0
    → let t = (begin_volume_session initial_volume_state g supported w).0 in
      (t.session_active ≡ true)
      × (t.generation ≡ g)
      × (t.support ≡ supported)
      × (t.windows_volume_known ≡ true)
      × (t.windows_volume ≡ clamp_windows_volume w)
unfolding begin_volume_session is_newer_generation
session_begun g w h = ground arith

clamp_idem :
    (w : WindowsVolume) → clamp_windows_volume (clamp_windows_volume w) ≡ clamp_windows_volume w
unfolding clamp_windows_volume
clamp_idem w = ground arith

clamp_fixed : (w : WindowsVolume) → w.percent ≤ 100 → clamp_windows_volume w ≡ w
unfolding clamp_windows_volume
clamp_fixed w h = ground arith

can_synchronize-generation : (s : GateState) → gate_can_synchronize s ≡ true → s.acl_generation ≢ 0
unfolding gate_can_synchronize
can_synchronize-generation s h = ground arith

-- Every call keeps the invariant of the gate: its reducer has a session only while the gate may
-- synchronize, and then for the gate's link, its Windows volume and a capable headset; the Windows
-- volume is at most 100 and the epoch fits 64 bits.
gate_call-Inv : (s : GateState) (c : GateCall) → Inv s → Inv (answer s c).0
unfolding answer begin_acl_generation end_acl_generation set_gate_mode acquire_owner_lease
    revoke_owner_lease observe_capability observe_windows_through_gate observe_xm5_through_gate
    activate_gate_if_authorized invalidate_gate_authorization next_nonzero with_reducer
    gate_can_synchronize
gate_call-Inv s (begins_acl g) h = ground arith
gate_call-Inv s (ends_acl g) h = ground arith
gate_call-Inv s (sets_mode g mode) h =
    ground (
      arith,
      session_begun s.acl_generation s.last_windows_volume,
      clamp_fixed s.last_windows_volume,
    )
gate_call-Inv s (acquires g l) h =
    ground (
      arith,
      session_begun s.acl_generation s.last_windows_volume,
      clamp_fixed s.last_windows_volume,
    )
gate_call-Inv s (revokes g l) h = ground arith
gate_call-Inv s (observes_capability g claim) h =
    ground (
      arith,
      session_begun s.acl_generation s.last_windows_volume,
      clamp_fixed s.last_windows_volume,
    )
gate_call-Inv s (observes_windows g v) h = ground (
  arith,
  session_begun s.acl_generation (clamp_windows_volume v),
  clamp_idem v,
  windows_observed s.reducer g (clamp_windows_volume v),
)
gate_call-Inv s (observes_xm5 g v e) h = ground (arith, xm5_observed s.reducer g v e)

authorize-current :
    (s : GateState) (d : VolumeDecision)
    → s.reducer.session_active ≡ true
    → has_actions (authorize_gate_decision s d).volume ≡ true
    → is_gate_decision_current s (authorize_gate_decision s d) ≡ true
unfolding authorize_gate_decision is_gate_decision_current
authorize-current s d a h = ground arith

with_reducer-current :
    (s : GateState) (r : VolumeState × VolumeDecision)
    → r.0.session_active ≡ true
    → has_actions (with_reducer s r).1.volume ≡ true
    → is_gate_decision_current (with_reducer s r).0 (with_reducer s r).1 ≡ true
unfolding with_reducer
with_reducer-current s r a h = authorize-current (record s { reducer = r.0 }) r.1 a h

activate-current :
    (s : GateState)
    → has_actions (activate_gate_if_authorized s).1.volume ≡ true
    → is_gate_decision_current (activate_gate_if_authorized s).0 (activate_gate_if_authorized s).1
      ≡ true
unfolding activate_gate_if_authorized reset_gate_reducer
activate-current s h = ground (
  arith,
  can_synchronize-generation s,
  session_begun s.acl_generation s.last_windows_volume,
  with_reducer-current (reset_gate_reducer s)
      (begin_volume_session initial_volume_state s.acl_generation supported s.last_windows_volume),
)

-- A decision that a call gives out with an action is current in the state that the call leaves.
pub gate_call-current :
    (s : GateState) (c : GateCall)
    → Inv s
    → has_actions (answer s c).1.volume ≡ true
    → is_gate_decision_current (answer s c).0 (answer s c).1 ≡ true
unfolding answer begin_acl_generation end_acl_generation set_gate_mode acquire_owner_lease
    revoke_owner_lease observe_capability observe_windows_through_gate observe_xm5_through_gate
gate_call-current s (begins_acl g) v h = ground arith
gate_call-current s (ends_acl g) v h = ground arith
gate_call-current s (sets_mode g mode) v h =
    ground (arith, activate-current (record s { mode = mode }))
gate_call-current s (acquires g l) v h =
    ground (arith, activate-current (record s { owner_lease = l }))
gate_call-current s (revokes g l) v h = ground arith
gate_call-current s (observes_capability g claim) v h =
    ground (arith, activate-current (record s { observed_support = claim }))
gate_call-current s (observes_windows g w) v h =
    let t = record s {
      windows_volume_observed = true;
      last_windows_volume = clamp_windows_volume w;
    } in
    ground (
      arith,
      activate-current t,
      windows_observed s.reducer g (clamp_windows_volume w),
      with_reducer-current t (observe_windows_endpoint_volume s.reducer g (clamp_windows_volume w)),
    )
gate_call-current s (observes_xm5 g x e) v h =
    let t = record s { xm5_volume_observed = true; last_xm5_volume = u8 x; last_xm5_event = e } in
    ground (
      arith,
      xm5_observed s.reducer g x e,
      with_reducer-current t (observe_xm5_absolute_volume s.reducer g x e),
    )
