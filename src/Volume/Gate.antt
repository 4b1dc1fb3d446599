-- ===== src/Volume/Gate.antt =====
-- The gate part of agent/avrcp_absolute_volume_state.h and its .cpp: a volume decision leaves only
-- for the current link, with the owner's lease, in Synchronize mode and for a capable headset.
pub mod Quiet
pub mod Invariant
pub mod Epochs
use native_ldac_xm5_windows.Prelude.{
  ltb, ◌==◌, if◌then◌else◌, Enum, ◌is◌, u8, ℕ, Bool, true, false, not, ◌&&◌, ◌||◌,
}
use native_ldac_xm5_windows.Generation.{is_newer_generation, next_nonzero}
use native_ldac_xm5_windows.Volume.{
  VolumeSupport, unknown, supported, Xm5VolumeEvent, remote_notification, support_enum,
  xm5_event_enum, WindowsVolume, VolumeDecision, silent_volume, no_decision, has_actions,
  VolumeState, initial_volume_state, clamp_windows_volume, begin_volume_session,
  observe_windows_endpoint_volume, observe_xm5_absolute_volume,
}

pub data GateMode : Type 0 where
  observe_only synchronize : GateMode

instance abbrev pub gate_mode_enum : Enum GateMode
gate_mode_enum = record { value = elim [ observe_only ↦ 0 | synchronize ↦ 1 ] }

pub record GateDecision : Type 0 where
  pub volume : VolumeDecision
  pub acl_generation : ℕ
  pub owner_lease : ℕ
  pub authorization_epoch : ℕ

abbrev pub no_gate_decision : GateDecision
no_gate_decision = record {
  volume = no_decision;
  acl_generation = 0;
  owner_lease = 0;
  authorization_epoch = 0;
}

pub record GateState : Type 0 where
  pub acl_generation : ℕ
  pub acl_generation_current : Bool
  pub owner_lease : ℕ
  pub authorization_epoch : ℕ
  pub mode : GateMode
  pub observed_support : VolumeSupport
  pub windows_volume_observed : Bool
  pub last_windows_volume : WindowsVolume
  pub xm5_volume_observed : Bool
  pub last_xm5_volume : ℕ
  pub last_xm5_event : Xm5VolumeEvent
  pub reducer : VolumeState

abbrev pub initial_gate_state : GateState
initial_gate_state = record {
  acl_generation = 0;
  acl_generation_current = false;
  owner_lease = 0;
  authorization_epoch = 0;
  mode = observe_only;
  observed_support = unknown;
  windows_volume_observed = false;
  last_windows_volume = silent_volume;
  xm5_volume_observed = false;
  last_xm5_volume = 0;
  last_xm5_event = remote_notification;
  reducer = initial_volume_state;
}

abbrev pub GateStep : Type 0
GateStep = GateState × GateDecision

unfoldable pub is_current_acl_generation : GateState → ℕ → Bool
is_current_acl_generation s acl_generation =
    not (acl_generation == 0) && s.acl_generation_current && s.acl_generation == acl_generation

unfoldable pub gate_can_synchronize : GateState → Bool
gate_can_synchronize s =
    s.acl_generation_current
    && not (s.acl_generation == 0)
    && not (s.owner_lease == 0)
    && s.mode is synchronize
    && s.observed_support is supported
    && s.windows_volume_observed

unfoldable pub reset_gate_reducer : GateState → GateState
reset_gate_reducer s = record s { reducer = initial_volume_state }

unfoldable pub invalidate_gate_authorization : GateState → GateState
unfolding reset_gate_reducer
invalidate_gate_authorization s =
    reset_gate_reducer (record s { authorization_epoch = next_nonzero s.authorization_epoch })

unfoldable pub authorize_gate_decision : GateState → VolumeDecision → GateDecision
authorize_gate_decision s volume =
    if not (gate_can_synchronize s) || not (has_actions volume) then no_gate_decision else record {
      volume = volume;
      acl_generation = s.acl_generation;
      owner_lease = s.owner_lease;
      authorization_epoch = s.authorization_epoch;
    }

-- A reducer's step inside the gate: its new state is stored, its decision authorized.
unfoldable pub with_reducer : GateState → VolumeState × VolumeDecision → GateStep
with_reducer s (reducer, volume) =
    let t = record s { reducer = reducer } in (t, authorize_gate_decision t volume)

unfoldable pub activate_gate_if_authorized : GateState → GateStep
activate_gate_if_authorized s =
    if not (gate_can_synchronize s) || s.reducer.session_active
    then (s, no_gate_decision)
    else with_reducer (reset_gate_reducer s) (
        begin_volume_session (reset_gate_reducer s).reducer s.acl_generation supported
          s.last_windows_volume)

unfoldable pub begin_acl_generation : GateState → ℕ → GateStep
begin_acl_generation s acl_generation =
    if not (is_newer_generation acl_generation s.acl_generation) then (s, no_gate_decision) else (
      record (invalidate_gate_authorization
          (record initial_gate_state { authorization_epoch = s.authorization_epoch })) {
            acl_generation = acl_generation;
            acl_generation_current = true;
          },
      no_gate_decision,
    )

unfoldable pub set_gate_mode : GateState → ℕ → GateMode → GateStep
unfolding is_current_acl_generation
set_gate_mode s acl_generation mode =
    let t = record s { mode = mode } in
    if not (is_current_acl_generation s acl_generation)
    then (s, no_gate_decision)
    else if not (mode is synchronize)
    then (invalidate_gate_authorization t, no_gate_decision)
    else activate_gate_if_authorized t

unfoldable pub acquire_owner_lease : GateState → ℕ → ℕ → GateStep
unfolding is_current_acl_generation
acquire_owner_lease s acl_generation owner_lease =
    if owner_lease == 0
      || not (is_current_acl_generation s acl_generation)
      || not (s.owner_lease == 0) && not (s.owner_lease == owner_lease)
    then (s, no_gate_decision)
    else activate_gate_if_authorized (record s { owner_lease = owner_lease })

unfoldable pub revoke_owner_lease : GateState → ℕ → ℕ → GateStep
unfolding is_current_acl_generation
revoke_owner_lease s acl_generation owner_lease =
    if owner_lease == 0
      || not (is_current_acl_generation s acl_generation)
      || not (s.owner_lease == owner_lease)
    then (s, no_gate_decision)
    else (invalidate_gate_authorization (record s { owner_lease = 0 }), no_gate_decision)

unfoldable pub observe_capability : GateState → ℕ → VolumeSupport → GateStep
unfolding is_current_acl_generation
observe_capability s acl_generation support =
    let t = record s { observed_support = support } in
    if not (is_current_acl_generation s acl_generation)
    then (s, no_gate_decision)
    else if not (support is supported)
    then (invalidate_gate_authorization t, no_gate_decision)
    else activate_gate_if_authorized t

unfoldable pub observe_windows_through_gate : GateState → ℕ → WindowsVolume → GateStep
unfolding activate_gate_if_authorized with_reducer gate_can_synchronize is_current_acl_generation
    observe_windows_endpoint_volume clamp_windows_volume
observe_windows_through_gate s acl_generation observed =
    let t = record s {
      windows_volume_observed = true;
      last_windows_volume = clamp_windows_volume observed;
    } in
    if not (is_current_acl_generation s acl_generation)
    then (s, no_gate_decision)
    else if not (gate_can_synchronize t)
    then (t, no_gate_decision)
    else if not s.reducer.session_active
    then activate_gate_if_authorized t
    else with_reducer t
        (observe_windows_endpoint_volume t.reducer acl_generation t.last_windows_volume)

unfoldable pub observe_xm5_through_gate : GateState → ℕ → ℕ → Xm5VolumeEvent → GateStep
unfolding is_current_acl_generation
observe_xm5_through_gate s acl_generation xm5_absolute_volume event =
    let t = record s {
      xm5_volume_observed = true;
      last_xm5_volume = u8 xm5_absolute_volume;
      last_xm5_event = event;
    } in
    if ltb 127 xm5_absolute_volume || not (is_current_acl_generation s acl_generation)
    then (s, no_gate_decision)
    else if not (gate_can_synchronize t) || not t.reducer.session_active
    then (t, no_gate_decision)
    else with_reducer t
        (observe_xm5_absolute_volume t.reducer acl_generation xm5_absolute_volume event)

unfoldable pub end_acl_generation : GateState → ℕ → GateStep
unfolding is_current_acl_generation
end_acl_generation s acl_generation =
    if not (is_current_acl_generation s acl_generation) then (s, no_gate_decision) else (
      invalidate_gate_authorization (record s {
        acl_generation_current = false;
        owner_lease = 0;
        mode = observe_only;
        observed_support = unknown;
      }),
      no_gate_decision,
    )

unfoldable pub is_gate_decision_current : GateState → GateDecision → Bool
is_gate_decision_current s d =
    has_actions d.volume
    && gate_can_synchronize s
    && s.reducer.session_active
    && d.acl_generation == s.acl_generation
    && d.owner_lease == s.owner_lease
    && d.authorization_epoch == s.authorization_epoch
