-- ===== src/Volume/Gate/Epochs.antt =====
-- The authorization epochs of the gate of agent/avrcp_absolute_volume_state.cpp: a decision that
-- was queued before a permission was withdrawn is never taken for current again.
use native_ldac_xm5_windows.Generation.{is_newer_generation, next_nonzero}
use native_ldac_xm5_windows.Prelude.{
  Bool-cases, u64_max, length, ℕ, ◌+◌, ◌≤◌, ◌<◌, ◌≡◌, ◌≢◌, ◌⊎◌, inl, inr, true, false, List, [],
  ◌∷◌, arith,
}
use native_ldac_xm5_windows.Volume.{VolumeSupport, supported, initial_volume_state}
use native_ldac_xm5_windows.Volume.Gate.{
  GateMode, observe_only, GateDecision, GateState, is_current_acl_generation, gate_can_synchronize,
  invalidate_gate_authorization, with_reducer, activate_gate_if_authorized, begin_acl_generation,
  set_gate_mode, acquire_owner_lease, revoke_owner_lease, observe_capability,
  observe_windows_through_gate, observe_xm5_through_gate, end_acl_generation,
  is_gate_decision_current,
}
use native_ldac_xm5_windows.Volume.Gate.Invariant.{
  GateCall, begins_acl, ends_acl, sets_mode, acquires, revokes, observes_capability,
  observes_windows, observes_xm5, answer,
}

-- The calls that withdraw a permission in a state: a newer link, the end of the link, another mode
-- than Synchronize, the owner's release and a headset that is not capable.
pub data Withdraws (s : GateState) : GateCall → Type 0 where
  reconnects : (g : ℕ) → is_newer_generation g s.acl_generation ≡ true → Withdraws s (begins_acl g)
  disconnects : (g : ℕ) → is_current_acl_generation s g ≡ true → Withdraws s (ends_acl g)
  leaves :
      (g : ℕ) (mode : GateMode)
      → is_current_acl_generation s g ≡ true
      → mode ≡ observe_only
      → Withdraws s (sets_mode g mode)
  releases :
      (g l : ℕ)
      → is_current_acl_generation s g ≡ true
      → s.owner_lease ≡ l
      → 0 < l
      → Withdraws s (revokes g l)
  degrades :
      (g : ℕ) (claim : VolumeSupport)
      → is_current_acl_generation s g ≡ true
      → claim ≢ supported
      → Withdraws s (observes_capability g claim)

unfoldable pub run : GateState → List GateCall → GateState
run s [] = s
run s (c ∷ cs) = run (answer s c).0 cs

-- A call that withdraws a permission moves the epoch on, shuts the gate and clears the reducer.
pub Withdraws-shut :
    {s : GateState} {c : GateCall}
    → Withdraws s c
    → let t = (answer s c).0 in
      (t.authorization_epoch ≡ next_nonzero s.authorization_epoch)
      × (gate_can_synchronize t ≡ false)
      × (t.reducer ≡ initial_volume_state)
unfolding answer begin_acl_generation end_acl_generation set_gate_mode revoke_owner_lease
    observe_capability invalidate_gate_authorization gate_can_synchronize
Withdraws-shut (reconnects g h) = ground arith
Withdraws-shut (disconnects g h) = ground arith
Withdraws-shut (leaves g mode h k) = ground arith
Withdraws-shut (releases g l h k p) = ground arith
Withdraws-shut (degrades g claim h k) = ground arith

-- Every call leaves the epoch or moves it on by one.
answer_epoch :
    (s : GateState) (c : GateCall)
    → ((answer s c).0.authorization_epoch ≡ s.authorization_epoch)
      ⊎ ((answer s c).0.authorization_epoch ≡ next_nonzero s.authorization_epoch)
unfolding answer begin_acl_generation end_acl_generation set_gate_mode acquire_owner_lease
    revoke_owner_lease observe_capability observe_windows_through_gate observe_xm5_through_gate
    activate_gate_if_authorized invalidate_gate_authorization with_reducer
answer_epoch s (begins_acl g) = ground arith
answer_epoch s (ends_acl g) = ground arith
answer_epoch s (sets_mode g mode) = ground arith
answer_epoch s (acquires g l) = ground arith
answer_epoch s (revokes g l) = ground arith
answer_epoch s (observes_capability g claim) = ground arith
answer_epoch s (observes_windows g v) = ground arith
answer_epoch s (observes_xm5 g v e) = ground arith

answer_epoch_mono :
    (s : GateState) (c : GateCall)
    → s.authorization_epoch < u64_max
    → (s.authorization_epoch ≤ (answer s c).0.authorization_epoch)
      × ((answer s c).0.authorization_epoch ≤ s.authorization_epoch + 1)
unfolding next_nonzero
answer_epoch_mono s c h = ground (arith, answer_epoch s c)

run_epoch_mono :
    (s : GateState) (cs : List GateCall)
    → s.authorization_epoch + length cs ≤ u64_max
    → s.authorization_epoch ≤ (run s cs).authorization_epoch
unfolding run
run_epoch_mono s [] h = omega arith
run_epoch_mono s (c ∷ cs) h = omega (
  arith,
  answer_epoch_mono s c (omega arith),
  run_epoch_mono (answer s c).0 cs (omega (arith, answer_epoch_mono s c (omega arith))),
)

current-epoch :
    (s : GateState) (d : GateDecision)
    → is_gate_decision_current s d ≡ true
    → d.authorization_epoch ≡ s.authorization_epoch
unfolding is_gate_decision_current
current-epoch s d h = ground arith

-- A decision that was current when a permission was withdrawn is not current after it, nor after
-- any further calls, new links, leases and modes among them, while the 64-bit epoch does not wrap.
pub withdrawn_stays_stale :
    (s : GateState) (d : GateDecision) (c : GateCall) (cs : List GateCall)
    → is_gate_decision_current s d ≡ true
    → Withdraws s c
    → s.authorization_epoch + 1 + length cs ≤ u64_max
    → is_gate_decision_current (run s (c ∷ cs)) d ≡ false
unfolding run next_nonzero
withdrawn_stays_stale s d c cs h w fits =
    elim (Bool-cases (is_gate_decision_current (run (answer s c).0 cs) d)) [
      | inl again ↦ absurd (
          ground (
            arith,
            Withdraws-shut w,
            current-epoch s d h,
            current-epoch (run (answer s c).0 cs) d again,
            run_epoch_mono (answer s c).0 cs,
          ))
      | inr gone ↦ gone
    ]
