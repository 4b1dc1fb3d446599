-- ===== src/Hfp/Invariant.antt =====
-- What holds of the switch of agent/v1_hfp_switch_state.cpp between two steps.
use native_ldac_xm5_windows.Prelude.{◌≡◌, ◌≢◌, true, false, arith, ℕ_discrete}
use native_ldac_xm5_windows.Hfp.{
  disconnected, ldac_available, hfp_active, release_delay, HfpSwitchInput, HfpSwitchActions,
  HfpSwitchState, enter_generation, step_capture, step_release, taken_up, step_current,
  step_hfp_switch,
}

pub record Inv (s : HfpSwitchState) : Type 0 where
  pub active_output : s.phase ≡ hfp_active → s.hfp_output_active ≡ true
  pub disconnected_quiet : s.phase ≡ disconnected → s.hfp_output_active ≡ false
  pub available_quiet : s.phase ≡ ldac_available → s.hfp_output_active ≡ false
  pub deadline_only : s.phase ≢ release_delay → s.release_deadline_ms ≡ 0
  pub unlinked : s.acl_generation ≡ 0 → s.phase ≡ disconnected

enter-Inv :
    (s : HfpSwitchState) (i : HfpSwitchInput)
    → i.acl_generation ≢ 0
    → Inv s
    → Inv (enter_generation s i).0
unfolding enter_generation
enter-Inv s i l h = ground arith

-- Behind the branch for another generation the state is on the input's link.
pub enter_linked :
    (s : HfpSwitchState) (i : HfpSwitchInput)
    → (enter_generation s i).0.acl_generation ≡ i.acl_generation
unfolding enter_generation
enter_linked s i = ground arith

capture-Inv :
    (s : HfpSwitchState) (i : HfpSwitchInput) (a : HfpSwitchActions)
    → s.acl_generation ≢ 0
    → Inv s
    → Inv (step_capture s i a).0
unfolding step_capture
capture-Inv s i a l h = ground arith

release-Inv :
    (s : HfpSwitchState) (i : HfpSwitchInput) (a : HfpSwitchActions)
    → s.acl_generation ≢ 0
    → Inv s
    → Inv (step_release s i a).0
unfolding step_release
release-Inv s i a l h = ground arith

-- Taking a link up keeps the link, the output and the deadline.
pub taken_up_frame :
    (s : HfpSwitchState)
    → ((taken_up s).acl_generation ≡ s.acl_generation)
      × ((taken_up s).hfp_output_active ≡ s.hfp_output_active)
      × ((taken_up s).release_deadline_ms ≡ s.release_deadline_ms)
unfolding taken_up
taken_up_frame s = ground arith

taken_up-Inv : (s : HfpSwitchState) → s.acl_generation ≢ 0 → Inv s → Inv (taken_up s)
unfolding taken_up
taken_up-Inv s l h = ground arith

current-Inv :
    (s : HfpSwitchState) (a : HfpSwitchActions) (i : HfpSwitchInput)
    → s.acl_generation ≢ 0
    → Inv s
    → Inv (step_current (s, a) i).0
unfolding step_current
current-Inv s a i l h =
    let linked = taken_up_frame s in
    let taken = taken_up-Inv s l h in
    ground (
      arith,
      capture-Inv (taken_up s) i a (rw linked.0 l) taken,
      release-Inv (taken_up s) i a (rw linked.0 l) taken,
    )

linked-Inv :
    (s : HfpSwitchState) (i : HfpSwitchInput)
    → i.acl_generation ≢ 0
    → Inv s
    → Inv (step_current (enter_generation s i) i).0
linked-Inv s i link h =
    current-Inv (enter_generation s i).0 (enter_generation s i).1 i (rw (enter_linked s i) link)
      (enter-Inv s i link h)

-- Every step keeps the invariant of the switch.
step_hfp-Inv : (s : HfpSwitchState) (i : HfpSwitchInput) → Inv s → Inv (step_hfp_switch s i).0
unfolding step_hfp_switch
step_hfp-Inv s i h = elim (ℕ_discrete i.acl_generation 0) [
  | yes unlinked ↦ rw unlinked h
  | no link ↦ ground (arith, link, linked-Inv s i link h)
]
