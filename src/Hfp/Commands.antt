-- ===== src/Hfp/Commands.antt =====
-- From a step of agent/v1_hfp_switch_state.cpp by the plan of agent/v1_hfp_lifecycle_adapter.cpp
-- to the lifecycle of agent/v1_lifecycle.cpp.
use native_ldac_xm5_windows.Prelude.{ℕ, ◌≡◌, sym, ◌∙◌, ◌≢◌, ◌⊎◌, inl, inr, true, false, arith}
use native_ldac_xm5_windows.Lifecycle.{
  reduce_lifecycle, opening, streaming, hfp_suspend_ldac, hfp_resume_ldac, LifecycleState,
}
use native_ldac_xm5_windows.Hfp.{
  HfpSwitchInput, HfpSwitchActions, HfpSwitchDecision, HfpSwitchState, snapshot, enter_generation,
  step_capture, step_release, step_current, step_hfp_switch, plan_hfp_lifecycle,
  hfp_lifecycle_event_for_command,
}
use native_ldac_xm5_windows.Hfp.Invariant.{enter_linked, taken_up_frame}
use native_ldac_xm5_windows.Lifecycle.Effects.{hfp_suspend_leaves, hfp_resume_leaves}
use native_ldac_xm5_windows.Hfp.Protocol.{stale_input_ignored, resume_guarded}

-- The lifecycle after the command that the adapter makes of a step of the switch.
abbrev pub commanded : LifecycleState → HfpSwitchState → HfpSwitchInput → ℕ → LifecycleState
commanded l s i current =
    (reduce_lifecycle l (
      hfp_lifecycle_event_for_command
        (plan_hfp_lifecycle (step_hfp_switch s i).1 current true).command)).0

stop_command :
    (d : HfpSwitchDecision) (g : ℕ)
    → d.stale ≡ false
    → d.acl_generation ≡ g
    → g ≢ 0
    → d.actions.stop_ldac ≡ true
    → d.actions.resume_ldac ≡ false
    → hfp_lifecycle_event_for_command (plan_hfp_lifecycle d g true).command ≡ hfp_suspend_ldac
unfolding plan_hfp_lifecycle hfp_lifecycle_event_for_command
stop_command d g f e l p r = ground arith

resume_command_event :
    (d : HfpSwitchDecision) (g : ℕ)
    → d.stale ≡ false
    → d.acl_generation ≡ g
    → g ≢ 0
    → d.actions.stop_ldac ≡ false
    → d.actions.resume_ldac ≡ true
    → hfp_lifecycle_event_for_command (plan_hfp_lifecycle d g true).command ≡ hfp_resume_ldac
unfolding plan_hfp_lifecycle hfp_lifecycle_event_for_command
resume_command_event d g f e l p r = ground arith

-- A stale decision asks for nothing, so one that stops LDAC or gives it back is not stale, and no
-- decision does both.
stop_alone :
    (s : HfpSwitchState) (i : HfpSwitchInput)
    → (step_hfp_switch s i).1.actions.stop_ldac ≡ true
    → ((step_hfp_switch s i).1.actions.resume_ldac ≡ false)
      × ((step_hfp_switch s i).1.stale ≡ false)
stop_alone s i h = ground (arith, resume_guarded s i, stale_input_ignored s i)

resume_alone :
    (s : HfpSwitchState) (i : HfpSwitchInput)
    → (step_hfp_switch s i).1.actions.resume_ldac ≡ true
    → ((step_hfp_switch s i).1.actions.stop_ldac ≡ false) × ((step_hfp_switch s i).1.stale ≡ false)
resume_alone s i h = ground (arith, resume_guarded s i, stale_input_ignored s i)

current_generation :
    (s : HfpSwitchState) (a : HfpSwitchActions) (i : HfpSwitchInput)
    → (step_current (s, a) i).1.acl_generation ≡ s.acl_generation
unfolding step_current step_capture step_release
current_generation s a i = ground (arith, taken_up_frame s)

-- A decision that is not stale is for the link of the input.
decision_linked :
    (s : HfpSwitchState) (i : HfpSwitchInput)
    → (step_hfp_switch s i).1.stale ≡ false
    → ((step_hfp_switch s i).1.acl_generation ≡ i.acl_generation) × (i.acl_generation ≢ 0)
unfolding step_hfp_switch snapshot
decision_linked s i h =
    let (t, a) = enter_generation s i in ground (arith, enter_linked s i, current_generation t a i)

-- Where the transport may be switched and the link is the input's, a step that stops LDAC suspends
-- the lifecycle: no session opens or streams any more.
stop_suspends_lifecycle :
    (l : LifecycleState) (s : HfpSwitchState) (i : HfpSwitchInput)
    → (step_hfp_switch s i).1.actions.stop_ldac ≡ true
    → let t = commanded l s i i.acl_generation in
      (t.hfp_suspended ≡ true) × (t.media_session ≢ opening) × (t.media_session ≢ streaming)
stop_suspends_lifecycle l s i h =
    let (quiet, fresh) = stop_alone s i h in
    let (same, linked) = decision_linked s i fresh in
    rw (commanded, stop_command (step_hfp_switch s i).1 i.acl_generation fresh same linked h quiet)
      (hfp_suspend_leaves l)

-- And one that gives LDAC back lifts the suspension, and leaves the media session to the events
-- that follow.
resume_lifts_suspension :
    (l : LifecycleState) (s : HfpSwitchState) (i : HfpSwitchInput)
    → (step_hfp_switch s i).1.actions.resume_ldac ≡ true
    → let t = commanded l s i i.acl_generation in
      (t.hfp_suspended ≡ false) × (t.media_session ≡ l.media_session)
resume_lifts_suspension l s i h =
    let (quiet, fresh) = resume_alone s i h in
    let (same, linked) = decision_linked s i fresh in
    rw
      (
        commanded,
        resume_command_event (step_hfp_switch s i).1 i.acl_generation fresh same linked quiet h,
      )
      (hfp_resume_leaves l)

-- Where the transport may be switched and the link is the input's, the command that comes of a
-- step which stops LDAC or gives it back leaves the lifecycle suspended exactly if LDAC was
-- stopped: then no session opens or streams any more, and otherwise the media session is as it was.
pub lifecycle_follows_switch :
    (l : LifecycleState) (s : HfpSwitchState) (i : HfpSwitchInput)
    → ((step_hfp_switch s i).1.actions.stop_ldac ≡ true)
      ⊎ ((step_hfp_switch s i).1.actions.resume_ldac ≡ true)
    → let d = (step_hfp_switch s i).1 in
      let t = commanded l s i i.acl_generation in
      (t.hfp_suspended ≡ d.actions.stop_ldac)
      × (((d.actions.stop_ldac ≡ true)
            × (t.media_session ≢ opening)
            × (t.media_session ≢ streaming))
          ⊎ ((d.actions.stop_ldac ≡ false) × (t.media_session ≡ l.media_session)))
lifecycle_follows_switch l s i (inl stops) =
    let (suspended, closed, silent) = stop_suspends_lifecycle l s i stops in
    (suspended ∙ sym stops, inl (stops, closed, silent))
lifecycle_follows_switch l s i (inr resumes) =
    let (lifted, same) = resume_lifts_suspension l s i resumes in
    let kept = (resume_alone s i resumes).0 in (lifted ∙ sym kept, inr (kept, same))
