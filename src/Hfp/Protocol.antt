-- ===== src/Hfp/Protocol.antt =====
-- What the actions of agent/v1_hfp_switch_state.cpp promise over a history, and what
-- agent/v1_hfp_lifecycle_adapter.cpp makes of them.
use native_ldac_xm5_windows.Prelude.{
  u64_max, u64, bit, ℕ, ◌+◌, ◌≤◌, ◌≡◌, refl, ◌≢◌, ◌↔◌, ◌⊎◌, Bool, true, false, List, [], ◌∷◌, arith,
}
use native_ldac_xm5_windows.Hfp.{
  disconnected, ldac_available, hfp_active, release_delay, hfp_release_stability_ms, HfpSwitchInput,
  HfpSwitchActions, hfp_action_none, HfpSwitchState, HfpSwitchStep, snapshot, enter_generation,
  step_capture, step_release, taken_up, step_current, step_hfp_switch, no_command, suspend_command,
  plan_hfp_lifecycle,
}
use native_ldac_xm5_windows.Hfp.Invariant.{Inv, taken_up_frame}

-- An input that a step calls stale: no generation, or one that is older than the switch's.
abbrev pub is_stale : HfpSwitchState → HfpSwitchInput → Bool
is_stale s i = (step_hfp_switch s i).1.stale

current_fresh :
    (s : HfpSwitchState) (a : HfpSwitchActions) (i : HfpSwitchInput)
    → (step_current (s, a) i).1.stale ≡ false
unfolding step_current step_capture step_release
current_fresh s a i = ground arith

-- A stale input changes nothing and asks for nothing.
pub stale_input_ignored :
    (s : HfpSwitchState) (i : HfpSwitchInput)
    → is_stale s i ≡ true
    → ((step_hfp_switch s i).0 ≡ s) × ((step_hfp_switch s i).1.actions ≡ hfp_action_none)
unfolding step_hfp_switch snapshot
stale_input_ignored s i h =
    ground (arith, current_fresh (enter_generation s i).0 (enter_generation s i).1 i)

-- What each part of a step asks for balances with the output that it leaves, on top of what the
-- part before it asked for.
abbrev Balanced : HfpSwitchState → HfpSwitchActions → HfpSwitchStep → Type 0
Balanced s a (t, d) =
    bit s.hfp_output_active + bit a.exit_hfp_output + bit d.actions.enter_hfp_output
    ≡ bit t.hfp_output_active + bit d.actions.exit_hfp_output + bit a.enter_hfp_output

capture-Balanced :
    (s : HfpSwitchState) (i : HfpSwitchInput) (a : HfpSwitchActions)
    → a.enter_hfp_output ≡ false
    → Balanced s a (step_capture s i a)
unfolding step_capture
capture-Balanced s i a e = ground arith

release-Balanced :
    (s : HfpSwitchState) (i : HfpSwitchInput) (a : HfpSwitchActions)
    → (s.hfp_output_active ≡ false) ⊎ (a.exit_hfp_output ≡ false)
    → Balanced s a (step_release s i a)
unfolding step_release
release-Balanced s i a e = ground arith

current-Balanced :
    (s : HfpSwitchState) (a : HfpSwitchActions) (i : HfpSwitchInput)
    → a.enter_hfp_output ≡ false
    → (s.hfp_output_active ≡ false) ⊎ (a.exit_hfp_output ≡ false)
    → Balanced s a (step_current (s, a) i)
unfolding step_current
current-Balanced s a i e o = ground (
  arith,
  taken_up_frame s,
  capture-Balanced (taken_up s) i a e,
  release-Balanced (taken_up s) i a (rw (taken_up_frame s).1 o),
)

-- Another generation asks to leave the output that stood, and leaves none.
enter_balance :
    (s : HfpSwitchState) (i : HfpSwitchInput)
    → let (t, a) = enter_generation s i in
      (bit s.hfp_output_active ≡ bit t.hfp_output_active + bit a.exit_hfp_output)
      × (a.enter_hfp_output ≡ false)
      × (a.resume_ldac ≡ false)
      × (a.stop_ldac ≡ false)
unfolding enter_generation
enter_balance s i = ground arith

-- One step balances its output actions with the output that it leaves.
output_step :
    (s : HfpSwitchState) (i : HfpSwitchInput)
    → let (t, d) = step_hfp_switch s i in
      bit s.hfp_output_active + bit d.actions.enter_hfp_output
      ≡ bit t.hfp_output_active + bit d.actions.exit_hfp_output
unfolding step_hfp_switch
output_step s i =
    let (t, a) = enter_generation s i in
    let entered = enter_balance s i in
    ground (arith, entered, current-Balanced t a i entered.1 (ground (arith, entered)))

unfoldable pub run : HfpSwitchState → List HfpSwitchInput → HfpSwitchState
run s [] = s
run s (i ∷ inputs) = run (step_hfp_switch s i).0 inputs

-- How often a history enters and leaves the HFP output.
pub entries : HfpSwitchState → List HfpSwitchInput → ℕ
entries s [] = 0
entries s (i ∷ inputs) =
    let (t, d) = step_hfp_switch s i in bit d.actions.enter_hfp_output + entries t inputs

pub exits : HfpSwitchState → List HfpSwitchInput → ℕ
exits s [] = 0
exits s (i ∷ inputs) =
    let (t, d) = step_hfp_switch s i in bit d.actions.exit_hfp_output + exits t inputs

-- Over any history, new links, losses and stale inputs included, the requests to enter the HFP
-- output and to leave it alternate: they balance up to the output that stands at the ends.
pub output_balanced :
    (s : HfpSwitchState) (inputs : List HfpSwitchInput)
    → bit s.hfp_output_active + entries s inputs
      ≡ bit (run s inputs).hfp_output_active + exits s inputs
unfolding run entries exits
output_balanced s [] = refl
output_balanced s (i ∷ inputs) =
    omega (arith, output_step s i, output_balanced (step_hfp_switch s i).0 inputs)

capture_resume :
    (s : HfpSwitchState) (i : HfpSwitchInput) (a : HfpSwitchActions)
    → (step_capture s i a).1.actions.resume_ldac ≡ a.resume_ldac
unfolding step_capture
capture_resume s i a = ground arith

release_resume :
    (s : HfpSwitchState) (i : HfpSwitchInput) (a : HfpSwitchActions)
    → a.resume_ldac ≡ false
    → (step_release s i a).1.actions.resume_ldac ≡ true
    → (s.phase ≡ release_delay)
      × (s.release_deadline_ms ≤ i.now_ms)
      × (i.render_demand ≡ true)
      × (i.ldac_path_active ≡ false)
      × ((step_release s i a).1.actions.stop_ldac ≡ a.stop_ldac)
      × ((step_release s i a).0.phase ≡ ldac_available)
unfolding step_release
release_resume s i a n h = ground arith

current_resume :
    (s : HfpSwitchState) (a : HfpSwitchActions) (i : HfpSwitchInput)
    → a.resume_ldac ≡ false
    → (step_current (s, a) i).1.actions.resume_ldac ≡ true
    → (s.phase ≡ release_delay)
      × (s.release_deadline_ms ≤ i.now_ms)
      × (i.capture_active ≡ false)
      × (i.render_demand ≡ true)
      × (i.ldac_path_active ≡ false)
      × ((step_current (s, a) i).1.actions.stop_ldac ≡ a.stop_ldac)
      × ((step_current (s, a) i).0.phase ≡ ldac_available)
unfolding step_current taken_up
current_resume s a i n h =
    ground (arith, capture_resume (taken_up s) i a, release_resume (taken_up s) i a n)

-- Only on the same link is a delay still running behind the branch for another generation.
entered_delay :
    (s : HfpSwitchState) (i : HfpSwitchInput)
    → (enter_generation s i).0.phase ≡ release_delay
    → (i.acl_generation ≡ s.acl_generation) × ((enter_generation s i).0 ≡ s)
unfolding enter_generation
entered_delay s i h = ground arith

-- LDAC is given back only from the release delay of the same link, when its deadline has passed,
-- with no capture, render demand and no LDAC path; and never in the step that stops it.
pub resume_guarded :
    (s : HfpSwitchState) (i : HfpSwitchInput)
    → (step_hfp_switch s i).1.actions.resume_ldac ≡ true
    → (s.phase ≡ release_delay)
      × (s.release_deadline_ms ≤ i.now_ms)
      × (i.acl_generation ≡ s.acl_generation)
      × (i.capture_active ≡ false)
      × (i.render_demand ≡ true)
      × (i.ldac_path_active ≡ false)
      × ((step_hfp_switch s i).1.actions.stop_ldac ≡ false)
      × ((step_hfp_switch s i).0.phase ≡ ldac_available)
unfolding step_hfp_switch snapshot
resume_guarded s i h =
    let (t, a) = enter_generation s i in
    let entered = enter_balance s i in
    ground (arith, entered, current_resume t a i entered.2, entered_delay s i)

-- The inputs of a call that ends: the capture stops at one time, and at a later one the delay has
-- passed, with the link unchanged, render demand and no LDAC path.
pub record Ends (s : HfpSwitchState) (i j : HfpSwitchInput) : Type 0 where
  pub in_call : s.phase ≡ hfp_active
  pub linked : s.acl_generation ≢ 0
  pub same_link : i.acl_generation ≡ s.acl_generation
  pub still_link : j.acl_generation ≡ s.acl_generation
  pub connected : i.physical_connected ≡ true
  pub still_connected : j.physical_connected ≡ true
  pub silent : i.capture_active ≡ false
  pub still_silent : j.capture_active ≡ false
  pub demanded : j.render_demand ≡ true
  pub path_free : j.ldac_path_active ≡ false
  pub waited : i.now_ms + hfp_release_stability_ms ≤ j.now_ms
  pub no_wrap : i.now_ms + hfp_release_stability_ms ≤ u64_max

-- A step on the same link with no capture is the part for the release.
same_link_step :
    (s : HfpSwitchState) (i : HfpSwitchInput)
    → s.acl_generation ≢ 0
    → i.acl_generation ≡ s.acl_generation
    → i.physical_connected ≡ true
    → i.capture_active ≡ false
    → s.phase ≢ disconnected
    → step_hfp_switch s i ≡ step_release s i hfp_action_none
unfolding step_hfp_switch enter_generation step_current taken_up
same_link_step s i l e c q p = ground arith

hang_up :
    (s : HfpSwitchState) (i : HfpSwitchInput)
    → s.phase ≡ hfp_active
    → (step_release s i hfp_action_none).0 ≡ record s {
      phase = release_delay;
      release_deadline_ms = u64 (i.now_ms + hfp_release_stability_ms);
    }
unfolding step_release
hang_up s i p = ground arith

delay_over :
    (s : HfpSwitchState) (j : HfpSwitchInput)
    → s.phase ≡ release_delay
    → s.release_deadline_ms ≤ j.now_ms
    → j.render_demand ≡ true
    → j.ldac_path_active ≡ false
    → s.hfp_output_active ≡ true
    → let (t, d) = step_release s j hfp_action_none in
      (d.actions.resume_ldac ≡ true)
      × (d.actions.exit_hfp_output ≡ true)
      × (t.phase ≡ ldac_available)
      × (t.hfp_output_active ≡ false)
unfolding step_release
delay_over s j p d r l o = ground arith

-- When a call ends and the delay passes, the switch asks to resume LDAC, leaves the HFP output if
-- it stood, and is back at LDAC.
call_end_resumes :
    (s : HfpSwitchState) (i j : HfpSwitchInput)
    → Inv s
    → Ends s i j
    → let (t, d) = step_hfp_switch (step_hfp_switch s i).0 j in
      (d.actions.resume_ldac ≡ true)
      × (d.actions.exit_hfp_output ≡ true)
      × (t.phase ≡ ldac_available)
      × (t.hfp_output_active ≡ false)
call_end_resumes s i j v e =
    let t = record s {
      phase = release_delay;
      release_deadline_ms = u64 (i.now_ms + hfp_release_stability_ms);
    } in
    let first =
      same_link_step s i e.linked e.same_link e.connected e.silent (ground (arith, e.in_call)) in
    let second =
      same_link_step t j e.linked e.still_link e.still_connected e.still_silent (ground arith) in
    rw (first, hang_up s i e.in_call, second)
      (delay_over t j refl (ground (arith, e.waited, e.no_wrap)) e.demanded e.path_free
        (v.active_output e.in_call))

-- The plan that the adapter makes of a step's decision is never the invalid one, and the command
-- that it carries out is the one it proposes or none. It commands a suspension exactly for a
-- decision to stop LDAC on the current link, where the transport may be switched.
plan_of_step :
    (s : HfpSwitchState) (i : HfpSwitchInput) (current : ℕ) (enabled : Bool)
    → let d = (step_hfp_switch s i).1 in
      let p = plan_hfp_lifecycle d current enabled in
      (p.invalid ≡ false)
      × ((p.command ≡ p.proposed_command) ⊎ (p.command ≡ no_command))
      × ((p.command ≡ suspend_command) ↔ (
          (d.actions.stop_ldac ≡ true)
          × (d.stale ≡ false)
          × (d.acl_generation ≢ 0)
          × (d.acl_generation ≡ current)
          × (enabled ≡ true)))
unfolding plan_hfp_lifecycle
plan_of_step s i current enabled = ground (arith, resume_guarded s i)
