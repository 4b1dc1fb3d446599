-- ===== src/Hfp.antt =====
-- agent/v1_hfp_switch_state.h and .cpp, the switch between LDAC and the hands-free profile, and
-- agent/v1_hfp_lifecycle_adapter.h and .cpp, which turn its decisions into lifecycle commands.
-- The mask of actions is a record with one Boolean for each declared bit.
pub mod Invariant
pub mod Protocol
pub mod Shadow
pub mod Commands
mod Tests
use native_ldac_xm5_windows.Prelude.{
  leb, ◌==◌, if◌then◌else◌, Enum, ◌is◌, u64, ℕ, ◌+◌, Bool, true, false, not, ◌&&◌, ◌||◌,
}
use native_ldac_xm5_windows.Generation.{is_newer_generation}
use native_ldac_xm5_windows.Lifecycle.{
  presence_enum, render_enum, lease_enum, media_enum, LifecycleEvent, hfp_suspend_ldac,
  hfp_resume_ldac,
}

pub data HfpSwitchPhase : Type 0 where
  disconnected ldac_available waiting_for_ldac_stop hfp_active release_delay : HfpSwitchPhase

instance abbrev pub hfp_phase_enum : Enum HfpSwitchPhase
hfp_phase_enum = record {
  value = elim [
    | disconnected ↦ 0
    | ldac_available ↦ 1
    | waiting_for_ldac_stop ↦ 2
    | hfp_active ↦ 3
    | release_delay ↦ 4
  ];
}

abbrev pub hfp_release_stability_ms : ℕ
hfp_release_stability_ms = 2000

pub record HfpSwitchInput : Type 0 where
  pub acl_generation : ℕ
  pub now_ms : ℕ
  pub physical_connected : Bool
  pub capture_active : Bool
  pub ldac_path_active : Bool
  pub render_demand : Bool

-- The bits of `V1HfpSwitchAction`.
pub record HfpSwitchActions : Type 0 where
  pub stop_ldac : Bool
  pub enter_hfp_output : Bool
  pub exit_hfp_output : Bool
  pub resume_ldac : Bool

abbrev pub hfp_action_none : HfpSwitchActions
hfp_action_none = record {
  stop_ldac = false;
  enter_hfp_output = false;
  exit_hfp_output = false;
  resume_ldac = false;
}

pub record HfpSwitchDecision : Type 0 where
  pub actions : HfpSwitchActions
  pub phase : HfpSwitchPhase
  pub acl_generation : ℕ
  pub release_deadline_ms : ℕ
  pub stale : Bool

pub record HfpSwitchState : Type 0 where
  pub phase : HfpSwitchPhase
  pub acl_generation : ℕ
  pub release_deadline_ms : ℕ
  pub hfp_output_active : Bool

abbrev pub initial_hfp_switch : HfpSwitchState
initial_hfp_switch = record {
  phase = disconnected;
  acl_generation = 0;
  release_deadline_ms = 0;
  hfp_output_active = false;
}

abbrev pub HfpSwitchStep : Type 0
HfpSwitchStep = HfpSwitchState × HfpSwitchDecision

-- The end of a step: the state, and the `Snapshot` of it that the step returns.
pub snapshot : HfpSwitchState → HfpSwitchActions → Bool → HfpSwitchStep
snapshot s actions stale = (
  s,
  record {
    actions = actions;
    phase = s.phase;
    acl_generation = s.acl_generation;
    release_deadline_ms = s.release_deadline_ms;
    stale = stale;
  },
)

reset_disconnected : HfpSwitchState → HfpSwitchState
reset_disconnected s = record s {
  phase = disconnected;
  release_deadline_ms = 0;
  hfp_output_active = false;
}

-- The state and the actions after the branch for another generation.
pub enter_generation : HfpSwitchState → HfpSwitchInput → HfpSwitchState × HfpSwitchActions
unfolding reset_disconnected
enter_generation s i =
    let t = reset_disconnected (record s { acl_generation = i.acl_generation }) in
    if i.acl_generation == s.acl_generation then (s, hfp_action_none) else (
      if i.physical_connected then record t { phase = ldac_available } else t,
      record hfp_action_none { exit_hfp_output = s.hfp_output_active },
    )

-- The capture is active.
pub step_capture : HfpSwitchState → HfpSwitchInput → HfpSwitchActions → HfpSwitchStep
unfolding snapshot
step_capture s i a =
    let t = record s { release_deadline_ms = 0 } in
    if i.ldac_path_active
    then snapshot (record t { phase = waiting_for_ldac_stop })
        (if s.phase is waiting_for_ldac_stop then a else record a { stop_ldac = true }) false
    else snapshot (record t { phase = hfp_active; hfp_output_active = true })
        (if s.hfp_output_active then a else record a { enter_hfp_output = true }) false

-- The capture is not active.
pub step_release : HfpSwitchState → HfpSwitchInput → HfpSwitchActions → HfpSwitchStep
unfolding snapshot
step_release s i a =
    let delayed = record s {
      phase = release_delay;
      release_deadline_ms = u64 (i.now_ms + hfp_release_stability_ms);
    } in
    if s.phase is waiting_for_ldac_stop
    then if i.ldac_path_active then snapshot s a false else snapshot delayed a false
    else if s.phase is hfp_active
    then snapshot delayed a false
    else if s.phase is release_delay && leb s.release_deadline_ms i.now_ms
    then snapshot
        (record s { phase = ldac_available; release_deadline_ms = 0; hfp_output_active = false })
        (record a {
          exit_hfp_output = a.exit_hfp_output || s.hfp_output_active;
          resume_ldac = a.resume_ldac || i.render_demand && not i.ldac_path_active;
        })
        false
    else snapshot s a false

-- A switch that was disconnected is taken up on its link.
pub taken_up : HfpSwitchState → HfpSwitchState
taken_up s = if s.phase is disconnected then record s { phase = ldac_available } else s

-- The rest of `Step` behind the branch for another generation.
pub step_current : HfpSwitchState × HfpSwitchActions → HfpSwitchInput → HfpSwitchStep
unfolding snapshot reset_disconnected
step_current (s, a) i =
    if not i.physical_connected
    then snapshot (reset_disconnected s)
        (record a { exit_hfp_output = a.exit_hfp_output || s.hfp_output_active }) false
    else if i.capture_active
    then step_capture (taken_up s) i a
    else step_release (taken_up s) i a

pub step_hfp_switch : HfpSwitchState → HfpSwitchInput → HfpSwitchStep
unfolding snapshot
step_hfp_switch s i =
    if i.acl_generation == 0
    then snapshot s hfp_action_none true
    else if not (s.acl_generation == 0)
        && not (i.acl_generation == s.acl_generation)
        && not (is_newer_generation i.acl_generation s.acl_generation)
    then snapshot s hfp_action_none true
    else step_current (enter_generation s i) i

pub data HfpLifecycleCommand : Type 0 where
  no_command suspend_command resume_command : HfpLifecycleCommand

pub record HfpLifecyclePlan : Type 0 where
  pub proposed_command : HfpLifecycleCommand
  pub command : HfpLifecycleCommand
  pub shadow_only : Bool
  pub stale : Bool
  pub invalid : Bool
  pub enter_hfp_output_requested : Bool
  pub exit_hfp_output_requested : Bool

-- The plan before its first test.
abbrev empty_plan : HfpSwitchDecision → HfpLifecyclePlan
empty_plan d = record {
  proposed_command = no_command;
  command = no_command;
  shadow_only = true;
  stale = false;
  invalid = false;
  enter_hfp_output_requested = d.actions.enter_hfp_output;
  exit_hfp_output_requested = d.actions.exit_hfp_output;
}

pub plan_hfp_lifecycle : HfpSwitchDecision → ℕ → Bool → HfpLifecyclePlan
plan_hfp_lifecycle d current_acl_generation transport_switch_enabled =
    let proposed =
      if d.actions.stop_ldac
      then suspend_command
      else if d.actions.resume_ldac
      then resume_command
      else no_command in
    if d.stale || d.acl_generation == 0 || not (d.acl_generation == current_acl_generation)
    then record (empty_plan d) { stale = true }
    else if d.actions.stop_ldac && d.actions.resume_ldac
    then record (empty_plan d) { invalid = true }
    else if not transport_switch_enabled
    then record (empty_plan d) { proposed_command = proposed }
    else record (empty_plan d) {
      proposed_command = proposed;
      command = proposed;
      shadow_only = false;
    }

unfoldable pub hfp_lifecycle_event_for_command : HfpLifecycleCommand → LifecycleEvent
hfp_lifecycle_event_for_command suspend_command = hfp_suspend_ldac
hfp_lifecycle_event_for_command resume_command = hfp_resume_ldac
hfp_lifecycle_event_for_command no_command = hfp_resume_ldac
