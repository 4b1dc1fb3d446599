-- ===== src/Handoff.antt =====
-- agent/v1_avrcp_handoff_state.h and .cpp: which owner AVRCP has while media plays.
pub mod Budget
mod Tests
use native_ldac_xm5_windows.Prelude.{if◌then◌else◌, Bool, true, false, not, ◌&&◌, ◌||◌}

pub data HandoffPhase : Type 0 where
  microsoft_held handoff_pending observer_active restore_pending : HandoffPhase

pub record HandoffInput : Type 0 where
  pub media_streaming : Bool
  pub handoff_restart_done : Bool
  pub handoff_restart_failed : Bool
  pub observer_open_accepted : Bool
  pub observer_open_failed : Bool
  pub restore_restart_done : Bool
  pub restore_restart_failed : Bool

pub record HandoffTransition : Type 0 where
  pub next : HandoffPhase
  pub request_stage_observer : Bool
  pub request_handoff_restart : Bool
  pub notify_daily_active : Bool
  pub request_restore_restart : Bool
  pub mark_degraded : Bool
  pub changed : Bool

pub record HandoffState : Type 0 where
  pub phase : HandoffPhase
  pub degraded : Bool
  pub handoff_restart_used : Bool
  pub restore_restart_used : Bool

abbrev pub initial_handoff : HandoffState
initial_handoff = record {
  phase = microsoft_held;
  degraded = false;
  handoff_restart_used = false;
  restore_restart_used = false;
}

-- The transition that a step starts from, and returns where nothing changes.
abbrev stay : HandoffPhase → HandoffTransition
stay phase = record {
  next = phase;
  request_stage_observer = false;
  request_handoff_restart = false;
  notify_daily_active = false;
  request_restore_restart = false;
  mark_degraded = false;
  changed = false;
}

-- A change to a phase.
abbrev move : HandoffPhase → HandoffTransition
move phase = record (stay phase) { changed = true }

-- The cases of the `switch`.
step_in : HandoffPhase → HandoffState → HandoffInput → HandoffState × HandoffTransition
step_in microsoft_held s i =
    if i.media_streaming
    then (
      record s { phase = handoff_pending },
      record (move handoff_pending) { request_stage_observer = true },
    )
    else (s, stay microsoft_held)
step_in handoff_pending s i =
    if not s.handoff_restart_used && i.handoff_restart_done
    then (
      record s { handoff_restart_used = true; phase = observer_active },
      record (move observer_active) { notify_daily_active = true },
    )
    else if not s.handoff_restart_used && i.handoff_restart_failed
    then (
      record s { handoff_restart_used = true; phase = restore_pending },
      record (move restore_pending) { request_restore_restart = true },
    )
    else (s, stay handoff_pending)
step_in observer_active s i =
    if not i.media_streaming || i.observer_open_failed
    then (
      record s { phase = restore_pending },
      record (move restore_pending) { request_restore_restart = true },
    )
    else (s, stay observer_active)
step_in restore_pending s i =
    if not s.restore_restart_used && i.restore_restart_done
    then (record s { restore_restart_used = true; phase = microsoft_held }, move microsoft_held)
    else if not s.restore_restart_used && i.restore_restart_failed
    then (
      record s { restore_restart_used = true; degraded = true; phase = microsoft_held },
      record (move microsoft_held) { mark_degraded = true },
    )
    else (s, stay restore_pending)

pub step_handoff : HandoffState → HandoffInput → HandoffState × HandoffTransition
unfolding step_in
step_handoff s i = step_in s.phase s i
