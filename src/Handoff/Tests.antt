-- ===== src/Handoff/Tests.antt =====
-- Runs of agent/v1_avrcp_handoff_state.cpp.
use native_ldac_xm5_windows.Prelude.{◌≤◌, ◌≡◌, refl, true, false, [], ◌∷◌, arith}
use native_ldac_xm5_windows.Handoff.{
  handoff_pending, observer_active, HandoffInput, HandoffState, initial_handoff, step_handoff,
}
use native_ldac_xm5_windows.Handoff.Budget.{
  Inv, run, count_notifies, count_restores, restart_budget, spent_machine_sticks,
}

abbrev no_input : HandoffInput
no_input = record {
  media_streaming = false;
  handoff_restart_done = false;
  handoff_restart_failed = false;
  observer_open_accepted = false;
  observer_open_failed = false;
  restore_restart_done = false;
  restore_restart_failed = false;
}

abbrev streams : HandoffInput
streams = record no_input { media_streaming = true }

abbrev handed : HandoffInput
handed = record streams { handoff_restart_done = true }

abbrev restored : HandoffInput
restored = record no_input { restore_restart_done = true }

abbrev observing : HandoffState
observing = record initial_handoff { phase = observer_active; handoff_restart_used = true }

abbrev pending : HandoffState
pending = record initial_handoff { phase = handoff_pending }

abbrev handoff_failed : HandoffInput
handoff_failed = record streams { handoff_restart_failed = true }

abbrev spent : HandoffState
spent = record initial_handoff { handoff_restart_used = true; restore_restart_used = true }

whole_session : run initial_handoff (streams ∷ handed ∷ no_input ∷ restored ∷ []) ≡ spent
unfolding run step_handoff
whole_session = refl

observing-Inv : Inv observing
observing-Inv = ground arith

restart_budget_example :
    (count_notifies initial_handoff (streams ∷ handed ∷ no_input ∷ restored ∷ streams ∷ []) ≤ 1)
    × (count_restores initial_handoff (streams ∷ handed ∷ no_input ∷ restored ∷ streams ∷ []) ≤ 1)
restart_budget_example = restart_budget (streams ∷ handed ∷ no_input ∷ restored ∷ streams ∷ [])

spent_machine_sticks_example :
    run spent (streams ∷ handed ∷ restored ∷ []) ≡ record spent { phase = handoff_pending }
spent_machine_sticks_example =
    spent_machine_sticks spent streams (handed ∷ restored ∷ []) refl refl refl
