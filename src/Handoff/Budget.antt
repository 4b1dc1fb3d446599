-- ===== src/Handoff/Budget.antt =====
-- The restart budget of agent/v1_avrcp_handoff_state.cpp over any history of inputs, and the way
-- back to Microsoft's AVRCP.
use native_ldac_xm5_windows.Prelude.{
  bit, ℕ, ◌+◌, ◌≤◌, ◌≡◌, refl, ◌⊎◌, Bool, true, false, not, List, [], ◌∷◌, arith,
}
use native_ldac_xm5_windows.Handoff.{
  HandoffPhase, microsoft_held, handoff_pending, observer_active, restore_pending, HandoffInput,
  HandoffState, initial_handoff, step_handoff,
}

pub record Inv (s : HandoffState) : Type 0 where
  pub observer_spent : s.phase ≡ observer_active → s.handoff_restart_used ≡ true
  pub restore_spent : s.phase ≡ restore_pending → s.handoff_restart_used ≡ true
  pub observer_unrestored : s.phase ≡ observer_active → s.restore_restart_used ≡ false
  pub restore_unrestored : s.phase ≡ restore_pending → s.restore_restart_used ≡ false
  pub fresh_unrestored : s.handoff_restart_used ≡ false → s.restore_restart_used ≡ false
  pub degraded_restored : s.degraded ≡ true → s.restore_restart_used ≡ true

-- Every step keeps the invariant: the observer and the restore phase have spent the handoff restart
-- and not the restore restart, and only a spent restore restart degrades the session.
step_handoff-Inv : (s : HandoffState) (i : HandoffInput) → Inv s → Inv (step_handoff s i).0
unfolding step_handoff
step_handoff-Inv s i h = ground arith

unfoldable pub run : HandoffState → List HandoffInput → HandoffState
run s [] = s
run s (i ∷ inputs) = run (step_handoff s i).0 inputs

-- How often a history notifies the daily host, and asks for the restore restart.
pub count_notifies : HandoffState → List HandoffInput → ℕ
count_notifies s [] = 0
count_notifies s (i ∷ inputs) =
    let (t, r) = step_handoff s i in bit r.notify_daily_active + count_notifies t inputs

pub count_restores : HandoffState → List HandoffInput → ℕ
count_restores s [] = 0
count_restores s (i ∷ inputs) =
    let (t, r) = step_handoff s i in bit r.request_restore_restart + count_restores t inputs

-- The restore requests that a state can still make.
abbrev restores_left : HandoffPhase → Bool → ℕ
restores_left observer_active used = 1
restores_left _ used = bit (not used)

step_budget :
    (s : HandoffState) (i : HandoffInput)
    → Inv s
    → let (t, r) = step_handoff s i in
      (bit r.notify_daily_active + bit (not t.handoff_restart_used)
        ≤ bit (not s.handoff_restart_used))
      × (bit r.request_restore_restart + restores_left t.phase t.handoff_restart_used
          ≤ restores_left s.phase s.handoff_restart_used)
unfolding step_handoff
step_budget s i v = ground arith

run_budget :
    (s : HandoffState) (inputs : List HandoffInput)
    → Inv s
    → (count_notifies s inputs ≤ bit (not s.handoff_restart_used))
      × (count_restores s inputs ≤ restores_left s.phase s.handoff_restart_used)
unfolding count_notifies count_restores
run_budget s [] v = omega arith
run_budget s (i ∷ inputs) v =
    omega
      (arith, step_budget s i v, run_budget (step_handoff s i).0 inputs (step_handoff-Inv s i v))

initial-Inv : Inv initial_handoff
initial-Inv = ground arith

-- Over the whole life of one state machine, whatever the inputs, the observer is made active at
-- most once and the restore restart is asked for at most once.
pub restart_budget :
    (inputs : List HandoffInput)
    → (count_notifies initial_handoff inputs ≤ 1) × (count_restores initial_handoff inputs ≤ 1)
restart_budget inputs = run_budget initial_handoff inputs initial-Inv

-- An active observer whose media ends or whose open fails asks for the restore restart, and the
-- outcome of that restart, good or bad, hands AVRCP back to Microsoft; it degrades the session
-- exactly if it was bad and not also reported as done.
observer_restores :
    (s : HandoffState) (i j : HandoffInput)
    → Inv s
    → s.phase ≡ observer_active
    → (i.media_streaming ≡ false) ⊎ (i.observer_open_failed ≡ true)
    → (j.restore_restart_done ≡ true) ⊎ (j.restore_restart_failed ≡ true)
    → let (t, r) = step_handoff s i in
      let (u, q) = step_handoff t j in
      (r.request_restore_restart ≡ true)
      × (u.phase ≡ microsoft_held)
      × (u.degraded ≡ not j.restore_restart_done)
      × (q.mark_degraded ≡ not j.restore_restart_done)
unfolding step_handoff
observer_restores s i j v p a b = ground arith

-- A failed handoff restart goes straight to the restore.
failed_handoff_restores :
    (s : HandoffState) (i : HandoffInput)
    → s.phase ≡ handoff_pending
    → s.handoff_restart_used ≡ false
    → i.handoff_restart_done ≡ false
    → i.handoff_restart_failed ≡ true
    → let (t, r) = step_handoff s i in
      (t.phase ≡ restore_pending) × (r.request_restore_restart ≡ true)
unfolding step_handoff
failed_handoff_restores s i p u d f = ground arith

spent_step :
    (s : HandoffState) (i : HandoffInput)
    → s.phase ≡ handoff_pending
    → s.handoff_restart_used ≡ true
    → (step_handoff s i).0 ≡ s
unfolding step_handoff
spent_step s i p u = ground arith

-- A machine that has spent its handoff restart serves no second media session: if media streams
-- again it goes to the pending handoff, and no further inputs move it.
pub spent_machine_sticks :
    (s : HandoffState) (i : HandoffInput) (inputs : List HandoffInput)
    → s.phase ≡ microsoft_held
    → s.handoff_restart_used ≡ true
    → i.media_streaming ≡ true
    → run s (i ∷ inputs) ≡ record s { phase = handoff_pending }
unfolding run
spent_machine_sticks s i inputs p u m =
    rw (starts s i p m) (stuck (record s { phase = handoff_pending }) inputs refl u)
  where
    starts :
        (s : HandoffState) (i : HandoffInput)
        → s.phase ≡ microsoft_held
        → i.media_streaming ≡ true
        → (step_handoff s i).0 ≡ record s { phase = handoff_pending }
    starts s i p m = unfold step_handoff in ground arith

    stuck :
        (s : HandoffState) (inputs : List HandoffInput)
        → s.phase ≡ handoff_pending
        → s.handoff_restart_used ≡ true
        → run s inputs ≡ s
    stuck s [] p u = refl
    stuck s (i ∷ inputs) p u = rw (spent_step s i p u) (stuck s inputs p u)
