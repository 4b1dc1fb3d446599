-- ===== src/PassThrough/Invariant.antt =====
-- What holds of the gate of agent/avrcp_passthrough_state.cpp between two calls, and when a decision
-- with an action leaves it.
use native_ldac_xm5_windows.Generation.{is_newer_generation, next_nonzero}
use native_ldac_xm5_windows.Generation.Order.{next_nonzero_ne}
use native_ldac_xm5_windows.Prelude.{
  u64_max, u64, ℕ, ◌+◌, ◌≤◌, ◌<◌, ◌≡◌, refl, ◌≢◌, ◌⊎◌, true, false, arith,
}
use native_ldac_xm5_windows.PassThrough.{
  Operation, unknown, pressed, RouteMode, route_to_current_media_session, PassThroughEvent,
  no_actions, has_any, PassThroughDecision, PassThroughState, PassThroughStep, action_for_operation,
  is_current_generation, snapshot, begin_acl_generation, end_acl_generation, set_gate_mode,
  acquire_owner_lease, revoke_owner_lease, observe_release, observe_press, counted,
  observe_pass_through_event, is_pass_through_decision_current,
}

pub record Inv (s : PassThroughState) : Type 0 where
  pub held_known : s.held_operation_valid ≡ true → s.held_operation ≢ unknown
  pub free_unknown : s.held_operation_valid ≡ false → s.held_operation ≡ unknown
  pub owned_current : s.owner_lease ≢ 0 → s.acl_generation_current ≡ true
  pub routed_current : s.mode ≡ route_to_current_media_session → s.acl_generation_current ≡ true
  pub current_generation : s.acl_generation_current ≡ true → 0 < s.acl_generation
  pub count_fits : s.observed_event_count ≤ u64_max
  pub epoch_fits : s.authorization_epoch ≤ u64_max
  pub sequence_fits : s.accepted_event_sequence ≤ u64_max

pub data PassThroughCall : Type 0 where
  begins ends : ℕ → PassThroughCall
  sets_mode : ℕ → RouteMode → PassThroughCall
  acquires revokes : ℕ → ℕ → PassThroughCall
  observes : ℕ → PassThroughEvent → PassThroughCall

unfoldable pub answer : PassThroughState → PassThroughCall → PassThroughStep
answer s (begins g) = begin_acl_generation s g
answer s (ends g) = end_acl_generation s g
answer s (sets_mode g mode) = set_gate_mode s g mode
answer s (acquires g l) = acquire_owner_lease s g l
answer s (revokes g l) = revoke_owner_lease s g l
answer s (observes g e) = observe_pass_through_event s g e

-- What an event leaves alone.
abbrev pub Frame : PassThroughState → PassThroughState → Type 0
Frame s t =
    (t.owner_lease ≡ s.owner_lease)
    × (t.mode ≡ s.mode)
    × (t.acl_generation_current ≡ s.acl_generation_current)
    × (t.acl_generation ≡ s.acl_generation)
    × (t.authorization_epoch ≡ s.authorization_epoch)

press-Frame : (s : PassThroughState) (o : Operation) → Frame s (observe_press s o).0
unfolding observe_press
press-Frame s o = ground arith

release-Frame : (s : PassThroughState) (o : Operation) → Frame s (observe_release s o).0
unfolding observe_release
release-Frame s o = ground arith

pub observe-Frame :
    (s : PassThroughState) (g : ℕ) (e : PassThroughEvent)
    → Frame s (observe_pass_through_event s g e).0
unfolding observe_pass_through_event
observe-Frame s g e =
    ground (arith, press-Frame (counted s) e.operation, release-Frame (counted s) e.operation)

press_counters :
    (s : PassThroughState) (o : Operation)
    → let t = (observe_press s o).0 in
      (t.observed_event_count ≡ s.observed_event_count)
      × ((t.accepted_event_sequence ≡ s.accepted_event_sequence)
          ⊎ (t.accepted_event_sequence ≡ next_nonzero s.accepted_event_sequence))
unfolding observe_press
press_counters s o = ground arith

release_counters :
    (s : PassThroughState) (o : Operation)
    → let t = (observe_release s o).0 in
      (t.observed_event_count ≡ s.observed_event_count)
      × (t.accepted_event_sequence ≡ s.accepted_event_sequence)
unfolding observe_release
release_counters s o = ground arith

observe_counters :
    (s : PassThroughState) (g : ℕ) (e : PassThroughEvent)
    → let t = (observe_pass_through_event s g e).0 in
      ((t.observed_event_count ≡ s.observed_event_count)
        ⊎ (t.observed_event_count ≡ u64 (s.observed_event_count + 1)))
      × ((t.accepted_event_sequence ≡ s.accepted_event_sequence)
          ⊎ (t.accepted_event_sequence ≡ next_nonzero s.accepted_event_sequence))
unfolding observe_pass_through_event
observe_counters s g e =
    ground (arith, press_counters (counted s) e.operation, release_counters (counted s) e.operation)

-- The key that is held after a press, and after a release.
press_held :
    (s : PassThroughState) (o : Operation)
    → let t = (observe_press s o).0 in (t.held_operation_valid ≡ true) × (t.held_operation ≡ o)
unfolding observe_press
press_held s o = ground arith

release_held :
    (s : PassThroughState) (o : Operation)
    → let t = (observe_release s o).0 in
      ((t.held_operation_valid ≡ s.held_operation_valid) × (t.held_operation ≡ s.held_operation))
      ⊎ ((t.held_operation_valid ≡ false) × (t.held_operation ≡ unknown))
unfolding observe_release
release_held s o = ground arith

observe_held :
    (s : PassThroughState) (g : ℕ) (e : PassThroughEvent)
    → let t = (observe_pass_through_event s g e).0 in
      ((t.held_operation_valid ≡ s.held_operation_valid) × (t.held_operation ≡ s.held_operation))
      ⊎ ((t.held_operation_valid ≡ false) × (t.held_operation ≡ unknown))
      ⊎ ((t.held_operation_valid ≡ true) × (t.held_operation ≢ unknown))
unfolding observe_pass_through_event
observe_held s g e =
    ground (arith, press_held (counted s) e.operation, release_held (counted s) e.operation)

observe-Inv :
    (s : PassThroughState) (g : ℕ) (e : PassThroughEvent)
    → Inv s
    → Inv (observe_pass_through_event s g e).0
unfolding next_nonzero
observe-Inv s g e h =
    let frame = observe-Frame s g e in
    let counters = observe_counters s g e in
    let held = observe_held s g e in
    record {
      held_known = ground (arith, held);
      free_unknown = ground (arith, held);
      owned_current = ground (arith, frame);
      routed_current = ground (arith, frame);
      current_generation = ground (arith, frame);
      count_fits = omega (arith, counters);
      epoch_fits = omega (arith, frame);
      sequence_fits = ground (arith, counters);
    }

-- Every call keeps the invariant of the gate: a key is held exactly as an operation that is known,
-- a lease and the routing mode belong to a current link, and the counters stay within 64 bits.
pass_through_call-Inv : (s : PassThroughState) (c : PassThroughCall) → Inv s → Inv (answer s c).0
unfolding answer begin_acl_generation end_acl_generation set_gate_mode acquire_owner_lease
    revoke_owner_lease next_nonzero is_newer_generation
pass_through_call-Inv s (begins g) h = ground arith
pass_through_call-Inv s (ends g) h = ground arith
pass_through_call-Inv s (sets_mode g mode) h = ground arith
pass_through_call-Inv s (acquires g l) h = ground arith
pass_through_call-Inv s (revokes g l) h = ground arith
pass_through_call-Inv s (observes g e) h = observe-Inv s g e h

-- The events that a state answers with an action.
pub record Acts (s : PassThroughState) (g : ℕ) (e : PassThroughEvent) : Type 0 where
  pub current : is_current_generation s g ≡ true
  pub routed : s.mode ≡ route_to_current_media_session
  pub owned : s.owner_lease ≢ 0
  pub known : e.operation ≢ unknown
  pub press : e.key_state ≡ pressed
  pub fresh : (s.held_operation_valid ≡ false) ⊎ (s.held_operation ≢ e.operation)

press_action :
    (s : PassThroughState) (o : Operation)
    → has_any (observe_press s o).1.actions ≡ true
    → (s.mode ≡ route_to_current_media_session)
      × (s.owner_lease ≢ 0)
      × ((s.held_operation_valid ≡ false) ⊎ (s.held_operation ≢ o))
unfolding observe_press
press_action s o h = ground arith

press_actions :
    (s : PassThroughState) (o : Operation)
    → let d = (observe_press s o).1 in
      (d.actions ≡ no_actions) ⊎ (d.actions ≡ action_for_operation o)
unfolding observe_press
press_actions s o = ground arith

release_action :
    (s : PassThroughState) (o : Operation) → (observe_release s o).1.actions ≡ no_actions
unfolding observe_release
release_action s o = ground arith

-- A decision of the gate carries no action, or the one of the event's operation.
pub observed_actions :
    (s : PassThroughState) (g : ℕ) (e : PassThroughEvent)
    → let d = (observe_pass_through_event s g e).1 in
      (d.actions ≡ no_actions) ⊎ (d.actions ≡ action_for_operation e.operation)
unfolding observe_pass_through_event
observed_actions s g e =
    ground (arith, press_actions (counted s) e.operation, release_action (counted s) e.operation)

-- An event becomes an action only if it is a fresh press of a known key, on the current link, in
-- the routing mode and with an owner.
action_needs_press :
    (s : PassThroughState) (g : ℕ) (e : PassThroughEvent)
    → has_any (observe_pass_through_event s g e).1.actions ≡ true
    → Acts s g e
unfolding observe_pass_through_event
action_needs_press s g e h =
    ground (arith, press_action (counted s) e.operation, release_action (counted s) e.operation)

fresh_press :
    (s : PassThroughState) (o : Operation)
    → s.mode ≡ route_to_current_media_session
    → s.owner_lease ≢ 0
    → (s.held_operation_valid ≡ false) ⊎ (s.held_operation ≢ o)
    → o ≢ unknown
    → let (t, d) = observe_press s o in
      (t ≡ record s {
        held_operation_valid = true;
        held_operation = o;
        accepted_event_sequence = next_nonzero s.accepted_event_sequence;
      })
      × (d ≡ record (snapshot t) { event_observed = true; actions = action_for_operation o })
      × (has_any d.actions ≡ true)
unfolding observe_press
fresh_press s o m l f k = ground arith

-- What the gate does with a press of a known key on the current link.
observed_press :
    (s : PassThroughState) (g : ℕ) (e : PassThroughEvent)
    → is_current_generation s g ≡ true
    → e.operation ≢ unknown
    → e.key_state ≡ pressed
    → observe_pass_through_event s g e ≡ observe_press (counted s) e.operation
unfolding observe_pass_through_event
observed_press s g e c k p = ground arith

-- A fresh press of a known key, on the current link, in the routing mode and with an owner, becomes
-- exactly the action of its key: it is accepted as the next event, held, and the decision is
-- current in the state that it leaves.
pub press-Acts :
    (s : PassThroughState) (g : ℕ) (e : PassThroughEvent)
    → Acts s g e
    → let (t, d) = observe_pass_through_event s g e in
      (d.actions ≡ action_for_operation e.operation)
      × (has_any d.actions ≡ true)
      × (t.held_operation_valid ≡ true)
      × (t.held_operation ≡ e.operation)
      × (t.accepted_event_sequence ≡ next_nonzero s.accepted_event_sequence)
      × (is_pass_through_decision_current t d ≡ true)
unfolding is_pass_through_decision_current is_current_generation snapshot
press-Acts s g e a =
    let (t, d, any) = fresh_press (counted s) e.operation a.routed a.owned a.fresh a.known in
    rw (observed_press s g e a.current a.known a.press, t, d) (ground (arith, any, a.current))

-- Such a press is observed.
pub press-observed :
    (s : PassThroughState) (g : ℕ) (e : PassThroughEvent)
    → Acts s g e
    → (observe_pass_through_event s g e).1.event_observed ≡ true
press-observed s g e a =
    let (t, d, any) = fresh_press (counted s) e.operation a.routed a.owned a.fresh a.known in
    rw (observed_press s g e a.current a.known a.press, d) refl

-- Once a further event has become an action, a decision that was current before it is not.
later_press_supersedes :
    (s : PassThroughState) (g : ℕ) (e : PassThroughEvent) (d : PassThroughDecision)
    → is_pass_through_decision_current s d ≡ true
    → has_any (observe_pass_through_event s g e).1.actions ≡ true
    → is_pass_through_decision_current (observe_pass_through_event s g e).0 d ≡ false
unfolding is_pass_through_decision_current
later_press_supersedes s g e d c h = ground (
  arith,
  press-Acts s g e (action_needs_press s g e h),
  next_nonzero_ne s.accepted_event_sequence,
)
