-- ===== src/PassThrough.antt =====
-- agent/avrcp_passthrough_state.h and its .cpp: the parser of PASS THROUGH commands and the gate
-- that turns key presses into actions. A frame is a list of bytes. A mask of actions is a record
-- with one Boolean for each declared bit.
mod Command
pub mod Parse
pub mod Invariant
pub mod Keys
mod Tests
unfoldable pub use Command.*
use native_ldac_xm5_windows.Prelude.{
  ◌==◌, if◌then◌else◌, Enum, ◌is◌, u64, ℕ, ◌+◌, Bool, true, false, not, ◌&&◌, ◌||◌,
}
use native_ldac_xm5_windows.Generation.{is_newer_generation, next_nonzero}

pub data RouteMode : Type 0 where
  observe_only route_to_current_media_session : RouteMode

instance abbrev pub route_mode_enum : Enum RouteMode
route_mode_enum = record { value = elim [ observe_only ↦ 0 | route_to_current_media_session ↦ 1 ] }

-- The bits of `AvrcpPassThroughAction`.
pub record PassThroughActions : Type 0 where
  pub step_volume_up : Bool
  pub step_volume_down : Bool
  pub toggle_mute : Bool
  pub action_play : Bool
  pub action_stop : Bool
  pub action_pause : Bool
  pub next_track : Bool
  pub previous_track : Bool

abbrev pub no_actions : PassThroughActions
no_actions = record {
  step_volume_up = false;
  step_volume_down = false;
  toggle_mute = false;
  action_play = false;
  action_stop = false;
  action_pause = false;
  next_track = false;
  previous_track = false;
}

-- `actions != AvrcpPassThroughActionNone`.
abbrev pub has_any : PassThroughActions → Bool
has_any a =
    a.step_volume_up || a.step_volume_down || a.toggle_mute || a.action_play || a.action_stop
    || a.action_pause || a.next_track || a.previous_track

pub record PassThroughDecision : Type 0 where
  pub actions : PassThroughActions
  pub acl_generation : ℕ
  pub owner_lease : ℕ
  pub authorization_epoch : ℕ
  pub accepted_event_sequence : ℕ
  pub event_observed : Bool
  pub duplicate_press : Bool
  pub matching_release : Bool

abbrev pub no_decision : PassThroughDecision
no_decision = record {
  actions = no_actions;
  acl_generation = 0;
  owner_lease = 0;
  authorization_epoch = 0;
  accepted_event_sequence = 0;
  event_observed = false;
  duplicate_press = false;
  matching_release = false;
}

pub record PassThroughState : Type 0 where
  pub acl_generation : ℕ
  pub acl_generation_current : Bool
  pub owner_lease : ℕ
  pub authorization_epoch : ℕ
  pub observed_event_count : ℕ
  pub accepted_event_sequence : ℕ
  pub mode : RouteMode
  pub held_operation_valid : Bool
  pub held_operation : Operation

abbrev pub initial_pass_through_state : PassThroughState
initial_pass_through_state = record {
  acl_generation = 0;
  acl_generation_current = false;
  owner_lease = 0;
  authorization_epoch = 0;
  observed_event_count = 0;
  accepted_event_sequence = 0;
  mode = observe_only;
  held_operation_valid = false;
  held_operation = unknown;
}

abbrev pub PassThroughStep : Type 0
PassThroughStep = PassThroughState × PassThroughDecision

unfoldable pub action_for_operation : Operation → PassThroughActions
action_for_operation volume_up = record no_actions { step_volume_up = true }
action_for_operation volume_down = record no_actions { step_volume_down = true }
action_for_operation mute = record no_actions { toggle_mute = true }
action_for_operation play = record no_actions { action_play = true }
action_for_operation stop = record no_actions { action_stop = true }
action_for_operation pause = record no_actions { action_pause = true }
action_for_operation forward = record no_actions { next_track = true }
action_for_operation backward = record no_actions { previous_track = true }
action_for_operation unknown = no_actions

unfoldable pub is_current_generation : PassThroughState → ℕ → Bool
is_current_generation s generation =
    not (generation == 0) && s.acl_generation_current && s.acl_generation == generation

reset_held_operation : PassThroughState → PassThroughState
reset_held_operation s = record s { held_operation_valid = false; held_operation = unknown }

pub snapshot : PassThroughState → PassThroughDecision
snapshot s = record no_decision {
  acl_generation = s.acl_generation;
  owner_lease = s.owner_lease;
  authorization_epoch = s.authorization_epoch;
  accepted_event_sequence = s.accepted_event_sequence;
}

-- A change of the state, with the snapshot that the operation returns of it.
settled : PassThroughState → PassThroughStep
unfolding snapshot
settled s = (s, snapshot s)

unfoldable pub begin_acl_generation : PassThroughState → ℕ → PassThroughStep
unfolding reset_held_operation settled
begin_acl_generation s acl_generation =
    if not (is_newer_generation acl_generation s.acl_generation)
    then (s, no_decision)
    else settled (
        reset_held_operation (record s {
          acl_generation = acl_generation;
          acl_generation_current = true;
          owner_lease = 0;
          authorization_epoch = next_nonzero s.authorization_epoch;
          observed_event_count = 0;
          accepted_event_sequence = 0;
          mode = observe_only;
        }))

unfoldable pub end_acl_generation : PassThroughState → ℕ → PassThroughStep
unfolding reset_held_operation settled is_current_generation
end_acl_generation s acl_generation =
    if not (is_current_generation s acl_generation)
    then (s, no_decision)
    else settled (
        reset_held_operation (record s {
          acl_generation_current = false;
          owner_lease = 0;
          authorization_epoch = next_nonzero s.authorization_epoch;
          mode = observe_only;
        }))

unfoldable pub set_gate_mode : PassThroughState → ℕ → RouteMode → PassThroughStep
unfolding reset_held_operation settled is_current_generation
set_gate_mode s acl_generation mode =
    if not (is_current_generation s acl_generation)
    then (s, no_decision)
    else if not (s.mode is mode)
    then settled (
        reset_held_operation
          (record s { mode = mode; authorization_epoch = next_nonzero s.authorization_epoch }))
    else settled s

unfoldable pub acquire_owner_lease : PassThroughState → ℕ → ℕ → PassThroughStep
unfolding reset_held_operation settled is_current_generation
acquire_owner_lease s acl_generation owner_lease =
    if not (is_current_generation s acl_generation)
      || owner_lease == 0
      || not (s.owner_lease == 0) && not (s.owner_lease == owner_lease)
    then (s, no_decision)
    else if s.owner_lease == 0
    then settled (
        reset_held_operation (record s {
          owner_lease = owner_lease;
          authorization_epoch = next_nonzero s.authorization_epoch;
        }))
    else settled s

unfoldable pub revoke_owner_lease : PassThroughState → ℕ → ℕ → PassThroughStep
unfolding reset_held_operation settled is_current_generation
revoke_owner_lease s acl_generation owner_lease =
    if not (is_current_generation s acl_generation)
      || owner_lease == 0
      || not (s.owner_lease == owner_lease)
    then (s, no_decision)
    else settled (
        reset_held_operation
          (record s { owner_lease = 0; authorization_epoch = next_nonzero s.authorization_epoch }))

-- A release, with the state that has counted the event.
pub observe_release : PassThroughState → Operation → PassThroughStep
unfolding reset_held_operation snapshot
observe_release s operation =
    let seen = record (snapshot s) { event_observed = true } in
    if s.held_operation_valid && s.held_operation is operation
    then (reset_held_operation s, record seen { matching_release = true })
    else (s, seen)

pub observe_press : PassThroughState → Operation → PassThroughStep
unfolding snapshot action_for_operation
observe_press s operation =
    let seen = record (snapshot s) { event_observed = true } in
    let held = record s { held_operation_valid = true; held_operation = operation } in
    let accepted = record held {
      accepted_event_sequence = next_nonzero s.accepted_event_sequence;
    } in
    if s.held_operation_valid && s.held_operation is operation
    then (s, record seen { duplicate_press = true })
    else if not (s.mode is route_to_current_media_session) || s.owner_lease == 0
    then (held, seen)
    else if not (has_any (action_for_operation operation))
    then (held, seen)
    else (
      accepted,
      record (snapshot accepted) {
        event_observed = true;
        actions = action_for_operation operation;
      },
    )

abbrev pub counted : PassThroughState → PassThroughState
counted s = record s { observed_event_count = u64 (s.observed_event_count + 1) }

pub observe_pass_through_event : PassThroughState → ℕ → PassThroughEvent → PassThroughStep
unfolding snapshot
observe_pass_through_event s acl_generation event =
    if not (is_current_generation s acl_generation)
    then (s, no_decision)
    else if event.operation is unknown
    then (counted s, record (snapshot (counted s)) { event_observed = true })
    else if event.key_state is released
    then observe_release (counted s) event.operation
    else observe_press (counted s) event.operation

pub is_pass_through_decision_current : PassThroughState → PassThroughDecision → Bool
is_pass_through_decision_current s d =
    has_any d.actions
    && s.acl_generation_current
    && s.mode is route_to_current_media_session
    && not (s.owner_lease == 0)
    && d.acl_generation == s.acl_generation
    && d.owner_lease == s.owner_lease
    && d.authorization_epoch == s.authorization_epoch
    && d.accepted_event_sequence == s.accepted_event_sequence
