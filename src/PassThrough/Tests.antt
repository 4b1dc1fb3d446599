-- ===== src/PassThrough/Tests.antt =====
-- Runs of agent/avrcp_passthrough_state.cpp at concrete frames and states.
use native_ldac_xm5_windows.Prelude.{
  ℕ, ◌≡◌, refl, ◌≢◌, ◌⊎◌, true, none, some, List, [], ◌∷◌, ◌++◌, arith,
}
use native_ldac_xm5_windows.PassThrough.{
  route_to_current_media_session, no_actions, PassThroughDecision, no_decision, PassThroughState,
  initial_pass_through_state, is_current_generation, play, pause, pressed, released,
  PassThroughEvent, parse_pass_through_command,
}
use native_ldac_xm5_windows.PassThrough.Parse.{Writes, parse_exact}
use native_ldac_xm5_windows.PassThrough.Invariant.{Inv, Acts}
use native_ldac_xm5_windows.PassThrough.Keys.{count_acted, replicate, hold_triggers_once}

abbrev play_frame : List ℕ
play_frame = 0x00 ∷ 0x48 ∷ 0x7c ∷ 0xc4 ∷ 0x01 ∷ 0xff ∷ []

abbrev play_released : PassThroughEvent
play_released = record {
  operation = play;
  key_state = released;
  operation_id = 0x44;
  operation_data_length = 1;
}

play_frame_parses : parse_pass_through_command play_frame ≡ some play_released
unfolding parse_pass_through_command
play_frame_parses = refl

trailing_byte_refused : parse_pass_through_command (play_frame ++ 0 ∷ []) ≡ none
unfolding parse_pass_through_command
trailing_byte_refused = refl

parse_exact_example :
    ((parse_pass_through_command play_frame ≡ some play_released) × Writes play_frame play_released)
    ⊎ ((parse_pass_through_command play_frame ≢ some play_released)
        × ¬ Writes play_frame play_released)
parse_exact_example =
    parse_exact play_frame play_released
      (omega arith, (omega arith, (omega arith, (omega arith, (omega arith, (omega arith, tt))))))

-- A gate on link 1 that routes for owner 9.
abbrev routing : PassThroughState
routing = record initial_pass_through_state {
  acl_generation = 1;
  acl_generation_current = true;
  owner_lease = 9;
  authorization_epoch = 3;
  mode = route_to_current_media_session;
}

abbrev pause_press : PassThroughEvent
pause_press = record {
  operation = pause;
  key_state = pressed;
  operation_id = 0x46;
  operation_data_length = 0;
}

routing-Inv : Inv routing
routing-Inv = ground arith

pause-Acts : Acts routing 1 pause_press
unfolding is_current_generation
pause-Acts = ground arith

abbrev accepted_play : PassThroughDecision
accepted_play = record no_decision {
  actions = record no_actions { action_play = true };
  acl_generation = 1;
  owner_lease = 9;
  authorization_epoch = 3;
}

hold_triggers_once_example : count_acted routing 1 (replicate 4 pause_press) ≡ 1
hold_triggers_once_example = hold_triggers_once 3 routing 1 pause_press pause-Acts
