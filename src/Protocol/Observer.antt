-- ===== src/Protocol/Observer.antt =====
-- The observer of protocol/include/ldac_native/avrcp.h and protocol/src/avrcp.c: it asks the
-- headset for its capabilities, registers for its volume, answers its commands, and sends what its
-- client submits.
mod State
pub mod Handle
pub mod Fits
pub mod Range
pub mod Answers
pub mod Volume
pub use State.*
use native_ldac_xm5_windows.Prelude.{
  ltb, leb, ◌==◌, if◌then◌else◌, ◌is◌, length, drop, take, ℕ, ◌⊎◌, inl, inr, Bool, true, false, not,
  ◌&&◌, ◌||◌, List, [], ◌∷◌,
}
use native_ldac_xm5_windows.Protocol.Avrcp.{
  AvrcpVendorFrame, AvrcpPassThrough, parse_pass_through, AvrcpStatus, avrcp_protocol_error,
  avrcp_no_space, avrcp_unexpected_response, avrcp_status_enum, ctype_control,
  response_not_implemented, response_accepted, response_stable, response_changed, response_interim,
  pdu_get_capabilities, pdu_get_play_status, pdu_register_notification, capability_events_supported,
  event_playback_status_changed, event_track_changed, event_volume_changed, operation_volume_up,
  operation_volume_down, operation_mute, operation_play, operation_stop, operation_pause,
  operation_forward, operation_backward, avrcp_max_control_packet,
}
use native_ldac_xm5_windows.Protocol.Avrcp.Write.{
  write_vendor_response, write_get_capabilities_events, write_register_notification,
  write_pass_through_response,
}

unfoldable pub fail_stage : AvrcpObserver → AvrcpStatus → ℕ → List ℕ → ObserverStep
fail_stage o error_code error_stage packet = (
  record o { state = observer_failed },
  record make_result {
    event = record empty_event {
      kind = protocol_error;
      error_stage = error_stage;
      error_code = error_code;
      raw_total_size = if ltb 0xFFFF (length packet) then 0xFFFF else length packet;
      raw_prefix = take 64 packet;
    };
  },
)

abbrev pub observer_fail : AvrcpObserver → AvrcpStatus → ObserverStep
observer_fail o error_code = fail_stage o error_code 0 []

-- A result whose packet could not be written is a failure.
abbrev pub or_no_space : AvrcpObserver → ObserverResult → ObserverStep
or_no_space o result =
    if length result.packet == 0 then observer_fail o avrcp_no_space else (o, result)

unfoldable pub register_volume : AvrcpObserver → ObserverEvent → ObserverStep
register_volume o event =
    let label = o.next_transaction_label in
    or_no_space
      (record o {
        next_transaction_label = following_label label;
        pending_transaction_label = label;
        pending_pdu_id = pdu_register_notification;
        state = wait_volume_interim;
      })
      (record {
        packet = write_register_notification avrcp_max_control_packet label event_volume_changed 0;
        event = event;
      })

unfoldable pub observer_begin : AvrcpObserver → ObserverStep
observer_begin o =
    let label = o.next_transaction_label in
    if not (o.state is observer_idle)
    then observer_fail o avrcp_unexpected_response
    else or_no_space
        (record o {
          next_transaction_label = following_label label;
          pending_transaction_label = label;
          pending_pdu_id = pdu_get_capabilities;
          state = wait_capabilities;
        })
        (record make_result {
          packet = write_get_capabilities_events avrcp_max_control_packet label;
        })

-- The `switch` on the operation.
abbrev pub pass_through_response : ℕ → ℕ
pass_through_response operation_id =
    if operation_id == operation_volume_up
      || operation_id == operation_volume_down
      || operation_id == operation_mute
      || operation_id == operation_play
      || operation_id == operation_stop
      || operation_id == operation_pause
      || operation_id == operation_forward
      || operation_id == operation_backward
    then response_accepted
    else response_not_implemented

unfoldable pub handle_parsed_pass_through :
    AvrcpObserver → List ℕ → AvrcpStatus ⊎ AvrcpPassThrough → ObserverStep
handle_parsed_pass_through o packet (inl status) = fail_stage o avrcp_protocol_error 5 packet
handle_parsed_pass_through o packet (inr parsed) =
    if not (parsed.frame.command_response == 0)
      || not (parsed.frame.ctype_or_response == ctype_control)
    then fail_stage o avrcp_protocol_error 5 packet
    else or_no_space o (record {
      packet =
          write_pass_through_response avrcp_max_control_packet packet
            (pass_through_response parsed.operation_id);
      event = record empty_event {
        kind = pass_through_event;
        operation_id = parsed.operation_id;
        released = parsed.released;
      };
    })

unfoldable pub handle_pass_through : AvrcpObserver → List ℕ → ObserverStep
handle_pass_through o packet = handle_parsed_pass_through o packet (parse_pass_through packet)

-- The loop over the events of the capabilities.
unfoldable pub includes_volume : List ℕ → Bool
includes_volume [] = false
includes_volume (event ∷ events) = event == event_volume_changed || includes_volume events

unfoldable pub capabilities_include_volume : List ℕ → Bool
capabilities_include_volume (capability ∷ count ∷ events) =
    capability == capability_events_supported && length events == count && includes_volume events
capabilities_include_volume _ = false

-- What a command of the headset is answered with: the observer, the response and its parameters.
pub record VendorAnswer : Type 0 where
  pub observer : AvrcpObserver
  pub response : ℕ
  pub parameters : List ℕ

abbrev pub answering : AvrcpObserver → ℕ → List ℕ → VendorAnswer
answering o response parameters = record {
  observer = o;
  response = response;
  parameters = parameters;
}

-- The answer to a registration for an event.
unfoldable pub answer_registration : AvrcpObserver → ℕ → ℕ → VendorAnswer
answer_registration o label event_id =
    if event_id == event_playback_status_changed
    then answering
        (record o {
          playback_notification_label = label;
          playback_notification_active = true;
          playback_notification_pending = false;
        })
        response_interim (event_playback_status_changed ∷ current_playback_status o ∷ [])
    else if event_id == event_track_changed
    then answering o response_interim (event_track_changed ∷ 0 ∷ 0 ∷ 0 ∷ 0 ∷ 0 ∷ 0 ∷ 0 ∷ 0 ∷ [])
    else if event_id == event_volume_changed
    then answering o response_interim (
        event_volume_changed
        ∷ (if o.last_absolute_volume_valid then o.last_absolute_volume else 0)
        ∷ [])
    else answering o response_not_implemented []

-- The first parameter, where there is one.
abbrev pub first_or : ℕ → List ℕ → ℕ
first_or default [] = default
first_or default (b ∷ bs) = b

-- The second byte of two.
abbrev pub second_or : ℕ → List ℕ → ℕ
second_or default [] = default
second_or default (b ∷ []) = default
second_or default (b ∷ c ∷ bs) = c

unfoldable pub vendor_answer : AvrcpObserver → ℕ → ℕ → List ℕ → VendorAnswer
vendor_answer o label pdu_id parameters =
    if pdu_id == pdu_get_capabilities
      && leb 1 (length parameters)
      && first_or 0 parameters == capability_events_supported
    then answering o response_stable (
        capability_events_supported ∷ 3 ∷ event_playback_status_changed ∷ event_track_changed
        ∷ event_volume_changed ∷ [])
    else if pdu_id == pdu_register_notification && leb 1 (length parameters)
    then answer_registration o label (first_or 0 parameters)
    else if pdu_id == pdu_get_play_status
    then answering o response_stable
        (current_playback_status o ∷ 0 ∷ 0 ∷ 0 ∷ 0 ∷ 0 ∷ 0 ∷ 0 ∷ 0 ∷ [])
    else answering o response_not_implemented []

-- The parameters of a vendor frame.
abbrev pub parameters_of : List ℕ → AvrcpVendorFrame → List ℕ
parameters_of packet vendor = take vendor.parameters_size (drop vendor.parameters_offset packet)

unfoldable pub handle_vendor_command : AvrcpObserver → List ℕ → AvrcpVendorFrame → ObserverStep
handle_vendor_command o packet vendor =
    let parameters = parameters_of packet vendor in
    let label = vendor.frame.transaction_label in
    let answer = vendor_answer o label vendor.pdu_id parameters in
    or_no_space answer.observer (record {
      packet =
          write_vendor_response avrcp_max_control_packet label answer.response vendor.pdu_id
            answer.parameters;
      event = record empty_event {
        kind = vendor_command;
        pdu_id = vendor.pdu_id;
        parameter_bytes = take 8 parameters;
      };
    })

-- The CHANGED response with a status.
abbrev pub playback_changed : AvrcpObserver → ℕ → List ℕ
playback_changed o playback_status =
    write_vendor_response avrcp_max_control_packet o.playback_notification_label response_changed
      pdu_register_notification (event_playback_status_changed ∷ playback_status ∷ [])

unfoldable pub submit_playback_status : AvrcpObserver → ℕ → ObserverStep
submit_playback_status o playback_status =
    let known = record o { playback_status = playback_status; playback_status_valid = true } in
    let queued = record known { playback_notification_pending = true } in
    let packet = playback_changed queued playback_status in
    if not (is_valid_playback_status playback_status)
      || o.state is observer_idle
      || o.state is observer_failed
    then (o, make_result)
    else if not o.playback_notification_active
    then (record known { playback_notification_pending = false }, make_result)
    else if o.write_active
    then (queued, make_result)
    else (
      (if length packet == 0 then queued else record queued {
        playback_notification_active = false;
        playback_notification_pending = false;
      }),
      record make_result { packet = packet },
    )
