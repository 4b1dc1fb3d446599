-- ===== src/Protocol/Observer/Handle.antt =====
-- `avrcp_observer_submit_write` and `avrcp_observer_handle_packet` of protocol/src/avrcp.c.
use native_ldac_xm5_windows.Prelude.{
  ltb, ◌==◌, if◌then◌else◌, ◌is◌, length, take, ℕ, ◌⊎◌, inl, inr, true, false, not, ◌&&◌, ◌||◌,
  List,
}
use native_ldac_xm5_windows.Protocol.Avrcp.{
  AvrcpFrame, AvrcpVendorFrame, parse_frame, parse_vendor_frame, AvrcpStatus,
  avrcp_unexpected_response, avrcp_status_enum, avrcp_opcode_pass_through, ctype_control,
  response_stable, response_changed, response_interim, pdu_register_notification,
  event_playback_status_changed, event_volume_changed, avrcp_max_control_packet,
}
use native_ldac_xm5_windows.Protocol.Avrcp.Write.{write_vendor_command, write_vendor_response}
use native_ldac_xm5_windows.Protocol.Observer.{
  fail_stage, observer_fail, register_volume, handle_pass_through, capabilities_include_volume,
  first_or, second_or, parameters_of, handle_vendor_command, submit_playback_status, observer_idle,
  wait_capabilities, wait_volume_interim, observing, unsupported, observer_failed,
  observer_state_enum, volume_capability, volume_changed, write_response, empty_event, make_result,
  AvrcpObserver, ObserverStep, following_label,
}

-- The frame of a write, as a command or as a response.
abbrev pub write_frame : ℕ → ℕ → ℕ → List ℕ → List ℕ
write_frame label pdu_id response_code parameters =
    if response_code == 0
    then write_vendor_command avrcp_max_control_packet label ctype_control pdu_id parameters
    else write_vendor_response avrcp_max_control_packet label response_code pdu_id parameters

unfoldable pub submit_write : AvrcpObserver → ℕ → ℕ → List ℕ → ObserverStep
submit_write o pdu_id response_code parameters =
    let label = o.next_transaction_label in
    let labelled = record o { next_transaction_label = following_label label } in
    let packet = write_frame label pdu_id response_code parameters in
    if pdu_id == 0 || ltb 8 (length parameters)
    then (o, make_result)
    else if pdu_id == pdu_register_notification
        && response_code == response_changed
        && length parameters == 2
        && first_or 0 parameters == event_playback_status_changed
    then submit_playback_status o (second_or 0 parameters)
    else if o.state is observer_idle || o.state is observer_failed || o.write_active
    then (o, make_result)
    else if length packet == 0
    then (labelled, make_result)
    else (
      record labelled { write_label = label; write_pdu_id = pdu_id; write_active = true },
      record make_result { packet = packet },
    )

-- The response to the outstanding write.
unfoldable pub handle_write_response : AvrcpObserver → List ℕ → AvrcpVendorFrame → ObserverStep
handle_write_response o packet vendor =
    let free = record o { write_active = false } in
    let (after, notification) = submit_playback_status free free.playback_status in
    (
      after,
      record {
        packet = notification.packet;
        event = record empty_event {
          kind = write_response;
          response_code = vendor.frame.ctype_or_response;
          pdu_id = vendor.pdu_id;
          parameter_bytes = take 8 (parameters_of packet vendor);
        };
      },
    )

-- The response to the query of the capabilities.
unfoldable pub handle_capabilities : AvrcpObserver → List ℕ → AvrcpVendorFrame → ObserverStep
handle_capabilities o packet vendor =
    let supported = capabilities_include_volume (parameters_of packet vendor) in
    let known = record o { volume_supported = supported } in
    let event = record empty_event { kind = volume_capability; volume_supported = supported } in
    if not (vendor.frame.ctype_or_response == response_stable)
    then fail_stage o avrcp_unexpected_response 4 packet
    else if not supported
    then (record known { state = unsupported }, record make_result { event = event })
    else register_volume known event

-- The response to the registration for the volume.
unfoldable pub handle_volume : AvrcpObserver → List ℕ → AvrcpVendorFrame → ObserverStep
handle_volume o packet vendor =
    let parameters = parameters_of packet vendor in
    let volume = second_or 0 parameters in
    let response = vendor.frame.ctype_or_response in
    let known = record o { last_absolute_volume = volume; last_absolute_volume_valid = true } in
    let event = record empty_event {
      kind = volume_changed;
      volume_supported = true;
      absolute_volume = volume;
      response_code = response;
    } in
    if not (o.state is wait_volume_interim || o.state is observing)
      || not (vendor.parameters_size == 2)
      || not (first_or 0 parameters == event_volume_changed)
      || ltb 0x7F volume
    then fail_stage o avrcp_unexpected_response 4 packet
    else if response == response_interim && o.state is wait_volume_interim
    then (record known { state = observing }, record make_result { event = event })
    else if response == response_changed && o.state is observing
    then register_volume known event
    else fail_stage known avrcp_unexpected_response 4 packet

unfoldable pub handle_vendor :
    AvrcpObserver → List ℕ → AvrcpStatus ⊎ AvrcpVendorFrame → ObserverStep
handle_vendor o packet (inl status) = fail_stage o status 2 packet
handle_vendor o packet (inr vendor) =
    let label = vendor.frame.transaction_label in
    let is_command = vendor.frame.command_response == 0 in
    if o.write_active && not is_command && label == o.write_label && vendor.pdu_id == o.write_pdu_id
    then handle_write_response o packet vendor
    else if is_command
    then handle_vendor_command o packet vendor
    else if not (label == o.pending_transaction_label) || not (vendor.pdu_id == o.pending_pdu_id)
    then fail_stage o avrcp_unexpected_response 3 packet
    else if o.state is wait_capabilities
    then handle_capabilities o packet vendor
    else handle_volume o packet vendor

unfoldable pub handle_frame : AvrcpObserver → List ℕ → AvrcpStatus ⊎ AvrcpFrame → ObserverStep
handle_frame o packet (inl status) = fail_stage o status 1 packet
handle_frame o packet (inr frame) =
    if frame.opcode == avrcp_opcode_pass_through && frame.command_response == 0
    then handle_pass_through o packet
    else handle_vendor o packet (parse_vendor_frame packet)

unfoldable pub handle_packet : AvrcpObserver → List ℕ → ObserverStep
handle_packet o packet =
    if o.state is observer_idle || o.state is observer_failed
    then observer_fail o avrcp_unexpected_response
    else handle_frame o packet (parse_frame packet)
