-- ===== src/Protocol/Observer/Answers.antt =====
-- The packets that arrive keep the observer of protocol/src/avrcp.c in range.
use native_ldac_xm5_windows.Prelude.{
  ltb, ◌==◌, if_rule, ◌is◌, ℕ, ◌≤◌, refl, ◌⊎◌, inl, inr, false, not, ◌&&◌, ◌||◌, List, [], arith,
}
use native_ldac_xm5_windows.Protocol.Avrcp.{
  AvrcpFrame, AvrcpVendorFrame, AvrcpPassThrough, parse_frame, parse_vendor_frame,
  parse_pass_through, AvrcpStatus, avrcp_protocol_error, avrcp_unexpected_response,
  avrcp_status_enum, avrcp_opcode_pass_through, ctype_control, response_stable, response_changed,
  response_interim, event_volume_changed,
}
use native_ldac_xm5_windows.Protocol.Observer.{
  pass_through_response, handle_parsed_pass_through, handle_pass_through,
  capabilities_include_volume, answer_registration, first_or, second_or, vendor_answer,
  parameters_of, handle_vendor_command, observer_idle, wait_capabilities, wait_volume_interim,
  observing, observer_failed, observer_state_enum, AvrcpObserver,
}
use native_ldac_xm5_windows.Protocol.Observer.Handle.{
  handle_write_response, handle_capabilities, handle_volume, handle_vendor, handle_frame,
  handle_packet,
}
use native_ldac_xm5_windows.Protocol.Observer.Fits.{response_fits, pass_through_fits}
use native_ldac_xm5_windows.Protocol.Observer.Range.{
  InRange, Good, fail-Good, or_no_space-Good, register_volume-Good, submit_playback-Good, ranged,
}

pass_through-Good :
    (o : AvrcpObserver) (packet : List ℕ) (x : AvrcpStatus ⊎ AvrcpPassThrough)
    → InRange o
    → Good (handle_parsed_pass_through o packet x)
unfolding handle_parsed_pass_through
pass_through-Good o packet (inl status) h = fail-Good o avrcp_protocol_error 5 packet h
pass_through-Good o packet (inr parsed) h =
    if_rule Good
      (not (parsed.frame.command_response == 0)
        || not (parsed.frame.ctype_or_response == ctype_control))
      _ _ (λ e. fail-Good o avrcp_protocol_error 5 packet h)
      (λ e.
        or_no_space-Good o _ h
          (pass_through_fits packet (pass_through_response parsed.operation_id)))

answer-InRange :
    (o : AvrcpObserver) (label pdu_id : ℕ) (parameters : List ℕ)
    → InRange o
    → InRange (vendor_answer o label pdu_id parameters).observer
unfolding vendor_answer answer_registration
answer-InRange o label pdu_id parameters h = record {
  label_in = ground (arith, h.label_in);
  volume_in = ground (arith, h.volume_in);
  status_in = ground (arith, h.status_in);
}

vendor_command-Good :
    (o : AvrcpObserver) (packet : List ℕ) (vendor : AvrcpVendorFrame)
    → InRange o
    → Good (handle_vendor_command o packet vendor)
unfolding handle_vendor_command
vendor_command-Good o packet vendor h =
    or_no_space-Good _ _ (answer-InRange o _ vendor.pdu_id (parameters_of packet vendor) h)
      (response_fits vendor.frame.transaction_label _ vendor.pdu_id _)

write_response-Good :
    (o : AvrcpObserver) (packet : List ℕ) (vendor : AvrcpVendorFrame)
    → InRange o
    → Good (handle_write_response o packet vendor)
unfolding handle_write_response
write_response-Good o packet vendor h =
    let free = record o { write_active = false } in
    let good =
      submit_playback-Good free o.playback_status
        (record { label_in = h.label_in; volume_in = h.volume_in; status_in = h.status_in }) in
    record { in_range = good.in_range; fits = good.fits }

capabilities-Good :
    (o : AvrcpObserver) (packet : List ℕ) (vendor : AvrcpVendorFrame)
    → InRange o
    → Good (handle_capabilities o packet vendor)
unfolding handle_capabilities
capabilities-Good o packet vendor h =
    if_rule Good (not (vendor.frame.ctype_or_response == response_stable)) _ _
      (λ e. fail-Good o avrcp_unexpected_response 4 packet h)
      (λ e.
        if_rule Good (not (capabilities_include_volume (parameters_of packet vendor))) _ _
          (λ e1. record { in_range = ranged o _ refl refl h.volume_in h; fits = omega arith })
          (λ e1. register_volume-Good _ _ (ranged o _ refl refl h.volume_in h)))

volume-Good :
    (o : AvrcpObserver) (packet : List ℕ) (vendor : AvrcpVendorFrame)
    → InRange o
    → Good (handle_volume o packet vendor)
unfolding handle_volume
volume-Good o packet vendor h =
    let parameters = parameters_of packet vendor in
    let volume = second_or 0 parameters in
    let response = vendor.frame.ctype_or_response in
    if_rule Good
      (not (o.state is wait_volume_interim || o.state is observing)
        || not (vendor.parameters_size == 2)
        || not (first_or 0 parameters == event_volume_changed)
        || ltb 0x7F volume)
      _ _ (λ e. fail-Good o avrcp_unexpected_response 4 packet h)
      (λ e.
        let v : volume ≤ 0x7F = ground arith in
        if_rule Good (response == response_interim && o.state is wait_volume_interim) _ _
          (λ e1. record { in_range = ranged o _ refl refl v h; fits = omega arith })
          (λ e1.
            if_rule Good (response == response_changed && o.state is observing) _ _
              (λ e2. register_volume-Good _ _ (ranged o _ refl refl v h))
              (λ e2. fail-Good _ avrcp_unexpected_response 4 packet (ranged o _ refl refl v h))))

vendor-Good :
    (o : AvrcpObserver) (packet : List ℕ) (x : AvrcpStatus ⊎ AvrcpVendorFrame)
    → InRange o
    → Good (handle_vendor o packet x)
unfolding handle_vendor
vendor-Good o packet (inl status) h = fail-Good o status 2 packet h
vendor-Good o packet (inr vendor) h =
    let label = vendor.frame.transaction_label in
    let is_command = vendor.frame.command_response == 0 in
    if_rule Good
      (o.write_active
        && not is_command
        && label == o.write_label
        && vendor.pdu_id == o.write_pdu_id)
      _ _ (λ e. write_response-Good o packet vendor h)
      (λ e.
        if_rule Good is_command _ _ (λ e1. vendor_command-Good o packet vendor h)
          (λ e1.
            if_rule Good
              (not (label == o.pending_transaction_label)
                || not (vendor.pdu_id == o.pending_pdu_id))
              _ _ (λ e2. fail-Good o avrcp_unexpected_response 3 packet h)
              (λ e2.
                if_rule Good (o.state is wait_capabilities) _ _
                  (λ e3. capabilities-Good o packet vendor h)
                  (λ e3. volume-Good o packet vendor h))))

frame-Good :
    (o : AvrcpObserver) (packet : List ℕ) (x : AvrcpStatus ⊎ AvrcpFrame)
    → InRange o
    → Good (handle_frame o packet x)
unfolding handle_frame handle_pass_through
frame-Good o packet (inl status) h = fail-Good o status 1 packet h
frame-Good o packet (inr frame) h =
    if_rule Good (frame.opcode == avrcp_opcode_pass_through && frame.command_response == 0) _ _
      (λ e. pass_through-Good o packet (parse_pass_through packet) h)
      (λ e. vendor-Good o packet (parse_vendor_frame packet) h)

-- Whatever packet arrives, the observer keeps its label below 16, its volume at most 127 and its
-- status one of the three, and what it answers fits the 64 bytes of its result.
pub handle_packet-Good :
    (o : AvrcpObserver) (packet : List ℕ) → InRange o → Good (handle_packet o packet)
unfolding handle_packet
handle_packet-Good o packet h =
    if_rule Good (o.state is observer_idle || o.state is observer_failed) _ _
      (λ e. fail-Good o avrcp_unexpected_response 0 [] h)
      (λ e. frame-Good o packet (parse_frame packet) h)
