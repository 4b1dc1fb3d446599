-- ===== src/Protocol/Observer/Volume.antt =====
-- How the observer of protocol/src/avrcp.c follows the volume of the headset, and how it notifies
-- it of the playback status.
use native_ldac_xm5_windows.Prelude.{
  Bool-cases, ◌is◌, drop, take, subst, sym, ℕ, ◌+◌, ◌*◌, ◌%◌, ◌≤◌, ◌≡◌, refl, ◌≢◌, ◌⊎◌, inl, inr,
  true, false, ◌||◌, List, [], ◌∷◌, arith,
}
use native_ldac_xm5_windows.Protocol.Avrcp.{
  AvrcpFrame, AvrcpVendorFrame, parse_frame, parse_vendor_frame, avrcp_status_enum,
  avrcp_profile_id, avrcp_company_id_bluetooth_sig, avrcp_opcode_vendor_dependent, response_changed,
  response_interim, ctype_notify, pdu_register_notification, event_playback_status_changed,
  event_volume_changed, avrcp_max_control_packet, avctp_packet_single, panel_subunit_type,
  panel_subunit_id,
}
use native_ldac_xm5_windows.Protocol.Avrcp.Write.{
  write_vendor_frame, write_vendor_response, write_vendor_command, write_register_notification,
}
use native_ldac_xm5_windows.Protocol.Avrcp.Frames.{parse-write_vendor_frame}
use native_ldac_xm5_windows.Protocol.Observer.{
  register_volume, ObserverStep, parameters_of, submit_playback_status, observer_idle,
  wait_volume_interim, observing, observer_failed, observer_state_enum, volume_changed,
  ObserverEvent, empty_event, make_result, AvrcpObserver, is_valid_playback_status,
}
use native_ldac_xm5_windows.Protocol.Observer.Handle.{
  handle_write_response, handle_volume, handle_vendor, handle_frame, handle_packet,
}

-- The frame with which a headset tells its volume.
abbrev pub volume_frame : ℕ → ℕ → ℕ → List ℕ
volume_frame label response volume =
    write_vendor_response avrcp_max_control_packet label response pdu_register_notification
      (event_volume_changed ∷ volume ∷ [])

-- An observer that waits for the volume of its registration, and has no write outstanding.
pub record Registered (o : AvrcpObserver) : Type 0 where
  pub label_in : o.pending_transaction_label ≤ 15
  pub next_in : o.next_transaction_label ≤ 15
  pub waits_for : o.pending_pdu_id ≡ pdu_register_notification
  pub writes_nothing : o.write_active ≡ false

-- The event for a volume.
abbrev pub volume_event : ℕ → ℕ → ObserverEvent
volume_event response volume = record empty_event {
  kind = volume_changed;
  volume_supported = true;
  absolute_volume = volume;
  response_code = response;
}

-- The observer with a volume.
abbrev pub with_volume : AvrcpObserver → ℕ → AvrcpObserver
with_volume o volume = record o { last_absolute_volume = volume; last_absolute_volume_valid = true }

-- What the observer reads in that frame.
abbrev pub frame_read : ℕ → ℕ → AvrcpFrame
frame_read label response = record {
  transaction_label = label;
  packet_type = avctp_packet_single;
  command_response = 1;
  invalid_profile_id = 0;
  profile_id = avrcp_profile_id;
  ctype_or_response = response;
  subunit_type = panel_subunit_type;
  subunit_id = panel_subunit_id;
  opcode = avrcp_opcode_vendor_dependent;
  operands_offset = 6;
  operands_size = 9;
}

abbrev pub vendor_read : ℕ → ℕ → AvrcpVendorFrame
vendor_read label response = record {
  frame = frame_read label response;
  company_id = avrcp_company_id_bluetooth_sig;
  pdu_id = pdu_register_notification;
  pdu_packet_type = 0;
  parameters_offset = 13;
  parameters_size = 2;
}

written_lem :
    (label response volume : ℕ)
    → label ≤ 15
    → volume_frame label response volume
      ≡ write_vendor_frame avrcp_max_control_packet
          (label * 16 + 1 * 2)
          response
          pdu_register_notification
          (event_volume_changed ∷ volume ∷ [])
unfolding write_vendor_response
written_lem label response volume l = ground arith

parse-volume_frame :
    (label response volume : ℕ)
    → label ≤ 15
    → response ≤ 15
    → parse_frame (volume_frame label response volume) ≡ inr (frame_read label response)
unfolding parse_frame write_vendor_frame
parse-volume_frame label response volume l r =
    rw (written_lem label response volume l) (ground arith)

vendor-volume_frame :
    (label response volume : ℕ)
    → label ≤ 15
    → response ≤ 15
    → (parse_vendor_frame (volume_frame label response volume) ≡ inr (vendor_read label response))
      × (parameters_of (volume_frame label response volume) (vendor_read label response)
          ≡ event_volume_changed ∷ volume ∷ [])
unfolding take
vendor-volume_frame label response volume l r =
    let (parsed, rest, fits) =
      parse-write_vendor_frame avrcp_max_control_packet label 1 response pdu_register_notification
        (event_volume_changed ∷ volume ∷ []) l (omega arith) r (omega arith) (omega arith) in
    rw (written_lem label response volume l) (parsed, rw rest refl)

handled_lem :
    (o : AvrcpObserver) (volume response : ℕ)
    → Registered o
    → response ≤ 15
    → (o.state is wait_volume_interim || o.state is observing) ≡ true
    → handle_packet o (volume_frame o.pending_transaction_label response volume)
      ≡ handle_volume o
          (volume_frame o.pending_transaction_label response volume)
          (vendor_read o.pending_transaction_label response)
unfolding handle_packet handle_frame handle_vendor
handled_lem o volume response h r s =
    rw
      (
        parse-volume_frame o.pending_transaction_label response volume h.label_in r,
        (vendor-volume_frame o.pending_transaction_label response volume h.label_in r).0,
      )
      (ground (arith, h.waits_for, h.writes_nothing))

-- The registration for the volume that an observer sends with its next label.
abbrev registration : ℕ → List ℕ
registration label =
    write_vendor_frame avrcp_max_control_packet (label * 16 + 0 * 2) ctype_notify
      pdu_register_notification (event_volume_changed ∷ 0 ∷ 0 ∷ 0 ∷ 0 ∷ [])

-- The observer that has sent it.
abbrev pub registering : AvrcpObserver → AvrcpObserver
registering o = record o {
  next_transaction_label = (o.next_transaction_label + 1) % 16;
  pending_transaction_label = o.next_transaction_label;
  pending_pdu_id = pdu_register_notification;
  state = wait_volume_interim;
}

-- What a headset reads in it.
abbrev pub registration_read : ℕ → AvrcpVendorFrame
registration_read label = record {
  frame = record {
    transaction_label = label;
    packet_type = avctp_packet_single;
    command_response = 0;
    invalid_profile_id = 0;
    profile_id = avrcp_profile_id;
    ctype_or_response = 3;
    subunit_type = panel_subunit_type;
    subunit_id = panel_subunit_id;
    opcode = avrcp_opcode_vendor_dependent;
    operands_offset = 6;
    operands_size = 12;
  };
  company_id = avrcp_company_id_bluetooth_sig;
  pdu_id = pdu_register_notification;
  pdu_packet_type = 0;
  parameters_offset = 13;
  parameters_size = 5;
}

registered_lem :
    (o : AvrcpObserver) (event : ObserverEvent)
    → o.next_transaction_label ≤ 15
    → register_volume o event
      ≡ (registering o, record { packet = registration o.next_transaction_label; event = event })
unfolding register_volume write_register_notification write_vendor_command write_vendor_frame
registered_lem o event n = ground arith

-- What an observer has done that has taken over a change of the volume.
pub record Follows (o : AvrcpObserver) (volume : ℕ) (step : ObserverStep) : Type 0 where
  pub registers : step.0 ≡ registering (with_volume o volume)
  pub told : step.1.event ≡ volume_event response_changed volume
  pub asks_again :
      parse_vendor_frame step.1.packet ≡ inr (registration_read o.next_transaction_label)
  pub asks_for_volume : drop 13 step.1.packet ≡ event_volume_changed ∷ 0 ∷ 0 ∷ 0 ∷ 0 ∷ []

register-Follows :
    (o : AvrcpObserver) (volume : ℕ)
    → o.next_transaction_label ≤ 15
    → Follows o volume
        (register_volume (with_volume o volume) (volume_event response_changed volume))
register-Follows o volume n =
    let (parsed, rest, fits) =
      parse-write_vendor_frame avrcp_max_control_packet o.next_transaction_label 0 ctype_notify
        pdu_register_notification (event_volume_changed ∷ 0 ∷ 0 ∷ 0 ∷ 0 ∷ []) n (omega arith)
        (omega arith) (omega arith) (omega arith) in
    subst (Follows o volume)
      (sym (registered_lem (with_volume o volume) (volume_event response_changed volume) n))
      (record { registers = refl; told = refl; asks_again = parsed; asks_for_volume = rest })

changed_lem :
    (o : AvrcpObserver) (volume : ℕ)
    → Registered o
    → volume ≤ 0x7F
    → o.state ≡ observing
    → handle_packet o (volume_frame o.pending_transaction_label response_changed volume)
      ≡ register_volume (with_volume o volume) (volume_event response_changed volume)
unfolding handle_volume
changed_lem o volume h v e =
    rw (handled_lem o volume response_changed h (omega arith) (ground arith)) (
      ground (
        arith,
        (vendor-volume_frame o.pending_transaction_label response_changed volume h.label_in
            (omega arith)).1,
      ))

-- An observer that has no write outstanding follows the volume of its headset. The volume in the
-- response to the registration that it waits for becomes its volume and is told to its client, and
-- it observes. The volume in the change that it then observes becomes its volume and is told
-- to its client, and it registers again: its packet reads back as the command with its next label
-- that registers for the volume, with no interval, and it waits for the response to that label.
pub volume_followed :
    (o : AvrcpObserver) (volume : ℕ)
    → Registered o
    → volume ≤ 0x7F
    → let l = o.pending_transaction_label in
      ((o.state ≢ wait_volume_interim)
        ⊎ (handle_packet o (volume_frame l response_interim volume) ≡ (
          record (with_volume o volume) { state = observing },
          record make_result { event = volume_event response_interim volume },
        )))
      × ((o.state ≢ observing)
          ⊎ Follows o volume (handle_packet o (volume_frame l response_changed volume)))
unfolding handle_volume
volume_followed o volume h v = (
  elim (Bool-cases (o.state is wait_volume_interim)) [
    | inl e ↦ inr (
        rw (handled_lem o volume response_interim h (omega arith) (ground arith)) (
          ground (
            arith,
            (vendor-volume_frame o.pending_transaction_label response_interim volume h.label_in
                (omega arith)).1,
          )))
    | inr n ↦ inl (ground arith)
  ],
  elim (Bool-cases (o.state is observing)) [
    | inl e ↦ inr (
        subst (Follows o volume) (sym (changed_lem o volume h v (ground arith)))
          (register-Follows o volume h.next_in))
    | inr n ↦ inl (ground arith)
  ],
)

-- The notification behind a write.
notified_lem :
    (o : AvrcpObserver) (packet : List ℕ) (vendor : AvrcpVendorFrame)
    → o.state ≢ observer_idle
    → o.state ≢ observer_failed
    → is_valid_playback_status o.playback_status ≡ true
    → o.playback_notification_active ≡ true
    → o.playback_notification_label ≤ 15
    → let (after, result) = handle_write_response o packet vendor in
      (result.packet
        ≡ write_vendor_frame avrcp_max_control_packet
            (o.playback_notification_label * 16 + 1 * 2)
            response_changed
            pdu_register_notification
            (event_playback_status_changed ∷ o.playback_status ∷ []))
      × (after.playback_notification_active ≡ false)
      × (after.write_active ≡ false)
unfolding handle_write_response submit_playback_status write_vendor_response write_vendor_frame
notified_lem o packet vendor i f v a l = (ground arith, ground arith, ground arith)

-- The response to a write, where the headset has registered for the playback status, is followed by
-- the CHANGED notification of the status that the observer holds, and the registration is used up,
-- whether a status was queued in the meantime or not.
pub write_response_notifies :
    (o : AvrcpObserver) (packet : List ℕ) (vendor : AvrcpVendorFrame)
    → o.state ≢ observer_idle
    → o.state ≢ observer_failed
    → is_valid_playback_status o.playback_status ≡ true
    → o.playback_notification_active ≡ true
    → o.playback_notification_label ≤ 15
    → let (after, result) = handle_write_response o packet vendor in
      (parse_vendor_frame result.packet
        ≡ inr (record (vendor_read o.playback_notification_label response_changed) {
          pdu_id = pdu_register_notification;
        }))
      × (drop 13 result.packet ≡ event_playback_status_changed ∷ o.playback_status ∷ [])
      × (after.playback_notification_active ≡ false)
      × (after.write_active ≡ false)
write_response_notifies o packet vendor i f v a l =
    let (parsed, rest, fits) =
      parse-write_vendor_frame avrcp_max_control_packet o.playback_notification_label 1
        response_changed pdu_register_notification
        (event_playback_status_changed ∷ o.playback_status ∷ []) l (omega arith) (omega arith)
        (omega arith) (omega arith) in
    let (e, used, free) = notified_lem o packet vendor i f v a l in
    (rw e parsed, rw e rest, used, free)
