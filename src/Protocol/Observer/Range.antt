-- ===== src/Protocol/Observer/Range.antt =====
-- What the observer of protocol/src/avrcp.c keeps: its labels, its volume and its packets are in
-- range, in what its client asks of it.
use native_ldac_xm5_windows.Prelude.{
  ltb, ◌==◌, if_rule, ◌is◌, length, ℕ, ◌≤◌, ◌≡◌, true, not, ◌&&◌, ◌||◌, List, [], ◌∷◌, arith,
}
use native_ldac_xm5_windows.Protocol.Avrcp.{
  AvrcpStatus, avrcp_no_space, avrcp_unexpected_response, avrcp_status_enum, ctype_control,
  ctype_status, ctype_notify, response_changed, pdu_get_capabilities, pdu_register_notification,
  event_playback_status_changed, avrcp_max_control_packet,
}
use native_ldac_xm5_windows.Protocol.Avrcp.Write.{
  write_vendor_command, write_vendor_response, write_get_capabilities_events,
  write_register_notification,
}
use native_ldac_xm5_windows.Protocol.Observer.{
  fail_stage, or_no_space, register_volume, observer_begin, first_or, second_or,
  submit_playback_status, observer_idle, observer_failed, observer_state_enum, ObserverEvent,
  ObserverResult, make_result, AvrcpObserver, ObserverStep, is_valid_playback_status,
}
use native_ldac_xm5_windows.Protocol.Observer.Handle.{write_frame, submit_write}
use native_ldac_xm5_windows.Protocol.Observer.Fits.{command_fits, response_fits}

pub record InRange (o : AvrcpObserver) : Type 0 where
  pub label_in : o.next_transaction_label ≤ 15
  pub volume_in : o.last_absolute_volume ≤ 0x7F
  pub status_in : is_valid_playback_status o.playback_status ≡ true

-- A step keeps the range, and its packet fits the buffer of its result.
pub record Good (step : ObserverStep) : Type 0 where
  pub in_range : InRange step.0
  pub fits : length step.1.packet ≤ avrcp_max_control_packet

pub fail-Good :
    (o : AvrcpObserver) (error : AvrcpStatus) (stage : ℕ) (packet : List ℕ)
    → InRange o
    → Good (fail_stage o error stage packet)
unfolding fail_stage
fail-Good o error stage packet h = record {
  in_range = record { label_in = h.label_in; volume_in = h.volume_in; status_in = h.status_in };
  fits = omega arith;
}

pub or_no_space-Good :
    (o : AvrcpObserver) (result : ObserverResult)
    → InRange o
    → length result.packet ≤ 64
    → Good (or_no_space o result)
or_no_space-Good o result h f =
    if_rule Good (length result.packet == 0) _ _ (λ e. fail-Good o avrcp_no_space 0 [] h)
      (λ e. record { in_range = h; fits = f })

pub register_volume-Good :
    (o : AvrcpObserver) (event : ObserverEvent) → InRange o → Good (register_volume o event)
unfolding register_volume write_register_notification
register_volume-Good o event h =
    or_no_space-Good _ _
      (record { label_in = omega arith; volume_in = h.volume_in; status_in = h.status_in })
      (command_fits o.next_transaction_label ctype_notify pdu_register_notification _)

begin-Good : (o : AvrcpObserver) → InRange o → Good (observer_begin o)
unfolding observer_begin write_get_capabilities_events
begin-Good o h =
    if_rule Good (not (o.state is observer_idle)) _ _
      (λ e. fail-Good o avrcp_unexpected_response 0 [] h)
      (λ e.
        or_no_space-Good _ _
          (record { label_in = omega arith; volume_in = h.volume_in; status_in = h.status_in })
          (command_fits o.next_transaction_label ctype_status pdu_get_capabilities _))

pub submit_playback-Good :
    (o : AvrcpObserver) (status : ℕ) → InRange o → Good (submit_playback_status o status)
unfolding submit_playback_status
submit_playback-Good o status h = record {
  in_range = record {
    label_in = ground (arith, h.label_in);
    volume_in = ground (arith, h.volume_in);
    status_in = ground (arith, h.status_in);
  };
  fits = ground (
    arith,
    response_fits o.playback_notification_label response_changed pdu_register_notification
        (event_playback_status_changed ∷ status ∷ []),
  );
}

submit_write-Good :
    (o : AvrcpObserver) (pdu_id response_code : ℕ) (parameters : List ℕ)
    → InRange o
    → Good (submit_write o pdu_id response_code parameters)
unfolding submit_write
submit_write-Good o pdu_id response_code parameters h =
    let label = o.next_transaction_label in
    let same : Good (o, make_result) = record { in_range = h; fits = omega arith } in
    if_rule Good (pdu_id == 0 || ltb 8 (length parameters)) _ _ (λ e. same)
      (λ e.
        if_rule Good
          (pdu_id == pdu_register_notification
            && response_code == response_changed
            && length parameters == 2
            && first_or 0 parameters == event_playback_status_changed)
          _ _ (λ e1. submit_playback-Good o (second_or 0 parameters) h)
          (λ e1.
            if_rule Good (o.state is observer_idle || o.state is observer_failed || o.write_active)
              _ _ (λ e2. same)
              (λ e2.
                if_rule Good (length (write_frame label pdu_id response_code parameters) == 0) _ _
                  (λ e3. record {
                    in_range = record {
                      label_in = omega arith;
                      volume_in = h.volume_in;
                      status_in = h.status_in;
                    };
                    fits = omega arith;
                  })
                  (λ e3. record {
                    in_range = record {
                      label_in = omega arith;
                      volume_in = h.volume_in;
                      status_in = h.status_in;
                    };
                    fits =
                        if_rule (λ (p : List ℕ). length p ≤ 64) (response_code == 0)
                          (write_vendor_command avrcp_max_control_packet label ctype_control pdu_id
                            parameters)
                          (write_vendor_response avrcp_max_control_packet label response_code pdu_id
                            parameters)
                          (λ e4. command_fits label ctype_control pdu_id parameters)
                          (λ e4. response_fits label response_code pdu_id parameters);
                  }))))

-- The range looks at three fields only.
pub ranged :
    (o p : AvrcpObserver)
    → p.next_transaction_label ≡ o.next_transaction_label
    → p.playback_status ≡ o.playback_status
    → p.last_absolute_volume ≤ 0x7F
    → InRange o
    → InRange p
ranged o p e f v h = record {
  label_in = omega (arith, h.label_in);
  volume_in = v;
  status_in = rw f h.status_in;
}
