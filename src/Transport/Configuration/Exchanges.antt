-- ===== src/Transport/Configuration/Exchanges.antt =====
-- The exchanges of agent/v1_transport_configuration_session.cpp keep what is known of the source.
use native_ldac_xm5_windows.Prelude.{
  ◌==◌, if_rule, ◌is◌, length, ℕ, ◌+◌, ◌≡◌, refl, sym, subst, ◌≢◌, ◌⊎◌, inl, inr, not, List, [],
  arith,
}
use native_ldac_xm5_windows.Protocol.Avdtp.{
  AvdtpError, command, packet_type_enum, message_type_enum, AvdtpHeader, signal_discover,
  signal_close, max_signaling_packet, parse_header, write_single,
}
use native_ldac_xm5_windows.Protocol.Source.{
  fail, send_command, seid_payload, source_begin, source_handle_signaling, source_close,
  discover_sent, waiting_for_media_channel, close_sent, source_state_enum, send_signaling,
  open_media_channel, action_error, action_kind_enum, AvdtpAction, AvdtpSource, SourceStep,
  error_bad_packet, error_unexpected_response, make_action,
}
use native_ldac_xm5_windows.Protocol.Source.Order.{AlignedIn, pending, send-Settled}
use native_ldac_xm5_windows.Protocol.Source.Answers.{handle-Sound}
use native_ldac_xm5_windows.Transport.Backend.{ExchangeReply, Backend, maximum_signaling_response}
use native_ldac_xm5_windows.Transport.Configuration.{
  exchange_answered, exchange_request, exchange_parsed, exchange_action, succeeded,
  ConfigurationOptions, ConfigurationResult, stage_for_signal,
}
use native_ldac_xm5_windows.Transport.Configuration.Tracked.{
  Known, Tracked, Traced, note-Grown, note-disposition, note-Known, note-closed, moves-waiting,
  kept-Grown, stopped-Traced,
}

-- The signal of a packet whose header is read.
abbrev Read : AvdtpError ⊎ AvdtpHeader → ℕ → Type 0
Read (inl error) n = Unit
Read (inr h) n = h.signal_id ≡ n

module _ {W : Type 0} (b : Backend W) (o : ConfigurationOptions) where
  answered-Traced :
      (signal : ℕ) (s : AvdtpSource) (r : ConfigurationResult) (reply : ExchangeReply) (w : W)
      → signal ≡ s.pending_signal_id
      → AlignedIn s.state s
      → Known s.state r.set_configuration_accepted r.avdtp_open_accepted
      → r.disposition ≢ succeeded
      → Traced r (exchange_answered b o signal s r reply w)
  unfolding exchange_answered
  answered-Traced signal s r reply w p a h n =
      let step = source_handle_signaling s reply.response in
      let sound = handle-Sound s reply.response in
      let grown = note-Grown signal step.1 r in
      if_rule (Traced r) (not reply.succeeded) _ _
        (λ e. stopped-Traced s r _ _ (ground arith) (kept-Grown r _ refl refl refl refl))
        (λ e.
          if_rule (Traced r) (step.1.kind is action_error) _ _
            (λ e1. stopped-Traced step.0 r _ w (ground arith) (record {
              set_stays = grown.set_stays;
              open_stays = grown.open_stays;
              media_stays = grown.media_stays;
              channel_stays = grown.channel_stays;
            }))
            (λ e1. record {
              not_yet = rw (note-disposition signal step.1 r) n;
              grown = grown;
              went = inr (record {
                asks = sound.settled.asks;
                waiting = moves-waiting s.state step.0.state step.1.kind sound.moves;
                aligned = sound.settled.aligned;
                known =
                    note-Known s s.state step.0.state step.1.kind signal step.1 r sound.moves refl a
                      p h;
                not_yet = rw (note-disposition signal step.1 r) n;
              });
              closing = inr (
                  note-closed s s.state step.0.state step.1.kind signal step.1 r sound.moves refl a
                    p);
            }))

  request-Traced :
      (packet : List ℕ) (signal : ℕ) (s : AvdtpSource) (r : ConfigurationResult) (w : W)
      → signal ≡ s.pending_signal_id
      → AlignedIn s.state s
      → Known s.state r.set_configuration_accepted r.avdtp_open_accepted
      → r.disposition ≢ succeeded
      → Traced r (exchange_request b o packet signal s r w)
  unfolding exchange_request
  request-Traced packet signal s r w p a h n =
      if_rule (Traced r) (b.cancelled w).0 _ _
        (λ e. stopped-Traced s r _ _ (ground arith) (kept-Grown r _ refl refl refl refl))
        (λ e.
          let q = record r {
            stage = stage_for_signal signal;
            signaling_exchanges = r.signaling_exchanges + 1;
          } in
          let (reply, w2) =
            b.exchange_signaling packet maximum_signaling_response o.exchange_timeout_ms
              (b.cancelled w).1 in
          let t = answered-Traced signal s q reply w2 p a h n in
          record {
            not_yet = t.not_yet;
            grown = record {
              set_stays = t.grown.set_stays;
              open_stays = t.grown.open_stays;
              media_stays = t.grown.media_stays;
              channel_stays = t.grown.channel_stays;
            };
            went = t.went;
            closing = t.closing;
          })

  parsed-Traced :
      (action : AvdtpAction) (s : AvdtpSource) (r : ConfigurationResult)
      (x : AvdtpError ⊎ AvdtpHeader) (w : W)
      → Read x s.pending_signal_id
      → Tracked action s r
      → Traced r (exchange_parsed b o action s r x w)
  unfolding exchange_parsed
  parsed-Traced action s r (inl error) w p t =
      stopped-Traced s r _ w (ground arith) (kept-Grown r _ refl refl refl refl)
  parsed-Traced action s r (inr h) w p t =
      request-Traced action.packet h.signal_id s r w p t.aligned t.known t.not_yet

  pub action-Traced :
      (action : AvdtpAction) (s : AvdtpSource) (r : ConfigurationResult) (w : W)
      → Tracked action s r
      → Traced r (exchange_action b o action s r w)
  unfolding exchange_action
  action-Traced action s r w t =
      if_rule (Traced r) (not (action.kind is send_signaling)) _ _
        (λ e. stopped-Traced s r _ w (ground arith) (kept-Grown r _ refl refl refl refl))
        (λ e. elim t.asks [
          | inl n ↦ absurd (n (ground arith))
          | inr asks ↦
              parsed-Traced action s r (parse_header action.packet) w
                (subst (λ x. Read x s.pending_signal_id) (sym asks.reads_back) refl) t
        ])

-- The source behind its first request, and behind the request that closes the stream.
fail-Tracked :
    (s : AvdtpSource) (e : ℕ) (r : ConfigurationResult)
    → r.disposition ≢ succeeded
    → Tracked (fail s e).1 (fail s e).0 r
unfolding fail
fail-Tracked s e r n = record {
  asks = inl (ground arith);
  waiting = inl (ground arith);
  aligned = tt;
  known = tt;
  not_yet = n;
}

send-Tracked :
    (s : AvdtpSource) (signal : ℕ) (payload : List ℕ) (r : ConfigurationResult)
    → r.disposition ≢ succeeded
    → AlignedIn s.state (pending s signal)
    → Known s.state r.set_configuration_accepted r.avdtp_open_accepted
    → Tracked (send_command s signal payload).1 (send_command s signal payload).0 r
unfolding send_command
send-Tracked s signal payload r n a k =
    let t = pending s signal in
    let packet =
      write_single max_signaling_packet s.next_transaction_label command signal payload in
    let step : SourceStep = (t, record (make_action send_signaling) { packet = packet }) in
    let settled = send-Settled s signal payload a in
    record {
      asks = settled.asks;
      waiting =
          if_rule
            (λ (x : SourceStep).
              (x.1.kind ≢ open_media_channel) ⊎ (x.0.state ≡ waiting_for_media_channel))
            (length packet == 0) (fail t error_bad_packet) step
            (λ e. (fail-Tracked t error_bad_packet r n).waiting) (λ e. inl (ground arith));
      aligned = settled.aligned;
      known =
          if_rule
            (λ (x : SourceStep). Known x.0.state r.set_configuration_accepted r.avdtp_open_accepted)
            (length packet == 0) (fail t error_bad_packet) step
            (λ e. (fail-Tracked t error_bad_packet r n).known) (λ e. k);
      not_yet = n;
    }

pub begin-Tracked :
    (s : AvdtpSource) (r : ConfigurationResult)
    → r.disposition ≢ succeeded
    → Tracked (source_begin s).1 (source_begin s).0 r
unfolding source_begin
begin-Tracked s r n =
    if_rule (λ (x : SourceStep). Tracked x.1 x.0 r) _ _ _
      (λ e. fail-Tracked s error_unexpected_response r n)
      (λ e. send-Tracked (record s { state = discover_sent }) signal_discover [] r n refl tt)

pub closing-Tracked :
    (s : AvdtpSource) (r : ConfigurationResult)
    → r.disposition ≢ succeeded
    → Tracked (source_close s).1 (source_close s).0 r
unfolding source_close
closing-Tracked s r n =
    if_rule (λ (x : SourceStep). Tracked x.1 x.0 r) _ _ _
      (λ e. fail-Tracked s error_unexpected_response r n)
      (λ e.
        send-Tracked (record s { state = close_sent }) signal_close (seid_payload s.remote_seid) r n
          refl tt)
