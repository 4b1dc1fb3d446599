-- ===== src/Protocol/Source/Answers.antt =====
-- Each answer of protocol/src/avdtp.c keeps to the order of the protocol.
use native_ldac_xm5_windows.Prelude.{
  ltb, leb, ◌==◌, if_rule, ◌is◌, length, drop, ℕ, ◌+◌, ◌≡◌, refl, sym, subst, ◌≢◌, ◌⊎◌, inl, inr,
  true, false, not, ◌&&◌, ◌||◌, List, [], arith,
}
use native_ldac_xm5_windows.Protocol.Codec.{
  codec_ok, codec_not_found, codec_status_enum, find_in_service_capabilities, choose_configuration,
  build_set_configuration_payload,
}
use native_ldac_xm5_windows.Protocol.Avdtp.{
  AvdtpError, single, MessageType, command, general_reject, reject, packet_type_enum,
  message_type_enum, AvdtpHeader, signal_discover, signal_get_capabilities,
  signal_set_configuration, signal_open, signal_close, signal_get_all_capabilities,
  max_remote_seids, parse_header, collect_audio_sinks,
}
use native_ldac_xm5_windows.Protocol.Source.{
  send_command, seid_payload, query_current_sink, seid_at, query_next_sink, source_begin, last_byte,
  handle_reject, accept_discover, send_configuration, accept_capabilities, accept_in,
  handle_response, source_handle_signaling, source_close, SourceState, source_idle, discover_sent,
  capabilities_sent, configuration_sent, open_sent, waiting_for_media_channel, source_open,
  start_sent, source_streaming, suspend_sent, close_sent, source_closed, source_failed,
  source_state_enum, ActionKind, send_signaling, open_media_channel, stream_ready, stream_suspended,
  session_closed, action_kind_enum, AvdtpSource, error_bad_packet, error_unexpected_response,
  error_no_audio_sink, error_ldac_not_supported, error_no_common_configuration, make_action,
}
use native_ldac_xm5_windows.Protocol.Source.Order.{
  Moves, queries, queries_again, configures, opens, waits, streams, suspends, closes, AlignedIn,
  Settled, Sound, fail-Settled, fail-Sound, pending, send-Settled, send-Sound,
}

query_current-Sound :
    (from : SourceState) (s : AvdtpSource)
    → Moves from send_signaling capabilities_sent
    → Sound from (query_current_sink s)
unfolding query_current_sink
query_current-Sound from s m =
    send-Sound from (record s { state = capabilities_sent; used_legacy_capabilities = false })
      signal_get_all_capabilities (seid_payload s.remote_seid) m refl

query_next-Sound : (s : AvdtpSource) → Sound capabilities_sent (query_next_sink s)
unfolding query_next_sink
query_next-Sound s =
    let next = s.remote_seid_index + 1 in
    if_rule (Sound capabilities_sent) (leb (length s.remote_seids) next) _ _
      (λ e. fail-Sound capabilities_sent s error_ldac_not_supported)
      (λ e.
        query_current-Sound capabilities_sent
          (record s { remote_seid_index = next; remote_seid = seid_at s.remote_seids next })
          queries_again)

configuration-Sound : (s : AvdtpSource) → Sound capabilities_sent (send_configuration s)
unfolding send_configuration
configuration-Sound s =
    let payload = build_set_configuration_payload 16 s.remote_seid s.local_seid s.configuration in
    if_rule (Sound capabilities_sent) (length payload == 0) _ _
      (λ e. fail-Sound capabilities_sent s error_bad_packet)
      (λ e.
        send-Sound capabilities_sent (record s { state = configuration_sent })
          signal_set_configuration payload configures refl)

discover-Sound :
    (s : AvdtpSource) (payload : List ℕ) → Sound discover_sent (accept_discover s payload)
unfolding accept_discover
discover-Sound s payload =
    let sinks = collect_audio_sinks max_remote_seids payload in
    if_rule (Sound discover_sent) (length sinks == 0) _ _
      (λ e. fail-Sound discover_sent s error_no_audio_sink)
      (λ e.
        query_current-Sound discover_sent
          (record s { remote_seids = sinks; remote_seid_index = 0; remote_seid = seid_at sinks 0 })
          queries)

capabilities-Sound :
    (s : AvdtpSource) (payload : List ℕ) → Sound capabilities_sent (accept_capabilities s payload)
unfolding accept_capabilities
capabilities-Sound s payload =
    let (status, remote) = find_in_service_capabilities payload s.remote_capabilities in
    let t = record s { remote_capabilities = remote } in
    let (chosen, configuration) =
      choose_configuration s.local_capabilities remote s.preferred_sample_rate_hz in
    let u = record t { configuration = configuration } in
    let P = Sound capabilities_sent in
    if_rule P (status is codec_not_found) _ _ (λ e. query_next-Sound t)
      (λ e.
        if_rule P (not (status is codec_ok)) _ _
          (λ e1. fail-Sound capabilities_sent t error_bad_packet)
          (λ e1.
            if_rule P (not (chosen is codec_ok)) _ _
              (λ e2. fail-Sound capabilities_sent u error_no_common_configuration)
              (λ e2. configuration-Sound u)))

-- Answers that do not ask.
done-Sound :
    (from : SourceState) (s : AvdtpSource) (kind : ActionKind)
    → Moves from kind s.state
    → AlignedIn s.state s
    → kind ≢ send_signaling
    → Sound from (s, make_action kind)
done-Sound from s kind m a n = record { moves = m; settled = record { aligned = a; asks = inl n } }

accept-Sound :
    (from : SourceState) (s : AvdtpSource) (payload : List ℕ)
    → Sound from (accept_in from s payload)
unfolding accept_in
accept-Sound discover_sent s payload = discover-Sound s payload
accept-Sound capabilities_sent s payload = capabilities-Sound s payload
accept-Sound configuration_sent s payload =
    send-Sound configuration_sent (record s { state = open_sent }) signal_open
      (seid_payload s.remote_seid) opens refl
accept-Sound open_sent s payload =
    done-Sound open_sent (record s { state = waiting_for_media_channel }) open_media_channel waits
      tt (ground arith)
accept-Sound start_sent s payload =
    done-Sound start_sent (record s { state = source_streaming }) stream_ready streams tt
      (ground arith)
accept-Sound suspend_sent s payload =
    done-Sound suspend_sent (record s { state = source_open }) stream_suspended suspends tt
      (ground arith)
accept-Sound close_sent s payload =
    done-Sound close_sent (record s { state = source_closed }) session_closed closes tt
      (ground arith)
accept-Sound waiting_for_media_channel s payload = fail-Sound _ s error_unexpected_response
accept-Sound source_open s payload = fail-Sound _ s error_unexpected_response
accept-Sound source_idle s payload = fail-Sound _ s error_unexpected_response
accept-Sound source_streaming s payload = fail-Sound _ s error_unexpected_response
accept-Sound source_closed s payload = fail-Sound _ s error_unexpected_response
accept-Sound source_failed s payload = fail-Sound _ s error_unexpected_response

capabilities_state : (s : SourceState) → (s is capabilities_sent) ≡ true → s ≡ capabilities_sent
capabilities_state s e = ground arith

retry-Sound :
    (s : AvdtpSource) (payload : List ℕ)
    → s.state ≡ capabilities_sent
    → Sound capabilities_sent (
        send_command (record s { used_legacy_capabilities = true }) signal_get_capabilities payload)
retry-Sound s payload h =
    let u = record s { used_legacy_capabilities = true } in
    send-Sound capabilities_sent u signal_get_capabilities payload
      (subst (λ x. Moves capabilities_sent send_signaling x) (sym h) queries_again)
      (subst (λ x. AlignedIn x (pending u signal_get_capabilities)) (sym h) refl)

reject-Sound :
    (s : AvdtpSource) (kind : MessageType) (payload : List ℕ)
    → Sound s.state (handle_reject s kind payload)
unfolding handle_reject
reject-Sound s kind payload =
    let P = Sound s.state in
    if_rule P
      (s.state is capabilities_sent
        && s.pending_signal_id == signal_get_all_capabilities
        && not s.used_legacy_capabilities)
      _ _
      (λ e.
        let h : s.state ≡ capabilities_sent = ground arith in
        subst
          (λ x. Sound x (
            send_command (record s { used_legacy_capabilities = true }) signal_get_capabilities
              (seid_payload s.remote_seid)))
          (sym h) (retry-Sound s (seid_payload s.remote_seid) h))
      (λ e.
        if_rule P (s.state is capabilities_sent) _ _
          (λ e1.
            subst (λ x. Sound x (query_next_sink s)) (sym (capabilities_state s.state e1))
              (query_next-Sound s))
          (λ e1.
            if_rule P (kind is reject && not (length payload == 0)) _ _
              (λ e2. fail-Sound s.state s (last_byte payload))
              (λ e2. fail-Sound s.state s error_unexpected_response)))

response-Sound :
    (s : AvdtpSource) (packet : List ℕ) (h : AvdtpError ⊎ AvdtpHeader)
    → Sound s.state (handle_response s packet h)
unfolding handle_response
response-Sound s packet (inl error) = fail-Sound s.state s error_bad_packet
response-Sound s packet (inr h) =
    let payload = drop h.payload_offset packet in
    let P = Sound s.state in
    if_rule P (not (h.packet_type is single) || ltb (length packet) h.payload_offset) _ _
      (λ e. fail-Sound s.state s error_bad_packet)
      (λ e.
        if_rule P
          (not (h.transaction_label == s.pending_transaction_label)
            || not (h.signal_id == s.pending_signal_id)
            || h.message_type is command)
          _ _ (λ e1. fail-Sound s.state s error_unexpected_response)
          (λ e1.
            if_rule P (h.message_type is reject || h.message_type is general_reject) _ _
              (λ e2. reject-Sound s h.message_type payload) (λ e2. accept-Sound s.state s payload)))

-- A source answers a response only along the order of the protocol, or fails; the signal that it
-- then waits for is the one of its state, and where it sends, the packet fits its buffer and reads
-- back as a command with the label and the signal that it waits for.
pub handle-Sound :
    (s : AvdtpSource) (packet : List ℕ) → Sound s.state (source_handle_signaling s packet)
unfolding source_handle_signaling
handle-Sound s packet =
    if_rule (Sound s.state)
      (s.state is source_failed || s.state is source_idle || s.state is source_streaming) _ _
      (λ e. fail-Sound s.state s error_unexpected_response)
      (λ e. response-Sound s packet (parse_header packet))

-- The first command, and the answer of a source to its media channel and to its client.
begin-Settled : (s : AvdtpSource) → Settled (source_begin s)
unfolding source_begin
begin-Settled s =
    if_rule Settled _ _ _ (λ e. fail-Settled s error_unexpected_response)
      (λ e. send-Settled (record s { state = discover_sent }) signal_discover [] refl)

close-Settled : (s : AvdtpSource) → Settled (source_close s)
unfolding source_close
close-Settled s =
    if_rule Settled _ _ _ (λ e. fail-Settled s error_unexpected_response)
      (λ e.
        send-Settled (record s { state = close_sent }) signal_close (seid_payload s.remote_seid)
          refl)
