-- ===== src/Protocol/Source/Acceptance.antt =====
-- Which response a source of protocol/src/avdtp.c goes on for.
use native_ldac_xm5_windows.Prelude.{
  ltb, ◌==◌, if_rule, ◌is◌, length, drop, ℕ, ◌≡◌, refl, ◌≢◌, ◌⊎◌, inl, inr, false, not, ◌&&◌, ◌||◌,
  List, arith,
}
use native_ldac_xm5_windows.Protocol.Avdtp.{
  AvdtpError, single, MessageType, command, general_reject, accept, reject, packet_type_enum,
  message_type_enum, AvdtpHeader, signal_get_all_capabilities, parse_header,
}
use native_ldac_xm5_windows.Protocol.Source.{
  fail, last_byte, handle_reject, handle_response, source_handle_signaling, source_idle,
  capabilities_sent, source_streaming, source_failed, source_state_enum, action_error,
  action_kind_enum, AvdtpSource, SourceStep, error_bad_packet, error_unexpected_response,
}

-- The response is an acceptance of the request that the source waits for.
pub record Accepts (s : AvdtpSource) (response : List ℕ) : Type 0 where
  pub header : AvdtpHeader
  pub reads : parse_header response ≡ inr header
  pub label : header.transaction_label ≡ s.pending_transaction_label
  pub signal : header.signal_id ≡ s.pending_signal_id
  pub kind : header.message_type ≡ accept

accept_kind :
    (m : MessageType)
    → (m is command) ≡ false
    → (m is reject || m is general_reject) ≡ false
    → m ≡ accept
accept_kind command c r = ground arith
accept_kind accept c r = refl
accept_kind reject c r = ground arith
accept_kind general_reject c r = ground arith

fail_errs : (s : AvdtpSource) (e : ℕ) → (fail s e).1.kind ≡ action_error
unfolding fail
fail_errs s e = refl

reject_errs :
    (s : AvdtpSource) (m : MessageType) (payload : List ℕ)
    → s.state ≢ capabilities_sent
    → (handle_reject s m payload).1.kind ≡ action_error
unfolding handle_reject
reject_errs s m payload n =
    if_rule (λ (x : SourceStep). x.1.kind ≡ action_error)
      (s.state is capabilities_sent
        && s.pending_signal_id == signal_get_all_capabilities
        && not s.used_legacy_capabilities)
      _ _ (λ e. absurd (n (ground arith)))
      (λ e.
        if_rule (λ (x : SourceStep). x.1.kind ≡ action_error) (s.state is capabilities_sent) _ _
          (λ e1. absurd (n (ground arith)))
          (λ e1.
            if_rule (λ (x : SourceStep). x.1.kind ≡ action_error)
              (m is reject && not (length payload == 0)) _ _ (λ e2. fail_errs s (last_byte payload))
              (λ e2. fail_errs s error_unexpected_response)))

abbrev pub Answered : AvdtpSource → List ℕ → SourceStep → Type 0
Answered s response step = (step.1.kind ≡ action_error) ⊎ Accepts s response

response-Accepts :
    (s : AvdtpSource) (packet : List ℕ) (x : AvdtpError ⊎ AvdtpHeader)
    → parse_header packet ≡ x
    → s.state ≢ capabilities_sent
    → Answered s packet (handle_response s packet x)
unfolding handle_response
response-Accepts s packet (inl error) p n = inl (fail_errs s error_bad_packet)
response-Accepts s packet (inr h) p n =
    let payload = drop h.payload_offset packet in
    let P = Answered s packet in
    if_rule P (not (h.packet_type is single) || ltb (length packet) h.payload_offset) _ _
      (λ e. inl (fail_errs s error_bad_packet))
      (λ e.
        if_rule P
          (not (h.transaction_label == s.pending_transaction_label)
            || not (h.signal_id == s.pending_signal_id)
            || h.message_type is command)
          _ _ (λ e1. inl (fail_errs s error_unexpected_response))
          (λ e1.
            if_rule P (h.message_type is reject || h.message_type is general_reject) _ _
              (λ e2. inl (reject_errs s h.message_type payload n))
              (λ e2. inr (record {
                header = h;
                reads = p;
                label = ground (arith, e1);
                signal = ground (arith, e1);
                kind = accept_kind h.message_type (ground (arith, e1)) e2;
              }))))

-- A source that waits for something else than capabilities goes on only for an acceptance of its
-- request.
pub handle-Accepts :
    (s : AvdtpSource) (packet : List ℕ)
    → s.state ≢ capabilities_sent
    → Answered s packet (source_handle_signaling s packet)
unfolding source_handle_signaling
handle-Accepts s packet n =
    if_rule (Answered s packet)
      (s.state is source_failed || s.state is source_idle || s.state is source_streaming) _ _
      (λ e. inl (fail_errs s error_unexpected_response))
      (λ e. response-Accepts s packet (parse_header packet) refl n)
