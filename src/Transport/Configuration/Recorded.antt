-- ===== src/Transport/Configuration/Recorded.antt =====
-- A session of agent/v1_transport_configuration_session.cpp over a device that records its answers.
use native_ldac_xm5_windows.Prelude.{
  if_rule, ◌is◌, ℕ, ◌+◌, ◌≡◌, refl, sym, ◌∙◌, subst, inl, inr, true, false, not, List, ◌∷◌, arith,
}
use native_ldac_xm5_windows.Protocol.Avdtp.{packet_type_enum, message_type_enum, parse_header}
use native_ldac_xm5_windows.Protocol.Source.{
  source_handle_signaling, source_state_enum, send_signaling, action_error, action_kind_enum,
  AvdtpAction, AvdtpSource,
}
use native_ldac_xm5_windows.Protocol.Source.Order.{AlignedIn, Asks}
use native_ldac_xm5_windows.Transport.Backend.{
  ExchangeReply, Backend, Log, log_exchange, log_media, log_close, maximum_signaling_response,
}
use native_ldac_xm5_windows.Transport.Configuration.{
  exchange_answered, exchange_request, exchange_parsed, exchange_action, ConfigurationOptions,
  ConfigurationResult, stage_for_signal, note_accepted, Exchanged,
}
use native_ldac_xm5_windows.Transport.Configuration.Tracked.{Tracked}
use native_ldac_xm5_windows.Transport.Configuration.Accepted.{Backed, noted-Backed, same-Backed}

-- What a device with a log does to it.
pub record Logs {W : Type 0} (b : Backend W) (log : W → Log) : Type 0 where
  pub begins : (timeout : ℕ) (w : W) → log (b.open_signaling timeout w).1 ≡ log w
  pub exchanges :
      (request : List ℕ) (capacity timeout : ℕ) (w : W)
      → let (reply, v) = b.exchange_signaling request capacity timeout w in
        log v ≡ log_exchange request reply (log w)
  pub opens :
      (timeout mtu : ℕ) (w : W)
      → let (reply, v) = b.open_media timeout mtu w in log v ≡ log_media reply (log w)
  pub closes : (w : W) → let (answer, v) = b.close_signaling w in log v ≡ log_close answer.0 (log w)
  pub probes : (w : W) → log (b.cancelled w).1 ≡ log w

unanswered_log :
    (request : List ℕ) (reply : ExchangeReply) (l : Log)
    → not reply.succeeded ≡ true
    → log_exchange request reply l ≡ l
unanswered_log request reply l e = ground arith

answered_log :
    (request : List ℕ) (reply : ExchangeReply) (l : Log)
    → not reply.succeeded ≡ false
    → log_exchange request reply l
      ≡ record l { exchanges = (request, reply.response) ∷ l.exchanges }
answered_log request reply l e = ground arith

module _ {W : Type 0} (b : Backend W) (o : ConfigurationOptions) (log : W → Log)
    (k : Logs b log) where
  abbrev pub Out : ConfigurationResult × W → Type 0
  Out (r, w) = Backed r (log w)

  abbrev pub OutExchanged : Exchanged W → Type 0
  OutExchanged e = Backed e.result (log e.world)

  answered-Backed :
      (packet : List ℕ) (signal : ℕ) (s : AvdtpSource) (r : ConfigurationResult)
      (reply : ExchangeReply) (w : W) (l : Log)
      → log w ≡ log_exchange packet reply l
      → signal ≡ s.pending_signal_id
      → AlignedIn s.state s
      → Asks s packet
      → Backed r l
      → OutExchanged (exchange_answered b o signal s r reply w)
  unfolding exchange_answered
  answered-Backed packet signal s r reply w l q p a asks h =
      let step = source_handle_signaling s reply.response in
      if_rule OutExchanged (not reply.succeeded) _ _
        (λ e.
          same-Backed r _ l (log (b.cancelled w).1)
            (sym (k.probes w ∙ q ∙ unanswered_log packet reply l e)) refl refl refl refl refl h)
        (λ e.
          let at : log w ≡ record l { exchanges = (packet, reply.response) ∷ l.exchanges } =
            q ∙ answered_log packet reply l e in
          let noted = noted-Backed s signal packet reply.response r l p a asks h in
          if_rule OutExchanged (step.1.kind is action_error) _ _
            (λ e1.
              same-Backed (note_accepted signal step.1 r) _ _ (log w) (sym at) refl refl refl refl
                refl noted)
            (λ e1.
              same-Backed (note_accepted signal step.1 r) _ _ (log w) (sym at) refl refl refl refl
                refl noted))

  request-Backed :
      (packet : List ℕ) (signal : ℕ) (s : AvdtpSource) (r : ConfigurationResult) (w : W)
      → signal ≡ s.pending_signal_id
      → AlignedIn s.state s
      → Asks s packet
      → Backed r (log w)
      → OutExchanged (exchange_request b o packet signal s r w)
  unfolding exchange_request
  request-Backed packet signal s r w p a asks h =
      let (probe, w1) = b.cancelled w in
      let (reply, w2) =
        b.exchange_signaling packet maximum_signaling_response o.exchange_timeout_ms w1 in
      let q = record r {
        stage = stage_for_signal signal;
        signaling_exchanges = r.signaling_exchanges + 1;
      } in
      let probed : Backed q (log w1) =
        same-Backed r q (log w) (log w1) (sym (k.probes w)) refl refl refl refl refl h in
      if_rule OutExchanged probe _ _
        (λ e. same-Backed q _ (log w1) (log w1) refl refl refl refl refl refl probed)
        (λ e.
          answered-Backed packet signal s q reply w2 (log w1)
            (k.exchanges packet maximum_signaling_response o.exchange_timeout_ms w1) p a asks
            probed)

  -- The header of a request that the source waits for.
  parsed-Backed :
      (action : AvdtpAction) (s : AvdtpSource) (r : ConfigurationResult) (w : W)
      → AlignedIn s.state s
      → Asks s action.packet
      → Backed r (log w)
      → OutExchanged (exchange_parsed b o action s r (parse_header action.packet) w)
  unfolding exchange_parsed
  parsed-Backed action s r w a asks h =
      subst (λ x. OutExchanged (exchange_parsed b o action s r x w)) (sym asks.reads_back)
        (request-Backed action.packet s.pending_signal_id s r w refl a asks h)

  pub action-Backed :
      (action : AvdtpAction) (s : AvdtpSource) (r : ConfigurationResult) (w : W)
      → Tracked action s r
      → Backed r (log w)
      → OutExchanged (exchange_action b o action s r w)
  unfolding exchange_action
  action-Backed action s r w t h =
      if_rule OutExchanged (not (action.kind is send_signaling)) _ _
        (λ e. same-Backed r _ (log w) (log w) refl refl refl refl refl refl h)
        (λ e. elim t.asks [
          | inl n ↦ absurd (n (ground arith))
          | inr asks ↦ parsed-Backed action s r w t.aligned asks h
        ])
