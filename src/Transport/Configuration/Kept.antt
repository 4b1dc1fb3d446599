-- ===== src/Transport/Configuration/Kept.antt =====
-- The exchanges of agent/v1_transport_configuration_session.cpp: what they keep, and the end of
-- their loop.
use native_ldac_xm5_windows.Prelude.{
  if_rule, branch_rule, ◌is◌, ℕ, zero, suc, ◌+◌, ◌≤◌, ◌<◌, ◌≡◌, refl, ◌≢◌, ◌⊎◌, inl, inr, true,
  false, not, Option, none, some, List, arith,
}
use native_ldac_xm5_windows.Protocol.Source.{
  source_handle_signaling, source_state_enum, ActionKind, send_signaling, action_error,
  action_kind_enum, AvdtpAction, AvdtpSource,
}
use native_ldac_xm5_windows.Protocol.Avdtp.{
  AvdtpError, packet_type_enum, message_type_enum, AvdtpHeader, parse_header,
}
use native_ldac_xm5_windows.Protocol.Source.Progress.{rank, handle-SendsBelow}
use native_ldac_xm5_windows.Transport.Backend.{ExchangeReply, Backend, maximum_signaling_response}
use native_ldac_xm5_windows.Transport.Configuration.{
  exchange_answered, exchange_request, exchange_parsed, exchange_action, exchange_loop,
  ConfigurationOptions, ConfigurationResult, note_accepted, Exchanged, stopped, gone_on,
}

-- What the calls between the opening and the closing of the channel keep of the world.
pub record Keeps {W : Type 0} (b : Backend W) (J : W → Type 0) : Type 0 where
  pub by_exchange :
      (request : List ℕ) (capacity timeout : ℕ) (w : W)
      → J w
      → J (b.exchange_signaling request capacity timeout w).1
  pub by_media : (timeout mtu : ℕ) (w : W) → J w → J (b.open_media timeout mtu w).1
  pub by_probe : (w : W) → J w → J (b.cancelled w).1

noted_lem :
    (signal : ℕ) (next : AvdtpAction) (r : ConfigurationResult)
    → ((note_accepted signal next r).signaling_opened ≡ r.signaling_opened)
      × ((note_accepted signal next r).signaling_exchanges ≡ r.signaling_exchanges)
unfolding note_accepted
noted_lem signal next r = (ground arith, ground arith)

-- One exchange: the world keeps what it keeps, the channel stays open, at most one request is
-- counted, and where the exchange went on, the source has come down if it sends again.
pub record Kept {W : Type 0} (J : W → Type 0) (s : AvdtpSource) (r : ConfigurationResult)
    (e : Exchanged W) : Type 0 where
  pub holds : J e.world
  pub still_open : e.result.signaling_opened ≡ true
  pub counts : e.result.signaling_exchanges ≤ r.signaling_exchanges + 1
  pub further : (e.went_on ≡ false) ⊎ (e.next.kind ≢ send_signaling) ⊎ (rank e.source < rank s)

-- The loop has ended, after so many requests at most.
pub record Left {W : Type 0} (J : W → Type 0) (n : ℕ) (e : Exchanged W) : Type 0 where
  pub holds : J e.world
  pub still_open : e.result.signaling_opened ≡ true
  pub counts : e.result.signaling_exchanges ≤ n

abbrev pub Looped : {W : Type 0} → (W → Type 0) → Option (Exchanged W) → ℕ → Type 0
Looped J none n = ⊥
Looped J (some e) n = Left J n e

module _ {W : Type 0} (b : Backend W) (o : ConfigurationOptions) (J : W → Type 0)
    (k : Keeps b J) where
  stopped-Kept :
      (s t : AvdtpSource) (r q : ConfigurationResult) (w : W)
      → J w
      → q.signaling_opened ≡ true
      → q.signaling_exchanges ≤ r.signaling_exchanges + 1
      → Kept J s r (stopped t q w)
  stopped-Kept s t r q w j h c = record {
    holds = j;
    still_open = h;
    counts = c;
    further = inl refl;
  }

  answered-Kept :
      (signal : ℕ) (s : AvdtpSource) (r q : ConfigurationResult) (reply : ExchangeReply) (w : W)
      → J w
      → q.signaling_opened ≡ true
      → q.signaling_exchanges ≤ r.signaling_exchanges + 1
      → Kept J s r (exchange_answered b o signal s q reply w)
  unfolding exchange_answered
  answered-Kept signal s r q reply w j h c =
      let step = source_handle_signaling s reply.response in
      let noted = noted_lem signal step.1 q in
      if_rule (Kept J s r) (not reply.succeeded) _ _
        (λ e. stopped-Kept s s r _ _ (k.by_probe w j) h c)
        (λ e.
          if_rule (Kept J s r) (step.1.kind is action_error) _ _
            (λ e1. stopped-Kept s step.0 r _ w j (cc) (omega arith))
            (λ e1. record {
              holds = j;
              still_open = cc;
              counts = omega arith;
              further = inr (handle-SendsBelow s reply.response);
            }))

  request-Kept :
      (packet : List ℕ) (signal : ℕ) (s : AvdtpSource) (r : ConfigurationResult) (w : W)
      → J w
      → r.signaling_opened ≡ true
      → Kept J s r (exchange_request b o packet signal s r w)
  unfolding exchange_request
  request-Kept packet signal s r w j h =
      let j1 = k.by_probe w j in
      if_rule (Kept J s r) (b.cancelled w).0 _ _ (λ e. stopped-Kept s s r _ _ j1 h (omega arith))
        (λ e.
          answered-Kept signal s r _ _ _
            (k.by_exchange packet maximum_signaling_response o.exchange_timeout_ms _ j1) h
            (omega arith))

  parsed-Kept :
      (action : AvdtpAction) (s : AvdtpSource) (r : ConfigurationResult)
      (h : AvdtpError ⊎ AvdtpHeader) (w : W)
      → J w
      → r.signaling_opened ≡ true
      → Kept J s r (exchange_parsed b o action s r h w)
  unfolding exchange_parsed
  parsed-Kept action s r (inl error) w j e = stopped-Kept s s r _ w j e (omega arith)
  parsed-Kept action s r (inr h) w j e = request-Kept action.packet h.signal_id s r w j e

  pub action-Kept :
      (action : AvdtpAction) (s : AvdtpSource) (r : ConfigurationResult) (w : W)
      → J w
      → r.signaling_opened ≡ true
      → Kept J s r (exchange_action b o action s r w)
  unfolding exchange_action
  action-Kept action s r w j h =
      if_rule (Kept J s r) (not (action.kind is send_signaling)) _ _
        (λ e. stopped-Kept s s r _ w j h (omega arith))
        (λ e. parsed-Kept action s r (parse_header action.packet) w j h)

  further-Kept :
      (kind : ActionKind) (fuel : ℕ) (s : AvdtpSource) (r : ConfigurationResult) (e : Exchanged W)
      → Kept J s r e
      → (kind is send_signaling) ≡ true
      → e.went_on ≡ true
      → (kind ≢ send_signaling) ⊎ (rank s < suc fuel)
      → (e.next.kind ≢ send_signaling) ⊎ (rank e.source < fuel)
  further-Kept kind fuel s r e kept p q f = ground (arith, kept.further)

  pub loop-Left :
      (fuel : ℕ) (action : AvdtpAction) (s : AvdtpSource) (r : ConfigurationResult) (w : W) (n : ℕ)
      → J w
      → r.signaling_opened ≡ true
      → (action.kind ≢ send_signaling) ⊎ (rank s < fuel)
      → r.signaling_exchanges + fuel ≤ n
      → Looped J (exchange_loop b o fuel action s r w) n
  unfolding exchange_loop
  loop-Left zero action s r w n j h f c =
      if_rule (λ x. Looped J x n) (action.kind is send_signaling) none (some (gone_on s action r w))
        (λ e. ground arith) (λ e. record { holds = j; still_open = h; counts = omega arith })
  loop-Left (suc fuel) action s r w n j h f c =
      let e = exchange_action b o action s r w in
      let kept = action-Kept action s r w j h in
      branch_rule (λ x. Looped J x n) (action.kind is send_signaling) _
        (some (gone_on s action r w))
        (λ p.
          branch_rule (λ x. Looped J x n) e.went_on
            (exchange_loop b o fuel e.next e.source e.result e.world) (some e)
            (λ q.
              loop-Left fuel e.next e.source e.result e.world n kept.holds kept.still_open
                (further-Kept action.kind fuel s r e kept p q f) (omega (arith, kept.counts)))
            (λ q. record {
              holds = kept.holds;
              still_open = kept.still_open;
              counts = omega (arith, kept.counts);
            }))
        (λ p. record { holds = j; still_open = h; counts = omega arith })
