-- ===== src/Transport/Configuration/Ends.antt =====
-- Every session of agent/v1_transport_configuration_session.cpp ends, and closes what it opened.
use native_ldac_xm5_windows.Transport.Configuration.Kept.{
  Keeps, Left, Looped, action-Kept, loop-Left,
}
use native_ldac_xm5_windows.Prelude.{
  if_rule, ◌is◌, ℕ, ◌+◌, ◌≤◌, ◌<◌, ◌≡◌, refl, true, not, Option, none, some, arith,
}
use native_ldac_xm5_windows.Protocol.Source.{
  source_init, source_begin, source_media_channel_opened, source_close, source_state_enum,
  open_media_channel, session_open, session_closed, action_kind_enum, AvdtpAction, AvdtpSource,
}
use native_ldac_xm5_windows.Protocol.Avdtp.{packet_type_enum, message_type_enum}
use native_ldac_xm5_windows.Protocol.Source.Progress.{begin-SendsBelow}
use native_ldac_xm5_windows.Transport.Backend.{Backend}
use native_ldac_xm5_windows.Transport.Configuration.{
  exchange_action, exchange_loop, finish, close_phase, media_phase, open_phase, after_loop,
  with_loop, exchange_phase, ConfigurationOptions, ConfigurationResult, Exchanged, loop_fuel,
}

-- A session that ends, with its result and its world as stated.
abbrev pub Ends :
    {W : Type 0} → Option (ConfigurationResult × W) → (ConfigurationResult → W → Type 0) → Type 0
Ends none P = ⊥
Ends (some (r, w)) P = P r w

module _ {W : Type 0} (b : Backend W) (o : ConfigurationOptions) (J : W → Type 0) (k : Keeps b J)
    (K : W → Type 0) (closes : (w : W) → J w → K (b.close_signaling w).1) where
  pub record Ended (n : ℕ) (out : ConfigurationResult × W) : Type 0 where
    pub world_holds : K out.1
    pub was_open : out.0.signaling_opened ≡ true
    pub attempted : out.0.close_attempted ≡ true
    pub requests : out.0.signaling_exchanges ≤ n

  finish-Ended :
      (n : ℕ) (r : ConfigurationResult) (w : W)
      → J w
      → r.signaling_opened ≡ true
      → r.signaling_exchanges ≤ n
      → Ended n (finish b o r w)
  unfolding finish
  finish-Ended n r w j h c =
      if_rule (Ended n) (not r.signaling_opened) _ _ (λ e. ground arith)
        (λ e.
          if_rule (Ended n) (not (b.close_signaling w).0.0) _ _
            (λ e1. record {
              world_holds = closes w j;
              was_open = h;
              attempted = refl;
              requests = c;
            })
            (λ e1. record {
              world_holds = closes w j;
              was_open = h;
              attempted = refl;
              requests = c;
            }))

  close_phase-Ended :
      (n : ℕ) (action : AvdtpAction) (s : AvdtpSource) (r : ConfigurationResult) (w : W)
      → J w
      → r.signaling_opened ≡ true
      → r.signaling_exchanges < n
      → Ended n (close_phase b o action s r w)
  unfolding close_phase
  close_phase-Ended n action s r w j h c =
      let e = exchange_action b o action s r w in
      let kept = action-Kept b o J k action s r w j h in
      if_rule (Ended n) (not e.went_on) _ _
        (λ p. finish-Ended n _ _ kept.holds kept.still_open (omega (arith, kept.counts)))
        (λ p.
          if_rule (Ended n) (not (e.next.kind is session_closed)) _ _
            (λ q. finish-Ended n _ _ kept.holds kept.still_open (omega (arith, kept.counts)))
            (λ q. finish-Ended n _ _ kept.holds kept.still_open (omega (arith, kept.counts))))

  media_phase-Ended :
      (n : ℕ) (s : AvdtpSource) (r : ConfigurationResult) (w : W)
      → J w
      → r.signaling_opened ≡ true
      → r.signaling_exchanges < n
      → Ended n (media_phase b o s r w)
  unfolding media_phase
  media_phase-Ended n s r w j h c =
      let (opened, action) = source_media_channel_opened s in
      let (closing, request) = source_close opened in
      if_rule (Ended n) (not (action.kind is session_open)) _ _
        (λ p. finish-Ended n _ _ j h (omega arith))
        (λ p. close_phase-Ended n request closing r w j h c)

  open_phase-Ended :
      (n : ℕ) (s : AvdtpSource) (r : ConfigurationResult) (w : W)
      → J w
      → r.signaling_opened ≡ true
      → r.signaling_exchanges < n
      → Ended n (open_phase b o s r w)
  unfolding open_phase
  open_phase-Ended n s r w j h c =
      let w1 = (b.cancelled w).1 in
      let j1 = k.by_probe w j in
      let (reply, w2) = b.open_media o.media_open_timeout_ms o.preferred_media_mtu w1 in
      let j2 = k.by_media o.media_open_timeout_ms o.preferred_media_mtu w1 j1 in
      if_rule (Ended n) (b.cancelled w).0 _ _ (λ p. finish-Ended n _ _ j1 h (omega arith))
        (λ p.
          if_rule (Ended n) (not reply.succeeded) _ _ (λ q. finish-Ended n _ _ j2 h (omega arith))
            (λ q. media_phase-Ended n s _ w2 j2 h c))

  after_loop-Ended : (n : ℕ) (e : Exchanged W) → Left J n e → Ended (n + 1) (after_loop b o e)
  unfolding after_loop
  after_loop-Ended n e l =
      if_rule (Ended (n + 1)) (not e.went_on) _ _
        (λ p. finish-Ended (n + 1) _ _ l.holds l.still_open (omega (arith, l.counts)))
        (λ p.
          if_rule (Ended (n + 1)) (not (e.next.kind is open_media_channel)) _ _
            (λ q. finish-Ended (n + 1) _ _ l.holds l.still_open (omega (arith, l.counts)))
            (λ q. open_phase-Ended (n + 1) _ _ _ l.holds l.still_open (omega (arith, l.counts))))

  with_loop-Ended :
      (n : ℕ) (x : Option (Exchanged W))
      → Looped J x n
      → Ends (with_loop b o x) (λ r w. Ended (n + 1) (r, w))
  with_loop-Ended n none l = elim l [ ]
  with_loop-Ended n (some e) l = after_loop-Ended n e l

  pub exchange_phase-Ended :
      (r : ConfigurationResult) (w : W)
      → J w
      → r.signaling_opened ≡ true
      → r.signaling_exchanges ≡ 0
      → Ends (exchange_phase b o r w) (λ r w. Ended 133 (r, w))
  unfolding exchange_phase
  exchange_phase-Ended r w j h c =
      let s = source_init o.local_capabilities o.local_seid o.preferred_sample_rate_hz in
      let (t, action) = source_begin s in
      with_loop-Ended 132 (exchange_loop b o loop_fuel action t r w)
        (loop-Left b o J k loop_fuel action t r w 132 j h (begin-SendsBelow s) (omega arith))
