-- ===== src/Transport/Discovery/Exchanges.antt =====
-- What a request of agent/v1_transport_session.cpp, and the judgement of its response, keep.
use native_ldac_xm5_windows.Prelude.{
  ◌==◌, if_rule, ◌is◌, length, ℕ, ◌+◌, ◌≤◌, ◌≡◌, refl, ◌∙◌, ◌≢◌, ◌⊎◌, inl, inr, true, false, not,
  Option, none, some, List, arith,
}
use native_ldac_xm5_windows.Protocol.Codec.{
  CodecStatus, codec_ok, codec_truncated, codec_not_found, codec_unsupported, codec_status_enum,
  LdacCapabilities, LdacConfiguration, find_in_service_capabilities, choose_configuration,
}
use native_ldac_xm5_windows.Protocol.Avdtp.{
  command, accept, packet_type_enum, message_type_enum, max_signaling_packet, max_remote_seids,
  write_single,
}
use native_ldac_xm5_windows.Protocol.Source.{source_state_enum, action_kind_enum}
use native_ldac_xm5_windows.Transport.Backend.{
  Backend, Counted, counting, maximum_signaling_response,
}
use native_ldac_xm5_windows.Transport.Discovery.{
  hear_parsed, exchange, choose_sink, judge_sink, succeeded, DiscoveryOptions, DiscoveryResult,
  no_capabilities, ParsedResponse, parse_response, Heard, broken, heard, Visit, ended, goes_on,
}

-- The configuration of the result is the one that is chosen for the capabilities in it.
pub record Found (o : DiscoveryOptions) (r : DiscoveryResult) : Type 0 where
  pub chosen :
      choose_configuration o.local_capabilities r.remote_capabilities o.preferred_sample_rate_hz
      ≡ (codec_ok, r.configuration)

-- What holds of a result and of a world that counts, while the channel is open.
pub record Sane {W : Type 0} (o : DiscoveryOptions) (n : ℕ) (r : DiscoveryResult) (c : Counted W)
    : Type 0 where
  pub is_open : r.signaling_opened ≡ true
  pub counted : (c.opened ≡ 1) × (c.closed ≡ 0)
  pub requests : r.signaling_exchanges ≤ n
  pub candidates : r.sink_candidates ≤ max_remote_seids
  pub judged : (r.disposition ≢ succeeded) ⊎ Found o r

-- A world that a probe or a request has changed.
abbrev pub Same : {W : Type 0} → Counted W → Counted W → Type 0
Same c d = (d.opened ≡ c.opened) × (d.closed ≡ c.closed)

abbrev pub SaneHeard : {W : Type 0} → DiscoveryOptions → ℕ → Heard (Counted W) → Type 0
SaneHeard o n (broken r c) = Sane o n r c
SaneHeard o n (heard parsed label r c) = Sane o n r c × (r.disposition ≢ succeeded)

abbrev pub SaneVisit : {W : Type 0} → DiscoveryOptions → ℕ → Visit (Counted W) → Type 0
SaneVisit o n (ended r c) = Sane o n r c
SaneVisit o n (goes_on label r c) = Sane o n r c × (r.disposition ≢ succeeded)

abbrev pub SaneOut : {W : Type 0} → DiscoveryOptions → ℕ → DiscoveryResult × Counted W → Type 0
SaneOut o n (r, c) = Sane o n r c

chosen_lem :
    (x : CodecStatus × LdacConfiguration) → not (x.0 is codec_ok) ≡ false → x ≡ (codec_ok, x.1)
chosen_lem (codec_ok, c) e = refl
chosen_lem (codec_truncated, c) e = ground arith
chosen_lem (codec_not_found, c) e = ground arith
chosen_lem (codec_unsupported, c) e = ground arith

module _ {W : Type 0} (b : Backend W) (o : DiscoveryOptions) where
  -- A result that has not succeeded keeps what holds.
  pub still-Sane :
      (n m : ℕ) (r q : DiscoveryResult) (c d : Counted W)
      → Sane o n r c
      → Same c d
      → n ≤ m
      → q.signaling_opened ≡ r.signaling_opened
      → q.signaling_exchanges ≡ r.signaling_exchanges
      → q.sink_candidates ≡ r.sink_candidates
      → q.disposition ≢ succeeded
      → Sane o m q d
  still-Sane n m r q c d h (u, v) k e f g s = record {
    is_open = e ∙ h.is_open;
    counted = (u ∙ h.counted.0, v ∙ h.counted.1);
    requests = omega (arith, h.requests);
    candidates = omega (arith, h.candidates);
    judged = inl s;
  }

  parsed-Sane :
      (n label : ℕ) (r : DiscoveryResult) (c : Counted W) (x : Option ParsedResponse)
      → Sane o n r c
      → r.disposition ≢ succeeded
      → SaneHeard o n (hear_parsed (counting b) o label r c x)
  unfolding hear_parsed
  parsed-Sane n label r c none h s =
      still-Sane n n r _ c c h (refl, refl) (omega arith) refl refl refl (ground arith)
  parsed-Sane n label r c (some parsed) h s = (h, s)

  pub exchange-Sane :
      (n label signal : ℕ) (payload : List ℕ) (r : DiscoveryResult) (c : Counted W)
      → Sane o n r c
      → r.disposition ≢ succeeded
      → SaneHeard o (n + 1) (exchange (counting b) o label signal payload r c)
  unfolding exchange
  exchange-Sane n label signal payload r c h s =
      let request = write_single max_signaling_packet label command signal payload in
      let (reply, c1) =
        (counting b).exchange_signaling request maximum_signaling_response o.exchange_timeout_ms
          c in
      let sent = record r { signaling_exchanges = r.signaling_exchanges + 1 } in
      let sane : Sane o (n + 1) sent c1 = record {
        is_open = h.is_open;
        counted = h.counted;
        requests = omega (arith, h.requests);
        candidates = h.candidates;
        judged = inl s;
      } in
      if_rule (SaneHeard o (n + 1)) (length request == 0) _ _
        (λ e.
          still-Sane n (n + 1) r _ c c h (refl, refl) (omega arith) refl refl refl (ground arith))
        (λ e.
          if_rule (SaneHeard o (n + 1)) (not reply.succeeded) _ _
            (λ e1.
              still-Sane (n + 1) (n + 1) sent _ c1 _ sane (refl, refl) (omega arith) refl refl refl
                (ground arith))
            (λ e1.
              parsed-Sane (n + 1) label sent c1 (parse_response reply.response label signal) sane
                s))

  choose-Found :
      (seid : ℕ) (remote : LdacCapabilities) (r : DiscoveryResult)
      → ((choose_sink (counting b) o seid remote r).disposition ≢ succeeded)
        ⊎ Found o (choose_sink (counting b) o seid remote r)
  unfolding choose_sink
  choose-Found seid remote r =
      if_rule (λ (q : DiscoveryResult). (q.disposition ≢ succeeded) ⊎ Found o q)
        (not (
          (choose_configuration o.local_capabilities remote o.preferred_sample_rate_hz).0
          is codec_ok))
        _ _ (λ e. inl (ground arith))
        (λ e. inr (record {
          chosen =
              chosen_lem
                (choose_configuration o.local_capabilities remote o.preferred_sample_rate_hz) e;
        }))

  choose-Sane :
      (n seid : ℕ) (remote : LdacCapabilities) (r : DiscoveryResult) (c : Counted W)
      → Sane o n r c
      → Sane o n (choose_sink (counting b) o seid remote r) c
  unfolding choose_sink
  choose-Sane n seid remote r c h = record {
    is_open = ground (arith, h.is_open);
    counted = h.counted;
    requests = ground (arith, h.requests);
    candidates = ground (arith, h.candidates);
    judged = choose-Found seid remote r;
  }

  pub judge-Sane :
      (n seid : ℕ) (parsed : ParsedResponse) (label : ℕ) (r : DiscoveryResult) (c : Counted W)
      → Sane o n r c
      → r.disposition ≢ succeeded
      → SaneVisit o n (judge_sink (counting b) o seid parsed label r c)
  unfolding judge_sink
  judge-Sane n seid parsed label r c h s =
      let (status, remote) = find_in_service_capabilities parsed.payload no_capabilities in
      if_rule (SaneVisit o n) (not (parsed.message_type is accept)) _ _
        (λ e. (still-Sane n n r _ c c h (refl, refl) (omega arith) refl refl refl s, s))
        (λ e.
          if_rule (SaneVisit o n) (status is codec_not_found) _ _ (λ e1. (h, s))
            (λ e1.
              if_rule (SaneVisit o n) (not (status is codec_ok)) _ _
                (λ e2.
                  still-Sane n n r _ c c h (refl, refl) (omega arith) refl refl refl (ground arith))
                (λ e2. choose-Sane n seid remote r c h)))
