-- ===== src/Transport/Discovery/Sinks.antt =====
-- The sinks that agent/v1_transport_session.cpp asks, one behind the other.
use native_ldac_xm5_windows.Prelude.{
  ◌==◌, if_rule, ◌is◌, length, ℕ, ◌+◌, ◌*◌, ◌≤◌, refl, ◌≢◌, inl, not, List, [], ◌∷◌, arith,
}
use native_ldac_xm5_windows.Protocol.Codec.{codec_status_enum}
use native_ldac_xm5_windows.Protocol.Avdtp.{
  accept, packet_type_enum, message_type_enum, signal_discover, signal_get_capabilities,
  signal_get_all_capabilities, max_remote_seids,
}
use native_ldac_xm5_windows.Protocol.Avdtp.Packet.{length-collect_audio_sinks}
use native_ldac_xm5_windows.Protocol.Source.{seid_payload, source_state_enum, action_kind_enum}
use native_ldac_xm5_windows.Transport.Backend.{Backend, Counted, counting}
use native_ldac_xm5_windows.Transport.Discovery.{
  judge_legacy, judge_first, visit_sink, visit_sinks, after_discover, discover_phase, succeeded,
  discover, get_capabilities, DiscoveryOptions, DiscoveryResult, collect_sinks, Heard, broken,
  heard, Visit, ended, goes_on,
}
use native_ldac_xm5_windows.Transport.Discovery.Exchanges.{
  Sane, SaneHeard, SaneVisit, SaneOut, still-Sane, exchange-Sane, judge-Sane,
}

module _ {W : Type 0} (b : Backend W) (o : DiscoveryOptions) where
  more-Sane : (n m : ℕ) (r : DiscoveryResult) (c : Counted W) → Sane o n r c → n ≤ m → Sane o m r c
  more-Sane n m r c h k = record {
    is_open = h.is_open;
    counted = h.counted;
    requests = omega (arith, h.requests);
    candidates = h.candidates;
    judged = h.judged;
  }

  legacy-Sane :
      (n seid : ℕ) (x : Heard (Counted W))
      → SaneHeard o n x
      → SaneVisit o n (judge_legacy (counting b) o seid x)
  unfolding judge_legacy
  legacy-Sane n seid (broken r c) h = h
  legacy-Sane n seid (heard parsed label r c) (h, s) = judge-Sane b o n seid parsed label r c h s

  more-SaneHeard : (n m : ℕ) (x : Heard (Counted W)) → SaneHeard o n x → n ≤ m → SaneHeard o m x
  more-SaneHeard n m (broken r c) h k = more-Sane n m r c h k
  more-SaneHeard n m (heard parsed label r c) (h, s) k = (more-Sane n m r c h k, s)

  first-Sane :
      (n m seid : ℕ) (x : Heard (Counted W))
      → SaneHeard o n x
      → n + 1 ≤ m
      → SaneVisit o m (judge_first (counting b) o seid x)
  unfolding judge_first
  first-Sane n m seid (broken r c) h k = more-Sane n m r c h (omega arith)
  first-Sane n m seid (heard parsed label r c) (h, s) k =
      let fallback = record r { legacy_capability_fallbacks = r.legacy_capability_fallbacks + 1 } in
      let c1 = ((counting b).cancelled c).1 in
      if_rule (SaneVisit o m) (parsed.message_type is accept) _ _
        (λ e. judge-Sane b o m seid parsed label r c (more-Sane n m r c h (omega arith)) s)
        (λ e.
          if_rule (SaneVisit o m) (b.cancelled c.world).0 _ _
            (λ e1.
              still-Sane b o n m r _ c c1 h (refl, refl) (omega arith) refl refl refl
                (ground arith))
            (λ e1. legacy-Sane m seid _ (
              more-SaneHeard (n + 1) m _
                (exchange-Sane b o n label signal_get_capabilities (seid_payload seid) fallback c1
                  (still-Sane b o n n r fallback c c1 h (refl, refl) (omega arith) refl refl refl s)
                  s)
                k)))

  visit-Sane :
      (n seid label : ℕ) (r : DiscoveryResult) (c : Counted W)
      → Sane o n r c
      → r.disposition ≢ succeeded
      → SaneVisit o (n + 2) (visit_sink (counting b) o seid label r c)
  unfolding visit_sink
  visit-Sane n seid label r c h s =
      let c1 = ((counting b).cancelled c).1 in
      if_rule (SaneVisit o (n + 2)) (b.cancelled c.world).0 _ _
        (λ e.
          still-Sane b o n (n + 2) r _ c c1 h (refl, refl) (omega arith) refl refl refl
            (ground arith))
        (λ e.
          first-Sane (n + 1) (n + 2) seid _
            (exchange-Sane b o n label signal_get_all_capabilities (seid_payload seid) r c1
              (still-Sane b o n n r r c c1 h (refl, refl) (omega arith) refl refl refl s) s)
            (omega arith))

  visited-Sane :
      (n m : ℕ) (seids : List ℕ) (x : Visit (Counted W))
      → SaneVisit o n x
      → n + 2 * length seids ≤ m
      → ((label : ℕ) (r : DiscoveryResult) (c : Counted W)
          → Sane o n r c
          → r.disposition ≢ succeeded
          → SaneOut {W = W} o m (visit_sinks (counting b) o seids label r c))
      → SaneOut {W = W} o m (elim x as (λ y. DiscoveryResult × Counted W) [
        | ended q v ↦ (q, v)
        | goes_on next q v ↦ visit_sinks (counting b) o seids next q v
      ])
  visited-Sane n m seids (ended r c) h k go = more-Sane n m r c h (omega arith)
  visited-Sane n m seids (goes_on label r c) (h, s) k go = go label r c h s

  sinks-Sane :
      (n m : ℕ) (seids : List ℕ) (label : ℕ) (r : DiscoveryResult) (c : Counted W)
      → Sane o n r c
      → r.disposition ≢ succeeded
      → n + 2 * length seids ≤ m
      → SaneOut {W = W} o m (visit_sinks (counting b) o seids label r c)
  unfolding visit_sinks
  sinks-Sane n m [] label r c h s k =
      still-Sane b o n m r _ c c h (refl, refl) (omega arith) refl refl refl (ground arith)
  sinks-Sane n m (seid ∷ seids) label r c h s k =
      visited-Sane (n + 2) m seids (visit_sink (counting b) o seid label r c)
        (visit-Sane n seid label r c h s) (omega arith)
        (λ next q v h1 s1. sinks-Sane (n + 2) m seids next q v h1 s1 (omega arith))

  after-Sane :
      (x : Heard (Counted W)) → SaneHeard o 1 x → SaneOut o 127 (after_discover (counting b) o x)
  unfolding after_discover
  after-Sane (broken r c) h = more-Sane 1 127 r c h (omega arith)
  after-Sane (heard parsed label r c) (h, s) =
      let sinks = collect_sinks max_remote_seids parsed.payload in
      let bound = length-collect_audio_sinks max_remote_seids parsed.payload in
      let counted : DiscoveryResult = record r { sink_candidates = length sinks } in
      let sane : Sane o 1 counted c = record {
        is_open = h.is_open;
        counted = h.counted;
        requests = h.requests;
        candidates = bound;
        judged = inl s;
      } in
      if_rule (SaneOut o 127) (not (parsed.message_type is accept)) _ _
        (λ e.
          still-Sane b o 1 127 r _ c c h (refl, refl) (omega arith) refl refl refl (ground arith))
        (λ e.
          if_rule (SaneOut o 127) (length sinks == 0) _ _
            (λ e1.
              still-Sane b o 1 127 counted _ c c sane (refl, refl) (omega arith) refl refl refl
                (ground arith))
            (λ e1.
              sinks-Sane 1 127 sinks label _ c
                (still-Sane b o 1 1 counted (record counted { stage = get_capabilities }) c c sane
                  (refl, refl) (omega arith) refl refl refl s)
                s (omega (arith, bound))))

  pub phase-Sane :
      (r : DiscoveryResult) (c : Counted W)
      → Sane o 0 r c
      → r.disposition ≢ succeeded
      → SaneOut o 127 (discover_phase (counting b) o r c)
  unfolding discover_phase
  phase-Sane r c h s =
      let c1 = ((counting b).cancelled c).1 in
      if_rule (SaneOut o 127) (b.cancelled c.world).0 _ _
        (λ e.
          still-Sane b o 0 127 r _ c c1 h (refl, refl) (omega arith) refl refl refl (ground arith))
        (λ e. after-Sane _ (
          exchange-Sane b o 0 0 signal_discover [] (record r { stage = discover }) c1
            (still-Sane b o 0 0 r (record r { stage = discover }) c c1 h (refl, refl) (omega arith)
              refl refl refl s)
            s))
