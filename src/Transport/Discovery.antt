-- ===== src/Transport/Discovery.antt =====
-- agent/v1_transport_session.h and .cpp: a session that asks a headset for its sinks and for their
-- capabilities, chooses a configuration, and closes the channel again.
mod State
pub mod Exchanges
pub mod Sinks
pub mod Balance
unfoldable pub use State.*
use native_ldac_xm5_windows.Prelude.{
  ◌==◌, if◌then◌else◌, ◌is◌, length, ℕ, ◌+◌, ◌%◌, true, not, Option, none, some, List, [], ◌∷◌,
}
use native_ldac_xm5_windows.Protocol.Codec.{
  codec_ok, codec_not_found, codec_status_enum, LdacCapabilities, find_in_service_capabilities,
  choose_configuration,
}
use native_ldac_xm5_windows.Protocol.Avdtp.{
  command, accept, packet_type_enum, message_type_enum, signal_discover, signal_get_capabilities,
  signal_get_all_capabilities, max_signaling_packet, max_remote_seids, write_single,
}
use native_ldac_xm5_windows.Protocol.Source.{seid_payload, source_state_enum, action_kind_enum}
use native_ldac_xm5_windows.Transport.Backend.{Backend, maximum_signaling_response}

module _ {W : Type 0} (b : Backend W) (o : DiscoveryOptions) where
  -- The response to a request, as it is read.
  unfoldable pub hear_parsed : ℕ → DiscoveryResult → W → Option ParsedResponse → Heard W
  hear_parsed label r w none = broken (fail_discovery r invalid_response) w
  hear_parsed label r w (some parsed) = heard parsed ((label + 1) % 16) r w

  unfoldable pub exchange : ℕ → ℕ → List ℕ → DiscoveryResult → W → Heard W
  exchange label signal payload r w =
      let request = write_single max_signaling_packet label command signal payload in
      let sent = record r { signaling_exchanges = r.signaling_exchanges + 1 } in
      let (reply, w1) =
        b.exchange_signaling request maximum_signaling_response o.exchange_timeout_ms w in
      let (probe, w2) = b.cancelled w1 in
      if length request == 0
      then broken (fail_discovery r invalid_response) w
      else if not reply.succeeded
      then broken
          (set_discovery_primary (record sent { backend_error = reply.error })
            (if probe then cancelled else backend_failure) r.stage)
          w2
      else hear_parsed label sent w1 (parse_response reply.response label signal)

  -- The capabilities of a sink that have been found, with the configuration that is chosen.
  unfoldable pub choose_sink : ℕ → LdacCapabilities → DiscoveryResult → DiscoveryResult
  choose_sink seid remote r =
      let (status, configuration) =
        choose_configuration o.local_capabilities remote o.preferred_sample_rate_hz in
      if not (status is codec_ok)
      then set_discovery_primary (record r { protocol_error = no_common_configuration })
          protocol_failure get_capabilities
      else set_discovery_primary
          (record r {
            remote_seid = seid;
            remote_capabilities = remote;
            configuration = configuration;
            protocol_error = no_error;
          })
          succeeded get_capabilities

  -- The last response of a sink.
  unfoldable pub judge_sink : ℕ → ParsedResponse → ℕ → DiscoveryResult → W → Visit W
  judge_sink seid parsed label r w =
      let (status, remote) = find_in_service_capabilities parsed.payload no_capabilities in
      if not (parsed.message_type is accept)
      then goes_on label (record r { remote_reject_error = parsed.reject_error }) w
      else if status is codec_not_found
      then goes_on label r w
      else if not (status is codec_ok)
      then ended
          (set_discovery_primary (record r { protocol_error = invalid_response }) protocol_failure
            get_capabilities)
          w
      else ended (choose_sink seid remote r) w

  unfoldable pub judge_legacy : ℕ → Heard W → Visit W
  judge_legacy seid (broken r w) = ended r w
  judge_legacy seid (heard parsed label r w) = judge_sink seid parsed label r w

  -- The first response of a sink: where it is refused, the older request follows.
  unfoldable pub judge_first : ℕ → Heard W → Visit W
  judge_first seid (broken r w) = ended r w
  judge_first seid (heard parsed label r w) =
      let fallback = record r { legacy_capability_fallbacks = r.legacy_capability_fallbacks + 1 } in
      let (probe, w1) = b.cancelled w in
      if parsed.message_type is accept
      then judge_sink seid parsed label r w
      else if probe
      then ended (set_discovery_primary fallback cancelled get_capabilities) w1
      else judge_legacy seid
          (exchange label signal_get_capabilities (seid_payload seid) fallback w1)

  -- One round of the loop over the sinks.
  unfoldable pub visit_sink : ℕ → ℕ → DiscoveryResult → W → Visit W
  visit_sink seid label r w =
      let (probe, w1) = b.cancelled w in
      if probe
      then ended (set_discovery_primary r cancelled get_capabilities) w1
      else judge_first seid (exchange label signal_get_all_capabilities (seid_payload seid) r w1)

  unfoldable pub visit_sinks : List ℕ → ℕ → DiscoveryResult → W → DiscoveryResult × W
  visit_sinks [] label r w = (
    set_discovery_primary (record r { protocol_error = ldac_not_supported }) protocol_failure
        get_capabilities,
    w,
  )
  visit_sinks (seid ∷ seids) label r w = elim (visit_sink seid label r w) [
    | ended q v ↦ (q, v)
    | goes_on next q v ↦ visit_sinks seids next q v
  ]

  -- The response to DISCOVER.
  unfoldable pub after_discover : Heard W → DiscoveryResult × W
  after_discover (broken r w) = (r, w)
  after_discover (heard parsed label r w) =
      let sinks = collect_sinks max_remote_seids parsed.payload in
      let counted = record r { sink_candidates = length sinks } in
      if not (parsed.message_type is accept)
      then (
        set_discovery_primary
            (record r {
              protocol_error = remote_rejected;
              remote_reject_error = parsed.reject_error;
            })
            protocol_failure discover,
        w,
      )
      else if length sinks == 0
      then (
        set_discovery_primary (record counted { protocol_error = no_audio_sink }) protocol_failure
            discover,
        w,
      )
      else visit_sinks sinks label (record counted { stage = get_capabilities }) w

  -- The signalling channel is open.
  unfoldable pub discover_phase : DiscoveryResult → W → DiscoveryResult × W
  discover_phase r w =
      let (probe, w1) = b.cancelled w in
      if probe
      then (set_discovery_primary r cancelled discover, w1)
      else after_discover (exchange 0 signal_discover [] (record r { stage = discover }) w1)

  -- Every way out of an open channel leads through here.
  unfoldable pub finish_discovery : DiscoveryResult × W → DiscoveryResult × W
  finish_discovery (r, w) =
      let ((is_closed, error), w1) = b.close_signaling w in
      let closed = record r {
        close_attempted = true;
        close_succeeded = is_closed;
        cleanup_error = error;
      } in
      if not r.signaling_opened
      then (r, w)
      else if not is_closed
      then (record closed { disposition = cleanup_failure; stage = close_signaling }, w1)
      else (closed, w1)

  unfoldable pub run_discovery : W → DiscoveryResult × W
  run_discovery w =
      let (probe, w1) = b.cancelled w in
      let opening = record initial_discovery { stage = open_signaling; open_attempts = 1 } in
      let ((is_open, error), w2) = b.open_signaling o.open_timeout_ms w1 in
      let (probed, w3) = b.cancelled w2 in
      if not (discovery_options_are_valid o)
      then (initial_discovery, w)
      else if probe
      then (set_discovery_primary initial_discovery cancelled open_signaling, w1)
      else if not is_open
      then (
        set_discovery_primary (record opening { backend_error = error })
            (if probed then cancelled else backend_failure) open_signaling,
        w3,
      )
      else finish_discovery (discover_phase (record opening { signaling_opened = true }) w2)
