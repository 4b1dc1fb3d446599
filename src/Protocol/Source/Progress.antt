-- ===== src/Protocol/Source/Progress.antt =====
-- The exchanges of protocol/src/avdtp.c end: each request that answers a response takes the source
-- a step further.
use native_ldac_xm5_windows.Prelude.{
  bit, length, drop, ℕ, ◌+◌, ◌-◌, ◌*◌, ◌<◌, ◌≢◌, ◌⊎◌, inl, inr, true, false, not, List, [], arith,
}
use native_ldac_xm5_windows.Protocol.Avdtp.{
  AvdtpError, MessageType, AvdtpHeader, signal_discover, signal_get_capabilities,
  signal_set_configuration, signal_open, signal_get_all_capabilities, max_remote_seids,
  parse_header, collect_audio_sinks,
}
use native_ldac_xm5_windows.Protocol.Codec.{
  find_in_service_capabilities, choose_configuration, build_set_configuration_payload,
}
use native_ldac_xm5_windows.Protocol.Avdtp.Packet.{length-collect_audio_sinks}
use native_ldac_xm5_windows.Protocol.Source.{
  fail, send_command, seid_payload, query_current_sink, seid_at, query_next_sink, source_begin,
  last_byte, handle_reject, accept_discover, send_configuration, accept_capabilities, accept_in,
  handle_response, source_handle_signaling, SourceState, source_idle, discover_sent,
  capabilities_sent, configuration_sent, open_sent, waiting_for_media_channel, source_open,
  start_sent, source_streaming, suspend_sent, close_sent, source_closed, source_failed,
  send_signaling, AvdtpSource, SourceStep, error_bad_packet, error_unexpected_response,
  error_no_audio_sink, error_ldac_not_supported, error_no_common_configuration,
}

-- How many requests can still follow in a state.
unfoldable pub rank_in : SourceState → AvdtpSource → ℕ
rank_in discover_sent s = 131
rank_in capabilities_sent s =
    2 * (length s.remote_seids - s.remote_seid_index) + bit (not s.used_legacy_capabilities) + 3
rank_in configuration_sent s = 2
rank_in open_sent s = 1
rank_in source_idle s = 132
rank_in waiting_for_media_channel s = 0
rank_in source_open s = 0
rank_in start_sent s = 0
rank_in source_streaming s = 0
rank_in suspend_sent s = 0
rank_in close_sent s = 0
rank_in source_closed s = 0
rank_in source_failed s = 0

abbrev pub rank : AvdtpSource → ℕ
rank s = rank_in s.state s

-- A step that sends a request leaves a rank below the given one.
abbrev pub SendsBelow : SourceStep → ℕ → Type 0
SendsBelow (t, a) n = (a.kind ≢ send_signaling) ⊎ (rank t < n)

fail-SendsBelow : (s : AvdtpSource) (e n : ℕ) → SendsBelow (fail s e) n
unfolding fail
fail-SendsBelow s e n = inl (ground arith)

send-SendsBelow :
    (s : AvdtpSource) (signal n : ℕ) (payload : List ℕ)
    → rank s < n
    → SendsBelow (send_command s signal payload) n
unfolding send_command rank_in
send-SendsBelow s signal n payload h = ground (arith, h)

query_current-SendsBelow :
    (s : AvdtpSource) (n : ℕ)
    → 2 * (length s.remote_seids - s.remote_seid_index) + 4 < n
    → SendsBelow (query_current_sink s) n
unfolding query_current_sink rank_in
query_current-SendsBelow s n h =
    send-SendsBelow (record s { state = capabilities_sent; used_legacy_capabilities = false })
      signal_get_all_capabilities n (seid_payload s.remote_seid) (omega arith)

query_next-SendsBelow :
    (s : AvdtpSource) (n : ℕ)
    → 2 * (length s.remote_seids - s.remote_seid_index) + 2 < n
    → SendsBelow (query_next_sink s) n
unfolding query_next_sink
query_next-SendsBelow s n h =
    let next = s.remote_seid_index + 1 in
    ground (
      arith,
      fail-SendsBelow s error_ldac_not_supported n,
      query_current-SendsBelow
          (record s { remote_seid_index = next; remote_seid = seid_at s.remote_seids next }) n,
    )

reject-SendsBelow :
    (s : AvdtpSource) (kind : MessageType) (payload : List ℕ)
    → SendsBelow (handle_reject s kind payload) (rank s)
unfolding handle_reject rank_in
reject-SendsBelow s kind payload = ground (
  arith,
  send-SendsBelow (record s { used_legacy_capabilities = true }) signal_get_capabilities (rank s)
      (seid_payload s.remote_seid),
  query_next-SendsBelow s (rank s),
  fail-SendsBelow s (last_byte payload) (rank s),
  fail-SendsBelow s error_unexpected_response (rank s),
)

discover-SendsBelow :
    (s : AvdtpSource) (payload : List ℕ) → SendsBelow (accept_discover s payload) 131
unfolding accept_discover
discover-SendsBelow s payload =
    let sinks = collect_audio_sinks max_remote_seids payload in
    ground (
      arith,
      fail-SendsBelow s error_no_audio_sink 131,
      query_current-SendsBelow
          (record s { remote_seids = sinks; remote_seid_index = 0; remote_seid = seid_at sinks 0 })
          131,
      length-collect_audio_sinks max_remote_seids payload,
    )

configuration-SendsBelow : (s : AvdtpSource) → SendsBelow (send_configuration s) 3
unfolding send_configuration rank_in
configuration-SendsBelow s = ground (
  arith,
  fail-SendsBelow s error_bad_packet 3,
  send-SendsBelow (record s { state = configuration_sent }) signal_set_configuration 3
      (build_set_configuration_payload 16 s.remote_seid s.local_seid s.configuration),
)

capabilities-SendsBelow :
    (s : AvdtpSource) (payload : List ℕ)
    → SendsBelow
        (accept_capabilities s payload)
        (2 * (length s.remote_seids - s.remote_seid_index) + 3)
unfolding accept_capabilities
capabilities-SendsBelow s payload =
    let n = 2 * (length s.remote_seids - s.remote_seid_index) + 3 in
    let remote = (find_in_service_capabilities payload s.remote_capabilities).1 in
    let t = record s { remote_capabilities = remote } in
    let u = record t {
      configuration =
          (choose_configuration s.local_capabilities remote s.preferred_sample_rate_hz).1;
    } in
    ground (
      arith,
      query_next-SendsBelow t n,
      fail-SendsBelow t error_bad_packet n,
      fail-SendsBelow u error_no_common_configuration n,
      configuration-SendsBelow u,
    )

accept-SendsBelow :
    (s : AvdtpSource) (payload : List ℕ) → SendsBelow (accept_in s.state s payload) (rank s)
unfolding accept_in rank_in
accept-SendsBelow s payload = ground (
  arith,
  discover-SendsBelow s payload,
  capabilities-SendsBelow s payload,
  send-SendsBelow (record s { state = open_sent }) signal_open 2 (seid_payload s.remote_seid),
  fail-SendsBelow s error_unexpected_response (rank s),
)

response-SendsBelow :
    (s : AvdtpSource) (packet : List ℕ) (h : AvdtpError ⊎ AvdtpHeader)
    → SendsBelow (handle_response s packet h) (rank s)
unfolding handle_response
response-SendsBelow s packet (inl error) = fail-SendsBelow s error_bad_packet (rank s)
response-SendsBelow s packet (inr h) = ground (
  arith,
  fail-SendsBelow s error_bad_packet (rank s),
  fail-SendsBelow s error_unexpected_response (rank s),
  reject-SendsBelow s h.message_type (drop h.payload_offset packet),
  accept-SendsBelow s (drop h.payload_offset packet),
)

-- A request that follows a response takes the source down in rank, whatever the response is: no
-- more than two queries for each of at most 63 sinks, the configuration and the opening can follow
-- a discovery.
pub handle-SendsBelow :
    (s : AvdtpSource) (packet : List ℕ) → SendsBelow (source_handle_signaling s packet) (rank s)
unfolding source_handle_signaling
handle-SendsBelow s packet = ground (
  arith,
  fail-SendsBelow s error_unexpected_response (rank s),
  response-SendsBelow s packet (parse_header packet),
)

-- The first request of a source.
pub begin-SendsBelow : (s : AvdtpSource) → SendsBelow (source_begin s) 132
unfolding source_begin rank_in
begin-SendsBelow s = ground (
  arith,
  fail-SendsBelow s error_unexpected_response 132,
  send-SendsBelow (record s { state = discover_sent }) signal_discover 132 [],
)
