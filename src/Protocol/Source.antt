-- ===== src/Protocol/Source.antt =====
-- The source of protocol/include/ldac_native/avdtp.h and protocol/src/avdtp.c: it discovers a sink,
-- reads its capabilities, configures and opens it, and starts, suspends and closes the stream.
mod State
pub mod Progress
pub mod Order
pub mod Answers
pub mod Acceptance
pub use State.*
use native_ldac_xm5_windows.Prelude.{
  ltb, leb, ◌==◌, if◌then◌else◌, ◌is◌, length, byte_and, drop, ℕ, zero, suc, ◌+◌, ◌*◌, ◌%◌, ◌⊎◌,
  inl, inr, true, false, not, ◌&&◌, ◌||◌, List, [], ◌∷◌,
}
use native_ldac_xm5_windows.Protocol.Codec.{
  codec_ok, codec_not_found, codec_status_enum, LdacCapabilities, sf_all, cm_all,
  find_in_service_capabilities, choose_configuration, build_set_configuration_payload,
}
use native_ldac_xm5_windows.Protocol.Avdtp.{
  AvdtpError, single, MessageType, command, general_reject, reject, packet_type_enum,
  message_type_enum, AvdtpHeader, signal_discover, signal_get_capabilities,
  signal_set_configuration, signal_open, signal_start, signal_close, signal_suspend,
  signal_get_all_capabilities, max_signaling_packet, max_remote_seids, parse_header, write_single,
  collect_audio_sinks,
}

unfoldable pub fail : AvdtpSource → ℕ → SourceStep
fail s error_code = (
  record s { state = source_failed },
  record (make_action action_error) { error_code = error_code },
)

-- A packet of `avdtp_write_single` is never empty, so its size 0 is the empty list.
unfoldable pub send_command : AvdtpSource → ℕ → List ℕ → SourceStep
unfolding fail
send_command s signal_id payload =
    let label = s.next_transaction_label in
    let t = record s {
      next_transaction_label = (label + 1) % 16;
      pending_transaction_label = label;
      pending_signal_id = signal_id;
    } in
    let packet = write_single max_signaling_packet label command signal_id payload in
    if length packet == 0
    then fail t error_bad_packet
    else (t, record (make_action send_signaling) { packet = packet })

-- The payload that names an endpoint.
abbrev pub seid_payload : ℕ → List ℕ
seid_payload seid = (seid * 4 % 256) ∷ []

unfoldable pub query_current_sink : AvdtpSource → SourceStep
query_current_sink s =
    send_command (record s { state = capabilities_sent; used_legacy_capabilities = false })
      signal_get_all_capabilities (seid_payload s.remote_seid)

-- An entry of `remote_seids`.
unfoldable pub seid_at : List ℕ → ℕ → ℕ
seid_at [] i = 0
seid_at (x ∷ xs) zero = x
seid_at (x ∷ xs) (suc i) = seid_at xs i

unfoldable pub query_next_sink : AvdtpSource → SourceStep
query_next_sink s =
    let next = s.remote_seid_index + 1 in
    if leb (length s.remote_seids) next
    then fail s error_ldac_not_supported
    else query_current_sink
        (record s { remote_seid_index = next; remote_seid = seid_at s.remote_seids next })

unfoldable pub source_init : LdacCapabilities → ℕ → ℕ → AvdtpSource
source_init local local_seid preferred = record {
  state = source_idle;
  local_capabilities = record {
    sample_rates = byte_and local.sample_rates sf_all;
    channel_modes = byte_and local.channel_modes cm_all;
  };
  remote_capabilities = record { sample_rates = 0; channel_modes = 0 };
  configuration = record { sample_rate = 0; channel_mode = 0 };
  preferred_sample_rate_hz = preferred;
  local_seid = local_seid;
  remote_seid = 0;
  remote_seids = [];
  remote_seid_index = 0;
  next_transaction_label = 0;
  pending_transaction_label = 0;
  pending_signal_id = 0;
  used_legacy_capabilities = false;
}

unfoldable pub source_begin : AvdtpSource → SourceStep
source_begin s =
    if not (s.state is source_idle)
      || s.local_seid == 0
      || ltb 0x3F s.local_seid
      || s.local_capabilities.sample_rates == 0
      || s.local_capabilities.channel_modes == 0
    then fail s error_unexpected_response
    else send_command (record s { state = discover_sent }) signal_discover []

-- The last byte of a payload.
abbrev pub last_byte : List ℕ → ℕ
last_byte [] = 0
last_byte (b ∷ []) = b
last_byte (b ∷ c ∷ bs) = last_byte (c ∷ bs)

unfoldable pub handle_reject : AvdtpSource → MessageType → List ℕ → SourceStep
handle_reject s message_type payload =
    if s.state is capabilities_sent
      && s.pending_signal_id == signal_get_all_capabilities
      && not s.used_legacy_capabilities
    then send_command (record s { used_legacy_capabilities = true }) signal_get_capabilities
        (seid_payload s.remote_seid)
    else if s.state is capabilities_sent
    then query_next_sink s
    else if message_type is reject && not (length payload == 0)
    then fail s (last_byte payload)
    else fail s error_unexpected_response

-- The response to DISCOVER.
unfoldable pub accept_discover : AvdtpSource → List ℕ → SourceStep
accept_discover s payload =
    let sinks = collect_audio_sinks max_remote_seids payload in
    if length sinks == 0
    then fail s error_no_audio_sink
    else query_current_sink
        (record s { remote_seids = sinks; remote_seid_index = 0; remote_seid = seid_at sinks 0 })

-- A common configuration is sent to the endpoint.
unfoldable pub send_configuration : AvdtpSource → SourceStep
send_configuration s =
    let payload = build_set_configuration_payload 16 s.remote_seid s.local_seid s.configuration in
    if length payload == 0
    then fail s error_bad_packet
    else send_command (record s { state = configuration_sent }) signal_set_configuration payload

-- The response to a query of capabilities.
unfoldable pub accept_capabilities : AvdtpSource → List ℕ → SourceStep
accept_capabilities s payload =
    let (status, remote) = find_in_service_capabilities payload s.remote_capabilities in
    let t = record s { remote_capabilities = remote } in
    let (chosen, configuration) =
      choose_configuration s.local_capabilities remote s.preferred_sample_rate_hz in
    let u = record t { configuration = configuration } in
    if status is codec_not_found
    then query_next_sink t
    else if not (status is codec_ok)
    then fail t error_bad_packet
    else if not (chosen is codec_ok)
    then fail u error_no_common_configuration
    else send_configuration u

-- The cases of the `switch` on the state, for a response that accepts.
unfoldable pub accept_in : SourceState → AvdtpSource → List ℕ → SourceStep
accept_in discover_sent s payload = accept_discover s payload
accept_in capabilities_sent s payload = accept_capabilities s payload
accept_in configuration_sent s payload =
    send_command (record s { state = open_sent }) signal_open (seid_payload s.remote_seid)
accept_in open_sent s payload =
    (record s { state = waiting_for_media_channel }, make_action open_media_channel)
accept_in start_sent s payload = (record s { state = source_streaming }, make_action stream_ready)
accept_in suspend_sent s payload = (record s { state = source_open }, make_action stream_suspended)
accept_in close_sent s payload = (record s { state = source_closed }, make_action session_closed)
accept_in waiting_for_media_channel s payload = fail s error_unexpected_response
accept_in source_open s payload = fail s error_unexpected_response
accept_in source_idle s payload = fail s error_unexpected_response
accept_in source_streaming s payload = fail s error_unexpected_response
accept_in source_closed s payload = fail s error_unexpected_response
accept_in source_failed s payload = fail s error_unexpected_response

-- A packet with its header.
unfoldable pub handle_response : AvdtpSource → List ℕ → AvdtpError ⊎ AvdtpHeader → SourceStep
handle_response s packet (inl error) = fail s error_bad_packet
handle_response s packet (inr h) =
    let payload = drop h.payload_offset packet in
    if not (h.packet_type is single) || ltb (length packet) h.payload_offset
    then fail s error_bad_packet
    else if not (h.transaction_label == s.pending_transaction_label)
        || not (h.signal_id == s.pending_signal_id)
        || h.message_type is command
    then fail s error_unexpected_response
    else if h.message_type is reject || h.message_type is general_reject
    then handle_reject s h.message_type payload
    else accept_in s.state s payload

unfoldable pub source_handle_signaling : AvdtpSource → List ℕ → SourceStep
source_handle_signaling s packet =
    if s.state is source_failed || s.state is source_idle || s.state is source_streaming
    then fail s error_unexpected_response
    else handle_response s packet (parse_header packet)

unfoldable pub source_media_channel_opened : AvdtpSource → SourceStep
unfolding fail
source_media_channel_opened s =
    if not (s.state is waiting_for_media_channel)
    then fail s error_media_channel_state
    else (record s { state = source_open }, make_action session_open)

-- The commands that an open or a streaming source sends to its endpoint.
source_start : AvdtpSource → SourceStep
source_start s =
    if not (s.state is source_open)
    then fail s error_unexpected_response
    else send_command (record s { state = start_sent }) signal_start (seid_payload s.remote_seid)

source_suspend : AvdtpSource → SourceStep
source_suspend s =
    if not (s.state is source_streaming)
    then fail s error_unexpected_response
    else send_command (record s { state = suspend_sent }) signal_suspend
        (seid_payload s.remote_seid)

unfoldable pub source_close : AvdtpSource → SourceStep
source_close s =
    if not (s.state is source_open)
    then fail s error_unexpected_response
    else send_command (record s { state = close_sent }) signal_close (seid_payload s.remote_seid)
