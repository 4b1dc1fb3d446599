-- ===== src/Transport/Discovery/State.antt =====
-- The options and the result of the discovery of agent/v1_transport_session.h.
use native_ldac_xm5_windows.Prelude.{
  ltb, ◌==◌, if◌then◌else◌, ◌is◌, length, byte_and, drop, ℕ, ◌⊎◌, inl, inr, Bool, false, not, ◌&&◌,
  ◌||◌, Option, none, some, List,
}
use native_ldac_xm5_windows.Protocol.Codec.{
  codec_status_enum, LdacCapabilities, LdacConfiguration, sf_all, cm_all,
}
use native_ldac_xm5_windows.Protocol.Avdtp.{
  AvdtpError, single, MessageType, command, general_reject, reject, packet_type_enum,
  message_type_enum, AvdtpHeader, parse_header, collect_audio_sinks,
}
use native_ldac_xm5_windows.Protocol.Source.{last_byte, source_state_enum, action_kind_enum}
use native_ldac_xm5_windows.Transport.Backend.{is_timeout}

pub data DiscoveryDisposition : Type 0 where
  succeeded cancelled invalid_configuration backend_failure : DiscoveryDisposition
  protocol_failure cleanup_failure : DiscoveryDisposition

pub data DiscoveryStage : Type 0 where
  no_stage open_signaling discover get_capabilities close_signaling : DiscoveryStage

pub data DiscoveryError : Type 0 where
  no_error invalid_response remote_rejected no_audio_sink : DiscoveryError
  ldac_not_supported no_common_configuration : DiscoveryError

pub record DiscoveryOptions : Type 0 where
  pub open_timeout_ms : ℕ
  pub exchange_timeout_ms : ℕ
  pub preferred_sample_rate_hz : ℕ
  pub local_capabilities : LdacCapabilities

pub record DiscoveryResult : Type 0 where
  pub disposition : DiscoveryDisposition
  pub primary_disposition : DiscoveryDisposition
  pub stage : DiscoveryStage
  pub protocol_error : DiscoveryError
  pub backend_error : ℕ
  pub cleanup_error : ℕ
  pub remote_reject_error : ℕ
  pub remote_seid : ℕ
  pub remote_capabilities : LdacCapabilities
  pub configuration : LdacConfiguration
  pub open_attempts : ℕ
  pub signaling_exchanges : ℕ
  pub sink_candidates : ℕ
  pub legacy_capability_fallbacks : ℕ
  pub signaling_opened : Bool
  pub close_attempted : Bool
  pub close_succeeded : Bool

abbrev pub no_capabilities : LdacCapabilities
no_capabilities = record { sample_rates = 0; channel_modes = 0 }

abbrev pub initial_discovery : DiscoveryResult
initial_discovery = record {
  disposition = invalid_configuration;
  primary_disposition = invalid_configuration;
  stage = no_stage;
  protocol_error = no_error;
  backend_error = 0;
  cleanup_error = 0;
  remote_reject_error = 0;
  remote_seid = 0;
  remote_capabilities = no_capabilities;
  configuration = record { sample_rate = 0; channel_mode = 0 };
  open_attempts = 0;
  signaling_exchanges = 0;
  sink_candidates = 0;
  legacy_capability_fallbacks = 0;
  signaling_opened = false;
  close_attempted = false;
  close_succeeded = false;
}

unfoldable pub discovery_options_are_valid : DiscoveryOptions → Bool
discovery_options_are_valid o =
    is_timeout o.open_timeout_ms
    && is_timeout o.exchange_timeout_ms
    && not (byte_and o.local_capabilities.sample_rates sf_all == 0)
    && not (byte_and o.local_capabilities.channel_modes cm_all == 0)

abbrev pub set_discovery_primary :
    DiscoveryResult → DiscoveryDisposition → DiscoveryStage → DiscoveryResult
set_discovery_primary r disposition stage = record r {
  primary_disposition = disposition;
  disposition = disposition;
  stage = stage;
}

-- A protocol failure in the stage that the result is in.
abbrev pub fail_discovery : DiscoveryResult → DiscoveryError → DiscoveryResult
fail_discovery r error =
    set_discovery_primary (record r { protocol_error = error }) protocol_failure r.stage

pub record ParsedResponse : Type 0 where
  pub message_type : MessageType
  pub payload : List ℕ
  pub reject_error : ℕ

-- A response with its header.
unfoldable pub checked_response : List ℕ → ℕ → ℕ → AvdtpError ⊎ AvdtpHeader → Option ParsedResponse
checked_response response expected_label expected_signal (inl error) = none
checked_response response expected_label expected_signal (inr h) =
    let payload = drop h.payload_offset response in
    if not (h.packet_type is single)
      || ltb (length response) h.payload_offset
      || not (h.transaction_label == expected_label)
      || not (h.signal_id == expected_signal)
      || h.message_type is command
    then none
    else some (record {
      message_type = h.message_type;
      payload = payload;
      reject_error =
          if h.message_type is reject || h.message_type is general_reject
          then last_byte payload
          else 0;
    })

unfoldable pub parse_response : List ℕ → ℕ → ℕ → Option ParsedResponse
parse_response response expected_label expected_signal =
    checked_response response expected_label expected_signal (parse_header response)

-- `CollectAudioSinks`, with the text of the function of protocol/src/avdtp.c.
abbrev pub collect_sinks : ℕ → List ℕ → List ℕ
collect_sinks = collect_audio_sinks

-- What an exchange ends with: a failure, or a response with the label that follows.
pub data Heard (W : Type 0) : Type 0 where
  broken : DiscoveryResult → W → Heard W
  heard : ParsedResponse → ℕ → DiscoveryResult → W → Heard W

-- What one sink ends with: the result of the discovery, or the next sink.
pub data Visit (W : Type 0) : Type 0 where
  ended : DiscoveryResult → W → Visit W
  goes_on : ℕ → DiscoveryResult → W → Visit W
