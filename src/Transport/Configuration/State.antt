-- ===== src/Transport/Configuration/State.antt =====
-- The options and the result of agent/v1_transport_configuration_session.h.
use native_ldac_xm5_windows.Prelude.{
  leb, ◌==◌, if◌then◌else◌, ◌is◌, byte_and, ℕ, Bool, true, false, not, ◌&&◌, ◌||◌,
}
use native_ldac_xm5_windows.Protocol.Codec.{
  codec_status_enum, LdacCapabilities, LdacConfiguration, sf_all, cm_all,
}
use native_ldac_xm5_windows.Protocol.Avdtp.{
  packet_type_enum, message_type_enum, signal_discover, signal_get_capabilities,
  signal_set_configuration, signal_open, signal_close, signal_get_all_capabilities,
}
use native_ldac_xm5_windows.Protocol.Source.{
  source_state_enum, no_avdtp_action, session_closed, action_error, action_kind_enum, AvdtpAction,
  AvdtpSource, error_unexpected_response, make_action,
}
use native_ldac_xm5_windows.Transport.Backend.{is_timeout}

pub data Disposition : Type 0 where
  succeeded cancelled invalid_configuration backend_failure : Disposition
  protocol_failure cleanup_failure : Disposition

pub data Stage : Type 0 where
  no_stage open_signaling discover_capabilities set_configuration : Stage
  avdtp_open open_media avdtp_close close_channels : Stage

pub record ConfigurationOptions : Type 0 where
  pub open_timeout_ms : ℕ
  pub exchange_timeout_ms : ℕ
  pub media_open_timeout_ms : ℕ
  pub preferred_media_mtu : ℕ
  pub local_seid : ℕ
  pub preferred_sample_rate_hz : ℕ
  pub local_capabilities : LdacCapabilities

pub record ConfigurationResult : Type 0 where
  pub disposition : Disposition
  pub primary_disposition : Disposition
  pub stage : Stage
  pub backend_error : ℕ
  pub cleanup_error : ℕ
  pub protocol_error : ℕ
  pub remote_seid : ℕ
  pub configuration : LdacConfiguration
  pub open_attempts : ℕ
  pub signaling_exchanges : ℕ
  pub incoming_mtu : ℕ
  pub outgoing_mtu : ℕ
  pub signaling_opened : Bool
  pub set_configuration_accepted : Bool
  pub avdtp_open_accepted : Bool
  pub media_opened : Bool
  pub avdtp_close_accepted : Bool
  pub close_attempted : Bool
  pub close_succeeded : Bool

abbrev pub initial_result : ConfigurationResult
initial_result = record {
  disposition = invalid_configuration;
  primary_disposition = invalid_configuration;
  stage = no_stage;
  backend_error = 0;
  cleanup_error = 0;
  protocol_error = 0;
  remote_seid = 0;
  configuration = record { sample_rate = 0; channel_mode = 0 };
  open_attempts = 0;
  signaling_exchanges = 0;
  incoming_mtu = 0;
  outgoing_mtu = 0;
  signaling_opened = false;
  set_configuration_accepted = false;
  avdtp_open_accepted = false;
  media_opened = false;
  avdtp_close_accepted = false;
  close_attempted = false;
  close_succeeded = false;
}

unfoldable pub options_are_valid : ConfigurationOptions → Bool
options_are_valid o =
    is_timeout o.open_timeout_ms
    && is_timeout o.exchange_timeout_ms
    && is_timeout o.media_open_timeout_ms
    && not (o.preferred_media_mtu == 0)
    && not (o.local_seid == 0)
    && leb o.local_seid 0x3F
    && not (byte_and o.local_capabilities.sample_rates sf_all == 0)
    && not (byte_and o.local_capabilities.channel_modes cm_all == 0)

abbrev pub set_primary : ConfigurationResult → Disposition → Stage → ConfigurationResult
set_primary r disposition stage = record r {
  primary_disposition = disposition;
  disposition = disposition;
  stage = stage;
}

unfoldable pub stage_for_signal : ℕ → Stage
stage_for_signal signal =
    if signal == signal_discover
      || signal == signal_get_capabilities
      || signal == signal_get_all_capabilities
    then discover_capabilities
    else if signal == signal_set_configuration
    then set_configuration
    else if signal == signal_open
    then avdtp_open
    else if signal == signal_close
    then avdtp_close
    else no_stage

-- What the response to a request of the given signal shows of the source's next action.
unfoldable pub note_accepted : ℕ → AvdtpAction → ConfigurationResult → ConfigurationResult
note_accepted signal next r =
    if signal == signal_set_configuration && not (next.kind is action_error)
    then record r { set_configuration_accepted = true }
    else if signal == signal_open && not (next.kind is action_error)
    then record r { avdtp_open_accepted = true }
    else if signal == signal_close && next.kind is session_closed
    then record r { avdtp_close_accepted = true }
    else r

-- What an exchange returns and what it has changed: `went_on` is its result, and `next` the action
-- that it stores.
pub record Exchanged (W : Type 0) : Type 0 where
  pub went_on : Bool
  pub source : AvdtpSource
  pub next : AvdtpAction
  pub result : ConfigurationResult
  pub world : W

abbrev pub stopped : {W : Type 0} → AvdtpSource → ConfigurationResult → W → Exchanged W
stopped s r w = record {
  went_on = false;
  source = s;
  next = make_action no_avdtp_action;
  result = r;
  world = w;
}

abbrev pub gone_on :
    {W : Type 0} → AvdtpSource → AvdtpAction → ConfigurationResult → W → Exchanged W
gone_on s action r w = record { went_on = true; source = s; next = action; result = r; world = w }

-- The error of an action that ends the exchanges unexpectedly.
abbrev pub error_of : AvdtpAction → ℕ
error_of action =
    if action.kind is action_error then action.error_code else error_unexpected_response

-- More rounds than the requests that can follow a discovery.
abbrev pub loop_fuel : ℕ
loop_fuel = 132
