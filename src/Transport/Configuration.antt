-- ===== src/Transport/Configuration.antt =====
-- agent/v1_transport_configuration_session.h and .cpp: a session that configures the remote endpoint,
-- opens the media channel and closes everything again.
mod State
pub mod Kept
pub mod Ends
pub mod Closing
pub mod Tracked
pub mod Exchanges
pub mod Success
pub mod Accepted
pub mod Recorded
pub mod Told
unfoldable pub use State.*
use native_ldac_xm5_windows.Prelude.{
  if◌then◌else◌, ◌is◌, ℕ, zero, suc, ◌+◌, ◌⊎◌, inl, inr, true, false, not, Option, none, some, List,
}
use native_ldac_xm5_windows.Protocol.Codec.{codec_status_enum}
use native_ldac_xm5_windows.Protocol.Avdtp.{
  AvdtpError, packet_type_enum, message_type_enum, AvdtpHeader, parse_header,
}
use native_ldac_xm5_windows.Protocol.Source.{
  source_init, source_begin, source_handle_signaling, source_media_channel_opened, source_close,
  source_state_enum, send_signaling, open_media_channel, session_open, session_closed, action_error,
  action_kind_enum, AvdtpAction, AvdtpSource, error_bad_packet,
}
use native_ldac_xm5_windows.Transport.Backend.{ExchangeReply, Backend, maximum_signaling_response}

module _ {W : Type 0} (b : Backend W) (o : ConfigurationOptions) where
  -- The answer of the backend to the request, with the result and the world as they stand.
  unfoldable pub exchange_answered :
      ℕ → AvdtpSource → ConfigurationResult → ExchangeReply → W → Exchanged W
  exchange_answered signal s r reply w =
      let (probe, w1) = b.cancelled w in
      let failed = record r { backend_error = reply.error } in
      let (source, next) = source_handle_signaling s reply.response in
      let noted = note_accepted signal next r in
      if not reply.succeeded
      then stopped s (set_primary failed (if probe then cancelled else backend_failure) r.stage) w1
      else if next.kind is action_error
      then stopped source
          (set_primary (record noted { protocol_error = next.error_code }) protocol_failure
            noted.stage)
          w
      else record { went_on = true; source = source; next = next; result = noted; world = w }

  unfoldable pub exchange_request : List ℕ → ℕ → AvdtpSource → ConfigurationResult → W → Exchanged W
  exchange_request packet signal s r w =
      let staged = record r { stage = stage_for_signal signal } in
      let (probe, w1) = b.cancelled w in
      let sent = record staged { signaling_exchanges = r.signaling_exchanges + 1 } in
      let (reply, w2) =
        b.exchange_signaling packet maximum_signaling_response o.exchange_timeout_ms w1 in
      if probe
      then stopped s (set_primary staged cancelled staged.stage) w1
      else exchange_answered signal s sent reply w2

  unfoldable pub exchange_parsed :
      AvdtpAction → AvdtpSource → ConfigurationResult → AvdtpError ⊎ AvdtpHeader → W → Exchanged W
  exchange_parsed action s r (inl error) w =
      stopped s
        (set_primary (record r { protocol_error = error_bad_packet }) protocol_failure r.stage) w
  exchange_parsed action s r (inr h) w = exchange_request action.packet h.signal_id s r w

  unfoldable pub exchange_action : AvdtpAction → AvdtpSource → ConfigurationResult → W → Exchanged W
  exchange_action action s r w =
      if not (action.kind is send_signaling)
      then stopped s
          (set_primary (record r { protocol_error = error_bad_packet }) protocol_failure r.stage) w
      else exchange_parsed action s r (parse_header action.packet) w

  -- The loop over the requests. `none` stands for a loop that is still running when the fuel is
  -- spent.
  unfoldable pub exchange_loop :
      ℕ → AvdtpAction → AvdtpSource → ConfigurationResult → W → Option (Exchanged W)
  exchange_loop zero action s r w =
      if action.kind is send_signaling then none else some (gone_on s action r w)
  exchange_loop (suc fuel) action s r w =
      let e = exchange_action action s r w in
      elim (action.kind is send_signaling) [
        | true ↦ elim e.went_on [
          | true ↦ exchange_loop fuel e.next e.source e.result e.world
          | false ↦ some e
        ]
        | false ↦ some (gone_on s action r w)
      ]

  unfoldable pub finish : ConfigurationResult → W → ConfigurationResult × W
  finish r w =
      let ((is_closed, error), w1) = b.close_signaling w in
      let closed = record r {
        close_attempted = true;
        close_succeeded = is_closed;
        cleanup_error = error;
      } in
      if not r.signaling_opened
      then (r, w)
      else if not is_closed
      then (record closed { disposition = cleanup_failure; stage = close_channels }, w1)
      else (closed, w1)

  -- The end of the session, from the request that closes the stream.
  unfoldable pub close_phase :
      AvdtpAction → AvdtpSource → ConfigurationResult → W → ConfigurationResult × W
  close_phase action s r w =
      let e = exchange_action action s r w in
      if not e.went_on
      then finish e.result e.world
      else if not (e.next.kind is session_closed)
      then finish
          (set_primary (record e.result { protocol_error = error_of e.next }) protocol_failure
            avdtp_close)
          e.world
      else finish (set_primary e.result succeeded avdtp_close) e.world

  -- The media channel is open.
  unfoldable pub media_phase : AvdtpSource → ConfigurationResult → W → ConfigurationResult × W
  media_phase s r w =
      let (opened, action) = source_media_channel_opened s in
      let (closing, request) = source_close opened in
      if not (action.kind is session_open)
      then finish
          (set_primary (record r { protocol_error = action.error_code }) protocol_failure
            open_media)
          w
      else close_phase request closing r w

  -- The source asks for the media channel.
  unfoldable pub open_phase : AvdtpSource → ConfigurationResult → W → ConfigurationResult × W
  open_phase s r w =
      let known = record r { remote_seid = s.remote_seid; configuration = s.configuration } in
      let (probe, w1) = b.cancelled w in
      let (reply, w2) = b.open_media o.media_open_timeout_ms o.preferred_media_mtu w1 in
      let asked = record known {
        stage = open_media;
        incoming_mtu = reply.incoming_mtu;
        outgoing_mtu = reply.outgoing_mtu;
      } in
      if probe
      then finish (set_primary known cancelled open_media) w1
      else if not reply.succeeded
      then finish
          (set_primary (record asked { backend_error = reply.error }) backend_failure open_media) w2
      else media_phase s (record asked { media_opened = true }) w2

  -- The loop has ended.
  unfoldable pub after_loop : Exchanged W → ConfigurationResult × W
  after_loop e =
      if not e.went_on
      then finish e.result e.world
      else if not (e.next.kind is open_media_channel)
      then finish
          (set_primary (record e.result { protocol_error = error_of e.next }) protocol_failure
            e.result.stage)
          e.world
      else open_phase e.source e.result e.world

  abbrev pub with_loop : Option (Exchanged W) → Option (ConfigurationResult × W)
  with_loop none = none
  with_loop (some e) = some (after_loop e)

  -- The signalling channel is open.
  unfoldable pub exchange_phase : ConfigurationResult → W → Option (ConfigurationResult × W)
  exchange_phase r w =
      let (s, action) =
        source_begin (source_init o.local_capabilities o.local_seid o.preferred_sample_rate_hz) in
      with_loop (exchange_loop loop_fuel action s r w)

  unfoldable pub run_configuration : W → Option (ConfigurationResult × W)
  run_configuration w =
      let (probe, w1) = b.cancelled w in
      let opening = record initial_result { stage = open_signaling; open_attempts = 1 } in
      let ((is_open, error), w2) = b.open_signaling o.open_timeout_ms w1 in
      let (probed, w3) = b.cancelled w2 in
      if not (options_are_valid o)
      then some (initial_result, w)
      else if probe
      then some (set_primary initial_result cancelled open_signaling, w1)
      else if not is_open
      then some (
        set_primary (record opening { backend_error = error })
            (if probed then cancelled else backend_failure) open_signaling,
        w3,
      )
      else exchange_phase (record opening { signaling_opened = true }) w2
