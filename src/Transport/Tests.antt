-- ===== src/Transport/Tests.antt =====
-- A run of agent/v1_transport_configuration_session.cpp over a headset that answers from a script.
use native_ldac_xm5_windows.Prelude.{
  if◌then◌else◌, bits_and, drop, take, ℕ, ◌≡◌, refl, true, false, Option, none, some, List, [], ◌∷◌,
}
use native_ldac_xm5_windows.Protocol.Codec.{
  sf_all, cm_all, choose_sample_rate, choose_channel_mode, parse_codec_info, service_item,
  find_services, find_in_service_capabilities, choose_configuration,
  build_set_configuration_payload,
}
use native_ldac_xm5_windows.Transport.Backend.{
  ExchangeReply, Backend, Counted, uncounted, counting, unlogged, logging,
}
use native_ldac_xm5_windows.Protocol.Avdtp.{
  header_in, parse_header, write_single, collect_from, collect_audio_sinks,
}
use native_ldac_xm5_windows.Protocol.Source.{
  fail, send_command, query_current_sink, seid_at, source_init, source_begin, accept_discover,
  send_configuration, accept_capabilities, accept_in, handle_response, source_handle_signaling,
  source_media_channel_opened, source_close,
}
use native_ldac_xm5_windows.Transport.Configuration.{
  exchange_answered, exchange_request, exchange_parsed, exchange_action, exchange_loop, finish,
  close_phase, media_phase, open_phase, after_loop, exchange_phase, run_configuration,
  ConfigurationOptions, ConfigurationResult, options_are_valid, stage_for_signal, note_accepted,
}
use native_ldac_xm5_windows.Transport.Discovery.{
  hear_parsed, exchange, choose_sink, judge_sink, judge_first, visit_sink, visit_sinks,
  after_discover, discover_phase, finish_discovery, run_discovery, DiscoveryOptions,
  DiscoveryResult, discovery_options_are_valid, checked_response, parse_response,
}
use native_ldac_xm5_windows.Transport.Configuration.Ends.{Ends}
use native_ldac_xm5_windows.Transport.Configuration.Closing.{Balanced, run_configuration-Balanced}
use native_ldac_xm5_windows.Transport.Configuration.Success.{Told, run_configuration-Complete}

-- The world is what the headset still has to answer.
abbrev answer : List (List ℕ) → ExchangeReply × List (List ℕ)
answer [] = (record { succeeded = false; response = []; error = 1460 }, [])
answer (r ∷ rs) = (record { succeeded = true; response = r; error = 0 }, rs)

abbrev scripted : Backend (List (List ℕ))
scripted = record {
  open_signaling = λ timeout w. ((true, 0), w);
  exchange_signaling = λ request capacity timeout w. answer w;
  open_media = λ timeout mtu w.
      (record { succeeded = true; incoming_mtu = 679; outgoing_mtu = mtu; error = 0 }, w);
  close_signaling = λ w. ((true, 0), w);
  cancelled = λ w. (false, w);
}

abbrev options : ConfigurationOptions
options = record {
  open_timeout_ms = 5000;
  exchange_timeout_ms = 3000;
  media_open_timeout_ms = 5000;
  preferred_media_mtu = 895;
  local_seid = 1;
  preferred_sample_rate_hz = 96000;
  local_capabilities = record { sample_rates = sf_all; channel_modes = cm_all };
}

-- One free sink with the seid 1, LDAC at 96 kHz in stereo, and three acceptances.
abbrev answers : List (List ℕ)
answers =
    (0x02 ∷ 0x01 ∷ 0x04 ∷ 0x08 ∷ [])
    ∷ (0x12 ∷ 0x0C ∷ 0x01 ∷ 0x00 ∷ 0x07 ∷ 0x0A ∷ 0x00 ∷ 0xFF ∷ 0x2D ∷ 0x01 ∷ 0x00 ∷ 0x00 ∷ 0xAA
        ∷ 0x00 ∷ 0x04 ∷ 0x01 ∷ [])
    ∷ (0x22 ∷ 0x03 ∷ [])
    ∷ (0x32 ∷ 0x06 ∷ [])
    ∷ (0x42 ∷ 0x08 ∷ [])
    ∷ []

run_configuration-Balanced_example :
    Ends
      (run_configuration (counting scripted) options (uncounted answers))
      (Balanced {W = List (List ℕ)})
run_configuration-Balanced_example = run_configuration-Balanced scripted options answers

run_configuration-Complete_example :
    Ends
      (run_configuration (counting (logging scripted)) options (uncounted (unlogged answers)))
      (Told {W = List (List ℕ)})
run_configuration-Complete_example = run_configuration-Complete scripted options answers

-- The run succeeds, with five requests.
disposition_of : Option (ConfigurationResult × Counted (List (List ℕ))) → ℕ
disposition_of none = 99
disposition_of (some (r, c)) = if r.close_succeeded then r.signaling_exchanges else 98

five : disposition_of (run_configuration (counting scripted) options (uncounted answers)) ≡ 5
unfolding disposition_of run_configuration exchange_phase exchange_loop exchange_action
    exchange_parsed exchange_request exchange_answered after_loop open_phase media_phase close_phase
    finish options_are_valid stage_for_signal note_accepted source_init source_begin
    source_handle_signaling source_media_channel_opened source_close send_command fail write_single
    parse_header header_in handle_response accept_in accept_discover collect_audio_sinks
    collect_from query_current_sink seid_at accept_capabilities send_configuration
    find_in_service_capabilities find_services service_item parse_codec_info choose_configuration
    choose_sample_rate choose_channel_mode build_set_configuration_payload drop take bits_and
five = refl

abbrev discovery_options : DiscoveryOptions
discovery_options = record {
  open_timeout_ms = 10000;
  exchange_timeout_ms = 5000;
  preferred_sample_rate_hz = 96000;
  local_capabilities = record { sample_rates = sf_all; channel_modes = 1 };
}

-- The discovery finds the sink with its second request.
found_with : DiscoveryResult × Counted (List (List ℕ)) → ℕ × ℕ
found_with (r, c) = (r.signaling_exchanges, r.remote_seid)

found_second :
    found_with (run_discovery (counting scripted) discovery_options (uncounted answers)) ≡ (2, 1)
unfolding found_with run_discovery discover_phase after_discover visit_sinks visit_sink judge_first
    judge_sink choose_sink exchange hear_parsed finish_discovery discovery_options_are_valid
    parse_response checked_response write_single parse_header header_in collect_from
    collect_audio_sinks find_in_service_capabilities find_services service_item parse_codec_info
    choose_configuration choose_sample_rate choose_channel_mode drop take bits_and
found_second = refl
