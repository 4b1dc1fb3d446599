-- ===== src/Protocol/Tests.antt =====
-- The theorems of the protocol modules at packets as a headset sends them.
use native_ldac_xm5_windows.Prelude.{
  length, bits_and, drop, ℕ, ◌≤◌, ◌≡◌, refl, ◌≢◌, ◌⊎◌, inl, inr, true, false, some, List, [], ◌∷◌,
  arith,
}
use native_ldac_xm5_windows.Protocol.Codec.{
  codec_ok, codec_truncated, LdacCapabilities, sf_all, cm_all, choose_sample_rate,
  choose_channel_mode, find_in_service_capabilities, choose_configuration,
  build_set_configuration_payload,
}
use native_ldac_xm5_windows.Protocol.Codec.Services.{
  Service, write_services, first_service, no_size, find-write_services,
}
use native_ldac_xm5_windows.Protocol.Codec.Payload.{chosen_read_back}
use native_ldac_xm5_windows.Protocol.Source.{
  source_init, source_handle_signaling, capabilities_sent, AvdtpSource,
}
use native_ldac_xm5_windows.Protocol.Source.Answers.{handle-Sound}
use native_ldac_xm5_windows.Protocol.Source.Order.{Sound}
use native_ldac_xm5_windows.Protocol.Rtp.{ldac_rtp_default_payload_type, build_unfragmented}
use native_ldac_xm5_windows.Protocol.Rtp.Packet.{read_packet, read-build_unfragmented}
use native_ldac_xm5_windows.Protocol.Avrcp.{
  AvrcpVendorFrame, AvrcpPassThrough, parse_frame, all_zero, parameters_status, parse_vendor_frame,
  pass_through_operands, parse_pass_through, avrcp_truncated, response_accepted, response_changed,
  response_interim, pdu_register_notification, event_playback_status_changed,
  playback_status_playing,
}
use native_ldac_xm5_windows.Protocol.Avrcp.Write.{write_pass_through_response}
use native_ldac_xm5_windows.Protocol.Avrcp.Frames.{parse-write_pass_through_response}
use native_ldac_xm5_windows.Protocol.Observer.{
  wait_volume_interim, observing, make_result, AvrcpObserver, observer_init,
}
use native_ldac_xm5_windows.Protocol.Observer.Handle.{handle_write_response, handle_packet}
use native_ldac_xm5_windows.Protocol.Observer.Range.{InRange, Good}
use native_ldac_xm5_windows.Protocol.Observer.Answers.{handle_packet-Good}
use native_ldac_xm5_windows.Protocol.Observer.Volume.{
  volume_frame, volume_event, with_volume, vendor_read, Follows, volume_followed,
  write_response_notifies,
}

-- LDAC at every rate and in every mode, and a headset with two rates and stereo.
abbrev local : LdacCapabilities
local = record { sample_rates = sf_all; channel_modes = cm_all }

abbrev remote : LdacCapabilities
remote = record { sample_rates = 0x24; channel_modes = 0x01 }

-- A service of another category, and the LDAC codec behind it.
abbrev services : List Service
services =
    record { category = 0x01; item = [] }
    ∷ record {
      category = 0x07;
      item = 0x00 ∷ 0xFF ∷ 0x2D ∷ 0x01 ∷ 0x00 ∷ 0x00 ∷ 0xAA ∷ 0x00 ∷ 0x24 ∷ 0x01 ∷ [];
    }
    ∷ []

find-write_services_example :
    find_in_service_capabilities (write_services services (0x04 ∷ [])) local
    ≡ first_service services codec_truncated local
find-write_services_example =
    find-write_services services (0x04 ∷ []) codec_truncated local (no_size 0x04)

chosen_read_back_example :
    let c = (choose_configuration local remote 48000).1 in
    let p = build_set_configuration_payload 16 1 2 c in
    (length p ≡ 16)
    × (find_in_service_capabilities (drop 2 p) local
        ≡ (codec_ok, record { sample_rates = c.sample_rate; channel_modes = c.channel_mode }))
unfolding choose_configuration choose_sample_rate choose_channel_mode bits_and
chosen_read_back_example =
    chosen_read_back local remote local 48000 1 2 (omega arith) (omega arith) (omega arith)
      (omega arith) refl

-- A source whose query of the capabilities is refused.
abbrev source : AvdtpSource
source = record (source_init local 1 0) {
  state = capabilities_sent;
  remote_seid = 1;
  remote_seids = 1 ∷ 2 ∷ [];
  next_transaction_label = 2;
  pending_transaction_label = 1;
  pending_signal_id = 0x0C;
}

handle-Sound_example :
    Sound capabilities_sent (source_handle_signaling source (0x13 ∷ 0x0C ∷ 0x19 ∷ []))
unfolding source_init
handle-Sound_example = handle-Sound source (0x13 ∷ 0x0C ∷ 0x19 ∷ [])

read-build_unfragmented_example :
    let packet = (build_unfragmented 700 679 65535 4294967295 7 2 (1 ∷ 2 ∷ 3 ∷ [])).1 in
    (read_packet packet
      ≡ some (record {
        payload_type = ldac_rtp_default_payload_type;
        sequence_number = 65535;
        timestamp = 4294967295;
        ssrc = 7;
        frame_count = 2;
        frames = 1 ∷ 2 ∷ 3 ∷ [];
      }))
    × (length packet ≡ 16)
    × (length packet ≤ 700)
    × (length packet ≤ 679)
unfolding build_unfragmented
read-build_unfragmented_example =
    read-build_unfragmented 700 679 65535 4294967295 7 2 (1 ∷ 2 ∷ 3 ∷ []) (omega arith)
      (omega arith) (omega arith) refl

-- The press of PLAY, with one byte of operation data.
abbrev press : List ℕ
press = 0x20 ∷ 0x11 ∷ 0x0E ∷ 0x00 ∷ 0x48 ∷ 0x7C ∷ 0x44 ∷ 0x01 ∷ 0x09 ∷ []

abbrev pressed : AvrcpPassThrough
pressed = record {
  frame = record {
    transaction_label = 2;
    packet_type = 0;
    command_response = 0;
    invalid_profile_id = 0;
    profile_id = 0x110E;
    ctype_or_response = 0;
    subunit_type = 9;
    subunit_id = 0;
    opcode = 0x7C;
    operands_offset = 6;
    operands_size = 3;
  };
  operation_id = 0x44;
  released = false;
  operation_data_offset = 8;
  operation_data_size = 1;
}

parse-write_pass_through_response_example :
    parse_pass_through (write_pass_through_response 64 press response_accepted)
    ≡ inl avrcp_truncated
unfolding parse_pass_through parse_frame pass_through_operands drop parameters_status all_zero
parse-write_pass_through_response_example =
    parse-write_pass_through_response 64 response_accepted press pressed refl refl (omega arith)
      (omega arith, omega arith)

-- An observer that waits for the volume, with a registration for the playback status.
abbrev waiting : AvrcpObserver
waiting = record observer_init {
  state = wait_volume_interim;
  next_transaction_label = 2;
  pending_transaction_label = 1;
  pending_pdu_id = pdu_register_notification;
  playback_status = playback_status_playing;
  playback_notification_active = true;
  playback_notification_label = 5;
}

abbrev observed : AvrcpObserver
observed = record waiting { state = observing; next_transaction_label = 15 }

waiting-InRange : InRange waiting
waiting-InRange = record { label_in = omega arith; volume_in = omega arith; status_in = refl }

handle_packet-Good_example : Good (handle_packet waiting press)
handle_packet-Good_example = handle_packet-Good waiting press waiting-InRange

volume_followed_example :
    ((observed.state ≢ wait_volume_interim)
      ⊎ (handle_packet observed (volume_frame 1 response_interim 100) ≡ (
        record (with_volume observed 100) { state = observing },
        record make_result { event = volume_event response_interim 100 },
      )))
    × ((observed.state ≢ observing)
        ⊎ Follows observed 100 (handle_packet observed (volume_frame 1 response_changed 100)))
volume_followed_example =
    volume_followed observed 100
      (record {
        label_in = omega arith;
        next_in = omega arith;
        waits_for = refl;
        writes_nothing = refl;
      })
      (omega arith)

-- The write that has been answered.
abbrev acknowledged : AvrcpVendorFrame
acknowledged = vendor_read 4 response_accepted

write_response_notifies_example :
    let (after, result) = handle_write_response waiting [] acknowledged in
    (parse_vendor_frame result.packet ≡ inr (vendor_read 5 response_changed))
    × (drop 13 result.packet ≡ event_playback_status_changed ∷ playback_status_playing ∷ [])
    × (after.playback_notification_active ≡ false)
    × (after.write_active ≡ false)
write_response_notifies_example =
    write_response_notifies waiting [] acknowledged (ground arith) (ground arith) refl refl
      (omega arith)
