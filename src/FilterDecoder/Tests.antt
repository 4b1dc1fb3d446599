-- ===== src/FilterDecoder/Tests.antt =====
-- A payload of agent/v1_avrcp_filter_decoder.cpp in both layouts.
use native_ldac_xm5_windows.Prelude.{ℕ, ◌≡◌, List, [], ◌∷◌}
use native_ldac_xm5_windows.Protocol.Observer.{empty_event}
use native_ldac_xm5_windows.FilterDecoder.{
  direct, microsoft_private_header, copy_raw_prefix, detect_layout, decode_packet,
}
use native_ldac_xm5_windows.FilterDecoder.Layouts.{with_raw, private_header_is_skipped}

-- The press of PLAY.
abbrev press : List ℕ
press = 0x20 ∷ 0x11 ∷ 0x0E ∷ 0x00 ∷ 0x48 ∷ 0x7C ∷ 0x44 ∷ 0x00 ∷ []

abbrev recorded : List ℕ
recorded = 1 ∷ 0 ∷ 0 ∷ 0 ∷ 8 ∷ 0 ∷ 0 ∷ 0 ∷ press

private_header_is_skipped_example :
    (detect_layout recorded ≡ microsoft_private_header)
    × (detect_layout press ≡ direct)
    × ((decode_packet recorded microsoft_private_header empty_event).0
        ≡ (decode_packet press direct empty_event).0)
    × ((decode_packet recorded microsoft_private_header empty_event).1
        ≡ with_raw
            (decode_packet press direct empty_event).1
            (copy_raw_prefix empty_event recorded))
private_header_is_skipped_example =
    private_header_is_skipped 8 0 0 0 0x20 0x00 0x48 0x7C 0x44 0x00 [] empty_event
