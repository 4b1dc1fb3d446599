-- ===== src/FilterDecoder.antt =====
-- agent/v1_avrcp_filter_decoder.h and agent/v1_avrcp_filter_decoder.cpp: the payloads that the
-- filter driver has recorded become events of the observer.
pub mod Layouts
mod Tests
use native_ldac_xm5_windows.Prelude.{
  ltb, leb, ◌==◌, if◌then◌else◌, length, drop, take, ℕ, ◌⊎◌, inl, inr, Bool, true, false, not, ◌&&◌,
  List, ◌∷◌,
}
use native_ldac_xm5_windows.Protocol.Avrcp.{
  AvrcpFrame, AvrcpVendorFrame, AvrcpPassThrough, parse_frame, parse_vendor_frame,
  parse_pass_through, AvrcpStatus, avrcp_ok, avrcp_invalid_argument, avrcp_protocol_error,
  avrcp_opcode_pass_through, pdu_get_capabilities, pdu_register_notification,
  capability_events_supported, event_volume_changed,
}
use native_ldac_xm5_windows.Protocol.Observer.{
  capabilities_include_volume, first_or, second_or, parameters_of, volume_capability,
  volume_changed, pass_through_event, vendor_command, protocol_error, ObserverEvent, empty_event,
}

pub data PayloadLayout : Type 0 where
  no_layout direct microsoft_private_header : PayloadLayout

abbrev pub microsoft_header_size : ℕ
microsoft_header_size = 8

abbrev pub event_raw_prefix_capacity : ℕ
event_raw_prefix_capacity = 64

unfoldable pub copy_raw_prefix : ObserverEvent → List ℕ → ObserverEvent
copy_raw_prefix out payload = record out {
  raw_prefix = take event_raw_prefix_capacity payload;
  raw_total_size = if ltb 0xFFFF (length payload) then 0xFFFF else length payload;
}

-- The bytes 0 to 3, 9 and 10 of the private header and the packet behind it.
unfoldable pub has_microsoft_header : List ℕ → Bool
has_microsoft_header (b0 ∷ b1 ∷ b2 ∷ b3 ∷ b4 ∷ b5 ∷ b6 ∷ b7 ∷ b8 ∷ b9 ∷ b10 ∷ bs) =
    b0 == 1 && b1 == 0 && b2 == 0 && b3 == 0 && b9 == 0x11 && b10 == 0x0E
has_microsoft_header _ = false

unfoldable pub has_profile : List ℕ → Bool
has_profile (b0 ∷ b1 ∷ b2 ∷ b3 ∷ b4 ∷ b5 ∷ b6 ∷ b7 ∷ bs) = b1 == 0x11 && b2 == 0x0E
has_profile _ = false

unfoldable pub detect_layout : List ℕ → PayloadLayout
detect_layout payload =
    if has_microsoft_header payload
    then microsoft_private_header
    else if has_profile payload
    then direct
    else no_layout

abbrev pub protocol_error_event : ObserverEvent → AvrcpStatus → ObserverEvent
protocol_error_event out status = record out { kind = protocol_error; error_code = status }

unfoldable pub decode_pass_through :
    ObserverEvent → AvrcpFrame → AvrcpStatus ⊎ AvrcpPassThrough → AvrcpStatus × ObserverEvent
decode_pass_through out frame (inl status) = (status, protocol_error_event out status)
decode_pass_through out frame (inr pass_through) = (
  avrcp_ok,
  record out {
    kind = pass_through_event;
    operation_id = pass_through.operation_id;
    released = pass_through.released;
    response_code = frame.ctype_or_response;
  },
)

-- What a vendor response tells.
unfoldable pub response_event : ObserverEvent → ℕ → List ℕ → ObserverEvent
response_event out pdu_id parameters =
    if pdu_id == pdu_get_capabilities
      && leb 2 (length parameters)
      && first_or 0 parameters == capability_events_supported
    then record out {
      kind = volume_capability;
      volume_supported = capabilities_include_volume parameters;
    }
    else if pdu_id == pdu_register_notification
        && leb 2 (length parameters)
        && first_or 0 parameters == event_volume_changed
        && leb (second_or 0 parameters) 0x7F
    then record out {
      kind = volume_changed;
      volume_supported = true;
      absolute_volume = second_or 0 parameters;
    }
    else record out { kind = vendor_command }

unfoldable pub decode_vendor :
    ObserverEvent → List ℕ → AvrcpStatus ⊎ AvrcpVendorFrame → AvrcpStatus × ObserverEvent
decode_vendor out packet (inl status) = (status, protocol_error_event out status)
decode_vendor out packet (inr vendor) =
    let parameters = parameters_of packet vendor in
    let read = record out { pdu_id = vendor.pdu_id; parameter_bytes = take 8 parameters } in
    if vendor.frame.command_response == 0
    then (avrcp_ok, record read { kind = vendor_command })
    else (
      avrcp_ok,
      response_event (record read { response_code = vendor.frame.ctype_or_response }) vendor.pdu_id
          parameters,
    )

unfoldable pub decode_frame :
    ObserverEvent → List ℕ → AvrcpStatus ⊎ AvrcpFrame → AvrcpStatus × ObserverEvent
decode_frame out packet (inl status) = (status, protocol_error_event out status)
decode_frame out packet (inr frame) =
    if frame.opcode == avrcp_opcode_pass_through
    then decode_pass_through out frame (parse_pass_through packet)
    else decode_vendor out packet (parse_vendor_frame packet)

-- `out` is the event as the caller passes it in, which only a payload without a layout leaves as
-- it is.
unfoldable pub decode_packet : List ℕ → PayloadLayout → ObserverEvent → AvrcpStatus × ObserverEvent
decode_packet payload no_layout out = (avrcp_invalid_argument, out)
decode_packet payload direct out =
    decode_frame (copy_raw_prefix empty_event payload) payload (parse_frame payload)
decode_packet payload microsoft_private_header out =
    let copied = copy_raw_prefix empty_event payload in
    let packet = drop microsoft_header_size payload in
    if not (has_microsoft_header payload)
    then (avrcp_protocol_error, protocol_error_event copied avrcp_protocol_error)
    else decode_frame copied packet (parse_frame packet)
