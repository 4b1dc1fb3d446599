-- ===== src/FilterDecoder/Layouts.antt =====
-- The two layouts of agent/v1_avrcp_filter_decoder.cpp carry the same packets.
use native_ldac_xm5_windows.Prelude.{drop, ℕ, ◌≡◌, refl, ◌⊎◌, inl, inr, List, ◌∷◌, arith}
use native_ldac_xm5_windows.Protocol.Avrcp.{
  AvrcpFrame, AvrcpVendorFrame, AvrcpPassThrough, parse_frame, parse_vendor_frame,
  parse_pass_through, AvrcpStatus,
}
use native_ldac_xm5_windows.Protocol.Observer.{ObserverEvent, empty_event}
use native_ldac_xm5_windows.FilterDecoder.{
  direct, microsoft_private_header, copy_raw_prefix, has_microsoft_header, has_profile,
  detect_layout, decode_pass_through, response_event, decode_vendor, decode_frame, decode_packet,
}

-- An event with the raw bytes of another.
abbrev pub with_raw : ObserverEvent → ObserverEvent → ObserverEvent
with_raw event raw = record event {
  raw_prefix = raw.raw_prefix;
  raw_total_size = raw.raw_total_size;
}

-- What is decoded does not depend on the raw bytes that are kept beside it.
abbrev Same : AvrcpStatus × ObserverEvent → AvrcpStatus × ObserverEvent → ObserverEvent → Type 0
Same (s, e) (t, f) raw = (s ≡ t) × (e ≡ with_raw f raw)

pass_through-Same :
    (out raw : ObserverEvent) (frame : AvrcpFrame) (x : AvrcpStatus ⊎ AvrcpPassThrough)
    → Same (decode_pass_through (with_raw out raw) frame x) (decode_pass_through out frame x) raw
unfolding decode_pass_through
pass_through-Same out raw frame (inl status) = (refl, refl)
pass_through-Same out raw frame (inr p) = (refl, refl)

vendor-Same :
    (out raw : ObserverEvent) (packet : List ℕ) (x : AvrcpStatus ⊎ AvrcpVendorFrame)
    → Same (decode_vendor (with_raw out raw) packet x) (decode_vendor out packet x) raw
unfolding decode_vendor response_event
vendor-Same out raw packet (inl status) = (refl, refl)
vendor-Same out raw packet (inr vendor) = (ground arith, ground arith)

frame-Same :
    (out raw : ObserverEvent) (packet : List ℕ) (x : AvrcpStatus ⊎ AvrcpFrame)
    → Same (decode_frame (with_raw out raw) packet x) (decode_frame out packet x) raw
unfolding decode_frame
frame-Same out raw packet (inl status) = (refl, refl)
frame-Same out raw packet (inr frame) = ground (
  arith,
  pass_through-Same out raw frame (parse_pass_through packet),
  vendor-Same out raw packet (parse_vendor_frame packet),
)

-- A packet is found behind the private header, whatever length the header tells, and alone; the two
-- layouts are told apart, and decode to the same status and event, but for the raw bytes.
pub private_header_is_skipped :
    (b4 b5 b6 b7 first b11 b12 b13 b14 b15 : ℕ) (rest : List ℕ) (out : ObserverEvent)
    → let packet = first ∷ 0x11 ∷ 0x0E ∷ b11 ∷ b12 ∷ b13 ∷ b14 ∷ b15 ∷ rest in
      let payload = 1 ∷ 0 ∷ 0 ∷ 0 ∷ b4 ∷ b5 ∷ b6 ∷ b7 ∷ packet in
      (detect_layout payload ≡ microsoft_private_header)
      × (detect_layout packet ≡ direct)
      × ((decode_packet payload microsoft_private_header out).0
          ≡ (decode_packet packet direct out).0)
      × ((decode_packet payload microsoft_private_header out).1
          ≡ with_raw (decode_packet packet direct out).1 (copy_raw_prefix empty_event payload))
unfolding decode_packet detect_layout has_microsoft_header has_profile drop copy_raw_prefix
private_header_is_skipped b4 b5 b6 b7 first b11 b12 b13 b14 b15 rest out =
    let packet = first ∷ 0x11 ∷ 0x0E ∷ b11 ∷ b12 ∷ b13 ∷ b14 ∷ b15 ∷ rest in
    let payload = 1 ∷ 0 ∷ 0 ∷ 0 ∷ b4 ∷ b5 ∷ b6 ∷ b7 ∷ packet in
    let (status, event) =
      frame-Same (copy_raw_prefix empty_event packet) (copy_raw_prefix empty_event payload) packet
        (parse_frame packet) in
    (refl, ground arith, status, event)
