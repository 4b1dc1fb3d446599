-- ===== src/Protocol/Rtp.antt =====
-- protocol/include/ldac_native/rtp_ldac.h and protocol/src/rtp_ldac.c: the packet that carries
-- encoded frames. A packet is the list of the bytes that are written, and its size their number.
pub mod Packet
use native_ldac_xm5_windows.Prelude.{
  ltb, ◌==◌, if◌then◌else◌, u64_max, u8, length, ℕ, ◌+◌, ◌-◌, ◌/◌, ◌||◌, List, [], ◌∷◌, ◌++◌,
}

abbrev pub ldac_rtp_overhead : ℕ
ldac_rtp_overhead = 13

abbrev pub ldac_rtp_default_payload_type : ℕ
ldac_rtp_default_payload_type = 96

abbrev pub ldac_rtp_max_frame_count : ℕ
ldac_rtp_max_frame_count = 31

-- The largest `size_t`.
abbrev pub size_max : ℕ
size_max = u64_max

pub data RtpStatus : Type 0 where
  rtp_ok rtp_invalid_argument rtp_no_space rtp_mtu_exceeded : RtpStatus

unfoldable pub write_u16_be : ℕ → List ℕ
write_u16_be value = u8 (value / 256) ∷ u8 value ∷ []

unfoldable pub write_u32_be : ℕ → List ℕ
write_u32_be value = u8 (value / 16777216) ∷ u8 (value / 65536) ∷ u8 (value / 256) ∷ u8 value ∷ []

unfoldable pub build_unfragmented : ℕ → ℕ → ℕ → ℕ → ℕ → ℕ → List ℕ → RtpStatus × List ℕ
build_unfragmented out_size l2cap_mtu sequence_number timestamp ssrc frame_count encoded_frames =
    let encoded_size = length encoded_frames in
    let required = ldac_rtp_overhead + encoded_size in
    if encoded_size == 0 || frame_count == 0 || ltb ldac_rtp_max_frame_count frame_count
    then (rtp_invalid_argument, [])
    else if ltb (size_max - ldac_rtp_overhead) encoded_size
    then (rtp_invalid_argument, [])
    else if ltb l2cap_mtu required
    then (rtp_mtu_exceeded, [])
    else if ltb out_size required
    then (rtp_no_space, [])
    else (
      rtp_ok,
      0x80
          ∷ ldac_rtp_default_payload_type
          ∷ (write_u16_be sequence_number
              ++ (write_u32_be timestamp ++ (write_u32_be ssrc ++ (frame_count ∷ encoded_frames)))),
    )
