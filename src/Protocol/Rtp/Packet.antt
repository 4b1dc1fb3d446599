-- ===== src/Protocol/Rtp/Packet.antt =====
-- What a receiver reads in a packet of protocol/src/rtp_ldac.c.
use native_ldac_xm5_windows.Prelude.{
  ltb, ◌==◌, if◌then◌else◌, u32_max, u8, length, ℕ, ◌+◌, ◌*◌, ◌/◌, ◌≤◌, ◌<◌, ◌≡◌, ◌&&◌, Option,
  none, some, List, [], ◌∷◌, arith,
}
use native_ldac_xm5_windows.Protocol.Rtp.{
  ldac_rtp_overhead, ldac_rtp_default_payload_type, rtp_ok, write_u16_be, write_u32_be,
  build_unfragmented,
}

-- A packet with the fixed header of RTP and the header of the payload.
pub record RtpPacket : Type 0 where
  pub payload_type : ℕ
  pub sequence_number : ℕ
  pub timestamp : ℕ
  pub ssrc : ℕ
  pub frame_count : ℕ
  pub frames : List ℕ

abbrev pub big_endian : List ℕ → ℕ → ℕ
big_endian [] n = n
big_endian (b ∷ bs) n = big_endian bs (n * 256 + b)

-- A reader of packets of version 2, without padding, extension, contributing sources and marker,
-- whose payload is not fragmented.
unfoldable pub read_packet : List ℕ → Option RtpPacket
read_packet (v ∷ m ∷ s1 ∷ s0 ∷ t3 ∷ t2 ∷ t1 ∷ t0 ∷ c3 ∷ c2 ∷ c1 ∷ c0 ∷ h ∷ frames) =
    if v == 0x80 && ltb m 0x80 && ltb h 0x20
    then some (record {
      payload_type = m;
      sequence_number = big_endian (s1 ∷ s0 ∷ []) 0;
      timestamp = big_endian (t3 ∷ t2 ∷ t1 ∷ t0 ∷ []) 0;
      ssrc = big_endian (c3 ∷ c2 ∷ c1 ∷ c0 ∷ []) 0;
      frame_count = h;
      frames = frames;
    })
    else none
read_packet _ = none

u16_lem : (n : ℕ) → n < 65536 → big_endian (u8 (n / 256) ∷ u8 n ∷ []) 0 ≡ n
u16_lem n h = omega arith

u32_lem :
    (n : ℕ)
    → n ≤ u32_max
    → big_endian (u8 (n / 16777216) ∷ u8 (n / 65536) ∷ u8 (n / 256) ∷ u8 n ∷ []) 0 ≡ n
u32_lem n h = omega arith

-- What is built with arguments of their types' widths, where the status is success, is read back as
-- the same packet, keeps to the buffer and to the MTU, and is the frames with 13 bytes before them.
pub read-build_unfragmented :
    (out_size l2cap_mtu sequence_number timestamp ssrc frame_count : ℕ) (frames : List ℕ)
    → sequence_number < 65536
    → timestamp ≤ u32_max
    → ssrc ≤ u32_max
    → (build_unfragmented out_size l2cap_mtu sequence_number timestamp ssrc frame_count frames).0
      ≡ rtp_ok
    → let packet =
        (build_unfragmented out_size l2cap_mtu sequence_number timestamp ssrc frame_count
          frames).1 in
      (read_packet packet
        ≡ some (record {
          payload_type = ldac_rtp_default_payload_type;
          sequence_number = sequence_number;
          timestamp = timestamp;
          ssrc = ssrc;
          frame_count = frame_count;
          frames = frames;
        }))
      × (length packet ≡ ldac_rtp_overhead + length frames)
      × (length packet ≤ out_size)
      × (length packet ≤ l2cap_mtu)
unfolding build_unfragmented read_packet write_u16_be write_u32_be
read-build_unfragmented out_size l2cap_mtu sequence_number timestamp ssrc frame_count frames s t c
      e =
    (
      ground (arith, u16_lem sequence_number s, u32_lem timestamp t, u32_lem ssrc c),
      ground arith,
      ground arith,
      ground arith,
    )
