-- ===== src/Protocol/Avdtp/Packet.antt =====
-- Signalling packets of protocol/src/avdtp.c, written and read back.
use native_ldac_xm5_windows.Prelude.{
  length, drop, ℕ, ◌+◌, ◌-◌, ◌≤◌, ◌<◌, ◌≡◌, inr, List, [], ◌∷◌, arith,
}
use native_ldac_xm5_windows.Protocol.Avdtp.{
  single, MessageType, command, general_reject, accept, reject, header_in, parse_header,
  write_single, collect_from, collect_audio_sinks,
}

-- A packet that is written is read back as a single packet of the same label, kind and signal,
-- with the payload behind its two bytes; it fits its buffer.
pub parse-write_single :
    (out_size label signal : ℕ) (kind : MessageType) (payload : List ℕ)
    → label ≤ 15
    → 0 < signal
    → signal ≤ 63
    → 2 + length payload ≤ out_size
    → let packet = write_single out_size label kind signal payload in
      (parse_header packet
        ≡ inr (record {
          transaction_label = label;
          packet_type = single;
          message_type = kind;
          packet_count = 0;
          signal_id = signal;
          payload_offset = 2;
        }))
      × (drop 2 packet ≡ payload)
      × (length packet ≤ out_size)
unfolding parse_header write_single drop header_in
parse-write_single out_size label signal command payload l s0 s1 f = ground arith
parse-write_single out_size label signal general_reject payload l s0 s1 f = ground arith
parse-write_single out_size label signal accept payload l s0 s1 f = ground arith
parse-write_single out_size label signal reject payload l s0 s1 f = ground arith

-- At most as many sinks are collected as the array has room for.
length-collect_from : (room : ℕ) (bs : List ℕ) → length (collect_from room bs) ≤ room
unfolding collect_from
length-collect_from room [] = omega arith
length-collect_from room (b0 ∷ []) = omega arith
length-collect_from room (b0 ∷ b1 ∷ rest) =
    ground (arith, length-collect_from (room - 1) rest, length-collect_from room rest)

pub length-collect_audio_sinks :
    (capacity : ℕ) (bs : List ℕ) → length (collect_audio_sinks capacity bs) ≤ capacity
unfolding collect_audio_sinks
length-collect_audio_sinks capacity bs = ground (arith, length-collect_from capacity bs)
