-- ===== src/Protocol/Avdtp.antt =====
-- The signalling packets of protocol/include/ldac_native/avdtp.h and protocol/src/avdtp.c. A status
-- other than AVDTP_OK is an `inl`, and what the parser writes through `out` an `inr`.
pub mod Packet
use native_ldac_xm5_windows.Prelude.{
  ltb, ◌==◌, if◌then◌else◌, Enum, length, ℕ, ◌+◌, ◌-◌, ◌*◌, ◌/◌, ◌%◌, ◌⊎◌, inl, inr, Bool, not,
  ◌&&◌, ◌||◌, List, [], ◌∷◌,
}

pub data AvdtpError : Type 0 where
  truncated : AvdtpError

pub data PacketType : Type 0 where
  single start continue end : PacketType

pub data MessageType : Type 0 where
  command general_reject accept reject : MessageType

instance abbrev pub packet_type_enum : Enum PacketType
packet_type_enum = record { value = elim [ single ↦ 0 | start ↦ 1 | continue ↦ 2 | end ↦ 3 ] }

instance abbrev pub message_type_enum : Enum MessageType
message_type_enum = record {
  value = elim [ command ↦ 0 | general_reject ↦ 1 | accept ↦ 2 | reject ↦ 3 ];
}

-- The casts of two bits to the enumerations.
abbrev pub packet_type_of : ℕ → PacketType
packet_type_of n =
    if n == 0 then single else if n == 1 then start else if n == 2 then continue else end

abbrev pub message_type_of : ℕ → MessageType
message_type_of n =
    if n == 0 then command else if n == 1 then general_reject else if n == 2 then accept else reject

pub record AvdtpHeader : Type 0 where
  pub transaction_label : ℕ
  pub packet_type : PacketType
  pub message_type : MessageType
  pub packet_count : ℕ
  pub signal_id : ℕ
  pub payload_offset : ℕ

-- The signals.
abbrev pub signal_discover : ℕ
signal_discover = 0x01

abbrev pub signal_get_capabilities : ℕ
signal_get_capabilities = 0x02

abbrev pub signal_set_configuration : ℕ
signal_set_configuration = 0x03

abbrev pub signal_open : ℕ
signal_open = 0x06

abbrev pub signal_start : ℕ
signal_start = 0x07

abbrev pub signal_close : ℕ
signal_close = 0x08

abbrev pub signal_suspend : ℕ
signal_suspend = 0x09

abbrev pub signal_get_all_capabilities : ℕ
signal_get_all_capabilities = 0x0C

abbrev pub max_signaling_packet : ℕ
max_signaling_packet = 64

abbrev pub max_remote_seids : ℕ
max_remote_seids = 63

-- What the first byte says.
abbrev first_byte : ℕ → AvdtpHeader
first_byte first = record {
  transaction_label = first / 16;
  packet_type = packet_type_of (first / 4 % 4);
  message_type = message_type_of (first % 4);
  packet_count = 0;
  signal_id = 0;
  payload_offset = 0;
}

-- The cases of the `switch` on the packet type, with the bytes behind the first one.
unfoldable pub header_in : PacketType → AvdtpHeader → List ℕ → AvdtpError ⊎ AvdtpHeader
header_in single h (signal ∷ rest) = inr (record h { signal_id = signal % 64; payload_offset = 2 })
header_in single h [] = inl truncated
header_in start h (count ∷ signal ∷ rest) =
    inr (record h { packet_count = count; signal_id = signal % 64; payload_offset = 3 })
header_in start h (count ∷ []) = inl truncated
header_in start h [] = inl truncated
header_in continue h rest = inr (record h { payload_offset = 1 })
header_in end h rest = inr (record h { payload_offset = 1 })

unfoldable pub parse_header : List ℕ → AvdtpError ⊎ AvdtpHeader
unfolding header_in
parse_header [] = inl truncated
parse_header (first ∷ rest) = header_in (packet_type_of (first / 4 % 4)) (first_byte first) rest

-- The empty list stands for the size 0 of a refusal. The shift of a label of four bits stays in
-- its byte, and `|` joins different bits.
unfoldable pub write_single : ℕ → ℕ → MessageType → ℕ → List ℕ → List ℕ
write_single out_size transaction_label message_type signal_id payload =
    if ltb 0x0F transaction_label
      || signal_id == 0
      || ltb 0x3F signal_id
      || ltb out_size (2 + length payload)
    then []
    else (transaction_label * 16 + message_type_enum.value message_type) ∷ signal_id ∷ payload

-- The endpoint that two bytes of a DISCOVER response describe is an audio sink that is free.
abbrev pub is_free_sink : ℕ → ℕ → Bool
is_free_sink b0 b1 = not (b0 / 4 == 0) && b0 / 2 % 2 == 0 && b1 / 16 == 0 && b1 / 8 % 2 == 1

-- The loop over the pairs; `room` is how many more the array takes.
unfoldable pub collect_from : ℕ → List ℕ → List ℕ
collect_from room [] = []
collect_from room (b0 ∷ []) = []
collect_from room (b0 ∷ b1 ∷ rest) =
    let taken = (b0 / 4) ∷ collect_from (room - 1) rest in
    let skipped = collect_from room rest in
    if is_free_sink b0 b1 && ltb 0 room then taken else skipped

-- The seids that are collected; a payload of odd size gives none.
unfoldable pub collect_audio_sinks : ℕ → List ℕ → List ℕ
unfolding collect_from
collect_audio_sinks capacity payload =
    if length payload % 2 == 0 then collect_from capacity payload else []
