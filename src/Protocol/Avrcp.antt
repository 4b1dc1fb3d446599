-- ===== src/Protocol/Avrcp.antt =====
-- protocol/include/ldac_native/avrcp.h and protocol/src/avrcp.c: the frames of AVRCP, as they are
-- read. A function that fills a structure returns it, or the status of the failure: no caller
-- reads the structure then.
mod Constants
pub use Constants.*
pub mod Write
pub mod Frames
use native_ldac_xm5_windows.Prelude.{
  ltb, ◌==◌, if◌then◌else◌, ◌is◌, length, drop, ℕ, ◌+◌, ◌*◌, ◌/◌, ◌%◌, ◌⊎◌, inl, inr, Bool, true,
  not, ◌&&◌, ◌||◌, List, [], ◌∷◌,
}

pub record AvrcpFrame : Type 0 where
  pub transaction_label : ℕ
  pub packet_type : ℕ
  pub command_response : ℕ
  pub invalid_profile_id : ℕ
  pub profile_id : ℕ
  pub ctype_or_response : ℕ
  pub subunit_type : ℕ
  pub subunit_id : ℕ
  pub opcode : ℕ
  pub operands_offset : ℕ
  pub operands_size : ℕ

pub record AvrcpVendorFrame : Type 0 where
  pub frame : AvrcpFrame
  pub company_id : ℕ
  pub pdu_id : ℕ
  pub pdu_packet_type : ℕ
  pub parameters_offset : ℕ
  pub parameters_size : ℕ

pub record AvrcpPassThrough : Type 0 where
  pub frame : AvrcpFrame
  pub operation_id : ℕ
  pub released : Bool
  pub operation_data_offset : ℕ
  pub operation_data_size : ℕ

-- The frame of six bytes and so many operands.
abbrev pub frame_of : ℕ → ℕ → ℕ → ℕ → ℕ → ℕ → ℕ → AvrcpFrame
frame_of first profile1 profile0 ctype subunit opcode operands_size = record {
  transaction_label = first / 16;
  packet_type = first / 4 % 4;
  command_response = first / 2 % 2;
  invalid_profile_id = first % 2;
  profile_id = profile1 * 256 + profile0;
  ctype_or_response = ctype % 16;
  subunit_type = subunit / 8;
  subunit_id = subunit % 8;
  opcode = opcode;
  operands_offset = 6;
  operands_size = operands_size;
}

unfoldable pub parse_frame : List ℕ → AvrcpStatus ⊎ AvrcpFrame
parse_frame (first ∷ profile1 ∷ profile0 ∷ ctype ∷ subunit ∷ opcode ∷ operands) =
    let frame = frame_of first profile1 profile0 ctype subunit opcode (length operands) in
    if not (frame.packet_type == avctp_packet_single)
    then inl avrcp_unsupported_fragment
    else if not (frame.invalid_profile_id == 0)
        || not (frame.profile_id == avrcp_profile_id)
        || not (ctype / 16 % 16 == 0)
    then inl avrcp_protocol_error
    else if not (frame.subunit_type == panel_subunit_type)
        || not (frame.subunit_id == panel_subunit_id)
    then inl avrcp_protocol_error
    else inr frame
parse_frame _ = inl avrcp_truncated

-- The check of the bytes that stand behind the parameters.
unfoldable pub all_zero : List ℕ → Bool
all_zero [] = true
all_zero (b ∷ bs) = b == 0 && all_zero bs

-- The status for parameters of a size at the end of a packet.
unfoldable pub parameters_status : ℕ → List ℕ → AvrcpStatus
parameters_status size rest =
    if ltb (length rest) size
    then avrcp_truncated
    else if all_zero (drop size rest)
    then avrcp_ok
    else avrcp_protocol_error

abbrev pub with_status : {A : Type 0} → AvrcpStatus → A → AvrcpStatus ⊎ A
with_status status x = if status is avrcp_ok then inr x else inl status

-- The bytes behind the six of the frame.
unfoldable pub vendor_operands : AvrcpFrame → List ℕ → AvrcpStatus ⊎ AvrcpVendorFrame
vendor_operands frame (c2 ∷ c1 ∷ c0 ∷ pdu_id ∷ kind ∷ s1 ∷ s0 ∷ rest) =
    let vendor : AvrcpVendorFrame = record {
      frame = frame;
      company_id = c2 * 65536 + c1 * 256 + c0;
      pdu_id = pdu_id;
      pdu_packet_type = kind % 4;
      parameters_offset = 13;
      parameters_size = s1 * 256 + s0;
    } in
    if not (vendor.company_id == avrcp_company_id_bluetooth_sig)
      || not (kind / 4 == 0)
      || not (vendor.pdu_packet_type == 0)
    then inl avrcp_protocol_error
    else with_status (parameters_status vendor.parameters_size rest) vendor
vendor_operands frame _ = inl avrcp_truncated

abbrev pub vendor_of : List ℕ → AvrcpStatus ⊎ AvrcpFrame → AvrcpStatus ⊎ AvrcpVendorFrame
vendor_of packet (inl status) = inl status
vendor_of packet (inr frame) =
    if not (frame.opcode == avrcp_opcode_vendor_dependent)
    then inl avrcp_protocol_error
    else vendor_operands frame (drop 6 packet)

unfoldable pub parse_vendor_frame : List ℕ → AvrcpStatus ⊎ AvrcpVendorFrame
parse_vendor_frame packet = vendor_of packet (parse_frame packet)

unfoldable pub pass_through_operands : AvrcpFrame → List ℕ → AvrcpStatus ⊎ AvrcpPassThrough
pass_through_operands frame (operation ∷ size ∷ rest) =
    let pass_through : AvrcpPassThrough = record {
      frame = frame;
      operation_id = operation % 128;
      released = not (operation / 128 % 2 == 0);
      operation_data_offset = 8;
      operation_data_size = size;
    } in
    if not (frame.opcode == avrcp_opcode_pass_through)
    then inl avrcp_protocol_error
    else with_status (parameters_status size rest) pass_through
pass_through_operands frame _ = inl avrcp_truncated

abbrev pub pass_through_of : List ℕ → AvrcpStatus ⊎ AvrcpFrame → AvrcpStatus ⊎ AvrcpPassThrough
pass_through_of packet (inl status) = inl status
pass_through_of packet (inr frame) = pass_through_operands frame (drop 6 packet)

unfoldable pub parse_pass_through : List ℕ → AvrcpStatus ⊎ AvrcpPassThrough
parse_pass_through packet = pass_through_of packet (parse_frame packet)
