-- ===== src/Protocol/Avrcp/Frames.antt =====
-- The frames of protocol/src/avrcp.c, written and read back.
use native_ldac_xm5_windows.Prelude.{
  ◌==◌, if◌then◌else◌, u8, length, drop, take, ℕ, ◌+◌, ◌*◌, ◌/◌, ◌≤◌, ◌≡◌, refl, inl, inr, List, [],
  ◌∷◌, arith,
}
use native_ldac_xm5_windows.Protocol.Avrcp.{
  AvrcpPassThrough, parse_frame, all_zero, parameters_status, vendor_operands, parse_vendor_frame,
  pass_through_operands, parse_pass_through, avrcp_ok, avrcp_truncated, avrcp_profile_id,
  avrcp_company_id_bluetooth_sig, avrcp_opcode_vendor_dependent, avctp_packet_single,
  panel_subunit_type, panel_subunit_id,
}
use native_ldac_xm5_windows.Protocol.Avrcp.Write.{
  write_vendor_frame, answered, answer_pass_through, write_pass_through_response,
}

drop-all : (bs : List ℕ) → drop (length bs) bs ≡ []
unfolding drop
drop-all [] = refl
drop-all (b ∷ bs) = drop-all bs

-- Parameters that fill the packet have no bytes behind them.
parameters_lem : (size : ℕ) (bs : List ℕ) → size ≡ length bs → parameters_status size bs ≡ avrcp_ok
unfolding parameters_status all_zero
parameters_lem size bs e = rw (e, drop-all bs) (ground arith)

pub parse-write_vendor_frame :
    (out_size label response ctype pdu_id : ℕ) (parameters : List ℕ)
    → label ≤ 15
    → response ≤ 1
    → ctype ≤ 15
    → length parameters ≤ 0xFFFF
    → 13 + length parameters ≤ out_size
    → let packet =
        write_vendor_frame out_size (label * 16 + response * 2) ctype pdu_id parameters in
      (parse_vendor_frame packet
        ≡ inr (record {
          frame = record {
            transaction_label = label;
            packet_type = avctp_packet_single;
            command_response = response;
            invalid_profile_id = 0;
            profile_id = avrcp_profile_id;
            ctype_or_response = ctype;
            subunit_type = panel_subunit_type;
            subunit_id = panel_subunit_id;
            opcode = avrcp_opcode_vendor_dependent;
            operands_offset = 6;
            operands_size = 7 + length parameters;
          };
          company_id = avrcp_company_id_bluetooth_sig;
          pdu_id = pdu_id;
          pdu_packet_type = 0;
          parameters_offset = 13;
          parameters_size = length parameters;
        }))
      × (drop 13 packet ≡ parameters)
      × (length packet ≤ out_size)
unfolding write_vendor_frame parse_vendor_frame parse_frame vendor_operands drop
parse-write_vendor_frame out_size label response ctype pdu_id parameters l r c n f = (
  ground (
    arith,
    parameters_lem (u8 (length parameters / 256) * 256 + u8 (length parameters)) parameters
        (omega arith),
  ),
  ground arith,
  ground arith,
)

-- The response to a pass-through command.
abbrev pub response_to : AvrcpPassThrough → ℕ → AvrcpPassThrough
response_to p response_code = record p {
  frame = record p.frame {
    command_response = 1;
    ctype_or_response = response_code;
    operands_size = 2;
  };
}

-- The eight bytes that are answered.
eight_lem :
    (b0 b1 b2 b3 b4 b5 b6 b7 : ℕ) (rest : List ℕ) (out_size response_code : ℕ)
    (p : AvrcpPassThrough)
    → parse_pass_through (b0 ∷ b1 ∷ b2 ∷ b3 ∷ b4 ∷ b5 ∷ b6 ∷ b7 ∷ rest) ≡ inr p
    → p.frame.command_response ≡ 0
    → 8 ≤ out_size
    → (8 ≤ response_code) × (response_code ≤ 10)
    → parse_pass_through (
        write_pass_through_response out_size
          (b0 ∷ b1 ∷ b2 ∷ b3 ∷ b4 ∷ b5 ∷ b6 ∷ b7 ∷ rest)
          response_code)
      ≡ (if p.operation_data_size == 0
          then inr (response_to p response_code)
          else inl avrcp_truncated)
unfolding write_pass_through_response parse_pass_through parse_frame pass_through_operands
    answer_pass_through answered drop take parameters_status all_zero
eight_lem b0 b1 b2 b3 b4 b5 b6 b7 rest out_size response_code p e c o (r0, r1) = ground arith

-- The response that is written to a well-formed pass-through command reads back as a response to
-- the same operation with the given code, where the command carries no operation data; where it
-- carries some, the response announces data that it does not hold, and is refused as truncated.
pub parse-write_pass_through_response :
    (out_size response_code : ℕ) (command : List ℕ) (p : AvrcpPassThrough)
    → parse_pass_through command ≡ inr p
    → p.frame.command_response ≡ 0
    → 8 ≤ out_size
    → (8 ≤ response_code) × (response_code ≤ 10)
    → parse_pass_through (write_pass_through_response out_size command response_code) ≡ (
        if p.operation_data_size == 0
        then inr (response_to p response_code)
        else inl avrcp_truncated)
unfolding parse_pass_through parse_frame pass_through_operands drop
parse-write_pass_through_response out_size response_code [] p e c o r = ground arith
parse-write_pass_through_response out_size response_code (b0 ∷ []) p e c o r = ground arith
parse-write_pass_through_response out_size response_code (b0 ∷ b1 ∷ []) p e c o r = ground arith
parse-write_pass_through_response out_size response_code (b0 ∷ b1 ∷ b2 ∷ []) p e c o r =
    ground arith
parse-write_pass_through_response out_size response_code (b0 ∷ b1 ∷ b2 ∷ b3 ∷ []) p e c o r =
    ground arith
parse-write_pass_through_response out_size response_code (b0 ∷ b1 ∷ b2 ∷ b3 ∷ b4 ∷ []) p e c o r =
    ground arith
parse-write_pass_through_response out_size response_code (b0 ∷ b1 ∷ b2 ∷ b3 ∷ b4 ∷ b5 ∷ []) p e c o
      r =
    ground arith
parse-write_pass_through_response out_size response_code (b0 ∷ b1 ∷ b2 ∷ b3 ∷ b4 ∷ b5 ∷ b6 ∷ []) p e
      c o r =
    ground arith
parse-write_pass_through_response out_size response_code
      (b0 ∷ b1 ∷ b2 ∷ b3 ∷ b4 ∷ b5 ∷ b6 ∷ b7 ∷ rest) p e c o r =
    eight_lem b0 b1 b2 b3 b4 b5 b6 b7 rest out_size response_code p e c o r
