-- ===== src/Protocol/Avrcp/Write.antt =====
-- The frames that protocol/src/avrcp.c writes. A function that fails writes nothing, which is the
-- empty list: no frame is empty.
use native_ldac_xm5_windows.Prelude.{
  ltb, ◌==◌, if◌then◌else◌, u8, length, take, ℕ, ◌+◌, ◌*◌, ◌/◌, ◌%◌, ◌⊎◌, inl, inr, not, ◌&&◌, ◌||◌,
  List, [], ◌∷◌,
}
use native_ldac_xm5_windows.Protocol.Avrcp.{
  AvrcpPassThrough, parse_pass_through, AvrcpStatus, avrcp_profile_id,
  avrcp_company_id_bluetooth_sig, avrcp_opcode_vendor_dependent, ctype_control, ctype_status,
  ctype_notify, response_not_implemented, response_accepted, response_rejected, response_changed,
  pdu_get_capabilities, pdu_register_notification, pdu_set_absolute_volume,
  capability_events_supported, panel_subunit_type, panel_subunit_id,
}

-- `(header0 & 0x0D) != 0` tests the bits 0, 2 and 3.
unfoldable pub write_vendor_frame : ℕ → ℕ → ℕ → ℕ → List ℕ → List ℕ
write_vendor_frame out_size header0 ctype pdu_id parameters =
    if not (header0 % 2 == 0)
      || not (header0 / 4 % 4 == 0)
      || ltb 0xFFFF (length parameters)
      || ltb out_size (13 + length parameters)
    then []
    else header0
      ∷ (avrcp_profile_id / 256)
      ∷ (avrcp_profile_id % 256)
      ∷ ctype
      ∷ (panel_subunit_type * 8 + panel_subunit_id)
      ∷ avrcp_opcode_vendor_dependent
      ∷ u8 (avrcp_company_id_bluetooth_sig / 65536)
      ∷ u8 (avrcp_company_id_bluetooth_sig / 256)
      ∷ (avrcp_company_id_bluetooth_sig % 256)
      ∷ pdu_id
      ∷ 0
      ∷ u8 (length parameters / 256)
      ∷ u8 (length parameters)
      ∷ parameters

unfoldable pub write_vendor_command : ℕ → ℕ → ℕ → ℕ → List ℕ → List ℕ
write_vendor_command out_size transaction_label ctype pdu_id parameters =
    if ltb 0x0F transaction_label
    then []
    else write_vendor_frame out_size (transaction_label * 16) ctype pdu_id parameters

unfoldable pub write_vendor_response : ℕ → ℕ → ℕ → ℕ → List ℕ → List ℕ
write_vendor_response out_size transaction_label response pdu_id parameters =
    if ltb 0x0F transaction_label
    then []
    else write_vendor_frame out_size (transaction_label * 16 + 2) response pdu_id parameters

unfoldable pub write_get_capabilities_events : ℕ → ℕ → List ℕ
write_get_capabilities_events out_size transaction_label =
    write_vendor_command out_size transaction_label ctype_status pdu_get_capabilities
      (capability_events_supported ∷ [])

unfoldable pub write_set_absolute_volume : ℕ → ℕ → ℕ → List ℕ
write_set_absolute_volume out_size transaction_label volume =
    if ltb 0x7F volume
    then []
    else write_vendor_command out_size transaction_label ctype_control pdu_set_absolute_volume
        (volume ∷ [])

unfoldable pub write_notification_changed : ℕ → ℕ → ℕ → List ℕ → List ℕ
write_notification_changed out_size transaction_label event_id payload =
    if ltb 8 (length payload)
    then []
    else write_vendor_response out_size transaction_label response_changed pdu_register_notification
        (event_id ∷ payload)

unfoldable pub write_register_notification : ℕ → ℕ → ℕ → ℕ → List ℕ
write_register_notification out_size transaction_label event_id playback_interval_seconds =
    write_vendor_command out_size transaction_label ctype_notify pdu_register_notification (
      event_id
      ∷ u8 (playback_interval_seconds / 16777216)
      ∷ u8 (playback_interval_seconds / 65536)
      ∷ u8 (playback_interval_seconds / 256)
      ∷ u8 playback_interval_seconds
      ∷ [])

-- The first eight bytes of a command, with the response bit and the response in them.
unfoldable pub answered : ℕ → List ℕ → List ℕ
answered response_code (b0 ∷ b1 ∷ b2 ∷ b3 ∷ bs) =
    (if b0 / 2 % 2 == 0 then b0 + 2 else b0) ∷ b1 ∷ b2 ∷ response_code ∷ bs
answered response_code bs = bs

unfoldable pub answer_pass_through : ℕ → List ℕ → ℕ → AvrcpStatus ⊎ AvrcpPassThrough → List ℕ
answer_pass_through out_size command response_code (inl status) = []
answer_pass_through out_size command response_code (inr parsed) =
    let frame = take 8 command in
    if not (parsed.frame.command_response == 0) || ltb out_size (length frame)
    then []
    else answered response_code frame

unfoldable pub write_pass_through_response : ℕ → List ℕ → ℕ → List ℕ
write_pass_through_response out_size command response_code =
    if not (response_code == response_accepted)
      && not (response_code == response_rejected)
      && not (response_code == response_not_implemented)
    then []
    else answer_pass_through out_size command response_code (parse_pass_through command)
