-- ===== src/Protocol/Observer/Fits.antt =====
-- The frames that the observer of protocol/src/avrcp.c writes fit the buffer of its result.
use native_ldac_xm5_windows.Prelude.{
  length, take, ℕ, zero, suc, ◌+◌, ◌*◌, ◌≤◌, ◌≡◌, refl, ◌⊎◌, inl, inr, List, [], ◌∷◌, arith,
}
use native_ldac_xm5_windows.Protocol.Avrcp.{
  AvrcpPassThrough, parse_pass_through, AvrcpStatus, avrcp_max_control_packet,
}
use native_ldac_xm5_windows.Protocol.Avrcp.Write.{
  write_vendor_frame, write_vendor_command, write_vendor_response, answered, answer_pass_through,
  write_pass_through_response,
}

-- Frames that are written fit.
frame_fits :
    (header0 ctype pdu_id : ℕ) (parameters : List ℕ)
    → length (write_vendor_frame avrcp_max_control_packet header0 ctype pdu_id parameters) ≤ 64
unfolding write_vendor_frame
frame_fits header0 ctype pdu_id parameters = ground arith

pub command_fits :
    (label ctype pdu_id : ℕ) (parameters : List ℕ)
    → length (write_vendor_command avrcp_max_control_packet label ctype pdu_id parameters) ≤ 64
unfolding write_vendor_command
command_fits label ctype pdu_id parameters =
    ground (arith, frame_fits (label * 16) ctype pdu_id parameters)

pub response_fits :
    (label response pdu_id : ℕ) (parameters : List ℕ)
    → length (write_vendor_response avrcp_max_control_packet label response pdu_id parameters) ≤ 64
unfolding write_vendor_response
response_fits label response pdu_id parameters =
    ground (arith, frame_fits (label * 16 + 2) response pdu_id parameters)

take-fits : (n : ℕ) (bs : List ℕ) → length (take n bs) ≤ n
unfolding take
take-fits zero bs = omega arith
take-fits (suc n) [] = omega arith
take-fits (suc n) (b ∷ bs) = omega (arith, take-fits n bs)

answered_fits : (code : ℕ) (bs : List ℕ) → length (answered code bs) ≡ length bs
unfolding answered
answered_fits code [] = refl
answered_fits code (a ∷ []) = refl
answered_fits code (a ∷ b ∷ []) = refl
answered_fits code (a ∷ b ∷ c ∷ []) = refl
answered_fits code (a ∷ b ∷ c ∷ d ∷ bs) = refl

answer_fits :
    (command : List ℕ) (code : ℕ) (x : AvrcpStatus ⊎ AvrcpPassThrough)
    → length (answer_pass_through avrcp_max_control_packet command code x) ≤ 64
unfolding answer_pass_through
answer_fits command code (inl status) = omega arith
answer_fits command code (inr parsed) =
    ground (arith, answered_fits code (take 8 command), take-fits 8 command)

pub pass_through_fits :
    (command : List ℕ) (code : ℕ)
    → length (write_pass_through_response avrcp_max_control_packet command code) ≤ 64
unfolding write_pass_through_response
pass_through_fits command code =
    ground (arith, answer_fits command code (parse_pass_through command))
