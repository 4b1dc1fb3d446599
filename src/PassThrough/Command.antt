-- ===== src/PassThrough/Command.antt =====
-- The keys and the parser of agent/avrcp_passthrough_state.h and its .cpp.
use native_ldac_xm5_windows.Prelude.{
  ◌==◌, if◌then◌else◌, Enum, length, ℕ, ◌+◌, ◌/◌, ◌%◌, Bool, not, ◌||◌, Option, none, some, List,
  ◌∷◌,
}

pub data Operation : Type 0 where
  unknown volume_up volume_down mute play stop pause forward backward : Operation

pub data KeyState : Type 0 where
  pressed released : KeyState

instance abbrev pub operation_enum : Enum Operation
operation_enum = record {
  value = elim [
    | unknown ↦ 0
    | volume_up ↦ 1
    | volume_down ↦ 2
    | mute ↦ 3
    | play ↦ 4
    | stop ↦ 5
    | pause ↦ 6
    | forward ↦ 7
    | backward ↦ 8
  ];
}

instance abbrev pub key_state_enum : Enum KeyState
key_state_enum = record { value = elim [ pressed ↦ 0 | released ↦ 1 ] }

pub record PassThroughEvent : Type 0 where
  pub operation : Operation
  pub key_state : KeyState
  pub operation_id : ℕ
  pub operation_data_length : ℕ

unfoldable pub decode_operation : ℕ → Operation
decode_operation operation_id =
    if operation_id == 0x41
    then volume_up
    else if operation_id == 0x42
    then volume_down
    else if operation_id == 0x43
    then mute
    else if operation_id == 0x44
    then play
    else if operation_id == 0x45
    then stop
    else if operation_id == 0x46
    then pause
    else if operation_id == 0x4b
    then forward
    else if operation_id == 0x4c
    then backward
    else unknown

-- The five bytes that every frame begins with, and the number of bytes behind them.
unfoldable pub parse_header : ℕ → ℕ → ℕ → ℕ → ℕ → ℕ → Option PassThroughEvent
unfolding decode_operation
parse_header control subunit opcode state_and_operation data_length rest =
    if not (control == 0)
      || not (subunit == 0x48)
      || not (opcode == 0x7c)
      || not (5 + rest == 5 + data_length)
    then none
    else some (record {
      operation_id = state_and_operation % 128;
      operation = decode_operation (state_and_operation % 128);
      key_state = if state_and_operation / 128 % 2 == 0 then pressed else released;
      operation_data_length = data_length;
    })

-- `& 0x7f` and `& 0x80` on a byte are the remainder and the top bit; `none` is `return false`.
unfoldable pub parse_pass_through_command : List ℕ → Option PassThroughEvent
unfolding parse_header
parse_pass_through_command (a ∷ b ∷ c ∷ d ∷ e ∷ rest) = parse_header a b c d e (length rest)
parse_pass_through_command _ = none

unfoldable pub make_pass_through_event : ℕ → Bool → PassThroughEvent
unfolding decode_operation
make_pass_through_event operation_id is_released = record {
  operation = decode_operation operation_id;
  key_state = if is_released then released else pressed;
  operation_id = operation_id;
  operation_data_length = 0;
}
