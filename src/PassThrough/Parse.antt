-- ===== src/PassThrough/Parse.antt =====
-- The frames that the parser of agent/avrcp_passthrough_state.cpp takes, and what it reads in them.
use native_ldac_xm5_windows.Prelude.{
  ◌==◌, if◌then◌else◌, Bool-cases, ◌is◌, length, get_elem?, Bytes, ℕ, ◌+◌, ◌/◌, ◌%◌, ◌<◌, ◌≡◌, refl,
  ◌≢◌, ◌⊎◌, inl, inr, Bool, true, false, ◌&&◌, Option, none, some, List, [], ◌∷◌, arith,
}
use native_ldac_xm5_windows.PassThrough.{
  route_mode_enum, Operation, unknown, volume_up, volume_down, mute, play, stop, pause, forward,
  backward, KeyState, pressed, released, operation_enum, key_state_enum, PassThroughEvent,
  decode_operation, parse_header, parse_pass_through_command, make_pass_through_event,
}

-- A PASS THROUGH command as AV/C lays it out, which the parser's comment describes: the header, the
-- key with its release flag, the number of data bytes, and the data.
write_command : ℕ → Bool → List ℕ → List ℕ
write_command operation_id is_released bytes =
    0x00 ∷ 0x48 ∷ 0x7c ∷ ((if is_released then 128 else 0) + operation_id) ∷ length bytes ∷ bytes

-- A command for a 7-bit operation, with any data, is read back as the event that the observer makes
-- of the same fields, with the length of the data.
parse-write_command :
    (operation_id : ℕ) (is_released : Bool) (bytes : List ℕ)
    → operation_id < 128
    → parse_pass_through_command (write_command operation_id is_released bytes)
      ≡ some (record (make_pass_through_event operation_id is_released) {
        operation_data_length = length bytes;
      })
unfolding parse_pass_through_command write_command make_pass_through_event
parse-write_command operation_id is_released bytes h =
    ground (arith, low operation_id is_released h, high operation_id is_released h)
  where
    low : (i : ℕ) (r : Bool) → i < 128 → ((if r then 128 else 0) + i) % 128 ≡ i
    low i true h = omega arith
    low i false h = omega arith

    high :
        (i : ℕ) (r : Bool) → i < 128 → ((if r then 128 else 0) + i) / 128 % 2 ≡ (if r then 1 else 0)
    high i true h = omega arith
    high i false h = omega arith

-- The 7-bit code of each key, as the table of the AV/C panel has it; a key that is none of them is
-- unknown.
abbrev pub HasCode : Operation → ℕ → Type 0
HasCode volume_up n = n ≡ 0x41
HasCode volume_down n = n ≡ 0x42
HasCode mute n = n ≡ 0x43
HasCode play n = n ≡ 0x44
HasCode stop n = n ≡ 0x45
HasCode pause n = n ≡ 0x46
HasCode forward n = n ≡ 0x4b
HasCode backward n = n ≡ 0x4c
HasCode unknown n =
    (n ≢ 0x41)
    × (n ≢ 0x42)
    × (n ≢ 0x43)
    × (n ≢ 0x44)
    × (n ≢ 0x45)
    × (n ≢ 0x46)
    × (n ≢ 0x4b)
    × (n ≢ 0x4c)

abbrev pub release_bit : KeyState → ℕ
release_bit pressed = 0
release_bit released = 128

-- A frame writes an event: the command header for the panel, the key with its release flag, the
-- number of data bytes, and exactly that many of them.
pub record Writes (frame : List ℕ) (e : PassThroughEvent) : Type 0 where
  pub control : get_elem? frame 0 ≡ some 0x00
  pub panel : get_elem? frame 1 ≡ some 0x48
  pub opcode : get_elem? frame 2 ≡ some 0x7c
  pub key : get_elem? frame 3 ≡ some (release_bit e.key_state + e.operation_id)
  pub size : get_elem? frame 4 ≡ some e.operation_data_length
  pub whole : length frame ≡ 5 + e.operation_data_length
  pub id_in : e.operation_id < 128
  pub code : HasCode e.operation e.operation_id

operation_of : (n : ℕ) → HasCode (decode_operation n) n
unfolding decode_operation
operation_of n = ground arith

taken-Writes :
    (frame : List ℕ) (e : PassThroughEvent) (b : ℕ)
    → get_elem? frame 3 ≡ some b
    → b < 256
    → parse_pass_through_command frame ≡ some e
    → Writes frame e
unfolding parse_pass_through_command parse_header
taken-Writes [] e x k l h = cc
taken-Writes (a ∷ []) e x k l h = cc
taken-Writes (a ∷ b ∷ []) e x k l h = cc
taken-Writes (a ∷ b ∷ c ∷ []) e x k l h = cc
taken-Writes (a ∷ b ∷ c ∷ d ∷ []) e x k l h = cc
taken-Writes (a ∷ b ∷ c ∷ d ∷ n ∷ rest) e x k l h = record {
  control = ground (arith, h, k);
  panel = ground (arith, h, k);
  opcode = ground (arith, h, k);
  key = ground (arith, h, k);
  size = ground (arith, h, k);
  whole = ground (arith, h, k);
  id_in = ground (arith, h, k);
  code = ground (arith, h, operation_of (d % 128));
}

Writes-taken :
    (frame : List ℕ) (e : PassThroughEvent)
    → Writes frame e
    → parse_pass_through_command frame ≡ some e
unfolding parse_pass_through_command parse_header decode_operation
Writes-taken [] e h = cc
Writes-taken (a ∷ []) e h = cc
Writes-taken (a ∷ b ∷ []) e h = cc
Writes-taken (a ∷ b ∷ c ∷ []) e h = cc
Writes-taken (a ∷ b ∷ c ∷ d ∷ []) e h = cc
Writes-taken (a ∷ b ∷ c ∷ d ∷ n ∷ rest) e h =
    ground (arith, h.control, h.panel, h.opcode, h.key, h.size, h.whole, h.id_in, h.code)

-- Whether an event is the one that was read.
same_event : PassThroughEvent → PassThroughEvent → Bool
same_event d e =
    d.operation is e.operation
    && d.key_state is e.key_state
    && d.operation_id == e.operation_id
    && d.operation_data_length == e.operation_data_length

event_cases : (x : Option PassThroughEvent) (e : PassThroughEvent) → (x ≡ some e) ⊎ (x ≢ some e)
unfolding same_event
event_cases none e = inr (λ h. cc)
event_cases (some d) e = elim (Bool-cases (same_event d e)) [
  | inl y ↦ inl (ground (arith, y))
  | inr n ↦ inr (ground (arith, n))
]

key_byte :
    (frame : List ℕ)
    → Bytes frame
    → (get_elem? frame 3 ≡ none) ⊎ ((b : ℕ) × (get_elem? frame 3 ≡ some b) × (b < 256))
key_byte [] h = inl refl
key_byte (a ∷ []) h = inl refl
key_byte (a ∷ b ∷ []) h = inl refl
key_byte (a ∷ b ∷ c ∷ []) h = inl refl
key_byte (a ∷ b ∷ c ∷ d ∷ rest) (k, (l, (m, (n, o)))) = inr (d, refl, n)

-- A frame that has no key byte is not read.
unread :
    (frame : List ℕ) (e : PassThroughEvent)
    → get_elem? frame 3 ≡ none
    → parse_pass_through_command frame ≡ some e
    → Writes frame e
unfolding parse_pass_through_command
unread [] e n h = cc
unread (a ∷ []) e n h = cc
unread (a ∷ b ∷ []) e n h = cc
unread (a ∷ b ∷ c ∷ []) e n h = cc
unread (a ∷ b ∷ c ∷ d ∷ rest) e n h = cc

-- The parser reads an event in a list of bytes exactly if the bytes write that event: the header of
-- a command for the panel, the key with its code and its release flag, and a length byte that
-- announces exactly the bytes that follow, none of which is missing and behind which none trails.
pub parse_exact :
    (frame : List ℕ) (e : PassThroughEvent)
    → Bytes frame
    → ((parse_pass_through_command frame ≡ some e) × Writes frame e)
      ⊎ ((parse_pass_through_command frame ≢ some e) × ¬ Writes frame e)
parse_exact frame e h = elim (event_cases (parse_pass_through_command frame) e) [
  | inl y ↦ inl (
    y,
    elim (key_byte frame h) [
      | inl n ↦ unread frame e n y
      | inr (b, k, l) ↦ taken-Writes frame e b k l y
    ],
  )
  | inr n ↦ inr (n, λ w. n (Writes-taken frame e w))
]
