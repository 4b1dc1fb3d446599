-- ===== src/Protocol/Source/Order.antt =====
-- The order of protocol/src/avdtp.c: which state answers a response in which, what a request asks,
-- and that it is the one that the source waits for.
use native_ldac_xm5_windows.Prelude.{
  ◌==◌, if◌then◌else◌, if_rule, length, ℕ, ◌+◌, ◌%◌, ◌≤◌, ◌<◌, ◌≡◌, ◌≢◌, ◌⊎◌, inl, inr, false, List,
  arith,
}
use native_ldac_xm5_windows.Protocol.Avdtp.{
  single, command, signal_discover, signal_get_capabilities, signal_set_configuration, signal_open,
  signal_start, signal_close, signal_suspend, signal_get_all_capabilities, max_signaling_packet,
  parse_header, write_single,
}
use native_ldac_xm5_windows.Protocol.Avdtp.Packet.{parse-write_single}
use native_ldac_xm5_windows.Protocol.Source.{
  fail, send_command, SourceState, source_idle, discover_sent, capabilities_sent,
  configuration_sent, open_sent, waiting_for_media_channel, source_open, start_sent,
  source_streaming, suspend_sent, close_sent, source_closed, source_failed, ActionKind,
  send_signaling, open_media_channel, stream_ready, stream_suspended, session_closed, action_error,
  AvdtpSource, SourceStep, error_bad_packet,
}

-- The answer of a source in the first state to a response, with its action and its next state.
pub data Moves : SourceState → ActionKind → SourceState → Type 0 where
  queries : Moves discover_sent send_signaling capabilities_sent
  queries_again : Moves capabilities_sent send_signaling capabilities_sent
  configures : Moves capabilities_sent send_signaling configuration_sent
  opens : Moves configuration_sent send_signaling open_sent
  waits : Moves open_sent open_media_channel waiting_for_media_channel
  streams : Moves start_sent stream_ready source_streaming
  suspends : Moves suspend_sent stream_suspended source_open
  closes : Moves close_sent session_closed source_closed
  fails : {s : SourceState} → Moves s action_error source_failed

-- The signal that a source waits for is the one of its state.
abbrev pub AlignedIn : SourceState → AvdtpSource → Type 0
AlignedIn discover_sent s = s.pending_signal_id ≡ signal_discover
AlignedIn capabilities_sent s =
    s.pending_signal_id
    ≡ (if s.used_legacy_capabilities then signal_get_capabilities else signal_get_all_capabilities)
AlignedIn configuration_sent s = s.pending_signal_id ≡ signal_set_configuration
AlignedIn open_sent s = s.pending_signal_id ≡ signal_open
AlignedIn start_sent s = s.pending_signal_id ≡ signal_start
AlignedIn suspend_sent s = s.pending_signal_id ≡ signal_suspend
AlignedIn close_sent s = s.pending_signal_id ≡ signal_close
AlignedIn source_idle s = Unit
AlignedIn waiting_for_media_channel s = Unit
AlignedIn source_open s = Unit
AlignedIn source_streaming s = Unit
AlignedIn source_closed s = Unit
AlignedIn source_failed s = Unit

-- The packet of an action is a command, with the label and the signal that the source waits for.
pub record Asks (s : AvdtpSource) (packet : List ℕ) : Type 0 where
  pub reads_back :
      parse_header packet
      ≡ inr (record {
        transaction_label = s.pending_transaction_label;
        packet_type = single;
        message_type = command;
        packet_count = 0;
        signal_id = s.pending_signal_id;
        payload_offset = 2;
      })
  pub fits : length packet ≤ max_signaling_packet

-- What holds of each step.
pub record Settled (step : SourceStep) : Type 0 where
  pub aligned : AlignedIn step.0.state step.0
  pub asks : (step.1.kind ≢ send_signaling) ⊎ Asks step.0 step.1.packet

pub record Sound (from : SourceState) (step : SourceStep) : Type 0 where
  pub moves : Moves from step.1.kind step.0.state
  pub settled : Settled step

pub fail-Settled : (s : AvdtpSource) (e : ℕ) → Settled (fail s e)
unfolding fail
fail-Settled s e = record { aligned = tt; asks = inl (ground arith) }

pub fail-Sound : (from : SourceState) (s : AvdtpSource) (e : ℕ) → Sound from (fail s e)
unfolding fail
fail-Sound from s e = record { moves = fails; settled = fail-Settled s e }

-- A packet that is not empty was written within its bounds.
written_lem :
    (out_size label signal : ℕ) (payload : List ℕ)
    → (length (write_single out_size label command signal payload) == 0) ≡ false
    → (label ≤ 15) × (0 < signal) × (signal ≤ 63) × (2 + length payload ≤ out_size)
unfolding write_single
written_lem out_size label signal payload h =
    (ground arith, ground arith, ground arith, ground arith)

-- The source behind a command.
abbrev pub pending : AvdtpSource → ℕ → AvdtpSource
pending s signal = record s {
  next_transaction_label = (s.next_transaction_label + 1) % 16;
  pending_transaction_label = s.next_transaction_label;
  pending_signal_id = signal;
}

pub send-Settled :
    (s : AvdtpSource) (signal : ℕ) (payload : List ℕ)
    → AlignedIn s.state (pending s signal)
    → Settled (send_command s signal payload)
unfolding send_command
send-Settled s signal payload a =
    let label = s.next_transaction_label in
    let packet = write_single max_signaling_packet label command signal payload in
    if_rule Settled (length packet == 0) _ _ (λ e. fail-Settled (pending s signal) error_bad_packet)
      (λ e.
        let (l, s0, s1, f) = written_lem max_signaling_packet label signal payload e in
        let (back, rest, fits) =
          parse-write_single max_signaling_packet label signal command payload l s0 s1 f in
        record { aligned = a; asks = inr (record { reads_back = back; fits = fits }) })

pub send-Sound :
    (from : SourceState) (s : AvdtpSource) (signal : ℕ) (payload : List ℕ)
    → Moves from send_signaling s.state
    → AlignedIn s.state (pending s signal)
    → Sound from (send_command s signal payload)
unfolding send_command
send-Sound from s signal payload m a =
    let label = s.next_transaction_label in
    let packet = write_single max_signaling_packet label command signal payload in
    record {
      moves =
          if_rule (λ x. Moves from x.1.kind x.0.state) (length packet == 0)
            (fail (pending s signal) error_bad_packet) _
            (λ e. (fail-Sound from (pending s signal) error_bad_packet).moves) (λ e. m);
      settled = send-Settled s signal payload a;
    }
