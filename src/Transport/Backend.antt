-- ===== src/Transport/Backend.antt =====
-- The backend interfaces of agent/v1_transport_session.h and agent/v1_transport_configuration_session.h,
-- and the cancel probe. They are the outside world of a session, so they are a parameter: each call
-- takes the state of the world and returns it with its answer. `true` is success, and a number
-- beside it is what the call leaves in `*error`.
use native_ldac_xm5_windows.Prelude.{
  leb, ◌==◌, if◌then◌else◌, bit, ℕ, ◌+◌, Bool, true, false, not, ◌&&◌, List, [], ◌∷◌,
}

pub record ExchangeReply : Type 0 where
  pub succeeded : Bool
  pub response : List ℕ
  pub error : ℕ

pub record MediaReply : Type 0 where
  pub succeeded : Bool
  pub incoming_mtu : ℕ
  pub outgoing_mtu : ℕ
  pub error : ℕ

pub record Backend (W : Type 0) : Type 0 where
  pub open_signaling : ℕ → W → (Bool × ℕ) × W
  pub exchange_signaling : List ℕ → ℕ → ℕ → W → ExchangeReply × W
  pub open_media : ℕ → ℕ → W → MediaReply × W
  pub close_signaling : W → (Bool × ℕ) × W
  pub cancelled : W → Bool × W

-- A world that counts the channels that were opened and the calls that close them.
pub record Counted (W : Type 0) : Type 0 where
  pub world : W
  pub opened : ℕ
  pub closed : ℕ

abbrev pub uncounted : {W : Type 0} → W → Counted W
uncounted w = record { world = w; opened = 0; closed = 0 }

-- The same backend, counting.
abbrev pub counting : {W : Type 0} → Backend W → Backend (Counted W)
counting b = record {
  open_signaling = λ timeout c.
      let (answer, w) = b.open_signaling timeout c.world in
      (answer, record c { world = w; opened = c.opened + bit answer.0 });
  exchange_signaling = λ request capacity timeout c.
      let (answer, w) = b.exchange_signaling request capacity timeout c.world in
      (answer, record c { world = w });
  open_media = λ timeout mtu c.
      let (answer, w) = b.open_media timeout mtu c.world in (answer, record c { world = w });
  close_signaling = λ c.
      let (answer, w) = b.close_signaling c.world in
      (answer, record c { world = w; closed = c.closed + 1 });
  cancelled = λ c. let (answer, w) = b.cancelled c.world in (answer, record c { world = w });
}

-- What a device has answered: the requests with their responses, the last one first, and whether it
-- has opened the media channel and closed the channels.
pub record Log : Type 0 where
  pub exchanges : List (List ℕ × List ℕ)
  pub media_opened : Bool
  pub channels_closed : Bool

abbrev pub empty_log : Log
empty_log = record { exchanges = []; media_opened = false; channels_closed = false }

abbrev pub log_exchange : List ℕ → ExchangeReply → Log → Log
log_exchange request reply l =
    if reply.succeeded then record l { exchanges = (request, reply.response) ∷ l.exchanges } else l

abbrev pub log_media : MediaReply → Log → Log
log_media reply l = if reply.succeeded then record l { media_opened = true } else l

abbrev pub log_close : Bool → Log → Log
log_close is_closed l = if is_closed then record l { channels_closed = true } else l

-- A world with a log.
pub record Logged (W : Type 0) : Type 0 where
  pub world : W
  pub log : Log

abbrev pub unlogged : {W : Type 0} → W → Logged W
unlogged w = record { world = w; log = empty_log }

-- The same backend, recording.
abbrev pub logging : {W : Type 0} → Backend W → Backend (Logged W)
logging b = record {
  open_signaling = λ timeout l.
      let (answer, w) = b.open_signaling timeout l.world in (answer, record l { world = w });
  exchange_signaling = λ request capacity timeout l.
      let (answer, w) = b.exchange_signaling request capacity timeout l.world in
      (answer, record { world = w; log = log_exchange request answer l.log });
  open_media = λ timeout mtu l.
      let (answer, w) = b.open_media timeout mtu l.world in
      (answer, record { world = w; log = log_media answer l.log });
  close_signaling = λ l.
      let (answer, w) = b.close_signaling l.world in
      (answer, record { world = w; log = log_close answer.0 l.log });
  cancelled = λ l. let (answer, w) = b.cancelled l.world in (answer, record l { world = w });
}

-- The constants that the sessions share.
abbrev pub maximum_signaling_response : ℕ
maximum_signaling_response = 4096

abbrev pub maximum_timeout_ms : ℕ
maximum_timeout_ms = 30000

-- `timeout != 0 && timeout <= maximum`.
abbrev pub is_timeout : ℕ → Bool
is_timeout ms = not (ms == 0) && leb ms maximum_timeout_ms
