-- ===== src/Transport/Configuration/Tracked.antt =====
-- What an exchange of agent/v1_transport_configuration_session.cpp tells of the source: the flags
-- of the result stand for the responses that the source has accepted.
use native_ldac_xm5_windows.Prelude.{ℕ, ◌≡◌, refl, ◌≢◌, ◌⊎◌, inl, inr, Bool, true, false, arith}
use native_ldac_xm5_windows.Protocol.Source.{
  SourceState, source_idle, discover_sent, capabilities_sent, configuration_sent, open_sent,
  waiting_for_media_channel, source_open, start_sent, source_streaming, suspend_sent, close_sent,
  source_closed, source_failed, ActionKind, send_signaling, open_media_channel, session_closed,
  AvdtpAction, AvdtpSource,
}
use native_ldac_xm5_windows.Protocol.Source.Order.{
  Moves, queries, queries_again, configures, opens, waits, streams, suspends, closes, fails,
  AlignedIn, Asks,
}
use native_ldac_xm5_windows.Transport.Configuration.{
  succeeded, ConfigurationResult, note_accepted, Exchanged, stopped,
}

-- What is known in each state of the source of the flags for SET_CONFIGURATION and OPEN.
abbrev pub Known : SourceState → Bool → Bool → Type 0
Known open_sent set opened = set ≡ true
Known waiting_for_media_channel set opened = (set ≡ true) × (opened ≡ true)
Known discover_sent set opened = Unit
Known capabilities_sent set opened = Unit
Known configuration_sent set opened = Unit
Known source_idle set opened = Unit
Known source_open set opened = Unit
Known start_sent set opened = Unit
Known source_streaming set opened = Unit
Known suspend_sent set opened = Unit
Known close_sent set opened = Unit
Known source_closed set opened = Unit
Known source_failed set opened = Unit

pub record Tracked (action : AvdtpAction) (s : AvdtpSource) (r : ConfigurationResult) : Type 0 where
  pub asks : (action.kind ≢ send_signaling) ⊎ Asks s action.packet
  pub waiting : (action.kind ≢ open_media_channel) ⊎ (s.state ≡ waiting_for_media_channel)
  pub aligned : AlignedIn s.state s
  pub known : Known s.state r.set_configuration_accepted r.avdtp_open_accepted
  pub not_yet : r.disposition ≢ succeeded

-- The flags of the first result stand in the second.
pub record Grown (r q : ConfigurationResult) : Type 0 where
  pub set_stays : r.set_configuration_accepted ≡ true → q.set_configuration_accepted ≡ true
  pub open_stays : r.avdtp_open_accepted ≡ true → q.avdtp_open_accepted ≡ true
  pub media_stays : q.media_opened ≡ r.media_opened
  pub channel_stays : q.signaling_opened ≡ r.signaling_opened

-- What is known after an exchange.
pub record Traced {W : Type 0} (r : ConfigurationResult) (e : Exchanged W) : Type 0 where
  pub not_yet : e.result.disposition ≢ succeeded
  pub grown : Grown r e.result
  pub went : (e.went_on ≡ false) ⊎ Tracked e.next e.source e.result
  pub closing :
      (e.went_on ≡ false) ⊎ (e.next.kind ≢ session_closed) ⊎ (e.result.avdtp_close_accepted ≡ true)

pub note-Grown :
    (signal : ℕ) (next : AvdtpAction) (r : ConfigurationResult)
    → Grown r (note_accepted signal next r)
unfolding note_accepted
note-Grown signal next r = record {
  set_stays = λ e. ground arith;
  open_stays = λ e. ground arith;
  media_stays = ground arith;
  channel_stays = ground arith;
}

pub note-disposition :
    (signal : ℕ) (next : AvdtpAction) (r : ConfigurationResult)
    → (note_accepted signal next r).disposition ≡ r.disposition
unfolding note_accepted
note-disposition signal next r = ground arith

-- A response that the source accepts brings what is known of its next state.
pub note-Known :
    (s : AvdtpSource) (from to : SourceState) (kind : ActionKind) (signal : ℕ) (next : AvdtpAction)
    (r : ConfigurationResult)
    → Moves from kind to
    → next.kind ≡ kind
    → AlignedIn from s
    → signal ≡ s.pending_signal_id
    → Known from r.set_configuration_accepted r.avdtp_open_accepted
    → Known to
        (note_accepted signal next r).set_configuration_accepted
        (note_accepted signal next r).avdtp_open_accepted
unfolding note_accepted
note-Known s from to kind signal next r queries e a p h = tt
note-Known s from to kind signal next r queries_again e a p h = tt
note-Known s from to kind signal next r configures e a p h = tt
note-Known s from to kind signal next r opens e a p h = ground arith
note-Known s from to kind signal next r waits e a p h = (ground arith, ground arith)
note-Known s from to kind signal next r streams e a p h = tt
note-Known s from to kind signal next r suspends e a p h = tt
note-Known s from to kind signal next r closes e a p h = tt
note-Known s from to kind signal next r fails e a p h = tt

-- Only a source that closes answers that the session is closed, and only one that opens that it
-- waits for the media channel.
pub note-closed :
    (s : AvdtpSource) (from to : SourceState) (kind : ActionKind) (signal : ℕ) (next : AvdtpAction)
    (r : ConfigurationResult)
    → Moves from kind to
    → next.kind ≡ kind
    → AlignedIn from s
    → signal ≡ s.pending_signal_id
    → (next.kind ≢ session_closed) ⊎ ((note_accepted signal next r).avdtp_close_accepted ≡ true)
unfolding note_accepted
note-closed s from to kind signal next r queries e a p = inl (ground arith)
note-closed s from to kind signal next r queries_again e a p = inl (ground arith)
note-closed s from to kind signal next r configures e a p = inl (ground arith)
note-closed s from to kind signal next r opens e a p = inl (ground arith)
note-closed s from to kind signal next r waits e a p = inl (ground arith)
note-closed s from to kind signal next r streams e a p = inl (ground arith)
note-closed s from to kind signal next r suspends e a p = inl (ground arith)
note-closed s from to kind signal next r closes e a p = inr (ground arith)
note-closed s from to kind signal next r fails e a p = inl (ground arith)

pub moves-waiting :
    (from to : SourceState) (kind : ActionKind)
    → Moves from kind to
    → (kind ≢ open_media_channel) ⊎ (to ≡ waiting_for_media_channel)
moves-waiting from to kind queries = inl (ground arith)
moves-waiting from to kind queries_again = inl (ground arith)
moves-waiting from to kind configures = inl (ground arith)
moves-waiting from to kind opens = inl (ground arith)
moves-waiting from to kind waits = inr refl
moves-waiting from to kind streams = inl (ground arith)
moves-waiting from to kind suspends = inl (ground arith)
moves-waiting from to kind closes = inl (ground arith)
moves-waiting from to kind fails = inl (ground arith)

pub kept-Grown :
    (r q : ConfigurationResult)
    → q.set_configuration_accepted ≡ r.set_configuration_accepted
    → q.avdtp_open_accepted ≡ r.avdtp_open_accepted
    → q.media_opened ≡ r.media_opened
    → q.signaling_opened ≡ r.signaling_opened
    → Grown r q
kept-Grown r q e f g k = record {
  set_stays = λ h. cc;
  open_stays = λ h. cc;
  media_stays = g;
  channel_stays = k;
}

pub stopped-Traced :
    {W : Type 0} (s : AvdtpSource) (r q : ConfigurationResult) (w : W)
    → q.disposition ≢ succeeded
    → Grown r q
    → Traced r (stopped s q w)
stopped-Traced s r q w n g = record { not_yet = n; grown = g; went = inl refl; closing = inl refl }
