-- ===== src/Volume/Session.antt =====
-- One volume session of agent/avrcp_absolute_volume_state.cpp: its invariant over every history of
-- calls, and the exchange of a volume change with the headset.
use native_ldac_xm5_windows.Generation.{is_newer_generation}
use native_ldac_xm5_windows.Prelude.{ℕ, ◌≤◌, ◌<◌, ◌≡◌, ◌≢◌, ◌⊎◌, true, false, List, [], ◌∷◌, arith}
use native_ldac_xm5_windows.Volume.{
  VolumeSupport, supported, Xm5VolumeEvent, command_response, WindowsVolume, VolumeDecision,
  no_decision, VolumeState, initial_volume_state, clamp_windows_volume,
  windows_percent_to_xm5_absolute_volume, project_windows_volume_to_xm5,
  send_authoritative_windows_volume, begin_volume_session, set_volume_support,
  observe_windows_endpoint_volume, observe_xm5_absolute_volume, end_volume_session,
}

pub record Inv (s : VolumeState) : Type 0 where
  pub percent_fits : s.windows_volume.percent ≤ 100
  pub sent_fits : s.last_xm5_volume_sent ≤ 127
  pub active_known : s.session_active ≡ true → s.windows_volume_known ≡ true
  pub active_generation : s.session_active ≡ true → 0 < s.generation
  pub synced_supported :
      s.session_active ≡ true → s.first_session_sync_complete ≡ true → s.support ≡ supported
  -- What the headset was last told, or last asked for and got, is the Windows volume.
  pub agreed :
      s.session_active ≡ true
      → s.support ≡ supported
      → (s.first_session_sync_complete ≡ true)
        × (s.last_xm5_volume_sent ≡ project_windows_volume_to_xm5 s.windows_volume)

-- The calls that the reducer answers.
pub data VolumeCall : Type 0 where
  begins : ℕ → VolumeSupport → WindowsVolume → VolumeCall
  supports : ℕ → VolumeSupport → VolumeCall
  observes_windows : ℕ → WindowsVolume → VolumeCall
  observes_xm5 : ℕ → ℕ → Xm5VolumeEvent → VolumeCall
  ends : ℕ → VolumeCall

unfoldable pub answer : VolumeState → VolumeCall → VolumeState × VolumeDecision
answer s (begins g claim v) = begin_volume_session s g claim v
answer s (supports g claim) = set_volume_support s g claim
answer s (observes_windows g v) = observe_windows_endpoint_volume s g v
answer s (observes_xm5 g v e) = observe_xm5_absolute_volume s g v e
answer s (ends g) = (end_volume_session s g, no_decision)

unfoldable pub run : VolumeState → List VolumeCall → VolumeState
run s [] = s
run s (c ∷ cs) = run (answer s c).0 cs

project_le : (v : WindowsVolume) → project_windows_volume_to_xm5 v ≤ 127
unfolding project_windows_volume_to_xm5 windows_percent_to_xm5_absolute_volume
project_le v = ground arith

send-Inv :
    (s : VolumeState)
    → s.windows_volume.percent ≤ 100
    → s.last_xm5_volume_sent ≤ 127
    → s.windows_volume_known ≡ true
    → 0 < s.generation
    → s.support ≡ supported
    → Inv (send_authoritative_windows_volume s).0
unfolding send_authoritative_windows_volume
send-Inv s p l k g h = ground (arith, project_le s.windows_volume)

-- Every call keeps the invariant of a session.
answer-Inv : (s : VolumeState) (c : VolumeCall) → Inv s → Inv (answer s c).0
unfolding answer begin_volume_session set_volume_support observe_windows_endpoint_volume
    observe_xm5_absolute_volume end_volume_session is_newer_generation
answer-Inv s (begins g claim v) h = ground (arith, project_le (clamp_windows_volume v))
answer-Inv s (supports g claim) h = ground (arith, project_le s.windows_volume)
answer-Inv s (observes_windows g v) h = ground (arith, project_le (clamp_windows_volume v))
answer-Inv s (observes_xm5 g v e) h = ground arith
answer-Inv s (ends g) h = ground arith

run-Inv : (s : VolumeState) (cs : List VolumeCall) → Inv s → Inv (run s cs)
unfolding run
run-Inv s [] h = h
run-Inv s (c ∷ cs) h = run-Inv (answer s c).0 cs (answer-Inv s c h)

initial-Inv : Inv initial_volume_state
initial-Inv = ground arith

-- After any history of calls on a fresh state, an active session with support has made its first
-- synchronization, and the headset volume last sent or agreed on is the Windows volume, projected.
pub headset_follows_windows :
    (cs : List VolumeCall)
    → (run initial_volume_state cs).session_active ≡ true
    → (run initial_volume_state cs).support ≡ supported
    → ((run initial_volume_state cs).first_session_sync_complete ≡ true)
      × ((run initial_volume_state cs).last_xm5_volume_sent
          ≡ project_windows_volume_to_xm5 (run initial_volume_state cs).windows_volume)
headset_follows_windows cs a h = (run-Inv initial_volume_state cs initial-Inv).agreed a h

-- A call that names another generation than the current session's, or 0, or comes when no session
-- is active, changes nothing and asks for nothing.
stale_calls_ignored :
    (s : VolumeState) (g v : ℕ) (claim : VolumeSupport) (w : WindowsVolume) (e : Xm5VolumeEvent)
    → (g ≡ 0) ⊎ (s.session_active ≡ false) ⊎ (g ≢ s.generation)
    → (set_volume_support s g claim ≡ (s, no_decision))
      × (observe_windows_endpoint_volume s g w ≡ (s, no_decision))
      × (observe_xm5_absolute_volume s g v e ≡ (s, no_decision))
      × (end_volume_session s g ≡ s)
unfolding set_volume_support observe_windows_endpoint_volume observe_xm5_absolute_volume
    end_volume_session
stale_calls_ignored s g v claim w e h = ground arith

-- The response to a command never becomes an action, whatever value it carries: at most it ends
-- the wait for an echo, and only if it carries the value that was sent.
response_is_inert :
    (s : VolumeState) (g v : ℕ)
    → let (t, d) = observe_xm5_absolute_volume s g v command_response in
      (d ≡ no_decision)
      × (t ≡ record s { outbound_echo_pending = t.outbound_echo_pending })
      × ((t.outbound_echo_pending ≡ s.outbound_echo_pending) ⊎ (v ≡ s.last_xm5_volume_sent))
unfolding observe_xm5_absolute_volume
response_is_inert s g v = ground arith
