-- ===== src/Volume/Tests.antt =====
-- Runs of the reducer and the gate of agent/avrcp_absolute_volume_state.cpp at concrete states.
use native_ldac_xm5_windows.Generation.{is_newer_generation}
use native_ldac_xm5_windows.Prelude.{
  ◌==◌, if◌then◌else◌, ◌≡◌, refl, true, false, not, [], ◌∷◌, arith,
}
use native_ldac_xm5_windows.Volume.{
  supported, remote_notification, WindowsVolume, no_decision, VolumeState, initial_volume_state,
  clamp_windows_volume, windows_percent_to_xm5_absolute_volume,
  xm5_absolute_volume_to_windows_percent, project_windows_volume_to_xm5, is_current_session,
  begin_volume_session, observe_windows_endpoint_volume, observe_xm5_absolute_volume,
}
use native_ldac_xm5_windows.Volume.Session.{begins, headset_follows_windows}
use native_ldac_xm5_windows.Volume.Session
use native_ldac_xm5_windows.Volume.Exchange.{IsNews, reflected, news_settles_or_corrects}
use native_ldac_xm5_windows.Volume.Gate.{
  synchronize, GateDecision, GateState, initial_gate_state, is_current_acl_generation,
  gate_can_synchronize, authorize_gate_decision, with_reducer, observe_windows_through_gate,
  is_gate_decision_current,
}
use native_ldac_xm5_windows.Volume.Gate.Invariant.{sets_mode, acquires, revokes, gate_call-current}
use native_ldac_xm5_windows.Volume.Gate.Invariant
use native_ldac_xm5_windows.Volume.Gate.Epochs.{Withdraws, releases, withdrawn_stays_stale}
use native_ldac_xm5_windows.Volume.Gate.Epochs

abbrev half : WindowsVolume
half = record { percent = 50; muted = false }

-- A session at half volume, as its first synchronization leaves it.
abbrev half_session : VolumeState
half_session = record initial_volume_state {
  generation = 1;
  session_active = true;
  support = supported;
  windows_volume_known = true;
  windows_volume = half;
  first_session_sync_complete = true;
  outbound_echo_pending = true;
  last_xm5_volume_sent = 64;
}

begin_half : (begin_volume_session initial_volume_state 1 supported half).0 ≡ half_session
unfolding begin_volume_session is_newer_generation project_windows_volume_to_xm5
    windows_percent_to_xm5_absolute_volume
begin_half = refl

-- Headset volume 2 stands for 2 percent, which stands for headset volume 3.
reflected_two : reflected 2 ≡ 3
unfolding windows_percent_to_xm5_absolute_volume xm5_absolute_volume_to_windows_percent
reflected_two = refl

headset_follows_windows_example :
    let s = Session.run initial_volume_state (begins 1 supported half ∷ []) in
    (s.first_session_sync_complete ≡ true)
    × (s.last_xm5_volume_sent ≡ project_windows_volume_to_xm5 s.windows_volume)
unfolding Session.run Session.answer begin_volume_session is_newer_generation
headset_follows_windows_example = headset_follows_windows (begins 1 supported half ∷ []) refl refl

two-IsNews : IsNews half_session 1 2
unfolding is_current_session project_windows_volume_to_xm5 windows_percent_to_xm5_absolute_volume
two-IsNews = ground arith

news_settles_or_corrects_example :
    let (t, d) = observe_xm5_absolute_volume half_session 1 2 remote_notification in
    let (u, e) = observe_windows_endpoint_volume t 1 d.windows_volume in
    (u.windows_update_pending ≡ false)
    × (u.last_xm5_volume_sent ≡ reflected 2)
    × (e.set_windows_endpoint ≡ false)
    × (e.send_xm5_absolute_volume ≡ not (reflected 2 == 2))
    × (e.xm5_absolute_volume ≡ (if reflected 2 == 2 then 0 else reflected 2))
news_settles_or_corrects_example = news_settles_or_corrects half_session 1 2 two-IsNews

-- An open gate on link 1 with owner 9, one Windows volume and a session.
abbrev open_gate : GateState
open_gate = record initial_gate_state {
  acl_generation = 1;
  acl_generation_current = true;
  owner_lease = 9;
  authorization_epoch = 1;
  mode = synchronize;
  observed_support = supported;
  windows_volume_observed = true;
  last_windows_volume = half;
  reducer = half_session;
}

open_gate-Inv : Invariant.Inv open_gate
unfolding gate_can_synchronize
open_gate-Inv = ground arith

abbrev quiet : WindowsVolume
quiet = record { percent = 10; muted = false }

gate_call-current_example :
    let c = Invariant.observes_windows 1 quiet in
    is_gate_decision_current (Invariant.answer open_gate c).0 (Invariant.answer open_gate c).1
    ≡ true
unfolding Invariant.answer observe_windows_through_gate with_reducer authorize_gate_decision
    gate_can_synchronize observe_windows_endpoint_volume project_windows_volume_to_xm5
    windows_percent_to_xm5_absolute_volume clamp_windows_volume
gate_call-current_example =
    gate_call-current open_gate (Invariant.observes_windows 1 quiet) open_gate-Inv refl

-- A decision taken at the open gate.
abbrev queued : GateDecision
queued = record {
  volume = record no_decision { send_xm5_absolute_volume = true; xm5_absolute_volume = 13 };
  acl_generation = 1;
  owner_lease = 9;
  authorization_epoch = 1;
}

release : Withdraws open_gate (revokes 1 9)
unfolding is_current_acl_generation
release = releases 1 9 refl refl (omega arith)

withdrawn_stays_stale_example :
    is_gate_decision_current
      (Epochs.run open_gate (revokes 1 9 ∷ acquires 1 9 ∷ sets_mode 1 synchronize ∷ []))
      queued
    ≡ false
unfolding is_gate_decision_current gate_can_synchronize
withdrawn_stays_stale_example =
    withdrawn_stays_stale open_gate queued (revokes 1 9)
      (acquires 1 9 ∷ sets_mode 1 synchronize ∷ []) refl release (omega arith)
