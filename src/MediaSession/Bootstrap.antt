-- ===== src/MediaSession/Bootstrap.antt =====
-- The fallback of agent/v1_avrcp_bootstrap_play.cpp: one injected play at most for each gesture.
use native_ldac_xm5_windows.Prelude.{
  ltb, if◌then◌else◌, u64_max, bit, ℕ, ◌+◌, ◌≤◌, ◌≡◌, ◌≢◌, Bool, true, false, List, [], ◌∷◌, arith,
}
use native_ldac_xm5_windows.MediaSession.{
  Playback, MediaSnapshot, bootstrap_play_delay_ms, nothing, scheduled, inject_play, BootstrapState,
  reset_bootstrap_play, observe_bootstrap_gesture, reconcile_bootstrap_play,
}

-- A play key is injected only for a pending gesture of the current link, at or past its deadline,
-- while the session is still paused and can play; and the gesture is then no longer pending.
inject_guarded :
    (s : BootstrapState) (m : MediaSnapshot) (now : ℕ)
    → (reconcile_bootstrap_play s m now).1 ≡ inject_play
    → (s.pending ≡ true)
      × (m.acl_generation ≡ s.acl_generation)
      × (m.playback ≡ Playback.paused)
      × (m.play_enabled ≡ true)
      × (s.deadline_ms ≤ now)
      × ((reconcile_bootstrap_play s m now).0.pending ≡ false)
unfolding reconcile_bootstrap_play
inject_guarded s m now h = ground arith

pub data BootstrapCall : Type 0 where
  resets : ℕ → BootstrapCall
  gestures : MediaSnapshot → Bool → ℕ → BootstrapCall
  reconciles : MediaSnapshot → ℕ → BootstrapCall

unfoldable pub answer : BootstrapState → BootstrapCall → BootstrapState
answer s (resets g) = reset_bootstrap_play s g
answer s (gestures m press now) = (observe_bootstrap_gesture s m press now).0
answer s (reconciles m now) = (reconcile_bootstrap_play s m now).0

unfoldable pub run : BootstrapState → List BootstrapCall → BootstrapState
run s [] = s
run s (c ∷ cs) = run (answer s c) cs

-- The gestures that have been decided.
abbrev pub decided : BootstrapState → ℕ
decided s = s.microsoft_handled_count + s.fallback_injected_count + s.cancelled_count

record Counted (n : ℕ) (s : BootstrapState) : Type 0 where
  balanced : decided s + bit s.pending ≤ s.scheduled_count
  small : s.scheduled_count ≤ n

-- A gesture that is observed while the session is paused and can play is injected at its deadline
-- if nothing changes, and not before.
gesture_injects :
    (s : BootstrapState) (m : MediaSnapshot) (now later : ℕ)
    → s.pending ≡ false
    → m.acl_generation ≢ 0
    → m.acl_generation ≡ s.acl_generation
    → m.playback ≡ Playback.paused
    → m.play_enabled ≡ true
    → now + bootstrap_play_delay_ms ≤ u64_max
    → let (t, d) = observe_bootstrap_gesture s m true now in
      (d ≡ scheduled)
      × ((reconcile_bootstrap_play t m later).1
          ≡ (if ltb later (now + bootstrap_play_delay_ms) then nothing else inject_play))
unfolding observe_bootstrap_gesture reconcile_bootstrap_play
gesture_injects s m now later p z g k e fits = ground arith
