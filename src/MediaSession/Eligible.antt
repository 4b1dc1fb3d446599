-- ===== src/MediaSession/Eligible.antt =====
-- What agent/v1_media_session_eligibility.cpp lets through.
use native_ldac_xm5_windows.Prelude.{
  iterate, ℕ, zero, suc, ◌≡◌, refl, ◌≢◌, ◌↔◌, ◌⊎◌, inl, inr, true, arith,
}
use native_ldac_xm5_windows.MediaSession.{
  Playback, ObservedPlayback, MediaSnapshot, evaluate_eligibility, normalize_playback,
}

-- A session is present exactly on a link with a session that plays or is paused; play is eligible
-- exactly if it is paused and can play, pause exactly if it plays and can pause, and the two
-- track keys exactly if the session is present and has them.
eligibility_exact :
    (m : MediaSnapshot)
    → let e = evaluate_eligibility m in
      ((e.session_present ≡ true) ↔ (
        (m.acl_generation ≢ 0)
        × ((m.playback ≡ Playback.playing) ⊎ (m.playback ≡ Playback.paused))))
      × ((e.play_eligible ≡ true)
          ↔ ((m.acl_generation ≢ 0) × (m.playback ≡ Playback.paused) × (m.play_enabled ≡ true)))
      × ((e.pause_eligible ≡ true)
          ↔ ((m.acl_generation ≢ 0) × (m.playback ≡ Playback.playing) × (m.pause_enabled ≡ true)))
      × ((e.next_eligible ≡ true) ↔ ((e.session_present ≡ true) × (m.next_enabled ≡ true)))
      × ((e.previous_eligible ≡ true) ↔ ((e.session_present ≡ true) × (m.previous_enabled ≡ true)))
unfolding evaluate_eligibility
eligibility_exact m = ground arith

-- A run of Changing reports of one session keeps a playing or paused state.
changing_keeps :
    (n : ℕ) (p : Playback)
    → (p ≡ Playback.playing) ⊎ (p ≡ Playback.paused)
    → iterate n (λ q. normalize_playback ObservedPlayback.changing q true) p ≡ p
unfolding normalize_playback iterate
changing_keeps zero p h = refl
changing_keeps (suc n) p (inl h) = rw h (changing_keeps n Playback.playing (inl refl))
changing_keeps (suc n) p (inr h) = rw h (changing_keeps n Playback.paused (inr refl))
