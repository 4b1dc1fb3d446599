-- ===== src/Engine/Abr/Recovery.antt =====
-- A clean link brings the quality of engine/src/abr_controller.c back.
use native_ldac_xm5_windows.Prelude.{
  u32_max, length, ℕ, zero, suc, ◌+◌, ◌-◌, ◌*◌, ◌≤◌, ◌<◌, ◌≡◌, refl, List, [], ◌∷◌, arith,
}
use native_ldac_xm5_windows.Engine.Abr.{
  AbrWindow, AbrController, abr_switch_cooldown_windows, abr_evaluate, abr_update, abr_run,
}

-- A window that has packets, fewer than 3 in a hundred of which were slow.
pub record Clean (w : AbrWindow) : Type 0 where
  pub has_packets : 0 < w.total_packets
  pub packets_in : w.total_packets ≤ u32_max
  pub few_slow : w.slow_write_packets * 100 < w.total_packets * 3

-- Every window of a list is clean.
abbrev pub AllClean : List AbrWindow → Type 0
AllClean [] = Unit
AllClean (w ∷ ws) = Clean w × AllClean ws

-- A controller of a quality with its counters.
abbrev pub at : ℕ → ℕ → ℕ → AbrController
at quality clean cooldown = record {
  quality = quality;
  warmup_windows = 0;
  clean_windows = clean;
  cooldown_windows = cooldown;
}

cooling_step :
    (quality cooldown : ℕ) (w : AbrWindow)
    → Clean w
    → (abr_update (at quality 0 (suc cooldown)) w).0 ≡ at quality 0 cooldown
unfolding abr_update abr_evaluate
cooling_step quality cooldown w h = ground (arith, h.has_packets, h.packets_in, h.few_slow)

counting_step :
    (quality clean : ℕ) (w : AbrWindow)
    → Clean w
    → 0 < quality
    → clean < 19
    → (abr_update (at quality clean 0) w).0 ≡ at quality (clean + 1) 0
unfolding abr_update abr_evaluate
counting_step quality clean w h q c = ground (arith, h.has_packets, h.packets_in, h.few_slow)

rising_step :
    (quality : ℕ) (w : AbrWindow)
    → Clean w
    → 0 < quality
    → (abr_update (at quality 19 0) w).0 ≡ at (quality - 1) 0 5
unfolding abr_update abr_evaluate
rising_step quality w h q = ground (arith, h.has_packets, h.packets_in, h.few_slow)

-- The windows still to count.
counting_run :
    (quality left clean : ℕ) (ws : List AbrWindow)
    → AllClean ws
    → 0 < quality
    → clean + left ≡ 19
    → length ws ≡ left + 1
    → abr_run (at quality clean 0) ws ≡ at (quality - 1) 0 5
unfolding abr_run
counting_run quality left clean [] h q c l = ground arith
counting_run quality zero clean (w ∷ []) (h, hs) q c l =
    let e : clean ≡ 19 = omega arith in rw e (rising_step quality w h q)
counting_run quality zero clean (w ∷ v ∷ ws) h q c l = ground arith
counting_run quality (suc left) clean (w ∷ ws) (h, hs) q c l =
    rw (counting_step quality clean w h q (omega arith))
      (counting_run quality left (clean + 1) ws hs q (omega arith) (ground arith))

-- A controller that cools down.
cooling_run :
    (quality cooldown : ℕ) (ws : List AbrWindow)
    → AllClean ws
    → 0 < quality
    → length ws ≡ cooldown + 20
    → abr_run (at quality 0 cooldown) ws ≡ at (quality - 1) 0 5
unfolding abr_run
cooling_run quality zero ws h q l = counting_run quality 19 0 ws h q refl l
cooling_run quality (suc cooldown) [] h q l = ground arith
cooling_run quality (suc cooldown) (w ∷ ws) (h, hs) q l =
    rw (cooling_step quality cooldown w h) (cooling_run quality cooldown ws hs q (ground arith))

-- From a switch to a quality that is not the best, exactly 25 clean windows raise the quality by
-- one step, and leave the controller as a switch leaves it.
pub clean_link_recovers :
    (quality : ℕ) (ws : List AbrWindow)
    → 0 < quality
    → AllClean ws
    → length ws ≡ 25
    → abr_run (at quality 0 abr_switch_cooldown_windows) ws
      ≡ at (quality - 1) 0 abr_switch_cooldown_windows
clean_link_recovers quality ws q h l = cooling_run quality 5 ws h q l
