-- ===== src/Engine/Tests.antt =====
-- Runs of engine/src/abr_controller.c.
use native_ldac_xm5_windows.Prelude.{ℕ, zero, suc, ◌≡◌, refl, List, [], ◌∷◌, arith}
use native_ldac_xm5_windows.Engine.Abr.{
  quality_hq, quality_sq, quality_mq, AbrWindow, abr_switch_cooldown_windows, abr_init, abr_run,
}
use native_ldac_xm5_windows.Engine.Abr.Spacing.{Spaced, abr_init-Spaced}
use native_ldac_xm5_windows.Engine.Abr.Recovery.{Clean, AllClean, at, clean_link_recovers}

abbrev window : ℕ → AbrWindow
window slow = record {
  total_packets = 188;
  late_packets = 0;
  slow_write_packets = slow;
  max_schedule_lag_us = 500;
  max_write_us = 1200;
}

abbrev repeated : ℕ → List AbrWindow → List AbrWindow
repeated zero ws = ws
repeated (suc n) ws = window 0 ∷ repeated n ws

-- Three clean windows, a congested one, and a severe one just behind it.
abr_init-Spaced_example :
    Spaced 5 0 (abr_init quality_hq) (repeated 3 (window 45 ∷ window 120 ∷ []))
abr_init-Spaced_example = abr_init-Spaced quality_hq (repeated 3 (window 45 ∷ window 120 ∷ []))

window-Clean : Clean (window 0)
window-Clean = record {
  has_packets = omega arith;
  packets_in = omega arith;
  few_slow = omega arith;
}

repeated-AllClean : (n : ℕ) → AllClean (repeated n [])
repeated-AllClean zero = tt
repeated-AllClean (suc n) = (window-Clean, repeated-AllClean n)

clean_link_recovers_example :
    abr_run (at quality_mq 0 abr_switch_cooldown_windows) (repeated 25 [])
    ≡ at quality_sq 0 abr_switch_cooldown_windows
clean_link_recovers_example =
    clean_link_recovers quality_mq (repeated 25 []) (omega arith) (repeated-AllClean 25) refl
