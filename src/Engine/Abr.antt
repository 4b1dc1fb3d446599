-- ===== src/Engine/Abr.antt =====
-- engine/include/ldac_native/abr_controller.h and engine/src/abr_controller.c: the quality of the
-- encoder follows how many packets of each window were slow to write. A quality is an `int` that an
-- enumeration names, so it is a number here: a value that is none of the enumeration can be given.
pub mod Range
pub mod Spacing
pub mod Recovery
use native_ldac_xm5_windows.Prelude.{
  ltb, leb, ◌==◌, if◌then◌else◌, u64, u32, ℕ, ◌+◌, ◌-◌, ◌*◌, Bool, true, false, not, ◌&&◌, ◌||◌,
  List, [], ◌∷◌,
}

abbrev pub quality_hq : ℕ
quality_hq = 0

abbrev pub quality_sq : ℕ
quality_sq = 1

abbrev pub quality_mq : ℕ
quality_mq = 2

pub record AbrWindow : Type 0 where
  pub total_packets : ℕ
  pub late_packets : ℕ
  pub slow_write_packets : ℕ
  pub max_schedule_lag_us : ℕ
  pub max_write_us : ℕ

pub data AbrReason : Type 0 where
  no_reason congestion clean_link : AbrReason

pub record AbrDecision : Type 0 where
  pub quality : ℕ
  pub reason : AbrReason
  pub changed : Bool

pub record AbrController : Type 0 where
  pub quality : ℕ
  pub warmup_windows : ℕ
  pub clean_windows : ℕ
  pub cooldown_windows : ℕ

abbrev pub abr_warmup_windows : ℕ
abr_warmup_windows = 2

abbrev pub abr_downgrade_slow_percent : ℕ
abr_downgrade_slow_percent = 20

abbrev pub abr_severe_slow_percent : ℕ
abr_severe_slow_percent = 60

abbrev pub abr_clean_packet_percent : ℕ
abr_clean_packet_percent = 3

abbrev pub abr_switch_cooldown_windows : ℕ
abr_switch_cooldown_windows = 5

abbrev pub abr_upgrade_clean_windows : ℕ
abr_upgrade_clean_windows = 20

abbrev pub valid_quality : ℕ → Bool
valid_quality quality = quality == quality_hq || quality == quality_sq || quality == quality_mq

-- The products are kept in 64 bits.
abbrev pub percentage_at_least : ℕ → ℕ → ℕ → Bool
percentage_at_least count total percentage =
    if total == 0 then false else leb (u64 (total * percentage)) (u64 (count * 100))

unfoldable pub abr_init : ℕ → AbrController
abr_init initial_quality = record {
  quality = if valid_quality initial_quality then initial_quality else quality_hq;
  warmup_windows = abr_warmup_windows;
  clean_windows = 0;
  cooldown_windows = 0;
}

-- The decision that keeps the quality.
abbrev pub kept : AbrController → AbrDecision
kept c = record { quality = c.quality; reason = no_reason; changed = false }

-- A switch to another quality.
abbrev pub switched : AbrController → ℕ → AbrReason → AbrController × AbrDecision
switched c quality reason = (
  record c { quality = quality; clean_windows = 0; cooldown_windows = abr_switch_cooldown_windows },
  record { quality = quality; reason = reason; changed = true },
)

-- What follows where the window is no congestion and no switch was made just before.
abbrev pub count_clean : AbrController → Bool → AbrController × AbrDecision
count_clean c clean =
    let windows = u32 (c.clean_windows + 1) in
    if not clean || c.quality == quality_hq
    then (record c { clean_windows = 0 }, kept c)
    else if leb abr_upgrade_clean_windows windows
    then switched c (c.quality - 1) clean_link
    else (record c { clean_windows = windows }, kept c)

-- The part of `ldac_abr_update` behind the warm-up.
unfoldable pub abr_evaluate : AbrController → AbrWindow → AbrController × AbrDecision
abr_evaluate c w =
    let congested =
      percentage_at_least w.slow_write_packets w.total_packets abr_downgrade_slow_percent in
    let severe = percentage_at_least w.slow_write_packets w.total_packets abr_severe_slow_percent in
    let clean =
      not (percentage_at_least w.slow_write_packets w.total_packets abr_clean_packet_percent) in
    let was_cooling_down = ltb 0 c.cooldown_windows in
    let cooled = record c { cooldown_windows = c.cooldown_windows - 1 } in
    if congested && ltb c.quality quality_mq && (not was_cooling_down || severe)
    then switched cooled (c.quality + 1) congestion
    else if was_cooling_down
    then (record cooled { clean_windows = 0 }, kept c)
    else count_clean cooled clean

unfoldable pub abr_update : AbrController → AbrWindow → AbrController × AbrDecision
abr_update c w =
    if w.total_packets == 0
    then (c, kept c)
    else if ltb 0 c.warmup_windows
    then (record c { warmup_windows = c.warmup_windows - 1; clean_windows = 0 }, kept c)
    else abr_evaluate c w

-- The controller behind a list of windows.
unfoldable pub abr_run : AbrController → List AbrWindow → AbrController
abr_run c [] = c
abr_run c (w ∷ ws) = abr_run (abr_update c w).0 ws
