-- ===== src/Volume/Scale.antt =====
-- The two volume scales of agent/avrcp_absolute_volume_state.cpp, and where they agree.
use native_ldac_xm5_windows.Prelude.{ℕ, ◌+◌, ◌≤◌, ◌<◌, ◌≡◌, arith}
use native_ldac_xm5_windows.Volume.{
  windows_percent_to_xm5_absolute_volume, xm5_absolute_volume_to_windows_percent,
}

-- Every Windows percentage from 0 to 100 comes back from the headset's scale.
percent_round_trip :
    (p : ℕ)
    → p ≤ 100
    → xm5_absolute_volume_to_windows_percent (windows_percent_to_xm5_absolute_volume p) ≡ p
unfolding xm5_absolute_volume_to_windows_percent windows_percent_to_xm5_absolute_volume
percent_round_trip p h = omega arith

-- A headset volume comes back from the Windows scale to within one step.
xm5_round_trip_near :
    (v : ℕ)
    → v ≤ 127
    → let w = windows_percent_to_xm5_absolute_volume (xm5_absolute_volume_to_windows_percent v) in
      (v ≤ w + 1) × (w ≤ v + 1)
unfolding xm5_absolute_volume_to_windows_percent windows_percent_to_xm5_absolute_volume
xm5_round_trip_near v h = omega arith

-- Whatever number comes in, both scales answer within their range, and both keep the order.
scales_bounded_monotone :
    (a b : ℕ)
    → a ≤ b
    → (windows_percent_to_xm5_absolute_volume a ≤ windows_percent_to_xm5_absolute_volume b)
      × (xm5_absolute_volume_to_windows_percent a ≤ xm5_absolute_volume_to_windows_percent b)
      × (windows_percent_to_xm5_absolute_volume b ≤ 127)
      × (xm5_absolute_volume_to_windows_percent b ≤ 100)
unfolding xm5_absolute_volume_to_windows_percent windows_percent_to_xm5_absolute_volume
scales_bounded_monotone a b h = omega arith

to_xm5_pos : (p : ℕ) → 0 < p → p ≤ 100 → 0 < windows_percent_to_xm5_absolute_volume p
unfolding windows_percent_to_xm5_absolute_volume
to_xm5_pos p h k = omega arith

pub to_percent_pos : (v : ℕ) → 0 < v → v ≤ 127 → 0 < xm5_absolute_volume_to_windows_percent v
unfolding xm5_absolute_volume_to_windows_percent
to_percent_pos v h k = omega arith

pub to_percent_le : (v : ℕ) → xm5_absolute_volume_to_windows_percent v ≤ 100
unfolding xm5_absolute_volume_to_windows_percent
to_percent_le v = omega arith
