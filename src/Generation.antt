-- ===== src/Generation.antt =====
-- The order of ACL generations, `IsNewerGeneration`, which agent/avrcp_absolute_volume_state.cpp,
-- agent/avrcp_passthrough_state.cpp and agent/v1_hfp_switch_state.cpp each declare with one text,
-- and the epochs of authorization.
pub mod Order
use native_ldac_xm5_windows.Prelude.{
  ltb, ◌==◌, if◌then◌else◌, u64_max, u64, ℕ, ◌+◌, ◌-◌, Bool, true, false, not, ◌&&◌,
}

abbrev pub half_generation_range : ℕ
half_generation_range = 9223372036854775808

-- `candidate - current` in 64 bits.
abbrev pub generation_distance : ℕ → ℕ → ℕ
generation_distance candidate current = u64 (candidate + 18446744073709551616 - current)

unfoldable pub is_newer_generation : ℕ → ℕ → Bool
is_newer_generation candidate current =
    if candidate == 0
    then false
    else if current == 0
    then true
    else not (generation_distance candidate current == 0)
      && ltb (generation_distance candidate current) half_generation_range

-- The increment that skips 0: `NextNonzero`, and the branch of `InvalidateGateAuthorization`.
unfoldable pub next_nonzero : ℕ → ℕ
next_nonzero value = if value == u64_max then 1 else value + 1
