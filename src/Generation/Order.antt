-- ===== src/Generation/Order.antt =====
-- The order of generations and the increment of epochs; agent/avrcp_absolute_volume_state.cpp.
use native_ldac_xm5_windows.Generation.{is_newer_generation, next_nonzero}
use native_ldac_xm5_windows.Prelude.{u64_max, ℕ, ◌≤◌, ◌≡◌, ◌≢◌, true, false, arith}

-- An epoch changes when it is incremented.
pub next_nonzero_ne : (value : ℕ) → next_nonzero value ≢ value
unfolding next_nonzero
next_nonzero_ne value e = ground arith

-- No generation is newer than itself, and of two generations only one is newer than the other.
is_newer_asymm :
    (a b : ℕ)
    → a ≤ u64_max
    → b ≤ u64_max
    → is_newer_generation a b ≡ true
    → (is_newer_generation b a ≡ false) × (b ≢ a)
unfolding is_newer_generation
is_newer_asymm a b ha hb newer = ground arith
