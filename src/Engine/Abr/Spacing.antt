-- ===== src/Engine/Abr/Spacing.antt =====
-- The switches of engine/src/abr_controller.c keep their distance.
use native_ldac_xm5_windows.Prelude.{
  ltb, ◌==◌, if◌then◌else◌, u64, ℕ, ◌+◌, ◌-◌, ◌*◌, ◌≤◌, ◌≡◌, ◌⊎◌, not, List, [], ◌∷◌, arith,
}
use native_ldac_xm5_windows.Engine.Abr.{
  AbrWindow, AbrDecision, AbrController, abr_init, abr_evaluate, abr_update,
}
use native_ldac_xm5_windows.Engine.Abr.Range.{InRange, init-InRange, update-InRange}

-- How many windows with packets have passed since the quality last changed, behind a window that
-- leads from one controller to another.
unfoldable pub since : ℕ → AbrWindow → AbrController → AbrController → ℕ
since n w before after =
    if not (after.quality == before.quality) then 0 else if w.total_packets == 0 then n else n + 1

-- How many windows in a row had fewer than 3 of 100 packets slow, windows without packets aside.
unfoldable pub in_a_row : ℕ → AbrWindow → ℕ
in_a_row k w =
    if w.total_packets == 0
    then k
    else if ltb (u64 (w.slow_write_packets * 100)) (u64 (w.total_packets * 3))
    then k + 1
    else 0

-- At least 60 of 100 packets were slow to write, with the products in 64 bits.
abbrev pub Severe : AbrWindow → Type 0
Severe w = u64 (w.total_packets * 60) ≤ u64 (w.slow_write_packets * 100)

-- What a window does to the quality, of which 0 is the best, and what it tells of that.
pub record Apart (n k : ℕ) (w : AbrWindow) (before after : AbrController) (decision : AbrDecision)
    : Type 0 where
  pub rises :
      (before.quality ≤ after.quality)
      ⊎ ((before.quality ≡ after.quality + 1) × (24 ≤ n) × (20 ≤ in_a_row k w))
  pub falls :
      (after.quality ≤ before.quality)
      ⊎ ((after.quality ≡ before.quality + 1) × ((5 ≤ n) ⊎ Severe w))
  pub told_quality : decision.quality ≡ after.quality
  pub told_change : decision.changed ≡ not (after.quality == before.quality)

-- Each window of a list keeps its distance to the last change before it.
unfoldable pub Spaced : ℕ → ℕ → AbrController → List AbrWindow → Type 0
Spaced n k c [] = Unit
Spaced n k c (w ∷ ws) =
    let (after, decision) = abr_update c w in
    Apart n k w c after decision × Spaced (since n w c after) (in_a_row k w) after ws

-- The counters bound the distance, and the row of clean windows, from below.
abbrev Behind : ℕ → ℕ → AbrController → Type 0
Behind n k c = (c.clean_windows + (5 - c.cooldown_windows) ≤ n) × (c.clean_windows ≤ k)

update-Apart :
    (n k : ℕ) (c : AbrController) (w : AbrWindow)
    → InRange c
    → Behind n k c
    → Apart n k w c (abr_update c w).0 (abr_update c w).1
unfolding abr_update abr_evaluate in_a_row
update-Apart n k c w h b = record {
  rises = ground (arith, b.0, b.1, h.clean_in, h.quality_in);
  falls = ground (arith, h.cooling, h.quality_in);
  told_quality = ground arith;
  told_change = ground arith;
}

update-Behind :
    (n k : ℕ) (c : AbrController) (w : AbrWindow)
    → InRange c
    → Behind n k c
    → Behind (since n w c (abr_update c w).0) (in_a_row k w) (abr_update c w).0
unfolding abr_update abr_evaluate since in_a_row
update-Behind n k c w h b = (
  ground (arith, b.0, h.clean_in, h.cooldown_in, h.cooling, h.quality_in),
  ground (arith, b.1, h.clean_in, h.cooldown_in, h.cooling, h.quality_in),
)

from-Spaced :
    (n k : ℕ) (c : AbrController) (ws : List AbrWindow) → InRange c → Behind n k c → Spaced n k c ws
unfolding Spaced
from-Spaced n k c [] h b = tt
from-Spaced n k c (w ∷ ws) h b = (
  update-Apart n k c w h b,
  from-Spaced (since n w c (abr_update c w).0) (in_a_row k w) (abr_update c w).0 ws
      (update-InRange c w h) (update-Behind n k c w h b),
)

-- On any windows, from any initial quality (which counts as 5 windows behind a change), the quality
-- moves by one step at most with each window. It rises only when at least 24 windows with packets
-- have passed since it last changed and the window is at least the 20th in a row with fewer than 3
-- of 100 packets slow (windows without packets aside). It falls only when at least 5 have passed, or
-- when at least 60 of 100 packets of the window were slow; these products are taken in 64 bits. Each
-- decision tells the new quality, and whether it is new.
pub abr_init-Spaced : (quality : ℕ) (ws : List AbrWindow) → Spaced 5 0 (abr_init quality) ws
unfolding abr_init
abr_init-Spaced quality ws =
    from-Spaced 5 0 (abr_init quality) ws (init-InRange quality) (omega arith, omega arith)
