-- ===== src/Engine/Abr/Range.antt =====
-- The state of engine/src/abr_controller.c stays in range, and a decision says what has changed.
use native_ldac_xm5_windows.Prelude.{
  ltb, ◌==◌, if_rule, ℕ, ◌+◌, ◌≤◌, ◌<◌, ◌≡◌, refl, ◌⊎◌, inl, inr, Bool, true, false, List, [], ◌∷◌,
  arith,
}
use native_ldac_xm5_windows.Engine.Abr.{
  quality_mq, AbrWindow, AbrReason, no_reason, congestion, clean_link, AbrDecision, AbrController,
  abr_warmup_windows, abr_switch_cooldown_windows, abr_upgrade_clean_windows, abr_init,
  abr_evaluate, abr_update, abr_run,
}

-- The quality is one of the enumeration, no counter passes its limit, and a controller that cools
-- down counts no clean windows.
pub record InRange (c : AbrController) : Type 0 where
  pub quality_in : c.quality ≤ quality_mq
  pub warmup_in : c.warmup_windows ≤ abr_warmup_windows
  pub clean_in : c.clean_windows < abr_upgrade_clean_windows
  pub cooldown_in : c.cooldown_windows ≤ abr_switch_cooldown_windows
  pub cooling : (c.cooldown_windows ≡ 0) ⊎ (c.clean_windows ≡ 0)

pub init-InRange : (quality : ℕ) → InRange (abr_init quality)
unfolding abr_init
init-InRange quality = record {
  quality_in = ground arith;
  warmup_in = omega arith;
  clean_in = omega arith;
  cooldown_in = omega arith;
  cooling = inl refl;
}

evaluate-InRange : (c : AbrController) (w : AbrWindow) → InRange c → InRange (abr_evaluate c w).0
unfolding abr_evaluate
evaluate-InRange c w h = record {
  quality_in = ground (arith, h.quality_in);
  warmup_in = ground (arith, h.warmup_in);
  clean_in = ground (arith, h.clean_in);
  cooldown_in = ground (arith, h.cooldown_in);
  cooling = ground (arith, h.cooling);
}

pub update-InRange : (c : AbrController) (w : AbrWindow) → InRange c → InRange (abr_update c w).0
unfolding abr_update
update-InRange c w h =
    if_rule (λ (x : AbrController × AbrDecision). InRange x.0) (w.total_packets == 0) _ _ (λ e. h)
      (λ e.
        if_rule (λ (x : AbrController × AbrDecision). InRange x.0) (ltb 0 c.warmup_windows) _ _
          (λ e1. record {
            quality_in = h.quality_in;
            warmup_in = omega (arith, h.warmup_in);
            clean_in = omega arith;
            cooldown_in = h.cooldown_in;
            cooling = inr refl;
          })
          (λ e1. evaluate-InRange c w h))

-- Whatever windows a controller has seen, its quality is one of the enumeration and its counters
-- are within their limits.
run-InRange : (c : AbrController) (ws : List AbrWindow) → InRange c → InRange (abr_run c ws)
unfolding abr_run
run-InRange c [] h = h
run-InRange c (w ∷ ws) h = run-InRange (abr_update c w).0 ws (update-InRange c w h)

-- What a decision tells of the quality before and after it.
abbrev pub Told : ℕ → ℕ → AbrReason → Bool → Type 0
Told before after no_reason changed = (after ≡ before) × (changed ≡ false)
Told before after congestion changed = (after ≡ before + 1) × (changed ≡ true)
Told before after clean_link changed = (after + 1 ≡ before) × (changed ≡ true)

-- A decision names the quality that the controller has then; the quality is lowered by one step for
-- congestion, raised by one step for a clean link, and the same otherwise.
update-Told :
    (c : AbrController) (w : AbrWindow)
    → let (after, decision) = abr_update c w in
      (decision.quality ≡ after.quality)
      × Told c.quality after.quality decision.reason decision.changed
unfolding abr_update abr_evaluate
update-Told c w = (ground arith, ground arith)
