-- ===== src/Transport/Configuration/Closing.antt =====
-- Every session of agent/v1_transport_configuration_session.cpp ends, and closes what it opened.
use native_ldac_xm5_windows.Prelude.{
  if_rule, bit, ◌≤◌, ◌≡◌, refl, false, not, Option, none, some, arith,
}
use native_ldac_xm5_windows.Transport.Backend.{Backend, Counted, uncounted, counting}
use native_ldac_xm5_windows.Transport.Configuration.{
  run_configuration, ConfigurationOptions, ConfigurationResult, options_are_valid,
}
use native_ldac_xm5_windows.Transport.Configuration.Kept.{Keeps}
use native_ldac_xm5_windows.Transport.Configuration.Ends.{Ends, Ended, exchange_phase-Ended}

-- What a session has done when it ends.
pub record Balanced {W : Type 0} (r : ConfigurationResult) (c : Counted W) : Type 0 where
  pub closes_all : c.closed ≡ c.opened
  pub opens_once : c.opened ≤ 1
  pub opened_known : c.opened ≡ bit r.signaling_opened
  pub attempt_known : r.close_attempted ≡ r.signaling_opened
  pub few_requests : r.signaling_exchanges ≤ 133

-- The channel is open, and nothing has closed it.
abbrev Opened : {W : Type 0} → Counted W → Type 0
Opened c = (c.opened ≡ 1) × (c.closed ≡ 0)

-- The channel is closed again.
abbrev Closed : {W : Type 0} → Counted W → Type 0
Closed c = (c.opened ≡ 1) × (c.closed ≡ 1)

module _ {W : Type 0} (b : Backend W) (o : ConfigurationOptions) where
  counting-Keeps : Keeps (counting b) (Opened {W = W})
  counting-Keeps = record {
    by_exchange = λ request capacity timeout w j. j;
    by_media = λ timeout mtu w j. j;
    by_probe = λ w j. j;
  }

  closes : (c : Counted W) → Opened c → Closed ((counting b).close_signaling c).1
  closes c (one, none_yet) = (one, omega arith)

  Ended-Balanced :
      (x : Option (ConfigurationResult × Counted W))
      → Ends x (λ r w.
        Ended (counting b) o (Opened {W = W}) counting-Keeps (Closed {W = W}) closes 133 (r, w))
      → Ends x (Balanced {W = W})
  Ended-Balanced none h = h
  Ended-Balanced (some (r, c)) h = record {
    closes_all = cc (h.world_holds.0, h.world_holds.1);
    opens_once = omega (arith, h.world_holds.0);
    opened_known = ground (arith, h.world_holds.0, h.was_open);
    attempt_known = cc (h.attempted, h.was_open);
    few_requests = h.requests;
  }

-- A session that did not open the channel.
unopened-Balanced :
    {W : Type 0} (r : ConfigurationResult) (c : Counted W)
    → r.signaling_opened ≡ false
    → r.close_attempted ≡ false
    → r.signaling_exchanges ≡ 0
    → c.opened ≡ 0
    → c.closed ≡ 0
    → Balanced r c
unopened-Balanced r c h a q n m = record {
  closes_all = cc;
  opens_once = omega arith;
  opened_known = ground arith;
  attempt_known = cc;
  few_requests = omega arith;
}

-- A session ends whatever the backend answers and whenever it is cancelled, within 133 requests; it
-- has then opened the signalling channel at most once and closed it exactly as often, and its
-- result tells whether it did.
pub run_configuration-Balanced :
    {W : Type 0} (b : Backend W) (o : ConfigurationOptions) (w : W)
    → Ends (run_configuration (counting b) o (uncounted w)) (Balanced {W = W})
unfolding run_configuration
run_configuration-Balanced {W} b o w =
    let c = uncounted w in
    let (probe, c1) = (counting b).cancelled c in
    let ((is_open, error), c2) = (counting b).open_signaling o.open_timeout_ms c1 in
    let P = λ (x : Option (ConfigurationResult × Counted W)). Ends x (Balanced {W = W}) in
    if_rule P (not (options_are_valid o)) _ _ (λ e. unopened-Balanced _ c refl refl refl refl refl)
      (λ e.
        if_rule P probe _ _ (λ e1. unopened-Balanced _ _ refl refl refl refl refl)
          (λ e1.
            if_rule P (not is_open) _ _
              (λ e2. unopened-Balanced _ _ refl refl refl (ground arith) refl)
              (λ e2. Ended-Balanced b o _ (
                exchange_phase-Ended (counting b) o (Opened {W = W}) (counting-Keeps b o)
                  (Closed {W = W}) (closes b o) _ c2 (ground arith, refl) refl refl))))
