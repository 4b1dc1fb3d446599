-- ===== src/Transport/Discovery/Balance.antt =====
-- Every discovery of agent/v1_transport_session.cpp closes what it opened, and what it reports holds.
use native_ldac_xm5_windows.Prelude.{bit, ◌≤◌, ◌≡◌, ◌≢◌, ◌⊎◌, true}
use native_ldac_xm5_windows.Transport.Backend.{Backend, Counted}
use native_ldac_xm5_windows.Transport.Discovery.{succeeded, DiscoveryOptions, DiscoveryResult}
use native_ldac_xm5_windows.Transport.Discovery.Exchanges.{Found}

-- What a discovery has done when it ends.
pub record Done {W : Type 0} (o : DiscoveryOptions) (r : DiscoveryResult) (c : Counted W)
    : Type 0 where
  pub closes_all : c.closed ≡ c.opened
  pub opened_known : c.opened ≡ bit r.signaling_opened
  pub attempt_known : r.close_attempted ≡ r.signaling_opened
  pub few_requests : r.signaling_exchanges ≤ 127
  pub few_candidates : r.sink_candidates ≤ 63
  pub success_holds : (r.disposition ≢ succeeded) ⊎ (Found o r × (r.close_succeeded ≡ true))

abbrev pub DoneOut : {W : Type 0} → DiscoveryOptions → DiscoveryResult × Counted W → Type 0
DoneOut o (r, c) = Done o r c
