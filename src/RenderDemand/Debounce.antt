-- ===== src/RenderDemand/Debounce.antt =====
-- What the tracker of agent/v1_render_demand_tracker.cpp filters out of its samples.
use native_ldac_xm5_windows.Prelude.{
  bit, ℕ, ◌+◌, ◌≤◌, ◌≡◌, refl, ◌≢◌, ◌⊎◌, inl, inr, Bool, true, false, List, [], ◌∷◌, arith,
}
use native_ldac_xm5_windows.RenderDemand.{
  DemandTransition, unchanged, started, stopped, DemandTracker, reset_tracker,
  observe_render_demand,
}

-- Between two samples at most one sample of a change is counted, and it differs from the demand
-- that stands.
pub record Inv (t : DemandTracker) : Type 0 where
  pub one_sample : t.candidate_samples ≤ 1
  pub differs : t.candidate_samples ≡ 1 → t.candidate_running ≢ t.stable_running

pub observe-Inv : (t : DemandTracker) (b : Bool) → Inv t → Inv (observe_render_demand t b).0
unfolding observe_render_demand
observe-Inv t b h = ground arith

-- The demand after the samples of a list, and how many starts and stops they make.
unfoldable pub run : DemandTracker → List Bool → DemandTracker
run t [] = t
run t (b ∷ bs) = run (observe_render_demand t b).0 bs

abbrev is_started : DemandTransition → ℕ
is_started started = 1
is_started stopped = 0
is_started unchanged = 0

abbrev is_stopped : DemandTransition → ℕ
is_stopped started = 0
is_stopped stopped = 1
is_stopped unchanged = 0

pub starts : DemandTracker → List Bool → ℕ
starts t [] = 0
starts t (b ∷ bs) = let (u, d) = observe_render_demand t b in is_started d + starts u bs

pub stops : DemandTracker → List Bool → ℕ
stops t [] = 0
stops t (b ∷ bs) = let (u, d) = observe_render_demand t b in is_stopped d + stops u bs

run-Inv : (t : DemandTracker) (bs : List Bool) → Inv t → Inv (run t bs)
unfolding run
run-Inv t [] h = h
run-Inv t (b ∷ bs) h = run-Inv (observe_render_demand t b).0 bs (observe-Inv t b h)

step_balance :
    (t : DemandTracker) (b : Bool)
    → let (u, d) = observe_render_demand t b in
      bit t.stable_running + is_started d ≡ bit u.stable_running + is_stopped d
unfolding observe_render_demand
step_balance t b = ground arith

-- The starts and the stops that any samples make alternate: they balance up to the demand that
-- stands before and after them.
demand_balanced :
    (t : DemandTracker) (bs : List Bool)
    → bit t.stable_running + starts t bs ≡ bit (run t bs).stable_running + stops t bs
unfolding run starts stops
demand_balanced t [] = refl
demand_balanced t (b ∷ bs) =
    omega (arith, step_balance t b, demand_balanced (observe_render_demand t b).0 bs)

two_settle :
    (t : DemandTracker) (b : Bool)
    → Inv t
    → (observe_render_demand (observe_render_demand t b).0 b).0.stable_running ≡ b
unfolding observe_render_demand
two_settle t b h = ground arith

agreement :
    (b c : Bool) (t : DemandTracker)
    → Inv t
    → (b ≢ c) ⊎ ((observe_render_demand (observe_render_demand t b).0 c).0.stable_running ≡ c)
agreement true true t h = inr (two_settle t true h)
agreement false false t h = inr (two_settle t false h)
agreement true false t h = inl (ground arith)
agreement false true t h = inl (ground arith)

reset-Inv : Inv reset_tracker
reset-Inv = ground arith

change_needs_two :
    (t : DemandTracker) (b c : Bool)
    → Inv t
    → let u = (observe_render_demand t b).0 in
      let (v, d) = observe_render_demand u c in
      (d ≡ unchanged) ⊎ ((b ≡ c) × (v.stable_running ≡ c) × (u.stable_running ≢ c))
unfolding observe_render_demand
change_needs_two t b c h = ground arith

-- After any history, two equal samples in a row settle the demand at what they say, and a sample
-- makes a start or a stop only if the sample before it said the same and the demand did not.
pub demand_debounced :
    (history : List Bool) (b c : Bool)
    → let t = run reset_tracker history in
      let u = (observe_render_demand t b).0 in
      let (v, d) = observe_render_demand u c in
      ((b ≢ c) ⊎ (v.stable_running ≡ c))
      × ((d ≡ unchanged) ⊎ ((b ≡ c) × (v.stable_running ≡ c) × (u.stable_running ≢ c)))
demand_debounced history b c =
    let t = run reset_tracker history in
    let kept = run-Inv reset_tracker history reset-Inv in
    (agreement b c t kept, change_needs_two t b c kept)
