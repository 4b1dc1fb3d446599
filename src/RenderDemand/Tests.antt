-- ===== src/RenderDemand/Tests.antt =====
-- Runs of agent/v1_render_demand_tracker.cpp at concrete samples.
use native_ldac_xm5_windows.Prelude.{◌≡◌, refl, ◌≢◌, ◌⊎◌, true, false, [], ◌∷◌}
use native_ldac_xm5_windows.RenderDemand.{unchanged, reset_tracker, observe_render_demand}
use native_ldac_xm5_windows.RenderDemand.Debounce.{run, demand_debounced}

-- A sample alone is not taken for a start.
glitch_ignored : (run reset_tracker (true ∷ false ∷ true ∷ [])).stable_running ≡ false
unfolding run observe_render_demand
glitch_ignored = refl

demand_debounced_example :
    let t = run reset_tracker (false ∷ true ∷ true ∷ []) in
    let u = (observe_render_demand t false).0 in
    let (v, d) = observe_render_demand u false in
    ((false ≢ false) ⊎ (v.stable_running ≡ false))
    × ((d ≡ unchanged)
        ⊎ ((false ≡ false) × (v.stable_running ≡ false) × (u.stable_running ≢ false)))
demand_debounced_example = demand_debounced (false ∷ true ∷ true ∷ []) false false
