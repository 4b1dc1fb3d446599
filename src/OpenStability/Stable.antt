-- ===== src/OpenStability/Stable.antt =====
-- What a gate of agent/v1_transport_open_stability.cpp that answers Ready tells of its history.
use native_ldac_xm5_windows.Prelude.{
  ltb, if◌then◌else◌, ℕ, ◌+◌, ◌≤◌, ◌≡◌, ◌≢◌, ◌⊎◌, Bool, true, false, List, [], ◌∷◌, arith,
}
use native_ldac_xm5_windows.OpenStability.{
  Observation, nothing, ready, StabilityGate, cancel_open_stability, arm_open_stability,
  observe_open_stability,
}

-- The arguments of one observation.
pub record Sample : Type 0 where
  pub generation : ℕ
  pub render_running : Bool
  pub epoch : ℕ
  pub now : ℕ

unfoldable pub observe : StabilityGate → Sample → StabilityGate × Observation
observe g x = observe_open_stability g x.generation x.render_running x.epoch x.now

unfoldable pub run : StabilityGate → List Sample → StabilityGate
run g [] = g
run g (x ∷ xs) = run (observe g x).0 xs

-- The clock does not go back: each sample of a list, and then a last one, is at the time of the one
-- before or later.
abbrev pub InOrder : ℕ → List Sample → Sample → Type 0
InOrder t [] last = t ≤ last.now
InOrder t (x ∷ xs) last = (t ≤ x.now) × InOrder x.now xs last

-- The sample was running in the epoch that is being timed, or lies before the timing began.
record Covers (x : Sample) (g : StabilityGate) : Type 0 where
  covered :
      (g.pending ≡ false)
      ⊎ (g.observing_running ≡ false)
      ⊎ (x.now ≤ g.running_since_ms)
      ⊎ ((x.render_running ≡ true) × (x.epoch ≡ g.render_epoch))

observe-Covers_self : (g : StabilityGate) (x : Sample) → Covers x (observe g x).0
unfolding observe observe_open_stability cancel_open_stability
observe-Covers_self g x = ground arith

observe-Covers :
    (x : Sample) (g : StabilityGate) (y : Sample)
    → x.now ≤ y.now
    → Covers x g
    → Covers x (observe g y).0
unfolding observe observe_open_stability cancel_open_stability
observe-Covers x g y h c = ground arith

required-observe : (g : StabilityGate) (x : Sample) → (observe g x).0.required_ms ≡ g.required_ms
unfolding observe observe_open_stability cancel_open_stability
required-observe g x = ground arith

ready-Covers :
    (x : Sample) (g : StabilityGate) (last : Sample)
    → Covers x g
    → (observe g last).1 ≡ ready
    → ((x.render_running ≡ true) × (x.epoch ≡ last.epoch)) ⊎ (x.now + g.required_ms ≤ last.now)
unfolding observe observe_open_stability
ready-Covers x g last c h = ground arith

run-Covers :
    (x : Sample) (g : StabilityGate) (t : ℕ) (xs : List Sample) (last : Sample)
    → x.now ≤ t
    → InOrder t xs last
    → Covers x g
    → (observe (run g xs) last).1 ≡ ready
    → ((x.render_running ≡ true) × (x.epoch ≡ last.epoch)) ⊎ (x.now + g.required_ms ≤ last.now)
unfolding run
run-Covers x g t [] last h o c r = ready-Covers x g last c r
run-Covers x g t (y ∷ ys) last h o c r = rw (← required-observe g y) (
    run-Covers x (observe g y).0 y.now ys last (omega arith) o.1
      (observe-Covers x g y (omega arith) c) r)

-- If a gate answers Ready, then each sample that it saw before was running in the same render epoch
-- or lies at least the required time back, where the clock does not go back.
pub ready_means_stable :
    (g : StabilityGate) (x : Sample) (xs : List Sample) (last : Sample)
    → InOrder x.now xs last
    → (observe (run g (x ∷ xs)) last).1 ≡ ready
    → ((x.render_running ≡ true) × (x.epoch ≡ last.epoch)) ⊎ (x.now + g.required_ms ≤ last.now)
unfolding run
ready_means_stable g x xs last o r =
    rw (← required-observe g x)
      (run-Covers x (observe g x).0 x.now xs last (omega arith) o (observe-Covers_self g x) r)

-- A gate that is armed while rendering runs, and then sees it run on in the same epoch, answers
-- Ready at the first sample at which the required time has passed, and not before.
armed_ready_exactly :
    (required generation epoch start now : ℕ)
    → start ≤ now
    → (observe_open_stability
        (arm_open_stability required generation true epoch start)
        generation
        true
        epoch
        now).1
      ≡ (if ltb now (start + required) then nothing else ready)
unfolding arm_open_stability observe_open_stability
armed_ready_exactly required generation epoch start now h = ground arith

-- Another link cancels a pending gate, and a gate that is cancelled or has answered Ready answers
-- nothing more.
cancel_and_ready_final :
    (g : StabilityGate) (x y : Sample)
    → g.pending ≡ true
    → (x.generation ≢ g.acl_generation) ⊎ ((observe g x).1 ≡ ready)
    → ((observe g x).0.pending ≡ false)
      × ((observe (observe g x).0 y).1 ≡ nothing)
      × ((observe (observe g x).0 y).0 ≡ (observe g x).0)
unfolding observe observe_open_stability cancel_open_stability
cancel_and_ready_final g x y p h = ground arith
