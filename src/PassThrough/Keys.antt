-- ===== src/PassThrough/Keys.antt =====
-- Runs of key events through agent/avrcp_passthrough_state.cpp: a key that is held acts once, and
-- one that is pressed and released acts each time.
use native_ldac_xm5_windows.Prelude.{
  if◌then◌else◌, ℕ, zero, suc, ◌+◌, ◌≡◌, refl, ◌≢◌, inl, true, false, List, [], ◌∷◌, arith,
}
use native_ldac_xm5_windows.PassThrough.{
  Operation, unknown, pressed, released, PassThroughEvent, has_any, PassThroughDecision,
  PassThroughState, is_current_generation, observe_release, observe_press, counted,
  observe_pass_through_event,
}
use native_ldac_xm5_windows.PassThrough.Invariant.{Frame, observe-Frame, Acts, press-Acts}

abbrev pub acted : PassThroughDecision → ℕ
acted d = if has_any d.actions then 1 else 0

-- How many events of a run become actions.
pub count_acted : PassThroughState → ℕ → List PassThroughEvent → ℕ
count_acted s g [] = 0
count_acted s g (e ∷ es) =
    let (t, d) = observe_pass_through_event s g e in acted d + count_acted t g es

abbrev pub replicate : ℕ → PassThroughEvent → List PassThroughEvent
replicate zero e = []
replicate (suc n) e = e ∷ replicate n e

-- A key that is already held: another press of it does nothing, and leaves it held.
duplicate_press :
    (s : PassThroughState) (o : Operation)
    → s.held_operation_valid ≡ true
    → s.held_operation ≡ o
    → ((observe_press s o).0 ≡ s) × (acted (observe_press s o).1 ≡ 0)
unfolding observe_press
duplicate_press s o v h = ground arith

held_press :
    (s : PassThroughState) (g : ℕ) (e : PassThroughEvent)
    → s.held_operation_valid ≡ true
    → s.held_operation ≡ e.operation
    → e.key_state ≡ pressed
    → ((observe_pass_through_event s g e).0.held_operation_valid ≡ true)
      × ((observe_pass_through_event s g e).0.held_operation ≡ e.operation)
      × (acted (observe_pass_through_event s g e).1 ≡ 0)
unfolding observe_pass_through_event
held_press s g e v h p = ground (arith, duplicate_press (counted s) e.operation v h)

held_presses :
    (n : ℕ) (s : PassThroughState) (g : ℕ) (e : PassThroughEvent)
    → s.held_operation_valid ≡ true
    → s.held_operation ≡ e.operation
    → e.key_state ≡ pressed
    → count_acted s g (replicate n e) ≡ 0
unfolding count_acted
held_presses zero s g e v h p = refl
held_presses (suc n) s g e v h p =
    let (still, same, none_acted) = held_press s g e v h p in
    omega (arith, none_acted, held_presses n (observe_pass_through_event s g e).0 g e still same p)

-- A key that the headset reports as pressed once or more in a row, with no other event between, acts
-- exactly once, if the gate acts on its first press: the link is current, the gate routes keys for
-- an owner, the key is one that it knows, and it is not held already.
pub hold_triggers_once :
    (n : ℕ) (s : PassThroughState) (g : ℕ) (e : PassThroughEvent)
    → Acts s g e
    → count_acted s g (replicate (suc n) e) ≡ 1
unfolding count_acted
hold_triggers_once n s g e a =
    let p = press-Acts s g e a in
    ground (arith, p, held_presses n (observe_pass_through_event s g e).0 g e p.2 p.3 a.press)

abbrev pub release_of : PassThroughEvent → PassThroughEvent
release_of e = record e { key_state = released }

abbrev pub cycles : ℕ → PassThroughEvent → List PassThroughEvent
cycles zero e = []
cycles (suc n) e = e ∷ release_of e ∷ cycles n e

-- The release of the held key frees it and does nothing else.
release_frees :
    (s : PassThroughState) (o : Operation)
    → s.held_operation_valid ≡ true
    → s.held_operation ≡ o
    → ((observe_release s o).0.held_operation_valid ≡ false) × (acted (observe_release s o).1 ≡ 0)
unfolding observe_release
release_frees s o v h = ground arith

held_release :
    (s : PassThroughState) (g : ℕ) (e : PassThroughEvent)
    → is_current_generation s g ≡ true
    → e.operation ≢ unknown
    → s.held_operation_valid ≡ true
    → s.held_operation ≡ e.operation
    → let u = observe_pass_through_event s g (release_of e) in
      (u.0.held_operation_valid ≡ false) × (acted u.1 ≡ 0)
unfolding observe_pass_through_event
held_release s g e c k v h = ground (arith, release_frees (counted s) e.operation v h)

-- The two events of a press and its release leave the link, the mode and the owner alone.
Frame-is_current :
    (s t : PassThroughState) (g : ℕ)
    → Frame s t
    → is_current_generation s g ≡ true
    → is_current_generation t g ≡ true
unfolding is_current_generation
Frame-is_current s t g f c = ground (arith, f)

-- A press and its release leave the gate ready for the same press.
cycle-Acts :
    (s : PassThroughState) (g : ℕ) (e : PassThroughEvent)
    → Acts s g e
    → let t = (observe_pass_through_event s g e).0 in
      let u = observe_pass_through_event t g (release_of e) in (acted u.1 ≡ 0) × Acts u.0 g e
cycle-Acts s g e a =
    let t = (observe_pass_through_event s g e).0 in
    let u = (observe_pass_through_event t g (release_of e)).0 in
    let press = press-Acts s g e a in
    let pressed_frame = observe-Frame s g e in
    let released_frame = observe-Frame t g (release_of e) in
    let current = Frame-is_current s t g pressed_frame a.current in
    let (free, quiet) = held_release t g e current a.known press.2 press.3 in
    (
      quiet,
      record {
        current = Frame-is_current t u g released_frame current;
        routed = cc;
        owned = ground (arith, pressed_frame, released_frame, a.owned);
        known = a.known;
        press = a.press;
        fresh = inl free;
      },
    )

-- A key that is pressed and released any number of times acts as often as it is pressed.
cycles_act_each :
    (n : ℕ) (s : PassThroughState) (g : ℕ) (e : PassThroughEvent)
    → Acts s g e
    → count_acted s g (cycles n e) ≡ n
unfolding count_acted
cycles_act_each zero s g e a = refl
cycles_act_each (suc n) s g e a =
    let (quiet, again) = cycle-Acts s g e a in
    let p = press-Acts s g e a in
    ground (
      arith,
      p,
      quiet,
      cycles_act_each n
          (observe_pass_through_event (observe_pass_through_event s g e).0 g (release_of e)).0 g e
          again,
    )
