-- ===== src/Executor/Authorized.antt =====
-- What reaches the sink of agent/v1_avrcp_action_executor.cpp.
use native_ldac_xm5_windows.Prelude.{
  u64, ◌==◌, if_rule, ℕ, zero, suc, ◌+◌, ◌≡◌, refl, Bool, true, not, ◌||◌, Option, none, some, List,
  [], ◌∷◌, arith,
}
use native_ldac_xm5_windows.Volume.{WindowsVolume}
use native_ldac_xm5_windows.Mapper.{avrcp_begin_acl_generation, ActionSet, MapperStep}
use native_ldac_xm5_windows.Executor.{
  count_error, count_ignored, count_recognized, count_line, observe_event, feed_back,
  dispatch_authorized_actions, dispatch_depth, set_up_session, feed_started, feed_ended,
  dispatch_observed, feed_observation, feed_kind, feed_event, feed_line, feed_lines, close_replay,
  run_replay, Sink, ReplayOptions, EventKind, generation_started, generation_finished,
  volume_capability, absolute_volume, pass_through, set_absolute_volume_command, ObservedEvent,
  event_of, Feed, fresh_feed, has_any_action,
}

-- A property of the world that a sink keeps where it is asked to act by right.
record Keeps {W : Type 0} (sink : Sink W) (P : W → Type 0) : Type 0 where
  pub acts :
      (a : ActionSet) (w : W)
      → has_any_action a ≡ true
      → a.authorized_current ≡ true
      → P w
      → P (sink.handle a w).1
  pub asks : (w : W) → P w → P (sink.query_windows_volume w).1

module _ {W : Type 0} (sink : Sink W) (P : W → Type 0) (keeps : Keeps sink P) where
  abbrev On : Feed W → Type 0
  On f = P f.world

  back-kept : (f : Feed W) (x : Option WindowsVolume) (w : W) → P w → On (feed_back sink f x w).1
  unfolding feed_back
  back-kept f none w h = h
  back-kept f (some v) w h = h

  deeper-kept :
      (fuel : ℕ) (x : Option ActionSet × Feed W)
      → ((b : ActionSet) (g : Feed W) → On g → On (dispatch_authorized_actions sink fuel b g))
      → On x.1
      → On (elim x.0 [ none ↦ x.1 | some b ↦ dispatch_authorized_actions sink fuel b x.1 ])
  deeper-kept fuel (none, g) k h = h
  deeper-kept fuel (some b, g) k h = k b g h

  dispatch-kept :
      (fuel : ℕ) (a : ActionSet) (f : Feed W)
      → On f
      → On (dispatch_authorized_actions sink fuel a f)
  unfolding dispatch_authorized_actions
  dispatch-kept zero a f h = h
  dispatch-kept (suc fuel) a f h =
      let s = f.stats in
      let offered = record s { action_sets = u64 (s.action_sets + 1) } in
      let (taken, w) = sink.handle a f.world in
      let accepted = record f {
        stats = record offered { sink_accepted = u64 (s.sink_accepted + 1) };
        world = w;
      } in
      let (readback, v) = sink.query_windows_volume w in
      if_rule On (not (has_any_action a) || not a.authorized_current) _ _ (λ e. h)
        (λ e.
          let acted : P w = keeps.acts a f.world (ground (arith, e)) (ground (arith, e)) h in
          if_rule On (not taken) _ _ (λ e1. acted)
            (λ e1.
              if_rule On a.set_windows_volume _ _
                (λ e2.
                  deeper-kept fuel (feed_back sink accepted readback v) (dispatch-kept fuel)
                    (back-kept accepted readback v (keeps.asks w acted)))
                (λ e2. acted)))

  module _ (options : ReplayOptions) where
    abbrev OnOut : Bool × Feed W → Type 0
    OnOut (ok, f) = P f.world

    set_up-kept : (g : ℕ) (f : Feed W) → On f → On (set_up_session sink options g f)
    unfolding set_up_session count_recognized
    set_up-kept g f h = dispatch-kept dispatch_depth _ _ h

    observed-kept :
        (x : Option MapperStep) (f : Feed W) → On f → On (dispatch_observed sink options x f)
    unfolding dispatch_observed count_ignored count_recognized
    observed-kept none f h = h
    observed-kept (some (m, a)) f h = dispatch-kept dispatch_depth a _ h

    started-kept : (g : ℕ) (f : Feed W) → On f → OnOut (feed_started sink options g f)
    unfolding feed_started count_error
    started-kept g f h =
        let (m, a) = avrcp_begin_acl_generation f.mapper g in
        if_rule OnOut f.mapper.acl_generation_current _ _ (λ e. h)
          (λ e.
            if_rule OnOut (a.acl_generation == 0) _ _ (λ e1. h)
              (λ e1. set_up-kept g (record f { mapper = m }) h))

    ended-kept : (g : ℕ) (f : Feed W) → On f → OnOut (feed_ended sink options g f)
    unfolding feed_ended count_error
    ended-kept g f h = if_rule OnOut (not f.mapper.acl_generation_current) _ _ (λ e. h) (λ e. h)

    observation-kept :
        (e : ObservedEvent) (f : Feed W) → On f → OnOut (feed_observation sink options e f)
    unfolding feed_observation count_ignored count_error
    observation-kept e f h =
        if_rule OnOut (not f.mapper.acl_generation_current) _ _ (λ e1. h)
          (λ e1.
            if_rule OnOut (not (e.generation == f.mapper.acl_generation)) _ _ (λ e2. h)
              (λ e2. observed-kept (observe_event e.kind f.mapper e) f h))

    kind-kept :
        (k : EventKind) (e : ObservedEvent) (f : Feed W)
        → On f
        → OnOut (feed_kind sink options k e f)
    unfolding feed_kind
    kind-kept generation_started e f h = started-kept e.generation f h
    kind-kept generation_finished e f h = ended-kept e.generation f h
    kind-kept volume_capability e f h = observation-kept e f h
    kind-kept absolute_volume e f h = observation-kept e f h
    kind-kept pass_through e f h = observation-kept e f h
    kind-kept set_absolute_volume_command e f h = observation-kept e f h

    event-kept : (e : ObservedEvent) (f : Feed W) → On f → OnOut (feed_event sink options e f)
    unfolding feed_event count_error
    event-kept e f h =
        if_rule OnOut (e.generation == 0) _ _ (λ e1. h) (λ e1. kind-kept e.kind e f h)

    lines-kept :
        (lines : List (Option ObservedEvent)) (f : Feed W)
        → On f
        → OnOut (feed_lines sink options lines f)
    unfolding feed_lines feed_line count_ignored count_line
    lines-kept [] f h = h
    lines-kept (none ∷ lines) f h = lines-kept lines _ h
    lines-kept (some e ∷ lines) f h =
        let (ok, g) = feed_event sink options e (count_line f) in
        let next : P g.world = event-kept e (count_line f) h in
        if_rule OnOut ok _ _ (λ e1. lines-kept lines g next) (λ e1. next)

    close-kept : (r : Bool × Feed W) → OnOut r → OnOut (close_replay sink options r)
    unfolding close_replay
    close-kept (ok, f) h =
        if_rule OnOut (not ok) _ _ (λ e. h)
          (λ e.
            if_rule OnOut f.mapper.acl_generation_current _ _
              (λ e1. event-kept (event_of generation_finished f.mapper.acl_generation) f h)
              (λ e1. h))

-- The sink, with a record of what it was asked for.
abbrev pub Asked : Type 0 → Type 0
Asked W = List ActionSet × W

abbrev pub watching : {W : Type 0} → Sink W → Sink (Asked W)
watching sink = record {
  handle = λ a (asked, w). let (taken, v) = sink.handle a w in (taken, (a ∷ asked, v));
  query_windows_volume =
      λ (asked, w). let (volume, v) = sink.query_windows_volume w in (volume, (asked, v));
}

-- Every request in the list does something, and its lease is current.
abbrev pub AllAuthorized : List ActionSet → Type 0
AllAuthorized [] = true ≡ true
AllAuthorized (a ∷ asked) =
    (has_any_action a ≡ true) × (a.authorized_current ≡ true) × AllAuthorized asked

watching-Keeps : {W : Type 0} (sink : Sink W) → Keeps (watching sink) (λ x. AllAuthorized x.0)
watching-Keeps sink = record { acts = λ a (asked, w) h k p. (h, k, p); asks = λ (asked, w) p. p }

-- Whatever the log says, and whatever the sink answers, a replay asks the sink only for sets of
-- actions that are not empty and that the mapper marks as authorized.
pub run_replay-AllAuthorized :
    {W : Type 0} (sink : Sink W) (options : ReplayOptions) (lines : List (Option ObservedEvent))
    (w : W)
    → AllAuthorized (run_replay (watching sink) options lines ([], w)).1.world.0
unfolding run_replay
run_replay-AllAuthorized sink options lines w =
    close-kept (watching sink) (λ x. AllAuthorized x.0) (watching-Keeps sink) options _
      (lines-kept (watching sink) (λ x. AllAuthorized x.0) (watching-Keeps sink) options lines
        (fresh_feed ([], w)) refl)
