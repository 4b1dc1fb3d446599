-- ===== src/Executor/Events.antt =====
-- Every event that agent/v1_avrcp_action_executor.cpp is fed with is counted once.
use native_ldac_xm5_windows.Prelude.{
  ◌==◌, if_rule, u64_max, ℕ, ◌+◌, ◌/◌, ◌%◌, ◌≤◌, ◌<◌, ◌≡◌, refl, ◌≢◌, Bool, true, not, Option, none,
  some, arith,
}
use native_ldac_xm5_windows.Volume.{remote_notification}
use native_ldac_xm5_windows.Mapper.{avrcp_begin_acl_generation, MapperState, MapperStep}
use native_ldac_xm5_windows.Mapper.Agreement.{
  observes_capability, observes_xm5, observes_key, answer, mapper_call-Inv,
}
use native_ldac_xm5_windows.Mapper.Link.{capability-SameLink, xm5-SameLink, key-SameLink}
use native_ldac_xm5_windows.Executor.{
  observe_event, dispatch_depth, feed_started, feed_ended, dispatch_observed, feed_observation,
  feed_kind, feed_event, feed_line, Sink, ReplayOptions, EventKind, generation_started,
  generation_finished, volume_capability, absolute_volume, pass_through,
  set_absolute_volume_command, ObservedEvent, Feed,
}
use native_ldac_xm5_windows.Executor.Feeding.{
  Linked, Steady, same_link-Linked, begin-Linked, end-Linked, dispatch-Steady, recognized-Steady,
  ignored-Steady, error-Steady, mapper-Steady, set_up-Steady,
}

abbrev LinkedStep : Option MapperStep → Type 0
LinkedStep none = true ≡ true
LinkedStep (some (s, a)) = Linked s

observe-Linked :
    (k : EventKind) (s : MapperState) (e : ObservedEvent)
    → Linked s
    → LinkedStep (observe_event k s e)
unfolding observe_event answer
observe-Linked generation_started s e h = refl
observe-Linked generation_finished s e h = refl
observe-Linked volume_capability s e h =
    same_link-Linked s _
      (mapper_call-Inv s (observes_capability e.generation (not (e.value == 0))) h.agree)
      (capability-SameLink s e.generation (not (e.value == 0))) h
observe-Linked absolute_volume s e h =
    same_link-Linked s _
      (mapper_call-Inv s (observes_xm5 e.generation (e.value % 128) e.volume_event) h.agree)
      (xm5-SameLink s e.generation (e.value % 128) e.volume_event) h
observe-Linked pass_through s e h =
    same_link-Linked s _
      (mapper_call-Inv s (observes_key e.generation (e.value % 128) (not (e.flags / 2 % 2 == 0)))
        h.agree)
      (key-SameLink s e.generation (e.value % 128) (not (e.flags / 2 % 2 == 0))) h
observe-Linked set_absolute_volume_command s e h =
    same_link-Linked s _
      (mapper_call-Inv s (observes_xm5 e.generation (e.value % 128) remote_notification) h.agree)
      (xm5-SameLink s e.generation (e.value % 128) remote_notification) h

module _ {W : Type 0} (sink : Sink W) (options : ReplayOptions) (q m n : ℕ)
    (few : n < 4611686018427387904) (room : q + 2 ≤ u64_max) where
  abbrev Out : Bool × Feed W → Type 0
  Out (ok, f) = Steady (q + 2) m (n + 1) f

  started-Steady :
      (g : ℕ) (f : Feed W) → g ≢ 0 → Steady q m n f → Out (feed_started sink options g f)
  unfolding feed_started
  started-Steady g f k h =
      let (s, a) = avrcp_begin_acl_generation f.mapper g in
      let begun = mapper-Steady sink options q m n few f s h (begin-Linked f.mapper g k h.linked) in
      if_rule Out f.mapper.acl_generation_current _ _ (λ e. error-Steady sink options q m n few f h)
        (λ e.
          if_rule Out (a.acl_generation == 0) _ _
            (λ e1. error-Steady sink options q m n few _ begun)
            (λ e1. set_up-Steady sink options q m n few g _ room begun))

  ended-Steady : (g : ℕ) (f : Feed W) → Steady q m n f → Out (feed_ended sink options g f)
  unfolding feed_ended
  ended-Steady g f h =
      if_rule Out (not f.mapper.acl_generation_current) _ _
        (λ e. error-Steady sink options q m n few f h)
        (λ e. record {
          linked = end-Linked f.mapper g h.linked;
          lines = h.lines;
          events = omega (arith, h.events, few);
          accepted = h.accepted;
          sets_in = omega (arith, h.sets_in);
        })

  observed-Steady :
      (f : Feed W) (x : Option MapperStep)
      → LinkedStep x
      → Steady q m n f
      → Steady (q + 2) m (n + 1) (dispatch_observed sink options x f)
  unfolding dispatch_observed
  observed-Steady f none l h = ignored-Steady sink options q m n few f h
  observed-Steady f (some (s, a)) l h =
      dispatch-Steady sink m (n + 1) q dispatch_depth a _ room
        (recognized-Steady sink options q m n few _ (mapper-Steady sink options q m n few f s h l))

  observation-Steady :
      (e : ObservedEvent) (f : Feed W) → Steady q m n f → Out (feed_observation sink options e f)
  unfolding feed_observation
  observation-Steady e f h =
      if_rule Out (not f.mapper.acl_generation_current) _ _
        (λ e1. ignored-Steady sink options q m n few f h)
        (λ e1.
          if_rule Out (not (e.generation == f.mapper.acl_generation)) _ _
            (λ e2. error-Steady sink options q m n few f h)
            (λ e2.
              observed-Steady f (observe_event e.kind f.mapper e)
                (observe-Linked e.kind f.mapper e h.linked) h))

  kind-Steady :
      (k : EventKind) (e : ObservedEvent) (f : Feed W)
      → e.generation ≢ 0
      → Steady q m n f
      → Out (feed_kind sink options k e f)
  unfolding feed_kind
  kind-Steady generation_started e f d h = started-Steady e.generation f d h
  kind-Steady generation_finished e f d h = ended-Steady e.generation f h
  kind-Steady volume_capability e f d h = observation-Steady e f h
  kind-Steady absolute_volume e f d h = observation-Steady e f h
  kind-Steady pass_through e f d h = observation-Steady e f h
  kind-Steady set_absolute_volume_command e f d h = observation-Steady e f h

  pub event-Steady :
      (e : ObservedEvent) (f : Feed W)
      → Steady q m n f
      → Steady (q + 2) m (n + 1) (feed_event sink options e f).1
  unfolding feed_event
  event-Steady e f h =
      if_rule Out (e.generation == 0) _ _ (λ e1. error-Steady sink options q m n few f h)
        (λ e1. kind-Steady e.kind e f (ground (arith, e1)) h)

  pub line-Steady :
      (x : Option ObservedEvent) (f : Feed W)
      → Steady q m n f
      → Steady (q + 2) m (n + 1) (feed_line sink options x f).1
  unfolding feed_line
  line-Steady none f h = ignored-Steady sink options q m n few f h
  line-Steady (some e) f h = event-Steady e f h
