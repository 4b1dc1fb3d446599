-- ===== src/Executor/Replay.antt =====
-- What a replay of agent/v1_avrcp_action_executor.cpp has done when it ends.
use native_ldac_xm5_windows.Prelude.{
  ◌==◌, if_rule, length, ℕ, ◌+◌, ◌≤◌, ◌<◌, ◌≡◌, refl, ◌∙◌, ◌⊎◌, inl, inr, Bool, true, false, not,
  Option, List, [], ◌∷◌, arith,
}
use native_ldac_xm5_windows.Mapper.{initial_mapper}
use native_ldac_xm5_windows.Mapper.Link.{named_ends}
use native_ldac_xm5_windows.Executor.{
  count_line, feed_ended, feed_kind, feed_event, feed_line, feed_lines, close_replay,
  run_filter_replay, Sink, ReplayOptions, generation_started, generation_finished, ObservedEvent,
  event_of, Feed, fresh_feed,
}
use native_ldac_xm5_windows.Executor.Feeding.{Linked, Steady, error-Steady}
use native_ldac_xm5_windows.Executor.Events.{event-Steady, line-Steady}

abbrev twice : ℕ → ℕ
twice n = n + n

abbrev pub events : {W : Type 0} → Feed W → ℕ
events f = f.stats.recognized_events + f.stats.ignored_lines + f.stats.errors

-- What a replay of `n` lines has done, with `x` events that stand in no line before the first one.
pub record Accounted {W : Type 0} (x n : ℕ) (ok : Bool) (f : Feed W) : Type 0 where
  pub linked : Linked f.mapper
  pub counted : (events f ≡ f.stats.lines + x) ⊎ (events f ≡ f.stats.lines + x + 1)
  pub accepted : f.stats.sink_accepted ≤ f.stats.action_sets
  pub whole : (ok ≡ false) ⊎ ((f.stats.lines ≡ n) × (f.mapper.acl_generation_current ≡ false))

abbrev pub AccountedOut : {W : Type 0} → ℕ → ℕ → Bool × Feed W → Type 0
AccountedOut x n (ok, f) = Accounted x n ok f

-- The lines before the end. Two sets of actions are offered for an event at most.
record Level {W : Type 0} (x n : ℕ) (ok : Bool) (f : Feed W) : Type 0 where
  pub steady : Steady (twice (f.stats.lines + x)) f.stats.lines (f.stats.lines + x) f
  pub read : (ok ≡ false) ⊎ (f.stats.lines ≡ n)
  pub few : f.stats.lines + x < 4611686018427387904

abbrev LevelOut : {W : Type 0} → ℕ → ℕ → Bool × Feed W → Type 0
LevelOut x n (ok, f) = Level x n ok f

level_of :
    {W : Type 0} (k x : ℕ) (f : Feed W)
    → Steady (twice (k + x)) k (k + x) f
    → Steady (twice (f.stats.lines + x)) f.stats.lines (f.stats.lines + x) f
level_of k x f h = record {
  linked = h.linked;
  lines = refl;
  events = omega (arith, h.lines, h.events);
  accepted = h.accepted;
  sets_in = omega (arith, h.lines, h.sets_in);
}

initial-Linked : Linked initial_mapper
initial-Linked = record {
  agree = record {
    pass_generation = refl;
    volume_generation = refl;
    pass_current = refl;
    volume_current = refl;
    same_lease = refl;
    own_lease = inl refl;
    routing = inl refl;
    syncing = inl refl;
  };
  named = inl refl;
}

fresh-Steady : {W : Type 0} (w : W) → Steady 0 0 0 (fresh_feed w)
fresh-Steady w = record {
  linked = initial-Linked;
  lines = refl;
  events = refl;
  accepted = omega arith;
  sets_in = omega arith;
}

module _ {W : Type 0} (sink : Sink W) (options : ReplayOptions) where
  count-Steady :
      (q k n : ℕ) (f : Feed W)
      → k < 4611686018427387904
      → Steady q k n f
      → Steady q (k + 1) n (count_line f)
  unfolding count_line
  count-Steady q k n f few h = record {
    linked = h.linked;
    lines = omega (arith, h.lines, few);
    events = h.events;
    accepted = h.accepted;
    sets_in = h.sets_in;
  }

  step :
      (k x : ℕ) (f : Feed W)
      → Steady (twice (k + x) + 2) (k + 1) (k + x + 1) f
      → Steady (twice (k + 1 + x)) (k + 1) (k + 1 + x) f
  step k x f h = record {
    linked = h.linked;
    lines = h.lines;
    events = omega (arith, h.events);
    accepted = h.accepted;
    sets_in = omega (arith, h.sets_in);
  }

  recount :
      (x n p : ℕ) (r : Bool × Feed W) → n ≡ p → LevelOut {W = W} x n r → LevelOut {W = W} x p r
  recount x n p r q h = record {
    steady = h.steady;
    read = elim h.read [ inl e ↦ inl e | inr e ↦ inr (e ∙ q) ];
    few = h.few;
  }

  lines-Level :
      (x k : ℕ) (lines : List (Option ObservedEvent)) (f : Feed W)
      → k + x + length lines < 4611686018427387904
      → Steady (twice (k + x)) k (k + x) f
      → LevelOut {W = W} x (k + length lines) (feed_lines sink options lines f)
  unfolding feed_lines
  lines-Level x k [] f c h = record {
    steady = level_of k x f h;
    read = inr (omega (arith, h.lines));
    few = omega (arith, h.lines, c);
  }
  lines-Level x k (line ∷ lines) f c h =
      let (ok, g) = feed_line sink options line (count_line f) in
      let q = twice (k + x) in
      let s : Steady (twice (k + 1 + x)) (k + 1) (k + 1 + x) g = step k x g (
        line-Steady sink options q (k + 1) (k + x) (omega (arith, c)) (omega (arith, c)) line _
          (count-Steady q k (k + x) f (omega (arith, c)) h)) in
      if_rule (LevelOut {W = W} x (k + length (line ∷ lines))) ok _ _
        (λ e.
          recount x (k + 1 + length lines) (k + length (line ∷ lines)) _ (omega arith)
            (lines-Level x (k + 1) lines g (omega (arith, c)) s))
        (λ e. record {
          steady = level_of (k + 1) x g s;
          read = inl refl;
          few = omega (arith, s.lines, c);
        })

  close_ends :
      (f : Feed W)
      → Linked f.mapper
      → f.mapper.acl_generation_current ≡ true
      → (feed_event sink options
          (event_of generation_finished f.mapper.acl_generation)
          f).1.mapper.acl_generation_current
        ≡ false
  unfolding feed_event feed_kind feed_ended
  close_ends f h e =
      if_rule (λ (r : Bool × Feed W). r.1.mapper.acl_generation_current ≡ false)
        (f.mapper.acl_generation == 0) _ _ (λ e1. ground (arith, h.named, e, e1))
        (λ e1.
          if_rule (λ (r : Bool × Feed W). r.1.mapper.acl_generation_current ≡ false)
            (not f.mapper.acl_generation_current) _ _ (λ e2. ground (arith, e, e2))
            (λ e2. named_ends f.mapper (ground (arith, e1)) e))

  close-Accounted :
      (x n : ℕ) (r : Bool × Feed W)
      → LevelOut {W = W} x n r
      → AccountedOut {W = W} x n (close_replay sink options r)
  unfolding close_replay
  close-Accounted x n (ok, f) h =
      let s = h.steady in
      if_rule (AccountedOut {W = W} x n) (not ok) _ _
        (λ e. record {
          linked = s.linked;
          counted = inl s.events;
          accepted = s.accepted;
          whole = inl refl;
        })
        (λ e.
          let t =
            event-Steady sink options (twice (f.stats.lines + x)) f.stats.lines (f.stats.lines + x)
              h.few (omega (arith, h.few)) (event_of generation_finished f.mapper.acl_generation) f
              s in
          if_rule (AccountedOut {W = W} x n) f.mapper.acl_generation_current _ _
            (λ e1. record {
              linked = t.linked;
              counted = inr (omega (arith, t.events, t.lines));
              accepted = t.accepted;
              whole = inr (ground (arith, t.lines, h.read, e), close_ends f s.linked e1);
            })
            (λ e1. record {
              linked = s.linked;
              counted = inl s.events;
              accepted = s.accepted;
              whole = inr (ground (arith, h.read, e), e1);
            }))

-- A replay of the filter's trace always ends. Let the trace have fewer than 2^62 - 1 lines. The
-- replay begins a generation itself; beyond that, every line that has been read counts as one event,
-- as an ignored line or as an error, and so does the end of a generation that it adds; the sink has
-- accepted no more than it was offered, and the states of the mapper agree. If the replay succeeds,
-- it has read every line, and no generation is current.
run_filter_replay-Accounted :
    {W : Type 0} (sink : Sink W) (options : ReplayOptions) (lines : List (Option ObservedEvent))
    (w : W)
    → length lines < 4611686018427387903
    → let (ok, f) = run_filter_replay sink options lines w in
      Accounted {W = W} 1 (length lines) ok f
unfolding run_filter_replay
run_filter_replay-Accounted {W = W} sink options lines w c =
    let fresh = fresh-Steady w in
    let (ok, f) =
      feed_event sink options (event_of generation_started options.acl_generation) (fresh_feed w) in
    let begun =
      event-Steady sink options 0 0 0 (omega arith) (omega arith)
        (event_of generation_started options.acl_generation) (fresh_feed w) fresh in
    if_rule (AccountedOut {W = W} 1 (length lines)) (options.acl_generation == 0) _ _
      (λ e. stopped _ (error-Steady sink options 0 0 0 (omega arith) (fresh_feed w) fresh))
      (λ e.
        if_rule (AccountedOut {W = W} 1 (length lines)) (not ok) _ _ (λ e1. stopped f begun)
          (λ e1. close-Accounted sink options 1 (length lines) _ (
            recount sink options 1 (0 + length lines) (length lines) _ (omega arith)
              (lines-Level sink options 1 0 lines f (omega (arith, c)) begun))))
  where
    stopped : (f : Feed W) → Steady 2 0 1 f → Accounted 1 (length lines) false f
    stopped f h = record {
      linked = h.linked;
      counted = inl (omega (arith, h.lines, h.events));
      accepted = h.accepted;
      whole = inl refl;
    }
