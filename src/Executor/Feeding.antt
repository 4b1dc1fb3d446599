-- ===== src/Executor/Feeding.antt =====
-- What an event that is fed into agent/v1_avrcp_action_executor.cpp keeps.
use native_ldac_xm5_windows.Prelude.{
  u64, u64_max, ◌<◌, if_rule, ℕ, zero, suc, ◌+◌, ◌≤◌, ◌≡◌, ◌≢◌, ◌⊎◌, inl, inr, Bool, false, not,
  ◌||◌, Option, none, some, arith,
}
use native_ldac_xm5_windows.Volume.{WindowsVolume}
use native_ldac_xm5_windows.Mapper.{
  avrcp_begin_acl_generation, avrcp_end_acl_generation, avrcp_set_control_mode,
  avrcp_acquire_owner_lease, avrcp_set_media_session_snapshot, avrcp_observe_windows_volume,
  ActionSet, MapperState,
}
use native_ldac_xm5_windows.Mapper.Agreement.{
  Inv, begins, ends, sets_mode, acquires, snapshots, observes_windows, answer, mapper_call-Inv,
}
use native_ldac_xm5_windows.Mapper.Link.{
  SameLink, mode-SameLink, acquire-SameLink, media-SameLink, windows-SameLink, begin_link, end_link,
}
use native_ldac_xm5_windows.Executor.{
  count_error, count_ignored, count_recognized, feed_back, dispatch_authorized_actions,
  dispatch_depth, set_up_session, Sink, ReplayOptions, Feed, has_any_action,
}

-- The states of the mapper agree, and a current generation is not 0.
pub record Linked (s : MapperState) : Type 0 where
  pub agree : Inv s
  pub named : (s.acl_generation_current ≡ false) ⊎ (s.acl_generation ≢ 0)

-- After `m` lines and `n` events, and at most `a` sets of actions.
pub record Steady {W : Type 0} (a m n : ℕ) (f : Feed W) : Type 0 where
  pub linked : Linked f.mapper
  pub lines : f.stats.lines ≡ m
  pub events : f.stats.recognized_events + f.stats.ignored_lines + f.stats.errors ≡ n
  pub accepted : f.stats.sink_accepted ≤ f.stats.action_sets
  pub sets_in : f.stats.action_sets ≤ a

pub same_link-Linked : (s t : MapperState) → Inv t → SameLink t s → Linked s → Linked t
same_link-Linked s t i (p, q) h = record { agree = i; named = ground (arith, h.named, p, q) }

windows-Linked :
    (s : MapperState) (g : ℕ) (v : WindowsVolume)
    → Linked s
    → Linked (avrcp_observe_windows_volume s g v).0
unfolding answer
windows-Linked s g v h =
    same_link-Linked s _ (mapper_call-Inv s (observes_windows g v) h.agree) (windows-SameLink s g v)
      h

pub begin-Linked :
    (s : MapperState) (g : ℕ) → g ≢ 0 → Linked s → Linked (avrcp_begin_acl_generation s g).0
unfolding answer
begin-Linked s g k h = record {
  agree = mapper_call-Inv s (begins g) h.agree;
  named = elim (begin_link s g) [
    | inl (p, q) ↦ ground (arith, h.named, p, q)
    | inr (p, q) ↦ inr (ground (arith, k, p))
  ];
}

pub end-Linked : (s : MapperState) (g : ℕ) → Linked s → Linked (avrcp_end_acl_generation s g).0
unfolding answer
end-Linked s g h = record {
  agree = mapper_call-Inv s (ends g) h.agree;
  named = elim (end_link s g) [ inl (p, q) ↦ ground (arith, h.named, p, q) | inr q ↦ inl q ];
}

preference-Linked :
    (s : MapperState) (preferred : Bool)
    → Linked s
    → Linked (record s { headset_preferred = preferred; xm5_volume_seen = false })
preference-Linked s preferred h = record {
  agree = record {
    pass_generation = i.pass_generation;
    volume_generation = i.volume_generation;
    pass_current = i.pass_current;
    volume_current = i.volume_current;
    same_lease = i.same_lease;
    own_lease = i.own_lease;
    routing = i.routing;
    syncing = i.syncing;
  };
  named = h.named;
}
  where
    i : Inv s
    i = h.agree

module _ {W : Type 0} (sink : Sink W) (m n : ℕ) where
  -- A bound that is not smaller.
  pub more-Steady : (q p : ℕ) (f : Feed W) → q ≤ p → Steady q m n f → Steady p m n f
  more-Steady q p f e h = record {
    linked = h.linked;
    lines = h.lines;
    events = h.events;
    accepted = h.accepted;
    sets_in = omega (arith, h.sets_in);
  }

  feed_back-Steady :
      (q : ℕ) (f : Feed W) (x : Option WindowsVolume) (w : W)
      → Steady q m n f
      → Steady q m n (feed_back sink f x w).1
  unfolding feed_back
  feed_back-Steady q f none w h = record {
    linked = h.linked;
    lines = h.lines;
    events = h.events;
    accepted = h.accepted;
    sets_in = h.sets_in;
  }
  feed_back-Steady q f (some v) w h = record {
    linked = windows-Linked f.mapper f.mapper.acl_generation v h.linked;
    lines = h.lines;
    events = h.events;
    accepted = h.accepted;
    sets_in = h.sets_in;
  }

  deeper-Steady :
      (q p fuel : ℕ) (x : Option ActionSet × Feed W)
      → q ≤ p
      → ((b : ActionSet) (g : Feed W)
          → Steady q m n g
          → Steady p m n (dispatch_authorized_actions sink fuel b g))
      → Steady q m n x.1
      → Steady p m n
          (elim x.0 [ none ↦ x.1 | some b ↦ dispatch_authorized_actions sink fuel b x.1 ])
  deeper-Steady q p fuel (none, g) e k h = more-Steady q p g e h
  deeper-Steady q p fuel (some b, g) e k h = k b g h

  -- A dispatch offers one set of actions at most for each step of its depth.
  pub dispatch-Steady :
      (q fuel : ℕ) (a : ActionSet) (f : Feed W)
      → q + fuel ≤ u64_max
      → Steady q m n f
      → Steady (q + fuel) m n (dispatch_authorized_actions sink fuel a f)
  unfolding dispatch_authorized_actions
  dispatch-Steady q zero a f c h = more-Steady q _ f (omega arith) h
  dispatch-Steady q (suc fuel) a f c h =
      let s = f.stats in
      let offered = record s { action_sets = u64 (s.action_sets + 1) } in
      let (taken, w) = sink.handle a f.world in
      let accepted = record f {
        stats = record offered { sink_accepted = u64 (s.sink_accepted + 1) };
        world = w;
      } in
      let (readback, v) = sink.query_windows_volume w in
      let kept : Steady (q + 1) m n accepted = record {
        linked = h.linked;
        lines = h.lines;
        events = h.events;
        accepted = omega (arith, h.accepted, h.sets_in);
        sets_in = omega (arith, h.sets_in);
      } in
      let back = feed_back-Steady (q + 1) accepted readback v kept in
      let P = Steady (q + suc fuel) m n in
      if_rule P (not (has_any_action a) || not a.authorized_current) _ _
        (λ e. more-Steady q _ f (omega arith) h)
        (λ e.
          if_rule P (not taken) _ _
            (λ e1. record {
              linked = h.linked;
              lines = h.lines;
              events = h.events;
              accepted = omega (arith, h.accepted, h.sets_in);
              sets_in = omega (arith, h.sets_in);
            })
            (λ e1.
              if_rule P a.set_windows_volume _ _
                (λ e2.
                  deeper-Steady (q + 1) (q + suc fuel) fuel (feed_back sink accepted readback v)
                    (omega arith)
                    (λ b g k.
                      more-Steady (q + 1 + fuel) (q + suc fuel) _ (omega arith)
                        (dispatch-Steady (q + 1) fuel b g (omega (arith, c)) k))
                    back)
                (λ e2. more-Steady (q + 1) _ accepted (omega arith) kept)))

module _ {W : Type 0} (sink : Sink W) (options : ReplayOptions) (q m n : ℕ)
    (few : n < 4611686018427387904) where
  pub recognized-Steady : (f : Feed W) → Steady q m n f → Steady q m (n + 1) (count_recognized f)
  unfolding count_recognized
  recognized-Steady f h = record {
    linked = h.linked;
    lines = h.lines;
    events = omega (arith, h.events, few);
    accepted = h.accepted;
    sets_in = h.sets_in;
  }

  pub ignored-Steady : (f : Feed W) → Steady q m n f → Steady (q + 2) m (n + 1) (count_ignored f)
  unfolding count_ignored
  ignored-Steady f h = record {
    linked = h.linked;
    lines = h.lines;
    events = omega (arith, h.events, few);
    accepted = h.accepted;
    sets_in = omega (arith, h.sets_in);
  }

  pub error-Steady : (f : Feed W) → Steady q m n f → Steady (q + 2) m (n + 1) (count_error f)
  unfolding count_error
  error-Steady f h = record {
    linked = h.linked;
    lines = h.lines;
    events = omega (arith, h.events, few);
    accepted = h.accepted;
    sets_in = omega (arith, h.sets_in);
  }

  -- Another state of the mapper.
  pub mapper-Steady :
      (f : Feed W) (s : MapperState)
      → Steady q m n f
      → Linked s
      → Steady q m n (record f { mapper = s })
  mapper-Steady f s h l = record {
    linked = l;
    lines = h.lines;
    events = h.events;
    accepted = h.accepted;
    sets_in = h.sets_in;
  }

module _ {W : Type 0} (sink : Sink W) (options : ReplayOptions) (q m n : ℕ)
    (few : n < 4611686018427387904) where
  pub set_up-Steady :
      (g : ℕ) (f : Feed W)
      → q + 2 ≤ u64_max
      → Steady q m n f
      → Steady (q + 2) m (n + 1) (set_up_session sink options g f)
  unfolding set_up_session answer
  set_up-Steady g f c h =
      let s = f.mapper in
      let m1 = (avrcp_set_control_mode s g options.volume_sync options.media_routing).0 in
      let l1 =
        same_link-Linked s m1
          (mapper_call-Inv s (sets_mode g options.volume_sync options.media_routing) h.linked.agree)
          (mode-SameLink s g options.volume_sync options.media_routing) h.linked in
      let m2 = (avrcp_acquire_owner_lease m1 g options.owner_lease).0 in
      let l2 =
        same_link-Linked m1 m2 (mapper_call-Inv m1 (acquires g options.owner_lease) l1.agree)
          (acquire-SameLink m1 g options.owner_lease) l1 in
      let m3 = record m2 {
        headset_preferred = options.headset_preferred;
        xm5_volume_seen = false;
      } in
      let l3 : Linked m3 = preference-Linked m2 options.headset_preferred l2 in
      let m4 = (avrcp_observe_windows_volume m3 g options.initial_windows_volume).0 in
      let l4 = windows-Linked m3 g options.initial_windows_volume l3 in
      let media = options.media_session in
      let named = record media { acl_generation = g } in
      let m5 = (avrcp_set_media_session_snapshot m4 named).0 in
      let l5 =
        same_link-Linked m4 m5 (mapper_call-Inv m4 (snapshots named) l4.agree)
          (media-SameLink m4 named) l4 in
      recognized-Steady sink options (q + 2) m n few _ (
        dispatch-Steady sink m n q dispatch_depth _ _ c
          (mapper-Steady sink options q m n few f m5 h l5))
