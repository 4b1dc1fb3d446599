-- ===== src/Executor.antt =====
-- agent/v1_avrcp_action_executor.h and .cpp: what feeds observed events into the mapper and hands its
-- authorized actions to a sink. A line of a log is what its parser makes of it.
mod State
pub mod Dispatch
pub mod Feeding
pub mod Events
pub mod Replay
pub mod Authorized
mod Tests
unfoldable pub use State.*
use native_ldac_xm5_windows.Prelude.{
  u64, ◌==◌, if◌then◌else◌, ℕ, zero, suc, ◌+◌, ◌/◌, ◌%◌, Bool, true, false, not, ◌||◌, Option, none,
  some, List, [], ◌∷◌,
}
use native_ldac_xm5_windows.Volume.{remote_notification, WindowsVolume}
use native_ldac_xm5_windows.Mapper.{
  avrcp_begin_acl_generation, avrcp_end_acl_generation, avrcp_set_control_mode,
  avrcp_acquire_owner_lease, avrcp_set_media_session_snapshot, avrcp_observe_volume_capability,
  avrcp_observe_windows_volume, avrcp_observe_xm5_absolute_volume, avrcp_observe_pass_through,
  ActionSet, MapperState, MapperStep,
}

unfoldable pub count_error : {W : Type 0} → Feed W → Feed W
count_error f = record f { stats = record s { errors = u64 (s.errors + 1) } }
  where
    s : ReplayStats
    s = f.stats

unfoldable pub count_ignored : {W : Type 0} → Feed W → Feed W
count_ignored f = record f { stats = record s { ignored_lines = u64 (s.ignored_lines + 1) } }
  where
    s : ReplayStats
    s = f.stats

unfoldable pub count_recognized : {W : Type 0} → Feed W → Feed W
count_recognized f = record f {
  stats = record s { recognized_events = u64 (s.recognized_events + 1) };
}
  where
    s : ReplayStats
    s = f.stats

unfoldable pub count_line : {W : Type 0} → Feed W → Feed W
count_line f = record f { stats = record s { lines = u64 (s.lines + 1) } }
  where
    s : ReplayStats
    s = f.stats

-- The switch over the kinds that are not about the generation.
unfoldable pub observe_event : EventKind → MapperState → ObservedEvent → Option MapperStep
observe_event generation_started s e = none
observe_event generation_finished s e = none
observe_event volume_capability s e =
    some (avrcp_observe_volume_capability s e.generation (not (e.value == 0)))
observe_event absolute_volume s e =
    some (avrcp_observe_xm5_absolute_volume s e.generation (e.value % 128) e.volume_event)
observe_event pass_through s e =
    some (avrcp_observe_pass_through s e.generation (e.value % 128) (not (e.flags / 2 % 2 == 0)))
observe_event set_absolute_volume_command s e =
    some (avrcp_observe_xm5_absolute_volume s e.generation (e.value % 128) remote_notification)

module _ {W : Type 0} (sink : Sink W) where
  -- The volume that is read back, as the mapper sees it: its actions and what they are to act on.
  unfoldable pub feed_back : Feed W → Option WindowsVolume → W → Option ActionSet × Feed W
  feed_back f none w = (none, record f { world = w })
  feed_back f (some readback) w =
      let (m, feedback) = avrcp_observe_windows_volume f.mapper f.mapper.acl_generation readback in
      (some feedback, record f { mapper = m; world = w })

  -- The call calls itself for the actions that the read volume asks for; the fuel bounds how deep.
  unfoldable pub dispatch_authorized_actions : ℕ → ActionSet → Feed W → Feed W
  dispatch_authorized_actions zero a f = f
  dispatch_authorized_actions (suc fuel) a f =
      let s = f.stats in
      let offered = record s { action_sets = u64 (s.action_sets + 1) } in
      let (taken, w) = sink.handle a f.world in
      let accepted = record f {
        stats = record offered { sink_accepted = u64 (s.sink_accepted + 1) };
        world = w;
      } in
      let (readback, v) = sink.query_windows_volume w in
      let (again, g) = feed_back accepted readback v in
      let deeper : Feed W = elim again [
        | none ↦ g
        | some b ↦ dispatch_authorized_actions fuel b g
      ] in
      if not (has_any_action a) || not a.authorized_current
      then f
      else if not taken
      then record f { stats = offered; world = w }
      else if a.set_windows_volume
      then deeper
      else accepted

-- How deep a dispatch goes at most.
abbrev pub dispatch_depth : ℕ
dispatch_depth = 2

module _ {W : Type 0} (sink : Sink W) (options : ReplayOptions) where
  -- A generation that has begun gets its modes, its lease, its volume and its media session.
  unfoldable pub set_up_session : ℕ → Feed W → Feed W
  set_up_session generation f =
      let m1 =
        (avrcp_set_control_mode f.mapper generation options.volume_sync options.media_routing).0 in
      let m2 = (avrcp_acquire_owner_lease m1 generation options.owner_lease).0 in
      let m3 = record m2 {
        headset_preferred = options.headset_preferred;
        xm5_volume_seen = false;
      } in
      let m4 = (avrcp_observe_windows_volume m3 generation options.initial_windows_volume).0 in
      let media = options.media_session in
      let (m5, media_actions) =
        avrcp_set_media_session_snapshot m4 (record media { acl_generation = generation }) in
      count_recognized
        (dispatch_authorized_actions sink dispatch_depth media_actions (record f { mapper = m5 }))

  unfoldable pub feed_started : ℕ → Feed W → Bool × Feed W
  feed_started generation f =
      let (m, actions) = avrcp_begin_acl_generation f.mapper generation in
      if f.mapper.acl_generation_current
      then (false, count_error f)
      else if actions.acl_generation == 0
      then (false, count_error (record f { mapper = m }))
      else (true, set_up_session generation (record f { mapper = m }))

  unfoldable pub feed_ended : ℕ → Feed W → Bool × Feed W
  feed_ended generation f =
      let m = (avrcp_end_acl_generation f.mapper generation).0 in
      let s = f.stats in
      let ended = record f {
        mapper = m;
        stats = record s {
          recognized_events = u64 (s.recognized_events + 1);
          generation_ended = u64 (s.generation_ended + 1);
        };
      } in
      if not f.mapper.acl_generation_current then (false, count_error f) else (true, ended)

  unfoldable pub dispatch_observed : Option MapperStep → Feed W → Feed W
  dispatch_observed none f = count_ignored f
  dispatch_observed (some (m, actions)) f =
      dispatch_authorized_actions sink dispatch_depth actions
        (count_recognized (record f { mapper = m }))

  unfoldable pub feed_observation : ObservedEvent → Feed W → Bool × Feed W
  feed_observation e f =
      if not f.mapper.acl_generation_current
      then (true, count_ignored f)
      else if not (e.generation == f.mapper.acl_generation)
      then (true, count_error f)
      else (true, dispatch_observed (observe_event e.kind f.mapper e) f)

  unfoldable pub feed_kind : EventKind → ObservedEvent → Feed W → Bool × Feed W
  feed_kind generation_started e f = feed_started e.generation f
  feed_kind generation_finished e f = feed_ended e.generation f
  feed_kind volume_capability e f = feed_observation e f
  feed_kind absolute_volume e f = feed_observation e f
  feed_kind pass_through e f = feed_observation e f
  feed_kind set_absolute_volume_command e f = feed_observation e f

  unfoldable pub feed_event : ObservedEvent → Feed W → Bool × Feed W
  feed_event e f = if e.generation == 0 then (false, count_error f) else feed_kind e.kind e f

  -- One line, which is an event or not one.
  unfoldable pub feed_line : Option ObservedEvent → Feed W → Bool × Feed W
  feed_line none f = (true, count_ignored f)
  feed_line (some e) f = feed_event e f

  unfoldable pub feed_lines : List (Option ObservedEvent) → Feed W → Bool × Feed W
  feed_lines [] f = (true, f)
  feed_lines (line ∷ lines) f =
      let (ok, g) = feed_line line (count_line f) in
      let rest = feed_lines lines g in if ok then rest else (false, g)

  -- The end of a log whose generation is still current.
  unfoldable pub close_replay : Bool × Feed W → Bool × Feed W
  close_replay (ok, f) =
      if not ok
      then (false, f)
      else if f.mapper.acl_generation_current
      then (true, (feed_event (event_of generation_finished f.mapper.acl_generation) f).1)
      else (true, f)

  unfoldable pub run_replay : List (Option ObservedEvent) → W → Bool × Feed W
  run_replay lines w = close_replay (feed_lines lines (fresh_feed w))

  unfoldable pub run_filter_replay : List (Option ObservedEvent) → W → Bool × Feed W
  run_filter_replay lines w =
      let (ok, f) =
        feed_event (event_of generation_started options.acl_generation) (fresh_feed w) in
      if options.acl_generation == 0
      then (false, count_error (fresh_feed w))
      else if not ok
      then (false, f)
      else close_replay (feed_lines lines f)
