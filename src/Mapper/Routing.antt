-- ===== src/Mapper/Routing.antt =====
-- Key events and media sessions through agent/v1_avrcp_action_mapper.cpp.
use native_ldac_xm5_windows.Prelude.{
  ◌==◌, if◌then◌else◌, bit, ℕ, ◌+◌, ◌≤◌, ◌≡◌, ◌≢◌, ◌⊎◌, Bool, true, false, not, ◌&&◌, arith,
}
use native_ldac_xm5_windows.MediaSession.{
  Playback, playback_enum, MediaSnapshot, Eligibility, evaluate_eligibility,
}
use native_ldac_xm5_windows.PassThrough
use native_ldac_xm5_windows.PassThrough.Invariant.{
  Acts, observed_actions, press-Acts, press-observed,
}
use native_ldac_xm5_windows.Mapper.Agreement.{Inv}
use native_ldac_xm5_windows.PassThrough.{
  Operation, unknown, volume_up, volume_down, mute, play, stop, pause, forward, backward,
  no_actions, PassThroughDecision, PassThroughState, action_for_operation, make_pass_through_event,
  observe_pass_through_event,
}
use native_ldac_xm5_windows.Mapper.{
  MapperState, PlaybackState, avrcp_acquire_owner_lease, avrcp_set_media_session_snapshot,
  avrcp_observe_pass_through, ActionSet, no_action_set, merge_pass_through_actions,
}

-- The Windows actions of a set, by number.
abbrev pub key_actions : ActionSet → ℕ
key_actions a =
    bit a.step_volume_up
    + bit a.step_volume_down
    + bit a.toggle_mute
    + bit a.media_play
    + bit a.media_pause
    + bit a.media_play_pause
    + bit a.media_stop
    + bit a.media_next_track
    + bit a.media_previous_track

merged_one :
    (e : Eligibility) (g : ℕ) (current : Bool) (d : PassThroughDecision) (o : Operation)
    → (d.actions ≡ no_actions) ⊎ (d.actions ≡ action_for_operation o)
    → key_actions (
        merge_pass_through_actions e
          (record no_action_set { acl_generation = g; authorized_current = current })
          d)
      ≤ 1
unfolding merge_pass_through_actions action_for_operation
merged_one e g current d volume_up h = ground arith
merged_one e g current d volume_down h = ground arith
merged_one e g current d mute h = ground arith
merged_one e g current d play h = ground arith
merged_one e g current d stop h = ground arith
merged_one e g current d pause h = ground arith
merged_one e g current d forward h = ground arith
merged_one e g current d backward h = ground arith
merged_one e g current d unknown h = ground arith

-- One key event becomes one Windows action at most, whatever the media session.
key_gives_one_action :
    (s : MapperState) (g id : ℕ) (is_released : Bool)
    → key_actions (avrcp_observe_pass_through s g id is_released).1 ≤ 1
unfolding avrcp_observe_pass_through
key_gives_one_action s g id is_released =
    let event = make_pass_through_event id is_released in
    ground (
      arith,
      merged_one s.media_eligibility s.acl_generation
          (s.acl_generation_current && not (s.owner_lease == 0))
          (observe_pass_through_event s.pass_through g event).1 event.operation
          (observed_actions s.pass_through g event),
    )

-- The answer to a key that does nothing.
abbrev pub quiet : MapperState → ActionSet
quiet s = record no_action_set {
  acl_generation = s.acl_generation;
  authorized_current = not (s.owner_lease == 0);
  event_observed = true;
}

-- What a press of PLAY asks for in a session with the given playback: to play it, or to toggle it.
abbrev pub wanted_for_play : Playback → Bool → Bool → ActionSet → ActionSet
wanted_for_play Playback.absent can_play can_pause a = a
wanted_for_play Playback.stopped can_play can_pause a = a
wanted_for_play Playback.paused can_play can_pause a =
    if can_play
    then record a {
      media_play = true;
      playback_after = PlaybackState.playing;
      playback_changed = true;
    }
    else a
wanted_for_play Playback.playing can_play can_pause a =
    if can_pause
    then record a {
      media_play_pause = true;
      playback_after = PlaybackState.paused;
      playback_changed = true;
    }
    else a

-- What a press of PAUSE asks for.
abbrev pub wanted_for_pause : Playback → Bool → Bool → ActionSet → ActionSet
wanted_for_pause Playback.absent can_play can_pause a = a
wanted_for_pause Playback.stopped can_play can_pause a = a
wanted_for_pause Playback.paused can_play can_pause a =
    if can_play
    then record a {
      media_play_pause = true;
      playback_after = PlaybackState.playing;
      playback_changed = true;
    }
    else a
wanted_for_pause Playback.playing can_play can_pause a =
    if can_pause
    then record a {
      media_pause = true;
      playback_after = PlaybackState.paused;
      playback_changed = true;
    }
    else a

-- How the decision for each of the keys is merged under a media session.
merged_play :
    (n : ℕ) (playback : Playback) (can_play can_pause next previous : Bool) (g : ℕ)
    (authorized : Bool) (d : PassThroughDecision)
    → n ≢ 0
    → d.actions ≡ action_for_operation play
    → d.event_observed ≡ true
    → let a = record no_action_set { acl_generation = g; authorized_current = authorized } in
      merge_pass_through_actions
        (evaluate_eligibility (record {
          acl_generation = n;
          playback = playback;
          play_enabled = can_play;
          pause_enabled = can_pause;
          next_enabled = next;
          previous_enabled = previous;
        }))
        a
        d
      ≡ wanted_for_play playback can_play can_pause (record a { event_observed = true })
unfolding merge_pass_through_actions evaluate_eligibility action_for_operation
merged_play n Playback.absent x y z w g c d h a o = ground arith
merged_play n Playback.stopped x y z w g c d h a o = ground arith
merged_play n Playback.playing x y z w g c d h a o = ground arith
merged_play n Playback.paused x y z w g c d h a o = ground arith

merged_pause :
    (n : ℕ) (playback : Playback) (can_play can_pause next previous : Bool) (g : ℕ)
    (authorized : Bool) (d : PassThroughDecision)
    → n ≢ 0
    → d.actions ≡ action_for_operation pause
    → d.event_observed ≡ true
    → let a = record no_action_set { acl_generation = g; authorized_current = authorized } in
      merge_pass_through_actions
        (evaluate_eligibility (record {
          acl_generation = n;
          playback = playback;
          play_enabled = can_play;
          pause_enabled = can_pause;
          next_enabled = next;
          previous_enabled = previous;
        }))
        a
        d
      ≡ wanted_for_pause playback can_play can_pause (record a { event_observed = true })
unfolding merge_pass_through_actions evaluate_eligibility action_for_operation
merged_pause n Playback.absent x y z w g c d h a o = ground arith
merged_pause n Playback.stopped x y z w g c d h a o = ground arith
merged_pause n Playback.playing x y z w g c d h a o = ground arith
merged_pause n Playback.paused x y z w g c d h a o = ground arith

-- The actions for an event on the current link.
current_key :
    (s : MapperState) (g id : ℕ)
    → s.acl_generation_current ≡ true
    → s.acl_generation ≡ g
    → g ≢ 0
    → (avrcp_observe_pass_through s g id false).1
      ≡ merge_pass_through_actions s.media_eligibility
          (record no_action_set {
            acl_generation = s.acl_generation;
            authorized_current = not (s.owner_lease == 0);
          })
          (observe_pass_through_event s.pass_through g (make_pass_through_event id false)).1
unfolding avrcp_observe_pass_through
current_key s g id c k n = ground arith

current_not_0 :
    (s : PassThroughState) (g : ℕ) → PassThrough.is_current_generation s g ≡ true → g ≢ 0
unfolding PassThrough.is_current_generation
current_not_0 s g c = ground arith

-- On a current link whose media session is the one that was last shown to the mapper, and where the
-- gate acts on a press of PLAY and on one of PAUSE, either press does what that session calls for
-- and nothing else: a paused session that can play is played, by PLAY or by the toggle for PAUSE;
-- a playing session that can pause is paused, by the toggle for PLAY or by PAUSE; and in any other
-- session the key is only noted.
pub gesture_follows_session :
    (s : MapperState) (m : MediaSnapshot) (g : ℕ)
    → s.media_eligibility ≡ evaluate_eligibility m
    → m.acl_generation ≡ g
    → s.acl_generation_current ≡ true
    → s.acl_generation ≡ g
    → Acts s.pass_through g (make_pass_through_event 0x44 false)
    → Acts s.pass_through g (make_pass_through_event 0x46 false)
    → ((avrcp_observe_pass_through s g 0x44 false).1
        ≡ wanted_for_play m.playback m.play_enabled m.pause_enabled (quiet s))
      × ((avrcp_observe_pass_through s g 0x46 false).1
          ≡ wanted_for_pause m.playback m.play_enabled m.pause_enabled (quiet s))
unfolding make_pass_through_event
gesture_follows_session s m g e n c k p q =
    let gate = s.pass_through in
    let play_event = make_pass_through_event 0x44 false in
    let pause_event = make_pass_through_event 0x46 false in
    let link : g ≢ 0 = current_not_0 gate g p.current in
    (
      rw (current_key s g 0x44 c k link, e)
          (merged_play m.acl_generation m.playback m.play_enabled m.pause_enabled m.next_enabled
            m.previous_enabled s.acl_generation (not (s.owner_lease == 0))
            (observe_pass_through_event gate g play_event).1 (rw n link)
            (press-Acts gate g play_event p).0 (press-observed gate g play_event p)),
      rw (current_key s g 0x46 c k link, e)
          (merged_pause m.acl_generation m.playback m.play_enabled m.pause_enabled m.next_enabled
            m.previous_enabled s.acl_generation (not (s.owner_lease == 0))
            (observe_pass_through_event gate g pause_event).1 (rw n link)
            (press-Acts gate g pause_event q).0 (press-observed gate g pause_event q)),
    )

-- A media snapshot that comes twice notifies the headset once at most: the second time nothing is
-- left to tell.
snapshot_notifies_once :
    (s : MapperState) (m : MediaSnapshot)
    → let t = (avrcp_set_media_session_snapshot s m).0 in
      (avrcp_set_media_session_snapshot t m).1.notify_playback_status ≡ false
unfolding avrcp_set_media_session_snapshot
snapshot_notifies_once s m = ground arith

-- A lease that is granted on a current link with routed keys makes the next snapshot of the link
-- notify the headset of the playback, also if that has not changed.
new_lease_notifies :
    (s : MapperState) (m : MediaSnapshot) (g l : ℕ)
    → Inv s
    → s.media_routing_enabled ≡ true
    → m.acl_generation ≡ g
    → (avrcp_acquire_owner_lease s g l).1.authorized_current ≡ true
    → let t = (avrcp_acquire_owner_lease s g l).0 in
      let (u, a) = avrcp_set_media_session_snapshot t m in
      (a.notify_playback_status ≡ true)
      × (a.playback_after ≡ u.pc_playback)
      × (u.last_playback_status ≡ u.pc_playback)
      × (u.owner_lease ≡ l)
unfolding avrcp_acquire_owner_lease avrcp_set_media_session_snapshot
new_lease_notifies s m g l v r k h = ground arith
