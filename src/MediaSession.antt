-- ===== src/MediaSession.antt =====
-- agent/v1_media_session_eligibility.h and .cpp, which media keys a Windows media session may take,
-- and agent/v1_avrcp_bootstrap_play.h and .cpp, the delayed fallback for a play gesture.
pub mod Eligible
pub mod Bootstrap
mod Tests
use native_ldac_xm5_windows.Prelude.{
  ltb, ◌==◌, if◌then◌else◌, Enum, ◌is◌, u64, ℕ, ◌+◌, Bool, true, false, not, ◌&&◌, ◌||◌,
}

pub data Playback : Type 0 where
  absent stopped playing paused : Playback

pub data ObservedPlayback : Type 0 where
  changing stopped playing paused closed : ObservedPlayback

instance abbrev pub playback_enum : Enum Playback
playback_enum = record {
  value = elim [
    | Playback.absent ↦ 0
    | Playback.stopped ↦ 1
    | Playback.playing ↦ 2
    | Playback.paused ↦ 3
  ];
}

pub record MediaSnapshot : Type 0 where
  pub acl_generation : ℕ
  pub playback : Playback
  pub play_enabled : Bool
  pub pause_enabled : Bool
  pub next_enabled : Bool
  pub previous_enabled : Bool

pub record Eligibility : Type 0 where
  pub session_present : Bool
  pub play_eligible : Bool
  pub pause_eligible : Bool
  pub next_eligible : Bool
  pub previous_eligible : Bool
  pub acl_generation : ℕ

abbrev pub no_eligibility : Eligibility
no_eligibility = record {
  session_present = false;
  play_eligible = false;
  pause_eligible = false;
  next_eligible = false;
  previous_eligible = false;
  acl_generation = 0;
}

unfoldable pub evaluate_eligibility : MediaSnapshot → Eligibility
evaluate_eligibility m =
    if m.acl_generation == 0 || m.playback is Playback.absent || m.playback is Playback.stopped
    then record no_eligibility { acl_generation = m.acl_generation }
    else record {
      session_present = true;
      play_eligible = m.playback is Playback.paused && m.play_enabled;
      pause_eligible = m.playback is Playback.playing && m.pause_enabled;
      next_eligible = m.next_enabled;
      previous_eligible = m.previous_enabled;
      acl_generation = m.acl_generation;
    }

pub normalize_playback : ObservedPlayback → Playback → Bool → Playback
normalize_playback ObservedPlayback.playing previous same_session = Playback.playing
normalize_playback ObservedPlayback.paused previous same_session = Playback.paused
normalize_playback ObservedPlayback.changing previous same_session =
    if same_session && (previous is Playback.playing || previous is Playback.paused)
    then previous
    else Playback.stopped
normalize_playback ObservedPlayback.stopped previous same_session = Playback.stopped
normalize_playback ObservedPlayback.closed previous same_session = Playback.stopped

abbrev pub bootstrap_play_delay_ms : ℕ
bootstrap_play_delay_ms = 200

pub data BootstrapDecision : Type 0 where
  nothing scheduled microsoft_handled cancelled inject_play : BootstrapDecision

pub record BootstrapState : Type 0 where
  pub pending : Bool
  pub acl_generation : ℕ
  pub deadline_ms : ℕ
  pub scheduled_count : ℕ
  pub microsoft_handled_count : ℕ
  pub fallback_injected_count : ℕ
  pub cancelled_count : ℕ

abbrev pub initial_bootstrap : BootstrapState
initial_bootstrap = record {
  pending = false;
  acl_generation = 0;
  deadline_ms = 0;
  scheduled_count = 0;
  microsoft_handled_count = 0;
  fallback_injected_count = 0;
  cancelled_count = 0;
}

pub reset_bootstrap_play : BootstrapState → ℕ → BootstrapState
reset_bootstrap_play s acl_generation = record s {
  pending = false;
  acl_generation = acl_generation;
  deadline_ms = 0;
}

pub observe_bootstrap_gesture :
    BootstrapState → MediaSnapshot → Bool → ℕ → BootstrapState × BootstrapDecision
observe_bootstrap_gesture s media play_like_press now_ms =
    if not play_like_press
      || media.acl_generation == 0
      || not (media.acl_generation == s.acl_generation)
      || not (media.playback is Playback.paused)
      || not media.play_enabled
    then (s, nothing)
    else if s.pending
    then (s, nothing)
    else (
      record s {
        pending = true;
        deadline_ms = u64 (now_ms + bootstrap_play_delay_ms);
        scheduled_count = u64 (s.scheduled_count + 1);
      },
      scheduled,
    )

pub reconcile_bootstrap_play :
    BootstrapState → MediaSnapshot → ℕ → BootstrapState × BootstrapDecision
reconcile_bootstrap_play s media now_ms =
    let t = record s { pending = false; deadline_ms = 0 } in
    if not s.pending
    then (s, nothing)
    else if not (media.acl_generation == s.acl_generation)
    then (record t { cancelled_count = u64 (s.cancelled_count + 1) }, cancelled)
    else if media.playback is Playback.playing
    then (
      record t { microsoft_handled_count = u64 (s.microsoft_handled_count + 1) },
      microsoft_handled,
    )
    else if not (media.playback is Playback.paused) || not media.play_enabled
    then (record t { cancelled_count = u64 (s.cancelled_count + 1) }, cancelled)
    else if ltb now_ms s.deadline_ms
    then (s, nothing)
    else (record t { fallback_injected_count = u64 (s.fallback_injected_count + 1) }, inject_play)
