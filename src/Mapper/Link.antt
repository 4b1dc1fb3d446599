-- ===== src/Mapper/Link.antt =====
-- Which calls of agent/v1_avrcp_action_mapper.cpp change the link, and how.
use native_ldac_xm5_windows.Prelude.{ℕ, ◌≡◌, ◌≢◌, ◌⊎◌, Bool, true, false, arith}
use native_ldac_xm5_windows.MediaSession.{MediaSnapshot}
use native_ldac_xm5_windows.Volume.{Xm5VolumeEvent, WindowsVolume}
use native_ldac_xm5_windows.Mapper.{
  MapperState, avrcp_begin_acl_generation, avrcp_end_acl_generation, avrcp_set_control_mode,
  avrcp_acquire_owner_lease, avrcp_set_media_session_snapshot, avrcp_observe_volume_capability,
  avrcp_observe_windows_volume, avrcp_observe_xm5_absolute_volume, avrcp_observe_pass_through,
  after_volume, adopt_headset_volume, update_playback_state,
}

-- Two states of the same link.
abbrev pub SameLink : MapperState → MapperState → Type 0
SameLink t s =
    (t.acl_generation ≡ s.acl_generation) × (t.acl_generation_current ≡ s.acl_generation_current)

pub mode-SameLink :
    (s : MapperState) (g : ℕ) (sync routing : Bool)
    → SameLink (avrcp_set_control_mode s g sync routing).0 s
unfolding avrcp_set_control_mode
mode-SameLink s g sync routing = ground arith

pub acquire-SameLink : (s : MapperState) (g l : ℕ) → SameLink (avrcp_acquire_owner_lease s g l).0 s
unfolding avrcp_acquire_owner_lease
acquire-SameLink s g l = ground arith

pub media-SameLink :
    (s : MapperState) (m : MediaSnapshot) → SameLink (avrcp_set_media_session_snapshot s m).0 s
unfolding avrcp_set_media_session_snapshot
media-SameLink s m = ground arith

pub capability-SameLink :
    (s : MapperState) (g : ℕ) (claim : Bool)
    → SameLink (avrcp_observe_volume_capability s g claim).0 s
unfolding avrcp_observe_volume_capability after_volume
capability-SameLink s g claim = ground arith

pub windows-SameLink :
    (s : MapperState) (g : ℕ) (v : WindowsVolume)
    → SameLink (avrcp_observe_windows_volume s g v).0 s
unfolding avrcp_observe_windows_volume after_volume
windows-SameLink s g v = ground arith

pub xm5-SameLink :
    (s : MapperState) (g v : ℕ) (e : Xm5VolumeEvent)
    → SameLink (avrcp_observe_xm5_absolute_volume s g v e).0 s
unfolding avrcp_observe_xm5_absolute_volume adopt_headset_volume
xm5-SameLink s g v e = ground arith

pub key-SameLink :
    (s : MapperState) (g id : ℕ) (is_released : Bool)
    → SameLink (avrcp_observe_pass_through s g id is_released).0 s
unfolding avrcp_observe_pass_through update_playback_state
key-SameLink s g id is_released = ground arith

-- A generation begins and is the current one, or the link is kept.
pub begin_link :
    (s : MapperState) (g : ℕ)
    → let (t, a) = avrcp_begin_acl_generation s g in
      SameLink t s ⊎ ((t.acl_generation ≡ g) × (t.acl_generation_current ≡ true))
unfolding avrcp_begin_acl_generation
begin_link s g = ground arith

-- The current generation ends, or the link is kept.
pub end_link :
    (s : MapperState) (g : ℕ)
    → let t = (avrcp_end_acl_generation s g).0 in SameLink t s ⊎ (t.acl_generation_current ≡ false)
unfolding avrcp_end_acl_generation
end_link s g = ground arith

-- The generation that is current ends if it is named.
pub named_ends :
    (s : MapperState)
    → s.acl_generation ≢ 0
    → s.acl_generation_current ≡ true
    → (avrcp_end_acl_generation s s.acl_generation).0.acl_generation_current ≡ false
unfolding avrcp_end_acl_generation
named_ends s h e = ground arith
