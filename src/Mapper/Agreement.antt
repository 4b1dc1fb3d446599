-- ===== src/Mapper/Agreement.antt =====
-- How the three states of agent/v1_avrcp_action_mapper.cpp, the mapper's and the two gates', agree
-- between two calls.
use native_ldac_xm5_windows.Prelude.{
  ◌==◌, if◌then◌else◌, ℕ, ◌≡◌, ◌⊎◌, Bool, true, false, not, ◌&&◌, ◌||◌, arith,
}
use native_ldac_xm5_windows.MediaSession.{MediaSnapshot}
use native_ldac_xm5_windows.Volume.{
  VolumeSupport, unsupported, supported, Xm5VolumeEvent, WindowsVolume, clamp_windows_volume,
}
use native_ldac_xm5_windows.Volume.Gate
use native_ldac_xm5_windows.Volume.Gate.{
  synchronize, GateState, invalidate_gate_authorization, with_reducer, activate_gate_if_authorized,
}
use native_ldac_xm5_windows.PassThrough
use native_ldac_xm5_windows.PassThrough.{
  route_to_current_media_session, PassThroughState, make_pass_through_event,
}
use native_ldac_xm5_windows.PassThrough.Invariant.{observe-Frame}
use native_ldac_xm5_windows.Mapper.{
  MapperState, MapperStep, avrcp_begin_acl_generation, avrcp_end_acl_generation,
  avrcp_set_control_mode, avrcp_acquire_owner_lease, avrcp_set_media_session_snapshot,
  avrcp_revoke_owner_lease, avrcp_observe_volume_capability, avrcp_observe_windows_volume,
  avrcp_observe_xm5_absolute_volume, avrcp_observe_pass_through,
}

pub record Inv (s : MapperState) : Type 0 where
  pub pass_generation : s.pass_through.acl_generation ≡ s.acl_generation
  pub volume_generation : s.absolute_volume.acl_generation ≡ s.acl_generation
  pub pass_current : s.pass_through.acl_generation_current ≡ s.acl_generation_current
  pub volume_current : s.absolute_volume.acl_generation_current ≡ s.acl_generation_current
  pub same_lease : s.pass_through.owner_lease ≡ s.absolute_volume.owner_lease
  pub own_lease : (s.owner_lease ≡ 0) ⊎ (s.pass_through.owner_lease ≡ s.owner_lease)
  pub routing :
      (s.media_routing_enabled ≡ false) ⊎ (s.pass_through.mode ≡ route_to_current_media_session)
  pub syncing : (s.volume_sync_enabled ≡ false) ⊎ (s.absolute_volume.mode ≡ synchronize)

pub data MapperCall : Type 0 where
  begins ends : ℕ → MapperCall
  sets_mode : ℕ → Bool → Bool → MapperCall
  acquires revokes : ℕ → ℕ → MapperCall
  snapshots : MediaSnapshot → MapperCall
  observes_capability : ℕ → Bool → MapperCall
  observes_windows : ℕ → WindowsVolume → MapperCall
  observes_xm5 : ℕ → ℕ → Xm5VolumeEvent → MapperCall
  observes_key : ℕ → ℕ → Bool → MapperCall

unfoldable pub answer : MapperState → MapperCall → MapperStep
answer s (begins g) = avrcp_begin_acl_generation s g
answer s (ends g) = avrcp_end_acl_generation s g
answer s (sets_mode g sync routing) = avrcp_set_control_mode s g sync routing
answer s (acquires g l) = avrcp_acquire_owner_lease s g l
answer s (revokes g l) = avrcp_revoke_owner_lease s g l
answer s (snapshots m) = avrcp_set_media_session_snapshot s m
answer s (observes_capability g claim) = avrcp_observe_volume_capability s g claim
answer s (observes_windows g v) = avrcp_observe_windows_volume s g v
answer s (observes_xm5 g v e) = avrcp_observe_xm5_absolute_volume s g v e
answer s (observes_key g id is_released) = avrcp_observe_pass_through s g id is_released

-- What an observation leaves of a gate: link, lease and mode.
abbrev SameGate : GateState → GateState → Type 0
SameGate t s =
    (t.acl_generation ≡ s.acl_generation)
    × (t.acl_generation_current ≡ s.acl_generation_current)
    × (t.owner_lease ≡ s.owner_lease)
    × (t.mode ≡ s.mode)

activate-same : (s : GateState) → SameGate (activate_gate_if_authorized s).0 s
unfolding activate_gate_if_authorized with_reducer Gate.reset_gate_reducer
activate-same s = ground arith

invalidate-same : (s : GateState) → SameGate (invalidate_gate_authorization s) s
unfolding invalidate_gate_authorization
invalidate-same s = ground arith

capability-same :
    (s : GateState) (g : ℕ) (claim : VolumeSupport)
    → SameGate (Gate.observe_capability s g claim).0 s
unfolding Gate.observe_capability
capability-same s g claim = ground (
  arith,
  activate-same (record s { observed_support = claim }),
  invalidate-same (record s { observed_support = claim }),
)

windows-same :
    (s : GateState) (g : ℕ) (v : WindowsVolume)
    → SameGate (Gate.observe_windows_through_gate s g v).0 s
unfolding Gate.observe_windows_through_gate with_reducer
windows-same s g v = ground (
  arith,
  activate-same
      (record s { windows_volume_observed = true; last_windows_volume = clamp_windows_volume v }),
)

xm5-same :
    (s : GateState) (g v : ℕ) (e : Xm5VolumeEvent)
    → SameGate (Gate.observe_xm5_through_gate s g v e).0 s
unfolding Gate.observe_xm5_through_gate with_reducer
xm5-same s g v e = ground arith

begins-Inv : (s : MapperState) (g : ℕ) → Inv s → Inv (avrcp_begin_acl_generation s g).0
unfolding avrcp_begin_acl_generation Gate.begin_acl_generation PassThrough.begin_acl_generation
    invalidate_gate_authorization
begins-Inv s g h = ground arith

ends-Inv : (s : MapperState) (g : ℕ) → Inv s → Inv (avrcp_end_acl_generation s g).0
unfolding avrcp_end_acl_generation Gate.end_acl_generation PassThrough.end_acl_generation
    invalidate_gate_authorization
ends-Inv s g h = ground arith

sets_mode-Inv :
    (s : MapperState) (g : ℕ) (sync routing : Bool)
    → Inv s
    → Inv (avrcp_set_control_mode s g sync routing).0
unfolding avrcp_set_control_mode Gate.set_gate_mode PassThrough.set_gate_mode
    activate_gate_if_authorized with_reducer invalidate_gate_authorization
sets_mode-Inv s g sync routing h = ground arith

-- Which lease a gate holds after it is asked for, by the same test in both.
abbrev granted : Bool → ℕ → ℕ → ℕ
granted current held l =
    if not current || l == 0 || not (held == 0) && not (held == l) then held else l

gate_granted :
    (s : GateState) (g l : ℕ)
    → let t = (Gate.acquire_owner_lease s g l).0 in
      (t.acl_generation ≡ s.acl_generation)
      × (t.acl_generation_current ≡ s.acl_generation_current)
      × (t.owner_lease ≡ granted (Gate.is_current_acl_generation s g) s.owner_lease l)
      × (t.mode ≡ s.mode)
unfolding Gate.acquire_owner_lease
gate_granted s g l = ground (arith, activate-same (record s { owner_lease = l }))

pass_granted :
    (s : PassThroughState) (g l : ℕ)
    → let t = (PassThrough.acquire_owner_lease s g l).0 in
      (t.acl_generation ≡ s.acl_generation)
      × (t.acl_generation_current ≡ s.acl_generation_current)
      × (t.owner_lease ≡ granted (PassThrough.is_current_generation s g) s.owner_lease l)
      × (t.mode ≡ s.mode)
unfolding PassThrough.acquire_owner_lease
pass_granted s g l = ground arith

same_current_test :
    (s : MapperState) (g : ℕ)
    → Inv s
    → PassThrough.is_current_generation s.pass_through g
      ≡ Gate.is_current_acl_generation s.absolute_volume g
unfolding PassThrough.is_current_generation Gate.is_current_acl_generation
same_current_test s g h = ground arith

acquires-Inv : (s : MapperState) (g l : ℕ) → Inv s → Inv (avrcp_acquire_owner_lease s g l).0
unfolding avrcp_acquire_owner_lease
acquires-Inv s g l h = ground (
  arith,
  gate_granted s.absolute_volume g l,
  pass_granted s.pass_through g l,
  same_current_test s g h,
)

revokes-Inv : (s : MapperState) (g l : ℕ) → Inv s → Inv (avrcp_revoke_owner_lease s g l).0
unfolding avrcp_revoke_owner_lease Gate.revoke_owner_lease PassThrough.revoke_owner_lease
    invalidate_gate_authorization
revokes-Inv s g l h = ground arith

snapshots-Inv :
    (s : MapperState) (m : MediaSnapshot) → Inv s → Inv (avrcp_set_media_session_snapshot s m).0
unfolding avrcp_set_media_session_snapshot
snapshots-Inv s m h = ground arith

capability-Inv :
    (s : MapperState) (g : ℕ) (claim : Bool)
    → Inv s
    → Inv (avrcp_observe_volume_capability s g claim).0
unfolding avrcp_observe_volume_capability
capability-Inv s g claim h =
    ground (arith, capability-same s.absolute_volume g (if claim then supported else unsupported))

windows-Inv :
    (s : MapperState) (g : ℕ) (v : WindowsVolume)
    → Inv s
    → Inv (avrcp_observe_windows_volume s g v).0
unfolding avrcp_observe_windows_volume
windows-Inv s g v h = ground (arith, windows-same s.absolute_volume g v)

xm5-Inv :
    (s : MapperState) (g v : ℕ) (e : Xm5VolumeEvent)
    → Inv s
    → Inv (avrcp_observe_xm5_absolute_volume s g v e).0
unfolding avrcp_observe_xm5_absolute_volume
xm5-Inv s g v e h = ground (arith, xm5-same s.absolute_volume g v e)

key-Inv :
    (s : MapperState) (g id : ℕ) (is_released : Bool)
    → Inv s
    → Inv (avrcp_observe_pass_through s g id is_released).0
unfolding avrcp_observe_pass_through
key-Inv s g id is_released h =
    ground (arith, observe-Frame s.pass_through g (make_pass_through_event id is_released))

-- Every call keeps the three states in agreement: the link and whether it is current are the same
-- in all, the two gates have the same lease, the mapper has that lease or none, and where it
-- says that it routes keys or synchronizes the volume, that gate is in that mode.
pub mapper_call-Inv : (s : MapperState) (c : MapperCall) → Inv s → Inv (answer s c).0
unfolding answer
mapper_call-Inv s (begins g) h = begins-Inv s g h
mapper_call-Inv s (ends g) h = ends-Inv s g h
mapper_call-Inv s (sets_mode g sync routing) h = sets_mode-Inv s g sync routing h
mapper_call-Inv s (acquires g l) h = acquires-Inv s g l h
mapper_call-Inv s (revokes g l) h = revokes-Inv s g l h
mapper_call-Inv s (snapshots m) h = snapshots-Inv s m h
mapper_call-Inv s (observes_capability g claim) h = capability-Inv s g claim h
mapper_call-Inv s (observes_windows g v) h = windows-Inv s g v h
mapper_call-Inv s (observes_xm5 g v e) h = xm5-Inv s g v e h
mapper_call-Inv s (observes_key g id is_released) h = key-Inv s g id is_released h
