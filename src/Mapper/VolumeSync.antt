-- ===== src/Mapper/VolumeSync.antt =====
-- Volume synchronization through agent/v1_avrcp_action_mapper.cpp: the headset's preference, and two
-- places where the mapper and its gates part.
use native_ldac_xm5_windows.Generation.{is_newer_generation}
use native_ldac_xm5_windows.Prelude.{◌==◌, ℕ, ◌%◌, ◌≡◌, ◌≢◌, ◌⊎◌, Bool, true, false, arith}
use native_ldac_xm5_windows.Volume.{
  supported, Xm5VolumeEvent, WindowsVolume, initial_volume_state, clamp_windows_volume,
  xm5_absolute_volume_to_windows_percent, project_windows_volume_to_xm5, begin_volume_session,
  observe_xm5_absolute_volume,
}
use native_ldac_xm5_windows.Volume.Gate
use native_ldac_xm5_windows.Volume.Gate.{
  synchronize, GateState, gate_can_synchronize, reset_gate_reducer, authorize_gate_decision,
  with_reducer, activate_gate_if_authorized,
}
use native_ldac_xm5_windows.PassThrough
use native_ldac_xm5_windows.Mapper.{
  MapperState, avrcp_begin_acl_generation, avrcp_set_control_mode, avrcp_observe_volume_capability,
  avrcp_observe_windows_volume, avrcp_observe_xm5_absolute_volume, merge_volume_actions,
}
use native_ldac_xm5_windows.Mapper.Agreement.{Inv}

-- Until the headset's first volume is seen, a mapper that prefers the headset sends it no volume,
-- neither when it learns of the capability nor when Windows reports a volume.
headset_preferred_silent :
    (s : MapperState) (g : ℕ) (claim : Bool) (v : WindowsVolume)
    → s.headset_preferred ≡ true
    → s.xm5_volume_seen ≡ false
    → ((avrcp_observe_volume_capability s g claim).1.send_xm5_volume ≡ false)
      × ((avrcp_observe_windows_volume s g v).1.send_xm5_volume ≡ false)
unfolding avrcp_observe_volume_capability avrcp_observe_windows_volume
headset_preferred_silent s g claim v p n = ground arith

-- The gate's answer to a headset volume never sends one back.
xm5_gate_sends_none :
    (s : GateState) (g v : ℕ) (e : Xm5VolumeEvent)
    → (Gate.observe_xm5_through_gate s g v e).1.volume.send_xm5_absolute_volume ≡ false
unfolding Gate.observe_xm5_through_gate with_reducer authorize_gate_decision
    observe_xm5_absolute_volume
xm5_gate_sends_none s g v e = ground arith

-- Whatever volume the headset reports, no volume is sent back in the same call.
headset_volume_not_echoed :
    (s : MapperState) (g v : ℕ) (e : Xm5VolumeEvent)
    → (avrcp_observe_xm5_absolute_volume s g v e).1.send_xm5_volume ≡ false
unfolding avrcp_observe_xm5_absolute_volume merge_volume_actions
headset_volume_not_echoed s g v e = ground (arith, xm5_gate_sends_none s.absolute_volume g v e)

-- A link that is begun again while it is current takes the lease and both modes from the mapper, and
-- leaves both gates as they were, with the lease and the modes that they have.
begin_again_keeps_gates :
    (s : MapperState) (g : ℕ)
    → Inv s
    → s.acl_generation_current ≡ true
    → s.acl_generation ≡ g
    → g ≢ 0
    → let t = (avrcp_begin_acl_generation s g).0 in
      (t.pass_through ≡ s.pass_through)
      × (t.absolute_volume ≡ s.absolute_volume)
      × (t.owner_lease ≡ 0)
      × (t.volume_sync_enabled ≡ false)
      × (t.media_routing_enabled ≡ false)
unfolding avrcp_begin_acl_generation PassThrough.begin_acl_generation Gate.begin_acl_generation
    is_newer_generation
begin_again_keeps_gates s g v c k z = ground arith

-- What the gate asks of Windows for a headset volume, and what it keeps.
xm5_gate_requests :
    (s : GateState) (g v : ℕ) (e : Xm5VolumeEvent)
    → (Gate.observe_xm5_through_gate s g v e).1.volume.set_windows_endpoint ≡ true
    → (Gate.observe_xm5_through_gate s g v e).1.volume.windows_volume
      ≡ record { percent = xm5_absolute_volume_to_windows_percent v; muted = v == 0 }
unfolding Gate.observe_xm5_through_gate with_reducer authorize_gate_decision
    observe_xm5_absolute_volume
xm5_gate_requests s g v e h = ground arith

xm5_gate_keeps :
    (s : GateState) (g v : ℕ) (e : Xm5VolumeEvent)
    → let t = (Gate.observe_xm5_through_gate s g v e).0 in
      (t.windows_volume_observed ≡ s.windows_volume_observed)
      × (t.last_windows_volume ≡ s.last_windows_volume)
      × (t.mode ≡ s.mode)
unfolding Gate.observe_xm5_through_gate with_reducer
xm5_gate_keeps s g v e = ground arith

-- The first headset volume under the headset's preference, on a link that synchronizes for an
-- owner: Windows is asked for the volume that the whole byte stands for unless Windows reported it
-- last, while the reducer takes the low seven bits for the value that was last sent.
first_headset_volume_adopted :
    (s : MapperState) (g v : ℕ) (e : Xm5VolumeEvent)
    → s.acl_generation_current ≡ true
    → s.acl_generation ≡ g
    → g ≢ 0
    → s.headset_preferred ≡ true
    → s.xm5_volume_seen ≡ false
    → s.owner_lease ≢ 0
    → s.absolute_volume.mode ≡ synchronize
    → let (t, a) = avrcp_observe_xm5_absolute_volume s g v e in
      (t.xm5_volume_seen ≡ true)
      × (t.absolute_volume.reducer.last_xm5_volume_sent ≡ v % 128)
      × (t.absolute_volume.reducer.outbound_echo_pending ≡ false)
      × (((a.set_windows_volume ≡ true)
            × (a.windows_volume
                ≡ record { percent = xm5_absolute_volume_to_windows_percent v; muted = v == 0 }))
          ⊎ ((s.absolute_volume.windows_volume_observed ≡ true)
              × (s.absolute_volume.last_windows_volume
                  ≡ record { percent = xm5_absolute_volume_to_windows_percent v; muted = v == 0 })))
unfolding avrcp_observe_xm5_absolute_volume merge_volume_actions
first_headset_volume_adopted s g v e c k z p n o m =
    ground
      (arith, xm5_gate_requests s.absolute_volume g v e, xm5_gate_keeps s.absolute_volume g v e)

-- The session that a mode change starts, as the gate leaves it.
mode_starts_session :
    (s : GateState) (g : ℕ)
    → Gate.is_current_acl_generation s g ≡ true
    → gate_can_synchronize (record s { mode = synchronize }) ≡ true
    → s.reducer.session_active ≡ false
    → let t = (Gate.set_gate_mode s g synchronize).0 in
      (t.reducer
        ≡ (begin_volume_session initial_volume_state s.acl_generation supported
            s.last_windows_volume).0)
unfolding Gate.set_gate_mode activate_gate_if_authorized with_reducer reset_gate_reducer
mode_starts_session s g c o a = ground arith

begun_session_sent :
    (g : ℕ) (v : WindowsVolume)
    → g ≢ 0
    → let t = (begin_volume_session initial_volume_state g supported v).0 in
      (t.session_active ≡ true)
      × (t.first_session_sync_complete ≡ true)
      × (t.last_xm5_volume_sent ≡ project_windows_volume_to_xm5 (clamp_windows_volume v))
unfolding begin_volume_session is_newer_generation
begun_session_sent g v h = ground arith

-- A volume session that starts because synchronization is switched on, where all else is already
-- there, counts its first volume as sent; but the mapper hands no volume on, so none is sent.
pub mode_start_drops_first_volume :
    (s : MapperState) (g : ℕ) (routing : Bool)
    → Inv s
    → s.acl_generation_current ≡ true
    → s.acl_generation ≡ g
    → g ≢ 0
    → gate_can_synchronize (record s.absolute_volume { mode = synchronize }) ≡ true
    → s.absolute_volume.reducer.session_active ≡ false
    → let (t, a) = avrcp_set_control_mode s g true routing in
      (a.send_xm5_volume ≡ false)
      × (t.absolute_volume.reducer.session_active ≡ true)
      × (t.absolute_volume.reducer.first_session_sync_complete ≡ true)
      × (t.absolute_volume.reducer.last_xm5_volume_sent
          ≡ project_windows_volume_to_xm5
              (clamp_windows_volume s.absolute_volume.last_windows_volume))
unfolding avrcp_set_control_mode Gate.is_current_acl_generation
mode_start_drops_first_volume s g routing v c k z o a = ground (
  arith,
  mode_starts_session s.absolute_volume g,
  begun_session_sent s.absolute_volume.acl_generation s.absolute_volume.last_windows_volume,
)
