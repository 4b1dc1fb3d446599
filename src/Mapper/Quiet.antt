-- ===== src/Mapper/Quiet.antt =====
-- The mapper of agent/v1_avrcp_action_mapper.cpp asks for no Windows volume when it hears of one.
use native_ldac_xm5_windows.Prelude.{if_rule, ℕ, ◌≡◌, refl, false, not, arith}
use native_ldac_xm5_windows.Volume.{WindowsVolume}
use native_ldac_xm5_windows.Volume.Gate.{GateStep, observe_windows_through_gate}
use native_ldac_xm5_windows.Volume.Gate.Quiet.{gate_quiet}
use native_ldac_xm5_windows.Mapper.{
  MapperState, MapperStep, is_current_generation, after_volume, merge_volume_actions,
  filter_headset_preferred_push, snapshot, avrcp_observe_windows_volume,
}

after_quiet :
    (s : MapperState) (x : GateStep)
    → x.1.volume.set_windows_endpoint ≡ false
    → (after_volume s x).1.set_windows_volume ≡ false
unfolding after_volume merge_volume_actions filter_headset_preferred_push snapshot
after_quiet s x h = ground (arith, h)

pub windows_quiet :
    (s : MapperState) (g : ℕ) (v : WindowsVolume)
    → (avrcp_observe_windows_volume s g v).1.set_windows_volume ≡ false
unfolding avrcp_observe_windows_volume
windows_quiet s g v =
    if_rule (λ (y : MapperStep). y.1.set_windows_volume ≡ false) (not (is_current_generation s g)) _
      _ (λ e. refl)
      (λ e.
        after_quiet s (observe_windows_through_gate s.absolute_volume g v)
          (gate_quiet s.absolute_volume g v))
