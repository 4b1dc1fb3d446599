-- ===== src/Volume/Exchange.antt =====
-- A volume change that starts at the headset: what agent/avrcp_absolute_volume_state.cpp asks of
-- Windows, and what it does with the answer.
use native_ldac_xm5_windows.Prelude.{
  ◌==◌, if◌then◌else◌, u8, ℕ, ◌≤◌, min, ◌≡◌, refl, ◌≢◌, ◌⊎◌, true, false, not, arith,
}
use native_ldac_xm5_windows.Volume.{
  supported, remote_notification, no_decision, VolumeState, clamp_windows_volume,
  windows_percent_to_xm5_absolute_volume, xm5_absolute_volume_to_windows_percent,
  project_windows_volume_to_xm5, is_current_session, observe_windows_endpoint_volume,
  observe_xm5_absolute_volume,
}
use native_ldac_xm5_windows.Volume.Scale.{to_percent_pos, to_percent_le}

-- A notification that the reducer acts on: the session is current and supported, the value is in
-- range, not a repetition, and not the projection of the Windows volume.
pub record IsNews (s : VolumeState) (g v : ℕ) : Type 0 where
  pub current : is_current_session s g ≡ true
  pub is_supported : s.support ≡ supported
  pub known : s.windows_volume_known ≡ true
  pub fits : v ≤ 127
  pub fresh : (s.inbound_volume_seen ≡ false) ⊎ (s.last_xm5_volume_received ≢ v)
  pub differs : project_windows_volume_to_xm5 s.windows_volume ≢ v

-- The headset volume that the requested Windows volume stands for.
abbrev pub reflected : ℕ → ℕ
reflected v = windows_percent_to_xm5_absolute_volume (xm5_absolute_volume_to_windows_percent v)

reflected_zero : reflected 0 ≡ 0
unfolding windows_percent_to_xm5_absolute_volume xm5_absolute_volume_to_windows_percent
reflected_zero = refl

-- The request, seen from the headset's side again.
project-requested :
    (v : ℕ)
    → v ≤ 127
    → project_windows_volume_to_xm5 (
        clamp_windows_volume
          (record { percent = xm5_absolute_volume_to_windows_percent v; muted = v == 0 }))
      ≡ reflected v
unfolding project_windows_volume_to_xm5 clamp_windows_volume
project-requested v h =
    ground (arith, to_percent_pos v, to_percent_le v, reflected_zero, mod_small v)
  where
    mod_small :
        (v : ℕ)
        → u8 (min (xm5_absolute_volume_to_windows_percent v) 100)
          ≡ xm5_absolute_volume_to_windows_percent v
    mod_small v = omega (arith, to_percent_le v)

-- News from the headset moves nothing by itself: it asks for the Windows volume that it stands for,
-- keeps the Windows volume and what was last sent, and waits.
news_requests :
    (s : VolumeState) (g v : ℕ)
    → IsNews s g v
    → let (t, d) = observe_xm5_absolute_volume s g v remote_notification in
      (d ≡ record no_decision {
        set_windows_endpoint = true;
        windows_volume = record {
          percent = xm5_absolute_volume_to_windows_percent v;
          muted = v == 0;
        };
      })
      × (t ≡ record s {
        inbound_volume_seen = true;
        last_xm5_volume_received = v;
        outbound_echo_pending = false;
        windows_update_pending = true;
        pending_xm5_volume = v;
      })
unfolding observe_xm5_absolute_volume
news_requests s g v n = ground arith

-- Windows reports the requested volume back. A headset volume that comes back from the Windows
-- scale is settled with no action. For any other, the reducer takes the report for a refusal
-- and sends the headset the nearby volume that the Windows scale has.
pub news_settles_or_corrects :
    (s : VolumeState) (g v : ℕ)
    → IsNews s g v
    → let (t, d) = observe_xm5_absolute_volume s g v remote_notification in
      let (u, e) = observe_windows_endpoint_volume t g d.windows_volume in
      (u.windows_update_pending ≡ false)
      × (u.last_xm5_volume_sent ≡ reflected v)
      × (e.set_windows_endpoint ≡ false)
      × (e.send_xm5_absolute_volume ≡ not (reflected v == v))
      × (e.xm5_absolute_volume ≡ (if reflected v == v then 0 else reflected v))
unfolding observe_xm5_absolute_volume observe_windows_endpoint_volume
news_settles_or_corrects s g v n = ground (arith, project-requested v n.fits)
