-- ===== src/Executor/Dispatch.antt =====
-- How deep the dispatch of agent/v1_avrcp_action_executor.cpp goes, and what it leaves as it is.
use native_ldac_xm5_windows.Prelude.{
  u64, if◌then◌else◌, ℕ, suc, ◌+◌, ◌≡◌, refl, false, not, ◌||◌, Option, none, some,
}
use native_ldac_xm5_windows.Volume.{WindowsVolume}
use native_ldac_xm5_windows.Mapper.{ActionSet}
use native_ldac_xm5_windows.Mapper.Quiet.{windows_quiet}
use native_ldac_xm5_windows.Executor.{
  feed_back, dispatch_authorized_actions, Sink, Feed, has_any_action,
}

module _ {W : Type 0} (sink : Sink W) where
  -- What an accepted request for the Windows volume ends with.
  abbrev pub fed_back : ℕ → Feed W → Option WindowsVolume → W → Feed W
  fed_back n f x w = elim (feed_back sink f x w).0 [
    | none ↦ (feed_back sink f x w).1
    | some b ↦ dispatch_authorized_actions sink n b (feed_back sink f x w).1
  ]

  flat :
      (n : ℕ) (a : ActionSet) (f : Feed W)
      → a.set_windows_volume ≡ false
      → dispatch_authorized_actions sink (suc n) a f ≡ dispatch_authorized_actions sink 1 a f
  unfolding dispatch_authorized_actions
  flat n a f h = simp h

  fed_back_flat :
      (n : ℕ) (f : Feed W) (x : Option WindowsVolume) (w : W)
      → fed_back (suc n) f x w ≡ fed_back 1 f x w
  unfolding feed_back
  fed_back_flat n f none w = refl
  fed_back_flat n f (some v) w = flat n _ _ (windows_quiet f.mapper f.mapper.acl_generation v)

-- A dispatch calls itself at most once: with more room for calls of itself it does the same,
-- whatever the sink answers.
pub dispatch_settles :
    {W : Type 0} (sink : Sink W) (n : ℕ) (a : ActionSet) (f : Feed W)
    → dispatch_authorized_actions sink (suc (suc n)) a f ≡ dispatch_authorized_actions sink 2 a f
unfolding dispatch_authorized_actions
dispatch_settles sink n a f =
    let s = f.stats in
    let offered = record s { action_sets = u64 (s.action_sets + 1) } in
    let (taken, w) = sink.handle a f.world in
    let accepted = record f {
      stats = record offered { sink_accepted = u64 (s.sink_accepted + 1) };
      world = w;
    } in
    let (readback, v) = sink.query_windows_volume w in
    λ i.
      if not (has_any_action a) || not a.authorized_current
      then f
      else if not taken
      then record f { stats = offered; world = w }
      else if a.set_windows_volume
      then fed_back_flat sink n accepted readback v i
      else accepted
