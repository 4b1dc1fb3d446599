-- ===== src/Transport/Configuration/Success.antt =====
-- A session of agent/v1_transport_configuration_session.cpp that reports success has done all of its
-- work.
use native_ldac_xm5_windows.Prelude.{
  if_rule, branch_rule, ◌is◌, ℕ, zero, suc, ◌≡◌, refl, ◌∙◌, subst, ◌≢◌, ◌⊎◌, inl, inr, true, false,
  not, Option, none, some, arith,
}
use native_ldac_xm5_windows.Protocol.Source.{
  source_init, source_begin, source_media_channel_opened, source_close, waiting_for_media_channel,
  source_state_enum, send_signaling, open_media_channel, session_open, session_closed,
  action_kind_enum, AvdtpAction, AvdtpSource,
}
use native_ldac_xm5_windows.Protocol.Avdtp.{packet_type_enum, message_type_enum}
use native_ldac_xm5_windows.Transport.Backend.{
  Backend, Counted, uncounted, counting, Log, Logged, unlogged, logging,
}
use native_ldac_xm5_windows.Transport.Configuration.Accepted.{Backed}
use native_ldac_xm5_windows.Transport.Configuration.Recorded.{Logs}
use native_ldac_xm5_windows.Transport.Configuration.Told.{IfBacked, run-Backed}
use native_ldac_xm5_windows.Transport.Configuration.{
  exchange_action, exchange_loop, finish, close_phase, media_phase, open_phase, after_loop,
  with_loop, exchange_phase, run_configuration, succeeded, avdtp_close, ConfigurationOptions,
  ConfigurationResult, options_are_valid, set_primary, Exchanged, gone_on, loop_fuel,
}
use native_ldac_xm5_windows.Transport.Configuration.Exchanges.{
  action-Traced, begin-Tracked, closing-Tracked,
}
use native_ldac_xm5_windows.Transport.Configuration.Ends.{Ends}
use native_ldac_xm5_windows.Transport.Configuration.Closing.{Balanced, run_configuration-Balanced}
use native_ldac_xm5_windows.Transport.Configuration.Tracked.{Known, Tracked}

-- The remote endpoint has accepted its configuration, the opening and the closing of the stream,
-- the media channel was open, and the channels are closed.
pub record Complete (r : ConfigurationResult) : Type 0 where
  pub configured : r.set_configuration_accepted ≡ true
  pub opened : r.avdtp_open_accepted ≡ true
  pub media : r.media_opened ≡ true
  pub stream_closed : r.avdtp_close_accepted ≡ true
  pub channels_closed : r.close_succeeded ≡ true
  pub reached : r.stage ≡ avdtp_close

abbrev pub Judged : ConfigurationResult → Type 0
Judged r = (r.disposition ≢ succeeded) ⊎ Complete r

abbrev JudgedOut : {W : Type 0} → ConfigurationResult × W → Type 0
JudgedOut (r, w) = Judged r

module _ {W : Type 0} (b : Backend W) (o : ConfigurationOptions) where
  not_yet-Judged :
      (r : ConfigurationResult) (w : W) → r.disposition ≢ succeeded → Judged (finish b o r w).0
  unfolding finish
  not_yet-Judged r w n =
      if_rule JudgedOut (not r.signaling_opened) _ _ (λ e. inl n)
        (λ e.
          if_rule JudgedOut (not (b.close_signaling w).0.0) _ _ (λ e1. inl (ground arith))
            (λ e1. inl n))

  done-Judged :
      (r : ConfigurationResult) (w : W)
      → r.set_configuration_accepted ≡ true
      → r.avdtp_open_accepted ≡ true
      → r.media_opened ≡ true
      → r.signaling_opened ≡ true
      → r.avdtp_close_accepted ≡ true
      → r.stage ≡ avdtp_close
      → Judged (finish b o r w).0
  unfolding finish
  done-Judged r w set opened media channel closed stage =
      if_rule JudgedOut (not r.signaling_opened) _ _ (λ e. ground arith)
        (λ e.
          if_rule JudgedOut (not (b.close_signaling w).0.0) _ _ (λ e1. inl (ground arith))
            (λ e1. inr (record {
              configured = set;
              opened = opened;
              media = media;
              stream_closed = closed;
              channels_closed = ground arith;
              reached = stage;
            })))

  close_phase-Judged :
      (action : AvdtpAction) (s : AvdtpSource) (r : ConfigurationResult) (w : W)
      → Tracked action s r
      → r.set_configuration_accepted ≡ true
      → r.avdtp_open_accepted ≡ true
      → r.media_opened ≡ true
      → r.signaling_opened ≡ true
      → Judged (close_phase b o action s r w).0
  unfolding close_phase
  close_phase-Judged action s r w t set opened media channel =
      let e = exchange_action b o action s r w in
      let traced = action-Traced b o action s r w t in
      if_rule JudgedOut (not e.went_on) (finish b o e.result e.world) _
        (λ p. not_yet-Judged _ _ traced.not_yet)
        (λ p.
          if_rule JudgedOut (not (e.next.kind is session_closed)) _ _
            (λ q. not_yet-Judged _ _ (ground arith))
            (λ q.
              done-Judged (set_primary e.result succeeded avdtp_close) e.world
                (traced.grown.set_stays set) (traced.grown.open_stays opened)
                (traced.grown.media_stays ∙ media) (traced.grown.channel_stays ∙ channel)
                (ground (arith, traced.closing)) refl))

  media_phase-Judged :
      (s : AvdtpSource) (r : ConfigurationResult) (w : W)
      → r.set_configuration_accepted ≡ true
      → r.avdtp_open_accepted ≡ true
      → r.media_opened ≡ true
      → r.signaling_opened ≡ true
      → r.disposition ≢ succeeded
      → Judged (media_phase b o s r w).0
  unfolding media_phase
  media_phase-Judged s r w set opened media channel n =
      let (opened_source, action) = source_media_channel_opened s in
      let (closing, request) = source_close opened_source in
      if_rule JudgedOut (not (action.kind is session_open)) _ _
        (λ e. not_yet-Judged _ w (ground arith))
        (λ e.
          close_phase-Judged request closing r w (closing-Tracked opened_source r n) set opened
            media channel)

  open_phase-Judged :
      (s : AvdtpSource) (r : ConfigurationResult) (w : W)
      → r.set_configuration_accepted ≡ true
      → r.avdtp_open_accepted ≡ true
      → r.signaling_opened ≡ true
      → r.disposition ≢ succeeded
      → Judged (open_phase b o s r w).0
  unfolding open_phase
  open_phase-Judged s r w set opened channel n =
      let w1 = (b.cancelled w).1 in
      let (reply, w2) = b.open_media o.media_open_timeout_ms o.preferred_media_mtu w1 in
      if_rule JudgedOut (b.cancelled w).0 _ _ (λ e. not_yet-Judged _ w1 (ground arith))
        (λ e.
          if_rule JudgedOut (not reply.succeeded) _ _ (λ e1. not_yet-Judged _ w2 (ground arith))
            (λ e1. media_phase-Judged s _ w2 set opened refl channel n))

  -- What is known where the loop has ended.
  record Reached (e : Exchanged W) : Type 0 where
    not_yet : e.result.disposition ≢ succeeded
    channel : e.result.signaling_opened ≡ true
    went : (e.went_on ≡ false) ⊎ Tracked e.next e.source e.result

  abbrev IfReached : Option (Exchanged W) → Type 0
  IfReached none = Unit
  IfReached (some e) = Reached e

  loop-Reached :
      (fuel : ℕ) (action : AvdtpAction) (s : AvdtpSource) (r : ConfigurationResult) (w : W)
      → Tracked action s r
      → r.signaling_opened ≡ true
      → IfReached (exchange_loop b o fuel action s r w)
  unfolding exchange_loop
  loop-Reached zero action s r w t c =
      if_rule IfReached (action.kind is send_signaling) none (some (gone_on s action r w)) (λ e. tt)
        (λ e. record { not_yet = t.not_yet; channel = c; went = inr t })
  loop-Reached (suc fuel) action s r w t c =
      let e = exchange_action b o action s r w in
      let traced = action-Traced b o action s r w t in
      let open_still = traced.grown.channel_stays ∙ c in
      branch_rule IfReached (action.kind is send_signaling) _ (some (gone_on s action r w))
        (λ p.
          branch_rule IfReached e.went_on (exchange_loop b o fuel e.next e.source e.result e.world)
            (some e)
            (λ q. elim traced.went [
              | inl n ↦ absurd (ground arith)
              | inr u ↦ loop-Reached fuel e.next e.source e.result e.world u open_still
            ])
            (λ q. record { not_yet = traced.not_yet; channel = open_still; went = inl q }))
        (λ p. record { not_yet = t.not_yet; channel = c; went = inr t })

  after_loop-Judged : (e : Exchanged W) → Reached e → Judged (after_loop b o e).0
  unfolding after_loop
  after_loop-Judged e h =
      if_rule JudgedOut (not e.went_on) _ _ (λ p. not_yet-Judged _ _ h.not_yet)
        (λ p.
          if_rule JudgedOut (not (e.next.kind is open_media_channel)) _ _
            (λ q. not_yet-Judged _ _ (ground arith))
            (λ q. elim h.went [
              | inl n ↦ absurd (ground arith)
              | inr t ↦
                  let at : e.source.state ≡ waiting_for_media_channel = ground (arith, t.waiting) in
                  let (set, opened) =
                    subst
                      (λ x.
                        Known x e.result.set_configuration_accepted e.result.avdtp_open_accepted)
                      at t.known in
                  open_phase-Judged e.source e.result e.world set opened h.channel h.not_yet
            ]))

  abbrev IfJudged : Option (ConfigurationResult × W) → Type 0
  IfJudged none = Unit
  IfJudged (some (r, w)) = Judged r

  with_loop-Judged : (x : Option (Exchanged W)) → IfReached x → IfJudged (with_loop b o x)
  with_loop-Judged none h = tt
  with_loop-Judged (some e) h = after_loop-Judged e h

  run-Judged : (w : W) → IfJudged (run_configuration b o w)
  unfolding run_configuration exchange_phase
  run-Judged w =
      let (probe, w1) = b.cancelled w in
      let ((is_open, error), w2) = b.open_signaling o.open_timeout_ms w1 in
      let s = source_init o.local_capabilities o.local_seid o.preferred_sample_rate_hz in
      if_rule IfJudged (not (options_are_valid o)) _ _ (λ e. inl (ground arith))
        (λ e.
          if_rule IfJudged probe _ _ (λ e1. inl (ground arith))
            (λ e1.
              if_rule IfJudged (not is_open) _ _ (λ e2. inl (ground arith))
                (λ e2. with_loop-Judged _ (
                  loop-Reached loop_fuel (source_begin s).1 (source_begin s).0 _ w2
                    (begin-Tracked s _ (ground arith)) refl))))

-- What is recorded under the count.
abbrev recorded : {W : Type 0} → Counted (Logged W) → Log
recorded c = c.world.log

recording-Logs : {W : Type 0} (b : Backend W) → Logs (counting (logging b)) (recorded {W = W})
recording-Logs b = record {
  begins = λ timeout c. refl;
  exchanges = λ request capacity timeout c. refl;
  opens = λ timeout mtu c. refl;
  closes = λ c. refl;
  probes = λ c. refl;
}

-- A result that tells what the device has answered, and where it reports success, that all is done.
abbrev pub Told : {W : Type 0} → ConfigurationResult → Counted (Logged W) → Type 0
Told r c = Backed r c.world.log × ((r.disposition ≢ succeeded) ⊎ Complete r)

told_lem :
    {W : Type 0} (b : Backend W) (o : ConfigurationOptions)
    (x : Option (ConfigurationResult × Counted (Logged W)))
    → Ends x (Balanced {W = Logged W})
    → IfJudged (counting (logging b)) o x
    → IfBacked (counting (logging b)) o (recorded {W = W}) (recording-Logs b) x
    → Ends x (Told {W = W})
told_lem b o none h j k = h
told_lem b o (some (r, c)) h j k = (k, j)

-- A session ends, and each flag that it reports stands for what the device has answered: a flag for
-- SET_CONFIGURATION, OPEN or CLOSE for a response that accepts a command with that signal under
-- its label, the flag for the media channel for its opening, and the flag for the channels for
-- their closing. Where it reports success, all five flags are set, and CLOSE is the last stage.
pub run_configuration-Complete :
    {W : Type 0} (b : Backend W) (o : ConfigurationOptions) (w : W)
    → Ends (run_configuration (counting (logging b)) o (uncounted (unlogged w))) (Told {W = W})
run_configuration-Complete {W = W} b o w =
    let c = uncounted (unlogged w) in
    let device = logging b in
    told_lem b o (run_configuration (counting device) o c)
      (run_configuration-Balanced device o (unlogged w)) (run-Judged (counting device) o c)
      (run-Backed (counting device) o (recorded {W = W}) (recording-Logs b) c)
