-- ===== src/Transport/Configuration/Told.antt =====
-- The phases of agent/v1_transport_configuration_session.cpp report only what the device has answered.
use native_ldac_xm5_windows.Prelude.{
  if_rule, branch_rule, ◌is◌, ℕ, zero, suc, ◌≡◌, refl, sym, ◌∙◌, subst, ◌≢◌, inl, inr, Bool, true,
  false, not, Option, none, some, arith,
}
use native_ldac_xm5_windows.Protocol.Avdtp.{packet_type_enum, message_type_enum}
use native_ldac_xm5_windows.Protocol.Source.{
  source_init, source_begin, source_media_channel_opened, source_close, source_state_enum,
  send_signaling, open_media_channel, session_open, session_closed, action_kind_enum, AvdtpAction,
  AvdtpSource,
}
use native_ldac_xm5_windows.Transport.Backend.{MediaReply, Backend, Log, log_media, log_close}
use native_ldac_xm5_windows.Transport.Configuration.{
  exchange_action, exchange_loop, finish, close_phase, media_phase, open_phase, after_loop,
  with_loop, exchange_phase, run_configuration, succeeded, ConfigurationOptions,
  ConfigurationResult, options_are_valid, Exchanged, gone_on, loop_fuel,
}
use native_ldac_xm5_windows.Transport.Configuration.Tracked.{Tracked}
use native_ldac_xm5_windows.Transport.Configuration.Exchanges.{
  action-Traced, begin-Tracked, closing-Tracked,
}
use native_ldac_xm5_windows.Transport.Configuration.Accepted.{Backed, same-Backed}
use native_ldac_xm5_windows.Transport.Configuration.Recorded.{
  Logs, Out, OutExchanged, action-Backed,
}

module _ {W : Type 0} (b : Backend W) (o : ConfigurationOptions) (log : W → Log)
    (k : Logs b log) where
  abbrev P : ConfigurationResult × W → Type 0
  P = Out b o log k

  -- The close of the channels keeps what stands for the other flags.
  closing-Backed :
      (r : ConfigurationResult) (is_closed : Bool) (l : Log)
      → Backed r l
      → Backed (record r { close_succeeded = is_closed }) (log_close is_closed l)
  closing-Backed r true l h = record {
    set_backed = h.set_backed;
    open_backed = h.open_backed;
    close_backed = h.close_backed;
    media_backed = h.media_backed;
    channels_backed = inr refl;
  }
  closing-Backed r false l h = record {
    set_backed = h.set_backed;
    open_backed = h.open_backed;
    close_backed = h.close_backed;
    media_backed = h.media_backed;
    channels_backed = inl refl;
  }

  finish-Backed : (r : ConfigurationResult) (w : W) → Backed r (log w) → P (finish b o r w)
  unfolding finish
  finish-Backed r w h =
      let ((is_closed, error), w1) = b.close_signaling w in
      let done = closing-Backed r is_closed (log w) h in
      let q = record r { close_succeeded = is_closed } in
      if_rule P (not r.signaling_opened) _ _ (λ e. h)
        (λ e.
          if_rule P (not is_closed) _ _
            (λ e1. same-Backed q _ _ (log w1) (sym (k.closes w)) refl refl refl refl refl done)
            (λ e1. same-Backed q _ _ (log w1) (sym (k.closes w)) refl refl refl refl refl done))

  -- A result that differs from the first in nothing that the log stands for.
  ends-Backed :
      (r q : ConfigurationResult) (w : W)
      → q.set_configuration_accepted ≡ r.set_configuration_accepted
      → q.avdtp_open_accepted ≡ r.avdtp_open_accepted
      → q.avdtp_close_accepted ≡ r.avdtp_close_accepted
      → q.media_opened ≡ r.media_opened
      → q.close_succeeded ≡ r.close_succeeded
      → Backed r (log w)
      → P (finish b o q w)
  ends-Backed r q w e f g m c h =
      finish-Backed q w (same-Backed r q (log w) (log w) refl e f g m c h)

  close_phase-Backed :
      (action : AvdtpAction) (s : AvdtpSource) (r : ConfigurationResult) (w : W)
      → Tracked action s r
      → Backed r (log w)
      → P (close_phase b o action s r w)
  unfolding close_phase
  close_phase-Backed action s r w t h =
      let e = exchange_action b o action s r w in
      let backed : Backed e.result (log e.world) = action-Backed b o log k action s r w t h in
      if_rule P (not e.went_on) _ _ (λ p. finish-Backed e.result e.world backed)
        (λ p.
          if_rule P (not (e.next.kind is session_closed)) _ _
            (λ q. ends-Backed e.result _ e.world refl refl refl refl refl backed)
            (λ q. ends-Backed e.result _ e.world refl refl refl refl refl backed))

  media_phase-Backed :
      (s : AvdtpSource) (r : ConfigurationResult) (w : W)
      → r.disposition ≢ succeeded
      → Backed r (log w)
      → P (media_phase b o s r w)
  unfolding media_phase
  media_phase-Backed s r w n h =
      let (opened, action) = source_media_channel_opened s in
      let (closing, request) = source_close opened in
      if_rule P (not (action.kind is session_open)) _ _
        (λ e. ends-Backed r _ w refl refl refl refl refl h)
        (λ e. close_phase-Backed request closing r w (closing-Tracked opened r n) h)

  opened_log :
      (reply : MediaReply) (l : Log)
      → not reply.succeeded ≡ false
      → log_media reply l ≡ record l { media_opened = true }
  opened_log reply l e = ground arith

  -- The media channel that the device has opened.
  opened-Backed :
      (r : ConfigurationResult) (reply : MediaReply) (l : Log)
      → not reply.succeeded ≡ false
      → Backed r l
      → Backed (record r { media_opened = true }) (log_media reply l)
  opened-Backed r reply l e h =
      subst (Backed (record r { media_opened = true })) (sym (opened_log reply l e)) (record {
        set_backed = h.set_backed;
        open_backed = h.open_backed;
        close_backed = h.close_backed;
        media_backed = inr refl;
        channels_backed = h.channels_backed;
      })

  unopened_log : (reply : MediaReply) (l : Log) → not reply.succeeded ≡ true → log_media reply l ≡ l
  unopened_log reply l e = ground arith

  open_phase-Backed :
      (s : AvdtpSource) (r : ConfigurationResult) (w : W)
      → r.disposition ≢ succeeded
      → Backed r (log w)
      → P (open_phase b o s r w)
  unfolding open_phase
  open_phase-Backed s r w n h =
      let (probe, w1) = b.cancelled w in
      let (reply, w2) = b.open_media o.media_open_timeout_ms o.preferred_media_mtu w1 in
      let probed : Backed r (log w1) =
        same-Backed r r (log w) (log w1) (sym (k.probes w)) refl refl refl refl refl h in
      let asked = k.opens o.media_open_timeout_ms o.preferred_media_mtu w1 in
      if_rule P probe _ _ (λ e. ends-Backed r _ w1 refl refl refl refl refl probed)
        (λ e.
          if_rule P (not reply.succeeded) _ _
            (λ e1. ends-Backed r _ w2 refl refl refl refl refl (
              same-Backed r r (log w1) (log w2) (sym (asked ∙ unopened_log reply (log w1) e1)) refl
                refl refl refl refl probed))
            (λ e1. media_phase-Backed s _ w2 n (
              same-Backed (record r { media_opened = true }) _ _ (log w2) (sym asked) refl refl refl
                refl refl (opened-Backed r reply (log w1) e1 probed))))

  after_loop-Backed :
      (e : Exchanged W)
      → e.result.disposition ≢ succeeded
      → OutExchanged b o log k e
      → P (after_loop b o e)
  unfolding after_loop
  after_loop-Backed e n h =
      if_rule P (not e.went_on) _ _ (λ p. finish-Backed e.result e.world h)
        (λ p.
          if_rule P (not (e.next.kind is open_media_channel)) _ _
            (λ q. ends-Backed e.result _ e.world refl refl refl refl refl h)
            (λ q. open_phase-Backed e.source e.result e.world n h))

  abbrev IfLooped : Option (Exchanged W) → Type 0
  IfLooped none = Unit
  IfLooped (some e) = (e.result.disposition ≢ succeeded) × OutExchanged b o log k e

  loop-Backed :
      (fuel : ℕ) (action : AvdtpAction) (s : AvdtpSource) (r : ConfigurationResult) (w : W)
      → Tracked action s r
      → Backed r (log w)
      → IfLooped (exchange_loop b o fuel action s r w)
  unfolding exchange_loop
  loop-Backed zero action s r w t h =
      if_rule IfLooped (action.kind is send_signaling) none (some (gone_on s action r w)) (λ e. tt)
        (λ e. (t.not_yet, h))
  loop-Backed (suc fuel) action s r w t h =
      let e = exchange_action b o action s r w in
      let traced = action-Traced b o action s r w t in
      let backed = action-Backed b o log k action s r w t h in
      branch_rule IfLooped (action.kind is send_signaling) _ (some (gone_on s action r w))
        (λ p.
          branch_rule IfLooped e.went_on (exchange_loop b o fuel e.next e.source e.result e.world)
            (some e)
            (λ q. elim traced.went [
              | inl n ↦ absurd (ground arith)
              | inr u ↦ loop-Backed fuel e.next e.source e.result e.world u backed
            ])
            (λ q. (traced.not_yet, backed)))
        (λ p. (t.not_yet, h))

  abbrev pub IfBacked : Option (ConfigurationResult × W) → Type 0
  IfBacked none = Unit
  IfBacked (some (r, w)) = Backed r (log w)

  with_loop-Backed : (x : Option (Exchanged W)) → IfLooped x → IfBacked (with_loop b o x)
  with_loop-Backed none h = tt
  with_loop-Backed (some e) (n, h) = after_loop-Backed e n h

  -- A result with no flag set.
  bare-Backed :
      (r : ConfigurationResult) (l : Log)
      → r.set_configuration_accepted ≡ false
      → r.avdtp_open_accepted ≡ false
      → r.avdtp_close_accepted ≡ false
      → r.media_opened ≡ false
      → r.close_succeeded ≡ false
      → Backed r l
  bare-Backed r l e f g m c = record {
    set_backed = inl e;
    open_backed = inl f;
    close_backed = inl g;
    media_backed = inl m;
    channels_backed = inl c;
  }

  pub run-Backed : (w : W) → IfBacked (run_configuration b o w)
  unfolding run_configuration exchange_phase
  run-Backed w =
      let (probe, w1) = b.cancelled w in
      let ((is_open, error), w2) = b.open_signaling o.open_timeout_ms w1 in
      let s = source_init o.local_capabilities o.local_seid o.preferred_sample_rate_hz in
      if_rule IfBacked (not (options_are_valid o)) _ _
        (λ e. bare-Backed _ _ refl refl refl refl refl)
        (λ e.
          if_rule IfBacked probe _ _ (λ e1. bare-Backed _ _ refl refl refl refl refl)
            (λ e1.
              if_rule IfBacked (not is_open) _ _ (λ e2. bare-Backed _ _ refl refl refl refl refl)
                (λ e2. with_loop-Backed _ (
                  loop-Backed loop_fuel (source_begin s).1 (source_begin s).0 _ w2
                    (begin-Tracked s _ (ground arith))
                    (bare-Backed _ _ refl refl refl refl refl)))))
