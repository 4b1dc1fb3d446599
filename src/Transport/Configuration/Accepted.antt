-- ===== src/Transport/Configuration/Accepted.antt =====
-- The flags that a session of agent/v1_transport_configuration_session.cpp reports stand for responses
-- that the remote endpoint has given.
use native_ldac_xm5_windows.Prelude.{
  ℕ, ◌≡◌, refl, sym, ◌∙◌, subst, ◌≢◌, ◌⊎◌, inl, inr, Bool, true, false, List, [], ◌∷◌, arith,
}
use native_ldac_xm5_windows.Protocol.Avdtp.{
  single, command, accept, AvdtpHeader, signal_set_configuration, signal_open, signal_close,
  parse_header,
}
use native_ldac_xm5_windows.Protocol.Source.{
  source_handle_signaling, capabilities_sent, action_error, AvdtpAction, AvdtpSource,
}
use native_ldac_xm5_windows.Protocol.Source.Order.{AlignedIn, Asks}
use native_ldac_xm5_windows.Protocol.Source.Acceptance.{Accepts, handle-Accepts}
use native_ldac_xm5_windows.Transport.Backend.{Log}
use native_ldac_xm5_windows.Transport.Configuration.{ConfigurationResult, note_accepted}

-- A request and its response: a command with the signal, and the acceptance of it under its label.
pub record Agreed (signal : ℕ) (x : List ℕ × List ℕ) : Type 0 where
  pub label : ℕ
  pub asked :
      parse_header x.0
      ≡ inr (record {
        transaction_label = label;
        packet_type = single;
        message_type = command;
        packet_count = 0;
        signal_id = signal;
        payload_offset = 2;
      })
  pub answer : AvdtpHeader
  pub reads : parse_header x.1 ≡ inr answer
  pub same_label : answer.transaction_label ≡ label
  pub same_signal : answer.signal_id ≡ signal
  pub accepts : answer.message_type ≡ accept

-- One of the exchanges accepts the signal.
abbrev pub AcceptedIn : ℕ → List (List ℕ × List ℕ) → Type 0
AcceptedIn signal [] = ⊥
AcceptedIn signal (x ∷ xs) = Agreed signal x ⊎ AcceptedIn signal xs

-- Each flag of the result stands for an answer of the device.
pub record Backed (r : ConfigurationResult) (l : Log) : Type 0 where
  pub set_backed :
      (r.set_configuration_accepted ≡ false) ⊎ AcceptedIn signal_set_configuration l.exchanges
  pub open_backed : (r.avdtp_open_accepted ≡ false) ⊎ AcceptedIn signal_open l.exchanges
  pub close_backed : (r.avdtp_close_accepted ≡ false) ⊎ AcceptedIn signal_close l.exchanges
  pub media_backed : (r.media_opened ≡ false) ⊎ (l.media_opened ≡ true)
  pub channels_backed : (r.close_succeeded ≡ false) ⊎ (l.channels_closed ≡ true)

-- A flag that a signal may set.
flag_backed :
    (wanted signal : ℕ) (before after : Bool) (x : List ℕ × List ℕ) (log : List (List ℕ × List ℕ))
    → (after ≡ before) ⊎ ((signal ≡ wanted) × Agreed signal x)
    → (before ≡ false) ⊎ AcceptedIn wanted log
    → (after ≡ false) ⊎ AcceptedIn wanted (x ∷ log)
flag_backed wanted signal before after x log (inl e) (inl n) = inl (e ∙ n)
flag_backed wanted signal before after x log (inl e) (inr a) = inr (inr a)
flag_backed wanted signal before after x log (inr (e, a)) h =
    inr (inl (subst (λ n. Agreed n x) e a))

-- A signal that sets a flag is not one of the queries.
pub asks_no_capabilities :
    (s : AvdtpSource) (signal : ℕ)
    → signal ≡ s.pending_signal_id
    → AlignedIn s.state s
    → (signal ≡ signal_set_configuration) ⊎ (signal ≡ signal_open) ⊎ (signal ≡ signal_close)
    → s.state ≢ capabilities_sent
asks_no_capabilities s signal p a w c =
    let q = subst (λ x. AlignedIn x s) c a in ground (arith, q, p, w)

accepted-Agreed :
    (s : AvdtpSource) (request response : List ℕ)
    → Asks s request
    → Accepts s response
    → Agreed s.pending_signal_id (request, response)
accepted-Agreed s request response asks h = record {
  label = s.pending_transaction_label;
  asked = asks.reads_back;
  answer = h.header;
  reads = h.reads;
  same_label = h.label;
  same_signal = h.signal;
  accepts = h.kind;
}

-- What the note of a signal does to the flags.
note_flags :
    (signal : ℕ) (next : AvdtpAction) (r : ConfigurationResult)
    → let q = note_accepted signal next r in
      ((q.set_configuration_accepted ≡ r.set_configuration_accepted)
        ⊎ ((signal ≡ signal_set_configuration) × (next.kind ≢ action_error)))
      × ((q.avdtp_open_accepted ≡ r.avdtp_open_accepted)
          ⊎ ((signal ≡ signal_open) × (next.kind ≢ action_error)))
      × ((q.avdtp_close_accepted ≡ r.avdtp_close_accepted)
          ⊎ ((signal ≡ signal_close) × (next.kind ≢ action_error)))
      × (q.media_opened ≡ r.media_opened)
      × (q.close_succeeded ≡ r.close_succeeded)
unfolding note_accepted
note_flags signal next r = (ground arith, ground arith, ground arith, ground arith, ground arith)

-- A signal that is noted without an error was accepted.
noted-Agreed :
    (s : AvdtpSource) (signal wanted : ℕ) (request response : List ℕ)
    → signal ≡ s.pending_signal_id
    → AlignedIn s.state s
    → Asks s request
    → (wanted ≡ signal_set_configuration) ⊎ (wanted ≡ signal_open) ⊎ (wanted ≡ signal_close)
    → signal ≡ wanted
    → (source_handle_signaling s response).1.kind ≢ action_error
    → Agreed signal (request, response)
noted-Agreed s signal wanted request response p a asks w e n =
    let free = asks_no_capabilities s signal p a (
      subst (λ x. (x ≡ signal_set_configuration) ⊎ (x ≡ signal_open) ⊎ (x ≡ signal_close)) (sym e)
        w) in
    elim (handle-Accepts s response free) [
      | inl err ↦ absurd (n err)
      | inr h ↦
          subst (λ x. Agreed x (request, response)) (sym p)
            (accepted-Agreed s request response asks h)
    ]

pub noted-Backed :
    (s : AvdtpSource) (signal : ℕ) (request response : List ℕ) (r : ConfigurationResult) (l : Log)
    → signal ≡ s.pending_signal_id
    → AlignedIn s.state s
    → Asks s request
    → Backed r l
    → Backed
        (note_accepted signal (source_handle_signaling s response).1 r)
        (record l { exchanges = (request, response) ∷ l.exchanges })
noted-Backed s signal request response r l p a asks h =
    let next = (source_handle_signaling s response).1 in
    let (set, opened, closed, media, channels) = note_flags signal next r in
    record {
      set_backed =
          flag_backed signal_set_configuration signal _ _ _ l.exchanges
            (elim set [
              | inl e ↦ inl e
              | inr (e, n) ↦
                  inr (e, noted-Agreed s signal _ request response p a asks (inl refl) e n)
            ])
            h.set_backed;
      open_backed =
          flag_backed signal_open signal _ _ _ l.exchanges
            (elim opened [
              | inl e ↦ inl e
              | inr (e, n) ↦
                  inr (e, noted-Agreed s signal _ request response p a asks (inr (inl refl)) e n)
            ])
            h.open_backed;
      close_backed =
          flag_backed signal_close signal _ _ _ l.exchanges
            (elim closed [
              | inl e ↦ inl e
              | inr (e, n) ↦
                  inr (e, noted-Agreed s signal _ request response p a asks (inr (inr refl)) e n)
            ])
            h.close_backed;
      media_backed = elim h.media_backed [ inl n ↦ inl (media ∙ n) | inr a ↦ inr a ];
      channels_backed = elim h.channels_backed [ inl n ↦ inl (channels ∙ n) | inr a ↦ inr a ];
    }

-- Other results and logs, where the flags and the log stay.
pub same-Backed :
    (r q : ConfigurationResult) (l m : Log)
    → l ≡ m
    → q.set_configuration_accepted ≡ r.set_configuration_accepted
    → q.avdtp_open_accepted ≡ r.avdtp_open_accepted
    → q.avdtp_close_accepted ≡ r.avdtp_close_accepted
    → q.media_opened ≡ r.media_opened
    → q.close_succeeded ≡ r.close_succeeded
    → Backed r l
    → Backed q m
same-Backed r q l m e f g k media channels h = subst (Backed q) e (record {
  set_backed = elim h.set_backed [ inl n ↦ inl (f ∙ n) | inr a ↦ inr a ];
  open_backed = elim h.open_backed [ inl n ↦ inl (g ∙ n) | inr a ↦ inr a ];
  close_backed = elim h.close_backed [ inl n ↦ inl (k ∙ n) | inr a ↦ inr a ];
  media_backed = elim h.media_backed [ inl n ↦ inl (media ∙ n) | inr a ↦ inr a ];
  channels_backed = elim h.channels_backed [ inl n ↦ inl (channels ∙ n) | inr a ↦ inr a ];
})
