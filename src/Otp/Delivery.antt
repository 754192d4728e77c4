-- ===== src/Otp/Delivery.antt =====
-- internal/otp/processor.go: `ProcessDeliverOTP` and `createDeliveryLog`. The providers are parameters.
use dating_app_backend.Prelude.{
  ℕ, ◌+◌, ◌≤◌, ◌≡◌, refl, ◌⊎◌, inl, inr, Bool, true, false, Option, none, some, List, [], ◌∷◌,
  arith, Text, if◌then◌else◌, ltb, ◌==◌, is_some, Result, ok, err, Handler, pure, throw, query,
  exec, exec_ignored, or_throw, ◌>>=◌, ◌>>◌, find_first, update_where, store_of, Option-cases,
  Bool-cases,
}
use dating_app_backend.Otp.Model.{
  Channel, Purpose, OtpError, infrastructure, DeliveryStatus, sending, sent, delivery_failed,
  expired, OtpCode, OtpDeliveryLog, channel_text,
}
use dating_app_backend.Otp.Verify.{has_id}
use dating_app_backend.Otp.Request.{DeliveryPayload, optional}

-- The statements, by which a fault is named.
pub data Site : Type 0 where
  find_code mark_expired mark_sending log_failure mark_failed log_sent mark_sent : Site

-- The tables, and what has been handed to the providers, last first.
pub record DeliveryStore : Type 0 where
  pub rows : List OtpCode
  pub logs : List OtpDeliveryLog
  pub outbox : List DeliveryPayload

-- `OTPProvider.SendOTP`: a message id, or an error text.
abbrev pub Sender : Type 0
Sender = Text → Text → Purpose → Result Text Text

abbrev pub set_row : ℕ → (OtpCode → OtpCode) → DeliveryStore → DeliveryStore
set_row id f s = record s { rows = update_where (has_id id) f s.rows }

abbrev pub as_expired_at : ℕ → OtpCode → OtpCode
as_expired_at now c = record c { delivery_status = expired; updated_at = now }

abbrev pub as_sending : ℕ → Text → OtpCode → OtpCode
as_sending now provider c = record c {
  delivery_status = sending;
  delivery_provider = some provider;
  delivery_attempts = c.delivery_attempts + 1;
  last_delivery_attempt_at = some now;
  updated_at = now;
}

abbrev pub as_failed : ℕ → Text → OtpCode → OtpCode
as_failed now message c = record c {
  delivery_status = delivery_failed;
  failed_at = some now;
  delivery_error = some message;
  updated_at = now;
}

abbrev pub as_sent : ℕ → Text → OtpCode → OtpCode
as_sent now message_id c = record c {
  delivery_status = sent;
  provider_message_id = some message_id;
  sent_at = some now;
  failed_at = none;
  delivery_error = none;
  updated_at = now;
}

-- `createDeliveryLog`
abbrev pub add_log :
    ℕ → ℕ → DeliveryPayload → DeliveryStatus → Text → Text → DeliveryStore → DeliveryStore
add_log now id p status message_id message s = record s {
  logs =
      record {
        otp_code_id = id;
        channel = channel_text p.channel;
        provider = channel_text p.channel;
        identifier = p.identifier;
        status = status;
        provider_message_id = optional message_id;
        error_message = optional message;
        attempted_at = now;
      }
      ∷ s.logs;
}

-- What follows `SendOTP`.
unfoldable pub record_result :
    (Site → Bool)
    → ℕ
    → ℕ
    → DeliveryPayload
    → Result Text Text
    → Handler OtpError DeliveryStore (Unit {0})
record_result faults now id p (err message) = do
  exec_ignored (faults log_failure) (add_log now id p delivery_failed [] message)
  exec_ignored (faults mark_failed) (set_row id (as_failed now message))
  throw infrastructure
record_result faults now id p (ok message_id) = do
  exec (faults log_sent) infrastructure (add_log now id p sent message_id [])
  exec (faults mark_sent) infrastructure (set_row id (as_sent now message_id))

abbrev pub push_outbox : DeliveryPayload → DeliveryStore → DeliveryStore
push_outbox p s = record s { outbox = p ∷ s.outbox }

unfoldable pub deliver :
    (Site → Bool)
    → ℕ
    → DeliveryPayload
    → Sender
    → OtpCode
    → Handler OtpError DeliveryStore (Unit {0})
deliver faults now p send c = do
  exec (faults mark_sending) infrastructure (set_row c.id (as_sending now (channel_text p.channel)))
  exec false infrastructure (push_outbox p)
  record_result faults now c.id p (send p.identifier p.code p.purpose)

-- From the row on.
unfoldable pub deliver_found :
    (Site → Bool)
    → (Channel → Option Sender)
    → ℕ
    → DeliveryPayload
    → OtpCode
    → Handler OtpError DeliveryStore (Unit {0})
deliver_found faults providers now p c =
    if ltb c.expires_at now
    then exec (faults mark_expired) infrastructure (set_row c.id (as_expired_at now))
    else if is_some c.consumed_at
    then pure tt
    else (do send ← or_throw (providers p.channel) infrastructure; deliver faults now p send c)

-- `task` is none where the payload cannot be decoded or its id is no uuid.
unfoldable pub process_deliver_otp :
    (Site → Bool)
    → (Channel → Option Sender)
    → ℕ
    → Option DeliveryPayload
    → Handler OtpError DeliveryStore (Unit {0})
process_deliver_otp faults providers now task = do
  p ← or_throw task infrastructure
  found ← query (faults find_code) infrastructure (λ s. find_first (λ c. c.uuid == p.otp_id) s.rows)
  c ← or_throw found infrastructure
  deliver_found faults providers now p c

record_result-outbox :
    (faults : Site → Bool) (now id : ℕ) (p : DeliveryPayload) (r : Result Text Text)
    (s : DeliveryStore)
    → (store_of (record_result faults now id p r s)).outbox ≡ s.outbox
unfolding record_result
record_result-outbox faults now id p (ok m) s = ground arith
record_result-outbox faults now id p (err m) s = ground arith

deliver-outbox :
    (faults : Site → Bool) (now : ℕ) (p : DeliveryPayload) (send : Sender) (c : OtpCode)
    (s : DeliveryStore)
    → let out = (store_of (deliver faults now p send c s)).outbox in
      (out ≡ s.outbox) ⊎ (out ≡ p ∷ s.outbox)
unfolding deliver
deliver-outbox faults now p send c s =
    let s₁ = push_outbox p (set_row c.id (as_sending now (channel_text p.channel)) s) in
    ground (arith, record_result-outbox faults now c.id p (send p.identifier p.code p.purpose) s₁)

deliver_found-outbox :
    (faults : Site → Bool) (providers : Channel → Option Sender) (now : ℕ) (p : DeliveryPayload)
    (c : OtpCode) (s : DeliveryStore)
    → let out = (store_of (deliver_found faults providers now p c s)).outbox in
      (out ≡ s.outbox) ⊎ ((out ≡ p ∷ s.outbox) × (now ≤ c.expires_at) × (c.consumed_at ≡ none))
unfolding deliver_found
deliver_found-outbox faults providers now p c s = elim (Bool-cases (ltb c.expires_at now)) [
  | inl b ↦ inl (rw (b, deliver_found) (expire_keeps (faults mark_expired)))
  | inr b ↦ elim (Bool-cases (is_some c.consumed_at)) [
    | inl q ↦ inl (rw (b, deliver_found) (rw (q, deliver_found) refl))
    | inr q ↦ elim (Option-cases (providers p.channel)) [
      | inl e ↦ inl (rw (b, deliver_found) (rw (q, deliver_found) (rw (e, deliver_found) refl)))
      | inr (send, e) ↦ elim (deliver-outbox faults now p send c s) [
        | inl h ↦ inl (rw (b, deliver_found) (rw (q, deliver_found) (rw (e, deliver_found) h)))
        | inr h ↦ inr (
          rw (b, deliver_found) (rw (q, deliver_found) (rw (e, deliver_found) h)),
          ground (arith, b),
          ground (arith, q),
        )
      ]
    ]
  ]
]
  where
    expire_keeps :
        (fails : Bool)
        → (store_of
            (exec {E = OtpError} fails infrastructure (set_row c.id (as_expired_at now)) s)).outbox
          ≡ s.outbox
    expire_keeps true = refl
    expire_keeps false = refl

-- A task hands at most one message to a provider, whatever the database and the provider do; and it
-- hands one over only for a code that the table holds, is in time and is not consumed.
pub deliver_guarded :
    (faults : Site → Bool) (providers : Channel → Option Sender) (now : ℕ) (p : DeliveryPayload)
    (s : DeliveryStore)
    → let out = (store_of (process_deliver_otp faults providers now (some p) s)).outbox in
      (out ≡ s.outbox)
      ⊎ ((out ≡ p ∷ s.outbox)
          × ((c : OtpCode) × (find_first (λ c. c.uuid == p.otp_id) s.rows ≡ some c)
              × (now ≤ c.expires_at)
              × (c.consumed_at ≡ none)))
unfolding process_deliver_otp
deliver_guarded faults providers now p s =
    elim (Option-cases (find_first (λ c. c.uuid == p.otp_id) s.rows)) [
      | inl e ↦ ground (arith, e)
      | inr (c, e) ↦ elim (Bool-cases (faults find_code)) [
        | inl b ↦ inl (rw b refl)
        | inr b ↦ elim (deliver_found-outbox faults providers now p c s) [
          | inl h ↦ inl (rw (b, e) h)
          | inr (h, le, none') ↦ inr (rw (b, e) h, (c, e, le, none'))
        ]
      ]
    ]
