-- ===== src/Otp/Request.antt =====
-- internal/otp/service.go: `Request`, with `markDeliveryFailed`, and internal/otp/jobs.go's payload.
use dating_app_backend.Prelude.{
  ℕ, suc, ◌+◌, Bool, false, not, Option, none, some, List, ◌∷◌, Text, codes, is_empty,
  if◌then◌else◌, Handler, done, failed, lift, pure, throw, exec, exec_ignored, ◌>>=◌, ◌>>◌,
  update_where,
}
use dating_app_backend.Otp.Model.{
  Channel, whatsapp, email, Purpose, OtpError, infrastructure, queue_unavailable, pending, queued,
  delivery_failed, OtpCode, OtpConfig, RequestInput,
}
use dating_app_backend.Otp.Normalize.{
  Target, normalize_target, hash_identifier, hash_code, generate_numeric_code,
}
use dating_app_backend.Otp.Verify.{has_id, identifier_for}
use dating_app_backend.Otp.Limits.{Redis, enforce_rate_limits}
use dating_app_backend.Otp.Limits

-- The statements of `Request`, by which a fault is named.
pub data Site : Type 0 where
  limits : Limits.Site → Site
  insert_code mark_failed build_task enqueue mark_queued : Site

-- `DeliveryPayload`
pub record DeliveryPayload : Type 0 where
  pub otp_id : ℕ
  pub channel : Channel
  pub identifier : Text
  pub code : Text
  pub purpose : Purpose

-- What `Request` reads and writes: the table, Redis and the queue.
pub record RequestStore (R : Type 0) : Type 0 where
  pub codes : List OtpCode
  pub next_id : ℕ
  pub redis : R
  pub queue : List DeliveryPayload

-- What the environment gives a request: the time, the uuid, the digits, and the error texts.
pub record RequestEnv : Type 0 where
  pub now : ℕ
  pub uuid : ℕ
  pub draw : ℕ → Option ℕ
  pub has_redis : Bool
  pub has_queue : Bool
  pub message : Text

abbrev pub as_queued : ℕ → OtpCode → OtpCode
as_queued now c = record c { delivery_status = queued; updated_at = now }

abbrev pub as_delivery_failed : ℕ → Text → OtpCode → OtpCode
as_delivery_failed now message c = record c {
  delivery_status = delivery_failed;
  failed_at = some now;
  delivery_error = some message;
  updated_at = now;
}

abbrev pub optional : Text → Option Text
optional s = if is_empty s then none else some s

module _ (hmac_hex : Text → Text → Text) where
  -- The row that `Request` inserts.
  unfoldable pub new_code : OtpConfig → RequestEnv → RequestInput → Target → Text → ℕ → OtpCode
  new_code cfg env input t code id = record {
    id = id;
    uuid = env.uuid;
    user_id = none;
    channel = t.channel;
    purpose = t.purpose;
    identifier_hash = hash_identifier hmac_hex cfg.secret t.identifier;
    phone = identifier_for whatsapp t.channel t.identifier;
    email = identifier_for email t.channel t.identifier;
    otp_hash = hash_code hmac_hex cfg.secret code t.identifier t.purpose;
    expires_at = env.now + cfg.expiry_ttl;
    consumed_at = none;
    attempt_count = 0;
    max_attempts = cfg.max_attempts;
    resend_count = 0;
    ip_address = input.ip_address;
    user_agent = input.user_agent;
    device_id = optional input.device_id;
    delivery_status = pending;
    delivery_provider = none;
    provider_message_id = none;
    delivery_attempts = 0;
    last_delivery_attempt_at = none;
    sent_at = none;
    failed_at = none;
    delivery_error = none;
    created_at = env.now;
    updated_at = env.now;
  }

module _ (redis : Redis) where
  abbrev pub Store : Type 0
  Store = RequestStore redis.State

  abbrev pub on_redis {ℓ} : {A : Type ℓ} → Handler OtpError redis.State A → Handler OtpError Store A
  on_redis m s = elim (m s.redis) [
    | done a r ↦ done a (record s { redis = r })
    | failed e r ↦ failed e (record s { redis = r })
  ]

  -- `UPDATE otp_codes SET ... WHERE id = ?`
  abbrev pub update_code : ℕ → (OtpCode → OtpCode) → Store → Store
  update_code id f s = record s { codes = update_where (has_id id) f s.codes }

  abbrev pub insert_row : OtpCode → Store → Store
  insert_row c s = record s { codes = c ∷ s.codes; next_id = suc s.next_id }

  abbrev pub push_task : DeliveryPayload → Store → Store
  push_task p s = record s { queue = p ∷ s.queue }

  -- `markDeliveryFailed`, whose error the callers drop, and the error that is returned.
  abbrev give_up : Bool → ℕ → ℕ → Text → OtpError → Handler OtpError Store OtpCode
  give_up fails id now message e = do
    exec_ignored fails (update_code id (as_delivery_failed now message))
    throw e

  module _ (hmac_hex : Text → Text → Text) (parse_address : Text → Bool) where
    -- From the inserted row on.
    unfoldable pub deliver_new :
        (Site → Bool) → RequestEnv → Target → Text → OtpCode → Handler OtpError Store OtpCode
    deliver_new faults env t code c =
        let payload : DeliveryPayload = record {
          otp_id = c.uuid;
          channel = t.channel;
          identifier = t.identifier;
          code = code;
          purpose = t.purpose;
        } in
        if not env.has_queue
        then give_up (faults mark_failed) c.id env.now (codes "queue client is not configured")
            queue_unavailable
        else if faults build_task
        then give_up (faults mark_failed) c.id env.now env.message infrastructure
        else if faults enqueue
        then give_up (faults mark_failed) c.id env.now env.message infrastructure
        else (do
          exec false infrastructure (push_task payload)
          exec (faults mark_queued) infrastructure (update_code c.id (as_queued env.now))
          pure (record c { delivery_status = queued }))

    abbrev next_id_of : Handler OtpError Store ℕ
    next_id_of s = done s.next_id s

    -- From the limits on.
    unfoldable pub issue :
        (Site → Bool)
        → OtpConfig
        → RequestEnv
        → RequestInput
        → Target
        → Handler OtpError Store OtpCode
    issue faults cfg env input t = do
      code ← lift (generate_numeric_code env.draw cfg.length)
      id ← next_id_of
      let c = new_code hmac_hex cfg env input t code id
      exec (faults insert_code) infrastructure (insert_row c)
      deliver_new faults env t code c

    unfoldable pub request :
        (Site → Bool) → OtpConfig → RequestEnv → RequestInput → Handler OtpError Store OtpCode
    request faults cfg env input = do
      t ← lift (normalize_target parse_address input.channel input.purpose input.phone input.email)
      on_redis (
          enforce_rate_limits redis (λ l. faults (limits l)) env.has_redis cfg env.now
            (hash_identifier hmac_hex cfg.secret t.identifier) input.ip_address)
      issue faults cfg env input t
