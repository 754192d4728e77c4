-- ===== src/Otp/Verify.antt =====
-- internal/otp/service.go: `Verify`.
use dating_app_backend.Prelude.{
  ℕ, ◌+◌, ◌≡◌, Bool, true, not, ◌&&◌, ◌||◌, Option, none, some, List, [], Text, text_eq, is_empty,
  if◌then◌else◌, ltb, leb, ◌==◌, is_none, ok, Handler, lift, pure, throw, query, exec, exec_ignored,
  require, or_throw, ◌>>=◌, ◌>>◌, select, first_by, update_where, Outcome, done, failed, Bool-cases,
  Result-cases, inl, inr,
}
use dating_app_backend.Otp.Model.{
  Channel, whatsapp, email, Purpose, OtpError, invalid_code, otp_expired, otp_max_attempts,
  infrastructure, sent, expired, same_channel, same_purpose, OtpCode, OtpConfig, VerifyInput,
}
use dating_app_backend.Otp.Normalize.{Target, normalize_target, hash_identifier, compare_code_hash}

-- The statements of `Verify`, by which a fault is named.
pub data Site : Type 0 where
  find_code mark_expired count_attempt consume : Site

-- `WHERE identifier_hash = ? AND channel = ? AND purpose = ? AND consumed_at IS NULL`
abbrev pub is_open_for : Text → Channel → Purpose → OtpCode → Bool
is_open_for hash channel purpose c =
    text_eq c.identifier_hash hash
    && (same_channel c.channel channel && (same_purpose c.purpose purpose && is_none c.consumed_at))

-- `ORDER BY created_at DESC`; `First` adds the primary key.
abbrev pub is_newer : OtpCode → OtpCode → Bool
is_newer x y = ltb y.created_at x.created_at || (x.created_at == y.created_at && ltb x.id y.id)

unfoldable pub latest_open : Text → Channel → Purpose → List OtpCode → Option OtpCode
latest_open hash channel purpose rows =
    first_by is_newer (select (is_open_for hash channel purpose) rows)

abbrev pub has_id : ℕ → OtpCode → Bool
has_id i c = c.id == i

-- `"delivery_status": DeliveryExpired`; `Update` on a model sets `updated_at` too, to a clock read as `now`.
abbrev pub as_expired : ℕ → OtpCode → OtpCode
as_expired now c = record c { delivery_status = expired; updated_at = now }

-- `"attempt_count": nextAttempts, "updated_at": now`
abbrev pub with_attempts : ℕ → ℕ → OtpCode → OtpCode
with_attempts n now c = record c { attempt_count = n; updated_at = now }

abbrev pub as_consumed : ℕ → OtpCode → OtpCode
as_consumed now c = record c { consumed_at = some now; updated_at = now }

abbrev pub identifier_for : Channel → Channel → Text → Option Text
identifier_for wanted channel identifier =
    if same_channel wanted channel then some identifier else none

unfoldable pub dev_bypass_otp_code : ℕ → ℕ → Channel → Purpose → Text → OtpCode
dev_bypass_otp_code uuid now channel purpose identifier = record {
  id = 0;
  uuid = uuid;
  user_id = none;
  channel = channel;
  purpose = purpose;
  identifier_hash = [];
  phone = identifier_for whatsapp channel identifier;
  email = identifier_for email channel identifier;
  otp_hash = [];
  expires_at = 0;
  consumed_at = some now;
  attempt_count = 0;
  max_attempts = 0;
  resend_count = 0;
  ip_address = [];
  user_agent = [];
  device_id = none;
  delivery_status = sent;
  delivery_provider = none;
  provider_message_id = none;
  delivery_attempts = 0;
  last_delivery_attempt_at = none;
  sent_at = none;
  failed_at = none;
  delivery_error = none;
  created_at = now;
  updated_at = now;
}

module _ (hmac_hex : Text → Text → Text) where
  -- From the read of the row on: expiry, attempts, comparison, consumption.
  unfoldable pub check_code :
      (Site → Bool)
      → OtpConfig
      → ℕ
      → Text
      → Text
      → Purpose
      → OtpCode
      → Handler OtpError (List OtpCode) OtpCode
  check_code faults cfg now guess identifier purpose c =
      let matched = compare_code_hash hmac_hex c.otp_hash cfg.secret guess identifier purpose in
      let next_attempts = c.attempt_count + 1 in
      if ltb c.expires_at now
      then (do
        exec_ignored (faults mark_expired) (update_where (has_id c.id) (as_expired now))
        throw otp_expired)
      else if leb c.max_attempts c.attempt_count
      then throw otp_max_attempts
      else if not matched
      then (do
        exec_ignored (faults count_attempt)
            (update_where (has_id c.id) (with_attempts next_attempts now))
        if leb c.max_attempts next_attempts then throw otp_max_attempts else throw invalid_code)
      else (do
        exec (faults consume) infrastructure
            (update_where (λ r. has_id c.id r && is_none r.consumed_at) (as_consumed now))
        pure (record c { consumed_at = some now }))

  unfoldable pub verify_stored :
      (Site → Bool)
      → OtpConfig
      → ℕ
      → Text
      → Channel
      → Purpose
      → Text
      → Handler OtpError (List OtpCode) OtpCode
  verify_stored faults cfg now guess channel purpose identifier = do
    found ←
        query (faults find_code) infrastructure
          (latest_open (hash_identifier hmac_hex cfg.secret identifier) channel purpose)
    c ← or_throw found invalid_code
    check_code faults cfg now guess identifier purpose c

  module _ (parse_address : Text → Bool) where
    -- `has_db` is `s.db != nil`; `uuid` is what `uuid.New()` returns.
    unfoldable pub verify :
        (Site → Bool)
        → Bool
        → OtpConfig
        → ℕ
        → ℕ
        → VerifyInput
        → Handler OtpError (List OtpCode) OtpCode
    verify faults has_db cfg now uuid input = do
      t ← lift (normalize_target parse_address input.channel input.purpose input.phone input.email)
      require (not (is_empty input.code)) invalid_code
      if cfg.dev_bypass_enabled && text_eq input.code cfg.dev_bypass_code
          then pure (dev_bypass_otp_code uuid now t.channel t.purpose t.identifier)
          else (do
            require has_db invalid_code
            verify_stored faults cfg now input.code t.channel t.purpose t.identifier)

-- What `verify` comes to: a refusal that touches nothing, the bypass, or the stored code.
module _ {ℓ} (hmac_hex : Text → Text → Text) (parse_address : Text → Bool) where
  pub verify_cases :
      (P : Outcome OtpError (List OtpCode) OtpCode → Type ℓ) (faults : Site → Bool) (has_db : Bool)
      (cfg : OtpConfig) (now uuid : ℕ) (input : VerifyInput) (rows : List OtpCode)
      → ((e : OtpError) → P (failed e rows))
      → ((t : Target)
          → (cfg.dev_bypass_enabled && text_eq input.code cfg.dev_bypass_code) ≡ true
          → P (done (dev_bypass_otp_code uuid now t.channel t.purpose t.identifier) rows))
      → ((t : Target)
          → normalize_target parse_address input.channel input.purpose input.phone input.email
            ≡ ok t
          → P (
              verify_stored hmac_hex faults cfg now input.code t.channel t.purpose t.identifier
                rows))
      → P (verify hmac_hex parse_address faults has_db cfg now uuid input rows)
  unfolding verify
  verify_cases P faults has_db cfg now uuid input rows refused bypassed stored =
      elim (Result-cases
        (normalize_target parse_address input.channel input.purpose input.phone input.email)) [
          | inr (e, q) ↦ rw (q, verify) (refused e)
          | inl (t, q) ↦
              rw (q, verify)
                (elim (Bool-cases (is_empty input.code)) [
                  | inl b ↦ rw (b, verify) (refused invalid_code)
                  | inr b ↦
                      rw (b, verify)
                        (elim (Bool-cases
                          (cfg.dev_bypass_enabled && text_eq input.code cfg.dev_bypass_code)) [
                            | inl d ↦ rw (d, verify) (bypassed t d)
                            | inr d ↦
                                rw (d, verify)
                                  (elim (Bool-cases has_db) [
                                    | inl y ↦ rw (y, verify) (stored t q)
                                    | inr y ↦ rw (y, verify) (refused invalid_code)
                                  ])
                          ])
                ])
        ]
