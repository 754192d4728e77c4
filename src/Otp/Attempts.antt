-- ===== src/Otp/Attempts.antt =====
-- internal/otp/service.go: what `Verify` does to the attempt counters.
use dating_app_backend.Prelude.{
  ℕ, ◌+◌, ◌≤◌, ◌≡◌, inl, inr, Bool, some, List, arith, Text, store_of, Leaves, All,
  All-update_where, All-update_where_with, IsRowOf, UniqueKeys, UniqueKeys-IsRowOf, ◌&&◌,
  All-select, All-first_by, update_where, select, Bool-cases, Option-cases, is_none,
}
use dating_app_backend.Otp.Model.{Channel, Purpose, OtpCode, OtpConfig, VerifyInput}
use dating_app_backend.Otp.Normalize.{hash_identifier}
use dating_app_backend.Otp.Verify.{
  Site, find_code, is_open_for, latest_open, has_id, is_newer, as_expired, as_consumed,
  with_attempts, check_code, verify_stored, verify, verify_cases,
}

-- No row has more attempts than it allows.
abbrev pub IsBounded : OtpCode → Type 0
IsBounded c = c.attempt_count ≤ c.max_attempts

abbrev pub AttemptsBounded : List OtpCode → Type 0
AttemptsBounded rows = All IsBounded rows

abbrev pub otp_key : OtpCode → ℕ
otp_key c = c.id

counted :
    (c : OtpCode) (now : ℕ) (rows : List OtpCode)
    → c.attempt_count + 1 ≤ c.max_attempts
    → IsRowOf otp_key rows c
    → AttemptsBounded rows
    → AttemptsBounded (update_where (has_id c.id) (with_attempts (c.attempt_count + 1) now) rows)
counted c now rows room own h =
    All-update_where_with IsBounded (has_id c.id) (with_attempts (c.attempt_count + 1) now) rows
      (λ r e q b. rw (q e) room) own h

module _ (hmac_hex : Text → Text → Text) where
  check_code-AttemptsBounded :
      (faults : Site → Bool) (cfg : OtpConfig) (now : ℕ) (guess identifier : Text)
      (purpose : Purpose) (c : OtpCode) (rows : List OtpCode)
      → IsRowOf otp_key rows c
      → AttemptsBounded rows
      → Leaves AttemptsBounded (check_code hmac_hex faults cfg now guess identifier purpose c rows)
  unfolding check_code
  check_code-AttemptsBounded faults cfg now guess identifier purpose c rows own h = ground (
    arith,
    All-update_where IsBounded (has_id c.id) (as_expired now) rows (λ x e b. b) h,
    counted c now rows,
    All-update_where IsBounded (λ r. has_id c.id r && is_none r.consumed_at) (as_consumed now) rows
        (λ x e b. b) h,
  )

-- The row that `Verify` reads is the row of its key.
pub latest_open-IsRowOf :
    (hash : Text) (channel : Channel) (purpose : Purpose) (rows : List OtpCode) (c : OtpCode)
    → UniqueKeys otp_key rows
    → latest_open hash channel purpose rows ≡ some c
    → IsRowOf otp_key rows c
unfolding latest_open
latest_open-IsRowOf hash channel purpose rows c u e =
    All-first_by (IsRowOf otp_key rows) is_newer (select (is_open_for hash channel purpose) rows) c
      (All-select (IsRowOf otp_key rows) (is_open_for hash channel purpose) rows
        (UniqueKeys-IsRowOf otp_key rows u))
      e

module _ (hmac_hex : Text → Text → Text) (parse_address : Text → Bool) (faults : Site → Bool)
    (has_db : Bool) (cfg : OtpConfig) (now uuid : ℕ) where
  verify_stored-AttemptsBounded :
      (guess : Text) (channel : Channel) (purpose : Purpose) (identifier : Text)
      (rows : List OtpCode)
      → UniqueKeys otp_key rows
      → AttemptsBounded rows
      → Leaves AttemptsBounded
          (verify_stored hmac_hex faults cfg now guess channel purpose identifier rows)
  unfolding verify_stored
  verify_stored-AttemptsBounded guess channel purpose identifier rows u h =
      let hash = hash_identifier hmac_hex cfg.secret identifier in
      elim (Bool-cases (faults find_code)) [
        | inl b ↦ rw b h
        | inr b ↦ rw b (elim (Option-cases (latest_open hash channel purpose rows)) [
          | inl e ↦ rw e h
          | inr (c, e) ↦ rw e (
              check_code-AttemptsBounded hmac_hex faults cfg now guess identifier purpose c rows
                (latest_open-IsRowOf hash channel purpose rows c u e) h)
        ])
      ]

  pub verify-AttemptsBounded :
      (input : VerifyInput) (rows : List OtpCode)
      → UniqueKeys otp_key rows
      → AttemptsBounded rows
      → AttemptsBounded
          (store_of (verify hmac_hex parse_address faults has_db cfg now uuid input rows))
  verify-AttemptsBounded input rows u h =
      verify_cases hmac_hex parse_address (Leaves AttemptsBounded) faults has_db cfg now uuid input
        rows (λ e. h) (λ t d. h)
        (λ t q. verify_stored-AttemptsBounded input.code t.channel t.purpose t.identifier rows u h)
