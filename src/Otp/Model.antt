-- ===== src/Otp/Model.antt =====
-- internal/otp/model.go and the errors and inputs of internal/otp/service.go.
use dating_app_backend.Prelude.{ℕ, Bool, true, false, Option, Text, codes}

pub data Channel : Type 0 where
  whatsapp email : Channel

pub data Purpose : Type 0 where
  login register verify_phone verify_email reset : Purpose

pub data DeliveryStatus : Type 0 where
  pending queued sending sent delivery_failed expired : DeliveryStatus

pub data OtpError : Type 0 where
  invalid_channel invalid_purpose invalid_identifier invalid_code : OtpError
  otp_expired otp_max_attempts rate_limited queue_unavailable : OtpError
  -- An error of the database, of Redis, of the queue or of the random source, wrapped by the code.
  infrastructure : OtpError

abbrev pub channel_text : Channel → Text
channel_text whatsapp = codes "WHATSAPP"
channel_text email = codes "EMAIL"

abbrev pub purpose_text : Purpose → Text
purpose_text login = codes "LOGIN"
purpose_text register = codes "REGISTER"
purpose_text verify_phone = codes "VERIFY_PHONE"
purpose_text verify_email = codes "VERIFY_EMAIL"
purpose_text reset = codes "RESET"

abbrev pub same_channel : Channel → Channel → Bool
same_channel whatsapp whatsapp = true
same_channel email email = true
same_channel _ _ = false

abbrev pub same_purpose : Purpose → Purpose → Bool
same_purpose login login = true
same_purpose register register = true
same_purpose verify_phone verify_phone = true
same_purpose verify_email verify_email = true
same_purpose reset reset = true
same_purpose _ _ = false

-- A row of `otp_codes`. Times are seconds.
pub record OtpCode : Type 0 where
  pub id : ℕ
  pub uuid : ℕ
  pub user_id : Option ℕ
  pub channel : Channel
  pub purpose : Purpose
  pub identifier_hash : Text
  pub phone : Option Text
  pub email : Option Text
  pub otp_hash : Text
  pub expires_at : ℕ
  pub consumed_at : Option ℕ
  pub attempt_count : ℕ
  pub max_attempts : ℕ
  pub resend_count : ℕ
  pub ip_address : Text
  pub user_agent : Text
  pub device_id : Option Text
  pub delivery_status : DeliveryStatus
  pub delivery_provider : Option Text
  pub provider_message_id : Option Text
  pub delivery_attempts : ℕ
  pub last_delivery_attempt_at : Option ℕ
  pub sent_at : Option ℕ
  pub failed_at : Option ℕ
  pub delivery_error : Option Text
  pub created_at : ℕ
  pub updated_at : ℕ

-- A row of `otp_delivery_logs`.
pub record OtpDeliveryLog : Type 0 where
  pub otp_code_id : ℕ
  pub channel : Text
  pub provider : Text
  pub identifier : Text
  pub status : DeliveryStatus
  pub provider_message_id : Option Text
  pub error_message : Option Text
  pub attempted_at : ℕ

pub record OtpConfig : Type 0 where
  pub secret : Text
  pub length : ℕ
  pub expiry_ttl : ℕ
  pub resend_cooldown_ttl : ℕ
  pub max_attempts : ℕ
  pub max_per_identifier_hour : ℕ
  pub max_per_ip_hour : ℕ
  pub dev_bypass_enabled : Bool
  pub dev_bypass_code : Text

pub record VerifyInput : Type 0 where
  pub channel : Text
  pub phone : Text
  pub email : Text
  pub purpose : Text
  pub code : Text

pub record RequestInput : Type 0 where
  pub channel : Text
  pub phone : Text
  pub email : Text
  pub purpose : Text
  pub ip_address : Text
  pub user_agent : Text
  pub device_id : Text
