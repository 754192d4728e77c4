-- ===== src/Auth/Model.antt =====
-- internal/auth/model.go, types.go, and the checks at the end of service.go.
use dating_app_backend.Prelude.{
  ℕ, Bool, true, false, ◌&&◌, ◌||◌, not, Option, none, some, List, Text, text_eq, is_empty,
  if◌then◌else◌, ltb, ◌==◌, is_some, find_first, Result, ok, err,
}
use dating_app_backend.Store.{UserStatus, user_active, user_deleted, User}

pub data AuthError : Type 0 where
  unauthorized invalid_refresh device_mismatch inactive_user account_deleted : AuthError
  -- An error of the database, of the random source or of the token library.
  infrastructure : AuthError

pub record UserSession : Type 0 where
  pub id : ℕ
  pub uuid : ℕ
  pub user_id : ℕ
  pub refresh_token_hash : Text
  pub device_id : Option Text
  pub ip_address : Text
  pub user_agent : Text
  pub expires_at : ℕ
  pub last_used_at : Option ℕ
  pub revoked_at : Option ℕ
  pub replaced_at : Option ℕ
  pub updated_at : ℕ

pub record Device : Type 0 where
  pub user_id : ℕ
  pub device_id : Text
  pub fcm_token : Option Text
  pub push_enabled : Bool
  pub updated_at : ℕ

-- What an account's end changes of a row of `profiles`.
pub record ProfileEligibility : Type 0 where
  pub user_id : ℕ
  pub discovery_eligible : Bool
  pub updated_at : ℕ

pub record AuthDb : Type 0 where
  pub users : List User
  pub sessions : List UserSession
  pub devices : List Device
  pub profiles : List ProfileEligibility

pub record AuthenticatedUser : Type 0 where
  pub user_id : ℕ
  pub user_uuid : ℕ
  pub session_id : ℕ
  pub session_uuid : ℕ

pub record AccessClaims : Type 0 where
  pub session_id : Text
  pub subject : Text

pub record RefreshTokenRequest : Type 0 where
  pub refresh_token : Text
  pub device_id : Text

pub record LogoutRequest : Type 0 where
  pub refresh_token : Text
  pub device_id : Text

pub record RequestMeta : Type 0 where
  pub ip_address : Text
  pub user_agent : Text

pub record TokenResponse : Type 0 where
  pub session : UserSession
  pub refresh_token : Text

-- `validateSession`
unfoldable pub validate_session : ℕ → UserSession → Result AuthError (Unit {0})
validate_session now s =
    if is_some s.revoked_at
    then err unauthorized
    else if ltb s.expires_at now
    then err unauthorized
    else ok tt

abbrev pub is_deleted_status : UserStatus → Bool
is_deleted_status user_deleted = true
is_deleted_status _ = false

abbrev pub is_active_user_status : UserStatus → Bool
is_active_user_status user_active = true
is_active_user_status _ = false

-- `validateUser`; a session whose user is not loaded has one without a status.
unfoldable pub validate_user : Option User → Result AuthError (Unit {0})
validate_user none = err inactive_user
validate_user (some u) =
    if is_some u.deleted_at || is_deleted_status u.status
    then err account_deleted
    else if not (is_active_user_status u.status)
    then err inactive_user
    else ok tt

-- `req.DeviceID != "" && session.DeviceID != nil && *session.DeviceID != req.DeviceID`
abbrev pub is_other_device : Text → Option Text → Bool
is_other_device asked none = false
is_other_device asked (some own) = not (is_empty asked) && not (text_eq own asked)

abbrev pub user_of : ℕ → AuthDb → Option User
user_of id db = find_first (λ (u : User). u.id == id) db.users

abbrev pub session_by_hash : Text → AuthDb → Option UserSession
session_by_hash hash db =
    find_first (λ (s : UserSession). text_eq s.refresh_token_hash hash) db.sessions

abbrev pub session_by_uuid : ℕ → AuthDb → Option UserSession
session_by_uuid uuid db = find_first (λ (s : UserSession). s.uuid == uuid) db.sessions
