-- ===== src/Auth/Sessions.antt =====
-- internal/auth/service.go: `RefreshToken`, `Logout`, `LogoutAll`, `DeleteAccount`, `Authenticate`.
use dating_app_backend.Prelude.{
  ℕ, Bool, false, ◌&&◌, ◌||◌, not, Option, none, some, Text, text_eq, is_empty, trim_space,
  if◌then◌else◌, ◌==◌, is_none, or_else, find_first, update_where, Handler, pure, lift, query, exec,
  exec_ignored, require, or_throw, transaction, ◌>>=◌, ◌>>◌,
}
use dating_app_backend.Store.{User, user_deleted}
use dating_app_backend.Auth.Model.{
  AuthError, unauthorized, invalid_refresh, device_mismatch, infrastructure, UserSession, Device,
  ProfileEligibility, AuthDb, AuthenticatedUser, AccessClaims, RefreshTokenRequest, LogoutRequest,
  RequestMeta, TokenResponse, validate_session, validate_user, is_other_device, user_of,
  session_by_hash, session_by_uuid,
}

-- The statements of the five operations, by which a fault is named.
pub data Site : Type 0 where
  find_session load_user draw_token save_session commit sign_token : Site
  find_logout revoke clear_devices delete_user hide_profile touch : Site

abbrev pub rotated : Text → ℕ → RequestMeta → UserSession → UserSession
rotated hash now meta s = record s {
  refresh_token_hash = hash;
  last_used_at = some now;
  replaced_at = some now;
  ip_address = meta.ip_address;
  user_agent = meta.user_agent;
  updated_at = now;
}

-- `"revoked_at": now, "updated_at": now`
abbrev pub as_revoked : ℕ → UserSession → UserSession
as_revoked now s = record s { revoked_at = some now; updated_at = now }

-- `"fcm_token": nil, "push_enabled": false, "updated_at": now`
abbrev pub without_push : ℕ → Device → Device
without_push now d = record d { fcm_token = none; push_enabled = false; updated_at = now }

abbrev pub update_sessions : (UserSession → Bool) → (UserSession → UserSession) → AuthDb → AuthDb
update_sessions p f db = record db { sessions = update_where p f db.sessions }

abbrev pub update_devices : (Device → Bool) → ℕ → AuthDb → AuthDb
update_devices p now db = record db { devices = update_where p (without_push now) db.devices }

-- `user_id = ? AND revoked_at IS NULL`
abbrev pub is_live_of : ℕ → UserSession → Bool
is_live_of user s = s.user_id == user && is_none s.revoked_at

module _ (faults : Site → Bool) (now : ℕ) where
  -- A row read by `First` with its user preloaded, and both validated.
  unfoldable pub validated : UserSession → Handler AuthError AuthDb (Option User)
  validated s = do
    user ← query (faults load_user) infrastructure (user_of s.user_id)
    lift (validate_session now s) >> (lift (validate_user user) >> pure user)

  module _ (hash : Text → Text) where
    -- `hash` is `HashRefreshToken`, `fresh` the token that `GenerateRefreshToken` draws.
    unfoldable pub rotate :
        Text
        → RequestMeta
        → RefreshTokenRequest
        → UserSession
        → Handler AuthError AuthDb UserSession
    rotate fresh meta req s = do
      require (not (is_other_device req.device_id s.device_id)) device_mismatch
      require (not (faults draw_token)) infrastructure
      exec (faults save_session) infrastructure
          (update_sessions (λ r. r.id == s.id) (λ _. rotated (hash fresh) now meta s))
      pure (rotated (hash fresh) now meta s)

    unfoldable pub refresh_tx :
        Text → RequestMeta → RefreshTokenRequest → Handler AuthError AuthDb UserSession
    refresh_tx fresh meta req = do
      found ← query (faults find_session) infrastructure (session_by_hash (hash req.refresh_token))
      s ← or_throw found invalid_refresh
      validated s >>= λ _. rotate fresh meta req s

    unfoldable pub refresh_token :
        Text → RequestMeta → RefreshTokenRequest → Handler AuthError AuthDb TokenResponse
    refresh_token fresh meta req = do
      s ← transaction (faults commit) infrastructure (refresh_tx fresh meta req)
      require (not (faults sign_token)) infrastructure
      pure (record { session = s; refresh_token = fresh })

    -- The session that `Logout` is about: the one of the token, or else the current one.
    abbrev pub is_logged_out : AuthenticatedUser → LogoutRequest → UserSession → Bool
    is_logged_out user req s =
        if is_empty req.refresh_token
        then s.id == user.session_id
        else text_eq s.refresh_token_hash (hash req.refresh_token)

    abbrev pub device_of : Option UserSession → Text → Text
    device_of none d = d
    device_of (some s) d = or_else s.device_id d

    -- The device of the request, or else the one of the session, where it is found.
    abbrev pub logout_device : AuthenticatedUser → LogoutRequest → AuthDb → Text
    logout_device user req db =
        let asked = trim_space req.device_id in
        if not (is_empty asked) || faults find_logout
        then asked
        else device_of
            (find_first (λ (s : UserSession). s.user_id == user.user_id && is_logged_out user req s)
              db.sessions)
            asked

    unfoldable pub logout_tx :
        AuthenticatedUser → LogoutRequest → Handler AuthError AuthDb (Unit {0})
    logout_tx user req = do
      device ← query false infrastructure (logout_device user req)
      exec (faults revoke) infrastructure (
          update_sessions (λ s. is_live_of user.user_id s && is_logged_out user req s)
            (as_revoked now))
      if is_empty device
          then pure tt
          else exec (faults clear_devices) infrastructure
              (update_devices (λ d. d.user_id == user.user_id && text_eq d.device_id device) now)

    unfoldable pub logout : AuthenticatedUser → LogoutRequest → Handler AuthError AuthDb (Unit {0})
    logout user req = transaction (faults commit) infrastructure (logout_tx user req)

  abbrev pub revoke_all : ℕ → Handler AuthError AuthDb (Unit {0})
  revoke_all user =
      exec (faults revoke) infrastructure (update_sessions (is_live_of user) (as_revoked now))

  abbrev pub clear_push : ℕ → Handler AuthError AuthDb (Unit {0})
  clear_push user =
      exec (faults clear_devices) infrastructure (update_devices (λ d. d.user_id == user) now)

  unfoldable pub logout_all_tx : ℕ → Handler AuthError AuthDb (Unit {0})
  logout_all_tx user = do revoke_all user; clear_push user

  unfoldable pub logout_all : AuthenticatedUser → Handler AuthError AuthDb (Unit {0})
  logout_all user = transaction (faults commit) infrastructure (logout_all_tx user.user_id)

  unfoldable pub delete_account_tx : ℕ → Handler AuthError AuthDb (Unit {0})
  delete_account_tx user = do
    exec (faults delete_user) infrastructure (λ (db : AuthDb). record db {
      users =
          update_where (λ (u : User). u.id == user && is_none u.deleted_at)
            (λ u. record u { status = user_deleted; deleted_at = some now }) db.users;
    })
    revoke_all user
    exec (faults hide_profile) infrastructure (λ (db : AuthDb). record db {
      profiles =
          update_where (λ (p : ProfileEligibility). p.user_id == user)
            (λ p. record p { discovery_eligible = false; updated_at = now }) db.profiles;
    })
    clear_push user

  unfoldable pub delete_account : AuthenticatedUser → Handler AuthError AuthDb (Unit {0})
  delete_account user = transaction (faults commit) infrastructure (delete_account_tx user.user_id)

  abbrev pub uuid_of : Option User → ℕ
  uuid_of none = 0
  uuid_of (some u) = u.uuid

  -- The subject, the touch of the session, and the answer.
  unfoldable pub identify :
      (ℕ → Text) → Text → UserSession → Option User → Handler AuthError AuthDb AuthenticatedUser
  identify uuid_text subject s user = do
    require (text_eq (uuid_text (uuid_of user)) subject) unauthorized
    exec_ignored (faults touch) (
        update_sessions (λ r. r.id == s.id)
          (λ r. record r { last_used_at = some now; updated_at = now }))
    pure (record {
      user_id = s.user_id;
      user_uuid = uuid_of user;
      session_id = s.id;
      session_uuid = s.uuid;
    })

  -- `parse_token` is `ParseAccessToken`, `uuid_text` is `UUID.String`. All errors before the
  -- validation are the same to the caller.
  unfoldable pub authenticate :
      (Text → Option AccessClaims)
      → (Text → Option ℕ)
      → (ℕ → Text)
      → Text
      → Handler AuthError AuthDb AuthenticatedUser
  authenticate parse_token parse_uuid uuid_text raw = do
    claims ← or_throw (parse_token raw) unauthorized
    uuid ← or_throw (parse_uuid claims.session_id) unauthorized
    found ← query (faults find_session) unauthorized (session_by_uuid uuid)
    s ← or_throw found unauthorized
    user ← validated s
    identify uuid_text claims.subject s user
