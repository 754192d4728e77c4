-- ===== src/Auth/Tests.antt =====
-- internal/auth/service.go: an account with two sessions.
use dating_app_backend.Prelude.{
  ◌+◌, ℕ, ◌≡◌, ◌≢◌, refl, inl, Bool, true, false, Option, none, some, List, [], ◌∷◌, Text, codes,
  done, store_of,
}
use dating_app_backend.Store.{User, user_active}
use dating_app_backend.Auth.Model.{
  UserSession, AuthDb, AuthenticatedUser, AccessClaims, RefreshTokenRequest, RequestMeta,
  TokenResponse, validate_session, validate_user, session_by_hash,
}
use dating_app_backend.Auth.Sessions.{
  Site, delete_account, delete_account_tx, authenticate, refresh_token, refresh_tx, rotate, rotated,
  validated,
}
use dating_app_backend.Auth.Rotation.{refresh_rotates}
use dating_app_backend.Auth.StaysOut.{
  Call, refresh_call, authenticate_call, run_calls, closed_account_stays_out,
}

abbrev ann : User
ann = record { id = 1; uuid = 101; status = user_active; deleted_at = none }

abbrev session : ℕ → Text → UserSession
session id hash = record {
  id = id;
  uuid = id + 200;
  user_id = 1;
  refresh_token_hash = hash;
  device_id = none;
  ip_address = [];
  user_agent = [];
  expires_at = 900;
  last_used_at = none;
  revoked_at = none;
  replaced_at = none;
  updated_at = 10;
}

abbrev logged_in : AuthDb
logged_in = record {
  users = ann ∷ [];
  sessions = session 1 (codes "a") ∷ session 2 (codes "b") ∷ [];
  devices = [];
  profiles = record { user_id = 1; discovery_eligible = true; updated_at = 5 } ∷ [];
}

abbrev who : AuthenticatedUser
who = record { user_id = 1; user_uuid = 101; session_id = 1; session_uuid = 201 }

abbrev no_faults : Site → Bool
no_faults _ = false

abbrev plain_hash : Text → Text
plain_hash t = t

-- A token is its session's letter, of Ann.
abbrev plain_token : Text → Option AccessClaims
plain_token t = some (record { session_id = t; subject = 101 ∷ [] })

abbrev letter_uuid : Text → Option ℕ
letter_uuid [] = none
letter_uuid (c ∷ s) = some c

abbrev letter_text : ℕ → Text
letter_text c = c ∷ []

abbrev meta : RequestMeta
meta = record { ip_address = []; user_agent = [] }

abbrev deleted : AuthDb
deleted = store_of (delete_account no_faults 50 who logged_in)

abbrev later_calls : List Call
later_calls =
    refresh_call no_faults 60 (codes "c") meta
      (record { refresh_token = codes "a"; device_id = [] })
    ∷ authenticate_call no_faults 61 (201 ∷ [])
    ∷ []

deleted_run : delete_account no_faults 50 who logged_in ≡ done tt deleted
unfolding delete_account delete_account_tx
deleted_run = refl

closed_account_stays_out_example :
    ((faults : Site → Bool) (now : ℕ) (raw : Text) (a : AuthenticatedUser) (s : AuthDb)
      → authenticate faults now plain_token letter_uuid letter_text raw
          (run_calls plain_hash plain_token letter_uuid letter_text later_calls deleted)
        ≡ done a s
      → a.user_id ≢ 1)
    × ((faults : Site → Bool) (now : ℕ) (fresh : Text) (meta : RequestMeta)
          (req : RefreshTokenRequest) (r : TokenResponse) (s : AuthDb)
        → refresh_token faults now plain_hash fresh meta req
            (run_calls plain_hash plain_token letter_uuid letter_text later_calls deleted)
          ≡ done r s
        → r.session.user_id ≢ 1)
closed_account_stays_out_example =
    closed_account_stays_out plain_hash plain_token letter_uuid letter_text no_faults 50 who
      logged_in deleted later_calls (inl deleted_run)

abbrev exchange : RefreshTokenRequest
exchange = record { refresh_token = codes "a"; device_id = [] }

abbrev exchanged_session : UserSession
exchanged_session = rotated (codes "c") 60 meta (session 1 (codes "a"))

abbrev exchanged_db : AuthDb
exchanged_db = store_of (refresh_token no_faults 60 plain_hash (codes "c") meta exchange logged_in)

exchange_run :
    refresh_token no_faults 60 plain_hash (codes "c") meta exchange logged_in
    ≡ done (record { session = exchanged_session; refresh_token = codes "c" }) exchanged_db
unfolding refresh_token refresh_tx rotate validated validate_session validate_user
exchange_run = refl

refresh_rotates_example :
    (session_by_hash (codes "c") exchanged_db ≡ some exchanged_session)
    × ((faults : Site → Bool) (now : ℕ) (fresh device : Text) (meta : RequestMeta)
          (r : TokenResponse) (s : AuthDb)
        → refresh_token faults now plain_hash fresh meta
            (record { refresh_token = codes "a"; device_id = device })
            exchanged_db
          ≢ done r s)
refresh_rotates_example =
    refresh_rotates plain_hash no_faults 60 (codes "c") meta exchange logged_in exchanged_db
      (record { session = exchanged_session; refresh_token = codes "c" })
      ((λ _. refl, (λ h. cc, tt)), ((λ h. cc, (λ _. refl, tt)), tt)) (refl, (refl, tt)) refl
      exchange_run
