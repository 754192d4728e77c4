-- ===== src/Auth/Closed.antt =====
-- internal/auth/service.go: revoked sessions, through the other session operations.
use dating_app_backend.Prelude.{
  ℕ, ◌≡◌, inl, inr, Bool, false, ◌&&◌, Option, Text, text_eq, is_empty, ◌==◌, All-update_where,
  All-find_first, Outcome, done, failed, Leaves, Bool-cases, Option-cases, ◌>>=◌,
}
use dating_app_backend.Store.{User}
use dating_app_backend.Auth.Model.{
  AuthError, unauthorized, UserSession, AuthDb, AuthenticatedUser, AccessClaims, LogoutRequest,
  session_by_uuid,
}
use dating_app_backend.Auth.Sessions.{
  Site, find_session, revoke, clear_devices, delete_user, hide_profile, touch, as_revoked,
  is_live_of, update_sessions, is_logged_out, logout_device, logout_tx, clear_push, logout_all_tx,
  delete_account_tx, identify, authenticate, uuid_of,
}
use dating_app_backend.Auth.Revoked.{
  IsClosedFor, AllRevoked, validated_cases, as_revoked-AllRevoked, other_owner,
}

module _ (user : ℕ) (faults : Site → Bool) (now : ℕ) where
  clear_push-AllRevoked :
      (owner : ℕ) (db : AuthDb)
      → AllRevoked user db
      → Leaves (AllRevoked user) (clear_push faults now owner db)
  clear_push-AllRevoked owner db h = elim (Bool-cases (faults clear_devices)) [
    | inl f ↦ rw f h
    | inr f ↦ rw f h
  ]

  -- Revoking the sessions of any user keeps the property.
  pub logout_all_tx-AllRevoked :
      (owner : ℕ) (db : AuthDb)
      → AllRevoked user db
      → Leaves (AllRevoked user) (logout_all_tx faults now owner db)
  unfolding logout_all_tx
  logout_all_tx-AllRevoked owner db h = elim (Bool-cases (faults revoke)) [
    | inl f ↦ rw (f, logout_all_tx) h
    | inr f ↦
        rw (f, logout_all_tx)
          (clear_push-AllRevoked owner (update_sessions (is_live_of owner) (as_revoked now) db)
            (as_revoked-AllRevoked user now (is_live_of owner) db h))
  ]

  pub delete_account_tx-AllRevoked :
      (owner : ℕ) (db : AuthDb)
      → AllRevoked user db
      → Leaves (AllRevoked user) (delete_account_tx faults now owner db)
  unfolding delete_account_tx
  delete_account_tx-AllRevoked owner db h = elim (Bool-cases (faults delete_user)) [
    | inl f ↦ rw (f, delete_account_tx) h
    | inr f ↦ elim (Bool-cases (faults revoke)) [
      | inl g ↦ rw (f, g, delete_account_tx, ◌>>=◌) h
      | inr g ↦
          (let k = as_revoked-AllRevoked user now (is_live_of owner) db h in
            elim (Bool-cases (faults hide_profile)) [
              | inl p ↦ rw (f, g, p, delete_account_tx, ◌>>=◌) k
              | inr p ↦ rw (f, g, p, delete_account_tx, ◌>>=◌) (clear_push-AllRevoked owner _ k)
            ])
    ]
  ]

  pub logout_tx-AllRevoked :
      (hash : Text → Text) (who : AuthenticatedUser) (req : LogoutRequest) (db : AuthDb)
      → AllRevoked user db
      → Leaves (AllRevoked user) (logout_tx faults now hash who req db)
  unfolding logout_tx
  logout_tx-AllRevoked hash who req db h =
      let k =
        as_revoked-AllRevoked user now
          (λ s. is_live_of who.user_id s && is_logged_out faults now hash who req s) db h in
      elim (Bool-cases (faults revoke)) [
        | inl f ↦ rw (f, logout_tx) h
        | inr f ↦ elim (Bool-cases (is_empty (logout_device faults now hash who req db))) [
          | inl e ↦ rw (f, e, logout_tx, ◌>>=◌) k
          | inr e ↦ elim (Bool-cases (faults clear_devices)) [
            | inl g ↦ rw (f, e, g, logout_tx, ◌>>=◌) k
            | inr g ↦ rw (f, e, g, logout_tx, ◌>>=◌) k
          ]
        ]
      ]

  -- Where the session is somebody else's, so is the answer.
  identify-owner :
      (P : Outcome AuthError AuthDb AuthenticatedUser → Type 0) (uuid_text : ℕ → Text)
      (subject : Text) (s : UserSession) (u : Option User) (db : AuthDb)
      → (s.user_id == user) ≡ false
      → AllRevoked user db
      → ((e : AuthError) → P (failed e db))
      → ((a : AuthenticatedUser) (db' : AuthDb)
          → (a.user_id == user) ≡ false
          → AllRevoked user db'
          → P (done a db'))
      → P (identify faults now uuid_text subject s u db)
  unfolding identify
  identify-owner P uuid_text subject s u db other h refused next =
      elim (Bool-cases (text_eq (uuid_text (uuid_of faults now u)) subject)) [
        | inr t ↦ rw (t, identify, ◌>>=◌) (refused unauthorized)
        | inl t ↦ elim (Bool-cases (faults touch)) [
          | inl f ↦ rw (t, f, identify, ◌>>=◌) (next _ db other h)
          | inr f ↦
              rw (t, f, identify, ◌>>=◌)
                (next _ _ other (
                  All-update_where (IsClosedFor user) (λ r. r.id == s.id) _ db.sessions (λ _ _ k. k)
                    h))
        ]
      ]

  -- `Authenticate` refuses, or answers with another user.
  pub authenticate-owner :
      (P : Outcome AuthError AuthDb AuthenticatedUser → Type 0)
      (parse_token : Text → Option AccessClaims) (parse_uuid : Text → Option ℕ)
      (uuid_text : ℕ → Text) (raw : Text) (db : AuthDb)
      → AllRevoked user db
      → ((e : AuthError) → P (failed e db))
      → ((a : AuthenticatedUser) (db' : AuthDb)
          → (a.user_id == user) ≡ false
          → AllRevoked user db'
          → P (done a db'))
      → P (authenticate faults now parse_token parse_uuid uuid_text raw db)
  unfolding authenticate
  authenticate-owner P parse_token parse_uuid uuid_text raw db h refused next =
      elim (Option-cases (parse_token raw)) [
        | inl n ↦ rw (n, authenticate, ◌>>=◌) (refused unauthorized)
        | inr (claims, n) ↦ elim (Option-cases (parse_uuid claims.session_id)) [
          | inl m ↦ rw (n, m, authenticate, ◌>>=◌) (refused unauthorized)
          | inr (uuid, m) ↦ elim (Bool-cases (faults find_session)) [
            | inl f ↦ rw (n, m, f, authenticate, ◌>>=◌) (refused unauthorized)
            | inr f ↦ elim (Option-cases (session_by_uuid uuid db)) [
              | inl e ↦ rw (n, m, f, e, authenticate, ◌>>=◌) (refused unauthorized)
              | inr (s, e) ↦
                  rw (n, m, f, e, authenticate, ◌>>=◌)
                    (validated_cases P faults now (identify faults now uuid_text claims.subject s) s
                      db refused
                      (λ u live.
                        identify-owner P uuid_text claims.subject s u db
                          (other_owner user s
                            (All-find_first (IsClosedFor user) (λ r. r.uuid == uuid) db.sessions s h
                              e)
                            live)
                          h refused next))
            ]
          ]
        ]
      ]
