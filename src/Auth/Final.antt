-- ===== src/Auth/Final.antt =====
-- internal/auth/service.go: what `LogoutAll` and `DeleteAccount` leave, and whose tokens are exchanged.
use dating_app_backend.Prelude.{
  ℕ, ◌≡◌, inl, inr, Bool, false, Text, text_eq, ◌==◌, All-find_first, Outcome, done, failed,
  Bool-cases, Option-cases, ◌>>=◌,
}
use dating_app_backend.Auth.Model.{
  AuthError, UserSession, AuthDb, RefreshTokenRequest, RequestMeta, session_by_hash,
  is_other_device,
}
use dating_app_backend.Auth.Sessions.{
  Site, find_session, draw_token, save_session, revoke, clear_devices, delete_user, hide_profile,
  as_revoked, is_live_of, update_sessions, rotate, refresh_tx, logout_all_tx, delete_account_tx,
}
use dating_app_backend.Auth.Revoked.{
  IsClosedFor, AllRevoked, validated_cases, update_where-AllRevoked, other_owner,
}

-- A good end's value and store satisfy `P`.
abbrev pub OnDone {ℓ} : {A : Type ℓ} → (A → AuthDb → Type 0) → Outcome AuthError AuthDb A → Type 0
OnDone P (done a s) = P a s
OnDone P (failed e s) = Unit

closing :
    (user now : ℕ) (db : AuthDb)
    → AllRevoked user (update_sessions (is_live_of user) (as_revoked now) db)
closing user now db = update_where-AllRevoked user now db.sessions

module _ (faults : Site → Bool) (now : ℕ) (user : ℕ) where
  pub logout_all_tx-closes :
      (db : AuthDb) → OnDone (λ _. AllRevoked user) (logout_all_tx faults now user db)
  unfolding logout_all_tx
  logout_all_tx-closes db = elim (Bool-cases (faults revoke)) [
    | inl f ↦ rw (f, logout_all_tx) tt
    | inr f ↦ elim (Bool-cases (faults clear_devices)) [
      | inl g ↦ rw (f, g, logout_all_tx, ◌>>=◌) tt
      | inr g ↦ rw (f, g, logout_all_tx, ◌>>=◌) (closing user now db)
    ]
  ]

  pub delete_account_tx-closes :
      (db : AuthDb) → OnDone (λ _. AllRevoked user) (delete_account_tx faults now user db)
  unfolding delete_account_tx
  delete_account_tx-closes db = elim (Bool-cases (faults delete_user)) [
    | inl f ↦ rw (f, delete_account_tx) tt
    | inr f ↦ elim (Bool-cases (faults revoke)) [
      | inl g ↦ rw (f, g, delete_account_tx, ◌>>=◌) tt
      | inr g ↦ elim (Bool-cases (faults hide_profile)) [
        | inl h ↦ rw (f, g, h, delete_account_tx, ◌>>=◌) tt
        | inr h ↦ elim (Bool-cases (faults clear_devices)) [
          | inl k ↦ rw (f, g, h, k, delete_account_tx, ◌>>=◌) tt
          | inr k ↦ rw (f, g, h, k, delete_account_tx, ◌>>=◌) (closing user now db)
        ]
      ]
    ]
  ]

  rotate-owner :
      (hash : Text → Text) (fresh : Text) (meta : RequestMeta) (req : RefreshTokenRequest)
      (s : UserSession) (db : AuthDb)
      → (s.user_id == user) ≡ false
      → OnDone (λ r _. (r.user_id == user) ≡ false) (rotate faults now hash fresh meta req s db)
  unfolding rotate
  rotate-owner hash fresh meta req s db n =
      elim (Bool-cases (is_other_device req.device_id s.device_id)) [
        | inl d ↦ rw (d, rotate, ◌>>=◌) tt
        | inr d ↦ elim (Bool-cases (faults draw_token)) [
          | inl f ↦ rw (d, f, rotate, ◌>>=◌) tt
          | inr f ↦ elim (Bool-cases (faults save_session)) [
            | inl g ↦ rw (d, f, g, rotate, ◌>>=◌) tt
            | inr g ↦ rw (d, f, g, rotate, ◌>>=◌) n
          ]
        ]
      ]

  pub refresh_tx-owner :
      (hash : Text → Text) (fresh : Text) (meta : RequestMeta) (req : RefreshTokenRequest)
      (db : AuthDb)
      → AllRevoked user db
      → OnDone (λ r _. (r.user_id == user) ≡ false) (refresh_tx faults now hash fresh meta req db)
  unfolding refresh_tx
  refresh_tx-owner hash fresh meta req db h =
      let same = λ (s : UserSession). text_eq s.refresh_token_hash (hash req.refresh_token) in
      elim (Bool-cases (faults find_session)) [
        | inl f ↦ rw (f, refresh_tx) tt
        | inr f ↦ elim (Option-cases (session_by_hash (hash req.refresh_token) db)) [
          | inl e ↦ rw (f, e, refresh_tx, ◌>>=◌) tt
          | inr (s, e) ↦
              rw (f, e, refresh_tx, ◌>>=◌)
                (validated_cases (OnDone (λ r _. (r.user_id == user) ≡ false)) faults now
                  (λ _. rotate faults now hash fresh meta req s) s db (λ _. tt)
                  (λ _ live. rotate-owner hash fresh meta req s db (
                    other_owner user s (All-find_first (IsClosedFor user) same db.sessions s h e)
                      live)))
        ]
      ]
