-- ===== src/Auth/StaysOut.antt =====
-- internal/auth/service.go: sequences of session operations after the end of an account.
use dating_app_backend.Prelude.{
  ℕ, ◌≡◌, ◌≢◌, ◌⊎◌, inl, inr, Bool, false, not, Option, List, [], ◌∷◌, Text, ◌==◌, done, store_of,
  Leaves, Leaves-transaction, Leaves-bind, Bool-cases, arith, ◌>>=◌, ◌>>◌, subst, transaction-done,
  bind-done, transaction, pure, require,
}
use dating_app_backend.Auth.Model.{
  infrastructure, AuthDb, AuthenticatedUser, AccessClaims, RefreshTokenRequest, LogoutRequest,
  RequestMeta, TokenResponse,
}
use dating_app_backend.Auth.Sessions.{
  Site, commit, sign_token, refresh_tx, refresh_token, logout_tx, logout, logout_all_tx, logout_all,
  delete_account_tx, delete_account, authenticate,
}
use dating_app_backend.Auth.Revoked.{AllRevoked, refresh_tx-AllRevoked}
use dating_app_backend.Auth.Closed.{
  logout_all_tx-AllRevoked, delete_account_tx-AllRevoked, logout_tx-AllRevoked, authenticate-owner,
}
use dating_app_backend.Auth.Final.{
  OnDone, logout_all_tx-closes, delete_account_tx-closes, refresh_tx-owner,
}

differs : (a b : ℕ) → (a == b) ≡ false → a ≢ b
differs a b h e = ground arith

-- A call of a session operation, with its faults and its time.
pub data Call : Type 0 where
  refresh_call : (Site → Bool) → ℕ → Text → RequestMeta → RefreshTokenRequest → Call
  logout_call : (Site → Bool) → ℕ → AuthenticatedUser → LogoutRequest → Call
  logout_all_call delete_call : (Site → Bool) → ℕ → AuthenticatedUser → Call
  authenticate_call : (Site → Bool) → ℕ → Text → Call

module _ (hash : Text → Text) (parse_token : Text → Option AccessClaims)
    (parse_uuid : Text → Option ℕ) (uuid_text : ℕ → Text) where
  unfoldable pub run_call : Call → AuthDb → AuthDb
  run_call (refresh_call faults now fresh meta req) db =
      store_of (refresh_token faults now hash fresh meta req db)
  run_call (logout_call faults now who req) db = store_of (logout faults now hash who req db)
  run_call (logout_all_call faults now who) db = store_of (logout_all faults now who db)
  run_call (delete_call faults now who) db = store_of (delete_account faults now who db)
  run_call (authenticate_call faults now raw) db =
      store_of (authenticate faults now parse_token parse_uuid uuid_text raw db)

  unfoldable pub run_calls : List Call → AuthDb → AuthDb
  run_calls [] db = db
  run_calls (c ∷ calls) db = run_calls calls (run_call c db)

  run_call-AllRevoked :
      (user : ℕ) (c : Call) (db : AuthDb) → AllRevoked user db → AllRevoked user (run_call c db)
  unfolding run_call refresh_token logout logout_all delete_account
  run_call-AllRevoked user (refresh_call faults now fresh meta req) db h =
      Leaves-bind (AllRevoked user)
        (transaction (faults commit) infrastructure (refresh_tx faults now hash fresh meta req))
        (λ s.
          require (not (faults sign_token)) infrastructure
          >> pure (record { session = s; refresh_token = fresh }))
        db
        (Leaves-transaction (AllRevoked user) (faults commit) infrastructure db
          (refresh_tx faults now hash fresh meta req db) h
          (refresh_tx-AllRevoked user faults now hash fresh meta req db h))
        (λ r s k. elim (Bool-cases (faults sign_token)) [ inl b ↦ rw b k | inr b ↦ rw b k ])
  run_call-AllRevoked user (logout_call faults now who req) db h =
      Leaves-transaction (AllRevoked user) (faults commit) infrastructure db
        (logout_tx faults now hash who req db) h
        (logout_tx-AllRevoked user faults now hash who req db h)
  run_call-AllRevoked user (logout_all_call faults now who) db h =
      Leaves-transaction (AllRevoked user) (faults commit) infrastructure db
        (logout_all_tx faults now who.user_id db) h
        (logout_all_tx-AllRevoked user faults now who.user_id db h)
  run_call-AllRevoked user (delete_call faults now who) db h =
      Leaves-transaction (AllRevoked user) (faults commit) infrastructure db
        (delete_account_tx faults now who.user_id db) h
        (delete_account_tx-AllRevoked user faults now who.user_id db h)
  run_call-AllRevoked user (authenticate_call faults now raw) db h =
      authenticate-owner user faults now (Leaves (AllRevoked user)) parse_token parse_uuid uuid_text
        raw db h (λ _. h) (λ _ _ _ k. k)

  run_calls-AllRevoked :
      (user : ℕ) (calls : List Call) (db : AuthDb)
      → AllRevoked user db
      → AllRevoked user (run_calls calls db)
  unfolding run_calls
  run_calls-AllRevoked user [] db h = h
  run_calls-AllRevoked user (c ∷ calls) db h =
      run_calls-AllRevoked user calls (run_call c db) (run_call-AllRevoked user c db h)

  authenticated_other :
      (user : ℕ) (db : AuthDb) (faults : Site → Bool) (now : ℕ) (raw : Text) (a : AuthenticatedUser)
      (s : AuthDb)
      → AllRevoked user db
      → authenticate faults now parse_token parse_uuid uuid_text raw db ≡ done a s
      → a.user_id ≢ user
  authenticated_other user db faults now raw a s h q = differs a.user_id user (
      subst (OnDone (λ x _. (x.user_id == user) ≡ false)) q (
        authenticate-owner user faults now (OnDone (λ x _. (x.user_id == user) ≡ false)) parse_token
          parse_uuid uuid_text raw db h (λ _. tt) (λ _ _ n _. n)))

  refreshed_other :
      (user : ℕ) (db : AuthDb) (faults : Site → Bool) (now : ℕ) (fresh : Text) (meta : RequestMeta)
      (req : RefreshTokenRequest) (r : TokenResponse) (s : AuthDb)
      → AllRevoked user db
      → refresh_token faults now hash fresh meta req db ≡ done r s
      → r.session.user_id ≢ user
  unfolding refresh_token
  refreshed_other user db faults now fresh meta req r s h q =
      let body = refresh_tx faults now hash fresh meta req in
      let (t, s₁, e, d) = bind-done (transaction (faults commit) infrastructure body) _ db q in
      let n =
        subst (OnDone (λ x _. (x.user_id == user) ≡ false))
          (transaction-done (faults commit) infrastructure body db e)
          (refresh_tx-owner faults now user hash fresh meta req db h) in
      elim (Bool-cases (faults sign_token)) [
        | inl b ↦ (let k = rw (b, ◌>>=◌) at d in cc)
        | inr b ↦ differs r.session.user_id user (
            subst (OnDone (λ (x : TokenResponse) _. (x.session.user_id == user) ≡ false))
              (rw (b, ◌>>=◌) at d) n)
      ]

  -- After `LogoutAll` or `DeleteAccount` has succeeded for a user, and as long as only session
  -- operations run (in any order, with any faults, and no new session), no access token
  -- authenticates as the user and no refresh token is exchanged for the user.
  pub closed_account_stays_out :
      (faults : Site → Bool) (now : ℕ) (who : AuthenticatedUser) (db db' : AuthDb)
      (calls : List Call)
      → (delete_account faults now who db ≡ done tt db')
        ⊎ (logout_all faults now who db ≡ done tt db')
      → ((faults : Site → Bool) (now : ℕ) (raw : Text) (a : AuthenticatedUser) (s : AuthDb)
          → authenticate faults now parse_token parse_uuid uuid_text raw (run_calls calls db')
            ≡ done a s
          → a.user_id ≢ who.user_id)
        × ((faults : Site → Bool) (now : ℕ) (fresh : Text) (meta : RequestMeta)
              (req : RefreshTokenRequest) (r : TokenResponse) (s : AuthDb)
            → refresh_token faults now hash fresh meta req (run_calls calls db') ≡ done r s
            → r.session.user_id ≢ who.user_id)
  unfolding delete_account logout_all
  closed_account_stays_out faults now who db db' calls ended =
      let user = who.user_id in
      let closed : AllRevoked user db' = elim ended [
        | inl e ↦
            subst (OnDone (λ _. AllRevoked user))
              (transaction-done (faults commit) infrastructure (delete_account_tx faults now user)
                db e)
              (delete_account_tx-closes faults now user db)
        | inr e ↦
            subst (OnDone (λ _. AllRevoked user))
              (transaction-done (faults commit) infrastructure (logout_all_tx faults now user) db e)
              (logout_all_tx-closes faults now user db)
      ] in
      let still = run_calls-AllRevoked user calls db' closed in
      (
        λ f n raw a s. authenticated_other user (run_calls calls db') f n raw a s still,
        λ f n fresh meta req r s.
            refreshed_other user (run_calls calls db') f n fresh meta req r s still,
      )
