-- ===== src/Auth/Revoked.antt =====
-- internal/auth/service.go: revoked sessions, through the rotation of a token.
use dating_app_backend.Prelude.{
  ℕ, ◌≡◌, refl, sym, ◌∙◌, inl, inr, Bool, true, false, ◌&&◌, Option, none, some, List, [], ◌∷◌,
  Text, text_eq, is_some, is_none, ◌==◌, All, All-update_where, All-find_first, patch, update_where,
  Outcome, failed, Handler, ok, Leaves, Bool-cases, Option-cases, Result-cases, arith, ◌>>=◌,
}
use dating_app_backend.Store.{User}
use dating_app_backend.Auth.Model.{
  AuthError, infrastructure, UserSession, AuthDb, RefreshTokenRequest, RequestMeta,
  validate_session, validate_user, is_other_device, user_of, session_by_hash,
}
use dating_app_backend.Auth.Sessions.{
  Site, find_session, load_user, draw_token, save_session, as_revoked, rotated, is_live_of,
  update_sessions, validated, rotate, refresh_tx,
}

-- A session of `user` is revoked.
abbrev pub IsClosedFor : ℕ → UserSession → Type 0
IsClosedFor user s = (s.user_id == user) ≡ true → is_some s.revoked_at ≡ true

-- Every session of `user` is revoked.
abbrev pub AllRevoked : ℕ → AuthDb → Type 0
AllRevoked user db = All (IsClosedFor user) db.sessions

validate_session-live :
    (now : ℕ) (s : UserSession) → validate_session now s ≡ ok tt → is_some s.revoked_at ≡ false
unfolding validate_session
validate_session-live now s h = elim (Bool-cases (is_some s.revoked_at)) [
  | inl b ↦ (let k = rw b at h in cc)
  | inr b ↦ b
]

module _ {ℓ} {B : Type 0} (P : Outcome AuthError AuthDb B → Type ℓ) (faults : Site → Bool)
    (now : ℕ) where
  pub validated_cases :
      (k : Option User → Handler AuthError AuthDb B) (s : UserSession) (db : AuthDb)
      → ((e : AuthError) → P (failed e db))
      → ((u : Option User) → is_some s.revoked_at ≡ false → P (k u db))
      → P ((validated faults now s >>= k) db)
  unfolding validated
  validated_cases k s db refused next = elim (Bool-cases (faults load_user)) [
    | inl f ↦ rw (f, validated, ◌>>=◌) (refused infrastructure)
    | inr f ↦ elim (Result-cases (validate_session now s)) [
      | inr (e, q) ↦ rw (f, q, validated, ◌>>=◌) (refused e)
      | inl (v, q) ↦ elim (Result-cases (validate_user (user_of s.user_id db))) [
        | inr (e, r) ↦ rw (f, q, r, validated, ◌>>=◌) (refused e)
        | inl (w, r) ↦
            rw (f, q, r, validated, ◌>>=◌)
              (next (user_of s.user_id db) (validate_session-live now s q))
      ]
    ]
  ]

pub as_revoked-AllRevoked :
    (user now : ℕ) (p : UserSession → Bool) (db : AuthDb)
    → AllRevoked user db
    → AllRevoked user (update_sessions p (as_revoked now) db)
as_revoked-AllRevoked user now p db h =
    All-update_where (IsClosedFor user) p (as_revoked now) db.sessions (λ x _ _ _. refl) h

not_live : (own : Bool) (o : Option ℕ) → own ≡ true → (own && is_none o) ≡ false → is_some o ≡ true
not_live own none e h = ground arith
not_live own (some t) e h = refl

-- Revoking the live sessions of a user leaves none.
pub update_where-AllRevoked :
    (user now : ℕ) (rows : List UserSession)
    → All (IsClosedFor user) (update_where (is_live_of user) (as_revoked now) rows)
update_where-AllRevoked user now [] = tt
update_where-AllRevoked user now (s ∷ rows) = (revoked_one s, update_where-AllRevoked user now rows)
  where
    revoked_one : (s : UserSession) → IsClosedFor user (patch (is_live_of user) (as_revoked now) s)
    revoked_one s = elim (Bool-cases (is_live_of user s)) [
      | inl b ↦ rw b (λ _. refl)
      | inr b ↦ rw b (λ e. not_live (s.user_id == user) s.revoked_at e b)
    ]

-- A session that is not revoked belongs to somebody else.
pub other_owner :
    (user : ℕ) (s : UserSession)
    → IsClosedFor user s
    → is_some s.revoked_at ≡ false
    → (s.user_id == user) ≡ false
other_owner user s h live = elim (Bool-cases (s.user_id == user)) [
  | inl e ↦ (let k = sym (h e) ∙ live in cc)
  | inr e ↦ e
]

closed_unless_owner :
    (user : ℕ) (s : UserSession) → (s.user_id == user) ≡ false → IsClosedFor user s
closed_unless_owner user s n e = (let k = sym e ∙ n in cc)

module _ (user : ℕ) (faults : Site → Bool) (now : ℕ) where
  rotate-AllRevoked :
      (hash : Text → Text) (fresh : Text) (meta : RequestMeta) (req : RefreshTokenRequest)
      (s : UserSession) (db : AuthDb)
      → (s.user_id == user) ≡ false
      → AllRevoked user db
      → Leaves (AllRevoked user) (rotate faults now hash fresh meta req s db)
  unfolding rotate
  rotate-AllRevoked hash fresh meta req s db n h =
      elim (Bool-cases (is_other_device req.device_id s.device_id)) [
        | inl d ↦ rw (d, rotate, ◌>>=◌) h
        | inr d ↦ elim (Bool-cases (faults draw_token)) [
          | inl f ↦ rw (d, f, rotate, ◌>>=◌) h
          | inr f ↦ elim (Bool-cases (faults save_session)) [
            | inl g ↦ rw (d, f, g, rotate, ◌>>=◌) h
            | inr g ↦
                rw (d, f, g, rotate, ◌>>=◌)
                  (All-update_where (IsClosedFor user) (λ r. r.id == s.id)
                    (λ _. rotated (hash fresh) now meta s) db.sessions
                    (λ _ _ _. closed_unless_owner user (rotated (hash fresh) now meta s) n) h)
          ]
        ]
      ]

  pub refresh_tx-AllRevoked :
      (hash : Text → Text) (fresh : Text) (meta : RequestMeta) (req : RefreshTokenRequest)
      (db : AuthDb)
      → AllRevoked user db
      → Leaves (AllRevoked user) (refresh_tx faults now hash fresh meta req db)
  unfolding refresh_tx
  refresh_tx-AllRevoked hash fresh meta req db h =
      let same = λ (s : UserSession). text_eq s.refresh_token_hash (hash req.refresh_token) in
      elim (Bool-cases (faults find_session)) [
        | inl f ↦ rw (f, refresh_tx) h
        | inr f ↦ elim (Option-cases (session_by_hash (hash req.refresh_token) db)) [
          | inl e ↦ rw (f, e, refresh_tx, ◌>>=◌) h
          | inr (s, e) ↦
              rw (f, e, refresh_tx, ◌>>=◌)
                (validated_cases (Leaves (AllRevoked user)) faults now
                  (λ _. rotate faults now hash fresh meta req s) s db (λ _. h)
                  (λ _ live.
                    rotate-AllRevoked hash fresh meta req s db
                      (other_owner user s (All-find_first (IsClosedFor user) same db.sessions s h e)
                        live)
                      h))
        ]
      ]
