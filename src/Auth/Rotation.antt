-- ===== src/Auth/Rotation.antt =====
-- internal/auth/service.go: the old and the new token of `RefreshToken`.
use dating_app_backend.Prelude.{
  ℕ, ◌≡◌, ◌≢◌, refl, sym, ap, ◌∙◌, inl, inr, Bool, true, false, none, some, List, [], ◌∷◌, Text,
  text_eq, text_eq_refl, text_eq_sound, ◌==◌, ==_refl, if◌then◌else◌, exists, All, All-map,
  All-find_first, find_first, find_first_sound, update_where, done, Bool-cases, Option-cases, arith,
  ◌>>=◌, subst, transaction, transaction-done, bind-done,
}
use dating_app_backend.Auth.Model.{
  infrastructure, UserSession, AuthDb, RefreshTokenRequest, RequestMeta, TokenResponse,
  session_by_hash, is_other_device,
}
use dating_app_backend.Auth.Sessions.{
  Site, find_session, draw_token, save_session, commit, sign_token, rotated, update_sessions,
  rotate, refresh_tx, refresh_token,
}
use dating_app_backend.Auth.Revoked.{validated_cases}
use dating_app_backend.Auth.Final.{OnDone}

module _ {ℓ} {A : Type ℓ} (q : A → Bool) where
  find_first-none : (xs : List A) → All (λ x. q x ≡ false) xs → find_first q xs ≡ none
  find_first-none [] h = refl
  find_first-none (x ∷ xs) h = rw h.0 (find_first-none xs h.1)

  find_first-replaced :
      (p : A → Bool) (y : A) (xs : List A)
      → exists p xs ≡ true
      → All (λ x. q x ≡ false) xs
      → q y ≡ true
      → find_first q (update_where p (λ _. y) xs) ≡ some y
  find_first-replaced p y [] e h k = cc
  find_first-replaced p y (x ∷ xs) e h k = elim (Bool-cases (p x)) [
    | inl b ↦ rw (b, k) refl
    | inr b ↦ rw (b, h.0) (find_first-replaced p y xs (rw b at e) h.1 k)
  ]

  exists_found :
      (p : A → Bool) (xs : List A) (s : A)
      → find_first q xs ≡ some s
      → p s ≡ true
      → exists p xs ≡ true
  exists_found p [] s e h = cc
  exists_found p (x ∷ xs) s e h = elim (Bool-cases (q x)) [
    | inl b ↦ let k = rw b at e in let same : x ≡ s = cc in rw (ap p same ∙ h) refl
    | inr b ↦ elim (Bool-cases (p x)) [
      | inl c ↦ rw c refl
      | inr c ↦ rw c (exists_found p xs s (rw b at e) h)
    ]
  ]

All-replaced {ℓ κ} :
    {A : Type ℓ} (P : A → Type κ) (p : A → Bool) (y : A) (xs : List A)
    → P y
    → All (λ x. p x ≡ false → P x) xs
    → All P (update_where p (λ _. y) xs)
All-replaced P p y [] k h = tt
All-replaced P p y (x ∷ xs) k h = (go (p x) refl, All-replaced P p y xs k h.1)
  where
    go : (b : Bool) → p x ≡ b → P (if b then y else x)
    go true e = k
    go false e = h.0 e

-- A row with another key has another hash, where the hash has one key.
other_hash :
    (h own wanted : Text) (a b : ℕ)
    → text_eq own wanted ≡ true
    → (text_eq h own ≡ true → a ≡ b)
    → (a == b) ≡ false
    → text_eq h wanted ≡ false
other_hash h own wanted a b o k n = elim (Bool-cases (text_eq h wanted)) [
  | inr c ↦ c
  | inl c ↦
      let same = text_eq_sound h wanted c ∙ sym (text_eq_sound own wanted o) in
      let e = k (ap (text_eq h) (sym same) ∙ text_eq_refl h) in ground (arith, e, n)
]

-- The unique index on `refresh_token_hash`.
abbrev pub UniqueHashes : List UserSession → Type 0
UniqueHashes rows =
    All
      (λ c. All (λ x. text_eq x.refresh_token_hash c.refresh_token_hash ≡ true → x.id ≡ c.id) rows)
      rows

abbrev pub IsUnused : Text → List UserSession → Type 0
IsUnused hash rows = All (λ x. text_eq x.refresh_token_hash hash ≡ false) rows

module _ (hash : Text → Text) (meta : RequestMeta) (fresh : Text) (req : RefreshTokenRequest)
    (db : AuthDb) (unique : UniqueHashes db.sessions) (unused : IsUnused (hash fresh) db.sessions)
    (changes : text_eq (hash fresh) (hash req.refresh_token) ≡ false) where
  -- After the exchange: the old token has no session, the new one has the session of the answer.
  abbrev Exchanged : UserSession → AuthDb → Type 0
  Exchanged r s =
      (session_by_hash (hash req.refresh_token) s ≡ none)
      × (session_by_hash (hash fresh) s ≡ some r)

  exchanged :
      (now : ℕ) (s : UserSession)
      → session_by_hash (hash req.refresh_token) db ≡ some s
      → Exchanged
          (rotated (hash fresh) now meta s)
          (update_sessions (λ r. r.id == s.id) (λ _. rotated (hash fresh) now meta s) db)
  exchanged now s e =
      let old = λ (x : UserSession). text_eq x.refresh_token_hash (hash req.refresh_token) in
      let new = λ (x : UserSession). text_eq x.refresh_token_hash (hash fresh) in
      let own = λ (x : UserSession). x.id == s.id in
      let y = rotated (hash fresh) now meta s in
      let hit = find_first_sound old db.sessions s e in
      let alone =
        All-find_first
          (λ c.
            All (λ x. text_eq x.refresh_token_hash c.refresh_token_hash ≡ true → x.id ≡ c.id)
              db.sessions)
          old db.sessions s unique e in
      (
        find_first-none old (update_where own (λ _. y) db.sessions) (
            All-replaced (λ x. old x ≡ false) own y db.sessions changes
              (All-map db.sessions
                (λ x.
                  other_hash x.refresh_token_hash s.refresh_token_hash (hash req.refresh_token) x.id
                    s.id hit)
                alone)),
        find_first-replaced new own y db.sessions
            (exists_found old own db.sessions s e (==_refl s.id)) unused
            (text_eq_refl (hash fresh)),
      )

  rotate-Exchanged :
      (faults : Site → Bool) (now : ℕ) (s : UserSession)
      → session_by_hash (hash req.refresh_token) db ≡ some s
      → OnDone Exchanged (rotate faults now hash fresh meta req s db)
  unfolding rotate
  rotate-Exchanged faults now s e = elim (Bool-cases (is_other_device req.device_id s.device_id)) [
    | inl d ↦ rw (d, rotate, ◌>>=◌) tt
    | inr d ↦ elim (Bool-cases (faults draw_token)) [
      | inl f ↦ rw (d, f, rotate, ◌>>=◌) tt
      | inr f ↦ elim (Bool-cases (faults save_session)) [
        | inl g ↦ rw (d, f, g, rotate, ◌>>=◌) tt
        | inr g ↦ rw (d, f, g, rotate, ◌>>=◌) (exchanged now s e)
      ]
    ]
  ]

  refresh_tx-Exchanged :
      (faults : Site → Bool) (now : ℕ)
      → OnDone Exchanged (refresh_tx faults now hash fresh meta req db)
  unfolding refresh_tx
  refresh_tx-Exchanged faults now = elim (Bool-cases (faults find_session)) [
    | inl f ↦ rw (f, refresh_tx) tt
    | inr f ↦ elim (Option-cases (session_by_hash (hash req.refresh_token) db)) [
      | inl e ↦ rw (f, e, refresh_tx, ◌>>=◌) tt
      | inr (s, e) ↦
          rw (f, e, refresh_tx, ◌>>=◌)
            (validated_cases (OnDone Exchanged) faults now
              (λ _. rotate faults now hash fresh meta req s) s db (λ _. tt)
              (λ _ live. rotate-Exchanged faults now s e))
    ]
  ]

module _ (hash : Text → Text) where
  -- A token without a session is not exchanged.
  unknown_refused :
      (faults : Site → Bool) (now : ℕ) (fresh : Text) (meta : RequestMeta)
      (req : RefreshTokenRequest) (db : AuthDb) (r : TokenResponse) (s : AuthDb)
      → session_by_hash (hash req.refresh_token) db ≡ none
      → refresh_token faults now hash fresh meta req db ≢ done r s
  unfolding refresh_token refresh_tx
  unknown_refused faults now fresh meta req db r s n q =
      let body = refresh_tx faults now hash fresh meta req in
      let (t, s₁, e, d) = bind-done (transaction (faults commit) infrastructure body) _ db q in
      let b = transaction-done (faults commit) infrastructure body db e in
      elim (Bool-cases (faults find_session)) [
        | inl f ↦ (let k = rw (f, ◌>>=◌) at b in cc)
        | inr f ↦ (let k = rw (f, n, ◌>>=◌) at b in cc)
      ]

  -- Where hashes are unique and the new token's is not in use, an exchange leaves the new token with
  -- the session of the answer, and the old token is never exchanged from there.
  pub refresh_rotates :
      (faults : Site → Bool) (now : ℕ) (fresh : Text) (meta : RequestMeta)
      (req : RefreshTokenRequest) (db db' : AuthDb) (r : TokenResponse)
      → UniqueHashes db.sessions
      → IsUnused (hash fresh) db.sessions
      → text_eq (hash fresh) (hash req.refresh_token) ≡ false
      → refresh_token faults now hash fresh meta req db ≡ done r db'
      → (session_by_hash (hash r.refresh_token) db' ≡ some r.session)
        × ((faults : Site → Bool) (now : ℕ) (fresh device : Text) (meta : RequestMeta)
              (r' : TokenResponse) (s : AuthDb)
            → refresh_token faults now hash fresh meta
                (record { refresh_token = req.refresh_token; device_id = device })
                db'
              ≢ done r' s)
  unfolding refresh_token
  refresh_rotates faults now fresh meta req db db' r unique unused changes q =
      let body = refresh_tx faults now hash fresh meta req in
      let (t, s₁, e, d) = bind-done (transaction (faults commit) infrastructure body) _ db q in
      let x : Exchanged hash meta fresh req db unique unused changes t s₁ =
        subst (OnDone (Exchanged hash meta fresh req db unique unused changes))
          (transaction-done (faults commit) infrastructure body db e)
          (refresh_tx-Exchanged hash meta fresh req db unique unused changes faults now) in
      elim (Bool-cases (faults sign_token)) [
        | inl b ↦ (let k = rw (b, ◌>>=◌) at d in cc)
        | inr b ↦
            let answered : OnDone
                (λ (a : TokenResponse) s.
                  (session_by_hash (hash a.refresh_token) s ≡ some a.session)
                  × (session_by_hash (hash req.refresh_token) s ≡ none))
                (done r db') =
              subst
                (OnDone (λ (a : TokenResponse) s.
                  (session_by_hash (hash a.refresh_token) s ≡ some a.session)
                  × (session_by_hash (hash req.refresh_token) s ≡ none)))
                (rw (b, ◌>>=◌) at d) (x.1, x.0) in
            (
              answered.0,
              λ f n fr device m r' s.
                  unknown_refused f n fr m
                    (record { refresh_token = req.refresh_token; device_id = device }) db' r' s
                    answered.1,
            )
      ]
