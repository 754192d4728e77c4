-- ===== src/Otp/SingleUse.antt =====
-- internal/otp/service.go: codes that `Verify` accepts, in sequences of calls that do not overlap.
use dating_app_backend.Prelude.{
  ℕ, ◌+◌, ◌≤◌, ◌<◌, ◌≡◌, ◌≢◌, refl, inl, inr, Bool, true, false, none, some, List, [], ◌∷◌, arith,
  Text, store_of, done, Leaves, All, All-update_where, All-select, All-first_by, update_where,
  select, select_sound, Bool-cases, Option-cases, is_none, ◌==◌, ◌&&◌, Outcome, ok,
}
use dating_app_backend.Otp.Model.{Channel, Purpose, OtpError, OtpCode, OtpConfig, VerifyInput}
use dating_app_backend.Otp.Normalize.{Target, normalize_target, hash_identifier, compare_code_hash}
use dating_app_backend.Otp.Verify.{
  Site, find_code, is_open_for, is_newer, latest_open, has_id, as_expired, as_consumed,
  with_attempts, check_code, verify_stored, verify, verify_cases,
}

-- Every row with the key is consumed.
abbrev pub IsSpent : ℕ → List OtpCode → Type 0
IsSpent i rows = All (λ r. (r.id == i) ≡ true → is_none r.consumed_at ≡ false) rows

consumed-IsSpent :
    (i now : ℕ) (rows : List OtpCode)
    → IsSpent i (update_where (λ r. has_id i r && is_none r.consumed_at) (as_consumed now) rows)
consumed-IsSpent i now [] = tt
consumed-IsSpent i now (r ∷ rows) = (λ e. ground arith, consumed-IsSpent i now rows)

module _ (hmac_hex : Text → Text → Text) where
  check_code-IsSpent :
      (i : ℕ) (faults : Site → Bool) (cfg : OtpConfig) (now : ℕ) (guess identifier : Text)
      (purpose : Purpose) (c : OtpCode) (rows : List OtpCode)
      → IsSpent i rows
      → Leaves (IsSpent i) (check_code hmac_hex faults cfg now guess identifier purpose c rows)
  unfolding check_code
  check_code-IsSpent i faults cfg now guess identifier purpose c rows h =
      let P = λ (r : OtpCode). (r.id == i) ≡ true → is_none r.consumed_at ≡ false in
      ground (
        arith,
        All-update_where P (has_id c.id) (as_expired now) rows (λ x e b. b) h,
        All-update_where P (has_id c.id) (with_attempts (c.attempt_count + 1) now) rows (λ x e b. b)
            h,
        All-update_where P (λ r. has_id c.id r && is_none r.consumed_at) (as_consumed now) rows
            (λ x e b q. refl) h,
      )

  verify_stored-IsSpent :
      (i : ℕ) (faults : Site → Bool) (cfg : OtpConfig) (now : ℕ) (guess : Text) (channel : Channel)
      (purpose : Purpose) (identifier : Text) (rows : List OtpCode)
      → IsSpent i rows
      → Leaves
          (IsSpent i)
          (verify_stored hmac_hex faults cfg now guess channel purpose identifier rows)
  unfolding verify_stored
  verify_stored-IsSpent i faults cfg now guess channel purpose identifier rows h =
      elim (Bool-cases (faults find_code)) [
        | inl b ↦ rw b h
        | inr b ↦
            rw b
              (elim (Option-cases (
                latest_open (hash_identifier hmac_hex cfg.secret identifier) channel purpose
                  rows)) [
                    | inl e ↦ rw e h
                    | inr (c, e) ↦
                        rw e (check_code-IsSpent i faults cfg now guess identifier purpose c rows h)
                  ])
      ]

  -- An accepted code: the row that was read, its checks, and the write that consumes it.
  pub check_code-done :
      (faults : Site → Bool) (cfg : OtpConfig) (now : ℕ) (guess identifier : Text)
      (purpose : Purpose) (c c' : OtpCode) (rows rows' : List OtpCode)
      → check_code hmac_hex faults cfg now guess identifier purpose c rows ≡ done c' rows'
      → (c'.id ≡ c.id)
        × (now ≤ c.expires_at)
        × (c.attempt_count < c.max_attempts)
        × (compare_code_hash hmac_hex c.otp_hash cfg.secret guess identifier purpose ≡ true)
        × (rows'
            ≡ update_where (λ r. has_id c.id r && is_none r.consumed_at) (as_consumed now) rows)
  unfolding check_code
  check_code-done faults cfg now guess identifier purpose c c' rows rows' h = ground arith

latest_open-is_open :
    (hash : Text) (channel : Channel) (purpose : Purpose) (rows : List OtpCode) (c : OtpCode)
    → latest_open hash channel purpose rows ≡ some c
    → is_open_for hash channel purpose c ≡ true
unfolding latest_open
latest_open-is_open hash channel purpose rows c e =
    All-first_by (λ x. is_open_for hash channel purpose x ≡ true) is_newer
      (select (is_open_for hash channel purpose) rows) c
      (select_sound (is_open_for hash channel purpose) rows) e

pub latest_open-not_spent :
    (i : ℕ) (hash : Text) (channel : Channel) (purpose : Purpose) (rows : List OtpCode)
    (c : OtpCode)
    → IsSpent i rows
    → latest_open hash channel purpose rows ≡ some c
    → c.id ≢ i
unfolding latest_open
latest_open-not_spent i hash channel purpose rows c h e same =
    let P = λ (r : OtpCode). (r.id == i) ≡ true → is_none r.consumed_at ≡ false in
    let closed =
      All-first_by P is_newer (select (is_open_for hash channel purpose) rows) c
        (All-select P (is_open_for hash channel purpose) rows h) e in
    ground (arith, closed, latest_open-is_open hash channel purpose rows c e)

-- A call of `Verify`, with what the database and the environment do to it.
pub record Call : Type 0 where
  pub faults : Site → Bool
  pub has_db : Bool
  pub now : ℕ
  pub uuid : ℕ
  pub input : VerifyInput

module _ (hmac_hex : Text → Text → Text) (parse_address : Text → Bool) (cfg : OtpConfig) where
  abbrev pub call_verify : Call → List OtpCode → Outcome OtpError (List OtpCode) OtpCode
  call_verify k rows = verify hmac_hex parse_address k.faults k.has_db cfg k.now k.uuid k.input rows

  unfoldable pub verify_calls : List Call → List OtpCode → List OtpCode
  verify_calls [] rows = rows
  verify_calls (k ∷ ks) rows = verify_calls ks (store_of (call_verify k rows))

  -- What it takes to be accepted, without the bypass.
  pub record Accepted (k : Call) (rows : List OtpCode) (c' : OtpCode) (rows' : List OtpCode)
      : Type 0 where
    pub target : Target
    pub row : OtpCode
    pub about :
        normalize_target parse_address k.input.channel k.input.purpose k.input.phone k.input.email
        ≡ ok target
    pub read :
        latest_open
          (hash_identifier hmac_hex cfg.secret target.identifier)
          target.channel
          target.purpose
          rows
        ≡ some row
    pub same_row : c'.id ≡ row.id
    pub unconsumed : row.consumed_at ≡ none
    pub in_time : k.now ≤ row.expires_at
    pub attempts_left : row.attempt_count < row.max_attempts
    pub matched :
        compare_code_hash hmac_hex row.otp_hash cfg.secret k.input.code target.identifier
          target.purpose
        ≡ true
    pub spent : IsSpent c'.id rows'

  verify_stored-Accepted :
      (k : Call) (rows : List OtpCode) (c' : OtpCode) (rows' : List OtpCode) (t : Target)
      → normalize_target parse_address k.input.channel k.input.purpose k.input.phone k.input.email
        ≡ ok t
      → verify_stored hmac_hex k.faults cfg k.now k.input.code t.channel t.purpose t.identifier rows
        ≡ done c' rows'
      → Accepted k rows c' rows'
  unfolding verify_stored
  verify_stored-Accepted k rows c' rows' t q h = elim (Bool-cases (k.faults find_code)) [
    | inl b ↦ cc
    | inr b ↦
        let hash = hash_identifier hmac_hex cfg.secret t.identifier in
        elim (Option-cases (latest_open hash t.channel t.purpose rows)) [
          | inl e ↦ absurd (ground (arith, e))
          | inr (c, e) ↦
              let p =
                check_code-done hmac_hex k.faults cfg k.now k.input.code t.identifier t.purpose c c'
                  rows rows' (rw (b, e) at h) in
              record {
                target = t;
                row = c;
                about = q;
                read = e;
                same_row = p.0;
                unconsumed = ground (arith, latest_open-is_open hash t.channel t.purpose rows c e);
                in_time = p.1;
                attempts_left = p.2;
                matched = p.3;
                spent = rw (p.0, p.4) (consumed-IsSpent c.id k.now rows);
              }
        ]
  ]

  -- Without the development bypass, `Verify` returns a code only for a request about a target whose
  -- newest open row is in time, has attempts left and carries the hash of the code that was sent; it
  -- returns that row, and leaves every row of its key consumed.
  pub verify_accepts :
      (k : Call) (rows : List OtpCode) (c' : OtpCode) (rows' : List OtpCode)
      → cfg.dev_bypass_enabled ≡ false
      → call_verify k rows ≡ done c' rows'
      → Accepted k rows c' rows'
  verify_accepts k rows c' rows' off =
      verify_cases hmac_hex parse_address (λ o. o ≡ done c' rows' → Accepted k rows c' rows')
        k.faults k.has_db cfg k.now k.uuid k.input rows (λ e h. cc)
        (λ t d h. absurd (ground (arith, d, off)))
        (λ t q h. verify_stored-Accepted k rows c' rows' t q h)

  verify-IsSpent :
      (i : ℕ) (k : Call) (rows : List OtpCode)
      → IsSpent i rows
      → Leaves (IsSpent i) (call_verify k rows)
  verify-IsSpent i k rows h =
      verify_cases hmac_hex parse_address (Leaves (IsSpent i)) k.faults k.has_db cfg k.now k.uuid
        k.input rows (λ e. h) (λ t d. h) (λ t q. stored t)
    where
      stored :
          (t : Target)
          → Leaves (IsSpent i) (
              verify_stored hmac_hex k.faults cfg k.now k.input.code t.channel t.purpose
                t.identifier rows)
      stored t =
          verify_stored-IsSpent hmac_hex i k.faults cfg k.now k.input.code t.channel t.purpose
            t.identifier rows h

  verify_calls-IsSpent :
      (i : ℕ) (ks : List Call) (rows : List OtpCode)
      → IsSpent i rows
      → IsSpent i (verify_calls ks rows)
  unfolding verify_calls
  verify_calls-IsSpent i [] rows h = h
  verify_calls-IsSpent i (k ∷ ks) rows h =
      verify_calls-IsSpent i ks (store_of (call_verify k rows)) (verify-IsSpent i k rows h)

  -- A code is accepted once: after a call of `Verify` that returned it, and any further calls, at any
  -- times and with any database errors, no call returns a row of the same key. The bypass is off.
  pub single_use :
      (first : Call) (between : List Call) (again : Call) (rows : List OtpCode) (c c' : OtpCode)
      (rows' rows'' : List OtpCode)
      → cfg.dev_bypass_enabled ≡ false
      → call_verify first rows ≡ done c rows'
      → call_verify again (verify_calls between rows') ≡ done c' rows''
      → c'.id ≢ c.id
  single_use first between again rows c c' rows' rows'' off h k =
      let a = verify_accepts first rows c rows' off h in
      let b = verify_accepts again (verify_calls between rows') c' rows'' off k in
      rw b.same_row (
        latest_open-not_spent c.id _ b.target.channel b.target.purpose (verify_calls between rows')
          b.row (verify_calls-IsSpent c.id between rows' a.spent) b.read)
