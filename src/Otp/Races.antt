-- ===== src/Otp/Races.antt =====
-- internal/otp/service.go: calls of `Verify` that overlap. The read of the row and the writes that
-- follow are separate statements, with no transaction and no lock, so a call may write on the ground of
-- a row that another call has changed since.
use dating_app_backend.Prelude.{
  ℕ, ◌+◌, ◌≤◌, ◌<◌, ◌≡◌, ◌≢◌, refl, sym, ◌∙◌, ◌&&◌, inl, inr, Bool, true, false, some, is_none,
  List, [], ◌∷◌, arith, Text, store_of, done, ok, update_where, ◌==◌, Outcome, All, Bool-cases,
  Result,
}
use dating_app_backend.Otp.Model.{Purpose, OtpError, OtpCode, OtpConfig}
use dating_app_backend.Otp.Normalize.{Target, normalize_target, hash_identifier, compare_code_hash}
use dating_app_backend.Otp.Verify.{latest_open, has_id, as_consumed, with_attempts, check_code}
use dating_app_backend.Otp.SingleUse.{
  IsSpent, Call, call_verify, verify_accepts, latest_open-not_spent,
}
use dating_app_backend.Otp.Lockout.{no_faults}

module _ (hmac_hex : Text → Text → Text) (cfg : OtpConfig) (identifier : Text) (purpose : Purpose)
    (c : OtpCode) where
  -- A call that has read the row `c`, from there on: its time and the code that it was given.
  abbrev pub late_check : ℕ × Text → List OtpCode → Outcome OtpError (List OtpCode) OtpCode
  late_check (now, guess) = check_code hmac_hex no_faults cfg now guess identifier purpose c

  abbrev pub late_checks : List (ℕ × Text) → List OtpCode → List OtpCode
  late_checks [] rows = rows
  late_checks (g ∷ gs) rows = late_checks gs (store_of (late_check g rows))

  -- The guesses are wrong and in time.
  abbrev pub LateWrong : List (ℕ × Text) → Type 0
  LateWrong [] = Unit {0}
  LateWrong ((now, guess) ∷ gs) =
      (compare_code_hash hmac_hex c.otp_hash cfg.secret guess identifier purpose ≡ false)
      × (now ≤ c.expires_at)
      × LateWrong gs

  -- Every row of the key has this attempt count.
  abbrev pub CountIs : ℕ → List OtpCode → Type 0
  CountIs n rows = All (λ r. (r.id == c.id) ≡ true → r.attempt_count ≡ n) rows

  CountIs-set :
      (n now : ℕ) (rows : List OtpCode)
      → CountIs n (update_where (has_id c.id) (with_attempts n now) rows)
  CountIs-set n now [] = tt
  CountIs-set n now (r ∷ rows) = (λ e. ground arith, CountIs-set n now rows)

  CountIs-late_check :
      (now : ℕ) (guess : Text) (rows : List OtpCode)
      → compare_code_hash hmac_hex c.otp_hash cfg.secret guess identifier purpose ≡ false
      → now ≤ c.expires_at
      → c.attempt_count < c.max_attempts
      → CountIs (c.attempt_count + 1) (store_of (late_check (now, guess) rows))
  unfolding check_code
  CountIs-late_check now guess rows m t a =
      ground (arith, m, CountIs-set (c.attempt_count + 1) now rows)

  -- Any number of overlapping wrong guesses, at least one, that have all read the same row `c`, count
  -- as one: they leave the attempt count of its key at one more than they read.
  pub lost_counts :
      (g : ℕ × Text) (gs : List (ℕ × Text)) (rows : List OtpCode)
      → LateWrong (g ∷ gs)
      → c.attempt_count < c.max_attempts
      → CountIs (c.attempt_count + 1) (late_checks (g ∷ gs) rows)
  lost_counts (now, guess) [] rows (m, t, w) a = CountIs-late_check now guess rows m t a
  lost_counts (now, guess) (g' ∷ gs) rows (m, t, w) a =
      lost_counts g' gs (store_of (late_check (now, guess) rows)) w a

-- Where every row of the key is consumed, the update that consumes it finds nothing.
consumed_again :
    (i now : ℕ) (rows : List OtpCode)
    → IsSpent i rows
    → update_where (λ r. has_id i r && is_none r.consumed_at) (as_consumed now) rows ≡ rows
consumed_again i now [] h = refl
consumed_again i now (r ∷ rows) (p, h) = elim (Bool-cases (r.id == i)) [
  | inr e ↦ rw (e, consumed_again i now rows h) refl
  | inl e ↦ rw (e, p e, consumed_again i now rows h) refl
]

ok_eq : (t u : Target) → ◌≡◌ {A = Result OtpError Target} (ok t) (ok u) → t ≡ u
ok_eq t u h = cc

module _ (hmac_hex : Text → Text → Text) (parse_address : Text → Bool) (cfg : OtpConfig) where
  accepted_late :
      (t : Target) (c : OtpCode) (guess : Text) (later : ℕ) (rows : List OtpCode)
      → compare_code_hash hmac_hex c.otp_hash cfg.secret guess t.identifier t.purpose ≡ true
      → later ≤ c.expires_at
      → c.attempt_count < c.max_attempts
      → IsSpent c.id rows
      → late_check hmac_hex cfg t.identifier t.purpose c (later, guess) rows
        ≡ done (record c { consumed_at = some later }) rows
  unfolding check_code
  accepted_late t c guess later rows m l a s = ground (arith, m, consumed_again c.id later rows s)

  -- A code is accepted twice where two calls overlap. Take a call of `Verify` that is accepted, without
  -- the bypass, and another about the same target and with the same code that has read the newest open
  -- row before the first has written, and goes on in time after it, with no failing statement: the
  -- other is accepted too, and writes nothing, as the code does not look at how many rows its update
  -- has changed. A call that reads after the first does not read that row.
  pub double_acceptance :
      (first : Call) (t : Target) (c c' : OtpCode) (later : ℕ) (rows rows' : List OtpCode)
      → cfg.dev_bypass_enabled ≡ false
      → normalize_target parse_address first.input.channel first.input.purpose first.input.phone
          first.input.email
        ≡ ok t
      → latest_open (hash_identifier hmac_hex cfg.secret t.identifier) t.channel t.purpose rows
        ≡ some c
      → later ≤ c.expires_at
      → call_verify hmac_hex parse_address cfg first rows ≡ done c' rows'
      → (late_check hmac_hex cfg t.identifier t.purpose c (later, first.input.code) rows'
          ≡ done (record c { consumed_at = some later }) rows')
        × (latest_open (hash_identifier hmac_hex cfg.secret t.identifier) t.channel t.purpose rows'
            ≢ some c)
  double_acceptance first t c c' later rows rows' off n r l h =
      let a = verify_accepts hmac_hex parse_address cfg first rows c' rows' off h in
      let t_is : a.target ≡ t = ok_eq a.target t (sym a.about ∙ n) in
      let read = rw t_is at a.read in
      let row_is : a.row ≡ c = cc in
      let spent = rw (a.same_row, row_is) at a.spent in
      (
        accepted_late t c first.input.code later rows' (rw (t_is, row_is) at a.matched) l
            (rw row_is at a.attempts_left) spent,
        λ e.
            latest_open-not_spent c.id (hash_identifier hmac_hex cfg.secret t.identifier) t.channel
              t.purpose rows' c spent e refl,
      )
