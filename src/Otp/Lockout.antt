-- ===== src/Otp/Lockout.antt =====
-- internal/otp/service.go: sequences of wrong guesses in `Verify`.
use mathlib.Core.Option
use dating_app_backend.Prelude.{
  ℕ, ◌+◌, ◌≤◌, ◌≡◌, refl, ap, ◌∙◌, inl, inr, Bool, true, false, some, List, [], ◌∷◌, arith, Text,
  text_eq, is_empty, ok, store_of, failed, update_where, patch, select, first_by,
  select-update_where, first_by-update_where, Bool-cases, ==_refl, leb, length, ◌&&◌, if◌then◌else◌,
  Outcome,
}
use dating_app_backend.Otp.Model.{
  Channel, Purpose, OtpError, otp_max_attempts, OtpCode, OtpConfig, VerifyInput,
}
use dating_app_backend.Otp.Normalize.{Target, normalize_target, hash_identifier, compare_code_hash}
use dating_app_backend.Otp.Verify.{
  Site, is_open_for, is_newer, latest_open, has_id, with_attempts, check_code, verify_stored,
  verify,
}

abbrev pub no_faults : Site → Bool
no_faults _ = false

-- A call of `Verify`, with its time and the uuid that it would draw.
pub record Guess : Type 0 where
  pub now : ℕ
  pub uuid : ℕ
  pub input : VerifyInput

latest_open-count :
    (hash : Text) (channel : Channel) (purpose : Purpose) (i n now : ℕ) (rows : List OtpCode)
    → latest_open hash channel purpose (update_where (has_id i) (with_attempts n now) rows)
      ≡ Option.map (patch (has_id i) (with_attempts n now)) (latest_open hash channel purpose rows)
unfolding latest_open
latest_open-count hash channel purpose i n now rows =
    ap (first_by is_newer) (
      select-update_where (has_id i) (with_attempts n now) (is_open_for hash channel purpose) rows
        (λ x. ground arith))
    ∙ first_by-update_where (has_id i) (with_attempts n now) is_newer
        (select (is_open_for hash channel purpose) rows) (λ x y. ground arith)

patch_self :
    (c : OtpCode) (n now : ℕ) → patch (has_id c.id) (with_attempts n now) c ≡ with_attempts n now c
patch_self c n now = rw (==_refl c.id)

-- The row after one more wrong guess.
abbrev bumped : ℕ → OtpCode → OtpCode
bumped now c =
    if leb c.max_attempts c.attempt_count then c else with_attempts (c.attempt_count + 1) now c

module _ (hmac_hex : Text → Text → Text) (parse_address : Text → Bool) (cfg : OtpConfig) where
  -- A call about `t` that reaches the comparison: not empty, not the bypass, and in time for `c`.
  pub record IsGuess (t : Target) (c : OtpCode) (g : Guess) : Type 0 where
    pub about :
        normalize_target parse_address g.input.channel g.input.purpose g.input.phone g.input.email
        ≡ ok t
    pub nonempty : is_empty g.input.code ≡ false
    pub no_bypass : (cfg.dev_bypass_enabled && text_eq g.input.code cfg.dev_bypass_code) ≡ false
    pub in_time : g.now ≤ c.expires_at

  pub record IsWrong (t : Target) (c : OtpCode) (g : Guess) : Type 0 where
    pub guess : IsGuess t c g
    pub mismatch :
        compare_code_hash hmac_hex c.otp_hash cfg.secret g.input.code t.identifier t.purpose ≡ false

  -- The wrong guesses of a sequence.
  abbrev pub AllWrong : Target → OtpCode → List Guess → Type 0
  AllWrong t c [] = Unit {0}
  AllWrong t c (g ∷ gs) = IsWrong t c g × AllWrong t c gs

  -- A database that does not fail.
  unfoldable pub verify_ok : Guess → List OtpCode → Outcome OtpError (List OtpCode) OtpCode
  verify_ok g rows = verify hmac_hex parse_address no_faults true cfg g.now g.uuid g.input rows

  unfoldable pub verify_all : List Guess → List OtpCode → List OtpCode
  verify_all [] rows = rows
  verify_all (g ∷ gs) rows = verify_all gs (store_of (verify_ok g rows))

  pub verify_ok_stored :
      (t : Target) (c : OtpCode) (g : Guess) (rows : List OtpCode)
      → IsGuess t c g
      → latest_open (hash_identifier hmac_hex cfg.secret t.identifier) t.channel t.purpose rows
        ≡ some c
      → verify_ok g rows
        ≡ check_code hmac_hex no_faults cfg g.now g.input.code t.identifier t.purpose c rows
  unfolding verify_ok verify verify_stored
  verify_ok_stored t c g rows h e =
      rw (h.about, verify) (rw (h.nonempty, verify) (rw (h.no_bypass, verify) (rw e refl)))

  wrong_guess_store :
      (t : Target) (c : OtpCode) (g : Guess) (rows : List OtpCode)
      → IsWrong t c g
      → store_of
          (check_code hmac_hex no_faults cfg g.now g.input.code t.identifier t.purpose c rows)
        ≡ (if leb c.max_attempts c.attempt_count
            then rows
            else update_where (has_id c.id) (with_attempts (c.attempt_count + 1) g.now) rows)
  unfolding check_code
  wrong_guess_store t c g rows h = ground (arith, h.mismatch, h.guess.in_time)

  wrong_guess_latest :
      (t : Target) (c : OtpCode) (g : Guess) (rows : List OtpCode)
      → IsWrong t c g
      → latest_open (hash_identifier hmac_hex cfg.secret t.identifier) t.channel t.purpose rows
        ≡ some c
      → latest_open
          (hash_identifier hmac_hex cfg.secret t.identifier)
          t.channel
          t.purpose
          (store_of (verify_ok g rows))
        ≡ some (bumped g.now c)
  wrong_guess_latest t c g rows h e =
      let hash = hash_identifier hmac_hex cfg.secret t.identifier in
      rw (verify_ok_stored t c g rows h.guess e, wrong_guess_store t c g rows h)
        (elim (Bool-cases (leb c.max_attempts c.attempt_count)) [
          | inl b ↦ rw b e
          | inr b ↦ rw b (
              latest_open-count hash t.channel t.purpose c.id (c.attempt_count + 1) g.now rows
              ∙ ap (Option.map (patch (has_id c.id) (with_attempts (c.attempt_count + 1) g.now))) e
              ∙ ap some (patch_self c (c.attempt_count + 1) g.now))
        ])

  IsGuess-bumped :
      (t : Target) (now : ℕ) (c : OtpCode) (g : Guess) → IsGuess t c g → IsGuess t (bumped now c) g
  IsGuess-bumped t now c g h = ground (arith, h.about, h.nonempty, h.no_bypass, h.in_time)

  AllWrong-bumped :
      (t : Target) (now : ℕ) (c : OtpCode) (gs : List Guess)
      → AllWrong t c gs
      → AllWrong t (bumped now c) gs
  AllWrong-bumped t now c [] h = tt
  AllWrong-bumped t now c (g ∷ gs) h = (
    record { guess = IsGuess-bumped t now c g h.0.guess; mismatch = ground (arith, h.0.mismatch) },
    AllWrong-bumped t now c gs h.1,
  )

  exhausted :
      (t : Target) (c : OtpCode) (g : Guess) (rows : List OtpCode)
      → IsGuess t c g
      → c.max_attempts ≤ c.attempt_count
      → check_code hmac_hex no_faults cfg g.now g.input.code t.identifier t.purpose c rows
        ≡ failed otp_max_attempts rows
  unfolding check_code
  exhausted t c g rows h full = ground (arith, h.in_time)

  -- Let `c` be the code that `Verify` reads for the target `t`. After as many wrong guesses as `c`
  -- has attempts left, on a database that does not fail, every further call about `t` that comes
  -- before `c` expires ends in "max attempts exceeded" and changes nothing, the right code included.
  pub wrong_guesses_lock :
      (t : Target) (c : OtpCode) (gs : List Guess) (g : Guess) (rows : List OtpCode)
      → latest_open (hash_identifier hmac_hex cfg.secret t.identifier) t.channel t.purpose rows
        ≡ some c
      → AllWrong t c gs
      → c.max_attempts ≤ c.attempt_count + length gs
      → IsGuess t c g
      → verify_ok g (verify_all gs rows) ≡ failed otp_max_attempts (verify_all gs rows)
  unfolding verify_all
  wrong_guesses_lock t c [] g rows e w full h =
      verify_ok_stored t c g rows h e ∙ exhausted t c g rows h (omega arith)
  wrong_guesses_lock t c (x ∷ gs) g rows e w full h =
      wrong_guesses_lock t (bumped x.now c) gs g (store_of (verify_ok x rows))
        (wrong_guess_latest t c x rows w.0 e) (AllWrong-bumped t x.now c gs w.1) (ground arith)
        (IsGuess-bumped t x.now c g h)
