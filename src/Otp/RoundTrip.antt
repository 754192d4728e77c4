-- ===== src/Otp/RoundTrip.antt =====
-- internal/otp/service.go: `Request` and then `Verify`.
use mathlib.Core.Option
use dating_app_backend.Prelude.{
  ℕ, ◌+◌, ◌≤◌, ◌<◌, ◌≡◌, refl, sym, ap, ◌∙◌, inl, inr, Bool, true, Option, none, some, List, ◌∷◌,
  arith, Text, text_eq_refl, ok, done, All, All-select, All-first_by, update_where, patch, select,
  first_by, earlier, select-update_where, first_by-update_where, Bool-cases, Result-cases, ==_refl,
  ◌&&◌, is_none, bind-done, lift-done, lift, Handler,
}
use dating_app_backend.Otp.Model.{
  Channel, whatsapp, email, Purpose, OtpError, queued, OtpCode, OtpConfig, RequestInput,
  same_channel, same_purpose,
}
use dating_app_backend.Otp.Normalize.{
  Target, normalize_target, hash_identifier, hash_code, compare_code_hash, generate_numeric_code,
}
use dating_app_backend.Otp.Verify.{
  is_open_for, is_newer, latest_open, has_id, as_consumed, check_code,
}
use dating_app_backend.Otp.Limits.{Redis, enforce_rate_limits}
use dating_app_backend.Otp.Lockout.{no_faults, Guess, IsGuess, verify_ok, verify_ok_stored}
use dating_app_backend.Otp.Request.{
  Site, limits, insert_code, RequestStore, RequestEnv, new_code, as_queued, deliver_new, issue,
  on_redis, request, insert_row,
}

module _ (redis : Redis) (hmac_hex : Text → Text → Text) (parse_address : Text → Bool) where
  deliver_new-done :
      (faults : Site → Bool) (env : RequestEnv) (t : Target) (code : Text) (c c' : OtpCode)
      (s s' : RequestStore redis.State)
      → deliver_new redis hmac_hex parse_address faults env t code c s ≡ done c' s'
      → (c' ≡ record c { delivery_status = queued })
        × (s'.codes ≡ update_where (has_id c.id) (as_queued env.now) s.codes)
  unfolding deliver_new
  deliver_new-done faults env t code c c' s s' h = ground arith

  -- What a request that succeeds has done to the table.
  pub record Issued (cfg : OtpConfig) (env : RequestEnv) (input : RequestInput)
      (s : RequestStore redis.State) (c : OtpCode) (s' : RequestStore redis.State) : Type 0 where
    pub target : Target
    pub code : Text
    pub id : ℕ
    pub about :
        normalize_target parse_address input.channel input.purpose input.phone input.email
        ≡ ok target
    pub drawn : generate_numeric_code env.draw cfg.length ≡ ok code
    pub returned :
        c ≡ record (new_code hmac_hex cfg env input target code id) { delivery_status = queued }
    pub rows :
        s'.codes
        ≡ update_where
            (has_id id)
            (as_queued env.now)
            (new_code hmac_hex cfg env input target code id ∷ s.codes)

  issue-Issued :
      (faults : Site → Bool) (cfg : OtpConfig) (env : RequestEnv) (input : RequestInput)
      (t : Target) (s s₀ : RequestStore redis.State) (c : OtpCode) (s' : RequestStore redis.State)
      → normalize_target parse_address input.channel input.purpose input.phone input.email ≡ ok t
      → s₀.codes ≡ s.codes
      → issue redis hmac_hex parse_address faults cfg env input t s₀ ≡ done c s'
      → Issued cfg env input s c s'
  unfolding issue new_code
  issue-Issued faults cfg env input t s s₀ c s' q same h =
      elim (Result-cases (generate_numeric_code env.draw cfg.length)) [
        | inr (e, q') ↦ absurd (ground (arith, q'))
        | inl (code, q') ↦ elim (Bool-cases (faults insert_code)) [
          | inl b ↦ absurd (ground (arith, q', b))
          | inr b ↦
              let n = new_code hmac_hex cfg env input t code s₀.next_id in
              let p =
                deliver_new-done faults env t code n c (insert_row redis n s₀) s'
                  (rw (q', b) at h) in
              record {
                target = t;
                code = code;
                id = s₀.next_id;
                about = q;
                drawn = q';
                returned = p.0;
                rows =
                    p.1
                    ∙ ap (λ l. update_where (has_id s₀.next_id) (as_queued env.now) (n ∷ l)) same;
              }
        ]
      ]

  on_redis-codes :
      (m : Handler OtpError redis.State (Unit {0})) (s r : RequestStore redis.State)
      → on_redis redis m s ≡ done tt r
      → r.codes ≡ s.codes
  on_redis-codes m s r h = ground arith

  pub request-Issued :
      (faults : Site → Bool) (cfg : OtpConfig) (env : RequestEnv) (input : RequestInput)
      (s : RequestStore redis.State) (c : OtpCode) (s' : RequestStore redis.State)
      → request redis hmac_hex parse_address faults cfg env input s ≡ done c s'
      → Issued cfg env input s c s'
  unfolding request
  request-Issued faults cfg env input s c s' h =
      let r = normalize_target parse_address input.channel input.purpose input.phone input.email in
      let (t, s₁, e₁, h₁) = bind-done (lift r) _ s h in
      let (q, back) = lift-done r s e₁ in
      let m =
        enforce_rate_limits redis (λ l. faults (limits l)) env.has_redis cfg env.now
          (hash_identifier hmac_hex cfg.secret t.identifier) input.ip_address in
      let (u, s₂, e₂, h₂) = bind-done (on_redis redis m) _ s₁ h₁ in
      issue-Issued faults cfg env input t s s₂ c s' q
        (on_redis-codes m s₁ s₂ e₂ ∙ ap (λ x. x.codes) back) h₂

  abbrev Older : ℕ → List OtpCode → Type 0
  Older now rows = All (λ r. r.created_at < now) rows

  newest_stays :
      (n : OtpCode) (o : Option OtpCode)
      → ((r : OtpCode) → o ≡ some r → r.created_at < n.created_at)
      → earlier is_newer o n ≡ n
  newest_stays n none h = refl
  newest_stays n (some r) h = ground (arith, h r refl)

  latest_open-cons :
      (n : OtpCode) (hash : Text) (channel : Channel) (purpose : Purpose) (rows : List OtpCode)
      → is_open_for hash channel purpose n ≡ true
      → Older n.created_at rows
      → latest_open hash channel purpose (n ∷ rows) ≡ some n
  unfolding latest_open
  latest_open-cons n hash channel purpose rows e old =
      let q = is_open_for hash channel purpose in
      rw e (
        ap some (
          newest_stays n (first_by is_newer (select q rows)) (λ r f.
            All-first_by (λ r. r.created_at < n.created_at) is_newer (select q rows) r
              (All-select (λ r. r.created_at < n.created_at) q rows old) f)))

  latest_open-queued :
      (hash : Text) (channel : Channel) (purpose : Purpose) (i now : ℕ) (rows : List OtpCode)
      → latest_open hash channel purpose (update_where (has_id i) (as_queued now) rows)
        ≡ Option.map (patch (has_id i) (as_queued now)) (latest_open hash channel purpose rows)
  unfolding latest_open
  latest_open-queued hash channel purpose i now rows =
      ap (first_by is_newer) (
        select-update_where (has_id i) (as_queued now) (is_open_for hash channel purpose) rows
          (λ x. ground arith))
      ∙ first_by-update_where (has_id i) (as_queued now) is_newer
          (select (is_open_for hash channel purpose) rows) (λ x y. ground arith)

  same_channel_refl : (a : Channel) → same_channel a a ≡ true
  same_channel_refl whatsapp = refl
  same_channel_refl email = refl

  same_purpose_refl : (a : Purpose) → same_purpose a a ≡ true
  same_purpose_refl a = ground arith

  -- The row that `Verify` reads after a request that succeeded is the row that the request returned.
  latest_open-Issued :
      (cfg : OtpConfig) (env : RequestEnv) (input : RequestInput) (s : RequestStore redis.State)
      (c : OtpCode) (s' : RequestStore redis.State) (i : Issued cfg env input s c s')
      → Older env.now s.codes
      → latest_open
          (hash_identifier hmac_hex cfg.secret i.target.identifier)
          i.target.channel
          i.target.purpose
          s'.codes
        ≡ some c
  unfolding new_code
  latest_open-Issued cfg env input s c s' i old =
      let t = i.target in
      let n = new_code hmac_hex cfg env input t i.code i.id in
      let hash = hash_identifier hmac_hex cfg.secret t.identifier in
      rw i.rows (
        latest_open-queued hash t.channel t.purpose i.id env.now (n ∷ s.codes)
        ∙ ap (Option.map (patch (has_id i.id) (as_queued env.now))) (
            latest_open-cons n hash t.channel t.purpose s.codes
              (rw (text_eq_refl hash, same_channel_refl t.channel, same_purpose_refl t.purpose)
                refl)
              old)
        ∙ rw (==_refl i.id) (ap some (sym i.returned)))

  fresh_accepted :
      (cfg : OtpConfig) (env : RequestEnv) (input : RequestInput) (s : RequestStore redis.State)
      (c : OtpCode) (s' : RequestStore redis.State) (i : Issued cfg env input s c s') (now : ℕ)
      (guess : Text)
      → guess ≡ i.code
      → 0 < cfg.max_attempts
      → now ≤ env.now + cfg.expiry_ttl
      → check_code hmac_hex no_faults cfg now guess i.target.identifier i.target.purpose c s'.codes
        ≡ done
            (record c { consumed_at = some now })
            (update_where (λ r. has_id c.id r && is_none r.consumed_at) (as_consumed now) s'.codes)
  unfolding check_code new_code compare_code_hash
  fresh_accepted cfg env input s c s' i now guess same pos le =
      let h = hash_code hmac_hex cfg.secret i.code i.target.identifier i.target.purpose in
      ground (arith, i.returned, same, text_eq_refl h)

  -- What `Request` has issued, `Verify` accepts. Let a request succeed, with no row of its time or
  -- later in the table, and let a call of `Verify` be about the same channel, purpose and identifier
  -- once normalized, carry the code that was drawn, and come before the code expires. With at least
  -- one attempt allowed, the bypass not taken and a database that does not fail, the call returns the
  -- row that the request returned, consumed, and consumes it in the table.
  pub request_verify :
      (faults : Site → Bool) (cfg : OtpConfig) (env : RequestEnv) (input : RequestInput)
      (s : RequestStore redis.State) (c : OtpCode) (s' : RequestStore redis.State) (t : Target)
      (g : Guess)
      → request redis hmac_hex parse_address faults cfg env input s ≡ done c s'
      → Older env.now s.codes
      → normalize_target parse_address input.channel input.purpose input.phone input.email ≡ ok t
      → generate_numeric_code env.draw cfg.length ≡ ok g.input.code
      → 0 < cfg.max_attempts
      → IsGuess hmac_hex parse_address cfg t c g
      → verify_ok hmac_hex parse_address cfg g s'.codes
        ≡ done
            (record c { consumed_at = some g.now })
            (update_where
              (λ r. has_id c.id r && is_none r.consumed_at)
              (as_consumed g.now)
              s'.codes)
  unfolding new_code
  request_verify faults cfg env input s c s' t g h old about drawn pos guess =
      let i = request-Issued faults cfg env input s c s' h in
      let same_target : i.target ≡ t = cc (i.about, about) in
      let same_code : g.input.code ≡ i.code = cc (i.drawn, drawn) in
      let g' : IsGuess hmac_hex parse_address cfg i.target c g = rw same_target guess in
      verify_ok_stored hmac_hex parse_address cfg i.target c g s'.codes g'
        (latest_open-Issued cfg env input s c s' i old)
      ∙ fresh_accepted cfg env input s c s' i g.now g.input.code same_code pos
          (ground (arith, i.returned, guess.in_time))
