-- ===== src/Otp/Cooldown.antt =====
-- internal/otp/service.go: requests one after the other under `enforceRateLimits`.
use dating_app_backend.Prelude.{
  ℕ, ◌+◌, ◌≤◌, ◌<◌, ◌≡◌, refl, inl, inr, Bool, true, false, List, [], ◌∷◌, arith, Text, text_eq,
  Outcome, done, failed, store_of, Bool-cases, Leaves, Leaves-bind,
}
use dating_app_backend.Otp.Model.{OtpError, rate_limited, OtpConfig}
use dating_app_backend.Otp.Limits.{
  Redis, Site, set_cooldown, incr_identifier, expire_identifier, incr_ip, expire_ip, hour,
  cooldown_key, identifier_hour_key, ip_hour_key, increment_window, increments, enforce_rate_limits,
}

-- A call of `enforceRateLimits`.
pub record Attempt : Type 0 where
  pub faults : Site → Bool
  pub now : ℕ
  pub hash : Text
  pub ip : Text

-- No call of the sequence comes after time `t`.
abbrev pub AllBy : ℕ → List Attempt → Type 0
AllBy t [] = Unit {0}
AllBy t (a ∷ as') = (a.now ≤ t) × AllBy t as'

module _ (redis : Redis) where
  increment_window-keeps :
      (t : ℕ) (j : Text) (incr_fails expire_fails : Bool) (now : ℕ) (key : Text) (ttl limit : ℕ)
      (s : redis.State)
      → text_eq key j ≡ false
      → redis.held s t j ≡ true
      → Leaves
          (λ r. redis.held r t j ≡ true)
          (increment_window redis incr_fails expire_fails now key ttl limit s)
  unfolding increment_window
  increment_window-keeps t j true expire_fails now key ttl limit s ne h = h
  increment_window-keeps t j false expire_fails now key ttl limit s ne h =
      let r = (redis.incr s now key).1 in
      ground (
        arith,
        redis.incr_keeps s now key j t h,
        redis.expire_keeps r now key j ttl t ne (redis.incr_keeps s now key j t h),
      )

  abbrev pub enforce : OtpConfig → Attempt → redis.State → Outcome OtpError redis.State (Unit {0})
  enforce cfg a s = enforce_rate_limits redis a.faults true cfg a.now a.hash a.ip s

  increments-keep :
      (t : ℕ) (hash : Text) (cfg : OtpConfig) (a : Attempt) (s : redis.State)
      → redis.held s t (cooldown_key hash) ≡ true
      → Leaves
          (λ r. redis.held r t (cooldown_key hash) ≡ true)
          (increments redis a.faults cfg a.now a.hash a.ip s)
  unfolding increments
  increments-keep t hash cfg a s h =
      Leaves-bind (λ r. redis.held r t (cooldown_key hash) ≡ true)
        (increment_window redis (a.faults incr_identifier) (a.faults expire_identifier) a.now
          (identifier_hour_key a.hash) hour cfg.max_per_identifier_hour)
        _ s
        (increment_window-keeps t (cooldown_key hash) (a.faults incr_identifier)
          (a.faults expire_identifier) a.now (identifier_hour_key a.hash) hour
          cfg.max_per_identifier_hour s refl h)
        (λ n s' h'. ground (
          arith,
          increment_window-keeps t (cooldown_key hash) (a.faults incr_ip) (a.faults expire_ip) a.now
              (ip_hour_key a.ip) hour cfg.max_per_ip_hour s' refl h',
        ))

  enforce-keeps :
      (t : ℕ) (hash : Text) (cfg : OtpConfig) (a : Attempt) (s : redis.State)
      → a.now ≤ t
      → redis.held s t (cooldown_key hash) ≡ true
      → Leaves (λ r. redis.held r t (cooldown_key hash) ≡ true) (enforce cfg a s)
  unfolding enforce_rate_limits
  enforce-keeps t hash cfg a s le h =
      let kept =
        redis.set_nx_keeps s a.now (cooldown_key a.hash) (cooldown_key hash) cfg.resend_cooldown_ttl
          t h le in
      let p = redis.set_nx s a.now (cooldown_key a.hash) cfg.resend_cooldown_ttl in
      elim (Bool-cases (a.faults set_cooldown)) [
        | inl b ↦ rw (b, enforce_rate_limits) h
        | inr b ↦
            rw (b, enforce_rate_limits)
              (elim (Bool-cases p.0) [
                | inl q ↦ rw (q, enforce_rate_limits) (increments-keep t hash cfg a p.1 kept)
                | inr q ↦ rw (q, enforce_rate_limits) kept
              ])
      ]

  abbrev pub enforce_all : OtpConfig → List Attempt → redis.State → redis.State
  enforce_all cfg [] s = s
  enforce_all cfg (a ∷ rest) s = enforce_all cfg rest (store_of (enforce cfg a s))

  enforce_all-keeps :
      (t : ℕ) (hash : Text) (cfg : OtpConfig) (as' : List Attempt) (s : redis.State)
      → AllBy t as'
      → redis.held s t (cooldown_key hash) ≡ true
      → redis.held (enforce_all cfg as' s) t (cooldown_key hash) ≡ true
  enforce_all-keeps t hash cfg [] s le h = h
  enforce_all-keeps t hash cfg (a ∷ rest) s le h =
      enforce_all-keeps t hash cfg rest (store_of (enforce cfg a s)) le.1
        (enforce-keeps t hash cfg a s le.0 h)

  -- After a request that passed, the key of its identifier is held until the cooldown is over.
  enforce-holds :
      (t : ℕ) (cfg : OtpConfig) (a : Attempt) (s s' : redis.State)
      → enforce cfg a s ≡ done tt s'
      → a.now ≤ t
      → t < a.now + cfg.resend_cooldown_ttl
      → redis.held s' t (cooldown_key a.hash) ≡ true
  unfolding enforce_rate_limits
  enforce-holds t cfg a s s' e le lt =
      let p = redis.set_nx s a.now (cooldown_key a.hash) cfg.resend_cooldown_ttl in
      ground (
        arith,
        redis.set_nx_holds s a.now (cooldown_key a.hash) cfg.resend_cooldown_ttl t,
        increments-keep t a.hash cfg a p.1,
      )

  -- A request that passed the limits bars the next ones for the same identifier until its cooldown is
  -- over: whatever requests come between, a request at a time before its end that reaches Redis is
  -- refused with "rate limited".
  pub cooldown_refuses :
      (cfg : OtpConfig) (a : Attempt) (between : List Attempt) (again : Attempt)
      (s s' : redis.State)
      → enforce cfg a s ≡ done tt s'
      → AllBy again.now between
      → again.hash ≡ a.hash
      → a.now ≤ again.now
      → again.now < a.now + cfg.resend_cooldown_ttl
      → again.faults set_cooldown ≡ false
      → let r = enforce_all cfg between s' in
        enforce cfg again r
        ≡ failed rate_limited
            (redis.set_nx r again.now (cooldown_key a.hash) cfg.resend_cooldown_ttl).1
  unfolding enforce_rate_limits
  cooldown_refuses cfg a between again s s' e le same now lt up =
      let r = enforce_all cfg between s' in
      let held =
        enforce_all-keeps again.now a.hash cfg between s' le
          (enforce-holds again.now cfg a s s' e now lt) in
      rw same (
        ground (
          arith,
          up,
          held,
          redis.set_nx_iff r again.now (cooldown_key a.hash) cfg.resend_cooldown_ttl,
        ))
