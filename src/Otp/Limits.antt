-- ===== src/Otp/Limits.antt =====
-- internal/otp/service.go: `enforceRateLimits` and `incrementWindow`. Redis is a parameter, with the
-- documented behaviour of SET NX, INCR and EXPIRE that the limits rely on.
use dating_app_backend.Prelude.{
  ℕ, ◌+◌, ◌≤◌, ◌<◌, ◌≡◌, Bool, true, false, not, ◌&&◌, ◌++◌, Text, codes, text_eq, is_empty,
  if◌then◌else◌, ltb, ◌==◌, Handler, done, failed, pure, throw, require, ◌>>=◌, ◌>>◌,
}
use dating_app_backend.Otp.Model.{OtpError, rate_limited, infrastructure, OtpConfig}

pub record Redis : Type 1 where
  pub State : Type 0
  -- The key is there at this time.
  pub held : State → ℕ → Text → Bool
  -- The value that an increment at this time adds one to.
  pub counter : State → ℕ → Text → ℕ
  pub set_nx : State → ℕ → Text → ℕ → Bool × State
  pub incr : State → ℕ → Text → ℕ × State
  pub expire : State → ℕ → Text → ℕ → State
  -- SET NX succeeds exactly when the key is not there, and then keeps it for its time to live.
  pub set_nx_iff :
      (s : State) (now : ℕ) (k : Text) (ttl : ℕ) → (set_nx s now k ttl).0 ≡ not (held s now k)
  pub set_nx_holds :
      (s : State) (now : ℕ) (k : Text) (ttl t : ℕ)
      → (set_nx s now k ttl).0 ≡ true
      → now ≤ t
      → t < now + ttl
      → held (set_nx s now k ttl).1 t k ≡ true
  -- No command drops a key that is there, but EXPIRE its own.
  pub set_nx_keeps :
      (s : State) (now : ℕ) (k j : Text) (ttl t : ℕ)
      → held s t j ≡ true
      → now ≤ t
      → held (set_nx s now k ttl).1 t j ≡ true
  pub incr_keeps :
      (s : State) (now : ℕ) (k j : Text) (t : ℕ)
      → held s t j ≡ true
      → held (incr s now k).1 t j ≡ true
  pub expire_keeps :
      (s : State) (now : ℕ) (k j : Text) (ttl t : ℕ)
      → text_eq k j ≡ false
      → held s t j ≡ true
      → held (expire s now k ttl) t j ≡ true
  -- INCR returns the value after the increment.
  pub incr_result : (s : State) (now : ℕ) (k : Text) → (incr s now k).0 ≡ counter s now k + 1

-- The commands, by which a fault is named.
pub data Site : Type 0 where
  set_cooldown incr_identifier expire_identifier incr_ip expire_ip : Site

abbrev pub hour : ℕ
hour = 3600

abbrev pub cooldown_key : Text → Text
cooldown_key hash = codes "rl:otp:cooldown:" ++ hash

abbrev pub identifier_hour_key : Text → Text
identifier_hour_key hash = codes "rl:otp:identifier:hour:" ++ hash

abbrev pub ip_hour_key : Text → Text
ip_hour_key ip = codes "rl:otp:ip:hour:" ++ ip

module _ (redis : Redis) where
  -- A command that Redis fails with an error.
  abbrev pub command {ℓ} :
      {A : Type ℓ} → Bool → (redis.State → A × redis.State) → Handler OtpError redis.State A
  command true f s = failed infrastructure s
  command false f s = done (f s).0 (f s).1

  -- `incrementWindow`; an error of EXPIRE is dropped.
  unfoldable pub increment_window : Bool → Bool → ℕ → Text → ℕ → ℕ → Handler OtpError redis.State ℕ
  increment_window incr_fails expire_fails now key ttl limit = do
    count ← command incr_fails (λ s. redis.incr s now key)
    command false
        (λ s. (tt {0}, if count == 1 && not expire_fails then redis.expire s now key ttl else s))
    if ltb 0 limit && ltb limit count then throw rate_limited else pure count

  -- The two hourly counters.
  unfoldable pub increments :
      (Site → Bool) → OtpConfig → ℕ → Text → Text → Handler OtpError redis.State (Unit {0})
  increments faults cfg now identifier_hash ip = do
    _ ←
        increment_window (faults incr_identifier) (faults expire_identifier) now
          (identifier_hour_key identifier_hash) hour cfg.max_per_identifier_hour
    if is_empty ip then pure tt else (do
      _ ←
          increment_window (faults incr_ip) (faults expire_ip) now (ip_hour_key ip) hour
            cfg.max_per_ip_hour
      pure tt)

  unfoldable pub enforce_rate_limits :
      (Site → Bool) → Bool → OtpConfig → ℕ → Text → Text → Handler OtpError redis.State (Unit {0})
  enforce_rate_limits faults has_redis cfg now identifier_hash ip =
      if not has_redis then pure tt else (do
        fresh ←
            command (faults set_cooldown)
              (λ s. redis.set_nx s now (cooldown_key identifier_hash) cfg.resend_cooldown_ttl)
        require fresh rate_limited
        increments faults cfg now identifier_hash ip)
