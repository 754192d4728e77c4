-- ===== src/Otp/Scenarios.antt =====
-- internal/otp: requests, limits and deliveries at concrete inputs, over a Redis in memory.
use dating_app_backend.Prelude.{
  ℕ, ◌+◌, ◌≤◌, ◌<◌, ◌≡◌, refl, ◌⊎◌, Bool, true, false, not, Option, none, some, [], ◌∷◌, arith,
  Text, codes, text_eq, text_eq_iff, text_eq_refl, Outcome, store_of, done, failed, err, ltb,
  if◌then◌else◌, update_where, is_none, find_first, ◌==◌, ◌&&◌,
}
use dating_app_backend.Otp.Model.{
  OtpError, rate_limited, OtpCode, RequestInput, whatsapp, login, queued,
}
use dating_app_backend.Otp.Normalize.{
  normalize_target, normalize_channel, normalize_purpose, normalize_identifier,
  generate_numeric_code, hash_identifier, hash_code,
}
use dating_app_backend.Otp.Verify.{has_id, as_consumed}
use dating_app_backend.Otp.Limits.{
  Redis, Site, cooldown_key, increment_window, increments, enforce_rate_limits,
}
use dating_app_backend.Otp.Cooldown.{Attempt, enforce, enforce_all, cooldown_refuses}
use dating_app_backend.Otp.Request
use dating_app_backend.Otp.Delivery
use dating_app_backend.Otp.Request.{
  RequestStore, RequestEnv, DeliveryPayload, new_code, deliver_new, issue, request,
}
use dating_app_backend.Otp.RoundTrip.{request_verify}
use dating_app_backend.Otp.Lockout.{verify_ok}
use dating_app_backend.Otp.Delivery.{DeliveryStore, Sender, process_deliver_otp, deliver_guarded}
use dating_app_backend.Otp.Tests.{
  plain_hmac, any_address, test_config, phone_target, guess_at, issued,
}

-- When each key set by SET NX runs out, and the counters, which do not.
record Memory : Type 0 where
  ends : Text → ℕ
  counts : Text → ℕ

abbrev put : Text → ℕ → (Text → ℕ) → Text → ℕ
put k n f j = if text_eq j k then n else f j

abbrev memory_held : Memory → ℕ → Text → Bool
memory_held s now k = ltb now (s.ends k)

abbrev memory_set_nx : Memory → ℕ → Text → ℕ → Bool × Memory
memory_set_nx s now k ttl =
    if memory_held s now k then (false, s) else (true, record s { ends = put k (now + ttl) s.ends })

abbrev memory_incr : Memory → ℕ → Text → ℕ × Memory
memory_incr s now k = (s.counts k + 1, record s { counts = put k (s.counts k + 1) s.counts })

set_nx_result :
    (s : Memory) (now : ℕ) (k : Text) (ttl : ℕ)
    → (memory_set_nx s now k ttl).0 ≡ not (memory_held s now k)
set_nx_result s now k ttl = ground arith

set_nx_stays :
    (s : Memory) (now : ℕ) (k : Text) (ttl t : ℕ)
    → (memory_set_nx s now k ttl).0 ≡ true
    → now ≤ t
    → t < now + ttl
    → memory_held (memory_set_nx s now k ttl).1 t k ≡ true
set_nx_stays s now k ttl t e le lt = ground (arith, text_eq_refl k)

set_nx_frame :
    (s : Memory) (now : ℕ) (k j : Text) (ttl t : ℕ)
    → memory_held s t j ≡ true
    → now ≤ t
    → memory_held (memory_set_nx s now k ttl).1 t j ≡ true
set_nx_frame s now k j ttl t e le = ground (arith, text_eq_iff j k)

abbrev memory_redis : Redis
memory_redis = record {
  State = Memory;
  held = memory_held;
  counter = λ s now k. s.counts k;
  set_nx = memory_set_nx;
  incr = memory_incr;
  expire = λ s now k ttl. s;
  set_nx_iff = set_nx_result;
  set_nx_holds = set_nx_stays;
  set_nx_keeps = set_nx_frame;
  incr_keeps = λ s now k j t h. h;
  expire_keeps = λ s now k j ttl t ne h. h;
  incr_result = λ s now k. refl;
}

abbrev empty_memory : Memory
empty_memory = record { ends = λ _. 0; counts = λ _. 0 }

abbrev no_limit_faults : Site → Bool
no_limit_faults _ = false

abbrev attempt_at : ℕ → Attempt
attempt_at now = record {
  faults = no_limit_faults;
  now = now;
  hash = codes "h";
  ip = codes "1.2.3.4";
}

abbrev after_first : Memory
after_first = store_of (enforce memory_redis test_config (attempt_at 100) empty_memory)

first_passes : enforce memory_redis test_config (attempt_at 100) empty_memory ≡ done tt after_first
unfolding enforce_rate_limits increments increment_window
first_passes = refl

cooldown_refuses_example :
    let r = enforce_all memory_redis test_config (attempt_at 110 ∷ []) after_first in
    enforce memory_redis test_config (attempt_at 130) r
    ≡ failed rate_limited (memory_set_nx r 130 (cooldown_key (codes "h")) 60).1
cooldown_refuses_example =
    cooldown_refuses memory_redis test_config (attempt_at 100) (attempt_at 110 ∷ [])
      (attempt_at 130) empty_memory after_first first_passes (omega arith) refl (omega arith)
      (omega arith) refl

abbrev no_request_faults : Request.Site → Bool
no_request_faults _ = false

-- Digits 1, 2, 3, 4.
abbrev test_env : RequestEnv
test_env = record {
  now = 100;
  uuid = 70;
  draw = λ i. some (i + 1);
  has_redis = true;
  has_queue = true;
  message = [];
}

abbrev test_input : RequestInput
test_input = record {
  channel = codes "whatsapp";
  phone = codes "+88";
  email = [];
  purpose = codes "login";
  ip_address = codes "1.2.3.4";
  user_agent = [];
  device_id = [];
}

abbrev empty_store : RequestStore Memory
empty_store = record { codes = []; next_id = 7; redis = empty_memory; queue = [] }

abbrev requested : Outcome OtpError (RequestStore Memory) OtpCode
requested =
    request memory_redis plain_hmac any_address no_request_faults test_config test_env test_input
      empty_store

abbrev issued_row : OtpCode
unfolding new_code
issued_row =
    record (new_code plain_hmac test_config test_env test_input phone_target (codes "1234") 7) {
      delivery_status = queued;
    }

request_verify_example :
    verify_ok plain_hmac any_address test_config
      (guess_at 130 (codes "1234"))
      (store_of requested).codes
    ≡ done
        (record issued_row { consumed_at = some 130 })
        (update_where
          (λ r. has_id 7 r && is_none r.consumed_at)
          (as_consumed 130)
          (store_of requested).codes)
unfolding request issue deliver_new new_code enforce_rate_limits increments increment_window
    normalize_target normalize_channel normalize_purpose normalize_identifier generate_numeric_code
    hash_identifier hash_code
request_verify_example =
    request_verify memory_redis plain_hmac any_address no_request_faults test_config test_env
      test_input empty_store issued_row (store_of requested) phone_target
      (guess_at 130 (codes "1234")) refl tt refl refl (omega arith)
      (record { about = refl; nonempty = refl; no_bypass = refl; in_time = omega arith })

abbrev no_delivery_faults : Delivery.Site → Bool
no_delivery_faults _ = false

abbrev test_payload : DeliveryPayload
test_payload = record {
  otp_id = 70;
  channel = whatsapp;
  identifier = codes "+88";
  code = codes "1234";
  purpose = login;
}

abbrev failing_provider : Option Sender
failing_provider = some (λ identifier code purpose. err (codes "timeout"))

deliver_guarded_example :
    let s : DeliveryStore = record { rows = issued ∷ []; logs = []; outbox = [] } in
    let out =
      (store_of (
        process_deliver_otp no_delivery_faults
          (λ _. failing_provider)
          120
          (some test_payload)
          s)).outbox in
    (out ≡ [])
    ⊎ ((out ≡ test_payload ∷ [])
        × ((c : OtpCode) × (find_first (λ c. c.uuid == 70) (issued ∷ []) ≡ some c)
            × (120 ≤ c.expires_at)
            × (c.consumed_at ≡ none)))
deliver_guarded_example =
    deliver_guarded no_delivery_faults (λ _. failing_provider) 120 test_payload
      (record { rows = issued ∷ []; logs = []; outbox = [] })
