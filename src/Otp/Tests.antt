-- ===== src/Otp/Tests.antt =====
-- internal/otp: concrete runs, and the theorems at concrete inputs.
use dating_app_backend.Prelude.{
  ℕ, ◌≡◌, ◌≢◌, refl, Bool, true, false, none, some, [], ◌∷◌, ◌++◌, arith, Text, codes, store_of,
  done, failed, ok,
}
use dating_app_backend.Otp.Model.{
  whatsapp, login, otp_max_attempts, sent, OtpCode, OtpConfig, VerifyInput,
}
use dating_app_backend.Otp.Normalize.{
  Target, normalize_target, normalize_channel, normalize_purpose, normalize_identifier,
  hash_identifier, compare_code_hash, code_payload,
}
use dating_app_backend.Otp.Verify.{latest_open, verify, verify_stored, check_code}
use dating_app_backend.Otp.Attempts.{AttemptsBounded, verify-AttemptsBounded}
use dating_app_backend.Otp.Lockout.{Guess, no_faults, verify_all, verify_ok, wrong_guesses_lock}
use dating_app_backend.Otp.SingleUse.{Call, verify_calls, Accepted, verify_accepts, single_use}
use dating_app_backend.Otp.Races.{late_check, double_acceptance, lost_counts, CountIs, late_checks}

-- A keyed hash that shows what it signs.
abbrev pub plain_hmac : Text → Text → Text
plain_hmac secret value = secret ++ value

abbrev pub any_address : Text → Bool
any_address _ = true

abbrev pub test_config : OtpConfig
test_config = record {
  secret = codes "k";
  length = 4;
  expiry_ttl = 300;
  resend_cooldown_ttl = 60;
  max_attempts = 2;
  max_per_identifier_hour = 5;
  max_per_ip_hour = 20;
  dev_bypass_enabled = false;
  dev_bypass_code = codes "123456";
}

abbrev pub phone_target : Target
phone_target = record { channel = whatsapp; purpose = login; identifier = codes "+88" }

-- Code 1234, sent at time 100.
abbrev pub issued : OtpCode
issued = record {
  id = 7;
  uuid = 70;
  user_id = none;
  channel = whatsapp;
  purpose = login;
  identifier_hash = plain_hmac (codes "k") (codes "+88");
  phone = some (codes "+88");
  email = none;
  otp_hash = plain_hmac (codes "k") (code_payload (codes "1234") (codes "+88") login);
  expires_at = 400;
  consumed_at = none;
  attempt_count = 0;
  max_attempts = 2;
  resend_count = 0;
  ip_address = [];
  user_agent = [];
  device_id = none;
  delivery_status = sent;
  delivery_provider = none;
  provider_message_id = none;
  delivery_attempts = 1;
  last_delivery_attempt_at = some 101;
  sent_at = some 102;
  failed_at = none;
  delivery_error = none;
  created_at = 100;
  updated_at = 102;
}

abbrev pub guess_input : Text → VerifyInput
guess_input code = record {
  channel = codes " WhatsApp ";
  phone = codes " +88";
  email = [];
  purpose = [];
  code = code;
}

abbrev pub guess_at : ℕ → Text → Guess
guess_at now code = record { now = now; uuid = 1; input = guess_input code }

abbrev call_at : ℕ → Text → Call
call_at now code = record {
  faults = no_faults;
  has_db = true;
  now = now;
  uuid = 1;
  input = guess_input code;
}

pub normalized :
    normalize_target any_address (codes " WhatsApp ") [] (codes " +88") [] ≡ ok phone_target
unfolding normalize_target normalize_channel normalize_purpose normalize_identifier
normalized = refl

verify-AttemptsBounded_example : AttemptsBounded (
    store_of (
      verify plain_hmac any_address no_faults true test_config 110 1
        (guess_input (codes "9"))
        (issued ∷ [])))
verify-AttemptsBounded_example =
    verify-AttemptsBounded plain_hmac any_address no_faults true test_config 110 1
      (guess_input (codes "9")) (issued ∷ []) (tt, tt) (omega arith)

wrong_guesses_lock_example :
    verify_ok plain_hmac any_address test_config (guess_at 112 (codes "1234")) (
      verify_all plain_hmac any_address test_config
        (guess_at 110 (codes "9") ∷ guess_at 111 (codes "8") ∷ [])
        (issued ∷ []))
    ≡ failed otp_max_attempts (
        verify_all plain_hmac any_address test_config
          (guess_at 110 (codes "9") ∷ guess_at 111 (codes "8") ∷ [])
          (issued ∷ []))
unfolding latest_open hash_identifier compare_code_hash
wrong_guesses_lock_example =
    wrong_guesses_lock plain_hmac any_address test_config phone_target issued
      (guess_at 110 (codes "9") ∷ guess_at 111 (codes "8") ∷ []) (guess_at 112 (codes "1234"))
      (issued ∷ []) refl
      (
        record {
          guess = record {
            about = normalized;
            nonempty = refl;
            no_bypass = refl;
            in_time = omega arith;
          };
          mismatch = refl;
        },
        (
          record {
            guess = record {
              about = normalized;
              nonempty = refl;
              no_bypass = refl;
              in_time = omega arith;
            };
            mismatch = refl;
          },
          tt,
        ),
      )
      (omega arith)
      (record { about = normalized; nonempty = refl; no_bypass = refl; in_time = omega arith })

abbrev accepted_at : ℕ → OtpCode
accepted_at now = record issued { consumed_at = some now }

abbrev spent_at : ℕ → OtpCode
spent_at now = record issued { consumed_at = some now; updated_at = now }

-- Code 5678 of the same number, sent before.
abbrev older : OtpCode
older = record issued {
  id = 8;
  otp_hash = plain_hmac (codes "k") (code_payload (codes "5678") (codes "+88") login);
  created_at = 90;
  expires_at = 390;
}

accepted_run :
    verify plain_hmac any_address no_faults true test_config 110 1
      (guess_input (codes "1234"))
      (issued ∷ older ∷ [])
    ≡ done (accepted_at 110) (spent_at 110 ∷ older ∷ [])
unfolding verify verify_stored check_code normalize_target normalize_channel normalize_purpose
    normalize_identifier latest_open hash_identifier compare_code_hash
accepted_run = refl

accepted_again :
    verify plain_hmac any_address no_faults true test_config 120 1 (guess_input (codes "5678")) (
      verify_calls plain_hmac any_address test_config
        (call_at 115 (codes "1234") ∷ [])
        (spent_at 110 ∷ older ∷ []))
    ≡ done
        (record older { attempt_count = 1; updated_at = 115; consumed_at = some 120 })
        (spent_at 110
          ∷ record older { attempt_count = 1; updated_at = 120; consumed_at = some 120 }
          ∷ [])
unfolding verify verify_calls verify_stored check_code normalize_target normalize_channel
    normalize_purpose normalize_identifier latest_open hash_identifier compare_code_hash
accepted_again = refl

verify_accepts_example :
    Accepted plain_hmac any_address test_config
      (call_at 110 (codes "1234"))
      (issued ∷ older ∷ [])
      (accepted_at 110)
      (spent_at 110 ∷ older ∷ [])
verify_accepts_example =
    verify_accepts plain_hmac any_address test_config (call_at 110 (codes "1234"))
      (issued ∷ older ∷ []) (accepted_at 110) (spent_at 110 ∷ older ∷ []) refl accepted_run

single_use_example : ◌≢◌ {A = ℕ} 8 7
single_use_example =
    single_use plain_hmac any_address test_config (call_at 110 (codes "1234"))
      (call_at 115 (codes "1234") ∷ []) (call_at 120 (codes "5678")) (issued ∷ older ∷ [])
      (accepted_at 110)
      (record older { attempt_count = 1; updated_at = 115; consumed_at = some 120 })
      (spent_at 110 ∷ older ∷ [])
      (spent_at 110
        ∷ record older { attempt_count = 1; updated_at = 120; consumed_at = some 120 }
        ∷ [])
      refl accepted_run accepted_again

-- The second call has read the row at first, and goes on at 111.
double_acceptance_example :
    (late_check plain_hmac test_config
        (codes "+88")
        login
        issued
        (111, codes "1234")
        (spent_at 110 ∷ older ∷ [])
      ≡ done (accepted_at 111) (spent_at 110 ∷ older ∷ []))
    × (latest_open
          (hash_identifier plain_hmac test_config.secret (codes "+88"))
          whatsapp
          login
          (spent_at 110 ∷ older ∷ [])
        ≢ some issued)
unfolding latest_open hash_identifier
double_acceptance_example =
    double_acceptance plain_hmac any_address test_config (call_at 110 (codes "1234")) phone_target
      issued (accepted_at 110) 111 (issued ∷ older ∷ []) (spent_at 110 ∷ older ∷ []) refl normalized
      refl (omega arith) accepted_run

lost_counts_example : CountIs plain_hmac test_config (codes "+88") login issued 1 (
    late_checks plain_hmac test_config
      (codes "+88")
      login
      issued
      ((110, codes "1") ∷ (111, codes "2") ∷ (112, codes "3") ∷ [])
      (issued ∷ []))
unfolding compare_code_hash
lost_counts_example =
    lost_counts plain_hmac test_config (codes "+88") login issued (110, codes "1")
      ((111, codes "2") ∷ (112, codes "3") ∷ []) (issued ∷ [])
      (refl, omega arith, (refl, omega arith, (refl, omega arith, tt))) (omega arith)
