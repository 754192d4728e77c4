-- ===== src/Subscription/Tests.antt =====
-- internal/subscription/service.go: one payment and one day of likes.
use dating_app_backend.Prelude.{
  ℕ, ◌+◌, ◌≤◌, ◌≡◌, refl, Bool, true, false, Option, none, some, List, [], ◌∷◌, Text, codes, arith,
  done, store_of, trim_space,
}
use dating_app_backend.Store.{like_daily}
use dating_app_backend.Subscription.Model.{
  JsonValue, json_int, json_bool, Entitlements, like_limit_reached, ManualPaymentRequest, pending,
  approved, UserSubscription, active, SubDb,
}
use dating_app_backend.Subscription.Entitlements.{
  decode_entitlements, decode_required_int, decode_required_bool,
}
use dating_app_backend.Subscription.Usage.{UsageSite, consume_feature}
use dating_app_backend.Subscription.Daily.{consume_all, used, daily_limit}
use dating_app_backend.Subscription.Review.{
  ReviewSite, next_subscription_start, approve_open, approve_tx, payment_request_detail,
  approve_payment_request, reject_payment_request, as_approved,
}
use dating_app_backend.Subscription.Periods.{NoOverlap, approve_payment_request-NoOverlap}
use dating_app_backend.Subscription.Decisions.{approved_is_final}

abbrev plan_fields : List (Text × JsonValue)
plan_fields =
    (codes "dailyLikeLimit", json_int 2)
    ∷ (codes "dailySuperLikeLimit", json_int 5)
    ∷ (codes "canUseAudioCall", json_bool true)
    ∷ (codes "canUseVideoCall", json_bool false)
    ∷ (codes "maxCallDurationSeconds", json_int 600)
    ∷ (codes "dailyCallLimitSeconds", json_int 1200)
    ∷ (codes "canSeeWhoLikedMe", json_bool true)
    ∷ (codes "canUseAdvancedFilters", json_bool false)
    ∷ []

abbrev open_request : ManualPaymentRequest
open_request = record {
  id = 4;
  uuid = 104;
  user_id = 1;
  plan_id = some 2;
  plan_code = codes "GOLD";
  plan_name = codes "Gold";
  price_amount = 900;
  currency = codes "BDT";
  duration_days = 30;
  entitlements = some plan_fields;
  payment_provider = codes "BKASH";
  payment_reference = some (codes "R1");
  payer_phone = none;
  note = none;
  status = pending;
  submitted_at = 50;
  reviewed_at = none;
  reviewed_by_admin_id = none;
  rejection_reason = none;
  subscription_id = none;
  updated_at = 50;
}

-- A subscription that still runs.
abbrev running : UserSubscription
running = record {
  id = 1;
  uuid = 61;
  user_id = 1;
  plan_id = some 2;
  payment_request_id = some 3;
  plan_code = codes "GOLD";
  plan_name = codes "Gold";
  status = active;
  starts_at = 10;
  expires_at = 500;
  entitlements = some plan_fields;
  created_at = 10;
}

abbrev before : SubDb
before = record {
  plans = [];
  requests = open_request ∷ [];
  next_request = 5;
  subscriptions = running ∷ [];
  next_subscription = 2;
  review_actions = [];
  audit_logs = [];
  usage = [];
}

abbrev letter_uuid : Text → Option ℕ
letter_uuid [] = none
letter_uuid (c ∷ []) = some c
letter_uuid (c ∷ d ∷ s) = none

abbrev no_faults : ReviewSite → Bool
no_faults _ = false

abbrev plan_entitlements : Entitlements
plan_entitlements = record {
  daily_like_limit = 2;
  daily_super_like_limit = 5;
  can_use_audio_call = true;
  can_use_video_call = false;
  max_call_duration_seconds = 600;
  daily_call_limit_seconds = 1200;
  can_see_who_liked_me = true;
  can_use_advanced_filters = false;
}

approved_run :
    approve_payment_request no_faults letter_uuid 77 100 9 (104 ∷ []) [] before
    ≡ done
        (as_approved 9 100 2 open_request, plan_entitlements)
        (store_of (approve_payment_request no_faults letter_uuid 77 100 9 (104 ∷ []) [] before))
unfolding approve_payment_request approve_tx approve_open payment_request_detail decode_entitlements
    decode_required_int decode_required_bool next_subscription_start trim_space
approved_run = refl

approved_is_final_example :
    (approved ≡ approved)
    × ((faults : ReviewSite → Bool) (su now admin : ℕ) (remark : Text)
        → store_of (
            approve_payment_request faults letter_uuid su now admin (104 ∷ []) remark (
              store_of
                (approve_payment_request no_faults letter_uuid 77 100 9 (104 ∷ []) [] before)))
          ≡ store_of (approve_payment_request no_faults letter_uuid 77 100 9 (104 ∷ []) [] before))
    × ((faults : ReviewSite → Bool) (now admin : ℕ) (reason : Text)
        → store_of (
            reject_payment_request faults letter_uuid now admin (104 ∷ []) reason (
              store_of
                (approve_payment_request no_faults letter_uuid 77 100 9 (104 ∷ []) [] before)))
          ≡ store_of (approve_payment_request no_faults letter_uuid 77 100 9 (104 ∷ []) [] before))
unfolding trim_space
approved_is_final_example =
    approved_is_final letter_uuid (104 ∷ []) 104 refl no_faults 77 100 9 [] before
      (store_of (approve_payment_request no_faults letter_uuid 77 100 9 (104 ∷ []) [] before))
      (as_approved 9 100 2 open_request, plan_entitlements) approved_run

approve_payment_request-NoOverlap_example :
    NoOverlap
      (store_of
        (approve_payment_request no_faults letter_uuid 77 100 9 (104 ∷ []) [] before)).subscriptions
approve_payment_request-NoOverlap_example =
    approve_payment_request-NoOverlap no_faults letter_uuid 77 100 9 (104 ∷ []) [] before (tt, tt)

abbrev three_calls : List ((UsageSite → Bool) × ℕ)
three_calls = (λ _. false, 10) ∷ (λ _. false, 11) ∷ (λ _. false, 12) ∷ []

third_refused : (consume_all 1 like_daily 3 2 like_limit_reached three_calls []).0 ≡ 2
unfolding consume_all consume_feature
third_refused = refl

daily_limit_example :
    (used 1 like_daily 3 (consume_all 1 like_daily 3 2 like_limit_reached three_calls []).1
      ≡ used 1 like_daily 3 [] + (consume_all 1 like_daily 3 2 like_limit_reached three_calls []).0)
    × (used 1 like_daily 3 [] + (consume_all 1 like_daily 3 2 like_limit_reached three_calls []).0
        ≤ 2)
daily_limit_example = daily_limit 1 like_daily 3 2 like_limit_reached three_calls [] (omega arith)
