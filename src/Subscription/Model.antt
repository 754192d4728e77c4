-- ===== src/Subscription/Model.antt =====
-- internal/subscription/model.go and the errors of errors.go. Times are seconds.
use dating_app_backend.Prelude.{ℕ, Bool, true, false, Option, List, Text}
use dating_app_backend.Store.{FeatureUsage}

pub data SubscriptionError : Type 0 where
  validation not_found conflict : SubscriptionError
  already_rejected already_approved : SubscriptionError
  like_limit_reached super_like_limit_reached : SubscriptionError
  -- An error of the database.
  database : SubscriptionError

pub data PaymentStatus : Type 0 where
  pending under_review approved rejected canceled : PaymentStatus

pub data SubscriptionStatus : Type 0 where
  active expired subscription_canceled : SubscriptionStatus

-- A value of a JSON object, as far as the decoder tells them apart; negative numbers by their size.
pub data JsonValue : Type 0 where
  json_int json_negative : ℕ → JsonValue
  json_bool : Bool → JsonValue
  json_null json_other : JsonValue

-- A JSON column that holds entitlements: no object at all, or its fields.
abbrev pub Fields : Type 0
Fields = Option (List (Text × JsonValue))

pub record Entitlements : Type 0 where
  pub daily_like_limit : ℕ
  pub daily_super_like_limit : ℕ
  pub can_use_audio_call : Bool
  pub can_use_video_call : Bool
  pub max_call_duration_seconds : ℕ
  pub daily_call_limit_seconds : ℕ
  pub can_see_who_liked_me : Bool
  pub can_use_advanced_filters : Bool

pub record SubscriptionPlan : Type 0 where
  pub id : ℕ
  pub plan_code : Text
  pub name : Text
  pub price_amount : ℕ
  pub currency : Text
  pub duration_days : ℕ
  pub entitlements : Fields
  pub is_active : Bool

pub record ManualPaymentRequest : Type 0 where
  pub id : ℕ
  pub uuid : ℕ
  pub user_id : ℕ
  pub plan_id : Option ℕ
  pub plan_code : Text
  pub plan_name : Text
  pub price_amount : ℕ
  pub currency : Text
  pub duration_days : ℕ
  pub entitlements : Fields
  pub payment_provider : Text
  pub payment_reference : Option Text
  pub payer_phone : Option Text
  pub note : Option Text
  pub status : PaymentStatus
  pub submitted_at : ℕ
  pub reviewed_at : Option ℕ
  pub reviewed_by_admin_id : Option ℕ
  pub rejection_reason : Option Text
  pub subscription_id : Option ℕ
  pub updated_at : ℕ

pub record UserSubscription : Type 0 where
  pub id : ℕ
  pub uuid : ℕ
  pub user_id : ℕ
  pub plan_id : Option ℕ
  pub payment_request_id : Option ℕ
  pub plan_code : Text
  pub plan_name : Text
  pub status : SubscriptionStatus
  pub starts_at : ℕ
  pub expires_at : ℕ
  pub entitlements : Fields
  pub created_at : ℕ

-- A row of `payment_review_actions`, and the one of `admin_audit_logs` that goes with it.
pub record ReviewAction : Type 0 where
  pub payment_request_id : ℕ
  pub admin_user_id : ℕ
  pub action : PaymentStatus
  pub note : Option Text
  pub before : PaymentStatus
  pub after : PaymentStatus

-- The `next_` fields are the sequences behind the primary keys.
pub record SubDb : Type 0 where
  pub plans : List SubscriptionPlan
  pub requests : List ManualPaymentRequest
  pub next_request : ℕ
  pub subscriptions : List UserSubscription
  pub next_subscription : ℕ
  pub review_actions : List ReviewAction
  pub audit_logs : List ReviewAction
  pub usage : List FeatureUsage

abbrev pub is_active_subscription : SubscriptionStatus → Bool
is_active_subscription active = true
is_active_subscription _ = false
