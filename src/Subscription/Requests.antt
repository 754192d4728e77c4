-- ===== src/Subscription/Requests.antt =====
-- internal/subscription/service.go: `CreateManualPaymentRequest`.
use dating_app_backend.Prelude.{
  ℕ, ◌+◌, Bool, true, false, not, ◌&&◌, ◌||◌, Option, none, some, ◌∷◌, Text, text_eq, is_empty,
  trim_space, to_upper, byte_len, if◌then◌else◌, ltb, ◌==◌, exists, find_first, Handler, Result, ok,
  err, lift, query, exec, require, or_throw, ◌>>=◌, ◌>>◌,
}
use dating_app_backend.Subscription.Model.{
  SubscriptionError, validation, not_found, conflict, database, PaymentStatus, pending,
  under_review, SubscriptionPlan, ManualPaymentRequest, SubDb,
}
use dating_app_backend.Subscription.Entitlements.{decode_entitlements, EntitlementFault}

pub data RequestSite : Type 0 where
  find_plan insert_request reload_request : RequestSite

pub record CreateManualPaymentRequest : Type 0 where
  pub plan_code : Text
  pub payment_provider : Text
  pub payment_reference : Text
  pub payer_phone : Option Text
  pub note : Option Text

pub record NormalizedPaymentRequest : Type 0 where
  pub plan_code : Text
  pub payment_provider : Text
  pub payment_reference : Text
  pub payer_phone : Option Text
  pub note : Option Text

-- `trimOptional`. Its cut at the limit is left out: the callers refuse what is longer.
abbrev pub trim_optional : Text → Option Text
trim_optional value =
    let trimmed = trim_space value in if is_empty trimmed then none else some trimmed

abbrev pub trim_optional_ptr : Option Text → Option Text
trim_optional_ptr none = none
trim_optional_ptr (some value) = trim_optional value

-- `o != nil && len(strings.TrimSpace(*o)) > max`
abbrev pub is_too_long : ℕ → Option Text → Bool
is_too_long max none = false
is_too_long max (some value) = ltb max (byte_len (trim_space value))

unfoldable pub normalize_create_payment_request :
    CreateManualPaymentRequest → Result SubscriptionError NormalizedPaymentRequest
normalize_create_payment_request req =
    let plan_code = to_upper (trim_space req.plan_code) in
    let provider = to_upper (trim_space req.payment_provider) in
    let reference = trim_space req.payment_reference in
    if is_empty plan_code
    then err validation
    else if is_empty provider || ltb 50 (byte_len provider)
    then err validation
    else if is_empty reference || ltb 120 (byte_len reference)
    then err validation
    else if is_too_long 30 req.payer_phone
    then err validation
    else if is_too_long 500 req.note
    then err validation
    else ok (record {
      plan_code = plan_code;
      payment_provider = provider;
      payment_reference = reference;
      payer_phone = trim_optional_ptr req.payer_phone;
      note = trim_optional_ptr req.note;
    })

abbrev pub is_open : PaymentStatus → Bool
is_open pending = true
is_open under_review = true
is_open _ = false

-- The index `manual_payment_requests_one_open_per_user`.
abbrev pub is_open_of : ℕ → ManualPaymentRequest → Bool
is_open_of user r = r.user_id == user && is_open r.status

abbrev pub has_text : Option Text → Text → Bool
has_text none t = false
has_text (some s) t = text_eq s t

-- The index `manual_payment_requests_reference_unique`.
abbrev pub has_reference : Text → Text → ManualPaymentRequest → Bool
has_reference provider reference r =
    text_eq r.payment_provider provider && has_text r.payment_reference reference

abbrev pub new_request :
    ℕ → ℕ → ℕ → ℕ → SubscriptionPlan → NormalizedPaymentRequest → ManualPaymentRequest
new_request id uuid user now plan req = record {
  id = id;
  uuid = uuid;
  user_id = user;
  plan_id = some plan.id;
  plan_code = plan.plan_code;
  plan_name = plan.name;
  price_amount = plan.price_amount;
  currency = plan.currency;
  duration_days = plan.duration_days;
  entitlements = plan.entitlements;
  payment_provider = req.payment_provider;
  payment_reference = some req.payment_reference;
  payer_phone = req.payer_phone;
  note = req.note;
  status = pending;
  submitted_at = now;
  reviewed_at = none;
  reviewed_by_admin_id = none;
  rejection_reason = none;
  subscription_id = none;
  updated_at = now;
}

abbrev pub add_request : ℕ → ℕ → ℕ → SubscriptionPlan → NormalizedPaymentRequest → SubDb → SubDb
add_request uuid user now plan req db = record db {
  requests = new_request db.next_request uuid user now plan req ∷ db.requests;
  next_request = db.next_request + 1;
}

abbrev pub decoded {ℓ} : {A : Type ℓ} → Result EntitlementFault A → Result SubscriptionError A
decoded (ok a) = ok a
decoded (err e) = err validation

-- The answer is the row that was stored.
unfoldable pub create_manual_payment_request :
    (RequestSite → Bool)
    → ℕ
    → ℕ
    → ℕ
    → CreateManualPaymentRequest
    → Handler SubscriptionError SubDb ManualPaymentRequest
create_manual_payment_request faults uuid now user raw = do
  req ← lift (normalize_create_payment_request raw)
  found ← query (faults find_plan) database (λ (db : SubDb).
      find_first (λ (p : SubscriptionPlan). text_eq p.plan_code req.plan_code && p.is_active)
        db.plans)
  plan ← or_throw found not_found
  lift (decoded (decode_entitlements plan.entitlements)) >>= λ _. (do
    used ← query false database (λ (db : SubDb).
        exists (has_reference req.payment_provider req.payment_reference) db.requests
        || exists (is_open_of user) db.requests)
    require (not used) conflict
    id ← query false database (λ (db : SubDb). db.next_request)
    exec (faults insert_request) database (add_request uuid user now plan req)
    again ← query (faults reload_request) database (λ (db : SubDb).
        find_first (λ (r : ManualPaymentRequest). r.user_id == user && r.id == id) db.requests)
    or_throw again not_found)
