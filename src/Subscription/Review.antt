-- ===== src/Subscription/Review.antt =====
-- internal/subscription/service.go: `ApprovePaymentRequest` and `RejectPaymentRequest`.
use dating_app_backend.Prelude.{
  ℕ, ◌+◌, ◌*◌, Bool, false, not, ◌&&◌, Option, some, List, [], ◌∷◌, Text, is_empty, trim_space,
  byte_len, if◌then◌else◌, ltb, max, ◌==◌, find_first, update_where, Handler, lift, query, exec,
  require, or_throw, pure, throw, transaction, ◌>>=◌, ◌>>◌,
}
use dating_app_backend.Subscription.Model.{
  SubscriptionError, validation, not_found, conflict, already_rejected, already_approved, database,
  PaymentStatus, pending, under_review, approved, rejected, canceled, active, Entitlements,
  ManualPaymentRequest, UserSubscription, ReviewAction, SubDb, is_active_subscription,
}
use dating_app_backend.Subscription.Entitlements.{decode_entitlements}
use dating_app_backend.Subscription.Requests.{decoded, trim_optional}

pub data ReviewSite : Type 0 where
  lock_request lock_subscriptions latest_expiry insert_subscription update_request : ReviewSite
  insert_review insert_audit review_commit detail : ReviewSite

abbrev pub request_by_uuid : ℕ → SubDb → Option ManualPaymentRequest
request_by_uuid uuid db = find_first (λ (r : ManualPaymentRequest). r.uuid == uuid) db.requests

abbrev pub has_request_id : ℕ → ManualPaymentRequest → Bool
has_request_id id r = r.id == id

-- `MAX(expires_at)` of the user's active rows that end after `now`, and `now` where there is none.
unfoldable pub next_subscription_start : ℕ → ℕ → List UserSubscription → ℕ
next_subscription_start user now [] = now
next_subscription_start user now (s ∷ rows) =
    let rest = next_subscription_start user now rows in
    if s.user_id == user && (is_active_subscription s.status && ltb now s.expires_at)
    then max s.expires_at rest
    else rest

abbrev pub day_seconds : ℕ
day_seconds = 24 * 3600

abbrev pub new_subscription : ℕ → ℕ → ℕ → ℕ → ManualPaymentRequest → UserSubscription
new_subscription id uuid now starts row = record {
  id = id;
  uuid = uuid;
  user_id = row.user_id;
  plan_id = row.plan_id;
  payment_request_id = some row.id;
  plan_code = row.plan_code;
  plan_name = row.plan_name;
  status = active;
  starts_at = starts;
  expires_at = starts + row.duration_days * day_seconds;
  entitlements = row.entitlements;
  created_at = now;
}

abbrev pub insert_new_subscription : ℕ → ℕ → ℕ → ManualPaymentRequest → SubDb → SubDb
insert_new_subscription uuid now starts row db = record db {
  subscriptions = new_subscription db.next_subscription uuid now starts row ∷ db.subscriptions;
  next_subscription = db.next_subscription + 1;
}

abbrev pub as_approved : ℕ → ℕ → ℕ → ManualPaymentRequest → ManualPaymentRequest
as_approved admin now subscription r = record r {
  status = approved;
  reviewed_at = some now;
  reviewed_by_admin_id = some admin;
  subscription_id = some subscription;
  updated_at = now;
}

abbrev pub as_rejected : ℕ → ℕ → Text → ManualPaymentRequest → ManualPaymentRequest
as_rejected admin now reason r = record r {
  status = rejected;
  reviewed_at = some now;
  reviewed_by_admin_id = some admin;
  rejection_reason = some reason;
  updated_at = now;
}

abbrev pub update_request_row : ℕ → (ManualPaymentRequest → ManualPaymentRequest) → SubDb → SubDb
update_request_row id f db = record db { requests = update_where (has_request_id id) f db.requests }

abbrev pub review_action : ℕ → ManualPaymentRequest → PaymentStatus → Option Text → ReviewAction
review_action admin row action note = record {
  payment_request_id = row.id;
  admin_user_id = admin;
  action = action;
  note = note;
  before = row.status;
  after = action;
}

module _ (faults : ReviewSite → Bool) where
  -- `insertReviewAndAuditTx`
  abbrev pub insert_review_and_audit : ReviewAction → Handler SubscriptionError SubDb (Unit {0})
  insert_review_and_audit a = do
    exec (faults insert_review) database
        (λ (db : SubDb). record db { review_actions = a ∷ db.review_actions })
    exec (faults insert_audit) database
        (λ (db : SubDb). record db { audit_logs = a ∷ db.audit_logs })

  -- The subscription, the request's row and the review of an open request.
  unfoldable pub approve_open :
      ℕ → ℕ → ℕ → Option Text → ManualPaymentRequest → Handler SubscriptionError SubDb (Unit {0})
  approve_open uuid now admin note row =
      lift (decoded (decode_entitlements row.entitlements)) >>= λ _. (do
        exec (faults lock_subscriptions) database (λ db. db)
        starts ←
            query (faults latest_expiry) database
              (λ (db : SubDb). next_subscription_start row.user_id now db.subscriptions)
        id ← query false database (λ (db : SubDb). db.next_subscription)
        exec (faults insert_subscription) database (insert_new_subscription uuid now starts row)
        exec (faults update_request) database (update_request_row row.id (as_approved admin now id))
        insert_review_and_audit (review_action admin row approved note))

  abbrev pub approve_as :
      ℕ
      → ℕ
      → ℕ
      → Option Text
      → ManualPaymentRequest
      → PaymentStatus
      → Handler SubscriptionError SubDb (Unit {0})
  approve_as uuid now admin note row pending = approve_open uuid now admin note row
  approve_as uuid now admin note row under_review = approve_open uuid now admin note row
  approve_as uuid now admin _ row approved = pure tt
  approve_as uuid now admin _ row rejected = throw already_rejected
  approve_as uuid now admin _ row canceled = throw conflict

  abbrev pub approve_row :
      ℕ → ℕ → ℕ → Option Text → ManualPaymentRequest → Handler SubscriptionError SubDb (Unit {0})
  approve_row uuid now admin note row = approve_as uuid now admin note row row.status

  unfoldable pub reject_open :
      ℕ → ℕ → Text → ManualPaymentRequest → Handler SubscriptionError SubDb (Unit {0})
  reject_open now admin reason row = do
    exec (faults update_request) database (update_request_row row.id (as_rejected admin now reason))
    insert_review_and_audit (review_action admin row rejected (some reason))

  abbrev pub reject_as :
      ℕ
      → ℕ
      → Text
      → ManualPaymentRequest
      → PaymentStatus
      → Handler SubscriptionError SubDb (Unit {0})
  reject_as now admin reason row pending = reject_open now admin reason row
  reject_as now admin reason row under_review = reject_open now admin reason row
  reject_as now admin reason row approved = throw already_approved
  reject_as now admin reason row rejected = pure tt
  reject_as now admin reason row canceled = throw conflict

  abbrev pub reject_row :
      ℕ → ℕ → Text → ManualPaymentRequest → Handler SubscriptionError SubDb (Unit {0})
  reject_row now admin reason row = reject_as now admin reason row row.status

  -- `lockPaymentRequestTx`, then what is done with the row.
  abbrev pub locked_request :
      ℕ
      → (ManualPaymentRequest → Handler SubscriptionError SubDb (Unit {0}))
      → Handler SubscriptionError SubDb (Unit {0})
  locked_request uuid f = do
    found ← query (faults lock_request) database (request_by_uuid uuid)
    row ← or_throw found not_found
    f row

  unfoldable pub approve_tx :
      ℕ → ℕ → ℕ → Option Text → ℕ → Handler SubscriptionError SubDb (Unit {0})
  approve_tx subscription_uuid now admin note uuid =
      transaction (faults review_commit) database
        (locked_request uuid (approve_row subscription_uuid now admin note))

  unfoldable pub reject_tx : ℕ → ℕ → Text → ℕ → Handler SubscriptionError SubDb (Unit {0})
  reject_tx now admin reason uuid =
      transaction (faults review_commit) database
        (locked_request uuid (reject_row now admin reason))

  -- `AdminPaymentRequestDetail`: the row, with its entitlements decoded.
  unfoldable pub payment_request_detail :
      ℕ → Handler SubscriptionError SubDb (ManualPaymentRequest × Entitlements)
  payment_request_detail uuid = do
    found ← query (faults detail) database (request_by_uuid uuid)
    row ← or_throw found not_found
    e ← lift (decoded (decode_entitlements row.entitlements))
    pure (row, e)

  -- `parse_uuid` is `uuid.Parse`; `subscription_uuid` is what `uuid.New()` returns.
  unfoldable pub approve_payment_request :
      (Text → Option ℕ)
      → ℕ
      → ℕ
      → ℕ
      → Text
      → Text
      → Handler SubscriptionError SubDb (ManualPaymentRequest × Entitlements)
  approve_payment_request parse_uuid subscription_uuid now admin raw_uuid note = do
    uuid ← or_throw (parse_uuid (trim_space raw_uuid)) validation
    require (not (ltb 500 (byte_len (trim_space note)))) validation
    approve_tx subscription_uuid now admin (trim_optional note) uuid
    payment_request_detail uuid

  unfoldable pub reject_payment_request :
      (Text → Option ℕ)
      → ℕ
      → ℕ
      → Text
      → Text
      → Handler SubscriptionError SubDb (ManualPaymentRequest × Entitlements)
  reject_payment_request parse_uuid now admin raw_uuid raw_reason = do
    uuid ← or_throw (parse_uuid (trim_space raw_uuid)) validation
    require (not (is_empty (trim_space raw_reason))) validation
    require (not (ltb 500 (byte_len (trim_space raw_reason)))) validation
    reject_tx now admin (trim_space raw_reason) uuid
    payment_request_detail uuid
