-- ===== src/Subscription/Periods.antt =====
-- internal/subscription/service.go: the periods of a user's subscriptions.
use dating_app_backend.Prelude.{
  ℕ, ◌≤◌, ◌≡◌, inl, inr, Bool, true, ◌&&◌, Option, List, [], ◌∷◌, ◌==◌, All, store_of, Leaves,
  Bool-cases, Result-cases, arith, ◌>>=◌, Leaves-transaction, Text,
}
use dating_app_backend.Subscription.Model.{
  database, pending, under_review, approved, rejected, canceled, PaymentStatus,
  ManualPaymentRequest, UserSubscription, ReviewAction, SubDb, is_active_subscription,
}
use dating_app_backend.Subscription.Entitlements.{decode_entitlements}
use dating_app_backend.Subscription.Review.{
  ReviewSite, lock_subscriptions, latest_expiry, insert_subscription, update_request, insert_review,
  insert_audit, review_commit, next_subscription_start, insert_new_subscription,
  insert_review_and_audit, review_action, approve_open, approve_as, approve_row, approve_tx,
  locked_request, approve_payment_request,
}
use dating_app_backend.Subscription.Kept.{locked_request-kept, approve_payment_request-kept}

abbrev pub is_active_of : ℕ → UserSubscription → Bool
is_active_of user s = s.user_id == user && is_active_subscription s.status

-- An active subscription of the same user has ended when `s` starts.
abbrev pub EndsBefore : UserSubscription → UserSubscription → Type 0
EndsBefore s earlier = is_active_of s.user_id earlier ≡ true → earlier.expires_at ≤ s.starts_at

-- Newest first: each subscription starts when the user's older active ones have ended.
abbrev pub NoOverlap : List UserSubscription → Type 0
NoOverlap [] = Unit
NoOverlap (s ∷ rows) = All (EndsBefore s) rows × NoOverlap rows

now≤next_subscription_start :
    (user now : ℕ) (rows : List UserSubscription) → now ≤ next_subscription_start user now rows
unfolding next_subscription_start
now≤next_subscription_start user now [] = omega arith
now≤next_subscription_start user now (s ∷ rows) =
    ground (arith, now≤next_subscription_start user now rows)

next_subscription_start_bound :
    (user now b : ℕ) (rows : List UserSubscription)
    → next_subscription_start user now rows ≤ b
    → All (λ y. is_active_of user y ≡ true → y.expires_at ≤ b) rows
unfolding next_subscription_start
next_subscription_start_bound user now b [] h = tt
next_subscription_start_bound user now b (s ∷ rows) h = (
  λ e. ground (arith, now≤next_subscription_start user now rows),
  next_subscription_start_bound user now b rows (ground arith),
)

module _ (faults : ReviewSite → Bool) where
  abbrev PeriodsOk : SubDb → Type 0
  PeriodsOk db = NoOverlap db.subscriptions

  insert_review_and_audit-PeriodsOk :
      (a : ReviewAction) (db : SubDb)
      → PeriodsOk db
      → Leaves PeriodsOk (insert_review_and_audit faults a db)
  insert_review_and_audit-PeriodsOk a db h = elim (Bool-cases (faults insert_review)) [
    | inl f ↦ rw f h
    | inr f ↦ rw f (elim (Bool-cases (faults insert_audit)) [ inl g ↦ rw g h | inr g ↦ rw g h ])
  ]

  added :
      (uuid : ℕ) (row : ManualPaymentRequest) (now : ℕ) (db : SubDb)
      → PeriodsOk db
      → PeriodsOk (
          insert_new_subscription uuid now
            (next_subscription_start row.user_id now db.subscriptions)
            row
            db)
  added uuid row now db h = (
    next_subscription_start_bound row.user_id now
        (next_subscription_start row.user_id now db.subscriptions) db.subscriptions (omega arith),
    h,
  )

  approve_open-PeriodsOk :
      (uuid now admin : ℕ) (remark : Option Text) (row : ManualPaymentRequest) (db : SubDb)
      → PeriodsOk db
      → Leaves PeriodsOk (approve_open faults uuid now admin remark row db)
  unfolding approve_open
  approve_open-PeriodsOk uuid now admin remark row db h =
      elim (Result-cases (decode_entitlements row.entitlements)) [
        | inr (e, q) ↦ rw (q, approve_open) h
        | inl (x, q) ↦
            rw (q, approve_open)
              (elim (Bool-cases (faults lock_subscriptions)) [
                | inl f ↦ rw f h
                | inr f ↦
                    rw (f, ◌>>=◌)
                      (elim (Bool-cases (faults latest_expiry)) [
                        | inl g ↦ rw g h
                        | inr g ↦
                            rw (g, ◌>>=◌)
                              (elim (Bool-cases (faults insert_subscription)) [
                                | inl k ↦ rw k h
                                | inr k ↦
                                    rw (k, ◌>>=◌)
                                      (elim (Bool-cases (faults update_request)) [
                                        | inl l ↦ rw l (added uuid row now db h)
                                        | inr l ↦
                                            rw (l, ◌>>=◌)
                                              (insert_review_and_audit-PeriodsOk
                                                (review_action admin row approved remark) _
                                                (added uuid row now db h))
                                      ])
                              ])
                      ])
              ])
      ]

  approve_row-PeriodsOk :
      (uuid now admin : ℕ) (remark : Option Text) (row : ManualPaymentRequest) (db : SubDb)
      → PeriodsOk db
      → Leaves PeriodsOk (approve_row faults uuid now admin remark row db)
  approve_row-PeriodsOk uuid now admin remark row db h = go row.status
    where
      go : (t : PaymentStatus) → Leaves PeriodsOk (approve_as faults uuid now admin remark row t db)
      go pending = approve_open-PeriodsOk uuid now admin remark row db h
      go under_review = approve_open-PeriodsOk uuid now admin remark row db h
      go approved = h
      go rejected = h
      go canceled = h

  approve_tx-PeriodsOk :
      (su now admin : ℕ) (remark : Option Text) (uuid : ℕ) (db : SubDb)
      → PeriodsOk db
      → Leaves PeriodsOk (approve_tx faults su now admin remark uuid db)
  unfolding approve_tx
  approve_tx-PeriodsOk su now admin remark uuid db h =
      Leaves-transaction PeriodsOk (faults review_commit) database db
        (locked_request faults uuid (approve_row faults su now admin remark) db) h
        (locked_request-kept faults PeriodsOk uuid (approve_row faults su now admin remark) db h
          (λ row _. approve_row-PeriodsOk su now admin remark row db h))

  -- If each active subscription starts when the older active ones of its user have ended, this still
  -- holds after a call of `ApprovePaymentRequest`, however it ends.
  pub approve_payment_request-NoOverlap :
      (parse_uuid : Text → Option ℕ) (subscription_uuid now admin : ℕ) (raw_uuid remark : Text)
      (db : SubDb)
      → NoOverlap db.subscriptions
      → NoOverlap
          (store_of (
            approve_payment_request faults parse_uuid subscription_uuid now admin raw_uuid remark
              db)).subscriptions
  approve_payment_request-NoOverlap parse_uuid su now admin raw remark db h =
      approve_payment_request-kept faults PeriodsOk parse_uuid su now admin raw remark db h
        (λ uuid r _. approve_tx-PeriodsOk su now admin r uuid db h)
