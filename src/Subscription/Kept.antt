-- ===== src/Subscription/Kept.antt =====
-- internal/subscription/service.go: what the decisions on a payment request keep.
use dating_app_backend.Prelude.{
  ℕ, ◌≡◌, inl, inr, Bool, Option, some, ltb, Leaves, Bool-cases, Option-cases, Result-cases, ◌>>=◌,
  Leaves-bind, Handler, Text, trim_space, byte_len, is_empty,
}
use dating_app_backend.Subscription.Model.{SubscriptionError, ManualPaymentRequest, SubDb}
use dating_app_backend.Subscription.Entitlements.{decode_entitlements}
use dating_app_backend.Subscription.Requests.{trim_optional}
use dating_app_backend.Subscription.Review.{
  ReviewSite, lock_request, detail, request_by_uuid, approve_tx, locked_request,
  payment_request_detail, approve_payment_request, reject_payment_request, reject_tx,
}

module _ {ℓ} (faults : ReviewSite → Bool) (P : SubDb → Type ℓ) where
  pub locked_request-kept :
      (uuid : ℕ) (f : ManualPaymentRequest → Handler SubscriptionError SubDb (Unit {0}))
      (db : SubDb)
      → P db
      → ((row : ManualPaymentRequest) → request_by_uuid uuid db ≡ some row → Leaves P (f row db))
      → Leaves P (locked_request faults uuid f db)
  locked_request-kept uuid f db h k = elim (Bool-cases (faults lock_request)) [
    | inl b ↦ rw b h
    | inr b ↦
        rw (b, ◌>>=◌)
          (elim (Option-cases (request_by_uuid uuid db)) [
            | inl n ↦ rw (n, ◌>>=◌) h
            | inr (row, n) ↦ rw (n, ◌>>=◌) (k row n)
          ])
  ]

  pub payment_request_detail-kept :
      (uuid : ℕ) (db : SubDb) → P db → Leaves P (payment_request_detail faults uuid db)
  unfolding payment_request_detail
  payment_request_detail-kept uuid db h = elim (Bool-cases (faults detail)) [
    | inl b ↦ rw (b, payment_request_detail) h
    | inr b ↦
        rw (b, payment_request_detail)
          (elim (Option-cases (request_by_uuid uuid db)) [
            | inl n ↦ rw (n, ◌>>=◌) h
            | inr (row, n) ↦
                rw (n, ◌>>=◌)
                  (elim (Result-cases (decode_entitlements row.entitlements)) [
                    | inl (x, q) ↦ rw q h
                    | inr (x, q) ↦ rw q h
                  ])
          ])
  ]

  pub approve_payment_request-kept :
      (parse_uuid : Text → Option ℕ) (su now admin : ℕ) (raw remark : Text) (db : SubDb)
      → P db
      → ((uuid : ℕ) (r : Option Text)
          → parse_uuid (trim_space raw) ≡ some uuid
          → Leaves P (approve_tx faults su now admin r uuid db))
      → Leaves P (approve_payment_request faults parse_uuid su now admin raw remark db)
  unfolding approve_payment_request
  approve_payment_request-kept parse_uuid su now admin raw remark db h k =
      elim (Option-cases (parse_uuid (trim_space raw))) [
        | inl n ↦ rw (n, approve_payment_request) h
        | inr (uuid, n) ↦
            rw (n, approve_payment_request)
              (elim (Bool-cases (ltb 500 (byte_len (trim_space remark)))) [
                | inl b ↦ rw (b, ◌>>=◌) h
                | inr b ↦
                    rw (b, ◌>>=◌)
                      (Leaves-bind P (approve_tx faults su now admin (trim_optional remark) uuid)
                        (λ _. payment_request_detail faults uuid) db
                        (k uuid (trim_optional remark) n)
                        (λ _ s. payment_request_detail-kept uuid s))
              ])
      ]

  pub reject_payment_request-kept :
      (parse_uuid : Text → Option ℕ) (now admin : ℕ) (raw reason : Text) (db : SubDb)
      → P db
      → ((uuid : ℕ) (r : Text)
          → parse_uuid (trim_space raw) ≡ some uuid
          → Leaves P (reject_tx faults now admin r uuid db))
      → Leaves P (reject_payment_request faults parse_uuid now admin raw reason db)
  unfolding reject_payment_request
  reject_payment_request-kept parse_uuid now admin raw reason db h k =
      elim (Option-cases (parse_uuid (trim_space raw))) [
        | inl n ↦ rw (n, reject_payment_request) h
        | inr (uuid, n) ↦
            rw (n, reject_payment_request)
              (elim (Bool-cases (is_empty (trim_space reason))) [
                | inl e ↦ rw (e, ◌>>=◌) h
                | inr e ↦
                    rw (e, ◌>>=◌)
                      (elim (Bool-cases (ltb 500 (byte_len (trim_space reason)))) [
                        | inl b ↦ rw (b, ◌>>=◌) h
                        | inr b ↦
                            rw (b, ◌>>=◌)
                              (Leaves-bind P (reject_tx faults now admin (trim_space reason) uuid)
                                (λ _. payment_request_detail faults uuid) db
                                (k uuid (trim_space reason) n)
                                (λ _ s. payment_request_detail-kept uuid s))
                      ])
              ])
      ]
