-- ===== src/Subscription/Decisions.antt =====
-- internal/subscription/service.go: decisions on a payment request that is approved.
use dating_app_backend.Prelude.{
  ℕ, ◌≡◌, refl, sym, ap, ◌∙◌, inl, inr, Bool, false, Option, none, some, ltb, ◌==◌, ==_refl,
  find_first-update_where, update_where, patch, Outcome, done, failed, store_of, Leaves, Bool-cases,
  Option-cases, Result-cases, ◌>>=◌, subst, Leaves-transaction, Text, trim_space, byte_len,
  bind-done, query-done, transaction-done,
}
use dating_app_backend.Subscription.Model.{
  SubscriptionError, database, pending, under_review, approved, rejected, canceled, PaymentStatus,
  ManualPaymentRequest, SubDb, Entitlements,
}
use dating_app_backend.Subscription.Entitlements.{decode_entitlements}
use dating_app_backend.Subscription.Requests.{trim_optional}
use dating_app_backend.Subscription.Review.{
  ReviewSite, lock_request, lock_subscriptions, latest_expiry, insert_subscription, update_request,
  insert_review, insert_audit, review_commit, detail, request_by_uuid, has_request_id, as_approved,
  approve_open, approve_as, approve_row, approve_tx, reject_row, reject_tx, locked_request,
  payment_request_detail, approve_payment_request, reject_payment_request,
}
use dating_app_backend.Subscription.Kept.{
  locked_request-kept, approve_payment_request-kept, reject_payment_request-kept,
}

-- `P` holds of the store of a good end.
abbrev OnDone {ℓ} : {A : Type ℓ} → (SubDb → Type 0) → Outcome SubscriptionError SubDb A → Type 0
OnDone P (done a s) = P s
OnDone P (failed e s) = Unit

OnDone-map {ℓ} :
    {A : Type ℓ} {P Q : SubDb → Type 0} (o : Outcome SubscriptionError SubDb A)
    → ((s : SubDb) → P s → Q s)
    → OnDone P o
    → OnDone Q o
OnDone-map (done a s) k h = k s h
OnDone-map (failed e s) k h = tt

-- The request with this uuid is approved.
abbrev pub IsApproved : ℕ → SubDb → Type 0
IsApproved uuid db =
    (r : ManualPaymentRequest) × (request_by_uuid uuid db ≡ some r) × (r.status ≡ approved)

uuid-as_approved :
    (uuid id admin now subscription : ℕ) (r : ManualPaymentRequest)
    → ((patch (has_request_id id) (as_approved admin now subscription) r).uuid == uuid)
      ≡ (r.uuid == uuid)
uuid-as_approved uuid id admin now subscription r = elim (Bool-cases (has_request_id id r)) [
  | inl b ↦ rw b refl
  | inr b ↦ rw b refl
]

module _ (faults : ReviewSite → Bool) where
  approve_open-done :
      (su now admin : ℕ) (remark : Option Text) (row : ManualPaymentRequest) (db : SubDb)
      → OnDone
          (λ s.
            s.requests
            ≡ update_where
                (has_request_id row.id)
                (as_approved admin now db.next_subscription)
                db.requests)
          (approve_open faults su now admin remark row db)
  unfolding approve_open
  approve_open-done su now admin remark row db =
      elim (Result-cases (decode_entitlements row.entitlements)) [
        | inr (e, q) ↦ rw (q, approve_open) tt
        | inl (x, q) ↦
            rw (q, approve_open)
              (elim (Bool-cases (faults lock_subscriptions)) [
                | inl f ↦ rw f tt
                | inr f ↦
                    rw (f, ◌>>=◌)
                      (elim (Bool-cases (faults latest_expiry)) [
                        | inl g ↦ rw g tt
                        | inr g ↦
                            rw (g, ◌>>=◌)
                              (elim (Bool-cases (faults insert_subscription)) [
                                | inl k ↦ rw k tt
                                | inr k ↦
                                    rw (k, ◌>>=◌)
                                      (elim (Bool-cases (faults update_request)) [
                                        | inl l ↦ rw l tt
                                        | inr l ↦
                                            rw (l, ◌>>=◌)
                                              (elim (Bool-cases (faults insert_review)) [
                                                | inl m ↦ rw m tt
                                                | inr m ↦
                                                    rw (m, ◌>>=◌)
                                                      (elim (Bool-cases (faults insert_audit)) [
                                                        | inl n ↦ rw n tt
                                                        | inr n ↦ rw n refl
                                                      ])
                                              ])
                                      ])
                              ])
                      ])
              ])
      ]

  updated_IsApproved :
      (uuid admin now subscription : ℕ) (row : ManualPaymentRequest) (db s : SubDb)
      → request_by_uuid uuid db ≡ some row
      → s.requests
        ≡ update_where (has_request_id row.id) (as_approved admin now subscription) db.requests
      → IsApproved uuid s
  updated_IsApproved uuid admin now subscription row db s h e = (
    as_approved admin now subscription row,
    rw e (
        find_first-update_where (has_request_id row.id) (as_approved admin now subscription)
          (λ r. r.uuid == uuid) db.requests (uuid-as_approved uuid row.id admin now subscription)
        ∙ rw (h, ==_refl row.id) refl),
    refl,
  )

  approve_open-IsApproved :
      (su now admin uuid : ℕ) (remark : Option Text) (row : ManualPaymentRequest) (db : SubDb)
      → request_by_uuid uuid db ≡ some row
      → OnDone (IsApproved uuid) (approve_open faults su now admin remark row db)
  approve_open-IsApproved su now admin uuid remark row db h =
      OnDone-map (approve_open faults su now admin remark row db)
        (λ s. updated_IsApproved uuid admin now db.next_subscription row db s h)
        (approve_open-done su now admin remark row db)

  approve_as-IsApproved :
      (su now admin uuid : ℕ) (remark : Option Text) (row : ManualPaymentRequest) (db : SubDb)
      (t : PaymentStatus)
      → request_by_uuid uuid db ≡ some row
      → row.status ≡ t
      → OnDone (IsApproved uuid) (approve_as faults su now admin remark row t db)
  approve_as-IsApproved su now admin uuid remark row db pending h e =
      approve_open-IsApproved su now admin uuid remark row db h
  approve_as-IsApproved su now admin uuid remark row db under_review h e =
      approve_open-IsApproved su now admin uuid remark row db h
  approve_as-IsApproved su now admin uuid remark row db approved h e = (row, h, e)
  approve_as-IsApproved su now admin uuid remark row db rejected h e = tt
  approve_as-IsApproved su now admin uuid remark row db canceled h e = tt

  approve_tx-IsApproved :
      (su now admin uuid : ℕ) (remark : Option Text) (db db' : SubDb)
      → approve_tx faults su now admin remark uuid db ≡ done tt db'
      → IsApproved uuid db'
  unfolding approve_tx
  approve_tx-IsApproved su now admin uuid remark db db' h =
      let body = locked_request faults uuid (approve_row faults su now admin remark) in
      let e = transaction-done (faults review_commit) database body db h in
      elim (Bool-cases (faults lock_request)) [
        | inl b ↦ (let k = rw b at e in cc)
        | inr b ↦ elim (Option-cases (request_by_uuid uuid db)) [
          | inl n ↦ (let k = rw (b, n, ◌>>=◌) at e in cc)
          | inr (row, n) ↦
              subst (OnDone (IsApproved uuid)) (rw (b, n, ◌>>=◌) at e)
                (approve_as-IsApproved su now admin uuid remark row db row.status n refl)
        ]
      ]

  payment_request_detail-done :
      (uuid : ℕ) (db db' : SubDb) (x : ManualPaymentRequest × Entitlements)
      → payment_request_detail faults uuid db ≡ done x db'
      → (db' ≡ db) × (request_by_uuid uuid db ≡ some x.0)
  unfolding payment_request_detail
  payment_request_detail-done uuid db db' x h = elim (Bool-cases (faults detail)) [
    | inl b ↦ (let k = rw b at h in cc)
    | inr b ↦ elim (Option-cases (request_by_uuid uuid db)) [
      | inl n ↦ (let k = rw (b, n, ◌>>=◌) at h in cc)
      | inr (row, n) ↦ elim (Result-cases (decode_entitlements row.entitlements)) [
        | inr (e, q) ↦ (let k = rw (b, n, q, ◌>>=◌) at h in cc)
        | inl (e, q) ↦
            let (v, w) =
              query-done false database (λ (s : SubDb). (row, e)) db (rw (b, n, q, ◌>>=◌) at h) in
            (w, n ∙ ap some (sym (ap (λ (y : ManualPaymentRequest × Entitlements). y.0) v)))
      ]
    ]
  ]

abbrev uuid_of : Option ℕ → ℕ → ℕ
uuid_of none d = d
uuid_of (some u) d = u

abbrev status_of : Option ManualPaymentRequest → PaymentStatus
status_of none = pending
status_of (some r) = r.status

-- A row that is approved: what either decision does to it.
module _ (uuid : ℕ) (db : SubDb) (a : IsApproved uuid db) where
  found_approved :
      (row : ManualPaymentRequest) → request_by_uuid uuid db ≡ some row → row.status ≡ approved
  found_approved row h = ap status_of (sym h ∙ a.1) ∙ a.2

  approve_tx-kept :
      (faults : ReviewSite → Bool) (su now admin : ℕ) (remark : Option Text)
      → Leaves (λ s. s ≡ db) (approve_tx faults su now admin remark uuid db)
  unfolding approve_tx
  approve_tx-kept faults su now admin remark =
      Leaves-transaction (λ s. s ≡ db) (faults review_commit) database db
        (locked_request faults uuid (approve_row faults su now admin remark) db) refl
        (locked_request-kept faults (λ s. s ≡ db) uuid (approve_row faults su now admin remark) db
          refl (λ row n. rw (found_approved row n) refl))

  reject_tx-kept :
      (faults : ReviewSite → Bool) (now admin : ℕ) (reason : Text)
      → Leaves (λ s. s ≡ db) (reject_tx faults now admin reason uuid db)
  unfolding reject_tx
  reject_tx-kept faults now admin reason =
      Leaves-transaction (λ s. s ≡ db) (faults review_commit) database db
        (locked_request faults uuid (reject_row faults now admin reason) db) refl
        (locked_request-kept faults (λ s. s ≡ db) uuid (reject_row faults now admin reason) db refl
          (λ row n. rw (found_approved row n) refl))

module _ (parse_uuid : Text → Option ℕ) (raw : Text) (uuid : ℕ)
    (parsed : parse_uuid (trim_space raw) ≡ some uuid) where
  same_uuid :
      (u : ℕ)
      → parse_uuid (trim_space raw) ≡ some u
      → (db : SubDb) → IsApproved uuid db
      → IsApproved u db
  same_uuid u p db a = subst (λ v. IsApproved v db) (ap (λ o. uuid_of o uuid) (sym parsed ∙ p)) a

  approved_stays :
      (db : SubDb)
      → IsApproved uuid db
      → ((faults : ReviewSite → Bool) (su now admin : ℕ) (remark : Text)
          → store_of (approve_payment_request faults parse_uuid su now admin raw remark db) ≡ db)
        × ((faults : ReviewSite → Bool) (now admin : ℕ) (reason : Text)
            → store_of (reject_payment_request faults parse_uuid now admin raw reason db) ≡ db)
  approved_stays db a = (
    λ faults su now admin remark.
        approve_payment_request-kept faults (λ s. s ≡ db) parse_uuid su now admin raw remark db refl
          (λ u r p. approve_tx-kept u db (same_uuid u p db a) faults su now admin r),
    λ faults now admin reason.
        reject_payment_request-kept faults (λ s. s ≡ db) parse_uuid now admin raw reason db refl
          (λ u r p. reject_tx-kept u db (same_uuid u p db a) faults now admin r),
  )

  -- When `ApprovePaymentRequest` answers, the request in the answer is approved, and no later call
  -- of `ApprovePaymentRequest` or `RejectPaymentRequest` for it changes anything.
  pub approved_is_final :
      (faults : ReviewSite → Bool) (su now admin : ℕ) (remark : Text) (db db' : SubDb)
      (x : ManualPaymentRequest × Entitlements)
      → approve_payment_request faults parse_uuid su now admin raw remark db ≡ done x db'
      → (x.0.status ≡ approved)
        × ((faults : ReviewSite → Bool) (su now admin : ℕ) (remark : Text)
            → store_of (approve_payment_request faults parse_uuid su now admin raw remark db')
              ≡ db')
        × ((faults : ReviewSite → Bool) (now admin : ℕ) (reason : Text)
            → store_of (reject_payment_request faults parse_uuid now admin raw reason db') ≡ db')
  unfolding approve_payment_request
  approved_is_final faults su now admin remark db db' x h =
      elim (Bool-cases (ltb 500 (byte_len (trim_space remark)))) [
        | inl b ↦ (let k = rw (parsed, b, approve_payment_request, ◌>>=◌) at h in cc)
        | inr b ↦
            let (u, s, e, d) =
              bind-done (approve_tx faults su now admin (trim_optional remark) uuid)
                (λ _. payment_request_detail faults uuid) db
                (rw (parsed, b, approve_payment_request, ◌>>=◌) at h) in
            let a = approve_tx-IsApproved faults su now admin uuid (trim_optional remark) db s e in
            let (back, shown) = payment_request_detail-done faults uuid s db' x d in
            let stays = approved_stays db' (subst (IsApproved uuid) (sym back) a) in
            (found_approved uuid s a x.0 shown, stays.0, stays.1)
      ]
