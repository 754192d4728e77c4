-- ===== src/Subscription/Daily.antt =====
-- internal/subscription/service.go: the daily limits of `ConsumeActionUsageTx`.
use mathlib.Core.Option
use dating_app_backend.Prelude.{
  ℕ, ◌+◌, ◌≤◌, ◌<◌, ◌≡◌, refl, sym, ap, ◌∙◌, inl, inr, Bool, true, false, none, some, List, [], ◌∷◌,
  if◌then◌else◌, leb, ==_refl, find_first, exists, update_where, Outcome, done, failed, store_of,
  Bool-cases, Option-cases, arith, ◌>>=◌, exec, throw,
}
use dating_app_backend.Store.{
  Feature, like_daily, super_like_daily, audio_call_daily_seconds, video_call_daily_seconds,
  FeatureUsage,
}
use dating_app_backend.Subscription.Model.{SubscriptionError, database}
use dating_app_backend.Subscription.Usage.{
  UsageSite, insert_usage, lock_usage, update_usage, same_feature, is_usage_of, ensure_usage,
  with_count, consume_feature, used_count_of, usage_of,
}

-- What `Usage` reports as used.
abbrev pub used : ℕ → Feature → ℕ → List FeatureUsage → ℕ
used user feature date rows = used_count_of (usage_of user feature date rows)

same_feature_refl : (f : Feature) → same_feature f f ≡ true
same_feature_refl like_daily = refl
same_feature_refl super_like_daily = refl
same_feature_refl audio_call_daily_seconds = refl
same_feature_refl video_call_daily_seconds = refl

find_first-exists {ℓ} :
    {A : Type ℓ} (p : A → Bool) (xs : List A) → exists p xs ≡ false → find_first p xs ≡ none
find_first-exists p [] h = refl
find_first-exists p (x ∷ xs) h = elim (Bool-cases (p x)) [
  | inl b ↦ (let k = rw b at h in cc)
  | inr b ↦ rw b (find_first-exists p xs (rw b at h))
]

find_first-update_where {ℓ} :
    {A : Type ℓ} (p : A → Bool) (f : A → A) (xs : List A)
    → ((x : A) → p (f x) ≡ p x)
    → find_first p (update_where p f xs) ≡ Option.map f (find_first p xs)
find_first-update_where p f [] k = refl
find_first-update_where p f (x ∷ xs) k = elim (Bool-cases (p x)) [
  | inl b ↦ rw (b, k x, b) refl
  | inr b ↦ rw (b, b) (find_first-update_where p f xs k)
]

module _ (user : ℕ) (feature : Feature) (date : ℕ) where
  used-ensure_usage :
      (now : ℕ) (rows : List FeatureUsage)
      → used user feature date (ensure_usage user feature date now rows)
        ≡ used user feature date rows
  used-ensure_usage now rows = elim (Bool-cases (exists (is_usage_of user feature date) rows)) [
    | inl b ↦ rw b refl
    | inr b ↦
        rw
          (
            b,
            ==_refl user,
            same_feature_refl feature,
            ==_refl date,
            find_first-exists (is_usage_of user feature date) rows b,
          )
          refl
  ]

  used-with_count :
      (n now : ℕ) (rows : List FeatureUsage) (r : FeatureUsage)
      → usage_of user feature date rows ≡ some r
      → used user feature date
          (update_where (is_usage_of user feature date) (with_count n now) rows)
        ≡ n
  used-with_count n now rows r h =
      rw
        (
          find_first-update_where (is_usage_of user feature date) (with_count n now) rows
              (λ x. refl),
          h,
        )
        refl

  -- One call: accepted below the limit and counted, or refused and not counted.
  abbrev pub Counted :
      ℕ → List FeatureUsage → Outcome SubscriptionError (List FeatureUsage) (Unit {0}) → Type 0
  Counted limit rows (done a rows') =
      (used user feature date rows' ≡ used user feature date rows + 1)
      × (used user feature date rows < limit)
  Counted limit rows (failed e rows') = used user feature date rows' ≡ used user feature date rows

  module _ (limit : ℕ) (limit_error : SubscriptionError) where
    count_row :
        (faults : UsageSite → Bool) (now : ℕ) (start rows : List FeatureUsage) (r : FeatureUsage)
        → used user feature date rows ≡ used user feature date start
        → usage_of user feature date rows ≡ some r
        → Counted limit start (
            (if leb limit r.used_count
                then throw limit_error
                else exec (faults update_usage) database (
                    update_where
                      (is_usage_of user feature date)
                      (with_count (r.used_count + 1) now)))
              rows)
    count_row faults now start rows r e h =
        let u = ap used_count_of h in
        elim (Bool-cases (leb limit r.used_count)) [
          | inl b ↦ rw b e
          | inr b ↦ rw b (elim (Bool-cases (faults update_usage)) [
            | inl f ↦ rw f e
            | inr f ↦ rw f (
              used-with_count (r.used_count + 1) now rows r h ∙ ap (λ n. n + 1) (sym u ∙ e),
              ground (arith, u, e),
            )
          ])
        ]

    consume_feature-Counted :
        (faults : UsageSite → Bool) (now : ℕ) (rows : List FeatureUsage)
        → Counted limit rows (consume_feature faults now user feature limit limit_error date rows)
    unfolding consume_feature
    consume_feature-Counted faults now rows = elim (Bool-cases (leb limit 0)) [
      | inl z ↦ rw (z, consume_feature) refl
      | inr z ↦
          rw (z, consume_feature)
            (elim (Bool-cases (faults insert_usage)) [
              | inl f ↦ rw f refl
              | inr f ↦ rw f (elim (Bool-cases (faults lock_usage)) [
                | inl g ↦ rw (g, ◌>>=◌) (used-ensure_usage now rows)
                | inr g ↦
                    (let rows' = ensure_usage user feature date now rows in
                      elim (Option-cases (usage_of user feature date rows')) [
                        | inl n ↦ rw (g, n, ◌>>=◌) (used-ensure_usage now rows)
                        | inr (r, n) ↦
                            rw (g, n, ◌>>=◌)
                              (count_row faults now rows rows' r (used-ensure_usage now rows) n)
                      ])
              ])
            ])
    ]

    -- Calls on one user, feature and day: the times and the faults of each.
    abbrev pub Calls : Type 0
    Calls = List ((UsageSite → Bool) × ℕ)

    abbrev pub score : Outcome SubscriptionError (List FeatureUsage) (Unit {0}) → ℕ
    score (done a rows) = 1
    score (failed e rows) = 0

    unfoldable pub consume_all : Calls → List FeatureUsage → ℕ × List FeatureUsage
    consume_all [] rows = (0, rows)
    consume_all ((faults, now) ∷ calls) rows =
        let o = consume_feature faults now user feature limit limit_error date rows in
        let rest = consume_all calls (store_of o) in (score o + rest.0, rest.1)

    scored :
        (rows : List FeatureUsage) (o : Outcome SubscriptionError (List FeatureUsage) (Unit {0}))
        → used user feature date rows ≤ limit
        → Counted limit rows o
        → (used user feature date (store_of o) ≡ used user feature date rows + score o)
          × (used user feature date rows + score o ≤ limit)
    scored rows (done a rows') h k = (k.0, omega (arith, k.1))
    scored rows (failed e rows') h k = (omega (arith, k), omega (arith, h))

    -- However many calls run, in any order and with any database errors, the accepted ones are
    -- those that are counted, and on a day that starts within the limit they stay within it.
    pub daily_limit :
        (calls : Calls) (rows : List FeatureUsage)
        → used user feature date rows ≤ limit
        → (used user feature date (consume_all calls rows).1
            ≡ used user feature date rows + (consume_all calls rows).0)
          × (used user feature date rows + (consume_all calls rows).0 ≤ limit)
    unfolding consume_all
    daily_limit [] rows h = (omega arith, omega (arith, h))
    daily_limit ((faults, now) ∷ calls) rows h =
        let o = consume_feature faults now user feature limit limit_error date rows in
        let (step, room) = scored rows o h (consume_feature-Counted faults now rows) in
        let (count, bound) = daily_limit calls (store_of o) (omega (arith, step, room)) in
        (omega (arith, count, step), omega (arith, bound, step))
