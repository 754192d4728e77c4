-- ===== src/Subscription/Usage.antt =====
-- internal/subscription/service.go: `ConsumeActionUsageTx` and `Usage`.
use dating_app_backend.Prelude.{
  ℕ, ◌+◌, ◌-◌, Bool, true, false, ◌&&◌, Option, none, some, List, ◌∷◌, if◌then◌else◌, leb, ◌==◌,
  find_first, exists, update_where, Handler, query, exec, or_throw, lift, pure, throw, ◌>>=◌, ◌>>◌,
}
use dating_app_backend.Store.{
  ActionType, like, pass, super_like, Feature, like_daily, super_like_daily,
  audio_call_daily_seconds, video_call_daily_seconds, FeatureUsage,
}
use dating_app_backend.Subscription.Model.{
  SubscriptionError, like_limit_reached, super_like_limit_reached, database, Entitlements,
  UserSubscription,
}
use dating_app_backend.Subscription.Entitlements.{entitlements_at}

-- The statements of `ConsumeActionUsageTx`, by which a fault is named.
pub data UsageSite : Type 0 where
  read_subscription insert_usage lock_usage update_usage : UsageSite

abbrev pub same_feature : Feature → Feature → Bool
same_feature like_daily like_daily = true
same_feature super_like_daily super_like_daily = true
same_feature audio_call_daily_seconds audio_call_daily_seconds = true
same_feature video_call_daily_seconds video_call_daily_seconds = true
same_feature _ _ = false

-- `user_id = ? AND feature_key = ? AND usage_date = ?`, the unique key of the table.
abbrev pub is_usage_of : ℕ → Feature → ℕ → FeatureUsage → Bool
is_usage_of user feature date r =
    r.user_id == user && (same_feature r.feature_key feature && r.usage_date == date)

-- `INSERT ... ON CONFLICT DO NOTHING`
abbrev pub ensure_usage : ℕ → Feature → ℕ → ℕ → List FeatureUsage → List FeatureUsage
ensure_usage user feature date now rows =
    if exists (is_usage_of user feature date) rows
    then rows
    else record {
      user_id = user;
      feature_key = feature;
      usage_date = date;
      used_count = 0;
      used_seconds = 0;
      updated_at = now;
    }
      ∷ rows

abbrev pub with_count : ℕ → ℕ → FeatureUsage → FeatureUsage
with_count n now r = record r { used_count = n; updated_at = now }

-- From the limit on.
unfoldable pub consume_feature :
    (UsageSite → Bool)
    → ℕ
    → ℕ
    → Feature
    → ℕ
    → SubscriptionError
    → ℕ
    → Handler SubscriptionError (List FeatureUsage) (Unit {0})
consume_feature faults now user feature limit limit_error date =
    if leb limit 0 then throw limit_error else (do
      exec (faults insert_usage) database (ensure_usage user feature date now)
      found ← query (faults lock_usage) database (find_first (is_usage_of user feature date))
      usage ← or_throw found database
      if leb limit usage.used_count
          then throw limit_error
          else exec (faults update_usage) database (
              update_where (is_usage_of user feature date) (with_count (usage.used_count + 1) now)))

-- The parsed action type stands for the text, which the caller has normalised.
unfoldable pub consume_action_usage :
    (UsageSite → Bool)
    → List UserSubscription
    → ℕ
    → ℕ
    → ActionType
    → ℕ
    → Handler SubscriptionError (List FeatureUsage) (Unit {0})
consume_action_usage faults subscriptions now user t date = do
  read ← query (faults read_subscription) database (λ _. entitlements_at user now subscriptions)
  snapshot ← lift read
  elim t [
    | like ↦
        consume_feature faults now user like_daily snapshot.entitlements.daily_like_limit
          like_limit_reached date
    | super_like ↦
        consume_feature faults now user super_like_daily
          snapshot.entitlements.daily_super_like_limit super_like_limit_reached date
    | pass ↦ pure tt
  ]

-- `remaining`
unfoldable pub remaining : ℕ → ℕ → ℕ
remaining limit used = if leb used limit then limit - used else 0

-- `usageCounts`: a missing row counts as zero.
abbrev pub used_count_of : Option FeatureUsage → ℕ
used_count_of none = 0
used_count_of (some r) = r.used_count

abbrev pub used_seconds_of : Option FeatureUsage → ℕ
used_seconds_of none = 0
used_seconds_of (some r) = r.used_seconds

abbrev pub usage_of : ℕ → Feature → ℕ → List FeatureUsage → Option FeatureUsage
usage_of user feature date rows = find_first (is_usage_of user feature date) rows

pub record UsageResponse : Type 0 where
  pub likes_used : ℕ
  pub super_likes_used : ℕ
  pub audio_call_seconds_used : ℕ
  pub video_call_seconds_used : ℕ
  pub likes_remaining : ℕ
  pub super_likes_remaining : ℕ
  pub audio_call_seconds_remaining : ℕ
  pub video_call_seconds_remaining : ℕ

unfoldable pub usage_response : Entitlements → ℕ → ℕ → List FeatureUsage → UsageResponse
usage_response e user date rows =
    let likes = used_count_of (usage_of user like_daily date rows) in
    let super_likes = used_count_of (usage_of user super_like_daily date rows) in
    let audio = used_seconds_of (usage_of user audio_call_daily_seconds date rows) in
    let video = used_seconds_of (usage_of user video_call_daily_seconds date rows) in
    record {
      likes_used = likes;
      super_likes_used = super_likes;
      audio_call_seconds_used = audio;
      video_call_seconds_used = video;
      likes_remaining = remaining e.daily_like_limit likes;
      super_likes_remaining = remaining e.daily_super_like_limit super_likes;
      audio_call_seconds_remaining = remaining e.daily_call_limit_seconds audio;
      video_call_seconds_remaining = remaining e.daily_call_limit_seconds video;
    }
