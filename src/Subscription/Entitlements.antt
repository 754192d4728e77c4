-- ===== src/Subscription/Entitlements.antt =====
-- internal/subscription/entitlements.go, and the lookup of a user's entitlements in service.go.
use dating_app_backend.Prelude.{
  ℕ, Bool, true, false, ◌&&◌, ◌||◌, Option, none, some, is_some, List, [], ◌∷◌, Text, codes,
  text_eq, if◌then◌else◌, ltb, leb, ◌==◌, select, first_by, Result, ok, err,
}
use dating_app_backend.Subscription.Model.{
  JsonValue, json_int, json_negative, json_bool, json_null, json_other, Fields, Entitlements,
  UserSubscription, SubscriptionError, validation, is_active_subscription,
}

unfoldable pub free_entitlements : Entitlements
free_entitlements = record {
  daily_like_limit = 50;
  daily_super_like_limit = 1;
  can_use_audio_call = false;
  can_use_video_call = false;
  max_call_duration_seconds = 0;
  daily_call_limit_seconds = 0;
  can_see_who_liked_me = false;
  can_use_advanced_filters = false;
}

-- The value of a key; the last of several, as `json.Unmarshal` into a map keeps it.
abbrev pub field : Text → List (Text × JsonValue) → Option JsonValue
field name [] = none
field name ((k, v) ∷ rest) = elim (field name rest) [
  | some w ↦ some w
  | none ↦ if text_eq k name then some v else none
]

pub data EntitlementFault : Type 0 where
  invalid_json missing_field not_an_integer not_a_boolean negative : EntitlementFault

-- `decodeRequiredInt`; a negative number is `none`. A missing key reads as no JSON at all.
unfoldable pub decode_required_int :
    List (Text × JsonValue) → Text → Result EntitlementFault (Option ℕ)
decode_required_int fields name = elim (field name fields) [
  | none ↦ err not_an_integer
  | some v ↦ elim v [
    | json_int n ↦ ok (some n)
    | json_negative n ↦ ok none
    | json_bool b ↦ err not_an_integer
    | json_null ↦ err not_an_integer
    | json_other ↦ err not_an_integer
  ]
]

unfoldable pub decode_required_bool : List (Text × JsonValue) → Text → Result EntitlementFault Bool
decode_required_bool fields name = elim (field name fields) [
  | none ↦ err not_a_boolean
  | some v ↦ elim v [
    | json_int n ↦ err not_a_boolean
    | json_negative n ↦ err not_a_boolean
    | json_bool b ↦ ok b
    | json_null ↦ err not_a_boolean
    | json_other ↦ err not_a_boolean
  ]
]

abbrev pub and_then {ℓ κ} :
    {A : Type ℓ} {B : Type κ}
    → Result EntitlementFault A
    → (A → Result EntitlementFault B)
    → Result EntitlementFault B
and_then (ok a) k = k a
and_then (err e) k = err e

abbrev pub required_fields : List Text
required_fields =
    codes "dailyLikeLimit"
    ∷ codes "dailySuperLikeLimit"
    ∷ codes "canUseAudioCall"
    ∷ codes "canUseVideoCall"
    ∷ codes "maxCallDurationSeconds"
    ∷ codes "dailyCallLimitSeconds"
    ∷ codes "canSeeWhoLikedMe"
    ∷ codes "canUseAdvancedFilters"
    ∷ []

-- The loop over the required names.
abbrev pub has_fields : List (Text × JsonValue) → List Text → Bool
has_fields fields [] = true
has_fields fields (name ∷ names) = is_some (field name fields) && has_fields fields names

abbrev pub not_negative : Option ℕ → Result EntitlementFault ℕ
not_negative none = err negative
not_negative (some n) = ok n

-- What is decoded, with the numbers not validated yet.
pub record RawEntitlements : Type 0 where
  pub like_limit : Option ℕ
  pub super_like_limit : Option ℕ
  pub audio_call : Bool
  pub video_call : Bool
  pub longest_call : Option ℕ
  pub daily_call : Option ℕ
  pub see_likers : Bool
  pub filters : Bool

abbrev pub decode_fields : List (Text × JsonValue) → Result EntitlementFault RawEntitlements
decode_fields f = and_then (decode_required_int f (codes "dailyLikeLimit")) λ likes.
    and_then (decode_required_int f (codes "dailySuperLikeLimit")) λ super_likes.
      and_then (decode_required_bool f (codes "canUseAudioCall")) λ audio.
        and_then (decode_required_bool f (codes "canUseVideoCall")) λ video.
          and_then (decode_required_int f (codes "maxCallDurationSeconds")) λ longest.
            and_then (decode_required_int f (codes "dailyCallLimitSeconds")) λ daily.
              and_then (decode_required_bool f (codes "canSeeWhoLikedMe")) λ likers.
                and_then (decode_required_bool f (codes "canUseAdvancedFilters")) λ filters.
                  ok (record {
                    like_limit = likes;
                    super_like_limit = super_likes;
                    audio_call = audio;
                    video_call = video;
                    longest_call = longest;
                    daily_call = daily;
                    see_likers = likers;
                    filters = filters;
                  })

-- `ValidateEntitlements`
abbrev pub validate_entitlements : RawEntitlements → Result EntitlementFault Entitlements
validate_entitlements r = and_then (not_negative r.like_limit) λ likes.
    and_then (not_negative r.super_like_limit) λ super_likes.
      and_then (not_negative r.longest_call) λ longest.
        and_then (not_negative r.daily_call) λ daily. ok (record {
          daily_like_limit = likes;
          daily_super_like_limit = super_likes;
          can_use_audio_call = r.audio_call;
          can_use_video_call = r.video_call;
          max_call_duration_seconds = longest;
          daily_call_limit_seconds = daily;
          can_see_who_liked_me = r.see_likers;
          can_use_advanced_filters = r.filters;
        })

unfoldable pub decode_entitlements : Fields → Result EntitlementFault Entitlements
decode_entitlements none = err invalid_json
decode_entitlements (some f) =
    if has_fields f required_fields
    then and_then (decode_fields f) validate_entitlements
    else err missing_field

-- `status = 'ACTIVE' AND starts_at <= ? AND expires_at > ?`
abbrev pub is_current : ℕ → ℕ → UserSubscription → Bool
is_current user now s =
    s.user_id == user
    && (is_active_subscription s.status && (leb s.starts_at now && ltb now s.expires_at))

-- `ORDER BY expires_at DESC, id DESC`
abbrev pub expires_later : UserSubscription → UserSubscription → Bool
expires_later x y = ltb y.expires_at x.expires_at || (x.expires_at == y.expires_at && ltb y.id x.id)

unfoldable pub active_subscription : ℕ → ℕ → List UserSubscription → Option UserSubscription
active_subscription user now rows = first_by expires_later (select (is_current user now) rows)

pub record EntitlementSnapshot : Type 0 where
  pub is_premium : Bool
  pub plan_code : Option Text
  pub expires_at : Option ℕ
  pub entitlements : Entitlements

abbrev pub snapshot_of : Option UserSubscription → Result SubscriptionError EntitlementSnapshot
snapshot_of none = ok (record {
  is_premium = false;
  plan_code = none;
  expires_at = none;
  entitlements = free_entitlements;
})
snapshot_of (some s) = elim (decode_entitlements s.entitlements) [
  | err e ↦ err validation
  | ok x ↦ ok (record {
    is_premium = true;
    plan_code = some s.plan_code;
    expires_at = some s.expires_at;
    entitlements = x;
  })
]

-- `entitlements`
unfoldable pub entitlements_at :
    ℕ → ℕ → List UserSubscription → Result SubscriptionError EntitlementSnapshot
entitlements_at user now rows = snapshot_of (active_subscription user now rows)
