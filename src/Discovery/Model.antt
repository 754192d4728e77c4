-- ===== src/Discovery/Model.antt =====
-- internal/discovery: the errors, requests and answers of action.go, and the queries it makes.
use mathlib.Core.Option
use dating_app_backend.Prelude.{
  ℕ, Bool, true, false, ◌&&◌, Option, none, some, Text, codes, text_eq, trim_space, to_upper,
  if◌then◌else◌, ◌==◌, exists, find_first, List, Outcome, Handler, done, failed, Result, ok, err,
}
use dating_app_backend.Store.{
  ActionType, like, pass, super_like, Action, User, Match, FeatureUsage, Db, user_by_id,
  ordered_pair, is_pair, is_active_match,
}

pub data DiscoveryError : Type 0 where
  validation not_found discovery_not_ready target_not_discoverable : DiscoveryError
  action_not_allowed action_already_exists idempotency_key_conflict : DiscoveryError
  -- What the usage limiter may answer.
  like_limit_reached super_like_limit_reached entitlements_invalid : DiscoveryError
  -- An error of the database.
  database : DiscoveryError

pub record CreateActionRequest : Type 0 where
  pub target_user_uuid : Text
  pub action_type : Text
  pub client_action_id : Text

pub record NormalizedActionRequest : Type 0 where
  pub target_user_uuid : ℕ
  pub action_type : ActionType
  pub client_action_id : ℕ

pub record MatchResponse : Type 0 where
  pub match_uuid : ℕ
  pub matched_at : ℕ

pub record ActionResponse : Type 0 where
  pub action_type : ActionType
  pub matched : Bool
  pub found_match : Option MatchResponse

-- What `CreateAction` comes to: the answer, and the match that it hands to the notifications.
pub record Recorded : Type 0 where
  pub response : ActionResponse
  pub new_match_uuid : Option ℕ

-- `DiscoverableTargetSnapshot`, as far as the action uses it.
pub record Target : Type 0 where
  pub target_user_id : ℕ
  pub distance_meters : ℕ

-- `ActionUsageLimiter`: it works on the usage counters alone.
pub record ActionUsageLimiter : Type 0 where
  pub consume : ℕ → ActionType → ℕ → Handler DiscoveryError (List FeatureUsage) (Unit {0})

abbrev pub same_action : ActionType → ActionType → Bool
same_action like like = true
same_action pass pass = true
same_action super_like super_like = true
same_action _ _ = false

-- `isPositiveAction`
abbrev pub is_positive : ActionType → Bool
is_positive like = true
is_positive super_like = true
is_positive pass = false

-- `strings.ToUpper(strings.TrimSpace(...))` and `validActionType`.
unfoldable pub parse_action_type : Text → Option ActionType
parse_action_type raw =
    let t = to_upper (trim_space raw) in
    if text_eq t (codes "LIKE")
    then some like
    else if text_eq t (codes "PASS")
    then some pass
    else if text_eq t (codes "SUPER_LIKE")
    then some super_like
    else none

-- `uuid.Parse` is the parameter; a uuid is a number.
unfoldable pub normalize_action_request :
    (Text → Option ℕ) → CreateActionRequest → Result DiscoveryError NormalizedActionRequest
normalize_action_request parse_uuid req = elim (parse_uuid (trim_space req.target_user_uuid)) [
  | none ↦ err validation
  | some target ↦ elim (parse_uuid (trim_space req.client_action_id)) [
    | none ↦ err validation
    | some client ↦ elim (parse_action_type req.action_type) [
      | none ↦ err validation
      | some t ↦
          ok (record { target_user_uuid = target; action_type = t; client_action_id = client })
    ]
  ]
]

-- A row of `discovery_actions` beside the uuid of its target.
pub record ActionRecord : Type 0 where
  pub action : Action
  pub target_user_uuid : ℕ

abbrev pub with_target : Db → Option Action → Option ActionRecord
with_target db none = none
with_target db (some a) =
    Option.map (λ (u : User). record { action = a; target_user_uuid = u.uuid })
      (user_by_id a.target db)

abbrev pub has_client_id : ℕ → ℕ → Action → Bool
has_client_id actor client a = a.actor == actor && a.client_action_id == client

abbrev pub is_between : ℕ → ℕ → Action → Bool
is_between actor target a = a.actor == actor && a.target == target

-- `findActionByClientIDTx`
abbrev pub find_action_by_client_id : ℕ → ℕ → Db → Option ActionRecord
find_action_by_client_id actor client db =
    with_target db (find_first (has_client_id actor client) db.actions)

-- `findActionByPairTx`
abbrev pub find_action_by_pair : ℕ → ℕ → Db → Option ActionRecord
find_action_by_pair actor target db =
    with_target db (find_first (is_between actor target) db.actions)

abbrev pub is_like_of : ℕ → ℕ → Action → Bool
is_like_of actor target a = is_between actor target a && is_positive a.action_type

-- `actor` has a positive action towards `target`.
abbrev pub likes : ℕ → ℕ → Db → Bool
likes actor target db = exists (is_like_of actor target) db.actions

-- `userIDByUUIDAny`, after the parse.
abbrev pub user_by_uuid : ℕ → Db → Option User
user_by_uuid uuid db = find_first (λ (u : User). u.uuid == uuid) db.users

-- `activeMatchForPairTx`
abbrev pub active_match_for_pair : ℕ → ℕ → Db → Option Match
active_match_for_pair a b db =
    let pair = ordered_pair a b in
    find_first (λ (m : Match). is_pair pair.0 pair.1 m && is_active_match m.status) db.matches

-- `actionResponseForPairTx`
abbrev pub response_of : ActionType → Option Match → ActionResponse
response_of t none = record { action_type = t; matched = false; found_match = none }
response_of t (some m) = record {
  action_type = t;
  matched = true;
  found_match = some (record { match_uuid = m.uuid; matched_at = m.matched_at });
}

-- A step on the usage counters.
abbrev pub put_usage :
    Db
    → Outcome DiscoveryError (List FeatureUsage) (Unit {0})
    → Outcome DiscoveryError Db (Unit {0})
put_usage db (done a u) = done a (record db { usage = u })
put_usage db (failed e u) = failed e (record db { usage = u })

-- `if s.usageLimiter != nil`
abbrev pub consume_usage :
    Option ActionUsageLimiter → ℕ → ActionType → ℕ → Handler DiscoveryError Db (Unit {0})
consume_usage none user t date db = done tt db
consume_usage (some limiter) user t date db = put_usage db (limiter.consume user t date db.usage)
