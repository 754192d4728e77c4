-- ===== src/Discovery/Actions.antt =====
-- internal/discovery/action.go: `CreateAction`.
use dating_app_backend.Prelude.{
  ℕ, ◌+◌, Bool, false, not, ◌&&◌, Option, none, some, Text, ◌∷◌, if◌then◌else◌, ◌==◌, ◌!=◌, exists,
  Handler, Result, pure, throw, lift, query, exec, require, or_throw, transaction, ◌>>=◌, ◌>>◌,
}
use dating_app_backend.Store.{
  ActionType, Action, User, Db, ordered_pair, is_blocked_either_direction,
}
use dating_app_backend.Discovery.Model.{
  DiscoveryError, validation, not_found, action_not_allowed, action_already_exists,
  idempotency_key_conflict, database, CreateActionRequest, NormalizedActionRequest, Recorded,
  Target, ActionUsageLimiter, ActionRecord, same_action, is_positive, normalize_action_request,
  find_action_by_client_id, find_action_by_pair, likes, user_by_uuid, active_match_for_pair,
  response_of, consume_usage,
}
use dating_app_backend.Discovery.Matching.{
  Site, find_client, find_user, find_pair, find_block, ensure_preferences, respond_now, lock_pair,
  find_client_tx, find_pair_tx, insert_action, find_reciprocal, respond_tx, commit, ensure_match,
}

-- The clock and the uuids that the database draws, for one call.
pub record Drawn : Type 0 where
  pub now : ℕ
  pub action_date : ℕ
  pub match_uuid : ℕ
  pub conversation_uuid : ℕ

abbrev pub new_action : ℕ → ℕ → Target → NormalizedActionRequest → Drawn → Action
new_action id actor target req drawn = record {
  id = id;
  actor = actor;
  target = target.target_user_id;
  action_type = req.action_type;
  client_action_id = req.client_action_id;
  action_date = drawn.action_date;
  target_distance_meters = target.distance_meters;
}

abbrev pub insert_new_action : ℕ → Target → NormalizedActionRequest → Drawn → Db → Db
insert_new_action actor target req drawn db = record db {
  actions = new_action db.next_action actor target req drawn ∷ db.actions;
  next_action = db.next_action + 1;
}

-- `EnsureDiscoveryPreferences`: `INSERT ... ON CONFLICT (user_id) DO NOTHING`
abbrev pub ensure_discovery_preferences : ℕ → Db → Db
ensure_discovery_preferences user db = record db {
  preferences =
      if exists (λ (u : ℕ). u == user) db.preferences
      then db.preferences
      else user ∷ db.preferences;
}

-- `actionResponseForPair`
abbrev pub respond : Bool → Option ℕ → ActionType → ℕ → ℕ → Handler DiscoveryError Db Recorded
respond fails new t actor target = do
  m ← query fails database (active_match_for_pair actor target)
  pure (record { response = response_of t m; new_match_uuid = new })

-- The answer to a repeated client id or pair.
abbrev pub answer_existing :
    Bool → Bool → DiscoveryError → ActionRecord → ℕ → Handler DiscoveryError Db Recorded
answer_existing fails same e existing actor =
    if not same
    then throw e
    else respond fails none existing.action.action_type actor existing.action.target

module _ (faults : Site → Bool) (limiter : Option ActionUsageLimiter) (drawn : Drawn) (actor : ℕ)
    (req : NormalizedActionRequest) where
  -- `if hasReciprocal { s.ensureMatchTx(...) }`, of a positive action.
  unfoldable pub match_if_mutual : Target → Handler DiscoveryError Db (Option ℕ)
  match_if_mutual target = do
    reciprocal ← query (faults find_reciprocal) database (likes target.target_user_id actor)
    if reciprocal
        then (let pair = ordered_pair actor target.target_user_id in
            ensure_match faults drawn.match_uuid drawn.conversation_uuid pair.0 pair.1 actor
              drawn.now)
        else pure none

  abbrev pub match_if_positive : Target → Handler DiscoveryError Db (Option ℕ)
  match_if_positive target =
      if is_positive req.action_type then match_if_mutual target else pure none

  abbrev pub count_usage : Handler DiscoveryError Db (Unit {0})
  count_usage =
      if is_positive req.action_type
      then consume_usage limiter actor req.action_type drawn.action_date
      else pure tt

  -- From the usage limit on: the action is new.
  unfoldable pub store_action : Target → Handler DiscoveryError Db Recorded
  store_action target = do
    count_usage
    exec (faults insert_action) database (insert_new_action actor target req drawn)
    new ← match_if_positive target
    respond (faults respond_tx) new req.action_type actor target.target_user_id

  -- The body of the transaction.
  unfoldable pub action_tx : Target → Handler DiscoveryError Db Recorded
  action_tx target = do
    exec (faults lock_pair) database (λ db. db)
    by_client ←
        query (faults find_client_tx) database (find_action_by_client_id actor req.client_action_id)
    elim by_client [
      | some a ↦
          answer_existing (faults respond_tx)
            (a.action.target == target.target_user_id
              && same_action a.action.action_type req.action_type)
            idempotency_key_conflict a actor
      | none ↦ (do
        by_pair ←
            query (faults find_pair_tx) database (find_action_by_pair actor target.target_user_id)
        elim by_pair [
          | some a ↦
              answer_existing (faults respond_tx) (same_action a.action.action_type req.action_type)
                action_already_exists a actor
          | none ↦ store_action target
        ])
    ]

  unfoldable pub record_action : Target → Handler DiscoveryError Db Recorded
  record_action target = transaction (faults commit) database (action_tx target)

  -- `CheckTargetDiscoverable`: the insert of `Readiness`, outside any transaction, then its queries.
  unfoldable pub check_target_discoverable :
      (ℕ → ℕ → Db → Result DiscoveryError Target) → Handler DiscoveryError Db Target
  check_target_discoverable check_target = do
    exec (faults ensure_preferences) database (ensure_discovery_preferences actor)
    checked ← query false database (check_target actor req.target_user_uuid)
    lift checked

  -- The block, the check of the target, the transaction. `check_target` is what the queries of
  -- `CheckTargetDiscoverable` answer, those of `Readiness` included.
  unfoldable pub act_unblocked :
      (ℕ → ℕ → Db → Result DiscoveryError Target) → User → Handler DiscoveryError Db Recorded
  act_unblocked check_target user = do
    blocked ← query (faults find_block) database (is_blocked_either_direction actor user.id)
    require (not blocked) action_not_allowed
    target ← check_target_discoverable check_target
    record_action target

  -- From the lookup of the target on: not oneself, and no action yet.
  unfoldable pub act_on :
      (ℕ → ℕ → Db → Result DiscoveryError Target) → User → Handler DiscoveryError Db Recorded
  act_on check_target user = do
    require (actor != user.id) validation
    by_pair ← query (faults find_pair) database (find_action_by_pair actor user.id)
    elim by_pair [
      | some a ↦
          answer_existing (faults respond_now) (same_action a.action.action_type req.action_type)
            action_already_exists a actor
      | none ↦ act_unblocked check_target user
    ]

  unfoldable pub create_normalized :
      (ℕ → ℕ → Db → Result DiscoveryError Target) → Handler DiscoveryError Db Recorded
  create_normalized check_target = do
    by_client ←
        query (faults find_client) database (find_action_by_client_id actor req.client_action_id)
    elim by_client [
      | some a ↦
          answer_existing (faults respond_now)
            (a.target_user_uuid == req.target_user_uuid
              && same_action a.action.action_type req.action_type)
            idempotency_key_conflict a actor
      | none ↦ (do
        found ← query (faults find_user) database (user_by_uuid req.target_user_uuid)
        user ← or_throw found not_found
        act_on check_target user)
    ]

unfoldable pub create_action :
    (Text → Option ℕ)
    → (ℕ → ℕ → Db → Result DiscoveryError Target)
    → (Site → Bool)
    → Option ActionUsageLimiter
    → Drawn
    → ℕ
    → CreateActionRequest
    → Handler DiscoveryError Db Recorded
create_action parse_uuid check_target faults limiter drawn actor raw = do
  req ← lift (normalize_action_request parse_uuid raw)
  create_normalized faults limiter drawn actor req check_target
