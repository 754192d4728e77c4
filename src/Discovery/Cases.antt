-- ===== src/Discovery/Cases.antt =====
-- internal/discovery/action.go: the ways through `CreateAction`.
use dating_app_backend.Prelude.{
  ℕ, ◌≡◌, inl, inr, Bool, true, false, ◌&&◌, Option, none, some, Text, ◌==◌, ◌!=◌, ◌>>=◌, Result,
  ok, Outcome, done, failed, Bool-cases, Option-cases, Result-cases,
}
use dating_app_backend.Store.{ActionType, User, Db, is_blocked_either_direction}
use dating_app_backend.Discovery.Model.{
  DiscoveryError, validation, not_found, action_not_allowed, action_already_exists,
  idempotency_key_conflict, database, CreateActionRequest, NormalizedActionRequest, Recorded,
  Target, ActionUsageLimiter, ActionRecord, same_action, normalize_action_request,
  find_action_by_client_id, find_action_by_pair, user_by_uuid, active_match_for_pair, response_of,
}
use dating_app_backend.Discovery.Matching.{
  Site, find_client, find_user, find_pair, find_block, ensure_preferences, respond_now,
}
use dating_app_backend.Discovery.Actions.{
  Drawn, answer_existing, ensure_discovery_preferences, check_target_discoverable, record_action,
  act_unblocked, act_on, create_normalized, create_action,
}

-- What the guards before the transaction have established.
pub record Admitted (check_target : ℕ → ℕ → Db → Result DiscoveryError Target) (actor : ℕ)
    (req : NormalizedActionRequest) (db : Db) (target : Target) : Type 0 where
  pub user : User
  pub found : user_by_uuid req.target_user_uuid db ≡ some user
  pub other : (actor != user.id) ≡ true
  pub fresh_client : find_action_by_client_id actor req.client_action_id db ≡ none
  pub fresh_pair : find_action_by_pair actor user.id db ≡ none
  pub no_block : is_blocked_either_direction actor user.id db ≡ false
  pub checked :
      check_target actor req.target_user_uuid (ensure_discovery_preferences actor db) ≡ ok target

abbrev pub known_answer : ℕ → ℕ → ActionType → Db → Recorded
known_answer actor target t db = record {
  response = response_of t (active_match_for_pair actor target db);
  new_match_uuid = none;
}

module _ {ℓ} (P : Outcome DiscoveryError Db Recorded → Type ℓ) (db : Db)
    (refused : (e : DiscoveryError) → P (failed e db))
    (known : (actor target : ℕ) (t : ActionType)
      → P (done (known_answer actor target t db) db)) where
  answer_existing_cases :
      (fails same : Bool) (e : DiscoveryError) (a : ActionRecord) (actor : ℕ)
      → P (answer_existing fails same e a actor db)
  answer_existing_cases fails false e a actor = refused e
  answer_existing_cases true true e a actor = refused database
  answer_existing_cases false true e a actor = known actor a.action.target a.action.action_type

  module _ (check_target : ℕ → ℕ → Db → Result DiscoveryError Target) (faults : Site → Bool)
      (limiter : Option ActionUsageLimiter) (drawn : Drawn) (actor : ℕ)
      (req : NormalizedActionRequest)
      (unchecked : (e : DiscoveryError) → P (failed e (ensure_discovery_preferences actor db)))
      (stored : (target : Target)
        → Admitted check_target actor req db target
        → P (
            record_action faults limiter drawn actor req target
              (ensure_discovery_preferences actor db))) where
    check_target_cases :
        (user : User)
        → user_by_uuid req.target_user_uuid db ≡ some user
        → find_action_by_client_id actor req.client_action_id db ≡ none
        → (actor != user.id) ≡ true
        → find_action_by_pair actor user.id db ≡ none
        → is_blocked_either_direction actor user.id db ≡ false
        → P (
            (check_target_discoverable faults limiter drawn actor req check_target
                >>= record_action faults limiter drawn actor req)
              db)
    unfolding check_target_discoverable
    check_target_cases user found fresh n e b = elim (Bool-cases (faults ensure_preferences)) [
      | inl f ↦ rw (f, check_target_discoverable, ◌>>=◌) (refused database)
      | inr f ↦
          elim (Result-cases
            (check_target actor req.target_user_uuid (ensure_discovery_preferences actor db))) [
              | inr (r, q) ↦ rw (f, check_target_discoverable, ◌>>=◌) (rw q (unchecked r))
              | inl (target, q) ↦
                  rw (f, check_target_discoverable, ◌>>=◌)
                    (rw q (
                      stored target (record {
                        user = user;
                        found = found;
                        other = n;
                        fresh_client = fresh;
                        fresh_pair = e;
                        no_block = b;
                        checked = q;
                      })))
            ]
    ]

    act_unblocked_cases :
        (user : User)
        → user_by_uuid req.target_user_uuid db ≡ some user
        → find_action_by_client_id actor req.client_action_id db ≡ none
        → (actor != user.id) ≡ true
        → find_action_by_pair actor user.id db ≡ none
        → P (act_unblocked faults limiter drawn actor req check_target user db)
    unfolding act_unblocked
    act_unblocked_cases user found fresh n e = elim (Bool-cases (faults find_block)) [
      | inl f ↦ rw (f, act_unblocked) (refused database)
      | inr f ↦
          rw (f, act_unblocked)
            (elim (Bool-cases (is_blocked_either_direction actor user.id db)) [
              | inl b ↦ rw b (refused action_not_allowed)
              | inr b ↦ rw b (check_target_cases user found fresh n e b)
            ])
    ]

    act_on_cases :
        (user : User)
        → user_by_uuid req.target_user_uuid db ≡ some user
        → find_action_by_client_id actor req.client_action_id db ≡ none
        → P (act_on faults limiter drawn actor req check_target user db)
    unfolding act_on
    act_on_cases user found fresh = elim (Bool-cases (actor != user.id)) [
      | inr n ↦ rw (n, act_on) (refused validation)
      | inl n ↦
          rw (n, act_on)
            (elim (Bool-cases (faults find_pair)) [
              | inl f ↦ rw f (refused database)
              | inr f ↦ rw f (elim (Option-cases (find_action_by_pair actor user.id db)) [
                | inr (a, e) ↦
                    rw (e, ◌>>=◌)
                      (answer_existing_cases (faults respond_now)
                        (same_action a.action.action_type req.action_type) action_already_exists a
                        actor)
                | inl e ↦ rw (e, ◌>>=◌) (act_unblocked_cases user found fresh n e)
              ])
            ])
    ]

    create_normalized_cases : P (create_normalized faults limiter drawn actor req check_target db)
    unfolding create_normalized
    create_normalized_cases = elim (Bool-cases (faults find_client)) [
      | inl f ↦ rw (f, create_normalized) (refused database)
      | inr f ↦
          rw (f, create_normalized)
            (elim (Option-cases (find_action_by_client_id actor req.client_action_id db)) [
              | inr (a, e) ↦
                  rw (e, ◌>>=◌)
                    (answer_existing_cases (faults respond_now)
                      (a.target_user_uuid == req.target_user_uuid
                        && same_action a.action.action_type req.action_type)
                      idempotency_key_conflict a actor)
              | inl e ↦
                  rw (e, ◌>>=◌)
                    (elim (Bool-cases (faults find_user)) [
                      | inl g ↦ rw g (refused database)
                      | inr g ↦ rw g (elim (Option-cases (user_by_uuid req.target_user_uuid db)) [
                        | inl u ↦ rw u (refused not_found)
                        | inr (user, u) ↦ rw u (act_on_cases user u e)
                      ])
                    ])
            ])
    ]

  -- A refusal or a known answer leaves the store, a target that is not discoverable with the actor's
  -- row of preferences; else the transaction runs, with the guards passed.
  pub create_cases :
      (parse_uuid : Text → Option ℕ) (check_target : ℕ → ℕ → Db → Result DiscoveryError Target)
      (faults : Site → Bool) (limiter : Option ActionUsageLimiter) (drawn : Drawn) (actor : ℕ)
      (raw : CreateActionRequest)
      → ((e : DiscoveryError) → P (failed e (ensure_discovery_preferences actor db)))
      → ((req : NormalizedActionRequest) (target : Target)
          → normalize_action_request parse_uuid raw ≡ ok req
          → Admitted check_target actor req db target
          → P (
              record_action faults limiter drawn actor req target
                (ensure_discovery_preferences actor db)))
      → P (create_action parse_uuid check_target faults limiter drawn actor raw db)
  unfolding create_action
  create_cases parse_uuid check_target faults limiter drawn actor raw unchecked stored =
      elim (Result-cases (normalize_action_request parse_uuid raw)) [
        | inr (e, q) ↦ rw (q, create_action) (refused e)
        | inl (req, q) ↦
            rw (q, create_action)
              (create_normalized_cases check_target faults limiter drawn actor req unchecked
                (λ target. stored req target q))
      ]
