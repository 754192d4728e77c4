-- ===== src/Discovery/Answers.antt =====
-- internal/discovery/action.go: what `CreateAction` answers.
use dating_app_backend.Prelude.{
  ℕ, ◌≡◌, refl, ap, ◌⊎◌, inl, inr, Bool, true, false, not, ◌&&◌, Option, some, is_some, done,
  failed, Bool-cases, find_first, arith, transaction_error, transaction-done, query-done, Text,
  Result, ==_refl,
}
use dating_app_backend.Store.{Db, Match, is_pair, ordered_pair}
use dating_app_backend.Discovery.Model.{
  DiscoveryError, database, CreateActionRequest, NormalizedActionRequest, Recorded, Target,
  ActionUsageLimiter, is_positive, likes, active_match_for_pair,
}
use dating_app_backend.Discovery.Matching.{Site, commit, new_match}
use dating_app_backend.Discovery.Actions.{
  Drawn, insert_new_action, action_tx, record_action, create_action, ensure_discovery_preferences,
}
use dating_app_backend.Discovery.Cases.{known_answer, create_cases}
use dating_app_backend.Discovery.Stored.{Stored, makes_match}
use dating_app_backend.Discovery.Mutual.{action_tx-done}

both : (p l f : Bool) → (p && (l && not f)) ≡ true → (p ≡ true) × (l ≡ true) × (f ≡ false)
both p l f h = (ground arith, ground arith, ground arith)

module _ (parse_uuid : Text → Option ℕ) (check_target : ℕ → ℕ → Db → Result DiscoveryError Target)
    (faults : Site → Bool) (limiter : Option ActionUsageLimiter) (drawn : Drawn) (actor : ℕ)
    (raw : CreateActionRequest) where
  -- A call of `CreateAction` that ends with an error has changed nothing, usage counters included, but
  -- for one row that it may have left: the preferences of the actor, which the check of the target
  -- inserts, outside the transaction, where there are none.
  pub create_action_atomic :
      (db db' : Db) (e : DiscoveryError)
      → create_action parse_uuid check_target faults limiter drawn actor raw db ≡ failed e db'
      → (db' ≡ db) ⊎ (db' ≡ ensure_discovery_preferences actor db)
  unfolding record_action
  create_action_atomic db db' e =
      create_cases
        (λ o. o ≡ failed e db' → (db' ≡ db) ⊎ (db' ≡ ensure_discovery_preferences actor db)) db
        (λ e h. inl cc) (λ _ _ _ h. cc) parse_uuid check_target faults limiter drawn actor raw
        (λ e h. inr cc)
        (λ req target _ _ h. inr (
          transaction_error (faults commit) database
            (action_tx faults limiter drawn actor req target)
            (ensure_discovery_preferences actor db) h))

  -- A match that is handed to the notifications.
  pub record Announced (db db' : Db) (r : Recorded) (uuid : ℕ) : Type 0 where
    pub target : ℕ
    pub had_none :
        let pair = ordered_pair actor target in
        is_some (find_first (is_pair pair.0 pair.1) db.matches) ≡ false
    pub answered_like : likes target actor db' ≡ true
    pub own_like : likes actor target db' ≡ true
    pub found : Match
    pub is_there : active_match_for_pair actor target db' ≡ some found
    pub uuid_is : found.uuid ≡ uuid
    pub matched : r.response.matched ≡ true
    pub shown :
        r.response.found_match
        ≡ some (record { match_uuid = found.uuid; matched_at = found.matched_at })

  Stored-Announced :
      (req : NormalizedActionRequest) (target : Target) (db db' : Db) (r : Recorded) (uuid : ℕ)
      → Stored faults limiter drawn actor req target db db' r
      → r.new_match_uuid ≡ some uuid
      → Announced db db' r uuid
  Stored-Announced req target db db' r uuid k h =
      elim (Bool-cases (makes_match faults limiter drawn actor req target db)) [
        | inr m ↦ (let n = rw m at k.notified in cc)
        | inl m ↦
            let pair = ordered_pair actor target.target_user_id in
            let added = new_match db.next_match drawn.match_uuid pair.0 pair.1 actor drawn.now in
            let (pos, liked, fresh) =
              both (is_positive req.action_type)
                (likes target.target_user_id actor (insert_new_action actor target req drawn db))
                (is_some (find_first (is_pair pair.0 pair.1) db.matches)) m in
            let there : active_match_for_pair actor target.target_user_id db' ≡ some added =
              rw (k.match_added, m, ==_refl pair.0, ==_refl pair.1) refl in
            record {
              target = target.target_user_id;
              had_none = fresh;
              answered_like = rw k.action_added liked;
              own_like =
                  rw (k.action_added, ==_refl actor, ==_refl target.target_user_id, pos) refl;
              found = added;
              is_there = there;
              uuid_is = (let n = rw m at k.notified in cc);
              matched = rw (k.answered, there) refl;
              shown = rw (k.answered, there) refl;
            }
      ]

  record_action-Announced :
      (req : NormalizedActionRequest) (target : Target) (db db' : Db) (r : Recorded) (uuid : ℕ)
      → record_action faults limiter drawn actor req target db ≡ done r db'
      → r.new_match_uuid ≡ some uuid
      → Announced db db' r uuid
  unfolding record_action
  record_action-Announced req target db db' r uuid h n =
      let body = action_tx faults limiter drawn actor req target in
      elim (action_tx-done faults limiter drawn actor req target db db' r
        (transaction-done (faults commit) database body db h)) [
          | inl e ↦ (let a = e.1 in cc)
          | inr k ↦ Stored-Announced req target db db' r uuid k n
        ]

  kept_preferences :
      (db db' : Db) (r : Recorded) (uuid : ℕ)
      → Announced (ensure_discovery_preferences actor db) db' r uuid
      → Announced db db' r uuid
  kept_preferences db db' r uuid a = record {
    target = a.target;
    had_none = a.had_none;
    answered_like = a.answered_like;
    own_like = a.own_like;
    found = a.found;
    is_there = a.is_there;
    uuid_is = a.uuid_is;
    matched = a.matched;
    shown = a.shown;
  }

  -- When `CreateAction` hands a match to the notifications, the two users have a positive action
  -- each, had no match before, and have this one now, active; the answer shows it.
  pub create_action_announces :
      (db db' : Db) (r : Recorded) (uuid : ℕ)
      → create_action parse_uuid check_target faults limiter drawn actor raw db ≡ done r db'
      → r.new_match_uuid ≡ some uuid
      → Announced db db' r uuid
  create_action_announces db db' r uuid =
      create_cases (λ o. o ≡ done r db' → r.new_match_uuid ≡ some uuid → Announced db db' r uuid) db
        (λ e h n. cc)
        (λ a t k h n.
          let q = query-done false database (known_answer a t k) db h in
          (let p = ap (λ (x : Recorded). x.new_match_uuid) q.0 in cc))
        parse_uuid check_target faults limiter drawn actor raw (λ e h n. cc)
        (λ req target _ _ h n. kept_preferences db db' r uuid (
          record_action-Announced req target (ensure_discovery_preferences actor db) db' r uuid h
            n))
