-- ===== src/Discovery/Mutual.antt =====
-- internal/discovery/action.go: matches and mutual likes.
use dating_app_backend.Prelude.{
  ℕ, ◌<◌, ◌≡◌, ◌≢◌, ◌⊎◌, sym, ap, ◌∙◌, inl, inr, Bool, true, false, ◌&&◌, Option, none, some,
  is_some, ◌==◌, ◌>>=◌, done, Bool-cases, Option-cases, find_first, arith, store_of, subst,
  query-done, transaction-Leaves, Text, Result, Leaves, ok, ◌!=◌,
}
use dating_app_backend.Store.{Db, User, is_pair, ordered_pair}
use dating_app_backend.Discovery.Model.{
  DiscoveryError, database, CreateActionRequest, NormalizedActionRequest, Recorded, Target,
  ActionUsageLimiter, ActionRecord, is_positive, likes, find_action_by_client_id,
  find_action_by_pair, action_already_exists, idempotency_key_conflict, same_action, user_by_uuid,
}
use dating_app_backend.Discovery.Matching.{
  Site, lock_pair, find_client_tx, find_pair_tx, respond_tx, commit, new_match,
}
use dating_app_backend.Discovery.Actions.{
  Drawn, answer_existing, action_tx, record_action, create_action, ensure_discovery_preferences,
}
use dating_app_backend.Discovery.Cases.{known_answer, create_cases}
use dating_app_backend.Discovery.Pairs.{is_some-find_first, balanced}
use dating_app_backend.Discovery.Stored.{Stored, makes_match, store_action-done}

-- A pair has a match if and only if each has a positive action towards the other.
abbrev pub MutualMatches : Db → Type 0
MutualMatches db =
    (a b : ℕ)
    → a < b
    → is_some (find_first (is_pair a b) db.matches) ≡ (likes a b db && likes b a db)

answer_existing-done :
    (fails same : Bool) (e : DiscoveryError) (a : ActionRecord) (actor : ℕ) (db db' : Db)
    (r : Recorded)
    → answer_existing fails same e a actor db ≡ done r db'
    → (db' ≡ db) × (r.new_match_uuid ≡ none)
answer_existing-done fails false e a actor db db' r h = cc
answer_existing-done true true e a actor db db' r h = cc
answer_existing-done false true e a actor db db' r h =
    let (q, p) =
      query-done false database (known_answer actor a.action.target a.action.action_type) db h in
    (p, ap (λ (x : Recorded). x.new_match_uuid) q)

other_user : (actor user target : ℕ) → (actor != user) ≡ true → target ≡ user → actor ≢ target
other_user actor user target h e = ground arith

module _ (faults : Site → Bool) (limiter : Option ActionUsageLimiter) (drawn : Drawn) (actor : ℕ)
    (req : NormalizedActionRequest) (target : Target) where
  -- A good end of the transaction: an answer that writes nothing, or a new action.
  pub action_tx-done :
      (db db' : Db) (r : Recorded)
      → action_tx faults limiter drawn actor req target db ≡ done r db'
      → ((db' ≡ db) × (r.new_match_uuid ≡ none))
        ⊎ Stored faults limiter drawn actor req target db db' r
  unfolding action_tx
  action_tx-done db db' r h = elim (Bool-cases (faults lock_pair)) [
    | inl f ↦ cc
    | inr f ↦ elim (Bool-cases (faults find_client_tx)) [
      | inl g ↦ cc
      | inr g ↦ elim (Option-cases (find_action_by_client_id actor req.client_action_id db)) [
        | inr (a, e) ↦ inl (
            answer_existing-done (faults respond_tx)
              (a.action.target == target.target_user_id
                && same_action a.action.action_type req.action_type)
              idempotency_key_conflict a actor db db' r (rw (f, g, e, ◌>>=◌) at h))
        | inl e ↦ elim (Bool-cases (faults find_pair_tx)) [
          | inl k ↦ cc
          | inr k ↦ elim (Option-cases (find_action_by_pair actor target.target_user_id db)) [
            | inr (a, q) ↦ inl (
                answer_existing-done (faults respond_tx)
                  (same_action a.action.action_type req.action_type) action_already_exists a actor
                  db db' r (rw (f, g, e, k, q, ◌>>=◌) at h))
            | inl q ↦ inr (
                store_action-done faults limiter drawn actor req target db db' r
                  (rw (f, g, e, k, q, ◌>>=◌) at h))
          ]
        ]
      ]
    ]
  ]

  Stored-MutualMatches :
      (db db' : Db) (r : Recorded)
      → actor ≢ target.target_user_id
      → Stored faults limiter drawn actor req target db db' r
      → MutualMatches db
      → MutualMatches db'
  Stored-MutualMatches db db' r n k inv a b l =
      let pair = ordered_pair actor target.target_user_id in
      rw (k.match_added, k.action_added)
        (is_some-find_first (is_pair a b) (makes_match faults limiter drawn actor req target db)
            (new_match db.next_match drawn.match_uuid pair.0 pair.1 actor drawn.now) db.matches
          ∙ balanced (λ x y. is_some (find_first (is_pair x y) db.matches)) (λ x y. likes x y db)
              actor target.target_user_id (is_positive req.action_type) inv n a b l)

  -- The transaction keeps the invariant from every store that has it, whatever happened since the
  -- guards ran.
  pub record_action-MutualMatches :
      (db : Db)
      → actor ≢ target.target_user_id
      → MutualMatches db
      → MutualMatches (store_of (record_action faults limiter drawn actor req target db))
  unfolding record_action
  record_action-MutualMatches db n inv =
      transaction-Leaves MutualMatches (faults commit) database
        (action_tx faults limiter drawn actor req target) db inv
        (λ r db' h. elim (action_tx-done db db' r h) [
          | inl e ↦ subst MutualMatches (sym e.0) inv
          | inr k ↦ Stored-MutualMatches db db' r n k inv
        ])

-- `CheckTargetDiscoverable` answers with the user who has the uuid that it was asked about.
abbrev pub NamesUser : (ℕ → ℕ → Db → Result DiscoveryError Target) → Type 0
NamesUser check_target =
    (viewer uuid : ℕ) (db : Db) (target : Target) (user : User)
    → check_target viewer uuid db ≡ ok target
    → user_by_uuid uuid db ≡ some user
    → target.target_user_id ≡ user.id

-- If the pairs with a match are those that like each other, they still are after a call of
-- `CreateAction`, however it ends, where `CheckTargetDiscoverable` names the user it was asked about.
pub create_action-MutualMatches :
    (parse_uuid : Text → Option ℕ) (check_target : ℕ → ℕ → Db → Result DiscoveryError Target)
    (faults : Site → Bool) (limiter : Option ActionUsageLimiter) (drawn : Drawn) (actor : ℕ)
    (raw : CreateActionRequest) (db : Db)
    → NamesUser check_target
    → MutualMatches db
    → MutualMatches
        (store_of (create_action parse_uuid check_target faults limiter drawn actor raw db))
create_action-MutualMatches parse_uuid check_target faults limiter drawn actor raw db names inv =
    create_cases (Leaves MutualMatches) db (λ e. inv) (λ _ _ _. inv) parse_uuid check_target faults
      limiter drawn actor raw (λ e. inv)
      (λ req target _ k.
        record_action-MutualMatches faults limiter drawn actor req target
          (ensure_discovery_preferences actor db)
          (other_user actor k.user.id target.target_user_id k.other (
            names actor req.target_user_uuid (ensure_discovery_preferences actor db) target k.user
              k.checked k.found))
          inv)
