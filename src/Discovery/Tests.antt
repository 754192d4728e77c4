-- ===== src/Discovery/Tests.antt =====
-- internal/discovery/action.go: a like that is answered.
use dating_app_backend.Prelude.{
  ℕ, ◌≡◌, refl, ◌⊎◌, Bool, true, false, Option, none, some, [], ◌∷◌, Text, codes, trim_space,
  to_upper, Result, ok, err, done, failed, store_of,
}
use dating_app_backend.Store.{
  manual, User, user_active, like, super_like, Db, Match, match_active, ordered_pair,
  is_blocked_either_direction,
}
use dating_app_backend.Discovery.Model.{
  DiscoveryError, target_not_discoverable, database, CreateActionRequest, NormalizedActionRequest,
  Target, Recorded, user_by_uuid, normalize_action_request, parse_action_type,
  active_match_for_pair,
}
use dating_app_backend.Discovery.Matching.{Site, commit, attach_match, ensure_match}
use dating_app_backend.Discovery.Actions.{
  Drawn, create_action, create_normalized, act_on, act_unblocked, check_target_discoverable,
  ensure_discovery_preferences, record_action, action_tx, store_action, match_if_mutual,
}
use dating_app_backend.Discovery.Mutual.{MutualMatches, NamesUser, create_action-MutualMatches}
use dating_app_backend.Discovery.LateBlock.{late_block_matches}
use dating_app_backend.Discovery.Answers.{create_action_atomic, create_action_announces, Announced}

abbrev ann : User
ann = record { id = 1; uuid = 101; status = user_active; deleted_at = none }

abbrev bob : User
bob = record { id = 2; uuid = 102; status = user_active; deleted_at = none }

abbrev empty_db : Db
empty_db = record {
  users = ann ∷ bob ∷ [];
  blocks = [];
  actions = [];
  next_action = 1;
  matches = [];
  next_match = 1;
  match_participants = [];
  conversations = [];
  next_conversation = 1;
  conversation_participants = [];
  messages = [];
  next_message = 1;
  receipts = [];
  usage = [];
  preferences = [];
}

-- Bob likes Ann.
abbrev liked_db : Db
liked_db = record empty_db {
  actions =
      record {
        id = 1;
        actor = 2;
        target = 1;
        action_type = super_like;
        client_action_id = 5;
        action_date = 3;
        target_distance_meters = 40;
      }
      ∷ [];
  next_action = 2;
}

-- Uuids that are one letter.
abbrev letter_uuid : Text → Option ℕ
letter_uuid [] = none
letter_uuid (c ∷ []) = some c
letter_uuid (c ∷ d ∷ s) = none

abbrev target_of : Option User → Result DiscoveryError Target
target_of none = err target_not_discoverable
target_of (some u) = ok (record { target_user_id = u.id; distance_meters = 40 })

abbrev any_user : ℕ → ℕ → Db → Result DiscoveryError Target
any_user viewer uuid db = target_of (user_by_uuid uuid db)

target_of-id :
    (o : Option User) (t : Target) (u : User)
    → target_of o ≡ ok t
    → o ≡ some u
    → t.target_user_id ≡ u.id
target_of-id none t u h e = cc
target_of-id (some v) t u h e = cc

any_user-NamesUser : NamesUser any_user
any_user-NamesUser viewer uuid db t u h e = target_of-id (user_by_uuid uuid db) t u h e

abbrev like_bob : CreateActionRequest
like_bob = record {
  target_user_uuid = 102 ∷ [];
  action_type = codes " like";
  client_action_id = 99 ∷ [];
}

abbrev drawn : Drawn
drawn = record { now = 1000; action_date = 4; match_uuid = 21; conversation_uuid = 31 }

abbrev no_faults : Site → Bool
no_faults _ = false

abbrev commit_fault : Site → Bool
commit_fault commit = true
commit_fault _ = false

abbrev matched_answer : Recorded
matched_answer = record {
  response = record {
    action_type = like;
    matched = true;
    found_match = some (record { match_uuid = 21; matched_at = 1000 });
  };
  new_match_uuid = some 21;
}

matched_run :
    create_action letter_uuid any_user no_faults none drawn 1 like_bob liked_db
    ≡ done matched_answer
        (store_of (create_action letter_uuid any_user no_faults none drawn 1 like_bob liked_db))
unfolding create_action create_normalized act_on act_unblocked check_target_discoverable
    record_action action_tx store_action match_if_mutual ensure_match attach_match
    normalize_action_request parse_action_type ordered_pair trim_space to_upper
matched_run = refl

create_action-MutualMatches_example :
    MutualMatches
      (store_of (create_action letter_uuid any_user no_faults none drawn 1 like_bob empty_db))
create_action-MutualMatches_example =
    create_action-MutualMatches letter_uuid any_user no_faults none drawn 1 like_bob empty_db
      any_user-NamesUser (λ a b l. refl)

aborted_run :
    create_action letter_uuid any_user commit_fault none drawn 1 like_bob liked_db
    ≡ failed database (ensure_discovery_preferences 1 liked_db)
unfolding create_action create_normalized act_on act_unblocked check_target_discoverable
    record_action action_tx store_action match_if_mutual ensure_match attach_match
    normalize_action_request parse_action_type ordered_pair trim_space to_upper
aborted_run = refl

create_action_atomic_example :
    (ensure_discovery_preferences 1 liked_db ≡ liked_db)
    ⊎ (ensure_discovery_preferences 1 liked_db ≡ ensure_discovery_preferences 1 liked_db)
create_action_atomic_example =
    create_action_atomic letter_uuid any_user commit_fault none drawn 1 like_bob liked_db
      (ensure_discovery_preferences 1 liked_db) database aborted_run

create_action_announces_example :
    Announced letter_uuid any_user no_faults none drawn 1 like_bob liked_db
      (store_of (create_action letter_uuid any_user no_faults none drawn 1 like_bob liked_db))
      matched_answer
      21
create_action_announces_example =
    create_action_announces letter_uuid any_user no_faults none drawn 1 like_bob liked_db
      (store_of (create_action letter_uuid any_user no_faults none drawn 1 like_bob liked_db))
      matched_answer 21 matched_run refl

-- Bob has blocked Ann after his like.
abbrev blocked_db : Db
blocked_db = record liked_db {
  blocks =
      record {
        blocker = 2;
        blocked = 1;
        reason_code = none;
        remark = none;
        source = manual;
        report_id = none;
      }
      ∷ [];
}

abbrev like_of_bob : NormalizedActionRequest
like_of_bob = record { target_user_uuid = 102; action_type = like; client_action_id = 99 }

abbrev bob_target : Target
bob_target = record { target_user_id = 2; distance_meters = 40 }

late_block_matches_example :
    (r : Recorded) × (s : Db) × (record_action no_faults none drawn 1 like_of_bob bob_target
        blocked_db
      ≡ done r s)
    × (r.new_match_uuid ≡ some 21)
    × (is_blocked_either_direction 1 2 s ≡ true)
    × (m : Match) × (active_match_for_pair 1 2 s ≡ some m)
    × (m.uuid ≡ 21)
    × (m.status ≡ match_active)
unfolding ordered_pair
late_block_matches_example =
    late_block_matches drawn 1 like_of_bob bob_target blocked_db refl refl refl refl refl refl
