-- ===== src/Match/Tests.antt =====
-- internal/match: a match that is ended, and limits.
use dating_app_backend.Prelude.{
  ℕ, ◌+◌, ◌≤◌, ◌≡◌, refl, not, leb, arith, Bool, false, Option, none, some, [], ◌∷◌, Text, codes,
  ok, store_of, done, trim_space,
}
use dating_app_backend.Store.{
  User, user_active, match_active, unmatched, MatchParticipant, conversation_active, Db,
}
use dating_app_backend.Match.Unmatch.{
  Site, UnmatchRequest, normalize_optional_text, end_match, unmatch_tx, unmatch,
}
use dating_app_backend.Match.Closed.{EndedAreClosed, unmatch-EndedAreClosed}
use dating_app_backend.Match.Limit.{digits_value, normalize_list_limit, normalize_list_limit-bounds}
use dating_app_backend.Match.Views.{
  SeenSite, visible_match, open_match, mark_seen, can_view_profile_media,
}
use dating_app_backend.Match.Seen.{first_seen, mark_seen-first_seen}
use dating_app_backend.Match.Age.{Day, age_from_dob, is_earlier, birthday, age_from_dob-birthday}

abbrev member : ℕ → MatchParticipant
member user = record {
  match_id = 3;
  user_id = user;
  seen_at = none;
  last_opened_at = none;
  hidden_at = none;
  updated_at = 10;
}

abbrev matched_db : Db
matched_db = record {
  users = [];
  blocks = [];
  actions = [];
  next_action = 1;
  matches =
      record {
        id = 3;
        uuid = 103;
        user_low_id = 1;
        user_high_id = 2;
        initiated_by_user_id = some 1;
        status = match_active;
        matched_at = 10;
        unmatched_at = none;
        unmatched_by_user_id = none;
        unmatch_reason_code = none;
        unmatch_reason_note = none;
        updated_at = 10;
      }
      ∷ [];
  next_match = 4;
  match_participants = member 1 ∷ member 2 ∷ [];
  conversations =
      record {
        id = 5;
        uuid = 105;
        match_id = 3;
        status = conversation_active;
        last_message_id = none;
        last_message_at = none;
        updated_at = 10;
      }
      ∷ [];
  next_conversation = 6;
  conversation_participants = [];
  messages = [];
  next_message = 1;
  receipts = [];
  usage = [];
  preferences = [];
}

abbrev person : ℕ → User
person id = record { id = id; uuid = 200 + id; status = user_active; deleted_at = none }

abbrev people_db : Db
people_db = record matched_db { users = person 1 ∷ person 2 ∷ [] }

abbrev letter_uuid : Text → Option ℕ
letter_uuid [] = none
letter_uuid (c ∷ s) = some c

abbrev no_faults : Site → Bool
no_faults _ = false

abbrev no_reason : UnmatchRequest
no_reason = record { reason_code = none; reason_note = some (codes " ") }

unmatched_run :
    unmatch letter_uuid no_faults 50 2 (103 ∷ []) no_reason matched_db
    ≡ done
        (record { match_uuid = 103; status = unmatched })
        (store_of (unmatch letter_uuid no_faults 50 2 (103 ∷ []) no_reason matched_db))
unfolding unmatch unmatch_tx end_match normalize_optional_text trim_space
unmatched_run = refl

unmatch-EndedAreClosed_example :
    EndedAreClosed (store_of (unmatch letter_uuid no_faults 50 2 (103 ∷ []) no_reason matched_db))
unmatch-EndedAreClosed_example =
    unmatch-EndedAreClosed letter_uuid no_faults 50 2 (103 ∷ []) no_reason matched_db
      ((λ h. cc), tt)

capped_run : normalize_list_limit (codes "120") ≡ ok 50
unfolding normalize_list_limit digits_value
capped_run = refl

-- 2 ^ 64 + 5 is read as 5.
wrapped_limit : normalize_list_limit (codes "18446744073709551621") ≡ ok 5
unfolding normalize_list_limit digits_value
wrapped_limit = refl

normalize_list_limit-bounds_example : (1 ≤ 50) × (50 ≤ 50)
normalize_list_limit-bounds_example = normalize_list_limit-bounds (codes "120") 50 capped_run

abbrev no_seen_faults : SeenSite → Bool
no_seen_faults _ = false

abbrev seen_db : Db
seen_db = store_of (mark_seen no_seen_faults 40 1 letter_uuid (103 ∷ []) people_db)

-- The match is seen by user 1 at 40; a later call leaves that.
first_seen_run : first_seen 3 1 seen_db ≡ some 40
unfolding mark_seen open_match visible_match trim_space
first_seen_run = refl

mark_seen-first_seen_example :
    first_seen 3 1 (store_of (mark_seen no_seen_faults 90 1 letter_uuid (103 ∷ []) seen_db))
    ≡ some 40
mark_seen-first_seen_example =
    mark_seen-first_seen no_seen_faults 90 1 3 1 40 letter_uuid (103 ∷ []) seen_db first_seen_run

original_run : can_view_profile_media false none 1 2 (codes "ORIGINAL") people_db ≡ false
unfolding can_view_profile_media
original_run = refl

-- Born on a leap day; the birthday of a common year comes with March.
abbrev leap_day : Day
leap_day = record { year = 2004; month = 2; day = 29 }

abbrev last_of_february : Day
last_of_february = record { year = 2022; month = 2; day = 28 }

not_yet_run : age_from_dob leap_day last_of_february ≡ 17
unfolding age_from_dob
not_yet_run = refl

age_run : age_from_dob leap_day (record last_of_february { month = 3; day = 1 }) ≡ 18
unfolding age_from_dob
age_run = refl

age_from_dob-birthday_example :
    leb 18 (age_from_dob leap_day last_of_february)
    ≡ not (is_earlier last_of_february (birthday 18 leap_day))
age_from_dob-birthday_example = age_from_dob-birthday 18 leap_day last_of_february (omega arith)
