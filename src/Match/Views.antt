-- ===== src/Match/Views.antt =====
-- internal/match/service.go: `MarkSeen` with `visibleActiveMatchByUUID`, and `CanViewProfileMedia`.
use dating_app_backend.Prelude.{
  ℕ, Bool, true, false, not, ◌&&◌, ◌||◌, Option, none, some, Text, codes, text_eq, trim_space,
  if◌then◌else◌, ◌==◌, is_none, or_else, exists, find_first, update_where, Handler, done, failed,
  query, or_throw, ◌>>=◌,
}
use dating_app_backend.Store.{
  User, Match, MatchParticipant, Db, is_active_match, is_active_user, user_by_id, other_member,
  is_member, is_blocked_either_direction,
}
use dating_app_backend.Match.Unmatch.{MatchError, validation, not_found, database}

pub data SeenSite : Type 0 where
  read_match set_seen : SeenSite

abbrev pub is_live : Option User → Bool
is_live none = false
is_live (some u) = is_active_user u

abbrev pub is_participant : ℕ → ℕ → MatchParticipant → Bool
is_participant id user p = p.match_id == id && p.user_id == user

-- The joins and conditions of `baseMatchRowsSQL`.
abbrev pub is_visible_match : ℕ → Db → Match → Bool
is_visible_match user db m =
    exists (λ (p : MatchParticipant). is_participant m.id user p && is_none p.hidden_at)
      db.match_participants
    && is_active_match m.status
    && is_member user m
    && is_live (user_by_id (other_member user m) db)
    && not (is_blocked_either_direction user (other_member user m) db)

-- `visibleActiveMatchByUUID`
unfoldable pub visible_match : ℕ → ℕ → Db → Option Match
visible_match user uuid db =
    find_first (λ (m : Match). m.uuid == uuid && is_visible_match user db m) db.matches

pub record MarkSeenResponse : Type 0 where
  pub match_uuid : ℕ
  pub seen_at : Option ℕ
  pub last_opened_at : ℕ

abbrev pub as_opened : ℕ → MatchParticipant → MatchParticipant
as_opened now p = record p {
  seen_at = some (or_else p.seen_at now);
  last_opened_at = some now;
  updated_at = now;
}

abbrev pub participant_of : ℕ → ℕ → Db → Option MatchParticipant
participant_of id user db = find_first (is_participant id user) db.match_participants

-- The answer, from the row that the update returns.
abbrev pub seen_answer : ℕ → Match → Option MatchParticipant → MarkSeenResponse
seen_answer now m none = record { match_uuid = m.uuid; seen_at = none; last_opened_at = now }
seen_answer now m (some p) = record {
  match_uuid = m.uuid;
  seen_at = p.seen_at;
  last_opened_at = or_else p.last_opened_at now;
}

module _ (faults : SeenSite → Bool) (now user : ℕ) where
  abbrev pub opened_db : Match → Db → Db
  opened_db m db = record db {
    match_participants =
        update_where (is_participant m.id user) (as_opened now) db.match_participants;
  }

  unfoldable pub open_match : Option Match → Handler MatchError Db MarkSeenResponse
  open_match none db = failed not_found db
  open_match (some m) db =
      if faults set_seen
      then failed database db
      else (let db' = opened_db m db in done (seen_answer now m (participant_of m.id user db')) db')

  -- `MarkSeen`
  unfoldable pub mark_seen : (Text → Option ℕ) → Text → Handler MatchError Db MarkSeenResponse
  mark_seen parse_uuid raw = do
    uuid ← or_throw (parse_uuid (trim_space raw)) validation
    found ← query (faults read_match) database (visible_match user uuid)
    open_match found

-- The match that shows one user the media of the other.
abbrev pub shows_media : ℕ → ℕ → Db → Match → Bool
shows_media viewer owner db m =
    exists (λ (p : MatchParticipant). is_participant m.id viewer p && is_none p.hidden_at)
      db.match_participants
    && exists (is_participant m.id owner) db.match_participants
    && is_live (user_by_id owner db)
    && is_active_match m.status
    && (m.user_low_id == viewer && m.user_high_id == owner
        || m.user_low_id == owner && m.user_high_id == viewer)
    && not (is_blocked_either_direction viewer owner db)

-- What the block checker answers: `none` without one, and an error or a block both refuse.
abbrev pub checker_refuses : Option Bool → Bool
checker_refuses none = false
checker_refuses (some refuses) = refuses

-- `CanViewProfileMedia`; `fails` says whether its query fails.
unfoldable pub can_view_profile_media : Bool → Option Bool → ℕ → ℕ → Text → Db → Bool
can_view_profile_media fails checker viewer owner variant db =
    if viewer == owner
    then true
    else if not (text_eq variant (codes "DISPLAY")) && not (text_eq variant (codes "THUMBNAIL"))
    then false
    else if checker_refuses checker
    then false
    else not fails && exists (shows_media viewer owner db) db.matches
