-- ===== src/Safety/Targets.antt =====
-- internal/safety/service.go: what a user may report (`validateReportTargetAccess` and its targets).
use dating_app_backend.Prelude.{
  ℕ, Bool, ◌&&◌, ◌||◌, Option, none, some, if◌then◌else◌, ◌==◌, is_none, exists, find_first,
  Handler, pure, throw, query, ◌>>=◌,
}
use dating_app_backend.Store.{
  User, Action, Match, MatchParticipant, Message, Conversation, user_by_id, ordered_pair, is_pair,
}
use dating_app_backend.Safety.Model.{
  SafetyError, validation, not_found, forbidden, database, TargetType, target_user, target_profile,
  target_message, target_media, target_match, Impression, ProfileRow, MediaRow, SafetyDb,
}
use dating_app_backend.Safety.Blocks.{user_by_uuid}
use dating_app_backend.Chat.Model.{takes_part}

pub data TargetSite : Type 0 where
  find_target find_context : TargetSite

-- `targetSnapshot`, less the evidence and the uuid of the user.
pub record TargetSnapshot : Type 0 where
  pub target_type : TargetType
  pub target_uuid : ℕ
  pub reported_user_id : ℕ

-- `hasUserContext`
unfoldable pub has_user_context : ℕ → ℕ → SafetyDb → Bool
has_user_context reporter target db =
    let pair = ordered_pair reporter target in
    exists (λ (i : Impression). i.viewer_user_id == reporter && i.candidate_user_id == target)
      db.impressions
    || exists
        (λ (a : Action).
          a.actor == reporter && a.target == target || a.actor == target && a.target == reporter)
        db.shared.actions
    || exists (is_pair pair.0 pair.1) db.shared.matches

abbrev pub owner_of : Option User → Option ℕ
owner_of none = none
owner_of (some u) = some u.id

abbrev pub live_user : Option User → Option ℕ
live_user none = none
live_user (some u) = if is_none u.deleted_at then some u.id else none

abbrev pub profile_user : SafetyDb → Option ProfileRow → Option ℕ
profile_user db none = none
profile_user db (some p) = live_user (user_by_id p.user_id db.shared)

abbrev pub media_user : SafetyDb → Option MediaRow → Option ℕ
media_user db none = none
media_user db (some m) = owner_of (user_by_id m.user_id db.shared)

-- The users that the queries of `userTarget`, `profileTarget` and `mediaTarget` find.
unfoldable pub user_of_user : ℕ → SafetyDb → Option ℕ
user_of_user uuid db = owner_of (user_by_uuid uuid db)

unfoldable pub user_of_profile : ℕ → SafetyDb → Option ℕ
user_of_profile uuid db =
    profile_user db (find_first (λ (p : ProfileRow). p.uuid == uuid) db.profiles)

unfoldable pub user_of_media : ℕ → SafetyDb → Option ℕ
user_of_media uuid db =
    media_user db (find_first (λ (m : MediaRow). m.uuid == uuid && is_none m.deleted_at) db.media)

abbrev pub in_conversation_of : ℕ → SafetyDb → Message → Bool
in_conversation_of reporter db m =
    exists (λ (c : Conversation). c.id == m.conversation_id) db.shared.conversations
    && exists (takes_part m.conversation_id reporter) db.shared.conversation_participants

abbrev pub message_sender : SafetyDb → Option Message → Option ℕ
message_sender db none = none
message_sender db (some m) = owner_of (user_by_id m.sender_user_id db.shared)

-- The sender that the query of `messageTarget` finds.
unfoldable pub user_of_message : ℕ → ℕ → SafetyDb → Option ℕ
user_of_message reporter uuid db = message_sender db (
    find_first (λ (m : Message). m.uuid == uuid && in_conversation_of reporter db m)
      db.shared.messages)

abbrev pub both_exist : Match → Option User → Option User → Option Match
both_exist m (some low) (some high) = some m
both_exist m _ _ = none

abbrev pub joined_match : SafetyDb → Option Match → Option Match
joined_match db none = none
joined_match db (some m) =
    both_exist m (user_by_id m.user_low_id db.shared) (user_by_id m.user_high_id db.shared)

-- The query of `matchTarget`.
unfoldable pub match_for : ℕ → ℕ → SafetyDb → Option Match
match_for reporter uuid db = joined_match db (
    find_first
      (λ (m : Match).
        m.uuid == uuid
        && exists (λ (p : MatchParticipant). p.match_id == m.id && p.user_id == reporter)
            db.shared.match_participants)
      db.shared.matches)

module _ (faults : TargetSite → Bool) (reporter : ℕ) (uuid : ℕ) where
  abbrev pub snapshot : TargetType → ℕ → TargetSnapshot
  snapshot t reported = record { target_type = t; target_uuid = uuid; reported_user_id = reported }

  -- The checks of `userTarget`, `profileTarget` and `mediaTarget` on the user that their query finds.
  unfoldable pub check_context : TargetType → Option ℕ → Handler SafetyError SafetyDb TargetSnapshot
  check_context t none = throw not_found
  check_context t (some reported) =
      if reporter == reported
      then throw validation
      else query (faults find_context) database (has_user_context reporter reported) >>= λ known.
          if known then pure (snapshot t reported) else throw forbidden

  unfoldable pub check_sender : Option ℕ → Handler SafetyError SafetyDb TargetSnapshot
  check_sender none = throw not_found
  check_sender (some sender) =
      if sender == reporter then throw validation else pure (snapshot target_message sender)

  unfoldable pub other_of_match : Option Match → Handler SafetyError SafetyDb TargetSnapshot
  other_of_match none = throw not_found
  other_of_match (some m) =
      pure (
        snapshot target_match
          (if reporter == m.user_high_id then m.user_low_id else m.user_high_id))

  -- `validateReportTargetAccess`
  unfoldable pub validate_target : TargetType → Handler SafetyError SafetyDb TargetSnapshot
  validate_target target_user =
      query (faults find_target) database (user_of_user uuid) >>= check_context target_user
  validate_target target_profile =
      query (faults find_target) database (user_of_profile uuid) >>= check_context target_profile
  validate_target target_media =
      query (faults find_target) database (user_of_media uuid) >>= check_context target_media
  validate_target target_message =
      query (faults find_target) database (user_of_message reporter uuid) >>= check_sender
  validate_target target_match =
      query (faults find_target) database (match_for reporter uuid) >>= other_of_match
