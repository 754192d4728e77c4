-- ===== src/Store.antt =====
-- The tables that discovery, matches and chat share, with the usage counters: migrations 000002, 000006,
-- 000008 to 000010 and 000016, and the model.go files of internal/match, internal/chat and
-- internal/subscription. Columns that no modelled statement reads or writes are left out.
-- Ids and uuids are numbers, times are seconds, dates are days.
use dating_app_backend.Prelude.{
  ℕ, Bool, true, false, ◌&&◌, ◌||◌, Option, List, Text, if◌then◌else◌, ltb, ◌==◌, is_none, exists,
  find_first,
}

pub data UserStatus : Type 0 where
  user_active user_suspended user_banned user_deleted : UserStatus

pub record User : Type 0 where
  pub id : ℕ
  pub uuid : ℕ
  pub status : UserStatus
  pub deleted_at : Option ℕ

pub data BlockSource : Type 0 where
  manual report_flow moderation : BlockSource

pub record Block : Type 0 where
  pub blocker : ℕ
  pub blocked : ℕ
  pub reason_code : Option Text
  pub remark : Option Text
  pub source : BlockSource
  pub report_id : Option ℕ

pub data ActionType : Type 0 where
  like pass super_like : ActionType

pub record Action : Type 0 where
  pub id : ℕ
  pub actor : ℕ
  pub target : ℕ
  pub action_type : ActionType
  pub client_action_id : ℕ
  pub action_date : ℕ
  pub target_distance_meters : ℕ

pub data MatchStatus : Type 0 where
  match_active unmatched : MatchStatus

pub record Match : Type 0 where
  pub id : ℕ
  pub uuid : ℕ
  pub user_low_id : ℕ
  pub user_high_id : ℕ
  pub initiated_by_user_id : Option ℕ
  pub status : MatchStatus
  pub matched_at : ℕ
  pub unmatched_at : Option ℕ
  pub unmatched_by_user_id : Option ℕ
  pub unmatch_reason_code : Option Text
  pub unmatch_reason_note : Option Text
  pub updated_at : ℕ

pub record MatchParticipant : Type 0 where
  pub match_id : ℕ
  pub user_id : ℕ
  pub seen_at : Option ℕ
  pub last_opened_at : Option ℕ
  pub hidden_at : Option ℕ
  pub updated_at : ℕ

pub data ConversationStatus : Type 0 where
  conversation_active read_only closed : ConversationStatus

pub record Conversation : Type 0 where
  pub id : ℕ
  pub uuid : ℕ
  pub match_id : ℕ
  pub status : ConversationStatus
  pub last_message_id : Option ℕ
  pub last_message_at : Option ℕ
  pub updated_at : ℕ

pub record ConversationParticipant : Type 0 where
  pub conversation_id : ℕ
  pub user_id : ℕ
  pub last_read_message_id : Option ℕ
  pub last_read_at : Option ℕ
  pub hidden_at : Option ℕ
  pub updated_at : ℕ

pub data MessageType : Type 0 where
  text_message system_message : MessageType

pub data MessageStatus : Type 0 where
  message_active message_deleted : MessageStatus

pub record Message : Type 0 where
  pub id : ℕ
  pub uuid : ℕ
  pub conversation_id : ℕ
  pub match_id : ℕ
  pub sender_user_id : ℕ
  pub message_type : MessageType
  pub body : Option Text
  pub client_message_id : ℕ
  pub status : MessageStatus
  pub created_at : ℕ
  pub deleted_at : Option ℕ
  pub deleted_by_user_id : Option ℕ
  pub updated_at : ℕ

pub record MessageReceipt : Type 0 where
  pub message_id : ℕ
  pub user_id : ℕ
  pub delivered_at : Option ℕ
  pub seen_at : Option ℕ
  pub updated_at : ℕ

pub data Feature : Type 0 where
  like_daily super_like_daily audio_call_daily_seconds video_call_daily_seconds : Feature

pub record FeatureUsage : Type 0 where
  pub user_id : ℕ
  pub feature_key : Feature
  pub usage_date : ℕ
  pub used_count : ℕ
  pub used_seconds : ℕ
  pub updated_at : ℕ

-- The `next_` fields are the sequences behind the primary keys; they start at 1.
pub record Db : Type 0 where
  pub users : List User
  pub blocks : List Block
  pub actions : List Action
  pub next_action : ℕ
  pub matches : List Match
  pub next_match : ℕ
  pub match_participants : List MatchParticipant
  pub conversations : List Conversation
  pub next_conversation : ℕ
  pub conversation_participants : List ConversationParticipant
  pub messages : List Message
  pub next_message : ℕ
  pub receipts : List MessageReceipt
  pub usage : List FeatureUsage
  -- The users with a row of `discovery_preferences`.
  pub preferences : List ℕ

abbrev pub is_active_status : UserStatus → Bool
is_active_status user_active = true
is_active_status _ = false

-- `status = 'ACTIVE' AND deleted_at IS NULL`
abbrev pub is_active_user : User → Bool
is_active_user u = is_active_status u.status && is_none u.deleted_at

abbrev pub user_by_id : ℕ → Db → Option User
user_by_id i db = find_first (λ u. u.id == i) db.users

-- `orderedPair`
unfoldable pub ordered_pair : ℕ → ℕ → ℕ × ℕ
ordered_pair a b = if ltb a b then (a, b) else (b, a)

-- `(blocker = a AND blocked = b) OR (blocker = b AND blocked = a)`
abbrev pub blocks_pair : ℕ → ℕ → Block → Bool
blocks_pair a b x = x.blocker == a && x.blocked == b || x.blocker == b && x.blocked == a

-- `IsBlockedEitherDirection`
abbrev pub is_blocked_either_direction : ℕ → ℕ → Db → Bool
is_blocked_either_direction a b db = exists (blocks_pair a b) db.blocks

-- The other member of a match: `CASE WHEN user_low_id = ? THEN user_high_id ELSE user_low_id END`.
abbrev pub other_member : ℕ → Match → ℕ
other_member user m = if m.user_low_id == user then m.user_high_id else m.user_low_id

abbrev pub is_member : ℕ → Match → Bool
is_member user m = m.user_low_id == user || m.user_high_id == user

abbrev pub is_active_match : MatchStatus → Bool
is_active_match match_active = true
is_active_match unmatched = false

abbrev pub is_pair : ℕ → ℕ → Match → Bool
is_pair low high m = m.user_low_id == low && m.user_high_id == high
