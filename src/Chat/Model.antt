-- ===== src/Chat/Model.antt =====
-- internal/chat: errors (errors.go), answers and events (dto.go, events.go), and what service.go reads of
-- the tables (`activeConversationByUUIDTx`, `messageByClientIDTx`, `normalizeSendMessageRequest`).
use dating_app_backend.Prelude.{
  ℕ, Bool, true, false, not, ◌&&◌, Option, none, some, Text, if◌then◌else◌, ◌==◌, is_none, exists,
  find_first,
}
use dating_app_backend.Store.{
  User, Match, is_active_match, Conversation, ConversationStatus, conversation_active,
  ConversationParticipant, MessageType, MessageStatus, message_active, message_deleted, Message, Db,
  is_active_user, user_by_id, other_member, is_member, is_blocked_either_direction,
}

pub data ChatError : Type 0 where
  validation not_found forbidden idempotency_conflict : ChatError
  -- An error of the database.
  database : ChatError

-- `conversationAccess`
pub record ConversationAccess : Type 0 where
  pub conversation_id : ℕ
  pub conversation_uuid : ℕ
  pub match_id : ℕ
  pub match_uuid : ℕ
  pub user_uuid : ℕ
  pub other_user_id : ℕ
  pub other_user_uuid : ℕ

-- `messageRow`
pub record MessageRow : Type 0 where
  pub message_id : ℕ
  pub message_uuid : ℕ
  pub client_message_id : ℕ
  pub sender_user_id : ℕ
  pub sender_user_uuid : ℕ
  pub message_type : MessageType
  pub body : Option Text
  pub message_status : MessageStatus
  pub created_at : ℕ
  pub deleted_at : Option ℕ
  pub delivered_at : Option ℕ
  pub seen_at : Option ℕ

-- `existingMessage`
pub record ExistingMessage : Type 0 where
  pub message_id : ℕ
  pub message_uuid : ℕ
  pub conversation_uuid : ℕ
  pub message_type : MessageType
  pub body : Option Text
  pub message_status : MessageStatus
  pub client_message_id : ℕ
  pub created_at : ℕ

pub record SendMessageRequest : Type 0 where
  pub client_message_id : Text
  pub message_type : Text
  pub body : Text

-- `normalizedSendMessage`
pub record NormalizedSend : Type 0 where
  pub conversation_uuid : ℕ
  pub client_message_id : ℕ
  pub message_type : MessageType
  pub body : Text

pub data DeliveryState : Type 0 where
  sent delivered seen : DeliveryState

pub record MessageResponse : Type 0 where
  pub message_uuid : ℕ
  pub client_message_id : ℕ
  pub sender_user_uuid : ℕ
  pub message_type : MessageType
  pub body : Option Text
  pub message_status : MessageStatus
  pub delivery_state : DeliveryState
  pub created_at : ℕ
  pub deleted : Bool
  pub deleted_at : Option ℕ

-- What the service hands to the hub.
pub data Event : Type 0 where
  message_received : ℕ → MessageResponse → Event
  conversation_updated : ℕ → Event
  -- The conversation, the last message read and its reader.
  message_seen : ℕ → ℕ → ℕ → Event
  -- The conversation, the message and the time.
  message_delivered : ℕ → ℕ → ℕ → Event
  typing_started typing_stopped : ℕ → ℕ → Event

pub record Emission : Type 0 where
  pub to_user : ℕ
  pub event : Event

abbrev pub is_deleted : MessageStatus → Bool
is_deleted message_active = false
is_deleted message_deleted = true

unfoldable pub visible_body : Option Text → MessageStatus → Option Text
visible_body body message_deleted = none
visible_body body message_active = body

unfoldable pub delivery_state : Option ℕ → Option ℕ → DeliveryState
delivery_state delivered_at (some _) = seen
delivery_state (some _) none = delivered
delivery_state none none = sent

unfoldable pub to_response : MessageRow → MessageResponse
to_response row = record {
  message_uuid = row.message_uuid;
  client_message_id = row.client_message_id;
  sender_user_uuid = row.sender_user_uuid;
  message_type = row.message_type;
  body = visible_body row.body row.message_status;
  message_status = row.message_status;
  delivery_state = delivery_state row.delivered_at row.seen_at;
  created_at = row.created_at;
  deleted = is_deleted row.message_status;
  deleted_at = row.deleted_at;
}

abbrev pub is_open_status : ConversationStatus → Bool
is_open_status conversation_active = true
is_open_status _ = false

abbrev pub takes_part : ℕ → ℕ → ConversationParticipant → Bool
takes_part conversation user p = p.conversation_id == conversation && p.user_id == user

abbrev pub conversation_by_uuid : ℕ → Db → Option Conversation
conversation_by_uuid uuid db = find_first (λ (c : Conversation). c.uuid == uuid) db.conversations

abbrev pub conversation_by_id : ℕ → Db → Option Conversation
conversation_by_id id db = find_first (λ (c : Conversation). c.id == id) db.conversations

-- The conditions of `activeConversationByUUIDTx` on the rows that it joins.
abbrev pub is_accessible : ℕ → Db → Conversation → Match → User → User → Bool
is_accessible user db c m own other =
    exists (λ (p : ConversationParticipant). takes_part c.id user p && is_none p.hidden_at)
      db.conversation_participants
    && exists (takes_part c.id other.id) db.conversation_participants
    && is_open_status c.status
    && is_active_match m.status
    && is_member user m
    && is_active_user own
    && is_active_user other
    && not (is_blocked_either_direction user other.id db)

abbrev pub access_row : Conversation → Match → User → User → ConversationAccess
access_row c m own other = record {
  conversation_id = c.id;
  conversation_uuid = c.uuid;
  match_id = m.id;
  match_uuid = m.uuid;
  user_uuid = own.uuid;
  other_user_id = other.id;
  other_user_uuid = other.uuid;
}

abbrev pub accessible :
    ℕ → Db → Conversation → Match → Option User → Option User → Option ConversationAccess
accessible user db c m none other = none
accessible user db c m (some own) none = none
accessible user db c m (some own) (some other) =
    if is_accessible user db c m own other then some (access_row c m own other) else none

abbrev pub in_match : ℕ → Db → Conversation → Option Match → Option ConversationAccess
in_match user db c none = none
in_match user db c (some m) =
    accessible user db c m (user_by_id user db) (user_by_id (other_member user m) db)

abbrev pub in_conversation : ℕ → Db → Option Conversation → Option ConversationAccess
in_conversation user db none = none
in_conversation user db (some c) =
    in_match user db c (find_first (λ (m : Match). m.id == c.match_id) db.matches)

-- `activeConversationByUUIDTx`
unfoldable pub active_conversation : ℕ → ℕ → Db → Option ConversationAccess
active_conversation user uuid db = in_conversation user db (conversation_by_uuid uuid db)

abbrev pub existing_row : Message → Option Conversation → Option ExistingMessage
existing_row m none = none
existing_row m (some c) = some (record {
  message_id = m.id;
  message_uuid = m.uuid;
  conversation_uuid = c.uuid;
  message_type = m.message_type;
  body = m.body;
  message_status = m.status;
  client_message_id = m.client_message_id;
  created_at = m.created_at;
})

abbrev pub has_client_id : ℕ → ℕ → Message → Bool
has_client_id sender client m = m.sender_user_id == sender && m.client_message_id == client

abbrev pub with_conversation : Db → Option Message → Option ExistingMessage
with_conversation db none = none
with_conversation db (some m) = existing_row m (conversation_by_id m.conversation_id db)

-- `messageByClientIDTx`
unfoldable pub message_by_client_id : ℕ → ℕ → Db → Option ExistingMessage
message_by_client_id sender client db =
    with_conversation db (find_first (has_client_id sender client) db.messages)
