-- ===== src/Chat/Receipts.antt =====
-- internal/chat/service.go: `MarkRead`, `MarkDelivered`, `DeleteMessage`, `Typing`.
use dating_app_backend.Prelude.{
  ℕ, Bool, true, not, ◌&&◌, Option, none, some, List, [], ◌∷◌, Text, trim_space, if◌then◌else◌, ltb,
  leb, ◌==◌, or_else, exists, find_first, update_where, Handler, pure, throw, query, exec, or_throw,
  transaction, ◌>>=◌, ◌>>◌,
}
use dating_app_backend.Store.{
  ConversationParticipant, MessageStatus, message_active, message_deleted, Message, MessageReceipt,
  Db, user_by_id,
}
use dating_app_backend.Chat.Model.{
  ChatError, validation, not_found, forbidden, database, ConversationAccess, Emission, message_seen,
  message_delivered, is_deleted, takes_part, active_conversation,
}

pub data ReceiptSite : Type 0 where
  read_access find_target read_position move_position mark_seen commit : ReceiptSite
  find_message delete_row mark_delivered_row : ReceiptSite

-- What a handler answers, and the events that it hands to the hub.
pub record Emitted {ℓ} (A : Type ℓ) : Type ℓ where
  pub response : A
  pub emitted : List Emission

pub record MarkReadResponse : Type 0 where
  pub conversation_uuid : ℕ
  pub last_read_message_uuid : ℕ
  pub last_read_at : ℕ

pub record DeleteMessageResponse : Type 0 where
  pub message_uuid : ℕ
  pub status : MessageStatus

abbrev pub message_in : ℕ → ℕ → Db → Option Message
message_in conversation uuid db =
    find_first (λ (m : Message). m.uuid == uuid && m.conversation_id == conversation) db.messages

-- `SELECT last_read_message_id`; no row reads as NULL.
abbrev pub position_of : Option ConversationParticipant → Option ℕ
position_of none = none
position_of (some p) = p.last_read_message_id

abbrev pub read_position_of : ℕ → ℕ → Db → Option ℕ
read_position_of conversation user db =
    position_of (find_first (takes_part conversation user) db.conversation_participants)

-- `!currentLastReadID.Valid || target.MessageID > currentLastReadID`
abbrev pub is_ahead : Option ℕ → ℕ → Bool
is_ahead none target = true
is_ahead (some current) target = ltb current target

abbrev pub as_read_to : ℕ → ℕ → ConversationParticipant → ConversationParticipant
as_read_to target now p = record p {
  last_read_message_id = some target;
  last_read_at = some now;
  updated_at = now;
}

-- The join and the conditions of the update of the receipts.
abbrev pub is_read_receipt : ℕ → ℕ → ℕ → List Message → MessageReceipt → Bool
is_read_receipt user conversation target messages r =
    r.user_id == user
    && exists
        (λ (m : Message).
          m.id == r.message_id
          && (m.conversation_id == conversation
              && (not (m.sender_user_id == user) && leb m.id target)))
        messages

abbrev pub as_seen : ℕ → MessageReceipt → MessageReceipt
as_seen now r = record r {
  seen_at = some (or_else r.seen_at now);
  delivered_at = some (or_else r.delivered_at now);
  updated_at = now;
}

abbrev pub as_delivered : ℕ → MessageReceipt → MessageReceipt
as_delivered now r = record r { delivered_at = some (or_else r.delivered_at now); updated_at = now }

abbrev pub as_deleted : ℕ → ℕ → Message → Message
as_deleted now user m = record m {
  status = message_deleted;
  body = none;
  deleted_at = some now;
  deleted_by_user_id = some user;
  updated_at = now;
}

abbrev pub joined_sender : Option Message → Db → Option Message
joined_sender none db = none
joined_sender (some m) db = elim (user_by_id m.sender_user_id db) [ some u ↦ some m | none ↦ none ]

-- The message that `MarkDelivered` reads, joined with its sender.
abbrev pub active_message_in : ℕ → ℕ → Db → Option Message
active_message_in conversation uuid db =
    joined_sender
      (find_first
        (λ (m : Message).
          m.uuid == uuid && (m.conversation_id == conversation && not (is_deleted m.status)))
        db.messages)
      db

-- `access` and `target` behind the transaction of `MarkRead`.
pub record ReadTo : Type 0 where
  pub access : ConversationAccess
  pub target : Message

module _ (faults : ReceiptSite → Bool) (now user : ℕ) where
  abbrev pub move_if_ahead :
      ConversationAccess → Message → Option ℕ → Handler ChatError Db (Unit {0})
  move_if_ahead access target current =
      if is_ahead current target.id
      then exec (faults move_position) database (λ (db : Db). record db {
        conversation_participants =
            update_where (takes_part access.conversation_id user) (as_read_to target.id now)
              db.conversation_participants;
      })
      else pure tt

  unfoldable pub read_to : ConversationAccess → Message → Handler ChatError Db (Unit {0})
  read_to access target = do
    current ← query (faults read_position) database (read_position_of access.conversation_id user)
    move_if_ahead access target current
    exec (faults mark_seen) database (λ (db : Db). record db {
      receipts =
          update_where (is_read_receipt user access.conversation_id target.id db.messages)
            (as_seen now) db.receipts;
    })

  unfoldable pub read_found : ConversationAccess → Option Message → Handler ChatError Db ReadTo
  read_found access none = throw not_found
  read_found access (some target) =
      read_to access target >> pure (record { access = access; target = target })

  unfoldable pub read_with : ℕ → Option ConversationAccess → Handler ChatError Db ReadTo
  read_with message none = throw not_found
  read_with message (some access) = do
    found ← query (faults find_target) database (message_in access.conversation_id message)
    read_found access found

  unfoldable pub mark_read_tx : ℕ → ℕ → Handler ChatError Db ReadTo
  mark_read_tx conversation message = do
    found ← query (faults read_access) database (active_conversation user conversation)
    read_with message found

  -- The answer, with `emitSeen`.
  abbrev pub read_answer : ℕ → ReadTo → Emitted MarkReadResponse
  read_answer conversation r = record {
    response = record {
      conversation_uuid = conversation;
      last_read_message_uuid = r.target.uuid;
      last_read_at = now;
    };
    emitted =
        record {
          to_user = r.access.other_user_id;
          event = message_seen r.access.conversation_uuid r.target.uuid r.access.user_uuid;
        }
        ∷ [];
  }

  -- `parse_uuid` is `uuid.Parse`.
  unfoldable pub mark_read :
      (Text → Option ℕ) → Text → Text → Handler ChatError Db (Emitted MarkReadResponse)
  mark_read parse_uuid raw_conversation raw_message = do
    conversation ← or_throw (parse_uuid (trim_space raw_conversation)) validation
    message ← or_throw (parse_uuid (trim_space raw_message)) validation
    done_to ← transaction (faults commit) database (mark_read_tx conversation message)
    pure (read_answer conversation done_to)

  abbrev pub delete_as : Message → MessageStatus → Handler ChatError Db (Unit {0})
  delete_as row message_deleted = pure tt
  delete_as row message_active = exec (faults delete_row) database (λ (db : Db). record db {
    messages = update_where (λ m. m.id == row.id) (as_deleted now user) db.messages;
  })

  unfoldable pub delete_found : Option Message → Handler ChatError Db Message
  delete_found none = throw not_found
  delete_found (some row) =
      if not (row.sender_user_id == user)
      then throw forbidden
      else delete_as row row.status >> pure row

  unfoldable pub delete_tx : ℕ → Handler ChatError Db Message
  delete_tx message = do
    found ←
        query (faults find_message) database
          (λ (db : Db). find_first (λ (m : Message). m.uuid == message) db.messages)
    delete_found found

  unfoldable pub delete_message :
      (Text → Option ℕ) → Text → Handler ChatError Db DeleteMessageResponse
  delete_message parse_uuid raw_message = do
    message ← or_throw (parse_uuid (trim_space raw_message)) validation
    row ← transaction (faults commit) database (delete_tx message)
    pure (record { message_uuid = row.uuid; status = message_deleted })

  abbrev pub set_delivered : Message → Handler ChatError Db (Unit {0})
  set_delivered message = exec (faults mark_delivered_row) database (λ (db : Db). record db {
    receipts =
        update_where (λ (r : MessageReceipt). r.message_id == message.id && r.user_id == user)
          (as_delivered now) db.receipts;
  })

  unfoldable pub deliver_found : ConversationAccess → Option Message → Handler ChatError Db ReadTo
  deliver_found access none = throw not_found
  deliver_found access (some message) =
      if message.sender_user_id == user
      then throw validation
      else set_delivered message >> pure (record { access = access; target = message })

  unfoldable pub deliver_with : ℕ → Option ConversationAccess → Handler ChatError Db ReadTo
  deliver_with uuid none = throw not_found
  deliver_with uuid (some access) = do
    found ← query (faults find_message) database (active_message_in access.conversation_id uuid)
    deliver_found access found

  unfoldable pub mark_delivered_tx : ℕ → ℕ → Handler ChatError Db ReadTo
  mark_delivered_tx conversation uuid = do
    found ← query (faults read_access) database (active_conversation user conversation)
    deliver_with uuid found

  abbrev pub delivered_answer : ReadTo → Emitted (Unit {0})
  delivered_answer r = record {
    response = tt;
    emitted =
        if r.target.sender_user_id == 0
        then []
        else record {
          to_user = r.target.sender_user_id;
          event = message_delivered r.access.conversation_uuid r.target.uuid now;
        }
          ∷ [];
  }

  unfoldable pub mark_delivered :
      (Text → Option ℕ) → Text → Text → Handler ChatError Db (Emitted (Unit {0}))
  mark_delivered parse_uuid raw_conversation raw_message = do
    conversation ← or_throw (parse_uuid (trim_space raw_conversation)) validation
    uuid ← or_throw (parse_uuid (trim_space raw_message)) validation
    done_to ← transaction (faults commit) database (mark_delivered_tx conversation uuid)
    pure (delivered_answer done_to)
