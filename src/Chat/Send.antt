-- ===== src/Chat/Send.antt =====
-- internal/chat/service.go: `SendMessage`.
use dating_app_backend.Prelude.{
  ℕ, ◌+◌, Bool, true, false, ◌&&◌, ◌||◌, Option, none, some, List, [], ◌∷◌, Text, codes, text_eq,
  is_empty, trim_space, to_upper, byte_len, if◌then◌else◌, ltb, ◌==◌, or_else, exists, update_where,
  Handler, done, failed, Result, ok, err, pure, throw, lift, query, exec, transaction, ◌>>=◌, ◌>>◌,
}
use dating_app_backend.Store.{
  Conversation, MessageType, text_message, system_message, message_active, Message, MessageReceipt,
  Db,
}
use dating_app_backend.Chat.Model.{
  ChatError, validation, not_found, idempotency_conflict, database, ConversationAccess, MessageRow,
  ExistingMessage, SendMessageRequest, NormalizedSend, Emission, message_received,
  conversation_updated, to_response, active_conversation, has_client_id, message_by_client_id,
}

pub data Site : Type 0 where
  find_existing read_access recheck insert_message insert_receipt touch_conversation : Site
  commit : Site

-- `normalizeSendMessageRequest` behind its two uuids.
abbrev pub normalized_send : ℕ → ℕ → SendMessageRequest → Result ChatError NormalizedSend
normalized_send conversation client req =
    let body = trim_space req.body in
    if text_eq (to_upper (trim_space req.message_type)) (codes "TEXT")
    then if is_empty body || ltb 2000 (byte_len body)
      then err validation
      else ok (record {
        conversation_uuid = conversation;
        client_message_id = client;
        message_type = text_message;
        body = body;
      })
    else err validation

abbrev pub with_client_id : ℕ → Option ℕ → SendMessageRequest → Result ChatError NormalizedSend
with_client_id conversation none req = err validation
with_client_id conversation (some client) req = normalized_send conversation client req

abbrev pub with_uuids : Option ℕ → Option ℕ → SendMessageRequest → Result ChatError NormalizedSend
with_uuids none client req = err validation
with_uuids (some conversation) client req = with_client_id conversation client req

-- `parse_uuid` is `uuid.Parse`.
unfoldable pub normalize_send_message :
    (Text → Option ℕ) → Text → SendMessageRequest → Result ChatError NormalizedSend
normalize_send_message parse_uuid raw req =
    with_uuids (parse_uuid (trim_space raw)) (parse_uuid (trim_space req.client_message_id)) req

abbrev pub same_type : MessageType → MessageType → Bool
same_type text_message text_message = true
same_type system_message system_message = true
same_type _ _ = false

-- The payload of a repeated client id is the one that was stored.
abbrev pub same_payload : ExistingMessage → NormalizedSend → Bool
same_payload e n =
    e.conversation_uuid == n.conversation_uuid
    && (same_type e.message_type n.message_type && text_eq (or_else e.body []) n.body)

pub record SendMessageResponse : Type 0 where
  pub message_uuid : ℕ
  pub client_message_id : ℕ
  pub created_at : ℕ

-- What `SendMessage` comes to: its two values, the events, and the message that it hands to the
-- notifications.
pub record Sent : Type 0 where
  pub response : SendMessageResponse
  pub created : Bool
  pub emitted : List Emission
  pub notified : Option ℕ

-- `access`, `inserted` and `created` behind the transaction.
pub record Inserted : Type 0 where
  pub access : ConversationAccess
  pub row : MessageRow
  pub created : Bool

abbrev pub new_message : ℕ → ℕ → ℕ → ℕ → NormalizedSend → ConversationAccess → Message
new_message id now uuid sender n access = record {
  id = id;
  uuid = uuid;
  conversation_id = access.conversation_id;
  match_id = access.match_id;
  sender_user_id = sender;
  message_type = n.message_type;
  body = some n.body;
  client_message_id = n.client_message_id;
  status = message_active;
  created_at = now;
  deleted_at = none;
  deleted_by_user_id = none;
  updated_at = now;
}

abbrev pub inserted_row : Message → ℕ → MessageRow
inserted_row m sender_uuid = record {
  message_id = m.id;
  message_uuid = m.uuid;
  client_message_id = m.client_message_id;
  sender_user_id = m.sender_user_id;
  sender_user_uuid = sender_uuid;
  message_type = m.message_type;
  body = m.body;
  message_status = m.status;
  created_at = m.created_at;
  deleted_at = none;
  delivered_at = none;
  seen_at = none;
}

abbrev pub reused_row : ExistingMessage → ℕ → ℕ → MessageRow
reused_row e sender sender_uuid = record {
  message_id = e.message_id;
  message_uuid = e.message_uuid;
  client_message_id = e.client_message_id;
  sender_user_id = sender;
  sender_user_uuid = sender_uuid;
  message_type = e.message_type;
  body = e.body;
  message_status = e.message_status;
  created_at = e.created_at;
  deleted_at = none;
  delivered_at = none;
  seen_at = none;
}

-- `INSERT INTO message_receipts ... ON CONFLICT DO NOTHING`
abbrev pub add_receipt : ℕ → ℕ → ℕ → List MessageReceipt → List MessageReceipt
add_receipt message user now receipts =
    if exists (λ (r : MessageReceipt). r.message_id == message && r.user_id == user) receipts
    then receipts
    else record {
      message_id = message;
      user_id = user;
      delivered_at = none;
      seen_at = none;
      updated_at = now;
    }
      ∷ receipts

abbrev pub as_touched : Message → ℕ → Conversation → Conversation
as_touched m now c = record c {
  last_message_id = some m.id;
  last_message_at = some m.created_at;
  updated_at = now;
}

-- `emitMessageCreated`
unfoldable pub emit_message_created : ConversationAccess → MessageRow → List Emission
emit_message_created access row =
    record {
      to_user = access.other_user_id;
      event = message_received access.conversation_uuid (to_response row);
    }
    ∷ record {
      to_user = access.other_user_id;
      event = conversation_updated access.conversation_uuid;
    }
    ∷ record { to_user = row.sender_user_id; event = conversation_updated access.conversation_uuid }
    ∷ []

abbrev pub announce : Inserted → Sent
announce i = record {
  response = record {
    message_uuid = i.row.message_uuid;
    client_message_id = i.row.client_message_id;
    created_at = i.row.created_at;
  };
  created = i.created;
  emitted = if i.row.message_id == 0 then [] else emit_message_created i.access i.row;
  notified =
      if i.row.message_id == 0 then none else if i.created then some i.row.message_uuid else none;
}

abbrev pub known_message : ExistingMessage → Sent
known_message e = record {
  response = record {
    message_uuid = e.message_uuid;
    client_message_id = e.client_message_id;
    created_at = e.created_at;
  };
  created = false;
  emitted = [];
  notified = none;
}

module _ (faults : Site → Bool) (now fresh_uuid sender : ℕ) (n : NormalizedSend) where
  -- The insertion; the unique index on sender and client id refuses a second row.
  unfoldable pub insert_row : ConversationAccess → Handler ChatError Db Message
  insert_row access db =
      if faults insert_message || exists (has_client_id sender n.client_message_id) db.messages
      then failed database db
      else (let m = new_message db.next_message now fresh_uuid sender n access in
          done m (record db { messages = m ∷ db.messages; next_message = db.next_message + 1 }))

  unfoldable pub store_message : ConversationAccess → Message → Handler ChatError Db Inserted
  store_message access m = do
    exec (faults insert_receipt) database (λ (db : Db). record db {
      receipts = add_receipt m.id access.other_user_id now db.receipts;
    })
    exec (faults touch_conversation) database (λ (db : Db). record db {
      conversations =
          update_where (λ c. c.id == access.conversation_id) (as_touched m now) db.conversations;
    })
    pure (record { access = access; row = inserted_row m access.user_uuid; created = true })

  unfoldable pub reuse_or_insert :
      ConversationAccess → Option ExistingMessage → Handler ChatError Db Inserted
  reuse_or_insert access none = insert_row access >>= store_message access
  reuse_or_insert access (some e) =
      if same_payload e n
      then pure
          (record { access = access; row = reused_row e sender access.user_uuid; created = false })
      else throw idempotency_conflict

  -- The recheck of the client id under the lock of the conversation.
  unfoldable pub send_into : ConversationAccess → Handler ChatError Db Inserted
  send_into access = do
    existing ← query (faults recheck) database (message_by_client_id sender n.client_message_id)
    reuse_or_insert access existing

  unfoldable pub send_if_found : Option ConversationAccess → Handler ChatError Db Inserted
  send_if_found none = throw not_found
  send_if_found (some access) = send_into access

  unfoldable pub send_tx : Handler ChatError Db Inserted
  send_tx = do
    found ← query (faults read_access) database (active_conversation sender n.conversation_uuid)
    send_if_found found

  abbrev pub send_unless_known : Option ExistingMessage → Handler ChatError Db Sent
  send_unless_known (some e) =
      if same_payload e n then pure (known_message e) else throw idempotency_conflict
  send_unless_known none = transaction (faults commit) database send_tx >>= λ i. pure (announce i)

  unfoldable pub send_normalized : Handler ChatError Db Sent
  send_normalized = do
    existing ←
        query (faults find_existing) database (message_by_client_id sender n.client_message_id)
    send_unless_known existing

unfoldable pub send_message :
    (Text → Option ℕ)
    → (Site → Bool)
    → ℕ
    → ℕ
    → ℕ
    → Text
    → SendMessageRequest
    → Handler ChatError Db Sent
send_message parse_uuid faults now fresh_uuid sender raw req = do
  n ← lift (normalize_send_message parse_uuid raw req)
  send_normalized faults now fresh_uuid sender n
