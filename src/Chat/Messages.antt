-- ===== src/Chat/Messages.antt =====
-- internal/chat: `Messages` with its query (service.go), limits and cursors (cursor.go).
use dating_app_backend.Prelude.{
  ℕ, ◌+◌, ◌-◌, ◌*◌, ◌%◌, ◌^◌, Bool, ◌&&◌, ◌||◌, not, Option, none, some, List, [], ◌∷◌, map, Text,
  is_empty, trim_space, if◌then◌else◌, ltb, leb, ◌==◌, take, select, find_first, Handler, Result,
  ok, err, pure, lift, query, or_throw, ◌>>=◌, is_beyond, newest_first, visible_rows, cursor_row,
}
use dating_app_backend.Store.{User, Message, MessageReceipt, Db, user_by_id}
use dating_app_backend.Chat.Model.{
  ChatError, validation, not_found, database, MessageRow, MessageResponse, to_response,
  active_conversation,
}

-- The loop over the digits, on 64 bits; `none` on any other character.
unfoldable pub limit_value : ℕ → Text → Option ℕ
limit_value value [] = some value
limit_value value (ch ∷ raw) =
    let rest = limit_value ((value * 10 + (ch - b'0')) % 2 ^ 64) raw in
    if ltb ch b'0' || ltb b'9' ch then none else rest

-- From 2 ^ 63 on the 64 bits stand for a negative number.
abbrev pub limit_in_range : ℕ → Option ℕ → Result ChatError ℕ
limit_in_range max none = err validation
limit_in_range max (some value) =
    if value == 0 || leb (2 ^ 63) value
    then err validation
    else if ltb max value
    then ok max
    else ok value

unfoldable pub normalize_limit : Text → ℕ → ℕ → Result ChatError ℕ
normalize_limit raw default max =
    let trimmed = trim_space raw in
    if is_empty trimmed then ok default else limit_in_range max (limit_value 0 trimmed)

pub record MessageCursor : Type 0 where
  pub created_at : ℕ
  pub message_id : ℕ

-- `base64` and `encoding/json`, as cursors use them. The time 0 is Go's zero time.
pub record CursorCodec : Type 0 where
  pub encode : MessageCursor → Text
  pub decode : Text → Option MessageCursor

abbrev pub valid_cursor : Option MessageCursor → Result ChatError (Option MessageCursor)
valid_cursor none = err validation
valid_cursor (some c) =
    if c.created_at == 0 || c.message_id == 0 then err validation else ok (some c)

-- `decodeMessageCursor`
unfoldable pub decode_message_cursor : CursorCodec → Text → Result ChatError (Option MessageCursor)
decode_message_cursor codec raw =
    if is_empty (trim_space raw) then ok none else valid_cursor (codec.decode raw)

-- The receipt of the other member; `SendMessage` adds one for each message.
abbrev pub other_receipt : Message → Db → Option MessageReceipt
other_receipt m db =
    find_first (λ (r : MessageReceipt). r.message_id == m.id && not (r.user_id == m.sender_user_id))
      db.receipts

abbrev pub delivered_of : Option MessageReceipt → Option ℕ
delivered_of none = none
delivered_of (some r) = r.delivered_at

abbrev pub seen_of : Option MessageReceipt → Option ℕ
seen_of none = none
seen_of (some r) = r.seen_at

-- A message joined with its sender and its receipt, put before the rows of the others.
abbrev pub join_message : Db → Message → Option User → List MessageRow → List MessageRow
join_message db m none rows = rows
join_message db m (some sender) rows =
    record {
      message_id = m.id;
      message_uuid = m.uuid;
      client_message_id = m.client_message_id;
      sender_user_id = m.sender_user_id;
      sender_user_uuid = sender.uuid;
      message_type = m.message_type;
      body = m.body;
      message_status = m.status;
      created_at = m.created_at;
      deleted_at = m.deleted_at;
      delivered_at = delivered_of (other_receipt m db);
      seen_at = seen_of (other_receipt m db);
    }
    ∷ rows

abbrev pub join_messages : Db → List Message → List MessageRow
join_messages db [] = []
join_messages db (m ∷ ms) = join_message db m (user_by_id m.sender_user_id db) (join_messages db ms)

abbrev pub row_time : MessageRow → ℕ
row_time r = r.created_at

abbrev pub row_id : MessageRow → ℕ
row_id r = r.message_id

-- The messages of a conversation, the newest first.
abbrev pub sorted_messages : ℕ → Db → List MessageRow
sorted_messages conversation db =
    newest_first row_time row_id
      (join_messages db (select (λ (m : Message). m.conversation_id == conversation) db.messages))

abbrev pub behind : Option MessageCursor → List MessageRow → List MessageRow
behind none rows = rows
behind (some c) rows = select (is_beyond row_time row_id c.created_at c.message_id) rows

-- `messageRows`
unfoldable pub message_rows : ℕ → ℕ → Option MessageCursor → Db → List MessageRow
message_rows conversation limit cursor db =
    take limit (behind cursor (sorted_messages conversation db))

pub record MessageListResponse : Type 0 where
  pub items : List MessageResponse
  pub next_cursor : Option Text

abbrev pub cursor_text : CursorCodec → Option MessageRow → Option Text
cursor_text codec none = none
cursor_text codec (some r) =
    some (codec.encode (record { created_at = r.created_at; message_id = r.message_id }))

abbrev pub message_page : CursorCodec → ℕ → List MessageRow → MessageListResponse
message_page codec limit rows = record {
  items = map to_response (visible_rows limit rows);
  next_cursor = cursor_text codec (cursor_row limit rows);
}

pub data ListSite : Type 0 where
  read_access read_rows : ListSite

-- `Messages`
unfoldable pub messages :
    (Text → Option ℕ)
    → CursorCodec
    → (ListSite → Bool)
    → ℕ
    → Text
    → Text
    → Text
    → Handler ChatError Db MessageListResponse
messages parse_uuid codec faults user raw_conversation raw_limit raw_cursor = do
  conversation ← or_throw (parse_uuid (trim_space raw_conversation)) validation
  found ← query (faults read_access) database (active_conversation user conversation)
  access ← or_throw found not_found
  limit ← lift (normalize_limit raw_limit 30 100)
  cursor ← lift (decode_message_cursor codec raw_cursor)
  rows ← query (faults read_rows) database (message_rows access.conversation_id (limit + 1) cursor)
  pure (message_page codec limit rows)
