-- ===== src/Chat/Hub.antt =====
-- internal/chat/hub.go, and `Typing` of internal/chat/service.go, which asks the hub. A client is known by
-- a number, and its channel is the list of the events in its buffer; a map is a list of its entries.
-- Times are milliseconds.
use dating_app_backend.Prelude.{
  ℕ, ◌-◌, Bool, true, false, not, ◌&&◌, Option, none, some, List, [], ◌∷◌, Text, trim_space,
  if◌then◌else◌, ltb, ◌==◌, length, ◌++◌, select, exists, find_first, delete_where, update_where,
  Handler, pure, query, or_throw, ◌>>=◌,
}
use dating_app_backend.Store.{Db}
use dating_app_backend.Chat.Model.{
  ChatError, validation, not_found, database, ConversationAccess, Event, Emission, typing_started,
  typing_stopped, active_conversation,
}

pub record Client : Type 0 where
  pub id : ℕ
  pub user_id : ℕ
  pub send : List Event

-- A key of `typingSeen` is the user, the conversation and whether typing started.
pub record TypingKey : Type 0 where
  pub user : ℕ
  pub conversation : ℕ
  pub started : Bool

pub record TypingEntry : Type 0 where
  pub key : TypingKey
  pub at : ℕ

pub record Hub : Type 0 where
  pub clients : List Client
  pub typing_seen : List TypingEntry

abbrev pub new_hub : Hub
new_hub = record { clients = []; typing_seen = [] }

abbrev pub same_bool : Bool → Bool → Bool
same_bool true b = b
same_bool false b = not b

abbrev pub same_key : TypingKey → TypingEntry → Bool
same_key k e =
    e.key.user == k.user
    && (e.key.conversation == k.conversation && same_bool e.key.started k.started)

-- `typingThrottleTTL`
abbrev pub typing_throttle : ℕ
typing_throttle = 2000

abbrev pub last_typing : TypingKey → Hub → Option TypingEntry
last_typing k h = find_first (same_key k) h.typing_seen

abbrev pub set_typing : TypingKey → ℕ → Hub → Hub
set_typing k now h = record h {
  typing_seen = record { key = k; at = now } ∷ delete_where (same_key k) h.typing_seen;
}

abbrev pub throttled : Option TypingEntry → ℕ → Bool
throttled none now = false
throttled (some e) now = ltb (now - e.at) typing_throttle

-- `AllowTypingEvent`
unfoldable pub allow_typing_event : TypingKey → ℕ → Hub → Bool × Hub
allow_typing_event k now h =
    if throttled (last_typing k h) now then (false, h) else (true, set_typing k now h)

-- `clientSendBuffer`
abbrev pub client_send_buffer : ℕ
client_send_buffer = 32

abbrev pub is_client : ℕ → ℕ → Client → Bool
is_client id user c = c.id == id && c.user_id == user

-- `Register`, of a client that `NewClient` has made.
unfoldable pub register : ℕ → ℕ → Hub → Hub
register id user h =
    if exists (is_client id user) h.clients
    then h
    else record h { clients = record { id = id; user_id = user; send = [] } ∷ h.clients }

-- `Unregister`: the channel is closed with the entry.
unfoldable pub unregister : ℕ → ℕ → Hub → Hub
unregister id user h = record h { clients = delete_where (is_client id user) h.clients }

-- The client has room in its channel.
abbrev pub takes_event : ℕ → Client → Bool
takes_event user c = c.user_id == user && ltb (length c.send) client_send_buffer

abbrev pub receive : Event → Client → Client
receive event c = record c { send = c.send ++ event ∷ [] }

-- `SendToUser`: the number of channels that took the event.
unfoldable pub send_to_user : ℕ → Event → Hub → ℕ × Hub
send_to_user user event h = (
  length (select (takes_event user) h.clients),
  record h { clients = update_where (takes_event user) (receive event) h.clients },
)

-- `Service.emitToUser`; the service may have no hub.
abbrev pub emit_to_user : Emission → Option Hub → Option Hub
emit_to_user e none = none
emit_to_user e (some h) = some ((send_to_user e.to_user e.event h).1)

abbrev pub typing_event : Bool → ConversationAccess → Emission
typing_event true a = record {
  to_user = a.other_user_id;
  event = typing_started a.conversation_uuid a.user_uuid;
}
typing_event false a = record {
  to_user = a.other_user_id;
  event = typing_stopped a.conversation_uuid a.user_uuid;
}

abbrev pub emit_if_allowed : Emission → Bool × Hub → Option Hub
emit_if_allowed e (false, h) = some h
emit_if_allowed e (true, h) = emit_to_user e (some h)

abbrev pub emit_typing : ℕ → ℕ → Bool → ConversationAccess → Option Hub → Option Hub
emit_typing now user started a none = none
emit_typing now user started a (some h) = emit_if_allowed (typing_event started a) (
    allow_typing_event (record { user = user; conversation = a.conversation_id; started = started })
      now h)

-- `Typing`; `fails` says whether its query fails, and the value is the hub that it leaves.
unfoldable pub typing :
    (Text → Option ℕ) → Bool → ℕ → ℕ → Text → Bool → Option Hub → Handler ChatError Db (Option Hub)
typing parse_uuid fails now user raw started hub = do
  conversation ← or_throw (parse_uuid (trim_space raw)) validation
  found ← query fails database (active_conversation user conversation)
  access ← or_throw found not_found
  pure (emit_typing now user started access hub)
