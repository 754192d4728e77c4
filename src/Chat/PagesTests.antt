-- ===== src/Chat/PagesTests.antt =====
-- internal/chat: a client pages through a conversation.
use dating_app_backend.Prelude.{
  ◌+◌, ◌≡◌, refl, Bool, false, Option, none, some, List, [], ◌∷◌, Text, codes, trim_space, ok,
  length,
}
use dating_app_backend.Store.{text_message, message_active, Message, Db}
use dating_app_backend.Chat.Model.{
  ConversationAccess, MessageResponse, active_conversation, visible_body, delivery_state,
  to_response, sent,
}
use dating_app_backend.Chat.Messages.{
  ListSite, CursorCodec, MessageCursor, limit_value, normalize_limit, decode_message_cursor,
  message_rows, messages, sorted_messages,
}
use dating_app_backend.Chat.Pages.{follow_pages, CodecLaws, AllRows, follow_pages_complete}
use dating_app_backend.Chat.Tests.{chat_db, letter_uuid, first_message}

abbrev second_message : Message
second_message = record first_message {
  id = 9;
  uuid = 109;
  sender_user_id = 1;
  body = some (codes "hello");
  client_message_id = 72;
  created_at = 30;
}

abbrev two_messages_db : Db
two_messages_db = record chat_db { messages = second_message ∷ first_message ∷ [] }

abbrev read_cursor : Text → Option MessageCursor
read_cursor (a ∷ time ∷ id ∷ b ∷ []) = some (record { created_at = time; message_id = id })
read_cursor _ = none

abbrev plain_codec : CursorCodec
plain_codec = record {
  encode = λ c. b'<' ∷ c.created_at ∷ c.message_id ∷ b'>' ∷ [];
  decode = read_cursor;
}

plain_codec-laws : CodecLaws plain_codec
unfolding trim_space
plain_codec-laws = record { reads_back = λ c. refl; not_blank = λ c. refl }

abbrev no_list_faults : ListSite → Bool
no_list_faults _ = false

-- With a limit of 1 the client makes two calls.
pages_run :
    follow_pages letter_uuid plain_codec no_list_faults 1
      (105 ∷ [])
      (codes "1")
      two_messages_db
      2
      []
    ≡ some (
        record {
          message_uuid = 109;
          client_message_id = 72;
          sender_user_uuid = 201;
          message_type = text_message;
          body = some (codes "hello");
          message_status = message_active;
          delivery_state = sent;
          created_at = 30;
          deleted = false;
          deleted_at = none;
        }
        ∷ record {
          message_uuid = 108;
          client_message_id = 71;
          sender_user_uuid = 202;
          message_type = text_message;
          body = some (codes "hey");
          message_status = message_active;
          delivery_state = sent;
          created_at = 20;
          deleted = false;
          deleted_at = none;
        }
        ∷ [])
unfolding follow_pages messages message_rows decode_message_cursor normalize_limit limit_value
    active_conversation to_response visible_body delivery_state trim_space
pages_run = refl

abbrev chat_access : ConversationAccess
chat_access = record {
  conversation_id = 5;
  conversation_uuid = 105;
  match_id = 3;
  match_uuid = 103;
  user_uuid = 201;
  other_user_id = 2;
  other_user_uuid = 202;
}

chat_access_run : active_conversation 1 105 two_messages_db ≡ some chat_access
unfolding active_conversation
chat_access_run = refl

letter_run : letter_uuid (trim_space (105 ∷ [])) ≡ some 105
unfolding trim_space
letter_run = refl

one_run : normalize_limit (codes "1") 30 100 ≡ ok 1
unfolding normalize_limit limit_value trim_space
one_run = refl

follow_pages_complete_example :
    (items : List MessageResponse) × (follow_pages letter_uuid plain_codec no_list_faults 1
        (105 ∷ [])
        (codes "1")
        two_messages_db
        (length (sorted_messages 5 two_messages_db) + 1)
        []
      ≡ some items)
    × AllRows 5 two_messages_db items
follow_pages_complete_example =
    follow_pages_complete letter_uuid plain_codec plain_codec-laws no_list_faults 1 (105 ∷ [])
      (codes "1") two_messages_db 105 chat_access 1 letter_run chat_access_run one_run refl refl
      ((refl, tt), (tt, tt)) ((refl, refl), ((refl, refl), tt))
