-- ===== src/Chat/Tests.antt =====
-- internal/chat: two members of a match exchange messages.
use dating_app_backend.Prelude.{
  ℕ, ◌+◌, ◌≡◌, refl, Bool, true, false, Option, none, some, List, [], ◌∷◌, Text, codes, trim_space,
  to_upper, store_of, done, failed, length,
}
use dating_app_backend.Store.{
  User, user_active, match_active, conversation_active, ConversationParticipant, text_message,
  message_active, message_deleted, Message, MessageReceipt, Db,
}
use dating_app_backend.Chat.Model.{
  idempotency_conflict, forbidden, MessageResponse, SendMessageRequest, active_conversation,
  message_by_client_id, visible_body, delivery_state, to_response, sent, message_received,
  conversation_updated, message_seen,
}
use dating_app_backend.Chat.Send.{
  Site, Sent, normalize_send_message, emit_message_created, insert_row, store_message,
  reuse_or_insert, send_into, send_if_found, send_tx, send_normalized, send_message,
}
use dating_app_backend.Chat.Receipts.{
  ReceiptSite, Emitted, MarkReadResponse, read_position_of, read_to, read_found, read_with,
  mark_read_tx, mark_read, delete_found, delete_tx, delete_message,
}
use dating_app_backend.Chat.Retry.{repeated, send_message_retry}
use dating_app_backend.Chat.Created.{Created, send_message_creates}
use dating_app_backend.Chat.Kept.{
  ChatCall, sending, reading, deleting, delivering, after_calls, ChatIsSound, after_calls-IsSound,
}
use dating_app_backend.Chat.Position.{NotBehind, read_position_forward}
use dating_app_backend.Chat.Seen.{SeenUpTo, mark_read_sees}
use dating_app_backend.Chat.Erased.{IsErased, delete_message_erases}
use dating_app_backend.Chat.Hub.{new_hub, allow_typing_event, register, unregister, send_to_user}
use dating_app_backend.Chat.Typing.{TypingCall, allowed_calls, IsSpaced, allowed_calls-IsSpaced}

abbrev person : ℕ → User
person id = record { id = id; uuid = 200 + id; status = user_active; deleted_at = none }

abbrev part : ℕ → ConversationParticipant
part user = record {
  conversation_id = 5;
  user_id = user;
  last_read_message_id = none;
  last_read_at = none;
  hidden_at = none;
  updated_at = 10;
}

-- User 2 has written "hey", under client id 71.
abbrev pub first_message : Message
first_message = record {
  id = 8;
  uuid = 108;
  conversation_id = 5;
  match_id = 3;
  sender_user_id = 2;
  message_type = text_message;
  body = some (codes "hey");
  client_message_id = 71;
  status = message_active;
  created_at = 20;
  deleted_at = none;
  deleted_by_user_id = none;
  updated_at = 20;
}

abbrev receipt : ℕ → ℕ → Option ℕ → MessageReceipt
receipt message user at = record {
  message_id = message;
  user_id = user;
  delivered_at = at;
  seen_at = at;
  updated_at = 20;
}

abbrev pub chat_db : Db
chat_db = record {
  users = person 1 ∷ person 2 ∷ [];
  blocks = [];
  actions = [];
  next_action = 1;
  matches =
      record {
        id = 3;
        uuid = 103;
        user_low_id = 1;
        user_high_id = 2;
        initiated_by_user_id = some 1;
        status = match_active;
        matched_at = 10;
        unmatched_at = none;
        unmatched_by_user_id = none;
        unmatch_reason_code = none;
        unmatch_reason_note = none;
        updated_at = 10;
      }
      ∷ [];
  next_match = 4;
  match_participants = [];
  conversations =
      record {
        id = 5;
        uuid = 105;
        match_id = 3;
        status = conversation_active;
        last_message_id = some 8;
        last_message_at = some 20;
        updated_at = 20;
      }
      ∷ [];
  next_conversation = 6;
  conversation_participants = part 1 ∷ part 2 ∷ [];
  messages = first_message ∷ [];
  next_message = 9;
  receipts = receipt 8 1 none ∷ [];
  usage = [];
  preferences = [];
}

abbrev pub letter_uuid : Text → Option ℕ
letter_uuid [] = none
letter_uuid (c ∷ s) = some c

abbrev no_faults : Site → Bool
no_faults _ = false

abbrev no_receipt_faults : ReceiptSite → Bool
no_receipt_faults _ = false

-- User 1 answers, under client id 72.
abbrev hello : SendMessageRequest
hello = record { client_message_id = 72 ∷ []; message_type = codes "text"; body = codes " hello " }

abbrev hello_db : Db
hello_db = store_of (send_message letter_uuid no_faults 30 109 1 (105 ∷ []) hello chat_db)

abbrev hello_response : MessageResponse
hello_response = record {
  message_uuid = 109;
  client_message_id = 72;
  sender_user_uuid = 201;
  message_type = text_message;
  body = some (codes "hello");
  message_status = message_active;
  delivery_state = sent;
  created_at = 30;
  deleted = false;
  deleted_at = none;
}

abbrev hello_sent : Sent
hello_sent = record {
  response = record { message_uuid = 109; client_message_id = 72; created_at = 30 };
  created = true;
  emitted =
      record { to_user = 2; event = message_received 105 hello_response }
      ∷ record { to_user = 2; event = conversation_updated 105 }
      ∷ record { to_user = 1; event = conversation_updated 105 }
      ∷ [];
  notified = some 109;
}

hello_run :
    send_message letter_uuid no_faults 30 109 1 (105 ∷ []) hello chat_db ≡ done hello_sent hello_db
unfolding send_message send_normalized send_tx send_if_found send_into reuse_or_insert store_message
    insert_row normalize_send_message message_by_client_id active_conversation emit_message_created
    to_response visible_body delivery_state trim_space to_upper
hello_run = refl

send_message_retry_example :
    send_message letter_uuid no_faults 60 140 1 (105 ∷ []) hello hello_db
    ≡ done (repeated hello_sent) hello_db
send_message_retry_example =
    send_message_retry letter_uuid no_faults no_faults 30 60 109 140 1 (105 ∷ []) hello chat_db
      hello_db hello_sent (tt, tt) hello_run refl

send_message_creates_example : Created 1 chat_db hello_db hello_sent
send_message_creates_example =
    send_message_creates letter_uuid no_faults 30 109 1 (105 ∷ []) hello chat_db hello_db hello_sent
      refl hello_run refl

-- The same client id with another body.
conflict_run :
    send_message letter_uuid no_faults 60 140 1
      (105 ∷ [])
      (record hello { body = codes "bye" })
      hello_db
    ≡ failed idempotency_conflict hello_db
unfolding send_message send_normalized send_tx send_if_found send_into reuse_or_insert store_message
    insert_row normalize_send_message message_by_client_id active_conversation trim_space to_upper
conflict_run = refl

abbrev script : List ChatCall
script =
    sending no_faults 30 109 1 (105 ∷ []) hello
    ∷ reading no_receipt_faults 40 2 (105 ∷ []) (109 ∷ [])
    ∷ delivering no_receipt_faults 41 1 (105 ∷ []) (108 ∷ [])
    ∷ deleting no_receipt_faults 50 1 (109 ∷ [])
    ∷ []

chat_is_sound : ChatIsSound chat_db
chat_is_sound = (((λ e. cc), tt), ((λ e. cc), tt))

after_calls-IsSound_example : ChatIsSound (after_calls letter_uuid script chat_db)
after_calls-IsSound_example = after_calls-IsSound letter_uuid script chat_db chat_is_sound

read_position_forward_example :
    NotBehind
      (read_position_of 5 2 chat_db)
      (read_position_of 5 2 (after_calls letter_uuid script chat_db))
read_position_forward_example = read_position_forward letter_uuid 5 2 script chat_db

abbrev seen_db : Db
seen_db = store_of (mark_read no_receipt_faults 40 1 letter_uuid (105 ∷ []) (108 ∷ []) chat_db)

abbrev seen_answer : Emitted MarkReadResponse
seen_answer = record {
  response = record { conversation_uuid = 105; last_read_message_uuid = 108; last_read_at = 40 };
  emitted = record { to_user = 2; event = message_seen 105 108 201 } ∷ [];
}

read_run :
    mark_read no_receipt_faults 40 1 letter_uuid (105 ∷ []) (108 ∷ []) chat_db
    ≡ done seen_answer seen_db
unfolding mark_read mark_read_tx read_with read_found read_to active_conversation trim_space
read_run = refl

mark_read_sees_example : SeenUpTo 1 105 108 chat_db seen_db
mark_read_sees_example =
    mark_read_sees letter_uuid no_receipt_faults 40 1 (105 ∷ []) (108 ∷ []) chat_db seen_db
      seen_answer read_run

abbrev erased_db : Db
erased_db = store_of (delete_message no_receipt_faults 50 2 letter_uuid (108 ∷ []) chat_db)

delete_run :
    delete_message no_receipt_faults 50 2 letter_uuid (108 ∷ []) chat_db
    ≡ done (record { message_uuid = 108; status = message_deleted }) erased_db
unfolding delete_message delete_tx delete_found trim_space
delete_run = refl

delete_foreign_run :
    delete_message no_receipt_faults 50 1 letter_uuid (108 ∷ []) chat_db ≡ failed forbidden chat_db
unfolding delete_message delete_tx delete_found trim_space
delete_foreign_run = refl

delete_message_erases_example : IsErased 2 108 chat_db erased_db
delete_message_erases_example =
    delete_message_erases letter_uuid no_receipt_faults 50 2 (108 ∷ []) chat_db erased_db
      (record { message_uuid = 108; status = message_deleted }) chat_is_sound delete_run

abbrev typing_at : ℕ → TypingCall
typing_at now = record { key = record { user = 1; conversation = 5; started = true }; now = now }

allowed_calls-IsSpaced_example :
    IsSpaced (allowed_calls (typing_at 0 ∷ typing_at 1500 ∷ typing_at 2500 ∷ []) new_hub)
allowed_calls-IsSpaced_example =
    allowed_calls-IsSpaced (typing_at 0 ∷ typing_at 1500 ∷ typing_at 2500 ∷ []) new_hub

throttled_run :
    length (allowed_calls (typing_at 0 ∷ typing_at 1500 ∷ typing_at 2500 ∷ []) new_hub) ≡ 2
unfolding allowed_calls allow_typing_event
throttled_run = refl

-- The client of user 2 takes the event, that of user 1 does not, and a client that is gone takes none.
sent_run : (send_to_user 2 (conversation_updated 105) (register 2 1 (register 1 2 new_hub))).0 ≡ 1
unfolding send_to_user register
sent_run = refl

gone_run : (send_to_user 2 (conversation_updated 105) (unregister 1 2 (register 1 2 new_hub))).0 ≡ 0
unfolding send_to_user register unregister
gone_run = refl
