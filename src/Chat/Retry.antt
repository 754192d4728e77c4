-- ===== src/Chat/Retry.antt =====
-- internal/chat/service.go: `SendMessage` called again with the same client id.
use dating_app_backend.Prelude.{
  ℕ, [], ◌≡◌, refl, ap, ◌∙◌, inl, inr, Bool, true, false, Option, none, some, Text, find_first,
  ◌==◌, patch, done, ◌>>=◌, Bool-cases, Result-cases, ==_refl, ==_iff, text_eq_refl,
  find_first_sound, find_first_by_key, find_first-update_where, UniqueKeys,
}
use mathlib.Core.Option
use dating_app_backend.Store.{
  Message, Conversation, Db, MessageType, text_message, system_message, message_active,
}
use dating_app_backend.Chat.Model.{
  ConversationAccess, ExistingMessage, SendMessageRequest, NormalizedSend, conversation_by_id,
  active_conversation, message_by_client_id,
}
use dating_app_backend.Chat.Access.{active_conversation-Accessed}
use dating_app_backend.Chat.Send.{
  Site, find_existing, normalize_send_message, same_type, same_payload, Sent, as_touched,
  known_message, send_normalized, send_message,
}
use dating_app_backend.Chat.Stored.{
  stored_db, added_message, SendEnd, known, added, send_normalized-SendEnd,
}

abbrev pub conversation_key : Conversation → ℕ
conversation_key c = c.id

same_type_refl : (t : MessageType) → same_type t t ≡ true
same_type_refl text_message = refl
same_type_refl system_message = refl

-- The update of the last message changes no id and no uuid.
touch_keeps :
    (id now : ℕ) (m : Message) (c : Conversation)
    → (patch (λ (x : Conversation). x.id == id) (as_touched m now) c).uuid ≡ c.uuid
touch_keeps id now m c = elim (Bool-cases (c.id == id)) [ inl b ↦ rw b refl | inr b ↦ rw b refl ]

touch_keeps_id :
    (id now k : ℕ) (m : Message) (c : Conversation)
    → ((patch (λ (x : Conversation). x.id == id) (as_touched m now) c).id == k) ≡ (c.id == k)
touch_keeps_id id now k m c = elim (Bool-cases (c.id == id)) [
  | inl b ↦ rw b refl
  | inr b ↦ rw b refl
]

module _ (now fresh_uuid sender : ℕ) (n : NormalizedSend) (db : Db) where
  -- The conversation that a later call joins with the message.
  stored_conversation :
      (access : ConversationAccess)
      → UniqueKeys conversation_key db.conversations
      → active_conversation sender n.conversation_uuid db ≡ some access
      → (c : Conversation) × (conversation_by_id access.conversation_id
            (stored_db now fresh_uuid sender n db access)
          ≡ some c)
        × (c.uuid ≡ n.conversation_uuid)
  stored_conversation access unique a =
      let w = active_conversation-Accessed sender n.conversation_uuid db access a in
      let c = w.conversation in
      let id_is : access.conversation_id ≡ c.id =
        ap (λ (x : ConversationAccess). x.conversation_id) w.row_is in
      let uuid_is : c.uuid ≡ n.conversation_uuid = (==_iff c.uuid n.conversation_uuid).0 (
        find_first_sound (λ (x : Conversation). x.uuid == n.conversation_uuid) db.conversations c
          w.found_conversation) in
      let m = added_message now fresh_uuid sender n db access in
      let mine = (λ (x : Conversation). x.id == access.conversation_id) in
      let by_key : find_first mine db.conversations ≡ some c = rw id_is (
        find_first_by_key conversation_key (λ (x : Conversation). x.uuid == n.conversation_uuid)
          db.conversations c unique w.found_conversation) in
      (
        patch mine (as_touched m now) c,
        find_first-update_where mine (as_touched m now) mine db.conversations
              (touch_keeps_id access.conversation_id now access.conversation_id m)
            ∙ ap (Option.map (patch mine (as_touched m now))) by_key,
        touch_keeps access.conversation_id now m c ∙ uuid_is,
      )

  -- What a later call finds under the client id of an added message.
  stored_existing :
      (access : ConversationAccess)
      → UniqueKeys conversation_key db.conversations
      → active_conversation sender n.conversation_uuid db ≡ some access
      → message_by_client_id sender n.client_message_id
          (stored_db now fresh_uuid sender n db access)
        ≡ some (record {
          message_id = db.next_message;
          message_uuid = fresh_uuid;
          conversation_uuid = n.conversation_uuid;
          message_type = n.message_type;
          body = some n.body;
          message_status = message_active;
          client_message_id = n.client_message_id;
          created_at = now;
        })
  unfolding message_by_client_id
  stored_existing access unique a =
      let (c, found, uuid_is) = stored_conversation access unique a in
      rw (message_by_client_id, ==_refl sender, ==_refl n.client_message_id, found, uuid_is) refl

same_as_stored :
    (n : NormalizedSend) (id uuid now : ℕ)
    → same_payload
        (record {
          message_id = id;
          message_uuid = uuid;
          conversation_uuid = n.conversation_uuid;
          message_type = n.message_type;
          body = some n.body;
          message_status = message_active;
          client_message_id = n.client_message_id;
          created_at = now;
        })
        n
      ≡ true
same_as_stored n id uuid now =
    rw (==_refl n.conversation_uuid, same_type_refl n.message_type, text_eq_refl n.body) refl

-- The answer to a repetition.
abbrev pub repeated : Sent → Sent
repeated r = record { response = r.response; created = false; emitted = []; notified = none }

module _ (faults : Site → Bool) (now fresh_uuid sender : ℕ) (n : NormalizedSend) where
  known_again :
      (e : ExistingMessage) (db : Db)
      → faults find_existing ≡ false
      → message_by_client_id sender n.client_message_id db ≡ some e
      → same_payload e n ≡ true
      → send_normalized faults now fresh_uuid sender n db ≡ done (known_message e) db
  unfolding send_normalized
  known_again e db up found same = rw (up, found, same, send_normalized, ◌>>=◌) refl

  end_again :
      (now' fresh' : ℕ) (db : Db) (r : Sent) (db' : Db)
      → UniqueKeys conversation_key db.conversations
      → faults find_existing ≡ false
      → SendEnd now' fresh' sender n db r db'
      → send_normalized faults now fresh_uuid sender n db' ≡ done (repeated r) db'
  end_again now' fresh' db r db' unique up (known e found same answer kept) =
      rw (kept, answer) (known_again e db up found same)
  end_again now' fresh' db r db' unique up (added i was_none s answer) =
      rw (s.db_is, answer, s.inserted)
        (known_again _ _ up (stored_existing now' fresh' sender n db s.access unique s.has_access)
          (same_as_stored n db.next_message fresh' now'))

-- When `SendMessage` has ended well, the same call by the same sender, at any time and with any fresh
-- uuid, gives the same answer, says that nothing was created, emits and notifies nothing, and leaves
-- the store as it is, if its first query does not fail. Ids of conversations are unique.
pub send_message_retry :
    (parse_uuid : Text → Option ℕ) (faults faults' : Site → Bool) (now now' fresh fresh' sender : ℕ)
    (raw : Text) (req : SendMessageRequest) (db db' : Db) (r : Sent)
    → UniqueKeys conversation_key db.conversations
    → send_message parse_uuid faults now fresh sender raw req db ≡ done r db'
    → faults' find_existing ≡ false
    → send_message parse_uuid faults' now' fresh' sender raw req db' ≡ done (repeated r) db'
unfolding send_message
send_message_retry parse_uuid faults faults' now now' fresh fresh' sender raw req db db' r unique h
      up =
    elim (Result-cases (normalize_send_message parse_uuid raw req)) [
      | inr (e, q) ↦ (let k = rw (q, send_message, ◌>>=◌) at h in cc)
      | inl (n, q) ↦
          rw (q, send_message, ◌>>=◌)
            (end_again faults' now' fresh' sender n now fresh db r db' unique up (
              send_normalized-SendEnd faults now fresh sender n db r db'
                (rw (q, send_message, ◌>>=◌) at h)))
    ]
