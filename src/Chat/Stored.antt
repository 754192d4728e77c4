-- ===== src/Chat/Stored.antt =====
-- internal/chat/service.go: what `SendMessage` has done where it ends well.
use dating_app_backend.Prelude.{
  ℕ, ◌+◌, ◌≡◌, refl, inl, inr, Bool, true, false, Option, none, some, ◌∷◌, exists, update_where,
  ◌==◌, pure, Outcome, done, ◌>>=◌, transaction, Bool-cases, Option-cases, transaction-done,
  bind-done,
}
use dating_app_backend.Store.{Message, Conversation, Db}
use dating_app_backend.Chat.Model.{
  ChatError, database, ConversationAccess, ExistingMessage, NormalizedSend, active_conversation,
  has_client_id, message_by_client_id,
}
use dating_app_backend.Chat.Send.{
  Site, find_existing, read_access, recheck, insert_message, insert_receipt, touch_conversation,
  commit, same_payload, Sent, Inserted, new_message, inserted_row, add_receipt, as_touched,
  insert_row, store_message, reuse_or_insert, send_into, send_if_found, send_tx, announce,
  known_message, send_normalized,
}

module _ (now fresh_uuid sender : ℕ) (n : NormalizedSend) (db : Db) where
  abbrev pub added_message : ConversationAccess → Message
  added_message access = new_message db.next_message now fresh_uuid sender n access

  -- The store with a message added, its receipt and its conversation's last message.
  abbrev pub stored_db : ConversationAccess → Db
  stored_db access = record db {
    messages = added_message access ∷ db.messages;
    next_message = db.next_message + 1;
    receipts = add_receipt (added_message access).id access.other_user_id now db.receipts;
    conversations =
        update_where (λ (c : Conversation). c.id == access.conversation_id)
          (as_touched (added_message access) now) db.conversations;
  }

  pub record Stored (i : Inserted) (db' : Db) : Type 0 where
    pub access : ConversationAccess
    pub has_access : active_conversation sender n.conversation_uuid db ≡ some access
    pub is_new : exists (has_client_id sender n.client_message_id) db.messages ≡ false
    pub inserted : i ≡ record {
      access = access;
      row = inserted_row (added_message access) access.user_uuid;
      created = true;
    }
    pub db_is : db' ≡ stored_db access

  -- The two good ends: the client id was known with this payload, or a message was added.
  pub data SendEnd (r : Sent) (db' : Db) : Type 0 where
    known :
        (e : ExistingMessage)
        → message_by_client_id sender n.client_message_id db ≡ some e
        → same_payload e n ≡ true
        → r ≡ known_message e
        → db' ≡ db
        → SendEnd r db'
    added :
        (i : Inserted)
        → message_by_client_id sender n.client_message_id db ≡ none
        → Stored i db'
        → r ≡ announce i
        → SendEnd r db'

  known_end :
      (e : ExistingMessage) (r : Sent) (db' : Db)
      → message_by_client_id sender n.client_message_id db ≡ some e
      → same_payload e n ≡ true
      → ◌≡◌ {A = Outcome ChatError Db Sent} (done (known_message e) db) (done r db')
      → SendEnd r db'
  known_end e r db' x s h =
      let a : r ≡ known_message e = cc in let b : db' ≡ db = cc in known e x s a b

  pure_store :
      (i : Inserted) (s : Db) (r : Sent) (db' : Db)
      → ◌≡◌ {A = Outcome ChatError Db Sent} (done (announce i) s) (done r db')
      → s ≡ db'
  pure_store i s r db' h = cc

  pure_value :
      (i : Inserted) (s : Db) (r : Sent) (db' : Db)
      → ◌≡◌ {A = Outcome ChatError Db Sent} (done (announce i) s) (done r db')
      → r ≡ announce i
  pure_value i s r db' h = cc

module _ (faults : Site → Bool) (now fresh_uuid sender : ℕ) (n : NormalizedSend) (db : Db) where
  reuse_or_insert-Stored :
      (access : ConversationAccess) (i : Inserted) (db' : Db)
      → active_conversation sender n.conversation_uuid db ≡ some access
      → reuse_or_insert faults now fresh_uuid sender n access none db ≡ done i db'
      → Stored now fresh_uuid sender n db i db'
  unfolding insert_row store_message reuse_or_insert
  reuse_or_insert-Stored access i db' a h = elim (Bool-cases (faults insert_message)) [
    | inl f ↦ (let k = rw (f, reuse_or_insert, insert_row, store_message, ◌>>=◌) at h in cc)
    | inr f ↦ elim (Bool-cases (exists (has_client_id sender n.client_message_id) db.messages)) [
      | inl x ↦ (let k = rw (f, x, reuse_or_insert, insert_row, store_message, ◌>>=◌) at h in cc)
      | inr x ↦ elim (Bool-cases (faults insert_receipt)) [
        | inl g ↦
            (let k = rw (f, x, g, reuse_or_insert, insert_row, store_message, ◌>>=◌) at h in cc)
        | inr g ↦ elim (Bool-cases (faults touch_conversation)) [
          | inl t ↦
              (let k = rw (f, x, g, t, reuse_or_insert, insert_row, store_message, ◌>>=◌) at h in
                cc)
          | inr t ↦
              let k = rw (f, x, g, t, reuse_or_insert, insert_row, store_message, ◌>>=◌) at h in
              record { access = access; has_access = a; is_new = x; inserted = cc; db_is = cc }
        ]
      ]
    ]
  ]

  send_into-Stored :
      (access : ConversationAccess) (i : Inserted) (db' : Db)
      → active_conversation sender n.conversation_uuid db ≡ some access
      → message_by_client_id sender n.client_message_id db ≡ none
      → send_into faults now fresh_uuid sender n access db ≡ done i db'
      → Stored now fresh_uuid sender n db i db'
  unfolding send_into
  send_into-Stored access i db' a e h = elim (Bool-cases (faults recheck)) [
    | inl g ↦ (let k = rw (g, send_into) at h in cc)
    | inr g ↦ reuse_or_insert-Stored access i db' a (rw (g, send_into, ◌>>=◌, e) at h)
  ]

  found_access-Stored :
      (found : Option ConversationAccess) (i : Inserted) (db' : Db)
      → active_conversation sender n.conversation_uuid db ≡ found
      → message_by_client_id sender n.client_message_id db ≡ none
      → send_if_found faults now fresh_uuid sender n found db ≡ done i db'
      → Stored now fresh_uuid sender n db i db'
  unfolding send_if_found
  found_access-Stored none i db' a e h = cc
  found_access-Stored (some access) i db' a e h = send_into-Stored access i db' a e h

  pub send_tx-Stored :
      (i : Inserted) (db' : Db)
      → message_by_client_id sender n.client_message_id db ≡ none
      → send_tx faults now fresh_uuid sender n db ≡ done i db'
      → Stored now fresh_uuid sender n db i db'
  unfolding send_tx
  send_tx-Stored i db' e h = elim (Bool-cases (faults read_access)) [
    | inl f ↦ (let k = rw (f, send_tx) at h in cc)
    | inr f ↦
        found_access-Stored (active_conversation sender n.conversation_uuid db) i db' refl e
          (rw (f, send_tx, ◌>>=◌) at h)
  ]

  pub send_normalized-SendEnd :
      (r : Sent) (db' : Db)
      → send_normalized faults now fresh_uuid sender n db ≡ done r db'
      → SendEnd now fresh_uuid sender n db r db'
  unfolding send_normalized
  send_normalized-SendEnd r db' h = elim (Bool-cases (faults find_existing)) [
    | inl f ↦ (let k = rw (f, send_normalized) at h in cc)
    | inr f ↦ elim (Option-cases (message_by_client_id sender n.client_message_id db)) [
      | inr (e, x) ↦ elim (Bool-cases (same_payload e n)) [
        | inl s ↦
            (let k = rw (f, x, s, send_normalized, ◌>>=◌) at h in
              known_end now fresh_uuid sender n db e r db' x s k)
        | inr s ↦ (let k = rw (f, x, s, send_normalized, ◌>>=◌) at h in cc)
      ]
      | inl x ↦
          let body =
            transaction (faults commit) database (send_tx faults now fresh_uuid sender n) in
          let (i, s, t, p) =
            bind-done body (λ i. pure (announce i)) db (rw (f, x, send_normalized, ◌>>=◌) at h) in
          added i x
            (send_tx-Stored i db' x (
              transaction-done (faults commit) database (send_tx faults now fresh_uuid sender n) db
                (rw (pure_store now fresh_uuid sender n db i s r db' p) at t)))
            (pure_value now fresh_uuid sender n db i s r db' p)
    ]
  ]
