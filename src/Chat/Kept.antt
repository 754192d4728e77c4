-- ===== src/Chat/Kept.antt =====
-- internal/chat/service.go: messages and receipts along any sequence of calls.
use dating_app_backend.Prelude.{
  ℕ, ◌≡◌, refl, inl, inr, ◌⊎◌, Bool, true, ◌&&◌, Option, none, List, [], ◌∷◌, Text, ◌==◌, is_some,
  exists, All, All-update_where, done, failed, store_of, ◌>>=◌, transaction_ends, Bool-cases,
  Option-cases, Result-cases,
}
use dating_app_backend.Store.{
  Message, MessageStatus, message_active, message_deleted, MessageReceipt, Db,
}
use dating_app_backend.Chat.Model.{
  ChatError, database, idempotency_conflict, is_deleted, SendMessageRequest, NormalizedSend,
  message_by_client_id,
}
use dating_app_backend.Chat.Send.{
  Site, find_existing, commit, normalize_send_message, same_payload, Sent, add_receipt, send_tx,
  announce, known_message, send_normalized, send_message,
}
use dating_app_backend.Chat.Stored.{SendEnd, known, added, send_tx-Stored}
use dating_app_backend.Chat.Receipts.{
  ReceiptSite, mark_read, delete_message, mark_delivered, is_read_receipt, as_seen, as_delivered,
  as_deleted,
}
use dating_app_backend.Chat.Marks.{deleted_db}
use dating_app_backend.Chat.Ends.{mark_read_ends, delete_message_ends, mark_delivered_ends}

-- A deleted message has no body.
abbrev pub MessageIsErased : Message → Type 0
MessageIsErased m = is_deleted m.status ≡ true → m.body ≡ none

-- A receipt that is seen is delivered.
abbrev pub ReceiptIsOrdered : MessageReceipt → Type 0
ReceiptIsOrdered r = is_some r.seen_at ≡ true → is_some r.delivered_at ≡ true

abbrev pub ChatIsSound : Db → Type 0
ChatIsSound db = All MessageIsErased db.messages × All ReceiptIsOrdered db.receipts

add_receipt-IsOrdered :
    (message user now : ℕ) (receipts : List MessageReceipt)
    → All ReceiptIsOrdered receipts
    → All ReceiptIsOrdered (add_receipt message user now receipts)
add_receipt-IsOrdered message user now receipts h =
    elim (Bool-cases
      (exists (λ (r : MessageReceipt). r.message_id == message && r.user_id == user) receipts)) [
        | inl b ↦ rw b h
        | inr b ↦ rw b ((λ e. cc), h)
      ]

module _ (faults : Site → Bool) (now fresh sender : ℕ) (n : NormalizedSend) (db : Db) where
  -- A send ends with an error on the store that it was given, or well.
  pub send_normalized_ends :
      ((e : ChatError) × (send_normalized faults now fresh sender n db ≡ failed e db))
      ⊎ ((r : Sent) × (db' : Db) × (send_normalized faults now fresh sender n db ≡ done r db')
          × SendEnd now fresh sender n db r db')
  unfolding send_normalized
  send_normalized_ends = elim (Bool-cases (faults find_existing)) [
    | inl f ↦ inl (database, rw (f, send_normalized) refl)
    | inr f ↦ elim (Option-cases (message_by_client_id sender n.client_message_id db)) [
      | inr (e, x) ↦ elim (Bool-cases (same_payload e n)) [
        | inl s ↦
            inr (
              known_message e,
              db,
              rw (f, x, s, send_normalized, ◌>>=◌) refl,
              known e x s refl refl,
            )
        | inr s ↦ inl (idempotency_conflict, rw (f, x, s, send_normalized, ◌>>=◌) refl)
      ]
      | inl x ↦
          elim (transaction_ends (faults commit) database (send_tx faults now fresh sender n) db) [
            | inl (e, q) ↦ inl (e, rw (f, x, send_normalized, ◌>>=◌, q) refl)
            | inr (i, db', q, t) ↦ inr (
              announce i,
              db',
              rw (f, x, send_normalized, ◌>>=◌, q) refl,
              added i x (send_tx-Stored faults now fresh sender n db i db' x t) refl,
            )
          ]
    ]
  ]

SendEnd-IsSound :
    (now fresh sender : ℕ) (n : NormalizedSend) (db db' : Db) (r : Sent)
    → ChatIsSound db
    → SendEnd now fresh sender n db r db'
    → ChatIsSound db'
SendEnd-IsSound now fresh sender n db db' r h (known e found same answer kept) = rw kept h
SendEnd-IsSound now fresh sender n db db' r h (added i was_none s answer) = rw s.db_is (
  ((λ e. cc), h.0),
  add_receipt-IsOrdered db.next_message s.access.other_user_id now db.receipts h.1,
)

deleted-IsSound :
    (now user : ℕ) (row : Message) (db : Db) (t : MessageStatus)
    → ChatIsSound db
    → ChatIsSound (deleted_db now user row db t)
deleted-IsSound now user row db message_deleted h = h
deleted-IsSound now user row db message_active h = (
  All-update_where MessageIsErased (λ (m : Message). m.id == row.id) (as_deleted now user)
      db.messages (λ x b k e. refl) h.0,
  h.1,
)

-- A call of the service, with what it draws and which of its statements fail.
pub data ChatCall : Type 0 where
  sending : (Site → Bool) → (now fresh sender : ℕ) → Text → SendMessageRequest → ChatCall
  reading : (ReceiptSite → Bool) → (now user : ℕ) → (conversation message : Text) → ChatCall
  deleting : (ReceiptSite → Bool) → (now user : ℕ) → (message : Text) → ChatCall
  delivering : (ReceiptSite → Bool) → (now user : ℕ) → (conversation message : Text) → ChatCall

module _ (parse_uuid : Text → Option ℕ) where
  -- The store that a call leaves.
  unfoldable pub after_call : ChatCall → Db → Db
  after_call (sending faults now fresh sender raw req) db =
      store_of (send_message parse_uuid faults now fresh sender raw req db)
  after_call (reading faults now user conversation message) db =
      store_of (mark_read faults now user parse_uuid conversation message db)
  after_call (deleting faults now user message) db =
      store_of (delete_message faults now user parse_uuid message db)
  after_call (delivering faults now user conversation message) db =
      store_of (mark_delivered faults now user parse_uuid conversation message db)

  unfoldable pub after_calls : List ChatCall → Db → Db
  after_calls [] db = db
  after_calls (c ∷ cs) db = after_calls cs (after_call c db)

  after_call-IsSound : (c : ChatCall) (db : Db) → ChatIsSound db → ChatIsSound (after_call c db)
  unfolding after_call send_message
  after_call-IsSound (sending faults now fresh sender raw req) db h =
      elim (Result-cases (normalize_send_message parse_uuid raw req)) [
        | inr (e, q) ↦ rw (after_call, send_message, q, ◌>>=◌) h
        | inl (n, q) ↦ elim (send_normalized_ends faults now fresh sender n db) [
          | inl (e, k) ↦ rw (after_call, send_message, q, ◌>>=◌, k) h
          | inr (r, db', k, end) ↦
              rw (after_call, send_message, q, ◌>>=◌, k)
                (SendEnd-IsSound now fresh sender n db db' r h end)
        ]
      ]
  after_call-IsSound (reading faults now user conversation message) db h =
      elim (mark_read_ends parse_uuid faults now user db conversation message) [
        | inl (e, k) ↦ rw (after_call, k) h
        | inr (c, m, r, db', k, w) ↦
            rw (after_call, k, w.db_is)
              (
                h.0,
                All-update_where ReceiptIsOrdered
                    (is_read_receipt user r.access.conversation_id r.target.id db.messages)
                    (as_seen now) db.receipts (λ x b o e. refl) h.1,
              )
      ]
  after_call-IsSound (deleting faults now user message) db h =
      elim (delete_message_ends parse_uuid faults now user db message) [
        | inl (e, k) ↦ rw (after_call, k) h
        | inr (m, row, db', k, w) ↦
            rw (after_call, k, w.db_is) (deleted-IsSound now user row db row.status h)
      ]
  after_call-IsSound (delivering faults now user conversation message) db h =
      elim (mark_delivered_ends parse_uuid faults now user db conversation message) [
        | inl (e, k) ↦ rw (after_call, k) h
        | inr (c, m, r, db', k, w) ↦
            rw (after_call, k, w.db_is)
              (
                h.0,
                All-update_where ReceiptIsOrdered
                    (λ (x : MessageReceipt). x.message_id == r.target.id && x.user_id == user)
                    (as_delivered now) db.receipts (λ x b o e. refl) h.1,
              )
      ]

  -- If deleted messages have no body and receipts that are seen are delivered, this still holds
  -- after any sequence of calls of `SendMessage`, `MarkRead`, `DeleteMessage` and `MarkDelivered`,
  -- whichever of their statements fail.
  pub after_calls-IsSound :
      (cs : List ChatCall) (db : Db) → ChatIsSound db → ChatIsSound (after_calls cs db)
  unfolding after_calls
  after_calls-IsSound [] db h = h
  after_calls-IsSound (c ∷ cs) db h =
      after_calls-IsSound cs (after_call c db) (after_call-IsSound c db h)
