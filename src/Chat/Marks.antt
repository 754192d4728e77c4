-- ===== src/Chat/Marks.antt =====
-- internal/chat/service.go: how the transactions of `DeleteMessage` and `MarkDelivered` end.
use dating_app_backend.Prelude.{
  ℕ, ◌≡◌, refl, inl, inr, Bool, true, false, Option, none, some, ◌==◌, find_first, update_where,
  done, then_pure-done, Bool-cases,
}
use dating_app_backend.Store.{Message, Db, MessageStatus, message_active, message_deleted}
use dating_app_backend.Chat.Model.{ConversationAccess, active_conversation}
use dating_app_backend.Chat.Receipts.{
  ReceiptSite, read_access, find_message, delete_row, mark_delivered_row, as_deleted, ReadTo,
  delete_as, delete_found, delete_tx, set_delivered, deliver_found, deliver_with, active_message_in,
  mark_delivered_tx,
}
use dating_app_backend.Chat.Effects.{delivered_db}

-- The store that `DeleteMessage` leaves.
abbrev pub deleted_db : ℕ → ℕ → Message → Db → MessageStatus → Db
deleted_db now user row db message_deleted = db
deleted_db now user row db message_active = record db {
  messages = update_where (λ m. m.id == row.id) (as_deleted now user) db.messages;
}

module _ (faults : ReceiptSite → Bool) (now user : ℕ) where
  delete_as-done :
      (row : Message) (t : MessageStatus) (db db' : Db)
      → delete_as faults now user row t db ≡ done tt db'
      → db' ≡ deleted_db now user row db t
  delete_as-done row message_deleted db db' h = cc
  delete_as-done row message_active db db' h = elim (Bool-cases (faults delete_row)) [
    | inl f ↦ (let k = rw f at h in cc)
    | inr f ↦ (let k = rw f at h in cc)
  ]

  -- The same of `DeleteMessage`.
  pub record Deletes (message : ℕ) (db : Db) (row : Message) (db' : Db) : Type 0 where
    pub found : find_first (λ (m : Message). m.uuid == message) db.messages ≡ some row
    pub own : (row.sender_user_id == user) ≡ true
    pub db_is : db' ≡ deleted_db now user row db row.status

  row_deleted :
      (message : ℕ) (found : Option Message) (db db' : Db) (row : Message)
      → find_first (λ (m : Message). m.uuid == message) db.messages ≡ found
      → delete_found faults now user found db ≡ done row db'
      → Deletes message db row db'
  unfolding delete_found
  row_deleted message none db db' row f h = cc
  row_deleted message (some m) db db' row f h = elim (Bool-cases (m.sender_user_id == user)) [
    | inr o ↦ (let k = rw (delete_found, o) at h in cc)
    | inl o ↦
        let (r_is, k) =
          then_pure-done (delete_as faults now user m m.status) m db (rw (delete_found, o) at h) in
        rw r_is (record { found = f; own = o; db_is = delete_as-done m m.status db db' k })
  ]

  pub delete_tx-Deletes :
      (message : ℕ) (db db' : Db) (row : Message)
      → delete_tx faults now user message db ≡ done row db'
      → Deletes message db row db'
  unfolding delete_tx
  delete_tx-Deletes message db db' row h = elim (Bool-cases (faults find_message)) [
    | inl f ↦ (let k = rw (f, delete_tx) at h in cc)
    | inr f ↦
        row_deleted message (find_first (λ (m : Message). m.uuid == message) db.messages) db db' row
          refl (rw (f, delete_tx) at h)
  ]

  -- The same of `MarkDelivered`.
  pub record Delivers (conversation message : ℕ) (db : Db) (r : ReadTo) (db' : Db) : Type 0 where
    pub has_access : active_conversation user conversation db ≡ some r.access
    pub has_target : active_message_in r.access.conversation_id message db ≡ some r.target
    pub foreign : (r.target.sender_user_id == user) ≡ false
    pub db_is : db' ≡ delivered_db now user r.access r.target db

  set_delivered-done :
      (access : ConversationAccess) (m : Message) (db db' : Db)
      → set_delivered faults now user m db ≡ done tt db'
      → db' ≡ delivered_db now user access m db
  set_delivered-done access m db db' h = elim (Bool-cases (faults mark_delivered_row)) [
    | inl f ↦ (let k = rw f at h in cc)
    | inr f ↦ (let k = rw f at h in cc)
  ]

  target_delivered :
      (conversation message : ℕ) (access : ConversationAccess) (found : Option Message)
      (db db' : Db) (r : ReadTo)
      → active_conversation user conversation db ≡ some access
      → active_message_in access.conversation_id message db ≡ found
      → deliver_found faults now user access found db ≡ done r db'
      → Delivers conversation message db r db'
  unfolding deliver_found
  target_delivered conversation message access none db db' r a t h = cc
  target_delivered conversation message access (some m) db db' r a t h =
      elim (Bool-cases (m.sender_user_id == user)) [
        | inl o ↦ (let k = rw (deliver_found, o) at h in cc)
        | inr o ↦
            let (r_is, k) =
              then_pure-done (set_delivered faults now user m)
                (record { access = access; target = m }) db (rw (deliver_found, o) at h) in
            rw r_is (record {
              has_access = a;
              has_target = t;
              foreign = o;
              db_is = set_delivered-done access m db db' k;
            })
      ]

  access_delivered :
      (conversation message : ℕ) (found : Option ConversationAccess) (db db' : Db) (r : ReadTo)
      → active_conversation user conversation db ≡ found
      → deliver_with faults now user message found db ≡ done r db'
      → Delivers conversation message db r db'
  unfolding deliver_with
  access_delivered conversation message none db db' r a h = cc
  access_delivered conversation message (some access) db db' r a h =
      elim (Bool-cases (faults find_message)) [
        | inl f ↦ (let k = rw (f, deliver_with) at h in cc)
        | inr f ↦
            target_delivered conversation message access
              (active_message_in access.conversation_id message db) db db' r a refl
              (rw (f, deliver_with) at h)
      ]

  pub mark_delivered_tx-Delivers :
      (conversation message : ℕ) (db db' : Db) (r : ReadTo)
      → mark_delivered_tx faults now user conversation message db ≡ done r db'
      → Delivers conversation message db r db'
  unfolding mark_delivered_tx
  mark_delivered_tx-Delivers conversation message db db' r h =
      elim (Bool-cases (faults read_access)) [
        | inl f ↦ (let k = rw (f, mark_delivered_tx) at h in cc)
        | inr f ↦
            access_delivered conversation message (active_conversation user conversation db) db db'
              r refl (rw (f, mark_delivered_tx) at h)
      ]
