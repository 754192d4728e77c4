-- ===== src/Chat/Effects.antt =====
-- internal/chat/service.go: how the transaction of `MarkRead` ends.
use dating_app_backend.Prelude.{
  ℕ, ◌≡◌, refl, inl, inr, Bool, ◌&&◌, Option, none, some, List, if◌then◌else◌, ◌==◌, update_where,
  done, bind-done, exec-done, then_pure-done, Handler, exec, Bool-cases,
}
use dating_app_backend.Store.{ConversationParticipant, Message, MessageReceipt, Db}
use dating_app_backend.Chat.Model.{
  ChatError, database, ConversationAccess, takes_part, active_conversation,
}
use dating_app_backend.Chat.Receipts.{
  ReceiptSite, read_access, find_target, read_position, move_position, mark_seen, message_in,
  read_position_of, is_ahead, as_read_to, is_read_receipt, as_seen, as_delivered, ReadTo,
  move_if_ahead, read_to, read_found, read_with, mark_read_tx,
}

module _ (now user : ℕ) (access : ConversationAccess) (target : Message) (db : Db) where
  -- The participants and the receipts that `MarkRead` leaves.
  abbrev pub read_participants : List ConversationParticipant
  read_participants =
      if is_ahead (read_position_of access.conversation_id user db) target.id
      then update_where (takes_part access.conversation_id user) (as_read_to target.id now)
          db.conversation_participants
      else db.conversation_participants

  abbrev pub read_receipts : List MessageReceipt
  read_receipts =
      update_where (is_read_receipt user access.conversation_id target.id db.messages) (as_seen now)
        db.receipts

  abbrev pub read_db : Db
  read_db = record db { conversation_participants = read_participants; receipts = read_receipts }

  -- The store that `MarkDelivered` leaves.
  abbrev pub delivered_db : Db
  delivered_db = record db {
    receipts =
        update_where (λ (r : MessageReceipt). r.message_id == target.id && r.user_id == user)
          (as_delivered now) db.receipts;
  }

module _ (faults : ReceiptSite → Bool) (now user : ℕ) where
  move-done :
      (access : ConversationAccess) (target : Message) (current : Option ℕ) (db db' : Db)
      → move_if_ahead faults now user access target current db ≡ done tt db'
      → db' ≡ record db {
        conversation_participants =
            if is_ahead current target.id
            then update_where
                (takes_part access.conversation_id user)
                (as_read_to target.id now)
                db.conversation_participants
            else db.conversation_participants;
      }
  move-done access target current db db' h = elim (Bool-cases (is_ahead current target.id)) [
    | inr a ↦ (let k = rw a at h in rw a cc)
    | inl a ↦ elim (Bool-cases (faults move_position)) [
      | inl m ↦ (let k = rw (a, m) at h in cc)
      | inr m ↦ (let k = rw (a, m) at h in rw a cc)
    ]
  ]

  abbrev mark_seen_in : ConversationAccess → Message → Handler ChatError Db (Unit {0})
  mark_seen_in access target = exec (faults mark_seen) database (λ (db : Db). record db {
    receipts =
        update_where (is_read_receipt user access.conversation_id target.id db.messages)
          (as_seen now) db.receipts;
  })

  read_to-done :
      (access : ConversationAccess) (target : Message) (db db' : Db)
      → read_to faults now user access target db ≡ done tt db'
      → db' ≡ read_db now user access target db
  unfolding read_to
  read_to-done access target db db' h = elim (Bool-cases (faults read_position)) [
    | inl f ↦ (let k = rw (f, read_to) at h in cc)
    | inr f ↦
        let current = read_position_of access.conversation_id user db in
        let (_, r, e, k) =
          bind-done (move_if_ahead faults now user access target current)
            (λ _. mark_seen_in access target) db (rw (f, read_to) at h) in
        let moved = move-done access target current db r e in
        let written =
          exec-done (faults mark_seen) database
            (λ (x : Db). record x {
              receipts =
                  update_where (is_read_receipt user access.conversation_id target.id x.messages)
                    (as_seen now) x.receipts;
            })
            r k in
        rw moved at written
  ]

  -- What a good end of the transaction of `MarkRead` has found and left.
  pub record Reads (conversation message : ℕ) (db : Db) (r : ReadTo) (db' : Db) : Type 0 where
    pub has_access : active_conversation user conversation db ≡ some r.access
    pub has_target : message_in r.access.conversation_id message db ≡ some r.target
    pub db_is : db' ≡ read_db now user r.access r.target db

  target_read :
      (conversation message : ℕ) (access : ConversationAccess) (found : Option Message)
      (db db' : Db) (r : ReadTo)
      → active_conversation user conversation db ≡ some access
      → message_in access.conversation_id message db ≡ found
      → read_found faults now user access found db ≡ done r db'
      → Reads conversation message db r db'
  unfolding read_found
  target_read conversation message access none db db' r a t h = cc
  target_read conversation message access (some target) db db' r a t h =
      let (r_is, k) =
        then_pure-done (read_to faults now user access target)
          (record { access = access; target = target }) db h in
      rw r_is
        (record { has_access = a; has_target = t; db_is = read_to-done access target db db' k })

  access_read :
      (conversation message : ℕ) (found : Option ConversationAccess) (db db' : Db) (r : ReadTo)
      → active_conversation user conversation db ≡ found
      → read_with faults now user message found db ≡ done r db'
      → Reads conversation message db r db'
  unfolding read_with
  access_read conversation message none db db' r a h = cc
  access_read conversation message (some access) db db' r a h =
      elim (Bool-cases (faults find_target)) [
        | inl f ↦ (let k = rw (f, read_with) at h in cc)
        | inr f ↦
            target_read conversation message access (message_in access.conversation_id message db)
              db db' r a refl (rw (f, read_with) at h)
      ]

  pub mark_read_tx-Reads :
      (conversation message : ℕ) (db db' : Db) (r : ReadTo)
      → mark_read_tx faults now user conversation message db ≡ done r db'
      → Reads conversation message db r db'
  unfolding mark_read_tx
  mark_read_tx-Reads conversation message db db' r h = elim (Bool-cases (faults read_access)) [
    | inl f ↦ (let k = rw (f, mark_read_tx) at h in cc)
    | inr f ↦
        access_read conversation message (active_conversation user conversation db) db db' r refl
          (rw (f, mark_read_tx) at h)
  ]
