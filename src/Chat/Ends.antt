-- ===== src/Chat/Ends.antt =====
-- internal/chat/service.go: the ends of `MarkRead`, `MarkDelivered` and `DeleteMessage`.
use dating_app_backend.Prelude.{
  ℕ, ◌≡◌, refl, inl, inr, ◌⊎◌, Bool, Option, Text, trim_space, done, failed, ◌>>=◌,
  transaction_ends, Option-cases,
}
use dating_app_backend.Store.{Message, Db, message_deleted}
use dating_app_backend.Chat.Model.{ChatError, validation, database}
use dating_app_backend.Chat.Receipts.{
  ReceiptSite, commit, ReadTo, mark_read_tx, read_answer, mark_read, delete_tx, delete_message,
  mark_delivered_tx, delivered_answer, mark_delivered,
}
use dating_app_backend.Chat.Effects.{Reads, mark_read_tx-Reads}
use dating_app_backend.Chat.Marks.{Deletes, delete_tx-Deletes, Delivers, mark_delivered_tx-Delivers}

module _ (parse_uuid : Text → Option ℕ) (faults : ReceiptSite → Bool) (now user : ℕ) (db : Db) where
  -- A call ends with an error on the store that it was given, or as its transaction does.
  pub mark_read_ends :
      (raw_conversation raw_message : Text)
      → ((e : ChatError) × (mark_read faults now user parse_uuid raw_conversation raw_message db
            ≡ failed e db))
        ⊎ ((conversation : ℕ) × (message : ℕ) × (r : ReadTo) × (db' : Db) × (mark_read faults now
                user parse_uuid raw_conversation raw_message db
              ≡ done (read_answer faults now user conversation r) db')
            × Reads faults now user conversation message db r db')
  unfolding mark_read
  mark_read_ends raw_conversation raw_message =
      elim (Option-cases (parse_uuid (trim_space raw_conversation))) [
        | inl a ↦ inl (validation, rw (mark_read, a) refl)
        | inr (c, a) ↦ elim (Option-cases (parse_uuid (trim_space raw_message))) [
          | inl b ↦ inl (validation, rw (mark_read, a, b, ◌>>=◌) refl)
          | inr (m, b) ↦
              elim (transaction_ends (faults commit) database (mark_read_tx faults now user c m)
                db) [
                  | inl (e, q) ↦ inl (e, rw (mark_read, a, b, ◌>>=◌, q) refl)
                  | inr (r, db', q, t) ↦ inr (
                    c,
                    m,
                    r,
                    db',
                    rw (mark_read, a, b, ◌>>=◌, q) refl,
                    mark_read_tx-Reads faults now user c m db db' r t,
                  )
                ]
        ]
      ]

  pub delete_message_ends :
      (raw_message : Text)
      → ((e : ChatError) × (delete_message faults now user parse_uuid raw_message db ≡ failed e db))
        ⊎ ((message : ℕ) × (row : Message) × (db' : Db) × (delete_message faults now user parse_uuid
                raw_message db
              ≡ done (record { message_uuid = row.uuid; status = message_deleted }) db')
            × Deletes faults now user message db row db')
  unfolding delete_message
  delete_message_ends raw_message = elim (Option-cases (parse_uuid (trim_space raw_message))) [
    | inl b ↦ inl (validation, rw (delete_message, b) refl)
    | inr (m, b) ↦
        elim (transaction_ends (faults commit) database (delete_tx faults now user m) db) [
          | inl (e, q) ↦ inl (e, rw (delete_message, b, ◌>>=◌, q) refl)
          | inr (row, db', q, t) ↦ inr (
            m,
            row,
            db',
            rw (delete_message, b, ◌>>=◌, q) refl,
            delete_tx-Deletes faults now user m db db' row t,
          )
        ]
  ]

  pub mark_delivered_ends :
      (raw_conversation raw_message : Text)
      → ((e : ChatError) × (mark_delivered faults now user parse_uuid raw_conversation raw_message
              db
            ≡ failed e db))
        ⊎ ((conversation : ℕ) × (message : ℕ) × (r : ReadTo) × (db' : Db) × (mark_delivered faults
                now user parse_uuid raw_conversation raw_message db
              ≡ done (delivered_answer faults now user r) db')
            × Delivers faults now user conversation message db r db')
  unfolding mark_delivered
  mark_delivered_ends raw_conversation raw_message =
      elim (Option-cases (parse_uuid (trim_space raw_conversation))) [
        | inl a ↦ inl (validation, rw (mark_delivered, a) refl)
        | inr (c, a) ↦ elim (Option-cases (parse_uuid (trim_space raw_message))) [
          | inl b ↦ inl (validation, rw (mark_delivered, a, b, ◌>>=◌) refl)
          | inr (m, b) ↦
              elim (transaction_ends (faults commit) database
                (mark_delivered_tx faults now user c m) db) [
                  | inl (e, q) ↦ inl (e, rw (mark_delivered, a, b, ◌>>=◌, q) refl)
                  | inr (r, db', q, t) ↦ inr (
                    c,
                    m,
                    r,
                    db',
                    rw (mark_delivered, a, b, ◌>>=◌, q) refl,
                    mark_delivered_tx-Delivers faults now user c m db db' r t,
                  )
                ]
        ]
      ]
