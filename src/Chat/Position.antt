-- ===== src/Chat/Position.antt =====
-- internal/chat/service.go: how far a member has read, and what `MarkRead` marks as seen.
use dating_app_backend.Prelude.{
  ℕ, ◌≡◌, ◌≤◌, refl, ap, inl, inr, true, Option, none, some, List, [], ◌∷◌, Text, find_first,
  update_where, patch, ◌>>=◌, Bool-cases, Option-cases, Result-cases, find_first_sound,
  find_first-update_where, arith,
}
use dating_app_backend.Store.{
  ConversationParticipant, Message, MessageStatus, message_active, message_deleted, Db,
}
use dating_app_backend.Chat.Model.{ConversationAccess, NormalizedSend, takes_part}
use dating_app_backend.Chat.Receipts.{read_position_of, position_of, is_ahead, as_read_to}
use dating_app_backend.Chat.Effects.{read_db}
use dating_app_backend.Chat.Ends.{mark_read_ends, delete_message_ends, mark_delivered_ends}
use dating_app_backend.Chat.Marks.{deleted_db}
use dating_app_backend.Chat.Send.{normalize_send_message, send_message, Sent}
use dating_app_backend.Chat.Stored.{SendEnd, known, added}
use dating_app_backend.Chat.Kept.{
  ChatCall, sending, reading, deleting, delivering, after_call, after_calls, send_normalized_ends,
}

-- The second position is not behind the first.
abbrev pub NotBehind : Option ℕ → Option ℕ → Type 0
NotBehind none q = Unit
NotBehind (some a) none = ⊥
NotBehind (some a) (some b) = a ≤ b

NotBehind-refl : (o : Option ℕ) → NotBehind o o
NotBehind-refl none = tt
NotBehind-refl (some a) = omega arith

ahead-NotBehind : (o : Option ℕ) (target : ℕ) → is_ahead o target ≡ true → NotBehind o (some target)
ahead-NotBehind none target h = tt
ahead-NotBehind (some a) target h = ground arith

takes_part-patch :
    (c u k v target now : ℕ) (p : ConversationParticipant)
    → takes_part c u (patch (takes_part k v) (as_read_to target now) p) ≡ takes_part c u p
takes_part-patch c u k v target now p = elim (Bool-cases (takes_part k v p)) [
  | inl b ↦ rw b refl
  | inr b ↦ rw b refl
]

NotBehind-trans : (o p q : Option ℕ) → NotBehind o p → NotBehind p q → NotBehind o q
NotBehind-trans none p q h k = tt
NotBehind-trans (some a) none q h k = absurd h
NotBehind-trans (some a) (some b) none h k = absurd k
NotBehind-trans (some a) (some b) (some c) h k = omega arith

same_part :
    (c u k v : ℕ) (p : ConversationParticipant)
    → takes_part c u p ≡ true
    → takes_part k v p ≡ true
    → (c ≡ k) × (u ≡ v)
same_part c u k v p h i = (ground arith, ground arith)

module _ (k v target now : ℕ) (db : Db)
    (ahead : is_ahead (read_position_of k v db) target ≡ true) where
  moved_part :
      (c u : ℕ) (p : ConversationParticipant)
      → find_first (takes_part c u) db.conversation_participants ≡ some p
      → NotBehind p.last_read_message_id
          (patch (takes_part k v) (as_read_to target now) p).last_read_message_id
  moved_part c u p found = elim (Bool-cases (takes_part k v p)) [
    | inr b ↦ rw b (NotBehind-refl p.last_read_message_id)
    | inl b ↦
        let (ck, uv) =
          same_part c u k v p
            (find_first_sound (takes_part c u) db.conversation_participants p found) b in
        let own : read_position_of k v db ≡ p.last_read_message_id =
          rw (← ck, ← uv) (ap position_of found) in
        rw b (ahead-NotBehind p.last_read_message_id target (rw own at ahead))
  ]

  moved_position :
      (c u : ℕ)
      → NotBehind (read_position_of c u db) (
          position_of (
            find_first
              (takes_part c u)
              (update_where (takes_part k v) (as_read_to target now) db.conversation_participants)))
  moved_position c u =
      rw
        (find_first-update_where (takes_part k v) (as_read_to target now) (takes_part c u)
          db.conversation_participants (takes_part-patch c u k v target now))
        (elim (Option-cases (find_first (takes_part c u) db.conversation_participants)) [
          | inl n ↦ rw n tt
          | inr (p, n) ↦ rw n (moved_part c u p n)
        ])

read_db-NotBehind :
    (now user : ℕ) (access : ConversationAccess) (target : Message) (db : Db) (c u : ℕ)
    → NotBehind (read_position_of c u db) (read_position_of c u (read_db now user access target db))
read_db-NotBehind now user access target db c u =
    elim (Bool-cases (is_ahead (read_position_of access.conversation_id user db) target.id)) [
      | inr a ↦ rw a (NotBehind-refl (read_position_of c u db))
      | inl a ↦ rw a (moved_position access.conversation_id user target.id now db a c u)
    ]

SendEnd-position :
    (now fresh sender : ℕ) (n : NormalizedSend) (db db' : Db) (r : Sent) (c u : ℕ)
    → SendEnd now fresh sender n db r db'
    → read_position_of c u db' ≡ read_position_of c u db
SendEnd-position now fresh sender n db db' r c u (known e found same answer kept) = rw kept refl
SendEnd-position now fresh sender n db db' r c u (added i was_none s answer) = rw s.db_is refl

deleted-position :
    (now user : ℕ) (row : Message) (db : Db) (t : MessageStatus) (c u : ℕ)
    → read_position_of c u (deleted_db now user row db t) ≡ read_position_of c u db
deleted-position now user row db message_deleted c u = refl
deleted-position now user row db message_active c u = refl

module _ (parse_uuid : Text → Option ℕ) (c u : ℕ) where
  after_call-NotBehind :
      (call : ChatCall) (db : Db)
      → NotBehind (read_position_of c u db) (read_position_of c u (after_call parse_uuid call db))
  unfolding after_call send_message
  after_call-NotBehind (sending faults now fresh sender raw req) db =
      elim (Result-cases (normalize_send_message parse_uuid raw req)) [
        | inr (e, q) ↦
            rw (after_call, send_message, q, ◌>>=◌) (NotBehind-refl (read_position_of c u db))
        | inl (n, q) ↦ elim (send_normalized_ends faults now fresh sender n db) [
          | inl (e, k) ↦
              rw (after_call, send_message, q, ◌>>=◌, k) (NotBehind-refl (read_position_of c u db))
          | inr (r, db', k, end) ↦
              rw
                (
                  after_call,
                  send_message,
                  q,
                  ◌>>=◌,
                  k,
                  SendEnd-position now fresh sender n db db' r c u end,
                )
                (NotBehind-refl (read_position_of c u db))
        ]
      ]
  after_call-NotBehind (reading faults now user conversation message) db =
      elim (mark_read_ends parse_uuid faults now user db conversation message) [
        | inl (e, k) ↦ rw (after_call, k) (NotBehind-refl (read_position_of c u db))
        | inr (i, m, r, db', k, w) ↦
            rw (after_call, k, w.db_is) (read_db-NotBehind now user r.access r.target db c u)
      ]
  after_call-NotBehind (deleting faults now user message) db =
      elim (delete_message_ends parse_uuid faults now user db message) [
        | inl (e, k) ↦ rw (after_call, k) (NotBehind-refl (read_position_of c u db))
        | inr (m, row, db', k, w) ↦
            rw (after_call, k, w.db_is, deleted-position now user row db row.status c u)
              (NotBehind-refl (read_position_of c u db))
      ]
  after_call-NotBehind (delivering faults now user conversation message) db =
      elim (mark_delivered_ends parse_uuid faults now user db conversation message) [
        | inl (e, k) ↦ rw (after_call, k) (NotBehind-refl (read_position_of c u db))
        | inr (i, m, r, db', k, w) ↦
            rw (after_call, k, w.db_is) (NotBehind-refl (read_position_of c u db))
      ]

  -- Along any sequence of calls of `SendMessage`, `MarkRead`, `DeleteMessage` and `MarkDelivered`,
  -- whichever of their statements fail, the message up to which a user has read a conversation
  -- never goes back.
  pub read_position_forward :
      (calls : List ChatCall) (db : Db)
      → NotBehind (read_position_of c u db) (read_position_of c u (after_calls parse_uuid calls db))
  unfolding after_calls
  read_position_forward [] db = NotBehind-refl (read_position_of c u db)
  read_position_forward (call ∷ calls) db =
      NotBehind-trans (read_position_of c u db)
        (read_position_of c u (after_call parse_uuid call db))
        (read_position_of c u (after_calls parse_uuid (call ∷ calls) db))
        (after_call-NotBehind call db) (read_position_forward calls (after_call parse_uuid call db))
