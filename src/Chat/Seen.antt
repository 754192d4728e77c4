-- ===== src/Chat/Seen.antt =====
-- internal/chat/service.go: what `MarkRead` marks as seen.
use dating_app_backend.Prelude.{
  ℕ, ◌≡◌, refl, sym, ◌∙◌, inl, inr, Bool, true, ◌&&◌, ◌==◌, Option, some, List, [], ◌∷◌, map, Text,
  is_some, All, find_first_sound, arith, update_where, done, Bool-cases,
}
use dating_app_backend.Store.{Message, MessageReceipt, Db}
use dating_app_backend.Chat.Model.{ConversationAccess, active_conversation}
use dating_app_backend.Chat.Receipts.{
  ReceiptSite, Emitted, MarkReadResponse, message_in, is_read_receipt, as_seen, read_answer,
  mark_read,
}
use dating_app_backend.Chat.Effects.{read_db}
use dating_app_backend.Chat.Ends.{mark_read_ends}

-- A receipt is known by its message and its user.
abbrev pub receipt_key : MessageReceipt → ℕ × ℕ
receipt_key r = (r.message_id, r.user_id)

target_uuid :
    (conversation uuid : ℕ) (db : Db) (m : Message)
    → message_in conversation uuid db ≡ some m
    → m.uuid ≡ uuid
target_uuid conversation uuid db m h =
    let s =
      find_first_sound (λ (x : Message). x.uuid == uuid && x.conversation_id == conversation)
        db.messages m h in
    ground arith

-- What an update sets holds of every row that its test picks, if the update keeps the test.
All-update_where_marked :
    (p : MessageReceipt → Bool) (f : MessageReceipt → MessageReceipt) (Q : MessageReceipt → Type 0)
    (rows : List MessageReceipt)
    → ((x : MessageReceipt) → p (f x) ≡ p x)
    → ((x : MessageReceipt) → Q (f x))
    → All (λ x. p x ≡ true → Q x) (update_where p f rows)
All-update_where_marked p f Q [] e k = tt
All-update_where_marked p f Q (x ∷ rows) e k = (
  elim (Bool-cases (p x)) [ inl b ↦ rw b (λ _. k x) | inr b ↦ rw b (λ h. cc) ],
  All-update_where_marked p f Q rows e k,
)

-- An update that keeps a key keeps the list of the keys.
keys-update_where :
    (p : MessageReceipt → Bool) (f : MessageReceipt → MessageReceipt) (rows : List MessageReceipt)
    → ((x : MessageReceipt) → receipt_key (f x) ≡ receipt_key x)
    → map receipt_key (update_where p f rows) ≡ map receipt_key rows
keys-update_where p f [] e = refl
keys-update_where p f (x ∷ rows) e = elim (Bool-cases (p x)) [
  | inl b ↦ rw (b, e x, keys-update_where p f rows e) refl
  | inr b ↦ rw (b, keys-update_where p f rows e) refl
]

-- What `MarkRead` leaves of the receipts, for a reader, a conversation and a message of that uuid: the
-- reader has access to the conversation, it holds the message, no receipt has come or gone, and those
-- of the reader for the messages of the other member up to that one are seen and delivered.
pub record SeenUpTo (user conversation_uuid message_uuid : ℕ) (db db' : Db) : Type 0 where
  pub access : ConversationAccess
  pub has_access : active_conversation user conversation_uuid db ≡ some access
  pub target : Message
  pub has_target : message_in access.conversation_id message_uuid db ≡ some target
  pub same_receipts : map receipt_key db'.receipts ≡ map receipt_key db.receipts
  pub marked :
      All
        (λ x.
          is_read_receipt user access.conversation_id target.id db.messages x ≡ true
          → (is_some x.seen_at ≡ true) × (is_some x.delivered_at ≡ true))
        db'.receipts

-- When `MarkRead` ends well, the conversation and the message that it answers are there for the reader,
-- and every receipt that the reader has in the conversation for a message of the other member up to that
-- one is seen and delivered; no receipt has come or gone.
pub mark_read_sees :
    (parse_uuid : Text → Option ℕ) (faults : ReceiptSite → Bool) (now user : ℕ)
    (raw_conversation raw_message : Text) (db db' : Db) (a : Emitted MarkReadResponse)
    → mark_read faults now user parse_uuid raw_conversation raw_message db ≡ done a db'
    → SeenUpTo user a.response.conversation_uuid a.response.last_read_message_uuid db db'
mark_read_sees parse_uuid faults now user raw_conversation raw_message db db' a h =
    elim (mark_read_ends parse_uuid faults now user db raw_conversation raw_message) [
      | inl (e, k) ↦ (let i = sym k ∙ h in cc)
      | inr (c, m, r, db'', k, w) ↦
          let i = sym k ∙ h in
          let to : db' ≡ read_db now user r.access r.target db =
            (let j : db' ≡ db'' = cc in j ∙ w.db_is) in
          let ans : a ≡ read_answer faults now user c r = cc in
          let same : r.target.uuid ≡ m =
            target_uuid r.access.conversation_id m db r.target w.has_target in
          let picked = is_read_receipt user r.access.conversation_id r.target.id db.messages in
          rw (ans, same)
            (record {
              access = r.access;
              has_access = w.has_access;
              target = r.target;
              has_target = w.has_target;
              same_receipts =
                  rw to (keys-update_where picked (as_seen now) db.receipts (λ x. refl));
              marked = rw to (
                  All-update_where_marked picked (as_seen now)
                    (λ x. (is_some x.seen_at ≡ true) × (is_some x.delivered_at ≡ true)) db.receipts
                    (λ x. refl) (λ x. (refl, refl)));
            })
    ]
