-- ===== src/Chat/Created.antt =====
-- internal/chat/service.go: a message that `SendMessage` has created.
use dating_app_backend.Prelude.{
  ℕ, ◌≡◌, refl, subst, inl, inr, Bool, true, false, not, ◌&&◌, Option, some, List, ◌∷◌, Text, codes,
  text_eq, is_empty, byte_len, trim_space, to_upper, ltb, ◌==◌, exists, done, Result, ok, err,
  ◌>>=◌, Bool-cases, Option-cases, Result-cases, ==_refl, arith, is_none,
}
use dating_app_backend.Store.{
  ConversationParticipant, Message, MessageReceipt, Db, is_active_match, is_member, is_active_user,
  is_blocked_either_direction,
}
use dating_app_backend.Chat.Model.{
  ChatError, ConversationAccess, SendMessageRequest, NormalizedSend, has_client_id, takes_part,
  is_open_status,
}
use dating_app_backend.Chat.Access.{Accessed, active_conversation-Accessed}
use dating_app_backend.Chat.Send.{
  Site, normalized_send, normalize_send_message, Sent, inserted_row, add_receipt,
  emit_message_created, send_message,
}
use dating_app_backend.Chat.Stored.{added_message, SendEnd, known, added, send_normalized-SendEnd}

-- What the body of a request is after its checks.
abbrev pub IsBody : Text → Type 0
IsBody body = (is_empty body ≡ false) × (ltb 2000 (byte_len body) ≡ false)

abbrev BodyChecked : Result ChatError NormalizedSend → Type 0
BodyChecked (ok n) = IsBody n.body
BodyChecked (err e) = Unit

normalized_send-BodyChecked :
    (conversation client : ℕ) (req : SendMessageRequest)
    → BodyChecked (normalized_send conversation client req)
normalized_send-BodyChecked conversation client req =
    elim (Bool-cases (text_eq (to_upper (trim_space req.message_type)) (codes "TEXT"))) [
      | inr t ↦ rw t tt
      | inl t ↦ elim (Bool-cases (is_empty (trim_space req.body))) [
        | inl e ↦ rw (t, e) tt
        | inr e ↦ elim (Bool-cases (ltb 2000 (byte_len (trim_space req.body)))) [
          | inl l ↦ rw (t, e, l) tt
          | inr l ↦ rw (t, e, l) (e, l)
        ]
      ]
    ]

normalize_send_message-BodyChecked :
    (parse_uuid : Text → Option ℕ) (raw : Text) (req : SendMessageRequest)
    → BodyChecked (normalize_send_message parse_uuid raw req)
unfolding normalize_send_message
normalize_send_message-BodyChecked parse_uuid raw req =
    elim (Option-cases (parse_uuid (trim_space raw))) [
      | inl a ↦ rw (normalize_send_message, a) tt
      | inr (c, a) ↦ elim (Option-cases (parse_uuid (trim_space req.client_message_id))) [
        | inl b ↦ rw (normalize_send_message, a, b) tt
        | inr (i, b) ↦ rw (normalize_send_message, a, b) (normalized_send-BodyChecked c i req)
      ]
    ]

pub record Created (sender : ℕ) (db db' : Db) (r : Sent) : Type 0 where
  pub conversation_uuid : ℕ
  pub access : ConversationAccess
  -- The conversation and its match were active, both users too.
  pub was_open : Accessed sender conversation_uuid db access
  pub unblocked : is_blocked_either_direction sender access.other_user_id db ≡ false
  pub body : Text
  pub checked : IsBody body
  pub message : Message
  pub has_body : message.body ≡ some body
  pub has_sender : message.sender_user_id ≡ sender
  pub in_conversation : message.conversation_id ≡ access.conversation_id
  pub stored : db'.messages ≡ message ∷ db.messages
  pub was_new : exists (has_client_id sender message.client_message_id) db.messages ≡ false
  pub has_receipt :
      exists
        (λ (x : MessageReceipt). x.message_id == message.id && x.user_id == access.other_user_id)
        db'.receipts
      ≡ true
  pub answered : r.response.message_uuid ≡ message.uuid
  pub notified : r.notified ≡ some message.uuid
  pub emitted : r.emitted ≡ emit_message_created access (inserted_row message access.user_uuid)

add_receipt_adds :
    (message user now : ℕ) (receipts : List MessageReceipt)
    → exists
        (λ (x : MessageReceipt). x.message_id == message && x.user_id == user)
        (add_receipt message user now receipts)
      ≡ true
add_receipt_adds message user now receipts =
    elim (Bool-cases
      (exists (λ (x : MessageReceipt). x.message_id == message && x.user_id == user) receipts)) [
        | inl b ↦ rw (b, b) refl
        | inr b ↦ rw (b, ==_refl message, ==_refl user) refl
      ]

accessible_unblocked :
    (a b c d e f g h : Bool) → (a && b && c && d && e && f && g && not h) ≡ true → h ≡ false
accessible_unblocked a b c d e f g h k = ground arith

pub access_unblocked :
    (sender uuid : ℕ) (db : Db) (a : ConversationAccess)
    → Accessed sender uuid db a
    → is_blocked_either_direction sender a.other_user_id db ≡ false
access_unblocked sender uuid db a w =
    let c = w.conversation in
    rw w.row_is (
      accessible_unblocked
        (exists (λ (p : ConversationParticipant). takes_part c.id sender p && is_none p.hidden_at)
          db.conversation_participants)
        (exists (takes_part c.id w.other.id) db.conversation_participants) (is_open_status c.status)
        (is_active_match w.the_match.status) (is_member sender w.the_match) (is_active_user w.own)
        (is_active_user w.other) (is_blocked_either_direction sender w.other.id db) w.allowed)

end-Created :
    (now fresh sender : ℕ) (n : NormalizedSend) (db db' : Db) (r : Sent)
    → (db.next_message == 0) ≡ false
    → IsBody n.body
    → r.created ≡ true
    → SendEnd now fresh sender n db r db'
    → Created sender db db' r
end-Created now fresh sender n db db' r ids b c (known e found same answer kept) =
    (let k = rw answer at c in cc)
end-Created now fresh sender n db db' r ids b c (added i was_none s answer) =
    let w = active_conversation-Accessed sender n.conversation_uuid db s.access s.has_access in
    record {
      conversation_uuid = n.conversation_uuid;
      access = s.access;
      was_open = w;
      unblocked = access_unblocked sender n.conversation_uuid db s.access w;
      body = n.body;
      checked = b;
      message = added_message now fresh sender n db s.access;
      has_body = refl;
      has_sender = refl;
      in_conversation = refl;
      stored = rw s.db_is refl;
      was_new = s.is_new;
      has_receipt =
          rw s.db_is (add_receipt_adds db.next_message s.access.other_user_id now db.receipts);
      answered = rw (answer, s.inserted) refl;
      notified = rw (answer, s.inserted, ids) refl;
      emitted = rw (answer, s.inserted, ids) refl;
    }

-- When `SendMessage` says that it created a message, the conversation and its match were active, the
-- sender was in it and no block stood between the two; the message is stored with a body of 1 to
-- 2000 bytes under a client id that its sender had not used; the other member has a receipt for it
-- and is sent it; and it is handed to the notifications. Message ids start at 1.
pub send_message_creates :
    (parse_uuid : Text → Option ℕ) (faults : Site → Bool) (now fresh sender : ℕ) (raw : Text)
    (req : SendMessageRequest) (db db' : Db) (r : Sent)
    → (db.next_message == 0) ≡ false
    → send_message parse_uuid faults now fresh sender raw req db ≡ done r db'
    → r.created ≡ true
    → Created sender db db' r
unfolding send_message
send_message_creates parse_uuid faults now fresh sender raw req db db' r ids h c =
    elim (Result-cases (normalize_send_message parse_uuid raw req)) [
      | inr (e, q) ↦ (let k = rw (q, send_message, ◌>>=◌) at h in cc)
      | inl (n, q) ↦
          end-Created now fresh sender n db db' r ids
            (subst BodyChecked q (normalize_send_message-BodyChecked parse_uuid raw req)) c
            (send_normalized-SendEnd faults now fresh sender n db r db'
              (rw (q, send_message, ◌>>=◌) at h))
    ]
