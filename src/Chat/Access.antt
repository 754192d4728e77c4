-- ===== src/Chat/Access.antt =====
-- internal/chat/service.go: what `activeConversationByUUIDTx` has found where it finds a conversation.
use dating_app_backend.Prelude.{
  ℕ, ◌≡◌, inl, inr, true, some, find_first, ◌==◌, Bool-cases, Option-cases,
}
use dating_app_backend.Store.{User, Match, Conversation, Db, user_by_id, other_member}
use dating_app_backend.Chat.Model.{
  ConversationAccess, conversation_by_uuid, is_accessible, access_row, active_conversation,
}

-- The rows behind an access.
pub record Accessed (user uuid : ℕ) (db : Db) (a : ConversationAccess) : Type 0 where
  pub conversation : Conversation
  pub the_match : Match
  pub own : User
  pub other : User
  pub found_conversation : conversation_by_uuid uuid db ≡ some conversation
  pub found_match :
      find_first (λ (m : Match). m.id == conversation.match_id) db.matches ≡ some the_match
  pub found_own : user_by_id user db ≡ some own
  pub found_other : user_by_id (other_member user the_match) db ≡ some other
  pub allowed : is_accessible user db conversation the_match own other ≡ true
  pub row_is : a ≡ access_row conversation the_match own other

pub active_conversation-Accessed :
    (user uuid : ℕ) (db : Db) (a : ConversationAccess)
    → active_conversation user uuid db ≡ some a
    → Accessed user uuid db a
unfolding active_conversation
active_conversation-Accessed user uuid db a h = elim (Option-cases (conversation_by_uuid uuid db)) [
  | inl n ↦ (let k = rw (active_conversation, n) at h in cc)
  | inr (c, fc) ↦ elim (Option-cases (find_first (λ (m : Match). m.id == c.match_id) db.matches)) [
    | inl n ↦ (let k = rw (active_conversation, fc, n) at h in cc)
    | inr (m, fm) ↦ elim (Option-cases (user_by_id user db)) [
      | inl n ↦ (let k = rw (active_conversation, fc, fm, n) at h in cc)
      | inr (own, fo) ↦ elim (Option-cases (user_by_id (other_member user m) db)) [
        | inl n ↦ (let k = rw (active_conversation, fc, fm, fo, n) at h in cc)
        | inr (other, ft) ↦ elim (Bool-cases (is_accessible user db c m own other)) [
          | inr b ↦ (let k = rw (active_conversation, fc, fm, fo, ft, b) at h in cc)
          | inl b ↦
              let k = rw (active_conversation, fc, fm, fo, ft, b) at h in
              record {
                conversation = c;
                the_match = m;
                own = own;
                other = other;
                found_conversation = fc;
                found_match = fm;
                found_own = fo;
                found_other = ft;
                allowed = b;
                row_is = cc;
              }
        ]
      ]
    ]
  ]
]
