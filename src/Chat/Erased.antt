-- ===== src/Chat/Erased.antt =====
-- internal/chat/service.go: a message that `DeleteMessage` has deleted.
use dating_app_backend.Prelude.{
  ℕ, ◌≡◌, refl, sym, ap, ◌∙◌, inl, inr, Bool, true, Option, none, some, Text, ◌==◌, find_first,
  patch, done, Bool-cases, ==_refl, ==_iff, All-find_first, find_first-update_where,
  find_first_sound,
}
use mathlib.Core.Option
use dating_app_backend.Store.{Message, MessageStatus, message_active, message_deleted, Db}
use dating_app_backend.Chat.Receipts.{
  ReceiptSite, DeleteMessageResponse, as_deleted, delete_message,
}
use dating_app_backend.Chat.Marks.{deleted_db}
use dating_app_backend.Chat.Ends.{delete_message_ends}
use dating_app_backend.Chat.Kept.{MessageIsErased, ChatIsSound}

-- The row of a uuid is the user's own, and is erased.
pub record IsErased (user uuid : ℕ) (db db' : Db) : Type 0 where
  pub before : Message
  pub found : find_first (λ (m : Message). m.uuid == uuid) db.messages ≡ some before
  pub own : before.sender_user_id ≡ user
  pub after : Message
  pub still_found : find_first (λ (m : Message). m.uuid == uuid) db'.messages ≡ some after
  pub same_row : after.id ≡ before.id
  pub deleted : after.status ≡ message_deleted
  pub no_body : after.body ≡ none

erase_keeps_uuid :
    (id now user uuid : ℕ) (m : Message)
    → ((patch (λ (x : Message). x.id == id) (as_deleted now user) m).uuid == uuid)
      ≡ (m.uuid == uuid)
erase_keeps_uuid id now user uuid m = elim (Bool-cases (m.id == id)) [
  | inl b ↦ rw b refl
  | inr b ↦ rw b refl
]

module _ (now user uuid : ℕ) (row : Message) (db : Db) (sound : ChatIsSound db)
    (found : find_first (λ (m : Message). m.uuid == uuid) db.messages ≡ some row)
    (own : (row.sender_user_id == user) ≡ true) where
  status-IsErased :
      (t : MessageStatus) → row.status ≡ t → IsErased user uuid db (deleted_db now user row db t)
  status-IsErased message_deleted e = record {
    before = row;
    found = found;
    own = (==_iff row.sender_user_id user).0 own;
    after = row;
    still_found = found;
    same_row = refl;
    deleted = e;
    no_body =
        All-find_first MessageIsErased (λ (m : Message). m.uuid == uuid) db.messages row sound.0
          found (rw e refl);
  }
  status-IsErased message_active e =
      let mine = (λ (x : Message). x.id == row.id) in
      record {
        before = row;
        found = found;
        own = (==_iff row.sender_user_id user).0 own;
        after = as_deleted now user row;
        still_found =
            find_first-update_where mine (as_deleted now user) (λ (m : Message). m.uuid == uuid)
              db.messages (erase_keeps_uuid row.id now user uuid)
            ∙ ap (Option.map (patch mine (as_deleted now user))) found
            ∙ rw (==_refl row.id) refl;
        same_row = refl;
        deleted = refl;
        no_body = refl;
      }

-- When `DeleteMessage` ends well, the message of the answer was sent by the caller; it is still in the
-- table, deleted and without a body. Deleted messages have no body before the call.
pub delete_message_erases :
    (parse_uuid : Text → Option ℕ) (faults : ReceiptSite → Bool) (now user : ℕ) (raw : Text)
    (db db' : Db) (a : DeleteMessageResponse)
    → ChatIsSound db
    → delete_message faults now user parse_uuid raw db ≡ done a db'
    → IsErased user a.message_uuid db db'
delete_message_erases parse_uuid faults now user raw db db' a sound h =
    elim (delete_message_ends parse_uuid faults now user db raw) [
      | inl (e, k) ↦ (let i = sym k ∙ h in cc)
      | inr (m, row, db'', k, w) ↦
          let i = sym k ∙ h in
          let to : db' ≡ db'' = cc in
          let named : a.message_uuid ≡ row.uuid = cc in
          let uuid_is : row.uuid ≡ m =
            (==_iff row.uuid m).0
              (find_first_sound (λ (x : Message). x.uuid == m) db.messages row w.found) in
          rw (named, uuid_is, to, w.db_is)
            (status-IsErased now user m row db sound w.found w.own row.status refl)
    ]
