-- ===== src/Discovery/Matching.antt =====
-- internal/discovery/action.go: `ensureMatchTx`.
use dating_app_backend.Prelude.{
  ℕ, ◌+◌, Bool, false, ◌&&◌, Option, none, some, List, ◌∷◌, if◌then◌else◌, ◌==◌, exists, find_first,
  update_where, Handler, pure, query, exec, ◌>>=◌, ◌>>◌,
}
use dating_app_backend.Store.{
  Match, match_active, MatchParticipant, Conversation, ConversationStatus, conversation_active,
  read_only, closed, ConversationParticipant, Db, is_pair,
}
use dating_app_backend.Discovery.Model.{DiscoveryError, database}

-- The statements of `CreateAction`, by which a fault is named.
pub data Site : Type 0 where
  find_client find_user find_pair find_block ensure_preferences respond_now : Site
  lock_pair find_client_tx find_pair_tx insert_action find_reciprocal respond_tx commit : Site
  insert_match find_match insert_participants insert_conversation : Site
  insert_conversation_participants : Site

abbrev pub new_match : ℕ → ℕ → ℕ → ℕ → ℕ → ℕ → Match
new_match id uuid low high initiator now = record {
  id = id;
  uuid = uuid;
  user_low_id = low;
  user_high_id = high;
  initiated_by_user_id = some initiator;
  status = match_active;
  matched_at = now;
  unmatched_at = none;
  unmatched_by_user_id = none;
  unmatch_reason_code = none;
  unmatch_reason_note = none;
  updated_at = now;
}

abbrev pub insert_new_match : ℕ → ℕ → ℕ → ℕ → ℕ → Db → Db
insert_new_match uuid low high initiator now db = record db {
  matches = new_match db.next_match uuid low high initiator now ∷ db.matches;
  next_match = db.next_match + 1;
}

-- `INSERT ... ON CONFLICT (match_id, user_id) DO NOTHING`
abbrev pub add_participant : ℕ → ℕ → ℕ → List MatchParticipant → List MatchParticipant
add_participant match_id user now rows =
    if exists (λ (p : MatchParticipant). p.match_id == match_id && p.user_id == user) rows
    then rows
    else record {
      match_id = match_id;
      user_id = user;
      seen_at = none;
      last_opened_at = none;
      hidden_at = none;
      updated_at = now;
    }
      ∷ rows

abbrev pub add_conversation_participant :
    ℕ → ℕ → ℕ → List ConversationParticipant → List ConversationParticipant
add_conversation_participant conversation_id user now rows =
    if exists
      (λ (p : ConversationParticipant). p.conversation_id == conversation_id && p.user_id == user)
      rows
    then rows
    else record {
      conversation_id = conversation_id;
      user_id = user;
      last_read_message_id = none;
      last_read_at = none;
      hidden_at = none;
      updated_at = now;
    }
      ∷ rows

-- `CASE WHEN conversations.status = 'CLOSED' THEN conversations.status ELSE 'ACTIVE' END`
abbrev pub reopened : ConversationStatus → ConversationStatus
reopened closed = closed
reopened conversation_active = conversation_active
reopened read_only = conversation_active

abbrev pub of_match : ℕ → Conversation → Bool
of_match match_id c = c.match_id == match_id

-- `INSERT INTO conversations ... ON CONFLICT (match_id) DO UPDATE`
abbrev pub upsert_conversation : ℕ → ℕ → ℕ → Db → Db
upsert_conversation uuid match_id now db =
    if exists (of_match match_id) db.conversations
    then record db {
      conversations =
          update_where (of_match match_id)
            (λ (c : Conversation). record c { status = reopened c.status; updated_at = now })
            db.conversations;
    }
    else record db {
      conversations =
          record {
            id = db.next_conversation;
            uuid = uuid;
            match_id = match_id;
            status = conversation_active;
            last_message_id = none;
            last_message_at = none;
            updated_at = now;
          }
          ∷ db.conversations;
      next_conversation = db.next_conversation + 1;
    }

abbrev pub attach_conversation :
    (Site → Bool) → ℕ → ℕ → ℕ → Option Conversation → Handler DiscoveryError Db (Unit {0})
attach_conversation faults low high now none = pure tt
attach_conversation faults low high now (some c) =
    exec (faults insert_conversation_participants) database (λ (db : Db). record db {
      conversation_participants =
          add_conversation_participant c.id high now
            (add_conversation_participant c.id low now db.conversation_participants);
    })

-- What `ensureMatchTx` does once it has the match: participants, conversation, its participants.
unfoldable pub attach_match :
    (Site → Bool) → ℕ → ℕ → ℕ → ℕ → ℕ → Handler DiscoveryError Db (Unit {0})
attach_match faults conversation_uuid match_id low high now = do
  exec (faults insert_participants) database (λ (db : Db). record db {
    match_participants =
        add_participant match_id high now (add_participant match_id low now db.match_participants);
  })
  exec (faults insert_conversation) database (upsert_conversation conversation_uuid match_id now)
  found ← query false database (λ (db : Db). find_first (of_match match_id) db.conversations)
  attach_conversation faults low high now found

-- The branch for a row that `ON CONFLICT DO NOTHING` has kept, and the one for a new row.
abbrev pub keep_match : (Site → Bool) → ℕ → ℕ → ℕ → ℕ → Match → Handler DiscoveryError Db (Option ℕ)
keep_match faults conversation_uuid low high now m = do
  exec (faults find_match) database (λ db. db)
  attach_match faults conversation_uuid m.id low high now
  pure none

abbrev pub add_match : (Site → Bool) → ℕ → ℕ → ℕ → ℕ → ℕ → ℕ → Handler DiscoveryError Db (Option ℕ)
add_match faults match_uuid conversation_uuid low high initiator now = do
  id ← query false database (λ (db : Db). db.next_match)
  exec false database (insert_new_match match_uuid low high initiator now)
  attach_match faults conversation_uuid id low high now
  pure (some match_uuid)

-- The uuids are those of the rows that it may insert; the answer is the match's uuid if it is new.
unfoldable pub ensure_match :
    (Site → Bool) → ℕ → ℕ → ℕ → ℕ → ℕ → ℕ → Handler DiscoveryError Db (Option ℕ)
ensure_match faults match_uuid conversation_uuid low high initiator now = do
  existing ←
      query (faults insert_match) database (λ (db : Db). find_first (is_pair low high) db.matches)
  elim existing [
    | none ↦ add_match faults match_uuid conversation_uuid low high initiator now
    | some m ↦ keep_match faults conversation_uuid low high now m
  ]
