-- ===== src/Match/Unmatch.antt =====
-- internal/match/service.go: `Unmatch`.
use dating_app_backend.Prelude.{
  ℕ, Bool, not, ◌&&◌, Option, none, some, Text, is_empty, trim_space, byte_len, if◌then◌else◌, ltb,
  ◌==◌, is_none, exists, find_first, update_where, Handler, Result, ok, err, pure, lift, query,
  exec, or_throw, transaction, ◌>>=◌, ◌>>◌,
}
use dating_app_backend.Store.{
  Match, MatchStatus, match_active, unmatched, MatchParticipant, Conversation, closed, Db,
  other_member, is_member, is_blocked_either_direction,
}

pub data MatchError : Type 0 where
  validation not_found : MatchError
  -- An error of the database.
  database : MatchError

pub data Site : Type 0 where
  lock_match update_match close_conversation commit : Site

pub record UnmatchRequest : Type 0 where
  pub reason_code : Option Text
  pub reason_note : Option Text

pub record UnmatchResponse : Type 0 where
  pub match_uuid : ℕ
  pub status : MatchStatus

-- `normalizeOptionalText`
unfoldable pub normalize_optional_text : ℕ → Option Text → Result MatchError (Option Text)
normalize_optional_text max none = ok none
normalize_optional_text max (some value) =
    let trimmed = trim_space value in
    if is_empty trimmed
    then ok none
    else if ltb max (byte_len trimmed)
    then err validation
    else ok (some trimmed)

-- The joins and conditions of `lockParticipantMatch`.
abbrev pub is_open_to : ℕ → Db → Match → Bool
is_open_to user db m =
    exists
      (λ (p : MatchParticipant). p.match_id == m.id && (p.user_id == user && is_none p.hidden_at))
      db.match_participants
    && (is_member user m && not (is_blocked_either_direction user (other_member user m) db))

abbrev pub participant_match : ℕ → ℕ → Db → Option Match
participant_match user uuid db =
    find_first (λ (m : Match). m.uuid == uuid && is_open_to user db m) db.matches

abbrev pub as_unmatched : ℕ → ℕ → Option Text → Option Text → Match → Match
as_unmatched now user code remark m = record m {
  status = unmatched;
  unmatched_at = some now;
  unmatched_by_user_id = some user;
  unmatch_reason_code = code;
  unmatch_reason_note = remark;
  updated_at = now;
}

abbrev pub as_closed : ℕ → Conversation → Conversation
as_closed now c = record c { status = closed; updated_at = now }

module _ (faults : Site → Bool) (now user : ℕ) (code remark : Option Text) where
  -- The two updates of an active match.
  unfoldable pub end_match : Match → Handler MatchError Db (Unit {0})
  end_match m = do
    exec (faults update_match) database (λ (db : Db). record db {
      matches = update_where (λ x. x.id == m.id) (as_unmatched now user code remark) db.matches;
    })
    exec (faults close_conversation) database (λ (db : Db). record db {
      conversations = update_where (λ c. c.match_id == m.id) (as_closed now) db.conversations;
    })

  abbrev pub unmatch_as : Match → MatchStatus → Handler MatchError Db (Unit {0})
  unmatch_as m unmatched = pure tt
  unmatch_as m match_active = end_match m

  unfoldable pub unmatch_tx : ℕ → Handler MatchError Db (Unit {0})
  unmatch_tx uuid = do
    found ← query (faults lock_match) database (participant_match user uuid)
    m ← or_throw found not_found
    unmatch_as m m.status

-- `parse_uuid` is `uuid.Parse`.
unfoldable pub unmatch :
    (Text → Option ℕ)
    → (Site → Bool)
    → ℕ
    → ℕ
    → Text
    → UnmatchRequest
    → Handler MatchError Db UnmatchResponse
unmatch parse_uuid faults now user raw_uuid req = do
  uuid ← or_throw (parse_uuid (trim_space raw_uuid)) validation
  code ← lift (normalize_optional_text 50 req.reason_code)
  remark ← lift (normalize_optional_text 300 req.reason_note)
  transaction (faults commit) database (unmatch_tx faults now user code remark uuid)
      >> pure (record { match_uuid = uuid; status = unmatched })
