-- ===== src/Match/Closed.antt =====
-- internal/match/service.go: ended matches and their conversations.
use dating_app_backend.Prelude.{
  ℕ, ◌≡◌, refl, sym, inl, inr, Bool, true, false, Option, List, [], ◌∷◌, Text, trim_space, ◌==◌,
  All, patch, update_where, Outcome, done, failed, store_of, Leaves-bind, Bool-cases, Option-cases,
  Result-cases, ==_iff, subst, transaction-Leaves, ◌>>=◌, transaction, pure,
}
use dating_app_backend.Store.{
  Match, MatchStatus, match_active, unmatched, Conversation, ConversationStatus, closed, Db,
  is_active_match,
}
use dating_app_backend.Match.Unmatch.{
  MatchError, Site, lock_match, update_match, close_conversation, commit, database, UnmatchRequest,
  normalize_optional_text, participant_match, as_unmatched, as_closed, end_match, unmatch_as,
  unmatch_tx, unmatch,
}

abbrev pub is_closed : ConversationStatus → Bool
is_closed closed = true
is_closed _ = false

-- The conversations of a match that has ended are closed.
abbrev pub HasNoOpen : List Conversation → Match → Type 0
HasNoOpen conversations m =
    is_active_match m.status ≡ false
    → All (λ c. (c.match_id == m.id) ≡ true → is_closed c.status ≡ true) conversations

abbrev pub EndedAreClosed : Db → Type 0
EndedAreClosed db = All (HasNoOpen db.conversations) db.matches

module _ (id now : ℕ) where
  closed_stay :
      (k : ℕ) (rows : List Conversation)
      → All (λ c. (c.match_id == k) ≡ true → is_closed c.status ≡ true) rows
      → All
          (λ c. (c.match_id == k) ≡ true → is_closed c.status ≡ true)
          (update_where (λ c. c.match_id == id) (as_closed now) rows)
  closed_stay k [] h = tt
  closed_stay k (c ∷ rows) h = (one, closed_stay k rows h.1)
    where
      one :
          ((patch (λ x. x.match_id == id) (as_closed now) c).match_id == k) ≡ true
          → is_closed (patch (λ x. x.match_id == id) (as_closed now) c).status ≡ true
      one = elim (Bool-cases (c.match_id == id)) [ inl b ↦ rw b (λ _. refl) | inr b ↦ rw b h.0 ]

  own_closed :
      (rows : List Conversation)
      → All
          (λ c. (c.match_id == id) ≡ true → is_closed c.status ≡ true)
          (update_where (λ c. c.match_id == id) (as_closed now) rows)
  own_closed [] = tt
  own_closed (c ∷ rows) = (one, own_closed rows)
    where
      one :
          ((patch (λ x. x.match_id == id) (as_closed now) c).match_id == id) ≡ true
          → is_closed (patch (λ x. x.match_id == id) (as_closed now) c).status ≡ true
      one = elim (Bool-cases (c.match_id == id)) [
        | inl b ↦ rw b (λ _. refl)
        | inr b ↦ rw b (λ e. cc)
      ]

  module _ (user : ℕ) (code remark : Option Text) (rows : List Conversation) where
    ended_closed :
        (ms : List Match)
        → All (HasNoOpen rows) ms
        → All
            (HasNoOpen (update_where (λ c. c.match_id == id) (as_closed now) rows))
            (update_where (λ x. x.id == id) (as_unmatched now user code remark) ms)
    ended_closed [] h = tt
    ended_closed (m ∷ ms) h = (one, ended_closed ms h.1)
      where
        one :
            HasNoOpen
              (update_where (λ c. c.match_id == id) (as_closed now) rows)
              (patch (λ x. x.id == id) (as_unmatched now user code remark) m)
        one = elim (Bool-cases (m.id == id)) [
          | inl b ↦ rw b (λ _.
              subst
                (λ k.
                  All (λ c. (c.match_id == k) ≡ true → is_closed c.status ≡ true)
                    (update_where (λ c. c.match_id == id) (as_closed now) rows))
                (sym ((==_iff m.id id).0 b)) (own_closed rows))
          | inr b ↦ rw b (λ e. closed_stay m.id rows (h.0 e))
        ]

abbrev OnDone : (Db → Type 0) → Outcome MatchError Db (Unit {0}) → Type 0
OnDone P (done a s) = P s
OnDone P (failed e s) = Unit

module _ (faults : Site → Bool) (now user : ℕ) (code remark : Option Text) where
  end_match-EndedAreClosed :
      (m : Match) (db : Db)
      → EndedAreClosed db
      → OnDone EndedAreClosed (end_match faults now user code remark m db)
  unfolding end_match
  end_match-EndedAreClosed m db h = elim (Bool-cases (faults update_match)) [
    | inl f ↦ rw (f, end_match) tt
    | inr f ↦ elim (Bool-cases (faults close_conversation)) [
      | inl g ↦ rw (f, g, end_match, ◌>>=◌) tt
      | inr g ↦
          rw (f, g, end_match, ◌>>=◌)
            (ended_closed m.id now user code remark db.conversations db.matches h)
    ]
  ]

  unmatch_as-EndedAreClosed :
      (m : Match) (t : MatchStatus) (db : Db)
      → EndedAreClosed db
      → OnDone EndedAreClosed (unmatch_as faults now user code remark m t db)
  unmatch_as-EndedAreClosed m unmatched db h = h
  unmatch_as-EndedAreClosed m match_active db h = end_match-EndedAreClosed m db h

  unmatch_tx-EndedAreClosed :
      (uuid : ℕ) (db : Db)
      → EndedAreClosed db
      → OnDone EndedAreClosed (unmatch_tx faults now user code remark uuid db)
  unfolding unmatch_tx
  unmatch_tx-EndedAreClosed uuid db h = elim (Bool-cases (faults lock_match)) [
    | inl f ↦ rw (f, unmatch_tx) tt
    | inr f ↦ elim (Option-cases (participant_match user uuid db)) [
      | inl n ↦ rw (f, n, unmatch_tx, ◌>>=◌) tt
      | inr (m, n) ↦ rw (f, n, unmatch_tx, ◌>>=◌) (unmatch_as-EndedAreClosed m m.status db h)
    ]
  ]

-- If the conversations of every ended match are closed, they still are after a call of `Unmatch`,
-- however it ends: its two updates come together or not at all.
pub unmatch-EndedAreClosed :
    (parse_uuid : Text → Option ℕ) (faults : Site → Bool) (now user : ℕ) (raw : Text)
    (req : UnmatchRequest) (db : Db)
    → EndedAreClosed db
    → EndedAreClosed (store_of (unmatch parse_uuid faults now user raw req db))
unfolding unmatch
unmatch-EndedAreClosed parse_uuid faults now user raw req db h =
    elim (Option-cases (parse_uuid (trim_space raw))) [
      | inl n ↦ rw (n, unmatch) h
      | inr (uuid, n) ↦ elim (Result-cases (normalize_optional_text 50 req.reason_code)) [
        | inr (e, q) ↦ rw (n, q, unmatch, ◌>>=◌) h
        | inl (code, q) ↦ elim (Result-cases (normalize_optional_text 300 req.reason_note)) [
          | inr (e, r) ↦ rw (n, q, r, unmatch, ◌>>=◌) h
          | inl (remark, r) ↦
              rw (n, q, r, unmatch, ◌>>=◌)
                (Leaves-bind EndedAreClosed
                  (transaction (faults commit) database
                    (unmatch_tx faults now user code remark uuid))
                  (λ _. pure (record { match_uuid = uuid; status = unmatched })) db
                  (transaction-Leaves EndedAreClosed (faults commit) database
                    (unmatch_tx faults now user code remark uuid) db h
                    (λ a s e.
                      subst (OnDone EndedAreClosed) e
                        (unmatch_tx-EndedAreClosed faults now user code remark uuid db h)))
                  (λ _ s k. k))
        ]
      ]
    ]
