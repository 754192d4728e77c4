-- ===== src/Discovery/LateBlock.antt =====
-- internal/discovery/action.go: a block that falls between the guards and the transaction.
use dating_app_backend.Prelude.{
  ℕ, ◌≡◌, refl, ◌∙◌, inl, inr, Bool, true, false, Option, none, some, ◌∷◌, done, exists, find_first,
  ◌>>=◌, Bool-cases, ==_refl, arith,
}
use dating_app_backend.Store.{
  Db, Conversation, Match, match_active, is_pair, ordered_pair, is_blocked_either_direction,
}
use dating_app_backend.Discovery.Model.{
  NormalizedActionRequest, Recorded, Target, is_positive, likes, active_match_for_pair,
  find_action_by_client_id, find_action_by_pair,
}
use dating_app_backend.Discovery.Matching.{
  Site, add_participant, of_match, new_match, upsert_conversation, attach_conversation,
  attach_match, ensure_match, insert_new_match,
}
use dating_app_backend.Discovery.Stored.{answer_in}
use dating_app_backend.Discovery.Actions.{
  Drawn, insert_new_action, match_if_mutual, match_if_positive, store_action, action_tx,
  record_action,
}

abbrev no_faults : Site → Bool
no_faults _ = false

-- `s'` has the blocks and the matches of `s`.
abbrev SameBlocks : Db → Db → Type 0
SameBlocks s s' = (s'.blocks ≡ s.blocks) × (s'.matches ≡ s.matches)

upsert-SameBlocks :
    (uuid match_id now : ℕ) (s : Db) → SameBlocks s (upsert_conversation uuid match_id now s)
upsert-SameBlocks uuid match_id now s =
    elim (Bool-cases (exists (of_match match_id) s.conversations)) [
      | inl b ↦ rw b (refl, refl)
      | inr b ↦ rw b (refl, refl)
    ]

attach_conversation-ends :
    (low high now : ℕ) (found : Option Conversation) (s : Db)
    → (s' : Db) × (attach_conversation no_faults low high now found s ≡ done tt s')
      × SameBlocks s s'
attach_conversation-ends low high now none s = (s, refl, (refl, refl))
attach_conversation-ends low high now (some c) s = (_, refl, (refl, refl))

attach_match-ends :
    (conversation_uuid match_id low high now : ℕ) (s : Db)
    → (s' : Db) × (attach_match no_faults conversation_uuid match_id low high now s ≡ done tt s')
      × SameBlocks s s'
unfolding attach_match
attach_match-ends cu mid low high now s =
    let joined : Db = record s {
      match_participants =
          add_participant mid high now (add_participant mid low now s.match_participants);
    } in
    let opened = upsert_conversation cu mid now joined in
    let (s', e, (b, m)) =
      attach_conversation-ends low high now (find_first (of_match mid) opened.conversations)
        opened in
    let k = upsert-SameBlocks cu mid now joined in (s', e, (b ∙ k.0, m ∙ k.1))

ensure_match-ends :
    (match_uuid conversation_uuid low high initiator now : ℕ) (s : Db)
    → find_first (is_pair low high) s.matches ≡ none
    → (s' : Db) × (ensure_match no_faults match_uuid conversation_uuid low high initiator now s
        ≡ done (some match_uuid) s')
      × ((s'.blocks ≡ s.blocks)
          × (s'.matches ≡ new_match s.next_match match_uuid low high initiator now ∷ s.matches))
unfolding ensure_match
ensure_match-ends mu cu low high initiator now s n =
    let (s', e, (b, m)) =
      attach_match-ends cu s.next_match low high now
        (insert_new_match mu low high initiator now s) in
    (s', rw (n, ensure_match, ◌>>=◌) (rw (e, ◌>>=◌) refl), (b, m))

module _ (drawn : Drawn) (actor : ℕ) (req : NormalizedActionRequest) (target : Target)
    (db : Db) where
  abbrev pair : ℕ × ℕ
  pair = ordered_pair actor target.target_user_id

  -- A store in which the match of the pair has been added, and the blocks are those before.
  abbrev Added : Db → Type 0
  Added s =
      (s.blocks ≡ db.blocks)
      × (s.matches
          ≡ new_match db.next_match drawn.match_uuid pair.0 pair.1 actor drawn.now ∷ db.matches)

  still_likes :
      likes target.target_user_id actor db ≡ true
      → likes target.target_user_id actor (insert_new_action actor target req drawn db) ≡ true
  still_likes l = ground (arith, l)

  match_if_positive-ends :
      is_positive req.action_type ≡ true
      → likes target.target_user_id actor db ≡ true
      → find_first (is_pair pair.0 pair.1) db.matches ≡ none
      → (s : Db) × (match_if_positive no_faults none drawn actor req target
            (insert_new_action actor target req drawn db)
          ≡ done (some drawn.match_uuid) s)
        × Added s
  unfolding match_if_mutual
  match_if_positive-ends p l n =
      let (s, e, added) =
        ensure_match-ends drawn.match_uuid drawn.conversation_uuid pair.0 pair.1 actor drawn.now
          (insert_new_action actor target req drawn db) n in
      (s, rw (p, match_if_positive, ◌>>=◌) (rw (still_likes l, match_if_mutual, ◌>>=◌) e), added)

  store_action-ends :
      is_positive req.action_type ≡ true
      → likes target.target_user_id actor db ≡ true
      → find_first (is_pair pair.0 pair.1) db.matches ≡ none
      → (r : Recorded) × (s : Db) × (store_action no_faults none drawn actor req target db
          ≡ done r s)
        × (r.new_match_uuid ≡ some drawn.match_uuid)
        × Added s
  unfolding store_action
  store_action-ends p l n =
      let (s, e, added) = match_if_positive-ends p l n in
      (
        answer_in no_faults none drawn actor req target (some drawn.match_uuid) s,
        s,
        rw (p, store_action, ◌>>=◌) (rw (e, ◌>>=◌) refl),
        refl,
        added,
      )

  -- The transaction of `CreateAction` does not look at the blocks: a positive action towards a user
  -- who likes the actor, of a pair with a block, no action of the actor and no match, ends well, when no
  -- statement fails and no limiter is set, in a store where the pair has both the block and an active
  -- match with the drawn uuid, which the call announces.
  pub late_block_matches :
      is_blocked_either_direction actor target.target_user_id db ≡ true
      → find_action_by_client_id actor req.client_action_id db ≡ none
      → find_action_by_pair actor target.target_user_id db ≡ none
      → is_positive req.action_type ≡ true
      → likes target.target_user_id actor db ≡ true
      → find_first (is_pair pair.0 pair.1) db.matches ≡ none
      → (r : Recorded) × (s : Db) × (record_action no_faults none drawn actor req target db
          ≡ done r s)
        × (r.new_match_uuid ≡ some drawn.match_uuid)
        × (is_blocked_either_direction actor target.target_user_id s ≡ true)
        × (m : Match) × (active_match_for_pair actor target.target_user_id s ≡ some m)
        × (m.uuid ≡ drawn.match_uuid)
        × (m.status ≡ match_active)
  unfolding record_action action_tx
  late_block_matches b c q p l n =
      let (r, s, e, u, (blocks, matches)) = store_action-ends p l n in
      (
        r,
        s,
        rw (c, action_tx, ◌>>=◌) (rw (q, ◌>>=◌) (rw e refl)),
        u,
        rw blocks b,
        new_match db.next_match drawn.match_uuid pair.0 pair.1 actor drawn.now,
        rw (matches, ==_refl pair.0, ==_refl pair.1) refl,
        refl,
        refl,
      )
