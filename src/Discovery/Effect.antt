-- ===== src/Discovery/Effect.antt =====
-- internal/discovery/action.go: what the transaction of `CreateAction` writes.
use dating_app_backend.Prelude.{
  ℕ, ◌≡◌, refl, inl, inr, Bool, Option, none, some, is_some, ◌∷◌, Outcome, done, Bool-cases,
  Option-cases, exists, find_first, store_of, if◌then◌else◌, ◌>>=◌, pure, ◌>>◌, subst,
  then_pure-done,
}
use dating_app_backend.Store.{Conversation, Db, is_pair}
use dating_app_backend.Discovery.Model.{DiscoveryError}
use dating_app_backend.Discovery.Matching.{
  Site, insert_match, find_match, insert_participants, insert_conversation,
  insert_conversation_participants, of_match, insert_new_match, attach_match, attach_conversation,
  add_participant, ensure_match, new_match, upsert_conversation,
}

-- `db'` has the matches and actions of `db`.
abbrev pub SamePairs : Db → Db → Type 0
SamePairs db db' = (db'.matches ≡ db.matches) × (db'.actions ≡ db.actions)

upsert-SamePairs :
    (uuid match_id now : ℕ) (db s : Db)
    → SamePairs db s
    → SamePairs db (upsert_conversation uuid match_id now s)
upsert-SamePairs uuid match_id now db s p =
    elim (Bool-cases (exists (of_match match_id) s.conversations)) [
      | inl b ↦ rw b p
      | inr b ↦ rw b p
    ]

-- What `ensureMatchTx` has done, at a good end.
pub record Ensured (match_uuid low high initiator now : ℕ) (db db' : Db) (new : Option ℕ)
    : Type 0 where
  pub actions_kept : db'.actions ≡ db.actions
  pub match_added : db'.matches ≡ (
      if is_some (find_first (is_pair low high) db.matches)
      then db.matches
      else new_match db.next_match match_uuid low high initiator now ∷ db.matches)
  pub new_uuid :
      new ≡ (if is_some (find_first (is_pair low high) db.matches) then none else some match_uuid)

module _ (faults : Site → Bool) where
  attach_conversation-SamePairs :
      (low high now : ℕ) (found : Option Conversation) (db s : Db)
      → SamePairs db s
      → SamePairs db (store_of (attach_conversation faults low high now found s))
  attach_conversation-SamePairs low high now none db s p = p
  attach_conversation-SamePairs low high now (some c) db s p =
      elim (Bool-cases (faults insert_conversation_participants)) [
        | inl f ↦ rw f p
        | inr f ↦ rw f p
      ]

  attach_match-SamePairs :
      (conversation_uuid match_id low high now : ℕ) (db : Db)
      → SamePairs db (store_of (attach_match faults conversation_uuid match_id low high now db))
  unfolding attach_match
  attach_match-SamePairs cu mid low high now db = elim (Bool-cases (faults insert_participants)) [
    | inl f ↦ rw (f, attach_match) (refl, refl)
    | inr f ↦
        rw (f, attach_match)
          (elim (Bool-cases (faults insert_conversation)) [
            | inl g ↦ rw g (refl, refl)
            | inr g ↦
                rw (g, ◌>>=◌)
                  (let s = upsert_conversation cu mid now (record db {
                    match_participants =
                        add_participant mid high now
                          (add_participant mid low now db.match_participants);
                  }) in
                    attach_conversation-SamePairs low high now
                      (find_first (of_match mid) s.conversations) db s
                      (upsert-SamePairs cu mid now db _ (refl, refl)))
          ])
  ]

  attach_match-done :
      (conversation_uuid match_id low high now : ℕ) (s s' : Db) (new new' : Option ℕ)
      → ◌≡◌ {A = Outcome DiscoveryError Db (Option ℕ)}
          ((attach_match faults conversation_uuid match_id low high now >> pure new) s)
          (done new' s')
      → SamePairs s s' × (new' ≡ new)
  attach_match-done cu mid low high now s s' new new' h =
      let e = then_pure-done (attach_match faults cu mid low high now) new s h in
      (
        subst (λ o. SamePairs s (store_of o)) e.1 (attach_match-SamePairs cu mid low high now s),
        e.0,
      )

  -- A match is added when the pair has none, and only its uuid is new.
  pub ensure_match-done :
      (match_uuid conversation_uuid low high initiator now : ℕ) (db db' : Db) (new : Option ℕ)
      → ensure_match faults match_uuid conversation_uuid low high initiator now db ≡ done new db'
      → Ensured match_uuid low high initiator now db db' new
  unfolding ensure_match
  ensure_match-done mu cu low high initiator now db db' new h =
      elim (Bool-cases (faults insert_match)) [
        | inl f ↦ cc
        | inr f ↦ elim (Option-cases (find_first (is_pair low high) db.matches)) [
          | inl e ↦
              let a =
                attach_match-done cu db.next_match low high now
                  (insert_new_match mu low high initiator now db) db' (some mu) new
                  (rw (f, e, ◌>>=◌) at h) in
              record { actions_kept = a.0.1; match_added = rw e a.0.0; new_uuid = rw e a.1 }
          | inr (m, e) ↦ elim (Bool-cases (faults find_match)) [
            | inl g ↦ cc
            | inr g ↦
                let a =
                  attach_match-done cu m.id low high now db db' none new
                    (rw (f, e, g, ◌>>=◌) at h) in
                record { actions_kept = a.0.1; match_added = rw e a.0.0; new_uuid = rw e a.1 }
          ]
        ]
      ]
