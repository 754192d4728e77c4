-- ===== src/Match/Seen.antt =====
-- internal/match/service.go: when a match was first seen, and who sees media.
use dating_app_backend.Prelude.{
  ℕ, ◌≡◌, refl, inl, inr, Bool, Option, none, some, Text, trim_space, patch, store_of, ◌>>=◌,
  Bool-cases, Option-cases, find_first-update_where,
}
use dating_app_backend.Store.{Match, MatchParticipant, Db}
use dating_app_backend.Match.Views.{
  SeenSite, read_match, set_seen, is_participant, visible_match, as_opened, participant_of,
  opened_db, open_match, mark_seen,
}

abbrev pub seen_time : Option MatchParticipant → Option ℕ
seen_time none = none
seen_time (some p) = p.seen_at

-- When a member has first seen a match.
abbrev pub first_seen : ℕ → ℕ → Db → Option ℕ
first_seen id user db = seen_time (participant_of id user db)

opened_key :
    (id user m u now : ℕ) (p : MatchParticipant)
    → is_participant id user (patch (is_participant m u) (as_opened now) p)
      ≡ is_participant id user p
opened_key id user m u now p = elim (Bool-cases (is_participant m u p)) [
  | inl b ↦ rw b refl
  | inr b ↦ rw b refl
]

opened_seen :
    (m u now t : ℕ) (p : MatchParticipant)
    → p.seen_at ≡ some t
    → (patch (is_participant m u) (as_opened now) p).seen_at ≡ some t
opened_seen m u now t p h = elim (Bool-cases (is_participant m u p)) [
  | inl b ↦ rw (b, h) refl
  | inr b ↦ rw b h
]

module _ (faults : SeenSite → Bool) (now user : ℕ) (id member t : ℕ) where
  opened-first_seen :
      (m : Match) (db : Db)
      → first_seen id member db ≡ some t
      → first_seen id member (opened_db faults now user m db) ≡ some t
  opened-first_seen m db h =
      rw
        (find_first-update_where (is_participant m.id user) (as_opened now)
          (is_participant id member) db.match_participants (opened_key id member m.id user now))
        (elim (Option-cases (participant_of id member db)) [
          | inl n ↦ (let k = rw n at h in cc)
          | inr (p, n) ↦ rw n (opened_seen m.id user now t p (rw n at h))
        ])

  open_match-first_seen :
      (found : Option Match) (db : Db)
      → first_seen id member db ≡ some t
      → first_seen id member (store_of (open_match faults now user found db)) ≡ some t
  unfolding open_match
  open_match-first_seen none db h = h
  open_match-first_seen (some m) db h = elim (Bool-cases (faults set_seen)) [
    | inl f ↦ rw (open_match, f) h
    | inr f ↦ rw (open_match, f) (opened-first_seen m db h)
  ]

  -- The time at which a member has first seen a match is not changed by any call of `MarkSeen`, by
  -- whomever, for whichever match and however it ends.
  pub mark_seen-first_seen :
      (parse_uuid : Text → Option ℕ) (raw : Text) (db : Db)
      → first_seen id member db ≡ some t
      → first_seen id member (store_of (mark_seen faults now user parse_uuid raw db)) ≡ some t
  unfolding mark_seen
  mark_seen-first_seen parse_uuid raw db h = elim (Option-cases (parse_uuid (trim_space raw))) [
    | inl n ↦ rw (mark_seen, n) h
    | inr (uuid, n) ↦ elim (Bool-cases (faults read_match)) [
      | inl f ↦ rw (mark_seen, n, f, ◌>>=◌) h
      | inr f ↦
          rw (mark_seen, n, f, ◌>>=◌) (open_match-first_seen (visible_match user uuid db) db h)
    ]
  ]
