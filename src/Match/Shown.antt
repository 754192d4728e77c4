-- ===== src/Match/Shown.antt =====
-- internal/match/service.go: what the query of `CanViewProfileMedia` finds.
use dating_app_backend.Prelude.{
  ℕ, ◌≡◌, refl, ◌⊎◌, inl, inr, Bool, true, false, not, ◌&&◌, ◌||◌, Option, none, some, List, [],
  ◌∷◌, ◌==◌, is_none, exists, Bool-cases, arith,
}
use mathlib.Core.List.{Mem, mem-cons_self, mem-cons_of_mem}
use dating_app_backend.Store.{
  UserStatus, user_active, user_suspended, user_banned, user_deleted, User, MatchStatus,
  match_active, unmatched, Match, MatchParticipant, Db, is_active_status, is_active_match,
  user_by_id, is_blocked_either_direction,
}
use dating_app_backend.Match.Views.{is_participant, is_live, shows_media}

exists_row {ℓ} :
    {A : Type ℓ} (p : A → Bool) (xs : List A)
    → exists p xs ≡ true
    → (x : A) × Mem x xs × (p x ≡ true)
exists_row p [] h = cc
exists_row p (x ∷ xs) h = elim (Bool-cases (p x)) [
  | inl b ↦ (x, mem-cons_self, b)
  | inr b ↦ (let (y, m, q) = exists_row p xs (rw b at h) in (y, mem-cons_of_mem x m, q))
]

status_active : (t : MatchStatus) → is_active_match t ≡ true → t ≡ match_active
status_active match_active h = refl
status_active unmatched h = cc

user_status_active : (t : UserStatus) → is_active_status t ≡ true → t ≡ user_active
user_status_active user_active h = refl
user_status_active user_suspended h = cc
user_status_active user_banned h = cc
user_status_active user_deleted h = cc

both_true : (a b : Bool) → (a && b) ≡ true → (a ≡ true) × (b ≡ true)
both_true a b h = (ground arith, ground arith)

null_time : (o : Option ℕ) → is_none o ≡ true → o ≡ none
null_time none h = refl
null_time (some t) h = cc

-- The account is active and not deleted.
abbrev pub IsLive : ℕ → Db → Type 0
IsLive id db =
    (u : User) × (user_by_id id db ≡ some u) × (u.status ≡ user_active) × (u.deleted_at ≡ none)

live_user :
    (o : Option User)
    → is_live o ≡ true
    → (u : User) × (o ≡ some u) × (u.status ≡ user_active) × (u.deleted_at ≡ none)
live_user none h = cc
live_user (some u) h =
    let (a, d) = both_true (is_active_status u.status) (is_none u.deleted_at) h in
    (u, refl, user_status_active u.status a, null_time u.deleted_at d)

-- What shows the media of `owner` to `viewer`: a match of the two that is active, in which the viewer
-- takes part and that the viewer has not hidden, and in which the owner takes part; the owner's account
-- is live, and neither has blocked the other.
pub record ShownBy (viewer owner : ℕ) (db : Db) : Type 0 where
  pub found : Match
  pub is_there : Mem found db.matches
  pub active : found.status ≡ match_active
  pub of_pair :
      ((found.user_low_id ≡ viewer) × (found.user_high_id ≡ owner))
      ⊎ ((found.user_low_id ≡ owner) × (found.user_high_id ≡ viewer))
  pub place : MatchParticipant
  pub takes_part : Mem place db.match_participants
  pub place_is : (place.match_id ≡ found.id) × (place.user_id ≡ viewer)
  pub shown : place.hidden_at ≡ none
  pub other_place : MatchParticipant
  pub other_takes_part : Mem other_place db.match_participants
  pub other_place_is : (other_place.match_id ≡ found.id) × (other_place.user_id ≡ owner)
  pub owner_live : IsLive owner db
  pub no_block : is_blocked_either_direction viewer owner db ≡ false

place_ids :
    (id user : ℕ) (p : MatchParticipant)
    → is_participant id user p ≡ true
    → (p.match_id ≡ id) × (p.user_id ≡ user)
place_ids id user p h = (ground arith, ground arith)

pair_ids :
    (low high a b : ℕ)
    → (low == a && high == b || low == b && high == a) ≡ true
    → ((low ≡ a) × (high ≡ b)) ⊎ ((low ≡ b) × (high ≡ a))
pair_ids low high a b h = elim (Bool-cases (low == a && high == b)) [
  | inl e ↦ inl (ground arith, ground arith)
  | inr e ↦ inr (ground arith, ground arith)
]

six :
    (a b c d e f : Bool)
    → (a && b && c && d && e && not f) ≡ true
    → (a ≡ true) × (b ≡ true) × (c ≡ true) × (d ≡ true) × (e ≡ true) × (f ≡ false)
six a b c d e f h =
    (ground arith, ground arith, ground arith, ground arith, ground arith, ground arith)

pub shows_media-ShownBy :
    (viewer owner : ℕ) (db : Db)
    → exists (shows_media viewer owner db) db.matches ≡ true
    → ShownBy viewer owner db
shows_media-ShownBy viewer owner db h =
    let (m, is_there, s) = exists_row (shows_media viewer owner db) db.matches h in
    let visible = (λ (p : MatchParticipant). is_participant m.id viewer p && is_none p.hidden_at) in
    let (seen, other, live, active, pair, clear) =
      six (exists visible db.match_participants)
        (exists (is_participant m.id owner) db.match_participants) (is_live (user_by_id owner db))
        (is_active_match m.status)
        (m.user_low_id == viewer && m.user_high_id == owner
          || m.user_low_id == owner && m.user_high_id == viewer)
        (is_blocked_either_direction viewer owner db) s in
    let (place, takes_part, k) = exists_row visible db.match_participants seen in
    let (ids, shown) = both_true (is_participant m.id viewer place) (is_none place.hidden_at) k in
    let (other_place, other_takes_part, o) =
      exists_row (is_participant m.id owner) db.match_participants other in
    record {
      found = m;
      is_there = is_there;
      active = status_active m.status active;
      of_pair = pair_ids m.user_low_id m.user_high_id viewer owner pair;
      place = place;
      takes_part = takes_part;
      place_is = place_ids m.id viewer place ids;
      shown = null_time place.hidden_at shown;
      other_place = other_place;
      other_takes_part = other_takes_part;
      other_place_is = place_ids m.id owner other_place o;
      owner_live = live_user (user_by_id owner db) live;
      no_block = clear;
    }
