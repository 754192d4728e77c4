-- ===== src/Discovery/Readiness.antt =====
-- internal/discovery/service.go: `buildReadiness`.
use dating_app_backend.Prelude.{
  ◌≡◌, refl, ◌∙◌, inl, inr, Bool, true, false, not, ◌&&◌, ◌||◌, List, [], ◌∷◌, ◌++◌, Text, codes,
  text_eq, text_eq_sound, is_empty, if◌then◌else◌, Bool-cases, arith,
}
use dating_app_backend.Store.{UserStatus, is_active_status}

pub record ReadinessSnapshot : Type 0 where
  pub user_status : UserStatus
  pub user_deleted : Bool
  pub has_profile : Bool
  pub profile_status : Text
  pub has_approved_primary_photo : Bool
  pub has_location : Bool
  pub has_precise_consented_location : Bool
  pub has_fresh_location : Bool
  pub has_preferences : Bool
  pub show_me_in_discovery : Bool

pub record ReadinessResponse : Type 0 where
  pub discovery_eligible : Bool
  pub missing : List Text
  pub blocked : List Text

-- The reasons that one group of checks adds: what is missing, and what blocks.
pub record Reasons : Type 0 where
  pub missing : List Text
  pub blocked : List Text

abbrev pub no_reasons : Reasons
no_reasons = record { missing = []; blocked = [] }

abbrev pub misses : Text → Reasons
misses t = record { missing = t ∷ []; blocked = [] }

abbrev pub blocks : Text → Reasons
blocks t = record { missing = []; blocked = t ∷ [] }

abbrev pub user_reasons : ReadinessSnapshot → Reasons
user_reasons s =
    if s.user_deleted || not (is_active_status s.user_status)
    then blocks (codes "userBanned")
    else no_reasons

abbrev pub profile_reasons : ReadinessSnapshot → Reasons
profile_reasons s =
    if not s.has_profile || is_empty s.profile_status || text_eq s.profile_status (codes "DRAFT")
    then misses (codes "profile")
    else if text_eq s.profile_status (codes "PAUSED")
    then blocks (codes "profilePaused")
    else if text_eq s.profile_status (codes "UNDER_REVIEW")
        || text_eq s.profile_status (codes "REJECTED")
    then blocks (codes "profileUnderReview")
    else if not (text_eq s.profile_status (codes "ACTIVE"))
    then misses (codes "profile")
    else no_reasons

abbrev pub photo_reasons : ReadinessSnapshot → Reasons
photo_reasons s =
    if not s.has_approved_primary_photo then misses (codes "approvedPrimaryPhoto") else no_reasons

abbrev pub location_reasons : ReadinessSnapshot → Reasons
location_reasons s =
    if not s.has_location || not s.has_precise_consented_location
    then misses (codes "location")
    else if not s.has_fresh_location
    then misses (codes "freshLocation")
    else no_reasons

abbrev pub preference_reasons : ReadinessSnapshot → Reasons
preference_reasons s =
    if not s.has_preferences
    then misses (codes "preferences")
    else if not s.show_me_in_discovery
    then blocks (codes "showMeInDiscoveryDisabled")
    else no_reasons

abbrev pub has_none : List Text → Bool
has_none [] = true
has_none (x ∷ xs) = false

unfoldable pub build_readiness : ReadinessSnapshot → ReadinessResponse
build_readiness s =
    let u = user_reasons s in
    let p = profile_reasons s in
    let h = photo_reasons s in
    let l = location_reasons s in
    let d = preference_reasons s in
    let missing = u.missing ++ p.missing ++ h.missing ++ l.missing ++ d.missing in
    let blocked = u.blocked ++ p.blocked ++ h.blocked ++ l.blocked ++ d.blocked in
    record {
      discovery_eligible = has_none missing && has_none blocked;
      missing = missing;
      blocked = blocked;
    }

-- What a user needs to take part in discovery.
abbrev pub is_ready : ReadinessSnapshot → Bool
is_ready s =
    not s.user_deleted
    && is_active_status s.user_status
    && s.has_profile
    && text_eq s.profile_status (codes "ACTIVE")
    && s.has_approved_primary_photo
    && s.has_location
    && s.has_precise_consented_location
    && s.has_fresh_location
    && s.has_preferences
    && s.show_me_in_discovery

-- The group has no reason.
abbrev no_reason : Reasons → Bool
no_reason r = has_none r.missing && has_none r.blocked

has_none-append : (xs ys : List Text) → has_none (xs ++ ys) ≡ (has_none xs && has_none ys)
has_none-append [] ys = refl
has_none-append (x ∷ xs) ys = refl

user_ready :
    (s : ReadinessSnapshot)
    → no_reason (user_reasons s) ≡ (not s.user_deleted && is_active_status s.user_status)
user_ready s = elim (Bool-cases s.user_deleted) [
  | inl b ↦ rw b refl
  | inr b ↦ elim (Bool-cases (is_active_status s.user_status)) [
    | inl c ↦ rw (b, c) refl
    | inr c ↦ rw (b, c) refl
  ]
]

inactive_profile :
    (s : ReadinessSnapshot)
    → text_eq s.profile_status (codes "ACTIVE") ≡ false
    → no_reason (profile_reasons s) ≡ false
inactive_profile s h =
    elim (Bool-cases (
      not s.has_profile || is_empty s.profile_status || text_eq s.profile_status (codes "DRAFT"))) [
        | inl a ↦ rw a refl
        | inr a ↦ elim (Bool-cases (text_eq s.profile_status (codes "PAUSED"))) [
          | inl b ↦ rw (a, b) refl
          | inr b ↦
              elim (Bool-cases (
                text_eq s.profile_status (codes "UNDER_REVIEW")
                || text_eq s.profile_status (codes "REJECTED"))) [
                  | inl c ↦ rw (a, b, c) refl
                  | inr c ↦ rw (a, b, c, h) refl
                ]
        ]
      ]

false_right : (a : Bool) → false ≡ (a && false)
false_right true = refl
false_right false = refl

profile_ready :
    (s : ReadinessSnapshot)
    → no_reason (profile_reasons s) ≡ (s.has_profile && text_eq s.profile_status (codes "ACTIVE"))
profile_ready s = elim (Bool-cases (text_eq s.profile_status (codes "ACTIVE"))) [
  | inl a ↦
      let e : s.profile_status ≡ codes "ACTIVE" =
        text_eq_sound s.profile_status (codes "ACTIVE") a in
      elim (Bool-cases s.has_profile) [ inl b ↦ rw (b, e) refl | inr b ↦ rw b refl ]
  | inr a ↦ rw (inactive_profile s a, a) (false_right s.has_profile)
]

photo_ready : (s : ReadinessSnapshot) → no_reason (photo_reasons s) ≡ s.has_approved_primary_photo
photo_ready s = elim (Bool-cases s.has_approved_primary_photo) [
  | inl b ↦ rw b refl
  | inr b ↦ rw b refl
]

location_ready :
    (s : ReadinessSnapshot)
    → no_reason (location_reasons s)
      ≡ (s.has_location && s.has_precise_consented_location && s.has_fresh_location)
location_ready s = elim (Bool-cases s.has_location) [
  | inr b ↦ rw b refl
  | inl b ↦ elim (Bool-cases s.has_precise_consented_location) [
    | inr c ↦ rw (b, c) refl
    | inl c ↦ elim (Bool-cases s.has_fresh_location) [
      | inl d ↦ rw (b, c, d) refl
      | inr d ↦ rw (b, c, d) refl
    ]
  ]
]

preferences_ready :
    (s : ReadinessSnapshot)
    → no_reason (preference_reasons s) ≡ (s.has_preferences && s.show_me_in_discovery)
preferences_ready s = elim (Bool-cases s.has_preferences) [
  | inr b ↦ rw b refl
  | inl b ↦ elim (Bool-cases s.show_me_in_discovery) [
    | inl c ↦ rw (b, c) refl
    | inr c ↦ rw (b, c) refl
  ]
]

five_groups :
    (a b c d e a' b' c' d' e' : Bool)
    → ((a && (b && (c && (d && e)))) && (a' && (b' && (c' && (d' && e')))))
      ≡ ((a && a') && (b && b') && (c && c') && (d && d') && (e && e'))
five_groups a b c d e a' b' c' d' e' = ground arith

five_missing :
    (a b c d e : List Text)
    → has_none (a ++ b ++ c ++ d ++ e)
      ≡ (has_none a && (has_none b && (has_none c && (has_none d && has_none e))))
five_missing [] [] [] [] e = refl
five_missing (x ∷ a) b c d e = refl
five_missing [] (x ∷ b) c d e = refl
five_missing [] [] (x ∷ c) d e = refl
five_missing [] [] [] (x ∷ d) e = refl

groups :
    (u p h l d : Reasons)
    → (has_none (u.missing ++ p.missing ++ h.missing ++ l.missing ++ d.missing)
        && has_none (u.blocked ++ p.blocked ++ h.blocked ++ l.blocked ++ d.blocked))
      ≡ (no_reason u && no_reason p && no_reason h && no_reason l && no_reason d)
groups u p h l d =
    rw
      (
        five_missing u.missing p.missing h.missing l.missing d.missing,
        five_missing u.blocked p.blocked h.blocked l.blocked d.blocked,
      )
      (five_groups (has_none u.missing) (has_none p.missing) (has_none h.missing)
        (has_none l.missing) (has_none d.missing) (has_none u.blocked) (has_none p.blocked)
        (has_none h.blocked) (has_none l.blocked) (has_none d.blocked))

flatten :
    (a b c d e f g h i j : Bool)
    → ((a && b) && (c && d) && e && (f && g && h) && (i && j))
      ≡ (a && b && c && d && e && f && g && h && i && j)
flatten a b c d e f g h i j = ground arith

-- `buildReadiness` calls a user eligible exactly when the user is active, has an active profile, an approved
-- primary photo, a precise and fresh location with consent, and preferences that show the user.
pub build_readiness-is_ready :
    (s : ReadinessSnapshot) → (build_readiness s).discovery_eligible ≡ is_ready s
unfolding build_readiness
build_readiness-is_ready s =
    groups (user_reasons s) (profile_reasons s) (photo_reasons s) (location_reasons s)
      (preference_reasons s)
    ∙ rw (user_ready s, profile_ready s, photo_ready s, location_ready s, preferences_ready s)
        (flatten (not s.user_deleted) (is_active_status s.user_status) s.has_profile
          (text_eq s.profile_status (codes "ACTIVE")) s.has_approved_primary_photo s.has_location
          s.has_precise_consented_location s.has_fresh_location s.has_preferences
          s.show_me_in_discovery)
