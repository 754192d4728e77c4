-- ===== src/Safety/Reads.antt =====
-- internal/safety/service.go: `validateReportTargetAccess` only reads.
use dating_app_backend.Prelude.{
  ℕ, ◌≡◌, refl, inl, inr, Bool, Option, none, some, ◌==◌, store_of, Bool-cases, ◌>>=◌,
}
use dating_app_backend.Store.{Match}
use dating_app_backend.Safety.Model.{
  TargetType, target_user, target_profile, target_message, target_media, target_match, SafetyDb,
}
use dating_app_backend.Safety.Targets.{
  TargetSite, find_target, find_context, has_user_context, user_of_user, user_of_profile,
  user_of_media, user_of_message, match_for, check_context, check_sender, other_of_match,
  validate_target,
}

module _ (faults : TargetSite → Bool) (reporter uuid : ℕ) (db : SafetyDb) where
  check_context-store :
      (t : TargetType) (o : Option ℕ) → store_of (check_context faults reporter uuid t o db) ≡ db
  unfolding check_context
  check_context-store t none = refl
  check_context-store t (some u) = elim (Bool-cases (reporter == u)) [
    | inl b ↦ rw (check_context, b) refl
    | inr b ↦ elim (Bool-cases (faults find_context)) [
      | inl f ↦ rw (check_context, b, f, ◌>>=◌) refl
      | inr f ↦ elim (Bool-cases (has_user_context reporter u db)) [
        | inl k ↦ rw (check_context, b, f, ◌>>=◌, k) refl
        | inr k ↦ rw (check_context, b, f, ◌>>=◌, k) refl
      ]
    ]
  ]

  check_sender-store : (o : Option ℕ) → store_of (check_sender faults reporter uuid o db) ≡ db
  unfolding check_sender
  check_sender-store none = refl
  check_sender-store (some u) = elim (Bool-cases (u == reporter)) [
    | inl b ↦ rw (check_sender, b) refl
    | inr b ↦ rw (check_sender, b) refl
  ]

  other_of_match-store :
      (o : Option Match) → store_of (other_of_match faults reporter uuid o db) ≡ db
  unfolding other_of_match
  other_of_match-store none = refl
  other_of_match-store (some m) = refl

  pub validate_target-store :
      (t : TargetType) → store_of (validate_target faults reporter uuid t db) ≡ db
  unfolding validate_target
  validate_target-store target_user = elim (Bool-cases (faults find_target)) [
    | inl f ↦ rw (validate_target, f) refl
    | inr f ↦ rw (validate_target, f) (check_context-store target_user (user_of_user uuid db))
  ]
  validate_target-store target_profile = elim (Bool-cases (faults find_target)) [
    | inl f ↦ rw (validate_target, f) refl
    | inr f ↦ rw (validate_target, f) (check_context-store target_profile (user_of_profile uuid db))
  ]
  validate_target-store target_media = elim (Bool-cases (faults find_target)) [
    | inl f ↦ rw (validate_target, f) refl
    | inr f ↦ rw (validate_target, f) (check_context-store target_media (user_of_media uuid db))
  ]
  validate_target-store target_message = elim (Bool-cases (faults find_target)) [
    | inl f ↦ rw (validate_target, f) refl
    | inr f ↦ rw (validate_target, f) (check_sender-store (user_of_message reporter uuid db))
  ]
  validate_target-store target_match = elim (Bool-cases (faults find_target)) [
    | inl f ↦ rw (validate_target, f) refl
    | inr f ↦ rw (validate_target, f) (other_of_match-store (match_for reporter uuid db))
  ]
