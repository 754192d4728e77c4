-- ===== src/Discovery/RulesTests.antt =====
-- internal/discovery: preferences and readiness of one user.
use dating_app_backend.Prelude.{
  ◌≡◌, refl, true, false, some, [], ◌∷◌, codes, trim_space, to_upper, ok, err,
}
use dating_app_backend.Store.{user_active}
use dating_app_backend.Discovery.Model.{validation}
use dating_app_backend.Discovery.Readiness.{
  ReadinessSnapshot, build_readiness, build_readiness-is_ready,
}
use dating_app_backend.Discovery.Preferences.{
  PreferencesRequest, NormalizedPreferences, genders_from, normalize_genders, check_preferences,
  normalize_preferences,
}
use dating_app_backend.Discovery.Ranges.{InRange, normalize_preferences-InRange}

abbrev wishes : PreferencesRequest
wishes = record {
  min_age = some 21;
  max_age = some 35;
  preferred_genders = some (codes " male" ∷ codes "OTHER" ∷ []);
  max_distance_km = some 30;
  verified_only = some false;
  show_me_in_discovery = some true;
  hide_distance = some false;
}

abbrev accepted : NormalizedPreferences
accepted = record {
  min_age = 21;
  max_age = 35;
  preferred_genders = codes "MALE" ∷ codes "OTHER" ∷ [];
  max_distance_km = 30;
  verified_only = false;
  show_me_in_discovery = true;
  hide_distance = false;
}

accepted_run : normalize_preferences wishes ≡ ok accepted
unfolding normalize_preferences check_preferences normalize_genders genders_from trim_space to_upper
accepted_run = refl

normalize_preferences-InRange_example : InRange accepted
normalize_preferences-InRange_example = normalize_preferences-InRange wishes accepted accepted_run

-- What stands behind `EVERYONE` is not looked at.
everyone_run :
    normalize_genders (codes "FEMALE" ∷ codes "everyone" ∷ codes "robot" ∷ [])
    ≡ ok (codes "EVERYONE" ∷ [])
unfolding normalize_genders genders_from trim_space to_upper
everyone_run = refl

repeated_run : normalize_genders (codes "MALE" ∷ codes "male " ∷ []) ≡ err validation
unfolding normalize_genders genders_from trim_space to_upper
repeated_run = refl

abbrev paused : ReadinessSnapshot
paused = record {
  user_status = user_active;
  user_deleted = false;
  has_profile = true;
  profile_status = codes "PAUSED";
  has_approved_primary_photo = true;
  has_location = true;
  has_precise_consented_location = true;
  has_fresh_location = false;
  has_preferences = true;
  show_me_in_discovery = true;
}

paused_run : build_readiness paused ≡ record {
  discovery_eligible = false;
  missing = codes "freshLocation" ∷ [];
  blocked = codes "profilePaused" ∷ [];
}
unfolding build_readiness
paused_run = refl

abbrev ready : ReadinessSnapshot
ready = record paused { profile_status = codes "ACTIVE"; has_fresh_location = true }

build_readiness-is_ready_example : (build_readiness ready).discovery_eligible ≡ true
build_readiness-is_ready_example = build_readiness-is_ready ready
