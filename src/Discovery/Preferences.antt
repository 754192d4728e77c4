-- ===== src/Discovery/Preferences.antt =====
-- internal/discovery/service.go: `normalizePreferencesRequest`, `normalizeGenders`, `validGender`. A field
-- that is absent or null is `none`. A negative number fails every check that 0 fails.
use dating_app_backend.Prelude.{
  ℕ, Bool, not, ◌||◌, Option, none, some, List, [], ◌∷◌, ◌++◌, Text, codes, text_eq, trim_space,
  to_upper, if◌then◌else◌, ltb, exists, Result, ok, err,
}
use dating_app_backend.Discovery.Model.{DiscoveryError, validation}

pub record PreferencesRequest : Type 0 where
  pub min_age : Option ℕ
  pub max_age : Option ℕ
  pub preferred_genders : Option (List Text)
  pub max_distance_km : Option ℕ
  pub verified_only : Option Bool
  pub show_me_in_discovery : Option Bool
  pub hide_distance : Option Bool

pub record NormalizedPreferences : Type 0 where
  pub min_age : ℕ
  pub max_age : ℕ
  pub preferred_genders : List Text
  pub max_distance_km : ℕ
  pub verified_only : Bool
  pub show_me_in_discovery : Bool
  pub hide_distance : Bool

abbrev pub everyone : Text
everyone = codes "EVERYONE"

abbrev pub is_single_gender : Text → Bool
is_single_gender value =
    text_eq value (codes "MALE")
    || text_eq value (codes "FEMALE")
    || text_eq value (codes "NON_BINARY")
    || text_eq value (codes "OTHER")

-- `validGender`
abbrev pub valid_gender : Text → Bool
valid_gender value = is_single_gender value || text_eq value everyone

-- The loop of `normalizeGenders`; what was seen is what stands in the result.
unfoldable pub genders_from : List Text → List Text → Result DiscoveryError (List Text)
genders_from result [] = ok result
genders_from result (v ∷ vs) =
    let g = to_upper (trim_space v) in
    let rest = genders_from (result ++ g ∷ []) vs in
    if not (valid_gender g)
    then err validation
    else if exists (text_eq g) result
    then err validation
    else if text_eq g everyone
    then ok (everyone ∷ [])
    else rest

unfoldable pub normalize_genders : List Text → Result DiscoveryError (List Text)
normalize_genders [] = err validation
normalize_genders (v ∷ vs) = genders_from [] (v ∷ vs)

abbrev pub with_genders :
    ℕ
    → ℕ
    → ℕ
    → Bool
    → Bool
    → Bool
    → Result DiscoveryError (List Text)
    → Result DiscoveryError NormalizedPreferences
with_genders min max distance verified show hide (err e) = err e
with_genders min max distance verified show hide (ok genders) = ok (record {
  min_age = min;
  max_age = max;
  preferred_genders = genders;
  max_distance_km = distance;
  verified_only = verified;
  show_me_in_discovery = show;
  hide_distance = hide;
})

-- The checks, of a request that has every field.
unfoldable pub check_preferences :
    ℕ → ℕ → List Text → ℕ → Bool → Bool → Bool → Result DiscoveryError NormalizedPreferences
check_preferences min max genders distance verified show hide =
    if ltb min 18
    then err validation
    else if ltb 80 max
    then err validation
    else if ltb max min
    then err validation
    else if ltb distance 1 || ltb 200 distance
    then err validation
    else with_genders min max distance verified show hide (normalize_genders genders)

-- `normalizePreferencesRequest`
unfoldable pub normalize_preferences :
    PreferencesRequest → Result DiscoveryError NormalizedPreferences
normalize_preferences r = elim r.min_age [
  | none ↦ err validation
  | some min ↦ elim r.max_age [
    | none ↦ err validation
    | some max ↦ elim r.preferred_genders [
      | none ↦ err validation
      | some genders ↦ elim r.max_distance_km [
        | none ↦ err validation
        | some distance ↦ elim r.verified_only [
          | none ↦ err validation
          | some verified ↦ elim r.show_me_in_discovery [
            | none ↦ err validation
            | some show ↦ elim r.hide_distance [
              | none ↦ err validation
              | some hide ↦ check_preferences min max genders distance verified show hide
            ]
          ]
        ]
      ]
    ]
  ]
]
