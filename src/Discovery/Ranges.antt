-- ===== src/Discovery/Ranges.antt =====
-- internal/discovery/service.go: the ranges of accepted preferences.
use dating_app_backend.Prelude.{
  ℕ, ◌≤◌, ◌≡◌, subst, inl, inr, Bool, true, ◌||◌, List, Text, ltb, Result, ok, err, Bool-cases,
  Option-cases, Result-cases, arith,
}
use dating_app_backend.Discovery.Model.{DiscoveryError}
use dating_app_backend.Discovery.Preferences.{
  PreferencesRequest, NormalizedPreferences, normalize_genders, check_preferences,
  normalize_preferences,
}
use dating_app_backend.Discovery.Genders.{
  IsGenders, has_genders, GendersOf, SomeGenders, normalize_genders-GendersOf,
  normalize_genders-SomeGenders,
}

-- What accepted preferences satisfy.
pub record InRange (n : NormalizedPreferences) : Type 0 where
  pub adult : 18 ≤ n.min_age
  pub ordered : n.min_age ≤ n.max_age
  pub at_most_80 : n.max_age ≤ 80
  pub near : 1 ≤ n.max_distance_km
  pub not_far : n.max_distance_km ≤ 200
  pub some_gender : has_genders n.preferred_genders ≡ true
  pub genders : IsGenders n.preferred_genders

abbrev RangeOf : Result DiscoveryError NormalizedPreferences → Type 0
RangeOf (ok n) = InRange n
RangeOf (err e) = Unit

check_preferences-RangeOf :
    (min max : ℕ) (genders : List Text) (distance : ℕ) (verified show hide : Bool)
    → RangeOf (check_preferences min max genders distance verified show hide)
unfolding check_preferences
check_preferences-RangeOf min max genders distance verified show hide =
    elim (Bool-cases (ltb min 18)) [
      | inl a ↦ rw (check_preferences, a) tt
      | inr a ↦ elim (Bool-cases (ltb 80 max)) [
        | inl b ↦ rw (check_preferences, a, b) tt
        | inr b ↦ elim (Bool-cases (ltb max min)) [
          | inl c ↦ rw (check_preferences, a, b, c) tt
          | inr c ↦ elim (Bool-cases (ltb distance 1 || ltb 200 distance)) [
            | inl d ↦ rw (check_preferences, a, b, c, d) tt
            | inr d ↦ elim (Result-cases (normalize_genders genders)) [
              | inr (e, q) ↦ rw (check_preferences, a, b, c, d, q) tt
              | inl (gs, q) ↦
                  rw (check_preferences, a, b, c, d, q)
                    (record {
                      adult = ground arith;
                      ordered = ground arith;
                      at_most_80 = ground arith;
                      near = ground arith;
                      not_far = ground arith;
                      some_gender = subst SomeGenders q (normalize_genders-SomeGenders genders);
                      genders = subst GendersOf q (normalize_genders-GendersOf genders);
                    })
            ]
          ]
        ]
      ]
    ]

all_fields : (r : PreferencesRequest) → RangeOf (normalize_preferences r)
unfolding normalize_preferences
all_fields r = elim (Option-cases r.min_age) [
  | inl a ↦ rw (normalize_preferences, a) tt
  | inr (min, a) ↦ elim (Option-cases r.max_age) [
    | inl b ↦ rw (normalize_preferences, a, b) tt
    | inr (max, b) ↦ elim (Option-cases r.preferred_genders) [
      | inl c ↦ rw (normalize_preferences, a, b, c) tt
      | inr (genders, c) ↦ elim (Option-cases r.max_distance_km) [
        | inl d ↦ rw (normalize_preferences, a, b, c, d) tt
        | inr (distance, d) ↦ elim (Option-cases r.verified_only) [
          | inl e ↦ rw (normalize_preferences, a, b, c, d, e) tt
          | inr (verified, e) ↦ elim (Option-cases r.show_me_in_discovery) [
            | inl f ↦ rw (normalize_preferences, a, b, c, d, e, f) tt
            | inr (show, f) ↦ elim (Option-cases r.hide_distance) [
              | inl g ↦ rw (normalize_preferences, a, b, c, d, e, f, g) tt
              | inr (hide, g) ↦
                  rw (normalize_preferences, a, b, c, d, e, f, g)
                    (check_preferences-RangeOf min max genders distance verified show hide)
            ]
          ]
        ]
      ]
    ]
  ]
]

-- Preferences that are accepted have ages with 18 ≤ minimum ≤ maximum ≤ 80, a distance of 1 to 200 km, and
-- a list of genders that is not empty: known genders with no repetition, or `EVERYONE` alone.
pub normalize_preferences-InRange :
    (r : PreferencesRequest) (n : NormalizedPreferences)
    → normalize_preferences r ≡ ok n
    → InRange n
unfolding normalize_preferences
normalize_preferences-InRange r n h = subst RangeOf h (all_fields r)
