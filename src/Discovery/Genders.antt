-- ===== src/Discovery/Genders.antt =====
-- internal/discovery/service.go: the lists that `normalizeGenders` returns.
use dating_app_backend.Prelude.{
  ◌≡◌, refl, inl, inr, Bool, true, false, ◌⊎◌, List, [], ◌∷◌, ◌++◌, Text, text_eq, text_eq_sound,
  text_eq_refl, trim_space, to_upper, exists, All, All-append, Result, ok, err, Bool-cases, arith,
}
use dating_app_backend.Discovery.Model.{DiscoveryError}
use dating_app_backend.Discovery.Preferences.{
  everyone, is_single_gender, valid_gender, genders_from, normalize_genders,
}

-- No text stands twice.
abbrev pub NoRepeat : List Text → Type 0
NoRepeat [] = Unit
NoRepeat (x ∷ xs) = (exists (text_eq x) xs ≡ false) × NoRepeat xs

-- Genders with no repetition, or `EVERYONE` alone.
abbrev pub IsGenders : List Text → Type 0
IsGenders gs = (All (λ g. is_single_gender g ≡ true) gs × NoRepeat gs) ⊎ (gs ≡ everyone ∷ [])

text_eq_sym : (s t : Text) → text_eq s t ≡ false → text_eq t s ≡ false
text_eq_sym s t h = elim (Bool-cases (text_eq t s)) [
  | inr b ↦ b
  | inl b ↦
      let e : t ≡ s = text_eq_sound t s b in (let k = text_eq_refl s in let l = rw e at h in cc)
]

absent-append :
    (x g : Text) (xs : List Text)
    → exists (text_eq x) xs ≡ false
    → text_eq x g ≡ false
    → exists (text_eq x) (xs ++ g ∷ []) ≡ false
absent-append x g [] h k = rw k refl
absent-append x g (y ∷ xs) h k = elim (Bool-cases (text_eq x y)) [
  | inl b ↦ (let l = rw b at h in cc)
  | inr b ↦ rw b (absent-append x g xs (rw b at h) k)
]

NoRepeat-append :
    (g : Text) (xs : List Text)
    → NoRepeat xs
    → exists (text_eq g) xs ≡ false
    → NoRepeat (xs ++ g ∷ [])
NoRepeat-append g [] n h = (refl, tt)
NoRepeat-append g (y ∷ xs) n h = elim (Bool-cases (text_eq g y)) [
  | inl b ↦ (let l = rw b at h in cc)
  | inr b ↦ (absent-append y g xs n.0 (text_eq_sym g y b), NoRepeat-append g xs n.1 (rw b at h))
]

single_of_valid :
    (g : Text) → valid_gender g ≡ true → text_eq g everyone ≡ false → is_single_gender g ≡ true
single_of_valid g v e = ground (arith, v, e)

abbrev pub GendersOf : Result DiscoveryError (List Text) → Type 0
GendersOf (ok gs) = IsGenders gs
GendersOf (err e) = Unit

genders_from-GendersOf :
    (vs result : List Text)
    → All (λ g. is_single_gender g ≡ true) result
    → NoRepeat result
    → GendersOf (genders_from result vs)
unfolding genders_from
genders_from-GendersOf [] result a n = inl (a, n)
genders_from-GendersOf (v ∷ vs) result a n =
    let g = to_upper (trim_space v) in
    elim (Bool-cases (valid_gender g)) [
      | inr b ↦ rw (genders_from, b) tt
      | inl b ↦ elim (Bool-cases (exists (text_eq g) result)) [
        | inl s ↦ rw (genders_from, b, s) tt
        | inr s ↦ elim (Bool-cases (text_eq g everyone)) [
          | inl e ↦ rw (genders_from, b, s, e) (inr refl)
          | inr e ↦
              rw (genders_from, b, s, e)
                (genders_from-GendersOf vs (result ++ g ∷ [])
                  (All-append (λ x. is_single_gender x ≡ true) result (g ∷ []) a
                    (single_of_valid g b e, tt))
                  (NoRepeat-append g result n s))
        ]
      ]
    ]

abbrev pub has_genders : List Text → Bool
has_genders [] = false
has_genders (g ∷ gs) = true

abbrev pub SomeGenders : Result DiscoveryError (List Text) → Type 0
SomeGenders (ok gs) = has_genders gs ≡ true
SomeGenders (err e) = Unit

has_genders-append : (gs : List Text) (g : Text) → has_genders (gs ++ g ∷ []) ≡ true
has_genders-append [] g = refl
has_genders-append (x ∷ gs) g = refl

one_gender :
    (v : Text) (vs result : List Text)
    → SomeGenders (genders_from (result ++ to_upper (trim_space v) ∷ []) vs)
    → SomeGenders (genders_from result (v ∷ vs))
unfolding genders_from
one_gender v vs result h =
    let g = to_upper (trim_space v) in
    elim (Bool-cases (valid_gender g)) [
      | inr b ↦ rw (genders_from, b) tt
      | inl b ↦ elim (Bool-cases (exists (text_eq g) result)) [
        | inl s ↦ rw (genders_from, b, s) tt
        | inr s ↦ elim (Bool-cases (text_eq g everyone)) [
          | inl e ↦ rw (genders_from, b, s, e) refl
          | inr e ↦ rw (genders_from, b, s, e) h
        ]
      ]
    ]

genders_from-SomeGenders :
    (vs result : List Text) → has_genders result ≡ true → SomeGenders (genders_from result vs)
unfolding genders_from
genders_from-SomeGenders [] result h = h
genders_from-SomeGenders (v ∷ vs) result h = one_gender v vs result (
    genders_from-SomeGenders vs (result ++ to_upper (trim_space v) ∷ [])
      (has_genders-append result (to_upper (trim_space v))))

pub normalize_genders-GendersOf : (vs : List Text) → GendersOf (normalize_genders vs)
unfolding normalize_genders
normalize_genders-GendersOf [] = tt
normalize_genders-GendersOf (v ∷ vs) = genders_from-GendersOf (v ∷ vs) [] tt tt

pub normalize_genders-SomeGenders : (vs : List Text) → SomeGenders (normalize_genders vs)
unfolding normalize_genders
normalize_genders-SomeGenders [] = tt
normalize_genders-SomeGenders (v ∷ vs) =
    one_gender v vs [] (genders_from-SomeGenders vs (to_upper (trim_space v) ∷ []) refl)
