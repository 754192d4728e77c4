-- ===== src/Match/Limit.antt =====
-- internal/match/cursor.go: `normalizeListLimit`. An `int` is its 64 bits, read as a natural number;
-- from 2 ^ 63 on it stands for a negative one.
use dating_app_backend.Prelude.{
  ℕ, ◌+◌, ◌-◌, ◌*◌, ◌%◌, ◌^◌, ◌≤◌, ◌≡◌, inl, inr, ◌||◌, Option, none, some, [], ◌∷◌, Text,
  if◌then◌else◌, ltb, leb, ◌==◌, Result, ok, err, subst, arith, Bool-cases,
}
use dating_app_backend.Match.Unmatch.{MatchError, validation}

-- The loop over the digits; `none` on any other character.
unfoldable pub digits_value : ℕ → Text → Option ℕ
digits_value value [] = some value
digits_value value (ch ∷ raw) =
    let rest = digits_value ((value * 10 + (ch - b'0')) % 2 ^ 64) raw in
    if ltb ch b'0' || ltb b'9' ch then none else rest

abbrev pub checked_limit : Option ℕ → Result MatchError ℕ
checked_limit none = err validation
checked_limit (some value) =
    if value == 0 || leb (2 ^ 63) value
    then err validation
    else if ltb 50 value
    then ok 50
    else ok value

unfoldable pub normalize_list_limit : Text → Result MatchError ℕ
normalize_list_limit [] = ok 20
normalize_list_limit (ch ∷ raw) = checked_limit (digits_value 0 (ch ∷ raw))

-- The value of a result, where it is one.
abbrev InRange : Result MatchError ℕ → Type 0
InRange (ok n) = (1 ≤ n) × (n ≤ 50)
InRange (err e) = Unit

checked_limit-InRange : (o : Option ℕ) → InRange (checked_limit o)
checked_limit-InRange none = tt
checked_limit-InRange (some v) = elim (Bool-cases (v == 0 || leb (2 ^ 63) v)) [
  | inl b ↦ rw b tt
  | inr b ↦ elim (Bool-cases (ltb 50 v)) [
    | inl c ↦ rw (b, c) (omega arith, omega arith)
    | inr c ↦ rw (b, c) (ground arith, ground arith)
  ]
]

-- An accepted limit lies between 1 and 50, whatever the text.
pub normalize_list_limit-bounds :
    (raw : Text) (n : ℕ) → normalize_list_limit raw ≡ ok n → (1 ≤ n) × (n ≤ 50)
unfolding normalize_list_limit
normalize_list_limit-bounds [] n h = subst InRange h (omega arith, omega arith)
normalize_list_limit-bounds (ch ∷ raw) n h =
    subst InRange h (checked_limit-InRange (digits_value 0 (ch ∷ raw)))
