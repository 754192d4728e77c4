-- ===== src/Prelude/Lists.antt =====
-- Lists as database tables: a query is a test on rows.
use Prim.Native.Nat.{ℕ, zero, suc, ◌+◌}
use mathlib.Core.Path.{◌≡◌, refl, ap, subst}
use mathlib.Core.Logic.{inl, inr}
use mathlib.Core.Bool.{Bool, true, false, ◌||◌}
use mathlib.Core.List.{List, [], ◌∷◌, ◌++◌}
use mathlib.Core.Option
use mathlib.Core.Option.{Option, none, some}
use native.Mathlib.Omega.{arith}
use dating_app_backend.Prelude.Tests.{if◌then◌else◌, Bool-cases}

module _ {ℓ} {A : Type ℓ} where
  abbrev pub length : List A → ℕ
  length [] = 0
  length (x ∷ xs) = suc (length xs)

  abbrev pub take : ℕ → List A → List A
  take zero xs = []
  take (suc n) [] = []
  take (suc n) (x ∷ xs) = x ∷ take n xs

  -- `WHERE p`
  abbrev pub select : (A → Bool) → List A → List A
  select p [] = []
  select p (x ∷ xs) = let rest = select p xs in if p x then x ∷ rest else rest

  -- `WHERE p LIMIT 1`, on rows that stand in the order of the query.
  abbrev pub find_first : (A → Bool) → List A → Option A
  find_first p [] = none
  find_first p (x ∷ xs) = if p x then some x else find_first p xs

  -- `EXISTS (... WHERE p)`
  abbrev pub exists : (A → Bool) → List A → Bool
  exists p [] = false
  exists p (x ∷ xs) = p x || exists p xs

  -- What `UPDATE ... SET f WHERE p` does to a row.
  abbrev pub patch : (A → Bool) → (A → A) → A → A
  patch p f x = if p x then f x else x

  -- `UPDATE ... SET f WHERE p`
  abbrev pub update_where : (A → Bool) → (A → A) → List A → List A
  update_where p f [] = []
  update_where p f (x ∷ xs) = patch p f x ∷ update_where p f xs

  -- `DELETE ... WHERE p`
  abbrev pub delete_where : (A → Bool) → List A → List A
  delete_where p [] = []
  delete_where p (x ∷ xs) = let rest = delete_where p xs in if p x then rest else x ∷ rest

  abbrev pub earlier : (A → A → Bool) → Option A → A → A
  earlier before none x = x
  earlier before (some y) x = if before y x then y else x

  -- `ORDER BY ... LIMIT 1`: the row that comes before all others.
  abbrev pub first_by : (A → A → Bool) → List A → Option A
  first_by before [] = none
  first_by before (x ∷ xs) = some (earlier before (first_by before xs) x)

  -- Every row satisfies `P`.
  abbrev pub All {κ} : (A → Type κ) → List A → Type κ
  All P [] = Unit
  All P (x ∷ xs) = P x × All P xs

  pub length-append : (xs ys : List A) → length (xs ++ ys) ≡ length xs + length ys
  length-append [] ys = omega arith
  length-append (x ∷ xs) ys = omega (arith, length-append xs ys)

  pub select_sound : (p : A → Bool) (xs : List A) → All (λ x. p x ≡ true) (select p xs)
  select_sound p [] = tt
  select_sound p (x ∷ xs) = ground (arith, select_sound p xs)

  pub length-update_where :
      (p : A → Bool) (f : A → A) (xs : List A) → length (update_where p f xs) ≡ length xs
  length-update_where p f [] = refl
  length-update_where p f (x ∷ xs) = ap suc (length-update_where p f xs)

  pub find_first_sound :
      (p : A → Bool) (xs : List A) (a : A) → find_first p xs ≡ some a → p a ≡ true
  find_first_sound p [] a h = cc
  find_first_sound p (x ∷ xs) a h = ground (arith, find_first_sound p xs a)

some_eq {ℓ} : {A : Type ℓ} (x a : A) → some x ≡ some a → x ≡ a
some_eq x a h = cc

module _ {ℓ κ} {A : Type ℓ} (P : A → Type κ) where
  pub All-append : (xs ys : List A) → All P xs → All P ys → All P (xs ++ ys)
  All-append [] ys h k = k
  All-append (x ∷ xs) ys h k = (h.0, All-append xs ys h.1 k)

  pub All-update_where :
      (p : A → Bool) (f : A → A) (xs : List A)
      → ((x : A) → p x ≡ true → P x → P (f x))
      → All P xs
      → All P (update_where p f xs)
  All-update_where p f [] k h = h
  All-update_where p f (x ∷ xs) k h = (go (p x) refl, All-update_where p f xs k h.1)
    where
      go : (b : Bool) → p x ≡ b → P (if b then f x else x)
      go true e = k x e h.0
      go false e = h.0

  -- The same with a second fact about each row.
  pub All-update_where_with {μ} :
      {Q : A → Type μ} (p : A → Bool) (f : A → A) (xs : List A)
      → ((x : A) → p x ≡ true → Q x → P x → P (f x))
      → All Q xs
      → All P xs
      → All P (update_where p f xs)
  All-update_where_with p f [] k q h = h
  All-update_where_with p f (x ∷ xs) k q h = (go (p x) refl, All-update_where_with p f xs k q.1 h.1)
    where
      go : (b : Bool) → p x ≡ b → P (if b then f x else x)
      go true e = k x e q.0 h.0
      go false e = h.0

  pub All-delete_where : (p : A → Bool) (xs : List A) → All P xs → All P (delete_where p xs)
  All-delete_where p [] h = h
  All-delete_where p (x ∷ xs) h = ground (arith, All-delete_where p xs h.1)

  pub All-find_first :
      (p : A → Bool) (xs : List A) (a : A) → All P xs → find_first p xs ≡ some a → P a
  All-find_first p [] a h e = cc
  All-find_first p (x ∷ xs) a h e = elim (Bool-cases (p x)) [
    | inl q ↦ subst P (some_eq x a (rw q at e)) h.0
    | inr q ↦ All-find_first p xs a h.1 (rw q at e)
  ]

  pub All-select : (p : A → Bool) (xs : List A) → All P xs → All P (select p xs)
  All-select p [] h = h
  All-select p (x ∷ xs) h = ground (arith, All-select p xs h.1)

  pub earlier_pick :
      (before : A → A → Bool) (o : Option A) (x : A)
      → P x
      → ((y : A) → o ≡ some y → P y)
      → P (earlier before o x)
  earlier_pick before none x h k = h
  earlier_pick before (some y) x h k = elim (Bool-cases (before y x)) [
    | inl b ↦ rw b (k y refl)
    | inr b ↦ rw b h
  ]

  pub All-first_by :
      (before : A → A → Bool) (xs : List A) (a : A) → All P xs → first_by before xs ≡ some a → P a
  All-first_by before [] a h e = cc
  All-first_by before (x ∷ xs) a h e =
      subst P (some_eq (earlier before (first_by before xs) x) a e)
        (earlier_pick before (first_by before xs) x h.0 (λ y. All-first_by before xs y h.1))

module _ {ℓ} {A : Type ℓ} (p : A → Bool) (f : A → A) where
  -- An update that the test of a query does not see commutes with the query.
  pub select-update_where :
      (q : A → Bool) (xs : List A)
      → ((x : A) → q (patch p f x) ≡ q x)
      → select q (update_where p f xs) ≡ update_where p f (select q xs)
  select-update_where q [] h = refl
  select-update_where q (x ∷ xs) h = ground (arith, h x, select-update_where q xs h)

  earlier-patch :
      (before : A → A → Bool) (o : Option A) (x : A)
      → ((x y : A) → before (patch p f x) (patch p f y) ≡ before x y)
      → earlier before (Option.map (patch p f) o) (patch p f x) ≡ patch p f (earlier before o x)
  earlier-patch before none x h = refl
  earlier-patch before (some y) x h = elim (Bool-cases (before y x)) [
    | inl b ↦ rw (h y x, b)
    | inr b ↦ rw (h y x, b)
  ]

  pub first_by-update_where :
      (before : A → A → Bool) (xs : List A)
      → ((x y : A) → before (patch p f x) (patch p f y) ≡ before x y)
      → first_by before (update_where p f xs) ≡ Option.map (patch p f) (first_by before xs)
  first_by-update_where before [] h = refl
  first_by-update_where before (x ∷ xs) h =
      rw (first_by-update_where before xs h)
        (ap some (earlier-patch before (first_by before xs) x h))

  -- The row that a query finds, after an update that the query's test does not see.
  pub find_first-update_where :
      (q : A → Bool) (xs : List A)
      → ((x : A) → q (patch p f x) ≡ q x)
      → find_first q (update_where p f xs) ≡ Option.map (patch p f) (find_first q xs)
  find_first-update_where q [] h = refl
  find_first-update_where q (x ∷ xs) h = elim (Bool-cases (q x)) [
    | inl b ↦ rw (h x, b) refl
    | inr b ↦ rw (h x, b) (find_first-update_where q xs h)
  ]
