-- ===== src/Prelude/Order.antt =====
-- `ORDER BY stamp DESC, key DESC`, with the comparison of a keyset cursor.
use Prim.Native.Nat.{ℕ}
use mathlib.Core.Path.{◌≡◌, refl}
use mathlib.Core.Logic.{inl, inr}
use mathlib.Core.Bool.{Bool, true, false, ◌||◌, ◌&&◌}
use mathlib.Core.List.{List, [], ◌∷◌, ◌++◌}
use native.Mathlib.Omega.{arith}
use dating_app_backend.Prelude.Tests.{ltb, ◌==◌, if◌then◌else◌, Bool-cases}
use dating_app_backend.Prelude.Lists.{All, length, select}
use dating_app_backend.Prelude.Keys.{All-map, UniqueKeys, IsFresh}

module _ {ℓ} {A : Type ℓ} (stamp key : A → ℕ) where
  -- The row stands behind a cursor: `stamp < t OR (stamp = t AND key < k)`.
  abbrev pub is_beyond : ℕ → ℕ → A → Bool
  is_beyond t k x = ltb (stamp x) t || stamp x == t && ltb (key x) k

  abbrev pub is_newer : A → A → Bool
  is_newer x y = is_beyond (stamp x) (key x) y

  abbrev pub insert_newest : A → List A → List A
  insert_newest x [] = x ∷ []
  insert_newest x (y ∷ ys) =
      let rest = insert_newest x ys in if is_newer x y then x ∷ y ∷ ys else y ∷ rest

  abbrev pub newest_first : List A → List A
  newest_first [] = []
  newest_first (x ∷ xs) = insert_newest x (newest_first xs)

  abbrev pub IsNewestFirst : List A → Type 0
  IsNewestFirst [] = Unit
  IsNewestFirst (x ∷ xs) = All (λ y. is_newer x y ≡ true) xs × IsNewestFirst xs

  is_newer_trans : (x y z : A) → is_newer x y ≡ true → is_newer y z ≡ true → is_newer x z ≡ true
  is_newer_trans x y z h k = ground arith

  is_newer_other : (x y : A) → (key y == key x) ≡ false → is_newer x y ≡ false → is_newer y x ≡ true
  is_newer_other x y h k = ground arith

  pub is_newer_asym : (x y : A) → is_newer x y ≡ true → is_newer y x ≡ false
  is_newer_asym x y h = ground arith

  pub is_newer_irrefl : (x : A) → is_newer x x ≡ false
  is_newer_irrefl x = ground arith

  pub All-insert_newest {κ} :
      (P : A → Type κ) (x : A) (ys : List A) → P x → All P ys → All P (insert_newest x ys)
  All-insert_newest P x [] p h = (p, tt)
  All-insert_newest P x (y ∷ ys) p h = elim (Bool-cases (is_newer x y)) [
    | inl b ↦ rw b (p, h)
    | inr b ↦ rw b (h.0, All-insert_newest P x ys p h.1)
  ]

  pub All-newest_first {κ} : (P : A → Type κ) (xs : List A) → All P xs → All P (newest_first xs)
  All-newest_first P [] h = tt
  All-newest_first P (x ∷ xs) h =
      All-insert_newest P x (newest_first xs) h.0 (All-newest_first P xs h.1)

  insert_newest-IsNewestFirst :
      (x : A) (ys : List A)
      → IsFresh key (key x) ys
      → IsNewestFirst ys
      → IsNewestFirst (insert_newest x ys)
  insert_newest-IsNewestFirst x [] f h = (tt, tt)
  insert_newest-IsNewestFirst x (y ∷ ys) f h = elim (Bool-cases (is_newer x y)) [
    | inl b ↦ rw b ((b, All-map ys (λ z k. is_newer_trans x y z b k) h.0), h)
    | inr b ↦ rw b (
      All-insert_newest (λ z. is_newer y z ≡ true) x ys (is_newer_other x y f.0 b) h.0,
      insert_newest-IsNewestFirst x ys f.1 h.1,
    )
  ]

  -- Rows with unique keys are put in a strict order.
  pub newest_first-IsNewestFirst :
      (xs : List A) → UniqueKeys key xs → IsNewestFirst (newest_first xs)
  newest_first-IsNewestFirst [] u = tt
  newest_first-IsNewestFirst (x ∷ xs) u =
      insert_newest-IsNewestFirst x (newest_first xs)
        (All-newest_first (λ y. (key y == key x) ≡ false) xs u.0)
        (newest_first-IsNewestFirst xs u.1)

  count-insert_newest :
      (p : A → Bool) (x : A) (ys : List A)
      → length (select p (insert_newest x ys)) ≡ length (select p (x ∷ ys))
  count-insert_newest p x [] = refl
  count-insert_newest p x (y ∷ ys) = elim (Bool-cases (is_newer x y)) [
    | inl b ↦ rw b refl
    | inr b ↦ rw b (ground (arith, count-insert_newest p x ys))
  ]

  -- Every test finds as many rows after sorting as before.
  pub count-newest_first :
      (p : A → Bool) (xs : List A) → length (select p (newest_first xs)) ≡ length (select p xs)
  count-newest_first p [] = refl
  count-newest_first p (x ∷ xs) =
      ground (arith, count-insert_newest p x (newest_first xs), count-newest_first p xs)

  select-All :
      (c : A) (r : List A)
      → All (λ y. is_newer c y ≡ true) r
      → select (is_beyond (stamp c) (key c)) r ≡ r
  select-All c [] h = refl
  select-All c (x ∷ r) h = rw (h.0, select-All c r h.1) refl

  earlier_part :
      (y c : A) (p r : List A) → All (λ z. is_newer y z ≡ true) (p ++ c ∷ r) → is_newer y c ≡ true
  earlier_part y c [] r h = h.0
  earlier_part y c (x ∷ p) r h = earlier_part y c p r h.1

  -- Behind the cursor of a row stands what follows it.
  pub select_beyond :
      (p : List A) (c : A) (r : List A)
      → IsNewestFirst (p ++ c ∷ r)
      → select (is_beyond (stamp c) (key c)) (p ++ c ∷ r) ≡ r
  select_beyond [] c r h = rw (is_newer_irrefl c) (select-All c r h.0)
  select_beyond (y ∷ p) c r h =
      let b = is_newer_asym y c (earlier_part y c p r h.0) in rw b (select_beyond p c r h.1)
