-- ===== src/Prelude/Paging.antt =====
-- Pages of a sorted list: a query takes one row more than the page shows, and the cursor is the last row shown.
use Prim.Native.Nat.{ℕ, zero, suc, ◌<◌, ◌≤◌}
use mathlib.Core.Path.{◌≡◌, refl, ap, ◌∙◌}
use mathlib.Core.Logic.{inl, inr, ◌⊎◌}
use mathlib.Core.Bool.{true, false}
use mathlib.Core.Option.{Option, none, some}
use mathlib.Core.List.{List, [], ◌∷◌, ◌++◌}
use native.Mathlib.Omega.{arith}
use dating_app_backend.Prelude.Tests.{ltb, if◌then◌else◌, Bool-cases}
use dating_app_backend.Prelude.Lists.{length, take}

module _ {ℓ} {A : Type ℓ} where
  abbrev pub last_of : List A → Option A
  last_of [] = none
  last_of (x ∷ []) = some x
  last_of (x ∷ y ∷ ys) = last_of (y ∷ ys)

  -- `visibleRows`: the rows up to the limit.
  abbrev pub visible_rows : ℕ → List A → List A
  visible_rows limit rows = if ltb limit (length rows) then take limit rows else rows

  -- The row of the next cursor, where there is one.
  abbrev pub cursor_row : ℕ → List A → Option A
  cursor_row limit rows = if ltb limit (length rows) then last_of (take limit rows) else none

  last_of-append : (q : List A) (c : A) → last_of (q ++ c ∷ []) ≡ some c
  last_of-append [] c = refl
  last_of-append (x ∷ []) c = refl
  last_of-append (x ∷ y ∷ q) c = last_of-append (y ∷ q) c

  -- Where the rows `r` of a query with a limit are cut.
  pub record Cut (n : ℕ) (r : List A) : Type ℓ where
    pub front : List A
    pub last : A
    pub rest : List A
    pub joined : r ≡ front ++ last ∷ rest
    pub shown : visible_rows (suc n) (take (suc (suc n)) r) ≡ front ++ last ∷ []
    pub cursor : cursor_row (suc n) (take (suc (suc n)) r) ≡ some last
    pub shorter : length rest < length r

  record Split (n : ℕ) (r : List A) : Type ℓ where
    front : List A
    last : A
    rest : List A
    joined : r ≡ front ++ last ∷ rest
    taken : take (suc n) r ≡ front ++ last ∷ []
    shorter : length rest < length r

  split : (n : ℕ) (r : List A) → n < length r → Split n r
  split n [] h = absurd (omega arith)
  split zero (x ∷ r) h = record {
    front = [];
    last = x;
    rest = r;
    joined = refl;
    taken = refl;
    shorter = omega arith;
  }
  split (suc n) (x ∷ r) h =
      let s = split n r (omega arith) in
      record {
        front = x ∷ s.front;
        last = s.last;
        rest = s.rest;
        joined = ap (λ t. x ∷ t) s.joined;
        taken = ap (λ t. x ∷ t) s.taken;
        shorter = omega (arith, s.shorter);
      }

  take-take : (n : ℕ) (r : List A) → take n (take (suc n) r) ≡ take n r
  take-take zero r = refl
  take-take (suc n) [] = refl
  take-take (suc n) (x ∷ r) = ap (λ t. x ∷ t) (take-take n r)

  take_long : (n : ℕ) (r : List A) → n < length r → ltb n (length (take (suc n) r)) ≡ true
  take_long n [] h = absurd (omega arith)
  take_long zero (x ∷ r) h = ground arith
  take_long (suc n) (x ∷ r) h = ground (arith, take_long n r (omega arith))

  take_short : (n : ℕ) (r : List A) → length r ≤ n → take (suc n) r ≡ r
  take_short n [] h = refl
  take_short zero (x ∷ r) h = absurd (omega arith)
  take_short (suc n) (x ∷ r) h = ap (λ t. x ∷ t) (take_short n r (omega arith))

  long-Cut : (n : ℕ) (r : List A) → suc n < length r → Cut n r
  long-Cut n r h =
      let s = split n r (omega arith) in
      let long = take_long (suc n) r h in
      let front = take-take (suc n) r ∙ s.taken in
      record {
        front = s.front;
        last = s.last;
        rest = s.rest;
        joined = s.joined;
        shown = rw long front;
        cursor = rw (long, front) (last_of-append s.front s.last);
        shorter = s.shorter;
      }

  pub record IsLastPage (n : ℕ) (r : List A) : Type ℓ where
    pub shown : visible_rows (suc n) (take (suc (suc n)) r) ≡ r
    pub cursor : cursor_row (suc n) (take (suc (suc n)) r) ≡ none

  short_page : (n : ℕ) (r : List A) → ltb (suc n) (length r) ≡ false → IsLastPage n r
  short_page n r h =
      let e = take_short (suc n) r (ground arith) in
      record { shown = rw (e, h) refl; cursor = rw (e, h) refl }

  -- A page is cut, or it is the last.
  pub page_cases : (n : ℕ) (r : List A) → Cut n r ⊎ IsLastPage n r
  page_cases n r = elim (Bool-cases (ltb (suc n) (length r))) [
    | inl b ↦ inl (long-Cut n r (ground arith))
    | inr b ↦ inr (short_page n r b)
  ]
