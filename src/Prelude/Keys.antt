-- ===== src/Prelude/Keys.antt =====
-- Tables with a primary key.
use Prim.Native.Nat.{ℕ}
use mathlib.Core.Path.{◌≡◌, refl}
use mathlib.Core.Bool.{Bool, true, false}
use mathlib.Core.List.{List, [], ◌∷◌}
use native.Mathlib.Omega.{arith}
use dating_app_backend.Prelude.Tests.{◌==◌, ==_refl, Bool-cases}
use mathlib.Core.Option.{some}
use mathlib.Core.Logic.{inl, inr}
use dating_app_backend.Prelude.Lists.{All, update_where, patch, find_first, All-find_first}

module _ {ℓ} {A : Type ℓ} where
  pub All-map {κ μ} :
      {P : A → Type κ} {Q : A → Type μ} (xs : List A) → ((x : A) → P x → Q x) → All P xs → All Q xs
  All-map [] k h = tt
  All-map (x ∷ xs) k h = (k x h.0, All-map xs k h.1)

  pub All-map₂ {κ μ ν} :
      {P : A → Type κ} {Q : A → Type μ} {R : A → Type ν} (xs : List A)
      → ((x : A) → P x → Q x → R x)
      → All P xs
      → All Q xs
      → All R xs
  All-map₂ [] k h i = tt
  All-map₂ (x ∷ xs) k h i = (k x h.0 i.0, All-map₂ xs k h.1 i.1)

==_sym : (a b : ℕ) → (a == b) ≡ false → (b == a) ≡ false
==_sym a b h = ground arith

module _ {ℓ} {A : Type ℓ} (key : A → ℕ) where
  -- No row of `xs` has key `k`.
  abbrev pub IsFresh : ℕ → List A → Type 0
  IsFresh k xs = All (λ r. (key r == k) ≡ false) xs

  abbrev pub UniqueKeys : List A → Type 0
  UniqueKeys [] = Unit
  UniqueKeys (x ∷ xs) = IsFresh (key x) xs × UniqueKeys xs

  -- `c` is the row of its key.
  abbrev pub IsRowOf : List A → A → Type ℓ
  IsRowOf xs c = All (λ r. (key r == key c) ≡ true → r ≡ c) xs

  pub UniqueKeys-IsRowOf : (xs : List A) → UniqueKeys xs → All (IsRowOf xs) xs
  UniqueKeys-IsRowOf [] u = tt
  UniqueKeys-IsRowOf (x ∷ xs) u = (
    (λ _. refl, All-map xs (λ r f e. cc) u.0),
    All-map₂ xs (λ r f w. (λ e. ground (arith, ==_sym (key r) (key x) f), w)) u.0
        (UniqueKeys-IsRowOf xs u.1),
  )

  IsFresh-update_where :
      (p : A → Bool) (f : A → A) (k : ℕ) (xs : List A)
      → ((x : A) → key (f x) ≡ key x)
      → IsFresh k xs
      → IsFresh k (update_where p f xs)
  IsFresh-update_where p f k [] e h = tt
  IsFresh-update_where p f k (x ∷ xs) e h =
      (ground (arith, e x), IsFresh-update_where p f k xs e h.1)

  pub key-patch :
      (p : A → Bool) (f : A → A) (x : A) → ((x : A) → key (f x) ≡ key x) → key (patch p f x) ≡ key x
  key-patch p f x e = ground (arith, e x)

  pub UniqueKeys-update_where :
      (p : A → Bool) (f : A → A) (xs : List A)
      → ((x : A) → key (f x) ≡ key x)
      → UniqueKeys xs
      → UniqueKeys (update_where p f xs)
  UniqueKeys-update_where p f [] e u = tt
  UniqueKeys-update_where p f (x ∷ xs) e u = (
    rw (key-patch p f x e) (IsFresh-update_where p f (key x) xs e u.0),
    UniqueKeys-update_where p f xs e u.1,
  )

  -- A row that a query finds is what its key finds.
  pub find_first_by_key :
      (p : A → Bool) (xs : List A) (c : A)
      → UniqueKeys xs
      → find_first p xs ≡ some c
      → find_first (λ x. key x == key c) xs ≡ some c
  find_first_by_key p [] c u h = cc
  find_first_by_key p (x ∷ xs) c u h = elim (Bool-cases (p x)) [
    | inl b ↦
        let e : some x ≡ some c = rw b at h in let k : x ≡ c = cc in rw (k, ==_refl (key c)) refl
    | inr b ↦
        let rest : find_first p xs ≡ some c = rw b at h in
        let other = All-find_first (λ (r : A). (key r == key x) ≡ false) p xs c u.0 rest in
        rw (==_sym (key c) (key x) other) (find_first_by_key p xs c u.1 rest)
  ]
