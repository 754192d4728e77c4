-- ===== src/Prelude/Handlers.antt =====
-- Handlers as state transformers. A handler takes the store, and ends with a value or an error beside
-- the store that it leaves. A database statement may fail; a transaction then restores the store.
use mathlib.Core.Bool.{Bool, true, false}
use mathlib.Core.Option.{Option, none, some}
use mathlib.Core.Logic.{◌⊎◌, inl, inr}
use mathlib.Core.Path.{◌≡◌, refl}

pub data Outcome {ℓ κ μ} (E : Type ℓ) (S : Type κ) (A : Type μ) : Type (ℓ ⊔ κ ⊔ μ) where
  done : A → S → Outcome E S A
  failed : E → S → Outcome E S A

-- A Go function that returns a value or an error, and touches no store.
pub data Result {ℓ κ} (E : Type ℓ) (A : Type κ) : Type (ℓ ⊔ κ) where
  ok : A → Result E A
  err : E → Result E A

pub Result-cases {ℓ κ} :
    {E : Type ℓ} {A : Type κ} (r : Result E A) → ((a : A) × (r ≡ ok a)) ⊎ ((e : E) × (r ≡ err e))
Result-cases (ok a) = inl (a, refl)
Result-cases (err e) = inr (e, refl)

abbrev pub Handler {ℓ κ μ} : Type ℓ → Type κ → Type μ → Type (ℓ ⊔ κ ⊔ μ)
Handler E S A = S → Outcome E S A

abbrev pub store_of {ℓ κ μ} : {E : Type ℓ} {S : Type κ} {A : Type μ} → Outcome E S A → S
store_of (done a s) = s
store_of (failed e s) = s

infixl 5 ◌>>=◌ ◌>>◌
abbrev pub ◌>>=◌ {ℓ κ μ ν} :
    {E : Type ℓ} {S : Type κ} {A : Type μ} {B : Type ν}
    → Handler E S A
    → (A → Handler E S B)
    → Handler E S B
◌>>=◌ m f s = elim (m s) [ done a s' ↦ f a s' | failed e s' ↦ failed e s' ]

abbrev pub ◌>>◌ {ℓ κ ν} :
    {E : Type ℓ} {S : Type κ} {B : Type ν} → Handler E S (Unit {0}) → Handler E S B → Handler E S B
m >> k = m >>= λ _. k

module _ {ℓ κ μ} {E : Type ℓ} {S : Type κ} {A : Type μ} where
  abbrev pub pure : A → Handler E S A
  pure a s = done a s

  abbrev pub throw : E → Handler E S A
  throw e s = failed e s

  -- `if err != nil { return err }` behind a lookup that may find nothing.
  abbrev pub or_throw : Option A → E → Handler E S A
  or_throw none e s = failed e s
  or_throw (some a) e s = done a s

  abbrev pub lift : Result E A → Handler E S A
  lift (ok a) s = done a s
  lift (err e) s = failed e s

  -- A statement that reads; the first argument says whether the database fails it, with error `e`.
  abbrev pub query : Bool → E → (S → A) → Handler E S A
  query true e f s = failed e s
  query false e f s = done (f s) s

  -- `db.Transaction(...)`: an error of the body, or of the commit, restores the store.
  abbrev pub settle : Bool → E → S → Outcome E S A → Outcome E S A
  settle commit_fails e s (failed e' s') = failed e' s
  settle true e s (done a s') = failed e s
  settle false e s (done a s') = done a s'

  abbrev pub transaction : Bool → E → Handler E S A → Handler E S A
  transaction commit_fails e m s = settle commit_fails e s (m s)

module _ {ℓ κ} {E : Type ℓ} {S : Type κ} where
  -- A statement that writes.
  abbrev pub exec : Bool → E → (S → S) → Handler E S (Unit {0})
  exec true e f s = failed e s
  exec false e f s = done tt (f s)

  -- A statement whose error the code drops.
  abbrev pub exec_ignored : Bool → (S → S) → Handler E S (Unit {0})
  exec_ignored true f s = done tt s
  exec_ignored false f s = done tt (f s)

  -- `if !ok { return e }`
  abbrev pub require : Bool → E → Handler E S (Unit {0})
  require true e s = done tt s
  require false e s = failed e s

module _ {ℓ κ μ ν} {E : Type ℓ} {S : Type κ} {A : Type μ} (P : S → Type ν) where
  -- The store that an outcome leaves satisfies `P`.
  abbrev pub Leaves : Outcome E S A → Type ν
  Leaves o = P (store_of o)

  pub Leaves-transaction :
      (commit_fails : Bool) (e : E) (s : S) (o : Outcome E S A)
      → P s
      → Leaves o
      → Leaves (settle commit_fails e s o)
  Leaves-transaction c e s (failed e' s') p q = p
  Leaves-transaction true e s (done a s') p q = p
  Leaves-transaction false e s (done a s') p q = q

module _ {ℓ κ μ ν ξ} {E : Type ℓ} {S : Type κ} {A : Type μ} {B : Type ξ} (P : S → Type ν) where
  pub Leaves-bind :
      (m : Handler E S A) (f : A → Handler E S B) (s : S)
      → Leaves P (m s)
      → ((a : A) (s' : S) → P s' → Leaves P (f a s'))
      → Leaves P ((m >>= f) s)
  Leaves-bind m f s p k = go (m s) p
    where
      go :
          (o : Outcome E S A)
          → Leaves P o
          → Leaves P (elim o [ done a s' ↦ f a s' | failed e s' ↦ failed e s' ])
      go (done a s') q = k a s' q
      go (failed e s') q = q

module _ {ℓ κ μ} {E : Type ℓ} {S : Type κ} {A : Type μ} where
  -- A transaction that ends with an error has changed nothing.
  pub transaction_error :
      (commit_fails : Bool) (e : E) (m : Handler E S A) (s : S) {e' : E} {s' : S}
      → transaction commit_fails e m s ≡ failed e' s'
      → s' ≡ s
  transaction_error c e m s h = go c (m s) h
    where
      go : (c : Bool) (o : Outcome E S A) {e' : E} {s' : S} → settle c e s o ≡ failed e' s' → s' ≡ s
      go c (failed e' s') h = cc
      go true (done a s') h = cc
      go false (done a s') h = cc

module _ {ℓ κ μ ν} {E : Type ℓ} {S : Type κ} {A : Type μ} {B : Type ν} where
  -- A chain that ends well: its first step did, and the rest from there.
  pub bind-done :
      (m : Handler E S A) (f : A → Handler E S B) (s : S) {b : B} {s' : S}
      → (m >>= f) s ≡ done b s'
      → (a : A) × (r : S) × (m s ≡ done a r) × (f a r ≡ done b s')
  bind-done m f s {b} {s'} h = go (m s) refl h
    where
      go :
          (o : Outcome E S A)
          → m s ≡ o
          → ◌≡◌ {A = Outcome E S B}
              (elim o [ done a r ↦ f a r | failed e r ↦ failed e r ])
              (done b s')
          → (a : A) × (r : S) × (m s ≡ done a r) × (f a r ≡ done b s')
      go (done a r) e h = (a, r, e, h)
      go (failed e' r) e h = cc

module _ {ℓ κ μ} {E : Type ℓ} {S : Type κ} {A : Type μ} where
  pub lift-done :
      (r : Result E A) (s : S) {a : A} {s' : S}
      → ◌≡◌ {A = Outcome E S A} (lift r s) (done a s')
      → (r ≡ ok a) × (s' ≡ s)
  lift-done (ok a) s h = (cc, cc)
  lift-done (err e) s h = cc

module _ {ℓ κ ν} {E : Type ℓ} {S : Type κ} (P : S → Type ν) where
  pub Leaves-exec :
      (fails : Bool) (e : E) (f : S → S) (s : S) → P s → P (f s) → Leaves P (exec fails e f s)
  Leaves-exec true e f s p q = p
  Leaves-exec false e f s p q = q

  pub Leaves-query {μ} :
      {A : Type μ} (fails : Bool) (e : E) (f : S → A) (s : S) → P s → Leaves P (query fails e f s)
  Leaves-query true e f s p = p
  Leaves-query false e f s p = p

module _ {ℓ κ μ ν} {E : Type ℓ} {S : Type κ} {A : Type μ} (P : S → Type ν) where
  -- What a transaction leaves: what it found, or what its body left at a good end.
  pub transaction-Leaves :
      (commit_fails : Bool) (e : E) (m : Handler E S A) (s : S)
      → P s
      → ((a : A) (s' : S) → m s ≡ done a s' → P s')
      → Leaves P (transaction commit_fails e m s)
  transaction-Leaves c e m s p k = go c (m s) refl
    where
      go : (c : Bool) (o : Outcome E S A) → m s ≡ o → Leaves P (settle c e s o)
      go c (failed e' s') h = p
      go true (done a s') h = p
      go false (done a s') h = k a s' h

module _ {ℓ κ μ} {E : Type ℓ} {S : Type κ} {A : Type μ} where
  pub transaction-done :
      (commit_fails : Bool) (e : E) (m : Handler E S A) (s : S) {a : A} {s' : S}
      → transaction commit_fails e m s ≡ done a s'
      → m s ≡ done a s'
  transaction-done c e m s h = go c (m s) h
    where
      go :
          (c : Bool) (o : Outcome E S A) {a : A} {s' : S}
          → settle c e s o ≡ done a s'
          → o ≡ done a s'
      go c (failed e' s') h = cc
      go true (done a s') h = cc
      go false (done a s') h = h

module _ {ℓ κ} {E : Type ℓ} {S : Type κ} where
  pub exec-done :
      (fails : Bool) (e : E) (f : S → S) (s : S) {s' : S}
      → ◌≡◌ {A = Outcome E S (Unit {0})} (exec fails e f s) (done tt s')
      → s' ≡ f s
  exec-done true e f s h = cc
  exec-done false e f s h = cc

  pub query-done {μ} :
      {A : Type μ} (fails : Bool) (e : E) (f : S → A) (s : S) {a : A} {s' : S}
      → ◌≡◌ {A = Outcome E S A} (query fails e f s) (done a s')
      → (a ≡ f s) × (s' ≡ s)
  query-done true e f s h = cc
  query-done false e f s h = (cc, cc)

  -- `m; return a, nil`
  pub then_pure-done {μ} :
      {A : Type μ} (m : Handler E S (Unit {0})) (a : A) (s : S) {a' : A} {s' : S}
      → ◌≡◌ {A = Outcome E S A} ((m >> pure a) s) (done a' s')
      → (a' ≡ a) × (m s ≡ done tt s')
  then_pure-done {A = A} m a s {a'} {s'} h = go (m s) refl h
    where
      go :
          (o : Outcome E S (Unit {0}))
          → m s ≡ o
          → ◌≡◌ {A = Outcome E S A}
              (elim o [ done _ r ↦ done a r | failed e r ↦ failed e r ])
              (done a' s')
          → (a' ≡ a) × (m s ≡ done tt s')
      go (done tt r) e h = (cc, cc)
      go (failed e' r) e h = cc

module _ {ℓ κ μ} {E : Type ℓ} {S : Type κ} {A : Type μ} where
  -- A transaction fails and restores the store, or ends as its body does.
  pub transaction_ends :
      (commit_fails : Bool) (e : E) (m : Handler E S A) (s : S)
      → ((e' : E) × (transaction commit_fails e m s ≡ failed e' s))
        ⊎ ((a : A) × (s' : S) × (transaction commit_fails e m s ≡ done a s') × (m s ≡ done a s'))
  transaction_ends c e m s = go c (m s) refl
    where
      go :
          (c : Bool) (o : Outcome E S A)
          → m s ≡ o
          → ((e' : E) × (settle c e s o ≡ failed e' s))
            ⊎ ((a : A) × (s' : S) × (settle c e s o ≡ done a s') × (m s ≡ done a s'))
      go c (failed e' s') h = inl (e', refl)
      go true (done a s') h = inl (e, refl)
      go false (done a s') h = inr (a, s', refl, h)
