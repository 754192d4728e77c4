-- ===== src/Discovery/Pairs.antt =====
-- The Boolean side of the invariant on matches: one new action, and the match that it may add.
use dating_app_backend.Prelude.{
  ℕ, ◌<◌, ◌≡◌, ◌≢◌, inl, inr, Bool, true, false, not, ◌&&◌, ◌||◌, is_some, ◌==◌, Bool-cases, arith,
  if◌then◌else◌, ltb, subst, List, ◌∷◌, find_first, refl,
}
use dating_app_backend.Store.{ordered_pair}

pub is_some-find_first {ℓ} :
    {A : Type ℓ} (p : A → Bool) (c : Bool) (x : A) (xs : List A)
    → is_some (find_first p (if c then x ∷ xs else xs)) ≡ (c && p x || is_some (find_first p xs))
is_some-find_first p true x xs = elim (Bool-cases (p x)) [ inl b ↦ rw b refl | inr b ↦ rw b refl ]
is_some-find_first p false x xs = refl

-- `found low high`: the pair has a match; `liked u t`: `u` has a positive action towards `t`.
-- Now `u` acts on `t`, with a positive action if `p`.
module _ (found liked : ℕ → ℕ → Bool) (u t : ℕ) (p : Bool) where
  abbrev adds : ℕ → ℕ → Bool
  adds low high = p && ((((u == t) && (t == u)) && p || liked t u) && not (found low high))

  abbrev Balanced : ℕ → ℕ → ℕ → ℕ → Type 0
  Balanced low high a b =
      (adds low high && (low == a && high == b) || found a b)
      ≡ (((u == a && t == b) && p || liked a b) && ((u == b && t == a) && p || liked b a))

  actor_low : u < t → found u t ≡ (liked u t && liked t u) → Balanced u t u t
  actor_low l e = ground (arith, e)

  actor_high : t < u → found t u ≡ (liked t u && liked u t) → Balanced t u t u
  actor_high l e = ground (arith, e)

  another_pair :
      (low high a b : ℕ)
      → (low == a && high == b) ≡ false
      → (u == a && t == b) ≡ false
      → (u == b && t == a) ≡ false
      → found a b ≡ (liked a b && liked b a)
      → Balanced low high a b
  another_pair low high a b h i j e = ground (arith, e)

  moved :
      (low high a b a' b' : ℕ) → a ≡ a' → b ≡ b' → Balanced low high a b → Balanced low high a' b'
  moved low high a b a' b' e f h =
      subst (λ x. Balanced low high x b') e (subst (λ y. Balanced low high a y) f h)

  pub balanced :
      ((a b : ℕ) → a < b → found a b ≡ (liked a b && liked b a))
      → u ≢ t
      → (a b : ℕ) → a < b
      → Balanced (ordered_pair u t).0 (ordered_pair u t).1 a b
  unfolding ordered_pair
  balanced inv n a b l = elim (Bool-cases (ltb u t)) [
    | inl o ↦ rw o (elim (Bool-cases (u == a && t == b)) [
      | inl x ↦
          moved u t u t a b (ground arith) (ground arith)
            (actor_low (ground arith) (inv u t (ground arith)))
      | inr x ↦ another_pair u t a b x x (ground arith) (inv a b l)
    ])
    | inr o ↦ rw o (elim (Bool-cases (t == a && u == b)) [
      | inl x ↦
          moved t u t u a b (ground arith) (ground arith)
            (actor_high (ground arith) (inv t u (ground arith)))
      | inr x ↦ another_pair t u a b x (ground arith) (ground arith) (inv a b l)
    ])
  ]
