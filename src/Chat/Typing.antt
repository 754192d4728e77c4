-- ===== src/Chat/Typing.antt =====
-- internal/chat/hub.go: the throttle of typing events, and the buffers of the clients.
use dating_app_backend.Prelude.{
  ℕ, ◌+◌, ◌-◌, ◌≤◌, ◌≡◌, refl, sym, ◌∙◌, inl, inr, Bool, true, false, some, List, [], ◌∷◌, ltb,
  find_first, delete_where, All, Bool-cases, ==_refl, arith,
}
use dating_app_backend.Chat.Hub.{
  TypingKey, TypingEntry, Hub, same_bool, same_key, typing_throttle, last_typing, set_typing,
  throttled, allow_typing_event,
}

pub record TypingCall : Type 0 where
  pub key : TypingKey
  pub now : ℕ

-- The entry that the map would hold for a call.
abbrev pub entry_of : TypingCall → TypingEntry
entry_of c = record { key = c.key; at = c.now }

abbrev pub keep_if : Bool → TypingCall → List TypingCall → List TypingCall
keep_if true c cs = c ∷ cs
keep_if false c cs = cs

-- The calls that are allowed, in their order.
unfoldable pub allowed_calls : List TypingCall → Hub → List TypingCall
allowed_calls [] h = []
allowed_calls (c ∷ cs) h =
    let (allowed, h') = allow_typing_event c.key c.now h in keep_if allowed c (allowed_calls cs h')

same_bool_eq : (a b : Bool) → same_bool a b ≡ true → a ≡ b
same_bool_eq true true h = refl
same_bool_eq true false h = cc
same_bool_eq false true h = cc
same_bool_eq false false h = refl

same_key_eq : (k : TypingKey) (e : TypingEntry) → same_key k e ≡ true → e.key ≡ k
same_key_eq k e h =
    fields (ground arith) (ground arith) (same_bool_eq e.key.started k.started (ground arith))
  where
    fields :
        e.key.user ≡ k.user
        → e.key.conversation ≡ k.conversation
        → e.key.started ≡ k.started
        → e.key ≡ k
    fields a b c = λ i. record { user = a i; conversation = b i; started = c i }

same_bool_refl : (b : Bool) → same_bool b b ≡ true
same_bool_refl true = refl
same_bool_refl false = refl

same_key_refl : (c : TypingCall) → same_key c.key (entry_of c) ≡ true
same_key_refl c =
    rw (==_refl c.key.user, ==_refl c.key.conversation, same_bool_refl c.key.started) refl

find_first-delete_where :
    (p q : TypingEntry → Bool) (xs : List TypingEntry)
    → ((x : TypingEntry) → p x ≡ true → q x ≡ false)
    → find_first p (delete_where q xs) ≡ find_first p xs
find_first-delete_where p q [] h = refl
find_first-delete_where p q (x ∷ xs) h = elim (Bool-cases (p x)) [
  | inl b ↦ rw (b, h x b, b) refl
  | inr b ↦ elim (Bool-cases (q x)) [
    | inl d ↦ rw (b, d) (find_first-delete_where p q xs h)
    | inr d ↦ rw (b, d, b) (find_first-delete_where p q xs h)
  ]
]

-- An entry of another key stays.
other_entry :
    (k : TypingKey) (c : TypingCall) (h : Hub)
    → same_key k (entry_of c) ≡ false
    → last_typing k (set_typing c.key c.now h) ≡ last_typing k h
other_entry k c h e = rw e (
    find_first-delete_where (same_key k) (same_key c.key) h.typing_seen (λ x b.
      elim (Bool-cases (same_key c.key x)) [
        | inr d ↦ d
        | inl d ↦
            let same : c.key ≡ k = sym (same_key_eq c.key x d) ∙ same_key_eq k x b in
            let own = same_key_refl c in (let f = rw same at own in let g = rw same at e in cc)
      ]))

-- The call comes late enough after the entry of its key.
abbrev pub SpacedFrom : TypingKey → ℕ → List TypingCall → Type 0
SpacedFrom k at cs =
    All (λ (d : TypingCall). same_key k (entry_of d) ≡ true → at + typing_throttle ≤ d.now) cs

weaker :
    (k : TypingKey) (early late : ℕ) (cs : List TypingCall)
    → early + typing_throttle ≤ late
    → SpacedFrom k late cs
    → SpacedFrom k early cs
weaker k early late [] e h = tt
weaker k early late (c ∷ cs) e h =
    ((λ s. let l = h.0 s in omega (arith, e, l)), weaker k early late cs e h.1)

spaced_from :
    (cs : List TypingCall) (h : Hub) (k : TypingKey) (e : TypingEntry)
    → last_typing k h ≡ some e
    → SpacedFrom k e.at (allowed_calls cs h)
unfolding allowed_calls allow_typing_event
spaced_from [] h k e l = tt
spaced_from (c ∷ cs) h k e l = elim (Bool-cases (throttled (last_typing c.key h) c.now)) [
  | inl t ↦ rw (allowed_calls, allow_typing_event, t) (spaced_from cs h k e l)
  | inr t ↦ elim (Bool-cases (same_key k (entry_of c))) [
    | inr b ↦
        rw (allowed_calls, allow_typing_event, t)
          ((λ s. cc), spaced_from cs (set_typing c.key c.now h) k e (other_entry k c h b ∙ l))
    | inl b ↦
        let same : c.key ≡ k = same_key_eq k (entry_of c) b in
        let free : ltb (c.now - e.at) typing_throttle ≡ false = rw (same, l) at t in
        let late : e.at + typing_throttle ≤ c.now = ground arith in
        rw (allowed_calls, allow_typing_event, t)
          (
            (λ s. late),
            weaker k e.at c.now (allowed_calls cs (set_typing c.key c.now h)) late
                (spaced_from cs (set_typing c.key c.now h) k (entry_of c) (rw b refl)),
          )
  ]
]

-- Any two calls of one key are at least the throttle's time apart.
abbrev pub IsSpaced : List TypingCall → Type 0
IsSpaced [] = Unit
IsSpaced (c ∷ cs) = SpacedFrom c.key c.now cs × IsSpaced cs

-- Of any sequence of calls of `AllowTypingEvent`, on any hub and at any times, those that are allowed
-- for the same user, conversation and event are at least two seconds apart, in the order in
-- which they come.
pub allowed_calls-IsSpaced : (cs : List TypingCall) (h : Hub) → IsSpaced (allowed_calls cs h)
unfolding allowed_calls allow_typing_event
allowed_calls-IsSpaced [] h = tt
allowed_calls-IsSpaced (c ∷ cs) h = elim (Bool-cases (throttled (last_typing c.key h) c.now)) [
  | inl t ↦ rw (allowed_calls, allow_typing_event, t) (allowed_calls-IsSpaced cs h)
  | inr t ↦
      rw (allowed_calls, allow_typing_event, t)
        (
          spaced_from cs (set_typing c.key c.now h) c.key (entry_of c) (rw (same_key_refl c) refl),
          allowed_calls-IsSpaced cs (set_typing c.key c.now h),
        )
]
