-- ===== src/Chat/Rows.antt =====
-- internal/chat/service.go: the rows that `Messages` lists, and its limit.
use dating_app_backend.Prelude.{
  ℕ, ◌<◌, ◌≡◌, refl, ap, inl, inr, Bool, false, ◌||◌, Option, none, some, List, [], ◌∷◌, ◌++◌, map,
  Text, is_empty, trim_space, ◌==◌, ltb, leb, ◌^◌, select, All, UniqueKeys, IsFresh, Result, ok,
  err, arith, Bool-cases, Option-cases, All-select,
}
use dating_app_backend.Store.{Message, Db, user_by_id}
use dating_app_backend.Chat.Model.{ChatError, MessageRow, to_response}
use dating_app_backend.Chat.Messages.{
  limit_value, limit_in_range, normalize_limit, join_messages, row_id,
}

-- The value of a result, where it is one.
abbrev pub IsPositive : Result ChatError ℕ → Type 0
IsPositive (ok n) = 0 < n
IsPositive (err e) = Unit

-- The time and the id of a row are not zero.
abbrev pub IsDated : ℕ → ℕ → Type 0
IsDated time id = (time == 0) ≡ false × (id == 0) ≡ false

abbrev pub MessageIsDated : Message → Type 0
MessageIsDated m = IsDated m.created_at m.id

abbrev pub RowIsDated : MessageRow → Type 0
RowIsDated r = IsDated r.created_at r.message_id

abbrev pub message_id : Message → ℕ
message_id m = m.id

module _ (db : Db) where
  pub join-IsDated :
      (ms : List Message) → All MessageIsDated ms → All RowIsDated (join_messages db ms)
  join-IsDated [] h = tt
  join-IsDated (m ∷ ms) h = elim (Option-cases (user_by_id m.sender_user_id db)) [
    | inl n ↦ rw n (join-IsDated ms h.1)
    | inr (u, n) ↦ rw n (h.0, join-IsDated ms h.1)
  ]

  join-IsFresh :
      (k : ℕ) (ms : List Message) → IsFresh message_id k ms → IsFresh row_id k (join_messages db ms)
  join-IsFresh k [] h = tt
  join-IsFresh k (m ∷ ms) h = elim (Option-cases (user_by_id m.sender_user_id db)) [
    | inl n ↦ rw n (join-IsFresh k ms h.1)
    | inr (u, n) ↦ rw n (h.0, join-IsFresh k ms h.1)
  ]

  pub join-UniqueKeys :
      (ms : List Message) → UniqueKeys message_id ms → UniqueKeys row_id (join_messages db ms)
  join-UniqueKeys [] h = tt
  join-UniqueKeys (m ∷ ms) h = elim (Option-cases (user_by_id m.sender_user_id db)) [
    | inl n ↦ rw n (join-UniqueKeys ms h.1)
    | inr (u, n) ↦ rw n (join-IsFresh m.id ms h.0, join-UniqueKeys ms h.1)
  ]

pub select-UniqueKeys :
    (p : Message → Bool) (ms : List Message)
    → UniqueKeys message_id ms
    → UniqueKeys message_id (select p ms)
select-UniqueKeys p [] h = tt
select-UniqueKeys p (m ∷ ms) h = elim (Bool-cases (p m)) [
  | inl b ↦
      rw b
        (All-select (λ (x : Message). (x.id == m.id) ≡ false) p ms h.0, select-UniqueKeys p ms h.1)
  | inr b ↦ rw b (select-UniqueKeys p ms h.1)
]

pub All-last :
    (p : List MessageRow) (c : MessageRow) (r : List MessageRow)
    → All RowIsDated (p ++ c ∷ r)
    → RowIsDated c × All RowIsDated r
All-last [] c r h = h
All-last (x ∷ p) c r h = All-last p c r h.1

pub append_assoc :
    (p q r : List MessageRow) (c : MessageRow) → p ++ (q ++ c ∷ r) ≡ (p ++ q) ++ c ∷ r
append_assoc [] q r c = refl
append_assoc (x ∷ p) q r c = ap (λ t. x ∷ t) (append_assoc p q r c)

pub append_last : (p r : List MessageRow) (c : MessageRow) → (p ++ c ∷ []) ++ r ≡ p ++ c ∷ r
append_last [] r c = refl
append_last (x ∷ p) r c = ap (λ t. x ∷ t) (append_last p r c)

pub map-append :
    (p q : List MessageRow) → map to_response (p ++ q) ≡ map to_response p ++ map to_response q
map-append [] q = refl
map-append (x ∷ p) q = ap (λ t. to_response x ∷ t) (map-append p q)

limit_in_range-IsPositive : (max : ℕ) (o : Option ℕ) → 0 < max → IsPositive (limit_in_range max o)
limit_in_range-IsPositive max none h = tt
limit_in_range-IsPositive max (some v) h = elim (Bool-cases (v == 0 || leb (2 ^ 63) v)) [
  | inl b ↦ rw b tt
  | inr b ↦ elim (Bool-cases (ltb max v)) [ inl c ↦ rw (b, c) h | inr c ↦ rw (b, c) (ground arith) ]
]

pub normalize_limit-IsPositive : (raw : Text) → IsPositive (normalize_limit raw 30 100)
unfolding normalize_limit
normalize_limit-IsPositive raw = elim (Bool-cases (is_empty (trim_space raw))) [
  | inl b ↦ rw (normalize_limit, b) (omega arith)
  | inr b ↦
      rw (normalize_limit, b)
        (limit_in_range-IsPositive 100 (limit_value 0 (trim_space raw)) (omega arith))
]
