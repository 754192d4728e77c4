-- ===== src/Safety/Unblocked.antt =====
-- internal/safety/service.go: how `UnblockUser` ends.
use dating_app_backend.Prelude.{
  ℕ, ◌≡◌, refl, ◌⊎◌, inl, inr, Bool, false, not, ◌&&◌, Option, none, some, is_none, find_first,
  trim_space, Option-cases, List, Text, ◌==◌, delete_where, store_of, ◌>>=◌, Bool-cases, arith,
}
use dating_app_backend.Store.{User}
use dating_app_backend.Safety.Model.{SafetyDb}
use dating_app_backend.Safety.Blocks.{
  BlockSite, find_user, delete_block, is_block_of, with_blocks, user_by_uuid, user_id_by_uuid,
  unblock_user,
}

abbrev pub is_pair_of : ℕ → ℕ → ℕ → ℕ → Bool
is_pair_of a b x y = a == x && b == y

abbrev pub find_live : ℕ → List User → Option User
find_live uuid users = find_first (λ (u : User). u.uuid == uuid && is_none u.deleted_at) users

-- The user whom a text names, if it is a uuid and that of an account that is not deleted.
abbrev pub named_user : Option ℕ → List User → Option User
named_user none users = none
named_user (some uuid) users = find_live uuid users

abbrev pub is_pair_with : ℕ → Option User → ℕ → ℕ → Bool
is_pair_with a none x y = false
is_pair_with a (some u) x y = is_pair_of a u.id x y

and_false : (a b : Bool) → (a && b && false) ≡ false
and_false a b = ground arith

module _ (parse_uuid : Text → Option ℕ) where
  -- `UnblockUser` leaves the store, or deletes the pair of the user that the text names.
  pub unblocked_ends :
      (faults : BlockSite → Bool) (a : ℕ) (raw : Text) (db : SafetyDb)
      → (let named = named_user (parse_uuid (trim_space raw)) db.shared.users in
          (store_of (unblock_user parse_uuid faults a raw db) ≡ db)
          × ((x y : ℕ)
              → (not (faults find_user) && not (faults delete_block) && is_pair_with a named x y)
                ≡ false))
        ⊎ ((u : User) × (named_user (parse_uuid (trim_space raw)) db.shared.users ≡ some u)
            × (faults find_user ≡ false)
            × (faults delete_block ≡ false)
            × (store_of (unblock_user parse_uuid faults a raw db)
                ≡ with_blocks (delete_where (is_block_of a u.id)) db))
  unfolding unblock_user user_id_by_uuid
  unblocked_ends faults a raw db = elim (Option-cases (parse_uuid (trim_space raw))) [
    | inl n ↦ inl (
      rw (unblock_user, user_id_by_uuid, n, ◌>>=◌) refl,
      λ x y. rw n (and_false (not (faults find_user)) (not (faults delete_block))),
    )
    | inr (uuid, p) ↦ elim (Bool-cases (faults find_user)) [
      | inl f ↦ inl (rw (unblock_user, user_id_by_uuid, p, f, ◌>>=◌) refl, λ x y. rw f refl)
      | inr f ↦ elim (Option-cases (user_by_uuid uuid db)) [
        | inl n ↦ inl (
          rw (unblock_user, user_id_by_uuid, p, f, ◌>>=◌, n) refl,
          λ x y. rw (p, n) (and_false (not (faults find_user)) (not (faults delete_block))),
        )
        | inr (u, n) ↦ elim (Bool-cases (faults delete_block)) [
          | inl d ↦
              inl
                (rw (unblock_user, user_id_by_uuid, p, f, ◌>>=◌, n, d) refl, λ x y. rw (f, d) refl)
          | inr d ↦
              inr (u, rw p n, f, d, rw (unblock_user, user_id_by_uuid, p, f, ◌>>=◌, n, d) refl)
        ]
      ]
    ]
  ]
