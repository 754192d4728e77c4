-- ===== src/Safety/BlockSet.antt =====
-- internal/safety/service.go: the table of blocks as a set of pairs.
use dating_app_backend.Prelude.{
  ℕ, ◌≡◌, refl, ap, ◌∙◌, inl, inr, Bool, true, false, not, ◌&&◌, Option, trim_space, List, [], ◌∷◌,
  Text, if◌then◌else◌, ◌==◌, exists, update_where, delete_where, store_of, ◌>>=◌, Bool-cases, arith,
}
use dating_app_backend.Store.{User, Block, BlockSource}
use dating_app_backend.Safety.Model.{SafetyDb, optional_string}
use dating_app_backend.Safety.Blocks.{
  BlockSite, find_user, delete_block, is_block_of, as_reblocked, upsert_block_row, block_user_tx,
  unblock_user,
}
use dating_app_backend.Safety.Unblocked.{is_pair_of, named_user, is_pair_with, unblocked_ends}

-- A call of `blockUserTx`, whose first argument says whether its statement fails, or of `UnblockUser`.
pub data BlockOp : Type 0 where
  blocking : Bool → (blocker blocked : ℕ) → Text → Option Text → BlockSource → Option ℕ → BlockOp
  unblocking : (BlockSite → Bool) → (blocker : ℕ) → Text → BlockOp

abbrev pub after_block_op : (Text → Option ℕ) → BlockOp → SafetyDb → SafetyDb
after_block_op parse_uuid (blocking fails blocker blocked code remark source report) db =
    store_of (block_user_tx fails blocker blocked code remark source report db)
after_block_op parse_uuid (unblocking faults blocker raw) db =
    store_of (unblock_user parse_uuid faults blocker raw db)

unfoldable pub after_block_ops : (Text → Option ℕ) → List BlockOp → SafetyDb → SafetyDb
after_block_ops parse_uuid [] db = db
after_block_ops parse_uuid (o ∷ os) db =
    after_block_ops parse_uuid os (after_block_op parse_uuid o db)

-- Who has blocked whom.
abbrev pub BlockSet : Type 0
BlockSet = ℕ → ℕ → Bool

abbrev pub set_op : (Text → Option ℕ) → List User → BlockOp → BlockSet → BlockSet
set_op parse_uuid users (blocking fails blocker blocked code remark source report) s x y =
    if not fails && not (blocker == blocked) && is_pair_of blocker blocked x y then true else s x y
set_op parse_uuid users (unblocking faults blocker raw) s x y =
    if not (faults find_user)
      && not (faults delete_block)
      && is_pair_with blocker (named_user (parse_uuid (trim_space raw)) users) x y
    then false
    else s x y

unfoldable pub set_ops : (Text → Option ℕ) → List User → List BlockOp → BlockSet → BlockSet
set_ops parse_uuid users [] s = s
set_ops parse_uuid users (o ∷ os) s = set_ops parse_uuid users os (set_op parse_uuid users o s)

abbrev pub block_set : SafetyDb → BlockSet
block_set db x y = exists (is_block_of x y) db.shared.blocks

module _ (a b : ℕ) (code remark : Option Text) (source : BlockSource) (report : Option ℕ) where
  reblocked_same :
      (x y : ℕ) (t : Bool) (r : Block)
      → is_block_of x y (if t then as_reblocked code remark source report r else r)
        ≡ is_block_of x y r
  reblocked_same x y true r = refl
  reblocked_same x y false r = refl

  exists-update :
      (x y : ℕ) (rows : List Block)
      → exists
          (is_block_of x y)
          (update_where (is_block_of a b) (as_reblocked code remark source report) rows)
        ≡ exists (is_block_of x y) rows
  exists-update x y [] = refl
  exists-update x y (r ∷ rows) =
      rw (reblocked_same x y (is_block_of a b r) r, exists-update x y rows) refl

  pair_found :
      (x y : ℕ) (rows : List Block)
      → exists (is_block_of a b) rows ≡ true
      → exists (is_block_of x y) rows
        ≡ (if is_pair_of a b x y then true else exists (is_block_of x y) rows)
  pair_found x y rows h = elim (Bool-cases (is_pair_of a b x y)) [
    | inr e ↦ rw e refl
    | inl e ↦ let i : a ≡ x = ground arith in let j : b ≡ y = ground arith in rw (e, ← i, ← j) h
  ]

  upsert_set :
      (x y : ℕ) (rows : List Block)
      → exists (is_block_of x y) (upsert_block_row a b code remark source report rows)
        ≡ (if is_pair_of a b x y then true else exists (is_block_of x y) rows)
  unfolding upsert_block_row
  upsert_set x y rows = elim (Bool-cases (exists (is_block_of a b) rows)) [
    | inl e ↦ rw (upsert_block_row, e) (exists-update x y rows ∙ pair_found x y rows e)
    | inr e ↦ elim (Bool-cases (is_pair_of a b x y)) [
      | inl f ↦ rw (upsert_block_row, e, f) refl
      | inr f ↦ rw (upsert_block_row, e, f) refl
    ]
  ]

deleted_set :
    (a b x y : ℕ) (rows : List Block)
    → exists (is_block_of x y) (delete_where (is_block_of a b) rows)
      ≡ (if is_pair_of a b x y then false else exists (is_block_of x y) rows)
deleted_set a b x y [] = ground arith
deleted_set a b x y (r ∷ rows) = ground (arith, deleted_set a b x y rows)

blocked_step :
    (fails : Bool) (a b : ℕ) (code : Text) (remark : Option Text) (source : BlockSource)
    (report : Option ℕ) (db : SafetyDb) (x y : ℕ)
    → block_set (store_of (block_user_tx fails a b code remark source report db)) x y
      ≡ (if not fails && not (a == b) && is_pair_of a b x y then true else block_set db x y)
unfolding block_user_tx
blocked_step fails a b code remark source report db x y = elim (Bool-cases (a == b)) [
  | inl e ↦ elim (Bool-cases fails) [
    | inl f ↦ rw (block_user_tx, e, f) refl
    | inr f ↦ rw (block_user_tx, e, f) refl
  ]
  | inr e ↦ elim (Bool-cases fails) [
    | inl f ↦ rw (block_user_tx, e, f, ◌>>=◌) refl
    | inr f ↦
        rw (block_user_tx, e, f, ◌>>=◌)
          (upsert_set a b (optional_string code) remark source report x y db.shared.blocks)
  ]
]

blocked_users :
    (fails : Bool) (a b : ℕ) (code : Text) (remark : Option Text) (source : BlockSource)
    (report : Option ℕ) (db : SafetyDb)
    → (store_of (block_user_tx fails a b code remark source report db)).shared.users
      ≡ db.shared.users
unfolding block_user_tx
blocked_users fails a b code remark source report db = elim (Bool-cases (a == b)) [
  | inl e ↦ rw (block_user_tx, e) refl
  | inr e ↦ elim (Bool-cases fails) [
    | inl f ↦ rw (block_user_tx, e, f, ◌>>=◌) refl
    | inr f ↦ rw (block_user_tx, e, f, ◌>>=◌) refl
  ]
]

module _ (parse_uuid : Text → Option ℕ) where
  unblocked_step :
      (faults : BlockSite → Bool) (a : ℕ) (raw : Text) (db : SafetyDb) (x y : ℕ)
      → block_set (store_of (unblock_user parse_uuid faults a raw db)) x y
        ≡ set_op parse_uuid db.shared.users (unblocking faults a raw) (block_set db) x y
  unblocked_step faults a raw db x y = elim (unblocked_ends parse_uuid faults a raw db) [
    | inl (e, n) ↦ rw (e, n x y) refl
    | inr (u, n, f, d, e) ↦ rw (e, n, f, d) (deleted_set a u.id x y db.shared.blocks)
  ]

  unblocked_users :
      (faults : BlockSite → Bool) (a : ℕ) (raw : Text) (db : SafetyDb)
      → (store_of (unblock_user parse_uuid faults a raw db)).shared.users ≡ db.shared.users
  unblocked_users faults a raw db = elim (unblocked_ends parse_uuid faults a raw db) [
    | inl (e, n) ↦ rw e refl
    | inr (u, n, f, d, e) ↦ rw e refl
  ]

  set_op-step :
      (o : BlockOp) (db : SafetyDb) (x y : ℕ)
      → block_set (after_block_op parse_uuid o db) x y
        ≡ set_op parse_uuid db.shared.users o (block_set db) x y
  set_op-step (blocking fails a b code remark source report) db x y =
      blocked_step fails a b code remark source report db x y
  set_op-step (unblocking faults a raw) db x y = unblocked_step faults a raw db x y

  block_op_users :
      (o : BlockOp) (db : SafetyDb)
      → (after_block_op parse_uuid o db).shared.users ≡ db.shared.users
  block_op_users (blocking fails a b code remark source report) db =
      blocked_users fails a b code remark source report db
  block_op_users (unblocking faults a raw) db = unblocked_users faults a raw db

  set_op_path :
      (o : BlockOp) (db : SafetyDb)
      → block_set (after_block_op parse_uuid o db)
        ≡ set_op parse_uuid db.shared.users o (block_set db)
  set_op_path o db = λ i x y. set_op-step o db x y i

  -- Along any sequence of calls of `blockUserTx` and `UnblockUser`, the table of blocks holds the pairs
  -- that a set of pairs would: a block adds its pair, unless it is on oneself or its statement fails; an
  -- unblock takes away the pair of the user that its text names, unless it names none or a statement
  -- fails; every other pair is left alone. Reason, note, source and report of a block play no part in it.
  pub block_set-after_block_ops :
      (os : List BlockOp) (db : SafetyDb)
      → block_set (after_block_ops parse_uuid os db)
        ≡ set_ops parse_uuid db.shared.users os (block_set db)
  unfolding after_block_ops set_ops
  block_set-after_block_ops [] db = refl
  block_set-after_block_ops (o ∷ os) db =
      block_set-after_block_ops os (after_block_op parse_uuid o db)
      ∙ ap
          (λ (users : List User).
            set_ops parse_uuid users os (block_set (after_block_op parse_uuid o db)))
          (block_op_users o db)
      ∙ ap (set_ops parse_uuid db.shared.users os) (set_op_path o db)
