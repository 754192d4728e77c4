-- ===== src/Safety/Blocked.antt =====
-- internal/safety/service.go: what a block does.
use dating_app_backend.Prelude.{
  ℕ, ◌≡◌, refl, sym, ap, ◌∙◌, inl, inr, ◌⊎◌, Bool, true, false, ◌||◌, Option, some, List, [], ◌∷◌,
  Text, trim_space, ◌==◌, if◌then◌else◌, exists, update_where, delete_where, patch, done, ◌>>=◌,
  transaction_ends, Bool-cases, Option-cases, Result-cases, ==_refl, ==_iff, arith,
}
use dating_app_backend.Store.{User, Block, BlockSource, blocks_pair, is_blocked_either_direction}
use dating_app_backend.Chat.Model.{ConversationAccess, active_conversation}
use dating_app_backend.Chat.Access.{active_conversation-Accessed}
use dating_app_backend.Chat.Created.{access_unblocked}
use dating_app_backend.Safety.Model.{
  database, SafetyDb, BlockUserRequest, NormalizedBlock, normalize_block_request, optional_string,
}
use dating_app_backend.Safety.Blocks.{
  BlockSite, find_user, upsert_block, delete_block, commit, is_block_of, as_reblocked,
  upsert_block_row, with_blocks, block_user_tx, user_by_uuid, user_id_by_uuid, block_target,
  block_user, unblock_user,
}

or_true : (a : Bool) → (a || true) ≡ true
or_true true = refl
or_true false = refl

module _ (blocker blocked : ℕ) (code remark : Option Text) (source : BlockSource)
    (report : Option ℕ) where
  reblocked_pair :
      (b : Block)
      → blocks_pair blocker blocked
          (patch (is_block_of blocker blocked) (as_reblocked code remark source report) b)
        ≡ blocks_pair blocker blocked b
  reblocked_pair b = go (is_block_of blocker blocked b)
    where
      go :
          (t : Bool)
          → blocks_pair blocker blocked (if t then as_reblocked code remark source report b else b)
            ≡ blocks_pair blocker blocked b
      go true = refl
      go false = refl

  pair_of_block :
      (b : Block) → is_block_of blocker blocked b ≡ true → blocks_pair blocker blocked b ≡ true
  pair_of_block b h = rw h refl

  updated_pair :
      (rows : List Block)
      → exists (is_block_of blocker blocked) rows ≡ true
      → exists
          (blocks_pair blocker blocked)
          (update_where (is_block_of blocker blocked) (as_reblocked code remark source report) rows)
        ≡ true
  updated_pair [] h = cc
  updated_pair (b ∷ rows) h = elim (Bool-cases (is_block_of blocker blocked b)) [
    | inl e ↦ rw (reblocked_pair b, pair_of_block b e) refl
    | inr e ↦
        let rest : exists (is_block_of blocker blocked) rows ≡ true = rw e at h in
        rw (reblocked_pair b, updated_pair rows rest) (or_true (blocks_pair blocker blocked b))
  ]

  upsert_blocks :
      (rows : List Block)
      → exists
          (blocks_pair blocker blocked)
          (upsert_block_row blocker blocked code remark source report rows)
        ≡ true
  unfolding upsert_block_row
  upsert_blocks rows = elim (Bool-cases (exists (is_block_of blocker blocked) rows)) [
    | inl e ↦ rw (upsert_block_row, e) (updated_pair rows e)
    | inr e ↦ rw (upsert_block_row, e, ==_refl blocker, ==_refl blocked) refl
  ]

delete_none :
    (p : Block → Bool) (rows : List Block) → exists p rows ≡ false → delete_where p rows ≡ rows
delete_none p [] h = refl
delete_none p (b ∷ rows) h = elim (Bool-cases (p b)) [
  | inl e ↦ (let k = rw e at h in cc)
  | inr e ↦
      let rest : exists p rows ≡ false = rw e at h in
      rw e (ap (λ t. b ∷ t) (delete_none p rows rest))
]

-- The user id that a text stands for.
abbrev pub NamesUser : (Text → Option ℕ) → Text → SafetyDb → ℕ → Type 0
NamesUser parse_uuid raw db id =
    (uuid : ℕ) × (u : User) × (parse_uuid (trim_space raw) ≡ some uuid)
    × (user_by_uuid uuid db ≡ some u)
    × (u.id ≡ id)

-- What a good end of `BlockUser` has found and left.
pub record Blocks (parse_uuid : Text → Option ℕ) (blocker : ℕ) (raw : Text) (report : Option ℕ)
    (db db' : SafetyDb) : Type 0 where
  pub target : ℕ
  pub normal : NormalizedBlock
  pub named : NamesUser parse_uuid raw db target
  pub other : (blocker == target) ≡ false
  pub db_is :
      db'
      ≡ with_blocks
          (upsert_block_row blocker target
            (optional_string normal.reason_code)
            normal.remark
            normal.source
            report)
          db

module _ (parse_uuid : Text → Option ℕ) (faults : BlockSite → Bool) (blocker : ℕ) (raw : Text)
    (req : BlockUserRequest) (source : Text) (report : Option ℕ) (db : SafetyDb) where
  tx_blocks :
      (target : ℕ) (n : NormalizedBlock) (b : Bool) (db' : SafetyDb)
      → (blocker == target) ≡ false
      → block_user_tx (faults upsert_block) blocker target n.reason_code n.remark n.source report db
        ≡ done b db'
      → db'
        ≡ with_blocks
            (upsert_block_row blocker target
              (optional_string n.reason_code)
              n.remark
              n.source
              report)
            db
  unfolding block_user_tx
  tx_blocks target n b db' o h = elim (Bool-cases (faults upsert_block)) [
    | inl f ↦ (let k = rw (block_user_tx, o, f, ◌>>=◌) at h in cc)
    | inr f ↦ (let k = rw (block_user_tx, o, f, ◌>>=◌) at h in cc)
  ]

  block_target-Blocks :
      (target : ℕ) (db' : SafetyDb)
      → NamesUser parse_uuid raw db target
      → block_target parse_uuid faults blocker req source report target db ≡ done tt db'
      → Blocks parse_uuid blocker raw report db db'
  unfolding block_target
  block_target-Blocks target db' named h = elim (Bool-cases (blocker == target)) [
    | inl o ↦ (let k = rw (block_target, o, ◌>>=◌) at h in cc)
    | inr o ↦ elim (Result-cases (normalize_block_request req source)) [
      | inr (e, q) ↦ (let k = rw (block_target, o, ◌>>=◌, q) at h in cc)
      | inl (n, q) ↦
          elim (transaction_ends (faults commit) database
            (block_user_tx (faults upsert_block) blocker target n.reason_code n.remark n.source
              report)
            db) [
              | inl (e, t) ↦ (let k = rw (block_target, o, ◌>>=◌, q, t) at h in cc)
              | inr (b, s, t, m) ↦
                  let k = rw (block_target, o, ◌>>=◌, q, t) at h in
                  let same : db' ≡ s = cc in
                  record {
                    target = target;
                    normal = n;
                    named = named;
                    other = o;
                    db_is = same ∙ tx_blocks target n b s o m;
                  }
            ]
    ]
  ]

  pub block_user-Blocks :
      (db' : SafetyDb)
      → block_user parse_uuid faults blocker raw req source report db ≡ done tt db'
      → Blocks parse_uuid blocker raw report db db'
  unfolding block_user user_id_by_uuid
  block_user-Blocks db' h = elim (Option-cases (parse_uuid (trim_space raw))) [
    | inl n ↦ (let k = rw (block_user, user_id_by_uuid, n, ◌>>=◌) at h in cc)
    | inr (uuid, p) ↦ elim (Bool-cases (faults find_user)) [
      | inl f ↦ (let k = rw (block_user, user_id_by_uuid, p, f, ◌>>=◌) at h in cc)
      | inr f ↦ elim (Option-cases (user_by_uuid uuid db)) [
        | inl n ↦ (let k = rw (block_user, user_id_by_uuid, p, f, ◌>>=◌, n) at h in cc)
        | inr (u, n) ↦
            block_target-Blocks u.id db' (uuid, u, p, n, refl)
              (rw (block_user, user_id_by_uuid, p, f, ◌>>=◌, n) at h)
      ]
    ]
  ]

pair_sym :
    (a b : ℕ) (rows : List Block) → exists (blocks_pair a b) rows ≡ exists (blocks_pair b a) rows
pair_sym a b [] = refl
pair_sym a b (r ∷ rows) = ground (arith, pair_sym a b rows)

same_target :
    (parse_uuid : Text → Option ℕ) (raw : Text) (db : SafetyDb) (a b : ℕ)
    → NamesUser parse_uuid raw db a
    → NamesUser parse_uuid raw db b
    → a ≡ b
same_target parse_uuid raw db a b (uuid, u, p, f, i) (uuid', u', p', f', i') =
    let e : uuid ≡ uuid' = cc in
    let g : user_by_uuid uuid db ≡ some u' = rw e f' in
    let v : u ≡ u' = cc in sym i ∙ ap (λ (x : User). x.id) v ∙ i'

-- The two users of a block, in either order.
abbrev pub AreApart : ℕ → ℕ → ℕ → ℕ → Type 0
AreApart blocker target user other =
    ((user ≡ blocker) × (other ≡ target)) ⊎ ((user ≡ target) × (other ≡ blocker))

Blocks-blocked :
    (parse_uuid : Text → Option ℕ) (blocker : ℕ) (raw : Text) (report : Option ℕ)
    (db db' : SafetyDb) (target user other : ℕ)
    → Blocks parse_uuid blocker raw report db db'
    → NamesUser parse_uuid raw db target
    → AreApart blocker target user other
    → is_blocked_either_direction user other db'.shared ≡ true
Blocks-blocked parse_uuid blocker raw report db db' target user other w named sides =
    let t = same_target parse_uuid raw db w.target target w.named named in
    let k =
      upsert_blocks blocker w.target (optional_string w.normal.reason_code) w.normal.remark
        w.normal.source report db.shared.blocks in
    elim sides [
      | inl (u, o) ↦ rw (u, o, ← t, w.db_is) k
      | inr (u, o) ↦
          rw (u, o, ← t, w.db_is)
            (pair_sym w.target blocker (
                upsert_block_row blocker w.target (optional_string w.normal.reason_code)
                  w.normal.remark w.normal.source report db.shared.blocks)
              ∙ k)
    ]

-- When `BlockUser` has ended well, no chat that is open to one of the two users has the other as its
-- other member.
pub block_user_cuts_chat :
    (parse_uuid : Text → Option ℕ) (faults : BlockSite → Bool) (blocker : ℕ) (raw : Text)
    (req : BlockUserRequest) (source : Text) (report : Option ℕ) (db db' : SafetyDb)
    (target user other conversation : ℕ) (access : ConversationAccess)
    → block_user parse_uuid faults blocker raw req source report db ≡ done tt db'
    → NamesUser parse_uuid raw db target
    → AreApart blocker target user other
    → active_conversation user conversation db'.shared ≡ some access
    → (access.other_user_id == other) ≡ false
block_user_cuts_chat parse_uuid faults blocker raw req source report db db' target user other
      conversation access h named sides reach =
    let w = block_user-Blocks parse_uuid faults blocker raw req source report db db' h in
    let free =
      access_unblocked user conversation db'.shared access
        (active_conversation-Accessed user conversation db'.shared access reach) in
    let cut = Blocks-blocked parse_uuid blocker raw report db db' target user other w named sides in
    elim (Bool-cases (access.other_user_id == other)) [
      | inr e ↦ e
      | inl e ↦
          let same : access.other_user_id ≡ other = (==_iff access.other_user_id other).0 e in
          (let k = rw same at free in cc)
    ]

fresh_upsert :
    (blocker blocked : ℕ) (code remark : Option Text) (source : BlockSource) (report : Option ℕ)
    (rows : List Block)
    → exists (is_block_of blocker blocked) rows ≡ false
    → delete_where
        (is_block_of blocker blocked)
        (upsert_block_row blocker blocked code remark source report rows)
      ≡ rows
unfolding upsert_block_row
fresh_upsert blocker blocked code remark source report rows h =
    rw (upsert_block_row, h, ==_refl blocker, ==_refl blocked)
      (delete_none (is_block_of blocker blocked) rows h)

-- If a user had no block on another, `BlockUser` followed by `UnblockUser` of the same uuid, both
-- ending well, leaves the store as it was before.
pub unblock_user-block_user :
    (parse_uuid : Text → Option ℕ) (faults faults' : BlockSite → Bool) (blocker : ℕ) (raw : Text)
    (req : BlockUserRequest) (source : Text) (report : Option ℕ) (db db' : SafetyDb) (target : ℕ)
    → NamesUser parse_uuid raw db target
    → exists (is_block_of blocker target) db.shared.blocks ≡ false
    → block_user parse_uuid faults blocker raw req source report db ≡ done tt db'
    → faults' find_user ≡ false
    → faults' delete_block ≡ false
    → unblock_user parse_uuid faults' blocker raw db' ≡ done tt db
unfolding unblock_user user_id_by_uuid
unblock_user-block_user parse_uuid faults faults' blocker raw req source report db db' target named
      clear h up up_too =
    let w = block_user-Blocks parse_uuid faults blocker raw req source report db db' h in
    let t = same_target parse_uuid raw db w.target target w.named named in
    let (uuid, u, p, f, i) = w.named in
    let gone : delete_where (is_block_of blocker w.target) (
          upsert_block_row blocker w.target (optional_string w.normal.reason_code) w.normal.remark
            w.normal.source report db.shared.blocks)
        ≡ db.shared.blocks =
      fresh_upsert blocker w.target (optional_string w.normal.reason_code) w.normal.remark
        w.normal.source report db.shared.blocks (rw t clear) in
    rw (w.db_is, unblock_user, user_id_by_uuid, p, up, ◌>>=◌, f, up_too, i, gone) refl
