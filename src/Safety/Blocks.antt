-- ===== src/Safety/Blocks.antt =====
-- internal/safety/service.go: `BlockUser`, `UnblockUser`, `blockUserTx`, `userIDByUUID`, and the settings.
use dating_app_backend.Prelude.{
  ℕ, Bool, true, not, ◌&&◌, Option, none, some, List, ◌∷◌, Text, trim_space, if◌then◌else◌, ◌==◌,
  is_none, exists, find_first, update_where, delete_where, Handler, pure, throw, lift, query, exec,
  require, or_throw, transaction, ◌>>=◌, ◌>>◌,
}
use dating_app_backend.Store.{User, Block, BlockSource}
use dating_app_backend.Safety.Model.{
  SafetyError, validation, not_found, database, SafetySettings, SafetyDb, BlockUserRequest,
  normalize_block_request, optional_string,
}

pub data BlockSite : Type 0 where
  find_user upsert_block delete_block commit : BlockSite
  insert_settings update_settings read_settings insert_settings_again : BlockSite

abbrev pub is_block_of : ℕ → ℕ → Block → Bool
is_block_of blocker blocked b = b.blocker == blocker && b.blocked == blocked

-- `COALESCE(EXCLUDED.report_id, user_blocks.report_id)`
abbrev pub first_some : Option ℕ → Option ℕ → Option ℕ
first_some (some a) b = some a
first_some none b = b

abbrev pub as_reblocked : Option Text → Option Text → BlockSource → Option ℕ → Block → Block
as_reblocked code remark source report b = record b {
  reason_code = code;
  remark = remark;
  source = source;
  report_id = first_some report b.report_id;
}

-- `INSERT INTO user_blocks ... ON CONFLICT DO UPDATE`
unfoldable pub upsert_block_row :
    ℕ → ℕ → Option Text → Option Text → BlockSource → Option ℕ → List Block → List Block
upsert_block_row blocker blocked code remark source report rows =
    if exists (is_block_of blocker blocked) rows
    then update_where (is_block_of blocker blocked) (as_reblocked code remark source report) rows
    else record {
      blocker = blocker;
      blocked = blocked;
      reason_code = code;
      remark = remark;
      source = source;
      report_id = report;
    }
      ∷ rows

abbrev pub with_blocks : (List Block → List Block) → SafetyDb → SafetyDb
with_blocks f db = record db { shared = record db.shared { blocks = f db.shared.blocks } }

-- `blockUserTx`; the first argument says whether its statement fails. Its value is true: the statement
-- returns the id of the row.
unfoldable pub block_user_tx :
    Bool → ℕ → ℕ → Text → Option Text → BlockSource → Option ℕ → Handler SafetyError SafetyDb Bool
block_user_tx fails blocker blocked code remark source report =
    if blocker == blocked
    then throw validation
    else exec fails database
        (with_blocks (upsert_block_row blocker blocked (optional_string code) remark source report))
      >> pure true

-- The query of `userIDByUUID`.
abbrev pub user_by_uuid : ℕ → SafetyDb → Option User
user_by_uuid uuid db =
    find_first (λ (u : User). u.uuid == uuid && is_none u.deleted_at) db.shared.users

module _ (parse_uuid : Text → Option ℕ) (faults : BlockSite → Bool) where
  -- `userIDByUUID`
  unfoldable pub user_id_by_uuid : Text → Handler SafetyError SafetyDb ℕ
  user_id_by_uuid raw = do
    uuid ← or_throw (parse_uuid (trim_space raw)) validation
    found ← query (faults find_user) database (user_by_uuid uuid)
    user ← or_throw found not_found
    pure user.id

  unfoldable pub block_target :
      ℕ → BlockUserRequest → Text → Option ℕ → ℕ → Handler SafetyError SafetyDb (Unit {0})
  block_target blocker req source report target = do
    require (not (blocker == target)) validation
    n ← lift (normalize_block_request req source)
    blocked ←
        transaction (faults commit) database (
          block_user_tx (faults upsert_block) blocker target n.reason_code n.remark n.source report)
    pure tt

  -- `BlockUser`
  unfoldable pub block_user :
      ℕ → Text → BlockUserRequest → Text → Option ℕ → Handler SafetyError SafetyDb (Unit {0})
  block_user blocker raw req source report =
      user_id_by_uuid raw >>= block_target blocker req source report

  -- `UnblockUser`
  unfoldable pub unblock_user : ℕ → Text → Handler SafetyError SafetyDb (Unit {0})
  unblock_user blocker raw = do
    target ← user_id_by_uuid raw
    exec (faults delete_block) database (with_blocks (delete_where (is_block_of blocker target)))

module _ (faults : BlockSite → Bool) (now fresh user : ℕ) where
  abbrev pub is_settings_of : SafetySettings → Bool
  is_settings_of r = r.user_id == user

  -- `EnsureSafetySettings`: an insert that a row of the user turns away.
  unfoldable pub add_settings : SafetyDb → SafetyDb
  add_settings db = record db {
    settings =
        if exists is_settings_of db.settings
        then db.settings
        else record {
          uuid = fresh;
          user_id = user;
          allow_message_requests = true;
          auto_hide_blocked_users = true;
          updated_at = now;
        }
          ∷ db.settings;
  }

  -- `GetSettings`; a missing row is an error of the database.
  unfoldable pub get_settings : Bool → Handler SafetyError SafetyDb SafetySettings
  get_settings insert_fails = do
    exec insert_fails database add_settings
    found ←
        query (faults read_settings) database
          (λ (db : SafetyDb). find_first is_settings_of db.settings)
    or_throw found database

  abbrev pub as_updated : Bool → Bool → SafetySettings → SafetySettings
  as_updated messages hide r = record r {
    allow_message_requests = messages;
    auto_hide_blocked_users = hide;
    updated_at = now;
  }

  -- `UpdateSettings`
  unfoldable pub update_settings_of :
      Option Bool → Option Bool → Handler SafetyError SafetyDb SafetySettings
  update_settings_of raw_messages raw_hide = do
    messages ← or_throw raw_messages validation
    hide ← or_throw raw_hide validation
    exec (faults insert_settings) database add_settings
    exec (faults update_settings) database (λ (db : SafetyDb). record db {
      settings = update_where is_settings_of (as_updated messages hide) db.settings;
    })
    get_settings (faults insert_settings_again)
