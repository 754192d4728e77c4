-- ===== src/Safety/Tests.antt =====
-- internal/safety: reports and blocks of two members of a match.
use dating_app_backend.Prelude.{
  ℕ, ◌≡◌, refl, inl, Bool, true, false, none, some, List, [], ◌∷◌, codes, trim_space, to_upper,
  ◌==◌, store_of, done,
}
use dating_app_backend.Store.{
  user_active, manual, match_active, conversation_active, ConversationParticipant, ordered_pair,
}
use dating_app_backend.Chat.Model.{ConversationAccess, active_conversation}
use dating_app_backend.Chat.Tests.{chat_db, letter_uuid}
use dating_app_backend.Safety.Model.{
  SafetyDb, report_open, CreateReportRequest, BlockUserRequest, valid_target_type,
  severity_for_reason, high, normalize_note, optional_string, normalize_report_request,
  valid_source, normalize_block_request,
}
use dating_app_backend.Safety.Blocks.{
  BlockSite, delete_block, upsert_block_row, block_user_tx, user_id_by_uuid, block_target,
  block_user, unblock_user,
}
use dating_app_backend.Safety.Targets.{
  TargetSite, has_user_context, user_of_user, check_context, validate_target,
}
use dating_app_backend.Safety.Reports.{
  ReportSite, ReportDrawn, use_case, find_or_create_case, insert_report_row, block_for_report,
  log_block, close_report, finish_report, after_report, report_again, report_in, report_unless_open,
  report_tx, report_target, report_for, create_report,
}
use dating_app_backend.Safety.BlockSet.{
  BlockOp, blocking, unblocking, block_set, after_block_ops, set_ops, block_set-after_block_ops,
}
use dating_app_backend.Safety.Counts.{SafetyIsCounted}
use dating_app_backend.Safety.Counted.{create_report-SafetyIsCounted}
use dating_app_backend.Safety.Blocked.{block_user_cuts_chat, unblock_user-block_user}

abbrev safety_db : SafetyDb
safety_db = record {
  shared = chat_db;
  impressions = [];
  profiles = [];
  media = [];
  reasons =
      record {
        id = 4;
        reason_code = codes "HARASSMENT";
        applies_to = codes "USER" ∷ codes "MESSAGE" ∷ [];
        is_active = true;
      }
      ∷ [];
  reports = [];
  next_report = 1;
  cases = [];
  next_case = 1;
  moderation_actions = [];
  settings = [];
}

abbrev no_report_faults : ReportSite → Bool
no_report_faults _ = false

abbrev no_target_faults : TargetSite → Bool
no_target_faults _ = false

abbrev no_block_faults : BlockSite → Bool
no_block_faults _ = false

abbrev drawn : ReportDrawn
drawn = record { now = 70; case_uuid = 301; report_uuid = 302 }

-- User 1 reports user 2, and blocks.
abbrev harassment : CreateReportRequest
harassment = record {
  target_type = codes "user";
  target_uuid = 202 ∷ [];
  reason_code = codes "harassment";
  remark = some (codes " rude ");
  block_user = true;
}

abbrev reported_db : SafetyDb
reported_db =
    store_of
      (create_report letter_uuid no_report_faults no_target_faults drawn 1 harassment safety_db)

report_run :
    create_report letter_uuid no_report_faults no_target_faults drawn 1 harassment safety_db
    ≡ done
        (record { report_uuid = 302; case_uuid = some 301; status = report_open; blocked = true })
        reported_db
unfolding create_report report_for report_target report_tx report_unless_open report_again report_in
    after_report finish_report close_report log_block block_for_report insert_report_row
    find_or_create_case use_case block_user_tx upsert_block_row validate_target check_context
    has_user_context user_of_user ordered_pair normalize_report_request normalize_note
    valid_target_type severity_for_reason optional_string trim_space to_upper
report_run = refl

-- The same report again finds the open one, and changes nothing but the block.
report_again_run :
    create_report letter_uuid no_report_faults no_target_faults drawn 1
      (record harassment { block_user = false })
      reported_db
    ≡ done
        (record { report_uuid = 302; case_uuid = some 301; status = report_open; blocked = false })
        reported_db
unfolding create_report report_for report_target report_tx report_unless_open report_again report_in
    after_report finish_report close_report log_block block_for_report insert_report_row
    find_or_create_case use_case block_user_tx upsert_block_row validate_target check_context
    has_user_context user_of_user ordered_pair normalize_report_request normalize_note
    valid_target_type severity_for_reason optional_string trim_space to_upper
report_again_run = refl

severity_run : severity_for_reason (codes " harassment") ≡ high
unfolding severity_for_reason trim_space to_upper
severity_run = refl

create_report-SafetyIsCounted_example : SafetyIsCounted (
    store_of
      (create_report letter_uuid no_report_faults no_target_faults drawn 1 harassment safety_db))
create_report-SafetyIsCounted_example =
    create_report-SafetyIsCounted letter_uuid no_report_faults no_target_faults drawn 1 harassment
      safety_db (record { counts = tt; cases_below = tt; reports_below = tt })

abbrev no_reason : BlockUserRequest
no_reason = record { reason_code = none; remark = none }

abbrev blocked_db : SafetyDb
blocked_db =
    store_of (block_user letter_uuid no_block_faults 1 (202 ∷ []) no_reason [] none safety_db)

block_run :
    block_user letter_uuid no_block_faults 1 (202 ∷ []) no_reason [] none safety_db
    ≡ done tt blocked_db
unfolding block_user block_target user_id_by_uuid block_user_tx upsert_block_row
    normalize_block_request valid_source normalize_note optional_string trim_space to_upper
block_run = refl

letter_run : letter_uuid (trim_space (202 ∷ [])) ≡ some 202
unfolding trim_space
letter_run = refl

unblock_user-block_user_example :
    unblock_user letter_uuid no_block_faults 1 (202 ∷ []) blocked_db ≡ done tt safety_db
unblock_user-block_user_example =
    unblock_user-block_user letter_uuid no_block_faults no_block_faults 1 (202 ∷ []) no_reason []
      none safety_db blocked_db 2
      (
        202,
        record { id = 2; uuid = 202; status = user_active; deleted_at = none },
        letter_run,
        refl,
        refl,
      )
      refl block_run refl refl

-- User 1 is matched with user 3 too.
abbrev third_part : ℕ → ConversationParticipant
third_part user = record {
  conversation_id = 6;
  user_id = user;
  last_read_message_id = none;
  last_read_at = none;
  hidden_at = none;
  updated_at = 10;
}

abbrev three_db : SafetyDb
three_db = record safety_db {
  shared = record chat_db {
    users = record { id = 3; uuid = 203; status = user_active; deleted_at = none } ∷ chat_db.users;
    matches =
        record {
          id = 4;
          uuid = 104;
          user_low_id = 1;
          user_high_id = 3;
          initiated_by_user_id = some 3;
          status = match_active;
          matched_at = 10;
          unmatched_at = none;
          unmatched_by_user_id = none;
          unmatch_reason_code = none;
          unmatch_reason_note = none;
          updated_at = 10;
        }
        ∷ chat_db.matches;
    conversations =
        record {
          id = 6;
          uuid = 106;
          match_id = 4;
          status = conversation_active;
          last_message_id = none;
          last_message_at = none;
          updated_at = 10;
        }
        ∷ chat_db.conversations;
    conversation_participants = third_part 1 ∷ third_part 3 ∷ chat_db.conversation_participants;
  };
}

abbrev three_blocked_db : SafetyDb
three_blocked_db =
    store_of (block_user letter_uuid no_block_faults 1 (202 ∷ []) no_reason [] none three_db)

three_block_run :
    block_user letter_uuid no_block_faults 1 (202 ∷ []) no_reason [] none three_db
    ≡ done tt three_blocked_db
unfolding block_user block_target user_id_by_uuid block_user_tx upsert_block_row
    normalize_block_request valid_source normalize_note optional_string trim_space to_upper
three_block_run = refl

abbrev third_access : ConversationAccess
third_access = record {
  conversation_id = 6;
  conversation_uuid = 106;
  match_id = 4;
  match_uuid = 104;
  user_uuid = 201;
  other_user_id = 3;
  other_user_uuid = 203;
}

third_access_run : active_conversation 1 106 three_blocked_db.shared ≡ some third_access
unfolding active_conversation block_user block_target user_id_by_uuid block_user_tx upsert_block_row
    normalize_block_request valid_source normalize_note optional_string trim_space to_upper
third_access_run = refl

-- The chat with user 2 is cut.
cut_access_run : active_conversation 1 105 three_blocked_db.shared ≡ none
unfolding active_conversation block_user block_target user_id_by_uuid block_user_tx upsert_block_row
    normalize_block_request valid_source normalize_note optional_string trim_space to_upper
cut_access_run = refl

block_user_cuts_chat_example : (3 == 2) ≡ false
block_user_cuts_chat_example =
    block_user_cuts_chat letter_uuid no_block_faults 1 (202 ∷ []) no_reason [] none three_db
      three_blocked_db 2 1 2 106 third_access three_block_run
      (
        202,
        record { id = 2; uuid = 202; status = user_active; deleted_at = none },
        letter_run,
        refl,
        refl,
      )
      (inl (refl, refl)) third_access_run

abbrev delete_fault : BlockSite → Bool
delete_fault delete_block = true
delete_fault _ = false

abbrev block_ops : List BlockOp
block_ops =
    blocking false 1 2 [] none manual none
    ∷ blocking false 2 2 [] none manual none
    ∷ blocking false 2 1 [] none manual (some 7)
    ∷ unblocking delete_fault 2 (201 ∷ [])
    ∷ unblocking no_block_faults 2 []
    ∷ unblocking no_block_faults 1 (202 ∷ [])
    ∷ []

block_set_run : block_set (after_block_ops letter_uuid block_ops safety_db) 2 1 ≡ true
unfolding after_block_ops block_user_tx upsert_block_row unblock_user user_id_by_uuid
    optional_string trim_space
block_set_run = refl

unblocked_set_run : block_set (after_block_ops letter_uuid block_ops safety_db) 1 2 ≡ false
unfolding after_block_ops block_user_tx upsert_block_row unblock_user user_id_by_uuid
    optional_string trim_space
unblocked_set_run = refl

block_set-after_block_ops_example :
    block_set (after_block_ops letter_uuid block_ops safety_db)
    ≡ set_ops letter_uuid safety_db.shared.users block_ops (block_set safety_db)
block_set-after_block_ops_example = block_set-after_block_ops letter_uuid block_ops safety_db
