-- ===== src/Safety/Reports.antt =====
-- internal/safety/service.go: `CreateReport`.
use dating_app_backend.Prelude.{
  ℕ, ◌+◌, Bool, true, false, not, ◌&&◌, ◌||◌, Option, none, some, ◌∷◌, Text, if◌then◌else◌, ◌==◌,
  exists, find_first, update_where, Handler, done, failed, pure, throw, lift, query, exec,
  transaction, ◌>>=◌, ◌>>◌,
}
use dating_app_backend.Store.{report_flow}
use dating_app_backend.Safety.Model.{
  SafetyError, validation, database, TargetType, target_user, target_profile, target_message,
  target_media, target_match, ReportStatus, report_open, report_in_review, CaseStatus, case_open,
  case_in_review, ActionKind, report_created, user_blocked, ReportReason, Report, ModerationCase,
  SafetyDb, CreateReportRequest, NormalizedReport, normalize_report_request, severity_for_reason,
  optional_string, reason_by_code, reason_applies,
}
use dating_app_backend.Safety.Blocks.{block_user_tx}
use dating_app_backend.Safety.Targets.{TargetSite, TargetSnapshot, validate_target}

pub data ReportSite : Type 0 where
  find_reason find_open find_case insert_case insert_report count_report : ReportSite
  add_report_action block add_block_action commit : ReportSite

-- The clock and the uuids that a call draws.
pub record ReportDrawn : Type 0 where
  pub now : ℕ
  pub case_uuid : ℕ
  pub report_uuid : ℕ

abbrev pub same_target : TargetType → TargetType → Bool
same_target target_user target_user = true
same_target target_profile target_profile = true
same_target target_message target_message = true
same_target target_media target_media = true
same_target target_match target_match = true
same_target _ _ = false

abbrev pub is_open_report : ReportStatus → Bool
is_open_report report_open = true
is_open_report report_in_review = true
is_open_report _ = false

abbrev pub is_open_case : CaseStatus → Bool
is_open_case case_open = true
is_open_case case_in_review = true
is_open_case _ = false

-- The conditions of `openReportTx`.
abbrev pub is_open_report_of : ℕ → TargetSnapshot → ℕ → Report → Bool
is_open_report_of reporter target reason r =
    r.reporter_user_id == reporter
    && (same_target r.target_type target.target_type
        && (r.target_uuid == target.target_uuid
            && (r.reason_id == reason && is_open_report r.status)))

-- `openReportTx`
abbrev pub open_report : ℕ → TargetSnapshot → ℕ → SafetyDb → Option Report
open_report reporter target reason db =
    find_first (is_open_report_of reporter target reason) db.reports

-- The conditions of `findOrCreateCaseTx`.
abbrev pub is_open_case_of : TargetSnapshot → ModerationCase → Bool
is_open_case_of target c =
    c.subject_user_id == target.reported_user_id
    && (same_target c.target_type target.target_type
        && (c.target_uuid == target.target_uuid && is_open_case c.status))

pub record CreateReportResponse : Type 0 where
  pub report_uuid : ℕ
  pub case_uuid : Option ℕ
  pub status : ReportStatus
  pub blocked : Bool

abbrev pub new_case : ℕ → ReportDrawn → TargetSnapshot → ModerationCase
new_case id drawn target = record {
  id = id;
  uuid = drawn.case_uuid;
  subject_user_id = target.reported_user_id;
  target_type = target.target_type;
  target_uuid = target.target_uuid;
  status = case_open;
  report_count = 0;
  opened_at = drawn.now;
  updated_at = drawn.now;
}

abbrev pub counted : ℕ → ModerationCase → ModerationCase
counted now c = record c { report_count = c.report_count + 1; updated_at = now }

-- `LEFT JOIN moderation_cases`
abbrev pub case_uuid_of : Option ModerationCase → Option ℕ
case_uuid_of none = none
case_uuid_of (some c) = some c.uuid

abbrev pub case_of_report : Report → SafetyDb → Option ℕ
case_of_report r db =
    case_uuid_of (find_first (λ (c : ModerationCase). c.id == r.moderation_case_id) db.cases)

module _ (faults : ReportSite → Bool) (drawn : ReportDrawn) (reporter : ℕ) (n : NormalizedReport)
    (target : TargetSnapshot) (reason : ℕ) where
  abbrev pub new_report : ℕ → ModerationCase → Report
  new_report id c = record {
    id = id;
    uuid = drawn.report_uuid;
    reporter_user_id = reporter;
    reported_user_id = target.reported_user_id;
    target_type = target.target_type;
    target_uuid = target.target_uuid;
    reason_id = reason;
    remark = n.remark;
    status = report_open;
    severity = severity_for_reason n.reason_code;
    moderation_case_id = c.id;
    created_at = drawn.now;
  }

  unfoldable pub use_case : Option ModerationCase → Handler SafetyError SafetyDb ModerationCase
  use_case (some c) db = done c db
  use_case none db =
      if faults insert_case
      then failed database db
      else (let c = new_case db.next_case drawn target in
          done c (record db { cases = c ∷ db.cases; next_case = db.next_case + 1 }))

  -- `findOrCreateCaseTx`
  unfoldable pub find_or_create_case : Handler SafetyError SafetyDb ModerationCase
  find_or_create_case = do
    found ←
        query (faults find_case) database
          (λ (db : SafetyDb). find_first (is_open_case_of target) db.cases)
    use_case found

  -- `insertReportTx`; the unique index on open reports refuses a second one.
  unfoldable pub insert_report_row : ModerationCase → Handler SafetyError SafetyDb Report
  insert_report_row c db =
      if faults insert_report || exists (is_open_report_of reporter target reason) db.reports
      then failed database db
      else (let r = new_report db.next_report c in
          done r (record db { reports = r ∷ db.reports; next_report = db.next_report + 1 }))

  -- `createModerationActionTx`
  abbrev pub add_moderation_action :
      Bool → ModerationCase → ActionKind → Handler SafetyError SafetyDb (Unit {0})
  add_moderation_action fails c kind = exec fails database (λ (db : SafetyDb). record db {
    moderation_actions =
        record {
          moderation_case_id = c.id;
          actor_user_id = reporter;
          target_user_id = target.reported_user_id;
          action_type = kind;
          reason = optional_string n.reason_code;
          created_at = drawn.now;
        }
        ∷ db.moderation_actions;
  })

  unfoldable pub block_for_report : ℕ → Handler SafetyError SafetyDb Bool
  block_for_report report =
      if n.block_user
      then block_user_tx (faults block) reporter target.reported_user_id n.reason_code n.remark
          report_flow (some report)
      else pure false

  unfoldable pub log_block : ModerationCase → Bool → Handler SafetyError SafetyDb (Unit {0})
  log_block c true = add_moderation_action (faults add_block_action) c user_blocked
  log_block c false = pure tt

  unfoldable pub close_report :
      ModerationCase → Report → Bool → Handler SafetyError SafetyDb CreateReportResponse
  close_report c r blocked =
      log_block c blocked
      >> pure (record {
        report_uuid = r.uuid;
        case_uuid = some c.uuid;
        status = report_open;
        blocked = blocked;
      })

  unfoldable pub finish_report :
      ModerationCase → Report → Handler SafetyError SafetyDb CreateReportResponse
  finish_report c r = block_for_report r.id >>= close_report c r

  -- What follows the insertion of a report.
  unfoldable pub after_report :
      ModerationCase → Report → Handler SafetyError SafetyDb CreateReportResponse
  after_report c r = do
    exec (faults count_report) database (λ (db : SafetyDb). record db {
      cases = update_where (λ x. x.id == c.id) (counted drawn.now) db.cases;
    })
    add_moderation_action (faults add_report_action) c report_created
    finish_report c r

  unfoldable pub report_again : Report → Handler SafetyError SafetyDb CreateReportResponse
  report_again r db =
      (block_for_report r.id >>= λ blocked. pure (record {
        report_uuid = r.uuid;
        case_uuid = case_of_report r db;
        status = r.status;
        blocked = blocked;
      }))
        db

  unfoldable pub report_in : ModerationCase → Handler SafetyError SafetyDb CreateReportResponse
  report_in c = insert_report_row c >>= after_report c

  unfoldable pub report_unless_open :
      Option Report → Handler SafetyError SafetyDb CreateReportResponse
  report_unless_open (some r) = report_again r
  report_unless_open none = find_or_create_case >>= report_in

  unfoldable pub report_tx : Handler SafetyError SafetyDb CreateReportResponse
  report_tx = do
    existing ← query (faults find_open) database (open_report reporter target reason)
    report_unless_open existing

module _ (parse_uuid : Text → Option ℕ) (faults : ReportSite → Bool) (targets : TargetSite → Bool)
    (drawn : ReportDrawn) (reporter : ℕ) where
  unfoldable pub report_target :
      NormalizedReport → ℕ → TargetSnapshot → Handler SafetyError SafetyDb CreateReportResponse
  report_target n reason target =
      if target.reported_user_id == reporter
      then throw validation
      else transaction (faults commit) database (report_tx faults drawn reporter n target reason)

  unfoldable pub report_for :
      NormalizedReport → Option ReportReason → Handler SafetyError SafetyDb CreateReportResponse
  report_for n none = throw validation
  report_for n (some reason) =
      if not reason.is_active || not (reason_applies reason n.target_type)
      then throw validation
      else validate_target targets reporter n.target_uuid n.target_type
        >>= report_target n reason.id

  -- `CreateReport`
  unfoldable pub create_report :
      CreateReportRequest → Handler SafetyError SafetyDb CreateReportResponse
  create_report req = do
    n ← lift (normalize_report_request parse_uuid req)
    reason ← query (faults find_reason) database (reason_by_code n.reason_code)
    report_for n reason
