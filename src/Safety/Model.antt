-- ===== src/Safety/Model.antt =====
-- internal/safety: constants and tables (model.go), errors (errors.go), and the normal forms of requests
-- (service.go). The evidence of a report, the metadata of an action and priorities are left out: they
-- are written and not read.
use dating_app_backend.Prelude.{
  ℕ, Bool, ◌||◌, Option, none, some, List, [], ◌∷◌, Text, codes, text_eq, is_empty, trim_space,
  to_upper, byte_len, if◌then◌else◌, ltb, or_else, exists, find_first, Result, ok, err,
}
use dating_app_backend.Store.{BlockSource, manual, report_flow, moderation, Db}

pub data SafetyError : Type 0 where
  validation not_found forbidden : SafetyError
  -- An error of the database.
  database : SafetyError

pub data TargetType : Type 0 where
  target_user target_profile target_message target_media target_match : TargetType

pub data ReportStatus : Type 0 where
  report_open report_in_review report_resolved report_dismissed : ReportStatus

pub data CaseStatus : Type 0 where
  case_open case_in_review case_action_taken case_dismissed case_closed : CaseStatus

pub data Severity : Type 0 where
  low medium high critical : Severity

pub data ActionKind : Type 0 where
  report_created user_blocked : ActionKind

pub record ReportReason : Type 0 where
  pub id : ℕ
  pub reason_code : Text
  pub applies_to : List Text
  pub is_active : Bool

pub record Report : Type 0 where
  pub id : ℕ
  pub uuid : ℕ
  pub reporter_user_id : ℕ
  pub reported_user_id : ℕ
  pub target_type : TargetType
  pub target_uuid : ℕ
  pub reason_id : ℕ
  pub remark : Option Text
  pub status : ReportStatus
  pub severity : Severity
  pub moderation_case_id : ℕ
  pub created_at : ℕ

pub record ModerationCase : Type 0 where
  pub id : ℕ
  pub uuid : ℕ
  pub subject_user_id : ℕ
  pub target_type : TargetType
  pub target_uuid : ℕ
  pub status : CaseStatus
  pub report_count : ℕ
  pub opened_at : ℕ
  pub updated_at : ℕ

pub record ModerationAction : Type 0 where
  pub moderation_case_id : ℕ
  pub actor_user_id : ℕ
  pub target_user_id : ℕ
  pub action_type : ActionKind
  pub reason : Option Text
  pub created_at : ℕ

pub record Impression : Type 0 where
  pub viewer_user_id : ℕ
  pub candidate_user_id : ℕ

pub record ProfileRow : Type 0 where
  pub uuid : ℕ
  pub user_id : ℕ

pub record MediaRow : Type 0 where
  pub uuid : ℕ
  pub user_id : ℕ
  pub deleted_at : Option ℕ

pub record SafetySettings : Type 0 where
  pub uuid : ℕ
  pub user_id : ℕ
  pub allow_message_requests : Bool
  pub auto_hide_blocked_users : Bool
  pub updated_at : ℕ

-- The tables of this package beside those that it shares; `next_` fields are sequences.
pub record SafetyDb : Type 0 where
  pub shared : Db
  pub impressions : List Impression
  pub profiles : List ProfileRow
  pub media : List MediaRow
  pub reasons : List ReportReason
  pub reports : List Report
  pub next_report : ℕ
  pub cases : List ModerationCase
  pub next_case : ℕ
  pub moderation_actions : List ModerationAction
  pub settings : List SafetySettings

abbrev pub target_text : TargetType → Text
target_text target_user = codes "USER"
target_text target_profile = codes "PROFILE"
target_text target_message = codes "MESSAGE"
target_text target_media = codes "MEDIA"
target_text target_match = codes "MATCH"

-- `validTargetType`; the value is the type that the text names.
unfoldable pub valid_target_type : Text → Option TargetType
valid_target_type value =
    if text_eq value (codes "USER")
    then some target_user
    else if text_eq value (codes "PROFILE")
    then some target_profile
    else if text_eq value (codes "MESSAGE")
    then some target_message
    else if text_eq value (codes "MEDIA")
    then some target_media
    else if text_eq value (codes "MATCH")
    then some target_match
    else none

abbrev pub is_one_of : Text → List Text → Bool
is_one_of value texts = exists (text_eq value) texts

-- `SeverityForReason`
unfoldable pub severity_for_reason : Text → Severity
severity_for_reason raw =
    let code = to_upper (trim_space raw) in
    if is_one_of code (codes "UNDERAGE" ∷ codes "VIOLENCE_OR_THREAT" ∷ [])
    then critical
    else if is_one_of code (
        codes "HATE_SPEECH"
        ∷ codes "HARASSMENT"
        ∷ codes "NUDITY_OR_SEXUAL_CONTENT"
        ∷ codes "IMPERSONATION"
        ∷ [])
    then high
    else if is_one_of code (codes "SCAM_OR_SPAM" ∷ codes "FAKE_PROFILE" ∷ codes "OTHER" ∷ [])
    then medium
    else low

-- `normalizeNote`
unfoldable pub normalize_note : Option Text → Result SafetyError (Option Text)
normalize_note none = ok none
normalize_note (some raw) =
    let trimmed = trim_space raw in
    if is_empty trimmed
    then ok none
    else if ltb 1000 (byte_len trimmed)
    then err validation
    else ok (some trimmed)

-- `optionalString`
unfoldable pub optional_string : Text → Option Text
optional_string raw = let value = trim_space raw in if is_empty value then none else some value

pub record CreateReportRequest : Type 0 where
  pub target_type : Text
  pub target_uuid : Text
  pub reason_code : Text
  pub remark : Option Text
  pub block_user : Bool

-- `normalizedReportRequest`
pub record NormalizedReport : Type 0 where
  pub target_type : TargetType
  pub target_uuid : ℕ
  pub reason_code : Text
  pub remark : Option Text
  pub block_user : Bool

abbrev pub with_note :
    TargetType
    → ℕ
    → Text
    → Bool
    → Result SafetyError (Option Text)
    → Result SafetyError NormalizedReport
with_note t uuid code block (err e) = err e
with_note t uuid code block (ok remark) = ok (record {
  target_type = t;
  target_uuid = uuid;
  reason_code = code;
  remark = remark;
  block_user = block;
})

abbrev pub with_target :
    Option TargetType → Option ℕ → CreateReportRequest → Result SafetyError NormalizedReport
with_target none uuid req = err validation
with_target (some t) none req = err validation
with_target (some t) (some uuid) req =
    let code = to_upper (trim_space req.reason_code) in
    if is_empty code
    then err validation
    else with_note t uuid code req.block_user (normalize_note req.remark)

-- `normalizeReportRequest`; `parse_uuid` is `uuid.Parse`.
unfoldable pub normalize_report_request :
    (Text → Option ℕ) → CreateReportRequest → Result SafetyError NormalizedReport
normalize_report_request parse_uuid req =
    with_target (valid_target_type (to_upper (trim_space req.target_type)))
      (parse_uuid (trim_space req.target_uuid)) req

pub record BlockUserRequest : Type 0 where
  pub reason_code : Option Text
  pub remark : Option Text

-- `normalizedBlockRequest`
pub record NormalizedBlock : Type 0 where
  pub reason_code : Text
  pub remark : Option Text
  pub source : BlockSource

-- The sources that `normalizeBlockRequest` accepts; an empty text is a manual block.
unfoldable pub valid_source : Text → Option BlockSource
valid_source value =
    if is_empty value || text_eq value (codes "MANUAL")
    then some manual
    else if text_eq value (codes "REPORT_FLOW")
    then some report_flow
    else if text_eq value (codes "MODERATION")
    then some moderation
    else none

abbrev pub block_with :
    Text
    → Result SafetyError (Option Text)
    → Option BlockSource
    → Result SafetyError NormalizedBlock
block_with code (err e) source = err e
block_with code (ok remark) none = err validation
block_with code (ok remark) (some source) =
    ok (record { reason_code = code; remark = remark; source = source })

-- `normalizeBlockRequest`
unfoldable pub normalize_block_request :
    BlockUserRequest → Text → Result SafetyError NormalizedBlock
normalize_block_request req source =
    block_with (to_upper (trim_space (or_else req.reason_code []))) (normalize_note req.remark)
      (valid_source (to_upper (trim_space source)))

-- `reasonByCode`
abbrev pub reason_by_code : Text → SafetyDb → Option ReportReason
reason_by_code code db = find_first (λ (r : ReportReason). text_eq r.reason_code code) db.reasons

-- `reasonApplies`
abbrev pub reason_applies : ReportReason → TargetType → Bool
reason_applies r t = is_one_of (target_text t) r.applies_to
