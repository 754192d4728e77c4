-- ===== src/Safety/Counted.antt =====
-- internal/safety/service.go: `CreateReport` and the report counts of moderation cases.
use dating_app_backend.Prelude.{
  ℕ, ◌+◌, ◌≡◌, refl, sym, subst, inl, inr, Bool, true, false, not, ◌||◌, Option, none, some, ◌∷◌,
  Text, ltb, ◌==◌, exists, update_where, Outcome, done, failed, pure, store_of, Leaves, Leaves-bind,
  ◌>>=◌, transaction-Leaves, Bool-cases, Result-cases, ==_refl,
}
use dating_app_backend.Safety.Model.{
  SafetyError, database, Report, ModerationCase, SafetyDb, CreateReportRequest, NormalizedReport,
  ReportReason, report_created, optional_string, normalize_report_request, reason_by_code,
  reason_applies,
}
use dating_app_backend.Safety.Blocks.{block_user_tx}
use dating_app_backend.Safety.Targets.{TargetSite, TargetSnapshot, validate_target}
use dating_app_backend.Safety.Reads.{validate_target-store}
use dating_app_backend.Safety.Reports.{
  ReportSite, find_open, find_reason, insert_report, count_report, add_report_action, block,
  add_block_action, commit, ReportDrawn, CreateReportResponse, is_open_report_of, open_report,
  case_of_report, counted, new_report, find_or_create_case, insert_report_row, block_for_report,
  log_block, close_report, finish_report, after_report, report_again, report_in, report_unless_open,
  report_tx, report_target, report_for, create_report,
}
use dating_app_backend.Safety.Counts.{
  SafetyIsCounted, reported-CountsAgree, CaseIsBelow, find_or_create_case-CaseIsBelow,
}

-- The tables of reports and cases are those of `db`.
abbrev pub SameCases : SafetyDb → SafetyDb → Type 0
SameCases db x = (x.reports ≡ db.reports) × (x.next_case ≡ db.next_case) × (x.cases ≡ db.cases)

module _ (faults : ReportSite → Bool) (drawn : ReportDrawn) (reporter : ℕ) (n : NormalizedReport)
    (target : TargetSnapshot) (reason : ℕ) where
  block_for_report-SameCases :
      (report : ℕ) (db db0 : SafetyDb)
      → SameCases db0 db
      → Leaves (SameCases db0) (block_for_report faults drawn reporter n target reason report db)
  unfolding block_for_report block_user_tx
  block_for_report-SameCases report db db0 h = elim (Bool-cases n.block_user) [
    | inr b ↦ rw (block_for_report, b) h
    | inl b ↦ elim (Bool-cases (reporter == target.reported_user_id)) [
      | inl s ↦ rw (block_for_report, block_user_tx, b, s) h
      | inr s ↦ elim (Bool-cases (faults block)) [
        | inl f ↦ rw (block_for_report, block_user_tx, b, s, f, ◌>>=◌) h
        | inr f ↦ rw (block_for_report, block_user_tx, b, s, f, ◌>>=◌) h
      ]
    ]
  ]

  close_report-SameCases :
      (c : ModerationCase) (r : Report) (blocked : Bool) (db db0 : SafetyDb)
      → SameCases db0 db
      → Leaves (SameCases db0) (close_report faults drawn reporter n target reason c r blocked db)
  unfolding close_report log_block
  close_report-SameCases c r false db db0 h = h
  close_report-SameCases c r true db db0 h = elim (Bool-cases (faults add_block_action)) [
    | inl f ↦ rw (close_report, log_block, f, ◌>>=◌) h
    | inr f ↦ rw (close_report, log_block, f, ◌>>=◌) h
  ]

  finish_report-SameCases :
      (c : ModerationCase) (r : Report) (db : SafetyDb)
      → Leaves (SameCases db) (finish_report faults drawn reporter n target reason c r db)
  unfolding finish_report
  finish_report-SameCases c r db =
      Leaves-bind (SameCases db) (block_for_report faults drawn reporter n target reason r.id)
        (close_report faults drawn reporter n target reason c r) db
        (block_for_report-SameCases r.id db db (refl, refl, refl))
        (λ blocked s h. close_report-SameCases c r blocked s db h)

  SameCases-SafetyIsCounted :
      (db x : SafetyDb) → SameCases db x → SafetyIsCounted db → SafetyIsCounted x
  SameCases-SafetyIsCounted db x e h = rw (e.0, e.1, e.2) h

  abbrev OnDone : Outcome SafetyError SafetyDb CreateReportResponse → Type 0
  OnDone (done a db) = SafetyIsCounted db
  OnDone (failed e db) = Unit

  Leaves-OnDone :
      (db : SafetyDb) (o : Outcome SafetyError SafetyDb CreateReportResponse)
      → SafetyIsCounted db
      → Leaves (SameCases db) o
      → OnDone o
  Leaves-OnDone db (done a x) h e = SameCases-SafetyIsCounted db x e h
  Leaves-OnDone db (failed e x) h q = tt

  abbrev counted_db : ModerationCase → SafetyDb → SafetyDb
  counted_db c db = record db {
    cases = update_where (λ (x : ModerationCase). x.id == c.id) (counted drawn.now) db.cases;
  }

  abbrev logged_db : ModerationCase → SafetyDb → SafetyDb
  logged_db c db = record (counted_db c db) {
    moderation_actions =
        record {
          moderation_case_id = c.id;
          actor_user_id = reporter;
          target_user_id = target.reported_user_id;
          action_type = report_created;
          reason = optional_string n.reason_code;
          created_at = drawn.now;
        }
        ∷ db.moderation_actions;
  }

  after_report-OnDone :
      (c : ModerationCase) (r : Report) (db : SafetyDb)
      → SafetyIsCounted (counted_db c db)
      → OnDone (after_report faults drawn reporter n target reason c r db)
  unfolding after_report
  after_report-OnDone c r db h = elim (Bool-cases (faults count_report)) [
    | inl f ↦ rw (after_report, f) tt
    | inr f ↦ elim (Bool-cases (faults add_report_action)) [
      | inl g ↦ rw (after_report, f, g, ◌>>=◌) tt
      | inr g ↦
          rw (after_report, f, g, ◌>>=◌)
            (Leaves-OnDone (logged_db c db)
              (finish_report faults drawn reporter n target reason c r (logged_db c db)) h
              (finish_report-SameCases c r (logged_db c db)))
    ]
  ]

  abbrev inserted_db : ModerationCase → SafetyDb → SafetyDb
  inserted_db c db = record db {
    reports = new_report faults drawn reporter n target reason db.next_report c ∷ db.reports;
    next_report = db.next_report + 1;
  }

  report_in-OnDone :
      (c : ModerationCase) (db : SafetyDb)
      → SafetyIsCounted db
      → ltb c.id db.next_case ≡ true
      → OnDone (report_in faults drawn reporter n target reason c db)
  unfolding report_in insert_report_row
  report_in-OnDone c db h b =
      elim (Bool-cases
        (faults insert_report || exists (is_open_report_of reporter target reason) db.reports)) [
          | inl f ↦ rw (report_in, insert_report_row, f, ◌>>=◌) tt
          | inr f ↦
              let r = new_report faults drawn reporter n target reason db.next_report c in
              rw (report_in, insert_report_row, f, ◌>>=◌)
                (after_report-OnDone c r (inserted_db c db) (
                  reported-CountsAgree c.id drawn.now db.next_case r db.reports db.cases
                    (==_refl c.id) b h))
        ]

  report_again-OnDone :
      (r : Report) (db : SafetyDb)
      → SafetyIsCounted db
      → OnDone (report_again faults drawn reporter n target reason r db)
  unfolding report_again
  report_again-OnDone r db h =
      Leaves-OnDone db (report_again faults drawn reporter n target reason r db) h (
        Leaves-bind (SameCases db) (block_for_report faults drawn reporter n target reason r.id)
          (λ blocked. pure (record {
            report_uuid = r.uuid;
            case_uuid = case_of_report r db;
            status = r.status;
            blocked = blocked;
          }))
          db (block_for_report-SameCases r.id db db (refl, refl, refl)) (λ blocked s k. k))

  case_report-OnDone :
      (o : Outcome SafetyError SafetyDb ModerationCase)
      → CaseIsBelow faults drawn reporter n target reason o
      → OnDone (elim o [
        | done c s ↦ report_in faults drawn reporter n target reason c s
        | failed e s ↦ failed e s
      ])
  case_report-OnDone (done c s) h = report_in-OnDone c s h.0 h.1
  case_report-OnDone (failed e s) h = tt

  report_unless_open-OnDone :
      (o : Option Report) (db : SafetyDb)
      → SafetyIsCounted db
      → OnDone (report_unless_open faults drawn reporter n target reason o db)
  unfolding report_unless_open
  report_unless_open-OnDone (some r) db h = report_again-OnDone r db h
  report_unless_open-OnDone none db h =
      case_report-OnDone (find_or_create_case faults drawn reporter n target reason db)
        (find_or_create_case-CaseIsBelow faults drawn reporter n target reason db h)

  pub report_tx-SafetyIsCounted :
      (db : SafetyDb) (a : CreateReportResponse) (db' : SafetyDb)
      → SafetyIsCounted db
      → report_tx faults drawn reporter n target reason db ≡ done a db'
      → SafetyIsCounted db'
  unfolding report_tx
  report_tx-SafetyIsCounted db a db' h e = elim (Bool-cases (faults find_open)) [
    | inl f ↦ (let k = rw (report_tx, f) at e in cc)
    | inr f ↦
        subst OnDone (rw (report_tx, f) at e)
          (report_unless_open-OnDone (open_report reporter target reason db) db h)
  ]

module _ (parse_uuid : Text → Option ℕ) (faults : ReportSite → Bool) (targets : TargetSite → Bool)
    (drawn : ReportDrawn) (reporter : ℕ) where
  report_target-SafetyIsCounted :
      (n : NormalizedReport) (reason : ℕ) (target : TargetSnapshot) (db : SafetyDb)
      → SafetyIsCounted db
      → Leaves SafetyIsCounted
          (report_target parse_uuid faults targets drawn reporter n reason target db)
  unfolding report_target
  report_target-SafetyIsCounted n reason target db h =
      elim (Bool-cases (target.reported_user_id == reporter)) [
        | inl s ↦ rw (report_target, s) h
        | inr s ↦
            rw (report_target, s)
              (transaction-Leaves SafetyIsCounted (faults commit) database
                (report_tx faults drawn reporter n target reason) db h
                (λ a db' e.
                  report_tx-SafetyIsCounted faults drawn reporter n target reason db a db' h e))
      ]

  report_for-SafetyIsCounted :
      (n : NormalizedReport) (o : Option ReportReason) (db : SafetyDb)
      → SafetyIsCounted db
      → Leaves SafetyIsCounted (report_for parse_uuid faults targets drawn reporter n o db)
  unfolding report_for
  report_for-SafetyIsCounted n none db h = h
  report_for-SafetyIsCounted n (some reason) db h =
      elim (Bool-cases (not reason.is_active || not (reason_applies reason n.target_type))) [
        | inl b ↦ rw (report_for, b) h
        | inr b ↦
            rw (report_for, b)
              (Leaves-bind SafetyIsCounted
                (validate_target targets reporter n.target_uuid n.target_type)
                (report_target parse_uuid faults targets drawn reporter n reason.id) db
                (subst SafetyIsCounted
                  (sym (validate_target-store targets reporter n.target_uuid db n.target_type)) h)
                (λ target s k. report_target-SafetyIsCounted n reason.id target s k))
      ]

  -- If the count of every moderation case is the number of the reports that point to it, and no id is
  -- ahead of the sequence of cases, both still hold after a call of `CreateReport`, however it
  -- ends.
  pub create_report-SafetyIsCounted :
      (req : CreateReportRequest) (db : SafetyDb)
      → SafetyIsCounted db
      → SafetyIsCounted (store_of (create_report parse_uuid faults targets drawn reporter req db))
  unfolding create_report
  create_report-SafetyIsCounted req db h =
      elim (Result-cases (normalize_report_request parse_uuid req)) [
        | inr (e, q) ↦ rw (create_report, q, ◌>>=◌) h
        | inl (n, q) ↦ elim (Bool-cases (faults find_reason)) [
          | inl f ↦ rw (create_report, q, f, ◌>>=◌) h
          | inr f ↦
              rw (create_report, q, f, ◌>>=◌)
                (report_for-SafetyIsCounted n (reason_by_code n.reason_code db) db h)
        ]
      ]
