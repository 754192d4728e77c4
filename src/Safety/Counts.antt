-- ===== src/Safety/Counts.antt =====
-- internal/safety/service.go: the report counts of moderation cases.
use dating_app_backend.Prelude.{
  ℕ, ◌+◌, ◌≡◌, refl, sym, inl, inr, Bool, true, false, Option, none, some, List, [], ◌∷◌,
  if◌then◌else◌, ltb, ◌==◌, length, select, find_first, update_where, patch, All, All-map,
  All-find_first, Outcome, done, failed, Bool-cases, arith,
}
use dating_app_backend.Safety.Model.{
  SafetyError, Report, ModerationCase, SafetyDb, NormalizedReport,
}
use dating_app_backend.Safety.Targets.{TargetSnapshot}
use dating_app_backend.Safety.Reports.{
  ReportSite, find_case, insert_case, ReportDrawn, is_open_case_of, new_case, counted, use_case,
  find_or_create_case,
}

abbrev pub is_report_in : ℕ → Report → Bool
is_report_in c r = r.moderation_case_id == c

-- The count of a case is the number of its reports, and no case or report is ahead of the sequence.
pub record CountsAgree (reports : List Report) (next : ℕ) (cases : List ModerationCase)
    : Type 0 where
  pub counts : All (λ c. c.report_count ≡ length (select (is_report_in c.id) reports)) cases
  pub cases_below : All (λ c. ltb c.id next ≡ true) cases
  pub reports_below : All (λ r. ltb r.moderation_case_id next ≡ true) reports

abbrev pub SafetyIsCounted : SafetyDb → Type 0
SafetyIsCounted db = CountsAgree db.reports db.next_case db.cases

none_in :
    (next : ℕ) (reports : List Report)
    → All (λ r. ltb r.moderation_case_id next ≡ true) reports
    → length (select (is_report_in next) reports) ≡ 0
none_in next [] h = refl
none_in next (r ∷ reports) h = ground (arith, h.0, none_in next reports h.1)

ltb_suc : (a n : ℕ) → ltb a n ≡ true → ltb a (n + 1) ≡ true
ltb_suc a n h = ground arith

-- A new case with no report.
added-CountsAgree :
    (reports : List Report) (next : ℕ) (cases : List ModerationCase) (drawn : ReportDrawn)
    (target : TargetSnapshot)
    → CountsAgree reports next cases
    → CountsAgree reports (next + 1) (new_case next drawn target ∷ cases)
added-CountsAgree reports next cases drawn target h = record {
  counts = (sym (none_in next reports h.reports_below), h.counts);
  cases_below = (ground arith, All-map cases (λ c b. ltb_suc c.id next b) h.cases_below);
  reports_below = All-map reports (λ r b. ltb_suc r.moderation_case_id next b) h.reports_below;
}

abbrev HasCount : List Report → ModerationCase → Type 0
HasCount reports x = x.report_count ≡ length (select (is_report_in x.id) reports)

counted_case :
    (c now : ℕ) (r : Report) (reports : List Report) (x : ModerationCase)
    → (r.moderation_case_id == c) ≡ true
    → HasCount reports x
    → HasCount (r ∷ reports) (patch (λ (y : ModerationCase). y.id == c) (counted now) x)
counted_case c now r reports x e h = go (x.id == c) refl
  where
    go : (b : Bool) → (x.id == c) ≡ b → HasCount (r ∷ reports) (if b then counted now x else x)
    go true q =
        let same : (r.moderation_case_id == x.id) ≡ true = ground arith in
        rw same (omega (arith, h))
    go false q = let other : (r.moderation_case_id == x.id) ≡ false = ground arith in rw other h

counted_cases :
    (c now : ℕ) (r : Report) (reports : List Report) (cases : List ModerationCase)
    → (r.moderation_case_id == c) ≡ true
    → All (λ x. x.report_count ≡ length (select (is_report_in x.id) reports)) cases
    → All
        (λ x. x.report_count ≡ length (select (is_report_in x.id) (r ∷ reports)))
        (update_where (λ (y : ModerationCase). y.id == c) (counted now) cases)
counted_cases c now r reports [] e h = tt
counted_cases c now r reports (x ∷ cases) e h =
    (counted_case c now r reports x e h.0, counted_cases c now r reports cases e h.1)

counted_below :
    (c now next : ℕ) (cases : List ModerationCase)
    → All (λ x. ltb x.id next ≡ true) cases
    → All
        (λ x. ltb x.id next ≡ true)
        (update_where (λ (y : ModerationCase). y.id == c) (counted now) cases)
counted_below c now next [] h = tt
counted_below c now next (x ∷ cases) h = (
  elim (Bool-cases (x.id == c)) [ inl b ↦ rw b h.0 | inr b ↦ rw b h.0 ],
  counted_below c now next cases h.1,
)

-- A report that is added and counted in its case.
pub reported-CountsAgree :
    (c now next : ℕ) (r : Report) (reports : List Report) (cases : List ModerationCase)
    → (r.moderation_case_id == c) ≡ true
    → ltb c next ≡ true
    → CountsAgree reports next cases
    → CountsAgree
        (r ∷ reports)
        next
        (update_where (λ (y : ModerationCase). y.id == c) (counted now) cases)
reported-CountsAgree c now next r reports cases e b h = record {
  counts = counted_cases c now r reports cases e h.counts;
  cases_below = counted_below c now next cases h.cases_below;
  reports_below = (ground arith, h.reports_below);
}

-- The case that is found or made has an id below the sequence.
module _ (faults : ReportSite → Bool) (drawn : ReportDrawn) (reporter : ℕ) (n : NormalizedReport)
    (target : TargetSnapshot) (reason : ℕ) where
  abbrev pub CaseIsBelow : Outcome SafetyError SafetyDb ModerationCase → Type 0
  CaseIsBelow (done c db) = SafetyIsCounted db × (ltb c.id db.next_case ≡ true)
  CaseIsBelow (failed e db) = Unit

  use_case-CaseIsBelow :
      (found : Option ModerationCase) (db : SafetyDb)
      → find_first (is_open_case_of target) db.cases ≡ found
      → SafetyIsCounted db
      → CaseIsBelow (use_case faults drawn reporter n target reason found db)
  unfolding use_case
  use_case-CaseIsBelow (some c) db f h = (
    h,
    All-find_first (λ (x : ModerationCase). ltb x.id db.next_case ≡ true) (is_open_case_of target)
        db.cases c h.cases_below f,
  )
  use_case-CaseIsBelow none db f h = elim (Bool-cases (faults insert_case)) [
    | inl b ↦ rw (use_case, b) tt
    | inr b ↦
        rw (use_case, b)
          (added-CountsAgree db.reports db.next_case db.cases drawn target h, ground arith)
  ]

  pub find_or_create_case-CaseIsBelow :
      (db : SafetyDb)
      → SafetyIsCounted db
      → CaseIsBelow (find_or_create_case faults drawn reporter n target reason db)
  unfolding find_or_create_case
  find_or_create_case-CaseIsBelow db h = elim (Bool-cases (faults find_case)) [
    | inl b ↦ rw (find_or_create_case, b) tt
    | inr b ↦
        rw (find_or_create_case, b)
          (use_case-CaseIsBelow (find_first (is_open_case_of target) db.cases) db refl h)
  ]
