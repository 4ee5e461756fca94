-- ===== src/Report.antt =====
-- backend/domains/report (state_machine.py, service.py, repository.py): a report goes through the
-- approvers of its line one after another.
pub mod Approval
mod Tests
use project_main.Prelude.{
  ℕ, suc, ◌+◌, ◌-◌, String, Bool, true, false, not, ◌&&◌, Option, none, some, List, [], ◌∷◌, ◌++◌,
  ◌==◌, str_eq, leb, if◌then◌else◌, or_else, Result, ok, err, value_error, ◌>>=◌, ◌>>◌, raise_if,
  find, keep, length, null, update_where,
}

pub data ReportStatus : Type 0 where
  draft approval_pending fully_approved returned : ReportStatus

pub data StepStatus : Type 0 where
  pending approved rejected : StepStatus

pub record Report : Type 0 where
  pub report_id : ℕ
  pub requester_id : ℕ
  pub title : String
  pub description : Option String
  pub key_points : List String
  pub status : ReportStatus
  pub current_step : ℕ
  pub submitted_at : Option ℕ
  pub updated_at : ℕ

pub record ReportApprovalStep : Type 0 where
  pub report_id : ℕ
  pub step_number : ℕ
  pub approver_id : ℕ
  pub status : StepStatus
  pub decision_text : Option String
  pub decided_at : Option ℕ

-- The payloads that the service publishes.
pub data ReportEvent : Type 0 where
  submitted : ℕ → ℕ → Option ℕ → ReportEvent
  stage_approved : ℕ → ℕ → ℕ → Option ℕ → ReportEvent
  all_approved : ℕ → ReportEvent
  sent_back : ℕ → ℕ → ℕ → String → ReportEvent

pub record ReportDb : Type 0 where
  pub reports : List Report
  pub steps : List ReportApprovalStep
  pub events : List ReportEvent
  pub next_id : ℕ

abbrev pub is_draft : ReportStatus → Bool
is_draft draft = true
is_draft _ = false

abbrev pub is_approval_pending : ReportStatus → Bool
is_approval_pending approval_pending = true
is_approval_pending _ = false

abbrev pub is_pending : StepStatus → Bool
is_pending pending = true
is_pending _ = false

abbrev pub approve_text : Option String → String
approve_text comment = or_else comment ""

-- `ReportStateMachine.submit`
unfoldable pub submit_report : Report → ℕ → Result Report
submit_report report now = do
  raise_if (not (is_draft report.status)) value_error
  ok (record report { status = approval_pending; current_step = 1; updated_at = now })

-- `ReportStateMachine.approve_step`
unfoldable pub approve_step :
    ReportApprovalStep → Report → String → Bool → ℕ → Result (ReportApprovalStep × Report)
approve_step step report decision_text is_last_step now = do
  raise_if (not (is_approval_pending report.status)) value_error
  raise_if (not (is_pending step.status)) value_error
  ok (
    record step { status = approved; decision_text = some decision_text; decided_at = some now },
    if is_last_step
        then record report { status = fully_approved; updated_at = now }
        else record report { current_step = suc report.current_step; updated_at = now },
  )

-- `ReportStateMachine.reject_step`
unfoldable pub reject_step :
    ReportApprovalStep → Report → String → ℕ → Result (ReportApprovalStep × Report)
reject_step step report decision_text now = do
  raise_if (not (is_approval_pending report.status)) value_error
  raise_if (not (is_pending step.status)) value_error
  ok (
    record step { status = rejected; decision_text = some decision_text; decided_at = some now },
    record report { status = returned; updated_at = now },
  )

unfoldable pub get_report : ReportDb → ℕ → Option Report
get_report db id = find (λ (r : Report). id == r.report_id) db.reports

abbrev pub of_report : ℕ → ReportApprovalStep → Bool
of_report id s = id == s.report_id

abbrev pub is_step : ℕ → ℕ → ReportApprovalStep → Bool
is_step id n s = id == s.report_id && n == s.step_number

unfoldable pub get_steps : ReportDb → ℕ → List ReportApprovalStep
get_steps db id = keep (of_report id) db.steps

unfoldable pub get_current_step : ReportDb → ℕ → ℕ → Option ReportApprovalStep
get_current_step db id n = find (is_step id n) db.steps

abbrev pub or_raise {ℓ} : {A : Type ℓ} → Option A → Result A
or_raise none = err value_error
or_raise (some a) = ok a

abbrev pub approver_of : Option ReportApprovalStep → Option ℕ
approver_of none = none
approver_of (some s) = some s.approver_id

-- The rows as the session writes them.
unfoldable pub write : ReportDb → ReportApprovalStep → Report → ReportDb
write db step report = record db {
  reports = update_where (λ (r : Report). report.report_id == r.report_id) (λ _. report) db.reports;
  steps = update_where (is_step step.report_id step.step_number) (λ _. step) db.steps;
}

-- `submit`; `now` is the clock's reading.
unfoldable pub submit : ReportDb → ℕ → ℕ → Result (Report × ReportDb)
submit db id now = do
  found ← or_raise (get_report db id)
  report ← submit_report found now
  let stamped = record report { submitted_at = some now } in
      let step = get_current_step db id stamped.current_step in
      ok (
        stamped,
        record db {
          reports = update_where (λ (r : Report). id == r.report_id) (λ _. stamped) db.reports;
          events = db.events ++ submitted id stamped.current_step (approver_of step) ∷ [];
        },
      )

-- The event after an approval.
unfoldable pub approval_event : ReportDb → Report → Bool → ReportEvent
approval_event db report is_last =
    if is_last
    then all_approved report.report_id
    else stage_approved report.report_id (report.current_step - 1) report.current_step
        (approver_of (get_current_step db report.report_id report.current_step))

-- `approve`
unfoldable pub approve : ReportDb → ℕ → ℕ → Option String → ℕ → Result (Report × ReportDb)
approve db id actor_id comment now = do
  found ← or_raise (get_report db id)
  current ← or_raise (get_current_step db id found.current_step)
  raise_if (not (current.approver_id == actor_id)) value_error
  let is_last = leb (length (get_steps db id)) found.current_step in
      do
        (step, report) ← approve_step current found (approve_text comment) is_last now
        let db' = write db step report in
            ok
              (report, record db' { events = db'.events ++ approval_event db' report is_last ∷ [] })

-- `reject`
unfoldable pub reject : ReportDb → ℕ → ℕ → String → ℕ → Result (Report × ReportDb)
reject db id actor_id comment now = do
  found ← or_raise (get_report db id)
  current ← or_raise (get_current_step db id found.current_step)
  raise_if (not (current.approver_id == actor_id)) value_error
  (step, report) ← reject_step current found comment now
  let db' = write db step report in
      ok (
        report,
        record db' {
          events =
              db'.events
              ++ sent_back report.report_id step.step_number report.requester_id comment ∷ [];
        },
      )

-- The steps of a new report, in the approvers' order.
unfoldable pub steps_from : ℕ → ℕ → List ℕ → List ReportApprovalStep
steps_from id n [] = []
steps_from id n (a ∷ rest) =
    record {
      report_id = id;
      step_number = n;
      approver_id = a;
      status = pending;
      decision_text = none;
      decided_at = none;
    }
    ∷ steps_from id (suc n) rest

-- `if not summary and tenant_id is not None`: the summary is built, with its key points. `built`
-- stands for build_risk_summary.
unfoldable pub summary_for :
    (ℕ → String × List String) → Option String → Option ℕ → Option String × List String
summary_for built summary tenant_id =
    if str_eq (or_else summary "") ""
    then elim tenant_id [
      | none ↦ (summary, [])
      | some tenant ↦ (some (built tenant).0, (built tenant).1)
    ]
    else (summary, [])

-- `create_report`
unfoldable pub create_report :
    (ℕ → String × List String)
    → ReportDb
    → ℕ
    → Option ℕ
    → String
    → Option String
    → List ℕ
    → ℕ
    → Result (Report × ReportDb)
create_report built db requester_id tenant_id title summary approver_ids now = do
  raise_if (null approver_ids) value_error
  let (description, key_points) = summary_for built summary tenant_id in
      let report : Report = record {
        report_id = db.next_id;
        requester_id = requester_id;
        title = title;
        description = description;
        key_points = key_points;
        status = draft;
        current_step = 1;
        submitted_at = none;
        updated_at = now;
      } in
      ok (
        report,
        record db {
          reports = db.reports ++ report ∷ [];
          steps = db.steps ++ steps_from db.next_id 1 approver_ids;
          next_id = suc db.next_id;
        },
      )
