-- ===== src/Report/Tests.antt =====
-- A report with two approvers.
use project_main.Prelude.{ℕ, refl, none, some, [], ◌∷◌, value_or, arith}
use project_main.Report.{
  Report, ReportApprovalStep, ReportDb, approval_pending, pending, approve_step, get_report,
  get_steps, get_current_step, write, approval_event, approve,
}
use project_main.Report.Approval.{Sound, approve-Sound}

abbrev waiting : Report
waiting = record {
  report_id = 1;
  requester_id = 9;
  title = "Batch 7";
  description = none;
  key_points = [];
  status = approval_pending;
  current_step = 1;
  submitted_at = some 3;
  updated_at = 3;
}

abbrev step : ℕ → ℕ → ReportApprovalStep
step number approver = record {
  report_id = 1;
  step_number = number;
  approver_id = approver;
  status = pending;
  decision_text = none;
  decided_at = none;
}

abbrev one_report : ReportDb
one_report = record {
  reports = waiting ∷ [];
  steps = step 1 20 ∷ step 2 21 ∷ [];
  events = [];
  next_id = 2;
}

abbrev approved_once : Report × ReportDb
approved_once = value_or (approve one_report 1 20 none 5) (waiting, one_report)

approve-Sound_example : Sound approved_once.1 approved_once.0
unfolding approve get_report get_current_step get_steps approve_step write approval_event
approve-Sound_example =
    approve-Sound one_report 1 20 5 none waiting approved_once refl
      ((omega arith, refl), ((omega arith, refl), tt)) refl
