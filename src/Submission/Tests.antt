-- ===== src/Submission/Tests.antt =====
-- One request for data.
use project_main.Prelude.{ℕ, refl, String, true, Option, none, some, List, [], ◌∷◌, value_or}
use project_main.Prelude.Dict.{Dict}
use project_main.Submission.{
  DataRequest, SubmissionDb, in_progress, submitted, allowed, same_status, find_request,
  write_transition, transition_submission, follow_up, submission_guard, update_submission_status,
}
use project_main.Submission.History.{Transitioned, update-Transitioned}

abbrev in_work : DataRequest
in_work = record {
  request_id = 1;
  target_supplier_id = 4;
  submission_status = in_progress;
  batch_id = none;
  response_pending = true;
  due_date = 50;
  reminder_count = none;
  last_reminder_at = none;
}

abbrev one_request : SubmissionDb
one_request = record {
  requests = in_work ∷ [];
  history = [];
  users = 8 ∷ [];
  processed_jobs = [];
  events = [];
  notifications = [];
}

abbrev all_complete : ℕ → Option ℕ
all_complete s = some 100

abbrev given_batch : Option ℕ
given_batch = some 3

abbrev files : List String
files = "a.pdf" ∷ []

abbrev no_fields : Dict String String
no_fields = []

abbrev sent : DataRequest × SubmissionDb
sent =
    value_or
      (update_submission_status all_complete one_request 1 submitted 8 none (some 3) ("a.pdf" ∷ [])
        [])
      (in_work, one_request)

update-Transitioned_example : Transitioned one_request 1 submitted 8 none sent
unfolding update_submission_status submission_guard find_request transition_submission allowed
    same_status write_transition follow_up
update-Transitioned_example =
    update-Transitioned all_complete one_request 1 8 submitted none (some 3) ("a.pdf" ∷ []) [] sent
      refl
