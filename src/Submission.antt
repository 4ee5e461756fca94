-- ===== src/Submission.antt =====
-- backend/domains/submission (models.py, state_machine.py, service.py): the requests for data that
-- go to suppliers, and the states of what the suppliers submit.
pub mod History
mod Tests
use project_main.Prelude.{
  ℕ, suc, ◌+◌, String, Bool, true, false, not, ◌&&◌, ◌||◌, Option, none, some, List, [], ◌∷◌, ◌++◌,
  ◌==◌, ltb, str_eq, if◌then◌else◌, or_else, Result, ok, err, value_error, ◌>>=◌, ◌>>◌, raise_if,
  find, any, map, null, length, keep, update_where,
}
use project_main.Prelude.Dict.{Dict}

pub data SubmissionStatus : Type 0 where
  requested in_progress submitted review approved rework rejected : SubmissionStatus

abbrev pub status_index : SubmissionStatus → ℕ
status_index requested = 0
status_index in_progress = 1
status_index submitted = 2
status_index review = 3
status_index approved = 4
status_index rework = 5
status_index rejected = 6

-- SUBMISSION_TRANSITIONS
abbrev pub transitions : SubmissionStatus → List SubmissionStatus
transitions requested = in_progress ∷ []
transitions in_progress = submitted ∷ []
transitions submitted = review ∷ []
transitions review = approved ∷ rework ∷ rejected ∷ []
transitions rework = in_progress ∷ []
transitions approved = []
transitions rejected = []

unfoldable pub same_status : SubmissionStatus → SubmissionStatus → Bool
same_status a b = status_index a == status_index b

-- `to_status in allowed_transitions`
unfoldable pub allowed : SubmissionStatus → SubmissionStatus → Bool
allowed from to = any (same_status to) (transitions from)

-- A row of data_request_log.
pub record DataRequest : Type 0 where
  pub request_id : ℕ
  pub target_supplier_id : ℕ
  pub submission_status : SubmissionStatus
  pub batch_id : Option ℕ
  pub response_pending : Bool
  pub due_date : ℕ
  pub reminder_count : Option ℕ
  pub last_reminder_at : Option ℕ

-- A row of submission_status_history.
pub record StatusHistory : Type 0 where
  pub request_id : ℕ
  pub from_status : SubmissionStatus
  pub to_status : SubmissionStatus
  pub actor_id : ℕ
  pub reason : Option String

-- What the service publishes, each with the request that it is about.
pub data SubmissionEvent : Type 0 where
  status_changed : ℕ → SubmissionStatus → SubmissionStatus → SubmissionEvent
  submission_started : ℕ → ℕ → SubmissionEvent
  submission_completed : ℕ → Option ℕ → Bool → List String → Dict String String → SubmissionEvent
  submission_approved : ℕ → Option ℕ → SubmissionEvent
  submission_rejected : ℕ → Option String → SubmissionEvent

-- A job on NOTIFICATION_QUEUE: the user and the request.
pub record Reminder : Type 0 where
  pub user_id : ℕ
  pub request_id : ℕ

pub record SubmissionDb : Type 0 where
  pub requests : List DataRequest
  pub history : List StatusHistory
  pub users : List ℕ
  -- requests whose approval has a row in processed_jobs
  pub processed_jobs : List ℕ
  pub events : List SubmissionEvent
  pub notifications : List Reminder

abbrev pub is_request : ℕ → DataRequest → Bool
is_request id r = id == r.request_id

abbrev pub is_rejected : SubmissionStatus → Bool
is_rejected rejected = true
is_rejected _ = false

abbrev pub is_submitted : SubmissionStatus → Bool
is_submitted submitted = true
is_submitted _ = false

-- `not reason`: missing or empty
abbrev pub no_text : Option String → Bool
no_text none = true
no_text (some t) = str_eq t ""

abbrev pub moved : DataRequest → SubmissionStatus → Option ℕ → DataRequest
moved r to (some b) = record r {
  submission_status = to;
  batch_id = if is_submitted to then some b else r.batch_id;
}
moved r to none = record r { submission_status = to }

unfoldable pub find_request : SubmissionDb → ℕ → Option DataRequest
find_request db id = find (is_request id) db.requests

-- What `transition_submission` does to the row once the guards are passed; the foreign key refuses
-- an unknown actor.
unfoldable pub write_transition :
    SubmissionDb
    → DataRequest
    → SubmissionStatus
    → ℕ
    → Option String
    → Option ℕ
    → Result (DataRequest × SubmissionDb)
write_transition db r to actor_id reason batch_id = do
  raise_if (not (any (λ u. actor_id == u) db.users)) value_error
  let r' = moved r to batch_id in
      ok (
        r',
        record db {
          requests = update_where (is_request r.request_id) (λ _. r') db.requests;
          history =
              db.history
              ++ record {
                request_id = r.request_id;
                from_status = r.submission_status;
                to_status = to;
                actor_id = actor_id;
                reason = reason;
              }
                ∷ [];
        },
      )

-- `transition_submission`
unfoldable pub transition_submission :
    SubmissionDb
    → ℕ
    → SubmissionStatus
    → ℕ
    → Option String
    → Option ℕ
    → Result (DataRequest × SubmissionDb)
transition_submission db id to actor_id reason batch_id = elim (find_request db id) [
  | none ↦ err value_error
  | some r ↦ do
    raise_if (not (allowed r.submission_status to)) value_error
    raise_if (is_rejected to && no_text reason) value_error
    write_transition db r to actor_id reason batch_id
]

-- The domain event that follows the target status.
unfoldable pub follow_up :
    DataRequest
    → SubmissionStatus
    → Option String
    → Option ℕ
    → List String
    → Dict String String
    → List SubmissionEvent
follow_up r in_progress reason batch_id files fields =
    submission_started r.request_id r.target_supplier_id ∷ []
follow_up r submitted reason batch_id files fields =
    submission_completed r.request_id batch_id (not (null files)) files fields ∷ []
follow_up r approved reason batch_id files fields = submission_approved r.request_id batch_id ∷ []
follow_up r rejected reason batch_id files fields = submission_rejected r.request_id reason ∷ []
follow_up r _ reason batch_id files fields = []

-- A request that is found must be complete.
abbrev pub complete_guard : (ℕ → Option ℕ) → Option DataRequest → Result (Unit {0})
complete_guard completion none = ok tt
complete_guard completion (some r) =
    raise_if (ltb (or_else (completion r.target_supplier_id) 0) 100) value_error

abbrev from_of : Option DataRequest → SubmissionStatus → SubmissionStatus
from_of none to = to
from_of (some r) to = r.submission_status

-- The guards of a submission. `completion` stands for the supplier's completion_rate, none where
-- there is no row.
unfoldable pub submission_guard :
    (ℕ → Option ℕ)
    → SubmissionDb
    → ℕ
    → Option ℕ
    → List String
    → Dict String String
    → Result (Unit {0})
submission_guard completion db id none files fields = err value_error
submission_guard completion db id (some b) files fields = do
  raise_if (null files && null fields) value_error
  complete_guard completion (find_request db id)

-- `update_submission_status`
unfoldable pub update_submission_status :
    (ℕ → Option ℕ)
    → SubmissionDb
    → ℕ
    → SubmissionStatus
    → ℕ
    → Option String
    → Option ℕ
    → List String
    → Dict String String
    → Result (DataRequest × SubmissionDb)
update_submission_status completion db id to actor_id reason batch_id files fields = do
  if is_submitted to then submission_guard completion db id batch_id files fields else ok tt
  (r, db') ← transition_submission db id to actor_id reason batch_id
  let from = from_of (find_request db id) to in
      ok (
        r,
        record db' {
          events =
              db'.events ++ status_changed id from to ∷ follow_up r to reason batch_id files fields;
        },
      )

-- `check_and_record_pipeline_trigger`
unfoldable pub check_and_record_pipeline_trigger : SubmissionDb → ℕ → Bool × SubmissionDb
check_and_record_pipeline_trigger db id =
    if any (λ j. id == j) db.processed_jobs
    then (false, db)
    else (true, record db { processed_jobs = db.processed_jobs ++ id ∷ [] })

-- `due_date < now() AND response_status = 'response_pending'`
abbrev pub is_overdue : ℕ → DataRequest → Bool
is_overdue now r = ltb r.due_date now && r.response_pending

-- The loop over the overdue requests; `users_of` stands for the active users of a supplier.
unfoldable pub remind : (ℕ → List ℕ) → ℕ → List DataRequest → SubmissionDb → SubmissionDb
remind users_of now [] db = db
remind users_of now (r ∷ rs) db =
    let users = users_of r.target_supplier_id in
    let skipped = remind users_of now rs db in
    let reminded = remind users_of now rs (record db {
      notifications =
          db.notifications ++ map (λ u. record { user_id = u; request_id = r.request_id }) users;
      requests =
          update_where (is_request r.request_id)
            (λ (x : DataRequest). record x {
              reminder_count = some (suc (or_else x.reminder_count 0));
              last_reminder_at = some now;
            })
            db.requests;
    }) in
    if null users then skipped else reminded

-- `send_overdue_reminders`: the number returned, and the database.
unfoldable pub send_overdue_reminders : (ℕ → List ℕ) → SubmissionDb → ℕ → ℕ × SubmissionDb
send_overdue_reminders users_of db now =
    let overdue = keep (is_overdue now) db.requests in
    (length overdue, remind users_of now overdue db)
