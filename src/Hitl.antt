-- ===== src/Hitl.antt =====
-- backend/hitl (state_machine.py, service.py, router.py, repository.py), with the parts of
-- backend/domains/audit that it works with (state_machine.py, repository.create_pending_hitl_review)
-- and the worker's test of the resolution in backend/agents/graph.py (resume_graph).
-- A human reviewer decides on a batch whose pipeline has stopped.
pub mod Decide
pub mod Replay
mod Tests
use project_main.Prelude.{
  ℕ, ◌+◌, String, Bool, true, false, ◌&&◌, ◌||◌, Option, none, some, List, [], ◌∷◌, ◌++◌, ◌==◌,
  if◌then◌else◌, Result, ok, err, Error, value_error, http, ◌>>=◌, ◌>>◌, raise_if, find, keep, ltb,
  update_where, any, In, ◌≡◌,
}
use project_main.Schema.{
  Stage, BatchStatus, batch_processing, batch_hitl_wait, batch_rejected, same_stage,
}

-- hitl_reviews.status (chk_hitl_status)
pub data ReviewStatus : Type 0 where
  hitl_pending hitl_in_review hitl_resolved : ReviewStatus

-- The text of a decision; `invalid` is any other text than the three valid ones.
pub data Resolution : Type 0 where
  approve reject escalate : Resolution
  invalid : String → Resolution

-- hitl_reviews.reason: the two texts that the graph writes
pub data Reason : Type 0 where
  risk_escalated gray_zone : Reason

pub record HitlReview : Type 0 where
  pub review_id : ℕ
  pub batch_id : ℕ
  pub reason : Reason
  pub trigger_stage : Stage
  pub status : ReviewStatus
  pub resolution : Option Resolution
  pub decision_text : Option String
  pub decided_by : Option ℕ
  pub decided_at : Option ℕ
  pub created_at : ℕ

pub record BatchRow : Type 0 where
  pub batch_id : ℕ
  pub status : BatchStatus

-- A signal published to another domain: the batch and the decision's text.
pub record RejectRequested : Type 0 where
  pub batch_id : ℕ
  pub reason : String

-- A job on HITL_QUEUE: `process_hitl_resolution` for a batch.
pub record ResumeJob : Type 0 where
  pub batch_id : ℕ
  pub resolution : Resolution

-- The tables, the signals published and the jobs enqueued; `next_id` supplies new primary keys.
pub record HitlDb : Type 0 where
  pub reviews : List HitlReview
  pub batches : List BatchRow
  pub reject_requested : List RejectRequested
  pub hitl_queue : List ResumeJob
  pub next_id : ℕ

abbrev pub is_resolved : ReviewStatus → Bool
is_resolved hitl_resolved = true
is_resolved _ = false

-- `resolution in VALID_RESOLUTIONS`
abbrev pub is_valid : Resolution → Bool
is_valid (invalid _) = false
is_valid _ = true

abbrev pub is_reject : Resolution → Bool
is_reject reject = true
is_reject _ = false

abbrev pub is_approve : Resolution → Bool
is_approve approve = true
is_approve _ = false

-- `HitlStateMachine.resolve_review`; `now` is the clock's reading.
unfoldable pub resolve_review : HitlReview → Resolution → String → Option ℕ → ℕ → Result HitlReview
resolve_review review resolution decision_text user_id now = do
  raise_if (is_resolved review.status) value_error
  raise_if (if is_valid resolution then false else true) value_error
  ok (record review {
    status = hitl_resolved;
    resolution = some resolution;
    decision_text = some decision_text;
    decided_by = user_id;
    decided_at = some now;
  })

abbrev pub of_batch : ℕ → HitlReview → Bool
of_batch b r = b == r.batch_id

abbrev pub has_id : ℕ → HitlReview → Bool
has_id i r = i == r.review_id

-- Which row comes first where a query has no ORDER BY is the database's choice at each call; `Picks` is all
-- that is known of it.
abbrev pub Pick : Type 0
Pick = List HitlReview → Option HitlReview

abbrev pub Picks : Pick → Type 0
Picks pick =
    (pick [] ≡ none)
    × ((r : HitlReview) (rs : List HitlReview)
        → (x : HitlReview) × (pick (r ∷ rs) ≡ some x) × In x (r ∷ rs))

-- `get_by_batch_id`: one of the rows of the batch, if there are any
unfoldable pub get_by_batch_id : Pick → HitlDb → ℕ → Option HitlReview
get_by_batch_id pick db b = pick (keep (of_batch b) db.reviews)

unfoldable pub get_by_review_id : HitlDb → ℕ → Option HitlReview
get_by_review_id db i = find (has_id i) db.reviews

abbrev is_waiting : BatchStatus → Bool
is_waiting batch_hitl_wait = true
is_waiting _ = false

-- `WHERE batch_id = :b AND status = 'batch_hitl_wait'`
abbrev pub waits : ℕ → BatchRow → Bool
waits b row = b == row.batch_id && is_waiting row.status

-- The resolved review's row is written; a rejection moves a waiting batch and is signalled.
unfoldable pub after_decision : HitlDb → ℕ → HitlReview → Resolution → String → HitlDb
after_decision db b review resolution decision_text =
    let written = update_where (has_id review.review_id) (λ _. review) db.reviews in
    if is_reject resolution
    then record db {
      reviews = written;
      batches = update_where (waits b) (λ row. record row { status = batch_rejected }) db.batches;
      reject_requested =
          db.reject_requested ++ record { batch_id = b; reason = decision_text } ∷ [];
    }
    else record db { reviews = written }

-- `HitlService.resolve_batch`
unfoldable pub resolve_batch :
    Pick → HitlDb → ℕ → Resolution → String → Option ℕ → ℕ → Result (HitlReview × HitlDb)
resolve_batch pick db b resolution decision_text user_id now = elim (get_by_batch_id pick db b) [
  | none ↦ err value_error
  | some found ↦ do
    review ← resolve_review found resolution decision_text user_id now
    ok (review, after_decision db b review resolution decision_text)
]

-- `except ValueError as e: raise HTTPException(status_code=400)`
abbrev pub as_http_400 {ℓ} : {A : Type ℓ} → Result A → Result A
as_http_400 (err value_error) = err (http 400)
as_http_400 r = r

unfoldable pub enqueue_resume : HitlDb → ℕ → Resolution → HitlDb
enqueue_resume db b resolution = record db {
  hitl_queue = db.hitl_queue ++ record { batch_id = b; resolution = resolution } ∷ [];
}

-- `POST /hitl/{batch_id}/resolve`: every resolution but a rejection is enqueued.
unfoldable pub resolve_hitl_review :
    Pick → HitlDb → ℕ → Resolution → String → Option ℕ → ℕ → Result (HitlReview × HitlDb)
resolve_hitl_review pick db b resolution decision_text user_id now = as_http_400 do
  (review, db') ← resolve_batch pick db b resolution decision_text user_id now
  ok (review, if is_reject resolution then db' else enqueue_resume db' b resolution)

-- `POST /hitl/{batch_id}/approve`
unfoldable pub approve_hitl_review :
    Pick → HitlDb → ℕ → String → Option ℕ → ℕ → Result (HitlReview × HitlDb)
approve_hitl_review pick db b decision_text user_id now = as_http_400 do
  (review, db') ← resolve_batch pick db b approve decision_text user_id now
  ok (review, enqueue_resume db' b approve)

-- `POST /hitl/{batch_id}/reject`
unfoldable pub reject_hitl_review :
    Pick → HitlDb → ℕ → String → Option ℕ → ℕ → Result (HitlReview × HitlDb)
reject_hitl_review pick db b decision_text user_id now =
    as_http_400 (resolve_batch pick db b reject decision_text user_id now)

-- `resume_graph` begins with this test of the job's resolution.
abbrev pub resumes : ResumeJob → Bool
resumes job = is_approve job.resolution

abbrev pub is_open : ReviewStatus → Bool
is_open hitl_resolved = false
is_open _ = true

unfoldable pub same_reason : Reason → Reason → Bool
same_reason risk_escalated risk_escalated = true
same_reason gray_zone gray_zone = true
same_reason _ _ = false

-- `WHERE batch_id = .. AND reason = .. AND trigger_stage = .. AND status IN (..)`
unfoldable pub matches_open : ℕ → Reason → Stage → HitlReview → Bool
matches_open b reason stage r =
    b == r.batch_id
    && same_reason reason r.reason
    && same_stage stage r.trigger_stage
    && is_open r.status

-- `ORDER BY created_at DESC LIMIT 1`
unfoldable pub latest : List HitlReview → Option HitlReview
latest [] = none
latest (r ∷ rs) = elim (latest rs) [
  | none ↦ some r
  | some later ↦ some (if ltb r.created_at later.created_at then later else r)
]

abbrev pub pending_review : ℕ → ℕ → Reason → Stage → ℕ → HitlReview
pending_review id b reason stage now = record {
  review_id = id;
  batch_id = b;
  reason = reason;
  trigger_stage = stage;
  status = hitl_pending;
  resolution = none;
  decision_text = none;
  decided_by = none;
  decided_at = none;
  created_at = now;
}

-- `create_pending_hitl_review`: the id of the review, and whether it was made by this call.
unfoldable pub create_pending_hitl_review : HitlDb → ℕ → Reason → Stage → ℕ → (ℕ × Bool) × HitlDb
create_pending_hitl_review db b reason stage now =
    elim (latest (keep (matches_open b reason stage) db.reviews)) [
      | some existing ↦ ((existing.review_id, false), db)
      | none ↦ (
        (db.next_id, true),
        record db {
          reviews = db.reviews ++ pending_review db.next_id b reason stage now ∷ [];
          next_id = db.next_id + 1;
        },
      )
    ]

abbrev set_status : BatchStatus → ℕ → List BatchRow → List BatchRow
set_status s b = update_where (λ row. b == row.batch_id) (λ row. record row { status = s })

-- `pause_batch_for_review` and `resume_batch_processing`: an unknown batch is an error.
unfoldable pub pause_batch_for_review : HitlDb → ℕ → Result HitlDb
pause_batch_for_review db b =
    if any (λ (row : BatchRow). b == row.batch_id) db.batches
    then ok (record db { batches = set_status batch_hitl_wait b db.batches })
    else err value_error

unfoldable pub resume_batch_processing : HitlDb → ℕ → Result HitlDb
resume_batch_processing db b =
    if any (λ (row : BatchRow). b == row.batch_id) db.batches
    then ok (record db { batches = set_status batch_processing b db.batches })
    else err value_error
