-- ===== src/Submission/History.antt =====
-- The transitions of backend/domains/submission: what they check, what they store, and the history
-- that they leave.
use project_main.Prelude.{
  ℕ, ◌≤◌, ◌≡◌, refl, ◌≢◌, String, Bool, true, false, not, ◌&&◌, Option, none, some, List, [], ◌∷◌,
  ◌++◌, ◌==◌, if◌then◌else◌, or_else, ok, >>=-eq-ok, raise_if-ok, raise_if-passed, Bool-cases,
  err-ne-ok, ok-injective, Option-cases, inl, inr, any, null, arith, subst, find, find-passes,
  ==_iff, update_where,
}
use project_main.Prelude.Dict.{Dict}
use project_main.Submission.{
  SubmissionStatus, submitted, allowed, DataRequest, SubmissionDb, find_request, is_rejected,
  is_submitted, no_text, moved, write_transition, transition_submission, complete_guard,
  submission_guard, update_submission_status, check_and_record_pipeline_trigger, is_request,
}

-- What a transition of a request has checked and written.
abbrev pub Transitioned :
    SubmissionDb → ℕ → SubmissionStatus → ℕ → Option String → DataRequest × SubmissionDb → Type 0
Transitioned db id to actor_id reason (r', db') =
    (r : DataRequest) × (find_request db id ≡ some r)
    × (allowed r.submission_status to ≡ true)
    × (r'.submission_status ≡ to)
    × (find (is_request id) db'.requests ≡ some r')
    × ((other : ℕ)
        → (other == id) ≡ false
        → find (is_request other) db'.requests ≡ find (is_request other) db.requests)
    × (db'.history
        ≡ db.history
          ++ record {
            request_id = r.request_id;
            from_status = r.submission_status;
            to_status = to;
            actor_id = actor_id;
            reason = reason;
          }
            ∷ [])

moved-status :
    (r : DataRequest) (to : SubmissionStatus) (b : Option ℕ) → (moved r to b).submission_status ≡ to
moved-status r to none = refl
moved-status r to (some b) = refl

moved-request :
    (r : DataRequest) (to : SubmissionStatus) (b : Option ℕ)
    → (moved r to b).request_id ≡ r.request_id
moved-request r to none = refl
moved-request r to (some b) = refl

find-stored :
    (id : ℕ) (r r' : DataRequest) (rs : List DataRequest)
    → find (is_request id) rs ≡ some r
    → r'.request_id ≡ r.request_id
    → find (is_request id) (update_where (is_request r.request_id) (λ _. r') rs) ≡ some r'
find-stored id r r' [] h e = cc
find-stored id r r' (x ∷ rs) h e = ground (arith, find-stored id r r' rs)

find-other :
    (id other : ℕ) (r' : DataRequest) (rs : List DataRequest)
    → (other == id) ≡ false
    → r'.request_id ≡ id
    → find (is_request other) (update_where (is_request id) (λ _. r') rs)
      ≡ find (is_request other) rs
find-other id other r' [] h e = refl
find-other id other r' (x ∷ rs) h e = ground (arith, find-other id other r' rs h e)

not-false : (b : Bool) → not b ≡ false → b ≡ true
not-false b h = ground arith

transition-found :
    (db : SubmissionDb) (id actor_id : ℕ) (to : SubmissionStatus) (reason : Option String)
    (batch_id : Option ℕ) (r : DataRequest) (out : DataRequest × SubmissionDb)
    → find_request db id ≡ some r
    → transition_submission db id to actor_id reason batch_id ≡ ok out
    → Transitioned db id to actor_id reason out
unfolding transition_submission write_transition find_request
transition-found db id actor_id to reason batch_id r out found h =
    let (ok_move, h1) =
      raise_if-ok (not (allowed r.submission_status to)) _
        (rw (found, transition_submission) at h) in
    let (_, h2) = raise_if-ok (is_rejected to && no_text reason) _ h1 in
    let (_, h3) = raise_if-ok _ _ h2 in
    subst (Transitioned db id to actor_id reason) (ok-injective h3) (
      r,
      found,
      not-false _ ok_move,
      moved-status r to batch_id,
      find-stored id r (moved r to batch_id) db.requests found (moved-request r to batch_id),
      (λ other ne.
          let same : id ≡ r.request_id =
            (==_iff id r.request_id).0 (find-passes (is_request id) db.requests r found) in
          find-other r.request_id other (moved r to batch_id) db.requests
            (subst (λ i. (other == i) ≡ false) same ne) (moved-request r to batch_id)),
      refl,
    )

transition_missing :
    (db : SubmissionDb) (id actor_id : ℕ) (to : SubmissionStatus) (reason : Option String)
    (batch_id : Option ℕ) (out : DataRequest × SubmissionDb)
    → find_request db id ≡ none
    → transition_submission db id to actor_id reason batch_id ≢ ok out
unfolding transition_submission
transition_missing db id actor_id to reason batch_id out h = rw (h, transition_submission) err-ne-ok

transition-Transitioned :
    (db : SubmissionDb) (id actor_id : ℕ) (to : SubmissionStatus) (reason : Option String)
    (batch_id : Option ℕ) (out : DataRequest × SubmissionDb)
    → transition_submission db id to actor_id reason batch_id ≡ ok out
    → Transitioned db id to actor_id reason out
transition-Transitioned db id actor_id to reason batch_id out h =
    elim (Option-cases (find_request db id)) [
      | inl e ↦ absurd (transition_missing db id actor_id to reason batch_id out e h)
      | inr (r, e) ↦ transition-found db id actor_id to reason batch_id r out e h
    ]

module _ (completion : ℕ → Option ℕ) where
  -- A successful update makes a transition that the table allows from the stored status, stores the
  -- moved row under the request's id and no other row, and appends one row that says so to the history.
  pub update-Transitioned :
      (db : SubmissionDb) (id actor_id : ℕ) (to : SubmissionStatus) (reason : Option String)
      (batch_id : Option ℕ) (files : List String) (fields : Dict String String)
      (out : DataRequest × SubmissionDb)
      → update_submission_status completion db id to actor_id reason batch_id files fields ≡ ok out
      → Transitioned db id to actor_id reason out
  unfolding update_submission_status
  update-Transitioned db id actor_id to reason batch_id files fields out h =
      let (_, _, h1) =
        >>=-eq-ok
          (if is_submitted to
            then submission_guard completion db id batch_id files fields
            else ok tt)
          _ h in
      let (mid, done, h2) =
        >>=-eq-ok (transition_submission db id to actor_id reason batch_id) _ h1 in
      subst (Transitioned db id to actor_id reason) (ok-injective h2)
        (transition-Transitioned db id actor_id to reason batch_id mid done)

  guard_complete :
      (db : SubmissionDb) (id : ℕ) (batch_id : Option ℕ) (files : List String)
      (fields : Dict String String) (r : DataRequest)
      → find_request db id ≡ some r
      → submission_guard completion db id batch_id files fields ≡ ok tt
      → (batch_id ≢ none)
        × ((null files && null fields) ≡ false)
        × (100 ≤ or_else (completion r.target_supplier_id) 0)
  unfolding submission_guard
  guard_complete db id none files fields r found h = absurd (err-ne-ok h)
  guard_complete db id (some b) files fields r found h =
      let (given, h1) = raise_if-ok (null files && null fields) _ h in
      let complete = raise_if-passed _ (rw (found, complete_guard) at h1) in
      (λ k. cc, given, ground arith)

  -- A request is submitted only for a batch, with a file or a field, and with its supplier's data
  -- complete.
  pub update_submitted_complete :
      (db : SubmissionDb) (id actor_id : ℕ) (reason : Option String) (batch_id : Option ℕ)
      (files : List String) (fields : Dict String String) (r : DataRequest)
      (out : DataRequest × SubmissionDb)
      → find_request db id ≡ some r
      → update_submission_status completion db id submitted actor_id reason batch_id files fields
        ≡ ok out
      → (batch_id ≢ none)
        × ((null files && null fields) ≡ false)
        × (100 ≤ or_else (completion r.target_supplier_id) 0)
  unfolding update_submission_status
  update_submitted_complete db id actor_id reason batch_id files fields r out found h =
      let (_, passed, _) =
        >>=-eq-ok (submission_guard completion db id batch_id files fields) _ h in
      guard_complete db id batch_id files fields r found passed

any_last : (id : ℕ) (js : List ℕ) → any (λ j. id == j) (js ++ id ∷ []) ≡ true
any_last id [] = ground arith
any_last id (j ∷ js) = ground (arith, any_last id js)

-- The trigger of a request's pipeline goes through once: after a call, whatever it has returned,
-- every further call for the same request is refused and changes nothing.
pub check_and_record_twice :
    (db : SubmissionDb) (id : ℕ)
    → let db' = (check_and_record_pipeline_trigger db id).1 in
      check_and_record_pipeline_trigger db' id ≡ (false, db')
unfolding check_and_record_pipeline_trigger
check_and_record_twice db id = elim (Bool-cases (any (λ j. id == j) db.processed_jobs)) [
  | inl e ↦ rw e (rw e refl)
  | inr e ↦ rw e (rw (any_last id db.processed_jobs) refl)
]
