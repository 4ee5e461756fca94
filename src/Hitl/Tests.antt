-- ===== src/Hitl/Tests.antt =====
-- The review of one batch, step by step.
use project_main.Prelude.{
  inl, update_where, ◌++◌, arith, ◌≡◌, refl, true, none, some, [], ◌∷◌, err, value_error, value_or,
}
use project_main.Schema.{stage_risk, batch_hitl_wait, batch_processing}
use project_main.Hitl.{
  Pick, Picks, has_id, hitl_resolved, HitlReview, HitlDb, risk_escalated, gray_zone, approve,
  reject, resolve_review, after_decision, get_by_batch_id, resolve_batch, latest, matches_open,
  create_pending_hitl_review, pending_review,
}
use project_main.Hitl.Decide.{resolve_batch_twice}
use project_main.Hitl.Replay.{resolved_replay_creates}

abbrev first_row : Pick
first_row [] = none
first_row (r ∷ rs) = some r

first_row-Picks : Picks first_row
first_row-Picks = (refl, λ r rs. (r, refl, inl refl))

-- Two batches, of which the first waits for a review.
abbrev before : HitlDb
before = record {
  reviews = [];
  batches =
      record { batch_id = 1; status = batch_hitl_wait }
      ∷ record { batch_id = 2; status = batch_processing }
      ∷ [];
  reject_requested = [];
  hitl_queue = [];
  next_id = 100;
}

abbrev waiting : HitlDb
waiting = (create_pending_hitl_review before 1 risk_escalated stage_risk 10).1

abbrev nothing : HitlReview × HitlDb
nothing = (pending_review 0 0 gray_zone stage_risk 0, before)

abbrev refused : HitlReview × HitlDb
refused = value_or (resolve_batch first_row waiting 1 reject "too risky" (some 7) 20) nothing

resolve_batch_twice_example :
    resolve_batch first_row refused.1 1 approve "" none 30 ≡ err value_error
unfolding create_pending_hitl_review latest matches_open resolve_batch get_by_batch_id
    resolve_review after_decision
resolve_batch_twice_example =
    resolve_batch_twice first_row first_row waiting 1 20 30 reject approve "too risky" "" (some 7)
      none refused first_row-Picks first_row-Picks (omega arith) refl

resolved_replay_creates_example :
    let (made, db') = create_pending_hitl_review refused.1 1 risk_escalated stage_risk 40 in
    (made.1 ≡ true)
    × (refused.0.status ≡ hitl_resolved)
    × (refused.1.reviews
        ≡ update_where (has_id refused.0.review_id) (λ _. refused.0) waiting.reviews)
    × (db'.reviews ≡ refused.1.reviews ++ pending_review made.0 1 risk_escalated stage_risk 40 ∷ [])
unfolding create_pending_hitl_review latest matches_open resolve_batch get_by_batch_id
    resolve_review after_decision
resolved_replay_creates_example =
    resolved_replay_creates first_row before 1 10 20 40 risk_escalated stage_risk reject "too risky"
      (some 7) refused first_row-Picks refl refl
