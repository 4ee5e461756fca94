-- ===== src/Agents/Graph.antt =====
-- backend/agents/graph.py: the graph of the agents. A run goes from the supervisor to a node and
-- back, until the batch is completed or stops for a review; an approval resumes it.
pub mod Steps
pub mod Termination
pub mod Safety
pub mod Failure
use project_main.Prelude.{
  ℕ, zero, suc, ◌+◌, String, Bool, true, false, Option, none, some, List, [], ◌∷◌, ◌++◌, max, map,
  if◌then◌else◌, or_else, Result, ok, err, Error, ◌>>=◌,
}
use project_main.Prelude.Int.{ℤ}
use project_main.Schema.{
  Stage, stage_queued, Destination, ErrorReason, risk_escalated as er_risk_escalated, BatchStatus,
  batch_processing, batch_completed,
}
use project_main.Hitl.{
  HitlDb, Reason, risk_escalated, gray_zone, create_pending_hitl_review, pause_batch_for_review,
  resume_batch_processing,
}
use project_main.Risk.{RiskDb}
use project_main.Agents.State.{BatchState}
use project_main.Agents.Supervisor.{
  Node, data_gateway, geo_audit, compliance, risk_scoring, final_judgment, hitl_interrupt,
  completed, route,
}
use project_main.Agents.Geo.{GeoQueries, GeoDb, geo_audit_node}
use project_main.Agents.Gateway.{GatewayQueries, data_gateway_node, confidence_threshold}
use project_main.Agents.Judges.{Services}
use project_main.Agents.Compliance.{ComplianceDb, compliance_node}
use project_main.Agents.Scoring.{risk_scoring_node}
use project_main.Agents.Judgment.{JudgmentDb, final_judgment_node}

-- The databases and the messages sent.
pub record World : Type 0 where
  pub hitl : HitlDb
  pub geo : GeoDb
  pub compliance_db : ComplianceDb
  pub risk : RiskDb
  pub judgment : JudgmentDb
  -- HITLRequestedEvent, by batch
  pub hitl_requested : List (ℕ × Reason)
  -- jobs on NOTIFICATION_QUEUE: the batch and the user
  pub notifications : List (ℕ × ℕ)

-- What the agents ask of the queries and services outside, and of the graph library.
pub record Env : Type 0 where
  pub point : String → Option (ℤ × ℤ)
  pub geo_queries : GeoQueries
  pub gateway_queries : GatewayQueries
  pub services : Services
  -- the suppliers of the chain of a batch
  pub chain : ℕ → List ℕ
  -- the active users with the role owner_esg of the tenant of a batch
  pub owner_users : ℕ → List ℕ
  -- the clock's reading
  pub now : ℕ

unfoldable pub reason_of : Option ErrorReason → Reason
reason_of (some er_risk_escalated) = risk_escalated
reason_of _ = gray_zone

-- `hitl_interrupt_node` up to its call of `interrupt`.
unfoldable pub request_review : Env → BatchState → World → Result World
request_review env state w = do
  hitl ← pause_batch_for_review w.hitl state.batch_id
  let reason = reason_of state.error_reason in
      let ((review_id, created), hitl') =
        create_pending_hitl_review hitl state.batch_id reason state.current_stage env.now in
      ok (record w {
        hitl = hitl';
        hitl_requested =
            if created then w.hitl_requested ++ (state.batch_id, reason) ∷ [] else w.hitl_requested;
        notifications =
            if created
            then w.notifications
              ++ map (λ user. (state.batch_id, user)) (env.owner_users state.batch_id)
            else w.notifications;
      })

-- The state that `hitl_interrupt_node` returns once an approval has come.
unfoldable pub approved_state : BatchState → BatchState
approved_state state = record state {
  batch_status = batch_processing;
  confidence_score = some (max (or_else state.confidence_score 0) confidence_threshold);
  hitl_required = false;
  error_reason = none;
}

-- `hitl_interrupt_node` on an approval: the node is run again from its start.
unfoldable pub resume_review : Env → BatchState → World → Result (BatchState × World)
resume_review env state w = do
  w' ← request_review env state w
  hitl ← resume_batch_processing w'.hitl state.batch_id
  ok (approved_state state, record w' { hitl = hitl })

-- `completed_node`
unfoldable pub completed_node : BatchState → BatchState
completed_node state = record state { batch_status = batch_completed }

-- One of the five agents; the other two nodes are not run by this function.
unfoldable pub run_agent : Env → Node → BatchState → World → Result (BatchState × World)
run_agent env data_gateway state w = ok (data_gateway_node env.gateway_queries state, w)
run_agent env geo_audit state w =
    let (state', geo) = geo_audit_node env.point env.geo_queries state w.geo in
    ok (state', record w { geo = geo })
run_agent env compliance state w = do
  (state', db) ← compliance_node env.services state w.compliance_db
  ok (state', record w { compliance_db = db })
run_agent env risk_scoring state w = do
  (state', db) ← risk_scoring_node state w.risk
  ok (state', record w { risk = db })
run_agent env final_judgment state w =
    let (state', db) =
      final_judgment_node env.chain state w.compliance_db.rows w.geo.results w.risk.profiles
        w.judgment in
    ok (state', record w { judgment = db })
run_agent env hitl_interrupt state w = ok (state, w)
run_agent env completed state w = ok (state, w)

-- How a run ends: completed, waiting for a review, with an exception, or without fuel.
pub data Outcome : Type 0 where
  finished interrupted : BatchState → World → Outcome
  failed : Error → Outcome
  out_of_fuel : Outcome

abbrev pub interruption : BatchState → Result World → Outcome
interruption state (ok w) = interrupted state w
interruption state (err e) = failed e

-- The state that the node gets after the supervisor's edge, whose function only chooses the next node: a
-- node alone updates the state of the graph, and what the function writes to its argument is not kept.
unfoldable pub edge_state : Env → BatchState → BatchState
edge_state env state = state

abbrev pub continue : (BatchState → World → Outcome) → Result (BatchState × World) → Outcome
continue next (err e) = failed e
continue next (ok (state, w)) = next state w

-- A visit of the node that the supervisor chose; the edge back to the supervisor is `next`.
unfoldable pub visit : (BatchState → World → Outcome) → Env → Node → BatchState → World → Outcome
visit next env hitl_interrupt state w = interruption state (request_review env state w)
visit next env completed state w = finished (completed_node state) w
visit next env node state w = continue next (run_agent env node state w)

-- Supervisor, node, supervisor, and so on; every visit of the supervisor uses one unit of fuel.
unfoldable pub run : ℕ → Env → BatchState → World → Outcome
run zero env state w = out_of_fuel
run (suc fuel) env state w =
    visit (λ s v. run fuel env s v) env (route state).0 (edge_state env state) w

-- Six stages, and the visit that completes.
abbrev pub full_fuel : ℕ
full_fuel = 6

-- `start_graph`
unfoldable pub initial_state : ℕ → Option ℕ → Destination → BatchState
initial_state batch_id product_id destination = record {
  batch_id = batch_id;
  product_id = product_id;
  destination = some destination;
  current_stage = stage_queued;
  batch_status = batch_processing;
  confidence_score = none;
  applicable_regulations = none;
  hitl_required = false;
  error_reason = none;
  extraction_result = none;
  geo_result = none;
  compliance_result = none;
  final_judgment = none;
}

-- A run, and one approval after each interruption, while approvals last.
unfoldable pub drive : ℕ → Env → Outcome → Outcome
drive zero env outcome = outcome
drive (suc approvals) env (interrupted state w) =
    continue (λ s v. drive approvals env (run full_fuel env s v)) (resume_review env state w)
drive (suc approvals) env outcome = outcome
