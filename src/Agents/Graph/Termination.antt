-- ===== src/Agents/Graph/Termination.antt =====
-- The length of the loop of backend/agents/graph.py: the stages that the agents leave, and the stages
-- at which a batch is resumed.
use project_main.Prelude.{
  ℕ, zero, suc, ◌+◌, ◌≤◌, ◌≡◌, refl, ◌≢◌, inl, inr, true, false, false-ne-true, Option, ok,
  >>=-eq-ok, ok-injective, ap, arith, sym, ◌∙◌, subst,
}
use project_main.Schema.{
  Stage, stage_index, stage_queued, stage_extraction, stage_geo, stage_compliance, stage_risk,
  stage_judgment, Destination,
}
use project_main.Agents.State.{BatchState}
use project_main.Agents.Supervisor.{stops, next_node}
use project_main.Agents.Geo.{geo_audit_node}
use project_main.Agents.Gateway.{GatewayQueries, data_gateway_node, gathered}
use project_main.Agents.Judges.{Services}
use project_main.Agents.Compliance.{ComplianceDb, compliance_node, with_verdicts}
use project_main.Hitl.{resume_batch_processing}
use project_main.Risk.{RiskDb}
use project_main.Agents.Scoring.{risk_scoring_node}
use project_main.Agents.Judgment.{final_judgment_node}
use project_main.Agents.Graph.{
  World, Env, Outcome, finished, interrupted, failed, out_of_fuel, run, run_agent, edge_state,
  initial_state, request_review, resume_review, drive, full_fuel, approved_state,
}
use project_main.Agents.Graph.Steps.{
  run-Visits, edge_state-same, compliance_node-ok, risk_scoring_node-ok, interruption-P, continue-P,
}

data_gateway-stage :
    (q : GatewayQueries) (s : BatchState) → (data_gateway_node q s).current_stage ≡ stage_extraction
unfolding data_gateway_node gathered
data_gateway-stage q s = ground arith

compliance-stage :
    (sv : Services) (s s' : BatchState) (db db' : ComplianceDb)
    → compliance_node sv s db ≡ ok (s', db')
    → s'.current_stage ≡ stage_compliance
compliance-stage sv s s' db db' h = elim (compliance_node-ok sv s db _ h) [
  | inl e ↦ rw e refl
  | inr (j, e) ↦ rw e (unfold with_verdicts in refl)
]

risk-stage :
    (s s' : BatchState) (db db' : RiskDb)
    → risk_scoring_node s db ≡ ok (s', db')
    → s'.current_stage ≡ stage_risk
risk-stage s s' db db' h = let (_, e) = risk_scoring_node-ok s db _ h in rw e refl

-- An agent leaves the stage after the one at which it was chosen.
pub run_agent-stage :
    (env : Env) (stage : Stage) (t : BatchState) (w : World) (out : BatchState × World)
    → stage ≢ stage_judgment
    → run_agent env (next_node stage) t w ≡ ok out
    → stage_index out.0.current_stage ≡ suc (stage_index stage)
unfolding run_agent
run_agent-stage env stage_queued t w out n h =
    rw (← ok-injective h, data_gateway-stage env.gateway_queries t) refl
run_agent-stage env stage_extraction t w out n h =
    rw (← ok-injective h) (unfold geo_audit_node in refl)
run_agent-stage env stage_geo t w out n h =
    let ((s', db), e, k) = >>=-eq-ok (compliance_node env.services t w.compliance_db) _ h in
    rw (← ok-injective k, compliance-stage env.services t s' w.compliance_db db e) refl
run_agent-stage env stage_compliance t w out n h =
    let ((s', db), e, k) = >>=-eq-ok (risk_scoring_node t w.risk) _ h in
    rw (← ok-injective k, risk-stage t s' w.risk db e) refl
run_agent-stage env stage_risk t w out n h =
    rw (← ok-injective h) (unfold final_judgment_node in refl)
run_agent-stage env stage_judgment t w out n h = absurd (n refl)

stage_index_bound : (st : Stage) → stage_index st ≤ 5
stage_index_bound st = ground arith

judgment_not_stopped :
    (env : Env) (stage : Stage) (t : BatchState) (w : World) (out : BatchState × World)
    → stops t.error_reason ≡ false
    → stage ≢ stage_judgment
    → run_agent env (next_node stage) t w ≡ ok out
    → stops out.0.error_reason ≡ true
    → stage_index stage ≤ 3
unfolding run_agent
judgment_not_stopped env stage_queued t w out go n h k = omega arith
judgment_not_stopped env stage_extraction t w out go n h k = omega arith
judgment_not_stopped env stage_geo t w out go n h k = omega arith
judgment_not_stopped env stage_compliance t w out go n h k = omega arith
judgment_not_stopped env stage_risk t w out go n h k =
    absurd (unfold final_judgment_node in false-ne-true (sym go ∙ rw (← ok-injective h) at k))
judgment_not_stopped env stage_judgment t w out go n h k = absurd (n refl)

-- What an outcome promises: no want of fuel, and an interruption at a stage from `lo` on and
-- before the final judgment.
abbrev pub Ends : ℕ → Outcome → Type 0
Ends lo (interrupted t w) = (lo ≤ stage_index t.current_stage) × (stage_index t.current_stage ≤ 4)
Ends lo (finished t w) = Unit
Ends lo (failed e) = Unit
Ends lo out_of_fuel = ⊥

pub run-Ends :
    (fuel : ℕ) (env : Env) (s : BatchState) (w : World) (lo : ℕ)
    → 6 ≤ fuel + stage_index s.current_stage
    → (stops s.error_reason ≡ true
        → (lo ≤ stage_index s.current_stage) × (stage_index s.current_stage ≤ 4))
    → lo ≤ suc (stage_index s.current_stage)
    → Ends lo (run fuel env s w)
run-Ends zero env s w lo enough stopped le =
    absurd (omega (arith, stage_index_bound s.current_stage))
run-Ends (suc fuel) env s w lo enough stopped le =
    let same_stage = (edge_state-same env s).0 in
    let same_error = (edge_state-same env s).1 in
    let t = edge_state env s in
    elim (run-Visits fuel env s w) [
      | inl (stop, e) ↦
          rw e (interruption-P (Ends lo) (λ _. tt) t _ (λ _. rw same_stage (stopped stop)))
      | inr (inl (go, _, e)) ↦ rw e tt
      | inr (inr (go, n, e)) ↦ rw e (
          continue-P (Ends lo) (λ _. tt) _ _
            λ out ran.
              let next = run_agent-stage env s.current_stage t w out n ran in
              let early =
                judgment_not_stopped env s.current_stage t w out (ap stops same_error ∙ go) n ran in
              run-Ends fuel env out.0 out.1 lo (omega (arith, next))
                (λ k. (omega (arith, next), omega (arith, next, early k))) (omega (arith, next)))
    ]

-- A run with fuel for the stages that are left does not run out of it, wherever it starts.
pub run-ne-out_of_fuel :
    (fuel : ℕ) (env : Env) (s : BatchState) (w : World)
    → 6 ≤ fuel + stage_index s.current_stage
    → stage_index s.current_stage ≤ 4
    → run fuel env s w ≢ out_of_fuel
run-ne-out_of_fuel fuel env s w enough le h =
    subst (Ends 0) h (run-Ends fuel env s w 0 enough (λ _. (omega arith, le)) (omega arith))

pub resume_review-ok :
    (env : Env) (s : BatchState) (w : World) (out : BatchState × World)
    → resume_review env s w ≡ ok out
    → out.0 ≡ approved_state s
unfolding resume_review
resume_review-ok env s w out h =
    let (v, _, k) = >>=-eq-ok (request_review env s w) _ h in
    let (_, _, k') = >>=-eq-ok (resume_batch_processing v.hitl s.batch_id) _ k in
    ap (λ (o : BatchState × World). o.0) (sym (ok-injective k'))

-- What is left once there are approvals enough.
abbrev pub Settled : Outcome → Type 0
Settled (interrupted t w) = ⊥
Settled (finished t w) = Unit
Settled (failed e) = Unit
Settled out_of_fuel = ⊥

approved-Ends :
    (env : Env) (s t : BatchState) (w : World)
    → t ≡ approved_state s
    → Ends (suc (stage_index s.current_stage)) (run full_fuel env t w)
unfolding approved_state
approved-Ends env s t w e =
    subst (λ u. Ends (suc (stage_index s.current_stage)) (run full_fuel env u w)) (sym e)
      (run-Ends full_fuel env _ w (suc (stage_index s.current_stage)) (omega arith)
        (λ k. absurd (false-ne-true k)) (omega arith))

drive-Settled :
    (approvals : ℕ) (env : Env) (lo : ℕ) (o : Outcome)
    → Ends lo o
    → 5 ≤ lo + approvals
    → Settled (drive approvals env o)
unfolding drive
drive-Settled zero env lo (interrupted t w) (h, k) le = omega arith
drive-Settled zero env lo (finished t w) h le = tt
drive-Settled zero env lo (failed e) h le = tt
drive-Settled zero env lo out_of_fuel h le = h
drive-Settled (suc n) env lo (interrupted t w) (h, k) le =
    continue-P Settled (λ _. tt) _ (resume_review env t w)
      λ out ran.
        drive-Settled n env (suc (stage_index t.current_stage)) _
          (approved-Ends env t out.0 out.1 (resume_review-ok env t w out ran)) (omega arith)
drive-Settled (suc n) env lo (finished t w) h le = tt
drive-Settled (suc n) env lo (failed e) h le = tt
drive-Settled (suc n) env lo out_of_fuel h le = h

-- Every batch comes to an end: started with whatever product and destination, and approved at each
-- interruption, it is completed or ends with an exception after at most four approvals, with
-- `full_fuel` for each run.
pub drive-start_Settled :
    (env : Env) (w : World) (batch_id : ℕ) (product_id : Option ℕ) (destination : Destination)
    → Settled (drive 4 env (run full_fuel env (initial_state batch_id product_id destination) w))
unfolding initial_state
drive-start_Settled env w batch_id product_id destination =
    drive-Settled 4 env 1 _
      (run-Ends full_fuel env _ w 1 (omega arith) (λ k. absurd (false-ne-true k)) (omega arith))
      (omega arith)
