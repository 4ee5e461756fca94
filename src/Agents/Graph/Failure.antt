-- ===== src/Agents/Graph/Failure.antt =====
-- A batch without a product in backend/agents/graph.py: data_gateway reports no suppliers for it, and
-- risk_scoring raises where there are none.
use project_main.Prelude.{
  ℕ, zero, suc, ◌≤◌, ◌≡◌, refl, ◌≢◌, inl, inr, none, Result, ok, err-ne-ok, >>=-eq-ok, ok-injective,
  arith, sym, subst, [], ◌>>=◌,
}
use project_main.Schema.{
  Stage, stage_index, stage_queued, stage_extraction, stage_geo, stage_compliance, stage_risk,
  stage_judgment, Destination,
}
use project_main.Agents.State.{BatchState}
use project_main.Agents.Supervisor.{next_node}
use project_main.Agents.Geo.{geo_audit_node}
use project_main.Agents.Gateway.{GatewayQueries, data_gateway_node}
use project_main.Agents.Judges.{Services}
use project_main.Agents.Compliance.{ComplianceDb, compliance_node, with_verdicts}
use project_main.Agents.Scoring.{risk_scoring_node, supplier_ids_in}
use project_main.Agents.Graph.{
  World, Env, Outcome, finished, interrupted, failed, out_of_fuel, run, run_agent, edge_state,
  initial_state, full_fuel, drive, approved_state, resume_review,
}
use project_main.Agents.Graph.Steps.{
  run-Visits, edge_state-P, compliance_node-ok, interruption-P, continue-P,
}
use project_main.Agents.Graph.Termination.{run_agent-stage, resume_review-ok}

-- A batch without a product that has not got past compliance.
abbrev HasNoSuppliers : ℕ → BatchState → Type 0
HasNoSuppliers i s = (s.product_id ≡ none) × (i ≤ 3) × (1 ≤ i → supplier_ids_in s ≡ [])

abbrev Unfinished : Outcome → Type 0
Unfinished (finished t w) = ⊥
Unfinished (interrupted t w) = HasNoSuppliers (stage_index t.current_stage) t
Unfinished (failed e) = Unit
Unfinished out_of_fuel = Unit

data_gateway-HasNoSuppliers :
    (q : GatewayQueries) (s : BatchState)
    → s.product_id ≡ none
    → HasNoSuppliers 1 (data_gateway_node q s)
unfolding data_gateway_node supplier_ids_in
data_gateway-HasNoSuppliers q s h = rw (h, data_gateway_node) (h, omega arith, λ _. refl)

compliance-HasNoSuppliers :
    (sv : Services) (s : BatchState) (db : ComplianceDb) (out : BatchState × ComplianceDb)
    → compliance_node sv s db ≡ ok out
    → HasNoSuppliers 2 s
    → HasNoSuppliers 3 out.0
unfolding supplier_ids_in
compliance-HasNoSuppliers sv s db out h c = elim (compliance_node-ok sv s db out h) [
  | inl e ↦ rw e (c.0, omega arith, λ _. c.2 (omega arith))
  | inr (j, e) ↦ rw e (unfold with_verdicts in (c.0, omega arith, λ _. c.2 (omega arith)))
]

risk_scoring-err :
    (s : BatchState) (w : World) (k : BatchState × _ → Result (BatchState × World))
    (out : BatchState × World)
    → supplier_ids_in s ≡ []
    → (risk_scoring_node s w.risk >>= k) ≢ ok out
unfolding risk_scoring_node
risk_scoring-err s w k out h = rw (h, risk_scoring_node) err-ne-ok

run_agent-HasNoSuppliers :
    (env : Env) (stage : Stage) (t : BatchState) (w : World) (out : BatchState × World)
    → HasNoSuppliers (stage_index stage) t
    → run_agent env (next_node stage) t w ≡ ok out
    → HasNoSuppliers (suc (stage_index stage)) out.0
unfolding run_agent
run_agent-HasNoSuppliers env stage_queued t w out c h =
    rw (← ok-injective h) (data_gateway-HasNoSuppliers env.gateway_queries t c.0)
run_agent-HasNoSuppliers env stage_extraction t w out c h =
    rw (← ok-injective h)
      (unfold geo_audit_node supplier_ids_in in (c.0, omega arith, λ _. c.2 (omega arith)))
run_agent-HasNoSuppliers env stage_geo t w out c h =
    let ((s', db), e, eq) = >>=-eq-ok (compliance_node env.services t w.compliance_db) _ h in
    subst (λ (o : BatchState × World). HasNoSuppliers 3 o.0) (ok-injective eq)
      (compliance-HasNoSuppliers env.services t w.compliance_db (s', db) e c)
run_agent-HasNoSuppliers env stage_compliance t w out c h =
    absurd (risk_scoring-err t w _ out (c.2 (omega arith)) h)
run_agent-HasNoSuppliers env stage_risk t w out c h = absurd (omega (arith, c.1))
run_agent-HasNoSuppliers env stage_judgment t w out c h = absurd (omega (arith, c.1))

run-Unfinished :
    (fuel : ℕ) (env : Env) (s : BatchState) (w : World)
    → HasNoSuppliers (stage_index s.current_stage) s
    → Unfinished (run fuel env s w)
run-Unfinished zero env s w c = unfold run in tt
run-Unfinished (suc fuel) env s w c =
    let t = edge_state env s in
    let kept =
      edge_state-P (λ u. HasNoSuppliers (stage_index u.current_stage) u) env s
        (λ _. unfold supplier_ids_in in c) in
    elim (run-Visits fuel env s w) [
      | inl (_, e) ↦ rw e (interruption-P Unfinished (λ _. tt) t _ (λ _. kept))
      | inr (inl (_, end, e)) ↦ absurd (at_judgment s.current_stage end c.1)
      | inr (inr (_, n, e)) ↦ rw e (
          continue-P Unfinished (λ _. tt) _ _
            λ out ran. run-Unfinished fuel env out.0 out.1 (
              rw (run_agent-stage env s.current_stage t w out n ran) (
                run_agent-HasNoSuppliers env s.current_stage t w out
                  (edge_state-P (HasNoSuppliers (stage_index s.current_stage)) env s
                    (λ _. unfold supplier_ids_in in c))
                  ran)))
    ]
  where
    at_judgment : (st : Stage) → st ≡ stage_judgment → stage_index st ≤ 3 → ⊥
    at_judgment st e l = ground arith

drive-Unfinished :
    (approvals : ℕ) (env : Env) (o : Outcome) → Unfinished o → Unfinished (drive approvals env o)
unfolding drive
drive-Unfinished zero env o h = h
drive-Unfinished (suc n) env (interrupted t w) h =
    continue-P Unfinished (λ _. tt) _ (resume_review env t w)
      λ out ran. drive-Unfinished n env _ (
        run-Unfinished full_fuel env out.0 out.1 (
          subst (λ (u : BatchState). HasNoSuppliers (stage_index u.current_stage) u)
            (sym (resume_review-ok env t w out ran)) (unfold approved_state supplier_ids_in in h)))
drive-Unfinished (suc n) env (finished t w) h = h
drive-Unfinished (suc n) env (failed e) h = tt
drive-Unfinished (suc n) env out_of_fuel h = tt

-- A batch without a product is never completed, however many approvals it gets.
pub drive-start-ne-finished :
    (approvals : ℕ) (env : Env) (w v : World) (batch_id : ℕ) (destination : Destination)
    (t : BatchState)
    → drive approvals env (run full_fuel env (initial_state batch_id none destination) w)
      ≢ finished t v
drive-start-ne-finished approvals env w v batch_id destination t h = subst Unfinished h (
    drive-Unfinished approvals env _ (
      run-Unfinished full_fuel env (initial_state batch_id none destination) w
        (unfold initial_state in (refl, omega arith, λ l. absurd (omega arith)))))
