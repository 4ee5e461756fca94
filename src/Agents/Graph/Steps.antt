-- ===== src/Agents/Graph/Steps.antt =====
-- One visit of the supervisor in backend/agents/graph.py: what happens next, and the stage that
-- each agent leaves behind.
use project_main.Prelude.{
  ℕ, suc, ◌≡◌, refl, ◌≢◌, ◌⊎◌, inl, inr, Bool, true, false, Result, ok, err, >>=-eq-ok,
  ok-injective, ap, arith, sym, List, [], Bool-cases, none, null, or_else, Error, ◌||◌,
  if◌then◌else◌, Option, some, list-cases, err-ne-ok,
}
use project_main.Schema.{
  Stage, stage_queued, stage_extraction, stage_geo, stage_compliance, stage_risk, stage_judgment,
  risk_escalated as er_risk_escalated, RegulationCode,
}
use project_main.Agents.State.{BatchState}
use project_main.Agents.Supervisor.{stops, next_node, choose, route, inject_regulations}
use project_main.Agents.Compliance.{
  ComplianceDb, Judged, compliance_node, with_verdicts, skipped_result, judge_all,
}
use project_main.Agents.Judges.{Services}
use project_main.Risk.{RiskDb, calculate_risk_score}
use project_main.Agents.Scoring.{risk_scoring_node, run_risk_scoring, supplier_ids_in}
use project_main.Agents.Graph.{
  World, Env, Outcome, finished, failed, interrupted, interruption, continue, visit, run, run_agent,
  edge_state, request_review, completed_node,
}

-- The three ways in which a visit goes on.
abbrev pub Visits :
    (BatchState → World → Outcome) → Env → Bool → Stage → BatchState → World → Outcome → Type 0
Visits next env stop stage t w o =
    ((stop ≡ true) × (o ≡ interruption t (request_review env t w)))
    ⊎ (((stop ≡ false) × (stage ≡ stage_judgment) × (o ≡ finished (completed_node t) w))
        ⊎ ((stop ≡ false)
            × (stage ≢ stage_judgment)
            × (o ≡ continue next (run_agent env (next_node stage) t w))))

visit-choose :
    (next : BatchState → World → Outcome) (env : Env) (stop : Bool) (stage : Stage) (t : BatchState)
    (w : World)
    → Visits next env stop stage t w (visit next env (choose stop stage) t w)
unfolding visit
visit-choose next env true stage t w = inl (refl, refl)
visit-choose next env false stage_queued t w = inr (inr (refl, λ h. cc, refl))
visit-choose next env false stage_extraction t w = inr (inr (refl, λ h. cc, refl))
visit-choose next env false stage_geo t w = inr (inr (refl, λ h. cc, refl))
visit-choose next env false stage_compliance t w = inr (inr (refl, λ h. cc, refl))
visit-choose next env false stage_risk t w = inr (inr (refl, λ h. cc, refl))
visit-choose next env false stage_judgment t w = inr (inl (refl, refl, refl))

pub run-Visits :
    (fuel : ℕ) (env : Env) (s : BatchState) (w : World)
    → Visits
        (λ t v. run fuel env t v)
        env
        (stops s.error_reason)
        s.current_stage
        (edge_state env s)
        w
        (run (suc fuel) env s w)
unfolding run route
run-Visits fuel env s w =
    visit-choose _ env (stops s.error_reason) s.current_stage (edge_state env s) w

-- The edge writes nothing but the regulations.
pub edge_state-same :
    (env : Env) (s : BatchState)
    → let t = edge_state env s in
      (t.current_stage ≡ s.current_stage)
      × (t.error_reason ≡ s.error_reason)
      × (t.extraction_result ≡ s.extraction_result)
      × (t.geo_result ≡ s.geo_result)
      × (t.compliance_result ≡ s.compliance_result)
      × (t.final_judgment ≡ s.final_judgment)
      × (t.product_id ≡ s.product_id)
      × (t.batch_id ≡ s.batch_id)
unfolding edge_state route inject_regulations
edge_state-same env s = ground arith

-- The compliance agent skips, or it judges all applicable regulations.
pub compliance_node-ok :
    (sv : Services) (s : BatchState) (db : ComplianceDb) (out : BatchState × ComplianceDb)
    → compliance_node sv s db ≡ ok out
    → (out.0 ≡ record s {
      current_stage = stage_compliance;
      compliance_result = some (skipped_result sv);
    })
      ⊎ ((j : Judged) × (out.0 ≡ with_verdicts sv s j))
unfolding compliance_node
compliance_node-ok sv s db out h = elim (Bool-cases (null (or_else s.applicable_regulations []))) [
  | inl e ↦ inl (ap (λ (o : BatchState × ComplianceDb). o.0) (sym (ok-injective (rw e at h))))
  | inr e ↦
      let (j, _, k) = >>=-eq-ok (judge_all sv _ _ _) _ (rw e at h) in
      inr (j, ap (λ (o : BatchState × ComplianceDb). o.0) (sym (ok-injective k)))
]

-- What the risk scoring writes, given whether it has escalated.
abbrev pub scored_state : BatchState → Bool → BatchState
scored_state s escalated = record s {
  current_stage = stage_risk;
  hitl_required = s.hitl_required || escalated;
  error_reason = if escalated then some er_risk_escalated else s.error_reason;
}

run_risk_scoring-ok :
    (s : BatchState) (db : RiskDb) (i : ℕ) (is : List ℕ) (out : BatchState × RiskDb)
    → run_risk_scoring s db i is ≡ ok out
    → (b : Bool) × (out.0 ≡ scored_state s b)
unfolding run_risk_scoring
run_risk_scoring-ok s db i is out h =
    let ((r, _), _, k) = >>=-eq-ok (calculate_risk_score db _ _ _) _ h in
    (r.is_escalated, ap (λ (o : BatchState × RiskDb). o.0) (sym (ok-injective k)))

pub risk_scoring_node-ok :
    (s : BatchState) (db : RiskDb) (out : BatchState × RiskDb)
    → risk_scoring_node s db ≡ ok out
    → (b : Bool) × (out.0 ≡ scored_state s b)
unfolding risk_scoring_node
risk_scoring_node-ok s db out h = elim (list-cases (supplier_ids_in s)) [
  | inl e ↦ absurd (err-ne-ok (rw (e, risk_scoring_node) at h))
  | inr (i, is, e) ↦ run_risk_scoring-ok s db i is out (rw (e, risk_scoring_node) at h)
]

module _ (P : Outcome → Type 0) (p_failed : (e : Error) → P (failed e)) where
  pub interruption-P :
      (s : BatchState) (r : Result World)
      → ((w : World) → P (interrupted s w))
      → P (interruption s r)
  interruption-P s (ok w) h = h w
  interruption-P s (err e) h = p_failed e

  pub continue-P :
      (next : BatchState → World → Outcome) (r : Result (BatchState × World))
      → ((out : BatchState × World) → r ≡ ok out → P (next out.0 out.1))
      → P (continue next r)
  continue-P next (ok out) h = h out refl
  continue-P next (err e) h = p_failed e

inject_regulations-P :
    (P : BatchState → Type 0) (s : BatchState) (a : Option (List RegulationCode))
    → ((rs : Option (List RegulationCode)) → P (record s { applicable_regulations = rs }))
    → P (inject_regulations (record s { applicable_regulations = a }))
unfolding inject_regulations
inject_regulations-P P s none k = k _
inject_regulations-P P s (some rs) k = k _

-- A predicate that does not depend on the regulations holds across the supervisor's edge.
pub edge_state-P :
    (P : BatchState → Type 0) (env : Env) (s : BatchState)
    → ((rs : Option (List RegulationCode)) → P (record s { applicable_regulations = rs }))
    → P (edge_state env s)
unfolding edge_state route
edge_state-P P env s k = k s.applicable_regulations
