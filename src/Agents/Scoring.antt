-- ===== src/Agents/Scoring.antt =====
-- backend/agents/automation.py and risk_scoring_node of backend/agents/graph.py: the findings of
-- the agents become violations of one supplier of the chain, whose risk score is recomputed.
use project_main.Prelude.{
  ℕ, Bool, true, false, not, ◌||◌, Option, none, some, List, [], ◌∷◌, ◌++◌, ◌==◌, any, keep,
  if◌then◌else◌, or_else, Result, ok, err, value_error, ◌>>=◌,
}
use project_main.Prelude.Int.{ℤ, leb_ℤ}
use project_main.Schema.{
  Verdict, compliance_violation, compliance_reject, compliance_warning, stage_risk, risk_escalated,
}
use project_main.Risk.{
  RiskProfile, RiskDb, Violation, verdict, geo_risk_detected, calculate_risk_score,
}
use project_main.Agents.State.{ComplianceResult, GeoResult, BatchState}

abbrev pub is_adverse : Verdict → Bool
is_adverse compliance_violation = true
is_adverse compliance_reject = true
is_adverse compliance_warning = true
is_adverse _ = false

-- The violation of an adverse verdict at the key `verdict`.
unfoldable pub compliance_violations : Option ComplianceResult → List Violation
compliance_violations none = []
compliance_violations (some c) = elim c.verdict [
  | none ↦ []
  | some v ↦
      if is_adverse v
      then record {
        type = verdict v;
        reason = some (or_else c.reasoning_text "the regulation is violated");
      }
        ∷ []
      else []
]

unfoldable pub geo_violations : Option GeoResult → List Violation
geo_violations none = []
geo_violations (some g) =
    if g.risk_detected
    then record { type = geo_risk_detected; reason = some "a geographical risk is found" } ∷ []
    else []

-- `overall_risk_score DESC NULLS LAST`
unfoldable pub above : Option ℤ → Option ℤ → Bool
above (some a) (some b) = not (leb_ℤ a b)
above (some a) none = true
above none b = false

unfoldable pub highest : List RiskProfile → Option RiskProfile
highest [] = none
highest (p ∷ ps) = elim (highest ps) [
  | none ↦ some p
  | some q ↦ some (if above q.overall_risk_score p.overall_risk_score then q else p)
]

-- The supplier with the highest stored score, or else the first of the chain.
unfoldable pub target_supplier : RiskDb → ℕ → List ℕ → ℕ
target_supplier db first sids =
    elim (highest (keep (λ (p : RiskProfile). any (λ s. s == p.supplier_id) sids) db.profiles)) [
      | none ↦ first
      | some p ↦ p.supplier_id
    ]

-- `run_risk_scoring` on suppliers of which there is at least one, with the state updated.
unfoldable pub run_risk_scoring : BatchState → RiskDb → ℕ → List ℕ → Result (BatchState × RiskDb)
run_risk_scoring state db first rest = do
  (result, db') ←
      calculate_risk_score db state.batch_id (target_supplier db first (first ∷ rest))
        (compliance_violations state.compliance_result ++ geo_violations state.geo_result)
  ok (
    record state {
      current_stage = stage_risk;
      hitl_required = state.hitl_required || result.is_escalated;
      error_reason = if result.is_escalated then some risk_escalated else state.error_reason;
    },
    db',
  )

unfoldable pub supplier_ids_in : BatchState → List ℕ
supplier_ids_in state = elim state.extraction_result [
  | none ↦ []
  | some e ↦ or_else e.supplier_ids []
]

-- `risk_scoring_node`
unfoldable pub risk_scoring_node : BatchState → RiskDb → Result (BatchState × RiskDb)
risk_scoring_node state db = elim (supplier_ids_in state) [
  | [] ↦ err value_error
  | s ∷ ss ↦ run_risk_scoring state db s ss
]
