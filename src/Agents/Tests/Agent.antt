-- ===== src/Agents/Tests/Agent.antt =====
-- Single agents on that product.
use project_main.Prelude.{ℕ, ◌≡◌, refl, ◌≢◌, ◌↔◌, inl, true, none, some, [], ◌∷◌, value_or, All}
use project_main.Prelude.Dict.{Dict}
use project_main.Schema.{
  us, RegulationCode, eu_battery, eudr, uflpa, code_eq, Verdict, compliance_reject,
  compliance_passed, low_confidence,
}
use project_main.Agents.State.{BatchState}
use project_main.Agents.Gateway.{data_gateway_node}
use project_main.Agents.Gateway.Gate.{Acceptable, results_of, data_gateway_node-passes}
use project_main.Agents.Judges.{
  JudgeResult, judge, judged, judge_generic, judge_uflpa, validate_cited_clauses,
  build_judge_context,
}
use project_main.Agents.Compliance.{
  ComplianceDb, compliance_node, judge_all, record_result, insert_compliance_result,
}
use project_main.Agents.Compliance.Verdicts.{judge-Backed}
use project_main.Agents.Compliance.Review.{compliance_node-stops}
use project_main.Agents.Graph.{initial_state}
use project_main.Agents.Tests.World.{services, uncited, gateway_queries, compliance_db}

abbrev start : BatchState
start = initial_state 1 (some 3) us

data_gateway_node-passes_example :
    ((data_gateway_node gateway_queries start).error_reason ≡ none) ↔ (
      (p : ℕ) × (start.product_id ≡ some p)
      × (results_of gateway_queries p ≢ [])
      × All (Acceptable gateway_queries) (results_of gateway_queries p))
data_gateway_node-passes_example = data_gateway_node-passes gateway_queries start

-- A batch under two regulations, whose judges cite nothing.
abbrev two_codes : BatchState
two_codes = record start { applicable_regulations = some (eudr ∷ uflpa ∷ []) }

abbrev no_citation : JudgeResult
no_citation = record {
  verdict = some compliance_reject;
  needs_human_review = true;
  cited_clauses = [];
  confidence_score = 9500;
}

judge-Backed_example :
    (no_citation.verdict ≡ some compliance_reject) × (no_citation.needs_human_review ≡ true)
unfolding judge judge_generic judged validate_cited_clauses
judge-Backed_example =
    judge-Backed uncited eudr 1 (build_judge_context two_codes) no_citation refl refl

abbrev two_judged : BatchState × ComplianceDb
two_judged = value_or (compliance_node uncited two_codes compliance_db) (start, compliance_db)

compliance_node-stops_example : two_judged.0.error_reason ≡ some low_confidence
unfolding compliance_node judge_all judge judge_generic judge_uflpa judged validate_cited_clauses
    record_result insert_compliance_result
compliance_node-stops_example =
    compliance_node-stops uncited two_codes compliance_db two_judged (eudr ∷ uflpa ∷ []) eudr
      no_citation refl (inl refl) refl refl refl

abbrev battery : BatchState
battery = record start { applicable_regulations = some (eu_battery ∷ eudr ∷ []) }

abbrev battery_judged : BatchState × ComplianceDb
battery_judged = value_or (compliance_node services battery compliance_db) (start, compliance_db)

abbrev mixed : Dict RegulationCode Verdict
mixed = (eudr, compliance_passed) ∷ (uflpa, compliance_reject) ∷ []
