-- ===== src/Agents/Graph/Safety.antt =====
-- The results that stand in the state of a batch that backend/agents/graph.py has not stopped.
use project_main.Prelude.{ℕ, ◌≤◌, ◌≡◌, true, false, Option, none, some, is_some}
use project_main.Schema.{stage_judgment, batch_completed}
use project_main.Agents.State.{BatchState, ExtractionResult, GeoResult, ComplianceResult}
use project_main.Agents.Graph.{Outcome, finished, interrupted, failed, out_of_fuel}

abbrev pub Confirmed : Option ExtractionResult → Type 0
Confirmed none = ⊥
Confirmed (some e) = (e.checked ≡ true) × (e.unconfirmed ≡ 0) × (e.has_missing ≡ false)

abbrev pub NoRisk : Option GeoResult → Type 0
NoRisk none = ⊥
NoRisk (some g) = g.risk_detected ≡ false

abbrev pub NoReview : Option ComplianceResult → Type 0
NoReview none = ⊥
NoReview (some c) = c.needs_human_review ≡ false

-- What the agents up to a stage have found.
abbrev pub CleanUpTo : ℕ → BatchState → Type 0
CleanUpTo i s =
    (1 ≤ i → Confirmed s.extraction_result)
    × (2 ≤ i → NoRisk s.geo_result)
    × (3 ≤ i → NoReview s.compliance_result)
    × (5 ≤ i → is_some s.final_judgment ≡ true)

-- What holds of a run's end, where the run has met no review.
abbrev pub Clears : Outcome → Type 0
Clears (finished t w) =
    (t.batch_status ≡ batch_completed) × (t.current_stage ≡ stage_judgment) × CleanUpTo 5 t
Clears (interrupted t w) = Unit
Clears (failed e) = Unit
Clears out_of_fuel = Unit
