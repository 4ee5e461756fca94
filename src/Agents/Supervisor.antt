-- ===== src/Agents/Supervisor.antt =====
-- backend/agents/supervisor.py: the deterministic router, and the table of regulations by
-- destination of backend/agents/compliance.py that it reads.
use project_main.Prelude.{Bool, true, false, Option, none, some, List, [], ◌∷◌}
use project_main.Schema.{
  Stage, stage_queued, stage_extraction, stage_geo, stage_compliance, stage_risk, stage_judgment,
  ErrorReason, other_reason, Destination, eu, us, kr, both, other_destination, RegulationCode,
  eu_battery, eu_battery_art7, eu_battery_art47, eudr, csddd, cbam, conflict_minerals, crma, uflpa,
}
use project_main.Agents.State.{BatchState}

pub data Node : Type 0 where
  data_gateway geo_audit compliance risk_scoring final_judgment hitl_interrupt completed : Node

-- `REGULATION_BY_DESTINATION.get(destination, [])`
unfoldable pub regulations_for : Option Destination → List RegulationCode
regulations_for (some eu) =
    eu_battery ∷ eu_battery_art7 ∷ eu_battery_art47 ∷ eudr ∷ csddd ∷ cbam ∷ conflict_minerals ∷ crma
    ∷ []
regulations_for (some us) = uflpa ∷ conflict_minerals ∷ []
regulations_for (some kr) = []
regulations_for (some both) =
    eu_battery ∷ eu_battery_art7 ∷ eu_battery_art47 ∷ eudr ∷ csddd ∷ cbam ∷ conflict_minerals ∷ crma
    ∷ uflpa ∷ []
regulations_for (some (other_destination _)) = []
regulations_for none = []

-- `er in ("geographical_risk", "risk_escalated", "low_confidence")`
abbrev pub stops : Option ErrorReason → Bool
stops none = false
stops (some (other_reason _)) = false
stops (some _) = true

abbrev pub next_node : Stage → Node
next_node stage_queued = data_gateway
next_node stage_extraction = geo_audit
next_node stage_geo = compliance
next_node stage_compliance = risk_scoring
next_node stage_risk = final_judgment
next_node stage_judgment = completed

abbrev pub choose : Bool → Stage → Node
choose true _ = hitl_interrupt
choose false stage = next_node stage

-- The dictionary as `route` leaves it: the regulations are written once.
unfoldable pub inject_regulations : BatchState → BatchState
inject_regulations state = elim state.applicable_regulations [
  | none ↦ record state { applicable_regulations = some (regulations_for state.destination) }
  | some _ ↦ state
]

-- `route`: the next node, and the dictionary that it was called with as it leaves it.
unfoldable pub route : BatchState → Node × BatchState
unfolding inject_regulations
route state = (choose (stops state.error_reason) state.current_stage, inject_regulations state)
