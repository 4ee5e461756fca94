-- ===== src/Schema.antt =====
-- The vocabularies that docker/01_schema.sql fixes by CHECK constraints and that the Python code
-- compares as texts.
use project_main.Prelude.{ℕ, ◌+◌, Bool, true, ◌≡◌, ◌↔◌, arith, ◌==◌}
use project_main.Prelude.Dict.{Eq}

-- batches.current_stage (chk_batch_stage)
pub data Stage : Type 0 where
  stage_queued stage_extraction stage_geo stage_compliance stage_risk stage_judgment : Stage

-- The order of the stages along the pipeline.
abbrev pub stage_index : Stage → ℕ
stage_index stage_queued = 0
stage_index stage_extraction = 1
stage_index stage_geo = 2
stage_index stage_compliance = 3
stage_index stage_risk = 4
stage_index stage_judgment = 5

unfoldable pub same_stage : Stage → Stage → Bool
same_stage s t = stage_index s == stage_index t

-- batches.status (chk_batch_status)
pub data BatchStatus : Type 0 where
  batch_processing batch_hitl_wait batch_completed batch_rejected : BatchStatus

-- compliance_results.verdict: the four texts of chk_compliance_verdict; `other_verdict` is any other
-- text, which a language model may return and the table refuses.
pub data Verdict : Type 0 where
  compliance_passed compliance_violation compliance_warning compliance_reject : Verdict
  other_verdict : ℕ → Verdict

-- batches.destination (chk_batch_destination) and any other key
pub data Destination : Type 0 where
  eu us kr both : Destination
  other_destination : ℕ → Destination

-- regulations.regulation_code: the codes that the compliance agent knows, and any other
pub data RegulationCode : Type 0 where
  eu_battery eu_battery_art7 eu_battery_art47 eudr csddd : RegulationCode
  cbam conflict_minerals crma uflpa : RegulationCode
  unmapped : ℕ → RegulationCode

abbrev pub code_index : RegulationCode → ℕ
code_index eu_battery = 0
code_index eu_battery_art7 = 1
code_index eu_battery_art47 = 2
code_index eudr = 3
code_index csddd = 4
code_index cbam = 5
code_index conflict_minerals = 6
code_index crma = 7
code_index uflpa = 8
code_index (unmapped n) = 9 + n

unfoldable pub same_code : RegulationCode → RegulationCode → Bool
same_code a b = code_index a == code_index b

pub same_code_iff : (a b : RegulationCode) → (same_code a b ≡ true) ↔ (a ≡ b)
unfolding same_code
same_code_iff a b = ground arith

instance abbrev pub code_eq : Eq RegulationCode
code_eq = record { beq = same_code; beq_iff = same_code_iff }

-- supplier_risk_profiles.risk_level (chk_profile_risk)
pub data RiskLevel : Type 0 where
  low medium high critical : RiskLevel

-- `error_reason` of the shared state; `other_reason` is any text that the supervisor ignores.
pub data ErrorReason : Type 0 where
  geographical_risk risk_escalated low_confidence : ErrorReason
  other_reason : ℕ → ErrorReason
