-- ===== src/Agents/State.antt =====
-- backend/agents/state.py: the state that the nodes of the graph share. A key of the dictionary
-- that may be missing is an Option.
use project_main.Prelude.{ℕ, String, Bool, Option, List}
use project_main.Prelude.Dict.{Dict}
use project_main.Schema.{Stage, BatchStatus, Destination, RegulationCode, Verdict, ErrorReason}

-- Confidence scores are counted in ten-thousandths, as batches.confidence_score NUMERIC(5, 4)
-- stores them.
abbrev pub full_confidence : ℕ
full_confidence = 10000

-- What `data_gateway` reports, and the further keys that the compliance agent looks for. Recycled
-- shares are counted in hundredths of a per cent.
pub record ExtractionResult : Type 0 where
  pub checked : Bool
  pub count : Option ℕ
  pub supplier_ids : Option (List ℕ)
  pub unconfirmed : ℕ
  pub has_missing : Bool
  pub promoted_suppliers : ℕ
  pub supplier_id : Option ℕ
  pub origin_country : Option String
  pub carbon_intensity : Option ℕ
  pub recycled_content_ratio : Option ℕ
  pub recycled_materials : Option (Dict String ℕ)

pub data RiskType : Type 0 where
  xinjiang country_mismatch eudr_deforestation : RiskType

pub record GeoResult : Type 0 where
  pub risk_detected : Bool
  pub risk_flags : List RiskType

-- `verdict` and `reasoning_text` are keys that the risk scoring looks for.
pub record ComplianceResult : Type 0 where
  pub verdicts : Dict RegulationCode Verdict
  pub needs_human_review : Bool
  pub skipped : Bool
  pub passed : ℕ
  pub gray_zone : ℕ
  pub verdict : Option Verdict
  pub reasoning_text : Option String

pub data OverallVerdict : Type 0 where
  fail conditional pass : OverallVerdict

pub record BatchState : Type 0 where
  pub batch_id : ℕ
  pub product_id : Option ℕ
  pub destination : Option Destination
  pub current_stage : Stage
  pub batch_status : BatchStatus
  pub confidence_score : Option ℕ
  pub applicable_regulations : Option (List RegulationCode)
  pub hitl_required : Bool
  pub error_reason : Option ErrorReason
  pub extraction_result : Option ExtractionResult
  pub geo_result : Option GeoResult
  pub compliance_result : Option ComplianceResult
  pub final_judgment : Option OverallVerdict
