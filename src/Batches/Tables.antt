-- ===== src/Batches/Tables.antt =====
-- The tables that get_batch_detail (backend/domains/batches/repository.py) reads. The type of the values
-- in a JSON column and the parsing of a text are parameters.
use project_main.Prelude.{ℕ, String, Bool, Option, none, some, List, [], ◌∷◌}
use project_main.Schema.{RegulationCode, Verdict}
use project_main.Agents.State.{OverallVerdict}
use project_main.Batches.{Batch}

-- A value of a JSON column; E is the type of the elements.
pub data Json (E : Type 0) : Type 0 where
  json_list : List E → Json E
  json_dict : E → Json E
  json_text : String → Json E
  json_other : Json E

abbrev pub parsed_list : {E : Type 0} → Option (Json E) → List E
parsed_list (some (json_list es)) = es
parsed_list _ = []

-- `_json_list`, with json.loads, which raises for some texts
unfoldable pub json_items : {E : Type 0} → (String → Option (Json E)) → Option (Json E) → List E
json_items loads none = []
json_items loads (some (json_list es)) = es
json_items loads (some (json_dict e)) = e ∷ []
json_items loads (some (json_text s)) = parsed_list (loads s)
json_items loads (some json_other) = []

pub record ResultRow : Type 0 where
  pub batch_id : ℕ
  pub regulation_id : ℕ
  pub verdict : Option Verdict
  pub needs_human_review : Option Bool
  pub confidence_score : Option ℕ
  pub reasoning_text : Option String
  pub created_at : ℕ

pub record CodeRow : Type 0 where
  pub regulation_id : ℕ
  pub regulation_code : RegulationCode

-- `batch_id` is unique in geo_audit_results and in batch_final_judgment.
pub record GeoRow (E : Type 0) : Type 0 where
  pub batch_id : ℕ
  pub risk_detected : Option Bool
  pub risk_flags : Option (List E)
  pub detected_risks : Option (List E)

pub record JudgmentRow (E : Type 0) : Type 0 where
  pub batch_id : ℕ
  pub overall_verdict : OverallVerdict
  pub executive_summary : String
  pub key_risks : Option (Json E)
  pub recommended_action : String
  pub confidence : Option ℕ
  pub created_at : Option ℕ

pub record SupplyRow : Type 0 where
  pub bom_version_id : ℕ
  pub child_supplier_id : Option ℕ

pub record RiskRow : Type 0 where
  pub supplier_id : ℕ
  pub overall_risk_score : Option ℕ
  pub is_high_risk_flag : Option Bool

pub record DetailDb (E : Type 0) : Type 0 where
  pub batches : List Batch
  pub results : List ResultRow
  pub codes : List CodeRow
  pub geo : List (GeoRow E)
  pub supply : List SupplyRow
  pub risks : List RiskRow
  pub judgments : List (JudgmentRow E)
