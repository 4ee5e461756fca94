-- ===== src/Batches/Detail.antt =====
-- The detail of a batch (backend/domains/batches/repository.py: get_batch_detail).
use project_main.Prelude.{
  ℕ, String, Bool, false, ◌&&◌, Option, none, some, List, [], ◌∷◌, ◌==◌, leb, map, keep, any, find,
  take, max, null, if◌then◌else◌,
}
use project_main.Prelude.Dict.{Dict, insert}
use project_main.Prelude.Sort.{sort_by}
use project_main.Schema.{RegulationCode, code_eq, Stage, BatchStatus, Destination, Verdict}
use project_main.Batches.{Batch, is_batch, seen_by}
use project_main.Agents.State.{OverallVerdict}
use project_main.Batches.Tables.{
  Json, json_items, ResultRow, CodeRow, GeoRow, JudgmentRow, SupplyRow, RiskRow, DetailDb,
}

-- A result with the code of its regulation.
pub record CodedResult : Type 0 where
  pub regulation_code : RegulationCode
  pub verdict : Option Verdict
  pub needs_human_review : Option Bool
  pub confidence_score : Option ℕ
  pub reasoning_text : Option String

abbrev pub coded : RegulationCode → ResultRow → CodedResult
coded code r = record {
  regulation_code = code;
  verdict = r.verdict;
  needs_human_review = r.needs_human_review;
  confidence_score = r.confidence_score;
  reasoning_text = r.reasoning_text;
}

abbrev pub with_code : Option CodeRow → ResultRow → List CodedResult → List CodedResult
with_code none r rest = rest
with_code (some c) r rest = coded c.regulation_code r ∷ rest

-- `JOIN regulations`
unfoldable pub join_codes : List CodeRow → List ResultRow → List CodedResult
join_codes codes [] = []
join_codes codes (r ∷ rs) =
    with_code (find (λ (c : CodeRow). r.regulation_id == c.regulation_id) codes) r
      (join_codes codes rs)

-- `_COMPLIANCE_DETAIL_LIMIT`
abbrev pub detail_limit : ℕ
detail_limit = 20

abbrev pub judged_before : ResultRow → ResultRow → Bool
judged_before r s = leb s.created_at r.created_at

abbrev pub flag : Option Bool → Bool
flag none = false
flag (some b) = b

abbrev pub or_empty : {E : Type 0} → Option (List E) → List E
or_empty none = []
or_empty (some es) = es

abbrev pub text_or_empty : Option String → String
text_or_empty none = ""
text_or_empty (some s) = s

-- `{r["regulation_code"]: r["verdict"] for r in compliance_rows}`
unfoldable pub verdict_map :
    Dict RegulationCode (Option Verdict) → List CodedResult → Dict RegulationCode (Option Verdict)
verdict_map d [] = d
verdict_map d (r ∷ rs) = verdict_map (insert r.regulation_code r.verdict d) rs

pub record ResultDetail : Type 0 where
  pub regulation_code : RegulationCode
  pub verdict : Option Verdict
  pub needs_human_review : Option Bool
  pub confidence_score : Option ℕ
  pub reasoning_text : String

abbrev pub result_detail : CodedResult → ResultDetail
result_detail r = record {
  regulation_code = r.regulation_code;
  verdict = r.verdict;
  needs_human_review = r.needs_human_review;
  confidence_score = r.confidence_score;
  reasoning_text = text_or_empty r.reasoning_text;
}

pub record ShownCompliance : Type 0 where
  pub verdicts : Dict RegulationCode (Option Verdict)
  pub needs_human_review : Bool
  pub details : List ResultDetail

unfoldable pub compliance_result : List CodedResult → Option ShownCompliance
compliance_result rows =
    if null rows
    then none
    else some (record {
      verdicts = verdict_map [] rows;
      needs_human_review = any (λ (r : CodedResult). flag r.needs_human_review) rows;
      details = map result_detail rows;
    })

pub record ShownGeo (E : Type 0) : Type 0 where
  pub risk_detected : Bool
  pub risk_flags : List E
  pub detected_risks : List E

pub record ShownRisk : Type 0 where
  pub max_risk_score : Option ℕ
  pub has_high_risk : Bool

pub record ShownJudgment (E : Type 0) : Type 0 where
  pub overall_verdict : OverallVerdict
  pub executive_summary : String
  pub key_risks : List E
  pub recommended_action : String
  pub confidence : Option ℕ
  pub created_at : Option ℕ

pub record BatchDetail (E : Type 0) : Type 0 where
  pub batch_id : ℕ
  pub product_id : Option ℕ
  pub destination : Option Destination
  pub current_stage : Option Stage
  pub status : Option BatchStatus
  pub confidence_score : Option ℕ
  pub received_at : Option ℕ
  pub compliance : Option ShownCompliance
  pub geo : Option (ShownGeo E)
  pub risk : ShownRisk
  pub judgment : Option (ShownJudgment E)

-- The larger of the scores that are there.
abbrev pub larger_score : Option ℕ → Option ℕ → Option ℕ
larger_score none t = t
larger_score (some s) none = some s
larger_score (some s) (some t) = some (max s t)

unfoldable pub max_risk : List RiskRow → Option ℕ
max_risk [] = none
max_risk (r ∷ rs) = larger_score r.overall_risk_score (max_risk rs)

abbrev pub supplies : Option ℕ → ℕ → SupplyRow → Bool
supplies none supplier e = false
supplies (some version) supplier e =
    version == e.bom_version_id
    && elim e.child_supplier_id [ none ↦ false | some c ↦ supplier == c ]

-- The rows of the suppliers of the batch's version; how often a row is joined is of no effect on its
-- maximum and on BOOL_OR.
unfoldable pub risk_result : Batch → List SupplyRow → List RiskRow → ShownRisk
risk_result b supply risks =
    let rows = keep (λ (r : RiskRow). any (supplies b.bom_version_id r.supplier_id) supply) risks in
    record {
      max_risk_score = max_risk rows;
      has_high_risk = any (λ (r : RiskRow). flag r.is_high_risk_flag) rows;
    }

abbrev pub geo_result : {E : Type 0} → GeoRow E → ShownGeo E
geo_result g = record {
  risk_detected = flag g.risk_detected;
  risk_flags = or_empty g.risk_flags;
  detected_risks = or_empty g.detected_risks;
}

abbrev pub judgment_result :
    {E : Type 0} → (String → Option (Json E)) → JudgmentRow E → ShownJudgment E
judgment_result loads j = record {
  overall_verdict = j.overall_verdict;
  executive_summary = j.executive_summary;
  key_risks = json_items loads j.key_risks;
  recommended_action = j.recommended_action;
  confidence = j.confidence;
  created_at = j.created_at;
}

abbrev pub option_map : {S T : Type 0} → (S → T) → Option S → Option T
option_map f none = none
option_map f (some s) = some (f s)

abbrev pub visible_batch : ℕ → Option ℕ → Batch → Bool
visible_batch id tenant b = is_batch id b && seen_by tenant b.tenant_id

abbrev pub newest_results : {E : Type 0} → DetailDb E → ℕ → List CodedResult
newest_results db id = take detail_limit (
    join_codes db.codes
      (sort_by judged_before (keep (λ (r : ResultRow). id == r.batch_id) db.results)))

abbrev pub batch_detail :
    {E : Type 0} → (String → Option (Json E)) → DetailDb E → Batch → BatchDetail E
batch_detail loads db b = record {
  batch_id = b.batch_id;
  product_id = b.product_id;
  destination = b.destination;
  current_stage = b.current_stage;
  status = b.status;
  confidence_score = b.confidence_score;
  received_at = b.received_at;
  compliance = compliance_result (newest_results db b.batch_id);
  geo = option_map geo_result (find (λ g. b.batch_id == g.batch_id) db.geo);
  risk = risk_result b db.supply db.risks;
  judgment = option_map (judgment_result loads) (find (λ j. b.batch_id == j.batch_id) db.judgments);
}

unfoldable pub get_batch_detail :
    {E : Type 0} → (String → Option (Json E)) → DetailDb E → ℕ → Option ℕ → Option (BatchDetail E)
get_batch_detail loads db id tenant =
    option_map (batch_detail loads db) (find (visible_batch id tenant) db.batches)
