-- ===== src/Agents/Judgment.antt =====
-- backend/agents/final_judgment.py and summary_batch.py: one judgment from the verdicts, the
-- geographical risks and the risk level of the supply chain. A sentence of the summary is a
-- constructor with the numbers that it mentions.
pub mod Summary
use project_main.Prelude.{
  ℕ, ◌+◌, String, Bool, true, false, not, ◌&&◌, ◌||◌, Option, none, some, List, [], ◌∷◌, ◌++◌, ◌==◌,
  ltb, any, count, keep, null, map, if◌then◌else◌, or_else, take, update_where,
}
use project_main.Prelude.Int.{ℤ, pos, max_ℤ}
use project_main.Prelude.Dict.{Dict, insert, lookup, values, nat_eq}
use project_main.Schema.{
  Verdict, compliance_passed, compliance_violation, compliance_reject, compliance_warning,
  RegulationCode, code_eq, Stage, stage_judgment, RiskLevel, low, medium, high, critical,
}
use project_main.Risk.{RiskProfile, calculate_risk_level, is_critical, is_high_risk}
use project_main.Agents.State.{
  RiskType, xinjiang, country_mismatch, eudr_deforestation, GeoResult, OverallVerdict, fail,
  conditional, pass, BatchState,
}
use project_main.Agents.Compliance.{ComplianceRow, is_passed, is_warning}

-- `v in ("compliance_violation", "compliance_reject")`
abbrev pub is_violation : Verdict → Bool
is_violation compliance_violation = true
is_violation compliance_reject = true
is_violation _ = false

abbrev pub is_high : RiskLevel → Bool
is_high high = true
is_high _ = false

unfoldable pub roll_up_verdict : Dict RegulationCode Verdict → Bool → RiskLevel → OverallVerdict
roll_up_verdict verdicts geo_risk risk_level =
    if any is_violation (values verdicts) || is_critical risk_level
    then fail
    else if any is_warning (values verdicts) || geo_risk || is_high risk_level
    then conditional
    else pass

pub record Metrics : Type 0 where
  pub violation : ℕ
  pub warning : ℕ
  pub passed : ℕ
  pub geo_flags : List RiskType
  pub risk_score : ℤ
  pub risk_level : RiskLevel

-- The place of a flag's text in the order of texts.
abbrev pub flag_rank : RiskType → ℕ
flag_rank country_mismatch = 0
flag_rank eudr_deforestation = 1
flag_rank xinjiang = 2

unfoldable pub insert_flag : RiskType → List RiskType → List RiskType
insert_flag f [] = f ∷ []
insert_flag f (g ∷ gs) =
    let rest = insert_flag f gs in if ltb (flag_rank g) (flag_rank f) then g ∷ rest else f ∷ g ∷ gs

-- `sorted(str(flag) for flag in geo_flags)`
unfoldable pub sorted_flags : List RiskType → List RiskType
sorted_flags [] = []
sorted_flags (f ∷ fs) = insert_flag f (sorted_flags fs)

unfoldable pub build_metrics :
    Dict RegulationCode Verdict → List RiskType → Bool → ℤ → RiskLevel → Metrics
build_metrics verdicts geo_flags geo_risk risk_score risk_level = record {
  violation = count is_violation (values verdicts);
  warning =
      count is_warning (values verdicts)
      + (if geo_risk then 1 else 0)
      + (if is_high risk_level then 1 else 0);
  passed = count is_passed (values verdicts);
  geo_flags = sorted_flags geo_flags;
  risk_score = risk_score;
  risk_level = risk_level;
}

pub data Sentence : Type 0 where
  violations_found : ℕ → Sentence
  critical_chain : ℤ → Sentence
  high_risk_signal : Sentence
  signals_found : ℕ → Sentence
  all_passed : ℕ → Sentence
  geo_risks : List RiskType → Sentence
  risk_of_chain : RiskLevel → ℤ → Sentence

-- The first sentence, and whether it mentions the risk level.
unfoldable pub opening : OverallVerdict → Metrics → Sentence × Bool
opening fail m =
    if ltb 0 m.violation
    then (violations_found m.violation, false)
    else if is_critical m.risk_level
    then (critical_chain m.risk_score, true)
    else (high_risk_signal, false)
opening conditional m = (signals_found m.warning, false)
opening pass m = (all_passed m.passed, false)

unfoldable pub render_summary : OverallVerdict → Metrics → List Sentence
render_summary v m =
    let (first, risk_mentioned) = opening v m in
    first ∷ (if null m.geo_flags then [] else geo_risks m.geo_flags ∷ [])
    ++ (if not risk_mentioned && is_high_risk m.risk_level
        then risk_of_chain m.risk_level m.risk_score ∷ []
        else [])

pub data KeyRisk : Type 0 where
  violation_count signal_count : ℕ → KeyRisk
  geo_risk_flag : RiskType → KeyRisk
  chain_level : RiskLevel → ℤ → KeyRisk

unfoldable pub all_risks : Metrics → List KeyRisk
all_risks m =
    (if m.violation == 0 then [] else violation_count m.violation ∷ [])
    ++ ((if m.warning == 0 then [] else signal_count m.warning ∷ [])
        ++ (map geo_risk_flag m.geo_flags
            ++ (if is_high_risk m.risk_level
                then chain_level m.risk_level m.risk_score ∷ []
                else [])))

unfoldable pub render_key_risks : Metrics → List KeyRisk
render_key_risks m = take 5 (all_risks m)

-- A row of batch_final_judgment. `recommended_action` is determined by the verdict.
pub record Judgment : Type 0 where
  pub overall_verdict : OverallVerdict
  pub executive_summary : List Sentence
  pub key_risks : List KeyRisk
  pub confidence : Option ℕ

-- batch_final_judgment by batch, and the column current_stage of batches.
pub record JudgmentDb : Type 0 where
  pub judgments : Dict ℕ Judgment
  pub stages : Dict ℕ Stage

-- The rows of the batch, a later row of a regulation over an earlier one.
unfoldable pub load_verdicts :
    ℕ → List ComplianceRow → Dict RegulationCode Verdict → Dict RegulationCode Verdict
load_verdicts b [] found = found
load_verdicts b (row ∷ rows) found =
    load_verdicts b rows
      (if b == row.batch_id then insert row.regulation_code row.verdict found else found)

unfoldable pub load_geo : ℕ → Dict ℕ GeoResult → Bool × List RiskType
load_geo b results = elim (lookup b results) [
  | none ↦ (false, [])
  | some g ↦ (g.risk_detected, g.risk_flags)
]

-- `MAX(overall_risk_score)`, which passes over missing scores
unfoldable pub max_score : List RiskProfile → Option ℤ
max_score [] = none
max_score (p ∷ ps) = elim p.overall_risk_score [
  | none ↦ max_score ps
  | some a ↦ elim (max_score ps) [ none ↦ some a | some b ↦ some (max_ℤ a b) ]
]

-- `chain` stands for the suppliers of the version of the product that the batch is of.
unfoldable pub load_risk_score : (ℕ → List ℕ) → ℕ → List RiskProfile → ℤ
load_risk_score chain b profiles =
    or_else
      (max_score (keep (λ (p : RiskProfile). any (λ s. s == p.supplier_id) (chain b)) profiles))
      (pos 0)

-- `compliance_result.get("verdicts") or await _load_verdicts(...)`
unfoldable pub verdicts_of : BatchState → List ComplianceRow → Dict RegulationCode Verdict
verdicts_of state rows = elim state.compliance_result [
  | none ↦ load_verdicts state.batch_id rows []
  | some c ↦ if null c.verdicts then load_verdicts state.batch_id rows [] else c.verdicts
]

unfoldable pub geo_of : BatchState → Dict ℕ GeoResult → Bool × List RiskType
geo_of state results = elim state.geo_result [
  | none ↦ load_geo state.batch_id results
  | some g ↦ (g.risk_detected, g.risk_flags)
]

unfoldable pub judgment_of :
    Option ℕ → Dict RegulationCode Verdict → Bool × List RiskType → ℤ → Judgment
judgment_of confidence verdicts (geo_risk, geo_flags) risk_score =
    let risk_level = calculate_risk_level risk_score in
    let metrics = build_metrics verdicts geo_flags geo_risk risk_score risk_level in
    let overall = roll_up_verdict verdicts geo_risk risk_level in
    record {
      overall_verdict = overall;
      executive_summary = render_summary overall metrics;
      key_risks = render_key_risks metrics;
      confidence = confidence;
    }

unfoldable pub store_judgment : ℕ → Judgment → JudgmentDb → JudgmentDb
store_judgment b j db = record {
  judgments = insert b j db.judgments;
  stages =
      update_where (λ (row : ℕ × Stage). b == row.0) (λ row. (row.0, stage_judgment)) db.stages;
}

-- `final_judgment_node`
unfoldable pub final_judgment_node :
    (ℕ → List ℕ)
    → BatchState
    → List ComplianceRow
    → Dict ℕ GeoResult
    → List RiskProfile
    → JudgmentDb
    → BatchState × JudgmentDb
final_judgment_node chain state rows results profiles db =
    let j =
      judgment_of state.confidence_score (verdicts_of state rows) (geo_of state results)
        (load_risk_score chain state.batch_id profiles) in
    (
      record state { current_stage = stage_judgment; final_judgment = some j.overall_verdict },
      store_judgment state.batch_id j db,
    )
