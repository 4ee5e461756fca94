-- ===== src/Agents/Judges.antt =====
-- backend/agents/compliance.py: the search for clauses, the call of the language model behind a
-- result, and one judge for each regulation. The database's rows and the model are parameters.
use project_main.Prelude.{
  ℕ, ◌+◌, ◌*◌, String, Bool, true, false, Option, none, some, List, [], ◌∷◌, ltb, ◌==◌, null,
  if◌then◌else◌, or_else, is_some,
}
use project_main.Prelude.Dict.{Dict, lookup, string_eq}
use project_main.Schema.{
  Destination, RegulationCode, eu_battery, eu_battery_art7, eu_battery_art47, eudr, csddd, cbam,
  conflict_minerals, crma, uflpa, unmapped, Verdict, compliance_passed, compliance_reject,
}
use project_main.Agents.State.{full_confidence, RiskType, BatchState}

-- A clause that the search found; the fallback search gives no citation and no content.
pub record Clause : Type 0 where
  pub regulation_code : RegulationCode
  pub name : String
  pub description : String
  pub citation : Option String
  pub content : Option String

pub record CitedClause : Type 0 where
  pub citation : String
  pub content : String

-- The hint that two of the judges compute for the model.
pub data Hint : Type 0 where
  violation warning passed : Hint

-- A mineral below its minimum share: its name, its share and the minimum.
pub record Shortfall : Type 0 where
  pub mineral : String
  pub share : ℕ
  pub minimum : ℕ

-- What a judge adds to the context. A weighted carbon intensity is a sum of products over the sum
-- of its weights.
pub data Enrichment : Type 0 where
  plain : Enrichment
  carbon : ℕ → ℕ → ℕ → Hint → Enrichment
  recycled : List Shortfall → Hint → Enrichment

pub record JudgeContext : Type 0 where
  pub batch_id : ℕ
  pub product_id : Option ℕ
  pub destination : Option Destination
  pub supplier_id : Option ℕ
  pub origin_country : String
  pub carbon_intensity : Option ℕ
  pub geo_risk_flags : List RiskType
  pub recycled_content_ratio : Option ℕ
  pub recycled_materials : Option (Dict String ℕ)
  pub enrichment : Enrichment

-- The JSON object that the model returns; any key may be missing.
pub record LlmReply : Type 0 where
  pub verdict : Option Verdict
  pub needs_human_review : Option Bool
  pub cited_clauses : List CitedClause
  pub confidence_score : Option ℕ
  pub reasoning_text : Option String

pub record JudgeResult : Type 0 where
  pub verdict : Option Verdict
  pub needs_human_review : Bool
  pub cited_clauses : List CitedClause
  pub confidence_score : ℕ

pub record Services : Type 0 where
  -- the indexed clauses of a regulation nearest to a query, and the fallback on its summary
  pub clause_rows : String → RegulationCode → ℕ → List Clause
  pub fallback_rows : String → RegulationCode → ℕ → List Clause
  -- the parsed reply of the model; none where the call or the parsing raises
  pub llm : RegulationCode → List Clause → JudgeContext → Option LlmReply
  -- carbon_intensity and ratio_percentage of the declarations of a batch's factories
  pub carbon_rows : ℕ → List (ℕ × ℕ)
  pub missing_declaration_count : ℕ → ℕ
  -- whether `regulations` has a row of this code
  pub registered : RegulationCode → Bool

-- `_build_judge_context`
unfoldable pub build_judge_context : BatchState → JudgeContext
build_judge_context state = record {
  batch_id = state.batch_id;
  product_id = state.product_id;
  destination = state.destination;
  supplier_id = elim state.extraction_result [ none ↦ none | some e ↦ e.supplier_id ];
  origin_country = elim state.extraction_result [
    | none ↦ ""
    | some e ↦ or_else e.origin_country ""
  ];
  carbon_intensity = elim state.extraction_result [ none ↦ none | some e ↦ e.carbon_intensity ];
  geo_risk_flags = elim state.geo_result [ none ↦ [] | some g ↦ g.risk_flags ];
  recycled_content_ratio = elim state.extraction_result [
    | none ↦ none
    | some e ↦ e.recycled_content_ratio
  ];
  recycled_materials = elim state.extraction_result [ none ↦ none | some e ↦ e.recycled_materials ];
  enrichment = plain;
}

-- `_validate_cited_clauses`
unfoldable pub validate_cited_clauses : LlmReply → JudgeResult
validate_cited_clauses reply =
    let uncited = null reply.cited_clauses in
    record {
      verdict = if uncited then some compliance_reject else reply.verdict;
      needs_human_review = if uncited then true else or_else reply.needs_human_review false;
      cited_clauses = reply.cited_clauses;
      confidence_score = or_else reply.confidence_score 9000;
    }

-- The rejection without a verdict of the model: it failed, or there was nothing to judge.
unfoldable pub rejected_for_review : JudgeResult
rejected_for_review = record {
  verdict = some compliance_reject;
  needs_human_review = true;
  cited_clauses = [];
  confidence_score = 0;
}

-- `_stub_passed_judge`, for regulations out of scope
unfoldable pub stub_passed_judge : RegulationCode → JudgeResult
stub_passed_judge code = record {
  verdict = some compliance_passed;
  needs_human_review = false;
  cited_clauses = record { citation = "out of scope"; content = "passed automatically" } ∷ [];
  confidence_score = full_confidence;
}

-- The weighted sum of the intensities and the sum of the weights.
unfoldable pub weighted_sum : List (ℕ × ℕ) → ℕ × ℕ
weighted_sum [] = (0, 0)
weighted_sum ((intensity, ratio) ∷ rows) =
    let (total, weight) = weighted_sum rows in (intensity * ratio + total, ratio + weight)

-- 100 and 75 kgCO2eq/kWh
abbrev pub carbon_threshold_violation : ℕ
carbon_threshold_violation = 100

abbrev pub carbon_threshold_warning : ℕ
carbon_threshold_warning = 75

unfoldable pub carbon_hint : ℕ → ℕ → Hint
carbon_hint total weight =
    if ltb (carbon_threshold_violation * weight) total
    then violation
    else if ltb (carbon_threshold_warning * weight) total
    then warning
    else passed

-- _RECYCLED_CONTENT_MIN, in hundredths of a per cent
abbrev pub recycled_content_min : Dict String ℕ
recycled_content_min = ("co", 1600) ∷ ("ni", 600) ∷ ("li", 600) ∷ ("pb", 8500) ∷ []

unfoldable pub threshold_violations : Dict String ℕ → Dict String ℕ → List Shortfall
threshold_violations materials [] = []
threshold_violations materials ((mineral, minimum) ∷ rest) =
    let others = threshold_violations materials rest in
    elim (lookup mineral materials) [
      | none ↦ others
      | some share ↦
          if ltb share minimum
          then record { mineral = mineral; share = share; minimum = minimum } ∷ others
          else others
    ]

module _ (s : Services) where
  unfoldable pub search_regulations : String → RegulationCode → ℕ → List Clause
  search_regulations query_text code top_k =
      let rows = s.clause_rows query_text code top_k in
      if null rows then s.fallback_rows query_text code top_k else rows

  -- The try block that every judge ends with: the model's reply, validated.
  unfoldable pub judged : RegulationCode → List Clause → JudgeContext → JudgeResult
  judged code clauses context = elim (s.llm code clauses context) [
    | none ↦ rejected_for_review
    | some reply ↦ validate_cited_clauses reply
  ]

  unfoldable pub judge_uflpa : JudgeContext → JudgeResult
  judge_uflpa context =
      judged uflpa
        (search_regulations
          "Xinjiang forced labor origin country supply chain prohibition rebuttable presumption"
          uflpa 5)
        context

  -- Undeclared factories force a review, whatever the verdict.
  unfoldable pub with_missing : ℕ → JudgeResult → JudgeResult
  with_missing missing_count result =
      if ltb 0 missing_count then record result { needs_human_review = true } else result

  unfoldable pub judge_carbon_footprint : ℕ → JudgeContext → JudgeResult
  judge_carbon_footprint batch_id context =
      let clauses =
        search_regulations
          "carbon footprint declaration lifecycle threshold kgCO2eq battery cell manufacturing"
          eu_battery_art7 5 in
      let (total, weight) = weighted_sum (s.carbon_rows batch_id) in
      let missing_count = s.missing_declaration_count batch_id in
      let enriched = record context {
        enrichment = carbon total weight missing_count (carbon_hint total weight);
      } in
      if weight == 0
      then rejected_for_review
      else with_missing missing_count (judged eu_battery_art7 clauses enriched)

  unfoldable pub judge_recycled_content : JudgeContext → JudgeResult
  judge_recycled_content context =
      let clauses =
        search_regulations
          "recycled content minimum threshold cobalt nickel lithium battery Annex XII" eu_battery
          5 in
      let materials = or_else context.recycled_materials [] in
      let short = threshold_violations materials recycled_content_min in
      let enriched = record context {
        enrichment = recycled short (if null short then passed else violation);
      } in
      if is_some context.recycled_content_ratio
      then judged eu_battery clauses enriched
      else if null materials
      then rejected_for_review
      else judged eu_battery clauses enriched

  -- _GENERIC_QUERY_HINTS
  abbrev pub query_hint : RegulationCode → String
  query_hint eu_battery_art47 = "supply chain due diligence policy battery manufacturer"
  query_hint eudr = "deforestation GPS polygon forest risk commodity operator FSC"
  query_hint csddd = "child labor forced labor human rights due diligence supply chain"
  query_hint _ = "the regulation's own code"

  unfoldable pub judge_generic : RegulationCode → JudgeContext → JudgeResult
  judge_generic code context = judged code (search_regulations (query_hint code) code 5) context

  -- REGULATION_JUDGES and the calls that the node makes of its entries.
  unfoldable pub judge : RegulationCode → ℕ → JudgeContext → Option JudgeResult
  judge eu_battery batch_id context = some (judge_recycled_content context)
  judge eu_battery_art7 batch_id context = some (judge_carbon_footprint batch_id context)
  judge eu_battery_art47 batch_id context = some (judge_generic eu_battery_art47 context)
  judge eudr batch_id context = some (judge_generic eudr context)
  judge csddd batch_id context = some (judge_generic csddd context)
  judge cbam batch_id context = some (stub_passed_judge cbam)
  judge conflict_minerals batch_id context = some (stub_passed_judge conflict_minerals)
  judge crma batch_id context = some (stub_passed_judge crma)
  judge uflpa batch_id context = some (judge_uflpa context)
  judge (unmapped n) batch_id context = none
