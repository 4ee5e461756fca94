-- ===== src/Agents/Gateway.antt =====
-- backend/agents/data_gateway.py, data_gateway_node: the extraction results of a batch's supply
-- chain are gathered, and the batch is stopped unless all are confirmed, complete and confident.
-- The queries and the supplier domain's promotion of values are parameters.
pub mod Gate
use project_main.Prelude.{
  ℕ, suc, String, Bool, true, false, not, ◌||◌, Option, none, some, List, [], ◌∷◌, ltb, ◌==◌,
  str_eq, any, null, min, if◌then◌else◌, length,
}
use project_main.Prelude.Dict.{Dict, keys, values}
use project_main.Schema.{stage_extraction, ErrorReason, low_confidence}
use project_main.Agents.State.{full_confidence, ExtractionResult, BatchState}

-- CONFIDENCE_THRESHOLD, 0.85
abbrev pub confidence_threshold : ℕ
confidence_threshold = 8500

-- One extraction result with the type of its provider. The values of the fields are not looked at.
pub record ExtractionRow : Type 0 where
  pub confidence_map : Dict String ℕ
  pub parsed_fields : Dict String String
  pub supplier_confirmed : Bool
  pub provider_type : Option String
  pub supplier_id : ℕ

pub record GatewayQueries : Type 0 where
  -- child_supplier_id of each row of the supply chain of a product
  pub supply_chain : ℕ → List (Option ℕ)
  -- the extraction results of these suppliers
  pub extraction_results : List ℕ → List ExtractionRow
  -- the required fields of a type of provider
  pub required_fields : String → List String
  -- whether promoting a row's values has written anything; none where it raises
  pub promote : ExtractionRow → Option Bool

-- Insertion into a sorted list without repetition.
unfoldable pub insert_sorted : ℕ → List ℕ → List ℕ
insert_sorted a [] = a ∷ []
insert_sorted a (x ∷ xs) =
    let rest = insert_sorted a xs in
    if ltb a x then a ∷ x ∷ xs else if a == x then x ∷ xs else x ∷ rest

-- `sorted({... for r in rows if r.get("child_supplier_id")})`
unfoldable pub supplier_ids_of : List (Option ℕ) → List ℕ
supplier_ids_of [] = []
supplier_ids_of (none ∷ rows) = supplier_ids_of rows
supplier_ids_of (some s ∷ rows) = insert_sorted s (supplier_ids_of rows)

-- `validate_schema(...).missing_fields`
unfoldable pub missing_fields : List String → List String → List String
missing_fields [] present = []
missing_fields (f ∷ required) present =
    let rest = missing_fields required present in if any (str_eq f) present then rest else f ∷ rest

-- `min(lowest, min(cmap.values()))`
unfoldable pub lowest_of : ℕ → List ℕ → ℕ
lowest_of lowest [] = lowest
lowest_of lowest (c ∷ cs) = lowest_of (min lowest c) cs

pub record Tally : Type 0 where
  pub lowest : ℕ
  pub unconfirmed : ℕ
  pub has_missing : Bool

module _ (q : GatewayQueries) where
  unfoldable pub incomplete : ExtractionRow → Bool
  incomplete r = elim r.provider_type [
    | none ↦ false
    | some p ↦
        if str_eq p ""
        then false
        else not (null (missing_fields (q.required_fields p) (keys r.parsed_fields)))
  ]

  -- The loop over the results.
  unfoldable pub gather : List ExtractionRow → Tally → Tally
  gather [] t = t
  gather (r ∷ rs) t = gather rs (record {
    lowest = lowest_of t.lowest (values r.confidence_map);
    unconfirmed = if r.supplier_confirmed then t.unconfirmed else suc t.unconfirmed;
    has_missing = t.has_missing || incomplete r;
  })

  -- The loop that promotes values; an exception ends it, and keeps the count so far.
  unfoldable pub promoted : List ExtractionRow → ℕ → ℕ
  promoted [] n = n
  promoted (r ∷ rs) n =
      let skip = promoted rs n in
      let one_more = promoted rs (suc n) in
      if r.supplier_confirmed
      then elim (q.promote r) [ none ↦ n | some done ↦ if done then one_more else skip ]
      else skip

  abbrev pub nothing_extracted : Bool → Option ℕ → Option (List ℕ) → ExtractionResult
  nothing_extracted checked count supplier_ids = record {
    checked = checked;
    count = count;
    supplier_ids = supplier_ids;
    unconfirmed = 0;
    has_missing = false;
    promoted_suppliers = 0;
    supplier_id = none;
    origin_country = none;
    carbon_intensity = none;
    recycled_content_ratio = none;
    recycled_materials = none;
  }

  abbrev pub stopped : BatchState → ExtractionResult → BatchState
  stopped state result = record state {
    current_stage = stage_extraction;
    error_reason = some low_confidence;
    confidence_score = some 0;
    extraction_result = some result;
  }

  -- `lowest < CONFIDENCE_THRESHOLD or unconfirmed > 0 or has_missing`
  abbrev pub low_conf : Tally → Bool
  low_conf t = ltb t.lowest confidence_threshold || ltb 0 t.unconfirmed || t.has_missing

  -- The branch with results at hand.
  unfoldable pub gathered : BatchState → List ℕ → List ExtractionRow → BatchState
  gathered state supplier_ids results =
      let t =
        gather results
          (record { lowest = full_confidence; unconfirmed = 0; has_missing = false }) in
      record state {
        current_stage = stage_extraction;
        confidence_score = some t.lowest;
        error_reason = if low_conf t then some low_confidence else none;
        extraction_result = some (record {
          checked = true;
          count = some (length results);
          supplier_ids = some supplier_ids;
          unconfirmed = t.unconfirmed;
          has_missing = t.has_missing;
          promoted_suppliers = if low_conf t then 0 else promoted results 0;
          supplier_id = none;
          origin_country = none;
          carbon_intensity = none;
          recycled_content_ratio = none;
          recycled_materials = none;
        });
      }

  unfoldable pub data_gateway_node : BatchState → BatchState
  data_gateway_node state = elim state.product_id [
    | none ↦ stopped state (nothing_extracted false none none)
    | some product_id ↦
        let supplier_ids = supplier_ids_of (q.supply_chain product_id) in
        let results = q.extraction_results supplier_ids in
        if null results
        then stopped state (nothing_extracted true (some 0) (some supplier_ids))
        else gathered state supplier_ids results
  ]
