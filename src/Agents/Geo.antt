-- ===== src/Agents/Geo.antt =====
-- backend/agents/geo_audit.py and the audit itself, execute_geo_audit of
-- backend/domains/supplychain/service.py. The spatial queries are parameters: their result rows.
pub mod Findings
use project_main.Prelude.{
  ℕ, String, Bool, true, false, not, Option, none, some, List, [], ◌∷◌, ◌++◌, ◌==◌, str_eq, any,
  null, if◌then◌else◌, or_else,
}
use project_main.Prelude.Int.{ℤ}
use project_main.Prelude.Dict.{Dict, insert, nat_eq}
use project_main.Schema.{stage_geo, ErrorReason, geographical_risk}
use project_main.Agents.State.{
  RiskType, xinjiang, country_mismatch, eudr_deforestation, GeoResult, BatchState,
}

-- A factory in the result of one of the queries. `flag` is the column that the audit tests:
-- is_in_risk_zone, country_match or is_deforested. The query by name has no such column.
pub record FactoryRow : Type 0 where
  pub factory_id : ℕ
  pub supplier_id : ℕ
  pub company_name : String
  pub coordinates : Option String
  pub flag : Bool

-- What the four queries return.
pub record GeoQueries : Type 0 where
  pub audit_results : List FactoryRow
  pub name_results : List FactoryRow
  pub mismatch_results : List FactoryRow
  pub eudr_results : List FactoryRow

-- GeoRiskDetectedEvent. Coordinates are counted in millionths of a degree.
pub record GeoRiskDetected : Type 0 where
  pub batch_id : ℕ
  pub factory_id : ℕ
  pub risk_type : RiskType
  pub supplier_id : ℕ
  pub company_name : String
  pub coordinates : List ℤ

-- `point` stands for json.loads: longitude and latitude of a text that is a GeoJSON Point, none for
-- any other text.
module _ (point : String → Option (ℤ × ℤ)) where
  unfoldable pub parse_geojson_to_latlng : Option String → List ℤ
  parse_geojson_to_latlng none = []
  parse_geojson_to_latlng (some geojson_str) =
      if str_eq geojson_str ""
      then []
      else elim (point geojson_str) [ none ↦ [] | some (lon, lat) ↦ lat ∷ lon ∷ [] ]

  unfoldable pub event_of : ℕ → RiskType → FactoryRow → GeoRiskDetected
  event_of batch_id risk_type row = record {
    batch_id = batch_id;
    factory_id = row.factory_id;
    risk_type = risk_type;
    supplier_id = row.supplier_id;
    company_name = row.company_name;
    coordinates = parse_geojson_to_latlng row.coordinates;
  }

  -- The loops that test one column: `when` is the value of the column that makes an event.
  unfoldable pub flagged_events : ℕ → RiskType → Bool → List FactoryRow → List GeoRiskDetected
  flagged_events batch_id risk_type when [] = []
  flagged_events batch_id risk_type when (row ∷ rows) =
      let rest = flagged_events batch_id risk_type when rows in
      if (if when then row.flag else not row.flag)
      then event_of batch_id risk_type row ∷ rest
      else rest

  -- The loop over the factories found by name skips those that are in the set `flagged`.
  unfoldable pub name_events : ℕ → List ℕ → List FactoryRow → List GeoRiskDetected
  name_events batch_id flagged [] = []
  name_events batch_id flagged (row ∷ rows) =
      let skip = name_events batch_id flagged rows in
      let rest = name_events batch_id (row.factory_id ∷ flagged) rows in
      if any (λ f. row.factory_id == f) flagged then skip else event_of batch_id xinjiang row ∷ rest

  abbrev pub factories : List GeoRiskDetected → List ℕ
  factories [] = []
  factories (e ∷ es) = e.factory_id ∷ factories es

  -- The events published, which are also the risks returned, in order.
  unfoldable pub execute_geo_audit : ℕ → GeoQueries → List GeoRiskDetected
  execute_geo_audit batch_id q =
      let by_zone = flagged_events batch_id xinjiang true q.audit_results in
      by_zone
      ++ (name_events batch_id (factories by_zone) q.name_results
          ++ (flagged_events batch_id country_mismatch false q.mismatch_results
              ++ flagged_events batch_id eudr_deforestation true q.eudr_results))

abbrev same_risk : RiskType → RiskType → Bool
same_risk xinjiang xinjiang = true
same_risk country_mismatch country_mismatch = true
same_risk eudr_deforestation eudr_deforestation = true
same_risk _ _ = false

-- `list({r["risk_type"] for r in detected_risks})`: each type once
unfoldable pub risk_flags : List GeoRiskDetected → List RiskType
risk_flags [] = []
risk_flags (e ∷ es) =
    let rest = risk_flags es in
    if any (same_risk e.risk_type) rest then rest else e.risk_type ∷ rest

-- geo_audit_results, by batch, and the GeoRiskDetected events published so far.
pub record GeoDb : Type 0 where
  pub results : Dict ℕ GeoResult
  pub events : List GeoRiskDetected

-- `geo_audit_node`
unfoldable pub geo_audit_node :
    (String → Option (ℤ × ℤ)) → GeoQueries → BatchState → GeoDb → BatchState × GeoDb
geo_audit_node point q state db =
    let detected_risks = execute_geo_audit point state.batch_id q in
    let detected = not (null detected_risks) in
    let result : GeoResult = record {
      risk_detected = detected;
      risk_flags = risk_flags detected_risks;
    } in
    (
      record state {
        geo_result = some result;
        error_reason = if detected then some geographical_risk else state.error_reason;
        hitl_required = if detected then true else state.hitl_required;
        current_stage = stage_geo;
      },
      record {
        results = insert state.batch_id result db.results;
        events = db.events ++ detected_risks;
      },
    )
