-- ===== src/Agents/Geo/Findings.antt =====
-- The risks that execute_geo_audit of backend/domains/supplychain/service.py reports, and what the
-- agent makes of them.
use project_main.Prelude.{
  ℕ, ◌≤◌, ◌≡◌, refl, String, Bool, true, false, ◌&&◌, ◌||◌, Option, some, List, [], ◌∷◌, ◌++◌, ◌==◌,
  any, count, null, if◌then◌else◌, arith, count-append, count-ne-any, any-count,
}
use project_main.Prelude.Int.{ℤ}
use project_main.Schema.{geographical_risk}
use project_main.Agents.State.{RiskType, xinjiang, country_mismatch, eudr_deforestation, BatchState}
use project_main.Agents.Geo.{
  FactoryRow, GeoQueries, GeoRiskDetected, GeoDb, event_of, flagged_events, name_events, factories,
  execute_geo_audit, geo_audit_node,
}

abbrev is_xinjiang : RiskType → Bool
is_xinjiang xinjiang = true
is_xinjiang _ = false

-- An event of the forced labour region for one factory.
abbrev pub reports : ℕ → GeoRiskDetected → Bool
reports f e = is_xinjiang e.risk_type && f == e.factory_id

abbrev pub in_zone : ℕ → FactoryRow → Bool
in_zone f row = row.flag && f == row.factory_id

abbrev pub is_row : ℕ → FactoryRow → Bool
is_row f row = f == row.factory_id

module _ (point : String → Option (ℤ × ℤ)) where
  zone_count :
      (b f : ℕ) (rows : List FactoryRow)
      → count (reports f) (flagged_events point b xinjiang true rows) ≡ count (in_zone f) rows
  unfolding flagged_events event_of
  zone_count b f [] = refl
  zone_count b f (r ∷ rows) = ground (arith, zone_count b f rows)

  zone_factories :
      (b f : ℕ) (rows : List FactoryRow)
      → any (λ g. f == g) (factories point (flagged_events point b xinjiang true rows))
        ≡ any (in_zone f) rows
  unfolding flagged_events event_of
  zone_factories b f [] = refl
  zone_factories b f (r ∷ rows) = ground (arith, zone_factories b f rows)

  mismatch_count :
      (b f : ℕ) (rows : List FactoryRow)
      → count (reports f) (flagged_events point b country_mismatch false rows) ≡ 0
  unfolding flagged_events event_of
  mismatch_count b f [] = refl
  mismatch_count b f (r ∷ rows) = ground (arith, mismatch_count b f rows)

  eudr_count :
      (b f : ℕ) (rows : List FactoryRow)
      → count (reports f) (flagged_events point b eudr_deforestation true rows) ≡ 0
  unfolding flagged_events event_of
  eudr_count b f [] = refl
  eudr_count b f (r ∷ rows) = ground (arith, eudr_count b f rows)

  -- By name a factory is reported once, unless it is in the set already.
  name_count :
      (b f : ℕ) (flagged : List ℕ) (rows : List FactoryRow)
      → count (reports f) (name_events point b flagged rows)
        ≡ (if any (λ g. f == g) flagged then 0 else if any (is_row f) rows then 1 else 0)
  unfolding name_events event_of
  name_count b f flagged [] = ground arith
  name_count b f flagged (r ∷ rows) =
      ground (arith, name_count b f flagged rows, name_count b f (r.factory_id ∷ flagged) rows)

  -- How often a batch's audit reports a factory for forced labour: as often as the query of the
  -- zones flags it, and, where it does not, once if the query by name finds it.
  pub execute_geo_audit-reports :
      (b f : ℕ) (q : GeoQueries)
      → count (reports f) (execute_geo_audit point b q) ≡ (
          if any (in_zone f) q.audit_results
          then count (in_zone f) q.audit_results
          else if any (is_row f) q.name_results
          then 1
          else 0)
  unfolding execute_geo_audit
  execute_geo_audit-reports b f q =
      let by_zone = flagged_events point b xinjiang true q.audit_results in
      let by_name = name_events point b (factories point by_zone) q.name_results in
      let mismatches = flagged_events point b country_mismatch false q.mismatch_results in
      let eudr = flagged_events point b eudr_deforestation true q.eudr_results in
      rw
        (
          count-append (reports f) by_zone (by_name ++ (mismatches ++ eudr)),
          count-append (reports f) by_name (mismatches ++ eudr),
          count-append (reports f) mismatches eudr,
          mismatch_count b f q.mismatch_results,
          eudr_count b f q.eudr_results,
          zone_count b f q.audit_results,
          name_count b f (factories point by_zone) q.name_results,
          zone_factories b f q.audit_results,
        )
        (ground (arith, count-ne-any (in_zone f) q.audit_results))

  -- A factory that is flagged in a zone or found by name stops its batch.
  pub geo_audit_node-stops :
      (state : BatchState) (db : GeoDb) (q : GeoQueries) (f : ℕ)
      → (any (in_zone f) q.audit_results || any (is_row f) q.name_results) ≡ true
      → (geo_audit_node point q state db).0.error_reason ≡ some geographical_risk
  unfolding geo_audit_node
  geo_audit_node-stops state db q f h =
      rw
        (counted (reports f) (execute_geo_audit point state.batch_id q) (
          ground (
            arith,
            execute_geo_audit-reports state.batch_id f q,
            any-count (in_zone f) q.audit_results,
          )))
        refl
    where
      counted :
          (p : GeoRiskDetected → Bool) (es : List GeoRiskDetected)
          → 1 ≤ count p es
          → null es ≡ false
      counted p es h = ground arith
