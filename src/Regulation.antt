-- ===== src/Regulation.antt =====
-- backend/domains/regulation (repository.py, service.py): the regulations of a market, and the lists of violations and of results, by tenant. The tables are those
-- of docker/01_schema.sql; dates and times are numbers, a confidence is counted in ten-thousandths.
pub mod Judged
pub mod Results
use project_main.Prelude.{
  ℕ, suc, ◌-◌, ◌*◌, String, Bool, true, false, not, ◌&&◌, ◌||◌, Option, none, some, List, [], ◌∷◌,
  ◌++◌, ◌==◌, ltb, leb, min, map, any, find, keep, take, length, str_eq, if◌then◌else◌, is_some,
}
use project_main.Prelude.Sort.{sort_by, page}
use project_main.Schema.{
  Destination, eu, us, kr, both, other_destination, Verdict, compliance_passed,
  compliance_violation, compliance_warning, compliance_reject, other_verdict, BatchStatus,
  RiskLevel,
}

-- regulations.region (chk_regulation_region)
pub data Region : Type 0 where
  region_eu region_us region_both : Region

-- A row of regulations; `indexed` is embedding_status.
pub record Regulation : Type 0 where
  pub regulation_id : ℕ
  pub name : String
  pub regulation_code : String
  pub region : Option Region
  pub description : String
  pub version : String
  pub effective_from : Option ℕ
  pub indexed : Bool
  pub has_embedding : Bool

abbrev pub in_region : Region → Option Region → Bool
in_region r none = false
in_region region_eu (some region_eu) = true
in_region region_us (some region_us) = true
in_region region_both (some region_both) = true
in_region _ (some _) = false

-- The test of `get_by_destination` on a row; no region is spelled like another text.
abbrev pub of_destination : Destination → Regulation → Bool
of_destination kr r = false
of_destination both r = is_some r.region
of_destination eu r = in_region region_eu r.region
of_destination us r = in_region region_us r.region
of_destination (other_destination n) r = false

abbrev pub same_region : Option Region → Regulation → Bool
same_region none r = true
same_region (some region) r = in_region region r.region

-- The columns of batches that are read.
pub record BatchInfo : Type 0 where
  pub batch_id : ℕ
  pub product_id : ℕ
  pub tenant_id : Option ℕ
  pub destination : Option Destination
  pub status : BatchStatus

-- The order of the texts in the database.
module _ (code_le : String → String → Bool) where
  abbrev pub code_before : Regulation → Regulation → Bool
  code_before r s = code_le r.regulation_code s.regulation_code

  unfoldable pub get_all : List Regulation → Option Region → List Regulation
  get_all regs region = sort_by code_before (keep (same_region region) regs)

  unfoldable pub get_by_destination : List Regulation → Destination → List Regulation
  get_by_destination regs destination = sort_by code_before (keep (of_destination destination) regs)

unfoldable pub get_by_code : List Regulation → String → Option Regulation
get_by_code regs code = find (λ (r : Regulation). str_eq code r.regulation_code) regs

-- A row of compliance_results.
pub record ResultRow : Type 0 where
  pub result_id : ℕ
  pub batch_id : ℕ
  pub regulation_id : ℕ
  pub supplier_id : ℕ
  pub verdict : Verdict
  pub needs_human_review : Bool
  pub confidence_score : Option ℕ
  pub cited_clauses : List String
  pub reasoning_text : String
  pub created_at : ℕ

-- The other rows that the lists are joined with.
pub record GeoRow : Type 0 where
  pub batch_id : ℕ
  pub risk_detected : Bool

pub record ProfileRow : Type 0 where
  pub supplier_id : ℕ
  pub risk_level : Option RiskLevel
  pub updated_at : Option ℕ

-- A date by which something is due, and whether it is still open.
pub record DueRow : Type 0 where
  pub owner : ℕ
  pub due_date : Option ℕ
  pub still_open : Bool

pub record NamedRow : Type 0 where
  pub id : ℕ
  pub name : Option String

-- `batch_id` is unique in geo_audit_results.
pub record ResultsDb : Type 0 where
  pub results : List ResultRow
  pub batches : List BatchInfo
  pub regulations : List Regulation
  pub suppliers : List NamedRow
  pub products : List NamedRow
  pub geo : List GeoRow
  pub profiles : List ProfileRow
  pub requests : List DueRow
  pub detentions : List DueRow

abbrev pub of_tenant : ℕ → Option BatchInfo → Bool
of_tenant tenant none = false
of_tenant tenant (some b) = elim b.tenant_id [ none ↦ false | some t ↦ tenant == t ]

abbrev pub batch_of : ResultsDb → ResultRow → Option BatchInfo
batch_of db r = find (λ (b : BatchInfo). r.batch_id == b.batch_id) db.batches

-- The inner join with batches, by which a tenant sees its own rows.
abbrev pub visible : ResultsDb → ℕ → ResultRow → Bool
visible db tenant r = of_tenant tenant (batch_of db r)

abbrev pub is_violation_verdict : Verdict → Bool
is_violation_verdict compliance_violation = true
is_violation_verdict _ = false

abbrev pub of_supplier : Option ℕ → ℕ → Bool
of_supplier none s = true
of_supplier (some t) s = t == s

abbrev pub violation_row : ResultsDb → ℕ → Option ℕ → ResultRow → Bool
violation_row db tenant supplier r =
    visible db tenant r && (is_violation_verdict r.verdict && of_supplier supplier r.supplier_id)

abbrev pub newest : ResultRow → ResultRow → Bool
newest r s = leb s.created_at r.created_at

pub data Severity : Type 0 where
  severity_critical severity_high severity_minor : Severity

-- `_map_severity`
abbrev pub map_severity : Option Region → Severity
map_severity (some region_eu) = severity_critical
map_severity (some region_us) = severity_high
map_severity (some region_both) = severity_high
map_severity none = severity_minor

abbrev pub region_of : Option Regulation → Option Region
region_of none = none
region_of (some r) = r.region

abbrev pub regulation_of : ResultsDb → ResultRow → Option Regulation
regulation_of db r = find (λ (g : Regulation). r.regulation_id == g.regulation_id) db.regulations

pub record ViolationItem : Type 0 where
  pub violation_id : ℕ
  pub batch_id : ℕ
  pub supplier_id : ℕ
  pub regulation : Option Regulation
  pub severity : Severity
  pub summary : String
  pub detected_at : ℕ

abbrev pub violation_item : ResultsDb → ResultRow → ViolationItem
violation_item db r = record {
  violation_id = r.result_id;
  batch_id = r.batch_id;
  supplier_id = r.supplier_id;
  regulation = regulation_of db r;
  severity = map_severity (region_of (regulation_of db r));
  summary = r.reasoning_text;
  detected_at = r.created_at;
}

unfoldable pub get_violations : ResultsDb → ℕ → Option ℕ → ℕ → List ViolationItem
get_violations db tenant supplier limit =
    map (violation_item db)
      (take limit (sort_by newest (keep (violation_row db tenant supplier) db.results)))

unfoldable pub count_violations : ResultsDb → ℕ → Option ℕ → ℕ
count_violations db tenant supplier = length (keep (violation_row db tenant supplier) db.results)
