-- ===== src/Regulation/Judged.antt =====
-- The list of all results with the reason for a review (backend/domains/regulation/repository.py:
-- get_regulation_results, count_regulation_results).
use project_main.Prelude.{
  ℕ, ◌-◌, ◌*◌, String, Bool, true, false, ◌&&◌, ◌||◌, Option, none, some, List, [], ◌∷◌, ◌==◌, ltb,
  leb, min, map, find, keep, length, str_eq, if◌then◌else◌,
}
use project_main.Prelude.Sort.{page}
use project_main.Schema.{
  RiskLevel, Verdict, compliance_passed, compliance_violation, compliance_warning,
  compliance_reject, other_verdict,
}
use project_main.Regulation.{
  Regulation, ResultRow, BatchInfo, GeoRow, ProfileRow, DueRow, NamedRow, ResultsDb, batch_of,
  visible, regulation_of,
}

-- _VERDICT_MAP; any other text stays
pub data ShownVerdict : Type 0 where
  shown_passed shown_violation shown_warning shown_reject : ShownVerdict
  shown_other : ℕ → ShownVerdict

abbrev pub shown_verdict : Verdict → ShownVerdict
shown_verdict compliance_passed = shown_passed
shown_verdict compliance_violation = shown_violation
shown_verdict compliance_warning = shown_warning
shown_verdict compliance_reject = shown_reject
shown_verdict (other_verdict n) = shown_other n

-- _HITL_THRESHOLD
abbrev pub hitl_threshold : ℕ
hitl_threshold = 8500

abbrev pub below_threshold : Option ℕ → Bool
below_threshold none = false
below_threshold (some c) = ltb c hitl_threshold

abbrev pub needs_review : ResultRow → Bool
needs_review r = r.needs_human_review || below_threshold r.confidence_score

pub data HitlReason : Type 0 where
  reason_geographical_risk reason_low_confidence : HitlReason

-- A LEFT JOIN with geo_audit_results, where a NULL is not TRUE.
abbrev pub geo_detected : Option GeoRow → Bool
geo_detected none = false
geo_detected (some g) = g.risk_detected

-- `upper()` of the database's texts, of which two are asked for
module _ (upper : String → String) where
  abbrev pub is_geographical : Option Regulation → Bool
  is_geographical none = false
  is_geographical (some r) =
      str_eq (upper r.regulation_code) "UFLPA" || str_eq (upper r.regulation_code) "EUDR"

  -- `_hitl_reason`
  abbrev pub hitl_reason : Option Regulation → Bool → Bool → Option HitlReason
  hitl_reason reg detected review =
      if is_geographical reg && detected
      then some reason_geographical_risk
      else if review
      then some reason_low_confidence
      else none

-- `ORDER BY updated_at DESC NULLS LAST LIMIT 1`
abbrev pub is_fresher : Option ℕ → Option ℕ → Bool
is_fresher none none = true
is_fresher none (some b) = false
is_fresher (some a) none = true
is_fresher (some a) (some b) = leb b a

abbrev pub fresher : ProfileRow → Option ProfileRow → ProfileRow
fresher p none = p
fresher p (some q) = if is_fresher p.updated_at q.updated_at then p else q

unfoldable pub freshest : List ProfileRow → Option ProfileRow
freshest [] = none
freshest (p ∷ ps) = some (fresher p (freshest ps))

abbrev pub level_of : Option ProfileRow → Option RiskLevel
level_of none = none
level_of (some p) = p.risk_level

-- `LEAST`, which passes over a NULL, as MIN does
abbrev pub least : Option ℕ → Option ℕ → Option ℕ
least none b = b
least (some a) none = some a
least (some a) (some b) = some (min a b)

-- `MIN(due_date)` of the rows of the owner that are open
unfoldable pub first_due : List DueRow → ℕ → Option ℕ
first_due [] owner = none
first_due (d ∷ ds) owner =
    let rest = first_due ds owner in
    if owner == d.owner && d.still_open then least d.due_date rest else rest

abbrev pub name_of : Option NamedRow → Option String
name_of none = none
name_of (some n) = n.name

abbrev pub has_id : ℕ → NamedRow → Bool
has_id i n = i == n.id

-- `COALESCE(product_name, product_id::text)`, and None for an empty name
abbrev pub material_of : ResultsDb → (ℕ → String) → Option BatchInfo → Option String
material_of db id_text none = none
material_of db id_text (some b) = elim (name_of (find (has_id b.product_id) db.products)) [
  | none ↦ some (id_text b.product_id)
  | some n ↦ if str_eq n "" then none else some n
]

abbrev pub geo_row_of : ResultsDb → ResultRow → Option GeoRow
geo_row_of db r = find (λ (g : GeoRow). r.batch_id == g.batch_id) db.geo

pub record ResultItem : Type 0 where
  pub result_id : ℕ
  pub material : Option String
  pub supplier_id : ℕ
  pub supplier_name : Option String
  pub regulation : Option Regulation
  pub verdict : ShownVerdict
  pub confidence : Option ℕ
  pub needs_human_review : Bool
  pub hitl_reason : Option HitlReason
  pub supplier_risk_level : Option RiskLevel
  pub nearest_due_date : Option ℕ
  pub cited_clauses : List String
  pub reasoning_text : String

-- `upper()` and the texts of ids
module _ (upper : String → String) (id_text : ℕ → String) where
  abbrev pub result_item : ResultsDb → ResultRow → ResultItem
  result_item db r = record {
    result_id = r.result_id;
    material = material_of db id_text (batch_of db r);
    supplier_id = r.supplier_id;
    supplier_name = name_of (find (has_id r.supplier_id) db.suppliers);
    regulation = regulation_of db r;
    verdict = shown_verdict r.verdict;
    confidence = r.confidence_score;
    needs_human_review = needs_review r;
    hitl_reason =
        hitl_reason upper (regulation_of db r) (geo_detected (geo_row_of db r)) (needs_review r);
    supplier_risk_level =
        level_of (freshest (keep (λ (p : ProfileRow). r.supplier_id == p.supplier_id) db.profiles));
    nearest_due_date =
        least (first_due db.requests r.supplier_id) (first_due db.detentions r.batch_id);
    cited_clauses = r.cited_clauses;
    reasoning_text = r.reasoning_text;
  }

  -- A page is numbered from 1 on. `ordered` is the order that the database gives the rows by
  -- `created_at DESC` at this call; rows with the same time are in any order, at each call anew.
  unfoldable pub get_regulation_results :
      (List ResultRow → List ResultRow) → ResultsDb → ℕ → ℕ → ℕ → List ResultItem
  get_regulation_results ordered db tenant number size =
      map (result_item db)
        (page size ((number - 1) * size) (ordered (keep (visible db tenant) db.results)))

unfoldable pub count_regulation_results : ResultsDb → ℕ → ℕ
count_regulation_results db tenant = length (keep (visible db tenant) db.results)
