-- ===== src/Risk.antt =====
-- backend/domains/risk (state_machine.py, service.py, repository.py): the additive risk score of
-- a supplier, its level, and the escalation that a critical score starts.
pub mod Score
pub mod Update
mod Tests
use project_main.Prelude.{
  ℕ, String, Bool, true, false, Option, none, some, List, [], ◌∷◌, ◌++◌, not, ◌==◌, str_eq,
  if◌then◌else◌, Result, ok, err, Error, http, find, update_where, or_else, ◌>>=◌,
}
use project_main.Prelude.Int.{ℤ, pos, ◌+ℤ◌, leb_ℤ, min_ℤ, max_ℤ}
use project_main.Schema.{
  Verdict, compliance_violation, compliance_reject, compliance_warning, RiskLevel, low, medium,
  high, critical,
}

-- A row of supplier_risk_profiles. A new row has the column defaults.
pub record RiskProfile : Type 0 where
  pub supplier_id : ℕ
  pub overall_risk_score : Option ℤ
  pub risk_level : RiskLevel
  pub is_high_risk_flag : Bool
  pub high_risk_reasons : Option (List String)

unfoldable pub new_profile : ℕ → RiskProfile
new_profile s = record {
  supplier_id = s;
  overall_risk_score = some (pos 0);
  risk_level = low;
  is_high_risk_flag = false;
  high_risk_reasons = none;
}

unfoldable pub calculate_risk_level : ℤ → RiskLevel
calculate_risk_level score =
    if leb_ℤ (pos 70) score
    then critical
    else if leb_ℤ (pos 50) score
    then high
    else if leb_ℤ (pos 30) score
    then medium
    else low

abbrev pub is_critical : RiskLevel → Bool
is_critical critical = true
is_critical _ = false

-- `level in ("high", "critical")`
abbrev pub is_high_risk : RiskLevel → Bool
is_high_risk high = true
is_high_risk critical = true
is_high_risk _ = false

-- The profile after the transition, and whether it has to be escalated.
unfoldable pub update_risk_profile_state : RiskProfile → ℤ → List String → RiskProfile × Bool
update_risk_profile_state profile new_score additional_reasons =
    let score = min_ℤ (pos 100) (max_ℤ (pos 0) new_score) in
    let level = calculate_risk_level score in
    (
      record profile {
        overall_risk_score = some score;
        risk_level = level;
        is_high_risk_flag = is_high_risk level;
        high_risk_reasons = some additional_reasons;
      },
      is_critical level,
    )

-- The "type" of a violation; `unknown_type` is any text that the service does not know.
pub data ViolationType : Type 0 where
  verdict : Verdict → ViolationType
  geo_risk_detected : ViolationType
  unknown_type : ℕ → ViolationType

pub record Violation : Type 0 where
  pub type : ViolationType
  pub reason : Option String

-- The points that one violation adds.
unfoldable pub points : ViolationType → ℤ
points (verdict compliance_violation) = pos 50
points (verdict compliance_reject) = pos 50
points geo_risk_detected = pos 30
points (verdict compliance_warning) = pos 15
points _ = pos 0

-- `if violation.get("reason"): reasons.append(...)`; an empty text is falsy.
abbrev append_reason : List String → Option String → List String
append_reason reasons none = reasons
append_reason reasons (some r) = if str_eq r "" then reasons else reasons ++ r ∷ []

-- The loop over the violations: the points so far and the reasons so far.
unfoldable pub tally : List Violation → ℤ → List String → ℤ × List String
tally [] added reasons = (added, reasons)
tally (v ∷ vs) added reasons = tally vs (added +ℤ points v.type) (append_reason reasons v.reason)

-- The tables that the service works on, and the RiskEscalated events published so far (by batch).
pub record RiskDb : Type 0 where
  pub suppliers : List ℕ
  pub profiles : List RiskProfile
  pub escalated : List ℕ

pub record RiskResult : Type 0 where
  pub supplier_id : ℕ
  pub overall_risk_score : Option ℤ
  pub risk_level : RiskLevel
  pub is_escalated : Bool

abbrev pub of_supplier : ℕ → RiskProfile → Bool
of_supplier s p = s == p.supplier_id

unfoldable pub get_by_supplier_id : RiskDb → ℕ → Option RiskProfile
get_by_supplier_id db s = find (of_supplier s) db.profiles

-- `RiskRepository.create` of a default profile: the foreign key refuses an unknown supplier.
unfoldable pub create_profile : RiskDb → ℕ → Result (RiskProfile × RiskDb)
create_profile db s = elim (find (λ k. s == k) db.suppliers) [
  | none ↦ err (http 404)
  | some _ ↦ ok (new_profile s, record db { profiles = db.profiles ++ new_profile s ∷ [] })
]

unfoldable pub get_or_create : RiskDb → ℕ → Result (RiskProfile × RiskDb)
get_or_create db s = elim (get_by_supplier_id db s) [
  | none ↦ create_profile db s
  | some p ↦ ok (p, db)
]

-- The body of `calculate_risk_score` once the profile is at hand.
unfoldable pub score_profile : RiskProfile → RiskDb → ℕ → List Violation → RiskResult × RiskDb
score_profile profile db batch_id violations =
    let current_score = or_else profile.overall_risk_score (pos 0) in
    let (added_score, reasons) = tally violations (pos 0) (or_else profile.high_risk_reasons []) in
    let (updated, is_escalated) =
      update_risk_profile_state profile (current_score +ℤ added_score) reasons in
    (
      record {
        supplier_id = profile.supplier_id;
        overall_risk_score = updated.overall_risk_score;
        risk_level = updated.risk_level;
        is_escalated = is_escalated;
      },
      record db {
        profiles = update_where (of_supplier profile.supplier_id) (λ _. updated) db.profiles;
        escalated = if is_escalated then db.escalated ++ batch_id ∷ [] else db.escalated;
      },
    )

unfoldable pub calculate_risk_score : RiskDb → ℕ → ℕ → List Violation → Result (RiskResult × RiskDb)
calculate_risk_score db batch_id supplier_id violations = do
  (profile, db') ← get_or_create db supplier_id
  ok (score_profile profile db' batch_id violations)
