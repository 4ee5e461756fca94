-- ===== src/Risk/Tests.antt =====
-- The score of one supplier.
use project_main.Prelude.{refl, false, none, some, List, [], ◌∷◌, value_or, All}
use project_main.Schema.{compliance_violation, low}
use project_main.Risk.{
  RiskDb, RiskResult, Violation, verdict, geo_risk_detected, new_profile, get_by_supplier_id,
  get_or_create, calculate_risk_score,
}
use project_main.Risk.Score.{IsConsistent, new_profile-IsConsistent}
use project_main.Risk.Update.{calculate_risk_score-IsConsistent, Adds, calculate_risk_score-Adds}

abbrev two_profiles : RiskDb
two_profiles = record {
  suppliers = 1 ∷ 2 ∷ [];
  profiles = new_profile 1 ∷ new_profile 2 ∷ [];
  escalated = [];
}

abbrev found : List Violation
found =
    record { type = verdict compliance_violation; reason = some "forced labour" }
    ∷ record { type = geo_risk_detected; reason = none }
    ∷ []

abbrev scored : RiskResult × RiskDb
scored = value_or (calculate_risk_score two_profiles 9 1 found) (
  record { supplier_id = 0; overall_risk_score = none; risk_level = low; is_escalated = false },
  two_profiles,
)

calculate_risk_score-IsConsistent_example : All IsConsistent scored.1.profiles
unfolding calculate_risk_score get_or_create get_by_supplier_id new_profile
calculate_risk_score-IsConsistent_example =
    calculate_risk_score-IsConsistent two_profiles 9 1 found scored
      (new_profile-IsConsistent 1, (new_profile-IsConsistent 2, tt)) refl

calculate_risk_score-Adds_example : Adds two_profiles 9 1 found scored
unfolding calculate_risk_score get_or_create get_by_supplier_id new_profile
calculate_risk_score-Adds_example = calculate_risk_score-Adds two_profiles 9 1 found scored refl
