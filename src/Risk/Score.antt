-- ===== src/Risk/Score.antt =====
-- The points of a list of violations, and what one transition of a profile guarantees.
use project_main.Prelude.{ℕ, ◌≡◌, refl, true, some, List, [], ◌∷◌, ◌↔◌, arith, String}
use project_main.Prelude.Int.{ℤ, pos, ◌+ℤ◌, ◌≤ℤ◌, min_ℤ, max_ℤ, +ℤ_assoc, +ℤ_zero, +ℤ_nonneg}
use project_main.Risk.{
  RiskProfile, calculate_risk_level, is_high_risk, update_risk_profile_state, verdict,
  geo_risk_detected, unknown_type, ViolationType, Violation, points, append_reason, tally,
  new_profile,
}

-- What holds of every stored profile: a score from 0 to 100, with the level and the flag that
-- belong to it.
pub record IsConsistent (p : RiskProfile) : Type 0 where
  pub score : ℤ
  pub stored : p.overall_risk_score ≡ some score
  pub nonneg : pos 0 ≤ℤ score
  pub capped : score ≤ℤ pos 100
  pub level : p.risk_level ≡ calculate_risk_level score
  pub flag : p.is_high_risk_flag ≡ is_high_risk p.risk_level

pub new_profile-IsConsistent : (s : ℕ) → IsConsistent (new_profile s)
unfolding new_profile calculate_risk_level
new_profile-IsConsistent s = record {
  score = pos 0;
  stored = refl;
  nonneg = omega arith;
  capped = omega arith;
  level = refl;
  flag = refl;
}

-- A score cut to the range from 0 to 100.
abbrev pub clamp : ℤ → ℤ
clamp z = min_ℤ (pos 100) (max_ℤ (pos 0) z)

clamp_bounds : (z : ℤ) → (pos 0 ≤ℤ clamp z) × (clamp z ≤ℤ pos 100)
unfolding min_ℤ max_ℤ
clamp_bounds z = ground arith

-- Every transition leaves a consistent profile of the same supplier.
pub update-IsConsistent :
    (p : RiskProfile) (z : ℤ) (rs : List String) → IsConsistent (update_risk_profile_state p z rs).0
unfolding update_risk_profile_state
update-IsConsistent p z rs = record {
  score = clamp z;
  stored = refl;
  nonneg = (clamp_bounds z).0;
  capped = (clamp_bounds z).1;
  level = refl;
  flag = refl;
}

-- A transition is reported as an escalation exactly when the new score is 70 or more.
pub update_escalates :
    (p : RiskProfile) (z : ℤ) (rs : List String)
    → ((update_risk_profile_state p z rs).1 ≡ true) ↔ (pos 70 ≤ℤ z)
unfolding update_risk_profile_state calculate_risk_level min_ℤ max_ℤ
update_escalates p z rs = ground arith

-- The points of a list, as a plain sum.
abbrev pub total_points : List Violation → ℤ
total_points [] = pos 0
total_points (v ∷ vs) = points v.type +ℤ total_points vs

abbrev pub all_reasons : List String → List Violation → List String
all_reasons rs [] = rs
all_reasons rs (v ∷ vs) = all_reasons (append_reason rs v.reason) vs

pub points_bounds : (t : ViolationType) → (pos 0 ≤ℤ points t) × (points t ≤ℤ pos 50)
unfolding points
points_bounds (verdict v) = ground arith
points_bounds geo_risk_detected = omega arith
points_bounds (unknown_type n) = omega arith

pub total_points_nonneg : (vs : List Violation) → pos 0 ≤ℤ total_points vs
total_points_nonneg [] = omega arith
total_points_nonneg (v ∷ vs) =
    +ℤ_nonneg (points v.type) (total_points vs) (points_bounds v.type).0 (total_points_nonneg vs)

pub tally-eq :
    (vs : List Violation) (a : ℤ) (rs : List String)
    → tally vs a rs ≡ (a +ℤ total_points vs, all_reasons rs vs)
unfolding tally
tally-eq [] a rs = rw (+ℤ_zero a)
tally-eq (v ∷ vs) a rs = rw (
  tally-eq vs (a +ℤ points v.type) (append_reason rs v.reason),
  +ℤ_assoc a (points v.type) (total_points vs),
)
