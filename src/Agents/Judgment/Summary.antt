-- ===== src/Agents/Judgment/Summary.antt =====
-- The judgment of backend/agents/final_judgment.py against what it is made of, and the key risks of
-- backend/agents/summary_batch.py.
use project_main.Prelude.{
  ℕ, ◌≡◌, refl, ◌≢◌, ◌↔◌, Bool, true, false, some, List, [], ◌∷◌, ◌++◌, ◌==◌, any, if◌then◌else◌,
  take, arith, any-count,
}
use project_main.Prelude.Int.{ℤ}
use project_main.Prelude.Dict.{Dict, lookup, values}
use project_main.Schema.{Verdict, RegulationCode, code_eq, RiskLevel}
use project_main.Risk.{is_high_risk}
use project_main.Agents.State.{RiskType, fail, pass}
use project_main.Agents.Compliance.{is_warning}
use project_main.Agents.Judgment.{
  is_violation, roll_up_verdict, Metrics, build_metrics, KeyRisk, violation_count, signal_count,
  all_risks, render_key_risks,
}

-- A batch is judged to pass exactly when no regulation is violated, rejected or in the grey zone, no
-- geographical risk is found, and the risk level is low or medium.
pub roll_up_verdict-pass :
    (verdicts : Dict RegulationCode Verdict) (geo_risk : Bool) (level : RiskLevel)
    → (roll_up_verdict verdicts geo_risk level ≡ pass) ↔ (
        (any is_violation (values verdicts) ≡ false)
        × (any is_warning (values verdicts) ≡ false)
        × (geo_risk ≡ false)
        × (is_high_risk level ≡ false))
unfolding roll_up_verdict
roll_up_verdict-pass verdicts geo_risk level = ground arith

violated :
    (verdicts : Dict RegulationCode Verdict) (code : RegulationCode) (v : Verdict)
    → lookup code verdicts ≡ some v
    → is_violation v ≡ true
    → any is_violation (values verdicts) ≡ true
violated [] code v h k = cc
violated ((c, w) ∷ verdicts) code v h k = ground (arith, violated verdicts code v)

-- One violated or rejected regulation is enough for the batch to fail, whatever else is found.
pub roll_up_verdict-fail :
    (verdicts : Dict RegulationCode Verdict) (geo_risk : Bool) (level : RiskLevel)
    (code : RegulationCode) (v : Verdict)
    → lookup code verdicts ≡ some v
    → is_violation v ≡ true
    → roll_up_verdict verdicts geo_risk level ≡ fail
unfolding roll_up_verdict
roll_up_verdict-fail verdicts geo_risk level code v h k =
    ground (arith, violated verdicts code v h k)

take-nil : (xs : List KeyRisk) → take 5 xs ≡ [] → xs ≡ []
take-nil [] h = refl
take-nil (x ∷ xs) h = cc

append_nil : (xs ys : List KeyRisk) → xs ++ ys ≡ [] → (xs ≡ []) × (ys ≡ [])
append_nil [] ys h = (refl, h)
append_nil (x ∷ xs) ys h = cc

-- Without key risks there is nothing to report.
no_risks :
    (m : Metrics)
    → render_key_risks m ≡ []
    → (m.violation ≡ 0) × (m.warning ≡ 0) × (is_high_risk m.risk_level ≡ false)
unfolding render_key_risks all_risks
no_risks m h =
    let (none_violated, h1) = append_nil _ _ (take-nil _ h) in
    let (no_signal, h2) = append_nil _ _ h1 in
    let (_, no_level) = append_nil _ _ h2 in
    (
      when_zero m.violation violation_count none_violated,
      when_zero m.warning signal_count no_signal,
      when_false (is_high_risk m.risk_level) _ no_level,
    )
  where
    when_zero : (n : ℕ) (risk : ℕ → KeyRisk) → (if n == 0 then [] else risk n ∷ []) ≡ [] → n ≡ 0
    when_zero n risk h = ground arith

    when_false : (b : Bool) (r : KeyRisk) → (if b then r ∷ [] else []) ≡ [] → b ≡ false
    when_false b r h = ground arith

-- Every judgment other than a pass gives at least one key risk.
pub render_key_risks-explains :
    (verdicts : Dict RegulationCode Verdict) (flags : List RiskType) (geo_risk : Bool) (score : ℤ)
    (level : RiskLevel)
    → roll_up_verdict verdicts geo_risk level ≢ pass
    → render_key_risks (build_metrics verdicts flags geo_risk score level) ≢ []
unfolding build_metrics
render_key_risks-explains verdicts flags geo_risk score level h none_left =
    let (no_violation, no_warning, no_level) = no_risks _ none_left in
    h (
      (roll_up_verdict-pass verdicts geo_risk level).1 (
        ground (arith, any-count is_violation (values verdicts)),
        ground (arith, any-count is_warning (values verdicts)),
        ground arith,
        no_level,
      ))
