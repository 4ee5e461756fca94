-- ===== src/Agents/Compliance/Verdicts.antt =====
-- The results of the single judges of backend/agents/compliance.py.
use project_main.Prelude.{
  ℕ, ◌≡◌, refl, inl, inr, true, some, List, [], null, some-injective, false-ne-true, Bool-cases,
  ◌==◌, arith, subst, or_else, is_some,
}
use project_main.Prelude.Dict.{string_eq}
use project_main.Schema.{
  RegulationCode, eu_battery, eu_battery_art7, eu_battery_art47, eudr, csddd, cbam,
  conflict_minerals, crma, uflpa, unmapped, compliance_reject, code_eq,
}
use project_main.Agents.Judges.{
  Services, JudgeContext, JudgeResult, judge, judge_recycled_content, rejected_for_review,
  validate_cited_clauses, judged, Clause, with_missing, judge_carbon_footprint, weighted_sum,
  judge_generic, stub_passed_judge, judge_uflpa,
}

-- A result with a citation, or a rejection for review.
abbrev pub Backed : JudgeResult → Type 0
Backed r =
    (null r.cited_clauses ≡ true)
    → (r.verdict ≡ some compliance_reject) × (r.needs_human_review ≡ true)

judged-Backed :
    (s : Services) (code : RegulationCode) (cs : List Clause) (c : JudgeContext)
    → Backed (judged s code cs c)
unfolding judged rejected_for_review validate_cited_clauses
judged-Backed s code cs c = ground arith

with_missing-Backed :
    (s : Services) (n : ℕ) (r : JudgeResult) → Backed r → Backed (with_missing s n r)
unfolding with_missing
with_missing-Backed s n r h k = ground (arith, h)

carbon-Backed : (s : Services) (b : ℕ) (c : JudgeContext) → Backed (judge_carbon_footprint s b c)
unfolding judge_carbon_footprint
carbon-Backed s b c = elim (Bool-cases ((weighted_sum (s.carbon_rows b)).1 == 0)) [
  | inl e ↦ rw e (unfold rejected_for_review in λ _. (refl, refl))
  | inr e ↦ rw e (with_missing-Backed s _ _ (judged-Backed s _ _ _))
]

recycled-Backed : (s : Services) (c : JudgeContext) → Backed (judge_recycled_content s c)
unfolding judge_recycled_content
recycled-Backed s c = elim (Bool-cases (is_some c.recycled_content_ratio)) [
  | inl e ↦ rw e (judged-Backed s _ _ _)
  | inr e ↦ elim (Bool-cases (null (or_else c.recycled_materials []))) [
    | inl n ↦ rw (e, n) (unfold rejected_for_review in λ _. (refl, refl))
    | inr n ↦ rw (e, n) (judged-Backed s _ _ _)
  ]
]

generic-Backed :
    (s : Services) (code : RegulationCode) (c : JudgeContext) → Backed (judge_generic s code c)
unfolding judge_generic
generic-Backed s code c = judged-Backed s code _ c

stub-Backed : (code : RegulationCode) → Backed (stub_passed_judge code)
unfolding stub_passed_judge
stub-Backed code h = absurd (false-ne-true h)

-- Whatever the model replies, a judge's result without a cited clause is a rejection for review.
pub judge-Backed :
    (s : Services) (code : RegulationCode) (b : ℕ) (c : JudgeContext) (r : JudgeResult)
    → judge s code b c ≡ some r
    → null r.cited_clauses ≡ true
    → (r.verdict ≡ some compliance_reject) × (r.needs_human_review ≡ true)
unfolding judge
judge-Backed s eu_battery b c r h = subst Backed (some-injective h) (recycled-Backed s c)
judge-Backed s eu_battery_art7 b c r h = subst Backed (some-injective h) (carbon-Backed s b c)
judge-Backed s eu_battery_art47 b c r h = subst Backed (some-injective h) (generic-Backed s _ c)
judge-Backed s eudr b c r h = subst Backed (some-injective h) (generic-Backed s _ c)
judge-Backed s csddd b c r h = subst Backed (some-injective h) (generic-Backed s _ c)
judge-Backed s cbam b c r h = subst Backed (some-injective h) (stub-Backed cbam)
judge-Backed s conflict_minerals b c r h =
    subst Backed (some-injective h) (stub-Backed conflict_minerals)
judge-Backed s crma b c r h = subst Backed (some-injective h) (stub-Backed crma)
judge-Backed s uflpa b c r h =
    subst Backed (some-injective h) (unfold judge_uflpa in judged-Backed s _ _ c)
judge-Backed s (unmapped n) b c r h = cc
