-- ===== src/Agents/Compliance/Battery.antt =====
-- The battery regulation in backend/agents/compliance.py, where no recycled shares are at hand.
use project_main.Prelude.{
  ℕ, ◌≡◌, refl, inl, inr, true, Option, none, some, List, [], ◌∷◌, ok, some-injective, or_true, ap,
  arith, sym, ◌∙◌, subst, In,
}
use project_main.Prelude.Dict.{lookup, lookup-insert_self, lookup-insert_ne, string_eq}
use project_main.Schema.{RegulationCode, eu_battery, Verdict, compliance_reject, code_eq}
use project_main.Agents.State.{BatchState, ComplianceResult, ExtractionResult}
use project_main.Agents.Judges.{
  Services, JudgeContext, JudgeResult, judge, judge_recycled_content, rejected_for_review,
  build_judge_context,
}
use project_main.Agents.Compliance.{ComplianceDb, Judged, judge_all, with_verdicts, compliance_node}
use project_main.Agents.Compliance.Review.{
  Recorded, nothing_judged, judge_all-step, judge_all-done, judge_all-review,
  compliance_node-judged,
}

judge_all-keeps :
    (s : Services) (c : JudgeContext) (codes : List RegulationCode) (acc acc' : Judged)
    (code : RegulationCode) (v : Verdict)
    → (In code codes → ⊥)
    → lookup code acc.verdicts ≡ some v
    → judge_all s c codes acc ≡ ok acc'
    → lookup code acc'.verdicts ≡ some v
judge_all-keeps s c [] acc acc' code v n l h =
    subst (λ (j : Judged). lookup code j.verdicts ≡ some v) (judge_all-done s c acc acc' h) l
judge_all-keeps s c (x ∷ codes) acc acc' code v n l h =
    elim (judge_all-step s c x codes acc acc' h) [
      | inl (_, rest) ↦ judge_all-keeps s c codes acc acc' code v (λ i. n (inr i)) l rest
      | inr (r, mid, _, (u, _, same, _), rest) ↦
          judge_all-keeps s c codes mid acc' code v (λ i. n (inr i))
            (rw same (lookup-insert_ne code x u acc.verdicts (λ eq. n (inl eq)) ∙ l)) rest
    ]

pub judge_eu_battery :
    (s : Services) (b : ℕ) (c : JudgeContext)
    → c.recycled_content_ratio ≡ none
    → c.recycled_materials ≡ none
    → judge s eu_battery b c ≡ some rejected_for_review
unfolding judge judge_recycled_content
judge_eu_battery s b c h k = ap some (ground arith)

-- The extraction result has no recycled shares.
abbrev pub NoShares : Option ExtractionResult → Type 0
NoShares none = Unit
NoShares (some e) = (e.recycled_content_ratio ≡ none) × (e.recycled_materials ≡ none)

pub context_shares :
    (state : BatchState)
    → NoShares state.extraction_result
    → ((build_judge_context state).recycled_content_ratio ≡ none)
      × ((build_judge_context state).recycled_materials ≡ none)
unfolding build_judge_context
context_shares state h = ground arith

rejection-Recorded :
    (r : JudgeResult) (acc mid : Judged)
    → some rejected_for_review ≡ some r
    → Recorded eu_battery r acc mid
    → (lookup eu_battery mid.verdicts ≡ some compliance_reject) × (mid.any_human_review ≡ true)
unfolding rejected_for_review
rejection-Recorded r acc mid h (v, hv, same, asked) =
    let is = some-injective h in
    let v_eq = some-injective (ap (λ (q : JudgeResult). q.verdict) is ∙ hv) in
    (
      rw same (lookup-insert_self eu_battery v acc.verdicts ∙ ap some (sym v_eq)),
      asked
          ∙ or_true acc.any_human_review r.needs_human_review
              (ap (λ (q : JudgeResult). q.needs_human_review) (sym is)),
    )

judge_all-eu_battery :
    (s : Services) (c : JudgeContext) (codes : List RegulationCode) (acc acc' : Judged)
    → (In eu_battery codes → ⊥)
    → c.recycled_content_ratio ≡ none
    → c.recycled_materials ≡ none
    → judge_all s c (eu_battery ∷ codes) acc ≡ ok acc'
    → (lookup eu_battery acc'.verdicts ≡ some compliance_reject) × (acc'.any_human_review ≡ true)
judge_all-eu_battery s c codes acc acc' n no_ratio no_materials h =
    let judged = judge_eu_battery s c.batch_id c no_ratio no_materials in
    elim (judge_all-step s c eu_battery codes acc acc' h) [
      | inl (missing, _) ↦ cc
      | inr (r, mid, found, recorded, rest) ↦
          let (first, asked) = rejection-Recorded r acc mid (sym judged ∙ found) recorded in
          (
            judge_all-keeps s c codes mid acc' eu_battery compliance_reject n first rest,
            judge_all-review s c codes mid acc' rest asked,
          )
    ]

-- Where the extraction result has no recycled shares, the battery regulation is rejected, whatever
-- the model replies.
pub compliance_node-eu_battery :
    (s : Services) (state : BatchState) (db : ComplianceDb) (out : BatchState × ComplianceDb)
    (codes : List RegulationCode)
    → state.applicable_regulations ≡ some (eu_battery ∷ codes)
    → (In eu_battery codes → ⊥)
    → NoShares state.extraction_result
    → compliance_node s state db ≡ ok out
    → (c : ComplianceResult) × (out.0.compliance_result ≡ some c)
      × (lookup eu_battery c.verdicts ≡ some compliance_reject)
      × (c.needs_human_review ≡ true)
unfolding with_verdicts
compliance_node-eu_battery s state db out codes a n shares h =
    let (j, judged, eq) = compliance_node-judged s state db out eu_battery codes a h in
    let (no_ratio, no_materials) = context_shares state shares in
    let (rejected, asked) =
      judge_all-eu_battery s (build_judge_context state) codes (nothing_judged db) j n no_ratio
        no_materials judged in
    rw (← eq) (_, refl, rejected, asked)
