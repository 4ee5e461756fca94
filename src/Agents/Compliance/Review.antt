-- ===== src/Agents/Compliance/Review.antt =====
-- The loop over the regulations in backend/agents/compliance.py, and the reviews that judges ask for.
use project_main.Prelude.{
  ℕ, ◌≡◌, refl, ◌≢◌, ◌⊎◌, inl, inr, true, false, ◌||◌, Option, none, some, List, [], ◌∷◌, null, ok,
  >>=-eq-ok, ok-injective, some-injective, or_true, Option-cases, ap, sym, ◌∙◌, subst, or_else, In,
}
use project_main.Prelude.Dict.{insert, string_eq}
use project_main.Schema.{RegulationCode, Verdict, low_confidence, code_eq}
use project_main.Agents.State.{BatchState}
use project_main.Agents.Judges.{Services, JudgeContext, JudgeResult, judge, build_judge_context}
use project_main.Agents.Compliance.{
  ComplianceDb, Judged, insert_compliance_result, record_result, judge_all, with_verdicts,
  compliance_node,
}

-- What recording a result does to the loop's variables.
abbrev pub Recorded : RegulationCode → JudgeResult → Judged → Judged → Type 0
Recorded code r acc acc' =
    (v : Verdict) × (r.verdict ≡ some v)
    × (acc'.verdicts ≡ insert code v acc.verdicts)
    × (acc'.any_human_review ≡ (acc.any_human_review || r.needs_human_review))

no_verdict :
    (s : Services) (b : ℕ) (i : Option ℕ) (code : RegulationCode) (r : JudgeResult)
    (acc acc' : Judged)
    → r.verdict ≡ none
    → record_result s b i code r acc ≢ ok acc'
unfolding record_result
no_verdict s b i code r acc acc' h = rw (h, record_result) (λ k. cc)

record_result-Recorded :
    (s : Services) (b : ℕ) (i : Option ℕ) (code : RegulationCode) (r : JudgeResult)
    (acc acc' : Judged)
    → record_result s b i code r acc ≡ ok acc'
    → Recorded code r acc acc'
unfolding record_result
record_result-Recorded s b i code r acc acc' k = elim (Option-cases r.verdict) [
  | inl e ↦ absurd (no_verdict s b i code r acc acc' e k)
  | inr (v, e) ↦
      let (rows, _, eq) =
        >>=-eq-ok (insert_compliance_result s acc.rows b code i v r) _
          (rw (e, record_result) at k) in
      subst (Recorded code r acc) (ok-injective eq) (v, e, refl, refl)
]

-- One step of the loop: a regulation without a judge, or one whose result is recorded.
pub judge_all-step :
    (s : Services) (c : JudgeContext) (code : RegulationCode) (codes : List RegulationCode)
    (acc acc' : Judged)
    → judge_all s c (code ∷ codes) acc ≡ ok acc'
    → ((judge s code c.batch_id c ≡ none) × (judge_all s c codes acc ≡ ok acc'))
      ⊎ ((r : JudgeResult) × (mid : Judged) × (judge s code c.batch_id c ≡ some r)
          × Recorded code r acc mid
          × (judge_all s c codes mid ≡ ok acc'))
unfolding judge_all
judge_all-step s c code codes acc acc' h = elim (Option-cases (judge s code c.batch_id c)) [
  | inl e ↦ inl (e, rw (e, judge_all) at h)
  | inr (r, e) ↦
      let (mid, m, k) =
        >>=-eq-ok (record_result s c.batch_id c.supplier_id code r acc) _
          (rw (e, judge_all) at h) in
      inr (r, mid, e, record_result-Recorded s c.batch_id c.supplier_id code r acc mid m, k)
]

pub judge_all-done :
    (s : Services) (c : JudgeContext) (acc acc' : Judged)
    → judge_all s c [] acc ≡ ok acc'
    → acc ≡ acc'
unfolding judge_all
judge_all-done s c acc acc' h = ok-injective h

-- The request for a review is never withdrawn.
pub judge_all-review :
    (s : Services) (c : JudgeContext) (codes : List RegulationCode) (acc acc' : Judged)
    → judge_all s c codes acc ≡ ok acc'
    → acc.any_human_review ≡ true
    → acc'.any_human_review ≡ true
judge_all-review s c [] acc acc' h k =
    subst (λ (j : Judged). j.any_human_review ≡ true) (judge_all-done s c acc acc' h) k
judge_all-review s c (code ∷ codes) acc acc' h k = elim (judge_all-step s c code codes acc acc' h) [
  | inl (_, e) ↦ judge_all-review s c codes acc acc' e k
  | inr (r, mid, _, (_, _, _, m), e) ↦ judge_all-review s c codes mid acc' e (m ∙ rw k refl)
]

judge_all-asked :
    (s : Services) (c : JudgeContext) (codes : List RegulationCode) (acc acc' : Judged)
    (code : RegulationCode) (r : JudgeResult)
    → In code codes
    → judge s code c.batch_id c ≡ some r
    → r.needs_human_review ≡ true
    → judge_all s c codes acc ≡ ok acc'
    → acc'.any_human_review ≡ true
judge_all-asked s c [] acc acc' code r i e k h = absurd i
judge_all-asked s c (x ∷ codes) acc acc' code r i e k h =
    elim (judge_all-step s c x codes acc acc' h) [
      | inl (none_found, rest) ↦ elim i [
        | inl eq ↦ cc
        | inr later ↦ judge_all-asked s c codes acc acc' code r later e k rest
      ]
      | inr (r', mid, found, (_, _, _, m), rest) ↦ elim i [
        | inl eq ↦ judge_all-review s c codes mid acc' rest (
            m
            ∙ or_true acc.any_human_review r'.needs_human_review
                (ap (λ (q : JudgeResult). q.needs_human_review) (same found (rw eq at e)) ∙ k))
        | inr later ↦ judge_all-asked s c codes mid acc' code r later e k rest
      ]
    ]
  where
    same : {o : Option JudgeResult} {a b : JudgeResult} → o ≡ some a → o ≡ some b → a ≡ b
    same p q = some-injective (sym p ∙ q)

abbrev pub nothing_judged : ComplianceDb → Judged
nothing_judged db = record { verdicts = []; any_human_review = false; rows = db.rows }

pub compliance_node-judged :
    (s : Services) (state : BatchState) (db : ComplianceDb) (out : BatchState × ComplianceDb)
    (x : RegulationCode) (xs : List RegulationCode)
    → state.applicable_regulations ≡ some (x ∷ xs)
    → compliance_node s state db ≡ ok out
    → (j : Judged) × (judge_all s (build_judge_context state) (x ∷ xs) (nothing_judged db) ≡ ok j)
      × (with_verdicts s state j ≡ out.0)
unfolding compliance_node
compliance_node-judged s state db out x xs a h =
    let codes_eq = ap (λ (o : Option (List RegulationCode)). or_else o []) a in
    let (j, e, k) =
      >>=-eq-ok
        (judge_all s (build_judge_context state) (or_else state.applicable_regulations []) _) _
        (rw (ap null codes_eq) at h) in
    (
      j,
      subst (λ codes. judge_all s (build_judge_context state) codes (nothing_judged db) ≡ ok j)
          codes_eq e,
      ap (λ (o : BatchState × ComplianceDb). o.0) (ok-injective k),
    )

-- A batch is stopped for a review as soon as the judge of one of its regulations asks for it,
-- whatever the other judges say and in whatever order they come.
pub compliance_node-stops :
    (s : Services) (state : BatchState) (db : ComplianceDb) (out : BatchState × ComplianceDb)
    (codes : List RegulationCode) (code : RegulationCode) (r : JudgeResult)
    → state.applicable_regulations ≡ some codes
    → In code codes
    → judge s code state.batch_id (build_judge_context state) ≡ some r
    → r.needs_human_review ≡ true
    → compliance_node s state db ≡ ok out
    → out.0.error_reason ≡ some low_confidence
unfolding with_verdicts build_judge_context
compliance_node-stops s state db out [] code r a i e k h = absurd i
compliance_node-stops s state db out (x ∷ xs) code r a i e k h =
    let (j, judged, eq) = compliance_node-judged s state db out x xs a h in
    rw (← eq, judge_all-asked s (build_judge_context state) (x ∷ xs) _ j code r i e k judged) refl
