-- ===== src/Agents/Compliance.antt =====
-- backend/agents/compliance.py, compliance_node: every applicable regulation is judged, its result
-- stored, and the batch stopped for a review if any judge asks for one.
pub mod Verdicts
pub mod Review
pub mod Battery
use project_main.Prelude.{
  ℕ, Bool, true, false, ◌||◌, Option, none, some, List, [], ◌∷◌, ◌++◌, null, ◌==◌, if◌then◌else◌,
  or_else, Result, ok, err, Error, key_error, integrity_error, ◌>>=◌, count,
}
use project_main.Prelude.Dict.{Dict, insert, values}
use project_main.Schema.{
  RegulationCode, Verdict, compliance_passed, compliance_warning, other_verdict, code_eq,
  stage_compliance, low_confidence,
}
use project_main.Agents.State.{full_confidence, ComplianceResult, BatchState}
use project_main.Agents.Judges.{Services, JudgeContext, JudgeResult, build_judge_context, judge}

-- A row of compliance_results.
pub record ComplianceRow : Type 0 where
  pub batch_id : ℕ
  pub regulation_code : RegulationCode
  pub supplier_id : Option ℕ
  pub verdict : Verdict
  pub needs_human_review : Bool
  pub confidence_score : ℕ

-- The table, and the ComplianceCompleted events published so far.
pub record ComplianceDb : Type 0 where
  pub rows : List ComplianceRow
  pub completed : List (ℕ × Dict RegulationCode Verdict)

-- The loop's variables.
pub record Judged : Type 0 where
  pub verdicts : Dict RegulationCode Verdict
  pub any_human_review : Bool
  pub rows : List ComplianceRow

abbrev pub is_passed : Verdict → Bool
is_passed compliance_passed = true
is_passed _ = false

abbrev pub is_warning : Verdict → Bool
is_warning compliance_warning = true
is_warning _ = false

-- chk_compliance_verdict
abbrev pub accepted : Verdict → Bool
accepted (other_verdict _) = false
accepted _ = true

-- `float(state.get("confidence_score") or 1.0)`: 0 is falsy
abbrev pub or_nonzero : Option ℕ → ℕ
or_nonzero none = full_confidence
or_nonzero (some c) = if c == 0 then full_confidence else c

module _ (s : Services) where
  -- `_insert_compliance_result`: a code without a row in `regulations` is skipped.
  unfoldable pub insert_compliance_result :
      List ComplianceRow
      → ℕ
      → RegulationCode
      → Option ℕ
      → Verdict
      → JudgeResult
      → Result (List ComplianceRow)
  insert_compliance_result rows batch_id code supplier_id verdict result =
      if s.registered code
      then (if accepted verdict
          then ok (
              rows
              ++ record {
                batch_id = batch_id;
                regulation_code = code;
                supplier_id = supplier_id;
                verdict = verdict;
                needs_human_review = result.needs_human_review;
                confidence_score = result.confidence_score;
              }
                ∷ [])
          else err integrity_error)
      else ok rows

  -- The loop's body on a result: `result["verdict"]` may be missing.
  unfoldable pub record_result :
      ℕ → Option ℕ → RegulationCode → JudgeResult → Judged → Result Judged
  record_result batch_id supplier_id code result acc = elim result.verdict [
    | none ↦ err key_error
    | some verdict ↦ do
      rows ← insert_compliance_result acc.rows batch_id code supplier_id verdict result
      ok (record {
        verdicts = insert code verdict acc.verdicts;
        any_human_review = acc.any_human_review || result.needs_human_review;
        rows = rows;
      })
  ]

  -- The loop over the applicable regulations; a code without a judge is skipped.
  unfoldable pub judge_all : JudgeContext → List RegulationCode → Judged → Result Judged
  judge_all context [] acc = ok acc
  judge_all context (code ∷ codes) acc = elim (judge s code context.batch_id context) [
    | none ↦ judge_all context codes acc
    | some result ↦ do
      acc' ← record_result context.batch_id context.supplier_id code result acc
      judge_all context codes acc'
  ]

  abbrev pub skipped_result : ComplianceResult
  skipped_result = record {
    verdicts = [];
    needs_human_review = false;
    skipped = true;
    passed = 0;
    gray_zone = 0;
    verdict = none;
    reasoning_text = none;
  }

  -- The state after the loop.
  unfoldable pub with_verdicts : BatchState → Judged → BatchState
  with_verdicts state j = record state {
    current_stage = stage_compliance;
    confidence_score = some (or_nonzero state.confidence_score);
    error_reason = if j.any_human_review then some low_confidence else none;
    compliance_result = some (record {
      verdicts = j.verdicts;
      needs_human_review = j.any_human_review;
      skipped = false;
      passed = count is_passed (values j.verdicts);
      gray_zone = count is_warning (values j.verdicts);
      verdict = none;
      reasoning_text = none;
    });
  }

  unfoldable pub compliance_node : BatchState → ComplianceDb → Result (BatchState × ComplianceDb)
  compliance_node state db =
      let applicable = or_else state.applicable_regulations [] in
      if null applicable
      then ok (
        record state { current_stage = stage_compliance; compliance_result = some skipped_result },
        db,
      )
      else do
        j ←
            judge_all (build_judge_context state) applicable
              (record { verdicts = []; any_human_review = false; rows = db.rows })
        ok (
          with_verdicts state j,
          record { rows = j.rows; completed = db.completed ++ (state.batch_id, j.verdicts) ∷ [] },
        )
