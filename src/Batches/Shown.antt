-- ===== src/Batches/Shown.antt =====
-- Which verdict of a regulation backend/domains/batches/repository.py shows: get_batch_detail.
use project_main.Prelude.{
  ℕ, ◌≡◌, refl, sym, ap, ◌∙◌, subst, String, Option, none, some, List, [], ◌∷◌, if◌then◌else◌,
  Bool-cases, Option-cases, inl, inr, arith, find, null, some-injective,
}
use project_main.Prelude.Dict.{Dict, lookup, insert, lookup-insert_self, lookup-insert_ne}
use project_main.Schema.{RegulationCode, same_code, same_code_iff, code_eq, Verdict}
use project_main.Batches.Tables.{Json, DetailDb}
use project_main.Batches.Detail.{
  CodedResult, ShownCompliance, compliance_result, verdict_map, BatchDetail, option_map,
  batch_detail, newest_results, visible_batch, get_batch_detail,
}

-- The last result of the list that is about the regulation.
abbrev pub last_of : RegulationCode → List CodedResult → Option CodedResult
last_of code [] = none
last_of code (r ∷ rs) = elim (last_of code rs) [
  | none ↦ if same_code code r.regulation_code then some r else none
  | some later ↦ some later
]

abbrev verdict_of : CodedResult → Option Verdict
verdict_of r = r.verdict

abbrev verdict_or : Option CodedResult → Option (Option Verdict) → Option (Option Verdict)
verdict_or none known = known
verdict_or (some r) known = some r.verdict

lookup-verdict_map :
    (code : RegulationCode) (d : Dict RegulationCode (Option Verdict)) (rows : List CodedResult)
    → lookup code (verdict_map d rows) ≡ verdict_or (last_of code rows) (lookup code d)
unfolding verdict_map
lookup-verdict_map code d [] = refl
lookup-verdict_map code d (r ∷ rs) = elim (Option-cases (last_of code rs)) [
  | inl nothing ↦ elim (Bool-cases (same_code code r.regulation_code)) [
    | inl same ↦
        let is = (same_code_iff code r.regulation_code).0 same in
        rw nothing (
          rw same (
            lookup-verdict_map code (insert r.regulation_code r.verdict d) rs
            ∙ rw nothing (
                subst (λ k. lookup k (insert r.regulation_code r.verdict d) ≡ some r.verdict)
                  (sym is) (lookup-insert_self r.regulation_code r.verdict d))))
    | inr other ↦ rw nothing (
        rw other (
          lookup-verdict_map code (insert r.regulation_code r.verdict d) rs
          ∙ rw nothing (
              lookup-insert_ne code r.regulation_code r.verdict d
                (ground (arith, other, same_code_iff code r.regulation_code)))))
  ]
  | inr (later, found) ↦
      rw found (lookup-verdict_map code (insert r.regulation_code r.verdict d) rs ∙ rw found refl)
]

shown_verdicts :
    (rows : List CodedResult) (c : ShownCompliance)
    → compliance_result rows ≡ some c
    → verdict_map [] rows ≡ c.verdicts
unfolding compliance_result
shown_verdicts rows c h = elim (Bool-cases (null rows)) [
  | inl e ↦ let no_result : none ≡ some c = rw e at h in cc
  | inr e ↦ ap (λ (x : ShownCompliance). x.verdicts) (some-injective (rw e at h))
]

from_none :
    (code : RegulationCode) (o : Option CodedResult) → verdict_or o none ≡ option_map verdict_of o
from_none code none = refl
from_none code (some r) = refl

from_some :
    {S T : Type 0} (f : S → T) (m : Option S) {t : T}
    → option_map f m ≡ some t
    → (s : S) × (m ≡ some s) × (f s ≡ t)
from_some f none h = cc
from_some f (some s) h = (s, refl, some-injective h)

-- Of several results of a regulation among the newest of a batch, the detail shows the verdict of the last
-- in the list, which has the newest first: a result that was replaced by a judged_before one is shown in its place.
pub get_batch_detail-last_of :
    {E : Type 0} (loads : String → Option (Json E)) (db : DetailDb E) (id : ℕ) (tenant : Option ℕ)
    (d : BatchDetail E) (c : ShownCompliance) (code : RegulationCode)
    → get_batch_detail loads db id tenant ≡ some d
    → d.compliance ≡ some c
    → lookup code c.verdicts
      ≡ option_map (λ (r : CodedResult). r.verdict) (last_of code (newest_results db d.batch_id))
unfolding get_batch_detail
get_batch_detail-last_of loads db id tenant d c code h k =
    let (b, found, eq) =
      from_some (batch_detail loads db) (find (visible_batch id tenant) db.batches) h in
    let rows = newest_results db d.batch_id in
    let same_id : b.batch_id ≡ d.batch_id = ap (λ (x : BatchDetail _). x.batch_id) eq in
    let shown : compliance_result rows ≡ some c =
      subst (λ n. compliance_result (newest_results db n) ≡ some c) same_id
        (ap (λ (x : BatchDetail _). x.compliance) eq ∙ k) in
    ap (lookup code) (sym (shown_verdicts rows c shown))
    ∙ lookup-verdict_map code [] rows
    ∙ from_none code (last_of code rows)
