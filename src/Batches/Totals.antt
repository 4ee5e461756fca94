-- ===== src/Batches/Totals.antt =====
-- The counts of the dashboard and the lists of the statuses (backend/domains/batches/repository.py).
use project_main.Prelude.{
  ℕ, zero, suc, ◌+◌, ◌*◌, ◌/◌, ◌≤◌, ◌<◌, ◌≡◌, refl, sym, ap, ◌∙◌, Bool, ◌&&◌, Option, some, List,
  [], ◌∷◌, keep, count, length, arith, count_le_length,
}
use native.Mathlib.Nat.{div-lt_iff_lt-mul}
use project_main.Prelude.Sort.{length-sort_by}
use project_main.Schema.{
  BatchStatus, batch_processing, batch_hitl_wait, batch_completed, batch_rejected,
}
use project_main.Batches.{
  Batch, StatusKey, processing, hitl_wait, completed, rejected, db_status, has_status, seen_by,
  listed_rows, received_first, list_row, list_batches_by_status, rounded, VerdictRow, has_passed,
  counted, get_dashboard_kpis,
}

count-keep :
    {A : Type 0} (p q : A → Bool) (xs : List A)
    → count p (keep q xs) ≡ length (keep (λ x. p x && q x) xs)
count-keep p q [] = refl
count-keep p q (x ∷ xs) = ground (arith, count-keep p q xs)

rounded-le : (p n : ℕ) → p ≤ n → rounded (10000 * p) n ≤ 10000
rounded-le p zero h = omega arith
rounded-le p (suc n) h =
    let below : 2 * (10000 * p) + suc n < 10001 * (2 * suc n) = omega (arith, h) in
    let quotient : (2 * (10000 * p) + suc n) / (2 * suc n) < 10001 =
      (div-lt_iff_lt-mul (omega arith)).1 below in
    omega (arith, quotient)

status_count :
    (batches : List Batch) (key : StatusKey) (status : BatchStatus) (tenant : Option ℕ)
    → db_status key ≡ some status
    → count (has_status (some status)) (keep (λ (b : Batch). seen_by tenant b.tenant_id) batches)
      ≡ length (listed_rows batches key tenant)
status_count batches key status tenant e =
    count-keep (has_status (some status)) (λ b. seen_by tenant b.tenant_id) batches
    ∙ ap (λ o. length (keep (λ (b : Batch). has_status o b && seen_by tenant b.tenant_id) batches))
        (sym e)
    ∙ sym (length-sort_by received_first (keep (list_row key tenant) batches))

-- Each count of a status is the total of the list of that status for the same tenant, and the pass rate is
-- at most 100 percent.
pub get_dashboard_kpis-totals :
    (batches : List Batch) (results : List VerdictRow) (tenant : Option ℕ)
    → ((get_dashboard_kpis batches results tenant).processing_batches
        ≡ (list_batches_by_status batches processing tenant).total)
      × ((get_dashboard_kpis batches results tenant).hitl_wait_batches
          ≡ (list_batches_by_status batches hitl_wait tenant).total)
      × ((get_dashboard_kpis batches results tenant).completed_batches
          ≡ (list_batches_by_status batches completed tenant).total)
      × ((get_dashboard_kpis batches results tenant).rejected_batches
          ≡ (list_batches_by_status batches rejected tenant).total)
      × ((get_dashboard_kpis batches results tenant).compliance_pass_rate ≤ 10000)
unfolding get_dashboard_kpis list_batches_by_status
get_dashboard_kpis-totals batches results tenant =
    let judged = keep (counted batches tenant) results in
    (
      status_count batches processing batch_processing tenant refl,
      status_count batches hitl_wait batch_hitl_wait tenant refl,
      status_count batches completed batch_completed tenant refl,
      status_count batches rejected batch_rejected tenant refl,
      rounded-le (count has_passed judged) (length judged) (count_le_length has_passed judged),
    )
