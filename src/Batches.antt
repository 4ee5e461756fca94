-- ===== src/Batches.antt =====
-- backend/domains/batches/repository.py: the batches of a status by their stage, the detail of a batch,
-- and the counts of the dashboard. The tables are those of docker/01_schema.sql; times are numbers, and a
-- confidence is counted in ten-thousandths.
pub mod Tables
pub mod Detail
pub mod Grouped
pub mod Exact
pub mod Shown
pub mod Totals
mod Tests
use project_main.Prelude.{
  ℕ, zero, suc, ◌+◌, ◌*◌, ◌/◌, ◌≡◌, ◌↔◌, String, Bool, true, false, ◌&&◌, Option, none, some, List,
  [], ◌∷◌, ◌++◌, ◌==◌, leb, map, keep, count, length, null, not, if◌then◌else◌, arith,
}
use project_main.Prelude.Dict.{Eq, Dict, lookup, insert}
use project_main.Prelude.Sort.{sort_by}
use project_main.Schema.{
  Stage, stage_queued, stage_extraction, stage_geo, stage_compliance, stage_risk, stage_judgment,
  same_stage, BatchStatus, batch_processing, batch_hitl_wait, batch_completed, batch_rejected,
  Destination, Verdict, compliance_passed,
}

pub same_stage_iff : (s t : Stage) → (same_stage s t ≡ true) ↔ (s ≡ t)
unfolding same_stage
same_stage_iff s t = ground arith

instance abbrev pub stage_eq : Eq Stage
stage_eq = record { beq = same_stage; beq_iff = same_stage_iff }

-- A row of batches; a column without NOT NULL may be missing.
pub record Batch : Type 0 where
  pub batch_id : ℕ
  pub product_id : Option ℕ
  pub bom_version_id : Option ℕ
  pub tenant_id : Option ℕ
  pub destination : Option Destination
  pub current_stage : Option Stage
  pub status : Option BatchStatus
  pub confidence_score : Option ℕ
  pub received_at : Option ℕ
  pub source_system : Option String
  pub external_id : Option String

-- The parameter `status`: the keys of _STATUS_MAP, or any other text.
pub data StatusKey : Type 0 where
  processing hitl_wait completed rejected : StatusKey
  other_key : String → StatusKey

-- `_STATUS_MAP.get`; no row has the status `batch_` with another text.
abbrev pub db_status : StatusKey → Option BatchStatus
db_status processing = some batch_processing
db_status hitl_wait = some batch_hitl_wait
db_status completed = some batch_completed
db_status rejected = some batch_rejected
db_status (other_key s) = none

abbrev pub equal_status : BatchStatus → BatchStatus → Bool
equal_status batch_processing batch_processing = true
equal_status batch_hitl_wait batch_hitl_wait = true
equal_status batch_completed batch_completed = true
equal_status batch_rejected batch_rejected = true
equal_status _ _ = false

abbrev pub has_status : Option BatchStatus → Batch → Bool
has_status none b = false
has_status (some s) b = elim b.status [ none ↦ false | some t ↦ equal_status s t ]

-- `tenant_id = :tenant_id`, or no condition where there is no tenant
abbrev pub seen_by : Option ℕ → Option ℕ → Bool
seen_by none owner = true
seen_by (some tenant) none = false
seen_by (some tenant) (some owner) = tenant == owner

-- `ORDER BY received_at DESC`, in which a missing time is first
abbrev pub received_before : Option ℕ → Option ℕ → Bool
received_before none t = true
received_before (some s) none = false
received_before (some s) (some t) = leb t s

abbrev pub received_first : Batch → Batch → Bool
received_first a b = received_before a.received_at b.received_at

abbrev pub stage_or_queued : Option Stage → Stage
stage_or_queued none = stage_queued
stage_or_queued (some s) = s

pub record BatchEntry : Type 0 where
  pub batch_id : ℕ
  pub product_id : Option ℕ
  pub tenant_id : Option ℕ
  pub destination : Option Destination
  pub current_stage : Stage
  pub status : Option BatchStatus
  pub confidence_score : Option ℕ
  pub received_at : Option ℕ
  pub source_system : Option String
  pub external_id : Option String

abbrev pub batch_entry : Batch → BatchEntry
batch_entry b = record {
  batch_id = b.batch_id;
  product_id = b.product_id;
  tenant_id = b.tenant_id;
  destination = b.destination;
  current_stage = stage_or_queued b.current_stage;
  status = b.status;
  confidence_score = b.confidence_score;
  received_at = b.received_at;
  source_system = b.source_system;
  external_id = b.external_id;
}

-- `_STAGE_ORDER`
abbrev pub no_groups : Dict Stage (List BatchEntry)
no_groups =
    (stage_queued, [])
    ∷ (stage_extraction, [])
    ∷ (stage_geo, [])
    ∷ (stage_compliance, [])
    ∷ (stage_risk, [])
    ∷ (stage_judgment, [])
    ∷ []

abbrev pub entries_of : Option (List BatchEntry) → List BatchEntry
entries_of none = []
entries_of (some es) = es

abbrev pub group_of : Stage → Dict Stage (List BatchEntry) → List BatchEntry
group_of s groups = entries_of (lookup s groups)

-- `by_stage.setdefault(stage, []).append(entry)`
abbrev pub add_entry : Dict Stage (List BatchEntry) → BatchEntry → Dict Stage (List BatchEntry)
add_entry groups e = insert e.current_stage (group_of e.current_stage groups ++ e ∷ []) groups

unfoldable pub add_entries :
    Dict Stage (List BatchEntry) → List BatchEntry → Dict Stage (List BatchEntry)
add_entries groups [] = groups
add_entries groups (e ∷ es) = add_entries (add_entry groups e) es

-- `{k: v for k, v in by_stage.items() if v}`
unfoldable pub without_empty : Dict Stage (List BatchEntry) → Dict Stage (List BatchEntry)
without_empty [] = []
without_empty ((s, es) ∷ groups) =
    let rest = without_empty groups in if null es then rest else (s, es) ∷ rest

pub record BatchList : Type 0 where
  pub status : Option BatchStatus
  pub total : ℕ
  pub by_stage : Dict Stage (List BatchEntry)

abbrev pub list_row : StatusKey → Option ℕ → Batch → Bool
list_row status tenant b = has_status (db_status status) b && seen_by tenant b.tenant_id

abbrev pub listed_rows : List Batch → StatusKey → Option ℕ → List Batch
listed_rows batches status tenant = sort_by received_first (keep (list_row status tenant) batches)

unfoldable pub list_batches_by_status : List Batch → StatusKey → Option ℕ → BatchList
list_batches_by_status batches status tenant =
    let rows = listed_rows batches status tenant in
    record {
      status = db_status status;
      total = length rows;
      by_stage = without_empty (add_entries no_groups (map batch_entry rows));
    }

abbrev pub some_sum : List Batch → ℕ
some_sum [] = 0
some_sum (b ∷ bs) = elim b.confidence_score [ none ↦ some_sum bs | some c ↦ c + some_sum bs ]

abbrev pub scored : Batch → Bool
scored b = elim b.confidence_score [ none ↦ false | some c ↦ true ]

-- The quotient rounded half up, and 0 for the NULL of an empty table
abbrev pub rounded : ℕ → ℕ → ℕ
rounded n zero = 0
rounded n (suc d) = (2 * n + suc d) / (2 * suc d)

-- The columns of compliance_results that the pass rate reads.
pub record VerdictRow : Type 0 where
  pub batch_id : Option ℕ
  pub verdict : Option Verdict

pub record Kpis : Type 0 where
  pub total_batches : ℕ
  pub processing_batches : ℕ
  pub hitl_wait_batches : ℕ
  pub completed_batches : ℕ
  pub rejected_batches : ℕ
  pub compliance_pass_rate : ℕ
  pub avg_confidence_score : ℕ

abbrev pub has_passed : VerdictRow → Bool
has_passed r = elim r.verdict [
  | none ↦ false
  | some v ↦ elim v [ compliance_passed ↦ true | _ ↦ false ]
]

abbrev pub is_batch : ℕ → Batch → Bool
is_batch id b = id == b.batch_id

abbrev pub names_batch : Option ℕ → ℕ → Bool
names_batch none id = false
names_batch (some b) id = b == id

-- The row's batch is one of the tenant's, or no tenant is asked for.
abbrev pub counted : List Batch → Option ℕ → VerdictRow → Bool
counted batches none r = true
counted batches (some tenant) r = not (
    null
      (keep (λ b. names_batch r.batch_id b.batch_id && seen_by (some tenant) b.tenant_id) batches))

-- `get_dashboard_kpis`; the rate is counted in hundredths of a percent.
unfoldable pub get_dashboard_kpis : List Batch → List VerdictRow → Option ℕ → Kpis
get_dashboard_kpis batches results tenant =
    let own = keep (λ (b : Batch). seen_by tenant b.tenant_id) batches in
    let judged = keep (counted batches tenant) results in
    record {
      total_batches = length own;
      processing_batches = count (has_status (some batch_processing)) own;
      hitl_wait_batches = count (has_status (some batch_hitl_wait)) own;
      completed_batches = count (has_status (some batch_completed)) own;
      rejected_batches = count (has_status (some batch_rejected)) own;
      compliance_pass_rate = rounded (10000 * count has_passed judged) (length judged);
      avg_confidence_score = rounded (some_sum own) (count scored own);
    }
