-- ===== src/Batches/Tests.antt =====
-- One batch at a stage.
use project_main.Prelude.{◌≡◌, ◌↔◌, none, some, [], ◌∷◌, In}
use project_main.Schema.{Stage, stage_geo, batch_completed, eu}
use project_main.Batches.{Batch, BatchEntry, completed, group_of, list_batches_by_status}
use project_main.Batches.Grouped.{size, HasEntries}
use project_main.Batches.Exact.{IsAsked, entry_at, list_batches_by_status_iff}

abbrev one_batch : Batch
one_batch = record {
  batch_id = 1;
  product_id = none;
  bom_version_id = none;
  tenant_id = some 1;
  destination = some eu;
  current_stage = some stage_geo;
  status = some batch_completed;
  confidence_score = none;
  received_at = some 1;
  source_system = none;
  external_id = none;
}

list_batches_by_status_iff_example :
    ((s : Stage) (e : BatchEntry)
      → In e (group_of s (list_batches_by_status (one_batch ∷ []) completed (some 1)).by_stage) ↔ (
          (b : Batch) × In b (one_batch ∷ [])
          × IsAsked completed (some 1) s b
          × (e ≡ entry_at s b)))
    × (size (list_batches_by_status (one_batch ∷ []) completed (some 1)).by_stage
        ≡ (list_batches_by_status (one_batch ∷ []) completed (some 1)).total)
    × HasEntries (list_batches_by_status (one_batch ∷ []) completed (some 1)).by_stage
list_batches_by_status_iff_example = list_batches_by_status_iff (one_batch ∷ []) completed (some 1)
