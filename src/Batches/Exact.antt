-- ===== src/Batches/Exact.antt =====
-- Which batches backend/domains/batches/repository.py (list_batches_by_status) shows, and at which stage.
use project_main.Prelude.{
  ℕ, ◌≡◌, ◌↔◌, refl, sym, ap, ◌∙◌, subst, Bool, true, false, ◌&&◌, Option, none, some, List, [],
  ◌∷◌, arith, inl, inr, In, In-keep, keep-In, ==_iff, some-injective, map, keep,
}
use project_main.Prelude.Sort.{In-sort_by, sort_by-In}
use project_main.Schema.{
  Stage, stage_queued, BatchStatus, batch_processing, batch_hitl_wait, batch_completed,
  batch_rejected,
}
use project_main.Batches.{
  same_stage_iff, Batch, StatusKey, processing, hitl_wait, completed, rejected, other_key,
  db_status, has_status, seen_by, stage_or_queued, received_first, BatchEntry, batch_entry,
  group_of, list_row, listed_rows, list_batches_by_status,
}
use project_main.Batches.Grouped.{row_at, size, HasEntries, list_batches_by_status-grouped}

-- The status that a key stands for.
abbrev pub IsStatus : StatusKey → Option BatchStatus → Type 0
IsStatus processing o = o ≡ some batch_processing
IsStatus hitl_wait o = o ≡ some batch_hitl_wait
IsStatus completed o = o ≡ some batch_completed
IsStatus rejected o = o ≡ some batch_rejected
IsStatus (other_key t) o = ⊥

abbrev pub IsOf : Option ℕ → Option ℕ → Type 0
IsOf none owner = Unit
IsOf (some tenant) owner = owner ≡ some tenant

-- A batch without a stage is queued.
abbrev pub IsAt : Stage → Option Stage → Type 0
IsAt s none = stage_queued ≡ s
IsAt s (some t) = t ≡ s

abbrev pub entry_at : Stage → Batch → BatchEntry
entry_at s b = record {
  batch_id = b.batch_id;
  product_id = b.product_id;
  tenant_id = b.tenant_id;
  destination = b.destination;
  current_stage = s;
  status = b.status;
  confidence_score = b.confidence_score;
  received_at = b.received_at;
  source_system = b.source_system;
  external_id = b.external_id;
}

-- The batch is one of those that are asked for.
abbrev pub IsAsked : StatusKey → Option ℕ → Stage → Batch → Type 0
IsAsked status tenant s b =
    IsStatus status b.status × (IsOf tenant b.tenant_id × IsAt s b.current_stage)

and_iff :
    {P Q : Type 0} (a b : Bool) → (a ≡ true) ↔ P → (b ≡ true) ↔ Q → ((a && b) ≡ true) ↔ (P × Q)
and_iff true b (h, k) (f, g) = (λ e. (h refl, f e), λ (p, q). g q)
and_iff false b (h, k) (f, g) = (λ e. cc, λ (p, q). k p)

tenant_iff : (tenant owner : Option ℕ) → (seen_by tenant owner ≡ true) ↔ IsOf tenant owner
tenant_iff none owner = (λ _. tt, λ _. refl)
tenant_iff (some t) none = (λ h. cc, λ h. cc)
tenant_iff (some t) (some u) =
    (λ h. ap some (sym ((==_iff t u).0 h)), λ h. (==_iff t u).1 (sym (some-injective h)))

stage_iff : (s : Stage) (o : Option Stage) → IsAt s o ↔ (s ≡ stage_or_queued o)
stage_iff s none = (λ h. sym h, λ h. sym h)
stage_iff s (some t) = (λ h. sym h, λ h. sym h)

status_iff :
    (key : StatusKey) (b : Batch) → (has_status (db_status key) b ≡ true) ↔ IsStatus key b.status
status_iff processing b = ground arith
status_iff hitl_wait b = ground arith
status_iff completed b = ground arith
status_iff rejected b = ground arith
status_iff (other_key t) b = (λ h. cc, λ h. absurd h)

In-map :
    (e : BatchEntry) (bs : List Batch)
    → In e (map batch_entry bs)
    → (b : Batch) × In b bs × (e ≡ batch_entry b)
In-map e [] h = absurd h
In-map e (b ∷ bs) (inl same) = (b, inl refl, same)
In-map e (b ∷ bs) (inr h) = let (c, i, same) = In-map e bs h in (c, inr i, same)

map-In : (b : Batch) (bs : List Batch) → In b bs → In (batch_entry b) (map batch_entry bs)
map-In b [] h = h
map-In b (c ∷ bs) (inl e) = inl (ap batch_entry e)
map-In b (c ∷ bs) (inr h) = inr (map-In b bs h)

module _ (batches : List Batch) (status : StatusKey) (tenant : Option ℕ) where
  row_iff :
      (b : Batch)
      → (list_row status tenant b ≡ true) ↔ (IsStatus status b.status × IsOf tenant b.tenant_id)
  row_iff b =
      and_iff (has_status (db_status status) b) (seen_by tenant b.tenant_id) (status_iff status b)
        (tenant_iff tenant b.tenant_id)

  abbrev shown_rows : Stage → List Batch
  shown_rows s = keep (row_at s) (listed_rows batches status tenant)

  entry_sound :
      (s : Stage) (e : BatchEntry)
      → In e (map batch_entry (shown_rows s))
      → (b : Batch) × In b batches × IsAsked status tenant s b × (e ≡ entry_at s b)
  entry_sound s e h =
      let (b, i, same) = In-map e (shown_rows s) h in
      let (listed, at_s) = In-keep (row_at s) b (listed_rows batches status tenant) i in
      let (inside, asked) =
        In-keep (list_row status tenant) b batches
          (In-sort_by received_first b (keep (list_row status tenant) batches) listed) in
      let (is_status, is_of) = (row_iff b).0 asked in
      let stage : s ≡ stage_or_queued b.current_stage =
        (same_stage_iff s (stage_or_queued b.current_stage)).0 at_s in
      (
        b,
        inside,
        (is_status, (is_of, (stage_iff s b.current_stage).1 stage)),
        same ∙ ap (λ t. entry_at t b) (sym stage),
      )

  entry_found :
      (s : Stage) (b : Batch)
      → In b batches
      → IsAsked status tenant s b
      → In (entry_at s b) (map batch_entry (shown_rows s))
  entry_found s b inside (is_status, (is_of, is_at)) =
      let stage = (stage_iff s b.current_stage).0 is_at in
      let listed : In b (listed_rows batches status tenant) =
        sort_by-In received_first b (keep (list_row status tenant) batches)
          (keep-In (list_row status tenant) b batches inside ((row_iff b).1 (is_status, is_of))) in
      let found : In b (shown_rows s) =
        keep-In (row_at s) b (listed_rows batches status tenant) listed
          ((same_stage_iff s (stage_or_queued b.current_stage)).1 stage) in
      subst (λ x. In x (map batch_entry (shown_rows s))) (ap (λ t. entry_at t b) (sym stage))
        (map-In b (shown_rows s) found)

-- An entry is in the group of a stage exactly if it shows a batch of the status and of the tenant that is at
-- the stage, where a batch without a stage is queued; the groups' sizes sum to the total; and no group that
-- is shown is empty.
pub list_batches_by_status_iff :
    (batches : List Batch) (status : StatusKey) (tenant : Option ℕ)
    → ((s : Stage) (e : BatchEntry)
        → In e (group_of s (list_batches_by_status batches status tenant).by_stage)
          ↔ ((b : Batch) × In b batches × IsAsked status tenant s b × (e ≡ entry_at s b)))
      × (size (list_batches_by_status batches status tenant).by_stage
          ≡ (list_batches_by_status batches status tenant).total)
      × HasEntries (list_batches_by_status batches status tenant).by_stage
list_batches_by_status_iff batches status tenant =
    let (groups, sizes, filled) = list_batches_by_status-grouped batches status tenant in
    (
      λ s e. (
        (λ h. entry_sound batches status tenant s e (subst (In e) (groups s) h)),
        (λ (b, inside, asked, same). subst (In e) (sym (groups s)) (
            subst (λ x. In x (map batch_entry (shown_rows batches status tenant s))) (sym same)
              (entry_found batches status tenant s b inside asked))),
      ),
      sizes,
      filled,
    )
