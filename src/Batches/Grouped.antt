-- ===== src/Batches/Grouped.antt =====
-- The groups of backend/domains/batches/repository.py: list_batches_by_status, and the counts of its
-- get_dashboard_kpis.
use project_main.Prelude.{
  ℕ, suc, ◌+◌, ◌≡◌, refl, sym, ap, ◌∙◌, subst, Bool, true, false, Option, none, List, [], ◌∷◌, ◌++◌,
  map, keep, length, length-append, null, arith, Bool-cases, inl, inr,
}
use project_main.Prelude.Dict.{Dict, lookup, insert, lookup-insert_self, lookup-insert_ne}
use project_main.Schema.{
  Stage, stage_queued, stage_extraction, stage_geo, stage_compliance, stage_risk, stage_judgment,
  same_stage,
}
use project_main.Batches.{
  same_stage_iff, stage_eq, Batch, StatusKey, BatchEntry, batch_entry, no_groups, entries_of,
  group_of, add_entry, add_entries, without_empty, listed_rows, list_batches_by_status,
}

abbrev pub at_stage : Stage → BatchEntry → Bool
at_stage s e = same_stage s e.current_stage

append_assoc : (xs ys zs : List BatchEntry) → (xs ++ ys) ++ zs ≡ xs ++ (ys ++ zs)
append_assoc [] ys zs = refl
append_assoc (x ∷ xs) ys zs = ap (λ rest. x ∷ rest) (append_assoc xs ys zs)

append_nil : (xs : List BatchEntry) → xs ++ [] ≡ xs
append_nil [] = refl
append_nil (x ∷ xs) = ap (λ rest. x ∷ rest) (append_nil xs)

abbrev Groups : Type 0
Groups = Dict Stage (List BatchEntry)

group-insert_self :
    (s : Stage) (es : List BatchEntry) (groups : Groups) → group_of s (insert s es groups) ≡ es
group-insert_self s es groups = ap entries_of (lookup-insert_self s es groups)

group-add_self :
    (groups : Groups) (e : BatchEntry)
    → group_of e.current_stage (add_entry groups e) ≡ group_of e.current_stage groups ++ e ∷ []
group-add_self groups e =
    group-insert_self e.current_stage (group_of e.current_stage groups ++ e ∷ []) groups

group-add_other :
    (s : Stage) (groups : Groups) (e : BatchEntry)
    → same_stage s e.current_stage ≡ false
    → group_of s (add_entry groups e) ≡ group_of s groups
group-add_other s groups e h = ap entries_of (
    lookup-insert_ne s e.current_stage (group_of e.current_stage groups ++ e ∷ []) groups
      (ground (arith, h, same_stage_iff s e.current_stage)))

group-add_entries :
    (s : Stage) (groups : Groups) (es : List BatchEntry)
    → group_of s (add_entries groups es) ≡ group_of s groups ++ keep (at_stage s) es
unfolding add_entries
group-add_entries s groups [] = sym (append_nil (group_of s groups))
group-add_entries s groups (e ∷ es) = elim (Bool-cases (at_stage s e)) [
  | inl same ↦
      let is = (same_stage_iff s e.current_stage).0 same in
      let added : group_of s (add_entry groups e) ≡ group_of s groups ++ e ∷ [] =
        subst (λ t. group_of t (add_entry groups e) ≡ group_of t groups ++ e ∷ []) (sym is)
          (group-add_self groups e) in
      rw same (
        group-add_entries s (add_entry groups e) es
        ∙ ap (λ g. g ++ keep (at_stage s) es) added
        ∙ append_assoc (group_of s groups) (e ∷ []) (keep (at_stage s) es))
  | inr other ↦ rw other (
      group-add_entries s (add_entry groups e) es
      ∙ ap (λ g. g ++ keep (at_stage s) es) (group-add_other s groups e other))
]

-- No stage is a key twice.
abbrev IsDistinct : Groups → Type 0
IsDistinct [] = Unit
IsDistinct ((s, es) ∷ groups) = (lookup s groups ≡ none) × IsDistinct groups

insert-IsDistinct :
    (s : Stage) (es : List BatchEntry) (groups : Groups)
    → IsDistinct groups
    → IsDistinct (insert s es groups)
insert-IsDistinct s es [] h = (refl, tt)
insert-IsDistinct s es ((t, fs) ∷ groups) (free, h) = elim (Bool-cases (same_stage s t)) [
  | inl same ↦ rw same (free, h)
  | inr other ↦ rw other (
    lookup-insert_ne t s es groups (ground (arith, other, same_stage_iff s t, same_stage_iff t s))
        ∙ free,
    insert-IsDistinct s es groups h,
  )
]

add_entries-IsDistinct :
    (groups : Groups) (es : List BatchEntry)
    → IsDistinct groups
    → IsDistinct (add_entries groups es)
unfolding add_entries
add_entries-IsDistinct groups [] h = h
add_entries-IsDistinct groups (e ∷ es) h =
    add_entries-IsDistinct (add_entry groups e) es
      (insert-IsDistinct e.current_stage (group_of e.current_stage groups ++ e ∷ []) groups h)

null-nil : (es : List BatchEntry) → null es ≡ true → es ≡ []
null-nil [] h = refl
null-nil (e ∷ es) h = cc

group-without_empty :
    (s : Stage) (groups : Groups)
    → IsDistinct groups
    → group_of s (without_empty groups) ≡ group_of s groups
unfolding without_empty
group-without_empty s [] h = refl
group-without_empty s ((t, es) ∷ groups) (free, h) = elim (Bool-cases (same_stage s t)) [
  | inl same ↦ elim (Bool-cases (null es)) [
    | inl nothing ↦
        let is = (same_stage_iff s t).0 same in
        let free_s : lookup s groups ≡ none = subst (λ u. lookup u groups ≡ none) (sym is) free in
        let left : group_of s (without_empty groups) ≡ [] =
          group-without_empty s groups h ∙ ap entries_of free_s in
        rw nothing (rw same (left ∙ sym (null-nil es nothing)))
    | inr something ↦ rw something (rw same refl)
  ]
  | inr other ↦ elim (Bool-cases (null es)) [
    | inl nothing ↦ rw nothing (rw other (group-without_empty s groups h))
    | inr something ↦ rw something (rw other (group-without_empty s groups h))
  ]
]

-- The entries of all groups.
abbrev pub size : Groups → ℕ
size [] = 0
size ((s, es) ∷ groups) = length es + size groups

size-insert :
    (s : Stage) (fs : List BatchEntry) (groups : Groups)
    → size (insert s fs groups) + length (group_of s groups) ≡ size groups + length fs
size-insert s fs [] = omega arith
size-insert s fs ((t, es) ∷ groups) = elim (Bool-cases (same_stage s t)) [
  | inl same ↦ rw same (omega arith)
  | inr other ↦ rw other (omega (arith, size-insert s fs groups))
]

size-add_entries :
    (groups : Groups) (es : List BatchEntry)
    → size (add_entries groups es) ≡ size groups + length es
unfolding add_entries
size-add_entries groups [] = omega arith
size-add_entries groups (e ∷ es) =
    let old = group_of e.current_stage groups in
    omega (
      arith,
      size-add_entries (add_entry groups e) es,
      size-insert e.current_stage (old ++ e ∷ []) groups,
      length-append old (e ∷ []),
    )

size-without_empty : (groups : Groups) → size (without_empty groups) ≡ size groups
unfolding without_empty
size-without_empty [] = refl
size-without_empty ((s, es) ∷ groups) = elim (Bool-cases (null es)) [
  | inl nothing ↦
      rw nothing (omega (arith, size-without_empty groups, ap length (null-nil es nothing)))
  | inr something ↦ rw something (omega (arith, size-without_empty groups))
]

-- No group is empty.
abbrev pub HasEntries : Groups → Type 0
HasEntries [] = Unit
HasEntries ((s, es) ∷ groups) = (null es ≡ false) × HasEntries groups

without_empty-HasEntries : (groups : Groups) → HasEntries (without_empty groups)
unfolding without_empty
without_empty-HasEntries [] = tt
without_empty-HasEntries ((s, es) ∷ groups) = elim (Bool-cases (null es)) [
  | inl nothing ↦ rw nothing (without_empty-HasEntries groups)
  | inr something ↦ rw something (something, without_empty-HasEntries groups)
]

abbrev pub row_at : Stage → Batch → Bool
row_at s b = at_stage s (batch_entry b)

keep-entries :
    (s : Stage) (bs : List Batch)
    → keep (at_stage s) (map batch_entry bs) ≡ map batch_entry (keep (row_at s) bs)
keep-entries s [] = refl
keep-entries s (b ∷ bs) = elim (Bool-cases (row_at s b)) [
  | inl e ↦ rw e (ap (λ rest. batch_entry b ∷ rest) (keep-entries s bs))
  | inr e ↦ rw e (keep-entries s bs)
]

length-entries : (bs : List Batch) → length (map batch_entry bs) ≡ length bs
length-entries [] = refl
length-entries (b ∷ bs) = ap suc (length-entries bs)

no_groups-IsDistinct : IsDistinct no_groups
unfolding same_stage
no_groups-IsDistinct = (refl, (refl, (refl, (refl, (refl, (refl, tt))))))

group-no_groups : (s : Stage) → group_of s no_groups ≡ []
unfolding same_stage
group-no_groups stage_queued = refl
group-no_groups stage_extraction = refl
group-no_groups stage_geo = refl
group-no_groups stage_compliance = refl
group-no_groups stage_risk = refl
group-no_groups stage_judgment = refl

-- The group of each stage has the batches of the status and of the tenant that are at the stage, the last
-- received first, where a batch without a stage is queued; the groups' sizes sum to the total; and no
-- group that is shown is empty.
pub list_batches_by_status-grouped :
    (batches : List Batch) (status : StatusKey) (tenant : Option ℕ)
    → ((s : Stage)
        → group_of s (list_batches_by_status batches status tenant).by_stage
          ≡ map batch_entry (keep (row_at s) (listed_rows batches status tenant)))
      × (size (list_batches_by_status batches status tenant).by_stage
          ≡ (list_batches_by_status batches status tenant).total)
      × HasEntries (list_batches_by_status batches status tenant).by_stage
unfolding list_batches_by_status
list_batches_by_status-grouped batches status tenant =
    let rows = listed_rows batches status tenant in
    let entries = map batch_entry rows in
    (
      λ s.
          group-without_empty s (add_entries no_groups entries)
            (add_entries-IsDistinct no_groups entries no_groups-IsDistinct)
          ∙ group-add_entries s no_groups entries
          ∙ ap (λ g. g ++ keep (at_stage s) entries) (group-no_groups s)
          ∙ keep-entries s rows,
      size-without_empty (add_entries no_groups entries)
          ∙ size-add_entries no_groups entries
          ∙ omega (arith, length-entries rows),
      without_empty-HasEntries (add_entries no_groups entries),
    )
