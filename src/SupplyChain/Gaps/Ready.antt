-- ===== src/SupplyChain/Gaps/Ready.antt =====
-- When get_validation_summary (backend/domains/supplychain/service.py) takes a map for complete.
use project_main.Prelude.{
  ℕ, ◌+◌, ◌≡◌, refl, String, Bool, not, ◌&&◌, List, [], ◌∷◌, ◌==◌, all, keep, length, suc, ap,
  Bool-cases, inl, inr, length-append, map, null, ltb, arith,
}
use project_main.SupplyChain.Gaps.{
  FieldRow, Regulation, RequiredField, is_gap, missing_of, missing_fields, node_of, get_gaps,
  total_gaps, is_supplier, get_validation_summary,
}

-- Nothing that the regulations require of a supplier of the row's kind is missing.
abbrev pub complete : (String → List RequiredField) → List Regulation → FieldRow → Bool
complete required regs row =
    all (λ (reg : Regulation). all (λ f. not (is_gap row f)) (required reg.regulation_code)) regs

abbrev pub not_anchor : FieldRow → Bool
not_anchor row = not row.is_root_anchor

length-map {ℓ κ} :
    {A : Type ℓ} {B : Type κ} (f : A → B) (xs : List A) → length (map f xs) ≡ length xs
length-map f [] = refl
length-map f (x ∷ xs) = ap suc (length-map f xs)

keep_none {ℓ} :
    {A : Type ℓ} (p : A → Bool) (xs : List A) → (length (keep p xs) == 0) ≡ all (λ x. not (p x)) xs
keep_none p [] = ground arith
keep_none p (x ∷ xs) = ground (arith, keep_none p xs)

add-eq-zero : (a b : ℕ) → ((a + b) == 0) ≡ ((a == 0) && (b == 0))
add-eq-zero a b = ground arith

module _ (required : String → List RequiredField) (regs : List Regulation) where
  missing_fields-complete :
      (row : FieldRow) (rs : List Regulation)
      → (length (missing_fields required row rs) == 0) ≡ complete required rs row
  unfolding missing_fields
  missing_fields-complete row [] = ground arith
  missing_fields-complete row (reg ∷ rs) =
      let gaps = keep (is_gap row) (required reg.regulation_code) in
      rw (length-append (map (missing_of reg) gaps) (missing_fields required row rs)) (
        rw (length-map (missing_of reg) gaps) (
          rw (add-eq-zero (length gaps) (length (missing_fields required row rs))) (
            ground (
              arith,
              keep_none (is_gap row) (required reg.regulation_code),
              missing_fields-complete row rs,
            ))))

  total_gaps-complete :
      (rows : List FieldRow)
      → (total_gaps (keep is_supplier (get_gaps required rows regs)) == 0)
        ≡ all (complete required regs) (keep not_anchor rows)
  unfolding get_gaps node_of
  total_gaps-complete [] = ground arith
  total_gaps-complete (row ∷ rows) = ground (
    arith,
    total_gaps-complete rows,
    missing_fields-complete row regs,
    add-eq-zero (length (missing_fields required row regs))
        (total_gaps (keep is_supplier (get_gaps required rows regs))),
  )

  suppliers-not_anchor :
      (rows : List FieldRow)
      → ltb 0 (length (keep is_supplier (get_gaps required rows regs)))
        ≡ not (null (keep not_anchor rows))
  unfolding get_gaps node_of
  suppliers-not_anchor [] = ground arith
  suppliers-not_anchor (row ∷ rows) = elim (Bool-cases row.is_root_anchor) [
    | inl e ↦ rw e (suppliers-not_anchor rows)
    | inr e ↦ rw e (ground arith)
  ]

  -- A map is ready exactly when it has a supplier beside the root, no supplier beside the root lacks a
  -- field that a regulation makes mandatory for its kind and that is tracked, and the ratios are valid.
  pub ready_for_final-eq :
      (rows : List FieldRow) (ratio_valid : Bool)
      → (get_validation_summary (get_gaps required rows regs) ratio_valid).ready_for_final ≡ (
          all (complete required regs) (keep not_anchor rows)
          && ratio_valid
          && not (null (keep not_anchor rows)))
  unfolding get_validation_summary
  ready_for_final-eq rows ratio_valid =
      rw (total_gaps-complete rows) (rw (suppliers-not_anchor rows) refl)
