-- ===== src/Product/Active.antt =====
-- The active version of a product in backend/domains/product, and the deprecated ones.
use project_main.Prelude.{
  ℕ, ◌≤◌, ◌≡◌, refl, ◌≢◌, inl, inr, Bool, ◌&&◌, none, some, List, [], ◌∷◌, ◌==◌, ok, err, http,
  err-ne-ok, >>=-eq-ok, ok-injective, Option-cases, find, count, arith, ap, subst,
}
use project_main.Product.{
  active, deprecated, BomVersion, is_active, has_id, validate_transition, with_status, activate,
  activate_bom_version, deprecate_bom_version,
}

-- The active versions of a product.
abbrev pub active_of : ℕ → BomVersion → Bool
active_of p v = p == v.product_id && is_active v.status

find-has_id :
    (id : ℕ) (v : BomVersion) (vs : List BomVersion)
    → find (has_id id) vs ≡ some v
    → v.bom_version_id ≡ id
find-has_id id v [] h = cc
find-has_id id v (x ∷ vs) h = ground (arith, find-has_id id v vs)

-- After the activation of `bom`, the active versions of its product are the rows with its id.
activated_count :
    (bom : BomVersion) (vs : List BomVersion)
    → count (active_of bom.product_id) (activate bom vs) ≤ count (has_id bom.bom_version_id) vs
unfolding activate
activated_count bom [] = omega arith
activated_count bom (v ∷ vs) = ground (arith, activated_count bom vs)

activate_missing :
    (vs : List BomVersion) (id : ℕ) (out : BomVersion × List BomVersion)
    → find (has_id id) vs ≡ none
    → activate_bom_version vs id ≢ ok out
unfolding activate_bom_version
activate_missing vs id out h = rw (h, activate_bom_version) err-ne-ok

activate-found :
    (vs : List BomVersion) (id : ℕ) (bom : BomVersion) (out : BomVersion × List BomVersion)
    → find (has_id id) vs ≡ some bom
    → activate_bom_version vs id ≡ ok out
    → (with_status active bom, activate bom vs) ≡ out
unfolding activate_bom_version
activate-found vs id bom out found h =
    let (_, _, k) =
      >>=-eq-ok (validate_transition bom.status active) _ (rw (found, activate_bom_version) at h) in
    ok-injective k

-- Whatever has been active before, after an activation at most one version of its product is, where
-- ids are unique.
pub activate_bom_version-active :
    (vs : List BomVersion) (id : ℕ) (out : BomVersion × List BomVersion)
    → count (has_id id) vs ≤ 1
    → activate_bom_version vs id ≡ ok out
    → (out.0.status ≡ active) × (count (active_of out.0.product_id) out.1 ≤ 1)
activate_bom_version-active vs id out unique h = elim (Option-cases (find (has_id id) vs)) [
  | inl e ↦ absurd (activate_missing vs id out e h)
  | inr (bom, e) ↦
      subst
        (λ (o : BomVersion × List BomVersion).
          (o.0.status ≡ active) × (count (active_of o.0.product_id) o.1 ≤ 1))
        (activate-found vs id bom out e h) (refl, one_row bom (find-has_id id bom vs e))
]
  where
    one_row :
        (bom : BomVersion)
        → bom.bom_version_id ≡ id
        → count (active_of bom.product_id) (activate bom vs) ≤ 1
    one_row bom same = omega (arith, activated_count bom vs, ap (λ i. count (has_id i) vs) same)

-- A deprecated version can be neither activated nor deprecated again.
pub deprecated_final :
    (vs : List BomVersion) (id : ℕ) (v : BomVersion)
    → find (has_id id) vs ≡ some v
    → v.status ≡ deprecated
    → (activate_bom_version vs id ≡ err (http 422)) × (deprecate_bom_version vs id ≡ err (http 422))
unfolding activate_bom_version deprecate_bom_version validate_transition
deprecated_final vs id v found h = ground arith
