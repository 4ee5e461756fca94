-- ===== src/Product/Tests.antt =====
-- Three versions of one product.
use project_main.Prelude.{ℕ, none, List, [], ◌∷◌, value_or}
use project_main.Product.{
  BomVersionStatus, BomVersion, draft, active, deprecated, activate_bom_version,
}

abbrev bom : ℕ → ℕ → BomVersionStatus → BomVersion
bom id product status = record {
  bom_version_id = id;
  product_id = product;
  version_number = "v1";
  production_from = none;
  production_to = none;
  status = status;
  created_at = 1;
}

abbrev versions : List BomVersion
versions = bom 1 5 deprecated ∷ bom 2 5 active ∷ bom 3 5 draft ∷ []

abbrev activated : BomVersion × List BomVersion
activated = value_or (activate_bom_version versions 3) (bom 0 0 draft, [])
