-- ===== src/SupplyChain/Updates/Tests.antt =====
-- Two maps of two tenants, with an edge each.
use project_main.Prelude.{ℕ, ◌≡◌, String, Option, none, some, [], ◌∷◌, keep}
use project_main.SupplyChain.{
  supplychain_declared, erp, unverified, SupplyEdge, completed, building, MapHeader, SupplierRow,
  SupplyDb,
}
use project_main.SupplyChain.Updates.{confirm_map, confirm_pool, set_map_status}
use project_main.SupplyChain.Updates.Isolated.{
  foreign_edge, foreign_pool, foreign_map, updates_foreign,
}

abbrev edge_of : ℕ → SupplyEdge
edge_of n = record {
  edge_id = n;
  map_id = n;
  bom_version_id = n;
  parent_supplier_id = some 1;
  child_supplier_id = some 2;
  part_id = 5;
  hop_level = some 1;
  link_status = supplychain_declared;
  discovered_via = none;
  source_system = erp;
  verification_status = unverified;
}

abbrev map_of : ℕ → MapHeader
map_of n = record {
  map_id = n;
  bom_version_id = n;
  product_id = n;
  status = building;
  completed_by = none;
  completed_at = none;
}

abbrev supplier_of : ℕ → Option String → SupplierRow
supplier_of n reg = record { supplier_id = n; tenant_id = some 1; corporate_reg_no = reg }

abbrev two_tenants : SupplyDb
two_tenants = record {
  edges = edge_of 1 ∷ edge_of 2 ∷ [];
  maps = map_of 1 ∷ map_of 2 ∷ [];
  bom_versions =
      record { bom_version_id = 1; product_id = 1 }
      ∷ record { bom_version_id = 2; product_id = 2 }
      ∷ [];
  products =
      record { product_id = 1; tenant_id = 1 } ∷ record { product_id = 2; tenant_id = 2 } ∷ [];
  suppliers = supplier_of 1 (some "A") ∷ supplier_of 2 (some "B") ∷ [];
  parts = 5 ∷ [];
  published = [];
  next_id = 10;
}

updates_foreign_example :
    (keep (foreign_edge two_tenants 1) (confirm_map two_tenants 1 1).1.edges
      ≡ keep (foreign_edge two_tenants 1) two_tenants.edges)
    × (keep (foreign_pool two_tenants 1) (confirm_pool two_tenants 1 1 none).1.edges
        ≡ keep (foreign_pool two_tenants 1) two_tenants.edges)
    × (keep (foreign_map two_tenants 1) (set_map_status two_tenants 1 completed 7 1 99).1.maps
        ≡ keep (foreign_map two_tenants 1) two_tenants.maps)
updates_foreign_example = updates_foreign two_tenants 1 1 7 99 none completed

abbrev first : ℕ
first = 1

abbrev second : ℕ
second = 2

abbrev id_text : ℕ → String
id_text n = "id"
