-- ===== src/SupplyChain/Tests.antt =====
-- A chain of three suppliers.
use project_main.Prelude.{
  ℕ, ◌≡◌, refl, ◌↔◌, String, Bool, true, false, Option, none, some, List, [], ◌∷◌, arith, value_or,
}
use project_main.SupplyChain.{
  SupplyEdge, SupplyDb, supplychain_declared, erp, unverified, children, next_level,
  find_descendant, would_create_cycle, ensure_map_header, lowest_hop, relation_hop, declared_hop,
  insert_edge, create_supply_relation, declare_new_source, cycle_guard, relation_guard,
  register_relation, declare_source_change,
}
use project_main.SupplyChain.Cycles.{Below, IsAcyclic}
use project_main.SupplyChain.Acyclic.{would_create_cycle_iff}
use project_main.SupplyChain.Register.{register_relation-IsAcyclic, declare_source_change_self}
use project_main.SupplyChain.Gaps.{FieldRow, Regulation, RequiredField}

abbrev edge : ℕ → Option ℕ → ℕ → SupplyEdge
edge id parent child = record {
  edge_id = id;
  map_id = 1;
  bom_version_id = 1;
  parent_supplier_id = parent;
  child_supplier_id = some child;
  part_id = 5;
  hop_level = some id;
  link_status = supplychain_declared;
  discovered_via = none;
  source_system = erp;
  verification_status = unverified;
}

abbrev three : List SupplyEdge
three = edge 0 none 1 ∷ edge 1 (some 1) 2 ∷ edge 2 (some 2) 3 ∷ []

abbrev three_acyclic : IsAcyclic three
three_acyclic = ((λ v. v), (tt, (omega arith, (omega arith, tt))))

abbrev chain_db : SupplyDb
chain_db = record {
  edges = three;
  maps = [];
  bom_versions = record { bom_version_id = 1; product_id = 1 } ∷ [];
  products = record { product_id = 1; tenant_id = 1 } ∷ [];
  suppliers =
      record { supplier_id = 1; tenant_id = some 1; corporate_reg_no = none }
      ∷ record { supplier_id = 2; tenant_id = some 1; corporate_reg_no = none }
      ∷ record { supplier_id = 3; tenant_id = some 1; corporate_reg_no = none }
      ∷ record { supplier_id = 4; tenant_id = some 1; corporate_reg_no = none }
      ∷ [];
  parts = 5 ∷ [];
  published = [];
  next_id = 10;
}

would_create_cycle_iff_example :
    ((b : Bool) × (would_create_cycle three 3 1 ≡ some b))
    × ((would_create_cycle three 3 1 ≡ some true) ↔ Below three 1 3)
would_create_cycle_iff_example = would_create_cycle_iff three 3 1 three_acyclic

abbrev registered : SupplyEdge × SupplyDb
registered = value_or (register_relation chain_db 1 (some 3) 4 5) (edge 0 none 1, chain_db)

register_relation-IsAcyclic_example : IsAcyclic registered.1.edges
unfolding register_relation relation_guard cycle_guard would_create_cycle find_descendant children
    next_level create_supply_relation ensure_map_header insert_edge relation_hop lowest_hop
register_relation-IsAcyclic_example =
    register_relation-IsAcyclic chain_db 1 (some 3) 4 5 registered three_acyclic refl

abbrev declared : SupplyEdge × SupplyDb
declared = value_or (declare_source_change chain_db 1 3 3 5 "new source") (edge 0 none 1, chain_db)

declare_source_change_self_example :
    (would_create_cycle chain_db.edges 3 3 ≡ some false) × Below declared.1.edges 3 3
unfolding declare_source_change cycle_guard would_create_cycle find_descendant children next_level
    declare_new_source ensure_map_header insert_edge declared_hop
declare_source_change_self_example =
    declare_source_change_self chain_db 1 3 5 "new source" declared three_acyclic refl

abbrev mine : FieldRow
mine = record {
  supplier_id = 2;
  company_name = some "Mine";
  provider_type = "miner";
  depth = 1;
  is_root_anchor = false;
  has_carbon_intensity = false;
  has_factory_carbon_decl = false;
  has_mine_coordinates = true;
}

abbrev battery : Regulation
battery = record { regulation_id = 1; regulation_code = "EU_BATTERY"; name = "Battery" }

abbrev coordinates : RequiredField
coordinates = record {
  field_name = "mine_coordinates";
  field_label = "";
  provider_type_applicable = "miner" ∷ [];
  is_mandatory = true;
}

abbrev required : String → List RequiredField
required code = coordinates ∷ []
