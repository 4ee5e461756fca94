-- ===== src/Product/Tree/Tests.antt =====
-- A pack with a module and a cell.
use project_main.Prelude.{ℕ, ◌≡◌, refl, String, Bool, true, Option, none, some, List, [], ◌∷◌}
use project_main.Product.{BomVersionStatus, BomVersion, active}
use project_main.Product.Tree.{
  PartRow, BomItem, item_rows, anchor_rows, child_rows, next_rows, tree_rows, put, put_all, BomTree,
  not_found, with_root, assemble, insert_row, sort_rows, get_bom_tree,
}
use project_main.Product.Tree.Layers.{IsShallow, AllNodes, get_bom_tree-IsShallow}
use project_main.Product.Tree.Roots.{HasParent, get_bom_tree-HasParent}

abbrev bom : ℕ → ℕ → BomVersionStatus → BomVersion
bom id product status = record {
  bom_version_id = id;
  product_id = product;
  version_number = "v1";
  production_from = none;
  production_to = none;
  status = status;
  created_at = 1;
}

abbrev part : ℕ → Option ℕ → String → PartRow
part n parent code = record {
  part_id = n;
  part_code = code;
  tier_level = some n;
  parent_part_id = parent;
}

abbrev pack : List PartRow
pack = part 0 none "PACK" ∷ part 1 (some 0) "MOD" ∷ part 2 (some 1) "CELL" ∷ []

abbrev item : ℕ → BomItem
item n = record {
  bom_version_id = some 9;
  part_id = some n;
  required_quantity = none;
  origin_country = none;
}

abbrev pack_items : List BomItem
pack_items = item 0 ∷ item 1 ∷ item 2 ∷ []

abbrev version : BomVersion
version = bom 9 5 active

abbrev any_order : String → String → Bool
any_order s t = true

get_bom_tree-IsShallow_example :
    (t : BomTree) × (get_bom_tree any_order (version ∷ []) pack pack_items 5 ≡ some t)
    × AllNodes IsShallow t
get_bom_tree-IsShallow_example = get_bom_tree-IsShallow any_order (version ∷ []) pack pack_items 5

abbrev or_none : Option BomTree → BomTree
or_none none = not_found
or_none (some t) = t

abbrev shown : BomTree
shown = or_none (get_bom_tree any_order (version ∷ []) pack pack_items 5)

get_bom_tree-HasParent_example : AllNodes HasParent shown
unfolding get_bom_tree item_rows anchor_rows child_rows next_rows tree_rows put put_all with_root
    assemble insert_row sort_rows
get_bom_tree-HasParent_example =
    get_bom_tree-HasParent any_order (version ∷ []) pack pack_items 5 version shown refl refl refl
