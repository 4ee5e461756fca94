-- ===== src/Product/Tree.antt =====
-- The tree of a bill of materials: get_bom_tree of backend/domains/product/repository.py, with its
-- recursive query over parts and bom_items and the choice of the root.
pub mod Layers
pub mod Roots
mod Tests
use project_main.Prelude.{
  ℕ, zero, suc, String, Bool, true, false, not, ◌&&◌, ◌||◌, Option, none, some, List, [], ◌∷◌, ◌++◌,
  ◌==◌, ltb, if◌then◌else◌, any, find, keep,
}
use project_main.Product.{BomVersion, is_active}

pub record PartRow : Type 0 where
  pub part_id : ℕ
  pub part_code : String
  pub tier_level : Option ℕ
  pub parent_part_id : Option ℕ

-- A row of bom_items; quantities are counted in ten-thousandths.
pub record BomItem : Type 0 where
  pub bom_version_id : Option ℕ
  pub part_id : Option ℕ
  pub required_quantity : Option ℕ
  pub origin_country : Option String

-- A row of the query: a part, its item (NULL below the first layer) and its depth.
pub record TreeRow : Type 0 where
  pub part : PartRow
  pub item : Option BomItem
  pub depth : ℕ

-- `column = :id`, where a NULL equals nothing
abbrev pub equals : ℕ → Option ℕ → Bool
equals i none = false
equals i (some j) = i == j

abbrev pub item_of : ℕ → ℕ → BomItem → Bool
item_of bv part i = equals bv i.bom_version_id && equals part i.part_id

abbrev pub has_parent : Option ℕ → Bool
has_parent none = false
has_parent (some p) = true

-- The subquery: the parts of the version that have a parent.
abbrev pub is_child_part : List BomItem → ℕ → PartRow → Bool
is_child_part items bv p = any (item_of bv p.part_id) items && has_parent p.parent_part_id

-- `parent NOT IN (SELECT part_id ...)`: for a NULL this is true only if nothing is selected.
abbrev pub not_in : Option ℕ → List PartRow → Bool
not_in none [] = true
not_in none (p ∷ ps) = false
not_in (some i) ps = not (any (λ (p : PartRow). i == p.part_id) ps)

-- One row for each item of the part.
unfoldable pub item_rows : PartRow → List BomItem → List TreeRow
item_rows p [] = []
item_rows p (i ∷ is) = record { part = p; item = some i; depth = 0 } ∷ item_rows p is

-- The first layer, with the parts that the subquery selects.
unfoldable pub anchor_rows : List BomItem → ℕ → List PartRow → List PartRow → List TreeRow
anchor_rows items bv selected [] = []
anchor_rows items bv selected (p ∷ ps) =
    let rest = anchor_rows items bv selected ps in
    if not_in p.parent_part_id selected
    then item_rows p (keep (item_of bv p.part_id) items) ++ rest
    else rest

-- The parts whose parent is the part of the row.
unfoldable pub child_rows : List PartRow → TreeRow → List TreeRow
child_rows [] r = []
child_rows (p ∷ ps) r =
    let rest = child_rows ps r in
    if equals r.part.part_id p.parent_part_id
    then record { part = p; item = none; depth = suc r.depth } ∷ rest
    else rest

-- One round of the recursion, `WHERE bt.depth < 5`.
unfoldable pub next_rows : List PartRow → List TreeRow → List TreeRow
next_rows parts [] = []
next_rows parts (r ∷ rs) =
    let rest = next_rows parts rs in if ltb r.depth 5 then child_rows parts r ++ rest else rest

abbrev pub append_rows : List TreeRow → Option (List TreeRow) → Option (List TreeRow)
append_rows rows none = none
append_rows rows (some more) = some (rows ++ more)

-- `UNION ALL` over at most a number of rounds; `none` means that rows are left.
unfoldable pub tree_rows : ℕ → List PartRow → List TreeRow → Option (List TreeRow)
tree_rows n parts [] = some []
tree_rows zero parts (r ∷ rs) = none
tree_rows (suc n) parts (r ∷ rs) =
    append_rows (r ∷ rs) (tree_rows n parts (next_rows parts (r ∷ rs)))

abbrev pub bom_rows : List PartRow → List BomItem → ℕ → Option (List TreeRow)
bom_rows parts items bv =
    tree_rows 6 parts (anchor_rows items bv (keep (is_child_part items bv) parts) parts)

-- `node_map[part_id] = node`: the last row of a part stays, at the place of the first.
unfoldable pub put : TreeRow → List TreeRow → List TreeRow
put r [] = r ∷ []
put r (n ∷ ns) =
    let rest = put r ns in if r.part.part_id == n.part.part_id then r ∷ ns else n ∷ rest

unfoldable pub put_all : List TreeRow → List TreeRow → List TreeRow
put_all nodes [] = nodes
put_all nodes (r ∷ rs) = put_all (put r nodes) rs

-- The nodes that are appended to a node's children.
abbrev pub children_of : List TreeRow → ℕ → List TreeRow
children_of nodes id = keep (λ (n : TreeRow). equals id n.part.parent_part_id) nodes

-- The root: the one node of depth 0, or the product above all of them.
pub data BomRoot : Type 0 where
  part_root : TreeRow → BomRoot
  product_root : List TreeRow → BomRoot

-- Not found; a version without rows; a tree with its nodes.
pub data BomTree : Type 0 where
  not_found no_items : BomTree
  tree : BomRoot → List TreeRow → BomTree

abbrev pub is_root : TreeRow → Bool
is_root n = 0 == n.depth

unfoldable pub with_root : List TreeRow → List TreeRow → BomTree
with_root nodes [] = not_found
with_root nodes (r ∷ []) = tree (part_root r) nodes
with_root nodes (r ∷ s ∷ rs) = tree (product_root (r ∷ s ∷ rs)) nodes

-- Step 3, on the rows in their order.
unfoldable pub assemble : List TreeRow → BomTree
assemble [] = no_items
assemble (r ∷ rs) = let nodes = put_all [] (r ∷ rs) in with_root nodes (keep is_root nodes)

abbrev pub active_version : ℕ → BomVersion → Bool
active_version product v = product == v.product_id && is_active v.status

-- The order of the texts in the database.
module _ (code_le : String → String → Bool) where
  -- `ORDER BY tier_level, part_code`, a NULL last
  abbrev pub tier_before : Option ℕ → Option ℕ → Bool → Bool
  tier_before none none codes = codes
  tier_before none (some t) codes = false
  tier_before (some s) none codes = true
  tier_before (some s) (some t) codes = ltb s t || s == t && codes

  abbrev pub before : TreeRow → TreeRow → Bool
  before r s =
      ltb r.depth s.depth
      || r.depth == s.depth
        && tier_before r.part.tier_level s.part.tier_level
            (code_le r.part.part_code s.part.part_code)

  unfoldable pub insert_row : TreeRow → List TreeRow → List TreeRow
  insert_row r [] = r ∷ []
  insert_row r (s ∷ ss) = let rest = insert_row r ss in if before r s then r ∷ s ∷ ss else s ∷ rest

  unfoldable pub sort_rows : List TreeRow → List TreeRow
  sort_rows [] = []
  sort_rows (r ∷ rs) = insert_row r (sort_rows rs)

  abbrev pub assembled : Option (List TreeRow) → Option BomTree
  assembled none = none
  assembled (some rows) = some (assemble (sort_rows rows))

  -- `get_bom_tree`; `none` means that the query did not end in its rounds
  unfoldable pub get_bom_tree : List BomVersion → List PartRow → List BomItem → ℕ → Option BomTree
  get_bom_tree versions parts items product = elim (find (active_version product) versions) [
    | none ↦ some not_found
    | some v ↦ assembled (bom_rows parts items v.bom_version_id)
  ]
