-- ===== src/SupplyChain/Gaps.antt =====
-- backend/domains/supplychain: the fields that regulations require and suppliers lack (service.py:
-- get_gaps), the test of the supply ratios (repository.py: get_supply_chain_validation), the summary
-- of both (get_validation_summary), and the requests for data that router.py makes of them. The rows
-- of the queries and the float test of a sum against 100 are parameters.
pub mod Ready
use project_main.Prelude.{
  ℕ, ◌+◌, ◌≡◌, String, Bool, true, false, not, ◌&&◌, ◌||◌, Option, none, some, List, [], ◌∷◌, ◌++◌,
  ◌==◌, if◌then◌else◌, any, all, keep, length, map, str_eq, null, ltb, max,
}
use project_main.SupplyChain.{SupplyEdge, BomVersionRow, ProductRow, SupplyDb}

-- A row of get_supplier_field_data.
pub record FieldRow : Type 0 where
  pub supplier_id : ℕ
  pub company_name : Option String
  pub provider_type : String
  pub depth : ℕ
  pub is_root_anchor : Bool
  pub has_carbon_intensity : Bool
  pub has_factory_carbon_decl : Bool
  pub has_mine_coordinates : Bool

pub record Regulation : Type 0 where
  pub regulation_id : ℕ
  pub regulation_code : String
  pub name : String

-- A row of get_required_fields; a missing list of types is an empty one.
pub record RequiredField : Type 0 where
  pub field_name : String
  pub field_label : String
  pub provider_type_applicable : List String
  pub is_mandatory : Bool

pub record MissingField : Type 0 where
  pub field_name : String
  pub field_label : String
  pub regulation_code : String
  pub regulation_name : String

pub record GapNode : Type 0 where
  pub supplier_id : ℕ
  pub company_name : String
  pub provider_type : String
  pub depth : ℕ
  pub is_root_anchor : Bool
  pub missing_fields : List MissingField
  pub gap_count : ℕ

-- `FIELD_HAS_MAP`: the column that says whether a supplier has the field.
unfoldable pub has_column : String → Option (FieldRow → Bool)
has_column name =
    if str_eq name "carbon_intensity"
    then some (λ (row : FieldRow). row.has_carbon_intensity)
    else if str_eq name "factory_carbon_declarations"
    then some (λ (row : FieldRow). row.has_factory_carbon_decl)
    else if str_eq name "mine_coordinates"
    then some (λ (row : FieldRow). row.has_mine_coordinates)
    else none

-- `applicable_types and provider_type not in applicable_types`
unfoldable pub applies : RequiredField → String → Bool
applies field provider_type =
    null field.provider_type_applicable || any (str_eq provider_type) field.provider_type_applicable

-- `not row.get(has_col)`, where a field without a column is skipped
unfoldable pub lacks : FieldRow → String → Bool
lacks row name = elim (has_column name) [ none ↦ false | some has ↦ not (has row) ]

-- The three tests of the inner loop.
unfoldable pub is_gap : FieldRow → RequiredField → Bool
is_gap row field =
    applies field row.provider_type && field.is_mandatory && lacks row field.field_name

abbrev pub missing_of : Regulation → RequiredField → MissingField
missing_of reg field = record {
  field_name = field.field_name;
  field_label = field.field_label;
  regulation_code = reg.regulation_code;
  regulation_name = reg.name;
}

module _ (required : String → List RequiredField) where
  -- The missing fields of one supplier, a regulation after the other; `required` gives the fields of a
  -- regulation's code, and a regulation is listed once.
  unfoldable pub missing_fields : FieldRow → List Regulation → List MissingField
  missing_fields row [] = []
  missing_fields row (reg ∷ regs) =
      map (missing_of reg) (keep (is_gap row) (required reg.regulation_code))
      ++ missing_fields row regs

  unfoldable pub node_of : List Regulation → FieldRow → GapNode
  node_of regs row = record {
    supplier_id = row.supplier_id;
    company_name = elim row.company_name [ none ↦ "" | some name ↦ name ];
    provider_type = row.provider_type;
    depth = row.depth;
    is_root_anchor = row.is_root_anchor;
    missing_fields = missing_fields row regs;
    gap_count = length (missing_fields row regs);
  }

  -- `get_gaps`: the nodes
  unfoldable pub get_gaps : List FieldRow → List Regulation → List GapNode
  get_gaps [] regs = []
  get_gaps (row ∷ rows) regs = node_of regs row ∷ get_gaps rows regs

-- A row of supply_ratio, in hundredths of a per cent; a NULL is left out of sums.
pub record RatioRow : Type 0 where
  pub edge_id : ℕ
  pub ratio_percentage : Option ℕ

-- The sum of the ratios of one edge.
unfoldable pub edge_sum : List RatioRow → ℕ → ℕ
edge_sum [] e = 0
edge_sum (r ∷ rs) e =
    let rest = edge_sum rs e in
    if e == r.edge_id then elim r.ratio_percentage [ none ↦ rest | some x ↦ x + rest ] else rest

abbrev pub has_ratio : List RatioRow → SupplyEdge → Bool
has_ratio ratios e = any (λ (r : RatioRow). e.edge_id == r.edge_id) ratios

abbrev pub in_version : Option ℕ → SupplyEdge → Bool
in_version none e = true
in_version (some v) e = v == e.bom_version_id

-- The edges of the tenant's product, and of the version where one is given, that have a ratio.
unfoldable pub ratio_edges : SupplyDb → List RatioRow → ℕ → ℕ → Option ℕ → List SupplyEdge
ratio_edges db ratios product tenant version =
    keep
      (λ (e : SupplyEdge).
        in_version version e
        && has_ratio ratios e
        && any
            (λ (v : BomVersionRow). e.bom_version_id == v.bom_version_id && product == v.product_id)
            db.bom_versions
        && any (λ (p : ProductRow). product == p.product_id && tenant == p.tenant_id) db.products)
      db.edges

abbrev pub same_tier : ℕ → ℕ → SupplyEdge → Bool
same_tier parent part e = elim e.parent_supplier_id [
  | none ↦ false
  | some p ↦ parent == p && part == e.part_id
]

-- The sum of one group of `GROUP BY parent_supplier_id, part_id`.
unfoldable pub tier_sum : List RatioRow → List SupplyEdge → ℕ → ℕ → ℕ
tier_sum ratios [] parent part = 0
tier_sum ratios (e ∷ es) parent part =
    let rest = tier_sum ratios es parent part in
    if same_tier parent part e then edge_sum ratios e.edge_id + rest else rest

module _ (near_100 : ℕ → Bool) where
  unfoldable pub edge_valid : List RatioRow → SupplyEdge → Bool
  edge_valid ratios e = near_100 (edge_sum ratios e.edge_id)

  -- The group that the edge is in; the root's edges are in none.
  unfoldable pub tier_valid : List RatioRow → List SupplyEdge → SupplyEdge → Bool
  tier_valid ratios es e = elim e.parent_supplier_id [
    | none ↦ true
    | some p ↦ near_100 (tier_sum ratios es p e.part_id)
  ]

  -- `all_valid` of get_supply_chain_validation
  unfoldable pub all_valid : SupplyDb → List RatioRow → ℕ → ℕ → Option ℕ → Bool
  all_valid db ratios product tenant version =
      let es = ratio_edges db ratios product tenant version in
      all (edge_valid ratios) es && all (tier_valid ratios es) es

pub record ValidationSummary : Type 0 where
  pub supplier_count : ℕ
  pub max_tier : ℕ
  pub ratio_valid : Bool
  pub total_gap_count : ℕ
  pub nodes_with_gaps : ℕ
  pub ready_for_final : Bool
  pub gaps_by_supplier : List GapNode

abbrev pub is_supplier : GapNode → Bool
is_supplier n = not n.is_root_anchor

abbrev pub has_gap : GapNode → Bool
has_gap n = ltb 0 n.gap_count

abbrev pub total_gaps : List GapNode → ℕ
total_gaps [] = 0
total_gaps (n ∷ ns) = n.gap_count + total_gaps ns

abbrev pub max_depth : List GapNode → ℕ
max_depth [] = 0
max_depth (n ∷ ns) = max n.depth (max_depth ns)

-- `get_validation_summary`, from the nodes and the test of the ratios
unfoldable pub get_validation_summary : List GapNode → Bool → ValidationSummary
get_validation_summary nodes ratio_valid =
    let supplier_nodes = keep is_supplier nodes in
    let with_gaps = keep has_gap supplier_nodes in
    record {
      supplier_count = length supplier_nodes;
      max_tier = max_depth supplier_nodes;
      ratio_valid = ratio_valid;
      total_gap_count = total_gaps supplier_nodes;
      nodes_with_gaps = length with_gaps;
      ready_for_final =
          total_gaps supplier_nodes == 0 && ratio_valid && ltb 0 (length supplier_nodes);
      gaps_by_supplier = with_gaps;
    }

-- `supplier_ids`, where an empty list counts as a missing one
unfoldable pub targeted : List ℕ → GapNode → Bool
targeted targets n = null targets || any (λ t. n.supplier_id == t) targets

-- The nodes for which trigger_data_requests_for_gaps makes a request.
unfoldable pub request_targets : List GapNode → List ℕ → List GapNode
request_targets nodes targets = keep (λ n. not (n.gap_count == 0) && targeted targets n) nodes
