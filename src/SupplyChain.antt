-- ===== src/SupplyChain.antt =====
-- backend/domains/supplychain (repository.py, service.py): the graph of supply relations, the check
-- for cycles before a relation is written, and changes of source that suppliers declare. The tables
-- are those of docker/01_schema.sql that the code reads and writes.
pub mod Cycles
pub mod Acyclic
pub mod Register
pub mod Gaps
pub mod Updates
mod Tests
use project_main.Prelude.{
  ℕ, zero, ◌+◌, String, Bool, true, false, not, ◌&&◌, Option, none, some, List, [], ◌∷◌, ◌++◌, ◌==◌,
  if◌then◌else◌, Result, ok, err, value_error, integrity_error, no_result_found, cycle_error,
  unfinished, ◌>>=◌, ◌>>◌, raise_if, find, keep, any, min, str_eq, suc, length, update_where, count,
}

-- supply_chain_map.link_status (chk_link_status)
pub data LinkStatus : Type 0 where
  supplychain_declared supplychain_confirmed : LinkStatus

-- supply_chain_map.source_system (chk_map_source)
pub data SourceSystem : Type 0 where
  erp supplier_declared : SourceSystem

-- supply_chain_map.verification_status (chk_map_verification)
pub data VerificationStatus : Type 0 where
  unverified verified : VerificationStatus

-- A row of supply_chain_map: a child supplies a part to its parent; the root has no parent.
pub record SupplyEdge : Type 0 where
  pub edge_id : ℕ
  pub map_id : ℕ
  pub bom_version_id : ℕ
  pub parent_supplier_id : Option ℕ
  pub child_supplier_id : Option ℕ
  pub part_id : ℕ
  pub hop_level : Option ℕ
  pub link_status : LinkStatus
  pub discovered_via : Option ℕ
  pub source_system : SourceSystem
  pub verification_status : VerificationStatus

-- supply_chain_maps.status (chk_scmap_status)
pub data MapStatus : Type 0 where
  building completed : MapStatus

pub record MapHeader : Type 0 where
  pub map_id : ℕ
  pub bom_version_id : ℕ
  pub product_id : ℕ
  pub status : MapStatus
  pub completed_by : Option ℕ
  pub completed_at : Option ℕ

-- The columns of bom_versions, products and suppliers that are read.
pub record BomVersionRow : Type 0 where
  pub bom_version_id : ℕ
  pub product_id : ℕ

pub record ProductRow : Type 0 where
  pub product_id : ℕ
  pub tenant_id : ℕ

pub record SupplierRow : Type 0 where
  pub supplier_id : ℕ
  pub tenant_id : Option ℕ
  pub corporate_reg_no : Option String

-- What is published on the bus: the sender, the target and the reason of a notification, and the
-- edge that a supplier has declared, with the reason.
pub data SupplyEvent : Type 0 where
  notification_sent : ℕ → ℕ → String → SupplyEvent
  source_change_declared : SupplyEdge → String → SupplyEvent

pub record SupplyDb : Type 0 where
  pub edges : List SupplyEdge
  pub maps : List MapHeader
  pub bom_versions : List BomVersionRow
  pub products : List ProductRow
  pub suppliers : List SupplierRow
  pub parts : List ℕ
  pub published : List SupplyEvent
  pub next_id : ℕ

-- `column = :id`, where a NULL equals nothing
abbrev pub is_id : ℕ → Option ℕ → Bool
is_id i none = false
is_id i (some j) = i == j

-- The join of one edge: its child, if its parent is `v`; a NULL is joined with nothing.
abbrev pub joined : ℕ → Option ℕ → Option ℕ → List ℕ → List ℕ
joined v none child rest = rest
joined v (some p) none rest = rest
joined v (some p) (some c) rest = if v == p then c ∷ rest else rest

-- The children of the edges whose parent is `v`.
unfoldable pub children : List SupplyEdge → ℕ → List ℕ
children [] v = []
children (e ∷ es) v = joined v e.parent_supplier_id e.child_supplier_id (children es v)

-- One round of the recursive query: the rows joined with those of the round before.
unfoldable pub next_level : List SupplyEdge → List ℕ → List ℕ
next_level es [] = []
next_level es (v ∷ vs) = children es v ++ next_level es vs

-- `EXISTS` over the rounds of the query, up to a number of rounds: rows are produced until the target
-- is found, and `none` means that rows are left.
unfoldable pub find_descendant : ℕ → List SupplyEdge → List ℕ → ℕ → Option Bool
find_descendant n es [] target = some false
find_descendant zero es (v ∷ vs) target = none
find_descendant (suc n) es (v ∷ vs) target =
    let rest = find_descendant n es (next_level es (v ∷ vs)) target in
    if any (λ w. target == w) (v ∷ vs) then some true else rest

-- `would_create_cycle`: the parent is looked for below the child. More rounds than there are edges
-- are taken for a query that does not end.
unfoldable pub would_create_cycle : List SupplyEdge → ℕ → ℕ → Option Bool
would_create_cycle es parent child = find_descendant (suc (length es)) es (children es child) parent

-- `ON CONFLICT (bom_version_id)`: the header of the version is made if it has none.
unfoldable pub ensure_map_header : SupplyDb → ℕ → Result (ℕ × SupplyDb)
ensure_map_header db bv =
    elim (find (λ (v : BomVersionRow). bv == v.bom_version_id) db.bom_versions) [
      | none ↦ err no_result_found
      | some version ↦ elim (find (λ (m : MapHeader). bv == m.bom_version_id) db.maps) [
        | some m ↦ ok (m.map_id, db)
        | none ↦ ok (
          db.next_id,
          record db {
            maps =
                db.maps
                ++ record {
                  map_id = db.next_id;
                  bom_version_id = bv;
                  product_id = version.product_id;
                  status = building;
                  completed_by = none;
                  completed_at = none;
                }
                  ∷ [];
            next_id = db.next_id + 1;
          },
        )
      ]
    ]

-- The edges of the version that lead into the supplier.
abbrev pub edge_into : ℕ → ℕ → SupplyEdge → Bool
edge_into bv supplier e = bv == e.bom_version_id && is_id supplier e.child_supplier_id

-- `ORDER BY hop_level LIMIT 1`, a NULL last
unfoldable pub lowest_hop : List SupplyEdge → Option ℕ
lowest_hop [] = none
lowest_hop (e ∷ es) =
    let rest = lowest_hop es in
    elim e.hop_level [
      | none ↦ rest
      | some h ↦ elim rest [ none ↦ some h | some k ↦ some (min h k) ]
    ]

-- `COALESCE(hop_level + 1, 1)`
abbrev pub next_hop : Option ℕ → ℕ
next_hop none = 1
next_hop (some h) = h + 1

-- The level of a new edge of `create_supply_relation`.
unfoldable pub relation_hop : List SupplyEdge → ℕ → Option ℕ → ℕ
relation_hop es bv none = 0
relation_hop es bv (some p) = next_hop (lowest_hop (keep (edge_into bv p) es))

-- The level of a new edge of `declare_new_source`: a row of the parent, here the first.
unfoldable pub declared_hop : List SupplyEdge → ℕ → ℕ → ℕ
declared_hop es bv p = elim (find (edge_into bv p) es) [ none ↦ 1 | some e ↦ next_hop e.hop_level ]

abbrev pub known : SupplyDb → ℕ → Bool
known db s = any (λ (row : SupplierRow). s == row.supplier_id) db.suppliers

abbrev pub known_or_null : SupplyDb → Option ℕ → Bool
known_or_null db none = true
known_or_null db (some s) = known db s

-- The insertion of an edge, whose suppliers and part have to exist.
unfoldable pub insert_edge : SupplyDb → SupplyEdge → Result (SupplyEdge × SupplyDb)
insert_edge db e = do
  raise_if
      (not (
        known_or_null db e.parent_supplier_id
        && known_or_null db e.child_supplier_id
        && any (λ p. e.part_id == p) db.parts))
      integrity_error
  ok (e, record db { edges = db.edges ++ e ∷ []; next_id = db.next_id + 1 })

-- `SupplyChainRepository.create_supply_relation`
unfoldable pub create_supply_relation :
    SupplyDb → ℕ → Option ℕ → ℕ → ℕ → Option ℕ → Result (SupplyEdge × SupplyDb)
create_supply_relation db bv parent child part via = do
  (header, db') ← ensure_map_header db bv
  insert_edge db' record {
    edge_id = db'.next_id;
    map_id = header;
    bom_version_id = bv;
    parent_supplier_id = parent;
    child_supplier_id = some child;
    part_id = part;
    hop_level = some (relation_hop db'.edges bv parent);
    link_status = supplychain_declared;
    discovered_via = via;
    source_system = erp;
    verification_status = unverified;
  }

-- `SupplyChainRepository.declare_new_source`
unfoldable pub declare_new_source : SupplyDb → ℕ → ℕ → ℕ → ℕ → Result (SupplyEdge × SupplyDb)
declare_new_source db bv parent child part = do
  (header, db') ← ensure_map_header db bv
  insert_edge db' record {
    edge_id = db'.next_id;
    map_id = header;
    bom_version_id = bv;
    parent_supplier_id = some parent;
    child_supplier_id = some child;
    part_id = part;
    hop_level = some (declared_hop db'.edges bv parent);
    link_status = supplychain_declared;
    discovered_via = some parent;
    source_system = supplier_declared;
    verification_status = unverified;
  }

-- `if await would_create_cycle(...): raise SupplyChainCycleError`
unfoldable pub cycle_guard : List SupplyEdge → ℕ → ℕ → Result (Unit {0})
cycle_guard es parent child = elim (would_create_cycle es parent child) [
  | none ↦ err unfinished
  | some found ↦ raise_if found cycle_error
]

-- The two tests of `register_relation`; a root has no parent to test.
unfoldable pub relation_guard : List SupplyEdge → Option ℕ → ℕ → Result (Unit {0})
relation_guard es none child = ok tt
relation_guard es (some p) child = do raise_if (p == child) value_error; cycle_guard es p child

-- `SupplyChainService.register_relation`
unfoldable pub register_relation : SupplyDb → ℕ → Option ℕ → ℕ → ℕ → Result (SupplyEdge × SupplyDb)
register_relation db bv parent child part = do
  relation_guard db.edges parent child
  create_supply_relation db bv parent child part none

-- `SupplyChainService.declare_source_change`
unfoldable pub declare_source_change :
    SupplyDb → ℕ → ℕ → ℕ → ℕ → String → Result (SupplyEdge × SupplyDb)
declare_source_change db bv parent child part reason = do
  cycle_guard db.edges parent child
  (e, db') ← declare_new_source db bv parent child part
  ok (e, record db' { published = db'.published ++ source_change_declared e reason ∷ [] })
