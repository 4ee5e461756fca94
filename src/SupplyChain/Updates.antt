-- ===== src/SupplyChain/Updates.antt =====
-- What backend/domains/supplychain/repository.py changes in rows of supply_chain_map and
-- supply_chain_maps that are there: confirm_map, confirm_pool, record_discovered_via,
-- set_supplier_verification and set_map_status; and the notification of a supplier by
-- request_supplier_correction of service.py, with the boundary between companies.
pub mod Isolated
mod Tests
use project_main.Prelude.{
  ℕ, String, Bool, true, false, not, ◌&&◌, Option, none, some, List, [], ◌∷◌, ◌++◌, ◌==◌,
  if◌then◌else◌, any, null, keep, length, find, update_where, str_eq, Result, ok, err, value_error,
  raise_if, ◌>>=◌, ◌>>◌,
}
use project_main.SupplyChain.{
  LinkStatus, supplychain_confirmed, VerificationStatus, unverified, verified, SupplyEdge,
  MapStatus, building, completed, MapHeader, BomVersionRow, ProductRow, SupplierRow, SupplyEvent,
  notification_sent, SupplyDb, is_id,
}

-- `pr.product_id = ... AND pr.tenant_id = :tenant_id`
abbrev pub owned_product : SupplyDb → ℕ → ℕ → Bool
owned_product db tenant product =
    any (λ (p : ProductRow). product == p.product_id && tenant == p.tenant_id) db.products

-- The join with bom_versions and products: the version is one of a product of the tenant.
abbrev pub owned_version : SupplyDb → ℕ → ℕ → Bool
owned_version db tenant bv =
    any (λ (v : BomVersionRow). bv == v.bom_version_id && owned_product db tenant v.product_id)
      db.bom_versions

abbrev pub confirm_edge : SupplyEdge → SupplyEdge
confirm_edge e = record e { link_status = supplychain_confirmed }

abbrev pub confirmable : SupplyDb → ℕ → ℕ → SupplyEdge → Bool
confirmable db edge tenant e = edge == e.edge_id && owned_version db tenant e.bom_version_id

-- `RETURNING edge_id, link_status`, the first row
abbrev pub confirmed_row : Option SupplyEdge → Option (ℕ × LinkStatus)
confirmed_row none = none
confirmed_row (some e) = some (e.edge_id, supplychain_confirmed)

-- `SupplyChainRepository.confirm_map`; its `map_id` is the id of an edge
unfoldable pub confirm_map : SupplyDb → ℕ → ℕ → Option (ℕ × LinkStatus) × SupplyDb
confirm_map db edge tenant = (
  confirmed_row (find (confirmable db edge tenant) db.edges),
  record db { edges = update_where (confirmable db edge tenant) confirm_edge db.edges },
)

-- The join with supply_chain_maps and products: the version is the one of the map, and the map is of a
-- product of the tenant.
abbrev pub pool_version : SupplyDb → ℕ → ℕ → ℕ → Bool
pool_version db map tenant bv =
    any
      (λ (m : MapHeader).
        bv == m.bom_version_id && (map == m.map_id && owned_product db tenant m.product_id))
      db.maps

-- `child_supplier_id IN (...)`, where a NULL is in no list
abbrev pub is_in : List ℕ → Option ℕ → Bool
is_in ids none = false
is_in ids (some s) = any (λ i. s == i) ids

-- The filter is left out if the list is missing or empty.
abbrev pub in_selection : Option (List ℕ) → Option ℕ → Bool
in_selection none s = true
in_selection (some []) s = true
in_selection (some (i ∷ ids)) s = is_in (i ∷ ids) s

abbrev pub in_pool : SupplyDb → ℕ → ℕ → Option (List ℕ) → SupplyEdge → Bool
in_pool db map tenant ids e =
    pool_version db map tenant e.bom_version_id
    && is_id 1 e.hop_level
    && in_selection ids e.child_supplier_id

-- `[... for r in rows if r["supplier_id"]]`
abbrev pub with_child : Option ℕ → List ℕ → List ℕ
with_child none rest = rest
with_child (some s) rest = s ∷ rest

unfoldable pub child_ids : List SupplyEdge → List ℕ
child_ids [] = []
child_ids (e ∷ es) = with_child e.child_supplier_id (child_ids es)

pub record PoolConfirmation : Type 0 where
  pub map_id : ℕ
  pub confirmed_count : ℕ
  pub confirmed_suppliers : List ℕ

-- `SupplyChainRepository.confirm_pool`
unfoldable pub confirm_pool : SupplyDb → ℕ → ℕ → Option (List ℕ) → PoolConfirmation × SupplyDb
confirm_pool db map tenant ids = (
  record {
    map_id = map;
    confirmed_count = length (keep (in_pool db map tenant ids) db.edges);
    confirmed_suppliers = child_ids (keep (in_pool db map tenant ids) db.edges);
  },
  record db { edges = update_where (in_pool db map tenant ids) confirm_edge db.edges },
)

abbrev pub undiscovered : Option ℕ → Bool
undiscovered none = true
undiscovered (some s) = false

abbrev pub invited_edge : ℕ → SupplyEdge → Bool
invited_edge invitee e = is_id invitee e.child_supplier_id && undiscovered e.discovered_via

-- `SupplyChainRepository.record_discovered_via`, with the number of the changed edges
unfoldable pub record_discovered_via : SupplyDb → ℕ → ℕ → ℕ × SupplyDb
record_discovered_via db invitee inviter = (
  length (keep (invited_edge invitee) db.edges),
  record db {
    edges =
        update_where (invited_edge invitee) (λ e. record e { discovered_via = some inviter })
          db.edges;
  },
)

abbrev pub verified_edge : ℕ → ℕ → SupplyEdge → Bool
verified_edge bv child e = bv == e.bom_version_id && is_id child e.child_supplier_id

-- `SupplyChainRepository.set_supplier_verification`
unfoldable pub set_supplier_verification : SupplyDb → ℕ → ℕ → Bool → ℕ × SupplyDb
set_supplier_verification db bv child yes_no = (
  length (keep (verified_edge bv child) db.edges),
  record db {
    edges =
        update_where (verified_edge bv child)
          (λ e. record e { verification_status = if yes_no then verified else unverified })
          db.edges;
  },
)

abbrev pub owned_map : SupplyDb → ℕ → ℕ → MapHeader → Bool
owned_map db map tenant h = map == h.map_id && owned_product db tenant h.product_id

-- `CASE WHEN :is_completed`
abbrev pub with_status : MapStatus → ℕ → ℕ → MapHeader → MapHeader
with_status building user now h = record h { status = building }
with_status completed user now h = record h {
  status = completed;
  completed_by = some user;
  completed_at = some now;
}

unfoldable pub set_map_status : SupplyDb → ℕ → MapStatus → ℕ → ℕ → ℕ → Option MapHeader × SupplyDb
set_map_status db map status user tenant now =
    let changed = update_where (owned_map db map tenant) (with_status status user now) db.maps in
    (find (owned_map db map tenant) changed, record db { maps = changed })

-- The text of a supplier's id.
module _ (id_text : ℕ → String) where
  -- `COALESCE(corporate_reg_no, supplier_id::text)`
  abbrev pub legal_entity : SupplierRow → String
  legal_entity s = elim s.corporate_reg_no [ none ↦ id_text s.supplier_id | some n ↦ n ]

  abbrev pub is_row : ℕ → SupplierRow → Bool
  is_row s row = s == row.supplier_id

  abbrev pub entities_differ : Option SupplierRow → Option SupplierRow → Bool
  entities_differ none b = false
  entities_differ (some a) none = false
  entities_differ (some a) (some b) = not (str_eq (legal_entity a) (legal_entity b))

  -- `is_cross_company_boundary`; without a row, `bool(None)`
  unfoldable pub is_cross_company_boundary : SupplyDb → ℕ → ℕ → Bool
  is_cross_company_boundary db a b =
      entities_differ (find (is_row a) db.suppliers) (find (is_row b) db.suppliers)

  -- `evaluate_cross_entity_boundary`: is_cross_boundary, which requires_self_declaration repeats
  unfoldable pub evaluate_cross_entity_boundary : SupplyDb → ℕ → ℕ → Bool
  evaluate_cross_entity_boundary db requester target =
      if requester == target then false else is_cross_company_boundary db requester target

  -- `request_supplier_correction`
  unfoldable pub request_supplier_correction : SupplyDb → ℕ → ℕ → String → Result SupplyDb
  request_supplier_correction db sender target reason = do
    raise_if (not (evaluate_cross_entity_boundary db sender target)) value_error
    ok (record db { published = db.published ++ notification_sent sender target reason ∷ [] })
