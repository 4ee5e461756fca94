-- ===== src/Product.antt =====
-- backend/domains/product (models.py, state_machine.py): the versions of a product's bill of
-- materials, of which at most one is active.
pub mod Active
pub mod Tree
pub mod Import
pub mod Queries
mod Tests
use project_main.Prelude.{
  ℕ, String, Bool, true, false, not, ◌&&◌, Option, none, some, List, [], ◌∷◌, ◌==◌, if◌then◌else◌,
  Result, ok, err, http, ◌>>=◌, find, update_where,
}

pub data BomVersionStatus : Type 0 where
  draft active deprecated : BomVersionStatus

-- A row of bom_versions; days are numbers.
pub record BomVersion : Type 0 where
  pub bom_version_id : ℕ
  pub product_id : ℕ
  pub version_number : String
  pub production_from : Option ℕ
  pub production_to : Option ℕ
  pub status : BomVersionStatus
  pub created_at : ℕ

-- BOM_STATUS_TRANSITIONS, as a table
abbrev pub allowed : BomVersionStatus → BomVersionStatus → Bool
allowed draft active = true
allowed draft deprecated = true
allowed active deprecated = true
allowed _ _ = false

abbrev pub is_active : BomVersionStatus → Bool
is_active active = true
is_active _ = false

abbrev pub has_id : ℕ → BomVersion → Bool
has_id id v = id == v.bom_version_id

-- `_validate_transition`
unfoldable pub validate_transition : BomVersionStatus → BomVersionStatus → Result (Unit {0})
validate_transition current target = if allowed current target then ok tt else err (http 422)

-- The other active versions of the same product.
abbrev pub other_active : BomVersion → BomVersion → Bool
other_active bom v =
    bom.product_id == v.product_id
    && is_active v.status
    && not (bom.bom_version_id == v.bom_version_id)

abbrev pub with_status : BomVersionStatus → BomVersion → BomVersion
with_status s v = record v { status = s }

-- Steps 3 and 4 of `activate_bom_version`: the others are deprecated first.
unfoldable pub activate : BomVersion → List BomVersion → List BomVersion
activate bom versions =
    update_where (has_id bom.bom_version_id) (with_status active)
      (update_where (other_active bom) (with_status deprecated) versions)

unfoldable pub activate_bom_version : List BomVersion → ℕ → Result (BomVersion × List BomVersion)
activate_bom_version versions id = elim (find (has_id id) versions) [
  | none ↦ err (http 404)
  | some bom ↦ do
    _ ← validate_transition bom.status active
    ok (with_status active bom, activate bom versions)
]

unfoldable pub deprecate_bom_version : List BomVersion → ℕ → Result (BomVersion × List BomVersion)
deprecate_bom_version versions id = elim (find (has_id id) versions) [
  | none ↦ err (http 404)
  | some bom ↦ do
    _ ← validate_transition bom.status deprecated
    ok (
      with_status deprecated bom,
      update_where (has_id bom.bom_version_id) (with_status deprecated) versions,
    )
]
