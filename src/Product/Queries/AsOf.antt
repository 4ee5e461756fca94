-- ===== src/Product/Queries/AsOf.antt =====
-- The version of a product that was made on a day (backend/domains/product/repository.py:
-- get_bom_version_as_of).
use project_main.Prelude.{ℕ, ◌≤◌, Option, none, some}
use project_main.Product.{BomVersion}

-- The first day of a version, for versions that have one.
abbrev pub start : Option ℕ → ℕ
start none = 0
start (some day) = day

abbrev pub StartsBy : BomVersion → BomVersion → Type 0
StartsBy v w = start w.production_from ≤ start v.production_from
