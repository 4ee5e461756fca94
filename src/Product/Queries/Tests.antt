-- ===== src/Product/Queries/Tests.antt =====
-- Two products, and a version with two dates.
use project_main.Prelude.{ℕ, ◌↔◌, String, Bool, true, Option, none, some, List, [], ◌∷◌, In, arith}
use project_main.Product.{BomVersion, active}
use project_main.Product.Import.{Product, Customer}
use project_main.Product.Queries.{ProductFilter, list_products_filtered}
use project_main.Product.Queries.Listed.{Meets, named, list_products_filtered_iff}

abbrev product : ℕ → Option ℕ → Product
product n amps = record {
  product_id = n;
  product_code = "P";
  product_name = none;
  tenant_id = some 1;
  customer_id = some 4;
  manufacturer_id = none;
  type = none;
  model_name = some "iX3";
  amperage_ah = amps;
  specs = none;
  source_system = "SEED";
  external_id = "P";
  synced_at = some n;
  created_at = n;
  updated_at = n;
}

abbrev two_products : List Product
two_products = product 1 (some 8100) ∷ product 2 none ∷ []

abbrev bmw : List Customer
bmw =
    record {
      customer_id = 4;
      customer_code = "BMW";
      customer_name = "BMW AG";
      country = some "DE";
      source_system = "SEED";
      external_id = "BMW";
      synced_at = 1;
      created_at = 1;
    }
    ∷ []

abbrev from_80 : ProductFilter
from_80 = record {
  customer_id = none;
  model_name = none;
  min_ah = some 8000;
  max_ah = none;
  tenant_id = some 1;
}

abbrev any_text : String → String → Bool
any_text s t = true

list_products_filtered_iff_example :
    In
      (named any_text two_products bmw from_80 (product 1 (some 8100)))
      (list_products_filtered any_text two_products bmw from_80 20 0)
    ↔ (In (product 1 (some 8100)) two_products × Meets any_text from_80 (product 1 (some 8100)))
list_products_filtered_iff_example =
    list_products_filtered_iff any_text two_products bmw from_80 20 (product 1 (some 8100))
      (omega arith)

abbrev versions : List BomVersion
versions =
    record {
      bom_version_id = 1;
      product_id = 1;
      version_number = "v1";
      production_from = some 100;
      production_to = none;
      status = active;
      created_at = 1;
    }
    ∷ []
