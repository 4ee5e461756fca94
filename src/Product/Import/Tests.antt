-- ===== src/Product/Import/Tests.antt =====
-- The import of the products that the code ships with, into a database that has one of them.
use project_main.Prelude.{◌≡◌, refl, none, some, [], ◌∷◌, ◌++◌, value_or, ok}
use project_main.Prelude.Upsert.{upsert}
use project_main.Product.Import.{
  CatalogDb, upsert_customer, upsert_customers, tenant_of_supplier, single_tenant_fallback,
  derived_tenant, customer_id_of, upsert_product, upsert_products, Fetched, fetch_from_source,
  customer_events, product_events, ImportResult, import_products,
}
use project_main.Product.Import.Seed.{load_seed_products}
use project_main.Product.Import.Synced.{state_of, described, fetch_from_source-described}
use project_main.Product.Import.Repeated.{product_codes}
use project_main.Product.Import.Again.{customer_codes, import_products_again}

abbrev one_product : CatalogDb
one_product = record {
  customers = [];
  products =
      record {
        product_id = 1;
        product_code = "BMW-I4-NCM-81";
        product_name = none;
        tenant_id = some 7;
        customer_id = none;
        manufacturer_id = none;
        type = none;
        model_name = none;
        amperage_ah = none;
        specs = none;
        source_system = "ERP";
        external_id = "old";
        synced_at = none;
        created_at = 1;
        updated_at = 1;
      }
      ∷ [];
  suppliers = [];
  tenants = 7 ∷ 8 ∷ [];
  published = [];
  next_id = 10;
}

abbrev fetched : Fetched
fetched =
    value_or (fetch_from_source "SEED" 100 load_seed_products one_product)
      (record { customers = []; products = []; db = one_product })

fetch_from_source-described_example :
    state_of "BMW-I4-NCM-81" fetched.db.products
    ≡ described "SEED" 100 []
        (7 ∷ 8 ∷ [])
        "BMW-I4-NCM-81"
        load_seed_products
        (state_of "BMW-I4-NCM-81" one_product.products)
unfolding fetch_from_source upsert_customer upsert_customers upsert_product upsert_products upsert
    derived_tenant single_tenant_fallback tenant_of_supplier customer_id_of
fetch_from_source-described_example =
    fetch_from_source-described "SEED" 100 load_seed_products one_product "BMW-I4-NCM-81" fetched
      refl

abbrev first_import : ImportResult × CatalogDb
first_import = value_or (import_products "SEED" 100 load_seed_products one_product) (
  record {
    synced_customer_count = 0;
    new_customer_count = 0;
    synced_product_count = 0;
    source_system = "SEED";
    customers = [];
    products = [];
  },
  one_product,
)

import_products_again_example :
    (again : ImportResult × CatalogDb) × (import_products "ERP" 200 load_seed_products
        first_import.1
      ≡ ok again)
    × (product_codes again.1 ≡ product_codes first_import.1)
    × (customer_codes again.1 ≡ customer_codes first_import.1)
    × (again.0.new_customer_count ≡ 0)
    × (again.1.published ≡ first_import.1.published ++ product_events again.0.products)
unfolding import_products fetch_from_source upsert_customer upsert_customers upsert_product
    upsert_products upsert derived_tenant single_tenant_fallback tenant_of_supplier customer_id_of
    customer_events product_events
import_products_again_example =
    import_products_again "SEED" "ERP" 100 200 load_seed_products one_product first_import refl refl
