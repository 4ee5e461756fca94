-- ===== src/Product/Import.antt =====
-- The import of customers and products: fetch_from_source of backend/domains/product/repository.py and
-- import_products of service.py. What the source system sends is an argument; Seed has the data that
-- the code ships with. The clock of the database and of the program are one argument.
pub mod Seed
pub mod Synced
pub mod Repeated
pub mod Customers
pub mod Again
mod Tests
use project_main.Prelude.{
  ℕ, suc, String, Bool, true, false, not, ◌&&◌, ◌||◌, Option, none, some, List, [], ◌∷◌, ◌++◌, ◌==◌,
  any, find, count, length, str_eq, or_else, if◌then◌else◌, Result, ok, err, value_error,
  integrity_error, raise_if, ◌>>=◌, ◌>>◌,
}
use project_main.Prelude.Upsert.{upsert, upserted, keyed}

-- A row of customers.
pub record Customer : Type 0 where
  pub customer_id : ℕ
  pub customer_code : String
  pub customer_name : String
  pub country : Option String
  pub source_system : String
  pub external_id : String
  pub synced_at : ℕ
  pub created_at : ℕ

-- A row of products; the amperage is counted in hundredths.
pub record Product : Type 0 where
  pub product_id : ℕ
  pub product_code : String
  pub product_name : Option String
  pub tenant_id : Option ℕ
  pub customer_id : Option ℕ
  pub manufacturer_id : Option ℕ
  pub type : Option String
  pub model_name : Option String
  pub amperage_ah : Option ℕ
  pub specs : Option String
  pub source_system : String
  pub external_id : String
  pub synced_at : Option ℕ
  pub created_at : ℕ
  pub updated_at : ℕ

-- A product as the source system sends it; a key that is missing is `none`.
pub record RawProduct : Type 0 where
  pub product_code : String
  pub product_name : Option String
  pub type : Option String
  pub specs : Option String
  pub external_id : Option String
  pub manufacturer_id : Option ℕ
  pub customer_code : Option String
  pub customer_name : Option String
  pub customer_country : Option String
  pub customer_external_id : Option String
  pub model_name : Option String
  pub amperage_ah : Option ℕ

-- The columns of suppliers that are read.
pub record SupplierTenant : Type 0 where
  pub supplier_id : ℕ
  pub tenant_id : Option ℕ

-- What is published: a new customer, and for a product its bill, its lot and itself.
pub data ImportEvent : Type 0 where
  customer_imported : ℕ → String → String → ImportEvent
  bom_imported lot_imported product_imported : ℕ → String → ImportEvent

pub record CatalogDb : Type 0 where
  pub customers : List Customer
  pub products : List Product
  pub suppliers : List SupplierTenant
  pub tenants : List ℕ
  pub published : List ImportEvent
  pub next_id : ℕ

-- VALID_SOURCE_SYSTEMS
abbrev pub valid_source_systems : List String
valid_source_systems = "SEED" ∷ "ERP" ∷ "MES" ∷ "PLM" ∷ []

abbrev pub code_of_customer : Customer → String
code_of_customer c = c.customer_code

abbrev pub code_of_product : Product → String
code_of_product p = p.product_code

-- The rows of `_upsert_customer`: the one to insert, and the one that is there, updated.
abbrev pub new_customer : String → ℕ → ℕ → String → RawProduct → Customer
new_customer source now id code raw = record {
  customer_id = id;
  customer_code = code;
  customer_name = or_else raw.customer_name code;
  country = raw.customer_country;
  source_system = source;
  external_id = or_else raw.customer_external_id code;
  synced_at = now;
  created_at = now;
}

abbrev pub synced_customer : String → ℕ → String → RawProduct → Customer → Customer
synced_customer source now code raw c = record c {
  source_system = source;
  external_id = or_else raw.customer_external_id code;
  synced_at = now;
}

-- An entry of customer_cache, which keeps the order of its insertions.
pub record CacheEntry : Type 0 where
  pub customer_code : String
  pub customer : Customer
  pub is_new : Bool

abbrev pub is_missing {ℓ} : {A : Type ℓ} → Option A → Bool
is_missing none = true
is_missing (some x) = false

abbrev pub cached : String → CacheEntry → Bool
cached code e = str_eq code e.customer_code

-- `_upsert_customer`, and the entry of the cache
unfoldable pub upsert_customer :
    String → ℕ → String → RawProduct → CatalogDb → CacheEntry × CatalogDb
upsert_customer source now code raw db =
    let before = find (keyed code_of_customer code) db.customers in
    let new = new_customer source now db.next_id code raw in
    (
      record {
        customer_code = code;
        customer = upserted code_of_customer before new (synced_customer source now code raw);
        is_new = is_missing before;
      },
      record db {
        customers =
            upsert code_of_customer code new (synced_customer source now code raw) db.customers;
        next_id = suc db.next_id;
      },
    )

abbrev pub cache_customer : List CacheEntry → CacheEntry × CatalogDb → List CacheEntry × CatalogDb
cache_customer cache (entry, db) = (cache ++ entry ∷ [], db)

-- `if not customer_code or customer_code in customer_cache: continue`
abbrev pub customer_step :
    String
    → ℕ
    → RawProduct
    → Option String
    → List CacheEntry × CatalogDb
    → List CacheEntry × CatalogDb
customer_step source now raw none (cache, db) = (cache, db)
customer_step source now raw (some code) (cache, db) =
    if str_eq code "" || any (cached code) cache
    then (cache, db)
    else cache_customer cache (upsert_customer source now code raw db)

-- Step 1 of `fetch_from_source`
unfoldable pub upsert_customers :
    String → ℕ → List CacheEntry × CatalogDb → List RawProduct → List CacheEntry × CatalogDb
upsert_customers source now st [] = st
upsert_customers source now st (raw ∷ rest) =
    upsert_customers source now (customer_step source now raw raw.customer_code st) rest

-- `_tenant_of_supplier`
abbrev pub tenant_of : Option SupplierTenant → Option ℕ
tenant_of none = none
tenant_of (some s) = s.tenant_id

unfoldable pub tenant_of_supplier : List SupplierTenant → ℕ → Option ℕ
tenant_of_supplier suppliers id =
    tenant_of (find (λ (s : SupplierTenant). id == s.supplier_id) suppliers)

-- `_single_tenant_fallback`
unfoldable pub single_tenant_fallback : List ℕ → Option ℕ
single_tenant_fallback [] = none
single_tenant_fallback (t ∷ []) = some t
single_tenant_fallback (t ∷ u ∷ ts) = none

abbrev pub coalesce {ℓ} : {A : Type ℓ} → Option A → Option A → Option A
coalesce none y = y
coalesce (some x) y = some x

-- The tenant of the manufacturer, or else the only tenant.
unfoldable pub derived_tenant : List SupplierTenant → List ℕ → Option ℕ → Option ℕ
derived_tenant suppliers tenants none = single_tenant_fallback tenants
derived_tenant suppliers tenants (some m) =
    coalesce (tenant_of_supplier suppliers m) (single_tenant_fallback tenants)

abbrev pub id_of_entry : Option CacheEntry → Option ℕ
id_of_entry none = none
id_of_entry (some e) = some e.customer.customer_id

-- `customer_cache[customer_code]`; a code that is empty is in no cache
unfoldable pub customer_id_of : List CacheEntry → Option String → Option ℕ
customer_id_of cache none = none
customer_id_of cache (some code) = id_of_entry (find (cached code) cache)

-- The rows of the upsert of a product, with the customer and the tenant that were derived.
abbrev pub new_product : String → ℕ → ℕ → Option ℕ → Option ℕ → RawProduct → Product
new_product source now id customer tenant raw = record {
  product_id = id;
  product_code = raw.product_code;
  product_name = raw.product_name;
  tenant_id = tenant;
  customer_id = customer;
  manufacturer_id = raw.manufacturer_id;
  type = raw.type;
  model_name = raw.model_name;
  amperage_ah = raw.amperage_ah;
  specs = raw.specs;
  source_system = source;
  external_id = or_else raw.external_id raw.product_code;
  synced_at = some now;
  created_at = now;
  updated_at = now;
}

abbrev pub synced_product : String → ℕ → Option ℕ → Option ℕ → RawProduct → Product → Product
synced_product source now customer tenant raw p = record p {
  product_name = raw.product_name;
  customer_id = customer;
  tenant_id = coalesce tenant p.tenant_id;
  model_name = raw.model_name;
  amperage_ah = raw.amperage_ah;
  source_system = source;
  external_id = or_else raw.external_id raw.product_code;
  synced_at = some now;
  updated_at = now;
}

-- The foreign key of a row that is inserted.
abbrev pub is_supplier : List SupplierTenant → Option ℕ → Bool
is_supplier suppliers none = true
is_supplier suppliers (some m) = any (λ (s : SupplierTenant). m == s.supplier_id) suppliers

-- One round of the second loop.
unfoldable pub upsert_product :
    String → ℕ → List CacheEntry → RawProduct → CatalogDb → Result (Product × CatalogDb)
upsert_product source now cache raw db = do
  let before = find (keyed code_of_product raw.product_code) db.products
  let customer = customer_id_of cache raw.customer_code
  let tenant = derived_tenant db.suppliers db.tenants raw.manufacturer_id
  raise_if (is_missing before && not (is_supplier db.suppliers raw.manufacturer_id)) integrity_error
  ok (
    upserted code_of_product before (new_product source now db.next_id customer tenant raw)
        (synced_product source now customer tenant raw),
    record db {
      products =
          upsert code_of_product raw.product_code
            (new_product source now db.next_id customer tenant raw)
            (synced_product source now customer tenant raw) db.products;
      next_id = suc db.next_id;
    },
  )

unfoldable pub upsert_products :
    String → ℕ → List CacheEntry → CatalogDb → List RawProduct → Result (List Product × CatalogDb)
upsert_products source now cache db [] = ok ([], db)
upsert_products source now cache db (raw ∷ rest) = do
  (p, db1) ← upsert_product source now cache raw db
  (ps, db2) ← upsert_products source now cache db1 rest
  ok (p ∷ ps, db2)

-- What `fetch_from_source` returns, and the database.
pub record Fetched : Type 0 where
  pub customers : List CacheEntry
  pub products : List Product
  pub db : CatalogDb

unfoldable pub fetch_from_source : String → ℕ → List RawProduct → CatalogDb → Result Fetched
fetch_from_source source now raws db = do
  raise_if (not (any (str_eq source) valid_source_systems)) value_error
  let st = upsert_customers source now ([], db) raws
  (ps, db2) ← upsert_products source now st.0 st.1 raws
  ok (record { customers = st.0; products = ps; db = db2 })

-- The loops of `import_products` that publish.
abbrev pub customer_event : CacheEntry → List ImportEvent → List ImportEvent
customer_event e rest =
    if e.is_new
    then customer_imported e.customer.customer_id e.customer.customer_code e.customer.external_id
      ∷ rest
    else rest

unfoldable pub customer_events : List CacheEntry → List ImportEvent
customer_events [] = []
customer_events (e ∷ es) = customer_event e (customer_events es)

unfoldable pub product_events : List Product → List ImportEvent
product_events [] = []
product_events (p ∷ ps) =
    bom_imported p.product_id p.external_id
    ∷ lot_imported p.product_id p.external_id
    ∷ product_imported p.product_id p.external_id
    ∷ product_events ps

pub record ImportResult : Type 0 where
  pub synced_customer_count : ℕ
  pub new_customer_count : ℕ
  pub synced_product_count : ℕ
  pub source_system : String
  pub customers : List CacheEntry
  pub products : List Product

-- The answer of `import_products`, and what it publishes after the commit.
abbrev pub imported : String → Fetched → ImportResult × CatalogDb
imported source f = (
  record {
    synced_customer_count = length f.customers;
    new_customer_count = count (λ (e : CacheEntry). e.is_new) f.customers;
    synced_product_count = length f.products;
    source_system = source;
    customers = f.customers;
    products = f.products;
  },
  record f.db {
    published = f.db.published ++ (customer_events f.customers ++ product_events f.products);
  },
)

unfoldable pub import_products :
    String → ℕ → List RawProduct → CatalogDb → Result (ImportResult × CatalogDb)
import_products source now raws db = do
  f ← fetch_from_source source now raws db
  ok (imported source f)
