-- ===== src/Product/Import/Synced.antt =====
-- The table of products after fetch_from_source (backend/domains/product/repository.py), against a
-- description by the code of a product alone.
use project_main.Prelude.{
  ℕ, ◌≡◌, refl, sym, ap, ◌∙◌, String, not, ◌&&◌, ◌||◌, Option, none, some, List, [], ◌∷◌, any, find,
  str_eq, str_eq_iff, or_else, if◌then◌else◌, ok, value_error, integrity_error, raise_if-eq-ok,
  ok-injective, >>=-eq-ok, Bool-cases, inl, inr,
}
use project_main.Prelude.Upsert.{upsert, upserted, keyed, find-upsert, find-upsert_other}
use project_main.Product.Import.{
  Product, RawProduct, SupplierTenant, CatalogDb, CacheEntry, code_of_product, valid_source_systems,
  is_missing, cached, customer_step, upsert_customer, upsert_customers, coalesce, derived_tenant,
  customer_id_of, new_product, synced_product, is_supplier, upsert_product, upsert_products,
  Fetched, fetch_from_source,
}

-- A product without the ids that the database hands out and its own clock.
pub record ProductState : Type 0 where
  pub product_name : Option String
  pub tenant_id : Option ℕ
  pub manufacturer_id : Option ℕ
  pub type : Option String
  pub model_name : Option String
  pub amperage_ah : Option ℕ
  pub specs : Option String
  pub source_system : String
  pub external_id : String
  pub synced_at : Option ℕ

abbrev pub state : Product → ProductState
state p = record {
  product_name = p.product_name;
  tenant_id = p.tenant_id;
  manufacturer_id = p.manufacturer_id;
  type = p.type;
  model_name = p.model_name;
  amperage_ah = p.amperage_ah;
  specs = p.specs;
  source_system = p.source_system;
  external_id = p.external_id;
  synced_at = p.synced_at;
}

abbrev pub state_found : Option Product → Option ProductState
state_found none = none
state_found (some p) = some (state p)

-- What the table says of a code.
abbrev pub state_of : String → List Product → Option ProductState
state_of code ps = state_found (find (keyed code_of_product code) ps)

-- The description: what is sent of a code replaces what was known of it, but for the type, the specs
-- and the manufacturer, and a tenant stays if none is derived.
abbrev pub sent : String → ℕ → Option ℕ → RawProduct → Option ProductState → ProductState
sent source now tenant raw none = record {
  product_name = raw.product_name;
  tenant_id = tenant;
  manufacturer_id = raw.manufacturer_id;
  type = raw.type;
  model_name = raw.model_name;
  amperage_ah = raw.amperage_ah;
  specs = raw.specs;
  source_system = source;
  external_id = or_else raw.external_id raw.product_code;
  synced_at = some now;
}
sent source now tenant raw (some s) = record s {
  product_name = raw.product_name;
  tenant_id = coalesce tenant s.tenant_id;
  model_name = raw.model_name;
  amperage_ah = raw.amperage_ah;
  source_system = source;
  external_id = or_else raw.external_id raw.product_code;
  synced_at = some now;
}

-- The products of other codes do not matter.
unfoldable pub described :
    String
    → ℕ
    → List SupplierTenant
    → List ℕ
    → String
    → List RawProduct
    → Option ProductState
    → Option ProductState
described source now suppliers tenants code [] s = s
described source now suppliers tenants code (raw ∷ rest) s =
    described source now suppliers tenants code rest (
      if str_eq code raw.product_code
      then some (sent source now (derived_tenant suppliers tenants raw.manufacturer_id) raw s)
      else s)

-- What the step of the customers leaves alone.
abbrev SameProducts : CatalogDb → CatalogDb → Type 0
SameProducts a b = (b.products ≡ a.products) × (b.suppliers ≡ a.suppliers) × (b.tenants ≡ a.tenants)

customer_step-SameProducts :
    (source : String) (now : ℕ) (raw : RawProduct) (code : Option String) (cache : List CacheEntry)
    (db : CatalogDb)
    → SameProducts db (customer_step source now raw code (cache, db)).1
unfolding upsert_customer
customer_step-SameProducts source now raw none cache db = (refl, refl, refl)
customer_step-SameProducts source now raw (some code) cache db =
    elim (Bool-cases (str_eq code "" || any (cached code) cache)) [
      | inl e ↦ rw e (refl, refl, refl)
      | inr e ↦ rw e (refl, refl, refl)
    ]

pub upsert_customers-SameProducts :
    (source : String) (now : ℕ) (st : List CacheEntry × CatalogDb) (raws : List RawProduct)
    → SameProducts st.1 (upsert_customers source now st raws).1
unfolding upsert_customers
upsert_customers-SameProducts source now st [] = (refl, refl, refl)
upsert_customers-SameProducts source now (cache, db) (raw ∷ rest) =
    let st' = customer_step source now raw raw.customer_code (cache, db) in
    let (p, s, t) = upsert_customers-SameProducts source now st' rest in
    let (p', s', t') = customer_step-SameProducts source now raw raw.customer_code cache db in
    (p ∙ p', s ∙ s', t ∙ t')

abbrev pub customer_for : List CacheEntry → RawProduct → Option ℕ
customer_for cache raw = customer_id_of cache raw.customer_code

abbrev pub tenant_for : CatalogDb → RawProduct → Option ℕ
tenant_for db raw = derived_tenant db.suppliers db.tenants raw.manufacturer_id

-- The table after a round that returns.
pub upsert_product-ok :
    (source : String) (now : ℕ) (cache : List CacheEntry) (raw : RawProduct) (db : CatalogDb)
    (out : Product × CatalogDb)
    → upsert_product source now cache raw db ≡ ok out
    → (out.1.products
        ≡ upsert code_of_product raw.product_code
            (new_product source now db.next_id (customer_for cache raw) (tenant_for db raw) raw)
            (synced_product source now (customer_for cache raw) (tenant_for db raw) raw)
            db.products)
      × (out.1.suppliers ≡ db.suppliers)
      × (out.1.tenants ≡ db.tenants)
      × (out.1.customers ≡ db.customers)
unfolding upsert_product
upsert_product-ok source now cache raw db out h =
    let before = find (keyed code_of_product raw.product_code) db.products in
    let (_, e) =
      raise_if-eq-ok (is_missing before && not (is_supplier db.suppliers raw.manufacturer_id))
        integrity_error _ h in
    let eq = sym (ok-injective e) in
    (
      ap (λ (o : Product × CatalogDb). o.1.products) eq,
      ap (λ (o : Product × CatalogDb). o.1.suppliers) eq,
      ap (λ (o : Product × CatalogDb). o.1.tenants) eq,
      ap (λ (o : Product × CatalogDb). o.1.customers) eq,
    )

state-upserted :
    (source : String) (now id : ℕ) (customer tenant : Option ℕ) (raw : RawProduct)
    (before : Option Product)
    → state (
        upserted code_of_product before
          (new_product source now id customer tenant raw)
          (synced_product source now customer tenant raw))
      ≡ sent source now tenant raw (state_found before)
state-upserted source now id customer tenant raw none = refl
state-upserted source now id customer tenant raw (some p) = refl

state_of-upsert :
    (source : String) (now id : ℕ) (customer tenant : Option ℕ) (raw : RawProduct) (code : String)
    (ps : List Product)
    → state_of code (
        upsert code_of_product raw.product_code
          (new_product source now id customer tenant raw)
          (synced_product source now customer tenant raw)
          ps)
      ≡ (if str_eq code raw.product_code
          then some (sent source now tenant raw (state_of code ps))
          else state_of code ps)
state_of-upsert source now id customer tenant raw code ps =
    let new = new_product source now id customer tenant raw in
    let f = synced_product source now customer tenant raw in
    elim (Bool-cases (str_eq code raw.product_code)) [
      | inl e ↦
          let same = (str_eq_iff code raw.product_code).0 e in
          rw e (
            rw same (
              ap state_found
                (find-upsert code_of_product f (λ p. refl) raw.product_code new ps refl)
              ∙ ap some (
                  state-upserted source now id customer tenant raw
                    (find (keyed code_of_product raw.product_code) ps))))
      | inr e ↦ rw e (
          ap state_found
            (find-upsert_other code_of_product f (λ p. refl) raw.product_code code new ps refl e))
    ]

upsert_products-described :
    (source : String) (now : ℕ) (cache : List CacheEntry) (db : CatalogDb) (raws : List RawProduct)
    (code : String) (out : List Product × CatalogDb)
    → upsert_products source now cache db raws ≡ ok out
    → state_of code out.1.products
      ≡ described source now db.suppliers db.tenants code raws (state_of code db.products)
unfolding upsert_products described
upsert_products-described source now cache db [] code out h =
    ap (λ (o : List Product × CatalogDb). state_of code o.1.products) (sym (ok-injective h))
upsert_products-described source now cache db (raw ∷ rest) code out h =
    let ((p, db1), e1, h1) = >>=-eq-ok (upsert_product source now cache raw db) _ h in
    let ((ps, db2), e2, h2) = >>=-eq-ok (upsert_products source now cache db1 rest) _ h1 in
    let (table, suppliers, tenants, customers) =
      upsert_product-ok source now cache raw db (p, db1) e1 in
    let ih = upsert_products-described source now cache db1 rest code (ps, db2) e2 in
    let step =
      ap (state_of code) table
      ∙ state_of-upsert source now db.next_id (customer_for cache raw) (tenant_for db raw) raw code
          db.products in
    ap (λ (o : List Product × CatalogDb). state_of code o.1.products) (sym (ok-injective h2))
    ∙ ih
    ∙ ap (λ x. described source now x db1.tenants code rest (state_of code db1.products)) suppliers
    ∙ ap (λ x. described source now db.suppliers x code rest (state_of code db1.products)) tenants
    ∙ ap (described source now db.suppliers db.tenants code rest) step

-- A fetch that returns leaves, for every code, the name, the model, the capacity, the source, the external
-- id and the time of the last row sent for it, with the tenant from before where none is derived; it keeps
-- the type, the specs and the manufacturer of a product that was there, and all of these of a product that
-- was not sent. The customer is not part of the statement.
pub fetch_from_source-described :
    (source : String) (now : ℕ) (raws : List RawProduct) (db : CatalogDb) (code : String)
    (out : Fetched)
    → fetch_from_source source now raws db ≡ ok out
    → state_of code out.db.products
      ≡ described source now db.suppliers db.tenants code raws (state_of code db.products)
unfolding fetch_from_source
fetch_from_source-described source now raws db code out h =
    let st = upsert_customers source now ([], db) raws in
    let (_, h1) = raise_if-eq-ok (not (any (str_eq source) valid_source_systems)) value_error _ h in
    let ((ps, db2), e, h2) = >>=-eq-ok (upsert_products source now st.0 st.1 raws) _ h1 in
    let (products, suppliers, tenants) = upsert_customers-SameProducts source now ([], db) raws in
    ap (λ (f : Fetched). state_of code f.db.products) (sym (ok-injective h2))
    ∙ upsert_products-described source now st.0 st.1 raws code (ps, db2) e
    ∙ ap (λ x. described source now x st.1.tenants code raws (state_of code st.1.products))
        suppliers
    ∙ ap (λ x. described source now db.suppliers x code raws (state_of code st.1.products)) tenants
    ∙ ap (λ x. described source now db.suppliers db.tenants code raws (state_of code x)) products
