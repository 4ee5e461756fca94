-- ===== src/Product/Import/Again.antt =====
-- An import as a whole that is repeated (backend/domains/product: repository.py and service.py).
use project_main.Prelude.{
  ℕ, ◌≡◌, refl, sym, ap, ◌∙◌, subst, String, true, false, not, ◌&&◌, ◌||◌, Option, none, some, List,
  [], ◌∷◌, ◌++◌, map, All, All-append, any, find, count, str_eq, ok, value_error, integrity_error,
  raise_if-eq-ok, ok-injective, >>=-eq-ok, Bool-cases, inl, inr,
}
use project_main.Prelude.Upsert.{keyed}
use project_main.Product.Import.{
  RawProduct, CatalogDb, CacheEntry, code_of_customer, valid_source_systems, cached,
  upsert_customer, customer_step, upsert_customers, upsert_products, Fetched, fetch_from_source,
  customer_events, product_events, ImportResult, imported, import_products, is_missing, is_supplier,
  code_of_product, upsert_product, Product,
}
use project_main.Product.Import.Synced.{upsert_customers-SameProducts}
use project_main.Product.Import.Repeated.{
  Stored, upsert_products-Stored, product_codes, upsert_products_again,
}
use project_main.Product.Import.Customers.{
  linked, Linked, upsert_customer_again, step_keeps, upsert_customers-Linked,
}

abbrev pub IsOld : CacheEntry → Type 0
IsOld e = e.is_new ≡ false

abbrev pub customer_codes : CatalogDb → List String
customer_codes db = map code_of_customer db.customers

step_again :
    (source : String) (now : ℕ) (raw : RawProduct) (code : Option String) (cache : List CacheEntry)
    (db : CatalogDb)
    → linked db.customers code ≡ true
    → All IsOld cache
    → All IsOld (customer_step source now raw code (cache, db)).0
      × (customer_codes (customer_step source now raw code (cache, db)).1 ≡ customer_codes db)
step_again source now raw none cache db h old = (old, refl)
step_again source now raw (some code) cache db h old = elim (Bool-cases (str_eq code "")) [
  | inl e ↦ rw e (old, refl)
  | inr e ↦ elim (Bool-cases (any (cached code) cache)) [
    | inl k ↦ rw e (rw k (old, refl))
    | inr k ↦
        let (is_old, codes) = upsert_customer_again source now code raw db (rw e at h) in
        rw e (rw k (All-append IsOld cache _ old (is_old, tt), codes))
  ]
]

step_Linked :
    (source : String) (now : ℕ) (raw : RawProduct) (code : Option String) (cache : List CacheEntry)
    (db : CatalogDb) (raws : List RawProduct)
    → All (Linked db.customers) raws
    → All (Linked (customer_step source now raw code (cache, db)).1.customers) raws
step_Linked source now raw code cache db [] h = tt
step_Linked source now raw code cache db (r ∷ rs) (k, h) = (
  step_keeps source now raw code cache db r.customer_code k,
  step_Linked source now raw code cache db rs h,
)

upsert_customers_again :
    (source : String) (now : ℕ) (st : List CacheEntry × CatalogDb) (raws : List RawProduct)
    → All (Linked st.1.customers) raws
    → All IsOld st.0
    → All IsOld (upsert_customers source now st raws).0
      × (customer_codes (upsert_customers source now st raws).1 ≡ customer_codes st.1)
unfolding upsert_customers
upsert_customers_again source now st [] h old = (old, refl)
upsert_customers_again source now (cache, db) (raw ∷ rest) (k, h) old =
    let (old', codes) = step_again source now raw raw.customer_code cache db k old in
    let (olds, same) =
      upsert_customers_again source now (customer_step source now raw raw.customer_code (cache, db))
        rest (step_Linked source now raw raw.customer_code cache db rest h) old' in
    (olds, same ∙ codes)

count-IsOld : (es : List CacheEntry) → All IsOld es → count (λ (e : CacheEntry). e.is_new) es ≡ 0
count-IsOld [] h = refl
count-IsOld (e ∷ es) (k, h) = rw k (count-IsOld es h)

events-IsOld : (es : List CacheEntry) → All IsOld es → customer_events es ≡ []
unfolding customer_events
events-IsOld [] h = refl
events-IsOld (e ∷ es) (k, h) = rw k (events-IsOld es h)

-- What a fetch leaves behind: every product that was sent is stored, with its customer.
fetch-Stored :
    (source : String) (now : ℕ) (raws : List RawProduct) (db : CatalogDb) (f : Fetched)
    → fetch_from_source source now raws db ≡ ok f
    → All (Stored f.db.products) raws × All (Linked f.db.customers) raws
unfolding fetch_from_source
fetch-Stored source now raws db f h =
    let st = upsert_customers source now ([], db) raws in
    let (_, h1) = raise_if-eq-ok (not (any (str_eq source) valid_source_systems)) value_error _ h in
    let ((ps, db2), e, h2) = >>=-eq-ok (upsert_products source now st.0 st.1 raws) _ h1 in
    let (stored, kept) = upsert_products-Stored source now st.0 st.1 raws (ps, db2) e in
    subst (λ (g : Fetched). All (Stored g.db.products) raws × All (Linked g.db.customers) raws)
      (ok-injective h2)
      (
        stored,
        subst (λ cs. All (Linked cs) raws) (sym kept)
            (upsert_customers-Linked source now ([], db) raws tt),
      )

-- A fetch after which every product is stored, from a source that is valid.
fetch_again :
    (source : String) (now : ℕ) (raws : List RawProduct) (db : CatalogDb)
    → any (str_eq source) valid_source_systems ≡ true
    → All (Stored db.products) raws
    → All (Linked db.customers) raws
    → (f : Fetched) × (fetch_from_source source now raws db ≡ ok f)
      × (product_codes f.db ≡ product_codes db)
      × (customer_codes f.db ≡ customer_codes db)
      × All IsOld f.customers
unfolding fetch_from_source
fetch_again source now raws db valid stored known =
    let st = upsert_customers source now ([], db) raws in
    let (old, codes) = upsert_customers_again source now ([], db) raws known tt in
    let (products, _, _) = upsert_customers-SameProducts source now ([], db) raws in
    let stored' = subst (λ ps. All (Stored ps) raws) (sym products) stored in
    let ((ps, db2), e, same, kept) = upsert_products_again source now st.0 st.1 raws stored' in
    (
      record { customers = st.0; products = ps; db = db2 },
      rw valid (rw e refl),
      same ∙ ap (map _) products,
      ap (map code_of_customer) kept ∙ codes,
      old,
    )

step_published :
    (source : String) (now : ℕ) (raw : RawProduct) (code : Option String) (cache : List CacheEntry)
    (db : CatalogDb)
    → (customer_step source now raw code (cache, db)).1.published ≡ db.published
unfolding upsert_customer
step_published source now raw none cache db = refl
step_published source now raw (some code) cache db =
    elim (Bool-cases (str_eq code "" || any (cached code) cache)) [
      | inl e ↦ rw e refl
      | inr e ↦ rw e refl
    ]

customers_published :
    (source : String) (now : ℕ) (st : List CacheEntry × CatalogDb) (raws : List RawProduct)
    → (upsert_customers source now st raws).1.published ≡ st.1.published
unfolding upsert_customers
customers_published source now st [] = refl
customers_published source now (cache, db) (raw ∷ rest) =
    customers_published source now (customer_step source now raw raw.customer_code (cache, db)) rest
    ∙ step_published source now raw raw.customer_code cache db

product_published :
    (source : String) (now : ℕ) (cache : List CacheEntry) (raw : RawProduct) (db : CatalogDb)
    (out : Product × CatalogDb)
    → upsert_product source now cache raw db ≡ ok out
    → out.1.published ≡ db.published
unfolding upsert_product
product_published source now cache raw db out h =
    let before = find (keyed code_of_product raw.product_code) db.products in
    let (_, e) =
      raise_if-eq-ok (is_missing before && not (is_supplier db.suppliers raw.manufacturer_id))
        integrity_error _ h in
    ap (λ (o : Product × CatalogDb). o.1.published) (sym (ok-injective e))

products_published :
    (source : String) (now : ℕ) (cache : List CacheEntry) (db : CatalogDb) (raws : List RawProduct)
    (out : List Product × CatalogDb)
    → upsert_products source now cache db raws ≡ ok out
    → out.1.published ≡ db.published
unfolding upsert_products
products_published source now cache db [] out e =
    ap (λ (o : List Product × CatalogDb). o.1.published) (sym (ok-injective e))
products_published source now cache db (raw ∷ rest) out e =
    let ((p, db1), e1, h1) = >>=-eq-ok (upsert_product source now cache raw db) _ e in
    let ((ps, db2), e2, h2) = >>=-eq-ok (upsert_products source now cache db1 rest) _ h1 in
    ap (λ (o : List Product × CatalogDb). o.1.published) (sym (ok-injective h2))
    ∙ products_published source now cache db1 rest (ps, db2) e2
    ∙ product_published source now cache raw db (p, db1) e1

fetch-published :
    (source : String) (now : ℕ) (raws : List RawProduct) (db : CatalogDb) (f : Fetched)
    → fetch_from_source source now raws db ≡ ok f
    → f.db.published ≡ db.published
unfolding fetch_from_source
fetch-published source now raws db f h =
    let st = upsert_customers source now ([], db) raws in
    let (_, h1) = raise_if-eq-ok (not (any (str_eq source) valid_source_systems)) value_error _ h in
    let ((ps, db2), e, h2) = >>=-eq-ok (upsert_products source now st.0 st.1 raws) _ h1 in
    ap (λ (g : Fetched). g.db.published) (sym (ok-injective h2))
    ∙ products_published source now st.0 st.1 raws (ps, db2) e
    ∙ customers_published source now ([], db) raws

-- What a second import does to the database that a first one has left.
abbrev Repeats : String → ℕ → List RawProduct → CatalogDb → Type 0
Repeats source later raws db =
    (again : ImportResult × CatalogDb) × (import_products source later raws db ≡ ok again)
    × (product_codes again.1 ≡ product_codes db)
    × (customer_codes again.1 ≡ customer_codes db)
    × (again.0.new_customer_count ≡ 0)
    × (again.1.published ≡ db.published ++ product_events again.0.products)

-- An import that is repeated, from a valid source at any time, returns; it adds neither a product nor a
-- customer, counts no new customer, and publishes no event of a customer.
pub import_products_again :
    (first second : String) (now later : ℕ) (raws : List RawProduct) (db : CatalogDb)
    (out : ImportResult × CatalogDb)
    → import_products first now raws db ≡ ok out
    → any (str_eq second) valid_source_systems ≡ true
    → (again : ImportResult × CatalogDb) × (import_products second later raws out.1 ≡ ok again)
      × (product_codes again.1 ≡ product_codes out.1)
      × (customer_codes again.1 ≡ customer_codes out.1)
      × (again.0.new_customer_count ≡ 0)
      × (again.1.published ≡ out.1.published ++ product_events again.0.products)
unfolding import_products
import_products_again first second now later raws db out h valid =
    let (f, e, h1) = >>=-eq-ok (fetch_from_source first now raws db) _ h in
    let (stored, known) = fetch-Stored first now raws db f e in
    let between = (imported first f).1 in
    let (g, e2, products, customers, old) =
      fetch_again second later raws between valid stored known in
    let same = fetch-published second later raws between g e2 in
    let repeats : Repeats second later raws between = (
      imported second g,
      rw e2 refl,
      products,
      customers,
      count-IsOld g.customers old,
      ap (λ es. g.db.published ++ (es ++ product_events g.products)) (events-IsOld g.customers old)
          ∙ ap (λ es. es ++ product_events g.products) same,
    ) in
    subst (λ (o : ImportResult × CatalogDb). Repeats second later raws o.1) (ok-injective h1)
      repeats
