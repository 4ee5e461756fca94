-- ===== src/Product/Import/Repeated.antt =====
-- An import that is repeated (backend/domains/product/service.py: import_products).
use project_main.Prelude.{
  ℕ, suc, ◌≡◌, refl, sym, ap, ◌∙◌, subst, String, Bool, true, not, some, List, [], ◌∷◌, map, All,
  find, str_eq, str_eq_iff, ok, ok-injective, >>=-eq-ok, Bool-cases, Option-cases, inl, inr,
}
use project_main.Prelude.Upsert.{
  upsert, upserted, keyed, find-upsert, find-upsert_other, keys-upsert,
}
use project_main.Product.Import.{
  Product, RawProduct, CatalogDb, CacheEntry, code_of_product, is_missing, new_product,
  synced_product, upsert_product, upsert_products,
}
use project_main.Product.Import.Synced.{customer_for, tenant_for, upsert_product-ok}

-- A table has a row with the key.
abbrev pub holds : {A : Type 0} → (A → String) → List A → String → Bool
holds key xs c = not (is_missing (find (keyed key c) xs))

pub holds-some :
    {A : Type 0} (key : A → String) (xs : List A) (c : String)
    → holds key xs c ≡ true
    → (x : A) × (find (keyed key c) xs ≡ some x)
holds-some key xs c h = elim (Option-cases (find (keyed key c) xs)) [
  | inl e ↦ cc
  | inr (x, e) ↦ (x, e)
]

module _ {A : Type 0} (key : A → String) (f : A → A) (same : (x : A) → key (f x) ≡ key x) where
  pub holds-upsert :
      (c d : String) (new : A) (xs : List A)
      → key new ≡ c
      → holds key xs d ≡ true
      → holds key (upsert key c new f xs) d ≡ true
  holds-upsert c d new xs e h = elim (Bool-cases (str_eq d c)) [
    | inl k ↦ rw ((str_eq_iff d c).0 k) (rw (find-upsert key f same c new xs e) refl)
    | inr k ↦ rw (find-upsert_other key f same c d new xs e k) h
  ]

  pub holds-upsert_same :
      (c : String) (new : A) (xs : List A)
      → key new ≡ c
      → holds key (upsert key c new f xs) c ≡ true
  holds-upsert_same c new xs e = rw (find-upsert key f same c new xs e) refl

abbrev pub Stored : List Product → RawProduct → Type 0
Stored ps raw = holds code_of_product ps raw.product_code ≡ true

stored_after :
    (source : String) (now : ℕ) (cache : List CacheEntry) (raw : RawProduct) (db : CatalogDb)
    (out : Product × CatalogDb) (d : String)
    → upsert_product source now cache raw db ≡ ok out
    → holds code_of_product db.products d ≡ true
    → holds code_of_product out.1.products d ≡ true
stored_after source now cache raw db out d e h =
    let (table, _, _, _) = upsert_product-ok source now cache raw db out e in
    rw table (
      holds-upsert code_of_product
        (synced_product source now (customer_for cache raw) (tenant_for db raw) raw) (λ p. refl)
        raw.product_code d
        (new_product source now db.next_id (customer_for cache raw) (tenant_for db raw) raw)
        db.products refl h)

upsert_product_stores :
    (source : String) (now : ℕ) (cache : List CacheEntry) (raw : RawProduct) (db : CatalogDb)
    (out : Product × CatalogDb)
    → upsert_product source now cache raw db ≡ ok out
    → Stored out.1.products raw
upsert_product_stores source now cache raw db out e =
    let (table, _, _, _) = upsert_product-ok source now cache raw db out e in
    rw table (
      holds-upsert_same code_of_product
        (synced_product source now (customer_for cache raw) (tenant_for db raw) raw) (λ p. refl)
        raw.product_code
        (new_product source now db.next_id (customer_for cache raw) (tenant_for db raw) raw)
        db.products refl)

upsert_products-keeps :
    (source : String) (now : ℕ) (cache : List CacheEntry) (db : CatalogDb) (raws : List RawProduct)
    (out : List Product × CatalogDb) (d : String)
    → upsert_products source now cache db raws ≡ ok out
    → holds code_of_product db.products d ≡ true
    → holds code_of_product out.1.products d ≡ true
unfolding upsert_products
upsert_products-keeps source now cache db [] out d e h =
    subst (λ (o : List Product × CatalogDb). holds code_of_product o.1.products d ≡ true)
      (ok-injective e) h
upsert_products-keeps source now cache db (raw ∷ rest) out d e h =
    let ((p, db1), e1, h1) = >>=-eq-ok (upsert_product source now cache raw db) _ e in
    let ((ps, db2), e2, h2) = >>=-eq-ok (upsert_products source now cache db1 rest) _ h1 in
    subst (λ (o : List Product × CatalogDb). holds code_of_product o.1.products d ≡ true)
      (ok-injective h2)
      (upsert_products-keeps source now cache db1 rest (ps, db2) d e2
        (stored_after source now cache raw db (p, db1) d e1 h))

pub upsert_products-Stored :
    (source : String) (now : ℕ) (cache : List CacheEntry) (db : CatalogDb) (raws : List RawProduct)
    (out : List Product × CatalogDb)
    → upsert_products source now cache db raws ≡ ok out
    → All (Stored out.1.products) raws × (out.1.customers ≡ db.customers)
unfolding upsert_products
upsert_products-Stored source now cache db [] out e =
    (tt, ap (λ (o : List Product × CatalogDb). o.1.customers) (sym (ok-injective e)))
upsert_products-Stored source now cache db (raw ∷ rest) out e =
    let ((p, db1), e1, h1) = >>=-eq-ok (upsert_product source now cache raw db) _ e in
    let ((ps, db2), e2, h2) = >>=-eq-ok (upsert_products source now cache db1 rest) _ h1 in
    let (ih, same) = upsert_products-Stored source now cache db1 rest (ps, db2) e2 in
    let (_, _, _, kept) = upsert_product-ok source now cache raw db (p, db1) e1 in
    let here =
      upsert_products-keeps source now cache db1 rest (ps, db2) raw.product_code e2
        (upsert_product_stores source now cache raw db (p, db1) e1) in
    subst
      (λ (o : List Product × CatalogDb).
        All (Stored o.1.products) (raw ∷ rest) × (o.1.customers ≡ db.customers))
      (ok-injective h2) ((here, ih), same ∙ kept)

abbrev pub product_codes : CatalogDb → List String
product_codes db = map code_of_product db.products

-- A round on a product that is stored returns.
upsert_product-Stored :
    (source : String) (now : ℕ) (cache : List CacheEntry) (raw : RawProduct) (db : CatalogDb)
    → Stored db.products raw
    → (out : Product × CatalogDb) × (upsert_product source now cache raw db ≡ ok out)
      × (product_codes out.1 ≡ product_codes db)
      × (out.1.customers ≡ db.customers)
unfolding upsert_product
upsert_product-Stored source now cache raw db h =
    let (x, e) = holds-some code_of_product db.products raw.product_code h in
    let new = new_product source now db.next_id (customer_for cache raw) (tenant_for db raw) raw in
    let f = synced_product source now (customer_for cache raw) (tenant_for db raw) raw in
    (
      (
        upserted code_of_product (find (keyed code_of_product raw.product_code) db.products) new f,
        record db {
          products = upsert code_of_product raw.product_code new f db.products;
          next_id = suc db.next_id;
        },
      ),
      rw e refl,
      keys-upsert code_of_product f (λ p. refl) raw.product_code new x db.products e,
      refl,
    )

All-after :
    (source : String) (now : ℕ) (cache : List CacheEntry) (raw : RawProduct) (db : CatalogDb)
    (out : Product × CatalogDb) (raws : List RawProduct)
    → upsert_product source now cache raw db ≡ ok out
    → All (Stored db.products) raws
    → All (Stored out.1.products) raws
All-after source now cache raw db out [] e h = tt
All-after source now cache raw db out (r ∷ rs) e (k, h) = (
  stored_after source now cache raw db out r.product_code e k,
  All-after source now cache raw db out rs e h,
)

pub upsert_products_again :
    (source : String) (now : ℕ) (cache : List CacheEntry) (db : CatalogDb) (raws : List RawProduct)
    → All (Stored db.products) raws
    → (out : List Product × CatalogDb) × (upsert_products source now cache db raws ≡ ok out)
      × (product_codes out.1 ≡ product_codes db)
      × (out.1.customers ≡ db.customers)
unfolding upsert_products
upsert_products_again source now cache db [] h = (([], db), refl, refl, refl)
upsert_products_again source now cache db (raw ∷ rest) (k, h) =
    let ((p, db1), e, codes, kept) = upsert_product-Stored source now cache raw db k in
    let after = All-after source now cache raw db (p, db1) rest e h in
    let ((ps, db2), e', codes', kept') = upsert_products_again source now cache db1 rest after in
    ((p ∷ ps, db2), rw e (rw e' refl), codes' ∙ codes, kept' ∙ kept)
