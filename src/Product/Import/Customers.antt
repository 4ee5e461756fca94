-- ===== src/Product/Import/Customers.antt =====
-- The customers of an import (backend/domains/product/repository.py: fetch_from_source).
use project_main.Prelude.{
  ℕ, ◌≡◌, refl, sym, ap, subst, String, Bool, true, false, ◌||◌, Option, none, some, List, [], ◌∷◌,
  map, All, All-append, any, str_eq, str_eq_iff, Bool-cases, inl, inr,
}
use project_main.Prelude.Upsert.{keys-upsert}
use project_main.Product.Import.{
  Customer, RawProduct, CatalogDb, CacheEntry, code_of_customer, is_missing, cached, new_customer,
  synced_customer, upsert_customer, customer_step, upsert_customers,
}
use project_main.Product.Import.Repeated.{holds, holds-some, holds-upsert, holds-upsert_same}

abbrev pub CacheStored : List Customer → CacheEntry → Type 0
CacheStored cs e = holds code_of_customer cs e.customer_code ≡ true

-- The customer of a product is in the table, if it has one.
abbrev pub linked : List Customer → Option String → Bool
linked cs none = true
linked cs (some code) = str_eq code "" || holds code_of_customer cs code

cached-holds :
    (cs : List Customer) (code : String) (cache : List CacheEntry)
    → All (CacheStored cs) cache
    → any (cached code) cache ≡ true
    → holds code_of_customer cs code ≡ true
cached-holds cs code [] h k = cc
cached-holds cs code (e ∷ es) (here, h) k = elim (Bool-cases (str_eq code e.customer_code)) [
  | inl eq ↦
      subst (λ c. holds code_of_customer cs c ≡ true) (sym ((str_eq_iff code e.customer_code).0 eq))
        here
  | inr ne ↦ cached-holds cs code es h (rw ne at k)
]

module _ (source : String) (now : ℕ) (code : String) (raw : RawProduct) (db : CatalogDb) where
  holds_after :
      (d : String)
      → holds code_of_customer db.customers d ≡ true
      → holds code_of_customer (upsert_customer source now code raw db).1.customers d ≡ true
  unfolding upsert_customer
  holds_after d h =
      holds-upsert code_of_customer (synced_customer source now code raw) (λ c. refl) code d
        (new_customer source now db.next_id code raw) db.customers refl h

  holds_now :
      holds code_of_customer (upsert_customer source now code raw db).1.customers code ≡ true
  unfolding upsert_customer
  holds_now =
      holds-upsert_same code_of_customer (synced_customer source now code raw) (λ c. refl) code
        (new_customer source now db.next_id code raw) db.customers refl

  cache_after :
      (cache : List CacheEntry)
      → All (CacheStored db.customers) cache
      → All (CacheStored (upsert_customer source now code raw db).1.customers) cache
  cache_after [] h = tt
  cache_after (e ∷ es) (k, h) = (holds_after e.customer_code k, cache_after es h)

  entry_code : (upsert_customer source now code raw db).0.customer_code ≡ code
  unfolding upsert_customer
  entry_code = refl

  pub upsert_customer_again :
      holds code_of_customer db.customers code ≡ true
      → ((upsert_customer source now code raw db).0.is_new ≡ false)
        × (map code_of_customer (upsert_customer source now code raw db).1.customers
            ≡ map code_of_customer db.customers)
  unfolding upsert_customer
  upsert_customer_again h =
      let (x, e) = holds-some code_of_customer db.customers code h in
      (
        ap is_missing e,
        keys-upsert code_of_customer (synced_customer source now code raw) (λ c. refl) code
            (new_customer source now db.next_id code raw) x db.customers e,
      )

linked_after :
    (source : String) (now : ℕ) (code : String) (raw : RawProduct) (db : CatalogDb)
    (o : Option String)
    → linked db.customers o ≡ true
    → linked (upsert_customer source now code raw db).1.customers o ≡ true
linked_after source now code raw db none h = refl
linked_after source now code raw db (some d) h = elim (Bool-cases (str_eq d "")) [
  | inl e ↦ rw e refl
  | inr e ↦ rw e (holds_after source now code raw db d (rw e at h))
]

-- A round of the first loop: the entries of the cache stay stored, the product's customer is, and the
-- customers that were stored still are.
step_linked :
    (source : String) (now : ℕ) (raw : RawProduct) (code : Option String) (cache : List CacheEntry)
    (db : CatalogDb)
    → All (CacheStored db.customers) cache
    → All
        (CacheStored (customer_step source now raw code (cache, db)).1.customers)
        (customer_step source now raw code (cache, db)).0
      × (linked (customer_step source now raw code (cache, db)).1.customers code ≡ true)
step_linked source now raw none cache db h = (h, refl)
step_linked source now raw (some code) cache db h = elim (Bool-cases (str_eq code "")) [
  | inl e ↦ rw e (h, refl)
  | inr e ↦ elim (Bool-cases (any (cached code) cache)) [
    | inl k ↦ rw e (rw k (h, cached-holds db.customers code cache h k))
    | inr k ↦
        let stored = holds_now source now code raw db in
        rw e (
          rw k (
            All-append (CacheStored (upsert_customer source now code raw db).1.customers) cache _
                (cache_after source now code raw db cache h)
                (
                  subst
                      (λ c.
                        holds code_of_customer (upsert_customer source now code raw db).1.customers
                          c
                        ≡ true)
                      (sym (entry_code source now code raw db)) stored,
                  tt,
                ),
            stored,
          ))
  ]
]

pub step_keeps :
    (source : String) (now : ℕ) (raw : RawProduct) (code : Option String) (cache : List CacheEntry)
    (db : CatalogDb) (o : Option String)
    → linked db.customers o ≡ true
    → linked (customer_step source now raw code (cache, db)).1.customers o ≡ true
step_keeps source now raw none cache db o h = h
step_keeps source now raw (some code) cache db o h =
    elim (Bool-cases (str_eq code "" || any (cached code) cache)) [
      | inl e ↦ rw e h
      | inr e ↦ rw e (linked_after source now code raw db o h)
    ]

abbrev pub Linked : List Customer → RawProduct → Type 0
Linked cs raw = linked cs raw.customer_code ≡ true

upsert_customers-keeps :
    (source : String) (now : ℕ) (st : List CacheEntry × CatalogDb) (raws : List RawProduct)
    (o : Option String)
    → linked st.1.customers o ≡ true
    → linked (upsert_customers source now st raws).1.customers o ≡ true
unfolding upsert_customers
upsert_customers-keeps source now st [] o h = h
upsert_customers-keeps source now (cache, db) (raw ∷ rest) o h =
    upsert_customers-keeps source now (customer_step source now raw raw.customer_code (cache, db))
      rest o (step_keeps source now raw raw.customer_code cache db o h)

pub upsert_customers-Linked :
    (source : String) (now : ℕ) (st : List CacheEntry × CatalogDb) (raws : List RawProduct)
    → All (CacheStored st.1.customers) st.0
    → All (Linked (upsert_customers source now st raws).1.customers) raws
unfolding upsert_customers
upsert_customers-Linked source now st [] h = tt
upsert_customers-Linked source now (cache, db) (raw ∷ rest) h =
    let st' = customer_step source now raw raw.customer_code (cache, db) in
    let (stored, here) = step_linked source now raw raw.customer_code cache db h in
    (
      upsert_customers-keeps source now st' rest raw.customer_code here,
      upsert_customers-Linked source now st' rest stored,
    )
