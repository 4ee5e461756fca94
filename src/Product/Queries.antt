-- ===== src/Product/Queries.antt =====
-- What backend/domains/product (repository.py and service.py) reads: one product, the lists of products
-- with their filters and pages, and the versions of a product, also those of a day.
pub mod AsOf
pub mod Listed
mod Tests
use project_main.Prelude.{
  ℕ, String, Bool, true, false, not, ◌&&◌, ◌||◌, Option, none, some, List, [], ◌∷◌, ◌++◌, ◌==◌, ltb,
  leb, map, find, keep, take, drop, if◌then◌else◌, Result, ok, err, http, ◌>>=◌,
}
use project_main.Prelude.Sort.{sort_by, page}
use project_main.Product.{BomVersion, is_active}
use project_main.Product.Import.{Customer, Product}

abbrev pub equals : ℕ → Option ℕ → Bool
equals i none = false
equals i (some j) = i == j

-- A condition that is left out for a parameter that is missing.
abbrev pub if_given {ℓ} : {A : Type ℓ} → Option A → (A → Bool) → Bool
if_given none test = true
if_given (some a) test = test a

-- `ProductRepository.get_product`
abbrev pub is_product : ℕ → Option ℕ → Product → Bool
is_product id tenant p = id == p.product_id && if_given tenant (λ t. equals t p.tenant_id)

unfoldable pub get_product : List Product → ℕ → Option ℕ → Option Product
get_product products id tenant = find (is_product id tenant) products

-- `ORDER BY synced_at DESC NULLS LAST, created_at DESC`
abbrev pub newer : Option ℕ → Option ℕ → Bool → Bool
newer none none tie = tie
newer none (some b) tie = false
newer (some a) none tie = true
newer (some a) (some b) tie = ltb b a || a == b && tie

abbrev pub product_before : Product → Product → Bool
product_before p q = newer p.synced_at q.synced_at (leb q.created_at p.created_at)

-- `ORDER BY production_from DESC NULLS LAST, created_at DESC`
abbrev pub version_before : BomVersion → BomVersion → Bool
version_before v w = newer v.production_from w.production_from (leb w.created_at v.created_at)

-- `ProductRepository.list_products`
unfoldable pub list_products : List Product → ℕ → ℕ → List Product
list_products products limit offset = page limit offset (sort_by product_before products)

pub record ProductFilter : Type 0 where
  pub customer_id : Option ℕ
  pub model_name : Option String
  pub min_ah : Option ℕ
  pub max_ah : Option ℕ
  pub tenant_id : Option ℕ

abbrev pub at_least : ℕ → Option ℕ → Bool
at_least low none = false
at_least low (some a) = leb low a

abbrev pub at_most : ℕ → Option ℕ → Bool
at_most high none = false
at_most high (some a) = leb a high

abbrev pub customer_name : Option Customer → Option String
customer_name none = none
customer_name (some c) = some c.customer_name

-- `LEFT JOIN customers`
abbrev pub joined_name : List Customer → Option ℕ → Option String
joined_name customers none = none
joined_name customers (some id) =
    customer_name (find (λ (c : Customer). id == c.customer_id) customers)

-- `ILIKE '%' || model || '%'` of the database, on a text that is not NULL
module _ (contains : String → String → Bool) where
  abbrev pub contains_model : String → Option String → Bool
  contains_model model none = false
  contains_model model (some name) = contains model name

  -- The conditions, joined by `and_`.
  abbrev pub matches : ProductFilter → Product → Bool
  matches f p =
      if_given f.tenant_id (λ t. equals t p.tenant_id)
      && (if_given f.customer_id (λ c. equals c p.customer_id)
          && (if_given f.model_name (λ m. contains_model m p.model_name)
              && (if_given f.min_ah (λ a. at_least a p.amperage_ah)
                  && if_given f.max_ah (λ a. at_most a p.amperage_ah))))

  -- `ProductRepository.list_products_filtered`
  unfoldable pub list_products_filtered :
      List Product → List Customer → ProductFilter → ℕ → ℕ → List (Product × Option String)
  list_products_filtered products customers f limit offset =
      map (λ (p : Product). (p, joined_name customers p.customer_id))
        (page limit offset (sort_by product_before (keep (matches f) products)))

abbrev pub of_product : ℕ → BomVersion → Bool
of_product product v = product == v.product_id

-- The service's `get_bom_versions`, each with is_current; without the product a 404
abbrev pub with_current : BomVersion → BomVersion × Bool
with_current v = (v, is_active v.status)

unfoldable pub get_bom_versions :
    List Product → List BomVersion → ℕ → Result (List (BomVersion × Bool))
get_bom_versions products versions id = elim (get_product products id none) [
  | none ↦ err (http 404)
  | some p ↦ ok (map with_current (sort_by version_before (keep (of_product id) versions)))
]

-- `production_from <= as_of AND (production_to IS NULL OR production_to >= as_of)`
abbrev pub started : ℕ → Option ℕ → Bool
started day none = false
started day (some first) = leb first day

abbrev pub not_ended : ℕ → Option ℕ → Bool
not_ended day none = true
not_ended day (some last) = leb day last

abbrev pub produced_on : ℕ → ℕ → BomVersion → Bool
produced_on product day v =
    of_product product v && started day v.production_from && not_ended day v.production_to

-- `ORDER BY production_from DESC LIMIT 1`
abbrev pub starts_later : BomVersion → Option BomVersion → BomVersion
starts_later v none = v
starts_later v (some w) = if newer w.production_from v.production_from false then w else v

unfoldable pub latest : List BomVersion → Option BomVersion
latest [] = none
latest (v ∷ vs) = some (starts_later v (latest vs))

-- `ProductRepository.get_bom_version_as_of`
unfoldable pub version_as_of : List BomVersion → ℕ → ℕ → Option BomVersion
version_as_of versions product day = latest (keep (produced_on product day) versions)

abbrev pub or_not_found {ℓ} : {A : Type ℓ} → Option A → Result A
or_not_found none = err (http 404)
or_not_found (some a) = ok a

-- The service's `get_bom_version_as_of`
unfoldable pub get_bom_version_as_of :
    List Product → List BomVersion → ℕ → ℕ → Result (BomVersion × Bool)
get_bom_version_as_of products versions id day = do
  _ ← or_not_found (get_product products id none)
  v ← or_not_found (version_as_of versions id day)
  ok (with_current v)
