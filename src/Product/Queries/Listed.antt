-- ===== src/Product/Queries/Listed.antt =====
-- The lists of products and their pages (backend/domains/product/repository.py:
-- list_products_filtered).
use project_main.Prelude.{
  ℕ, ◌+◌, ◌≤◌, ◌≡◌, sym, ap, ◌∙◌, subst, ◌↔◌, String, Bool, true, Option, List, ◌++◌, map, keep,
  take, length, In, In-keep, keep-In, arith, none, some, refl, ==_iff, some-injective, ◌&&◌, false,
}
use project_main.Prelude.Sort.{
  sort_by, page, In-sort_by, sort_by-In, length-sort_by, take_all, length-keep, page-append,
  map-append, In-map_pair, map_pair-In,
}
use project_main.Product.Import.{Customer, Product}
use project_main.Product.Queries.{
  ProductFilter, product_before, joined_name, matches, list_products_filtered, if_given, equals,
  contains_model, at_least, at_most,
}

-- What a parameter asks for, if it is given.
abbrev pub Given : {A : Type 0} → Option A → (A → Type 0) → Type 0
Given none P = Unit
Given (some a) P = P a

abbrev pub HasModel : (String → String → Bool) → String → Option String → Type 0
HasModel contains asked none = ⊥
HasModel contains asked (some model) = contains asked model ≡ true

abbrev pub IsAtLeast : ℕ → Option ℕ → Type 0
IsAtLeast low none = ⊥
IsAtLeast low (some a) = low ≤ a

abbrev pub IsAtMost : ℕ → Option ℕ → Type 0
IsAtMost high none = ⊥
IsAtMost high (some a) = a ≤ high

-- The product is the tenant's and the customer's, has a model with the text in its name, and a capacity
-- within the bounds, as far as each is asked for.
abbrev pub Meets : (String → String → Bool) → ProductFilter → Product → Type 0
Meets contains f p =
    Given f.tenant_id (λ t. p.tenant_id ≡ some t)
    × (Given f.customer_id (λ c. p.customer_id ≡ some c)
        × (Given f.model_name (λ m. HasModel contains m p.model_name)
            × (Given f.min_ah (λ low. IsAtLeast low p.amperage_ah)
                × Given f.max_ah (λ high. IsAtMost high p.amperage_ah))))

given_iff :
    {A : Type 0} (o : Option A) (test : A → Bool) (P : A → Type 0)
    → ((a : A) → (test a ≡ true) ↔ P a)
    → (if_given o test ≡ true) ↔ Given o P
given_iff none test P h = (λ _. tt, λ _. refl)
given_iff (some a) test P h = h a

equals_iff : (t : ℕ) (o : Option ℕ) → (equals t o ≡ true) ↔ (o ≡ some t)
equals_iff t none = (λ h. cc, λ h. cc)
equals_iff t (some u) =
    (λ h. ap some (sym ((==_iff t u).0 h)), λ h. (==_iff t u).1 (sym (some-injective h)))

model_iff :
    (contains : String → String → Bool) (m : String) (o : Option String)
    → (contains_model contains m o ≡ true) ↔ HasModel contains m o
model_iff contains m none = (λ h. cc, λ h. absurd h)
model_iff contains m (some s) = (λ h. h, λ h. h)

at_least_iff : (low : ℕ) (o : Option ℕ) → (at_least low o ≡ true) ↔ IsAtLeast low o
at_least_iff low none = (λ h. cc, λ h. absurd h)
at_least_iff low (some a) = ground arith

at_most_iff : (high : ℕ) (o : Option ℕ) → (at_most high o ≡ true) ↔ IsAtMost high o
at_most_iff high none = (λ h. cc, λ h. absurd h)
at_most_iff high (some a) = ground arith

and_iff :
    {P Q : Type 0} (a b : Bool) → (a ≡ true) ↔ P → (b ≡ true) ↔ Q → ((a && b) ≡ true) ↔ (P × Q)
and_iff true b (h, k) (f, g) = (λ e. (h refl, f e), λ (p, q). g q)
and_iff false b (h, k) (f, g) = (λ e. cc, λ (p, q). k p)

matches_iff :
    (contains : String → String → Bool) (f : ProductFilter) (p : Product)
    → (matches contains f p ≡ true) ↔ Meets contains f p
matches_iff contains f p =
    and_iff (if_given f.tenant_id (λ t. equals t p.tenant_id)) _
      (given_iff f.tenant_id _ _ (λ t. equals_iff t p.tenant_id))
      (and_iff (if_given f.customer_id (λ c. equals c p.customer_id)) _
        (given_iff f.customer_id _ _ (λ c. equals_iff c p.customer_id))
        (and_iff (if_given f.model_name (λ m. contains_model contains m p.model_name)) _
          (given_iff f.model_name _ _ (λ m. model_iff contains m p.model_name))
          (and_iff (if_given f.min_ah (λ a. at_least a p.amperage_ah)) _
            (given_iff f.min_ah _ _ (λ a. at_least_iff a p.amperage_ah))
            (given_iff f.max_ah _ _ (λ a. at_most_iff a p.amperage_ah)))))

module _ (contains : String → String → Bool) (products : List Product) (customers : List Customer)
    (f : ProductFilter) where
  abbrev pub named : Product → Product × Option String
  named p = (p, joined_name customers p.customer_id)

  -- One page after the other gives the same products, in the same order, as one page that is as long as
  -- both.
  pub list_products_filtered_pages :
      (limit next offset : ℕ)
      → list_products_filtered contains products customers f limit offset
          ++ list_products_filtered contains products customers f next (offset + limit)
        ≡ list_products_filtered contains products customers f (limit + next) offset
  unfolding list_products_filtered
  list_products_filtered_pages limit next offset =
      let sorted = sort_by product_before (keep (matches contains f) products) in
      sym (map-append named (page limit offset sorted) (page next (offset + limit) sorted))
      ∙ ap (map named) (page-append limit next offset sorted)

  -- A page that starts at the first product and has room for all lists, with the name of its customer,
  -- exactly the products of the tenant and of the customer with a model and a capacity as asked for, where a
  -- parameter that is not given asks for nothing.
  pub list_products_filtered_iff :
      (limit : ℕ) (p : Product)
      → length products ≤ limit
      → In (named p) (list_products_filtered contains products customers f limit 0)
        ↔ (In p products × Meets contains f p)
  unfolding list_products_filtered
  list_products_filtered_iff limit p room =
      let kept = keep (matches contains f) products in
      let sorted = sort_by product_before kept in
      let fits : length sorted ≤ limit = omega (
        arith,
        length-sort_by product_before kept,
        length-keep (matches contains f) products,
        room,
      ) in
      let all : take limit sorted ≡ sorted = take_all limit sorted fits in
      (
        (λ h.
            let (inside, m) = In-keep (matches contains f) p products (
              In-sort_by product_before p kept (
                subst (In p) all (
                  In-map_pair (λ (q : Product). joined_name customers q.customer_id) p
                    (take limit sorted) h))) in
            (inside, (matches_iff contains f p).0 m)),
        (λ (h, m).
            map_pair-In (λ (q : Product). joined_name customers q.customer_id) p (take limit sorted)
              (subst (In p) (sym all) (
                sort_by-In product_before p kept
                  (keep-In (matches contains f) p products h ((matches_iff contains f p).1 m))))),
      )
