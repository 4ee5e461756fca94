-- ===== src/Prelude/Sort.antt =====
-- Rows that a query orders, and its pages.
use Prim.Native.Nat.{ℕ, zero, suc, ◌+◌, ◌≤◌}
use mathlib.Core.Path.{◌≡◌, refl, sym, ap, ◌∙◌}
use mathlib.Core.Logic.{◌⊎◌, inl, inr}
use mathlib.Core.Bool.{Bool}
use mathlib.Core.List.{List, [], ◌∷◌, ◌++◌, map}
use native.Mathlib.Omega.{arith}
use project_main.Prelude.Tests.{if◌then◌else◌, Bool-cases}
use project_main.Prelude.Lists.{length, keep, take, drop, In}

module _ {A : Type 0} (before : A → A → Bool) where
  unfoldable pub insert_by : A → List A → List A
  insert_by x [] = x ∷ []
  insert_by x (y ∷ ys) = let rest = insert_by x ys in if before x y then x ∷ y ∷ ys else y ∷ rest

  unfoldable pub sort_by : List A → List A
  sort_by [] = []
  sort_by (x ∷ xs) = insert_by x (sort_by xs)

-- `LIMIT ... OFFSET ...`
abbrev pub page : {A : Type 0} → ℕ → ℕ → List A → List A
page limit offset xs = take limit (drop offset xs)

module _ {A : Type 0} (before : A → A → Bool) where
  In-insert_by : (a x : A) (xs : List A) → In a (insert_by before x xs) → (a ≡ x) ⊎ In a xs
  unfolding insert_by
  In-insert_by a x [] h = h
  In-insert_by a x (y ∷ ys) h = elim (Bool-cases (before x y)) [
    | inl e ↦ rw e at h
    | inr e ↦ elim (let k : In a (y ∷ insert_by before x ys) = rw e at h in k) [
      | inl same ↦ inr (inl same)
      | inr k ↦ elim (In-insert_by a x ys k) [ inl same ↦ inl same | inr l ↦ inr (inr l) ]
    ]
  ]

  behind :
      (a x y : A) (ys zs : List A)
      → ((a ≡ x) ⊎ In a ys → In a zs)
      → (a ≡ x) ⊎ In a (y ∷ ys)
      → In a (y ∷ zs)
  behind a x y ys zs f (inl same) = inr (f (inl same))
  behind a x y ys zs f (inr (inl same)) = inl same
  behind a x y ys zs f (inr (inr k)) = inr (f (inr k))

  insert_by-In : (a x : A) (xs : List A) → (a ≡ x) ⊎ In a xs → In a (insert_by before x xs)
  unfolding insert_by
  insert_by-In a x [] h = h
  insert_by-In a x (y ∷ ys) h = elim (Bool-cases (before x y)) [
    | inl e ↦ rw e h
    | inr e ↦ rw e (behind a x y ys (insert_by before x ys) (insert_by-In a x ys) h)
  ]

  pub In-sort_by : (a : A) (xs : List A) → In a (sort_by before xs) → In a xs
  unfolding sort_by
  In-sort_by a [] h = h
  In-sort_by a (x ∷ xs) h = elim (In-insert_by a x (sort_by before xs) h) [
    | inl e ↦ inl e
    | inr k ↦ inr (In-sort_by a xs k)
  ]

  pub sort_by-In : (a : A) (xs : List A) → In a xs → In a (sort_by before xs)
  unfolding sort_by
  sort_by-In a [] h = h
  sort_by-In a (x ∷ xs) (inl e) = insert_by-In a x (sort_by before xs) (inl e)
  sort_by-In a (x ∷ xs) (inr h) = insert_by-In a x (sort_by before xs) (inr (sort_by-In a xs h))

  length-insert_by : (x : A) (xs : List A) → length (insert_by before x xs) ≡ suc (length xs)
  unfolding insert_by
  length-insert_by x [] = refl
  length-insert_by x (y ∷ ys) = ground (arith, length-insert_by x ys)

  pub length-sort_by : (xs : List A) → length (sort_by before xs) ≡ length xs
  unfolding sort_by
  length-sort_by [] = refl
  length-sort_by (x ∷ xs) = omega (arith, length-insert_by x (sort_by before xs), length-sort_by xs)

module _ {A : Type 0} where
  take-nil : (n : ℕ) → take n (let none_left : List A = [] in none_left) ≡ []
  take-nil zero = refl
  take-nil (suc n) = refl

  pub take_all : (n : ℕ) (xs : List A) → length xs ≤ n → take n xs ≡ xs
  take_all n [] h = take-nil n
  take_all zero (x ∷ xs) h = absurd (omega (arith, h))
  take_all (suc n) (x ∷ xs) h = ap (λ ys. x ∷ ys) (take_all n xs (omega (arith, h)))

  pub length-keep : (p : A → Bool) (xs : List A) → length (keep p xs) ≤ length xs
  length-keep p [] = omega arith
  length-keep p (x ∷ xs) = ground (arith, length-keep p xs)

  pub take-drop : (m n : ℕ) (xs : List A) → take m xs ++ take n (drop m xs) ≡ take (m + n) xs
  take-drop zero n xs = ap (λ k. take k xs) (omega arith)
  take-drop (suc m) n [] = take-nil n ∙ sym (take-nil (suc m + n))
  take-drop (suc m) n (x ∷ xs) =
      let sum : suc m + n ≡ suc (m + n) = omega arith in
      rw sum (ap (λ ys. x ∷ ys) (take-drop m n xs))

  drop-add : (k m : ℕ) (xs : List A) → drop (k + m) xs ≡ drop m (drop k xs)
  drop-add zero m xs = ap (λ j. drop j xs) (omega arith)
  drop-add (suc k) m [] = drop-nil (suc k + m) ∙ sym (drop-nil m)
    where
      drop-nil : (n : ℕ) → drop n (let none_left : List A = [] in none_left) ≡ []
      drop-nil zero = refl
      drop-nil (suc n) = refl
  drop-add (suc k) m (x ∷ xs) =
      let sum : suc k + m ≡ suc (k + m) = omega arith in rw sum (drop-add k m xs)

  pub page-append : (m n k : ℕ) (xs : List A) → page m k xs ++ page n (k + m) xs ≡ page (m + n) k xs
  page-append m n k xs = rw (drop-add k m xs) (take-drop m n (drop k xs))

pub map-append :
    {A B : Type 0} (f : A → B) (xs ys : List A) → map f (xs ++ ys) ≡ map f xs ++ map f ys
map-append f [] ys = refl
map-append f (x ∷ xs) ys = ap (λ zs. f x ∷ zs) (map-append f xs ys)

module _ {A B : Type 0} (g : A → B) where
  abbrev pub paired : A → A × B
  paired x = (x, g x)

  pub In-map_pair : (a : A) (xs : List A) → In (paired a) (map paired xs) → In a xs
  In-map_pair a [] h = h
  In-map_pair a (x ∷ xs) (inl e) = inl (ap (λ (p : A × B). p.0) e)
  In-map_pair a (x ∷ xs) (inr h) = inr (In-map_pair a xs h)

  pub map_pair-In : (a : A) (xs : List A) → In a xs → In (paired a) (map paired xs)
  map_pair-In a [] h = h
  map_pair-In a (x ∷ xs) (inl e) = inl (ap paired e)
  map_pair-In a (x ∷ xs) (inr h) = inr (map_pair-In a xs h)

-- A function that respects the order commutes with the sorting.
module _ {A : Type 0} (before : A → A → Bool) (f : A → A)
    (same : (x y : A) → before (f x) (f y) ≡ before x y) where
  map-insert_by :
      (x : A) (xs : List A) → insert_by before (f x) (map f xs) ≡ map f (insert_by before x xs)
  unfolding insert_by
  map-insert_by x [] = refl
  map-insert_by x (y ∷ ys) = elim (Bool-cases (before x y)) [
    | inl e ↦ rw (same x y ∙ e) (rw e refl)
    | inr e ↦ rw (same x y ∙ e) (rw e (ap (λ zs. f y ∷ zs) (map-insert_by x ys)))
  ]

  pub map-sort_by : (xs : List A) → sort_by before (map f xs) ≡ map f (sort_by before xs)
  unfolding sort_by
  map-sort_by [] = refl
  map-sort_by (x ∷ xs) =
      ap (insert_by before (f x)) (map-sort_by xs) ∙ map-insert_by x (sort_by before xs)

pub map-take :
    {A B : Type 0} (f : A → B) (n : ℕ) (xs : List A) → take n (map f xs) ≡ map f (take n xs)
map-take f zero xs = refl
map-take f (suc n) [] = refl
map-take f (suc n) (x ∷ xs) = ap (λ ys. f x ∷ ys) (map-take f n xs)
