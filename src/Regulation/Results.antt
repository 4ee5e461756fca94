-- ===== src/Regulation/Results.antt =====
-- The lists of violations and results and their counts (backend/domains/regulation/repository.py).
use project_main.Prelude.{
  ℕ, zero, suc, ◌≡◌, refl, ap, ◌∙◌, Option, List, [], ◌∷◌, map, keep, take, length, min, arith,
}
use project_main.Prelude.Sort.{sort_by, length-sort_by}
use project_main.Regulation.{
  ResultsDb, newest, violation_row, violation_item, get_violations, count_violations,
}

length-map : {A B : Type 0} (f : A → B) (xs : List A) → length (map f xs) ≡ length xs
length-map f [] = refl
length-map f (x ∷ xs) = ap suc (length-map f xs)

length-take_lem : {A : Type 0} (n : ℕ) (xs : List A) → length (take n xs) ≡ min n (length xs)
length-take_lem zero xs = omega arith
length-take_lem (suc n) [] = omega arith
length-take_lem (suc n) (x ∷ xs) = omega (arith, length-take_lem n xs)

-- The list of violations is as long as the limit, or as the count where that is less.
pub length-get_violations :
    (db : ResultsDb) (tenant : ℕ) (supplier : Option ℕ) (limit : ℕ)
    → length (get_violations db tenant supplier limit)
      ≡ min limit (count_violations db tenant supplier)
unfolding get_violations count_violations
length-get_violations db tenant supplier limit =
    let rows = keep (violation_row db tenant supplier) db.results in
    length-map (violation_item db) (take limit (sort_by newest rows))
    ∙ length-take_lem limit (sort_by newest rows)
    ∙ ap (min limit) (length-sort_by newest rows)
