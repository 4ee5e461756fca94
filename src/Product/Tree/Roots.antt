-- ===== src/Product/Tree/Roots.antt =====
-- Which parts the query of backend/domains/product/repository.py (get_bom_tree) starts from.
use project_main.Prelude.{
  ℕ, zero, suc, ◌≡◌, refl, sym, String, Bool, true, false, Option, none, some, List, [], ◌∷◌, ◌++◌,
  arith, ltb, any, find, keep, null, All, All-append, Bool-cases, inl, inr, subst, some-injective,
}
use project_main.Product.{BomVersion}
use project_main.Product.Tree.{
  PartRow, BomItem, TreeRow, equals, item_of, has_parent, is_child_part, not_in, item_rows,
  anchor_rows, child_rows, next_rows, append_rows, tree_rows, bom_rows, BomTree, assemble,
  active_version, sort_rows, assembled, get_bom_tree,
}
use project_main.Product.Tree.Layers.{AllNodes, sort_rows-All, assemble-AllNodes}

-- The part of the row is not the topmost one.
abbrev pub HasParent : TreeRow → Type 0
HasParent r = has_parent r.part.parent_part_id ≡ true

equals-has_parent : (i : ℕ) (o : Option ℕ) → equals i o ≡ true → has_parent o ≡ true
equals-has_parent i none h = cc
equals-has_parent i (some j) h = refl

child_rows-HasParent : (ps : List PartRow) (r : TreeRow) → All HasParent (child_rows ps r)
unfolding child_rows
child_rows-HasParent [] r = tt
child_rows-HasParent (p ∷ ps) r = elim (Bool-cases (equals r.part.part_id p.parent_part_id)) [
  | inl k ↦ rw k (equals-has_parent r.part.part_id p.parent_part_id k, child_rows-HasParent ps r)
  | inr k ↦ rw k (child_rows-HasParent ps r)
]

next_rows-HasParent : (ps : List PartRow) (rs : List TreeRow) → All HasParent (next_rows ps rs)
unfolding next_rows
next_rows-HasParent ps [] = tt
next_rows-HasParent ps (r ∷ rs) = elim (Bool-cases (ltb r.depth 5)) [
  | inl k ↦ rw k (
      All-append HasParent (child_rows ps r) (next_rows ps rs) (child_rows-HasParent ps r)
        (next_rows-HasParent ps rs))
  | inr k ↦ rw k (next_rows-HasParent ps rs)
]

append_rows-some :
    (rows : List TreeRow) (o : Option (List TreeRow)) (out : List TreeRow)
    → append_rows rows o ≡ some out
    → (more : List TreeRow) × (o ≡ some more) × (out ≡ rows ++ more)
append_rows-some rows none out h = cc
append_rows-some rows (some more) out h = (more, refl, sym (some-injective h))

tree_rows-HasParent :
    (n : ℕ) (ps : List PartRow) (rs out : List TreeRow)
    → All HasParent rs
    → tree_rows n ps rs ≡ some out
    → All HasParent out
unfolding tree_rows
tree_rows-HasParent n ps [] out h e = subst (All HasParent) (some-injective e) tt
tree_rows-HasParent zero ps (r ∷ rs) out h e = cc
tree_rows-HasParent (suc n) ps (r ∷ rs) out h e =
    let (more, k, eq) = append_rows-some (r ∷ rs) (tree_rows n ps (next_rows ps (r ∷ rs))) out e in
    subst (All HasParent) (sym eq) (
      All-append HasParent (r ∷ rs) more h
        (tree_rows-HasParent n ps (next_rows ps (r ∷ rs)) more (next_rows-HasParent ps (r ∷ rs)) k))

not_in-has_parent :
    (o : Option ℕ) (sel : List PartRow)
    → null sel ≡ false
    → not_in o sel ≡ true
    → has_parent o ≡ true
not_in-has_parent none [] h k = cc
not_in-has_parent none (p ∷ ps) h k = cc
not_in-has_parent (some i) sel h k = refl

item_rows-HasParent :
    (p : PartRow) (items : List BomItem)
    → has_parent p.parent_part_id ≡ true
    → All HasParent (item_rows p items)
unfolding item_rows
item_rows-HasParent p [] h = tt
item_rows-HasParent p (i ∷ items) h = (h, item_rows-HasParent p items h)

anchor_rows-HasParent :
    (items : List BomItem) (bv : ℕ) (sel ps : List PartRow)
    → null sel ≡ false
    → All HasParent (anchor_rows items bv sel ps)
unfolding anchor_rows
anchor_rows-HasParent items bv sel [] h = tt
anchor_rows-HasParent items bv sel (p ∷ ps) h = elim (Bool-cases (not_in p.parent_part_id sel)) [
  | inl k ↦ rw k (
      All-append HasParent (item_rows p (keep (item_of bv p.part_id) items))
        (anchor_rows items bv sel ps)
        (item_rows-HasParent p (keep (item_of bv p.part_id) items)
          (not_in-has_parent p.parent_part_id sel h k))
        (anchor_rows-HasParent items bv sel ps h))
  | inr k ↦ rw k (anchor_rows-HasParent items bv sel ps h)
]

any-keep {ℓ} :
    {A : Type ℓ} (p : A → Bool) (xs : List A) → any p xs ≡ true → null (keep p xs) ≡ false
any-keep p [] h = cc
any-keep p (x ∷ xs) h = ground (arith, any-keep p xs)

assembled-some :
    (le : String → String → Bool) (o : Option (List TreeRow)) (t : BomTree)
    → assembled le o ≡ some t
    → (rows : List TreeRow) × (o ≡ some rows) × (t ≡ assemble (sort_rows le rows))
assembled-some le none t h = cc
assembled-some le (some rows) t h = (rows, refl, sym (some-injective h))

-- As soon as one part of the active version has a parent, the tree shows no part without a parent: the
-- topmost part of the bill is missing.
pub get_bom_tree-HasParent :
    (le : String → String → Bool) (versions : List BomVersion) (parts : List PartRow)
    (items : List BomItem) (product : ℕ) (v : BomVersion) (t : BomTree)
    → find (active_version product) versions ≡ some v
    → any (is_child_part items v.bom_version_id) parts ≡ true
    → get_bom_tree le versions parts items product ≡ some t
    → AllNodes HasParent t
unfolding get_bom_tree
get_bom_tree-HasParent le versions parts items product v t e child h =
    let bv = v.bom_version_id in
    let sel = keep (is_child_part items bv) parts in
    let (rows, k, eq) = assembled-some le (bom_rows parts items bv) t (rw (e, get_bom_tree) at h) in
    subst (AllNodes HasParent) (sym eq) (
      assemble-AllNodes HasParent (sort_rows le rows) (
        sort_rows-All HasParent le rows (
          tree_rows-HasParent 6 parts (anchor_rows items bv sel parts) rows
            (anchor_rows-HasParent items bv sel parts
              (any-keep (is_child_part items bv) parts child))
            k)))
