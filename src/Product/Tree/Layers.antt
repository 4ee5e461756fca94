-- ===== src/Product/Tree/Layers.antt =====
-- The layers of the tree that backend/domains/product/repository.py (get_bom_tree) returns, and the
-- parts that are missing in it.
use project_main.Prelude.{
  ℕ, zero, suc, ◌+◌, ◌≤◌, ◌<◌, ◌≡◌, refl, String, Bool, some, List, [], ◌∷◌, ◌++◌, ◌==◌, arith, ltb,
  find, keep, All, All-append, Bool-cases, Option-cases, inl, inr, ap,
}
use project_main.Product.{BomVersion}
use project_main.Product.Tree.{
  PartRow, BomItem, TreeRow, equals, item_of, is_child_part, not_in, item_rows, anchor_rows,
  child_rows, next_rows, append_rows, tree_rows, put, put_all, BomTree, not_found, no_items, tree,
  is_root, with_root, assemble, active_version, before, insert_row, sort_rows, assembled,
  get_bom_tree,
}

-- Rows of one layer, within the bound of the query.
abbrev pub AtDepth : ℕ → TreeRow → Type 0
AtDepth d r = (r.depth ≡ d) × (r.depth ≤ 5)

child_rows-AtDepth :
    (d : ℕ) (ps : List PartRow) (r : TreeRow)
    → r.depth ≡ d
    → r.depth < 5
    → All (AtDepth (suc d)) (child_rows ps r)
unfolding child_rows
child_rows-AtDepth d [] r e h = tt
child_rows-AtDepth d (p ∷ ps) r e h = elim (Bool-cases (equals r.part.part_id p.parent_part_id)) [
  | inl k ↦ rw k ((omega (arith, e), omega (arith, h)), child_rows-AtDepth d ps r e h)
  | inr k ↦ rw k (child_rows-AtDepth d ps r e h)
]

next_rows-AtDepth :
    (d : ℕ) (ps : List PartRow) (rs : List TreeRow)
    → All (AtDepth d) rs
    → All (AtDepth (suc d)) (next_rows ps rs)
unfolding next_rows
next_rows-AtDepth d ps [] h = tt
next_rows-AtDepth d ps (r ∷ rs) ((e, bound), h) = elim (Bool-cases (ltb r.depth 5)) [
  | inl k ↦ rw k (
      All-append (AtDepth (suc d)) (child_rows ps r) (next_rows ps rs)
        (child_rows-AtDepth d ps r e (ground (arith, k))) (next_rows-AtDepth d ps rs h))
  | inr k ↦ rw k (next_rows-AtDepth d ps rs h)
]

abbrev pub IsShallow : TreeRow → Type 0
IsShallow r = r.depth ≤ 5

AtDepth-IsShallow : (d : ℕ) (rs : List TreeRow) → All (AtDepth d) rs → All IsShallow rs
AtDepth-IsShallow d [] h = tt
AtDepth-IsShallow d (r ∷ rs) ((e, bound), h) = (bound, AtDepth-IsShallow d rs h)

tree_rows-IsShallow :
    (n d : ℕ) (ps : List PartRow) (rs : List TreeRow)
    → n + d ≡ 6
    → All (AtDepth d) rs
    → (out : List TreeRow) × (tree_rows n ps rs ≡ some out) × All IsShallow out
unfolding tree_rows
tree_rows-IsShallow n d ps [] sum h = ([], refl, tt)
tree_rows-IsShallow zero d ps (r ∷ rs) sum ((e, bound), h) = absurd (omega (arith, sum, e, bound))
tree_rows-IsShallow (suc n) d ps (r ∷ rs) sum h =
    let (out, e, shallow) =
      tree_rows-IsShallow n (suc d) ps (next_rows ps (r ∷ rs)) (omega (arith, sum))
        (next_rows-AtDepth d ps (r ∷ rs) h) in
    (
      (r ∷ rs) ++ out,
      ap (append_rows (r ∷ rs)) e,
      All-append IsShallow (r ∷ rs) out (AtDepth-IsShallow d (r ∷ rs) h) shallow,
    )

item_rows-AtDepth : (p : PartRow) (items : List BomItem) → All (AtDepth 0) (item_rows p items)
unfolding item_rows
item_rows-AtDepth p [] = tt
item_rows-AtDepth p (i ∷ items) = ((refl, omega arith), item_rows-AtDepth p items)

anchor_rows-AtDepth :
    (items : List BomItem) (bv : ℕ) (sel ps : List PartRow)
    → All (AtDepth 0) (anchor_rows items bv sel ps)
unfolding anchor_rows
anchor_rows-AtDepth items bv sel [] = tt
anchor_rows-AtDepth items bv sel (p ∷ ps) = elim (Bool-cases (not_in p.parent_part_id sel)) [
  | inl k ↦ rw k (
      All-append (AtDepth 0) (item_rows p (keep (item_of bv p.part_id) items))
        (anchor_rows items bv sel ps) (item_rows-AtDepth p (keep (item_of bv p.part_id) items))
        (anchor_rows-AtDepth items bv sel ps))
  | inr k ↦ rw k (anchor_rows-AtDepth items bv sel ps)
]

-- What holds of all rows of the query holds of all nodes of the tree.
module _ (P : TreeRow → Type 0) where
  put-All : (r : TreeRow) (ns : List TreeRow) → P r → All P ns → All P (put r ns)
  unfolding put
  put-All r [] p h = (p, tt)
  put-All r (n ∷ ns) p (q, h) = elim (Bool-cases (r.part.part_id == n.part.part_id)) [
    | inl k ↦ rw k (p, h)
    | inr k ↦ rw k (q, put-All r ns p h)
  ]

  put_all-All : (ns rs : List TreeRow) → All P ns → All P rs → All P (put_all ns rs)
  unfolding put_all
  put_all-All ns [] h k = h
  put_all-All ns (r ∷ rs) h (p, k) = put_all-All (put r ns) rs (put-All r ns p h) k

  insert_row-All :
      (le : String → String → Bool) (r : TreeRow) (ss : List TreeRow)
      → P r
      → All P ss
      → All P (insert_row le r ss)
  unfolding insert_row
  insert_row-All le r [] p h = (p, tt)
  insert_row-All le r (s ∷ ss) p (q, h) = elim (Bool-cases (before le r s)) [
    | inl k ↦ rw k (p, (q, h))
    | inr k ↦ rw k (q, insert_row-All le r ss p h)
  ]

  pub sort_rows-All :
      (le : String → String → Bool) (rs : List TreeRow) → All P rs → All P (sort_rows le rs)
  unfolding sort_rows
  sort_rows-All le [] h = tt
  sort_rows-All le (r ∷ rs) (p, h) = insert_row-All le r (sort_rows le rs) p (sort_rows-All le rs h)

  -- It holds of every node of a tree.
  abbrev pub AllNodes : BomTree → Type 0
  AllNodes not_found = Unit
  AllNodes no_items = Unit
  AllNodes (tree root nodes) = All P nodes

  with_root-AllNodes : (nodes rs : List TreeRow) → All P nodes → AllNodes (with_root nodes rs)
  unfolding with_root
  with_root-AllNodes nodes [] h = tt
  with_root-AllNodes nodes (r ∷ []) h = h
  with_root-AllNodes nodes (r ∷ s ∷ rs) h = h

  pub assemble-AllNodes : (rs : List TreeRow) → All P rs → AllNodes (assemble rs)
  unfolding assemble
  assemble-AllNodes [] h = tt
  assemble-AllNodes (r ∷ rs) h =
      with_root-AllNodes (put_all [] (r ∷ rs)) (keep is_root (put_all [] (r ∷ rs)))
        (put_all-All [] (r ∷ rs) tt h)

-- The query ends on every table of parts, also where parts are their own ancestors, and no node of the
-- tree is deeper than 5.
pub get_bom_tree-IsShallow :
    (le : String → String → Bool) (versions : List BomVersion) (parts : List PartRow)
    (items : List BomItem) (product : ℕ)
    → (t : BomTree) × (get_bom_tree le versions parts items product ≡ some t) × AllNodes IsShallow t
unfolding get_bom_tree
get_bom_tree-IsShallow le versions parts items product =
    elim (Option-cases (find (active_version product) versions)) [
      | inl e ↦ rw (e, get_bom_tree) (not_found, refl, tt)
      | inr (v, e) ↦
          let bv = v.bom_version_id in
          let (out, ends, shallow) =
            tree_rows-IsShallow 6 0 parts
              (anchor_rows items bv (keep (is_child_part items bv) parts) parts) refl
              (anchor_rows-AtDepth items bv (keep (is_child_part items bv) parts) parts) in
          rw (e, get_bom_tree)
            (
              assemble (sort_rows le out),
              ap (assembled le) ends,
              assemble-AllNodes IsShallow (sort_rows le out)
                  (sort_rows-All IsShallow le out shallow),
            )
    ]
