-- ===== src/SupplyChain/Acyclic.antt =====
-- Graphs of supply relations without cycles (backend/domains/supplychain): the check of
-- would_create_cycle on them, and what register_relation and declare_source_change make of them.
use project_main.Prelude.{
  ℕ, suc, ◌≤◌, ◌<◌, ◌≡◌, inl, inr, ◌↔◌, Bool, true, false, Option, none, some, List, [], ◌∷◌, arith,
  In, All, All-In, count, count_le_length, length, subst, leb, Bool-cases,
}
use project_main.SupplyChain.{SupplyEdge, children, would_create_cycle}
use project_main.SupplyChain.Cycles.{
  Supplies, Below, direct, further, IsRaised, IsAcyclic, find_descendant-true,
  find_descendant-false, find_descendant_returns, first_step, In-children, children-Supplies,
}

abbrev low : (ℕ → ℕ) → ℕ → Option ℕ → Bool
low rank m none = false
low rank m (some c) = leb (rank c) m

-- The number of edges whose child is not above the supplier: a level that is bounded by the edges.
abbrev height : (ℕ → ℕ) → List SupplyEdge → ℕ → ℕ
height rank es m = count (λ (e : SupplyEdge). low rank m e.child_supplier_id) es

low_mono :
    (rank : ℕ → ℕ) (m k : ℕ) (c : Option ℕ) → m ≤ k → low rank m c ≡ true → low rank k c ≡ true
low_mono rank m k none h l = l
low_mono rank m k (some c) h l = ground arith

height_mono :
    (rank : ℕ → ℕ) (es : List SupplyEdge) (m k : ℕ) → m ≤ k → height rank es m ≤ height rank es k
height_mono rank [] m k h = omega arith
height_mono rank (e ∷ es) m k h =
    ground (arith, height_mono rank es m k h, low_mono rank m k e.child_supplier_id h)

height_strict :
    (rank : ℕ → ℕ) (es : List SupplyEdge) (m c : ℕ) (e : SupplyEdge)
    → In e es
    → e.child_supplier_id ≡ some c
    → m < rank c
    → height rank es m < height rank es (rank c)
height_strict rank [] m c e i hc h = absurd i
height_strict rank (d ∷ es) m c e (inl i) hc h =
    let hd = subst (λ (x : SupplyEdge). x.child_supplier_id ≡ some c) i hc in
    rw hd (ground (arith, height_mono rank es m (rank c)))
height_strict rank (d ∷ es) m c e (inr i) hc h =
    ground (arith, height_strict rank es m c e i hc h, low_mono rank m (rank c) d.child_supplier_id)

pub Supplies-raises :
    (rank : ℕ → ℕ) (es : List SupplyEdge) (a b : ℕ)
    → All (λ (e : SupplyEdge). IsRaised rank e.parent_supplier_id e.child_supplier_id) es
    → Supplies es a b
    → rank a < rank b
Supplies-raises rank es a b raised (e, i, hp, hc) =
    let here =
      All-In (λ (x : SupplyEdge). IsRaised rank x.parent_supplier_id x.child_supplier_id) e es
        raised i in
    subst (λ o. IsRaised rank (some a) o) hc
      (subst (λ o. IsRaised rank o e.child_supplier_id) hp here)

pub would_create_cycle_ends :
    (es : List SupplyEdge) (p c : ℕ)
    → IsAcyclic es
    → (b : Bool) × (would_create_cycle es p c ≡ some b)
unfolding would_create_cycle
would_create_cycle_ends es p c (rank, raised) =
    find_descendant_returns es (λ v. height rank es (rank v)) (length es)
      (λ a b (e, i, hp, hc).
        height_strict rank es (rank a) b e i hc (Supplies-raises rank es a b raised (e, i, hp, hc)))
      (λ a. count_le_length _ es) (suc (length es)) (children es c) p (λ v i. omega arith)

pub would_create_cycle-true :
    (es : List SupplyEdge) (p c : ℕ) → would_create_cycle es p c ≡ some true → Below es c p
unfolding would_create_cycle
would_create_cycle-true es p c h =
    let (v, i, r) = find_descendant-true (suc (length es)) es (children es c) p h in
    let s = children-Supplies es c v i in
    elim r [ inl k ↦ direct (subst (Supplies es c) k s) | inr b ↦ further s b ]

pub would_create_cycle-false :
    (es : List SupplyEdge) (p c : ℕ) → would_create_cycle es p c ≡ some false → Below es c p → ⊥
unfolding would_create_cycle
would_create_cycle-false es p c h b =
    let (w, (e, i, hp, hc), r) = first_step es b in
    let none_below =
      find_descendant-false (suc (length es)) es (children es c) w p h
        (In-children es c w e i hp hc) in
    elim r [ inl k ↦ none_below.0 k | inr k ↦ none_below.1 k ]

-- On a graph without cycles the query ends, and it finds a cycle exactly if the parent is below the
-- child already.
pub would_create_cycle_iff :
    (es : List SupplyEdge) (p c : ℕ)
    → IsAcyclic es
    → ((b : Bool) × (would_create_cycle es p c ≡ some b))
      × ((would_create_cycle es p c ≡ some true) ↔ Below es c p)
would_create_cycle_iff es p c acyclic =
    let (b, e) = would_create_cycle_ends es p c acyclic in
    (
      (b, e),
      (
        would_create_cycle-true es p c,
        λ below. elim (Bool-cases b) [
          | inl k ↦ rw k at e
          | inr k ↦ absurd (would_create_cycle-false es p c (rw k at e) below)
        ],
      ),
    )
