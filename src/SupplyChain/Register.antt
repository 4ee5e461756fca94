-- ===== src/SupplyChain/Register.antt =====
-- Relations that are written to the supply chain (backend/domains/supplychain/service.py:
-- register_relation, declare_source_change), and cycles.
use project_main.Prelude.{
  ℕ, suc, ◌+◌, ◌<◌, ◌≡◌, refl, ◌≢◌, ◌⊎◌, inl, inr, Bool, true, false, Option, none, some, List, [],
  ◌∷◌, ◌++◌, ◌==◌, ◌||◌, ==_iff, arith, In, In-append_right, All-tabulate, All-append,
  some-injective, true-ne-false, ◌∙◌, sym, subst, ap, Bool-cases, Option-cases, none-ne-some, ◌>>=◌,
  if◌then◌else◌, String, ok, value_error, >>=-eq-ok, raise_if-eq-ok, ok-injective, err-ne-ok, find,
  integrity_error,
}
use project_main.SupplyChain.{
  SupplyEdge, SupplyDb, BomVersionRow, MapHeader, would_create_cycle, ensure_map_header,
  insert_edge, create_supply_relation, declare_new_source, cycle_guard, relation_guard,
  register_relation, declare_source_change,
}
use project_main.SupplyChain.Cycles.{Supplies, Below, direct, further, IsRaised, IsAcyclic}
use project_main.SupplyChain.Acyclic.{
  Supplies-raises, would_create_cycle_ends, would_create_cycle-true, would_create_cycle-false,
}

IsRaised-intro :
    (rank : ℕ → ℕ) (p c : Option ℕ)
    → ((a b : ℕ) → p ≡ some a → c ≡ some b → rank a < rank b)
    → IsRaised rank p c
IsRaised-intro rank none c k = tt
IsRaised-intro rank (some p) none k = tt
IsRaised-intro rank (some p) (some c) k = k p c refl refl

Below-snoc : (es : List SupplyEdge) {a b c : ℕ} → Below es a b → Supplies es b c → Below es a c
Below-snoc es (direct s) t = further s (direct t)
Below-snoc es (further s b) t = further s (Below-snoc es b t)

abbrev is_yes : Option Bool → Bool
is_yes none = false
is_yes (some b) = b

is_yes-true : (o : Option Bool) → is_yes o ≡ true → o ≡ some true
is_yes-true none h = cc
is_yes-true (some b) h = ap some h

-- The suppliers that a new edge into `c` lifts: `c` and all below it.
module _ (es : List SupplyEdge) (c : ℕ) (acyclic : IsAcyclic es) where
  abbrev lifted : ℕ → Bool
  lifted v = (c == v) || is_yes (would_create_cycle es v c)

  lifted-Below : (v : ℕ) → lifted v ≡ true → (c ≡ v) ⊎ Below es c v
  lifted-Below v h = elim (Bool-cases (c == v)) [
    | inl e ↦ inl ((==_iff c v).0 e)
    | inr e ↦ inr (would_create_cycle-true es v c (is_yes-true _ (rw e at h)))
  ]

  Below-lifted : (v : ℕ) → Below es c v → lifted v ≡ true
  Below-lifted v b =
      let (found, e) = would_create_cycle_ends es v c acyclic in
      elim (Bool-cases found) [
        | inl k ↦ rw e (rw k (ground arith))
        | inr k ↦ absurd (would_create_cycle-false es v c (rw k at e) b)
      ]

  lifted_step : (a b : ℕ) → Supplies es a b → lifted a ≡ true → lifted b ≡ true
  lifted_step a b s h = elim (lifted-Below a h) [
    | inl e ↦ Below-lifted b (direct (subst (λ x. Supplies es x b) (sym e) s))
    | inr below ↦ Below-lifted b (Below-snoc es below s)
  ]

  -- Lifting keeps every edge raised.
  lift-raises :
      (rank : ℕ → ℕ) (k a b : ℕ)
      → Supplies es a b
      → rank a < rank b
      → (if lifted a then rank a + k else rank a) < (if lifted b then rank b + k else rank b)
  lift-raises rank k a b s h = elim (Bool-cases (lifted a)) [
    | inl e ↦ rw e (rw (lifted_step a b s e) (omega arith))
    | inr e ↦ rw e (elim (Bool-cases (lifted b)) [ inl i ↦ rw i (omega arith) | inr i ↦ rw i h ])
  ]

  abbrev rank_after : ℕ → ℕ → ℕ
  rank_after k v = if lifted v then acyclic.0 v + k else acyclic.0 v

  rank_after-raises : (k a b : ℕ) → Supplies es a b → rank_after k a < rank_after k b
  rank_after-raises k a b s =
      lift-raises acyclic.0 k a b s (Supplies-raises acyclic.0 es a b acyclic.1 s)

  -- A new edge from a supplier that is not lifted is raised, too.
  rank_after-crosses :
      (p : ℕ)
      → p ≢ c
      → (Below es c p → ⊥)
      → rank_after (suc (acyclic.0 p)) p < rank_after (suc (acyclic.0 p)) c
  rank_after-crosses p apart unreached = elim (Bool-cases (lifted p)) [
    | inl h ↦ elim (lifted-Below p h) [
      | inl k ↦ absurd (apart (sym k))
      | inr b ↦ absurd (unreached b)
    ]
    | inr h ↦ rw h (rw ((==_iff c c).1 refl) (omega arith))
  ]

add_edge-IsAcyclic :
    (es : List SupplyEdge) (p c : ℕ) (e : SupplyEdge)
    → IsAcyclic es
    → e.parent_supplier_id ≡ some p
    → e.child_supplier_id ≡ some c
    → p ≢ c
    → (Below es c p → ⊥)
    → IsAcyclic (es ++ e ∷ [])
add_edge-IsAcyclic es p c e acyclic hp hc apart unreached =
    let rank = rank_after es c acyclic (suc (acyclic.0 p)) in
    let old =
      All-tabulate (λ (d : SupplyEdge). IsRaised rank d.parent_supplier_id d.child_supplier_id) es
        (λ d i.
          IsRaised-intro rank _ _
            (λ a b ha hb. rank_after-raises es c acyclic (suc (acyclic.0 p)) a b (d, i, ha, hb))) in
    let crossed = rank_after-crosses es c acyclic p apart unreached in
    let new = IsRaised-intro rank e.parent_supplier_id e.child_supplier_id (λ a b ha hb.
      subst (λ x. rank x < rank b) (some-injective (sym hp ∙ ha))
        (subst (λ x. rank p < rank x) (some-injective (sym hc ∙ hb)) crossed)) in
    (rank, All-append _ es (e ∷ []) old (new, tt))

add_root-IsAcyclic :
    (es : List SupplyEdge) (e : SupplyEdge)
    → IsAcyclic es
    → e.parent_supplier_id ≡ none
    → IsAcyclic (es ++ e ∷ [])
add_root-IsAcyclic es e (rank, raised) hp = (
  rank,
  All-append _ es (e ∷ []) raised (
    IsRaised-intro rank e.parent_supplier_id e.child_supplier_id
        (λ a b h k. absurd (none-ne-some (sym hp ∙ h))),
    tt,
  ),
)

-- The edge that an insertion has appended.
abbrev pub Inserted : SupplyDb → Option ℕ → ℕ → SupplyEdge × SupplyDb → Type 0
Inserted db parent child (e, db') =
    (db'.edges ≡ db.edges ++ e ∷ [])
    × (e.parent_supplier_id ≡ parent)
    × (e.child_supplier_id ≡ some child)

ensure_map_header-edges :
    (db : SupplyDb) (bv : ℕ) (out : ℕ × SupplyDb)
    → ensure_map_header db bv ≡ ok out
    → out.1.edges ≡ db.edges
unfolding ensure_map_header
ensure_map_header-edges db bv out h =
    elim (Option-cases (find (λ (v : BomVersionRow). bv == v.bom_version_id) db.bom_versions)) [
      | inl e ↦ absurd (err-ne-ok (rw (e, ensure_map_header) at h))
      | inr (version, e) ↦
          elim (Option-cases (find (λ (m : MapHeader). bv == m.bom_version_id) db.maps)) [
            | inl k ↦
                subst (λ (o : ℕ × SupplyDb). o.1.edges ≡ db.edges)
                  (ok-injective (rw k at (rw (e, ensure_map_header) at h))) refl
            | inr (m, k) ↦
                subst (λ (o : ℕ × SupplyDb). o.1.edges ≡ db.edges)
                  (ok-injective (rw k at (rw (e, ensure_map_header) at h))) refl
          ]
    ]

insert_edge-eq :
    (db : SupplyDb) (e : SupplyEdge) (out : SupplyEdge × SupplyDb)
    → insert_edge db e ≡ ok out
    → (e, record db { edges = db.edges ++ e ∷ []; next_id = db.next_id + 1 }) ≡ out
unfolding insert_edge
insert_edge-eq db e out h = ok-injective (raise_if-eq-ok _ integrity_error _ h).1

insert_edge-Inserted :
    (db : SupplyDb) (bv : ℕ) (parent : Option ℕ) (child : ℕ) (row : ℕ × SupplyDb → SupplyEdge)
    (out : SupplyEdge × SupplyDb)
    → ((s : ℕ × SupplyDb) → (row s).parent_supplier_id ≡ parent)
    → ((s : ℕ × SupplyDb) → (row s).child_supplier_id ≡ some child)
    → (ensure_map_header db bv >>= λ s. insert_edge s.1 (row s)) ≡ ok out
    → Inserted db parent child out
insert_edge-Inserted db bv parent child row out hp hc h =
    let (s, hs, hi) = >>=-eq-ok (ensure_map_header db bv) (λ s. insert_edge s.1 (row s)) h in
    subst (Inserted db parent child) (insert_edge-eq s.1 (row s) out hi)
      (ap (λ es. es ++ row s ∷ []) (ensure_map_header-edges db bv s hs), hp s, hc s)

create_supply_relation-Inserted :
    (db : SupplyDb) (bv : ℕ) (parent : Option ℕ) (child part : ℕ) (via : Option ℕ)
    (out : SupplyEdge × SupplyDb)
    → create_supply_relation db bv parent child part via ≡ ok out
    → Inserted db parent child out
unfolding create_supply_relation
create_supply_relation-Inserted db bv parent child part via out h =
    insert_edge-Inserted db bv parent child _ out (λ s. refl) (λ s. refl) h

declare_new_source-Inserted :
    (db : SupplyDb) (bv parent child part : ℕ) (out : SupplyEdge × SupplyDb)
    → declare_new_source db bv parent child part ≡ ok out
    → Inserted db (some parent) child out
unfolding declare_new_source
declare_new_source-Inserted db bv parent child part out h =
    insert_edge-Inserted db bv (some parent) child _ out (λ s. refl) (λ s. refl) h

cycle_guard-passed :
    (es : List SupplyEdge) (p c : ℕ) → cycle_guard es p c ≡ ok tt → Below es c p → ⊥
unfolding cycle_guard
cycle_guard-passed es p c h b = elim (Option-cases (would_create_cycle es p c)) [
  | inl e ↦ absurd (err-ne-ok (rw (e, cycle_guard) at h))
  | inr (true, e) ↦ absurd (err-ne-ok (rw (e, cycle_guard) at h))
  | inr (false, e) ↦ would_create_cycle-false es p c e b
]

Inserted-IsAcyclic :
    (db : SupplyDb) (p c : ℕ) (out : SupplyEdge × SupplyDb)
    → IsAcyclic db.edges
    → p ≢ c
    → cycle_guard db.edges p c ≡ ok tt
    → Inserted db (some p) c out
    → IsAcyclic out.1.edges
Inserted-IsAcyclic db p c out acyclic apart guard (grown, hp, hc) = subst IsAcyclic (sym grown) (
    add_edge-IsAcyclic db.edges p c out.0 acyclic hp hc apart
      (cycle_guard-passed db.edges p c guard))

-- A relation that is registered in a graph without cycles leaves it without cycles.
pub register_relation-IsAcyclic :
    (db : SupplyDb) (bv : ℕ) (parent : Option ℕ) (child part : ℕ) (out : SupplyEdge × SupplyDb)
    → IsAcyclic db.edges
    → register_relation db bv parent child part ≡ ok out
    → IsAcyclic out.1.edges
unfolding register_relation relation_guard
register_relation-IsAcyclic db bv none child part out acyclic h =
    let (grown, hp, hc) = create_supply_relation-Inserted db bv none child part none out h in
    subst IsAcyclic (sym grown) (add_root-IsAcyclic db.edges out.0 acyclic hp)
register_relation-IsAcyclic db bv (some p) child part out acyclic h =
    let (_, guarded, created) = >>=-eq-ok (relation_guard db.edges (some p) child) _ h in
    let (apart, acyclic_guard) = raise_if-eq-ok (p == child) value_error _ guarded in
    Inserted-IsAcyclic db p child out acyclic
      (λ e. true-ne-false (sym ((==_iff p child).1 e) ∙ apart)) acyclic_guard
      (create_supply_relation-Inserted db bv (some p) child part none out created)

declared-Inserted :
    (db : SupplyDb) (bv p c part : ℕ) (reason : String) (out : SupplyEdge × SupplyDb)
    → declare_source_change db bv p c part reason ≡ ok out
    → (cycle_guard db.edges p c ≡ ok tt) × Inserted db (some p) c out
unfolding declare_source_change
declared-Inserted db bv p c part reason out h =
    let (_, guard, written) = >>=-eq-ok (cycle_guard db.edges p c) _ h in
    let (mid, done, e) = >>=-eq-ok (declare_new_source db bv p c part) _ written in
    (
      guard,
      subst (Inserted db (some p) c) (ok-injective e)
          (declare_new_source-Inserted db bv p c part mid done),
    )

-- A change of source to another supplier leaves a graph without cycles as such.
pub declare_source_change-IsAcyclic :
    (db : SupplyDb) (bv p c part : ℕ) (reason : String) (out : SupplyEdge × SupplyDb)
    → IsAcyclic db.edges
    → p ≢ c
    → declare_source_change db bv p c part reason ≡ ok out
    → IsAcyclic out.1.edges
declare_source_change-IsAcyclic db bv p c part reason out acyclic apart h =
    let (guard, inserted) = declared-Inserted db bv p c part reason out h in
    Inserted-IsAcyclic db p c out acyclic apart guard inserted

-- A change of source from a supplier to itself passes the check for cycles, and makes one.
pub declare_source_change_self :
    (db : SupplyDb) (bv s part : ℕ) (reason : String) (out : SupplyEdge × SupplyDb)
    → IsAcyclic db.edges
    → declare_source_change db bv s s part reason ≡ ok out
    → (would_create_cycle db.edges s s ≡ some false) × Below out.1.edges s s
declare_source_change_self db bv s part reason out acyclic h =
    let (guard, inserted) = declared-Inserted db bv s s part reason out h in
    let (grown, hp, hc) = inserted in
    let (b, e) = would_create_cycle_ends db.edges s s acyclic in
    (
      elim (Bool-cases b) [
        | inl k ↦ absurd (
            cycle_guard-passed db.edges s s guard
              (would_create_cycle-true db.edges s s (rw k at e)))
        | inr k ↦ rw k at e
      ],
      direct (
        out.0,
        subst (In out.0) (sym grown) (In-append_right out.0 db.edges (out.0 ∷ []) (inl refl)),
        hp,
        hc,
      ),
    )
