-- ===== src/SupplyChain/Cycles.antt =====
-- The check for cycles of backend/domains/supplychain/repository.py (would_create_cycle), and the
-- relations that pass it.
use project_main.Prelude.{
  ℕ, zero, suc, ◌+◌, ◌≤◌, ◌<◌, ◌≡◌, refl, ◌≢◌, ◌⊎◌, inl, inr, Bool, true, false, Option, none, some,
  List, [], ◌∷◌, ◌==◌, ==_iff, arith, In, All, In-append_left, In-append_right, In-append-cases,
  any, some-injective, false-ne-true, true-ne-false, ◌∙◌, sym, subst, Bool-cases,
}
use project_main.SupplyChain.{SupplyEdge, joined, children, next_level, find_descendant}

-- An edge of the table leads from `a` to `b`.
abbrev pub Supplies : List SupplyEdge → ℕ → ℕ → Type 0
Supplies es a b =
    (e : SupplyEdge) × In e es × (e.parent_supplier_id ≡ some a) × (e.child_supplier_id ≡ some b)

-- `b` is reached from `a` along one edge or more.
pub data Below (es : List SupplyEdge) : ℕ → ℕ → Type 0 where
  direct : {a b : ℕ} → Supplies es a b → Below es a b
  further : {a b c : ℕ} → Supplies es a b → Below es b c → Below es a c

-- Levels that an edge leads upwards in.
abbrev pub IsRaised : (ℕ → ℕ) → Option ℕ → Option ℕ → Type 0
IsRaised rank none child = Unit
IsRaised rank (some p) none = Unit
IsRaised rank (some p) (some c) = rank p < rank c

-- The suppliers have levels that every edge raises: no supplier is below itself.
abbrev pub IsAcyclic : List SupplyEdge → Type 0
IsAcyclic es =
    (rank : ℕ → ℕ) × All
      (λ (e : SupplyEdge). IsRaised rank e.parent_supplier_id e.child_supplier_id) es

joined-In :
    (v w : ℕ) (p c : Option ℕ) (rest : List ℕ)
    → In w (joined v p c rest)
    → ((p ≡ some v) × (c ≡ some w)) ⊎ In w rest
joined-In v w none c rest h = inr h
joined-In v w (some p) none rest h = inr h
joined-In v w (some p) (some c) rest h = ground (arith, ==_iff v p)

In-joined_rest : (v w : ℕ) (p c : Option ℕ) (rest : List ℕ) → In w rest → In w (joined v p c rest)
In-joined_rest v w none c rest h = h
In-joined_rest v w (some p) none rest h = h
In-joined_rest v w (some p) (some c) rest h = ground arith

In-joined :
    (v w : ℕ) (p c : Option ℕ) (rest : List ℕ) → p ≡ some v → c ≡ some w → In w (joined v p c rest)
In-joined v w none c rest hp hc = cc
In-joined v w (some p) none rest hp hc = cc
In-joined v w (some p) (some c) rest hp hc =
    ground (arith, ==_iff v p, some-injective hp, some-injective hc)

pub children-Supplies : (es : List SupplyEdge) (v w : ℕ) → In w (children es v) → Supplies es v w
unfolding children
children-Supplies [] v w h = absurd h
children-Supplies (e ∷ es) v w h =
    elim (joined-In v w e.parent_supplier_id e.child_supplier_id (children es v) h) [
      | inl (hp, hc) ↦ (e, inl refl, hp, hc)
      | inr k ↦ let (e', i, hp, hc) = children-Supplies es v w k in (e', inr i, hp, hc)
    ]

pub In-children :
    (es : List SupplyEdge) (v w : ℕ) (e : SupplyEdge)
    → In e es
    → e.parent_supplier_id ≡ some v
    → e.child_supplier_id ≡ some w
    → In w (children es v)
unfolding children
In-children [] v w e i hp hc = absurd i
In-children (d ∷ es) v w e (inl i) hp hc =
    In-joined v w d.parent_supplier_id d.child_supplier_id (children es v)
      (subst (λ (x : SupplyEdge). x.parent_supplier_id ≡ some v) i hp)
      (subst (λ (x : SupplyEdge). x.child_supplier_id ≡ some w) i hc)
In-children (d ∷ es) v w e (inr i) hp hc =
    In-joined_rest v w d.parent_supplier_id d.child_supplier_id (children es v)
      (In-children es v w e i hp hc)

pub next_level-Supplies :
    (es : List SupplyEdge) (vs : List ℕ) (w : ℕ)
    → In w (next_level es vs)
    → (v : ℕ) × In v vs × Supplies es v w
unfolding next_level
next_level-Supplies es [] w h = absurd h
next_level-Supplies es (v ∷ vs) w h =
    elim (In-append-cases w (children es v) (next_level es vs) h) [
      | inl k ↦ (v, inl refl, children-Supplies es v w k)
      | inr k ↦ let (u, i, s) = next_level-Supplies es vs w k in (u, inr i, s)
    ]

pub Supplies-next_level :
    (es : List SupplyEdge) (vs : List ℕ) (v w : ℕ)
    → In v vs
    → Supplies es v w
    → In w (next_level es vs)
unfolding next_level
Supplies-next_level es [] v w i s = absurd i
Supplies-next_level es (u ∷ vs) v w (inl i) (e, m, hp, hc) =
    In-append_left w (children es u) (next_level es vs)
      (In-children es u w e m (subst (λ x. e.parent_supplier_id ≡ some x) i hp) hc)
Supplies-next_level es (u ∷ vs) v w (inr i) s =
    In-append_right w (children es u) (next_level es vs) (Supplies-next_level es vs v w i s)

any-In : (t : ℕ) (vs : List ℕ) → any (λ w. t == w) vs ≡ true → In t vs
any-In t [] h = cc
any-In t (v ∷ vs) h = ground (arith, any-In t vs, ==_iff t v)

In-any : (t : ℕ) (vs : List ℕ) → In t vs → any (λ w. t == w) vs ≡ true
In-any t [] h = absurd h
In-any t (v ∷ vs) (inl e) = ground (arith, ==_iff t v)
In-any t (v ∷ vs) (inr h) = ground (arith, In-any t vs h)

pub first_step :
    (es : List SupplyEdge) {v t : ℕ}
    → Below es v t
    → (w : ℕ) × Supplies es v w × ((w ≡ t) ⊎ Below es w t)
first_step es (direct s) = (_, s, inl refl)
first_step es (further s b) = (_, s, inr b)

-- What a search that finds its target has found, and what one that ends without it has excluded.
pub find_descendant-true :
    (n : ℕ) (es : List SupplyEdge) (vs : List ℕ) (t : ℕ)
    → find_descendant n es vs t ≡ some true
    → (v : ℕ) × In v vs × ((v ≡ t) ⊎ Below es v t)
unfolding find_descendant
find_descendant-true n es [] t h = cc
find_descendant-true zero es (v ∷ vs) t h = cc
find_descendant-true (suc n) es (v ∷ vs) t h = elim (Bool-cases (any (λ w. t == w) (v ∷ vs))) [
  | inl e ↦ (t, any-In t (v ∷ vs) e, inl refl)
  | inr e ↦
      let (w, i, r) = find_descendant-true n es (next_level es (v ∷ vs)) t (rw e at h) in
      let (u, m, s) = next_level-Supplies es (v ∷ vs) w i in
      (u, m, inr (elim r [ inl k ↦ direct (subst (Supplies es u) k s) | inr k ↦ further s k ]))
]

pub find_descendant-false :
    (n : ℕ) (es : List SupplyEdge) (vs : List ℕ) (v t : ℕ)
    → find_descendant n es vs t ≡ some false
    → In v vs
    → (v ≢ t) × (Below es v t → ⊥)
unfolding find_descendant
find_descendant-false n es [] v t h i = absurd i
find_descendant-false zero es (u ∷ vs) v t h i = cc
find_descendant-false (suc n) es (u ∷ vs) v t h i = elim (Bool-cases (any (λ w. t == w) (u ∷ vs))) [
  | inl e ↦ absurd (true-ne-false (some-injective (rw e at h)))
  | inr e ↦ (
    (λ k. false-ne-true (sym e ∙ In-any t (u ∷ vs) (subst (λ x. In x (u ∷ vs)) k i))),
    λ b.
        let (w, s, r) = first_step es b in
        let below =
          find_descendant-false n es (next_level es (u ∷ vs)) w t (rw e at h)
            (Supplies-next_level es (u ∷ vs) v w i s) in
        elim r [ inl k ↦ below.0 k | inr k ↦ below.1 k ],
  )
]

-- A search ends where every edge leads to a greater height, and heights are bounded.
module _ (es : List SupplyEdge) (height : ℕ → ℕ) (bound : ℕ)
    (raises : (a b : ℕ) → Supplies es a b → height a < height b)
    (bounded : (a : ℕ) → height a ≤ bound) where
  pub find_descendant_returns :
      (n : ℕ) (vs : List ℕ) (t : ℕ)
      → ((v : ℕ) → In v vs → bound < height v + n)
      → (b : Bool) × (find_descendant n es vs t ≡ some b)
  unfolding find_descendant
  find_descendant_returns n [] t deep = (false, refl)
  find_descendant_returns zero (v ∷ vs) t deep =
      absurd (omega (arith, deep v (inl refl), bounded v))
  find_descendant_returns (suc n) (v ∷ vs) t deep =
      let (b, e) = find_descendant_returns n (next_level es (v ∷ vs)) t λ w i.
        let (u, m, s) = next_level-Supplies es (v ∷ vs) w i in
        omega (arith, deep u m, raises u w s) in
      elim (Bool-cases (any (λ w. t == w) (v ∷ vs))) [
        | inl k ↦ (true, rw k refl)
        | inr k ↦ (b, rw k e)
      ]
