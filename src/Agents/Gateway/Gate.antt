-- ===== src/Agents/Gateway/Gate.antt =====
-- The gate of backend/agents/data_gateway.py: which extraction results let a batch pass.
use project_main.Prelude.{
  ℕ, suc, ◌≤◌, ◌≡◌, refl, ◌≢◌, inl, inr, ◌↔◌, Bool, true, false, ◌||◌, none, some, List, [], ◌∷◌,
  null, min, ap, arith, sym, ◌∙◌, if◌then◌else◌, All, list-cases, Option-cases, some-injective,
}
use project_main.Prelude.Dict.{values}
use project_main.Schema.{low_confidence}
use project_main.Agents.State.{BatchState, full_confidence}
use project_main.Agents.Gateway.{
  ExtractionRow, GatewayQueries, supplier_ids_of, lowest_of, Tally, incomplete, gather, low_conf,
  gathered, data_gateway_node,
}

-- A result that is confirmed by its supplier, complete and confident in every field.
abbrev pub Acceptable : GatewayQueries → ExtractionRow → Type 0
Acceptable q r =
    (r.supplier_confirmed ≡ true)
    × (incomplete q r ≡ false)
    × All (λ c. 8500 ≤ c) (values r.confidence_map)

lowest_of_bound : (m n : ℕ) (cs : List ℕ) → (m ≤ lowest_of n cs) ↔ ((m ≤ n) × All (λ c. m ≤ c) cs)
unfolding lowest_of
lowest_of_bound m n [] = ground arith
lowest_of_bound m n (c ∷ cs) = ground (arith, lowest_of_bound m (min n c) cs)

-- A tally without anything to object to.
abbrev Good : Tally → Type 0
Good t = (8500 ≤ t.lowest) × (t.unconfirmed ≡ 0) × (t.has_missing ≡ false)

low_conf-Good : (q : GatewayQueries) (t : Tally) → (low_conf q t ≡ false) ↔ Good t
low_conf-Good q t = ground arith

abbrev next_tally : GatewayQueries → Tally → ExtractionRow → Tally
next_tally q t r = record {
  lowest = lowest_of t.lowest (values r.confidence_map);
  unconfirmed = if r.supplier_confirmed then t.unconfirmed else suc t.unconfirmed;
  has_missing = t.has_missing || incomplete q r;
}

next_tally-Good :
    (q : GatewayQueries) (t : Tally) (r : ExtractionRow)
    → Good (next_tally q t r) ↔ (Good t × Acceptable q r)
next_tally-Good q t r = ground (arith, lowest_of_bound 8500 t.lowest (values r.confidence_map))

gather-Good :
    (q : GatewayQueries) (rs : List ExtractionRow) (t : Tally)
    → Good (gather q rs t) ↔ (Good t × All (Acceptable q) rs)
unfolding gather
gather-Good q [] t = ground arith
gather-Good q (r ∷ rs) t =
    let rest = gather-Good q rs (next_tally q t r) in
    let step = next_tally-Good q t r in
    (
      λ g. let (n, all) = rest.0 g in let (before, this) = step.0 n in (before, (this, all)),
      λ (before, (this, all)). rest.1 (step.1 (before, this), all),
    )

-- The results that a batch's product has.
abbrev pub results_of : GatewayQueries → ℕ → List ExtractionRow
results_of q product_id = q.extraction_results (supplier_ids_of (q.supply_chain product_id))

not_stopped : (b : Bool) → ((if b then some low_confidence else none) ≡ none) ↔ (b ≡ false)
not_stopped b = ground arith

gathered-passes :
    (q : GatewayQueries) (state : BatchState) (ids : List ℕ) (rs : List ExtractionRow)
    → ((gathered q state ids rs).error_reason ≡ none) ↔ All (Acceptable q) rs
unfolding gathered
gathered-passes q state ids rs =
    let start : Tally = record { lowest = full_confidence; unconfirmed = 0; has_missing = false } in
    let stop = not_stopped (low_conf q (gather q rs start)) in
    let low = low_conf-Good q (gather q rs start) in
    let good = gather-Good q rs start in
    (
      λ h. (good.0 (low.0 (stop.0 h))).1,
      λ all. stop.1 (low.1 (good.1 ((omega arith, refl, refl), all))),
    )

no_product :
    (q : GatewayQueries) (state : BatchState)
    → state.product_id ≡ none
    → (data_gateway_node q state).error_reason ≢ none
unfolding data_gateway_node
no_product q state h = rw (h, data_gateway_node) (λ k. cc)

no_results :
    (q : GatewayQueries) (state : BatchState) (p : ℕ)
    → state.product_id ≡ some p
    → results_of q p ≡ []
    → (data_gateway_node q state).error_reason ≢ none
unfolding data_gateway_node
no_results q state p h e = rw (h, data_gateway_node) (rw e (λ k. cc))

some_results :
    (q : GatewayQueries) (state : BatchState) (p : ℕ)
    → state.product_id ≡ some p
    → null (results_of q p) ≡ false
    → ((data_gateway_node q state).error_reason ≡ none) ↔ All (Acceptable q) (results_of q p)
unfolding data_gateway_node
some_results q state p h e =
    rw (h, data_gateway_node)
      (rw e (gathered-passes q state (supplier_ids_of (q.supply_chain p)) (results_of q p)))

gate :
    (q : GatewayQueries) (state : BatchState) (p : ℕ)
    → state.product_id ≡ some p
    → ((data_gateway_node q state).error_reason ≡ none)
      ↔ ((results_of q p ≢ []) × All (Acceptable q) (results_of q p))
gate q state p h = elim (list-cases (results_of q p)) [
  | inl e ↦ (λ k. absurd (no_results q state p h e k), λ k. absurd (k.0 e))
  | inr (r, rs, e) ↦
      let pass = some_results q state p h (ap null e) in (λ k. (λ n. cc, pass.0 k), λ k. pass.1 k.1)
]

-- A batch passes the gate exactly when its product has extraction results, and every one of them is
-- confirmed by its supplier, has all required fields, and is confident to at least 0.85 in each.
pub data_gateway_node-passes :
    (q : GatewayQueries) (state : BatchState)
    → ((data_gateway_node q state).error_reason ≡ none) ↔ (
        (p : ℕ) × (state.product_id ≡ some p)
        × (results_of q p ≢ [])
        × All (Acceptable q) (results_of q p))
data_gateway_node-passes q state = elim (Option-cases state.product_id) [
  | inl e ↦ (λ h. absurd (no_product q state e h), λ (p, e', _, _). cc)
  | inr (p, e) ↦
      let g = gate q state p e in
      (
        λ h. (p, e, (g.0 h).0, (g.0 h).1),
        λ (p', e', some_found, all).
            let same = some-injective (sym e ∙ e') in g.1 (rw same (some_found, all)),
      )
]
