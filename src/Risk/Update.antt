-- ===== src/Risk/Update.antt =====
-- The table of profiles under `calculate_risk_score`.
use project_main.Prelude.{
  ℕ, ◌≡◌, refl, true, none, some, List, [], ◌∷◌, ◌++◌, ◌↔◌, ◌≢◌, arith, All, All-append,
  if◌then◌else◌, Error, subst, ◌∙◌, >>=-eq-ok, ok-injective, or_else, ok, err, http, find,
  update_where, ◌==◌,
}
use project_main.Prelude.Int.{ℤ, pos, ◌+ℤ◌, ◌≤ℤ◌, +ℤ_zero_left}
use project_main.Risk.{
  RiskProfile, update_risk_profile_state, Violation, new_profile, RiskDb, RiskResult, of_supplier,
  get_by_supplier_id, create_profile, get_or_create, score_profile, calculate_risk_score,
}
use project_main.Risk.Score.{
  IsConsistent, new_profile-IsConsistent, clamp, update-IsConsistent, update_escalates,
  total_points, tally-eq,
}

All-update_where :
    (P : RiskProfile → Type 0) (s : ℕ) (u : RiskProfile) (ps : List RiskProfile)
    → P u
    → All P ps
    → All P (update_where (of_supplier s) (λ _. u) ps)
All-update_where P s u [] h k = tt
All-update_where P s u (p ∷ ps) h k = (ground arith, All-update_where P s u ps h k.1)

find-update_where :
    (s t : ℕ) (u : RiskProfile) (ps : List RiskProfile)
    → u.supplier_id ≡ s
    → t ≢ s
    → find (of_supplier t) (update_where (of_supplier s) (λ _. u) ps) ≡ find (of_supplier t) ps
find-update_where s t u [] e h = refl
find-update_where s t u (p ∷ ps) e h = ground (arith, find-update_where s t u ps e h)

find-append_other :
    (t : ℕ) (u : RiskProfile) (ps : List RiskProfile)
    → t ≢ u.supplier_id
    → find (of_supplier t) (ps ++ u ∷ []) ≡ find (of_supplier t) ps
find-append_other t u [] h = ground arith
find-append_other t u (p ∷ ps) h = ground (arith, find-append_other t u ps h)

find-of_supplier :
    (s : ℕ) (p : RiskProfile) (ps : List RiskProfile)
    → find (of_supplier s) ps ≡ some p
    → p.supplier_id ≡ s
find-of_supplier s p [] h = cc
find-of_supplier s p (q ∷ ps) h = ground (arith, find-of_supplier s p ps)

-- The profile that a call works on: the stored one, or a new one of a known supplier.
get_or_create-supplier :
    (db db' : RiskDb) (s : ℕ) (p : RiskProfile)
    → get_or_create db s ≡ ok (p, db')
    → p.supplier_id ≡ s
unfolding get_or_create get_by_supplier_id create_profile new_profile
get_or_create-supplier db db' s p h = ground (arith, find-of_supplier s p db.profiles)

get_or_create-others :
    (db db' : RiskDb) (s t : ℕ) (p : RiskProfile)
    → get_or_create db s ≡ ok (p, db')
    → t ≢ s
    → get_by_supplier_id db' t ≡ get_by_supplier_id db t
unfolding get_or_create get_by_supplier_id create_profile new_profile
get_or_create-others db db' s t p h ne =
    ground (arith, find-append_other t (new_profile s) db.profiles)

get_or_create-IsConsistent :
    (db db' : RiskDb) (s : ℕ) (p : RiskProfile)
    → get_or_create db s ≡ ok (p, db')
    → All IsConsistent db.profiles
    → All IsConsistent db'.profiles
unfolding get_or_create get_by_supplier_id create_profile new_profile
get_or_create-IsConsistent db db' s p h k = ground (
  arith,
  All-append IsConsistent db.profiles (new_profile s ∷ []) k (new_profile-IsConsistent s, tt),
)

-- What the call computes once the profile is at hand.
calculate-ok :
    (db : RiskDb) (batch s : ℕ) (vs : List Violation) (out : RiskResult × RiskDb)
    → calculate_risk_score db batch s vs ≡ ok out
    → (found : RiskProfile × RiskDb) × (get_or_create db s ≡ ok found)
      × (score_profile found.0 found.1 batch vs ≡ out)
unfolding calculate_risk_score
calculate-ok db batch s vs out h =
    let (found, e, k) = >>=-eq-ok (get_or_create db s) _ h in (found, e, ok-injective k)

-- Scoring keeps every stored profile consistent.
pub calculate_risk_score-IsConsistent :
    (db : RiskDb) (batch s : ℕ) (vs : List Violation) (out : RiskResult × RiskDb)
    → All IsConsistent db.profiles
    → calculate_risk_score db batch s vs ≡ ok out
    → All IsConsistent out.1.profiles
unfolding score_profile
calculate_risk_score-IsConsistent db batch s vs out k h =
    let ((p, mid), e, eq) = calculate-ok db batch s vs out h in
    subst (λ (o : RiskResult × RiskDb). All IsConsistent o.1.profiles) eq
      (All-update_where IsConsistent p.supplier_id _ mid.profiles (update-IsConsistent p _ _)
        (get_or_create-IsConsistent db mid s p e k))

-- Scoring one supplier leaves the profile of every other supplier as it was.
pub calculate_risk_score_others :
    (db : RiskDb) (batch s t : ℕ) (vs : List Violation) (out : RiskResult × RiskDb)
    → calculate_risk_score db batch s vs ≡ ok out
    → t ≢ s
    → get_by_supplier_id out.1 t ≡ get_by_supplier_id db t
unfolding get_by_supplier_id score_profile update_risk_profile_state
calculate_risk_score_others db batch s t vs out h ne =
    let ((p, mid), e, eq) = calculate-ok db batch s vs out h in
    let same = get_or_create-supplier db mid s p e in
    subst
      (λ (o : RiskResult × RiskDb).
        find (of_supplier t) o.1.profiles ≡ find (of_supplier t) db.profiles)
      eq
      (find-update_where p.supplier_id t _ mid.profiles refl (λ q. ne (q ∙ same))
        ∙ get_or_create-others db mid s t p e ne)

-- The score that a supplier had before the call; none counts as 0.
abbrev pub score_before : RiskDb → ℕ → ℤ
score_before db s = elim (get_by_supplier_id db s) [
  | none ↦ pos 0
  | some p ↦ or_else p.overall_risk_score (pos 0)
]

score_before-found :
    (db mid : RiskDb) (s : ℕ) (p : RiskProfile)
    → get_or_create db s ≡ ok (p, mid)
    → (score_before db s ≡ or_else p.overall_risk_score (pos 0)) × (mid.escalated ≡ db.escalated)
unfolding get_or_create create_profile new_profile
score_before-found db mid s p h = ground arith

-- What scoring a profile returns.
score_profile_adds :
    (p : RiskProfile) (db : RiskDb) (batch : ℕ) (vs : List Violation)
    → let (r, db') = score_profile p db batch vs in
      let sum = or_else p.overall_risk_score (pos 0) +ℤ total_points vs in
      (r.overall_risk_score ≡ some (clamp sum))
      × ((r.is_escalated ≡ true) ↔ (pos 70 ≤ℤ sum))
      × (db'.escalated ≡ (if r.is_escalated then db.escalated ++ batch ∷ [] else db.escalated))
unfolding score_profile
score_profile_adds p db batch vs =
    rw (tally-eq vs (pos 0) (or_else p.high_risk_reasons []), +ℤ_zero_left (total_points vs))
      (unfold update_risk_profile_state in refl, update_escalates p _ _, refl)

-- What `calculate_risk_score_adds` says of one outcome.
abbrev pub Adds : RiskDb → ℕ → ℕ → List Violation → RiskResult × RiskDb → Type 0
Adds db batch s vs (r, db') =
    (r.overall_risk_score ≡ some (clamp (score_before db s +ℤ total_points vs)))
    × ((r.is_escalated ≡ true) ↔ (pos 70 ≤ℤ score_before db s +ℤ total_points vs))
    × (db'.escalated ≡ (if r.is_escalated then db.escalated ++ batch ∷ [] else db.escalated))

score_found-Adds :
    (db mid : RiskDb) (batch s : ℕ) (vs : List Violation) (p : RiskProfile)
    → get_or_create db s ≡ ok (p, mid)
    → Adds db batch s vs (score_profile p mid batch vs)
score_found-Adds db mid batch s vs p e =
    let (same_score, same_events) = score_before-found db mid s p e in
    rw (same_score, ← same_events) (score_profile_adds p mid batch vs)

-- The score returned is the old score and all points, cut to the range from 0 to 100; the
-- call escalates, and publishes one event for its batch, exactly when the uncut sum is 70 or more.
pub calculate_risk_score-Adds :
    (db : RiskDb) (batch s : ℕ) (vs : List Violation) (out : RiskResult × RiskDb)
    → calculate_risk_score db batch s vs ≡ ok out
    → Adds db batch s vs out
calculate_risk_score-Adds db batch s vs out h =
    let (found, e, eq) = calculate-ok db batch s vs out h in
    subst (Adds db batch s vs) eq (score_found-Adds db found.1 batch s vs found.0 e)

-- The call raises only the 404, and does so exactly when the supplier has no profile and is not in
-- the table of suppliers.
pub calculate_risk_score-eq-err :
    (db : RiskDb) (batch s : ℕ) (vs : List Violation) (e : Error)
    → (calculate_risk_score db batch s vs ≡ err e) ↔ (
        (e ≡ http 404)
        × (get_by_supplier_id db s ≡ none)
        × (find (λ k. s == k) db.suppliers ≡ none))
unfolding calculate_risk_score get_or_create create_profile
calculate_risk_score-eq-err db batch s vs e = ground arith
