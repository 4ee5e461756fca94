-- ===== src/Supplier/Status.antt =====
-- A supplier's status and risk level (backend/domains/supplier/state_machine.py: verify_supplier;
-- service.py: upsert_risk_score), and the profile that backend/domains/risk keeps of it.
use project_main.Prelude.{
  ℕ, ◌≡◌, refl, Bool, true, false, not, some, List, [], ◌∷◌, ◌++◌, arith, if◌then◌else◌, ok,
  value_error, raise_if-eq-ok, >>=-eq-ok, ok-injective, err-ne-ok, find, any, update_where,
  Option-cases, inl, inr, subst, sym, ap, ◌∙◌, In, false-ne-true,
}
use project_main.Prelude.Int.{ℤ, pos, ◌≤ℤ◌, min_ℤ, max_ℤ}
use project_main.Risk.{RiskProfile, calculate_risk_level, is_high_risk}
use project_main.Risk.Score.{IsConsistent}
use project_main.Supplier.{
  SupplierStatus, supplier_review, supplier_verified, supplier_pending, supplier_requested,
  supplier_in_progress, supplier_violation, supplier_suspended, SupplierRecord, SupplierDb,
  supplier_status_changed, is_supplier, can_move, transition_supplier_status, verify_supplier,
  score_to_risk_level, of_supplier, upsert_risk_profile, upsert_risk_score,
}

verified_from :
    (s : SupplierStatus) → not (can_move s supplier_verified) ≡ false → s ≡ supplier_review
unfolding can_move
verified_from supplier_pending h = cc
verified_from supplier_requested h = cc
verified_from supplier_in_progress h = cc
verified_from supplier_review h = refl
verified_from supplier_verified h = cc
verified_from supplier_violation h = cc
verified_from supplier_suspended h = cc

-- A supplier is verified only from review, and the change is published with the status it had.
pub verify_supplier-from :
    (db : SupplierDb) (id : ℕ) (db' : SupplierDb)
    → verify_supplier db (some id) ≡ ok db'
    → (s : SupplierRecord) × (find (is_supplier id) db.suppliers ≡ some s)
      × (s.status ≡ supplier_review)
      × (db'.events
          ≡ db.events
            ++ supplier_status_changed s.supplier_id supplier_review supplier_verified ∷ [])
unfolding verify_supplier transition_supplier_status
verify_supplier-from db id db' h = elim (Option-cases (find (is_supplier id) db.suppliers)) [
  | inl e ↦ absurd (err-ne-ok (rw (e, verify_supplier) at h))
  | inr (s, e) ↦
      let (moved, hm, h1) =
        >>=-eq-ok (transition_supplier_status s supplier_verified) _
          (rw (e, verify_supplier) at h) in
      let (from, _) = raise_if-eq-ok _ value_error _ hm in
      let review = verified_from s.status from in
      (
        s,
        e,
        review,
        subst
            (λ (x : SupplierDb).
              x.events
              ≡ db.events
                ++ supplier_status_changed s.supplier_id supplier_review supplier_verified ∷ [])
            (ok-injective h1)
            (ap (λ st. db.events ++ supplier_status_changed s.supplier_id st supplier_verified ∷ [])
              review),
      )
]

-- The levels of the two domains agree.
pub score_to_risk_level-eq : (z : ℤ) → score_to_risk_level z ≡ calculate_risk_level z
unfolding score_to_risk_level calculate_risk_level
score_to_risk_level-eq z = refl

abbrev pub cut : ℤ → ℤ
cut score = max_ℤ (pos 0) (min_ℤ (pos 100) score)

In-update_where :
    {A : Type 0} (q : A → Bool) (f : A → A) (x : A) (xs : List A)
    → In x xs
    → q x ≡ true
    → In (f x) (update_where q f xs)
In-update_where q f x [] i h = absurd i
In-update_where q f x (y ∷ ys) (inl e) h =
    subst (λ z. In (f x) ((if q z then f z else z) ∷ update_where q f ys)) e (rw h (inl refl))
In-update_where q f x (y ∷ ys) (inr i) h = inr (In-update_where q f x ys i h)

In-any : {A : Type 0} (q : A → Bool) (x : A) (xs : List A) → In x xs → q x ≡ true → any q xs ≡ true
In-any q x [] i h = absurd i
In-any q x (y ∷ ys) (inl e) h = rw (subst (λ z. q z ≡ true) e h) refl
In-any q x (y ∷ ys) (inr i) h = ground (arith, In-any q x ys i h)

abbrev pub rescored : ℤ → RiskProfile → RiskProfile
rescored score p = record p {
  overall_risk_score = some (cut score);
  risk_level = score_to_risk_level (cut score);
}

rescored-stored :
    (db : SupplierDb) (id : ℕ) (score : ℤ) (p : RiskProfile)
    → In p db.profiles
    → of_supplier id p ≡ true
    → In (rescored score p) (upsert_risk_score db id score).profiles
unfolding upsert_risk_score upsert_risk_profile
rescored-stored db id score p i h =
    rw (In-any (of_supplier id) p db.profiles i h)
      (In-update_where (of_supplier id) (rescored score) p db.profiles i h)

high_above : (z : ℤ) → pos 50 ≤ℤ z → is_high_risk (score_to_risk_level (cut z)) ≡ true
unfolding score_to_risk_level min_ℤ max_ℤ
high_above z h = ground arith

-- A score that is written from outside is cut to the range from 0 to 100 with the level that the risk
-- domain gives it; but the flag is not written, so that a profile without the flag becomes
-- inconsistent by a score of 50 or more.
pub upsert_risk_score-flag :
    (db : SupplierDb) (id : ℕ) (score : ℤ) (p : RiskProfile)
    → In p db.profiles
    → of_supplier id p ≡ true
    → p.is_high_risk_flag ≡ false
    → pos 50 ≤ℤ score
    → In (rescored score p) (upsert_risk_score db id score).profiles
      × ((rescored score p).risk_level ≡ calculate_risk_level (cut score))
      × (IsConsistent (rescored score p) → ⊥)
upsert_risk_score-flag db id score p i h flag big = (
  rescored-stored db id score p i h,
  score_to_risk_level-eq (cut score),
  λ c. false-ne-true (sym flag ∙ c.flag ∙ high_above score big),
)
