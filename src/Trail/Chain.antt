-- ===== src/Trail/Chain.antt =====
-- What backend/domains/audit/service.py (verify_chain) finds in a trail that _write_audit has written,
-- and in one that was changed.
use project_main.Prelude.{
  ℕ, suc, ◌≤◌, ◌<◌, ◌≡◌, refl, String, Option, none, some, List, [], ◌∷◌, ◌++◌, arith, ltb,
  Bool-cases, Option-cases, inl, inr, sym, ap, ◌∙◌, some-injective,
}
use project_main.Trail.{AuditTrail, later, greatest_step}

-- Rows numbered from `n` on, each linked to the one before and the first to `p`.
abbrev pub Written : ℕ → Option String → List AuditTrail → Type 0
Written n p [] = Unit
Written n p (r ∷ rs) =
    (r.step_number ≡ n) × (r.prev_hash ≡ p) × Written (suc n) (some r.output_hash) rs

later-last : (r last : AuditTrail) → r.step_number < last.step_number → later r (some last) ≡ last
later-last r last h = elim (Bool-cases (ltb last.step_number r.step_number)) [
  | inl e ↦ absurd (ground (arith, e))
  | inr e ↦ rw e refl
]

greatest_step-above :
    (n : ℕ) (p : Option String) (rs : List AuditTrail) (last : AuditTrail)
    → Written n p rs
    → greatest_step rs ≡ some last
    → n ≤ last.step_number
unfolding greatest_step
greatest_step-above n p [] last w h = cc
greatest_step-above n p (r ∷ rs) last (step, link, w) h = elim (Option-cases (greatest_step rs)) [
  | inl e ↦
      let same = ap (λ (x : AuditTrail). x.step_number) (some-injective (rw e at h)) in
      omega (arith, same, step)
  | inr (l, e) ↦
      let above = greatest_step-above (suc n) (some r.output_hash) rs l w e in
      let same = later-last r l (omega (arith, above, step)) in
      let eq = ap (λ (x : AuditTrail). x.step_number) (sym same ∙ some-injective (rw e at h)) in
      omega (arith, above, eq)
]

-- The number and the link of a row that is appended, with what it has if there is none before.
abbrev pub step_after : ℕ → Option AuditTrail → ℕ
step_after n none = n
step_after n (some last) = suc last.step_number

abbrev pub link_after : Option String → Option AuditTrail → Option String
link_after p none = p
link_after p (some last) = some last.output_hash

pub append-Written :
    (n : ℕ) (p : Option String) (rs : List AuditTrail) (row : AuditTrail)
    → Written n p rs
    → row.step_number ≡ step_after n (greatest_step rs)
    → row.prev_hash ≡ link_after p (greatest_step rs)
    → Written n p (rs ++ row ∷ [])
unfolding greatest_step
append-Written n p [] row w hs hp = (hs, hp, tt)
append-Written n p (r ∷ rs) row (step, link, w) hs hp =
    let next = after in
    (step, link, append-Written (suc n) (some r.output_hash) rs row w (hs ∙ next.0) (hp ∙ next.1))
  where
    after :
        (suc (later r (greatest_step rs)).step_number ≡ step_after (suc n) (greatest_step rs))
        × (some (later r (greatest_step rs)).output_hash
            ≡ link_after (some r.output_hash) (greatest_step rs))
    after = elim (Option-cases (greatest_step rs)) [
      | inl e ↦ rw e (ap suc step, refl)
      | inr (l, e) ↦
          let above = greatest_step-above (suc n) (some r.output_hash) rs l w e in
          let same = later-last r l (omega (arith, above, step)) in
          rw e (
            ap (λ (x : AuditTrail). suc x.step_number) same,
            ap (λ (x : AuditTrail). some x.output_hash) same,
          )
    ]
