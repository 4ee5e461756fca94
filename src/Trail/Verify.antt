-- ===== src/Trail/Verify.antt =====
-- The outcome of backend/domains/audit/service.py (verify_chain) on trails that _write_audit has
-- written, on shortened ones, and on ones with a changed hash.
use project_main.Prelude.{
  ℕ, zero, suc, ◌+◌, ◌≤◌, ◌<◌, ◌≡◌, refl, ◌≢◌, String, Bool, true, false, Option, none, some, List,
  [], ◌∷◌, ◌++◌, ◌==◌, ==_iff, arith, any, null, keep, length, take, All, ok, Bool-cases,
  Option-cases, inl, inr, sym, subst, ap, ◌∙◌, some-injective, none-ne-some, str_eq, str_eq_iff,
}
use project_main.Trail.{
  AuditTrail, AuditWrite, of_batch, greatest_step, next_step, next_prev, linked_row, write_audit,
  write_all, insert_step, sort_steps, list_full_chain, is_hash, later_breaks, first_break,
  chain_breaks, is_gap, chain_warnings, verify_chain,
}
use project_main.Trail.Chain.{Written, step_after, link_after, append-Written}

keep-append {ℓ} :
    {A : Type ℓ} (p : A → Bool) (xs ys : List A) → keep p (xs ++ ys) ≡ keep p xs ++ keep p ys
keep-append p [] ys = refl
keep-append p (x ∷ xs) ys = ground (arith, keep-append p xs ys)

append-nil {ℓ} : {A : Type ℓ} (xs : List A) → xs ++ [] ≡ xs
append-nil [] = refl
append-nil (x ∷ xs) = ap (λ ys. x ∷ ys) (append-nil xs)

-- Every batch's rows are numbered from 1 and linked.
abbrev pub IsLinked : List AuditTrail → Type 0
IsLinked rows = (b : ℕ) → Written 1 none (keep (of_batch b) rows)

first_step : (o : Option AuditTrail) → next_step o ≡ step_after 1 o
first_step none = refl
first_step (some r) = refl

first_link : (o : Option AuditTrail) → next_prev o ≡ link_after none o
first_link none = refl
first_link (some r) = refl

linked_row-IsLinked :
    (rows : List AuditTrail) (w : AuditWrite) (c : ℕ)
    → IsLinked rows
    → IsLinked (rows ++ linked_row c w (greatest_step (keep (of_batch c) rows)) ∷ [])
linked_row-IsLinked rows w c linked b =
    let row = linked_row c w (greatest_step (keep (of_batch c) rows)) in
    rw (keep-append (of_batch b) rows (row ∷ [])) (elim (Bool-cases (b == c)) [
      | inl e ↦ rw e (
          subst (λ x. Written 1 none (keep (of_batch x) rows ++ row ∷ [])) (sym ((==_iff b c).0 e))
            (append-Written 1 none (keep (of_batch c) rows) row (linked c)
              (first_step (greatest_step (keep (of_batch c) rows)))
              (first_link (greatest_step (keep (of_batch c) rows)))))
      | inr e ↦ rw e (rw (append-nil (keep (of_batch b) rows)) (linked b))
    ])

write_audit-IsLinked :
    (rows : List AuditTrail) (w : AuditWrite) → IsLinked rows → IsLinked (write_audit rows w)
unfolding write_audit
write_audit-IsLinked rows w linked = elim (Option-cases w.batch_id) [
  | inl e ↦ simp (e, write_audit) linked
  | inr (c, e) ↦ simp (e, write_audit) (linked_row-IsLinked rows w c linked)
]

write_all-IsLinked :
    (rows : List AuditTrail) (ws : List AuditWrite) → IsLinked rows → IsLinked (write_all rows ws)
unfolding write_all
write_all-IsLinked rows [] linked = linked
write_all-IsLinked rows (w ∷ ws) linked =
    write_all-IsLinked (write_audit rows w) ws (write_audit-IsLinked rows w linked)

sort_steps-Written :
    (n : ℕ) (p : Option String) (rs : List AuditTrail) → Written n p rs → sort_steps rs ≡ rs
unfolding sort_steps insert_step
sort_steps-Written n p [] w = refl
sort_steps-Written n p (r ∷ []) w = refl
sort_steps-Written n p (r ∷ s ∷ rs) (step, link, w) =
    let step' = w.0 in
    ap (insert_step r) (sort_steps-Written (suc n) (some r.output_hash) (s ∷ rs) w)
    ∙ front r s rs (omega (arith, step, step'))
  where
    front :
        (a b : AuditTrail) (xs : List AuditTrail)
        → a.step_number ≤ b.step_number
        → insert_step a (b ∷ xs) ≡ a ∷ b ∷ xs
    front a b xs h = ground arith

later_breaks-Written :
    (n : ℕ) (h : String) (rs : List AuditTrail) → Written n (some h) rs → later_breaks h rs ≡ []
unfolding later_breaks
later_breaks-Written n h [] w = refl
later_breaks-Written n h (r ∷ rs) (step, link, w) =
    rw link (rw ((str_eq_iff h h).1 refl) (later_breaks-Written (suc n) r.output_hash rs w))

chain_breaks-Written : (n : ℕ) (rs : List AuditTrail) → Written n none rs → chain_breaks rs ≡ []
unfolding chain_breaks
chain_breaks-Written n [] w = refl
chain_breaks-Written n (r ∷ rs) (step, link, w) =
    rw link (later_breaks-Written (suc n) r.output_hash rs w)

any-below :
    (n k : ℕ) (seen : List ℕ) → All (λ s. s < n) seen → k ≡ n → any (λ m. k == m) seen ≡ false
any-below n k [] h e = refl
any-below n k (s ∷ seen) (below, h) e = ground (arith, any-below n k seen h e)

All-weaken : (n : ℕ) (seen : List ℕ) → All (λ s. s < n) seen → All (λ s. s < suc n) seen
All-weaken n [] h = tt
All-weaken n (s ∷ seen) (below, h) = (omega (arith, below), All-weaken n seen h)

chain_warnings-Written :
    (n : ℕ) (p : Option String) (rs : List AuditTrail) (seen : List ℕ) (expected : Option ℕ)
    → Written n p rs
    → All (λ s. s < n) seen
    → is_gap expected n ≡ false
    → chain_warnings seen expected rs ≡ []
unfolding chain_warnings
chain_warnings-Written n p [] seen expected w below gap = refl
chain_warnings-Written n p (r ∷ rs) seen expected (step, link, w) below gap =
    rw (any-below n r.step_number seen below step) (
      rw (ap (is_gap expected) step ∙ gap) (
        chain_warnings-Written (suc n) (some r.output_hash) rs (r.step_number ∷ seen)
          (some (r.step_number + 1)) w (omega (arith, step), All-weaken n seen below)
          (ground arith)))

-- The rows of a batch in a trail that was written from nothing.
written : (ws : List AuditWrite) (b : ℕ) → Written 1 none (keep (of_batch b) (write_all [] ws))
written ws b = write_all-IsLinked [] ws (λ c. tt) b

list_full_chain-keep :
    (ws : List AuditWrite) (b : ℕ)
    → list_full_chain (write_all [] ws) b ≡ keep (of_batch b) (write_all [] ws)
unfolding list_full_chain
list_full_chain-keep ws b = sort_steps-Written 1 none _ (written ws b)

-- A trail that was written by any calls one after the other, for any batches, verifies for every
-- existing batch: the chain is valid, and there is neither a break nor a warning.
pub verify_chain-write_all :
    (batches : List ℕ) (ws : List AuditWrite) (b : ℕ)
    → any (λ x. b == x) batches ≡ true
    → verify_chain batches (write_all [] ws) b
      ≡ ok (record {
        batch_id = b;
        total_steps = length (keep (of_batch b) (write_all [] ws));
        chain_valid = true;
        breaks = [];
        warnings = [];
      })
unfolding verify_chain
verify_chain-write_all batches ws b known =
    rw (known, verify_chain)
      (rw (list_full_chain-keep ws b) (
        rw (chain_breaks-Written 1 (keep (of_batch b) (write_all [] ws)) (written ws b)) (
          rw
            (chain_warnings-Written 1 none (keep (of_batch b) (write_all [] ws)) [] none
              (written ws b) tt refl)
            refl)))

take-Written :
    (k n : ℕ) (p : Option String) (rs : List AuditTrail) → Written n p rs → Written n p (take k rs)
take-Written zero n p rs w = tt
take-Written (suc k) n p [] w = tt
take-Written (suc k) n p (r ∷ rs) (step, link, w) =
    (step, link, take-Written k (suc n) (some r.output_hash) rs w)

-- Rows that are deleted at the end of a written trail leave no trace: what is left has neither a break
-- nor a warning.
pub chain_breaks-take :
    (ws : List AuditWrite) (b k : ℕ)
    → (chain_breaks (take k (list_full_chain (write_all [] ws) b)) ≡ [])
      × (chain_warnings [] none (take k (list_full_chain (write_all [] ws) b)) ≡ [])
chain_breaks-take ws b k =
    let w = take-Written k 1 none (keep (of_batch b) (write_all [] ws)) (written ws b) in
    rw (list_full_chain-keep ws b)
      (chain_breaks-Written 1 _ w, chain_warnings-Written 1 none _ [] none w tt refl)

null-append_right {ℓ} : {A : Type ℓ} (xs ys : List A) → null ys ≡ false → null (xs ++ ys) ≡ false
null-append_right [] ys h = h
null-append_right (x ∷ xs) ys h = refl

not_hash : (h g : String) (o : Option String) → o ≡ some g → h ≢ g → is_hash h o ≡ false
not_hash h g none e d = absurd (none-ne-some e)
not_hash h g (some f) e d = elim (Bool-cases (str_eq f h)) [
  | inl k ↦ absurd (d (sym ((str_eq_iff f h).0 k) ∙ some-injective e))
  | inr k ↦ k
]

later_breaks-changed :
    (p : String) (xs : List AuditTrail) (r s : AuditTrail) (ys : List AuditTrail) (old : String)
    → s.prev_hash ≡ some old
    → r.output_hash ≢ old
    → null (later_breaks p (xs ++ r ∷ s ∷ ys)) ≡ false
unfolding later_breaks
later_breaks-changed p [] r s ys old link changed =
    let broken = not_hash r.output_hash old s.prev_hash link changed in ground (arith, broken)
later_breaks-changed p (x ∷ xs) r s ys old link changed =
    let rest = later_breaks-changed x.output_hash xs r s ys old link changed in ground (arith, rest)

-- A row whose output hash is not the one that the next row is linked to breaks the chain, wherever in
-- it the two rows are.
pub chain_breaks-changed :
    (xs : List AuditTrail) (r s : AuditTrail) (ys : List AuditTrail) (old : String)
    → s.prev_hash ≡ some old
    → r.output_hash ≢ old
    → null (chain_breaks (xs ++ r ∷ s ∷ ys)) ≡ false
unfolding chain_breaks later_breaks
chain_breaks-changed [] r s ys old link changed =
    let broken = not_hash r.output_hash old s.prev_hash link changed in
    null-append_right (first_break r r.prev_hash) (later_breaks r.output_hash (s ∷ ys))
      (ground (arith, broken))
chain_breaks-changed (x ∷ xs) r s ys old link changed =
    null-append_right (first_break x x.prev_hash) (later_breaks x.output_hash (xs ++ r ∷ s ∷ ys))
      (later_breaks-changed x.output_hash xs r s ys old link changed)
