-- ===== src/Hitl/Decide.antt =====
-- A reviewer's decision, through the service and the endpoints of backend/hitl/router.py.
use project_main.Prelude.{
  ℕ, ◌+◌, ◌≡◌, refl, ◌≢◌, ◌⊎◌, inl, inr, Bool, Option, none, some, List, [], ◌∷◌, ◌++◌, arith,
  String, Result, ok, err, value_error, integrity_error, key_error, no_result_found, cycle_error,
  unfinished, http, find, update_where, count, if◌then◌else◌, Option-cases, ◌==◌, >>=-eq-ok,
  ok-injective, subst, ap, ◌∙◌, suc, ◌≤◌, ==_iff, keep, In, All, All-In, In-keep, none-ne-some,
  some-injective, sym, Bool-cases, true,
}
use project_main.Schema.{batch_hitl_wait, batch_rejected}
use project_main.Hitl.{
  HitlDb, HitlReview, Pick, Picks, BatchRow, Resolution, approve, reject, is_reject, is_approve,
  hitl_resolved, ResumeJob, resumes, resolve_review, after_decision, get_by_batch_id, of_batch,
  has_id, waits, resolve_batch, resolve_hitl_review, approve_hitl_review, reject_hitl_review,
  enqueue_resume, as_http_400,
}

-- What a successful decision stores.
abbrev pub Decided : HitlDb → HitlReview → HitlReview × HitlDb → Type 0
Decided db r (done, db') =
    (done.status ≡ hitl_resolved)
    × (done.review_id ≡ r.review_id)
    × (done.batch_id ≡ r.batch_id)
    × (db'.reviews ≡ update_where (has_id done.review_id) (λ _. done) db.reviews)

resolve_review-resolved :
    (r done : HitlReview) (res : Resolution) (txt : String) (user : Option ℕ) (now : ℕ)
    → resolve_review r res txt user now ≡ ok done
    → (done.status ≡ hitl_resolved) × (done.review_id ≡ r.review_id) × (done.batch_id ≡ r.batch_id)
unfolding resolve_review
resolve_review-resolved r done res txt user now h = ground arith

after_decision-reviews :
    (db : HitlDb) (b : ℕ) (r : HitlReview) (res : Resolution) (txt : String)
    → (after_decision db b r res txt).reviews
      ≡ update_where (has_id r.review_id) (λ _. r) db.reviews
unfolding after_decision
after_decision-reviews db b r res txt = ground arith

pub resolve_batch-inv :
    (pick : Pick) (db : HitlDb) (b now : ℕ) (res : Resolution) (txt : String) (user : Option ℕ)
    (r : HitlReview) (out : HitlReview × HitlDb)
    → get_by_batch_id pick db b ≡ some r
    → resolve_batch pick db b res txt user now ≡ ok out
    → (done : HitlReview) × (resolve_review r res txt user now ≡ ok done)
      × ((done, after_decision db b done res txt) ≡ out)
unfolding resolve_batch
resolve_batch-inv pick db b now res txt user r out found h =
    let (done, e, k) =
      >>=-eq-ok (resolve_review r res txt user now) _ (rw (found, resolve_batch) at h) in
    (done, e, ok-injective k)

pub resolve_batch-Decided :
    (pick : Pick) (db : HitlDb) (b now : ℕ) (res : Resolution) (txt : String) (user : Option ℕ)
    (r : HitlReview) (out : HitlReview × HitlDb)
    → get_by_batch_id pick db b ≡ some r
    → resolve_batch pick db b res txt user now ≡ ok out
    → Decided db r out
resolve_batch-Decided pick db b now res txt user r out found h =
    let (done, e, eq) = resolve_batch-inv pick db b now res txt user r out found h in
    let (resolved, same_id, same_batch) = resolve_review-resolved r done res txt user now e in
    subst (Decided db r) eq
      (resolved, same_id, same_batch, after_decision-reviews db b done res txt)

-- Every row of the list that is of the batch is resolved.
abbrev pub NoneOpen : ℕ → List HitlReview → Type 0
NoneOpen b rs = All (λ r. r.batch_id ≡ b → r.status ≡ hitl_resolved) rs

write_other-NoneOpen :
    (b : ℕ) (done : HitlReview) (rs : List HitlReview)
    → count (of_batch b) rs ≡ 0
    → done.status ≡ hitl_resolved
    → NoneOpen b (update_where (has_id done.review_id) (λ _. done) rs)
write_other-NoneOpen b done [] zero_rows e = tt
write_other-NoneOpen b done (x ∷ rs) zero_rows e =
    (ground (arith, e), write_other-NoneOpen b done rs (ground arith) e)

keep-count_zero :
    (b : ℕ) (r : HitlReview) (rs : List HitlReview)
    → count (of_batch b) rs ≡ 0
    → In r (keep (of_batch b) rs)
    → ⊥
keep-count_zero b r [] h i = i
keep-count_zero b r (x ∷ rs) h i = elim (Bool-cases (of_batch b x)) [
  | inl e ↦ let bad : suc (count (of_batch b) rs) ≡ 0 = rw e at h in omega (arith, bad)
  | inr e ↦ keep-count_zero b r rs (rw e at h) (rw e at i)
]

-- The batch's only row is resolved by the write.
write-NoneOpen :
    (b : ℕ) (r done : HitlReview) (rs : List HitlReview)
    → count (of_batch b) rs ≤ 1
    → In r (keep (of_batch b) rs)
    → done.review_id ≡ r.review_id
    → done.status ≡ hitl_resolved
    → NoneOpen b (update_where (has_id done.review_id) (λ _. done) rs)
write-NoneOpen b r done [] one i same e = absurd i
write-NoneOpen b r done (x ∷ rs) one i same e = elim (Bool-cases (of_batch b x)) [
  | inl at_b ↦
      let bound : suc (count (of_batch b) rs) ≤ 1 = rw at_b at one in
      let rest : count (of_batch b) rs ≡ 0 = omega (arith, bound) in
      elim (let k : In r (x ∷ keep (of_batch b) rs) = rw at_b at i in k) [
        | inl is_x ↦
            let hit : has_id done.review_id x ≡ true =
              (==_iff done.review_id x.review_id).1
                (same ∙ ap (λ (y : HitlReview). y.review_id) is_x) in
            rw hit ((λ _. e), write_other-NoneOpen b done rs rest e)
        | inr k ↦ absurd (keep-count_zero b r rs rest k)
      ]
  | inr other ↦ (
    ground (arith, e, other),
    write-NoneOpen b r done rs (rw other at one) (rw other at i) same e,
  )
]

resolve_batch_resolved :
    (pick : Pick) (db : HitlDb) (b now : ℕ) (res : Resolution) (txt : String) (user : Option ℕ)
    (r : HitlReview)
    → get_by_batch_id pick db b ≡ some r
    → r.status ≡ hitl_resolved
    → resolve_batch pick db b res txt user now ≡ err value_error
unfolding resolve_batch resolve_review
resolve_batch_resolved pick db b now res txt user r found done = rw (found, resolve_batch) (rw done)

picked-In :
    (pick : Pick) (rs : List HitlReview) (r : HitlReview) → Picks pick → pick rs ≡ some r → In r rs
picked-In pick [] r p h = absurd (none-ne-some (sym p.0 ∙ h))
picked-In pick (x ∷ rs) r p h =
    let (y, e, i) = p.1 x rs in subst (λ z. In z (x ∷ rs)) (some-injective (sym e ∙ h)) i

In-NoneOpen :
    (b : ℕ) (r : HitlReview) (rs : List HitlReview)
    → NoneOpen b rs
    → In r (keep (of_batch b) rs)
    → r.status ≡ hitl_resolved
In-NoneOpen b r rs h i =
    let (inside, at_b) = In-keep (of_batch b) r rs i in
    All-In (λ (x : HitlReview). x.batch_id ≡ b → x.status ≡ hitl_resolved) r rs h inside
      (sym ((==_iff b r.batch_id).0 at_b))

-- A batch of which every review is resolved takes no decision.
resolve_batch-NoneOpen :
    (pick : Pick) (db : HitlDb) (b now : ℕ) (res : Resolution) (txt : String) (user : Option ℕ)
    → Picks pick
    → NoneOpen b db.reviews
    → resolve_batch pick db b res txt user now ≡ err value_error
unfolding resolve_batch get_by_batch_id
resolve_batch-NoneOpen pick db b now res txt user p h =
    elim (Option-cases (get_by_batch_id pick db b)) [
      | inl missing ↦ rw (missing, resolve_batch) refl
      | inr (r, found) ↦
          resolve_batch_resolved pick db b now res txt user r found
            (In-NoneOpen b r db.reviews h (picked-In pick (keep (of_batch b) db.reviews) r p found))
    ]

resolve_batch_missing :
    (pick : Pick) (db : HitlDb) (b now : ℕ) (res : Resolution) (txt : String) (user : Option ℕ)
    (out : HitlReview × HitlDb)
    → get_by_batch_id pick db b ≡ none
    → resolve_batch pick db b res txt user now ≢ ok out
unfolding resolve_batch
resolve_batch_missing pick db b now res txt user out missing = rw (missing, resolve_batch) (λ h. cc)

-- A decision is final: once a batch with one review has been decided on, every further decision on it is
-- refused with a ValueError, whichever rows the database gives first.
pub resolve_batch_twice :
    (pick pick' : Pick) (db : HitlDb) (b now later : ℕ) (first second : Resolution)
    (txt txt' : String) (user user' : Option ℕ) (out : HitlReview × HitlDb)
    → Picks pick
    → Picks pick'
    → count (of_batch b) db.reviews ≤ 1
    → resolve_batch pick db b first txt user now ≡ ok out
    → resolve_batch pick' out.1 b second txt' user' later ≡ err value_error
unfolding get_by_batch_id
resolve_batch_twice pick pick' db b now later first second txt txt' user user' out p p' one h =
    elim (Option-cases (get_by_batch_id pick db b)) [
      | inl missing ↦ absurd (resolve_batch_missing pick db b now first txt user out missing h)
      | inr (r, found) ↦
          let (resolved, same_id, _, stored) =
            resolve_batch-Decided pick db b now first txt user r out found h in
          let inside = picked-In pick (keep (of_batch b) db.reviews) r p found in
          let none_open : NoneOpen b out.1.reviews =
            rw stored (write-NoneOpen b r out.0 db.reviews one inside same_id resolved) in
          resolve_batch-NoneOpen pick' out.1 b later second txt' user' p' none_open
    ]

-- Every successful decision stores its review through `after_decision`.
resolve_batch-after :
    (pick : Pick) (db : HitlDb) (b now : ℕ) (res : Resolution) (txt : String) (user : Option ℕ)
    (out : HitlReview × HitlDb)
    → resolve_batch pick db b res txt user now ≡ ok out
    → (done : HitlReview) × (after_decision db b done res txt ≡ out.1)
resolve_batch-after pick db b now res txt user out h =
    elim (Option-cases (get_by_batch_id pick db b)) [
      | inl missing ↦ absurd (resolve_batch_missing pick db b now res txt user out missing h)
      | inr (r, found) ↦
          let (done, _, eq) = resolve_batch-inv pick db b now res txt user r out found h in
          (done, ap (λ (o : HitlReview × HitlDb). o.1) eq)
    ]

abbrev pub is_batch : ℕ → BatchRow → Bool
is_batch b row = b == row.batch_id

find-waits :
    (b c : ℕ) (row : BatchRow) (rows : List BatchRow)
    → find (is_batch c) rows ≡ some row
    → (c ≢ b) ⊎ (row.status ≢ batch_hitl_wait)
    → find
        (is_batch c)
        (update_where (waits b) (λ (w : BatchRow). record w { status = batch_rejected }) rows)
      ≡ some row
find-waits b c row [] h k = cc
find-waits b c row (x ∷ rows) h k = ground (arith, find-waits b c row rows)

-- A decision moves no batch but its own, and that one only if it is waiting for the review: every
-- other row of the table of batches is read back as it was.
pub resolve_batch-batches :
    (pick : Pick) (db : HitlDb) (b c now : ℕ) (res : Resolution) (txt : String) (user : Option ℕ)
    (row : BatchRow) (out : HitlReview × HitlDb)
    → find (is_batch c) db.batches ≡ some row
    → (c ≢ b) ⊎ (row.status ≢ batch_hitl_wait)
    → resolve_batch pick db b res txt user now ≡ ok out
    → find (is_batch c) out.1.batches ≡ some row
unfolding after_decision
resolve_batch-batches pick db b c now res txt user row out h k done =
    let (_, eq) = resolve_batch-after pick db b now res txt user out done in
    rw (← eq) (ground (arith, find-waits b c row db.batches))

-- The three endpoints that take a decision on a batch.
pub data Call : Type 0 where
  by_resolve : Resolution → Call
  by_approve by_reject : Call

abbrev pub decision : Call → Resolution
decision (by_resolve res) = res
decision by_approve = approve
decision by_reject = reject

abbrev pub handle : Pick → Call → HitlDb → ℕ → String → Option ℕ → ℕ → Result (HitlReview × HitlDb)
handle pick (by_resolve res) db b txt user now = resolve_hitl_review pick db b res txt user now
handle pick by_approve db b txt user now = approve_hitl_review pick db b txt user now
handle pick by_reject db b txt user now = reject_hitl_review pick db b txt user now

after_decision-queue :
    (db : HitlDb) (b : ℕ) (r : HitlReview) (res : Resolution) (txt : String)
    → (after_decision db b r res txt).hitl_queue ≡ db.hitl_queue
unfolding after_decision
after_decision-queue db b r res txt = ground arith

resolve_batch-queue :
    (pick : Pick) (db : HitlDb) (b now : ℕ) (res : Resolution) (txt : String) (user : Option ℕ)
    (out : HitlReview × HitlDb)
    → resolve_batch pick db b res txt user now ≡ ok out
    → out.1.hitl_queue ≡ db.hitl_queue
resolve_batch-queue pick db b now res txt user out h =
    let (r, eq) = resolve_batch-after pick db b now res txt user out h in
    rw (← eq) (after_decision-queue db b r res txt)

count_append :
    (js : List ResumeJob) (j : ResumeJob)
    → count resumes (js ++ j ∷ []) ≡ count resumes js + (if resumes j then 1 else 0)
count_append [] j = ground arith
count_append (k ∷ js) j = ground (arith, count_append js j)

enqueue_resume-count :
    (db : HitlDb) (b : ℕ) (res : Resolution)
    → count resumes (enqueue_resume db b res).hitl_queue
      ≡ count resumes db.hitl_queue + (if is_approve res then 1 else 0)
unfolding enqueue_resume
enqueue_resume-count db b res = count_append db.hitl_queue _

as_http_400-inv {ℓ} : {A : Type ℓ} (m : Result A) {a : A} → as_http_400 m ≡ ok a → m ≡ ok a
as_http_400-inv (ok x) h = h
as_http_400-inv (err value_error) h = cc
as_http_400-inv (err integrity_error) h = cc
as_http_400-inv (err key_error) h = cc
as_http_400-inv (err no_result_found) h = cc
as_http_400-inv (err cycle_error) h = cc
as_http_400-inv (err unfinished) h = cc
as_http_400-inv (err (http n)) h = cc

-- What a request adds, once the service has taken the decision.
enqueued :
    (b : ℕ) (res : Resolution) (db : HitlDb) (mid : HitlReview × HitlDb)
    → mid.1.hitl_queue ≡ db.hitl_queue
    → count resumes (if is_reject res then mid.1 else enqueue_resume mid.1 b res).hitl_queue
      ≡ count resumes db.hitl_queue + (if is_approve res then 1 else 0)
enqueued b reject db mid h = rw h (omega arith)
enqueued b res db mid h = rw (enqueue_resume-count mid.1 b res, h) refl

-- A request that succeeds adds exactly one job that makes the worker resume the pipeline if its
-- decision is an approval, and none otherwise, through whichever endpoint it came.
pub handle-resumes :
    (pick : Pick) (call : Call) (db : HitlDb) (b now : ℕ) (txt : String) (user : Option ℕ)
    (out : HitlReview × HitlDb)
    → handle pick call db b txt user now ≡ ok out
    → count resumes out.1.hitl_queue
      ≡ count resumes db.hitl_queue + (if is_approve (decision call) then 1 else 0)
unfolding resolve_hitl_review approve_hitl_review reject_hitl_review
handle-resumes pick (by_resolve res) db b now txt user out h =
    let (mid, e, k) =
      >>=-eq-ok (resolve_batch pick db b res txt user now) _ (as_http_400-inv _ h) in
    rw (← ok-injective k)
      (enqueued b res db mid (resolve_batch-queue pick db b now res txt user mid e))
handle-resumes pick by_approve db b now txt user out h =
    let (mid, e, k) =
      >>=-eq-ok (resolve_batch pick db b approve txt user now) _ (as_http_400-inv _ h) in
    rw (← ok-injective k)
      (enqueued b approve db mid (resolve_batch-queue pick db b now approve txt user mid e))
handle-resumes pick by_reject db b now txt user out h =
    rw (resolve_batch-queue pick db b now reject txt user out (as_http_400-inv _ h)) (omega arith)
