-- ===== src/Hitl/Replay.antt =====
-- Repeated requests for a review: create_pending_hitl_review of backend/domains/audit/repository.py,
-- which the graph calls again when it resumes an interrupted node.
use project_main.Prelude.{
  ℕ, ◌+◌, ◌≡◌, refl, ◌≢◌, Bool, true, false, Option, none, some, List, [], ◌∷◌, ◌++◌, arith, keep,
  ok, ap, ◌∙◌, subst, sym, Option-cases, inl, inr, update_where, find, String,
}
use project_main.Schema.{Stage, same_stage}
use project_main.Hitl.{
  HitlDb, HitlReview, Reason, Resolution, latest, matches_open, pending_review,
  create_pending_hitl_review, resolve_batch, Pick, Picks, get_by_batch_id, of_batch, has_id,
  hitl_resolved, is_open, same_reason,
}
use project_main.Hitl.Decide.{resolve_batch-Decided, NoneOpen}

same_stage_refl : (s : Stage) → same_stage s s ≡ true
unfolding same_stage
same_stage_refl s = ground arith

same_reason_refl : (r : Reason) → same_reason r r ≡ true
unfolding same_reason
same_reason_refl r = ground arith

matches_pending :
    (id b now : ℕ) (reason : Reason) (stage : Stage)
    → matches_open b reason stage (pending_review id b reason stage now) ≡ true
unfolding matches_open
matches_pending id b now reason stage =
    rw (same_reason_refl reason, same_stage_refl stage) (ground arith)

-- A row that the lookup takes is an open review of the batch.
matches_open-open :
    (b : ℕ) (reason : Reason) (stage : Stage) (r : HitlReview)
    → matches_open b reason stage r ≡ true
    → (r.batch_id ≡ b) × (is_open r.status ≡ true)
unfolding matches_open
matches_open-open b reason stage r h = ground arith

latest-ne-none : (r : HitlReview) (rs : List HitlReview) → latest (r ∷ rs) ≢ none
unfolding latest
latest-ne-none r rs = ground arith

keep_append :
    (p : HitlReview → Bool) (xs ys : List HitlReview) → keep p (xs ++ ys) ≡ keep p xs ++ keep p ys
keep_append p [] ys = refl
keep_append p (x ∷ xs) ys = ground (arith, keep_append p xs ys)

latest_append_ne : (rs : List HitlReview) (r : HitlReview) → latest (rs ++ r ∷ []) ≢ none
latest_append_ne [] r = latest-ne-none r []
latest_append_ne (x ∷ xs) r = latest-ne-none x (xs ++ r ∷ [])

abbrev open_reviews : HitlDb → ℕ → Reason → Stage → List HitlReview
open_reviews db b reason stage = keep (matches_open b reason stage) db.reviews

create-found :
    (db : HitlDb) (b now : ℕ) (reason : Reason) (stage : Stage)
    → latest (open_reviews db b reason stage) ≢ none
    → let (made, db') = create_pending_hitl_review db b reason stage now in
      (made.1 ≡ false) × (db' ≡ db)
unfolding create_pending_hitl_review
create-found db b now reason stage h = ground arith

create-new :
    (db : HitlDb) (b now : ℕ) (reason : Reason) (stage : Stage)
    → latest (open_reviews db b reason stage) ≡ none
    → create_pending_hitl_review db b reason stage now ≡ (
      (db.next_id, true),
      record db {
        reviews = db.reviews ++ pending_review db.next_id b reason stage now ∷ [];
        next_id = db.next_id + 1;
      },
    )
unfolding create_pending_hitl_review
create-new db b now reason stage h = ground arith

latest-keep_append :
    (p : HitlReview → Bool) (rs : List HitlReview) (r : HitlReview)
    → p r ≡ true
    → latest (keep p (rs ++ r ∷ [])) ≢ none
latest-keep_append p rs r h = rw (keep_append p rs (r ∷ []), h) (latest_append_ne (keep p rs) r)

open_after_create :
    (db : HitlDb) (b now : ℕ) (reason : Reason) (stage : Stage)
    → latest (open_reviews (create_pending_hitl_review db b reason stage now).1 b reason stage)
      ≢ none
open_after_create db b now reason stage =
    elim (Option-cases (latest (open_reviews db b reason stage))) [
      | inl e ↦ rw (create-new db b now reason stage e) (
          latest-keep_append (matches_open b reason stage) db.reviews
            (pending_review db.next_id b reason stage now)
            (matches_pending db.next_id b now reason stage))
      | inr (r, e) ↦
          let same = (create-found db b now reason stage (λ n. cc)).1 in
          subst (λ (d : HitlDb). latest (open_reviews d b reason stage) ≢ none) (sym same) (λ n. cc)
    ]

-- While its review is open a stop requests one review only: a second request, at any time, finds
-- an open review, reports nothing created and changes nothing.
pub create_pending_again :
    (db : HitlDb) (b now later : ℕ) (reason : Reason) (stage : Stage)
    → let (made, db') = create_pending_hitl_review db b reason stage now in
      let (again, db'') = create_pending_hitl_review db' b reason stage later in
      (again.1 ≡ false) × (db'' ≡ db')
create_pending_again db b now later reason stage =
    create-found _ b later reason stage (open_after_create db b now reason stage)

keep-NoneOpen :
    (b : ℕ) (reason : Reason) (stage : Stage) (rs : List HitlReview)
    → NoneOpen b rs
    → keep (matches_open b reason stage) rs ≡ []
keep-NoneOpen b reason stage [] h = refl
keep-NoneOpen b reason stage (r ∷ rs) h =
    ground (arith, h.0, matches_open-open b reason stage r, keep-NoneOpen b reason stage rs h.1)

resolved_write-NoneOpen :
    (b : ℕ) (r done : HitlReview) (rs : List HitlReview)
    → find (of_batch b) rs ≡ none
    → done.status ≡ hitl_resolved
    → done.review_id ≡ r.review_id
    → NoneOpen b (update_where (has_id done.review_id) (λ _. done) (rs ++ r ∷ []))
resolved_write-NoneOpen b r done [] h e i = ground arith
resolved_write-NoneOpen b r done (x ∷ rs) h e i =
    (ground arith, resolved_write-NoneOpen b r done rs (ground arith) e i)

fresh-NoneOpen : (b : ℕ) (rs : List HitlReview) → find (of_batch b) rs ≡ none → NoneOpen b rs
fresh-NoneOpen b [] h = tt
fresh-NoneOpen b (r ∷ rs) h = (ground arith, fresh-NoneOpen b rs (ground arith))

keep-none : (b : ℕ) (rs : List HitlReview) → find (of_batch b) rs ≡ none → keep (of_batch b) rs ≡ []
keep-none b [] h = refl
keep-none b (x ∷ rs) h = ground (arith, keep-none b rs)

of_batch_new :
    (b id now : ℕ) (reason : Reason) (stage : Stage)
    → of_batch b (pending_review id b reason stage now) ≡ true
of_batch_new b id now reason stage = ground arith

found_new :
    (pick : Pick) (b : ℕ) (r : HitlReview) (rs : List HitlReview)
    → Picks pick
    → find (of_batch b) rs ≡ none
    → of_batch b r ≡ true
    → pick (keep (of_batch b) (rs ++ r ∷ [])) ≡ some r
found_new pick b r rs p h e =
    let (x, chosen, i) = p.1 r [] in
    let only : x ≡ r = elim i [ inl same ↦ same | inr nothing ↦ absurd nothing ] in
    let rows : keep (of_batch b) (rs ++ r ∷ []) ≡ r ∷ [] =
      keep_append (of_batch b) rs (r ∷ []) ∙ rw (keep-none b rs h) (rw e refl) in
    ap pick rows ∙ chosen ∙ ap some only

-- A stop of a batch without reviews that is replayed after its review was resolved, whatever the
-- decision, reports a new review and stores it, pending, beside the resolved one.
pub resolved_replay_creates :
    (pick : Pick) (db : HitlDb) (b now decided replay : ℕ) (reason : Reason) (stage : Stage)
    (resolution : Resolution) (decision_text : String) (user_id : Option ℕ)
    (out : HitlReview × HitlDb)
    → Picks pick
    → find (of_batch b) db.reviews ≡ none
    → resolve_batch pick
        (create_pending_hitl_review db b reason stage now).1
        b
        resolution
        decision_text
        user_id
        decided
      ≡ ok out
    → let (made, db') = create_pending_hitl_review out.1 b reason stage replay in
      (made.1 ≡ true)
      × (out.0.status ≡ hitl_resolved)
      × (out.1.reviews
          ≡ update_where
              (has_id out.0.review_id)
              (λ _. out.0)
              (create_pending_hitl_review db b reason stage now).1.reviews)
      × (db'.reviews ≡ out.1.reviews ++ pending_review made.0 b reason stage replay ∷ [])
unfolding get_by_batch_id
resolved_replay_creates pick db b now decided replay reason stage resolution decision_text user_id
      out p fresh done =
    let created = create-new db b now reason stage (
      rw (keep-NoneOpen b reason stage db.reviews (fresh-NoneOpen b db.reviews fresh))
        (unfold latest in refl)) in
    let fresh_review = pending_review db.next_id b reason stage now in
    let mid = (create_pending_hitl_review db b reason stage now).1 in
    let same_rows : mid.reviews ≡ db.reviews ++ fresh_review ∷ [] =
      ap (λ (o : (ℕ × Bool) × HitlDb). o.1.reviews) created in
    let found : pick (keep (of_batch b) mid.reviews) ≡ some fresh_review = rw same_rows (
      found_new pick b fresh_review db.reviews p fresh
        (of_batch_new b db.next_id now reason stage)) in
    let (resolved, same_id, _, stored) =
      resolve_batch-Decided pick mid b decided resolution decision_text user_id fresh_review out
        found done in
    let none_open : NoneOpen b out.1.reviews =
      rw (stored, same_rows)
        (resolved_write-NoneOpen b fresh_review out.0 db.reviews fresh resolved same_id) in
    let again =
      create-new out.1 b replay reason stage
        (rw (keep-NoneOpen b reason stage out.1.reviews none_open) (unfold latest in refl)) in
    (
      ap (λ (o : (ℕ × Bool) × HitlDb). o.0.1) again,
      resolved,
      stored,
      ap (λ (o : (ℕ × Bool) × HitlDb). o.1.reviews) again
          ∙ ap (λ id. out.1.reviews ++ pending_review id b reason stage replay ∷ [])
              (sym (ap (λ (o : (ℕ × Bool) × HitlDb). o.0.0) again)),
    )
