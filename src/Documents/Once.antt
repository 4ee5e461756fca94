-- ===== src/Documents/Once.antt =====
-- How often backend/workers/document_parse_worker.py stores what it has read from a document.
use project_main.Prelude.{
  ℕ, ◌+◌, ◌≤◌, ◌≡◌, refl, Bool, true, false, ◌||◌, Option, none, some, List, [], ◌∷◌, ◌++◌, ◌==◌,
  ==_iff, arith, any, ap, ◌∙◌, count, count-append, update_where, if◌then◌else◌, Bool-cases, inl,
  inr, String, sym, Option-cases, find-passes,
}
use project_main.Documents.{
  DocumentDb, ProcessedJob, JobKey, document_parse, ParseJob, ParseOutcome, raised, parsed,
  ParsedDocument, ExtractionRow, extraction_row, same_key, has_key, claim_job, mark_job_done,
  mark_job_failed, given_up, store_fields, store_parsed, process_document_parse, run_jobs,
  of_document, SubmissionDocument, parse_document, document_row, flagged, parsed_then_raised,
}

abbrev pub taken : ℕ → List ProcessedJob → Bool
taken d = any (has_key (document_parse d))

-- What is stored of a document: nothing without its key, and at most two rows.
abbrev pub IsTwice : ℕ → DocumentDb → Type 0
IsTwice d db =
    (count (of_document d) db.extractions ≤ 2)
    × ((if taken d db.jobs then 0 else count (of_document d) db.extractions) ≡ 0)

any-append {ℓ} :
    {A : Type ℓ} (p : A → Bool) (xs ys : List A) → any p (xs ++ ys) ≡ (any p xs || any p ys)
any-append p [] ys = refl
any-append p (x ∷ xs) ys = ground (arith, any-append p xs ys)

-- An update of the other columns leaves the keys as they were.
any-update_where {ℓ} :
    {A : Type ℓ} (p q : A → Bool) (f : A → A) (xs : List A)
    → ((x : A) → p (f x) ≡ p x)
    → any p (update_where q f xs) ≡ any p xs
any-update_where p q f [] h = refl
any-update_where p q f (x ∷ xs) h = ground (arith, any-update_where p q f xs h, h x)

same_taken : (d e : ℕ) (jobs : List ProcessedJob) → (d == e) ≡ true → taken d jobs ≡ taken e jobs
same_taken d e jobs h = ap (λ x. taken x jobs) ((==_iff d e).0 h)

taken-claim :
    (d e : ℕ) (jobs : List ProcessedJob)
    → taken d (claim_job jobs (document_parse e)).1 ≡ (taken d jobs || d == e)
unfolding claim_job same_key
taken-claim d e jobs = elim (Bool-cases (taken e jobs)) [
  | inl h ↦ rw h (ground (arith, same_taken d e jobs))
  | inr h ↦
      rw h (
        any-append (has_key (document_parse d)) jobs _ ∙ ap (λ b. taken d jobs || b) (ground arith))
]

taken-failed :
    (d : ℕ) (key : JobKey) (jobs : List ProcessedJob) (text : String)
    → taken d (mark_job_failed jobs key text) ≡ taken d jobs
unfolding mark_job_failed
taken-failed d key jobs text = any-update_where _ (has_key key) _ jobs (λ x. refl)

taken-done :
    (d : ℕ) (key : JobKey) (jobs : List ProcessedJob)
    → taken d (mark_job_done jobs key) ≡ taken d jobs
unfolding mark_job_done
taken-done d key jobs = any-update_where _ (has_key key) _ jobs (λ x. refl)

-- The rows and keys of one document after a run, from those before it.
kept : (t same : Bool) (n : ℕ) → n ≤ 2 → (if t then 0 else n) ≡ 0 → (if t || same then 0 else n) ≡ 0
kept t same n le z = ground arith

claimed :
    (jobs : List ProcessedJob) (e : ℕ)
    → (claim_job jobs (document_parse e)).0 ≡ true
    → taken e jobs ≡ false
unfolding claim_job
claimed jobs e h = ground arith

added :
    (t same : Bool) (n more : ℕ)
    → n ≤ 2
    → more ≤ 2
    → (if t then 0 else n) ≡ 0
    → (same ≡ true → t ≡ false)
    → (n + (if same then more else 0) ≤ 2)
      × ((if t || same then 0 else n + (if same then more else 0)) ≡ 0)
added t same n more le few z k = ground (arith, k)

count_one :
    (d e : ℕ) (es : List ExtractionRow) (row : ExtractionRow)
    → row.document_id ≡ e
    → count (of_document d) (es ++ row ∷ []) ≡ count (of_document d) es + (if d == e then 1 else 0)
count_one d e es row h = count-append (of_document d) es (row ∷ []) ∙ rw h (ground arith)

-- Tables with some rows more of one document, and the key of it.
stored-IsTwice :
    (d e more : ℕ) (db db' : DocumentDb)
    → IsTwice d db
    → more ≤ 2
    → taken e db.jobs ≡ false
    → taken d db'.jobs ≡ (taken d db.jobs || d == e)
    → count (of_document d) db'.extractions
      ≡ count (of_document d) db.extractions + (if d == e then more else 0)
    → IsTwice d db'
stored-IsTwice d e more db db' (le, z) few free t n =
    let (le', z') =
      added (taken d db.jobs) (d == e) (count (of_document d) db.extractions) more le few z
        (λ same. same_taken d e db.jobs same ∙ free) in
    (rw n le', rw t (rw n z'))

module _ (d : ℕ) (db : DocumentDb) (job : ParseJob) (p : ParsedDocument) (now : ℕ) where
  abbrev key : JobKey
  key = document_parse job.document_id

  abbrev with_claim : List ProcessedJob
  with_claim = (claim_job db.jobs key).1

  given_up-IsTwice :
      (text : String) (rows : DocumentDb) (more : ℕ)
      → IsTwice d db
      → taken job.document_id db.jobs ≡ false
      → more ≤ 2
      → count (of_document d) rows.extractions
        ≡ count (of_document d) db.extractions + (if d == job.document_id then more else 0)
      → IsTwice d (given_up rows with_claim job text).1
  given_up-IsTwice text rows more h free few n =
      stored-IsTwice d job.document_id more db (given_up rows with_claim job text).1 h few free
        (taken-failed d key with_claim text ∙ taken-claim d job.document_id db.jobs) n

  store_fields-IsTwice :
      (rows : DocumentDb) (more : ℕ) (request : Option ℕ)
      → IsTwice d db
      → taken job.document_id db.jobs ≡ false
      → more ≤ 1
      → count (of_document d) rows.extractions
        ≡ count (of_document d) db.extractions + (if d == job.document_id then more else 0)
      → IsTwice d (store_fields rows with_claim job p now request).1
  unfolding store_fields
  store_fields-IsTwice rows more none h free few n =
      given_up-IsTwice "no_request_id" rows more h free (omega arith) n
  store_fields-IsTwice rows more (some request) h free few n =
      let row = extraction_row rows.next_id request job.document_id p now in
      let one = count_one d job.document_id rows.extractions row refl in
      stored-IsTwice d job.document_id (more + 1) db
        (store_fields rows with_claim job p now (some request)).1 h (omega arith) free
        (taken-done d key with_claim ∙ taken-claim d job.document_id db.jobs)
        (one ∙ ground (arith, n))

  parse_document-count :
      (doc : SubmissionDocument)
      → doc.document_id ≡ job.document_id
      → count (of_document d) (parse_document db doc p now).extractions
        ≡ count (of_document d) db.extractions + (if d == job.document_id then 1 else 0)
  unfolding parse_document
  parse_document-count doc same = count_one d job.document_id db.extractions _ same

abbrev IsRow : ParseJob → Option SubmissionDocument → Type 0
IsRow job none = Unit
IsRow job (some doc) = doc.document_id ≡ job.document_id

store_parsed-IsTwice :
    (d : ℕ) (db : DocumentDb) (job : ParseJob) (doc : Option SubmissionDocument)
    (outcome : ParseOutcome) (now : ℕ)
    → IsTwice d db
    → taken job.document_id db.jobs ≡ false
    → IsRow job doc
    → IsTwice d
        (store_parsed db
          (claim_job db.jobs (document_parse job.document_id)).1
          job
          doc
          outcome
          now).1
unfolding store_parsed
store_parsed-IsTwice d db job none raised now h free r = h
store_parsed-IsTwice d db job (some doc) raised now h free r = h
store_parsed-IsTwice d db job none (flagged p) now h free r =
    given_up-IsTwice d db job p now "document_not_found" db 0 h free (omega arith) (ground arith)
store_parsed-IsTwice d db job none (parsed p) now h free r =
    given_up-IsTwice d db job p now "document_not_found" db 0 h free (omega arith) (ground arith)
store_parsed-IsTwice d db job none (parsed_then_raised p) now h free r =
    given_up-IsTwice d db job p now "document_not_found" db 0 h free (omega arith) (ground arith)
store_parsed-IsTwice d db job (some doc) (flagged p) now h free r =
    store_fields-IsTwice d db job p now db 0 job.request_id h free (omega arith) (ground arith)
store_parsed-IsTwice d db job (some doc) (parsed p) now h free r =
    store_fields-IsTwice d db job p now (parse_document db doc p now) 1 job.request_id h free
      (omega arith) (parse_document-count d db job p now doc r)
store_parsed-IsTwice d db job (some doc) (parsed_then_raised p) now h free r =
    stored-IsTwice d job.document_id 1 db
      (record (parse_document db doc p now) {
        jobs = (claim_job db.jobs (document_parse job.document_id)).1;
      })
      h (omega arith) free (taken-claim d job.document_id db.jobs)
      (parse_document-count d db job p now doc r)

document_row-IsRow :
    (db : DocumentDb) (job : ParseJob) → IsRow job (document_row db job.document_id)
document_row-IsRow db job = elim (Option-cases (document_row db job.document_id)) [
  | inl e ↦ rw e tt
  | inr (doc, e) ↦ rw e (
      let test : (job.document_id == doc.document_id) ≡ true =
        find-passes (λ (x : SubmissionDocument). job.document_id == x.document_id) db.documents doc
          e in
      sym ((==_iff job.document_id doc.document_id).0 test))
]

process-IsTwice :
    (d : ℕ) (db : DocumentDb) (job : ParseJob) (outcome : ParseOutcome) (now : ℕ)
    → IsTwice d db
    → IsTwice d (process_document_parse db job outcome now).1
unfolding process_document_parse
process-IsTwice d db job outcome now h =
    elim (Bool-cases (claim_job db.jobs (document_parse job.document_id)).0) [
      | inl e ↦ rw e (
          store_parsed-IsTwice d db job (document_row db job.document_id) outcome now h
            (claimed db.jobs job.document_id e) (document_row-IsRow db job))
      | inr e ↦ rw e h
    ]

-- Over any runs of the worker, in whatever order, at most two results of a document are stored, also where
-- runs raise before or after the parser's own commit.
pub run_jobs-IsTwice :
    (d : ℕ) (db : DocumentDb) (runs : List (ParseJob × ParseOutcome × ℕ))
    → IsTwice d db
    → IsTwice d (run_jobs db runs)
unfolding run_jobs
run_jobs-IsTwice d db [] h = h
run_jobs-IsTwice d db ((job, outcome, now) ∷ runs) h =
    run_jobs-IsTwice d (process_document_parse db job outcome now).1 runs
      (process-IsTwice d db job outcome now h)
