-- ===== src/Documents.antt =====
-- The way of an uploaded document: backend/handlers/supplier_document_ingest.py makes its rows and a
-- job, backend/workers/document_parse_worker.py parses it and stores what was read, and
-- confirm_extraction_result confirms it; with claim_job, mark_job_done and mark_job_failed of
-- backend/domains/submission/repository.py. What parse_document (backend/agents/data_gateway.py) reads
-- from a document is a parameter; what it stores is modelled.
pub mod Once
mod Tests
use project_main.Prelude.{
  ℕ, ◌+◌, String, Bool, true, false, not, ◌&&◌, Option, none, some, List, [], ◌∷◌, ◌++◌, ◌==◌, ltb,
  if◌then◌else◌, or_else, find, any, keep, update_where, str_eq, is_some,
}
use project_main.Prelude.Dict.{Dict, lookup, string_eq}
use project_main.SupplyChain.{SupplierRow, is_id}

-- processed_jobs.status
pub data JobStatus : Type 0 where
  processing done failed : JobStatus

-- processed_jobs.idempotency_key: the parse of a document, or another job's text.
pub data JobKey : Type 0 where
  document_parse : ℕ → JobKey
  other_job : String → JobKey

unfoldable pub same_key : JobKey → JobKey → Bool
same_key (document_parse i) (document_parse j) = i == j
same_key (document_parse i) (other_job t) = false
same_key (other_job s) (document_parse j) = false
same_key (other_job s) (other_job t) = str_eq s t

pub record ProcessedJob : Type 0 where
  pub idempotency_key : JobKey
  pub status : JobStatus
  pub error_text : Option String
  pub retry_count : ℕ

pub record IngestRequest : Type 0 where
  pub request_id : ℕ
  pub target_supplier_id : ℕ
  pub doc_kind : String

pub record SubmissionDocument : Type 0 where
  pub document_id : ℕ
  pub request_id : ℕ
  pub supplier_id : ℕ
  pub file_url : String
  pub file_name : Option String
  pub file_type : String
  pub doc_category : String

-- A row of document_extraction_results.
pub record ExtractionRow : Type 0 where
  pub extraction_id : ℕ
  pub request_id : ℕ
  pub document_id : ℕ
  pub parsed_fields : Dict String String
  pub confidence_map : Dict String ℕ
  pub unparsed_fields : List String
  pub supplier_confirmed : Bool
  pub confirmed_at : Option ℕ
  pub created_at : ℕ

-- A job on DOCUMENT_PARSE_QUEUE.
pub record ParseJob : Type 0 where
  pub document_id : ℕ
  pub request_id : Option ℕ

pub record DocumentDb : Type 0 where
  pub suppliers : List SupplierRow
  pub requests : List IngestRequest
  pub documents : List SubmissionDocument
  pub extractions : List ExtractionRow
  pub jobs : List ProcessedJob
  pub parse_queue : List ParseJob
  pub next_id : ℕ

-- `_DOC_CATEGORY`
abbrev pub doc_categories : Dict String String
doc_categories =
    ("business_reg", "business_registration")
    ∷ ("environmental_report", "environmental_impact_assessment")
    ∷ ("self_assessment", "dd_audit_report")
    ∷ []

-- `_FILE_TYPE_BY_EXT`
abbrev pub file_types : Dict String String
file_types =
    ("png", "image")
    ∷ ("jpg", "image")
    ∷ ("jpeg", "image")
    ∷ ("gif", "image")
    ∷ ("webp", "image")
    ∷ ("pdf", "pdf")
    ∷ ("xlsx", "xlsx")
    ∷ ("xls", "xlsx")
    ∷ ("csv", "csv")
    ∷ ("docx", "docx")
    ∷ ("doc", "docx")
    ∷ []

module _ (extension : String → String) where
  -- `_derive_file_type`; `extension` gives the text after the last dot in small letters, and an empty
  -- one without a dot.
  unfoldable pub derive_file_type : Option String → String
  derive_file_type none = or_else (lookup "" file_types) "other"
  derive_file_type (some name) = or_else (lookup (extension name) file_types) "other"

  abbrev new_document : ℕ → ℕ → String → Option String → String → SubmissionDocument
  new_document id supplier s3_key file_name doc_kind = record {
    document_id = id + 1;
    request_id = id;
    supplier_id = supplier;
    file_url = s3_key;
    file_name = file_name;
    file_type = derive_file_type file_name;
    doc_category = or_else (lookup doc_kind doc_categories) "other";
  }

  -- `on_supplier_document_uploaded`, with the payload's entries as arguments
  unfoldable pub on_supplier_document_uploaded :
      DocumentDb → Option ℕ → Option String → Option String → Option String → DocumentDb
  on_supplier_document_uploaded db none s3_key file_name doc_kind = db
  on_supplier_document_uploaded db (some supplier) none file_name doc_kind = db
  on_supplier_document_uploaded db (some supplier) (some s3_key) file_name doc_kind =
      let kind = or_else doc_kind "other" in
      if any (λ (d : SubmissionDocument). str_eq s3_key d.file_url) db.documents
      then db
      else record db {
        requests =
            db.requests
            ++ record { request_id = db.next_id; target_supplier_id = supplier; doc_kind = kind }
              ∷ [];
        documents = db.documents ++ new_document db.next_id supplier s3_key file_name kind ∷ [];
        parse_queue =
            db.parse_queue
            ++ record { document_id = db.next_id + 1; request_id = some db.next_id } ∷ [];
        next_id = db.next_id + 2;
      }

abbrev pub has_key : JobKey → ProcessedJob → Bool
has_key key job = same_key key job.idempotency_key

-- `claim_job`: the insertion of the key, which an equal key refuses.
unfoldable pub claim_job : List ProcessedJob → JobKey → Bool × List ProcessedJob
claim_job jobs key = if any (has_key key) jobs then (false, jobs) else (
  true,
  jobs
      ++ record { idempotency_key = key; status = processing; error_text = none; retry_count = 0 }
        ∷ [],
)

unfoldable pub mark_job_done : List ProcessedJob → JobKey → List ProcessedJob
mark_job_done jobs key = update_where (has_key key) (λ job. record job { status = done }) jobs

unfoldable pub mark_job_failed : List ProcessedJob → JobKey → String → List ProcessedJob
mark_job_failed jobs key text =
    update_where (has_key key)
      (λ job. record job {
        status = failed;
        error_text = some text;
        retry_count = job.retry_count + 1;
      })
      jobs

-- What `parse_document` reads from a document.
pub record ParsedDocument : Type 0 where
  pub parsed_fields : Dict String String
  pub confidence_map : Dict String ℕ
  pub unparsed_fields : List String
  pub doc_category : String

-- How `parse_document` goes on with a document that is there: it raises; it returns early with a flag and
-- stores nothing; it stores what it has read and commits, after which the worker goes on or raises.
pub data ParseOutcome : Type 0 where
  raised : ParseOutcome
  flagged parsed parsed_then_raised : ParsedDocument → ParseOutcome

-- What a run of the worker comes to: the value returned, or an exception after the rollback.
pub data WorkerResult : Type 0 where
  returned : Bool → WorkerResult
  retried : WorkerResult

abbrev pub extraction_row : ℕ → ℕ → ℕ → ParsedDocument → ℕ → ExtractionRow
extraction_row id request document p now = record {
  extraction_id = id;
  request_id = request;
  document_id = document;
  parsed_fields = p.parsed_fields;
  confidence_map = p.confidence_map;
  unparsed_fields = p.unparsed_fields;
  supplier_confirmed = false;
  confirmed_at = none;
  created_at = now;
}

-- A failure is recorded with the claimed row, and no exception is raised.
abbrev pub given_up : DocumentDb → List ProcessedJob → ParseJob → String → WorkerResult × DocumentDb
given_up db jobs job text = (
  returned false,
  record db { jobs = mark_job_failed jobs (document_parse job.document_id) text },
)

-- What was read is stored under the request, if it is known.
unfoldable pub store_fields :
    DocumentDb
    → List ProcessedJob
    → ParseJob
    → ParsedDocument
    → ℕ
    → Option ℕ
    → WorkerResult × DocumentDb
store_fields db jobs job p now none = given_up db jobs job "no_request_id"
store_fields db jobs job p now (some request) = (
  returned true,
  record db {
    extractions = db.extractions ++ extraction_row db.next_id request job.document_id p now ∷ [];
    jobs = mark_job_done jobs (document_parse job.document_id);
    next_id = db.next_id + 1;
  },
)

abbrev pub set_category : String → SubmissionDocument → SubmissionDocument
set_category category d = record d { doc_category = category }

-- The writes of `parse_document`, which it commits.
unfoldable pub parse_document : DocumentDb → SubmissionDocument → ParsedDocument → ℕ → DocumentDb
parse_document db d p now = record db {
  extractions = db.extractions ++ extraction_row db.next_id d.request_id d.document_id p now ∷ [];
  documents =
      update_where (λ (x : SubmissionDocument). d.document_id == x.document_id)
        (set_category p.doc_category) db.documents;
  next_id = db.next_id + 1;
}

-- The worker after a claim; `jobs` has the claimed row. The commit of `parse_document` is of the same
-- session and keeps the claim.
unfoldable pub store_parsed :
    DocumentDb
    → List ProcessedJob
    → ParseJob
    → Option SubmissionDocument
    → ParseOutcome
    → ℕ
    → WorkerResult × DocumentDb
store_parsed db jobs job d raised now = (retried, db)
store_parsed db jobs job none (flagged p) now = given_up db jobs job "document_not_found"
store_parsed db jobs job none (parsed p) now = given_up db jobs job "document_not_found"
store_parsed db jobs job none (parsed_then_raised p) now = given_up db jobs job "document_not_found"
store_parsed db jobs job (some d) (flagged p) now = store_fields db jobs job p now job.request_id
store_parsed db jobs job (some d) (parsed p) now =
    store_fields (parse_document db d p now) jobs job p now job.request_id
store_parsed db jobs job (some d) (parsed_then_raised p) now =
    (retried, record (parse_document db d p now) { jobs = jobs })

abbrev pub document_row : DocumentDb → ℕ → Option SubmissionDocument
document_row db id = find (λ (d : SubmissionDocument). id == d.document_id) db.documents

-- `process_document_parse`: a document whose key is taken is passed over.
unfoldable pub process_document_parse :
    DocumentDb → ParseJob → ParseOutcome → ℕ → WorkerResult × DocumentDb
process_document_parse db job outcome now =
    let (claimed, jobs) = claim_job db.jobs (document_parse job.document_id) in
    let stored = store_parsed db jobs job (document_row db job.document_id) outcome now in
    if claimed then stored else (returned true, db)

-- A run of the worker after the other, each with its job, what the parser does and the time.
unfoldable pub run_jobs : DocumentDb → List (ParseJob × ParseOutcome × ℕ) → DocumentDb
run_jobs db [] = db
run_jobs db ((job, outcome, now) ∷ rest) =
    run_jobs (process_document_parse db job outcome now).1 rest

abbrev pub of_document : ℕ → ExtractionRow → Bool
of_document d e = d == e.document_id

-- The supplier of the document belongs to the tenant.
abbrev pub in_tenant : DocumentDb → ℕ → ℕ → Bool
in_tenant db document tenant =
    any
      (λ (d : SubmissionDocument).
        document == d.document_id
        && any (λ (s : SupplierRow). d.supplier_id == s.supplier_id && is_id tenant s.tenant_id)
            db.suppliers)
      db.documents

-- `ORDER BY created_at DESC LIMIT 1`
unfoldable pub newest : List ExtractionRow → Option ExtractionRow
newest [] = none
newest (e ∷ es) = elim (newest es) [
  | none ↦ some e
  | some later ↦ some (if ltb e.created_at later.created_at then later else e)
]

abbrev pub confirmed : ℕ → ExtractionRow → ExtractionRow
confirmed now e = record e {
  supplier_confirmed = true;
  confirmed_at = if e.supplier_confirmed then e.confirmed_at else some now;
}

-- `confirm_extraction_result`; none stands for the 404 of the caller.
unfoldable pub confirm_extraction_result :
    DocumentDb → ℕ → ℕ → ℕ → Option ExtractionRow × DocumentDb
confirm_extraction_result db document tenant now =
    elim (if in_tenant db document tenant
      then newest (keep (of_document document) db.extractions)
      else none) [
        | none ↦ (none, db)
        | some e ↦ (
          some (confirmed now e),
          record db {
            extractions =
                update_where (λ (x : ExtractionRow). e.extraction_id == x.extraction_id)
                  (confirmed now) db.extractions;
          },
        )
      ]
