-- ===== src/Documents/Tests.antt =====
-- One uploaded document.
use project_main.Prelude.{refl, none, some, [], ◌∷◌, arith}
use project_main.Documents.{DocumentDb, ParseJob, ParsedDocument, parsed, run_jobs}
use project_main.Documents.Once.{IsTwice, run_jobs-IsTwice}

abbrev uploaded : DocumentDb
uploaded = record {
  suppliers = [];
  requests = [];
  documents =
      record {
        document_id = 2;
        request_id = 1;
        supplier_id = 3;
        file_url = "key";
        file_name = none;
        file_type = "other";
        doc_category = "other";
      }
      ∷ [];
  extractions = [];
  jobs = [];
  parse_queue = [];
  next_id = 3;
}

abbrev job : ParseJob
job = record { document_id = 2; request_id = some 1 }

abbrev read : ParsedDocument
read = record {
  parsed_fields = [];
  confidence_map = [];
  unparsed_fields = [];
  doc_category = "other";
}

run_jobs-IsTwice_example :
    IsTwice 2 (run_jobs uploaded ((job, parsed read, 10) ∷ (job, parsed read, 11) ∷ []))
run_jobs-IsTwice_example =
    run_jobs-IsTwice 2 uploaded ((job, parsed read, 10) ∷ (job, parsed read, 11) ∷ [])
      (omega arith, refl)
