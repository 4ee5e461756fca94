-- ===== src/Agents/Tests/World.antt =====
-- A product with one supplier whose results are in order, and a model that passes every regulation.
use project_main.Prelude.{String, true, false, Option, none, some, [], ◌∷◌}
use project_main.Prelude.Int.{ℤ, pos}
use project_main.Schema.{batch_processing, compliance_passed}
use project_main.Risk.{new_profile}
use project_main.Agents.Geo.{FactoryRow, GeoQueries, GeoDb}
use project_main.Agents.Gateway.{ExtractionRow, GatewayQueries}
use project_main.Agents.Judges.{Services, LlmReply}
use project_main.Agents.Compliance.{ComplianceDb}
use project_main.Agents.Graph.{World, Env}

abbrev pub reply : LlmReply
reply = record {
  verdict = some compliance_passed;
  needs_human_review = some false;
  cited_clauses = record { citation = "Art. 1"; content = "text" } ∷ [];
  confidence_score = some 9500;
  reasoning_text = none;
}

abbrev pub services : Services
services = record {
  clause_rows = λ text code k. [];
  fallback_rows = λ text code k. [];
  llm = λ code clauses context. some reply;
  carbon_rows = λ b. (60, 100) ∷ [];
  missing_declaration_count = λ b. 0;
  registered = λ code. true;
}

-- A model whose replies cite nothing.
abbrev pub uncited_reply : LlmReply
uncited_reply = record reply { cited_clauses = [] }

abbrev pub uncited : Services
uncited = record services { llm = λ code clauses context. some uncited_reply }

abbrev pub row : ExtractionRow
row = record {
  confidence_map = ("origin", 9000) ∷ [];
  parsed_fields = ("origin", "CL") ∷ [];
  supplier_confirmed = true;
  provider_type = some "mine";
  supplier_id = 4;
}

abbrev pub gateway_queries : GatewayQueries
gateway_queries = record {
  supply_chain = λ p. some 4 ∷ none ∷ [];
  extraction_results = λ ids. row ∷ [];
  required_fields = λ p. "origin" ∷ [];
  promote = λ r. some true;
}

abbrev pub no_rows : GeoQueries
no_rows = record { audit_results = []; name_results = []; mismatch_results = []; eudr_results = [] }

abbrev pub factory : FactoryRow
factory = record {
  factory_id = 6;
  supplier_id = 4;
  company_name = "A";
  coordinates = none;
  flag = true;
}

-- One factory, flagged by its place and found by its name.
abbrev pub flagged_rows : GeoQueries
flagged_rows = record no_rows {
  audit_results = factory ∷ [];
  name_results = factory ∷ factory ∷ [];
}

abbrev pub point : String → Option (ℤ × ℤ)
point text = some (pos 1, pos 2)

abbrev pub env : Env
env = record {
  point = point;
  geo_queries = no_rows;
  gateway_queries = gateway_queries;
  services = services;
  chain = λ b. 4 ∷ [];
  owner_users = λ b. 30 ∷ [];
  now = 5;
}

abbrev pub geo_db : GeoDb
geo_db = record { results = []; events = [] }

abbrev pub compliance_db : ComplianceDb
compliance_db = record { rows = []; completed = [] }

abbrev pub world : World
world = record {
  hitl = record {
    reviews = [];
    batches = record { batch_id = 1; status = batch_processing } ∷ [];
    reject_requested = [];
    hitl_queue = [];
    next_id = 1;
  };
  geo = geo_db;
  compliance_db = compliance_db;
  risk = record { suppliers = 4 ∷ []; profiles = new_profile 4 ∷ []; escalated = [] };
  judgment = record { judgments = []; stages = [] };
  hitl_requested = [];
  notifications = [];
}
