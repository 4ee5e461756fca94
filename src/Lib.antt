-- ===== src/Lib.antt =====
-- Verification of a platform that checks batteries' supply chains against regulations.
--
-- A batch of a product runs through a graph of agents (backend/agents/graph.py): data_gateway gathers
-- what was extracted from the suppliers' documents, geo_audit looks at the places of the factories,
-- compliance judges every regulation that applies with the help of a language model, risk_scoring
-- updates a supplier's score, and final_judgment sums up. Between any two nodes the supervisor decides
-- whether to go on or to stop for a human review; a reviewer's approval resumes the graph and a
-- rejection ends the batch. Around the graph stand the supply chain with its suppliers, their sign-up,
-- submissions, documents and contracts on data, the reports with their approval lines, the versions and
-- trees of the products, access by tokens, and the audit trail.
--
-- The files and what they model:
--   Prelude             tests, lists, dictionaries, integers, and results of code that may raise
--   Schema              the vocabularies that docker/01_schema.sql fixes
--   Risk                backend/domains/risk: state_machine.py, service.py (calculate_risk_score) and
--                       repository.py. Score proves facts of one profile, Update of the table.
--   Hitl                backend/hitl: state_machine.py, service.py (resolve_batch) and the endpoints by
--                       batch of router.py, with create_pending_hitl_review, pause_batch_for_review and
--                       resume_batch_processing of backend/domains/audit. Decide is about decisions,
--                       Replay about repeated requests.
--   Agents/State        backend/agents/state.py; a key that may be missing is an Option
--   Agents/Supervisor   supervisor.py (route) and the table of regulations by destination
--   Agents/Gateway      data_gateway.py (data_gateway_node, validate_schema)
--   Agents/Geo          geo_audit.py and execute_geo_audit of backend/domains/supplychain/service.py
--   Agents/Judges       compliance.py: the judges and their validation
--   Agents/Compliance   compliance.py: compliance_node and its loop
--   Agents/Scoring      automation.py (run_risk_scoring) and risk_scoring_node of graph.py
--   Agents/Judgment     final_judgment.py and summary_batch.py
--   Agents/Graph        graph.py: the loop, the interruption and the approval
--   Report              backend/domains/report: creation, submission, approval and rejection
--   Submission          backend/domains/submission: transitions, guards, reminders and the trigger
--   Product             backend/domains/product: the versions of a bill of materials. Tree is
--                       get_bom_tree, with Layers on its query and Roots on its first layer. Import
--                       is fetch_from_source and import_products, with Seed the data that the code
--                       ships with, Synced on the table after it, and Repeated, Customers and Again on
--                       a second import. Queries has the lists and the versions of a day.
--   SupplyChain         backend/domains/supplychain: the graph of relations, the check for cycles and
--                       declared changes of source. Cycles is about the query, Acyclic about graphs
--                       without cycles, Register about what is written. Gaps has the missing fields, the
--                       ratios and the summary, with Gaps/Ready on the summary; Updates has the
--                       confirmations, invitations and corrections, Updates/Isolated their effects.
--   Access              backend/infrastructure/acl.py and auth.py, and the filter of list_data_requests
--   Supplier            backend/domains/supplier: statuses, invitation and outside scores (Status), and
--                       the sign-up (Onboarding, with Onboarding/Signed on its outcome)
--   Users               backend/domains/users: the chain of managers
--   Documents           backend/handlers/supplier_document_ingest.py, the parse worker and its claims
--   Trail               backend/infrastructure/trace.py (_write_audit) and verify_chain of
--                       backend/domains/audit/service.py; Chain on rows, Verify on the check
--   Consent             backend/domains/data_consent: contracts on data, with Lifecycle on their
--                       states and on who sees and changes them
--   Regulation          backend/domains/regulation: Judged is the list of results, and Results has
--                       the length of the list of violations
--   Notification        backend/workers/notification_worker.py, infrastructure/mail.py and
--                       domains/notifications/router.py: Runs and Again on the worker, Read on a user's list; Handlers
--                       models backend/handlers (supplier_invited.py, final_validation_notify.py), and
--                       Invite is about what becomes of their mails and jobs
--   Batches             backend/domains/batches/repository.py: Grouped and Exact on the list by stage, Totals on the
--                       counts of the dashboard; Detail and Tables model a batch's detail,
--                       and Shown is about its verdicts
--   Integrity           backend/domains/verification/service.py with get_integrity_pairs
--
-- Conventions. A database table is a list of records in a database record, and a function that writes
-- takes the database and returns it; published events and queued jobs are lists in it. An exception is
-- an `err` of the type Result. Queries, the language model, the clock and the graph library are
-- parameters: records of functions (GeoQueries, GatewayQueries, Services, Env). Scores between 0 and 1
-- are counted in ten-thousandths. One reading of the clock stands for all readings of a run.
--
-- Fuel. `run` counts the supervisor's visits: a batch has six stages and every agent moves it to the
-- next one, so that six visits are enough for one run. What the function of the
-- supervisor's conditional edge writes to its argument is not kept: nodes alone update the state.
--
-- The query for cycles takes one round more than there are edges, and the chain of managers one more
-- than there are users: a longer search without an end would pass an edge or a user twice.
--
-- The query for the tree of a bill of materials takes six rounds: its rows are at most 5 deep.
--
-- Not modelled: texts of prompts, mails and summaries beyond their numbers, the parsing of documents,
-- endpoints that only pass a call on, login, the remaining queries that only show data, due diligence,
-- the listening loop of the event bus, files and storage. SES, which sends the mails, is a parameter.
pub mod Prelude
pub mod Schema
pub mod Risk
pub mod Hitl
pub mod Agents
pub mod Report
pub mod Submission
pub mod Product
pub mod SupplyChain
pub mod Access
pub mod Integrity
pub mod Documents
pub mod Supplier
pub mod Users
pub mod Trail
pub mod Consent
pub mod Regulation
pub mod Notification
pub mod Batches
