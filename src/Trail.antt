-- ===== src/Trail.antt =====
-- The audit trail of a batch: backend/infrastructure/trace.py (_write_audit) appends a row that is
-- linked to the one before by its hash, and backend/domains/audit/service.py (verify_chain) checks the
-- links. A row is written only by _write_audit, which always gives it a step number. Hashes are texts.
pub mod Chain
pub mod Verify
mod Tests
use project_main.Prelude.{
  ℕ, suc, ◌+◌, String, Bool, true, false, not, ◌&&◌, Option, none, some, List, [], ◌∷◌, ◌++◌, ◌==◌,
  ltb, leb, if◌then◌else◌, any, null, keep, length, str_eq, Result, ok, err, http,
}
use project_main.SupplyChain.{is_id}

-- audit_trail.node_type (chk_audit_node_type)
pub data NodeType : Type 0 where
  agent tool human : NodeType

-- A row of audit_trail.
pub record AuditTrail : Type 0 where
  pub batch_id : ℕ
  pub step_number : ℕ
  pub node_type : NodeType
  pub node_name : String
  pub input_hash : String
  pub output_hash : String
  pub prev_hash : Option String
  pub duration_ms : ℕ

-- The arguments of `_write_audit` but the session.
pub record AuditWrite : Type 0 where
  pub batch_id : Option ℕ
  pub node_type : NodeType
  pub node_name : String
  pub input_hash : String
  pub output_hash : String
  pub duration_ms : ℕ

abbrev pub of_batch : ℕ → AuditTrail → Bool
of_batch b r = b == r.batch_id

abbrev pub later : AuditTrail → Option AuditTrail → AuditTrail
later r none = r
later r (some last) = if ltb last.step_number r.step_number then r else last

-- `ORDER BY step_number DESC LIMIT 1`
unfoldable pub greatest_step : List AuditTrail → Option AuditTrail
greatest_step [] = none
greatest_step (r ∷ rs) = some (later r (greatest_step rs))

-- `prev[1] + 1 if prev else 1`
abbrev pub next_step : Option AuditTrail → ℕ
next_step none = 1
next_step (some prev) = suc prev.step_number

-- `prev[0] if prev else None`
abbrev pub next_prev : Option AuditTrail → Option String
next_prev none = none
next_prev (some prev) = some prev.output_hash

abbrev pub linked_row : ℕ → AuditWrite → Option AuditTrail → AuditTrail
linked_row b w prev = record {
  batch_id = b;
  step_number = next_step prev;
  node_type = w.node_type;
  node_name = w.node_name;
  input_hash = w.input_hash;
  output_hash = w.output_hash;
  prev_hash = next_prev prev;
  duration_ms = w.duration_ms;
}

-- `_write_audit`; without a batch nothing is written
unfoldable pub write_audit : List AuditTrail → AuditWrite → List AuditTrail
write_audit rows w = elim w.batch_id [
  | none ↦ rows
  | some b ↦ rows ++ linked_row b w (greatest_step (keep (of_batch b) rows)) ∷ []
]

-- One write after the other.
unfoldable pub write_all : List AuditTrail → List AuditWrite → List AuditTrail
write_all rows [] = rows
write_all rows (w ∷ ws) = write_all (write_audit rows w) ws

-- `ORDER BY step_number`
unfoldable pub insert_step : AuditTrail → List AuditTrail → List AuditTrail
insert_step r [] = r ∷ []
insert_step r (x ∷ xs) =
    let rest = insert_step r xs in if leb r.step_number x.step_number then r ∷ x ∷ xs else x ∷ rest

unfoldable pub sort_steps : List AuditTrail → List AuditTrail
sort_steps [] = []
sort_steps (r ∷ rs) = insert_step r (sort_steps rs)

-- `list_full_chain`
unfoldable pub list_full_chain : List AuditTrail → ℕ → List AuditTrail
list_full_chain rows b = sort_steps (keep (of_batch b) rows)

pub data BreakReason : Type 0 where
  first_step_prev_hash_not_null prev_hash_mismatch : BreakReason

pub record ChainBreak : Type 0 where
  pub step_number : ℕ
  pub expected_prev_hash : Option String
  pub actual_prev_hash : Option String
  pub reason : BreakReason

pub data WarningReason : Type 0 where
  duplicate_step_number step_number_gap : WarningReason

pub record ChainWarning : Type 0 where
  pub step_number : ℕ
  pub reason : WarningReason

abbrev pub is_hash : String → Option String → Bool
is_hash h none = false
is_hash h (some g) = str_eq g h

-- The loop's test of the links after a row with the hash `prev_output`.
unfoldable pub later_breaks : String → List AuditTrail → List ChainBreak
later_breaks prev_output [] = []
later_breaks prev_output (r ∷ rs) =
    let rest = later_breaks r.output_hash rs in
    if is_hash prev_output r.prev_hash
    then rest
    else record {
      step_number = r.step_number;
      expected_prev_hash = some prev_output;
      actual_prev_hash = r.prev_hash;
      reason = prev_hash_mismatch;
    }
      ∷ rest

abbrev pub first_break : AuditTrail → Option String → List ChainBreak
first_break r none = []
first_break r (some h) =
    record {
      step_number = r.step_number;
      expected_prev_hash = none;
      actual_prev_hash = some h;
      reason = first_step_prev_hash_not_null;
    }
    ∷ []

unfoldable pub chain_breaks : List AuditTrail → List ChainBreak
chain_breaks [] = []
chain_breaks (r ∷ rs) = first_break r r.prev_hash ++ later_breaks r.output_hash rs

-- A warning, if the test says so.
abbrev pub warn : Bool → ℕ → WarningReason → List ChainWarning
warn false n reason = []
warn true n reason = record { step_number = n; reason = reason } ∷ []

abbrev pub is_gap : Option ℕ → ℕ → Bool
is_gap none n = false
is_gap (some expected) n = not (n == expected)

-- The loop's test of the step numbers, with those seen and the one expected.
unfoldable pub chain_warnings : List ℕ → Option ℕ → List AuditTrail → List ChainWarning
chain_warnings seen expected [] = []
chain_warnings seen expected (r ∷ rs) =
    warn (any (λ n. r.step_number == n) seen) r.step_number duplicate_step_number
    ++ warn (is_gap expected r.step_number) r.step_number step_number_gap
    ++ chain_warnings (r.step_number ∷ seen) (some (r.step_number + 1)) rs

pub record ChainVerification : Type 0 where
  pub batch_id : ℕ
  pub total_steps : ℕ
  pub chain_valid : Bool
  pub breaks : List ChainBreak
  pub warnings : List ChainWarning

-- `verify_chain`, with the ids of the batches; BatchNotFound is a 404
unfoldable pub verify_chain : List ℕ → List AuditTrail → ℕ → Result ChainVerification
verify_chain batches trail b =
    let rows = list_full_chain trail b in
    if any (λ x. b == x) batches
    then ok (record {
      batch_id = b;
      total_steps = length rows;
      chain_valid = null (chain_breaks rows);
      breaks = chain_breaks rows;
      warnings = chain_warnings [] none rows;
    })
    else err (http 404)
