-- ===== src/Integrity.antt =====
-- backend/domains/verification/service.py (verify_document_integrity_rule) with what it gets from
-- backend/agents/data_gateway.py (_coerce_number, get_integrity_pairs): the values that a supplier has
-- confirmed against those read from its documents. Numbers are counted in a unit in which those at
-- hand are whole; the floating-point test of the tolerance is a parameter. The reading of a text's
-- first word as a number, and a value's text without its outer blanks, are parameters.
pub mod Best
use project_main.Prelude.{
  ℕ, ◌+◌, ◌-◌, ◌*◌, String, Bool, true, false, not, ◌&&◌, Option, none, some, List, [], ◌∷◌, ◌++◌,
  ◌==◌, ltb, str_eq, if◌then◌else◌, or_else, keep, map, null, length,
}
use project_main.Prelude.Dict.{Dict, lookup, insert, string_eq}
use project_main.Prelude.Int.{ℤ, pos, negsuc, pos_part, neg_part}

-- A value of a JSON document.
pub data Value : Type 0 where
  boolean : Bool → Value
  number : ℤ → Value
  string : String → Value
  other : Value

-- A row of document_extraction_results; a confidence that is missing or no number is left out.
pub record ExtractionRecord : Type 0 where
  pub supplier_confirmed : Bool
  pub parsed_fields : Dict String Value
  pub confidence_map : Dict String ℕ

-- `value_type`, with the values that are compared.
pub data Compared : Type 0 where
  numeric : ℤ → ℤ → Compared
  textual : Value → Value → Compared

pub record IntegrityPair : Type 0 where
  pub field : String
  pub compared : Compared
  pub confidence : ℕ

-- A row of compliance_results: the batch, the supplier and the fields that do not match, as a
-- rejection for human review.
pub record IntegrityReject : Type 0 where
  pub batch_id : ℕ
  pub supplier_id : ℕ
  pub fields : List String

-- `best_doc_value` and `best_conf`, which have the same keys.
abbrev pub Best : Type 0
Best = Dict String (Value × ℕ)

-- `if key not in best_conf or conf > best_conf[key]`
abbrev pub chosen : Option (Value × ℕ) → Best → String → Value → ℕ → Best
chosen none best key value conf = insert key (value, conf) best
chosen (some (old, c)) best key value conf =
    if ltb c conf then insert key (value, conf) best else best

unfoldable pub offer : Best → String → Value → ℕ → Best
offer best key value conf = chosen (lookup key best) best key value conf

-- `cmap.get(key, 0.0)`
abbrev pub confidence_of : Dict String ℕ → String → ℕ
confidence_of cmap key = or_else (lookup key cmap) 0

unfoldable pub offer_fields : Best → Dict String Value → Dict String ℕ → Best
offer_fields best [] cmap = best
offer_fields best ((key, value) ∷ fields) cmap =
    offer_fields (offer best key value (confidence_of cmap key)) fields cmap

-- The loop over the records; one that is not confirmed is passed over.
unfoldable pub offer_records : Best → List ExtractionRecord → Best
offer_records best [] = best
offer_records best (r ∷ rs) =
    let next =
      if r.supplier_confirmed then offer_fields best r.parsed_fields r.confidence_map else best in
    offer_records next rs

module _ (head_number : String → Option ℤ) where
  -- `_coerce_number`
  unfoldable pub coerce_number : Value → Option ℤ
  coerce_number (boolean b) = none
  coerce_number (number n) = some n
  coerce_number (string s) = head_number s
  coerce_number other = none

  -- Numeric only if both sides are numbers.
  unfoldable pub compared : Value → Value → Compared
  compared confirmed document = elim (coerce_number confirmed) [
    | none ↦ textual confirmed document
    | some c ↦ elim (coerce_number document) [
      | none ↦ textual confirmed document
      | some d ↦ numeric c d
    ]
  ]

  -- The second loop of `get_integrity_pairs`: a key without a document's value has no pair.
  unfoldable pub pairs_of : Dict String Value → Best → List IntegrityPair
  pairs_of [] best = []
  pairs_of ((key, confirmed) ∷ fields) best =
      let rest = pairs_of fields best in
      elim (lookup key best) [
        | none ↦ rest
        | some (document, conf) ↦
            record { field = key; compared = compared confirmed document; confidence = conf } ∷ rest
      ]

  -- `get_integrity_pairs`; without confirmed fields there is no pair
  unfoldable pub get_integrity_pairs :
      Dict String Value → List ExtractionRecord → List IntegrityPair
  get_integrity_pairs confirmed_fields records =
      pairs_of confirmed_fields (offer_records [] records)

-- `abs`
abbrev pub abs : ℤ → ℕ
abs x = pos_part x + neg_part x

-- `base`
unfoldable pub base_of : ℤ → ℤ → ℕ
base_of c d = if abs c == 0 then abs d else abs c

-- `base > 0 and abs(c_val - d_val) / base > _NUMERIC_TOLERANCE`: floating-point subtraction, division and
-- comparison with 0.05 of the two values and the base are a parameter.
unfoldable pub is_off : (ℤ → ℤ → ℕ → Bool) → ℤ → ℤ → Bool
is_off over_tolerance c d = ltb 0 (base_of c d) && over_tolerance c d (base_of c d)

module _ (over_tolerance : ℤ → ℤ → ℕ → Bool) (stripped : Value → String) where
  unfoldable pub is_mismatch : Compared → Bool
  is_mismatch (numeric c d) = is_off over_tolerance c d
  is_mismatch (textual a b) = not (str_eq (stripped a) (stripped b))

  abbrev pub mismatches : IntegrityPair → Bool
  mismatches p = is_mismatch p.compared

  module _ (head_number : String → Option ℤ) where
    -- `verify_document_integrity_rule`: the outcome, and the rows of compliance_results after it.
    unfoldable pub verify_document_integrity_rule :
        ℕ
        → ℕ
        → Dict String Value
        → List ExtractionRecord
        → List IntegrityReject
        → Bool × List IntegrityReject
    verify_document_integrity_rule batch supplier confirmed_fields records rows =
        let found = keep mismatches (get_integrity_pairs head_number confirmed_fields records) in
        if null found then (true, rows) else (
          false,
          rows
              ++ record {
                batch_id = batch;
                supplier_id = supplier;
                fields = map (λ (p : IntegrityPair). p.field) found;
              }
                ∷ [],
        )
