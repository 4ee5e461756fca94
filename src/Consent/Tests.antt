-- ===== src/Consent/Tests.antt =====
-- A contract that may not be revoked, and a user of another tenant.
use project_main.Prelude.{refl, true, false, none, some, List, [], ◌∷◌}
use project_main.Consent.{agreed, DataConsent, ConsentDb}
use project_main.Consent.Lifecycle.{
  ConsentCall, creation, answer, call_all, AllDated, call_all-AllDated, revocation,
}

abbrev contract : DataConsent
contract = record {
  consent_id = 1;
  supplier_id = 3;
  tenant_id = some 1;
  purpose = "EU_BATTERY";
  revocable = false;
  status = agreed;
  requested_at = some 10;
  returned_at = none;
  agreed_at = some 20;
  revoked_at = none;
  signer_name = some "Kim";
  signer_title = none;
  signer_email = none;
  signature_method = some "e_sign";
  form_data = none;
  document_file_id = none;
  agreement_hash = none;
  created_at = 10;
}

abbrev one_contract : ConsentDb
one_contract = record { consents = contract ∷ []; suppliers = 3 ∷ []; files = []; next_id = 2 }

abbrev calls : List ConsentCall
calls =
    creation (some 2) (record { supplier_id = 3; purpose = "CSDDD"; revocable = true }) 30
    ∷ answer (some 2) 2 revocation 40
    ∷ answer none 9 revocation 50
    ∷ []

call_all-AllDated_example : AllDated (call_all one_contract calls)
call_all-AllDated_example = call_all-AllDated one_contract calls ((refl, refl), tt)
