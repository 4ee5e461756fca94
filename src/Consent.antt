-- ===== src/Consent.antt =====
-- The contracts on the provision of data: backend/domains/data_consent (repository.py, service.py,
-- router.py) on the table data_provision_consents. The clock is an argument.
pub mod Lifecycle
mod Tests
use project_main.Prelude.{
  ℕ, suc, String, Bool, true, false, not, ◌&&◌, ◌||◌, Option, none, some, List, [], ◌∷◌, ◌++◌, ◌==◌,
  leb, if◌then◌else◌, any, find, keep, update_where, str_eq, Result, ok, err, http, integrity_error,
  raise_if, ◌>>=◌, ◌>>◌,
}

-- status (chk_data_consent_status)
pub data ConsentStatus : Type 0 where
  requested returned agreed rejected revoked expired : ConsentStatus

-- A row of data_provision_consents; texts of the terms that no operation reads are left out.
pub record DataConsent : Type 0 where
  pub consent_id : ℕ
  pub supplier_id : ℕ
  pub tenant_id : Option ℕ
  pub purpose : String
  pub revocable : Bool
  pub status : ConsentStatus
  pub requested_at : Option ℕ
  pub returned_at : Option ℕ
  pub agreed_at : Option ℕ
  pub revoked_at : Option ℕ
  pub signer_name : Option String
  pub signer_title : Option String
  pub signer_email : Option String
  pub signature_method : Option String
  pub form_data : Option String
  pub document_file_id : Option ℕ
  pub agreement_hash : Option String
  pub created_at : ℕ

pub record ConsentCreateBody : Type 0 where
  pub supplier_id : ℕ
  pub purpose : String
  pub revocable : Bool

pub record ConsentUpdateBody : Type 0 where
  pub status : String
  pub signer_name : Option String
  pub signer_title : Option String
  pub signer_email : Option String
  pub signature_method : Option String
  pub form_data : Option String
  pub document_file_id : Option ℕ
  pub agreement_hash : Option String

-- The table, and the ids of the suppliers and files that its foreign keys refer to.
pub record ConsentDb : Type 0 where
  pub consents : List DataConsent
  pub suppliers : List ℕ
  pub files : List ℕ
  pub next_id : ℕ

-- The texts that the check of the column admits.
abbrev pub parse_status : String → Option ConsentStatus
parse_status s =
    if str_eq s "requested"
    then some requested
    else if str_eq s "returned"
    then some returned
    else if str_eq s "agreed"
    then some agreed
    else if str_eq s "rejected"
    then some rejected
    else if str_eq s "revoked"
    then some revoked
    else if str_eq s "expired"
    then some expired
    else none

-- chk_consent_sig_method, which a NULL passes
abbrev pub is_method : Option String → Bool
is_method none = true
is_method (some m) = str_eq m "email_form" || (str_eq m "e_sign" || str_eq m "wet_signature")

abbrev pub is_file : List ℕ → Option ℕ → Bool
is_file files none = true
is_file files (some f) = any (λ g. f == g) files

abbrev pub is_consent : ℕ → DataConsent → Bool
is_consent id c = id == c.consent_id

-- `COALESCE(:new, old)`
abbrev pub coalesce {ℓ} : {A : Type ℓ} → Option A → Option A → Option A
coalesce none old = old
coalesce (some new) old = some new

-- The column of the status gets the time; the other statuses have none.
abbrev pub stamped : ConsentStatus → ℕ → DataConsent → DataConsent
stamped returned now c = record c { returned_at = some now }
stamped agreed now c = record c { agreed_at = some now }
stamped revoked now c = record c { revoked_at = some now }
stamped _ now c = c

abbrev pub answered : ConsentStatus → ConsentUpdateBody → ℕ → DataConsent → DataConsent
answered s body now c = stamped s now (record c {
  status = s;
  signer_name = coalesce body.signer_name c.signer_name;
  signer_title = coalesce body.signer_title c.signer_title;
  signer_email = coalesce body.signer_email c.signer_email;
  signature_method = coalesce body.signature_method c.signature_method;
  form_data = coalesce body.form_data c.form_data;
  document_file_id = coalesce body.document_file_id c.document_file_id;
  agreement_hash = coalesce body.agreement_hash c.agreement_hash;
})

-- The update of a row that is there, with the constraints of the table.
unfoldable pub write_answer :
    ConsentDb
    → ℕ
    → ConsentUpdateBody
    → ℕ
    → DataConsent
    → Option ConsentStatus
    → Result (DataConsent × ConsentDb)
write_answer db id body now c none = err integrity_error
write_answer db id body now c (some s) = do
  raise_if (not (is_method body.signature_method && is_file db.files body.document_file_id))
      integrity_error
  ok (
    answered s body now c,
    record db { consents = update_where (is_consent id) (answered s body now) db.consents },
  )

-- `update_status`, `update_consent` and the 404 of the endpoint; the user's tenant is not read
unfoldable pub update_consent_endpoint :
    ConsentDb → Option ℕ → ℕ → ConsentUpdateBody → ℕ → Result (DataConsent × ConsentDb)
update_consent_endpoint db tenant id body now = elim (find (is_consent id) db.consents) [
  | none ↦ err (http 404)
  | some c ↦ write_answer db id body now c (parse_status body.status)
]

abbrev pub offered : ConsentDb → Option ℕ → ConsentCreateBody → ℕ → DataConsent
offered db tenant body now = record {
  consent_id = db.next_id;
  supplier_id = body.supplier_id;
  tenant_id = tenant;
  purpose = body.purpose;
  revocable = body.revocable;
  status = requested;
  requested_at = some now;
  returned_at = none;
  agreed_at = none;
  revoked_at = none;
  signer_name = none;
  signer_title = none;
  signer_email = none;
  signature_method = none;
  form_data = none;
  document_file_id = none;
  agreement_hash = none;
  created_at = now;
}

-- `create`, `create_consent` and the endpoint
unfoldable pub create_consent :
    ConsentDb → Option ℕ → ConsentCreateBody → ℕ → Result (DataConsent × ConsentDb)
create_consent db tenant body now = do
  raise_if (not (any (λ s. body.supplier_id == s) db.suppliers)) integrity_error
  ok (
    offered db tenant body now,
    record db {
      consents = db.consents ++ offered db tenant body now ∷ [];
      next_id = suc db.next_id;
    },
  )

-- `tenant_id = :tid OR tenant_id IS NULL`, which is left out without a tenant
abbrev pub of_tenant : Option ℕ → Option ℕ → Bool
of_tenant none owner = true
of_tenant (some t) none = true
of_tenant (some t) (some owner) = t == owner

abbrev pub listed : ℕ → Option ℕ → DataConsent → Bool
listed supplier tenant c = supplier == c.supplier_id && of_tenant tenant c.tenant_id

-- `ORDER BY created_at DESC`
unfoldable pub insert_newest : DataConsent → List DataConsent → List DataConsent
insert_newest c [] = c ∷ []
insert_newest c (d ∷ ds) =
    let rest = insert_newest c ds in if leb d.created_at c.created_at then c ∷ d ∷ ds else d ∷ rest

unfoldable pub newest_first : List DataConsent → List DataConsent
newest_first [] = []
newest_first (c ∷ cs) = insert_newest c (newest_first cs)

-- `list_by_supplier`
unfoldable pub list_consents : ConsentDb → ℕ → Option ℕ → List DataConsent
list_consents db supplier tenant = newest_first (keep (listed supplier tenant) db.consents)
