-- ===== src/Supplier/Onboarding.antt =====
-- The sign-up of a supplier (backend/domains/supplier/service.py: submit_onboarding, and its endpoint
-- in router.py).
pub mod Signed
use project_main.Prelude.{
  ℕ, String, Bool, true, false, not, ◌&&◌, ◌||◌, Option, none, some, List, [], ◌∷◌, ◌++◌, ◌==◌,
  if◌then◌else◌, is_some, Result, ok, err, http, ◌>>=◌, ◌>>◌, raise_if, find, any, update_where,
  str_eq,
}
use project_main.Supplier.{
  SupplierRecord, SupplierDb, OnboardingRow, Contact, Account, supplier_review, consent_agreed,
  is_supplier, write_master_form_contacts,
}

-- The request's body.
pub record OnboardingSubmit : Type 0 where
  pub email : String
  pub password : String
  pub company_name : String
  pub business_reg_no : Option String
  pub duns_number : Option String
  pub department : Option String
  pub business_reg_doc : Option String
  pub environmental_report : Option String
  pub unverified : Bool
  pub consent_agreed : Bool
  pub contacts : List Contact

-- `a or b` for texts that may be missing or empty
abbrev pub or_text : Option String → Option String → Option String
or_text none b = b
or_text (some t) b = if str_eq t "" then b else some t

abbrev pub built : Option String → Bool → Contact → Contact
built department primary c = record c {
  department = or_text c.department (if primary then department else none);
  is_primary = primary;
}

-- The contacts after the first.
abbrev pub built_rest : Option String → List Contact → List Contact
built_rest department [] = []
built_rest department (c ∷ cs) = built department c.is_primary c ∷ built_rest department cs

abbrev pub primary : Contact → Bool
primary c = c.is_primary

-- `_build_onboarding_contacts`: without a primary contact the first one is made it.
unfoldable pub build_onboarding_contacts : Option String → List Contact → List Contact
build_onboarding_contacts department [] = []
build_onboarding_contacts department (c ∷ cs) =
    built department (c.is_primary || not (any primary (c ∷ cs))) c ∷ built_rest department cs

-- A given value is written, a missing one leaves the column.
abbrev pub given : Option String → Option String → Option String
given none old = old
given (some new) old = some new

abbrev pub signed_supplier : OnboardingSubmit → SupplierRecord → SupplierRecord
signed_supplier body s = record s {
  company_name = body.company_name;
  business_reg_no = given body.business_reg_no s.business_reg_no;
  duns_number = given body.duns_number s.duns_number;
  is_unverified = body.unverified;
  business_reg_doc_url = given body.business_reg_doc s.business_reg_doc_url;
  environmental_report_url = given body.environmental_report s.environmental_report_url;
  status = supplier_review;
}

abbrev pub of_onboarding : ℕ → OnboardingRow → Bool
of_onboarding id o = id == o.supplier_id

-- `mark_consent_agreed`
unfoldable pub mark_consent_agreed : List OnboardingRow → ℕ → ℕ → List OnboardingRow
mark_consent_agreed rows id now =
    update_where (of_onboarding id)
      (λ o. record o { consent_status = consent_agreed; consent_signed_at = some now }) rows

-- `get_active_by_supplier_id` finds a row
abbrev pub is_active_of : ℕ → Account → Bool
is_active_of id a = elim a.supplier_id [ none ↦ false | some s ↦ id == s && a.is_active ]

-- The name of the first primary contact, or of the first.
unfoldable pub account_name : List Contact → Option String
account_name [] = none
account_name (c ∷ cs) = elim (find primary (c ∷ cs)) [ none ↦ some c.name | some p ↦ some p.name ]

module _ (get_password_hash : String → String) where
  abbrev new_account : ℕ → Option ℕ → OnboardingSubmit → Account
  new_account id tenant body = record {
    email = body.email;
    password_hash = get_password_hash body.password;
    role = "supplier_ceo";
    supplier_id = some id;
    tenant_id = tenant;
    name = account_name body.contacts;
    is_active = true;
  }

  -- What the transaction writes.
  unfoldable pub signed_up : SupplierDb → SupplierRecord → OnboardingSubmit → ℕ → SupplierDb
  signed_up db supplier body now =
      let id = supplier.supplier_id in
      let contacts = build_onboarding_contacts body.department body.contacts in
      write_master_form_contacts
        (record db {
          suppliers = update_where (is_supplier id) (signed_supplier body) db.suppliers;
          onboardings = mark_consent_agreed db.onboardings id now;
          accounts = db.accounts ++ new_account id supplier.tenant_id body ∷ [];
        })
        id contacts

  -- `submit_onboarding` with the statuses of its endpoint
  unfoldable pub submit_onboarding : SupplierDb → ℕ → OnboardingSubmit → ℕ → Result SupplierDb
  submit_onboarding db id body now = elim (find (is_supplier id) db.suppliers) [
    | none ↦ err (http 404)
    | some supplier ↦ do
      raise_if (any (is_active_of id) db.accounts) (http 409)
      raise_if (any (λ (a : Account). str_eq body.email a.email) db.accounts) (http 409)
      ok (signed_up db supplier body now)
  ]
