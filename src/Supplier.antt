-- ===== src/Supplier.antt =====
-- backend/domains/supplier (state_machine.py, service.py, repository.py): a supplier's status, its
-- invitation, its sign-up and the risk score written from outside; with the accounts of
-- backend/domains/users/repository.py that the sign-up reads and writes. The country and the address
-- of the sign-up are left out, and the hash of a password is a parameter.
pub mod Onboarding
pub mod Status
mod Tests
use project_main.Prelude.{
  ℕ, ◌+◌, String, Bool, true, false, not, ◌&&◌, ◌||◌, Option, none, some, List, [], ◌∷◌, ◌++◌, ◌==◌,
  if◌then◌else◌, or_else, is_some, Result, ok, err, value_error, http, ◌>>=◌, ◌>>◌, raise_if, find,
  any, keep, update_where, str_eq, ltb, leb,
}
use project_main.Prelude.Int.{ℤ, pos, min_ℤ, max_ℤ, leb_ℤ}
use project_main.Schema.{RiskLevel, low, medium, high, critical}
use project_main.Risk.{RiskProfile, new_profile}

-- suppliers.status (chk_supplier_status)
pub data SupplierStatus : Type 0 where
  supplier_pending supplier_requested supplier_in_progress supplier_review : SupplierStatus
  supplier_verified supplier_violation supplier_suspended : SupplierStatus

abbrev pub status_number : SupplierStatus → ℕ
status_number supplier_pending = 0
status_number supplier_requested = 1
status_number supplier_in_progress = 2
status_number supplier_review = 3
status_number supplier_verified = 4
status_number supplier_violation = 5
status_number supplier_suspended = 6

-- SUPPLIER_TRANSITIONS
abbrev pub supplier_transitions : SupplierStatus → List SupplierStatus
supplier_transitions supplier_pending = supplier_requested ∷ []
supplier_transitions supplier_requested = supplier_in_progress ∷ []
supplier_transitions supplier_in_progress = supplier_review ∷ []
supplier_transitions supplier_review = supplier_verified ∷ supplier_violation ∷ []
supplier_transitions supplier_verified = supplier_violation ∷ supplier_suspended ∷ []
supplier_transitions supplier_violation = supplier_review ∷ supplier_suspended ∷ []
supplier_transitions supplier_suspended = supplier_review ∷ []

-- The columns of suppliers that the modelled code reads and writes.
pub record SupplierRecord : Type 0 where
  pub supplier_id : ℕ
  pub tenant_id : Option ℕ
  pub company_name : String
  pub business_reg_no : Option String
  pub duns_number : Option String
  pub is_unverified : Bool
  pub business_reg_doc_url : Option String
  pub environmental_report_url : Option String
  pub status : SupplierStatus
  pub risk_level : RiskLevel

pub data Consent : Type 0 where
  consent_pending consent_agreed consent_rejected : Consent

-- A row of supplier_onboarding.
pub record OnboardingRow : Type 0 where
  pub supplier_id : ℕ
  pub consent_status : Consent
  pub consent_signed_at : Option ℕ
  pub last_invited_at : Option ℕ
  pub sla_due_date : ℕ
  pub reminder_count : ℕ

pub record Contact : Type 0 where
  pub name : String
  pub role : Option String
  pub department : Option String
  pub email : Option String
  pub phone : Option String
  pub is_primary : Bool

pub record ContactRow : Type 0 where
  pub supplier_id : ℕ
  pub contact : Contact

pub record Account : Type 0 where
  pub email : String
  pub password_hash : String
  pub role : String
  pub supplier_id : Option ℕ
  pub tenant_id : Option ℕ
  pub name : Option String
  pub is_active : Bool

-- SupplierInvited, SupplierStatusChanged and RiskProfileUpdated, with the fields of their classes.
pub data SupplierEvent : Type 0 where
  supplier_invited : ℕ → String → ℕ → Option ℕ → SupplierEvent
  supplier_status_changed : ℕ → SupplierStatus → SupplierStatus → SupplierEvent
  risk_profile_updated : ℕ → ℤ → RiskLevel → SupplierEvent

pub record SupplierDb : Type 0 where
  pub suppliers : List SupplierRecord
  pub onboardings : List OnboardingRow
  pub contacts : List ContactRow
  pub accounts : List Account
  pub profiles : List RiskProfile
  pub events : List SupplierEvent
  pub next_id : ℕ

abbrev pub is_supplier : ℕ → SupplierRecord → Bool
is_supplier id s = id == s.supplier_id

unfoldable pub can_move : SupplierStatus → SupplierStatus → Bool
can_move from to = any (λ s. status_number to == status_number s) (supplier_transitions from)

-- `transition_supplier_status`
unfoldable pub transition_supplier_status : SupplierRecord → SupplierStatus → Result SupplierRecord
transition_supplier_status supplier new_status = do
  raise_if (not (can_move supplier.status new_status)) value_error
  ok (record supplier { status = new_status })

-- `verify_supplier`; a missing supplier_id in the state and an unknown one are both a ValueError.
unfoldable pub verify_supplier : SupplierDb → Option ℕ → Result SupplierDb
verify_supplier db none = err value_error
verify_supplier db (some id) = elim (find (is_supplier id) db.suppliers) [
  | none ↦ err value_error
  | some supplier ↦ do
    moved ← transition_supplier_status supplier supplier_verified
    ok (record db {
      suppliers = update_where (is_supplier id) (λ _. moved) db.suppliers;
      events =
          db.events
          ++ supplier_status_changed supplier.supplier_id supplier.status supplier_verified ∷ [];
    })
]

-- `SUPPLIER_SLA_DAYS`; times are counted in days
abbrev pub supplier_sla_days : ℕ
supplier_sla_days = 14

abbrev pub contact_rows : ℕ → List Contact → List ContactRow
contact_rows id [] = []
contact_rows id (c ∷ cs) = record { supplier_id = id; contact = c } ∷ contact_rows id cs

-- `write_master_form_contacts`: the supplier's contacts are replaced.
unfoldable pub write_master_form_contacts : SupplierDb → ℕ → List Contact → SupplierDb
write_master_form_contacts db id cs = record db {
  contacts = keep (λ (r : ContactRow). not (id == r.supplier_id)) db.contacts ++ contact_rows id cs;
}

abbrev pub invited_supplier : ℕ → Option ℕ → String → SupplierRecord
invited_supplier id tenant name = record {
  supplier_id = id;
  tenant_id = tenant;
  company_name = name;
  business_reg_no = none;
  duns_number = none;
  is_unverified = false;
  business_reg_doc_url = none;
  environmental_report_url = none;
  status = supplier_pending;
  risk_level = low;
}

-- `create_supplier_and_invite`, for a tenant and a company's name
unfoldable pub create_supplier_and_invite :
    SupplierDb → Option ℕ → String → String → Option ℕ → List Contact → ℕ → SupplierDb
create_supplier_and_invite db tenant name email inviter cs now =
    let id = db.next_id in
    let made = record db {
      suppliers = db.suppliers ++ invited_supplier id tenant name ∷ [];
      profiles = db.profiles ++ new_profile id ∷ [];
      onboardings =
          db.onboardings
          ++ record {
            supplier_id = id;
            consent_status = consent_pending;
            consent_signed_at = none;
            last_invited_at = some now;
            sla_due_date = now + supplier_sla_days;
            reminder_count = 0;
          }
            ∷ [];
      events = db.events ++ supplier_invited id email (now + supplier_sla_days) inviter ∷ [];
      next_id = db.next_id + 1;
    } in
    write_master_form_contacts made id cs

-- `_score_to_risk_level`
unfoldable pub score_to_risk_level : ℤ → RiskLevel
score_to_risk_level score =
    if leb_ℤ (pos 70) score
    then critical
    else if leb_ℤ (pos 50) score
    then high
    else if leb_ℤ (pos 30) score
    then medium
    else low

abbrev pub of_supplier : ℕ → RiskProfile → Bool
of_supplier id p = id == p.supplier_id

-- `upsert_risk_profile`: score and level are written, and a new row has the defaults elsewhere.
unfoldable pub upsert_risk_profile : List RiskProfile → ℕ → ℤ → RiskLevel → List RiskProfile
upsert_risk_profile ps id score level =
    if any (of_supplier id) ps
    then update_where (of_supplier id)
        (λ p. record p { overall_risk_score = some score; risk_level = level }) ps
    else ps ++ record (new_profile id) { overall_risk_score = some score; risk_level = level } ∷ []

-- `upsert_risk_score`; an unknown supplier has no profile to refer to
unfoldable pub upsert_risk_score : SupplierDb → ℕ → ℤ → SupplierDb
upsert_risk_score db id score =
    let cut = max_ℤ (pos 0) (min_ℤ (pos 100) score) in
    let level = score_to_risk_level cut in
    record db {
      profiles = upsert_risk_profile db.profiles id cut level;
      suppliers = update_where (is_supplier id) (λ s. record s { risk_level = level }) db.suppliers;
      events = db.events ++ risk_profile_updated id cut level ∷ [];
    }

-- `PATCH /suppliers/{supplier_id}/risk-score`, for a user of a tenant
unfoldable pub update_risk_score_endpoint : SupplierDb → Option ℕ → ℕ → ℤ → Result SupplierDb
update_risk_score_endpoint db tenant id score = do
  raise_if (not (leb_ℤ (pos 0) score && leb_ℤ score (pos 100))) (http 422)
  raise_if
      (not (
        any
          (λ (s : SupplierRecord). id == s.supplier_id && elim tenant [
            | none ↦ true
            | some t ↦ elim s.tenant_id [ none ↦ false | some u ↦ t == u ]
          ])
          db.suppliers))
      (http 404)
  ok (upsert_risk_score db id score)
