-- ===== src/Supplier/Tests.antt =====
-- An invited supplier that signs up, and one that is scored.
use project_main.Prelude.{refl, String, true, false, none, some, [], ◌∷◌, value_or}
use project_main.Risk.{new_profile}
use project_main.Supplier.{
  SupplierDb, consent_pending, write_master_form_contacts, invited_supplier,
}
use project_main.Supplier.Onboarding.{
  OnboardingSubmit, submit_onboarding, signed_up, mark_consent_agreed, build_onboarding_contacts,
  account_name,
}
use project_main.Supplier.Onboarding.Signed.{Consents, submit_onboarding-Consents}

abbrev invited : SupplierDb
invited = record {
  suppliers = invited_supplier 4 (some 1) "Cathode" ∷ [];
  onboardings =
      record {
        supplier_id = 4;
        consent_status = consent_pending;
        consent_signed_at = none;
        last_invited_at = none;
        sla_due_date = 14;
        reminder_count = 0;
      }
      ∷ [];
  contacts = [];
  accounts = [];
  profiles = new_profile 4 ∷ [];
  events = [];
  next_id = 5;
}

abbrev form : OnboardingSubmit
form = record {
  email = "ceo@cathode";
  password = "secret";
  company_name = "Cathode";
  business_reg_no = none;
  duns_number = none;
  department = none;
  business_reg_doc = none;
  environmental_report = none;
  unverified = true;
  consent_agreed = false;
  contacts = [];
}

abbrev hash : String → String
hash s = "hash"

abbrev signed : SupplierDb
signed = value_or (submit_onboarding hash invited 4 form 3) invited

submit_onboarding-Consents_example : Consents 4 signed
unfolding submit_onboarding signed_up mark_consent_agreed write_master_form_contacts
    build_onboarding_contacts account_name
submit_onboarding-Consents_example = submit_onboarding-Consents hash invited 4 form 3 signed refl
