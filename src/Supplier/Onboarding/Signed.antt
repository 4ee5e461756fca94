-- ===== src/Supplier/Onboarding/Signed.antt =====
-- What a sign-up (backend/domains/supplier/service.py: submit_onboarding) leaves.
use project_main.Prelude.{
  ℕ, ◌≡◌, refl, String, Bool, true, not, Option, none, some, List, [], ◌∷◌, ◌++◌, ==_iff, arith, ok,
  err, http, raise_if-eq-ok, ok-injective, err-ne-ok, find, any, null, keep, update_where,
  Option-cases, Bool-cases, inl, inr, subst, sym, ap, ◌∙◌, All, find-passes, is_some,
}
use project_main.Supplier.{
  SupplierRecord, SupplierDb, OnboardingRow, Contact, Account, supplier_review, consent_agreed,
  is_supplier, write_master_form_contacts,
}
use project_main.Supplier.Onboarding.{
  OnboardingSubmit, primary, built_rest, build_onboarding_contacts, of_onboarding,
  mark_consent_agreed, is_active_of, signed_supplier, signed_up, submit_onboarding,
}

any-built_rest :
    (department : Option String) (cs : List Contact)
    → any primary (built_rest department cs) ≡ any primary cs
any-built_rest department [] = refl
any-built_rest department (c ∷ cs) = ground (arith, any-built_rest department cs)

-- Where contacts are given, one of those that are stored is primary.
pub build_onboarding_contacts-primary :
    (department : Option String) (cs : List Contact)
    → any primary (build_onboarding_contacts department cs) ≡ not (null cs)
unfolding build_onboarding_contacts
build_onboarding_contacts-primary department [] = refl
build_onboarding_contacts-primary department (c ∷ cs) = ground (arith, any-built_rest department cs)

any-last_active :
    (id : ℕ) (rows : List Account) (a : Account)
    → is_active_of id a ≡ true
    → any (is_active_of id) (rows ++ a ∷ []) ≡ true
any-last_active id [] a h = ground arith
any-last_active id (b ∷ rows) a h = ground (arith, any-last_active id rows a h)

-- A row is found again after an update that keeps what it is found by.
is_some-find-update_where {ℓ} :
    {A : Type ℓ} (p q : A → Bool) (f : A → A) (xs : List A)
    → ((x : A) → p (f x) ≡ p x)
    → is_some (find p (update_where q f xs)) ≡ is_some (find p xs)
is_some-find-update_where p q f [] k = refl
is_some-find-update_where p q f (x ∷ xs) k =
    ground (arith, is_some-find-update_where p q f xs k, k x)

is_some-cases {ℓ} : {A : Type ℓ} (o : Option A) → is_some o ≡ true → (a : A) × (o ≡ some a)
is_some-cases none h = cc
is_some-cases (some a) h = (a, refl)

-- The rows that an update selects have what it writes.
All-updated {ℓ} :
    {A : Type ℓ} (P : A → Type 0) (p : A → Bool) (f : A → A) (xs : List A)
    → ((x : A) → p (f x) ≡ p x)
    → ((x : A) → P (f x))
    → All P (keep p (update_where p f xs))
All-updated P p f [] kept holds = tt
All-updated P p f (x ∷ xs) kept holds = elim (Bool-cases (p x)) [
  | inl e ↦ rw e (rw (kept x) (rw e (holds x, All-updated P p f xs kept holds)))
  | inr e ↦ rw e (rw e (All-updated P p f xs kept holds))
]

-- The supplier has consented in all its rows, and is under review.
abbrev pub Consents : ℕ → SupplierDb → Type 0
Consents id db =
    All (λ (o : OnboardingRow). o.consent_status ≡ consent_agreed)
      (keep (of_onboarding id) db.onboardings)
    × All (λ (s : SupplierRecord). s.status ≡ supplier_review) (keep (is_supplier id) db.suppliers)

module _ (get_password_hash : String → String) where
  submitted :
      (db : SupplierDb) (id : ℕ) (body : OnboardingSubmit) (now : ℕ) (db' : SupplierDb)
      → submit_onboarding get_password_hash db id body now ≡ ok db'
      → (s : SupplierRecord) × (find (is_supplier id) db.suppliers ≡ some s)
        × (signed_up get_password_hash db s body now ≡ db')
  unfolding submit_onboarding
  submitted db id body now db' h = elim (Option-cases (find (is_supplier id) db.suppliers)) [
    | inl e ↦ absurd (err-ne-ok (rw (e, submit_onboarding) at h))
    | inr (s, e) ↦
        let (_, h1) = raise_if-eq-ok _ (http 409) _ (rw (e, submit_onboarding) at h) in
        let (_, h2) = raise_if-eq-ok _ (http 409) _ h1 in (s, e, ok-injective h2)
  ]

  refused :
      (db : SupplierDb) (id : ℕ) (body : OnboardingSubmit) (now : ℕ)
      → is_some (find (is_supplier id) db.suppliers) ≡ true
      → any (is_active_of id) db.accounts ≡ true
      → submit_onboarding get_password_hash db id body now ≡ err (http 409)
  unfolding submit_onboarding
  refused db id body now known active =
      let (s, e) = is_some-cases (find (is_supplier id) db.suppliers) known in
      rw (e, submit_onboarding) (rw active refl)

  -- After a sign-up of a supplier every further one for it is refused with a 409.
  pub submit_onboarding_twice :
      (db : SupplierDb) (id : ℕ) (body again : OnboardingSubmit) (now later : ℕ) (db' : SupplierDb)
      → submit_onboarding get_password_hash db id body now ≡ ok db'
      → submit_onboarding get_password_hash db' id again later ≡ err (http 409)
  unfolding signed_up write_master_form_contacts
  submit_onboarding_twice db id body again now later db' h =
      let (s, found, e) = submitted db id body now db' h in
      let same = find-passes (is_supplier id) db.suppliers s found in
      subst
        (λ (x : SupplierDb). submit_onboarding get_password_hash x id again later ≡ err (http 409))
        e
        (refused (signed_up get_password_hash db s body now) id again later
          (is_some-find-update_where (is_supplier id) (is_supplier s.supplier_id)
              (signed_supplier body) db.suppliers (λ x. refl)
            ∙ ap is_some found)
          (any-last_active id db.accounts _ (rw same refl)))

  -- A sign-up records the consent of the supplier in all its onboarding rows, whatever the request says
  -- about consent, and puts the supplier under review.
  pub submit_onboarding-Consents :
      (db : SupplierDb) (id : ℕ) (body : OnboardingSubmit) (now : ℕ) (db' : SupplierDb)
      → submit_onboarding get_password_hash db id body now ≡ ok db'
      → Consents id db'
  unfolding signed_up write_master_form_contacts mark_consent_agreed
  submit_onboarding-Consents db id body now db' h =
      let (s, found, e) = submitted db id body now db' h in
      let same = (==_iff id s.supplier_id).0 (find-passes (is_supplier id) db.suppliers s found) in
      subst (Consents id) e (
        subst (λ j. Consents j (signed_up get_password_hash db s body now)) (sym same)
          (
            All-updated (λ (o : OnboardingRow). o.consent_status ≡ consent_agreed)
                (of_onboarding s.supplier_id) _ db.onboardings (λ x. refl) (λ x. refl),
            All-updated (λ (x : SupplierRecord). x.status ≡ supplier_review)
                (is_supplier s.supplier_id) (signed_supplier body) db.suppliers (λ x. refl)
                (λ x. refl),
          ))
