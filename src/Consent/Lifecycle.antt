-- ===== src/Consent/Lifecycle.antt =====
-- The states of contracts on data (backend/domains/data_consent), and who sees and changes them.
use project_main.Prelude.{
  ℕ, ◌≡◌, refl, Bool, true, false, ◌&&◌, Option, none, some, List, [], ◌∷◌, ◌==◌, arith, leb, any,
  find, keep, update_where, All, All-append, Result, ok, err, Bool-cases, Option-cases, inl, inr,
}
use project_main.Consent.{
  ConsentStatus, requested, returned, agreed, rejected, revoked, expired, DataConsent,
  ConsentCreateBody, ConsentUpdateBody, ConsentDb, parse_status, is_method, is_file, is_consent,
  answered, write_answer, update_consent_endpoint, offered, create_consent, of_tenant, listed,
  insert_newest, newest_first, list_consents,
}

abbrev pub is_set : Option ℕ → Bool
is_set none = false
is_set (some t) = true

-- The time of the status is recorded, for the statuses that have one.
abbrev pub dated : ConsentStatus → DataConsent → Bool
dated requested c = is_set c.requested_at
dated returned c = is_set c.returned_at
dated agreed c = is_set c.agreed_at
dated revoked c = is_set c.revoked_at
dated rejected c = true
dated expired c = true

abbrev pub IsDated : DataConsent → Type 0
IsDated c = (dated c.status c ≡ true) × (is_set c.requested_at ≡ true)

answered-IsDated :
    (s : ConsentStatus) (body : ConsentUpdateBody) (now : ℕ) (c : DataConsent)
    → IsDated c
    → IsDated (answered s body now c)
answered-IsDated requested body now c (h, k) = (k, k)
answered-IsDated returned body now c (h, k) = (refl, k)
answered-IsDated agreed body now c (h, k) = (refl, k)
answered-IsDated rejected body now c (h, k) = (refl, k)
answered-IsDated revoked body now c (h, k) = (refl, k)
answered-IsDated expired body now c (h, k) = (refl, k)

update_where-IsDated :
    (q : DataConsent → Bool) (s : ConsentStatus) (body : ConsentUpdateBody) (now : ℕ)
    (cs : List DataConsent)
    → All IsDated cs
    → All IsDated (update_where q (answered s body now) cs)
update_where-IsDated q s body now [] h = tt
update_where-IsDated q s body now (c ∷ cs) (d, h) = elim (Bool-cases (q c)) [
  | inl k ↦ rw k (answered-IsDated s body now c d, update_where-IsDated q s body now cs h)
  | inr k ↦ rw k (d, update_where-IsDated q s body now cs h)
]

-- The calls of the endpoints that write, with the user's tenant and the time.
pub data ConsentCall : Type 0 where
  creation : Option ℕ → ConsentCreateBody → ℕ → ConsentCall
  answer : Option ℕ → ℕ → ConsentUpdateBody → ℕ → ConsentCall

-- The table after a call; a call that raises is rolled back.
abbrev pub committed : ConsentDb → Result (DataConsent × ConsentDb) → ConsentDb
committed db (err e) = db
committed db (ok out) = out.1

unfoldable pub call_all : ConsentDb → List ConsentCall → ConsentDb
call_all db [] = db
call_all db (creation t body now ∷ cs) = call_all (committed db (create_consent db t body now)) cs
call_all db (answer t id body now ∷ cs) =
    call_all (committed db (update_consent_endpoint db t id body now)) cs

abbrev pub AllDated : ConsentDb → Type 0
AllDated db = All IsDated db.consents

create_consent-AllDated :
    (db : ConsentDb) (t : Option ℕ) (body : ConsentCreateBody) (now : ℕ)
    → AllDated db
    → AllDated (committed db (create_consent db t body now))
unfolding create_consent
create_consent-AllDated db t body now h =
    elim (Bool-cases (any (λ s. body.supplier_id == s) db.suppliers)) [
      | inl e ↦
          simp (e, create_consent)
            (All-append IsDated db.consents (offered db t body now ∷ []) h ((refl, refl), tt))
      | inr e ↦ simp (e, create_consent) h
    ]

write_answer-AllDated :
    (db : ConsentDb) (id : ℕ) (body : ConsentUpdateBody) (now : ℕ) (c : DataConsent)
    (s : Option ConsentStatus)
    → AllDated db
    → AllDated (committed db (write_answer db id body now c s))
unfolding write_answer
write_answer-AllDated db id body now c none h = h
write_answer-AllDated db id body now c (some s) h =
    elim (Bool-cases (is_method body.signature_method && is_file db.files body.document_file_id)) [
      | inl e ↦ rw e (update_where-IsDated (is_consent id) s body now db.consents h)
      | inr e ↦ rw e h
    ]

update-AllDated :
    (db : ConsentDb) (t : Option ℕ) (id : ℕ) (body : ConsentUpdateBody) (now : ℕ)
    → AllDated db
    → AllDated (committed db (update_consent_endpoint db t id body now))
unfolding update_consent_endpoint
update-AllDated db t id body now h = elim (Option-cases (find (is_consent id) db.consents)) [
  | inl e ↦ rw (e, update_consent_endpoint) h
  | inr (c, e) ↦
      rw (e, update_consent_endpoint)
        (write_answer-AllDated db id body now c (parse_status body.status) h)
]

-- After any calls of the endpoints, with refused ones among them, every contract has the time at which
-- it was requested, and one that is returned, agreed or revoked has the time of that.
pub call_all-AllDated :
    (db : ConsentDb) (cs : List ConsentCall) → AllDated db → AllDated (call_all db cs)
unfolding call_all
call_all-AllDated db [] h = h
call_all-AllDated db (creation t body now ∷ cs) h =
    call_all-AllDated (committed db (create_consent db t body now)) cs
      (create_consent-AllDated db t body now h)
call_all-AllDated db (answer t id body now ∷ cs) h =
    call_all-AllDated (committed db (update_consent_endpoint db t id body now)) cs
      (update-AllDated db t id body now h)

insert_newest-All :
    (P : DataConsent → Type 0) (c : DataConsent) (ds : List DataConsent)
    → P c
    → All P ds
    → All P (insert_newest c ds)
unfolding insert_newest
insert_newest-All P c [] p h = (p, tt)
insert_newest-All P c (d ∷ ds) p (q, h) = elim (Bool-cases (leb d.created_at c.created_at)) [
  | inl k ↦ rw k (p, (q, h))
  | inr k ↦ rw k (q, insert_newest-All P c ds p h)
]

abbrev pub IsSeen : Option ℕ → DataConsent → Type 0
IsSeen tenant c = of_tenant tenant c.tenant_id ≡ true

seen :
    (supplier : ℕ) (tenant : Option ℕ) (cs : List DataConsent)
    → All (IsSeen tenant) (newest_first (keep (listed supplier tenant) cs))
unfolding newest_first
seen supplier tenant [] = tt
seen supplier tenant (c ∷ cs) = elim (Bool-cases (listed supplier tenant c)) [
  | inl k ↦ rw k (
      insert_newest-All (IsSeen tenant) c (newest_first (keep (listed supplier tenant) cs))
        (ground (arith, k)) (seen supplier tenant cs))
  | inr k ↦ rw k (seen supplier tenant cs)
]

abbrev pub revocation : ConsentUpdateBody
revocation = record {
  status = "revoked";
  signer_name = none;
  signer_title = none;
  signer_email = none;
  signature_method = none;
  form_data = none;
  document_file_id = none;
  agreement_hash = none;
}

-- A user of any tenant revokes any contract that exists, whatever its status is, whether it is
-- revocable or not, and also where the lists of that tenant, which hold only its own contracts and
-- those without a tenant, do not show it.
pub update_consent_endpoint_any :
    (db : ConsentDb) (tenant : Option ℕ) (id supplier now : ℕ) (c : DataConsent)
    → find (is_consent id) db.consents ≡ some c
    → All (IsSeen tenant) (list_consents db supplier tenant)
      × (update_consent_endpoint db tenant id revocation now
          ≡ ok (
            answered revoked revocation now c,
            record db {
              consents = update_where (is_consent id) (answered revoked revocation now) db.consents;
            },
          ))
unfolding list_consents update_consent_endpoint write_answer
update_consent_endpoint_any db tenant id supplier now c e =
    (seen supplier tenant db.consents, rw (e, update_consent_endpoint) refl)
