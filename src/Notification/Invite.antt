-- ===== src/Notification/Invite.antt =====
-- What becomes of the jobs and mails of backend/handlers/supplier_invited.py and
-- backend/handlers/final_validation_notify.py.
use project_main.Prelude.{
  ℕ, ◌≡◌, refl, sym, ap, ◌∙◌, subst, String, Bool, true, false, Option, some, List, [], ◌∷◌, ◌++◌,
  arith, map, any, keep, All, In, inl, inr, Bool-cases, Option-cases, true-ne-false, none,
}
use project_main.Notification.{
  MailConfig, Mail, filled, NoticeJob, NoticeDb, Run, process_all, send_email,
}
use project_main.Notification.Again.{IsRepeat, process_all_again}
use project_main.Notification.Handlers.{
  InviteKey, same_invite, InviteDb, InviteRun, claim_and_send, send_supplier_invitation_email,
  send_invitations, MapScope, SummaryDb, map_summary, ScopeDb, OemUser, scope_of, is_oem_user,
  ready_job, scope_jobs, notify_final_validation_ready, InviteSending, given_to_ses,
}

-- The messages of one supplier and day.
abbrev pub for_invite : InviteKey → InviteSending → Bool
for_invite key sending = same_invite key sending.key

keep-append :
    {A : Type 0} (p : A → Bool) (xs ys : List A) → keep p (xs ++ ys) ≡ keep p xs ++ keep p ys
keep-append p [] ys = refl
keep-append p (x ∷ xs) ys = ground (arith, keep-append p xs ys)

append_nil : {A : Type 0} (xs : List A) → xs ++ [] ≡ xs
append_nil [] = refl
append_nil (x ∷ xs) = ap (λ ys. x ∷ ys) (append_nil xs)

keep_other_key :
    (key other : InviteKey) (taken : Bool) (mails : List Mail)
    → same_invite key other ≡ false
    → keep (for_invite key) (map (given_to_ses other taken) mails) ≡ []
keep_other_key key other taken [] h = refl
keep_other_key key other taken (m ∷ mails) h = rw h (keep_other_key key other taken mails h)

any-append_left :
    {A : Type 0} (p : A → Bool) (xs ys : List A) → any p xs ≡ true → any p (xs ++ ys) ≡ true
any-append_left p [] ys h = cc
any-append_left p (x ∷ xs) ys h = ground (arith, any-append_left p xs ys)

-- A claimed key is not like one that is not claimed.
differs :
    (key other : InviteKey) (ks : List InviteKey)
    → any (same_invite key) ks ≡ true
    → any (same_invite other) ks ≡ false
    → same_invite key other ≡ false
differs key other [] h k = cc
differs key other (x ∷ ks) h k = elim (Bool-cases (same_invite key other)) [
  | inr e ↦ e
  | inl e ↦ elim (Bool-cases (same_invite key x)) [
    | inl hit ↦ absurd (true-ne-false (sym (same_hit e hit) ∙ first_miss))
    | inr miss ↦ differs key other ks (rw miss at h) (rest_miss)
  ]
]
  where
    same_hit : same_invite key other ≡ true → same_invite key x ≡ true → same_invite other x ≡ true
    same_hit e hit = ground (arith, e, hit)

    first_miss : same_invite other x ≡ false
    first_miss = ground (arith, k)

    rest_miss : any (same_invite other) ks ≡ false
    rest_miss = ground (arith, k)

-- The key is claimed, and what is sent for it is the same.
abbrev IsKept : InviteKey → InviteDb → InviteDb → Type 0
IsKept key db db' =
    (any (same_invite key) db'.claimed ≡ true)
    × (keep (for_invite key) db'.outbox ≡ keep (for_invite key) db.outbox)

module _ (config : MailConfig) (invitation_subject : String) (invitation_body : ℕ → String) where
  claimed_skip :
      (db : InviteDb) (key : InviteKey) (ses : Mail → Bool) (to : String)
      → any (same_invite key) db.claimed ≡ true
      → claim_and_send config invitation_subject invitation_body db key ses to ≡ db
  claimed_skip db key ses to h = rw h refl

  any-claimed :
      (db : InviteDb) (key : InviteKey) (ses : Mail → Bool) (to : String)
      → any
          (same_invite key)
          (claim_and_send config invitation_subject invitation_body db key ses to).claimed
        ≡ true
  any-claimed db key ses to = elim (Bool-cases (any (same_invite key) db.claimed)) [
    | inl e ↦ rw (claimed_skip db key ses to e) e
    | inr e ↦ rw e (any-last db.claimed)
  ]
    where
      same : (k : InviteKey) → same_invite k k ≡ true
      same k = ground arith

      any-last : (ks : List InviteKey) → any (same_invite key) (ks ++ key ∷ []) ≡ true
      any-last [] = ground (arith, same key)
      any-last (k ∷ ks) = ground (arith, any-last ks)

  claim_and_send-IsKept :
      (key other : InviteKey) (db : InviteDb) (ses : Mail → Bool) (to : String)
      → any (same_invite key) db.claimed ≡ true
      → IsKept key db (claim_and_send config invitation_subject invitation_body db other ses to)
  claim_and_send-IsKept key other db ses to h =
      elim (Bool-cases (any (same_invite other) db.claimed)) [
        | inl e ↦ rw e (h, refl)
        | inr e ↦
            let answer =
              send_email config ses (to ∷ []) invitation_subject
                (some (invitation_body other.supplier_id)) none in
            rw e (
              any-append_left (same_invite key) db.claimed (other ∷ []) h,
              keep-append (for_invite key) db.outbox (map (given_to_ses other answer.0) answer.1)
                  ∙ ap (λ ys. keep (for_invite key) db.outbox ++ ys)
                      (keep_other_key key other answer.0 answer.1
                        (differs key other db.claimed h e))
                  ∙ append_nil (keep (for_invite key) db.outbox),
            )
      ]

  send-IsKept :
      (key : InviteKey) (db : InviteDb) (r : InviteRun)
      → any (same_invite key) db.claimed ≡ true
      → IsKept key db
          (send_supplier_invitation_email config invitation_subject invitation_body db r)
  unfolding send_supplier_invitation_email
  send-IsKept key db r h = elim (Option-cases r.payload.supplier_id) [
    | inl e ↦ rw e (h, refl)
    | inr (supplier, e) ↦ elim (Option-cases r.payload.email_address) [
      | inl k ↦ rw e (rw k (h, refl))
      | inr (to, k) ↦ elim (Bool-cases (filled to)) [
        | inl f ↦ rw e (
            rw k (
              rw f (
                claim_and_send-IsKept key (record { supplier_id = supplier; day = r.day }) db r.ses
                  to h)))
        | inr f ↦ rw e (rw k (rw f (h, refl)))
      ]
    ]
  ]

  all-IsKept :
      (key : InviteKey) (db : InviteDb) (rs : List InviteRun)
      → any (same_invite key) db.claimed ≡ true
      → keep
          (for_invite key)
          (send_invitations config invitation_subject invitation_body db rs).outbox
        ≡ keep (for_invite key) db.outbox
  unfolding send_invitations
  all-IsKept key db [] h = refl
  all-IsKept key db (r ∷ rs) h =
      let next = send_supplier_invitation_email config invitation_subject invitation_body db r in
      let (claimed, same) = send-IsKept key db r h in all-IsKept key next rs claimed ∙ same

  -- After an invitation of a supplier to an address, whether or not SES has taken its mail, deliveries for
  -- any suppliers, addresses and days, in any order, send nothing more to the supplier on that day.
  pub send_invitations_same_day :
      (db : InviteDb) (r : InviteRun) (supplier : ℕ) (to : String) (rs : List InviteRun)
      → r.payload.supplier_id ≡ some supplier
      → r.payload.email_address ≡ some to
      → filled to ≡ true
      → keep
          (for_invite (record { supplier_id = supplier; day = r.day }))
          (send_invitations config invitation_subject invitation_body db (r ∷ rs)).outbox
        ≡ keep
            (for_invite (record { supplier_id = supplier; day = r.day }))
            (send_supplier_invitation_email config invitation_subject invitation_body db r).outbox
  unfolding send_invitations send_supplier_invitation_email
  send_invitations_same_day db r supplier to rs e a f =
      all-IsKept (record { supplier_id = supplier; day = r.day })
        (send_supplier_invitation_email config invitation_subject invitation_body db r) rs
        (rw e
          (rw a (rw f (any-claimed db (record { supplier_id = supplier; day = r.day }) r.ses to))))

-- The runs of the worker on jobs, at a time and with SES as it is then.
abbrev pub run_of : ℕ → (Mail → Bool) → NoticeJob → Run
run_of now ses job = record { job = job; now = now; ses = ses }

module _ (key_text : ℕ → Option ℕ → ℕ → String) (ready_subject : String)
    (ready_body : ℕ → ℕ → String) where
  -- The jobs that an event gives to the queue.
  abbrev pub final_jobs : (SummaryDb) → ScopeDb → Option ℕ → List NoticeJob
  final_jobs tables db batch =
      notify_final_validation_ready key_text ready_subject ready_body tables db batch

  final_jobs-ready :
      (tables : SummaryDb) (db : ScopeDb) (batch : Option ℕ) (scope : MapScope)
      → scope_of db batch ≡ some scope
      → (map_summary tables scope.product_id scope.tenant_id scope.bom_version_id).ready_for_final
        ≡ true
      → final_jobs tables db batch
        ≡ map
            (ready_job key_text ready_subject ready_body tables scope)
            (keep (is_oem_user scope.tenant_id) db.users)
  unfolding notify_final_validation_ready
  final_jobs-ready tables db batch scope e ready =
      ap (scope_jobs key_text ready_subject ready_body tables db) e ∙ rw ready refl

  final_jobs_not_ready :
      (tables : SummaryDb) (db : ScopeDb) (batch : Option ℕ) (scope : MapScope)
      → scope_of db batch ≡ some scope
      → (map_summary tables scope.product_id scope.tenant_id scope.bom_version_id).ready_for_final
        ≡ false
      → final_jobs tables db batch ≡ []
  unfolding notify_final_validation_ready
  final_jobs_not_ready tables db batch scope e unready =
      ap (scope_jobs key_text ready_subject ready_body tables db) e ∙ rw unready refl

  module _ (tables tables_later : SummaryDb) (now later : ℕ) (ses ses_later : Mail → Bool)
      (scope : MapScope) where
    In-runs :
        (u : OemUser) (us : List OemUser)
        → In u us
        → In (run_of now ses (ready_job key_text ready_subject ready_body tables scope u)) (
            map
              (run_of now ses)
              (map (ready_job key_text ready_subject ready_body tables scope) us))
    In-runs u [] h = h
    In-runs u (v ∷ vs) (inl e) =
        inl
          (ap (λ x. run_of now ses (ready_job key_text ready_subject ready_body tables scope x)) e)
    In-runs u (v ∷ vs) (inr h) = inr (In-runs u vs h)

    users-IsRepeat :
        (us vs : List OemUser)
        → ((u : OemUser) → In u vs → In u us)
        → All
            (IsRepeat (
              map
                (run_of now ses)
                (map (ready_job key_text ready_subject ready_body tables scope) us)))
            (map
              (run_of later ses_later)
              (map (ready_job key_text ready_subject ready_body tables_later scope) vs))
    users-IsRepeat us [] h = tt
    users-IsRepeat us (v ∷ vs) h = (
      (
        run_of now ses (ready_job key_text ready_subject ready_body tables scope v),
        In-runs v us (h v (inl refl)),
        refl,
        refl,
      ),
      users-IsRepeat us vs (λ u i. h u (inr i)),
    )

    final_jobs-IsRepeat :
        (db db' : ScopeDb) (first second : Option ℕ)
        → scope_of db first ≡ some scope
        → scope_of db' second ≡ some scope
        → ((u : OemUser)
            → In u (keep (is_oem_user scope.tenant_id) db'.users)
            → In u (keep (is_oem_user scope.tenant_id) db.users))
        → (map_summary tables scope.product_id scope.tenant_id scope.bom_version_id).ready_for_final
          ≡ true
        → All
            (IsRepeat (map (run_of now ses) (final_jobs tables db first)))
            (map (run_of later ses_later) (final_jobs tables_later db' second))
    final_jobs-IsRepeat db db' first second e f known ready =
        let users = keep (is_oem_user scope.tenant_id) db.users in
        let users' = keep (is_oem_user scope.tenant_id) db'.users in
        let before = final_jobs-ready tables db first scope e ready in
        subst
          (λ js.
            All (IsRepeat (map (run_of now ses) js))
              (map (run_of later ses_later) (final_jobs tables_later db' second)))
          (sym before)
          (elim (Bool-cases
            (map_summary tables_later scope.product_id scope.tenant_id
              scope.bom_version_id).ready_for_final) [
                | inl again ↦
                    subst
                      (λ js.
                        All
                          (IsRepeat (
                            map (run_of now ses) (
                              map (ready_job key_text ready_subject ready_body tables scope)
                                users)))
                          (map (run_of later ses_later) js))
                      (sym (final_jobs-ready tables_later db' second scope f again))
                      (users-IsRepeat users users' known)
                | inr unready ↦
                    subst
                      (λ js.
                        All
                          (IsRepeat (
                            map (run_of now ses) (
                              map (ready_job key_text ready_subject ready_body tables scope)
                                users)))
                          (map (run_of later ses_later) js))
                      (sym (final_jobs_not_ready tables_later db' second scope f unready)) tt
              ])

    -- Once the jobs of an event for a complete map have run, a later event for the map, also of another
    -- batch and with other numbers, changes nothing as long as the active users of the tenant with one of
    -- the roles are among those of the first event.
    pub final_jobs_again :
        (config : MailConfig) (notices : NoticeDb) (db db' : ScopeDb) (first second : Option ℕ)
        → scope_of db first ≡ some scope
        → scope_of db' second ≡ some scope
        → ((u : OemUser)
            → In u (keep (is_oem_user scope.tenant_id) db'.users)
            → In u (keep (is_oem_user scope.tenant_id) db.users))
        → (map_summary tables scope.product_id scope.tenant_id scope.bom_version_id).ready_for_final
          ≡ true
        → process_all config
            (process_all config notices (map (run_of now ses) (final_jobs tables db first)))
            (map (run_of later ses_later) (final_jobs tables_later db' second))
          ≡ process_all config notices (map (run_of now ses) (final_jobs tables db first))
    final_jobs_again config notices db db' first second e f known ready =
        process_all_again config (map (run_of now ses) (final_jobs tables db first))
          (map (run_of later ses_later) (final_jobs tables_later db' second)) notices
          (final_jobs-IsRepeat db db' first second e f known ready)
