-- ===== src/Notification/Handlers.antt =====
-- The handlers that send mails and notifications: backend/handlers/supplier_invited.py and
-- backend/handlers/final_validation_notify.py. The wording of the texts is a parameter.
use project_main.Prelude.{
  ℕ, String, Bool, false, ◌&&◌, Option, none, some, List, [], ◌∷◌, ◌++◌, ◌==◌, map, find, any, keep,
  str_eq, if◌then◌else◌,
}
use project_main.SupplyChain.{SupplyDb}
use project_main.SupplyChain.Updates.{record_discovered_via}
use project_main.SupplyChain.Gaps.{GapNode, ValidationSummary, get_validation_summary}
use project_main.Notification.{
  MailConfig, Mail, send_email, filled, NoticeJob, in_app, approval_needed,
}

-- The payload of SupplierInvited.
pub record Invited : Type 0 where
  pub supplier_id : Option ℕ
  pub inviter_supplier_id : Option ℕ
  pub email_address : Option String

unfoldable pub supplychain_record_discovered_via : SupplyDb → Invited → SupplyDb
supplychain_record_discovered_via db payload = elim payload.supplier_id [
  | none ↦ db
  | some invitee ↦ elim payload.inviter_supplier_id [
    | none ↦ db
    | some inviter ↦ (record_discovered_via db invitee inviter).1
  ]
]

-- The key 'invite_email:{supplier_id}:{date}' of processed_jobs.
pub record InviteKey : Type 0 where
  pub supplier_id : ℕ
  pub day : ℕ

abbrev pub same_invite : InviteKey → InviteKey → Bool
same_invite j k = j.supplier_id == k.supplier_id && j.day == k.day

-- A message given to SES, with the supplier and the day of it, and whether SES took it.
pub record InviteSending : Type 0 where
  pub key : InviteKey
  pub mail : Mail
  pub taken : Bool

-- The keys of the invitations in processed_jobs, and the messages that SES has been given.
pub record InviteDb : Type 0 where
  pub claimed : List InviteKey
  pub outbox : List InviteSending

-- One delivery of the event: the payload, the day, and SES as it is then.
pub record InviteRun : Type 0 where
  pub payload : Invited
  pub day : ℕ
  pub ses : Mail → Bool

abbrev pub given_to_ses : InviteKey → Bool → Mail → InviteSending
given_to_ses key taken mail = record { key = key; mail = mail; taken = taken }

module _ (config : MailConfig) (invitation_subject : String) (invitation_body : ℕ → String) where
  -- The claim is committed before the mail is sent.
  abbrev pub claim_and_send : InviteDb → InviteKey → (Mail → Bool) → String → InviteDb
  claim_and_send db key ses to =
      if any (same_invite key) db.claimed
      then db
      else let answer =
          send_email config ses (to ∷ []) invitation_subject
            (some (invitation_body key.supplier_id)) none in
        record {
          claimed = db.claimed ++ key ∷ [];
          outbox = db.outbox ++ map (given_to_ses key answer.0) answer.1;
        }

  unfoldable pub send_supplier_invitation_email : InviteDb → InviteRun → InviteDb
  send_supplier_invitation_email db r = elim r.payload.supplier_id [
    | none ↦ db
    | some supplier ↦ elim r.payload.email_address [
      | none ↦ db
      | some to ↦
          if filled to
          then claim_and_send db (record { supplier_id = supplier; day = r.day }) r.ses to
          else db
    ]
  ]

  unfoldable pub send_invitations : InviteDb → List InviteRun → InviteDb
  send_invitations db [] = db
  send_invitations db (r ∷ rs) = send_invitations (send_supplier_invitation_email db r) rs

-- The columns of batches, products and users that the final validation reads.
pub record ScopeRow : Type 0 where
  pub batch_id : ℕ
  pub product_id : Option ℕ
  pub bom_version_id : Option ℕ
  pub tenant_id : Option ℕ

pub record ProductTenant : Type 0 where
  pub product_id : ℕ
  pub tenant_id : Option ℕ

pub record OemUser : Type 0 where
  pub user_id : ℕ
  pub tenant_id : Option ℕ
  pub role : String
  pub is_active : Bool

pub record ScopeDb : Type 0 where
  pub batches : List ScopeRow
  pub products : List ProductTenant
  pub users : List OemUser

-- The map that is judged.
pub record MapScope : Type 0 where
  pub product_id : ℕ
  pub bom_version_id : Option ℕ
  pub tenant_id : ℕ

abbrev pub product_tenant : ScopeDb → ℕ → Option ℕ
product_tenant db product =
    elim (find (λ (p : ProductTenant). product == p.product_id) db.products) [
      | none ↦ none
      | some p ↦ p.tenant_id
    ]

-- The tenant of the batch, or else that of the product.
abbrev pub tenant_or_product : ScopeDb → ScopeRow → ℕ → Option ℕ
tenant_or_product db row product = elim row.tenant_id [
  | none ↦ product_tenant db product
  | some t ↦ some t
]

abbrev pub scope_of_row : ScopeDb → Option ScopeRow → Option MapScope
scope_of_row db none = none
scope_of_row db (some row) = elim row.product_id [
  | none ↦ none
  | some product ↦ elim (tenant_or_product db row product) [
    | none ↦ none
    | some tenant ↦
        some
          (record { product_id = product; bom_version_id = row.bom_version_id; tenant_id = tenant })
  ]
]

unfoldable pub scope_of : ScopeDb → Option ℕ → Option MapScope
scope_of db none = none
scope_of db (some batch) = scope_of_row db (find (λ (b : ScopeRow). batch == b.batch_id) db.batches)

-- `_OEM_ROLES`
abbrev pub oem_roles : List String
oem_roles = "owner_esg" ∷ "owner_purchasing" ∷ "admin" ∷ []

abbrev pub of_tenant : ℕ → Option ℕ → Bool
of_tenant tenant none = false
of_tenant tenant (some t) = tenant == t

abbrev pub is_oem_user : ℕ → OemUser → Bool
is_oem_user tenant u =
    of_tenant tenant u.tenant_id && (any (str_eq u.role) oem_roles && u.is_active)

-- What SupplyChainService.get_validation_summary has from its repository: the nodes of a product with
-- their gaps, and whether the ratios of a product, a tenant and a version are valid.
pub record SummaryDb : Type 0 where
  pub nodes_of : ℕ → List GapNode
  pub all_valid : ℕ → ℕ → Option ℕ → Bool

abbrev pub map_summary : SummaryDb → ℕ → ℕ → Option ℕ → ValidationSummary
map_summary tables product tenant version =
    get_validation_summary (tables.nodes_of product) (tables.all_valid product tenant version)

-- The texts of the notification, and what the summary is made of.
module _ (key_text : ℕ → Option ℕ → ℕ → String) (ready_subject : String)
    (ready_body : ℕ → ℕ → String) (tables : SummaryDb) where
  abbrev pub ready_job : MapScope → OemUser → NoticeJob
  ready_job scope u =
      let s = map_summary tables scope.product_id scope.tenant_id scope.bom_version_id in
      record {
        user_id = u.user_id;
        channel = in_app;
        notification_type = approval_needed;
        subject = ready_subject;
        body = ready_body s.supplier_count s.max_tier;
        dedup_key = key_text scope.product_id scope.bom_version_id u.user_id;
      }

  abbrev pub ready_jobs : ScopeDb → MapScope → List NoticeJob
  ready_jobs db scope =
      if (map_summary tables scope.product_id scope.tenant_id scope.bom_version_id).ready_for_final
      then map (ready_job scope) (keep (is_oem_user scope.tenant_id) db.users)
      else []

  abbrev pub scope_jobs : ScopeDb → Option MapScope → List NoticeJob
  scope_jobs db none = []
  scope_jobs db (some scope) = ready_jobs db scope

  -- `notify_final_validation_ready`, with the jobs that it gives to the queue
  unfoldable pub notify_final_validation_ready : ScopeDb → Option ℕ → List NoticeJob
  notify_final_validation_ready db batch = scope_jobs db (scope_of db batch)
