-- ===== src/Access.antt =====
-- backend/infrastructure/acl.py and auth.py: who may see which supplier's data, and the tests of a
-- user before an endpoint runs. Tokens and UUIDs are parsed by parameters.
use project_main.Prelude.{
  ℕ, String, Bool, true, false, not, ◌&&◌, ◌||◌, Option, none, some, List, [], ◌∷◌, ◌==◌, str_eq,
  if◌then◌else◌, Result, ok, err, http, ◌>>◌, raise_if, find, any,
}
use project_main.SupplyChain.{SupplyEdge, SupplierRow, is_id}

pub record CurrentUser : Type 0 where
  pub user_id : ℕ
  pub role : String
  pub tenant_id : Option ℕ
  pub supplier_id : Option ℕ

pub record UserRow : Type 0 where
  pub user_id : ℕ
  pub tenant_id : Option ℕ

pub data ConsentStatus : Type 0 where
  consent_pending consent_agreed consent_rejected : ConsentStatus

-- A row of supplier_onboarding, in the order of its ids.
pub record Onboarding : Type 0 where
  pub supplier_id : ℕ
  pub consent_status : Option ConsentStatus

pub record AccessDb : Type 0 where
  pub users : List UserRow
  pub suppliers : List SupplierRow
  pub edges : List SupplyEdge
  pub onboardings : List Onboarding

-- `_EXEMPT_ROLES`
abbrev pub exempt_roles : List String
exempt_roles = "admin" ∷ "owner_esg" ∷ "owner_purchasing" ∷ []

unfoldable pub is_exempt : String → Bool
is_exempt role = any (str_eq role) exempt_roles

-- `s.tenant_id = u.tenant_id`, where a NULL equals nothing
abbrev pub same_tenant : Option ℕ → Option ℕ → Bool
same_tenant none b = false
same_tenant (some a) b = is_id a b

-- `get_supplier_id_for_user`: the first supplier of the user's tenant.
unfoldable pub get_supplier_id_for_user : AccessDb → ℕ → Option ℕ
get_supplier_id_for_user db uid = elim (find (λ (u : UserRow). uid == u.user_id) db.users) [
  | none ↦ none
  | some u ↦ elim (find (λ (s : SupplierRow). same_tenant u.tenant_id s.tenant_id) db.suppliers) [
    | none ↦ none
    | some s ↦ some s.supplier_id
  ]
]

abbrev pub connects : ℕ → ℕ → SupplyEdge → Bool
connects acc tgt e =
    is_id acc e.parent_supplier_id && is_id tgt e.child_supplier_id
    || is_id acc e.child_supplier_id && is_id tgt e.parent_supplier_id

-- `check_supplier_access`
unfoldable pub check_supplier_access : AccessDb → ℕ → ℕ → Bool
check_supplier_access db acc tgt = if acc == tgt then true else any (connects acc tgt) db.edges

-- A UUID in the path: missing, malformed, or an id.
pub data PathParam : Type 0 where
  missing malformed : PathParam
  uuid : ℕ → PathParam

-- The checker of `require_supplier_self_or_connected`.
unfoldable pub require_supplier_self_or_connected :
    AccessDb → CurrentUser → PathParam → Result CurrentUser
require_supplier_self_or_connected db user missing = ok user
require_supplier_self_or_connected db user malformed =
    if is_exempt user.role then ok user else err (http 422)
require_supplier_self_or_connected db user (uuid target) =
    if is_exempt user.role then ok user else elim (get_supplier_id_for_user db user.user_id) [
      | none ↦ ok user
      | some mine ↦ if check_supplier_access db mine target then ok user else err (http 403)
    ]

-- The claims of a token; `sub` is none where the claim is missing.
pub record Claims : Type 0 where
  pub sub : Option String
  pub role : Option String
  pub tenant_id : Option String
  pub supplier_id : Option String

module _ (verify_access_token : String → Option Claims) (parse_uuid : String → Option ℕ) where
  -- `_parse_optional_uuid`
  unfoldable pub parse_optional_uuid : Option String → Option ℕ
  parse_optional_uuid none = none
  parse_optional_uuid (some value) = parse_uuid value

  -- `get_current_user` from the claims on
  unfoldable pub user_of_claims : Claims → Result CurrentUser
  user_of_claims claims = elim claims.sub [
    | none ↦ err (http 401)
    | some sub ↦ elim claims.role [
      | none ↦ err (http 401)
      | some role ↦ elim (parse_uuid sub) [
        | none ↦ err (http 401)
        | some id ↦ ok (record {
          user_id = id;
          role = role;
          tenant_id = parse_optional_uuid claims.tenant_id;
          supplier_id = parse_optional_uuid claims.supplier_id;
        })
      ]
    ]
  ]

  -- `get_current_user`; an empty token counts as a missing one
  unfoldable pub get_current_user : Option String → Result CurrentUser
  get_current_user none = err (http 401)
  get_current_user (some token) =
      if str_eq token "" then err (http 401) else elim (verify_access_token token) [
        | none ↦ err (http 401)
        | some claims ↦ user_of_claims claims
      ]

-- `require_role`
unfoldable pub require_role : List String → CurrentUser → Result CurrentUser
require_role roles user = do raise_if (not (any (str_eq user.role) roles)) (http 403); ok user

abbrev pub is_agreed : Option ConsentStatus → Bool
is_agreed (some consent_agreed) = true
is_agreed _ = false

-- The status of the first row of the supplier, if there is one.
unfoldable pub consent_of : AccessDb → ℕ → Option ConsentStatus
consent_of db sid = elim (find (λ (o : Onboarding). sid == o.supplier_id) db.onboardings) [
  | none ↦ none
  | some o ↦ o.consent_status
]

-- `require_supplier_consent`
unfoldable pub require_supplier_consent : AccessDb → CurrentUser → Result CurrentUser
require_supplier_consent db user = elim user.supplier_id [
  | none ↦ ok user
  | some sid ↦ do raise_if (not (is_agreed (consent_of db sid))) (http 403); ok user
]
