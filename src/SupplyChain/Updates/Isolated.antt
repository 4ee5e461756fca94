-- ===== src/SupplyChain/Updates/Isolated.antt =====
-- Tenants, the graph and the companies under the changes of
-- backend/domains/supplychain/repository.py and service.py.
use project_main.Prelude.{
  ℕ, ◌≡◌, refl, ◌≢◌, ◌↔◌, String, Bool, true, false, not, ◌&&◌, Option, some, List, [], ◌∷◌, ◌++◌,
  ◌==◌, ==_iff, arith, if◌then◌else◌, any, keep, length, find, update_where, All, ok, value_error,
  raise_if, err-ne-ok, ◌>>◌, Bool-cases, inl, inr, sym, ap, ◌∙◌, false-ne-true, str_eq, str_eq_iff,
}
use project_main.SupplyChain.{
  verified, unverified, SupplyEdge, MapStatus, building, completed, MapHeader, SupplierRow,
  SupplyDb, notification_sent,
}
use project_main.SupplyChain.Cycles.{IsRaised, IsAcyclic}
use project_main.SupplyChain.Updates.{
  owned_product, owned_version, confirm_edge, confirmable, confirm_map, in_pool, confirm_pool,
  invited_edge, record_discovered_via, verified_edge, set_supplier_verification, owned_map,
  with_status, set_map_status, legal_entity, is_row, is_cross_company_boundary,
  evaluate_cross_entity_boundary, request_supplier_correction,
}

-- Rows that a test keeps and an update leaves alone are not changed.
keep-update_where {ℓ} :
    {A : Type ℓ} (p q : A → Bool) (f : A → A) (xs : List A)
    → ((x : A) → p x ≡ true → q x ≡ false)
    → ((x : A) → p (f x) ≡ p x)
    → keep p (update_where q f xs) ≡ keep p xs
keep-update_where p q f [] apart same = refl
keep-update_where p q f (x ∷ xs) apart same =
    let rest = keep-update_where p q f xs apart same in
    elim (Bool-cases (p x)) [
      | inl e ↦ rw (apart x e) (rw e (ap (λ ys. x ∷ ys) rest))
      | inr e ↦ elim (Bool-cases (q x)) [
        | inl k ↦ rw k (rw e (rw (same x ∙ e) rest))
        | inr k ↦ rw k (rw e rest)
      ]
    ]

-- The edges of versions that are not the tenant's.
abbrev pub foreign_edge : SupplyDb → ℕ → SupplyEdge → Bool
foreign_edge db tenant e = not (owned_version db tenant e.bom_version_id)

-- Edges of maps that are not the tenant's.
abbrev pub foreign_map : SupplyDb → ℕ → MapHeader → Bool
foreign_map db tenant m = not (owned_product db tenant m.product_id)

-- A map of the version is the tenant's.
abbrev pub has_map : SupplyDb → ℕ → ℕ → List MapHeader → Bool
has_map db tenant bv maps =
    any (λ (m : MapHeader). bv == m.bom_version_id && owned_product db tenant m.product_id) maps

-- The edges of versions of which no map is the tenant's.
abbrev pub foreign_pool : SupplyDb → ℕ → SupplyEdge → Bool
foreign_pool db tenant e = not (has_map db tenant e.bom_version_id db.maps)

pool-apart :
    (db : SupplyDb) (map tenant bv : ℕ) (maps : List MapHeader)
    → has_map db tenant bv maps ≡ false
    → any
        (λ (m : MapHeader).
          bv == m.bom_version_id && (map == m.map_id && owned_product db tenant m.product_id))
        maps
      ≡ false
pool-apart db map tenant bv [] h = refl
pool-apart db map tenant bv (m ∷ ms) h = ground (arith, pool-apart db map tenant bv ms)

not-true : (b : Bool) → not b ≡ true → b ≡ false
not-true true h = cc
not-true false h = refl

with_status-product :
    (status : MapStatus) (user now : ℕ) (m : MapHeader)
    → (with_status status user now m).product_id ≡ m.product_id
with_status-product building user now m = refl
with_status-product completed user now m = refl

-- Confirming an edge changes no edge of a version of another tenant's product, confirming a pool no edge
-- of a version without a map of the tenant, and a new status no map of another tenant's product.
pub updates_foreign :
    (db : SupplyDb) (id tenant user now : ℕ) (ids : Option (List ℕ)) (status : MapStatus)
    → (keep (foreign_edge db tenant) (confirm_map db id tenant).1.edges
        ≡ keep (foreign_edge db tenant) db.edges)
      × (keep (foreign_pool db tenant) (confirm_pool db id tenant ids).1.edges
          ≡ keep (foreign_pool db tenant) db.edges)
      × (keep (foreign_map db tenant) (set_map_status db id status user tenant now).1.maps
          ≡ keep (foreign_map db tenant) db.maps)
unfolding confirm_map confirm_pool set_map_status
updates_foreign db id tenant user now ids status = (
  keep-update_where (foreign_edge db tenant) (confirmable db id tenant) confirm_edge db.edges
      (λ e h. let own = not-true _ h in ground (arith, own)) (λ e. refl),
  keep-update_where (foreign_pool db tenant) (in_pool db id tenant ids) confirm_edge db.edges
      (λ e h.
        let own = pool-apart db id tenant e.bom_version_id db.maps (not-true _ h) in
        ground (arith, own))
      (λ e. refl),
  keep-update_where (foreign_map db tenant) (owned_map db id tenant) (with_status status user now)
      db.maps (λ m h. let own = not-true _ h in ground (arith, own))
      (λ m. ap (λ i. not (owned_product db tenant i)) (with_status-product status user now m)),
)

All-update_where {ℓ κ} :
    {A : Type ℓ} (P : A → Type κ) (q : A → Bool) (f : A → A) (xs : List A)
    → ((x : A) → P x → P (f x))
    → All P xs
    → All P (update_where q f xs)
All-update_where P q f [] k h = tt
All-update_where P q f (x ∷ xs) k (px, h) = elim (Bool-cases (q x)) [
  | inl e ↦ rw e (k x px, All-update_where P q f xs k h)
  | inr e ↦ rw e (px, All-update_where P q f xs k h)
]

-- None of the four changes of edges that are there brings a cycle into the graph.
updates-IsAcyclic :
    (db : SupplyDb) (id tenant : ℕ) (ids : Option (List ℕ)) (flag : Bool)
    → IsAcyclic db.edges
    → IsAcyclic (confirm_map db id tenant).1.edges
      × IsAcyclic (confirm_pool db id tenant ids).1.edges
      × IsAcyclic (record_discovered_via db id tenant).1.edges
      × IsAcyclic (set_supplier_verification db id tenant flag).1.edges
unfolding confirm_map confirm_pool record_discovered_via set_supplier_verification
updates-IsAcyclic db id tenant ids flag (rank, h) =
    let raised = λ (e : SupplyEdge). IsRaised rank e.parent_supplier_id e.child_supplier_id in
    (
      (rank, All-update_where raised (confirmable db id tenant) confirm_edge db.edges (λ e k. k) h),
      (rank, All-update_where raised (in_pool db id tenant ids) confirm_edge db.edges (λ e k. k) h),
      (
        rank,
        All-update_where raised (invited_edge id) (λ e. record e { discovered_via = some tenant })
            db.edges (λ e k. k) h,
      ),
      (
        rank,
        All-update_where raised (verified_edge id tenant)
            (λ e. record e { verification_status = if flag then verified else unverified }) db.edges
            (λ e k. k) h,
      ),
    )

update_where-none {ℓ} :
    {A : Type ℓ} (q : A → Bool) (f g : A → A) (xs : List A)
    → ((x : A) → q x ≡ true → q (f x) ≡ false)
    → (keep q (update_where q f xs) ≡ [])
      × (update_where q g (update_where q f xs) ≡ update_where q f xs)
update_where-none q f g [] done = (refl, refl)
update_where-none q f g (x ∷ xs) done =
    let (gone, same) = update_where-none q f g xs done in
    elim (Bool-cases (q x)) [
      | inl e ↦ rw e (rw (done x e) (gone, ap (λ ys. f x ∷ ys) same))
      | inr e ↦ rw e (rw e (gone, ap (λ ys. x ∷ ys) same))
    ]

-- An invitation is recorded once: after it a second one of the same supplier, from whomever it comes,
-- changes no edge and counts none.
pub record_discovered_via_twice :
    (db : SupplyDb) (invitee first second : ℕ)
    → (record_discovered_via (record_discovered_via db invitee first).1 invitee second).0 ≡ 0
      × ((record_discovered_via (record_discovered_via db invitee first).1 invitee second).1.edges
          ≡ (record_discovered_via db invitee first).1.edges)
unfolding record_discovered_via
record_discovered_via_twice db invitee first second =
    let both =
      update_where-none (invited_edge invitee) (λ e. record e { discovered_via = some first })
        (λ e. record e { discovered_via = some second }) db.edges (λ e h. ground arith) in
    (ap length both.0, both.1)

requested :
    {A : Type 0} (x : A) (sender target : ℕ) (g h : String)
    → ((raise_if (not (if sender == target then false else not (str_eq g h))) value_error >> ok x)
        ≡ ok x)
      ↔ ((sender ≢ target) × (g ≢ h))
requested x sender target g h = elim (Bool-cases (sender == target)) [
  | inl e ↦ rw e ((λ k. absurd (err-ne-ok k)), (λ (d, k). absurd (d ((==_iff sender target).0 e))))
  | inr e ↦ elim (Bool-cases (str_eq g h)) [
    | inl k ↦
        rw e (rw k ((λ z. absurd (err-ne-ok z)), (λ (d, z). absurd (z ((str_eq_iff g h).0 k)))))
    | inr k ↦ rw e (
        rw k (
          (λ z. (
            (λ s. false-ne-true (sym e ∙ (==_iff sender target).1 s)),
            (λ s. false-ne-true (sym k ∙ (str_eq_iff g h).1 s)),
          )),
          (λ z. refl),
        ))
  ]
]

-- For two suppliers that exist, a correction is requested exactly if they are different suppliers of
-- different companies, and then one notification is published and nothing else changes.
pub request_supplier_correction_iff :
    (id_text : ℕ → String) (db : SupplyDb) (sender target : ℕ) (reason : String) (a b : SupplierRow)
    → find (is_row id_text sender) db.suppliers ≡ some a
    → find (is_row id_text target) db.suppliers ≡ some b
    → (request_supplier_correction id_text db sender target reason
        ≡ ok
            (record db { published = db.published ++ notification_sent sender target reason ∷ [] }))
      ↔ ((sender ≢ target) × (legal_entity id_text a ≢ legal_entity id_text b))
unfolding request_supplier_correction evaluate_cross_entity_boundary is_cross_company_boundary
request_supplier_correction_iff id_text db sender target reason a b ha hb =
    rw (ha, request_supplier_correction, evaluate_cross_entity_boundary, is_cross_company_boundary)
      (rw hb (requested _ sender target (legal_entity id_text a) (legal_entity id_text b)))
