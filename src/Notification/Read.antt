-- ===== src/Notification/Read.antt =====
-- The notifications of a user and the mark that one is read (backend/domains/notifications/router.py).
use project_main.Prelude.{
  ℕ, ◌≡◌, ◌≢◌, refl, ap, ◌∙◌, Bool, true, false, not, ◌&&◌, String, some, List, [], ◌∷◌, map, keep,
  take, All, update_where, leb, ◌==◌, arith, if◌then◌else◌, Bool-cases, zero, suc, inl, inr, In,
  In-keep,
}
use project_main.Prelude.Sort.{sort_by, map-sort_by, map-take, In-sort_by}
use project_main.Notification.{
  Notice, NoticeDb, NoticeStatus, failed, read, NotificationType, reminder, violation,
  approval_needed, sla_warning, training_overdue, is_in_app,
}

-- The four kinds of the frontend; no text of the column has the kind `info` as its own.
pub data ShownType : Type 0 where
  shown_sla_warning shown_violation shown_approval_needed shown_info : ShownType

-- `_TYPE_MAP`
abbrev pub shown_type : NotificationType → ShownType
shown_type sla_warning = shown_sla_warning
shown_type violation = shown_violation
shown_type approval_needed = shown_approval_needed
shown_type reminder = shown_sla_warning
shown_type training_overdue = shown_info

-- `_DEEP_LINK`
pub data DeepLink : Type 0 where
  submit_documents submission_status ai_parsing company_info : DeepLink

abbrev pub deep_link : NotificationType → DeepLink
deep_link sla_warning = submit_documents
deep_link violation = submission_status
deep_link approval_needed = ai_parsing
deep_link reminder = submit_documents
deep_link training_overdue = company_info

abbrev pub is_failed : NoticeStatus → Bool
is_failed failed = true
is_failed _ = false

abbrev pub is_read : NoticeStatus → Bool
is_read read = true
is_read _ = false

-- What is shown of a notification; `shown_as_read` is the status, read or pending.
pub record ShownNotice : Type 0 where
  pub notification_id : ℕ
  pub notification_type : ShownType
  pub subject : String
  pub body : String
  pub shown_as_read : Bool
  pub created_at : ℕ
  pub link : DeepLink

abbrev pub shown : Notice → ShownNotice
shown n = record {
  notification_id = n.notification_id;
  notification_type = shown_type n.notification_type;
  subject = n.subject;
  body = n.body;
  shown_as_read = is_read n.status;
  created_at = n.created_at;
  link = deep_link n.notification_type;
}

abbrev pub listed : ℕ → Notice → Bool
listed user n = user == n.user_id && (is_in_app n.channel && not (is_failed n.status))

abbrev pub later : Notice → Notice → Bool
later a b = leb b.created_at a.created_at

abbrev pub list_limit : ℕ
list_limit = 50

unfoldable pub list_notifications : NoticeDb → ℕ → List ShownNotice
list_notifications db user =
    map shown (take list_limit (sort_by later (keep (listed user) db.notices)))

abbrev pub own_notice : ℕ → ℕ → Notice → Bool
own_notice id user n = id == n.notification_id && user == n.user_id

abbrev pub set_read : ℕ → Notice → Notice
set_read now n = record n { status = read; read_at = some now }

unfoldable pub mark_notification_read : NoticeDb → ℕ → ℕ → ℕ → NoticeDb
mark_notification_read db now id user = record db {
  notices = update_where (own_notice id user) (set_read now) db.notices;
}

-- What a marked notification is shown as.
abbrev pub seen : ℕ → ShownNotice → ShownNotice
seen id n = if id == n.notification_id then record n { shown_as_read = true } else n

module _ (now id user : ℕ) where
  abbrev mark : Notice → Notice
  mark n = if own_notice id user n then set_read now n else n

  keep-other :
      (other : ℕ) (ns : List Notice)
      → other ≢ user
      → keep (listed other) (update_where (own_notice id user) (set_read now) ns)
        ≡ keep (listed other) ns
  keep-other other [] h = refl
  keep-other other (n ∷ ns) h = elim (Bool-cases (own_notice id user n)) [
    | inl own ↦
        let not_own : (other == n.user_id) ≡ false = ground (arith, h) in
        rw own (rw not_own (keep-other other ns h))
    | inr not_own ↦
        rw not_own (ap (λ rest. if listed other n then n ∷ rest else rest) (keep-other other ns h))
  ]

  later-mark : (x y : Notice) → later (mark x) (mark y) ≡ later x y
  later-mark x y = ground arith

  listed-mark : (n : Notice) → is_failed n.status ≡ false → listed user (mark n) ≡ listed user n
  listed-mark n h = ground arith

  keep-own :
      (ns : List Notice)
      → All (λ (n : Notice). is_failed n.status ≡ false) ns
      → keep (listed user) (update_where (own_notice id user) (set_read now) ns)
        ≡ map mark (keep (listed user) ns)
  keep-own [] h = refl
  keep-own (n ∷ ns) (ok_status, h) = elim (Bool-cases (listed user n)) [
    | inl e ↦ rw e (rw (listed-mark n ok_status ∙ e) (ap (λ rest. mark n ∷ rest) (keep-own ns h)))
    | inr e ↦ rw e (rw (listed-mark n ok_status ∙ e) (keep-own ns h))
  ]

  shown-mark : (n : Notice) → listed user n ≡ true → shown (mark n) ≡ seen id (shown n)
  shown-mark n h = ground arith

  In-take : (n : ℕ) (a : Notice) (xs : List Notice) → In a (take n xs) → In a xs
  In-take zero a xs h = absurd h
  In-take (suc n) a [] h = h
  In-take (suc n) a (x ∷ xs) (inl e) = inl e
  In-take (suc n) a (x ∷ xs) (inr h) = inr (In-take n a xs h)

  map-shown :
      (xs : List Notice)
      → ((n : Notice) → In n xs → listed user n ≡ true)
      → map shown (map mark xs) ≡ map (seen id) (map shown xs)
  map-shown [] h = refl
  map-shown (x ∷ xs) h =
      rw (shown-mark x (h x (inl refl)))
        (ap (λ ns. seen id (shown x) ∷ ns) (map-shown xs (λ n i. h n (inr i))))

  shown_rows :
      (db : NoticeDb) (n : Notice)
      → In n (take list_limit (sort_by later (keep (listed user) db.notices)))
      → listed user n ≡ true
  shown_rows db n h =
      (In-keep (listed user) n db.notices (In-sort_by later n _ (In-take list_limit n _ h))).1

  -- Where no row is failed, the mark shows the notification as read in the list of its own user, keeps the
  -- other rows of the list and their order, and changes the list of no other user.
  pub mark_notification_read-list :
      (db : NoticeDb)
      → All (λ (n : Notice). is_failed n.status ≡ false) db.notices
      → (list_notifications (mark_notification_read db now id user) user
          ≡ map (seen id) (list_notifications db user))
        × ((other : ℕ)
            → other ≢ user
            → list_notifications (mark_notification_read db now id user) other
              ≡ list_notifications db other)
  unfolding list_notifications mark_notification_read
  mark_notification_read-list db h =
      let rows = keep (listed user) db.notices in
      (
        ap (λ ns. map shown (take list_limit (sort_by later ns))) (keep-own db.notices h)
            ∙ ap (λ ns. map shown (take list_limit ns)) (map-sort_by later mark later-mark rows)
            ∙ ap (map shown) (map-take mark list_limit (sort_by later rows))
            ∙ map-shown (take list_limit (sort_by later rows)) (shown_rows db),
        λ other ne.
            ap (λ ns. map shown (take list_limit (sort_by later ns)))
              (keep-other other db.notices ne),
      )
