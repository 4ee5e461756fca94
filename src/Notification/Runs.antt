-- ===== src/Notification/Runs.antt =====
-- How often backend/workers/notification_worker.py stores and mails what it is given.
use project_main.Prelude.{
  ℕ, ◌+◌, ◌≤◌, ◌≡◌, refl, sym, ◌∙◌, subst, Bool, true, false, not, ◌||◌, inl, inr, String, Option,
  none, some, List, [], ◌∷◌, ◌++◌, arith, map, any, count, count-append, count-ne-any, find,
  update_where, str_eq, str_eq_iff, if◌then◌else◌, Bool-cases,
}
use project_main.Notification.{
  MailConfig, Mail, send_email, Notice, NoticeJob, Sending, NoticeDb, has_dedup_key, is_recipient,
  with_notice, address_of, set_sent, sending, mail_for, deliver, process_notification, Run, after,
  process_all,
}

pub any-append :
    {A : Type 0} (p : A → Bool) (xs ys : List A) → any p (xs ++ ys) ≡ (any p xs || any p ys)
any-append p [] ys = refl
any-append p (x ∷ xs) ys = ground (arith, any-append p xs ys)

abbrev pub sent_for : String → Sending → Bool
sent_for k s = str_eq k s.for_key

-- A text is the key of one row at most, and of no more messages than rows.
abbrev pub IsOnce : String → NoticeDb → Type 0
IsOnce k db =
    (count (has_dedup_key k) db.notices ≤ 1)
    × (count (sent_for k) db.outbox ≤ count (has_dedup_key k) db.notices)

count-update :
    (k key : String) (now : ℕ) (ns : List Notice)
    → count (has_dedup_key k) (update_where (has_dedup_key key) (set_sent now) ns)
      ≡ count (has_dedup_key k) ns
count-update k key now [] = refl
count-update k key now (n ∷ ns) = ground (arith, count-update k key now ns)

any-update :
    (k key : String) (now : ℕ) (ns : List Notice)
    → any (has_dedup_key k) (update_where (has_dedup_key key) (set_sent now) ns)
      ≡ any (has_dedup_key k) ns
any-update k key now [] = refl
any-update k key now (n ∷ ns) = ground (arith, any-update k key now ns)

-- A call of send_email gives SES one message at most.
count-send_email :
    (config : MailConfig) (ses : Mail → Bool) (to : List String) (subject key k : String)
    (text html : Option String)
    → count (sent_for k) (map (sending key) (send_email config ses to subject text html).1)
      ≤ (if str_eq k key then 1 else 0)
unfolding send_email
count-send_email config ses to subject key k text html = ground arith

count-mail_for :
    (config : MailConfig) (ses : Mail → Bool) (job : NoticeJob) (to : Option String) (k : String)
    → count (sent_for k) (map (sending job.dedup_key) (mail_for config ses job to).1)
      ≤ (if str_eq k job.dedup_key then 1 else 0)
count-mail_for config ses job none k = ground arith
count-mail_for config ses job (some to) k =
    ground (
      arith,
      count-send_email config ses (to ∷ []) job.subject job.dedup_key k (some job.body) none,
    )

count-deliver :
    (config : MailConfig) (ses : Mail → Bool) (now : ℕ) (db : NoticeDb) (job : NoticeJob)
    (k : String)
    → (count (has_dedup_key k) (deliver config ses now db job).1.notices
        ≡ count (has_dedup_key k) db.notices)
      × (count (sent_for k) (deliver config ses now db job).1.outbox
          ≤ count (sent_for k) db.outbox + (if str_eq k job.dedup_key then 1 else 0))
unfolding deliver
count-deliver config ses now db job k =
    let to = address_of (find (is_recipient job.user_id) db.recipients) in
    ground (
      arith,
      count-update k job.dedup_key now db.notices,
      count-mail_for config ses job to k,
      count-append (sent_for k) db.outbox
          (map (sending job.dedup_key) (mail_for config ses job to).1),
    )

pub any-deliver :
    (config : MailConfig) (ses : Mail → Bool) (now : ℕ) (db : NoticeDb) (job : NoticeJob)
    (k : String)
    → any (has_dedup_key k) (deliver config ses now db job).1.notices
      ≡ any (has_dedup_key k) db.notices
unfolding deliver
any-deliver config ses now db job k = ground (arith, any-update k job.dedup_key now db.notices)

not_taken :
    (k key : String) (ns : List Notice)
    → any (has_dedup_key key) ns ≡ false
    → str_eq k key ≡ true
    → count (has_dedup_key k) ns ≡ 0
not_taken k key ns h same =
    count-ne-any (has_dedup_key k) ns
      (subst (λ x. any (has_dedup_key x) ns ≡ false) (sym ((str_eq_iff k key).0 same)) h)

once_added :
    (n m rows mails : ℕ) (same : Bool)
    → n ≤ 1
    → m ≤ n
    → (same ≡ true → n ≡ 0)
    → rows ≡ n + (if same then 1 else 0)
    → mails ≤ m + (if same then 1 else 0)
    → (rows ≤ 1) × (mails ≤ rows)
once_added n m rows mails same a b c d e = ground (arith, c)

-- The key of the job is taken, or its user is unknown.
abbrev pub is_settled : NoticeDb → NoticeJob → Bool
is_settled db job =
    any (has_dedup_key job.dedup_key) db.notices
    || not (any (is_recipient job.user_id) db.recipients)

abbrev pub delivered : MailConfig → NoticeDb → Run → NoticeDb
delivered config db r = (deliver config r.ses r.now (with_notice db r.job r.now) r.job).1

pub after-settled :
    (config : MailConfig) (db : NoticeDb) (r : Run)
    → is_settled db r.job ≡ true
    → after config db r ≡ db
unfolding after process_notification
after-settled config db r h = ground arith

pub after-delivered :
    (config : MailConfig) (db : NoticeDb) (r : Run)
    → is_settled db r.job ≡ false
    → after config db r ≡ delivered config db r
unfolding after process_notification
after-delivered config db r h = ground arith

after-IsOnce :
    (config : MailConfig) (db : NoticeDb) (r : Run) (k : String)
    → IsOnce k db
    → IsOnce k (after config db r)
after-IsOnce config db r k (le, mails) = elim (Bool-cases (is_settled db r.job)) [
  | inl s ↦ subst (IsOnce k) (sym (after-settled config db r s)) (le, mails)
  | inr f ↦
      let c = count-deliver config r.ses r.now (with_notice db r.job r.now) r.job k in
      let free : any (has_dedup_key r.job.dedup_key) db.notices ≡ false = ground arith in
      subst (IsOnce k) (sym (after-delivered config db r f)) (
        once_added (count (has_dedup_key k) db.notices) (count (sent_for k) db.outbox) _ _
          (str_eq k r.job.dedup_key) le mails (not_taken k r.job.dedup_key db.notices free)
          (c.0 ∙ count-append (has_dedup_key k) db.notices _ ∙ ground arith) c.1)
]

-- Whatever jobs the worker is given, in whatever order and however often, and whatever SES answers: where
-- a key had one row at most and no more messages than rows, it has so after all of them. So a key has one
-- row and one message at most.
pub process_all-IsOnce :
    (config : MailConfig) (k : String) (runs : List Run) (db : NoticeDb)
    → IsOnce k db
    → IsOnce k (process_all config db runs)
unfolding process_all
process_all-IsOnce config k [] db h = h
process_all-IsOnce config k (r ∷ rs) db h =
    process_all-IsOnce config k rs (after config db r) (after-IsOnce config db r k h)
