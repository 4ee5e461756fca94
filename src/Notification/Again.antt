-- ===== src/Notification/Again.antt =====
-- What a job that backend/workers/notification_worker.py is given again changes.
use project_main.Prelude.{
  ◌≡◌, refl, sym, ap, ◌∙◌, subst, true, ◌||◌, inl, inr, String, List, [], ◌∷◌, arith, any, str_eq,
  str_eq_iff, Bool-cases, All, In,
}
use project_main.Notification.{
  MailConfig, NoticeJob, NoticeDb, has_dedup_key, is_recipient, with_notice, deliver,
  process_notification, Run, after, process_all,
}
use project_main.Notification.Runs.{
  any-append, any-deliver, is_settled, delivered, after-settled, after-delivered,
}

any-delivered :
    (config : MailConfig) (db : NoticeDb) (r : Run) (k : String)
    → any (has_dedup_key k) (delivered config db r).notices
      ≡ (any (has_dedup_key k) db.notices || str_eq k r.job.dedup_key)
any-delivered config db r k =
    any-deliver config r.ses r.now (with_notice db r.job r.now) r.job k
    ∙ any-append (has_dedup_key k) db.notices _
    ∙ ground arith

recipients-after :
    (config : MailConfig) (db : NoticeDb) (r : Run) → (after config db r).recipients ≡ db.recipients
unfolding after process_notification deliver
recipients-after config db r = ground arith

after-Settled :
    (config : MailConfig) (db : NoticeDb) (r : Run) → is_settled (after config db r) r.job ≡ true
after-Settled config db r = elim (Bool-cases (is_settled db r.job)) [
  | inl s ↦ subst (λ d. is_settled d r.job ≡ true) (sym (after-settled config db r s)) s
  | inr n ↦
      subst (λ d. is_settled d r.job ≡ true) (sym (after-delivered config db r n))
        (ground (
          arith,
          any-delivered config db r r.job.dedup_key,
          str_eq_iff r.job.dedup_key r.job.dedup_key,
        ))
]

still_settled :
    (config : MailConfig) (db : NoticeDb) (r : Run) (job : NoticeJob)
    → is_settled db job ≡ true
    → is_settled (after config db r) job ≡ true
still_settled config db r job h = elim (Bool-cases (is_settled db r.job)) [
  | inl s ↦ subst (λ d. is_settled d job ≡ true) (sym (after-settled config db r s)) h
  | inr n ↦ ground (
    arith,
    h,
    any-delivered config db r job.dedup_key,
    recipients-after config db r,
    ap (λ (d : NoticeDb). any (has_dedup_key job.dedup_key) d.notices)
        (after-delivered config db r n),
    ap (λ us. any (is_recipient job.user_id) us) (recipients-after config db r),
  )
]

process_all-settled :
    (config : MailConfig) (runs : List Run) (db : NoticeDb) (job : NoticeJob)
    → is_settled db job ≡ true
    → is_settled (process_all config db runs) job ≡ true
unfolding process_all
process_all-settled config [] db job h = h
process_all-settled config (r ∷ rs) db job h =
    process_all-settled config rs (after config db r) job (still_settled config db r job h)

In-settled :
    (config : MailConfig) (runs : List Run) (db : NoticeDb) (r : Run)
    → In r runs
    → is_settled (process_all config db runs) r.job ≡ true
unfolding process_all
In-settled config [] db r h = absurd h
In-settled config (s ∷ rs) db r (inl e) =
    subst (λ (x : Run). is_settled (process_all config (after config db s) rs) x.job ≡ true) (sym e)
      (process_all-settled config rs (after config db s) s.job (after-Settled config db s))
In-settled config (s ∷ rs) db r (inr h) = In-settled config rs (after config db s) r h

-- A run for the user and with the key of one of the runs.
abbrev pub IsRepeat : List Run → Run → Type 0
IsRepeat runs again =
    (r : Run) × In r runs
    × (r.job.user_id ≡ again.job.user_id)
    × (r.job.dedup_key ≡ again.job.dedup_key)

same_settled :
    (db : NoticeDb) (j k : NoticeJob)
    → j.user_id ≡ k.user_id
    → j.dedup_key ≡ k.dedup_key
    → is_settled db j ≡ true
    → is_settled db k ≡ true
same_settled db j k e f h = ground (
  arith,
  h,
  ap (λ u. any (is_recipient u) db.recipients) e,
  ap (λ c. any (has_dedup_key c) db.notices) f,
)

process_settled :
    (config : MailConfig) (again : List Run) (db : NoticeDb)
    → All (λ (r : Run). is_settled db r.job ≡ true) again
    → process_all config db again ≡ db
unfolding process_all
process_settled config [] db h = refl
process_settled config (r ∷ rs) db (s, h) =
    rw (after-settled config db r s) (process_settled config rs db h)

-- Runs for the users and with the keys of runs that have been change nothing, in any order and at any
-- time, also where SES had not taken a mail before and would now.
pub process_all_again :
    (config : MailConfig) (runs again : List Run) (db : NoticeDb)
    → All (IsRepeat runs) again
    → process_all config (process_all config db runs) again ≡ process_all config db runs
process_all_again config runs again db h =
    process_settled config again (process_all config db runs) (repeats runs again db h)
  where
    repeats :
        (runs again : List Run) (db : NoticeDb)
        → All (IsRepeat runs) again
        → All (λ (r : Run). is_settled (process_all config db runs) r.job ≡ true) again
    repeats runs [] db h = tt
    repeats runs (a ∷ as_well) db ((r, i, e, f), h) = (
      same_settled (process_all config db runs) r.job a.job e f (In-settled config runs db r i),
      repeats runs as_well db h,
    )
